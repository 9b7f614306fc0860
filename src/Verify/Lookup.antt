-- ===== src/Verify/Lookup.antt =====
-- src/verify.rs: the endpoint lookup tables that the survivor searches share.
use rust_miner.Base.{ℕ, zero, suc, ◌+◌, ◌≡◌, refl, sym, ◌∙◌, ap, arith, Bool-cases, inl, inr}
use rust_miner.Base.{
  Option, none, some, List, [], ◌∷◌, ◌++◌, map, length, get_or, ◌==◌, if◌then◌else◌,
}
use rust_miner.Base.{◌<◌, ==→≡, ◌∈◌, ≡→==, subst, true}
use mathlib.Core.List.{append-nil, append_assoc}
use rust_miner.Siphash.{SipKeys}
use rust_miner.Verify.{Side, u_side, v_side, at, edge_ends}

-- `HashMap<u32, Vec<usize>>`, as an association list with one entry for each key.
abbrev pub EndpointLookup : Type 0
EndpointLookup = List (ℕ × List ℕ)

-- `map.get(&node)`.
unfoldable pub get : ℕ → EndpointLookup → Option (List ℕ)
get node [] = none
get node ((key, edges) ∷ rest) =
    let later = get node rest in if key == node then some edges else later

-- `map.entry(node).or_insert_with(Vec::new).push(edge)`.
unfoldable pub push_at : ℕ → ℕ → EndpointLookup → EndpointLookup
push_at node edge [] = (node, edge ∷ []) ∷ []
push_at node edge ((key, edges) ∷ rest) =
    let later = push_at node edge rest in
    if key == node then (key, edges ++ edge ∷ []) ∷ rest else (key, edges) ∷ later

-- `[EndpointLookup; 2]`.
pub record EndpointIndex : Type 0 where
  pub u_lookup : EndpointLookup
  pub v_lookup : EndpointLookup

abbrev pub lookup_on : Side → EndpointIndex → EndpointLookup
lookup_on u_side index = index.u_lookup
lookup_on v_side index = index.v_lookup

-- The loop over the endpoints from edge index `i`.
unfoldable pub index_endpoints : ℕ → List (ℕ × ℕ) → EndpointIndex → EndpointIndex
index_endpoints i [] index = index
index_endpoints i (nodes ∷ rest) index = index_endpoints (suc i) rest (record {
  u_lookup = push_at (at u_side nodes) i index.u_lookup;
  v_lookup = push_at (at v_side nodes) i index.v_lookup;
})

unfoldable pub endpoint_index : SipKeys → ℕ → List ℕ → List (ℕ × ℕ) × EndpointIndex
endpoint_index keys edge_bits edges =
    let endpoints = map (edge_ends keys edge_bits) edges in
    (endpoints, index_endpoints 0 endpoints (record { u_lookup = []; v_lookup = [] }))

abbrev edges_of : Option (List ℕ) → List ℕ
edges_of none = []
edges_of (some edges) = edges

-- `index[side].get(&node).into_iter().flatten()`: the edges of a node, none if it has no entry.
unfoldable pub candidates : Side → ℕ → EndpointIndex → List ℕ
candidates side node index = edges_of (get node (lookup_on side index))

-- The same by a pass over the endpoints.
abbrev pub edges_at : Side → ℕ → ℕ → List (ℕ × ℕ) → List ℕ
edges_at side node i [] = []
edges_at side node i (nodes ∷ rest) =
    if at side nodes == node
    then i ∷ edges_at side node (suc i) rest
    else edges_at side node (suc i) rest

get-push_at :
    (node key edge : ℕ) (m : EndpointLookup)
    → edges_of (get node (push_at key edge m))
      ≡ edges_of (get node m) ++ (if key == node then edge ∷ [] else [])
unfolding get push_at
get-push_at node key edge [] = ground arith
get-push_at node key edge ((k, es) ∷ rest) =
    ground
      (arith, get-push_at node key edge rest, append-nil es, append-nil (edges_of (get node rest)))

candidates_push :
    (side : Side) (node i : ℕ) (nodes : ℕ × ℕ) (index : EndpointIndex)
    → candidates side node (record {
      u_lookup = push_at (at u_side nodes) i index.u_lookup;
      v_lookup = push_at (at v_side nodes) i index.v_lookup;
    })
      ≡ candidates side node index ++ (if at side nodes == node then i ∷ [] else [])
unfolding candidates
candidates_push u_side node i nodes index = get-push_at node nodes.0 i index.u_lookup
candidates_push v_side node i nodes index = get-push_at node nodes.1 i index.v_lookup

candidates-index_endpoints :
    (side : Side) (node i : ℕ) (endpoints : List (ℕ × ℕ)) (index : EndpointIndex)
    → candidates side node (index_endpoints i endpoints index)
      ≡ candidates side node index ++ edges_at side node i endpoints
unfolding index_endpoints
candidates-index_endpoints side node i [] index = sym (append-nil _)
candidates-index_endpoints side node i (nodes ∷ rest) index =
    let later = candidates-index_endpoints side node (suc i) rest _ in
    let old = candidates side node index in
    later
    ∙ ap (λ l. l ++ edges_at side node (suc i) rest) (candidates_push side node i nodes index)
    ∙ append_assoc old _ _
    ∙ ap (λ l. old ++ l) (ground arith)

candidates-empty :
    (side : Side) (node : ℕ) → candidates side node (record { u_lookup = []; v_lookup = [] }) ≡ []
unfolding candidates get
candidates-empty u_side node = refl
candidates-empty v_side node = refl

-- The tables hold for each side and node the indices of exactly the edges that end there, in
-- ascending order.
pub endpoint_index_lem :
    (keys : SipKeys) (edge_bits : ℕ) (edges : List ℕ) (side : Side) (node : ℕ)
    → candidates side node (endpoint_index keys edge_bits edges).1
      ≡ edges_at side node 0 (map (edge_ends keys edge_bits) edges)
unfolding endpoint_index
endpoint_index_lem keys edge_bits edges side node =
    let all = map (edge_ends keys edge_bits) edges in
    candidates-index_endpoints side node 0 all _
    ∙ ap (λ l. l ++ edges_at side node 0 all) (candidates-empty side node)

pub endpoint_index_nodes :
    (keys : SipKeys) (edge_bits : ℕ) (edges : List ℕ)
    → (endpoint_index keys edge_bits edges).0 ≡ map (edge_ends keys edge_bits) edges
unfolding endpoint_index
endpoint_index_nodes keys edge_bits edges = refl

-- Which indices those are.
pub mem-edges_at :
    (side : Side) (node i d : ℕ) (endpoints : List (ℕ × ℕ))
    → d < length endpoints
    → at side (get_or endpoints d (0, 0)) ≡ node
    → (i + d) ∈ edges_at side node i endpoints
mem-edges_at side node i d [] l e = absurd (omega arith)
mem-edges_at side node i zero (nodes ∷ rest) l e =
    rw (≡→== (at side nodes) node e) (inl (omega arith))
mem-edges_at side node i (suc d) (nodes ∷ rest) l e =
    let q : suc i + d ≡ i + suc d = omega arith in
    let later =
      subst (λ k. k ∈ edges_at side node (suc i) rest) q
        (mem-edges_at side node (suc i) d rest (omega arith) e) in
    elim (Bool-cases (at side nodes == node)) [ inl h ↦ rw h (inr later) | inr h ↦ rw h later ]

pub edges_at-mem :
    (side : Side) (node i j : ℕ) (endpoints : List (ℕ × ℕ))
    → j ∈ edges_at side node i endpoints
    → (d : ℕ) × (j ≡ i + d) × (d < length endpoints) × (at side (get_or endpoints d (0, 0)) ≡ node)
edges_at-mem side node i j [] m = absurd m
edges_at-mem side node i j (nodes ∷ rest) m = elim (Bool-cases (at side nodes == node)) [
  | inl h ↦ from (rw h at m) h (λ m'. further (edges_at-mem side node (suc i) j rest m'))
  | inr h ↦ further (edges_at-mem side node (suc i) j rest (rw h at m))
]
  where
    Found : Type 0
    Found =
        (d : ℕ) × (j ≡ i + d)
        × (d < suc (length rest))
        × (at side (get_or (nodes ∷ rest) d (0, 0)) ≡ node)

    further :
        ((d : ℕ) × (j ≡ suc i + d) × (d < length rest) × (at side (get_or rest d (0, 0)) ≡ node))
        → Found
    further (d, e, l, h) = (suc d, omega arith, omega arith, h)

    from :
        j ∈ (i ∷ edges_at side node (suc i) rest)
        → (at side nodes == node) ≡ true
        → (j ∈ edges_at side node (suc i) rest → Found)
        → Found
    from (inl e) h tail = (0, omega arith, omega arith, ==→≡ _ node h)
    from (inr m) h tail = tail m

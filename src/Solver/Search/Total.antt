-- ===== src/Solver/Search/Total.antt =====
-- `find_cycle` of src/solver/cpu_lean.rs returns, and what its answers mean.
use rust_miner.Base.{
  ℕ, zero, suc, ◌+◌, ◌≤◌, ◌<◌, ◌≡◌, ◌≢◌, sym, ◌∙◌, ap, true, false, Option, none, some, ok,
}
use rust_miner.Base.{
  List, [], ◌∷◌, map, get_or, length, length-map, arith, inl, inr, ◌⊎◌, ◌∈◌, subst, ltb, true≢false,
  none≢some, Bool-cases, ◌==◌, Result, ==→≡, ==→≢,
}
use rust_miner.Verify.{Proof, edge_ends, Side, u_side, other, verify_cycle}
use rust_miner.Verify.Spec.{IsProof}
use rust_miner.Verify.Correct.{verify_cycle_iff}
use rust_miner.Verify.Sorting.{nonces-sorted, length-Distinct}
use rust_miner.Verify.Lookup.{endpoint_index_nodes}
use rust_miner.Solver.{GraphParams, SolveError}
use rust_miner.Solver.Search.{
  Search, Verdict, hit, miss, limit, stuck, conclude, verifies, is_accepted, path_proof, dfs,
  search_from, find_cycle, new_search,
}
use rust_miner.Solver.Search.Visits.{missed, Linked, Disjoint, dfs_meets}
use rust_miner.Solver.Search.Tours.{IsRoute, route}

conclude_ne :
    (v : Verdict) (rest : Option (Result SolveError (Option Proof)))
    → (missed v ≡ false) ⊎ (rest ≢ some (ok none))
    → conclude v rest ≢ some (ok none)
conclude_ne (hit p) rest h e = cc
conclude_ne miss rest (inl h) e = true≢false h
conclude_ne miss rest (inr h) e = h e
conclude_ne limit rest h e = cc
conclude_ne stuck rest h e = none≢some e

-- A first edge from which the search does not miss keeps the whole search from coming back empty.
search_from_meets :
    (fuel : ℕ) (graph : Search) (left start s branches : ℕ)
    → ((b : ℕ) → missed (dfs fuel graph s s u_side (s ∷ []) (s ∷ []) b).0 ≡ false)
    → start ≤ s
    → s < start + left
    → search_from fuel graph left start branches ≢ some (ok none)
unfolding search_from
search_from_meets fuel graph zero start s branches good l u = absurd (omega arith)
search_from_meets fuel graph (suc left) start s branches good l u =
    let (verdict, branches') =
      dfs fuel graph start start u_side (start ∷ []) (start ∷ []) branches in
    conclude_ne verdict _ (elim (Bool-cases (start == s)) [
      | inl e ↦
          let here : s ≡ start = sym (==→≡ start s e) in
          inl (
            subst (λ k. missed (dfs fuel graph k k u_side (k ∷ []) (k ∷ []) branches).0 ≡ false)
              here (good branches))
      | inr e ↦ inr (
          search_from_meets fuel graph left (suc start) s branches' good
            (omega (arith, ==→≢ start s e)) (omega arith))
    ])

-- The edges that a cycle goes on with are edges there are.
Linked-lt :
    (nodes : List (ℕ × ℕ)) (current : ℕ) (side : Side) (start : ℕ) (rest : List ℕ)
    → Linked nodes current side start rest
    → (a : ℕ) → a ∈ rest
    → a < length nodes
Linked-lt nodes current side start [] k a m = absurd m
Linked-lt nodes current side start (next ∷ rest) k a (inl e) = let l = k.0 in omega arith
Linked-lt nodes current side start (next ∷ rest) k a (inr m) =
    Linked-lt nodes next (other side) start rest k.2 a m

apart : (first : ℕ) (rest : List ℕ) → ¬ (first ∈ rest) → Disjoint (first ∷ []) rest
apart first rest out a m (inl e) = out (subst (λ j. j ∈ rest) e m)
apart first rest out a m (inr nothing) = nothing

in_list :
    (first n : ℕ) (rest : List ℕ) (a : ℕ)
    → a ∈ (first ∷ rest)
    → first < n
    → (a ∈ rest → a < n)
    → a < n
in_list first n rest a (inl e) l more = omega arith
in_list first n rest a (inr m) l more = more m

module _ (request : GraphParams) (survivors : List ℕ) (proof : Proof)
    (p : IsProof request.keys request.edge_bits request.cycle_length proof)
    (kept : (a : ℕ) → a ∈ proof.nonces → a ∈ survivors) (pos : 0 < request.cycle_length) where
  route_verifies :
      (r : IsRoute request survivors proof p kept)
      → verifies request (path_proof (new_search request survivors) (r.first ∷ r.rest)) ≡ true
  route_verifies r =
      let path = r.first ∷ r.rest in
      let same : path_proof (new_search request survivors) path ≡ proof = λ i. record {
        nonces = (nonces-sorted (map (λ j. get_or survivors j 0) path) ∙ r.sorts) i;
      } in
      let accepted =
        (verify_cycle_iff request.keys request.edge_bits request.cycle_length proof).1 p in
      ap (verifies request) same ∙ ap is_accepted accepted

  enough_survivors :
      IsRoute request survivors proof p kept → request.cycle_length ≤ length survivors
  enough_survivors r =
      let ends = map (edge_ends request.keys request.edge_bits) survivors in
      let size = length-map (edge_ends request.keys request.edge_bits) survivors in
      let more = Linked-lt ends r.first u_side r.first r.rest r.linked in
      let most = length-Distinct (length survivors) (r.first ∷ r.rest) r.distinct (λ a m.
        in_list r.first (length survivors) r.rest a m r.in_range
          (λ m'. omega (arith, more a m', size))) in
      omega (arith, most, r.size)

  search_meets :
      (fuel : ℕ)
      → search_from fuel (new_search request survivors) (length survivors) 0 0 ≢ some (ok none)
  search_meets fuel =
      let r = route request survivors proof p kept pos in
      let nodes = sym (endpoint_index_nodes request.keys request.edge_bits survivors) in
      let link = subst (λ ns. Linked ns r.first u_side r.first r.rest) nodes r.linked in
      let disj : Disjoint (r.first ∷ []) r.rest = apart r.first r.rest r.distinct.0 in
      search_from_meets fuel _ (length survivors) 0 r.first 0
        (λ b.
          dfs_meets request survivors r.first r.in_range fuel r.first u_side (r.first ∷ [])
            (r.first ∷ []) r.rest b link r.size r.distinct.1 disj (route_verifies r))
        (omega arith) (let l = r.in_range in omega arith)

-- If the cycle length is positive and every edge of some proof that `verify_cycle` accepts is a
-- survivor, the search does not say that there is no cycle.
pub find_cycle_complete :
    (request : GraphParams) (survivors : List ℕ) (proof : Proof)
    → 0 < request.cycle_length
    → verify_cycle request.keys request.edge_bits request.cycle_length proof ≡ ok tt
    → ((a : ℕ) → a ∈ proof.nonces → a ∈ survivors)
    → find_cycle request survivors ≢ some (ok none)
unfolding find_cycle
find_cycle_complete request survivors proof pos v kept =
    let p = (verify_cycle_iff request.keys request.edge_bits request.cycle_length proof).0 v in
    let enough =
      enough_survivors request survivors proof p kept pos
        (route request survivors proof p kept pos) in
    let large : ltb (length survivors) request.cycle_length ≡ false = ground arith in
    rw large (search_meets request survivors proof p kept pos (suc (length survivors)))

-- ===== src/Verify/Spec.antt =====
-- What src/verify.rs promises: a proof is one cycle of the bipartite graph.
use rust_miner.Base.{ℕ, ◌^◌, ◌≤◌, ◌<◌, ◌≡◌, ◌≢◌, refl, Option, none, some, List, [], ◌∷◌, map}
use rust_miner.Base.{length, get_or, ◌∈◌}
use rust_miner.Siphash.{SipKeys, endpoint}
use rust_miner.Verify.{Proof, Side, u_side, v_side, number, other, at, mate_node, edge_ends}

-- Numbers above `previous`, strictly ascending, below `limit`.
abbrev pub AscendingFrom : ℕ → Option ℕ → List ℕ → Type 0
AscendingFrom limit previous [] = Unit
AscendingFrom limit none (n ∷ ns) = (n < limit) × AscendingFrom limit (some n) ns
AscendingFrom limit (some p) (n ∷ ns) = (n < limit) × (p < n) × AscendingFrom limit (some n) ns

abbrev pub Distinct : List ℕ → Type 0
Distinct [] = Unit
Distinct (x ∷ xs) = ¬ (x ∈ xs) × Distinct xs

-- On `side`, edge `j` is another edge that ends at the node complementary to that of edge `i`.
pub record IsMate (endpoints : List (ℕ × ℕ)) (side : Side) (i j : ℕ) : Type 0 where
  pub in_range : j < length endpoints
  pub differ : i ≢ j
  pub meet : at side (get_or endpoints j (0, 0)) ≡ mate_node (at side (get_or endpoints i (0, 0)))

-- `tour` lists the edges met from edge `i`, left on `side`, by steps to mates on alternating
-- sides, until edge 0 is back on the first side.
abbrev pub Tour : List (ℕ × ℕ) → Side → ℕ → List ℕ → Type 0
Tour endpoints side i [] = (i ≡ 0) × (side ≡ u_side)
Tour endpoints side i (j ∷ js) =
    (i ≡ j) × ((m : ℕ) × IsMate endpoints side i m × Tour endpoints (other side) m js)

-- Each edge has exactly one mate on each side.
abbrev pub HasOneMate : List (ℕ × ℕ) → Side → ℕ → Type 0
HasOneMate endpoints side i =
    (j : ℕ) × IsMate endpoints side i j × ((k : ℕ) → IsMate endpoints side i k → k ≡ j)

pub record IsCycle (endpoints : List (ℕ × ℕ)) : Type 0 where
  pub degree : (i : ℕ) (side : Side) → i < length endpoints → HasOneMate endpoints side i
  pub tour : List ℕ
  pub covers : length tour ≡ length endpoints
  pub distinct : Distinct tour
  pub closed : Tour endpoints u_side 0 tour

pub record IsProof (keys : SipKeys) (edge_bits cycle_length : ℕ) (proof : Proof) : Type 0 where
  pub bits_pos : 1 ≤ edge_bits
  pub bits_le : edge_bits ≤ 32
  pub size : length proof.nonces ≡ cycle_length
  pub ascending : AscendingFrom (2 ^ edge_bits) none proof.nonces
  pub cycle : IsCycle (map (edge_ends keys edge_bits) proof.nonces)

-- On a side an edge ends at the endpoint that the side's number names.
pub at-edge_ends :
    (keys : SipKeys) (edge_bits edge : ℕ) (side : Side)
    → at side (edge_ends keys edge_bits edge) ≡ endpoint keys edge_bits edge (number side)
unfolding edge_ends
at-edge_ends keys edge_bits edge u_side = refl
at-edge_ends keys edge_bits edge v_side = refl

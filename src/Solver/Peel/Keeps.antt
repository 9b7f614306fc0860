-- ===== src/Solver/Peel/Keeps.antt =====
-- src/solver/peel.rs: `peel_two_core` keeps every edge of every proof that src/verify.rs accepts.
use rust_miner.Base.{ℕ, zero, suc, ◌<◌, ◌≤◌, ◌^◌, ◌≡◌, refl, sym, ◌∙◌, arith}
use rust_miner.Base.{List, [], ◌∷◌, map, length, get_or, ◌∈◌}
use rust_miner.Base.{length-map, get_or-map}
use native.Mathlib.Nat.{pow-le-pow_right}
use native.Mathlib.Decide.{dec_lt}
use rust_miner.Siphash.{endpoint}
use rust_miner.Siphash.Bounds.{endpoint-lt}
use rust_miner.Verify.{Proof}
use rust_miner.Verify.Spec.{IsProof}
use rust_miner.Solver.{GraphParams}
use rust_miner.Solver.Peel.{core_of}
use rust_miner.Solver.Peel.Sides.{group_side-IsSide}
use rust_miner.Solver.Peel.Mates.{IsCore}

get_or_behind : (xs : List ℕ) (i : ℕ) → length xs ≤ i → get_or xs i 0 ≡ 0
get_or_behind [] i h = refl
get_or_behind (x ∷ xs) zero h = absurd (omega arith)
get_or_behind (x ∷ xs) (suc i) h = get_or_behind xs i (omega arith)

module _ (request : GraphParams) (survivors : List ℕ) (bits : request.edge_bits ≤ 32) where
  abbrev pub nodes : ℕ → List ℕ
  nodes side = map (λ edge. endpoint request.keys request.edge_bits edge side) survivors

  nodes-lt : (side e : ℕ) → get_or (nodes side) e 0 < 2 ^ 32
  nodes-lt side e = elim (dec_lt e (length survivors)) [
    | yes h ↦
        rw
          (get_or-map (λ edge. endpoint request.keys request.edge_bits edge side) survivors e 0 0 h)
          (omega (
            arith,
            endpoint-lt request.keys request.edge_bits (get_or survivors e 0) side bits,
            pow-le-pow_right {n = 2} (omega arith) bits,
          ))
    | no h ↦
        rw
          (get_or_behind (nodes side) e (
            omega (
              arith,
              length-map (λ edge. endpoint request.keys request.edge_bits edge side) survivors,
            )))
          (omega arith)
  ]

  pub core_of-IsCore : IsCore (nodes 0) (nodes 1) (core_of request survivors)
  unfolding core_of
  core_of-IsCore = record {
    as_long = length-map _ survivors ∙ sym (length-map _ survivors);
    on_left = group_side-IsSide (nodes 0) 0 (nodes-lt 0);
    on_right = group_side-IsSide (nodes 1) _ (nodes-lt 1);
  }

  module _ (proof : Proof) (p : IsProof request.keys request.edge_bits request.cycle_length proof)
      (all : (edge : ℕ) → edge ∈ proof.nonces → edge ∈ survivors) where
    abbrev InProof : ℕ → Type 0
    InProof e = (e < length survivors) × (get_or survivors e 0 ∈ proof.nonces)

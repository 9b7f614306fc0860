-- ===== src/Solver/Trim/Safe.antt =====
-- Trimming never removes an edge of a cycle: a set of edges each of which has mates in the set, on
-- both sides, survives every round.
use rust_miner.Base.{ℕ, zero, suc, ◌<◌, ◌≡◌, ◌∙◌, Bool, true}
use rust_miner.Base.{some, List, length, arith, bit_and, inl, inr, Bool-cases, ◌==◌}
use rust_miner.Base.{subst, some_inj, none≢some}
use rust_miner.Base.Bits.{bit_and-mask}
use rust_miner.Verify.{mate_node}
use rust_miner.Solver.{GraphParams}
use rust_miner.Solver.Bitmap.{test_bit}
use rust_miner.Solver.Trim.{trim_round, trim_rounds, edge_count, word_count}
use rust_miner.Solver.Trim.Loops.{node_of}
use rust_miner.Solver.Trim.Round.{IsGraph, trim_round_iff, length-trim_round}

-- What every round keeps holds of a result that was not cancelled.
pub trim_rounds_inv {ℓ} :
    (P : List ℕ → Type ℓ) (request : GraphParams) (cancel : ℕ → Bool)
    → ((round : ℕ) (alive : List ℕ) → P alive → P (trim_round request round alive).0)
    → (left round : ℕ) (alive : List ℕ) {result : List ℕ} → P alive
    → trim_rounds request cancel left round alive ≡ some result
    → P result
unfolding trim_rounds
trim_rounds_inv P request cancel keep zero round alive h e = subst P (some_inj e) h
trim_rounds_inv P request cancel keep (suc left) round alive h e =
    let (alive', killed) = trim_round request round alive in
    let h' = keep round alive h in
    elim (Bool-cases (cancel round)) [
      | inl c ↦ absurd (let e' = rw c at e in none≢some e')
      | inr c ↦ elim (Bool-cases (killed == 0)) [
        | inl z ↦ subst P (some_inj (rw (c, z) at e)) h'
        | inr z ↦ trim_rounds_inv P request cancel keep left (suc round) alive' h' (rw (c, z) at e)
      ]
    ]

-- `Member` is a set of edges of the graph that is closed under mates on the sides 0 and 1.
pub record IsMated (request : GraphParams) (Member : ℕ → Type 0) : Type 0 where
  pub in_range : (e : ℕ) → Member e → e < edge_count request
  pub mates :
      (e side : ℕ)
      → Member e
      → side < 2
      → (m : ℕ) × Member m × (node_of request side m ≡ mate_node (node_of request side e))

module _ (request : GraphParams) (g : IsGraph request) (Member : ℕ → Type 0)
    (closed : IsMated request Member) where
  abbrev pub Alive : List ℕ → Type 0
  Alive alive = (e : ℕ) → Member e → test_bit alive e ≡ true

  trim_round-Alive :
      (round : ℕ) (alive : List ℕ)
      → length alive ≡ word_count request
      → Alive alive
      → Alive (trim_round request round alive).0
  trim_round-Alive round alive size h e m =
      let (mate, mm, meet) =
        closed.mates e (bit_and round 1) m (omega (arith, bit_and-mask 1 round)) in
      (trim_round_iff request g round alive size e (closed.in_range e m)).1 (
        h e m,
        record { mate = mate; in_range = closed.in_range mate mm; live = h mate mm; meet = meet },
      )

  -- Whatever the rounds and the flag, an uncancelled result holds every member of the set.
  pub trim_rounds-Alive :
      (cancel : ℕ → Bool) (left round : ℕ) (alive : List ℕ) {result : List ℕ}
      → length alive ≡ word_count request
      → Alive alive
      → trim_rounds request cancel left round alive ≡ some result
      → (length result ≡ word_count request) × Alive result
  trim_rounds-Alive cancel left round alive size h e =
      trim_rounds_inv (λ a. (length a ≡ word_count request) × Alive a) request cancel
        (λ r a p. (length-trim_round request g r a p.0 ∙ p.0, trim_round-Alive r a p.0 p.1)) left
        round alive (size, h) e

-- ===== src/Solver/Trim/Initial.antt =====
-- The bitmap of src/solver/cpu_lean.rs that a trimming starts from, and that its words stay words
-- of 64 bits.
use rust_miner.Base.{
  ℕ, zero, suc, ◌-◌, ◌/◌, ◌%◌, ◌^◌, ◌≤◌, ◌<◌, ◌≡◌, refl, ◌∙◌, bit_and, Bool, true, false, not, ◌&&◌,
}
use rust_miner.Base.{
  List, length, replicate, set, get_or, get_or-set_self, length-set, length-replicate, arith, inl,
  inr, Bool-cases, ltb, ltb→lt, ≡→==, if◌then◌else◌,
}
use rust_miner.Base.Bits.{bit-ones, pow_pos}
use native.Mathlib.Nat.{pow-le-pow_right}
use rust_miner.Siphash.{endpoint}
use rust_miner.Verify.{mate_node}
use rust_miner.Solver.{GraphParams}
use rust_miner.Solver.Bitmap.{
  test_bit, clear_bit, digit, test_bit-digit, AreWords, AreWords-replicate, AreWords-set,
  clear_bit-AreWords,
}
use rust_miner.Solver.Trim.{sweep, trim_round, initial_alive, edge_count, word_count}
use rust_miner.Solver.Trim.Round.{IsGraph}

sweep-AreWords :
    (request : GraphParams) (side : ℕ) (occupied : List ℕ) (left edge killed : ℕ) (alive : List ℕ)
    → AreWords alive
    → AreWords (sweep request side occupied left edge alive killed).0
unfolding sweep
sweep-AreWords request side occupied zero edge killed alive a = a
sweep-AreWords request side occupied (suc left) edge killed alive a =
    sweep-AreWords request side occupied left (suc edge) _ _ (
      choose (
        test_bit alive edge
        && not (test_bit occupied (mate_node (endpoint request.keys request.edge_bits edge side)))))
  where
    choose : (dead : Bool) → AreWords (if dead then clear_bit alive edge else alive)
    choose true = clear_bit-AreWords alive edge a
    choose false = a

pub trim_round-AreWords :
    (request : GraphParams) (round : ℕ) (alive : List ℕ)
    → AreWords alive
    → AreWords (trim_round request round alive).0
unfolding trim_round
trim_round-AreWords request round alive a = sweep-AreWords request (bit_and round 1) _ _ 0 0 alive a

get_or-full : (n i w : ℕ) → i < n → get_or (replicate n w) i 0 ≡ w
get_or-full zero i w l = absurd (omega arith)
get_or-full (suc n) zero w l = refl
get_or-full (suc n) (suc i) w l = get_or-full n i w (omega arith)

pub length-initial_alive :
    (request : GraphParams) → length (initial_alive request) ≡ word_count request
unfolding initial_alive
length-initial_alive request =
    let size = length-replicate (word_count request) (2 ^ 64 - 1) in
    elim (Bool-cases (ltb (edge_count request) 64)) [
      | inl small ↦ rw small (length-set (replicate (word_count request) (2 ^ 64 - 1)) 0 _ ∙ size)
      | inr large ↦ rw large size
    ]

below_word : {n : ℕ} → n < 64 → 2 ^ n - 1 < 2 ^ 64
below_word {n} l =
    let two : 0 < 2 = omega arith in
    let le : n ≤ 64 = omega arith in let p = pow-le-pow_right two le in omega (arith, p, pow_pos n)

pub initial_alive-AreWords : (request : GraphParams) → AreWords (initial_alive request)
unfolding initial_alive
initial_alive-AreWords request =
    let full = AreWords-replicate (word_count request) (2 ^ 64 - 1) (omega arith) in
    elim (Bool-cases (ltb (edge_count request) 64)) [
      | inl small ↦ rw small (AreWords-set _ 0 _ full (below_word (ltb→lt _ _ small)))
      | inr large ↦ rw large full
    ]

-- Every edge of the graph starts out live.
pub test_bit-initial_alive :
    (request : GraphParams)
    → IsGraph request
    → (e : ℕ) → e < edge_count request
    → test_bit (initial_alive request) e ≡ true
unfolding initial_alive
test_bit-initial_alive request g e l = elim (Bool-cases (ltb (edge_count request) 64)) [
  | inl small ↦
      let size = length-replicate (word_count request) (2 ^ 64 - 1) in
      let lt = ltb→lt _ _ small in
      let first : e / 64 ≡ 0 = omega arith in
      let same : e % 64 ≡ e = omega arith in
      let word =
        get_or-set_self (replicate (word_count request) (2 ^ 64 - 1)) 0 (2 ^ edge_count request - 1)
          0 (omega arith) in
      let d : digit
            (set (replicate (word_count request) (2 ^ 64 - 1)) 0 (2 ^ edge_count request - 1)) e
          ≡ 1 =
        rw (first, same, word) (bit-ones (edge_count request) e l) in
      rw small (test_bit-digit _ e ∙ ≡→== _ 1 d)
  | inr large ↦
      let word = get_or-full (word_count request) (e / 64) (2 ^ 64 - 1) (omega arith) in
      let d : digit (replicate (word_count request) (2 ^ 64 - 1)) e ≡ 1 =
        rw word (bit-ones 64 (e % 64) (omega arith)) in
      rw large (test_bit-digit _ e ∙ ≡→== _ 1 d)
]

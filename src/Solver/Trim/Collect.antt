-- ===== src/Solver/Trim/Collect.antt =====
-- The survivors of src/solver/cpu_lean.rs are exactly the live edges of the graph.
use rust_miner.Base.{ℕ, zero, suc, ◌+◌, ◌*◌, ◌/◌, ◌%◌, ◌<◌, ◌≡◌, sym, ◌∙◌, true}
use rust_miner.Base.{List, [], ◌∷◌, length, get_or, arith, ◌∈◌, ==→≡, subst}
use rust_miner.Base.{mem-append_left, mem-append_right}
use rust_miner.Base.Bits.{bit}
use rust_miner.Solver.Bitmap.{AreWords, test_bit, test_bit-digit}
use rust_miner.Solver.Trim.{collect, collect_word}
use rust_miner.Solver.Trim.Words.{collect_word_complete, ones-le}

collect_complete :
    (count i n k : ℕ) (words : List ℕ)
    → AreWords words
    → n < length words
    → k < 64
    → bit (get_or words n 0) k ≡ 1
    → (i + n) * 64 + k < count
    → ((i + n) * 64 + k) ∈ collect count i words
unfolding collect
collect_complete count i n k [] a l lk b u = absurd (omega arith)
collect_complete count i zero k (w ∷ ws) a l lk b u =
    let q : i + 0 ≡ i = omega arith in
    subst (λ j. (j * 64 + k) ∈ collect count i (w ∷ ws)) (sym q)
      (mem-append_left _ _ _
        (collect_word_complete count i 64 w k a.0 (ones-le 64 w) lk b (omega arith)))
collect_complete count i (suc n) k (w ∷ ws) a l lk b u =
    let q : suc i + n ≡ i + suc n = omega arith in
    subst (λ j. (j * 64 + k) ∈ collect count i (w ∷ ws)) q
      (mem-append_right _ (collect_word 64 count i w) _
        (collect_complete count (suc i) n k ws a.1 (omega arith) lk b (omega arith)))

-- Every live edge below `count` is returned.
pub mem-collect :
    (count e : ℕ) (words : List ℕ)
    → AreWords words
    → e / 64 < length words
    → e < count
    → test_bit words e ≡ true
    → e ∈ collect count 0 words
mem-collect count e words a room l t =
    let b : bit (get_or words (e / 64) 0) (e % 64) ≡ 1 =
      ==→≡ _ 1 (sym (test_bit-digit words e) ∙ t) in
    let q : (0 + e / 64) * 64 + e % 64 ≡ e = omega arith in
    subst (λ j. j ∈ collect count 0 words) q
      (collect_complete count 0 (e / 64) (e % 64) words a room (omega arith) b (omega arith))

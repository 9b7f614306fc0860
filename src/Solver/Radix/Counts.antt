-- ===== src/Solver/Radix/Counts.antt =====
-- src/solver/d2.rs: the counts of a pass of `radix_order`, and the positions that they give.
use rust_miner.Base.{ℕ, zero, suc, ◌+◌, ◌<◌, ◌≡◌, refl, ap, ◌∙◌, arith, Bool-cases, inl, inr}
use rust_miner.Base.{List, [], ◌∷◌, length, get_or, get_or-set_self}
use rust_miner.Base.{get_or-set_ne}
use rust_miner.Base.{◌==◌, if◌then◌else◌, ==→≡, ==→≢}
use rust_miner.Solver.Radix.{increment, positions}
use rust_miner.Solver.Radix.Buckets.{}

pub get_or-increment :
    (counts : List ℕ) (b d : ℕ)
    → d < length counts
    → get_or (increment counts b) d 0 ≡ get_or counts d 0 + (if b == d then 1 else 0)
get_or-increment counts b d h = elim (Bool-cases (b == d)) [
  | inl same ↦ rw (same, ==→≡ b d same) (get_or-set_self counts d (get_or counts d 0 + 1) 0 h)
  | inr other ↦
      rw other (get_or-set_ne counts b d (get_or counts b 0 + 1) 0 (==→≢ b d other) ∙ omega arith)
]

-- The position of a bucket is how many items are in those before it.
unfoldable pub total : ℕ → List ℕ → ℕ
total d [] = 0
total zero (c ∷ cs) = 0
total (suc d) (c ∷ cs) = c + total d cs

pub get_or-positions :
    (cs : List ℕ) (start d : ℕ)
    → d < length cs
    → get_or (positions start cs) d 0 ≡ start + total d cs
unfolding positions total
get_or-positions [] start d h = absurd (omega arith)
get_or-positions (c ∷ cs) start zero h = omega arith
get_or-positions (c ∷ cs) start (suc d) h =
    get_or-positions cs (start + c) d (omega arith) ∙ omega arith

pub length-positions : (cs : List ℕ) (start : ℕ) → length (positions start cs) ≡ length cs
unfolding positions
length-positions [] start = refl
length-positions (c ∷ cs) start = ap suc (length-positions cs (start + c))

pub total-suc :
    (cs : List ℕ) (d : ℕ) → d < length cs → total (suc d) cs ≡ total d cs + get_or cs d 0
unfolding total
total-suc [] d h = absurd (omega arith)
total-suc (c ∷ []) zero h = omega arith
total-suc (c ∷ c' ∷ cs) zero h = omega arith
total-suc (c ∷ cs) (suc d) h = omega (arith, total-suc cs d (omega arith))

pub total-zero : (cs : List ℕ) → total zero cs ≡ 0
unfolding total
total-zero [] = refl
total-zero (c ∷ cs) = refl

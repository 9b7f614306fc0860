-- ===== src/Base/Powers.antt =====
-- `u64::is_power_of_two` and `u64::div_ceil`.
use Prim.Native.Nat.{ℕ, zero, suc, ◌+◌, ◌*◌, ◌/◌, ◌%◌, ◌^◌, ◌≤◌, ◌<◌}
use mathlib.Core.Path.{◌≡◌, refl, ap, ◌∙◌}
use mathlib.Core.Logic.{◌↔◌, inl, inr}
use mathlib.Core.Bool.{Bool, true, false}
use native.Mathlib.Omega.{arith}
use native.Mathlib.Nat.{mod-add-div, pow-suc, lt-mul-div-succ}
use rust_miner.Base.Tests.{◌==◌, if◌then◌else◌, ==→≡, ≡→==, Bool-cases}

-- `count_ones` of a number of `width` bits.
unfoldable pub count_ones : ℕ → ℕ → ℕ
count_ones zero n = 0
count_ones (suc width) n = n % 2 + count_ones width (n / 2)

unfoldable pub is_power_of_two : ℕ → Bool
is_power_of_two n = count_ones 64 n == 1

unfoldable pub div_ceil : ℕ → ℕ → ℕ
div_ceil a b = if a % b == 0 then a / b else a / b + 1

pub le-mul-div_ceil : (a b : ℕ) → 0 < b → a ≤ b * div_ceil a b
unfolding div_ceil
le-mul-div_ceil a b pos = elim (Bool-cases (a % b == 0)) [
  | inl whole ↦ rw whole (omega (arith, mod-add-div a b, ==→≡ (a % b) 0 whole))
  | inr more ↦ rw more (omega (arith, lt-mul-div-succ a pos))
]

pub div_ceil-pos : (a b : ℕ) → 0 < a → 0 < b → 0 < div_ceil a b
div_ceil-pos a b some_a some_b = go (div_ceil a b) (le-mul-div_ceil a b some_b)
  where
    go : (q : ℕ) → a ≤ b * q → 0 < q
    go zero h = omega arith
    go (suc q) h = omega arith

no_ones : (width n : ℕ) → n < 2 ^ width → count_ones width n ≡ 0 → n ≡ 0
unfolding count_ones
no_ones zero n small none_set = omega arith
no_ones (suc width) n small none_set =
    let half = no_ones width (n / 2) (omega (arith, pow-suc 2 width)) (omega arith) in
    omega (arith, half)

count_ones-zero : (width : ℕ) → count_ones width 0 ≡ 0
unfolding count_ones
count_ones-zero zero = refl
count_ones-zero (suc width) = omega (arith, count_ones-zero width)

even_rest : (n : ℕ) → (n % 2 == 1) ≡ false → n % 2 ≡ 0
even_rest n even = ground arith

one_set :
    (width n : ℕ) → n < 2 ^ width → count_ones width n ≡ 1 → (k : ℕ) × (k < width) × (n ≡ 2 ^ k)
unfolding count_ones
one_set zero n small one = absurd (omega (arith))
one_set (suc width) n small one = elim (Bool-cases (n % 2 == 1)) [
  | inl odd ↦
      let rest =
        no_ones width (n / 2) (omega (arith, pow-suc 2 width))
          (omega (arith, ==→≡ (n % 2) 1 odd)) in
      (0, omega arith, omega (arith, rest, ==→≡ (n % 2) 1 odd))
  | inr even ↦
      let (k, lt, eq) =
        one_set width (n / 2) (omega (arith, pow-suc 2 width)) (omega (arith, even_rest n even)) in
      (suc k, omega arith, omega (arith, pow-suc 2 k, eq, even_rest n even))
]

count_ones-pow : (width k : ℕ) → k < width → count_ones width (2 ^ k) ≡ 1
unfolding count_ones
count_ones-pow zero k lt = absurd (omega arith)
count_ones-pow (suc width) zero lt = ap (λ r. 1 + r) (count_ones-zero width)
count_ones-pow (suc width) (suc k) lt =
    omega (arith, even, ap (count_ones width) half, count_ones-pow width k (omega arith))
  where
    even : 2 ^ suc k % 2 ≡ 0
    even = omega (arith, pow-suc 2 k)

    half : 2 ^ suc k / 2 ≡ 2 ^ k
    half = omega (arith, pow-suc 2 k)

-- The powers of two of 64 bits.
pub is_power_of_two_iff :
    (n : ℕ) → n < 2 ^ 64 → (is_power_of_two n ≡ true) ↔ ((k : ℕ) × (k < 64) × (n ≡ 2 ^ k))
unfolding is_power_of_two
is_power_of_two_iff n small = (
  λ h. one_set 64 n small (==→≡ _ 1 h),
  λ (k, lt, e). ≡→== _ 1 (ap (count_ones 64) e ∙ count_ones-pow 64 k lt),
)

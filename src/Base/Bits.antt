-- ===== src/Base/Bits.antt =====
-- Bitwise `&`, `|`, `^` and `!` on native numbers through their binary digits, at every width.
use Prim.Native.Nat.{ℕ, zero, suc, ◌+◌, ◌-◌, ◌*◌, ◌/◌, ◌%◌, ◌^◌, ◌≤◌, ◌<◌, min, max, differ}
use Prim.Native.Nat.{bit_and, bit_or, bit_xor, digits, bitwise}
use Prim.Native.Nat.{bit_and-bitwise, bit_or-bitwise, bit_xor-bitwise}
use mathlib.Core.Path.{◌≡◌, refl, sym, ◌∙◌, ap}
use mathlib.Core.Logic.{◌≢◌}
use native.Mathlib.Nat.{le_refl, pow-suc, one-le-pow, div-div-eq-div-mul}
use native.Mathlib.Omega.{arith}

-- Digit `k` of `a`.
abbrev pub bit : ℕ → ℕ → ℕ
bit a zero = a % 2
bit a (suc k) = bit (a / 2) k

-- `digits` on any fuel from its first number up.
digits_above :
    (z : ℕ → ℕ) (f : ℕ → ℕ → ℕ) (least fuel x y : ℕ)
    → x ≤ least
    → least ≤ fuel
    → digits z f fuel x y ≡ digits z f least x y
digits_above z f (suc least) zero x y small enough = absurd (omega arith)
digits_above z f zero fuel (suc x) y small enough = absurd (omega arith)
digits_above z f zero zero zero y small enough = refl
digits_above z f zero (suc fuel) zero y small enough = refl
digits_above z f (suc least) (suc fuel) zero y small enough = refl
digits_above z f (suc least) (suc fuel) (suc x) y small enough =
    ap (λ high. high * 2 + f (suc x % 2) (y % 2))
      (digits_above z f least fuel (suc x / 2) (y / 2) (omega arith) (omega arith))

-- The lowest digit split off, if that is what the operation does on 0.
lowest :
    (z : ℕ → ℕ) (f : ℕ → ℕ → ℕ)
    → ((y : ℕ) → z y ≡ z (y / 2) * 2 + f 0 (y % 2))
    → (x y : ℕ) → bitwise z f x y ≡ bitwise z f (x / 2) (y / 2) * 2 + f (x % 2) (y % 2)
lowest z f at_zero zero y = at_zero y
lowest z f at_zero (suc x) y =
    ap (λ high. high * 2 + f (suc x % 2) (y % 2))
      (digits_above z f (suc x / 2) x (suc x / 2) (y / 2) (le_refl (suc x / 2)) (omega arith))

pub bit_and_step : (a b : ℕ) → bit_and a b ≡ bit_and (a / 2) (b / 2) * 2 + min (a % 2) (b % 2)
bit_and_step a b = simp bit_and-bitwise (lowest (λ y. 0) min (λ y. omega arith) a b)

pub bit_or_step : (a b : ℕ) → bit_or a b ≡ bit_or (a / 2) (b / 2) * 2 + max (a % 2) (b % 2)
bit_or_step a b = simp bit_or-bitwise (lowest (λ y. y) max (λ y. omega arith) a b)

differ-digits : (a b : ℕ) → differ (a % 2) (b % 2) ≡ (a + b) % 2
differ-digits a b = digit (a % 2) (b % 2) (omega arith) (omega arith) ∙ omega arith
  where
    digit : (x y : ℕ) → x < 2 → y < 2 → differ x y ≡ (x + y) % 2
    digit zero y small small' = omega arith
    digit (suc zero) zero small small' = refl
    digit (suc zero) (suc zero) small small' = refl
    digit (suc zero) (suc (suc y)) small small' = absurd (omega arith)
    digit (suc (suc x)) y small small' = absurd (omega arith)

pub bit_xor_step : (a b : ℕ) → bit_xor a b ≡ bit_xor (a / 2) (b / 2) * 2 + (a + b) % 2
bit_xor_step a b =
    let step = lowest (λ y. y) differ (λ y. omega (arith, differ-digits 0 y)) a b in
    simp bit_xor-bitwise (omega (arith, step, differ-digits a b))

pub bit-bit_and : (a b k : ℕ) → bit (bit_and a b) k ≡ min (bit a k) (bit b k)
bit-bit_and a b zero = omega (arith, bit_and_step a b)
bit-bit_and a b (suc k) =
    let e : bit_and a b / 2 ≡ bit_and (a / 2) (b / 2) = omega (arith, bit_and_step a b) in
    rw e (bit-bit_and (a / 2) (b / 2) k)

pub bit-bit_or : (a b k : ℕ) → bit (bit_or a b) k ≡ max (bit a k) (bit b k)
bit-bit_or a b zero = omega (arith, bit_or_step a b)
bit-bit_or a b (suc k) =
    let e : bit_or a b / 2 ≡ bit_or (a / 2) (b / 2) = omega (arith, bit_or_step a b) in
    rw e (bit-bit_or (a / 2) (b / 2) k)

pub bit-bit_xor : (a b k : ℕ) → bit (bit_xor a b) k ≡ (bit a k + bit b k) % 2
bit-bit_xor a b zero = omega (arith, bit_xor_step a b)
bit-bit_xor a b (suc k) =
    let e : bit_xor a b / 2 ≡ bit_xor (a / 2) (b / 2) = omega (arith, bit_xor_step a b) in
    rw e (bit-bit_xor (a / 2) (b / 2) k)

pub bit-lt : (a k : ℕ) → bit a k < 2
bit-lt a zero = omega arith
bit-lt a (suc k) = bit-lt (a / 2) k

pub pow-suc_two : (k : ℕ) → 2 ^ suc k ≡ 2 * 2 ^ k
pow-suc_two k = omega (arith, pow-suc 2 k)

pub pow_pos : (w : ℕ) → 0 < 2 ^ w
pow_pos w = one-le-pow w 2 (omega arith)

pub bit-pow_self : (k : ℕ) → bit (2 ^ k) k ≡ 1
bit-pow_self zero = refl
bit-pow_self (suc k) =
    let e : 2 ^ suc k / 2 ≡ 2 ^ k = omega (arith, pow-suc 2 k) in rw e (bit-pow_self k)

pub bit-zero : (k : ℕ) → bit 0 k ≡ 0
bit-zero zero = refl
bit-zero (suc k) = bit-zero k

pub bit-pow_ne : (k j : ℕ) → k ≢ j → bit (2 ^ k) j ≡ 0
bit-pow_ne zero zero h = absurd (h refl)
bit-pow_ne zero (suc j) h = bit-zero j
bit-pow_ne (suc k) zero h = omega (arith, pow-suc 2 k)
bit-pow_ne (suc k) (suc j) h =
    let e : 2 ^ suc k / 2 ≡ 2 ^ k = omega (arith, pow-suc 2 k) in
    rw e (bit-pow_ne k j (λ q. h (ap suc q)))

-- All the digits of `2 ^ w - 1 - x` below `w` are those of `x`, turned round: the machine's `!x`.
pub bit-not : (w x k : ℕ) → x < 2 ^ w → k < w → bit (2 ^ w - 1 - x) k + bit x k ≡ 1
bit-not zero x k p q = absurd (omega arith)
bit-not (suc w) x zero p q = omega (arith, pow-suc 2 w, pow_pos w)
bit-not (suc w) x (suc k) p q =
    let e : (2 ^ suc w - 1 - x) / 2 ≡ 2 ^ w - 1 - x / 2 = omega (arith, pow-suc 2 w, pow_pos w) in
    rw e (bit-not w (x / 2) k (omega (arith, pow-suc 2 w)) (omega arith))

pub bit-ones : (w k : ℕ) → k < w → bit (2 ^ w - 1) k ≡ 1
bit-ones zero k q = absurd (omega arith)
bit-ones (suc w) zero q = omega (arith, pow-suc 2 w, pow_pos w)
bit-ones (suc w) (suc k) q =
    let e : (2 ^ suc w - 1) / 2 ≡ 2 ^ w - 1 = omega (arith, pow-suc 2 w, pow_pos w) in
    rw e (bit-ones w k (omega arith))

-- Digits below `w` decide a number below `2 ^ w`.
pub eq_of_bits : (w a b : ℕ) → a < 2 ^ w → b < 2 ^ w → ((k : ℕ) → k < w → bit a k ≡ bit b k) → a ≡ b
eq_of_bits zero a b p q h = omega arith
eq_of_bits (suc w) a b p q h =
    let high =
      eq_of_bits w (a / 2) (b / 2) (omega (arith, pow-suc 2 w)) (omega (arith, pow-suc 2 w))
        (λ k l. h (suc k) (omega arith)) in
    omega (arith, h 0 (omega arith), high)

pub bit_xor-lt : (w a b : ℕ) → a < 2 ^ w → b < 2 ^ w → bit_xor a b < 2 ^ w
bit_xor-lt zero a b p q =
    let ea : a ≡ 0 = omega arith in let eb : b ≡ 0 = omega arith in rw (ea, eb) (omega arith)
bit_xor-lt (suc w) a b p q = omega (
  arith,
  pow-suc 2 w,
  bit_xor_step a b,
  bit_xor-lt w (a / 2) (b / 2) (omega (arith, pow-suc 2 w)) (omega (arith, pow-suc 2 w)),
)

pub bit_or-lt : (w a b : ℕ) → a < 2 ^ w → b < 2 ^ w → bit_or a b < 2 ^ w
bit_or-lt zero a b p q =
    let ea : a ≡ 0 = omega arith in let eb : b ≡ 0 = omega arith in rw (ea, eb) (omega arith)
bit_or-lt (suc w) a b p q = omega (
  arith,
  pow-suc 2 w,
  bit_or_step a b,
  bit_or-lt w (a / 2) (b / 2) (omega (arith, pow-suc 2 w)) (omega (arith, pow-suc 2 w)),
)

no_digits : (x size : ℕ) → x ≤ size → bit_and x 0 ≡ 0
no_digits (suc x) (suc size) small =
    let half : suc x / 2 ≤ size = omega arith in
    let high = no_digits (suc x / 2) size half in bit_and_step (suc x) 0 ∙ omega (arith, high)
no_digits (suc x) zero small = absurd (omega arith)
no_digits zero size small = refl

mod_double : (a m : ℕ) → 0 < m → a % (2 * m) ≡ a / 2 % m * 2 + a % 2
mod_double a m h = grind arith

-- A mask of `w` ones keeps the remainder by `2 ^ w`.
pub bit_and-mask : (w a : ℕ) → bit_and a (2 ^ w - 1) ≡ a % 2 ^ w
bit_and-mask zero a = rw (no_digits a a (le_refl a)) (omega arith)
bit_and-mask (suc w) a =
    let e : (2 ^ suc w - 1) / 2 ≡ 2 ^ w - 1 = omega (arith, pow-suc 2 w, pow_pos w) in
    let s = rw e at (bit_and_step a (2 ^ suc w - 1)) in
    omega (
      arith,
      s,
      bit_and-mask w (a / 2),
      mod_double a (2 ^ w) (pow_pos w),
      ap (λ (t : ℕ). a % t) (pow-suc_two w),
      pow_pos w,
      pow-suc_two w,
    )

-- Digit `k` is what `(a >> k) & 1` reads.
pub bit-eq_shift : (a k : ℕ) → bit a k ≡ bit_and (a / 2 ^ k) 1
bit-eq_shift a k = shifted a k ∙ sym (bit_and-mask 1 (a / 2 ^ k))
  where
    shifted : (a k : ℕ) → bit a k ≡ a / 2 ^ k % 2
    shifted a zero = omega arith
    shifted a (suc k) =
        let e : a / 2 / 2 ^ k ≡ a / 2 ^ suc k =
          div-div-eq-div-mul a 2 (2 ^ k) ∙ ap (λ (t : ℕ). a / t) (sym (pow-suc_two k)) in
        rw (← e) (shifted (a / 2) k)

-- A mask of one digit keeps that digit in place.
pub bit_and-pow : (a k : ℕ) → bit_and a (2 ^ k) ≡ bit a k * 2 ^ k
bit_and-pow a zero = omega (arith, bit_and-mask 1 a)
bit_and-pow a (suc k) =
    let e : 2 ^ suc k / 2 ≡ 2 ^ k = omega (arith, pow-suc 2 k) in
    let s = rw e at (bit_and_step a (2 ^ suc k)) in
    omega (
      arith,
      s,
      bit_and-pow (a / 2) k,
      pow-suc_two k,
      ap (λ (t : ℕ). bit (a / 2) k * t) (pow-suc_two k),
    )

zero-bit_and : (b : ℕ) → bit_and 0 b ≡ 0
zero-bit_and b = bit_and-bitwise 0 b

pub bit_and-lt : (n a b : ℕ) → a < 2 ^ n → bit_and a b < 2 ^ n
bit_and-lt zero a b h = let z : a ≡ 0 = omega arith in rw z (omega (arith, zero-bit_and b))
bit_and-lt (suc n) a b h = omega (
  arith,
  pow-suc_two n,
  bit_and_step a b,
  bit_and-lt n (a / 2) (b / 2) (omega (arith, pow-suc_two n)),
)

-- ===== src/Solver/Bitmap.antt =====
-- The bitmaps of src/solver/cpu_lean.rs: `Vec<u64>` with bit `n % 64` of word `n / 64` for `n`.
use rust_miner.Base.{ℕ, zero, suc, ◌-◌, ◌*◌, ◌/◌, ◌%◌, ◌^◌, ◌<◌, ◌≡◌, ◌≢◌, sym, ◌∙◌}
use rust_miner.Base.{
  [], ◌∷◌, bit_and, bit_or, Bool, true, false, not, List, length, get_or, set, replicate,
  get_or-replicate, arith, inl, inr,
}
use rust_miner.Base.{◌==◌, Bool-cases, if◌then◌else◌, length-set, get_or-set_self, get_or-set_ne}
use rust_miner.Base.{==→≡, ==→≢, ap}
use rust_miner.Base.Bits.{
  bit_and-lt, bit, bit-zero, bit-lt, bit-bit_and, bit-bit_or, bit-pow_self, bit-pow_ne, bit-not,
}
use rust_miner.Base.Bits.{pow_pos, pow-suc_two, bit_and-pow}
use native.Mathlib.Nat.{pow-le-pow_right, le_trans}

-- `words[n / 64] & (1 << (n % 64)) != 0`. No index here is out of range in a run.
unfoldable pub test_bit : List ℕ → ℕ → Bool
test_bit words n = not (bit_and (get_or words (n / 64) 0) (2 ^ (n % 64)) == 0)

-- `words[n / 64] |= 1 << (n % 64)`.
unfoldable pub set_bit : List ℕ → ℕ → List ℕ
set_bit words n = set words (n / 64) (bit_or (get_or words (n / 64) 0) (2 ^ (n % 64)))

-- `words[n / 64] &= !(1 << (n % 64))`.
unfoldable pub clear_bit : List ℕ → ℕ → List ℕ
clear_bit words n =
    set words (n / 64) (bit_and (get_or words (n / 64) 0) (2 ^ 64 - 1 - 2 ^ (n % 64)))

pub length-set_bit : (words : List ℕ) (n : ℕ) → length (set_bit words n) ≡ length words
unfolding set_bit
length-set_bit words n = length-set words (n / 64) _

pub length-clear_bit : (words : List ℕ) (n : ℕ) → length (clear_bit words n) ≡ length words
unfolding clear_bit
length-clear_bit words n = length-set words (n / 64) _

-- Bit `n` of the whole map.
abbrev pub digit : List ℕ → ℕ → ℕ
digit words n = bit (get_or words (n / 64) 0) (n % 64)

pub test_bit-digit : (words : List ℕ) (n : ℕ) → test_bit words n ≡ (digit words n == 1)
unfolding test_bit
test_bit-digit words n =
    let word = get_or words (n / 64) 0 in
    rw (bit_and-pow word (n % 64)) (elim (Bool-cases (bit word (n % 64) == 1)) [
      | inl e ↦ let one : bit word (n % 64) ≡ 1 = ==→≡ _ 1 e in rw one (pow-ne (n % 64))
      | inr e ↦
          let z : bit word (n % 64) ≡ 0 = omega (arith, ==→≢ _ 1 e, bit-lt word (n % 64)) in
          rw z (zero-mul' (2 ^ (n % 64)))
    ])
  where
    pow-ne : (k : ℕ) → not (1 * 2 ^ k == 0) ≡ true
    pow-ne k = ground (arith, pow_pos k)

    zero-mul' : (t : ℕ) → not (0 * t == 0) ≡ false
    zero-mul' t = ground arith

-- A cleared map.
pub test_bit-zeros : (n p : ℕ) → test_bit (replicate n 0) p ≡ false
test_bit-zeros n p =
    test_bit-digit (replicate n 0) p ∙ rw (get_or-replicate {A = ℕ} n (p / 64) 0, bit-zero (p % 64))

digit-set_self : (words : List ℕ) (n : ℕ) → n / 64 < length words → digit (set_bit words n) n ≡ 1
unfolding set_bit
digit-set_self words n h =
    let word = get_or words (n / 64) 0 in
    rw (get_or-set_self words (n / 64) _ 0 h) (
      omega (
        arith,
        bit-bit_or word (2 ^ (n % 64)) (n % 64),
        bit-pow_self (n % 64),
        bit-lt word (n % 64),
      ))

digit-set_ne :
    (words : List ℕ) (n p : ℕ)
    → n / 64 < length words
    → n ≢ p
    → digit (set_bit words n) p ≡ digit words p
unfolding set_bit
digit-set_ne words n p h ne = elim (Bool-cases (n / 64 == p / 64)) [
  | inl e ↦
      let same : n / 64 ≡ p / 64 = ==→≡ _ _ e in
      let word = get_or words (n / 64) 0 in
      let low : n % 64 ≢ p % 64 = λ l. ne (omega arith) in
      rw (← same) (
        rw (get_or-set_self words (n / 64) _ 0 h) (
          omega (arith, bit-bit_or word (2 ^ (n % 64)) (p % 64), bit-pow_ne (n % 64) (p % 64) low)))
  | inr e ↦ rw (get_or-set_ne words (n / 64) (p / 64) _ 0 (==→≢ _ _ e))
]

mask-lt : (k : ℕ) → k < 64 → 2 ^ k < 2 ^ 64
mask-lt k h = le_trans (suc-pow k) (pow-le-pow_right (omega arith) h)
  where
    suc-pow : (k : ℕ) → 2 ^ k < 2 ^ suc k
    suc-pow k = omega (arith, pow-suc_two k, pow_pos k)

digit-clear_self :
    (words : List ℕ) (n : ℕ) → n / 64 < length words → digit (clear_bit words n) n ≡ 0
unfolding clear_bit
digit-clear_self words n h =
    let word = get_or words (n / 64) 0 in
    let k = n % 64 in
    rw (get_or-set_self words (n / 64) _ 0 h) (
      omega (
        arith,
        bit-bit_and word (2 ^ 64 - 1 - 2 ^ k) k,
        bit-not 64 (2 ^ k) k (mask-lt k (omega arith)) (omega arith),
        bit-pow_self k,
      ))

digit-clear_ne :
    (words : List ℕ) (n p : ℕ)
    → n / 64 < length words
    → n ≢ p
    → digit (clear_bit words n) p ≡ digit words p
unfolding clear_bit
digit-clear_ne words n p h ne = elim (Bool-cases (n / 64 == p / 64)) [
  | inl e ↦
      let same : n / 64 ≡ p / 64 = ==→≡ _ _ e in
      let word = get_or words (n / 64) 0 in
      let k = n % 64 in
      let low : n % 64 ≢ p % 64 = λ l. ne (omega arith) in
      rw (← same) (
        rw (get_or-set_self words (n / 64) _ 0 h) (
          omega (
            arith,
            bit-bit_and word (2 ^ 64 - 1 - 2 ^ k) (p % 64),
            bit-not 64 (2 ^ k) (p % 64) (mask-lt k (omega arith)) (omega arith),
            bit-pow_ne k (p % 64) low,
            bit-lt word (p % 64),
          )))
  | inr e ↦ rw (get_or-set_ne words (n / 64) (p / 64) _ 0 (==→≢ _ _ e))
]

-- Setting bit `n` of a map that holds it changes that test and no other.
pub test_bit-set_bit :
    (words : List ℕ) (n p : ℕ)
    → n / 64 < length words
    → test_bit (set_bit words n) p ≡ (if n == p then true else test_bit words p)
test_bit-set_bit words n p h = elim (Bool-cases (n == p)) [
  | inl e ↦
      let same : n ≡ p = ==→≡ n p e in
      rw (e, ← same) (test_bit-digit _ n ∙ ap (λ d. d == 1) (digit-set_self words n h))
  | inr e ↦ rw e (
      test_bit-digit _ p
      ∙ ap (λ d. d == 1) (digit-set_ne words n p h (==→≢ n p e))
      ∙ sym (test_bit-digit words p))
]

-- Clearing it likewise.
pub test_bit-clear_bit :
    (words : List ℕ) (n p : ℕ)
    → n / 64 < length words
    → test_bit (clear_bit words n) p ≡ (if n == p then false else test_bit words p)
test_bit-clear_bit words n p h = elim (Bool-cases (n == p)) [
  | inl e ↦
      let same : n ≡ p = ==→≡ n p e in
      rw (e, ← same) (test_bit-digit _ n ∙ ap (λ d. d == 1) (digit-clear_self words n h))
  | inr e ↦ rw e (
      test_bit-digit _ p
      ∙ ap (λ d. d == 1) (digit-clear_ne words n p h (==→≢ n p e))
      ∙ sym (test_bit-digit words p))
]

-- Words of 64 bits.
abbrev pub AreWords : List ℕ → Type 0
AreWords [] = Unit
AreWords (w ∷ ws) = (w < 2 ^ 64) × AreWords ws

pub AreWords-replicate : (n w : ℕ) → w < 2 ^ 64 → AreWords (replicate n w)
AreWords-replicate zero w l = tt
AreWords-replicate (suc n) w l = (l, AreWords-replicate n w l)

pub AreWords-set : (ws : List ℕ) (i w : ℕ) → AreWords ws → w < 2 ^ 64 → AreWords (set ws i w)
AreWords-set [] i w a l = tt
AreWords-set (x ∷ xs) zero w a l = (l, a.1)
AreWords-set (x ∷ xs) (suc i) w a l = (a.0, AreWords-set xs i w a.1 l)

AreWords-get : (ws : List ℕ) (i : ℕ) → AreWords ws → get_or ws i 0 < 2 ^ 64
AreWords-get [] i a = pow_pos 64
AreWords-get (x ∷ xs) zero a = a.0
AreWords-get (x ∷ xs) (suc i) a = AreWords-get xs i a.1

pub clear_bit-AreWords : (ws : List ℕ) (n : ℕ) → AreWords ws → AreWords (clear_bit ws n)
unfolding clear_bit
clear_bit-AreWords ws n a =
    AreWords-set ws (n / 64) _ a (bit_and-lt 64 _ _ (AreWords-get ws (n / 64) a))

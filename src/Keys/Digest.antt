-- ===== src/Keys/Digest.antt =====
-- The keys are `u64`, hold the digest whole, and the hashed bytes tell nonces apart.
use rust_miner.Base.{ℕ, zero, suc, ◌+◌, ◌*◌, ◌/◌, ◌%◌, ◌^◌, ◌<◌, ◌≡◌, refl, sym, ◌∙◌, ap}
use rust_miner.Base.{List, [], ◌∷◌, ◌++◌, length, length-append, get_or, arith}
use rust_miner.Siphash.{SipKeys}
use rust_miner.Siphash.Bounds.{AreKeys}
use rust_miner.Keys.{Blake2b256, to_be_bytes, from_le_bytes, derive_keys}
use native.Mathlib.Nat.{
  pow-suc, pow-succ', div-div-eq-div-mul, add-zero, mod-add-div, div-add-mod, mul_comm, one-le-pow,
}

from_le_bytes-lt :
    (bytes : List ℕ) (i n : ℕ)
    → ((j : ℕ) → get_or bytes j 0 < 256)
    → from_le_bytes bytes i n < 256 ^ n
unfolding from_le_bytes
from_le_bytes-lt bytes i zero h = omega arith
from_le_bytes-lt bytes i (suc n) h =
    omega (arith, pow-suc 256 n, h i, from_le_bytes-lt bytes (i + 1) n h)

-- The derived keys are four `u64`.
derive_keys-AreKeys :
    (blake : Blake2b256) (pre_pow : List ℕ) (nonce : ℕ) → AreKeys (derive_keys blake pre_pow nonce)
unfolding derive_keys
derive_keys-AreKeys blake pre_pow nonce =
    let bytes = pre_pow ++ to_be_bytes 8 nonce in
    let word = λ (i : ℕ). from_le_bytes-lt (blake.digest bytes) i 8 (blake.digest-lt bytes) in
    record { in0 = word 0; in1 = word 8; in2 = word 16; in3 = word 24 }

skip_byte : (x r j : ℕ) → x < 256 → (x + 256 * r) / 256 ^ suc j ≡ r / 256 ^ j
skip_byte x r j h =
    let high : (x + 256 * r) / 256 ≡ r = omega arith in
    ap (λ (t : ℕ). (x + 256 * r) / t) (pow-succ' 256 j)
    ∙ sym (div-div-eq-div-mul (x + 256 * r) 256 (256 ^ j))
    ∙ ap (λ (t : ℕ). t / 256 ^ j) high

-- Byte `j` of a word that was read from index `i` is byte `i + j` of the digest.
byte-from_le_bytes :
    (bytes : List ℕ) (i n j : ℕ)
    → ((k : ℕ) → get_or bytes k 0 < 256)
    → j < n
    → from_le_bytes bytes i n / 256 ^ j % 256 ≡ get_or bytes (i + j) 0
unfolding from_le_bytes
byte-from_le_bytes bytes i zero j h l = absurd (omega arith)
byte-from_le_bytes bytes i (suc n) zero h l = rw add-zero (omega (arith, h i))
byte-from_le_bytes bytes i (suc n) (suc j) h l =
    let e : i + 1 + j ≡ i + suc j = omega arith in
    rw (skip_byte (get_or bytes i 0) (from_le_bytes bytes (i + 1) n) j (h i), ← e)
      (byte-from_le_bytes bytes (i + 1) n j h (omega arith))

-- The key of each number from 0.
abbrev pub key : SipKeys → ℕ → ℕ
key keys zero = keys.k0
key keys (suc zero) = keys.k1
key keys (suc (suc zero)) = keys.k2
key keys (suc (suc (suc w))) = keys.k3

-- Every byte of the digest of the template and the big-endian nonce is in the keys: byte `j` of
-- key `w`, for `w < 4` and `j < 8`, is byte `8 * w + j` of the digest.
pub derive_keys-digest :
    (blake : Blake2b256) (pre_pow : List ℕ) (nonce w j : ℕ)
    → w < 4
    → j < 8
    → key (derive_keys blake pre_pow nonce) w / 256 ^ j % 256
      ≡ get_or (blake.digest (pre_pow ++ to_be_bytes 8 nonce)) (8 * w + j) 0
unfolding derive_keys
derive_keys-digest blake pre_pow nonce zero j p q = byte-from_le_bytes _ 0 8 j (blake.digest-lt _) q
derive_keys-digest blake pre_pow nonce (suc zero) j p q =
    byte-from_le_bytes _ 8 8 j (blake.digest-lt _) q
derive_keys-digest blake pre_pow nonce (suc (suc zero)) j p q =
    byte-from_le_bytes _ 16 8 j (blake.digest-lt _) q
derive_keys-digest blake pre_pow nonce (suc (suc (suc zero))) j p q =
    byte-from_le_bytes _ 24 8 j (blake.digest-lt _) q
derive_keys-digest blake pre_pow nonce (suc (suc (suc (suc w)))) j p q = absurd (omega arith)

mod_split : (a m : ℕ) → 0 < m → a % (256 * m) ≡ a / m % 256 * m + a % m
mod_split a m h =
    let e : a / m / 256 ≡ a / (256 * m) =
      div-div-eq-div-mul a m 256 ∙ ap (λ (t : ℕ). a / t) (mul_comm m 256) in
    omega (
      arith,
      mod-add-div a (256 * m),
      mod-add-div a m,
      ap (λ (t : ℕ). m * t) (div-add-mod (a / m) 256),
      ap (λ (t : ℕ). m * t) e,
    )

to_be_bytes_mod : (n a b : ℕ) → to_be_bytes n a ≡ to_be_bytes n b → a % 256 ^ n ≡ b % 256 ^ n
unfolding to_be_bytes
to_be_bytes_mod zero a b e = omega arith
to_be_bytes_mod (suc n) a b e =
    let m = 256 ^ n in
    let heads : a / m % 256 ≡ b / m % 256 = cc in
    let tails = to_be_bytes_mod n a b (cc) in
    rw (
      pow-succ' 256 n,
      mod_split a m (one-le-pow n 256 (omega arith)),
      mod_split b m (one-le-pow n 256 (omega arith)),
      heads,
      tails,
    )

length-to_be_bytes : (n a : ℕ) → length (to_be_bytes n a) ≡ n
unfolding to_be_bytes
length-to_be_bytes zero a = refl
length-to_be_bytes (suc n) a = ap suc (length-to_be_bytes n a)

append_inj :
    (xs ys us vs : List ℕ) → length us ≡ length vs → xs ++ us ≡ ys ++ vs → (xs ≡ ys) × (us ≡ vs)
append_inj [] [] us vs l e = (refl, e)
append_inj [] (y ∷ ys) us vs l e = absurd (omega (arith, ap length e, length-append ys vs))
append_inj (x ∷ xs) [] us vs l e = absurd (omega (arith, ap length e, length-append xs us))
append_inj (x ∷ xs) (y ∷ ys) us vs l e = let (p, q) = append_inj xs ys us vs l (cc) in (cc, q)

-- The bytes that are hashed tell apart every two pairs of a template and a `u64` nonce.
preimage_inj :
    (pre_pow pre_pow' : List ℕ) (nonce nonce' : ℕ)
    → nonce < 2 ^ 64
    → nonce' < 2 ^ 64
    → pre_pow ++ to_be_bytes 8 nonce ≡ pre_pow' ++ to_be_bytes 8 nonce'
    → (pre_pow ≡ pre_pow') × (nonce ≡ nonce')
preimage_inj pre_pow pre_pow' nonce nonce' p q e =
    let (front, back) =
      append_inj pre_pow pre_pow' _ _
        (length-to_be_bytes 8 nonce ∙ sym (length-to_be_bytes 8 nonce')) e in
    (front, omega (arith, to_be_bytes_mod 8 nonce nonce' back))

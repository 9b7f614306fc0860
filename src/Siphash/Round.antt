-- ===== src/Siphash/Round.antt =====
-- `sip_round` loses nothing: it has an inverse on states of four `u64`.
use rust_miner.Base.{ℕ, ◌+◌, ◌-◌, ◌%◌, ◌^◌, ◌<◌, bit_xor, ◌≡◌, arith}
use rust_miner.Base.Bits.{bit-lt, bit-bit_xor, eq_of_bits, bit_xor-lt}
use rust_miner.Siphash.{SipState, sip_round, rotate_left}
use rust_miner.Siphash.Bounds.{IsU64, rotate_left-lt}

abbrev rotate_right : ℕ → ℕ → ℕ
rotate_right x k = rotate_left x (64 - k)

abbrev wrapping_sub : ℕ → ℕ → ℕ
wrapping_sub a b = (a + 2 ^ 64 - b) % 2 ^ 64

-- The ten assignments undone from the last to the first.
pub undo_round : SipState → SipState
undo_round v =
    let b2 = rotate_right v.v2 32 in
    let a3 = rotate_right (bit_xor v.v3 v.v0) 21 in
    let a1 = rotate_right (bit_xor v.v1 b2) 17 in
    let b0 = wrapping_sub v.v0 a3 in
    let a2 = wrapping_sub b2 a1 in
    let a0 = rotate_right b0 32 in
    let v3 = rotate_right (bit_xor a3 a2) 16 in
    let v1 = rotate_right (bit_xor a1 a0) 13 in
    record { v0 = wrapping_sub a0 v1; v1 = v1; v2 = wrapping_sub a2 v3; v3 = v3 }

bit_xor_cancel : (a b : ℕ) → a < 2 ^ 64 → b < 2 ^ 64 → bit_xor (bit_xor a b) b ≡ a
bit_xor_cancel a b p q =
    eq_of_bits 64 _ _ (bit_xor-lt 64 _ _ (bit_xor-lt 64 _ _ p q) q) p (λ k _.
      omega (arith, bit-bit_xor (bit_xor a b) b k, bit-bit_xor a b k, bit-lt a k, bit-lt b k))

rotate_right-rotate_left :
    (x : ℕ)
    → x < 2 ^ 64
    → (rotate_right (rotate_left x 13) 13 ≡ x)
      × (rotate_right (rotate_left x 16) 16 ≡ x)
      × (rotate_right (rotate_left x 17) 17 ≡ x)
      × (rotate_right (rotate_left x 21) 21 ≡ x)
      × (rotate_right (rotate_left x 32) 32 ≡ x)
rotate_right-rotate_left x h = (omega arith, omega arith, omega arith, omega arith, omega arith)

sub-add : (a b : ℕ) → a < 2 ^ 64 → b < 2 ^ 64 → wrapping_sub ((a + b) % 2 ^ 64) b ≡ a
sub-add a b p q = omega arith

-- One lemma for each pair of an assignment and its undoing: a mixed cell, and a rotated sum.
unmix13 :
    (x y : ℕ)
    → x < 2 ^ 64
    → y < 2 ^ 64
    → rotate_right (bit_xor (bit_xor (rotate_left x 13) y) y) 13 ≡ x
unmix13 x y p q = rw (bit_xor_cancel _ y (rotate_left-lt x p).0 q) (rotate_right-rotate_left x p).0

unmix16 :
    (x y : ℕ)
    → x < 2 ^ 64
    → y < 2 ^ 64
    → rotate_right (bit_xor (bit_xor (rotate_left x 16) y) y) 16 ≡ x
unmix16 x y p q = rw (bit_xor_cancel _ y (rotate_left-lt x p).1 q) (rotate_right-rotate_left x p).1

unmix17 :
    (x y : ℕ)
    → x < 2 ^ 64
    → y < 2 ^ 64
    → rotate_right (bit_xor (bit_xor (rotate_left x 17) y) y) 17 ≡ x
unmix17 x y p q = rw (bit_xor_cancel _ y (rotate_left-lt x p).2 q) (rotate_right-rotate_left x p).2

unmix21 :
    (x y : ℕ)
    → x < 2 ^ 64
    → y < 2 ^ 64
    → rotate_right (bit_xor (bit_xor (rotate_left x 21) y) y) 21 ≡ x
unmix21 x y p q = rw (bit_xor_cancel _ y (rotate_left-lt x p).3 q) (rotate_right-rotate_left x p).3

-- On a state of four `u64`, undoing a round gives the state back.
pub undo_round-sip_round : (v : SipState) → IsU64 v → undo_round (sip_round v) ≡ v
unfolding undo_round sip_round
undo_round-sip_round v h =
    let a0 = (v.v0 + v.v1) % 2 ^ 64 in
    let a2 = (v.v2 + v.v3) % 2 ^ 64 in
    let la0 : a0 < 2 ^ 64 = omega arith in
    let la2 : a2 < 2 ^ 64 = omega arith in
    let a1 = bit_xor (rotate_left v.v1 13) a0 in
    let a3 = bit_xor (rotate_left v.v3 16) a2 in
    let l1 : a1 < 2 ^ 64 = bit_xor-lt 64 _ _ (rotate_left-lt v.v1 h.in1).0 la0 in
    let l3 : a3 < 2 ^ 64 = bit_xor-lt 64 _ _ (rotate_left-lt v.v3 h.in3).1 la2 in
    let b0 = rotate_left a0 32 in
    let b2 = (a2 + a1) % 2 ^ 64 in
    let c0 = (b0 + a3) % 2 ^ 64 in
    let lb2 : b2 < 2 ^ 64 = omega arith in
    let lc0 : c0 < 2 ^ 64 = omega arith in
    rw (
      (rotate_right-rotate_left b2 lb2).4,
      unmix21 a3 c0 l3 lc0,
      unmix17 a1 b2 l1 lb2,
      sub-add b0 a3 (rotate_left-lt a0 la0).4 l3,
      sub-add a2 a1 la2 l1,
      (rotate_right-rotate_left a0 la0).4,
      unmix16 v.v3 a2 h.in3 la2,
      unmix13 v.v1 a0 h.in1 la0,
      sub-add v.v0 v.v1 h.in0 h.in1,
      sub-add v.v2 v.v3 h.in2 h.in3,
    )

-- ===== src/Siphash/Bounds.antt =====
-- The results of src/siphash.rs stay within their machine types, and an endpoint is the low bits
-- of the hash.
use rust_miner.Base.{ℕ, ◌+◌, ◌-◌, ◌*◌, ◌%◌, ◌^◌, ◌≤◌, ◌<◌, bit_and, bit_xor, ◌≡◌, arith}
use rust_miner.Base.{inl, inr, Bool-cases, ◌==◌, ==→≡, if◌then◌else◌}
use rust_miner.Base.Bits.{bit_xor-lt, bit_and-mask, pow_pos}
use native.Mathlib.Nat.{mod-lt, mod-eq_of_lt, le_trans, pow-le-pow_right}
use rust_miner.Siphash.{SipKeys, SipState, sip_round, siphash24, endpoint}
use rust_miner.Siphash.{rotate_left, start_state, absorb, squeeze}

pub record IsU64 (v : SipState) : Type 0 where
  pub in0 : v.v0 < 2 ^ 64
  pub in1 : v.v1 < 2 ^ 64
  pub in2 : v.v2 < 2 ^ 64
  pub in3 : v.v3 < 2 ^ 64

pub record AreKeys (k : SipKeys) : Type 0 where
  pub in0 : k.k0 < 2 ^ 64
  pub in1 : k.k1 < 2 ^ 64
  pub in2 : k.k2 < 2 ^ 64
  pub in3 : k.k3 < 2 ^ 64

pub rotate_left-lt :
    (x : ℕ)
    → x < 2 ^ 64
    → (rotate_left x 13 < 2 ^ 64)
      × (rotate_left x 16 < 2 ^ 64)
      × (rotate_left x 17 < 2 ^ 64)
      × (rotate_left x 21 < 2 ^ 64)
      × (rotate_left x 32 < 2 ^ 64)
rotate_left-lt x h = (omega arith, omega arith, omega arith, omega arith, omega arith)

pub sip_round-IsU64 : (v : SipState) → IsU64 v → IsU64 (sip_round v)
unfolding sip_round
sip_round-IsU64 v h =
    let a0 = (v.v0 + v.v1) % 2 ^ 64 in
    let a2 = (v.v2 + v.v3) % 2 ^ 64 in
    let a1 = bit_xor (rotate_left v.v1 13) a0 in
    let a3 = bit_xor (rotate_left v.v3 16) a2 in
    let l1 : a1 < 2 ^ 64 = bit_xor-lt 64 _ _ (rotate_left-lt v.v1 h.in1).0 (omega arith) in
    let l3 : a3 < 2 ^ 64 = bit_xor-lt 64 _ _ (rotate_left-lt v.v3 h.in3).1 (omega arith) in
    record {
      in0 = omega arith;
      in1 = bit_xor-lt 64 _ _ (rotate_left-lt a1 l1).2 (omega arith);
      in2 = (rotate_left-lt ((a2 + a1) % 2 ^ 64) (omega arith)).4;
      in3 = bit_xor-lt 64 _ _ (rotate_left-lt a3 l3).3 (omega arith);
    }

start_state-IsU64 :
    (keys : SipKeys) (nonce : ℕ) → AreKeys keys → nonce < 2 ^ 64 → IsU64 (start_state keys nonce)
start_state-IsU64 keys nonce h n = record {
  in0 = h.in0;
  in1 = h.in1;
  in2 = h.in2;
  in3 = bit_xor-lt 64 _ _ h.in3 n;
}

absorb-IsU64 : (nonce : ℕ) (v : SipState) → nonce < 2 ^ 64 → IsU64 v → IsU64 (absorb nonce v)
absorb-IsU64 nonce v n h = record {
  in0 = bit_xor-lt 64 _ _ h.in0 n;
  in1 = h.in1;
  in2 = bit_xor-lt 64 _ _ h.in2 (omega arith);
  in3 = h.in3;
}

squeeze-lt : (v : SipState) → IsU64 v → squeeze v < 2 ^ 64
squeeze-lt v h = bit_xor-lt 64 _ _ (bit_xor-lt 64 _ _ (bit_xor-lt 64 _ _ h.in0 h.in1) h.in2) h.in3

-- For keys and a nonce that are `u64`, the hash is a `u64`.
pub siphash24-lt :
    (keys : SipKeys) (nonce : ℕ) → AreKeys keys → nonce < 2 ^ 64 → siphash24 keys nonce < 2 ^ 64
unfolding siphash24
siphash24-lt keys nonce h n =
    let a = sip_round-IsU64 _ (start_state-IsU64 keys nonce h n) in
    let b = absorb-IsU64 nonce _ n (sip_round-IsU64 _ a) in
    squeeze-lt _ (sip_round-IsU64 _ (sip_round-IsU64 _ (sip_round-IsU64 _ (sip_round-IsU64 _ b))))

mask-eq :
    (edge_bits : ℕ)
    → (if edge_bits == 32 then 2 ^ 32 - 1 else 2 ^ edge_bits - 1) ≡ 2 ^ edge_bits - 1
mask-eq edge_bits = elim (Bool-cases (edge_bits == 32)) [
  | inl e ↦ rw e (rw (==→≡ edge_bits 32 e))
  | inr e ↦ rw e
]

-- For at most 32 edge bits, on both branches of the mask, the endpoint of an edge on a side is the
-- hash of `2 * edge + side` (the edge wrapped, the side's lowest bit) modulo `2 ^ edge_bits`.
pub endpoint-eq-mod :
    (keys : SipKeys) (edge_bits edge side : ℕ)
    → edge_bits ≤ 32
    → endpoint keys edge_bits edge side
      ≡ siphash24 keys (edge * 2 % 2 ^ 64 + side % 2) % 2 ^ edge_bits
unfolding endpoint
endpoint-eq-mod keys edge_bits edge side h =
    let m = 2 ^ edge_bits in
    let hash = siphash24 keys (edge * 2 % 2 ^ 64 + side % 2) in
    let low : bit_and side 1 ≡ side % 2 = bit_and-mask 1 side in
    let below : hash % m < 2 ^ 32 =
      le_trans (mod-lt hash (pow_pos edge_bits)) (pow-le-pow_right (omega arith) h) in
    rw (low, mask-eq edge_bits, bit_and-mask edge_bits hash) (mod-eq_of_lt below)

-- So an endpoint is a node of the graph.
pub endpoint-lt :
    (keys : SipKeys) (edge_bits edge side : ℕ)
    → edge_bits ≤ 32
    → endpoint keys edge_bits edge side < 2 ^ edge_bits
endpoint-lt keys edge_bits edge side h =
    rw (endpoint-eq-mod keys edge_bits edge side h) (mod-lt _ (pow_pos edge_bits))

-- ===== src/Siphash.antt =====
-- src/siphash.rs: SipHash-2-4 over four keys, the endpoint of an edge, and the keys as the GPU
-- reads them. A `u64` is a number below `2 ^ 64`; the wrap-around of each operation is written out.
pub mod Bounds
pub mod Split
pub mod Round
mod Tests
use rust_miner.Base.{ℕ, ◌+◌, ◌-◌, ◌*◌, ◌/◌, ◌%◌, ◌^◌, bit_and, bit_xor, List, [], ◌∷◌, ◌==◌}
use rust_miner.Base.{if◌then◌else◌}

pub record SipKeys : Type 0 where
  pub k0 : ℕ
  pub k1 : ℕ
  pub k2 : ℕ
  pub k3 : ℕ

-- `words` holds eight `u32`.
pub record GpuSipKeys : Type 0 where
  pub words : List ℕ

-- The low and the high half of a `u64`.
pub split : ℕ → ℕ × ℕ
split value = (value % 2 ^ 32, value / 2 ^ 32 % 2 ^ 32)

pub gpu_sip_keys : SipKeys → GpuSipKeys
unfolding split
gpu_sip_keys keys =
    let (a0, a1) = split keys.k0 in
    let (b0, b1) = split keys.k1 in
    let (c0, c1) = split keys.k2 in
    let (d0, d1) = split keys.k3 in record { words = a0 ∷ a1 ∷ b0 ∷ b1 ∷ c0 ∷ c1 ∷ d0 ∷ d1 ∷ [] }

-- `u64::wrapping_add` and `u64::rotate_left`.
abbrev wrapping_add : ℕ → ℕ → ℕ
wrapping_add a b = (a + b) % 2 ^ 64

abbrev rotate_left : ℕ → ℕ → ℕ
rotate_left x k = x * 2 ^ k % 2 ^ 64 + x / 2 ^ (64 - k)

-- The array `[u64; 4]` that the rounds work on.
pub record SipState : Type 0 where
  pub v0 : ℕ
  pub v1 : ℕ
  pub v2 : ℕ
  pub v3 : ℕ

-- Ten assignments in order; each `let` is the new content of the cell that it is named after.
unfoldable pub sip_round : SipState → SipState
sip_round v =
    let a0 = wrapping_add v.v0 v.v1 in
    let a2 = wrapping_add v.v2 v.v3 in
    let a1 = bit_xor (rotate_left v.v1 13) a0 in
    let a3 = bit_xor (rotate_left v.v3 16) a2 in
    let b0 = rotate_left a0 32 in
    let b2 = wrapping_add a2 a1 in
    let c0 = wrapping_add b0 a3 in
    let b1 = bit_xor (rotate_left a1 17) b2 in
    let b3 = bit_xor (rotate_left a3 21) c0 in
    let c2 = rotate_left b2 32 in record { v0 = c0; v1 = b1; v2 = c2; v3 = b3 }

abbrev start_state : SipKeys → ℕ → SipState
start_state keys nonce = record {
  v0 = keys.k0;
  v1 = keys.k1;
  v2 = keys.k2;
  v3 = bit_xor keys.k3 nonce;
}

abbrev absorb : ℕ → SipState → SipState
absorb nonce v = record v { v0 = bit_xor v.v0 nonce; v2 = bit_xor v.v2 0xff }

abbrev squeeze : SipState → ℕ
squeeze v = bit_xor (bit_xor (bit_xor v.v0 v.v1) v.v2) v.v3

unfoldable pub siphash24 : SipKeys → ℕ → ℕ
siphash24 keys nonce =
    let v = absorb nonce (sip_round (sip_round (start_state keys nonce))) in
    squeeze (sip_round (sip_round (sip_round (sip_round v))))

-- The shift is by `edge_bits < 64`: the callers admit 1 to 32 only. The sum cannot overflow, since
-- a doubled `u64` is even after the wrap.
unfoldable pub endpoint : SipKeys → ℕ → ℕ → ℕ → ℕ
endpoint keys edge_bits edge side =
    let mask = if edge_bits == 32 then 2 ^ 32 - 1 else 2 ^ edge_bits - 1 in
    bit_and (siphash24 keys (edge * 2 % 2 ^ 64 + bit_and side 1)) mask % 2 ^ 32

-- ===== src/Verify/Difficulty.antt =====
-- src/verify.rs: the hash of a packed proof and the share difficulty.
pub mod Packed
pub mod Bounds
mod Tests
use rust_miner.Base.{ℕ, zero, suc, ◌+◌, ◌-◌, ◌*◌, ◌/◌, ◌%◌, ◌^◌, min, max, bit_and, bit_or, not}
use rust_miner.Base.{List, [], ◌∷◌, length, get_or, set, replicate, ◌==◌, if◌then◌else◌}
use rust_miner.Keys.{Blake2b256}
use rust_miner.Verify.{Proof}

-- `packed[position / 8] |= 1 << (position % 8)`.
unfoldable pub set_packed : List ℕ → ℕ → List ℕ
set_packed packed position =
    set packed (position / 8) (bit_or (get_or packed (position / 8) 0) (2 ^ (position % 8)))

-- The bits of one nonce from number `bit`, with `left` to go.
unfoldable pub pack_bits : ℕ → ℕ → ℕ → ℕ → List ℕ → List ℕ
pack_bits zero bit start nonce packed = packed
pack_bits (suc left) bit start nonce packed =
    pack_bits left (suc bit) start nonce
      (if not (bit_and (nonce / 2 ^ bit) 1 == 0) then set_packed packed (start + bit) else packed)

unfoldable pub pack_nonces : ℕ → ℕ → List ℕ → List ℕ → List ℕ
pack_nonces edge_bits i [] packed = packed
pack_nonces edge_bits i (nonce ∷ nonces) packed =
    pack_nonces edge_bits (suc i) nonces (pack_bits edge_bits 0 (i * edge_bits) nonce packed)

unfoldable pub packed_proof : Proof → ℕ → List ℕ
packed_proof proof edge_bits =
    let bit_len = length proof.nonces * edge_bits in
    pack_nonces edge_bits 0 proof.nonces (replicate ((bit_len + 7) / 8) 0)

unfoldable pub proof_hash : Blake2b256 → Proof → ℕ → List ℕ
proof_hash blake proof edge_bits = blake.digest (packed_proof proof edge_bits)

-- `u64::from_be_bytes` of the `n` bytes from index `i`, behind those in `value`.
unfoldable pub from_be_bytes : List ℕ → ℕ → ℕ → ℕ → ℕ
from_be_bytes bytes i zero value = value
from_be_bytes bytes i (suc n) value = from_be_bytes bytes (suc i) n (256 * value + get_or bytes i 0)

unfoldable pub unscaled_proof_difficulty : Blake2b256 → Proof → ℕ → ℕ
unscaled_proof_difficulty blake proof edge_bits =
    let hash = proof_hash blake proof edge_bits in
    let denominator = max (from_be_bytes hash 0 8 0) 1 in min (2 ^ 64 / denominator) (2 ^ 64 - 1)

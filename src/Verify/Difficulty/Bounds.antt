-- ===== src/Verify/Difficulty/Bounds.antt =====
-- The range of the share difficulty, and what its threshold says of the hash.
use rust_miner.Base.{ℕ, ◌-◌, ◌*◌, ◌/◌, ◌^◌, ◌≤◌, ◌<◌, min, max, ◌↔◌, arith}
use rust_miner.Keys.{Blake2b256}
use rust_miner.Verify.{Proof}
use rust_miner.Verify.Difficulty.{proof_hash, from_be_bytes, unscaled_proof_difficulty}

-- The first eight bytes of the proof's hash as a number.
abbrev pub hash_prefix : Blake2b256 → Proof → ℕ → ℕ
hash_prefix blake proof edge_bits = from_be_bytes (proof_hash blake proof edge_bits) 0 8 0

threshold_iff :
    (d t : ℕ) → 1 ≤ d → t < 2 ^ 64 → (t ≤ min (2 ^ 64 / d) (2 ^ 64 - 1)) ↔ (t * d ≤ 2 ^ 64)
threshold_iff d t p q = (λ h. grind arith, λ h. grind arith)

-- For a share threshold that is a `u64`, the difficulty reaches it exactly if the threshold times
-- the hash prefix, taken as at least 1, is at most `2 ^ 64`.
pub difficulty_threshold :
    (blake : Blake2b256) (proof : Proof) (edge_bits threshold : ℕ)
    → threshold < 2 ^ 64
    → (threshold ≤ unscaled_proof_difficulty blake proof edge_bits)
      ↔ (threshold * max (hash_prefix blake proof edge_bits) 1 ≤ 2 ^ 64)
unfolding unscaled_proof_difficulty
difficulty_threshold blake proof edge_bits threshold h =
    threshold_iff (max (hash_prefix blake proof edge_bits) 1) threshold (omega arith) h

-- ===== src/Verify/Difficulty/Tests.antt =====
-- Tests of the packing and the difficulty of src/verify.rs.
use rust_miner.Base.{◌+◌, ◌*◌, ◌^◌, ◌≤◌, ◌≡◌, ◌↔◌, refl, max, [], ◌∷◌, get_or, arith}
use rust_miner.Base.Bits.{bit}
use rust_miner.Keys.Tests.{sum_blake}
use rust_miner.Verify.{Proof}
use rust_miner.Verify.Difficulty.{
  set_packed, pack_bits, pack_nonces, packed_proof, unscaled_proof_difficulty,
}
use rust_miner.Verify.Difficulty.Packed.{packed_bit, packed_proof_bits}
use rust_miner.Verify.Difficulty.Bounds.{hash_prefix, difficulty_threshold}

abbrev proof : Proof
proof = record { nonces = 0 ∷ 2 ∷ 6 ∷ 7 ∷ [] }

packs_three_bits_each : packed_proof proof 3 ≡ 0x90 ∷ 0x0f ∷ []
unfolding packed_proof pack_nonces pack_bits set_packed
packs_three_bits_each = refl

packed_proof_bits_example :
    packed_bit (packed_proof proof 3) (2 * 3 + 1) ≡ bit (get_or proof.nonces 2 0) 1
packed_proof_bits_example = packed_proof_bits proof 3 2 1 (omega arith) (omega arith)

difficulty_threshold_example :
    (5 ≤ unscaled_proof_difficulty sum_blake proof 3)
    ↔ (5 * max (hash_prefix sum_blake proof 3) 1 ≤ 2 ^ 64)
difficulty_threshold_example = difficulty_threshold sum_blake proof 3 5 (omega arith)

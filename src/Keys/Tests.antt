-- ===== src/Keys/Tests.antt =====
-- Tests of src/keys.rs with a hash that stands in for BLAKE2b: the sum of the bytes, 32 times.
use rust_miner.Base.{
  ℕ, zero, suc, ◌+◌, ◌/◌, ◌%◌, ◌^◌, ◌<◌, ◌≡◌, refl, List, [], ◌∷◌, ◌++◌, length-replicate,
}
use rust_miner.Base.{get_or, replicate, arith}
use rust_miner.Base.Bits.{pow_pos}
use rust_miner.Keys.{Blake2b256, to_be_bytes, from_le_bytes, derive_keys}
use rust_miner.Keys.Digest.{derive_keys-digest, key}

abbrev sum : List ℕ → ℕ
sum [] = 0
sum (b ∷ bytes) = b + sum bytes

pub replicate-lt : (n b i : ℕ) → b < 256 → get_or (replicate n b) i 0 < 256
replicate-lt zero b i l = pow_pos 8
replicate-lt (suc n) b zero l = l
replicate-lt (suc n) b (suc i) l = replicate-lt n b i l

abbrev pub sum_blake : Blake2b256
sum_blake = record {
  digest = λ bytes. replicate 32 (sum bytes % 256);
  length-digest = λ bytes. length-replicate 32 (sum bytes % 256);
  digest-lt = λ bytes i. replicate-lt 32 (sum bytes % 256) i (omega arith);
}

abbrev nonce : ℕ
nonce = 0x102

abbrev template : List ℕ
template = 1 ∷ 2 ∷ []

derive_keys_example : derive_keys sum_blake template nonce ≡ record {
  k0 = 0x0606060606060606;
  k1 = 0x0606060606060606;
  k2 = 0x0606060606060606;
  k3 = 0x0606060606060606;
}
unfolding derive_keys from_le_bytes to_be_bytes
derive_keys_example = refl

derive_keys-digest_example :
    key (derive_keys sum_blake template nonce) 2 / 256 ^ 3 % 256
    ≡ get_or (sum_blake.digest (template ++ to_be_bytes 8 nonce)) 19 0
derive_keys-digest_example =
    derive_keys-digest sum_blake template nonce 2 3 (omega arith) (omega arith)

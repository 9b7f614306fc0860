-- ===== src/Keys.antt =====
-- src/keys.rs: the four SipHash keys of a template and a nonce. BLAKE2b-256 is the `blake2` crate:
-- here a record of the function and the shape of its digest.
pub mod Digest
pub mod Tests
use rust_miner.Base.{ℕ, zero, suc, ◌+◌, ◌*◌, ◌/◌, ◌%◌, ◌^◌, ◌<◌, ◌≡◌, List, [], ◌∷◌, ◌++◌}
use rust_miner.Base.{length, get_or}
use rust_miner.Siphash.{SipKeys}

-- A digest is 32 bytes, whatever the input.
pub record Blake2b256 : Type 0 where
  pub digest : List ℕ → List ℕ
  pub length-digest : (bytes : List ℕ) → length (digest bytes) ≡ 32
  pub digest-lt : (bytes : List ℕ) (i : ℕ) → get_or (digest bytes) i 0 < 256

-- `u64::to_be_bytes`, of any width: the highest byte first.
unfoldable pub to_be_bytes : ℕ → ℕ → List ℕ
to_be_bytes zero value = []
to_be_bytes (suc n) value = value / 256 ^ n % 256 ∷ to_be_bytes n value

-- `u64::from_le_bytes` of the `n` bytes from index `i`: the lowest byte first.
unfoldable pub from_le_bytes : List ℕ → ℕ → ℕ → ℕ
from_le_bytes bytes i zero = 0
from_le_bytes bytes i (suc n) = get_or bytes i 0 + 256 * from_le_bytes bytes (i + 1) n

unfoldable pub derive_keys : Blake2b256 → List ℕ → ℕ → SipKeys
derive_keys blake pre_pow nonce =
    let digest = blake.digest (pre_pow ++ to_be_bytes 8 nonce) in
    record {
      k0 = from_le_bytes digest 0 8;
      k1 = from_le_bytes digest 8 8;
      k2 = from_le_bytes digest 16 8;
      k3 = from_le_bytes digest 24 8;
    }

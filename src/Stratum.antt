-- ===== src/Stratum.antt =====
-- src/stratum.rs: the jobs, shares and answers that pass between the pool and the miner. Text is a
-- list of character codes.
pub mod Frame
pub mod Json
pub mod Client
pub mod Calls
use rust_miner.Base.{ℕ, Bool, false, ◌||◌, Option, List, ◌==◌}

-- `i64`.
pub data ℤ : Type 0 where
  pos : ℕ → ℤ
  negsuc : ℕ → ℤ

pub record Job : Type 0 where
  pub height : ℕ
  pub job_id : ℕ
  pub difficulty : ℕ
  pub pre_pow : List ℕ

-- `hex::decode` is a third-party function.
abbrev pub pre_pow_bytes : (List ℕ → Option (List ℕ)) → Job → Option (List ℕ)
pre_pow_bytes decode job = decode job.pre_pow

pub record SubmitParams : Type 0 where
  pub edge_bits : ℕ
  pub height : ℕ
  pub job_id : ℕ
  pub nonce : ℕ
  pub pow : List ℕ

-- The field `data`, which nothing reads, is left out.
pub record RpcError : Type 0 where
  pub code : ℤ
  pub message : List ℕ

-- -32501 is a low difficulty, -32503 a share that came too late.
abbrev pub is_expected_code : ℤ → Bool
is_expected_code (pos n) = false
is_expected_code (negsuc n) = (n == 32500) || (n == 32502)

abbrev pub is_expected_share_rejection : RpcError → Bool
is_expected_share_rejection error = is_expected_code error.code

-- The value of an accepted share is only printed.
pub data SubmitOutcome : Type 0 where
  accepted : SubmitOutcome
  rejected : RpcError → SubmitOutcome

-- ===== src/Stratum/Json.antt =====
-- src/stratum.rs: what the client reads of a JSON value. Values and their decoding are the crates
-- `serde_json` and `serde`: here a record of the functions that the client calls.
use Prim.Native.String.{String}
use text.Mathlib.Text.{◌==◌}
use rust_miner.Base.{ℕ, ◌^◌, Bool, false, not, Option, none, some, List}
use rust_miner.Base.{Result, ok, err, codes, parse_uint, if◌then◌else◌}
use rust_miner.Stratum.{Job, RpcError, SubmitOutcome, accepted, rejected, pre_pow_bytes, pos}

pub record Json : Type 1 where
  pub Value : Type 0
  -- `Value::Null`, `Value::get`, `Value::is_null`, `Value::as_str` and `Value::as_u64`.
  pub null : Value
  pub get : String → Value → Option Value
  pub is_null : Value → Bool
  pub as_str : Value → Option String
  pub as_u64 : Value → Option ℕ
  -- `from_slice`, `from_value` for a job and for an error, and `to_string`.
  pub from_slice : List ℕ → Option Value
  pub job_of : Value → Option Job
  pub rpc_error_of : Value → Option RpcError
  pub to_string : Value → List ℕ

-- Why a call of the client fails.
pub data ClientError : Type 0 where
  not_connected not_written closed timed_out refused no_success no_job invalid_pre_pow : ClientError

module _ (json : Json) where
  open json use {Value, null, get, is_null, as_str, as_u64, from_slice, job_of, rpc_error_of}
  open json use {to_string}

  abbrev pub not_null : Option Value → Option Value
  not_null none = none
  not_null (some value) = if is_null value then none else some value

  abbrev pub or_null : Option Value → Value
  or_null none = null
  or_null (some value) = value

  abbrev pub is_text : String → Option String → Bool
  is_text wanted none = false
  is_text wanted (some text) = text == wanted

  -- The error of a reply, if it has one that is not null.
  abbrev pub error_of : Value → Option Value
  error_of response = not_null (get "error" response)

  abbrev pub and_then {ℓ} : {A B : Type ℓ} → (A → Option B) → Option A → Option B
  and_then f none = none
  and_then f (some a) = f a

  abbrev pub is_job_push : Value → Bool
  is_job_push value = is_text "job" (and_then as_str (get "method" value))

  -- A push without `params` has no job either.
  abbrev pub pushed_job : Value → Option Job
  pushed_job value = and_then job_of (get "params" value)

  -- An id is a number, or a text that is one.
  abbrev pub numeric_id : Option ℕ → Option String → Option ℕ
  numeric_id (some id) text = some id
  numeric_id none none = none
  numeric_id none (some text) = parse_uint (2 ^ 64) (codes text)

  abbrev pub id_of : Value → Option ℕ
  id_of id = numeric_id (as_u64 id) (as_str id)

  unfoldable pub response_id : Value → Option ℕ
  response_id value = and_then id_of (get "id" value)

  abbrev success : Option Value → Result ClientError (Unit {0})
  success none = err no_success
  success (some value) =
      if is_text "ok" (as_str value)
      then ok tt
      else if not (is_null value)
      then ok tt
      else err no_success

  abbrev unless_refused {ℓ} :
      {A : Type ℓ} → Option Value → Result ClientError A → Result ClientError A
  unless_refused none result = result
  unless_refused (some error) result = err refused

  unfoldable pub ensure_ok : Value → Result ClientError (Unit {0})
  ensure_ok response = unless_refused (error_of response) (success (get "result" response))

  -- An error that is no `RpcError` becomes one with the code 0.
  abbrev rpc_error : Option RpcError → Value → RpcError
  rpc_error (some error) value = error
  rpc_error none value = record { code = pos 0; message = to_string value }

  abbrev submitted_as : Option Value → SubmitOutcome
  submitted_as none = accepted
  submitted_as (some error) = rejected (rpc_error (rpc_error_of error) error)

  unfoldable pub submit_outcome : Value → SubmitOutcome
  submit_outcome response = submitted_as (error_of response)

  module _ (decode : List ℕ → Option (List ℕ)) where
    -- A job whose template is hexadecimal.
    abbrev pub decodes : Job → Option (List ℕ) → Option Job
    decodes job none = none
    decodes job (some bytes) = some job

    abbrev pub usable : Job → Option Job
    usable job = decodes job (pre_pow_bytes decode job)

    abbrev with_template : Job → Option Job → Result ClientError Job
    with_template job none = err invalid_pre_pow
    with_template job (some same) = ok same

    abbrev job_in : Option Job → Result ClientError Job
    job_in none = err no_job
    job_in (some job) = with_template job (usable job)

    unfoldable pub job_reply : Value → Result ClientError Job
    job_reply response =
        unless_refused (error_of response) (job_in (job_of (or_null (get "result" response))))

-- ===== src/Coordinator.antt =====
-- src/coordinator.rs: the mining loop. What the loop learns from outside is explicit: the events
-- that it meets while a solve runs, the result of the solve, and what the client answers afterwards.
pub mod Select
pub mod Shares
pub mod Discard
pub mod Backoff
pub mod Progress
pub mod Runs
pub mod Errors
mod Tests
use rust_miner.Base.{ℕ, zero, suc, ◌+◌, ◌*◌, ◌%◌, ◌^◌, Bool, true, false, not, ◌&&◌, ◌||◌, min}
use rust_miner.Base.{
  Option, none, some, List, [], ◌∷◌, ◌++◌, ltb, leb, ◌==◌, if◌then◌else◌, Result, ok, err,
}
use rust_miner.Keys.{Blake2b256}
use rust_miner.Verify.{Proof, VerifyError, verify_cycle}
use rust_miner.Verify.Difficulty.{unscaled_proof_difficulty}
use rust_miner.Solver.{SolveRequest, SolveError, SolveOutcome, sip_keys, gpu, invalid_config}
use rust_miner.Solver.{unsupported, search_limit, found, no_cycle, cancelled, inconclusive}
use rust_miner.Stratum.{Job, pre_pow_bytes, SubmitParams, RpcError, is_expected_share_rejection}
use rust_miner.Stratum.{SubmitOutcome, accepted, rejected}

pub record MineConfig : Type 0 where
  pub edge_bits : ℕ
  pub cycle_length : ℕ
  pub rounds : ℕ
  pub max_graphs : ℕ
  pub nonce_start : ℕ

-- What `mine` returns as an error.
pub data MineError : Type 0 where
  wrong_cycle_length bad_pre_pow nonce_exhausted : MineError
  failed_three_times : SolveError → MineError
  solving : ℕ → SolveError → MineError
  invalid_proof : VerifyError → MineError
  share_rejected : RpcError → MineError

abbrev pub job_is_stale : Job → Job → Bool
job_is_stale current latest = not (latest.height == current.height)

-- `checked_add` on `u64`.
pub next_nonce : ℕ → Result MineError ℕ
next_nonce nonce = if ltb (nonce + 1) (2 ^ 64) then ok (nonce + 1) else err nonce_exhausted

-- One round of `reconnect_and_get_job`.
pub data Attempt : Type 0 where
  reconnect_failed job_failed : Attempt
  got_job : Job → Attempt

-- The job, if one of these attempts brings it, and the delays in seconds that were slept.
pub reconnect_and_get_job : List Attempt → ℕ → Option Job × List ℕ
reconnect_and_get_job [] delay = (none, [])
reconnect_and_get_job (got_job job ∷ rest) delay = (some job, [])
reconnect_and_get_job (reconnect_failed ∷ rest) delay =
    let (job, delays) = reconnect_and_get_job rest (min (delay * 2) 30) in (job, delay ∷ delays)
reconnect_and_get_job (job_failed ∷ rest) delay =
    let (job, delays) = reconnect_and_get_job rest (min (delay * 2) 30) in (job, delay ∷ delays)

-- The mutable variables of the loop.
pub record MineState : Type 0 where
  pub job : Job
  pub pre_pow : List ℕ
  pub nonce : ℕ
  pub graphs : ℕ
  pub errors : ℕ

-- `submit`: an outcome, or `Err` when the delivery is unknown.
pub data Reply : Type 0 where
  answered : SubmitOutcome → Reply
  undelivered : Reply

-- What the client says after a solve: whether it is connected, the job in the channel, the job
-- that a reconnect would bring, and the reply to a share if one is sent.
pub record Answers : Type 0 where
  pub connected : Bool
  pub latest : Option Job
  pub fresh : Job
  pub reply : Reply

-- A step of the loop sends at most one share and goes on or ends with an error.
abbrev pub Step : Type 0
Step = Option SubmitParams × Result MineError MineState

pub request_of : MineConfig → MineState → SolveRequest
request_of config s = record {
  pre_pow = s.pre_pow;
  nonce = s.nonce;
  live_work = true;
  edge_bits = config.edge_bits;
  cycle_length = config.cycle_length;
  rounds = config.rounds;
}

abbrev pub with_nonce : MineState → Result MineError ℕ → Result MineError MineState
with_nonce s (ok nonce) = ok (record s { nonce = nonce })
with_nonce s (err e) = err e

abbrev pub advance : MineState → Result MineError MineState
advance s = with_nonce s (next_nonce s.nonce)

abbrev pub with_bytes : MineConfig → MineState → Job → Option (List ℕ) → Result MineError MineState
with_bytes config s job none = err bad_pre_pow
with_bytes config s job (some bytes) =
    ok (record s { job = job; pre_pow = bytes; nonce = config.nonce_start })

-- The three places that take over another job and start over.
abbrev pub restart :
    (List ℕ → Option (List ℕ)) → MineConfig → MineState → Job → Result MineError MineState
restart decode config s job = with_bytes config s job (pre_pow_bytes decode job)

abbrev pub stale_job : Job → Option Job → Option Job
stale_job current none = none
stale_job current (some latest) = if job_is_stale current latest then some latest else none

abbrev pub share : MineConfig → MineState → Proof → SubmitParams
share config s proof = record {
  edge_bits = config.edge_bits;
  height = s.job.height;
  job_id = s.job.job_id;
  nonce = s.nonce;
  pow = proof.nonces;
}

-- One solve as the loop sees it.
pub record Round : Type 0 where
  pub result : Result SolveError SolveOutcome
  pub answers : Answers

abbrev pub Mined : Type 0
Mined = List SubmitParams × Result MineError MineState

abbrev pub sent_by : Option SubmitParams → List SubmitParams
sent_by none = []
sent_by (some s) = s ∷ []

-- The loop goes on from a step that did not end it.
abbrev pub then_rounds : Step → (MineState → Mined) → Mined
then_rounds (sent, err e) rest = (sent_by sent, err e)
then_rounds (sent, ok s) rest = let (more, end) = rest s in (sent_by sent ++ more, end)

-- The job that `get_job` returns, or else the one that a reconnect brings.
abbrev pub first_job : Option Job → Job → Job
first_job (some job) fresh = job
first_job none fresh = fresh

abbrev pub newer_job : Job → Option Job → Job
newer_job current none = current
newer_job current (some latest) = latest

module _ (blake : Blake2b256) (decode : List ℕ → Option (List ℕ)) (config : MineConfig) where
  -- The match on the answer to a share.
  abbrev pub after_reply : MineState → Job → Reply → Result MineError MineState
  after_reply s fresh (answered accepted) = advance s
  after_reply s fresh (answered (rejected error)) =
      if is_expected_share_rejection error then advance s else err (share_rejected error)
  after_reply s fresh undelivered = restart decode config s fresh

  abbrev pub after_verify : MineState → Answers → Proof → Result VerifyError (Unit {0}) → Step
  after_verify s answers proof (err e) = (none, err (invalid_proof e))
  after_verify s answers proof (ok _) =
      if leb s.job.difficulty (unscaled_proof_difficulty blake proof config.edge_bits)
      then (some (share config s proof), after_reply s answers.fresh answers.reply)
      else (none, advance s)

  abbrev pub after_outcome : MineState → Answers → SolveOutcome → Step
  after_outcome s answers (found proof) = after_verify s answers proof (
      verify_cycle (sip_keys blake (request_of config s)) config.edge_bits config.cycle_length
        proof)
  after_outcome s answers no_cycle = (none, advance s)
  after_outcome s answers cancelled = (none, ok s)
  after_outcome s answers (inconclusive reason) = (none, advance s)

  -- A newer job at another height discards the outcome.
  abbrev pub unless_stale : MineState → Answers → SolveOutcome → Option Job → Step
  unless_stale s answers outcome (some latest) = (none, restart decode config s latest)
  unless_stale s answers outcome none = after_outcome s answers outcome

  -- The branch of the loop that the end of a solve takes.
  pub after_solve : MineState → Answers → Result SolveError SolveOutcome → Step
  after_solve s answers (err (gpu reason)) =
      if leb 3 (s.errors + 1)
      then (none, err (failed_three_times (gpu reason)))
      else (none, advance (record s { errors = s.errors + 1 }))
  after_solve s answers (err (invalid_config reason)) =
      (none, err (solving s.nonce (invalid_config reason)))
  after_solve s answers (err (unsupported reason)) =
      (none, err (solving s.nonce (unsupported reason)))
  after_solve s answers (err (search_limit reason)) =
      (none, err (solving s.nonce (search_limit reason)))
  after_solve s answers (ok outcome) =
      let s' = record s { errors = 0; graphs = (s.graphs + 1) % 2 ^ 64 } in
      if not answers.connected
      then (none, restart decode config s' answers.fresh)
      else unless_stale s' answers outcome (stale_job s.job answers.latest)

  abbrev pub wants_more : MineState → Bool
  wants_more s = (config.max_graphs == 0) || ltb s.graphs config.max_graphs

  -- The `while` over the rounds that take place, with the shares that were sent, in order.
  pub mine_rounds : MineState → List Round → Mined
  mine_rounds s [] = ([], ok s)
  mine_rounds s (round ∷ rounds) =
      let next =
        then_rounds (after_solve s round.answers round.result) (λ s'. mine_rounds s' rounds) in
      if wants_more s then next else ([], ok s)

  abbrev pub from_start : Job → List Round → Option (List ℕ) → Mined
  from_start job rounds none = ([], err bad_pre_pow)
  from_start job rounds (some bytes) =
      mine_rounds
        (record { job = job; pre_pow = bytes; nonce = config.nonce_start; graphs = 0; errors = 0 })
        rounds

  pub mine : Option Job → Job → Option Job → List Round → Mined
  mine got fresh latest rounds =
      let current = first_job got fresh in
      let job = newer_job current (stale_job current latest) in
      if not (config.cycle_length == 42)
      then ([], err wrong_cycle_length)
      else from_start job rounds (pre_pow_bytes decode job)

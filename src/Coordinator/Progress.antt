-- ===== src/Coordinator/Progress.antt =====
-- src/coordinator.rs: how the loop's variables move, as a step relation, and what every run keeps.
use rust_miner.Base.{ℕ, ◌+◌, ◌%◌, ◌^◌, ◌<◌, ◌≡◌, refl, subst, not, inl, inr, ◌⊎◌, arith}
use rust_miner.Base.{
  Option, none, some, List, leb, ltb, ltb→lt, Result, ok, err, none≢some, Bool-cases,
}
use rust_miner.Keys.{Blake2b256}
use rust_miner.Verify.{Proof, VerifyError}
use rust_miner.Verify.Difficulty.{unscaled_proof_difficulty}
use rust_miner.Solver.{
  Reason, SolveError, SolveOutcome, gpu, invalid_config, unsupported, search_limit, found, no_cycle,
  cancelled, inconclusive,
}
use rust_miner.Stratum.{Job, pre_pow_bytes, is_expected_share_rejection, accepted, rejected}
use rust_miner.Coordinator.{MineConfig, MineError, MineState, Answers, Reply, answered, undelivered}
use rust_miner.Coordinator.{next_nonce, advance, with_bytes, restart, stale_job, job_is_stale}
use rust_miner.Coordinator.{after_reply, after_verify, after_outcome, unless_stale, after_solve}

-- The state behind a solve that ended with an outcome.
abbrev pub counted : MineState → MineState
counted s = record s { errors = 0; graphs = (s.graphs + 1) % 2 ^ 64 }

module _ (decode : List ℕ → Option (List ℕ)) (config : MineConfig) where
  -- The ways on from a counted state.
  pub data IsMove (t : MineState) (answers : Answers) (outcome : SolveOutcome)
      : MineState → Type 0 where
    advanced : t.nonce + 1 < 2 ^ 64 → IsMove t answers outcome (record t { nonce = t.nonce + 1 })
    kept : outcome ≡ cancelled → IsMove t answers outcome t
    restarted :
        (job : Job) (bytes : List ℕ)
        → (job ≡ answers.fresh) ⊎ (answers.latest ≡ some job)
        → pre_pow_bytes decode job ≡ some bytes
        → IsMove t answers outcome
            (record t { job = job; pre_pow = bytes; nonce = config.nonce_start })

  -- The ways through one solve.
  pub data IsStep (s : MineState) (answers : Answers) (result : Result SolveError SolveOutcome)
      : MineState → Type 0 where
    failed :
        {reason : Reason}
        → result ≡ err (gpu reason)
        → s.errors + 1 < 3
        → s.nonce + 1 < 2 ^ 64
        → IsStep s answers result (record s { errors = s.errors + 1; nonce = s.nonce + 1 })
    solved :
        {outcome : SolveOutcome} {s' : MineState}
        → result ≡ ok outcome
        → IsMove (counted s) answers outcome s'
        → IsStep s answers result s'

  abbrev Moves : MineState → Answers → SolveOutcome → Result MineError MineState → Type 0
  Moves t answers outcome (err e) = Unit
  Moves t answers outcome (ok s') = IsMove t answers outcome s'

  advance-Moves :
      (t : MineState) (answers : Answers) (outcome : SolveOutcome)
      → Moves t answers outcome (advance t)
  unfolding next_nonce
  advance-Moves t answers outcome = elim (Bool-cases (ltb (t.nonce + 1) (2 ^ 64))) [
    | inl fits ↦ rw fits (advanced (ltb→lt _ _ fits))
    | inr over ↦ rw over tt
  ]

  restart-Moves :
      (t : MineState) (answers : Answers) (outcome : SolveOutcome) (job : Job)
      → (job ≡ answers.fresh) ⊎ (answers.latest ≡ some job)
      → Moves t answers outcome (restart decode config t job)
  restart-Moves t answers outcome job origin = from (pre_pow_bytes decode job) refl
    where
      from :
          (bytes : Option (List ℕ))
          → pre_pow_bytes decode job ≡ bytes
          → Moves t answers outcome (with_bytes config t job bytes)
      from none e = tt
      from (some bytes) e = restarted job bytes origin e

  module _ (blake : Blake2b256) where
    after_reply-Moves :
        (t : MineState) (answers : Answers) (outcome : SolveOutcome) (reply : Reply)
        → Moves t answers outcome (after_reply blake decode config t answers.fresh reply)
    after_reply-Moves t answers outcome (answered accepted) = advance-Moves t answers outcome
    after_reply-Moves t answers outcome (answered (rejected e)) =
        elim (Bool-cases (is_expected_share_rejection e)) [
          | inl expected ↦ rw expected (advance-Moves t answers outcome)
          | inr other ↦ rw other tt
        ]
    after_reply-Moves t answers outcome undelivered =
        restart-Moves t answers outcome answers.fresh (inl refl)

    after_verify-Moves :
        (t : MineState) (answers : Answers) (proof : Proof) (r : Result VerifyError (Unit {0}))
        → Moves t answers (found proof) (after_verify blake decode config t answers proof r).1
    after_verify-Moves t answers proof (err e) = tt
    after_verify-Moves t answers proof (ok tt) =
        elim (Bool-cases
          (leb t.job.difficulty (unscaled_proof_difficulty blake proof config.edge_bits))) [
            | inl enough ↦ rw enough (after_reply-Moves t answers (found proof) answers.reply)
            | inr below ↦ rw below (advance-Moves t answers (found proof))
          ]

    after_outcome-Moves :
        (t : MineState) (answers : Answers) (outcome : SolveOutcome)
        → Moves t answers outcome (after_outcome blake decode config t answers outcome).1
    after_outcome-Moves t answers (found proof) = after_verify-Moves t answers proof _
    after_outcome-Moves t answers no_cycle = advance-Moves t answers no_cycle
    after_outcome-Moves t answers cancelled = kept refl
    after_outcome-Moves t answers (inconclusive reason) =
        advance-Moves t answers (inconclusive reason)

    stale_job-latest :
        (current : Job) (latest : Option Job) (job : Job)
        → stale_job current latest ≡ some job
        → latest ≡ some job
    stale_job-latest current none job e = absurd (none≢some e)
    stale_job-latest current (some latest) job e = elim (Bool-cases (job_is_stale current latest)) [
      | inl stale ↦ rw stale at e
      | inr same ↦ absurd (none≢some (rw same at e))
    ]

    unless_stale-Moves :
        (t : MineState) (answers : Answers) (outcome : SolveOutcome) (latest : Option Job)
        → stale_job t.job answers.latest ≡ latest
        → Moves t answers outcome (unless_stale blake decode config t answers outcome latest).1
    unless_stale-Moves t answers outcome none e = after_outcome-Moves t answers outcome
    unless_stale-Moves t answers outcome (some job) e =
        restart-Moves t answers outcome job (inr (stale_job-latest t.job answers.latest job e))

    abbrev Steps :
        MineState → Answers → Result SolveError SolveOutcome → Result MineError MineState → Type 0
    Steps s answers result (err e) = Unit
    Steps s answers result (ok s') = IsStep s answers result s'

    Moves-Steps :
        (s : MineState) (answers : Answers) (outcome : SolveOutcome)
        (r : Result MineError MineState)
        → Moves (counted s) answers outcome r
        → Steps s answers (ok outcome) r
    Moves-Steps s answers outcome (err e) m = tt
    Moves-Steps s answers outcome (ok s') m = solved refl m

    after_gpu-Steps :
        (s : MineState) (answers : Answers) (reason : Reason)
        → s.errors + 1 < 3
        → Steps s answers (err (gpu reason)) (advance (record s { errors = s.errors + 1 }))
    unfolding next_nonce
    after_gpu-Steps s answers reason few = elim (Bool-cases (ltb (s.nonce + 1) (2 ^ 64))) [
      | inl fits ↦ rw fits (failed refl few (ltb→lt _ _ fits))
      | inr over ↦ rw over tt
    ]

    after_solve-Steps :
        (s : MineState) (answers : Answers) (result : Result SolveError SolveOutcome)
        → Steps s answers result (after_solve blake decode config s answers result).1
    unfolding after_solve
    after_solve-Steps s answers (err (gpu reason)) = elim (Bool-cases (leb 3 (s.errors + 1))) [
      | inl third ↦ rw third tt
      | inr again ↦ rw again (after_gpu-Steps s answers reason (ground arith))
    ]
    after_solve-Steps s answers (err (invalid_config reason)) = tt
    after_solve-Steps s answers (err (unsupported reason)) = tt
    after_solve-Steps s answers (err (search_limit reason)) = tt
    after_solve-Steps s answers (ok outcome) = elim (Bool-cases (not answers.connected)) [
      | inl lost ↦ rw lost (
          Moves-Steps s answers outcome _
            (restart-Moves (counted s) answers outcome answers.fresh (inl refl)))
      | inr there ↦
          rw there (
            Moves-Steps s answers outcome _ (unless_stale-Moves (counted s) answers outcome _ refl))
    ]

-- A solve that does not end the loop moves its variables in one of four ways: a GPU error, of which
-- there are fewer than three in a row, counts as an error and takes the next nonce; any outcome
-- clears the errors, counts as a graph, and takes the next nonce, or keeps the nonce if the solve
-- was cancelled, or takes over the reconnected or the latest job with its template and starts at the
-- configured nonce. No nonce passes `2 ^ 64`.
pub after_solve-IsStep :
    (blake : Blake2b256) (decode : List ℕ → Option (List ℕ)) (config : MineConfig)
    (s s' : MineState) (answers : Answers) (result : Result SolveError SolveOutcome)
    → (after_solve blake decode config s answers result).1 ≡ ok s'
    → IsStep decode config s answers result s'
after_solve-IsStep blake decode config s s' answers result e =
    subst (Steps decode config blake s answers result) e
      (after_solve-Steps decode config blake s answers result)

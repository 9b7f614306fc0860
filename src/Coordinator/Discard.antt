-- ===== src/Coordinator/Discard.antt =====
-- src/coordinator.rs: when the loop sends a share, and when it discards one.
use rust_miner.Base.{ℕ, ◌+◌, ◌%◌, ◌^◌, ◌≡◌, refl, ap, subst, true, not, inl, inr, arith}
use rust_miner.Base.{Option, none, some, List, leb, Result, ok, err, Bool-cases}
use rust_miner.Keys.{Blake2b256}
use rust_miner.Verify.{Proof, VerifyError}
use rust_miner.Verify.Difficulty.{unscaled_proof_difficulty}
use rust_miner.Solver.{
  SolveError, SolveOutcome, gpu, invalid_config, unsupported, search_limit, found, no_cycle,
  cancelled, inconclusive,
}
use rust_miner.Stratum.{Job, SubmitParams}
use rust_miner.Coordinator.{
  MineConfig, MineState, Answers, stale_job, share, after_verify, after_outcome, unless_stale,
  after_solve,
}

module _ (blake : Blake2b256) (decode : List ℕ → Option (List ℕ)) (config : MineConfig)
    (s : MineState) where
  -- What is sent, if anything, is the share of the proof of the outcome.
  abbrev IsOutcome : SolveOutcome → Option SubmitParams → Type 0
  IsOutcome outcome none = Unit
  IsOutcome outcome (some sub) =
      (proof : Proof) × (outcome ≡ found proof) × (sub ≡ share config s proof)

  after_verify-sent :
      (t : MineState) (answers : Answers) (proof : Proof) (r : Result VerifyError (Unit {0}))
      → share config t proof ≡ share config s proof
      → IsOutcome (found proof) (after_verify blake decode config t answers proof r).0
  after_verify-sent t answers proof (err e) q = tt
  after_verify-sent t answers proof (ok tt) q =
      elim (Bool-cases
        (leb t.job.difficulty (unscaled_proof_difficulty blake proof config.edge_bits))) [
          | inl enough ↦ rw enough (proof, refl, q)
          | inr below ↦ rw below tt
        ]

  abbrev counted : MineState
  counted = record s { errors = 0; graphs = (s.graphs + 1) % 2 ^ 64 }

  after_outcome-sent :
      (answers : Answers) (outcome : SolveOutcome)
      → IsOutcome outcome (after_outcome blake decode config counted answers outcome).0
  after_outcome-sent answers (found proof) = after_verify-sent counted answers proof _ refl
  after_outcome-sent answers no_cycle = tt
  after_outcome-sent answers cancelled = tt
  after_outcome-sent answers (inconclusive reason) = tt

  -- The same of a whole step.
  abbrev IsResult : Answers → Result SolveError SolveOutcome → Option SubmitParams → Type 0
  IsResult answers result none = Unit
  IsResult answers result (some sub) =
      (answers.connected ≡ true)
      × (stale_job s.job answers.latest ≡ none)
      × ((proof : Proof) × (result ≡ ok (found proof)) × (sub ≡ share config s proof))

  connected_sent :
      (answers : Answers) (outcome : SolveOutcome) (sent : Option SubmitParams)
      → answers.connected ≡ true
      → stale_job s.job answers.latest ≡ none
      → IsOutcome outcome sent
      → IsResult answers (ok outcome) sent
  connected_sent answers outcome none c l o = tt
  connected_sent answers outcome (some sub) c l (proof, e, q) = (c, l, (proof, ap ok e, q))

  unless_stale-sent :
      (answers : Answers) (outcome : SolveOutcome) (latest : Option Job)
      → answers.connected ≡ true
      → stale_job s.job answers.latest ≡ latest
      → IsResult answers
          (ok outcome)
          (unless_stale blake decode config counted answers outcome latest).0
  unless_stale-sent answers outcome (some latest) c l = tt
  unless_stale-sent answers outcome none c l =
      connected_sent answers outcome _ c l (after_outcome-sent answers outcome)

  after_solve-IsResult :
      (answers : Answers) (result : Result SolveError SolveOutcome)
      → IsResult answers result (after_solve blake decode config s answers result).0
  unfolding after_solve
  after_solve-IsResult answers (err (gpu reason)) = elim (Bool-cases (leb 3 (s.errors + 1))) [
    | inl third ↦ rw third tt
    | inr again ↦ rw again tt
  ]
  after_solve-IsResult answers (err (invalid_config reason)) = tt
  after_solve-IsResult answers (err (unsupported reason)) = tt
  after_solve-IsResult answers (err (search_limit reason)) = tt
  after_solve-IsResult answers (ok outcome) = elim (Bool-cases (not answers.connected)) [
    | inl lost ↦ rw lost tt
    | inr there ↦ rw there (unless_stale-sent answers outcome _ (ground arith) refl)
  ]

-- A share is sent only after a solve that found its proof, while the client is connected and has
-- no job at another height, and it is the share of that proof for the current job and nonce.
pub after_solve-sent :
    (blake : Blake2b256) (decode : List ℕ → Option (List ℕ)) (config : MineConfig) (s : MineState)
    (answers : Answers) (result : Result SolveError SolveOutcome) (sub : SubmitParams)
    → (after_solve blake decode config s answers result).0 ≡ some sub
    → (answers.connected ≡ true)
      × (stale_job s.job answers.latest ≡ none)
      × ((proof : Proof) × (result ≡ ok (found proof)) × (sub ≡ share config s proof))
after_solve-sent blake decode config s answers result sub e =
    subst (IsResult blake decode config s answers result) e
      (after_solve-IsResult blake decode config s answers result)

-- ===== src/Coordinator/Shares.antt =====
-- src/coordinator.rs: which shares the loop sends.
use rust_miner.Base.{ℕ, ◌+◌, ◌%◌, ◌^◌, ◌≤◌, ◌≡◌, refl, sym, not, inl, inr}
use rust_miner.Base.{
  Option, none, some, List, [], ◌∷◌, ◌∈◌, leb, ◌==◌, Result, ok, err, Bool-cases, ==→≡, leb→le,
  mem-append_cases, subst,
}
use rust_miner.Keys.{Blake2b256, derive_keys}
use rust_miner.Verify.{Proof, VerifyError, verify_cycle}
use rust_miner.Verify.Difficulty.{unscaled_proof_difficulty}
use rust_miner.Solver.{
  SolveError, SolveOutcome, sip_keys, gpu, invalid_config, unsupported, search_limit, found,
  no_cycle, cancelled, inconclusive,
}
use rust_miner.Stratum.{
  Job, pre_pow_bytes, SubmitParams, is_expected_share_rejection, accepted, rejected,
}
use rust_miner.Coordinator.{
  MineConfig, MineError, MineState, Answers, Reply, answered, undelivered, Step, Round, Mined,
}
use rust_miner.Coordinator.{request_of, with_nonce, with_bytes, restart, sent_by, then_rounds}
use rust_miner.Coordinator.{
  after_reply, after_verify, after_outcome, unless_stale, after_solve, wants_more, mine_rounds,
  from_start, mine,
}

module _ (blake : Blake2b256) (decode : List ℕ → Option (List ℕ)) (config : MineConfig) where
  -- A share for `job`: its template and its nonce give the keys of a graph in which `verify_cycle`
  -- accepts the proof, and the proof reaches the difficulty of the job.
  pub record IsShare (job : Job) (sub : SubmitParams) : Type 0 where
    pub height : sub.height ≡ job.height
    pub job_id : sub.job_id ≡ job.job_id
    pub edge_bits : sub.edge_bits ≡ config.edge_bits
    pub bytes : List ℕ
    pub template : pre_pow_bytes decode job ≡ some bytes
    pub valid :
        verify_cycle
          (derive_keys blake bytes sub.nonce)
          config.edge_bits
          config.cycle_length
          (record { nonces = sub.pow })
        ≡ ok tt
    pub reaches :
        job.difficulty
        ≤ unscaled_proof_difficulty blake (record { nonces = sub.pow }) config.edge_bits

  -- The bytes of the template are those of the current job.
  abbrev IsReady : MineState → Type 0
  IsReady s = pre_pow_bytes decode s.job ≡ some s.pre_pow

  abbrev Ready : Result MineError MineState → Type 0
  Ready (err e) = Unit
  Ready (ok s) = IsReady s

  abbrev Sent : Job → Option SubmitParams → Type 0
  Sent job none = Unit
  Sent job (some sub) = IsShare job sub

  abbrev Good : Job → Step → Type 0
  Good job (sent, result) = Sent job sent × Ready result

  with_nonce-Ready : (s : MineState) (n : Result MineError ℕ) → IsReady s → Ready (with_nonce s n)
  with_nonce-Ready s (ok n) r = r
  with_nonce-Ready s (err e) r = tt

  restart-Ready : (s : MineState) (job : Job) → Ready (restart decode config s job)
  restart-Ready s job = from (pre_pow_bytes decode job) refl
    where
      from :
          (bytes : Option (List ℕ))
          → pre_pow_bytes decode job ≡ bytes
          → Ready (with_bytes config s job bytes)
      from none e = tt
      from (some bytes) e = e

  after_reply-Ready :
      (s : MineState) (fresh : Job) (reply : Reply)
      → IsReady s
      → Ready (after_reply blake decode config s fresh reply)
  after_reply-Ready s fresh (answered accepted) r = with_nonce-Ready s _ r
  after_reply-Ready s fresh (answered (rejected e)) r =
      elim (Bool-cases (is_expected_share_rejection e)) [
        | inl expected ↦ rw expected (with_nonce-Ready s _ r)
        | inr other ↦ rw other tt
      ]
  after_reply-Ready s fresh undelivered r = restart-Ready s fresh

  after_verify-Good :
      (s : MineState) (answers : Answers) (proof : Proof) (r : Result VerifyError (Unit {0}))
      → verify_cycle
          (sip_keys blake (request_of config s))
          config.edge_bits
          config.cycle_length
          proof
        ≡ r
      → IsReady s
      → Good s.job (after_verify blake decode config s answers proof r)
  unfolding sip_keys request_of
  after_verify-Good s answers proof (err e) v r = (tt, tt)
  after_verify-Good s answers proof (ok tt) v r =
      elim (Bool-cases
        (leb s.job.difficulty (unscaled_proof_difficulty blake proof config.edge_bits))) [
          | inl enough ↦ rw enough (
            record {
              height = refl;
              job_id = refl;
              edge_bits = refl;
              bytes = s.pre_pow;
              template = r;
              valid = v;
              reaches = leb→le _ _ enough;
            },
            after_reply-Ready s answers.fresh answers.reply r,
          )
          | inr below ↦ rw below (tt, with_nonce-Ready s _ r)
        ]

  after_outcome-Good :
      (s : MineState) (answers : Answers) (outcome : SolveOutcome)
      → IsReady s
      → Good s.job (after_outcome blake decode config s answers outcome)
  after_outcome-Good s answers (found proof) r = after_verify-Good s answers proof _ refl r
  after_outcome-Good s answers no_cycle r = (tt, with_nonce-Ready s _ r)
  after_outcome-Good s answers cancelled r = (tt, r)
  after_outcome-Good s answers (inconclusive reason) r = (tt, with_nonce-Ready s _ r)

  unless_stale-Good :
      (s : MineState) (answers : Answers) (outcome : SolveOutcome) (latest : Option Job)
      → IsReady s
      → Good s.job (unless_stale blake decode config s answers outcome latest)
  unless_stale-Good s answers outcome none r = after_outcome-Good s answers outcome r
  unless_stale-Good s answers outcome (some latest) r = (tt, restart-Ready s latest)

  after_solve-Good :
      (s : MineState) (answers : Answers) (result : Result SolveError SolveOutcome)
      → IsReady s
      → Good s.job (after_solve blake decode config s answers result)
  unfolding after_solve
  after_solve-Good s answers (err (gpu reason)) r = elim (Bool-cases (leb 3 (s.errors + 1))) [
    | inl third ↦ rw third (tt, tt)
    | inr again ↦ rw again (tt, with_nonce-Ready (record s { errors = s.errors + 1 }) _ r)
  ]
  after_solve-Good s answers (err (invalid_config reason)) r = (tt, tt)
  after_solve-Good s answers (err (unsupported reason)) r = (tt, tt)
  after_solve-Good s answers (err (search_limit reason)) r = (tt, tt)
  after_solve-Good s answers (ok outcome) r =
      let s' = record s { errors = 0; graphs = (s.graphs + 1) % 2 ^ 64 } in
      elim (Bool-cases (not answers.connected)) [
        | inl lost ↦ rw lost (tt, restart-Ready s' answers.fresh)
        | inr there ↦ rw there (unless_stale-Good s' answers outcome _ r)
      ]

  -- Every share of a list is one for some job.
  abbrev AreShares : List SubmitParams → Type 0
  AreShares sent = (sub : SubmitParams) → sub ∈ sent → (job : Job) × IsShare job sub

  sent_by-AreShares :
      (job : Job) (sent : Option SubmitParams) → Sent job sent → AreShares (sent_by sent)
  sent_by-AreShares job none good sub m = absurd m
  sent_by-AreShares job (some share') good sub (inl e) = (job, subst (IsShare job) (sym e) good)
  sent_by-AreShares job (some share') good sub (inr m) = absurd m

  then_rounds-AreShares :
      (job : Job) (step : Step) (rest : MineState → Mined)
      → Good job step
      → ((s : MineState) → IsReady s → AreShares (rest s).0)
      → AreShares (then_rounds step rest).0
  then_rounds-AreShares job (sent, err e) rest good later = sent_by-AreShares job sent good.0
  then_rounds-AreShares job (sent, ok s) rest good later = λ sub m.
      elim (mem-append_cases sub (sent_by sent) _ m) [
        | inl now ↦ sent_by-AreShares job sent good.0 sub now
        | inr after ↦ later s good.1 sub after
      ]

  mine_rounds-AreShares :
      (s : MineState) (rounds : List Round)
      → IsReady s
      → AreShares (mine_rounds blake decode config s rounds).0
  unfolding mine_rounds
  mine_rounds-AreShares s [] r = λ sub m. absurd m
  mine_rounds-AreShares s (round ∷ rounds) r =
      elim (Bool-cases (wants_more blake decode config s)) [
        | inl more ↦ rw more (
            then_rounds-AreShares s.job _ _ (after_solve-Good s round.answers round.result r)
              (λ s' r'. mine_rounds-AreShares s' rounds r'))
        | inr enough ↦ rw enough (λ sub m. absurd m)
      ]

  from_start-AreShares :
      (job : Job) (rounds : List Round) (bytes : Option (List ℕ))
      → pre_pow_bytes decode job ≡ bytes
      → AreShares (from_start blake decode config job rounds bytes).0
  from_start-AreShares job rounds none e = λ sub m. absurd m
  from_start-AreShares job rounds (some bytes) e = mine_rounds-AreShares _ rounds e

-- Whatever the solver returns and the pool says, each share that `mine` sends is for some job: it
-- names the job's height and id and the configured edge bits, and `verify_cycle` accepts its 42
-- nonces for the keys of the job's template and the share's nonce, and they reach the difficulty.
pub mine-AreShares :
    (blake : Blake2b256) (decode : List ℕ → Option (List ℕ)) (config : MineConfig)
    (got : Option Job) (fresh : Job) (latest : Option Job) (rounds : List Round)
    (sub : SubmitParams)
    → sub ∈ (mine blake decode config got fresh latest rounds).0
    → (config.cycle_length ≡ 42) × ((job : Job) × IsShare blake decode config job sub)
unfolding mine
mine-AreShares blake decode config got fresh latest rounds sub m =
    elim (Bool-cases (config.cycle_length == 42)) [
      | inl right ↦ (
        ==→≡ _ 42 right,
        from_start-AreShares blake decode config _ rounds _ refl sub (rw right at m),
      )
      | inr wrong ↦ absurd (let m' = rw wrong at m in m')
    ]

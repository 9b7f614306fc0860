-- ===== src/Coordinator/Errors.antt =====
-- src/coordinator.rs: repeated GPU errors, and a share whose delivery is unknown.
use rust_miner.Base.{ℕ, ◌+◌, ◌%◌, ◌^◌, ◌≤◌, ◌<◌, ◌≡◌, refl, sym, ◌∙◌, ap, subst, true, false, arith}
use rust_miner.Base.{Option, none, some, List, [], ◌∷◌, leb, ltb, ◌==◌, ok, err, ≡→==}
use rust_miner.Keys.{Blake2b256, derive_keys}
use rust_miner.Verify.{Proof, verify_cycle}
use rust_miner.Verify.Difficulty.{unscaled_proof_difficulty}
use rust_miner.Solver.{Reason, gpu, found, sip_keys}
use rust_miner.Stratum.{Job, pre_pow_bytes}
use rust_miner.Coordinator.{
  MineConfig, failed_three_times, MineState, Answers, undelivered, Round, next_nonce, share,
  request_of,
}
use rust_miner.Coordinator.{after_solve, wants_more, mine_rounds}

abbrev pub gpu_round : Reason → Answers → Round
gpu_round reason answers = record { result = err (gpu reason); answers = answers }

abbrev pub lost_round : Job → Proof → Round
lost_round job proof = record {
  result = ok (found proof);
  answers = record { connected = true; latest = none; fresh = job; reply = undelivered };
}

module _ (blake : Blake2b256) (decode : List ℕ → Option (List ℕ)) (config : MineConfig) where
  -- One failure that does not end the loop.
  one_failure :
      (s : MineState) (reason : Reason) (answers : Answers) (rounds : List Round)
      → wants_more blake decode config s ≡ true
      → s.errors + 1 < 3
      → s.nonce + 1 < 2 ^ 64
      → mine_rounds blake decode config s (gpu_round reason answers ∷ rounds)
        ≡ mine_rounds blake decode config
            (record s { errors = s.errors + 1; nonce = s.nonce + 1 })
            rounds
  unfolding mine_rounds after_solve next_nonce
  one_failure s reason answers rounds more few fits =
      let again : leb 3 (s.errors + 1) ≡ false = ground arith in
      let room : ltb (s.nonce + 1) (2 ^ 64) ≡ true = ground arith in rw (more, again, room) refl

  last_failure :
      (s : MineState) (reason : Reason) (answers : Answers) (rounds : List Round)
      → wants_more blake decode config s ≡ true
      → s.errors ≡ 2
      → mine_rounds blake decode config s (gpu_round reason answers ∷ rounds)
        ≡ ([], err (failed_three_times (gpu reason)))
  unfolding mine_rounds after_solve
  last_failure s reason answers rounds more two =
      let third : leb 3 (s.errors + 1) ≡ true = ground arith in rw (more, third) refl

  -- The state behind a share that was lost and a reconnect to the same job.
  abbrev over_again : MineState → MineState
  over_again s = record s {
    errors = 0;
    graphs = (s.graphs + 1) % 2 ^ 64;
    nonce = config.nonce_start;
  }

  lost_share :
      (s : MineState) (proof : Proof)
      → pre_pow_bytes decode s.job ≡ some s.pre_pow
      → verify_cycle
          (derive_keys blake s.pre_pow s.nonce)
          config.edge_bits
          config.cycle_length
          proof
        ≡ ok tt
      → leb s.job.difficulty (unscaled_proof_difficulty blake proof config.edge_bits) ≡ true
      → after_solve blake decode config s (lost_round s.job proof).answers (ok (found proof))
        ≡ (some (share config s proof), ok (over_again s))
  unfolding after_solve sip_keys request_of
  lost_share s proof template valid enough = rw (valid, enough, template) refl

  wants : (s : MineState) → config.max_graphs ≡ 0 → wants_more blake decode config s ≡ true
  wants s endless = let all : (config.max_graphs == 0) ≡ true = ≡→== _ 0 endless in rw all refl

  lost_rounds :
      (s : MineState) (proof : Proof) (rounds : List Round)
      → config.max_graphs ≡ 0
      → after_solve blake decode config s (lost_round s.job proof).answers (ok (found proof))
        ≡ (some (share config s proof), ok (over_again s))
      → (mine_rounds blake decode config s (lost_round s.job proof ∷ rounds)).0
        ≡ share config s proof ∷ (mine_rounds blake decode config (over_again s) rounds).0
  unfolding mine_rounds
  lost_rounds s proof rounds endless lost = rw (wants s endless, lost) refl

  no_rounds : (s : MineState) → (mine_rounds blake decode config s []).0 ≡ []
  unfolding mine_rounds
  no_rounds s = refl

-- Three GPU errors in a row end the loop with the third error and without a share, if no error came
-- before them, the loop wanted more and two nonces are left.
pub mine_rounds-three_errors :
    (blake : Blake2b256) (decode : List ℕ → Option (List ℕ)) (config : MineConfig) (s : MineState)
    (r1 r2 r3 : Reason) (a1 a2 a3 : Answers) (rounds : List Round)
    → wants_more blake decode config s ≡ true
    → s.errors ≡ 0
    → s.nonce + 2 < 2 ^ 64
    → mine_rounds blake decode config s
        (gpu_round r1 a1 ∷ gpu_round r2 a2 ∷ gpu_round r3 a3 ∷ rounds)
      ≡ ([], err (failed_three_times (gpu r3)))
mine_rounds-three_errors blake decode config s r1 r2 r3 a1 a2 a3 rounds more clean room =
    one_failure blake decode config s r1 a1 _ more (omega arith) (omega arith)
    ∙ one_failure blake decode config _ r2 a2 _ more (omega arith) (omega arith)
    ∙ last_failure blake decode config _ r3 a3 rounds more (omega arith)

-- A share whose delivery is unknown is sent again if the reconnect brings the same job and the
-- solver finds the same proof again, without a bound on the graphs and with the configured nonce the
-- nonce of the share.
pub mine_rounds-resends :
    (blake : Blake2b256) (decode : List ℕ → Option (List ℕ)) (config : MineConfig) (s : MineState)
    (proof : Proof)
    → config.max_graphs ≡ 0
    → s.nonce ≡ config.nonce_start
    → pre_pow_bytes decode s.job ≡ some s.pre_pow
    → verify_cycle (derive_keys blake s.pre_pow s.nonce) config.edge_bits config.cycle_length proof
      ≡ ok tt
    → s.job.difficulty ≤ unscaled_proof_difficulty blake proof config.edge_bits
    → (mine_rounds blake decode config s (lost_round s.job proof ∷ lost_round s.job proof ∷ [])).0
      ≡ share config s proof ∷ share config s proof ∷ []
mine_rounds-resends blake decode config s proof endless first template valid reaches =
    let enough : leb s.job.difficulty (unscaled_proof_difficulty blake proof config.edge_bits)
        ≡ true =
      ground arith in
    let again = over_again blake decode config s in
    let valid' =
      subst
        (λ n.
          verify_cycle (derive_keys blake s.pre_pow n) config.edge_bits config.cycle_length proof
          ≡ ok tt)
        first valid in
    let one = lost_share blake decode config s proof template valid enough in
    let two = lost_share blake decode config again proof template valid' enough in
    let same : share config again proof ≡ share config s proof =
      ap (λ n. share config (record s { nonce = n }) proof) (sym first) in
    lost_rounds blake decode config s proof _ endless one
    ∙ ap (λ more. share config s proof ∷ more)
        (lost_rounds blake decode config again proof [] endless two
          ∙ ap (λ more. share config again proof ∷ more) (no_rounds blake decode config _)
          ∙ ap (λ x. x ∷ []) same)

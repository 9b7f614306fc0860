-- ===== src/Coordinator/Tests.antt =====
-- Tests of the mining loop: a job whose graph of 2048 edges has a cycle of 42.
use rust_miner.Base.{◌<◌}
use rust_miner.Base.{
  ℕ, ◌^◌, ◌≤◌, ◌≡◌, ◌∈◌, refl, sym, subst, min, inl, true, Option, none, some, List, [], ◌∷◌,
  get_or, length, Result, ok, err, arith, leb→le,
}
use rust_miner.Siphash.{sip_round, siphash24, endpoint}
use rust_miner.Keys.{derive_keys, to_be_bytes, from_le_bytes}
use rust_miner.Keys.Tests.{sum_blake}
use rust_miner.Verify.{
  Proof, verify_cycle, edge_ends, find_mates, check_nonces, scan_mates, mate_of, mate_node, walk,
}
use rust_miner.Verify.Difficulty.{
  unscaled_proof_difficulty, proof_hash, packed_proof, pack_nonces, pack_bits, set_packed,
  from_be_bytes,
}
use rust_miner.Solver.{SolveError, SolveOutcome, no_cycle, found, gpu_failure, gpu, sip_keys}
use rust_miner.Stratum.{Job, accepted}
use rust_miner.Coordinator.{
  MineConfig, MineState, Answers, answered, Round, share, mine, mine_rounds, after_solve,
  next_nonce, request_of, reconnect_and_get_job, Attempt, reconnect_failed, job_failed, got_job,
  failed_three_times, stale_job,
}
use rust_miner.Coordinator.Select.{
  job_changed, connection_changed, watch, start_watch, any_alarming, watch-cancel,
}
use rust_miner.Coordinator.Shares.{IsShare, mine-AreShares}
use rust_miner.Coordinator.Discard.{after_solve-sent}
use rust_miner.Coordinator.Backoff.{failures, first_job, reconnect_and_get_job-delays}
use rust_miner.Coordinator.Progress.{IsStep, after_solve-IsStep}
use rust_miner.Coordinator.Runs.{IsRun, mine-IsRun}
use rust_miner.Coordinator.Errors.{
  gpu_round, lost_round, mine_rounds-three_errors, mine_rounds-resends,
}

abbrev decode : List ℕ → Option (List ℕ)
decode text = some text

abbrev job : Job
job = record { height = 7; job_id = 3; difficulty = 1; pre_pow = 227 ∷ [] }

abbrev next_job : Job
next_job = record { height = 8; job_id = 4; difficulty = 1; pre_pow = 5 ∷ [] }

abbrev config : MineConfig
config = record { edge_bits = 11; cycle_length = 42; rounds = 5; max_graphs = 0; nonce_start = 0 }

abbrev proof : Proof
proof = record {
  nonces =
      46 ∷ 77 ∷ 104 ∷ 119 ∷ 171 ∷ 184 ∷ 283 ∷ 419 ∷ 451 ∷ 477 ∷ 506 ∷ 530 ∷ 567 ∷ 576 ∷ 602 ∷ 609
      ∷ 755 ∷ 781 ∷ 789 ∷ 800 ∷ 880 ∷ 890 ∷ 988 ∷ 989 ∷ 1017 ∷ 1034 ∷ 1059 ∷ 1117 ∷ 1215 ∷ 1242
      ∷ 1345 ∷ 1358 ∷ 1392 ∷ 1488 ∷ 1538 ∷ 1576 ∷ 1586 ∷ 1880 ∷ 1899 ∷ 1924 ∷ 1932 ∷ 1996 ∷ [];
}

abbrev state : MineState
state = record { job = job; pre_pow = 227 ∷ []; nonce = 0; graphs = 0; errors = 0 }

abbrev answers : Answers
answers = record { connected = true; latest = none; fresh = next_job; reply = answered accepted }

abbrev round : Round
round = record { result = ok (found proof); answers = answers }

valid : verify_cycle (derive_keys sum_blake (227 ∷ []) 0) 11 42 proof ≡ ok tt
unfolding verify_cycle edge_ends find_mates check_nonces scan_mates mate_of mate_node walk endpoint
    siphash24 sip_round derive_keys to_be_bytes from_le_bytes
valid = refl

reaches : 1 ≤ unscaled_proof_difficulty sum_blake proof 11
unfolding unscaled_proof_difficulty proof_hash packed_proof pack_nonces pack_bits set_packed
    from_be_bytes
reaches = leb→le 1 _ refl

sends :
    (after_solve sum_blake decode config state answers (ok (found proof))).0
    ≡ some (share config state proof)
unfolding after_solve sip_keys request_of verify_cycle edge_ends find_mates check_nonces scan_mates
    mate_of mate_node walk endpoint siphash24 sip_round derive_keys to_be_bytes from_le_bytes
    unscaled_proof_difficulty proof_hash packed_proof pack_nonces pack_bits set_packed from_be_bytes
sends = refl

mines :
    (mine sum_blake decode config (some job) job none (round ∷ [])).0
    ≡ share config state proof ∷ []
unfolding mine mine_rounds after_solve next_nonce sip_keys request_of verify_cycle edge_ends
    find_mates check_nonces scan_mates mate_of mate_node walk endpoint siphash24 sip_round
    derive_keys to_be_bytes from_le_bytes unscaled_proof_difficulty proof_hash packed_proof
    pack_nonces pack_bits set_packed from_be_bytes
mines = refl

watch-cancel_example :
    (watch job start_watch
      (connection_changed (some true) ∷ job_changed (some (some next_job)) ∷ [])).cancel
    ≡ any_alarming job (connection_changed (some true) ∷ job_changed (some (some next_job)) ∷ [])
watch-cancel_example =
    watch-cancel job (connection_changed (some true) ∷ job_changed (some (some next_job)) ∷ [])

mine-AreShares_example :
    (config.cycle_length ≡ 42)
    × ((for : Job) × IsShare sum_blake decode config for (share config state proof))
mine-AreShares_example =
    mine-AreShares sum_blake decode config (some job) job none (round ∷ [])
      (share config state proof)
      (subst (λ sent. share config state proof ∈ sent) (sym mines) (inl refl))

abbrev solved_result : Result SolveError SolveOutcome
solved_result = ok (found proof)

after_solve-sent_example :
    (answers.connected ≡ true)
    × (stale_job job answers.latest ≡ none)
    × ((p : Proof) × (solved_result ≡ ok (found p))
        × (share config state proof ≡ share config state p))
after_solve-sent_example =
    after_solve-sent sum_blake decode config state answers (ok (found proof))
      (share config state proof) sends

abbrev attempts : List Attempt
attempts = reconnect_failed ∷ job_failed ∷ got_job job ∷ []

backs_off : (reconnect_and_get_job attempts 1).1 ≡ 1 ∷ 2 ∷ []
unfolding reconnect_and_get_job
backs_off = refl

reconnect_and_get_job-delays_example :
    ((reconnect_and_get_job attempts 1).0 ≡ first_job attempts)
    × (length (reconnect_and_get_job attempts 1).1 ≡ failures attempts)
    × ((i : ℕ)
        → i < failures attempts
        → get_or (reconnect_and_get_job attempts 1).1 i 0 ≡ min (2 ^ i) 30)
reconnect_and_get_job-delays_example = reconnect_and_get_job-delays attempts

abbrev moved : MineState
moved = record state { nonce = 1; graphs = 1 }

moves : (after_solve sum_blake decode config state answers (ok no_cycle)).1 ≡ ok moved
unfolding after_solve next_nonce
moves = refl

after_solve-IsStep_example : IsStep decode config state answers (ok no_cycle) moved
after_solve-IsStep_example =
    after_solve-IsStep sum_blake decode config state moved answers (ok no_cycle) moves

runs :
    (mine sum_blake decode config
      (some job)
      job
      none
      (record { result = ok no_cycle; answers = answers } ∷ [])).1
    ≡ ok moved
unfolding mine mine_rounds after_solve next_nonce
runs = refl

mine-IsRun_example : IsRun config moved
mine-IsRun_example =
    mine-IsRun sum_blake decode config (some job) job none
      (record { result = ok no_cycle; answers = answers } ∷ []) moved (omega arith) runs

mine_rounds-three_errors_example :
    mine_rounds sum_blake decode config state (
      gpu_round (gpu_failure 1) answers
      ∷ gpu_round (gpu_failure 2) answers
      ∷ gpu_round (gpu_failure 3) answers
      ∷ round
      ∷ [])
    ≡ ([], err (failed_three_times (gpu (gpu_failure 3))))
mine_rounds-three_errors_example =
    mine_rounds-three_errors sum_blake decode config state (gpu_failure 1) (gpu_failure 2)
      (gpu_failure 3) answers answers answers (round ∷ []) refl refl (omega arith)

mine_rounds-resends_example :
    (mine_rounds sum_blake decode config state (lost_round job proof ∷ lost_round job proof ∷ [])).0
    ≡ share config state proof ∷ share config state proof ∷ []
mine_rounds-resends_example =
    mine_rounds-resends sum_blake decode config state proof refl refl refl valid reaches

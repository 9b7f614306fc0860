-- ===== src/Solver/Wgpu/Answers.antt =====
-- What the wgpu backend of src/solver/gpu_wgpu.rs promises, whatever the device does.
use rust_miner.Base.{ℕ, ◌≤◌, min, subst, ◌≡◌, ◌≢◌, refl, Bool, true, false, Option, none, some}
use rust_miner.Base.{List, Result, ok, err, ltb}
use rust_miner.Keys.{Blake2b256}
use rust_miner.Verify.{Proof, verify_cycle}
use rust_miner.Solver.{SolveRequest, SolveError, SolveOutcome, GraphParams}
use rust_miner.Solver.{found, no_cycle, cancelled, inconclusive, graph_params}
use rust_miner.Solver.{validate_request, invalid_config, unsupported, gpu, search_limit}
use rust_miner.Solver.Validate.{validate_request_iff}
use rust_miner.Solver.CpuLean.{outcomes, after_validation}
use rust_miner.Solver.CpuLean.Correct.{accepts}
use rust_miner.Solver.Peel.Returns.{peel_two_core-returns}
use rust_miner.Solver.D2.{find_cycle_d2}
use rust_miner.Solver.D2.Sound.{find_cycle_d2-returns, find_cycle_d2_sound}
use rust_miner.Solver.Wgpu.{GpuWgpuSolver}
use rust_miner.Solver.Wgpu.Rounds.{TrimOutcome, trimmed, trim_cancelled, diagnostic}
use rust_miner.Solver.Wgpu.Ends.{trim_with_mark_mode-returns}
use rust_miner.Solver.Wgpu.Verdict.{
  GpuAttempt, gpu_solve, verdict_at_round, verdict_of, after_gpu_trim, after_peel, fall_back,
  trim_on_device, gpu_capabilities, early_verdict_round,
}

-- An answer that is there, with a proof only if `verify_cycle` accepts it.
abbrev pub IsSound : GraphParams → Option (Result SolveError SolveOutcome) → Type 0
IsSound request none = ⊥
IsSound request (some (err e)) = Unit
IsSound request (some (ok (found proof))) =
    verify_cycle request.keys request.edge_bits request.cycle_length proof ≡ ok tt
IsSound request (some (ok no_cycle)) = Unit
IsSound request (some (ok cancelled)) = Unit
IsSound request (some (ok (inconclusive reason))) = Unit

module _ (request : GraphParams) where
  search-IsSound :
      (survivors : List ℕ) (answer : Option (Result SolveError (Option Proof)))
      → find_cycle_d2 request survivors ≡ answer
      → IsSound request (outcomes answer)
  search-IsSound survivors none e = find_cycle_d2-returns request survivors e
  search-IsSound survivors (some (ok (some proof))) e =
      find_cycle_d2_sound request survivors proof e
  search-IsSound survivors (some (ok none)) e = tt
  search-IsSound survivors (some (err (search_limit r))) e = tt
  search-IsSound survivors (some (err (invalid_config r))) e = tt
  search-IsSound survivors (some (err (unsupported r))) e = tt
  search-IsSound survivors (some (err (gpu r))) e = tt

  -- The search behind a trimming on a GPU.
  pub after_gpu_trim-IsSound :
      (late : Bool) (survivors : List ℕ)
      → request.edge_bits ≤ 32
      → IsSound request (after_gpu_trim request late survivors)
  unfolding after_gpu_trim
  after_gpu_trim-IsSound late survivors bits =
      from late _ (peel_two_core-returns request survivors bits)
    where
      from :
          (late : Bool) (p : Option (Result SolveError (List ℕ)))
          → p ≢ none
          → IsSound request (after_peel request late p)
      from late none there = there refl
      from late (some (err e)) there = tt
      from true (some (ok kept)) there = tt
      from false (some (ok kept)) there = search-IsSound kept _ refl

  verdict-IsSound :
      (solver : GpuWgpuSolver) (attempt : GpuAttempt) (rounds : ℕ) (live_work : Bool)
      → 1 ≤ solver.config.slean_parts
      → request.edge_bits ≤ 32
      → IsSound request (verdict_at_round solver attempt request rounds live_work)
  unfolding verdict_at_round trim_on_device
  verdict-IsSound solver (device, late) rounds live_work parts bits =
      from _ (trim_with_mark_mode-returns solver device request rounds live_work _ parts)
    where
      from :
          (t : Option (Result SolveError TrimOutcome))
          → t ≢ none
          → IsSound request (verdict_of request late t)
      from none there = there refl
      from (some (err e)) there = tt
      from (some (ok trim_cancelled)) there = tt
      from (some (ok (diagnostic message))) there = tt
      from (some (ok (trimmed survivors))) there = after_gpu_trim-IsSound late survivors bits

  fall_back-IsSound :
      (retry : Bool) (early full : Option (Result SolveError SolveOutcome))
      → IsSound request early
      → IsSound request full
      → IsSound request (fall_back retry early full)
  fall_back-IsSound retry none full a b = a
  fall_back-IsSound retry (some (err e)) full a b = a
  fall_back-IsSound retry (some (ok (found proof))) full a b = a
  fall_back-IsSound retry (some (ok no_cycle)) full a b = a
  fall_back-IsSound retry (some (ok cancelled)) full a b = a
  fall_back-IsSound false (some (ok (inconclusive reason))) full a b = a
  fall_back-IsSound true (some (ok (inconclusive reason))) full a b = b

gpu_solve-IsSound :
    (blake : Blake2b256) (solver : GpuWgpuSolver) (request : SolveRequest) (early full : GpuAttempt)
    → 1 ≤ solver.config.slean_parts
    → IsSound (graph_params blake request) (gpu_solve blake solver request early full)
unfolding gpu_solve graph_params
gpu_solve-IsSound blake solver request early full parts = from _ refl
  where
    from :
        (v : Result SolveError (Unit {0}))
        → validate_request request gpu_capabilities ≡ v
        → IsSound (graph_params blake request) (
            after_validation v (
              fall_back
                (ltb (min request.rounds early_verdict_round) request.rounds)
                (verdict_at_round solver early
                  (graph_params blake request)
                  (min request.rounds early_verdict_round)
                  request.live_work)
                (verdict_at_round solver full
                  (graph_params blake request)
                  request.rounds
                  request.live_work)))
    from (err e) q = tt
    from (ok tt) q =
        let work = (validate_request_iff request gpu_capabilities).0 q in
        fall_back-IsSound (graph_params blake request) _ _ _
          (verdict-IsSound (graph_params blake request) solver early _ request.live_work parts
            work.bits_le)
          (verdict-IsSound (graph_params blake request) solver full _ request.live_work parts
            work.bits_le)

-- Whatever the device answers, a proof that `solve` of the wgpu backend returns is accepted by
-- `verify_cycle` for the keys of the request, if the configuration has a part.
pub gpu_solve-found :
    (blake : Blake2b256) (solver : GpuWgpuSolver) (request : SolveRequest) (early full : GpuAttempt)
    (proof : Proof)
    → 1 ≤ solver.config.slean_parts
    → gpu_solve blake solver request early full ≡ some (ok (found proof))
    → accepts blake request proof ≡ ok tt
unfolding graph_params
gpu_solve-found blake solver request early full proof parts e =
    subst (IsSound (graph_params blake request)) e
      (gpu_solve-IsSound blake solver request early full parts)

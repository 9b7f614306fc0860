-- ===== src/Solver/Wgpu/Verdict.antt =====
-- src/solver/gpu_wgpu.rs: a verdict after some rounds, and `solve`, which takes an early one first.
-- The search behind the trimming, `after_gpu_trim`, is also that of src/solver/gpu_metal.rs.
use rust_miner.Base.{ℕ, min, Bool, true, false, ltb, if◌then◌else◌, Option, none, some}
use rust_miner.Base.{List, Result, ok, err}
use rust_miner.Keys.{Blake2b256}
use rust_miner.Solver.{SolveRequest, BackendCapabilities, SolveError, SolveOutcome, GraphParams}
use rust_miner.Solver.{found, no_cycle, cancelled, inconclusive, graph_params, validate_request}
use rust_miner.Solver.{TrimmingMode, auto, lean, slean}
use rust_miner.Solver.CpuLean.{outcomes, after_validation}
use rust_miner.Solver.Peel.{peel_two_core}
use rust_miner.Solver.D2.{find_cycle_d2}
use rust_miner.Solver.Wgpu.{GpuWgpuSolver}
use rust_miner.Solver.Wgpu.Prepare.{PreparedTrim}
use rust_miner.Solver.Wgpu.Rounds.{
  Device, TrimOutcome, trimmed, trim_cancelled, diagnostic, trim_with_mark_mode,
}

abbrev pub early_verdict_round : ℕ
early_verdict_round = 128

abbrev pub gpu_capabilities : BackendCapabilities
gpu_capabilities = record { min_edge_bits = 1; max_edge_bits = 32; cycle_length = 42 }

abbrev pub use_slean : TrimmingMode → Bool
use_slean auto = true
use_slean lean = false
use_slean slean = true

unfoldable pub trim_on_device :
    GpuWgpuSolver
    → (PreparedTrim → Device)
    → GraphParams
    → ℕ
    → Bool
    → Option (Result SolveError TrimOutcome)
trim_on_device solver device request rounds live_work =
    trim_with_mark_mode solver device request rounds live_work
      (record { bucketed_mark = true; slean = use_slean solver.config.trimming; fine_end = none })

-- The search among the edges that the peeling left; `late_cancel` is what the load of the flag
-- before it reads.
abbrev pub after_peel :
    GraphParams
    → Bool
    → Option (Result SolveError (List ℕ))
    → Option (Result SolveError SolveOutcome)
after_peel request late_cancel none = none
after_peel request late_cancel (some (err e)) = some (err e)
after_peel request late_cancel (some (ok survivors)) =
    if late_cancel then some (ok cancelled) else outcomes (find_cycle_d2 request survivors)

unfoldable pub after_gpu_trim :
    GraphParams → Bool → List ℕ → Option (Result SolveError SolveOutcome)
after_gpu_trim request late_cancel survivors =
    after_peel request late_cancel (peel_two_core request survivors)

abbrev pub verdict_of :
    GraphParams
    → Bool
    → Option (Result SolveError TrimOutcome)
    → Option (Result SolveError SolveOutcome)
verdict_of request late_cancel none = none
verdict_of request late_cancel (some (err e)) = some (err e)
verdict_of request late_cancel (some (ok trim_cancelled)) = some (ok cancelled)
verdict_of request late_cancel (some (ok (diagnostic message))) = some (ok (inconclusive message))
verdict_of request late_cancel (some (ok (trimmed survivors))) =
    after_gpu_trim request late_cancel survivors

-- One attempt: the device during it, and the flag before its search.
abbrev pub GpuAttempt : Type 0
GpuAttempt = (PreparedTrim → Device) × Bool

unfoldable pub verdict_at_round :
    GpuWgpuSolver → GpuAttempt → GraphParams → ℕ → Bool → Option (Result SolveError SolveOutcome)
verdict_at_round solver (device, late_cancel) request rounds live_work =
    verdict_of request late_cancel (trim_on_device solver device request rounds live_work)

-- `retry` is whether there are rounds left behind the early verdict.
abbrev pub fall_back :
    Bool
    → Option (Result SolveError SolveOutcome)
    → Option (Result SolveError SolveOutcome)
    → Option (Result SolveError SolveOutcome)
fall_back retry none full = none
fall_back retry (some (err e)) full = some (err e)
fall_back retry (some (ok (found proof))) full = some (ok (found proof))
fall_back retry (some (ok no_cycle)) full = some (ok no_cycle)
fall_back retry (some (ok cancelled)) full = some (ok cancelled)
fall_back retry (some (ok (inconclusive reason))) full =
    if retry then full else some (ok (inconclusive reason))

-- `solve`, with the early attempt and the one over all rounds. `none` would be a loop of the model
-- out of fuel.
unfoldable pub gpu_solve :
    Blake2b256
    → GpuWgpuSolver
    → SolveRequest
    → GpuAttempt
    → GpuAttempt
    → Option (Result SolveError SolveOutcome)
gpu_solve blake solver request early full =
    let params = graph_params blake request in
    let early_round = min params.rounds early_verdict_round in
    after_validation (validate_request request gpu_capabilities) (
      fall_back (ltb early_round params.rounds)
        (verdict_at_round solver early params early_round request.live_work)
        (verdict_at_round solver full params params.rounds request.live_work))

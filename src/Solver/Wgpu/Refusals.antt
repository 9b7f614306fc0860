-- ===== src/Solver/Wgpu/Refusals.antt =====
-- Which graphs the wgpu backend of src/solver/gpu_wgpu.rs refuses although it claims them.
use rust_miner.Base.{ℕ, ◌<◌, ◌≤◌, ◌*◌, ◌^◌, ◌%◌, arith, ◌≡◌, refl, true, false, not, ◌||◌}
use rust_miner.Base.{Option, none, some, ok, err, ltb, ◌==◌}
use rust_miner.Base.{div_ceil}
use rust_miner.Keys.{Blake2b256}
use rust_miner.Solver.{SolveRequest, unsupported, GraphParams}
use rust_miner.Solver.{part_too_large, graph_params}
use rust_miner.Solver.Validate.{IsWork, validate_request_iff}
use rust_miner.Solver.Wgpu.{
  GpuWgpuSolver, Limits, auto_parts, exceeds, graph_size, slean_sizing, double_parts,
  selected_slean_parts, sizing_for,
}
use rust_miner.Solver.Wgpu.Prepare.{prepare_trim, Diagnostics, TrimOptions, production_modes}
use rust_miner.Solver.Wgpu.Rounds.{trim_with_mark_mode}
use rust_miner.Solver.Wgpu.Verdict.{
  GpuAttempt, gpu_solve, verdict_at_round, trim_on_device, gpu_capabilities,
}

not_slean :
    (request : GraphParams) (options : TrimOptions) (diagnostics : Diagnostics)
    → request.edge_bits < 24
    → (production_modes request options diagnostics).slean ≡ false
unfolding production_modes
not_slean request options diagnostics bits = ground arith

disabled_parts :
    (solver : GpuWgpuSolver) → selected_slean_parts solver false ≡ solver.config.slean_parts
unfolding selected_slean_parts
disabled_parts solver = unchosen solver.startup_available_memory
  where
    unchosen :
        (available : Option ℕ)
        → auto_parts false available solver.config.slean_parts ≡ solver.config.slean_parts
    unchosen none = refl
    unchosen (some memory) = refl

slean_sizing-refuses :
    (solver : GpuWgpuSolver) (edge_count bitmap_bytes : ℕ)
    → edge_count < solver.config.slean_parts
    → slean_sizing solver false edge_count bitmap_bytes ≡ some (err (unsupported part_too_large))
unfolding slean_sizing double_parts sizing_for
slean_sizing-refuses solver edge_count bitmap_bytes small =
    let over : ltb edge_count solver.config.slean_parts ≡ true = ground arith in
    rw (disabled_parts solver, over) refl

graph_size-ok :
    (limits : Limits) (request : GraphParams)
    → 1 ≤ request.edge_bits
    → request.edge_bits ≤ 32
    → 1 ≤ request.cycle_length
    → request.cycle_length % 2 ≡ 0
    → exceeds limits (div_ceil (2 ^ request.edge_bits) 32 * 4) ≡ false
    → graph_size limits request
      ≡ ok (record {
        edge_count = 2 ^ request.edge_bits;
        word_count = div_ceil (2 ^ request.edge_bits) 32;
        bitmap_bytes = div_ceil (2 ^ request.edge_bits) 32 * 4;
      })
unfolding graph_size
graph_size-ok limits request pos le cycle even fitting =
    let within : ((request.edge_bits == 0) || ltb 32 request.edge_bits) ≡ false = ground arith in
    let paired : ((request.cycle_length == 0) || not (request.cycle_length % 2 == 0)) ≡ false =
      ground arith in
    rw (within, paired, fitting) refl

-- A valid request for a graph with fewer edges than the configured parts is refused by the wgpu
-- backend, although below 24 edge bits the parts are not used: for fewer than 24 edge bits and a
-- bitmap within the limits of the adapter.
pub gpu_solve-refuses_small :
    (blake : Blake2b256) (solver : GpuWgpuSolver) (request : SolveRequest) (early full : GpuAttempt)
    → IsWork request gpu_capabilities
    → 2 ^ request.edge_bits < solver.config.slean_parts
    → request.edge_bits < 24
    → exceeds solver.limits (div_ceil (2 ^ request.edge_bits) 32 * 4) ≡ false
    → gpu_solve blake solver request early full ≡ some (err (unsupported part_too_large))
unfolding gpu_solve verdict_at_round trim_on_device trim_with_mark_mode prepare_trim graph_params
gpu_solve-refuses_small blake solver request early full work small bits fitting =
    rw
      (
        (validate_request_iff request gpu_capabilities).1 work,
        graph_size-ok solver.limits (graph_params blake request) work.bits_pos work.bits_le
            (omega (arith, work.cycle_pos)) work.cycle_even fitting,
        not_slean (graph_params blake request) _ _ bits,
        slean_sizing-refuses solver (2 ^ request.edge_bits) _ small,
      )
      refl

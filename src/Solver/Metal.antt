-- ===== src/Solver/Metal.antt =====
-- src/solver/gpu_metal.rs: the native Metal backend. Its trimming and the opening of its device are
-- input, and whether the target is macOS.
use rust_miner.Base.{
  ℕ, ◌≤◌, ◌≡◌, ◌≢◌, refl, subst, Bool, true, false, Option, none, some, List, Result, ok, err,
}
use rust_miner.Base.{if◌then◌else◌}
use rust_miner.Siphash.{SipKeys}
use rust_miner.Keys.{Blake2b256}
use rust_miner.Verify.{Proof}
use rust_miner.Solver.{SolveRequest, BackendCapabilities, SolveError, SolveOutcome, GraphParams}
use rust_miner.Solver.{invalid_config, unsupported, gpu, search_limit, lean_on_metal, metal_missing}
use rust_miner.Solver.{found, cancelled, inconclusive, graph_params, validate_request}
use rust_miner.Solver.Validate.{validate_request_iff}
use rust_miner.Solver.CpuLean.{after_validation}
use rust_miner.Solver.CpuLean.Correct.{accepts}
use rust_miner.Solver.{TrimmingMode, auto, lean, slean}
use rust_miner.Solver.Wgpu.{GpuWgpuConfig}
use rust_miner.Solver.Wgpu.Verdict.{after_gpu_trim}
use rust_miner.Solver.Wgpu.Answers.{IsSound, after_gpu_trim-IsSound}

pub record GpuMetalSolver : Type 0 where
  pub config : GpuWgpuConfig

abbrev pub is_lean : TrimmingMode → Bool
is_lean auto = false
is_lean lean = true
is_lean slean = false

abbrev pub opened : GpuWgpuConfig → Result SolveError (Unit {0}) → Result SolveError GpuMetalSolver
opened config (err e) = err e
opened config (ok _) = ok (record { config = config })

-- `new`; `is_native` is whether the target is macOS, `native` what the opening of the device gives.
unfoldable pub new_metal :
    Bool → Result SolveError (Unit {0}) → GpuWgpuConfig → Result SolveError GpuMetalSolver
new_metal is_native native config =
    if is_native
    then (if is_lean config.trimming then err (unsupported lean_on_metal) else opened config native)
    else err (unsupported metal_missing)

abbrev pub metal_capabilities : BackendCapabilities
metal_capabilities = record { min_edge_bits = 18; max_edge_bits = 32; cycle_length = 42 }

-- `NativeMetalContext::trim_survivors`: keys, edge bits, rounds and parts.
abbrev pub NativeTrim : Type 0
NativeTrim = SipKeys → ℕ → ℕ → ℕ → Result SolveError (Option (List ℕ))

abbrev pub after_native_trim :
    GraphParams
    → Bool
    → Result SolveError (Option (List ℕ))
    → Option (Result SolveError SolveOutcome)
after_native_trim graph late_cancel (ok (some survivors)) =
    after_gpu_trim graph late_cancel survivors
after_native_trim graph late_cancel (ok none) = some (ok cancelled)
after_native_trim graph late_cancel (err (search_limit reason)) = some (ok (inconclusive reason))
after_native_trim graph late_cancel (err (invalid_config reason)) =
    some (err (invalid_config reason))
after_native_trim graph late_cancel (err (unsupported reason)) = some (err (unsupported reason))
after_native_trim graph late_cancel (err (gpu reason)) = some (err (gpu reason))

-- `solve` on macOS.
unfoldable pub metal_solve :
    Blake2b256
    → NativeTrim
    → GpuMetalSolver
    → SolveRequest
    → Bool
    → Option (Result SolveError SolveOutcome)
metal_solve blake trim solver request late_cancel =
    let graph = graph_params blake request in
    after_validation (validate_request request metal_capabilities) (
      after_native_trim graph late_cancel
        (trim graph.keys graph.edge_bits graph.rounds solver.config.slean_parts))

module _ (blake : Blake2b256) (trim : NativeTrim) (solver : GpuMetalSolver) where
  metal_solve-IsSound :
      (request : SolveRequest) (late : Bool)
      → IsSound (graph_params blake request) (metal_solve blake trim solver request late)
  unfolding metal_solve graph_params
  metal_solve-IsSound request late = from _ refl
    where
      after :
          (t : Result SolveError (Option (List ℕ)))
          → request.edge_bits ≤ 32
          → IsSound
              (graph_params blake request)
              (after_native_trim (graph_params blake request) late t)
      after (ok (some survivors)) bits =
          after_gpu_trim-IsSound (graph_params blake request) late survivors bits
      after (ok none) bits = tt
      after (err (search_limit reason)) bits = tt
      after (err (invalid_config reason)) bits = tt
      after (err (unsupported reason)) bits = tt
      after (err (gpu reason)) bits = tt

      from :
          (v : Result SolveError (Unit {0}))
          → validate_request request metal_capabilities ≡ v
          → IsSound (graph_params blake request) (
              after_validation v (
                after_native_trim (graph_params blake request) late (
                  trim
                    (graph_params blake request).keys
                    request.edge_bits
                    request.rounds
                    solver.config.slean_parts)))
      from (err e) q = tt
      from (ok tt) q = after _ ((validate_request_iff request metal_capabilities).0 q).bits_le

-- Whatever the trimming of the Metal backend returns, its `solve` returns, and a proof that it
-- returns is accepted by `verify_cycle` for the keys of the request.
pub metal_solve_sound :
    (blake : Blake2b256) (trim : NativeTrim) (solver : GpuMetalSolver) (request : SolveRequest)
    (late : Bool)
    → (metal_solve blake trim solver request late ≢ none)
      × ((proof : Proof)
          → metal_solve blake trim solver request late ≡ some (ok (found proof))
          → accepts blake request proof ≡ ok tt)
unfolding graph_params
metal_solve_sound blake trim solver request late = (
  λ e.
      subst (IsSound (graph_params blake request)) e
        (metal_solve-IsSound blake trim solver request late),
  λ proof e.
      subst (IsSound (graph_params blake request)) e
        (metal_solve-IsSound blake trim solver request late),
)

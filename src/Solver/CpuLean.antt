-- ===== src/Solver/CpuLean.antt =====
-- src/solver/cpu_lean.rs: the CPU backend.
pub mod Correct
pub mod Answers
use rust_miner.Base.{ℕ, Bool, true, false, Option, none, some, List, Result, ok, err, if◌then◌else◌}
use rust_miner.Keys.{Blake2b256}
use rust_miner.Verify.{Proof}
use rust_miner.Solver.{SolveRequest, BackendCapabilities, SolveError, SolveOutcome, GraphParams}
use rust_miner.Solver.{invalid_config, unsupported, gpu, search_limit, found, no_cycle, cancelled}
use rust_miner.Solver.{inconclusive, graph_params, validate_request}
use rust_miner.Solver.Trim.{trim_survivors_cancellable}
use rust_miner.Solver.Search.{find_cycle}

pub record CpuLeanSolver : Type 0 where
  pub max_edge_bits : ℕ

abbrev pub default_max_edge_bits : ℕ
default_max_edge_bits = 28

abbrev pub default_solver : CpuLeanSolver
default_solver = record { max_edge_bits = default_max_edge_bits }

abbrev pub with_max_edge_bits : ℕ → CpuLeanSolver
with_max_edge_bits max_edge_bits = record { max_edge_bits = max_edge_bits }

abbrev pub capabilities : CpuLeanSolver → BackendCapabilities
capabilities solver = record {
  min_edge_bits = 1;
  max_edge_bits = solver.max_edge_bits;
  cycle_length = 42;
}

-- The match on the answer of `find_cycle`.
abbrev pub outcome_of : Result SolveError (Option Proof) → Result SolveError SolveOutcome
outcome_of (ok (some proof)) = ok (found proof)
outcome_of (ok none) = ok no_cycle
outcome_of (err (search_limit reason)) = ok (inconclusive reason)
outcome_of (err (invalid_config reason)) = err (invalid_config reason)
outcome_of (err (unsupported reason)) = err (unsupported reason)
outcome_of (err (gpu reason)) = err (gpu reason)

abbrev pub outcomes :
    Option (Result SolveError (Option Proof)) → Option (Result SolveError SolveOutcome)
outcomes none = none
outcomes (some answer) = some (outcome_of answer)

-- What `solve` does after the trimming; `late_cancel` is what the load of the flag behind it reads.
abbrev pub after_trim :
    GraphParams
    → Bool
    → Result SolveError (Option (List ℕ))
    → Option (Result SolveError SolveOutcome)
after_trim params late_cancel (err e) = some (err e)
after_trim params late_cancel (ok none) = some (ok cancelled)
after_trim params late_cancel (ok (some survivors)) =
    if late_cancel then some (ok cancelled) else outcomes (find_cycle params survivors)

abbrev pub after_validation :
    Result SolveError (Unit {0})
    → Option (Result SolveError SolveOutcome)
    → Option (Result SolveError SolveOutcome)
after_validation (err e) rest = some (err e)
after_validation (ok _) rest = rest

-- `cancel round` is what the load of the flag at the start of that round reads. `none` would be a
-- search out of fuel.
unfoldable pub solve :
    Blake2b256
    → CpuLeanSolver
    → SolveRequest
    → (ℕ → Bool)
    → Bool
    → Option (Result SolveError SolveOutcome)
solve blake solver request cancel late_cancel =
    let params = graph_params blake request in
    after_validation (validate_request request (capabilities solver)) (
      after_trim params late_cancel (trim_survivors_cancellable params solver.max_edge_bits cancel))

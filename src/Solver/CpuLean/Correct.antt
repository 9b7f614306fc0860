-- ===== src/Solver/CpuLean/Correct.antt =====
-- What the CPU backend of src/solver/cpu_lean.rs promises: its answers are right.
use rust_miner.Base.{
  ℕ, ◌<◌, ◌∈◌, subst, arith, ◌≡◌, ◌≢◌, refl, Bool, true, false, Option, none, some,
}
use rust_miner.Base.{List, Result, ok, err}
use rust_miner.Keys.{Blake2b256}
use rust_miner.Verify.{Proof, VerifyError, verify_cycle}
use rust_miner.Solver.{
  SolveRequest, SolveError, SolveOutcome, GraphParams, found, no_cycle, cancelled, inconclusive,
}
use rust_miner.Solver.{
  sip_keys, graph_params, validate_request, invalid_config, unsupported, gpu, search_limit,
}
use rust_miner.Solver.Trim.{trim_survivors_cancellable}
use rust_miner.Solver.Trim.Keeps.{trim_survivors-keeps}
use rust_miner.Solver.Search.{find_cycle}
use rust_miner.Solver.Search.Sound.{find_cycle-returns, find_cycle_sound}
use rust_miner.Solver.Search.Total.{find_cycle_complete}
use rust_miner.Solver.CpuLean.{
  CpuLeanSolver, capabilities, outcomes, after_trim, after_validation, solve,
}
use rust_miner.Solver.Validate.{validate_request_iff}

abbrev pub accepts : Blake2b256 → SolveRequest → Proof → Result VerifyError (Unit {0})
accepts blake request proof =
    verify_cycle (sip_keys blake request) request.edge_bits request.cycle_length proof

module _ (blake : Blake2b256) (solver : CpuLeanSolver) (request : SolveRequest) where
  -- What an answer claims.
  abbrev Right : Option (Result SolveError SolveOutcome) → Type 0
  Right none = ⊥
  Right (some (err e)) = Unit
  Right (some (ok (found proof))) = accepts blake request proof ≡ ok tt
  Right (some (ok no_cycle)) = (proof : Proof) → accepts blake request proof ≢ ok tt
  Right (some (ok cancelled)) = Unit
  Right (some (ok (inconclusive reason))) = Unit

  abbrev params : GraphParams
  params = graph_params blake request

  answer-Right :
      (survivors : List ℕ)
      → ((proof : Proof)
          → accepts blake request proof ≡ ok tt
          → (e : ℕ) → e ∈ proof.nonces
          → e ∈ survivors)
      → 0 < request.cycle_length
      → (answer : Option (Result SolveError (Option Proof))) → find_cycle params survivors ≡ answer
      → Right (outcomes answer)
  unfolding graph_params sip_keys
  answer-Right survivors kept pos none e = find_cycle-returns params survivors e
  answer-Right survivors kept pos (some (ok (some proof))) e =
      (find_cycle_sound params survivors proof e).0
  answer-Right survivors kept pos (some (ok none)) e =
      λ proof v. find_cycle_complete params survivors proof pos v (kept proof v) e
  answer-Right survivors kept pos (some (err (search_limit r))) e = tt
  answer-Right survivors kept pos (some (err (invalid_config r))) e = tt
  answer-Right survivors kept pos (some (err (unsupported r))) e = tt
  answer-Right survivors kept pos (some (err (gpu r))) e = tt

  after_trim-Right :
      (cancel : ℕ → Bool) (late : Bool)
      → 0 < request.cycle_length
      → (t : Result SolveError (Option (List ℕ)))
      → trim_survivors_cancellable params solver.max_edge_bits cancel ≡ t
      → Right (after_trim params late t)
  unfolding graph_params sip_keys
  after_trim-Right cancel late pos (err e) q = tt
  after_trim-Right cancel late pos (ok none) q = tt
  after_trim-Right cancel true pos (ok (some survivors)) q = tt
  after_trim-Right cancel false pos (ok (some survivors)) q =
      answer-Right survivors
        (λ proof v. trim_survivors-keeps params solver.max_edge_bits cancel survivors proof q v) pos
        _ refl

  solve-Right : (cancel : ℕ → Bool) (late : Bool) → Right (solve blake solver request cancel late)
  unfolding solve
  solve-Right cancel late = from _ refl
    where
      from :
          (v : Result SolveError (Unit {0}))
          → validate_request request (capabilities solver) ≡ v
          → Right (
              after_validation v (
                after_trim params late
                  (trim_survivors_cancellable params solver.max_edge_bits cancel)))
      from (err e) q = tt
      from (ok tt) q =
          let work = (validate_request_iff request (capabilities solver)).0 q in
          after_trim-Right cancel late (omega (arith, work.cycle_pos)) _ refl

-- `solve` always returns: no search runs out of the model's fuel.
pub solve-returns :
    (blake : Blake2b256) (solver : CpuLeanSolver) (request : SolveRequest) (cancel : ℕ → Bool)
    (late : Bool)
    → solve blake solver request cancel late ≢ none
solve-returns blake solver request cancel late e =
    subst (Right blake solver request) e (solve-Right blake solver request cancel late)

-- A proof that `solve` returns is accepted by `verify_cycle` for the keys of the request.
pub solve-found :
    (blake : Blake2b256) (solver : CpuLeanSolver) (request : SolveRequest) (cancel : ℕ → Bool)
    (late : Bool) (proof : Proof)
    → solve blake solver request cancel late ≡ some (ok (found proof))
    → accepts blake request proof ≡ ok tt
solve-found blake solver request cancel late proof e =
    subst (Right blake solver request) e (solve-Right blake solver request cancel late)

-- When `solve` says that there is no cycle, `verify_cycle` accepts no proof at all for the keys of
-- the request, whatever the rounds of trimming and the reads of the flag.
pub solve-no_cycle :
    (blake : Blake2b256) (solver : CpuLeanSolver) (request : SolveRequest) (cancel : ℕ → Bool)
    (late : Bool)
    → solve blake solver request cancel late ≡ some (ok no_cycle)
    → (proof : Proof) → accepts blake request proof ≢ ok tt
solve-no_cycle blake solver request cancel late e =
    subst (Right blake solver request) e (solve-Right blake solver request cancel late)

-- ===== src/Solver/CpuLean/Answers.antt =====
-- The answers of the CPU backend of src/solver/cpu_lean.rs when nothing cancels it.
use rust_miner.Base.{
  ℕ, ◌<◌, ◌∈◌, subst, arith, ◌≡◌, ◌≢◌, refl, sym, Bool, false, Option, none, some,
}
use rust_miner.Base.{List, Result, ok, err}
use rust_miner.Keys.{Blake2b256}
use rust_miner.Verify.{Proof}
use rust_miner.Solver.{SolveRequest, SolveError, SolveOutcome, found, no_cycle, inconclusive}
use rust_miner.Solver.{generic_branches, sip_keys, graph_params}
use rust_miner.Solver.Trim.Keeps.{trim_survivors-uncancelled, trim_survivors-keeps}
use rust_miner.Solver.Search.{find_cycle}
use rust_miner.Solver.Search.Sound.{find_cycle-err, find_cycle-returns, find_cycle_sound}
use rust_miner.Solver.Search.Total.{find_cycle_complete}
use rust_miner.Solver.CpuLean.{CpuLeanSolver, capabilities, outcomes, solve}
use rust_miner.Solver.Validate.{IsWork, validate_request_iff}
use rust_miner.Solver.CpuLean.Correct.{accepts, solve-returns}

-- The answers of an uncancelled search of valid work.
pub data IsAnswered (blake : Blake2b256) (request : SolveRequest)
    : Option (Result SolveError SolveOutcome) → Type 0 where
  with_proof :
      (proof : Proof)
      → accepts blake request proof ≡ ok tt
      → IsAnswered blake request (some (ok (found proof)))
  without :
      ((proof : Proof) → accepts blake request proof ≢ ok tt)
      → IsAnswered blake request (some (ok no_cycle))
  gave_up : IsAnswered blake request (some (ok (inconclusive generic_branches)))

-- On work that passes the validation, with no cancellation read, `solve` finds a proof that
-- `verify_cycle` accepts, or says that there is no cycle and `verify_cycle` accepts no proof, or
-- gives up over the number of branches: there is no error and no other answer.
pub solve-answers :
    (blake : Blake2b256) (solver : CpuLeanSolver) (request : SolveRequest) (cancel : ℕ → Bool)
    → IsWork request (capabilities solver)
    → ((round : ℕ) → cancel round ≡ false)
    → IsAnswered blake request (solve blake solver request cancel false)
unfolding solve graph_params sip_keys
solve-answers blake solver request cancel work calm =
    let valid = (validate_request_iff request (capabilities solver)).1 work in
    let params = graph_params blake request in
    let (survivors, t) =
      trim_survivors-uncancelled params solver.max_edge_bits cancel work.supported.1 calm in
    let kept = trim_survivors-keeps params solver.max_edge_bits cancel survivors in
    rw (valid, t) (from survivors (λ proof. kept proof t) (omega (arith, work.cycle_pos)) _ refl)
  where
    from :
        (survivors : List ℕ)
        → ((proof : Proof)
            → accepts blake request proof ≡ ok tt
            → (e : ℕ) → e ∈ proof.nonces
            → e ∈ survivors)
        → 0 < request.cycle_length
        → (answer : Option (Result SolveError (Option Proof)))
        → find_cycle (graph_params blake request) survivors ≡ answer
        → IsAnswered blake request (outcomes answer)
    from survivors kept pos none e =
        absurd (find_cycle-returns (graph_params blake request) survivors e)
    from survivors kept pos (some (ok (some proof))) e =
        with_proof proof (find_cycle_sound (graph_params blake request) survivors proof e).0
    from survivors kept pos (some (ok none)) e = without (λ proof v.
        find_cycle_complete (graph_params blake request) survivors proof pos v (kept proof v) e)
    from survivors kept pos (some (err failure)) e =
        subst (λ f. IsAnswered blake request (outcomes (some (err f))))
          (sym (find_cycle-err (graph_params blake request) survivors failure e)) gave_up

unfoldable pub unwrap :
    (answer : Option (Result SolveError SolveOutcome))
    → answer ≢ none
    → Result SolveError SolveOutcome
unwrap none there = absurd (there refl)
unwrap (some result) there = result

unwrap-some :
    (answer : Option (Result SolveError SolveOutcome)) (there : answer ≢ none)
    → answer ≡ some (unwrap answer there)
unfolding unwrap
unwrap-some none there = absurd (there refl)
unwrap-some (some result) there = refl

-- `solve` as a total function, with no cancellation.
unfoldable pub solve_calmly :
    Blake2b256 → CpuLeanSolver → SolveRequest → Result SolveError SolveOutcome
unfolding unwrap
solve_calmly blake solver request =
    unwrap (solve blake solver request (λ r. false) false)
      (solve-returns blake solver request (λ r. false) false)

-- On work that passes the validation, what that function returns is one of the three answers.
pub solve_calmly-IsAnswered :
    (blake : Blake2b256) (solver : CpuLeanSolver) (request : SolveRequest)
    → IsWork request (capabilities solver)
    → IsAnswered blake request (some (solve_calmly blake solver request))
unfolding solve_calmly
solve_calmly-IsAnswered blake solver request work =
    subst (IsAnswered blake request)
      (unwrap-some (solve blake solver request (λ r. false) false)
        (solve-returns blake solver request (λ r. false) false))
      (solve-answers blake solver request (λ r. false) work (λ r. refl))

-- ===== src/Gate/Complete.antt =====
-- What the gate of src/main.rs says with the CPU backend of the nonces that it has not found.
use rust_miner.Base.{ℕ, ◌+◌, ◌≤◌, ◌<◌, ◌≡◌, ◌≢◌, refl, sym, Option, some, List, ◌∈◌, ◌⊎◌, inl, inr}
use rust_miner.Base.{Result, ok, some_inj}
use rust_miner.Keys.{Blake2b256}
use rust_miner.Verify.{Proof}
use rust_miner.Solver.{SolveRequest, SolveError, SolveOutcome, found, inconclusive}
use rust_miner.Solver.{generic_branches}
use rust_miner.Solver.Validate.{IsWork}
use rust_miner.Solver.CpuLean.{default_solver, capabilities}
use rust_miner.Solver.CpuLean.Correct.{accepts}
use rust_miner.Solver.CpuLean.Answers.{
  IsAnswered, with_proof, without, gave_up, solve_calmly, solve_calmly-IsAnswered,
}
use rust_miner.Gate.{GateArgs, gate_request, gate}
use rust_miner.Gate.Found.{gate-hits}

-- An answer of the CPU backend, taken apart.
IsAnswered-cases :
    (blake : Blake2b256) (request : SolveRequest) (answer : Option (Result SolveError SolveOutcome))
    (r : Result SolveError SolveOutcome)
    → IsAnswered blake request answer
    → answer ≡ some r
    → ((proof : Proof) × (r ≡ ok (found proof)) × (accepts blake request proof ≡ ok tt))
      ⊎ ((r ≡ ok (inconclusive generic_branches))
          ⊎ ((proof : Proof) → accepts blake request proof ≢ ok tt))
IsAnswered-cases blake request _ r (with_proof proof v) e = inl (proof, sym (some_inj e), v)
IsAnswered-cases blake request _ r (without none_valid) e = inr (inr none_valid)
IsAnswered-cases blake request _ r gave_up e = inr (inl (sym (some_inj e)))

-- With the CPU backend, when the gate ends well on a template, for a nonce of the range that it has
-- not found and whose request passes the validation there is no proof that `verify_cycle` accepts,
-- or the backend gave up on it over the number of branches.
pub gate-cpu_complete :
    (blake : Blake2b256) (decode : List ℕ → Option (List ℕ)) (args : GateArgs)
    (pre_pow all : List ℕ) (n : ℕ)
    → IsWork (gate_request args pre_pow n) (capabilities default_solver)
    → decode args.pre_pow ≡ some pre_pow
    → gate blake decode (solve_calmly blake default_solver) args ≡ ok all
    → args.nonce_start ≤ n
    → n < args.nonce_start + args.count
    → ¬ (n ∈ all)
    → (solve_calmly blake default_solver (gate_request args pre_pow n)
        ≡ ok (inconclusive generic_branches))
      ⊎ ((proof : Proof) → accepts blake (gate_request args pre_pow n) proof ≢ ok tt)
unfolding gate_request
gate-cpu_complete blake decode args pre_pow all n work d h le lt miss =
    let request = gate_request args pre_pow n in
    let solver = solve_calmly blake default_solver in
    elim (IsAnswered-cases blake request _ (solver request)
      (solve_calmly-IsAnswered blake default_solver request work) refl) [
        | inl (proof, solved, valid) ↦ absurd (
            miss (
              (gate-hits blake decode solver args pre_pow all n d h).1
                (le, lt, record { proof = proof; solved = solved; valid = valid })))
        | inr rest ↦ rest
      ]

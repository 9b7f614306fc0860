-- ===== src/Gate.antt =====
-- src/main.rs: the offline gate, which solves a range of nonces. The solver is a function of the
-- request, since no two requests of a run have the same nonce; `hex::decode` is a parameter.
pub mod Found
pub mod Complete
mod Tests
use rust_miner.Base.{
  ℕ, zero, suc, ◌+◌, ◌-◌, ◌^◌, Bool, true, false, not, ◌&&◌, Option, none, some, List, [],
}
use rust_miner.Base.{◌∷◌, ◌++◌, length, ltb, ◌==◌, if◌then◌else◌, Result, ok, err, ◌>>=◌}
use rust_miner.Keys.{Blake2b256}
use rust_miner.Verify.{Proof, VerifyError, verify_cycle}
use rust_miner.Solver.{SolveRequest, SolveError, SolveOutcome, sip_keys, found, no_cycle, cancelled}
use rust_miner.Solver.{inconclusive}

-- The fields of `GateArgs` and `SolverArgs` that the gate itself reads.
pub record GateArgs : Type 0 where
  pub edge_bits : ℕ
  pub cycle_length : ℕ
  pub rounds : ℕ
  pub pre_pow : List ℕ
  pub nonce_start : ℕ
  pub count : ℕ

pub data GateError : Type 0 where
  bad_hex empty_pre_pow overflow unexpected_cancel acceptance_failed : GateError
  solver_failed : SolveError → GateError
  invalid_gate_proof : VerifyError → GateError

pub gate_request : GateArgs → List ℕ → ℕ → SolveRequest
gate_request args pre_pow nonce = record {
  pre_pow = pre_pow;
  nonce = nonce;
  live_work = false;
  edge_bits = args.edge_bits;
  cycle_length = args.cycle_length;
  rounds = args.rounds;
}

abbrev pub is_list : List ℕ → List ℕ → Bool
is_list [] [] = true
is_list [] (y ∷ ys) = false
is_list (x ∷ xs) [] = false
is_list (x ∷ xs) (y ∷ ys) = (x == y) && is_list xs ys

-- `eq_ignore_ascii_case("00")`: the two digits have no case.
abbrev pub is_zero_zero : List ℕ → Bool
is_zero_zero text = is_list text (48 ∷ 48 ∷ [])

module _ (blake : Blake2b256) (decode : List ℕ → Option (List ℕ))
    (solver : SolveRequest → Result SolveError SolveOutcome) (args : GateArgs) where
  abbrev pub after_gate_verify :
      ℕ → List ℕ → Result VerifyError (Unit {0}) → Result GateError (List ℕ)
  after_gate_verify nonce so_far (err e) = err (invalid_gate_proof e)
  after_gate_verify nonce so_far (ok _) = ok (so_far ++ nonce ∷ [])

  abbrev pub after_gate_solve :
      List ℕ → ℕ → List ℕ → Result SolveError SolveOutcome → Result GateError (List ℕ)
  after_gate_solve pre_pow nonce so_far (err e) = err (solver_failed e)
  after_gate_solve pre_pow nonce so_far (ok (found proof)) = after_gate_verify nonce so_far (
      verify_cycle (sip_keys blake (gate_request args pre_pow nonce)) args.edge_bits
        args.cycle_length proof)
  after_gate_solve pre_pow nonce so_far (ok no_cycle) = ok so_far
  after_gate_solve pre_pow nonce so_far (ok cancelled) = err unexpected_cancel
  after_gate_solve pre_pow nonce so_far (ok (inconclusive reason)) = ok so_far

  -- The loop over the nonces, with `left` to go and those found so far.
  pub gate_loop : List ℕ → ℕ → ℕ → List ℕ → Result GateError (List ℕ)
  gate_loop pre_pow zero nonce so_far = ok so_far
  gate_loop pre_pow (suc left) nonce so_far =
      after_gate_solve pre_pow nonce so_far (solver (gate_request args pre_pow nonce)) >>= λ more.
      gate_loop pre_pow left (suc nonce) more

  -- The test of the known nonces at the end.
  abbrev pub acceptance : List ℕ → Result GateError (List ℕ)
  acceptance all =
      if (args.edge_bits == 32)
        && is_zero_zero args.pre_pow
        && (args.nonce_start == 0)
        && (args.count == 100)
        && not (is_list all (45 ∷ 74 ∷ []))
      then err acceptance_failed
      else ok all

  abbrev pub with_pre_pow : Option (List ℕ) → Result GateError (List ℕ)
  with_pre_pow none = err bad_hex
  with_pre_pow (some pre_pow) =
      if length pre_pow == 0
      then err empty_pre_pow
      else if ltb (2 ^ 64 - 1) (args.nonce_start + args.count)
      then err overflow
      else gate_loop pre_pow args.count args.nonce_start [] >>= acceptance

  -- `Command::Gate`, from a solver that `make_solver` has made, to the nonces found.
  pub gate : Result GateError (List ℕ)
  gate = with_pre_pow (decode args.pre_pow)

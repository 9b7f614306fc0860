-- ===== src/Gate/Tests.antt =====
-- Tests of the gate: two nonces, of which the first has a cycle of four edges.
use rust_miner.Base.{
  ℕ, ◌+◌, ◌<◌, ◌≤◌, ◌≡◌, ◌≢◌, ◌↔◌, ◌⊎◌, ◌∈◌, refl, inl, inr, Option, some, List, [], ◌∷◌, ok, arith,
}
use rust_miner.Solver.CpuLean.{solve}
use rust_miner.Keys.{derive_keys, to_be_bytes, from_le_bytes}
use rust_miner.Solver.Trim.{
  trim_survivors_cancellable, trim_rounds, trim_round, initial_alive, collect, collect_word,
  trailing_zeros, mark, sweep,
}
use rust_miner.Solver.Bitmap.{test_bit, set_bit, clear_bit}
use rust_miner.Solver.Search.{find_cycle, search_from, dfs, try_all, close, contains}
use rust_miner.Verify.{
  verify_cycle, edge_ends, find_mates, check_nonces, scan_mates, mate_of, mate_node, walk, insert,
  sort, sorted,
}
use rust_miner.Verify.Lookup.{endpoint_index, index_endpoints, push_at, get, candidates}
use rust_miner.Siphash.{endpoint, siphash24, sip_round}
use rust_miner.Keys.Tests.{sum_blake}
use rust_miner.Verify.{Proof}
use rust_miner.Solver.{graph_params, sip_keys, validate_request, inconclusive, generic_branches}
use rust_miner.Solver.Validate.{validate_request_iff}
use rust_miner.Solver.CpuLean.{default_solver, capabilities}
use rust_miner.Solver.CpuLean.Correct.{accepts}
use rust_miner.Solver.CpuLean.Answers.{solve_calmly, unwrap}
use rust_miner.Gate.{GateArgs, gate_request, gate_loop, gate}
use rust_miner.Gate.Found.{IsHit, gate-hits}
use rust_miner.Gate.Complete.{gate-cpu_complete}

abbrev decode : List ℕ → Option (List ℕ)
decode text = some text

abbrev args : GateArgs
args = record {
  edge_bits = 3;
  cycle_length = 4;
  rounds = 2;
  pre_pow = 12 ∷ [];
  nonce_start = 0;
  count = 2;
}

finds_one : gate sum_blake decode (solve_calmly sum_blake default_solver) args ≡ ok (0 ∷ [])
unfolding gate gate_loop gate_request solve_calmly unwrap solve validate_request graph_params
    sip_keys derive_keys to_be_bytes from_le_bytes trim_survivors_cancellable trim_rounds trim_round
    initial_alive collect collect_word trailing_zeros mark sweep test_bit set_bit clear_bit
    find_cycle search_from dfs try_all close contains verify_cycle edge_ends find_mates check_nonces
    scan_mates mate_of mate_node walk insert sort sorted endpoint_index index_endpoints push_at get
    candidates endpoint siphash24 sip_round
finds_one = refl

abbrev nonce : ℕ
nonce = 0

gate-hits_example : (nonce ∈ (0 ∷ [])) ↔ (
    (args.nonce_start ≤ nonce)
    × (nonce < args.nonce_start + args.count)
    × IsHit sum_blake decode (solve_calmly sum_blake default_solver) args (12 ∷ []) nonce)
gate-hits_example =
    gate-hits sum_blake decode (solve_calmly sum_blake default_solver) args (12 ∷ []) (0 ∷ []) nonce
      refl finds_one

valid : validate_request (gate_request args (12 ∷ []) 1) (capabilities default_solver) ≡ ok tt
unfolding validate_request gate_request
valid = refl

not_found : (n : ℕ) → n ≡ 1 → ¬ (n ∈ (0 ∷ []))
not_found n one (inl e) = absurd (omega arith)
not_found n one (inr nothing) = nothing

gate-cpu_complete_example :
    (solve_calmly sum_blake default_solver (gate_request args (12 ∷ []) 1)
      ≡ ok (inconclusive generic_branches))
    ⊎ ((proof : Proof) → accepts sum_blake (gate_request args (12 ∷ []) 1) proof ≢ ok tt)
gate-cpu_complete_example =
    gate-cpu_complete sum_blake decode args (12 ∷ []) (0 ∷ []) 1
      ((validate_request_iff (gate_request args (12 ∷ []) 1) (capabilities default_solver)).0 valid)
      refl finds_one (omega arith) (omega arith) (not_found 1 refl)

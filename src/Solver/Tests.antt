-- ===== src/Solver/Tests.antt =====
-- Tests of the CPU backend: work on a graph of eight edges that has one cycle of four, and on one
-- that has none.
use rust_miner.Base.{
  bit_and, ℕ, ◌≡◌, ◌≢◌, ◌↔◌, ◌∈◌, refl, inl, inr, Bool, true, false, none, some, List, [], ◌∷◌, ok,
  arith,
}
use rust_miner.Siphash.{sip_round, siphash24, endpoint}
use rust_miner.Keys.{derive_keys, to_be_bytes, from_le_bytes}
use rust_miner.Keys.Tests.{sum_blake}
use rust_miner.Verify.{
  Proof, verify_cycle, edge_ends, find_mates, check_nonces, scan_mates, mate_of, mate_node, walk,
  insert, sort, sorted,
}
use rust_miner.Verify.Lookup.{endpoint_index, index_endpoints, push_at, get, candidates}
use rust_miner.Solver.{
  SolveRequest, GraphParams, found, no_cycle, graph_params, sip_keys, validate_request,
}
use rust_miner.Solver.Bitmap.{test_bit, set_bit, clear_bit}
use rust_miner.Solver.Trim.{
  mark, sweep, trim_round, trim_rounds, initial_alive, trailing_zeros, collect_word, collect,
  trim_survivors_cancellable,
}
use rust_miner.Solver.Search.{contains, close, try_all, dfs, search_from, find_cycle}
use rust_miner.Solver.Validate.{IsWork, validate_request_iff}
use rust_miner.Solver.Trim.Round.{IsGraph, HasLiveMate, trim_round_iff}
use rust_miner.Solver.Trim.Keeps.{trim_survivors-keeps}
use rust_miner.Solver.Search.Total.{find_cycle_complete}
use rust_miner.Solver.CpuLean.Correct.{accepts, solve-no_cycle}
use rust_miner.Solver.CpuLean.Answers.{IsAnswered, solve-answers}
use rust_miner.Solver.CpuLean.{default_solver, capabilities, solve}

abbrev four_edges : Proof
four_edges = record { nonces = 0 ∷ 2 ∷ 6 ∷ 7 ∷ [] }

abbrev work : ℕ → SolveRequest
work byte = record {
  pre_pow = byte ∷ [];
  nonce = 0;
  live_work = false;
  edge_bits = 3;
  cycle_length = 4;
  rounds = 2;
}

abbrev params : GraphParams
params = record {
  keys = record {
    k0 = 0x0c0c0c0c0c0c0c0c;
    k1 = 0x0c0c0c0c0c0c0c0c;
    k2 = 0x0c0c0c0c0c0c0c0c;
    k3 = 0x0c0c0c0c0c0c0c0c;
  };
  edge_bits = 3;
  cycle_length = 4;
  rounds = 2;
}

abbrev survivors : List ℕ
survivors = 0 ∷ 2 ∷ 6 ∷ 7 ∷ []

abbrev edge : ℕ
edge = 6

abbrev calm : ℕ → Bool
calm round = false

trims : trim_survivors_cancellable params 28 calm ≡ ok (some survivors)
unfolding trim_survivors_cancellable trim_rounds trim_round initial_alive collect collect_word
    trailing_zeros mark sweep test_bit set_bit clear_bit mate_node endpoint siphash24 sip_round
trims = refl

finds : find_cycle params survivors ≡ some (ok (some four_edges))
unfolding find_cycle search_from dfs try_all close contains verify_cycle edge_ends find_mates
    check_nonces scan_mates mate_of mate_node walk insert sort sorted endpoint_index index_endpoints
    push_at get candidates endpoint siphash24 sip_round
finds = refl

accepts_four_edges : verify_cycle params.keys 3 4 four_edges ≡ ok tt
unfolding verify_cycle edge_ends find_mates check_nonces scan_mates mate_of mate_node walk endpoint
    siphash24 sip_round
accepts_four_edges = refl

solves : solve sum_blake default_solver (work 12) calm false ≡ some (ok (found four_edges))
unfolding solve validate_request graph_params sip_keys derive_keys to_be_bytes from_le_bytes
    trim_survivors_cancellable trim_rounds trim_round initial_alive collect collect_word
    trailing_zeros mark sweep test_bit set_bit clear_bit find_cycle search_from dfs try_all close
    contains verify_cycle edge_ends find_mates check_nonces scan_mates mate_of mate_node walk insert
    sort sorted endpoint_index index_endpoints push_at get candidates endpoint siphash24 sip_round
solves = refl

solves_no_cycle : solve sum_blake default_solver (work 13) calm false ≡ some (ok no_cycle)
unfolding solve validate_request graph_params sip_keys derive_keys to_be_bytes from_le_bytes
    trim_survivors_cancellable trim_rounds trim_round initial_alive collect collect_word
    trailing_zeros mark sweep test_bit set_bit clear_bit find_cycle search_from dfs try_all close
    contains verify_cycle edge_ends find_mates check_nonces scan_mates mate_of mate_node walk insert
    sort sorted endpoint_index index_endpoints push_at get candidates endpoint siphash24 sip_round
solves_no_cycle = refl

valid : validate_request (work 12) (capabilities default_solver) ≡ ok tt
unfolding validate_request
valid = refl

work-IsWork : IsWork (work 12) (capabilities default_solver)
work-IsWork = (validate_request_iff (work 12) (capabilities default_solver)).0 valid

params-IsGraph : IsGraph params
params-IsGraph = record { bits_pos = omega arith; bits_le = omega arith }

trim_round_iff_example :
    (test_bit (trim_round params 1 (0xc5 ∷ [])).0 6 ≡ true)
    ↔ ((test_bit (0xc5 ∷ []) 6 ≡ true) × HasLiveMate params (bit_and 1 1) (0xc5 ∷ []) 6)
trim_round_iff_example = trim_round_iff params params-IsGraph 1 (0xc5 ∷ []) refl 6 (omega arith)

trim_survivors-keeps_example : edge ∈ survivors
trim_survivors-keeps_example =
    trim_survivors-keeps params 28 calm survivors four_edges trims accepts_four_edges edge
      (inr (inr (inl refl)))

within : (a : ℕ) → a ∈ four_edges.nonces → a ∈ (0 ∷ 2 ∷ 5 ∷ 6 ∷ 7 ∷ [])
within a (inl e) = inl e
within a (inr (inl e)) = inr (inl e)
within a (inr (inr m)) = inr (inr (inr m))

find_cycle_complete_example : find_cycle params (0 ∷ 2 ∷ 5 ∷ 6 ∷ 7 ∷ []) ≢ some (ok none)
find_cycle_complete_example =
    find_cycle_complete params (0 ∷ 2 ∷ 5 ∷ 6 ∷ 7 ∷ []) four_edges (omega arith) accepts_four_edges
      within

solve-no_cycle_example : accepts sum_blake (work 13) four_edges ≢ ok tt
solve-no_cycle_example =
    solve-no_cycle sum_blake default_solver (work 13) calm false solves_no_cycle four_edges

solve-answers_example :
    IsAnswered sum_blake (work 12) (solve sum_blake default_solver (work 12) calm false)
solve-answers_example =
    solve-answers sum_blake default_solver (work 12) calm work-IsWork (λ r. refl)

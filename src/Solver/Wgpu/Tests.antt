-- ===== src/Solver/Wgpu/Tests.antt =====
-- Tests of the GPU backends: a graph of eight edges that has one cycle of four.
use rust_miner.Base.{suc, List}
use rust_miner.Base.{ℕ, ◌^◌, ◌*◌, ◌≡◌, ◌≢◌, refl, true, false, none, some, [], ◌∷◌, ok, err, arith}
use rust_miner.Base.{count_ones, is_power_of_two, div_ceil}
use rust_miner.Siphash.{sip_round, siphash24, endpoint}
use rust_miner.Keys.{derive_keys, to_be_bytes, from_le_bytes}
use rust_miner.Keys.Tests.{sum_blake}
use rust_miner.Verify.{
  Proof, verify_cycle, edge_ends, find_mates, check_nonces, scan_mates, mate_of, mate_node, walk,
  insert, sort, sorted,
}
use rust_miner.Verify.Lookup.{endpoint_index, index_endpoints, push_at, get, candidates}
use rust_miner.Solver.{
  SolveRequest, found, graph_params, sip_keys, auto, validate_request, unsupported, part_too_large,
}
use rust_miner.Solver.Trim.{trailing_zeros}
use rust_miner.Solver.Search.{contains, close, try_all, dfs, search_from, find_cycle}
use rust_miner.Solver.Validate.{IsWork, validate_request_iff}
use rust_miner.Solver.CpuLean.Correct.{accepts}
use rust_miner.Solver.Radix.{radix_order, radix_pass, scatter, positions, count_digits, range_from}
use rust_miner.Solver.Peel.{
  peel_two_core, core_of, keep_alive, start_peeling, drain, seed, kill_all, kill, lose_one,
  edges_of, mate_at, widths, mate_group, group_side, group_runs, assign, run_length,
}
use rust_miner.Solver.D2.{find_cycle_d2}
use rust_miner.Solver.Wgpu.{
  GpuWgpuSolver, SleanSizing, slean_sizing, double_parts, sizing_for, selected_slean_parts,
  graph_size, exceeds,
}
use rust_miner.Solver.Wgpu.Prepare.{
  PreparedTrim, prepare_trim, production_modes, bucket_scratch_size,
}
use rust_miner.Solver.Wgpu.Rounds.{
  Device, trim_run, word_survivors, bitmap_survivors, batch_end, advance_round, report_round,
  read_back, run_rounds, trim_with_mark_mode,
}
use rust_miner.Solver.Wgpu.Verdict.{
  GpuAttempt, trim_on_device, after_gpu_trim, verdict_at_round, gpu_solve, gpu_capabilities,
}
use rust_miner.Solver.Wgpu.Fine.{
  FixedStorage, IsLaidOut, total, IsRoomy, allocate_fine_storage, offsets_from, fixed_storage,
  fixed_offsets, fine_buckets, largest, allocate_fine_storage_exact, fixed_storage_roomy,
}
use rust_miner.Solver.Wgpu.Fits.{IsFit, slean_sizing-returns, slean_sizing-IsFit}
use rust_miner.Solver.Wgpu.Answers.{gpu_solve-found}
use rust_miner.Solver.Wgpu.Refusals.{gpu_solve-refuses_small}
use rust_miner.Solver.Metal.{GpuMetalSolver, NativeTrim, metal_solve, metal_solve_sound}

abbrev four_edges : Proof
four_edges = record { nonces = 0 ∷ 2 ∷ 6 ∷ 7 ∷ [] }

abbrev work : ℕ → SolveRequest
work bits = record {
  pre_pow = 12 ∷ [];
  nonce = 0;
  live_work = false;
  edge_bits = bits;
  cycle_length = 4;
  rounds = 2;
}

abbrev solver : ℕ → GpuWgpuSolver
solver bits = record {
  config = record { trimming = auto; slean_parts = 4; local_ram_kib = 32 };
  limits = record {
    max_buffer_size = 2 ^ 30;
    max_storage_buffer_binding_size = 2 ^ bits;
    max_compute_workgroup_storage_size = 2 ^ 15;
  };
  startup_available_memory = none;
  force_slean_overflow = false;
}

-- A device that finds four edges left, in bitmap words of 32.
abbrev device : PreparedTrim → Device
device prepared = record {
  dense_round = λ round. ok true;
  bucket_round = λ round. ok true;
  lean_rounds = λ first end. ok tt;
  fine_transition = λ round end. ok none;
  edge_words = ok (197 ∷ []);
  cancel_before = λ round. false;
  cancel_after = λ round. false;
}

abbrev attempt : GpuAttempt
attempt = (device, false)

gpu_finds : gpu_solve sum_blake (solver 27) (work 3) attempt attempt ≡ some (ok (found four_edges))
unfolding gpu_solve graph_params sip_keys derive_keys to_be_bytes from_le_bytes validate_request
    verdict_at_round trim_on_device trim_with_mark_mode prepare_trim production_modes graph_size
    div_ceil slean_sizing double_parts sizing_for selected_slean_parts bucket_scratch_size trim_run
    run_rounds advance_round batch_end report_round read_back bitmap_survivors word_survivors
    trailing_zeros after_gpu_trim peel_two_core core_of keep_alive start_peeling drain seed kill_all
    kill lose_one edges_of mate_at widths mate_group group_side group_runs assign run_length
    radix_order radix_pass scatter positions count_digits range_from find_cycle_d2 find_cycle
    search_from dfs try_all close contains candidates get push_at index_endpoints endpoint_index
    sorted sort insert verify_cycle edge_ends find_mates check_nonces scan_mates mate_of mate_node
    walk endpoint siphash24 sip_round
gpu_finds = refl

gpu_solve-found_example : accepts sum_blake (work 3) four_edges ≡ ok tt
gpu_solve-found_example =
    gpu_solve-found sum_blake (solver 27) (work 3) attempt attempt four_edges (omega arith)
      gpu_finds

one_bit : IsWork (work 1) gpu_capabilities
unfolding validate_request
one_bit = (validate_request_iff (work 1) gpu_capabilities).0 refl

small_bitmap : exceeds (solver 27).limits (div_ceil (2 ^ 1) 32 * 4) ≡ false
unfolding div_ceil
small_bitmap = refl

gpu_solve-refuses_small_example :
    gpu_solve sum_blake (solver 27) (work 1) attempt attempt
    ≡ some (err (unsupported part_too_large))
gpu_solve-refuses_small_example =
    gpu_solve-refuses_small sum_blake (solver 27) (work 1) attempt attempt one_bit (omega arith)
      (omega arith) small_bitmap

-- The parts of a graph of 24 edge bits are doubled once for bindings of 4 MiB.
abbrev sizing : SleanSizing
sizing = record {
  bucket_count = 64;
  parts = 8;
  part_edges = 2 ^ 21;
  capacity = 34471;
  scratch_bytes = 2206212;
  dead_bucket_count = 8;
  dead_scratch_bytes = 3776964;
}

sized : slean_sizing (solver 22) true (2 ^ 24) (2 ^ 21) ≡ some (ok sizing)
unfolding slean_sizing double_parts sizing_for selected_slean_parts div_ceil is_power_of_two
    count_ones
sized = refl

slean_sizing-IsFit_example : IsFit (solver 22).limits (2 ^ 24) sizing
slean_sizing-IsFit_example =
    slean_sizing-IsFit (solver 22) (2 ^ 24) (2 ^ 21) sizing refl (omega arith) (omega arith)
      (omega arith) (omega arith) sized

slean_sizing-returns_example : slean_sizing (solver 22) true (2 ^ 24) (2 ^ 21) ≢ none
slean_sizing-returns_example =
    slean_sizing-returns (solver 22) true (2 ^ 24) (2 ^ 21) (omega arith) (omega arith)

abbrev on_metal : GpuMetalSolver
on_metal = record { config = record { trimming = auto; slean_parts = 4; local_ram_kib = 32 } }

-- A trimming that finds the edges of the cycle.
abbrev native_trim : NativeTrim
native_trim keys edge_bits rounds parts = ok (some (0 ∷ 2 ∷ 6 ∷ 7 ∷ []))

abbrev large_work : SolveRequest
large_work = work 18

metal_solve_sound_example :
    (metal_solve sum_blake native_trim on_metal large_work false ≢ none)
    × ((proof : Proof)
        → metal_solve sum_blake native_trim on_metal large_work false ≡ some (ok (found proof))
        → accepts sum_blake large_work proof ≡ ok tt)
metal_solve_sound_example = metal_solve_sound sum_blake native_trim on_metal large_work false

-- Two buckets of three and five edges.
abbrev bucket_counts : List ℕ
bucket_counts = 3 ∷ 5 ∷ []

abbrev bucket_ends : List ℕ
bucket_ends = 0 ∷ 3 ∷ 8 ∷ []

allocates : allocate_fine_storage (solver 27).limits 8 bucket_counts ≡ ok (bucket_ends, 32)
unfolding allocate_fine_storage offsets_from
allocates = refl

eight_edges : total bucket_counts ≡ 8
unfolding total
eight_edges = refl

allocate_fine_storage_exact_example : IsLaidOut (solver 27).limits bucket_counts bucket_ends 32
allocate_fine_storage_exact_example =
    allocate_fine_storage_exact (solver 27).limits 8 bucket_counts bucket_ends 32 eight_edges
      allocates

abbrev storage : FixedStorage
storage = record { offsets = fixed_offsets 69 0 (suc fine_buckets); arena_bytes = 9043968 }

stores : fixed_storage (solver 27).limits bucket_counts ≡ some storage
unfolding fixed_storage largest
stores = refl

abbrev second : ℕ
second = 1

fixed_storage_roomy_example : IsRoomy (solver 27).limits bucket_counts second storage
fixed_storage_roomy_example =
    fixed_storage_roomy (solver 27).limits bucket_counts storage second stores (omega arith)

-- ===== src/Solver/Wgpu.antt =====
-- src/solver/gpu_wgpu.rs: the host side of the wgpu backend, as built without the `diagnostics`
-- feature. The limits of the adapter and the available memory are input.
pub mod Fits
pub mod Prepare
pub mod Rounds
pub mod Ends
pub mod Verdict
pub mod Answers
pub mod Refusals
pub mod Fine
mod Tests
use rust_miner.Base.{
  ℕ, zero, suc, ◌+◌, ◌-◌, ◌*◌, ◌/◌, ◌%◌, ◌^◌, min, max, Bool, true, false, not, ◌||◌, ◌&&◌,
}
use rust_miner.Base.{Option, none, some, List, Result, ok, err, ltb, leb, ◌==◌, if◌then◌else◌}
use rust_miner.Base.{◌>>=◌, is_power_of_two, div_ceil}
use rust_miner.Siphash.{GpuSipKeys, gpu_sip_keys}
use rust_miner.Solver.{GraphParams, BackendCapabilities, SolveError, invalid_config, unsupported}
use rust_miner.Solver.{TrimmingMode, auto, lean, slean, slean_parts_power, local_ram_power}
use rust_miner.Solver.{
  cycle_length_range, edge_bits_range, bitmap_too_large, bucket_count_range, part_too_large,
  scratch_too_large,
}

abbrev pub workgroup_size : ℕ
workgroup_size = 256

abbrev pub dispatch_groups : ℕ
dispatch_groups = 4096

abbrev pub bucket_chunk_edges : ℕ
bucket_chunk_edges = 2 ^ 28

abbrev pub bucketed_mark_buckets : ℕ
bucketed_mark_buckets = 64

abbrev pub bucketed_mark_rounds : ℕ
bucketed_mark_rounds = 4

abbrev pub bucketed_mark_min_edge_bits : ℕ
bucketed_mark_min_edge_bits = 24

abbrev pub slean_parts_two_available_memory : ℕ
slean_parts_two_available_memory = 18 * 1024 * 1024 * 1024

abbrev pub bucket_header_words : ℕ
bucket_header_words = 256

abbrev pub bucket_margin : ℕ
bucket_margin = 2 ^ 16

pub record GpuWgpuConfig : Type 0 where
  pub trimming : TrimmingMode
  pub slean_parts : ℕ
  pub local_ram_kib : ℕ

abbrev pub default_config : GpuWgpuConfig
default_config = record { trimming = lean; slean_parts = 4; local_ram_kib = 32 }

-- The limits of the device that the code reads.
pub record Limits : Type 0 where
  pub max_buffer_size : ℕ
  pub max_storage_buffer_binding_size : ℕ
  pub max_compute_workgroup_storage_size : ℕ

pub record GpuWgpuSolver : Type 0 where
  pub config : GpuWgpuConfig
  pub limits : Limits
  pub startup_available_memory : Option ℕ
  pub force_slean_overflow : Bool

-- What `new_with_config` asks of the configuration before it opens the device.
unfoldable pub check_config : GpuWgpuConfig → Result SolveError (Unit {0})
check_config config =
    if ltb config.slean_parts 2 || not (is_power_of_two config.slean_parts)
    then err (invalid_config slean_parts_power)
    else if ltb config.local_ram_kib 2 || not (is_power_of_two config.local_ram_kib)
    then err (invalid_config local_ram_power)
    else ok tt

-- `open_device` is `new_async`.
unfoldable pub new_with_config :
    (GpuWgpuConfig → Result SolveError GpuWgpuSolver)
    → GpuWgpuConfig
    → Result SolveError GpuWgpuSolver
new_with_config open_device config = check_config config >>= λ _. open_device config

pub record GraphSize : Type 0 where
  pub edge_count : ℕ
  pub word_count : ℕ
  pub bitmap_bytes : ℕ

-- Larger than a buffer or a binding may be.
abbrev pub exceeds : Limits → ℕ → Bool
exceeds limits bytes =
    ltb limits.max_buffer_size bytes || ltb limits.max_storage_buffer_binding_size bytes

abbrev pub mib : ℕ → ℕ
mib bytes = bytes / (1024 * 1024)

unfoldable pub graph_size : Limits → GraphParams → Result SolveError GraphSize
graph_size limits request =
    let edges = 2 ^ request.edge_bits in
    let words = div_ceil edges 32 in
    let bytes = words * 4 in
    if (request.edge_bits == 0) || ltb 32 request.edge_bits
    then err (invalid_config edge_bits_range)
    else if (request.cycle_length == 0) || not (request.cycle_length % 2 == 0)
    then err (invalid_config cycle_length_range)
    else if exceeds limits bytes
    then err (
        unsupported (
          bitmap_too_large (mib limits.max_storage_buffer_binding_size) request.edge_bits
            (mib bytes)))
    else ok (record { edge_count = edges; word_count = words; bitmap_bytes = bytes })

pub record SleanSizing : Type 0 where
  pub bucket_count : ℕ
  pub parts : ℕ
  pub part_edges : ℕ
  pub capacity : ℕ
  pub scratch_bytes : ℕ
  pub dead_bucket_count : ℕ
  pub dead_scratch_bytes : ℕ

abbrev pub is_auto : TrimmingMode → Bool
is_auto auto = true
is_auto lean = false
is_auto slean = false

-- `available.is_none_or(|available| available < ..)`.
abbrev pub is_scarce : Option ℕ → Bool
is_scarce none = true
is_scarce (some available) = ltb available slean_parts_two_available_memory

abbrev pub auto_parts : Bool → Option ℕ → ℕ → ℕ
auto_parts choose none parts = parts
auto_parts choose (some available) parts =
    if choose then (if leb slean_parts_two_available_memory available then 2 else 4) else parts

module _ (solver : GpuWgpuSolver) where
  open solver use {config, limits}

  unfoldable pub selected_slean_parts : Bool → ℕ
  selected_slean_parts enabled =
      let parts =
        auto_parts (enabled && is_auto config.trimming) solver.startup_available_memory
          config.slean_parts in
      if enabled && (parts == 2) && is_scarce solver.startup_available_memory then 4 else parts

  abbrev pub local_bytes : ℕ → ℕ
  local_bytes bitmap_bytes =
      min (min (config.local_ram_kib * 1024) limits.max_compute_workgroup_storage_size) bitmap_bytes

  -- The sizes for a number of parts. An adapter without workgroup memory is not considered: the code
  -- divides by it.
  unfoldable pub sizing_for : ℕ → ℕ → ℕ → ℕ → SleanSizing
  sizing_for local edge_count bucket_count parts =
      let part_edges = div_ceil edge_count parts in
      let base = div_ceil part_edges bucket_count in
      let capacity = if solver.force_slean_overflow then 1 else base + div_ceil base 20 + 64 in
      let buckets_per_buffer = bucket_count / 4 in
      let dead_bucket_count = max (div_ceil (div_ceil part_edges 8) local) 1 in
      let dead_base = div_ceil part_edges dead_bucket_count in
      let dead_capacity = div_ceil (dead_base * 45) 100 + 64 in
      record {
        bucket_count = bucket_count;
        parts = parts;
        part_edges = part_edges;
        capacity = capacity;
        scratch_bytes = (buckets_per_buffer + 1 + buckets_per_buffer * capacity) * 4;
        dead_bucket_count = dead_bucket_count;
        dead_scratch_bytes = (dead_bucket_count + 1 + dead_bucket_count * dead_capacity) * 4;
      }

  abbrev pub fits : Bool → SleanSizing → Bool
  fits enabled sizing =
      not enabled
      || (not (exceeds limits sizing.scratch_bytes)
          && not (exceeds limits sizing.dead_scratch_bytes))

  -- One pass of the loop; `retry` is the loop with twice the parts.
  abbrev pub settle :
      Bool
      → ℕ
      → SleanSizing
      → (ℕ → Option (Result SolveError SleanSizing))
      → Option (Result SolveError SleanSizing)
  settle enabled edge_count sizing retry =
      let again = retry (sizing.parts * 2) in
      if ltb edge_count sizing.parts
      then some (err (unsupported part_too_large))
      else if fits enabled sizing
      then some (ok sizing)
      else again

  -- `none` is a loop that is not over when the fuel has run out.
  unfoldable pub double_parts : ℕ → Bool → ℕ → ℕ → ℕ → ℕ → Option (Result SolveError SleanSizing)
  double_parts zero enabled local edge_count bucket_count parts = none
  double_parts (suc fuel) enabled local edge_count bucket_count parts =
      settle enabled edge_count (sizing_for local edge_count bucket_count parts)
        (λ more. double_parts fuel enabled local edge_count bucket_count more)

  -- The parts are at least 1 and double until they pass the number of edges, at most `2 ^ 32`.
  unfoldable pub slean_sizing : Bool → ℕ → ℕ → Option (Result SolveError SleanSizing)
  slean_sizing enabled edge_count bitmap_bytes =
      let local = local_bytes bitmap_bytes in
      let bucket_count = div_ceil bitmap_bytes local in
      if enabled && (not (is_power_of_two bucket_count) || ltb (2 ^ 16 - 1) bucket_count)
      then some (err (unsupported (bucket_count_range bucket_count)))
      else double_parts 34 enabled local edge_count bucket_count (selected_slean_parts enabled)

-- ===== src/Solver/Wgpu/Prepare.antt =====
-- src/solver/gpu_wgpu.rs: how the wgpu backend prepares a trimming, `prepare_trim`.
use rust_miner.Base.{ℕ, ◌+◌, ◌-◌, ◌*◌, ◌%◌, ◌^◌, min, Bool, false, not, ◌||◌, ◌&&◌}
use rust_miner.Base.{Option, none, some, Result, ok, err, ltb, leb, ◌==◌}
use rust_miner.Base.{if◌then◌else◌, div_ceil}
use rust_miner.Siphash.{GpuSipKeys, gpu_sip_keys}
use rust_miner.Solver.{GraphParams, SolveError, unsupported, scratch_too_large}
use rust_miner.Solver.Wgpu.{
  GpuWgpuSolver, GraphSize, SleanSizing, Limits, graph_size, slean_sizing, exceeds, mib,
  bucket_chunk_edges, bucket_header_words, bucket_margin, bucketed_mark_buckets,
  bucketed_mark_rounds, bucketed_mark_min_edge_bits, workgroup_size, dispatch_groups,
}

-- The switches of the diagnostics, all off in this build.
pub record Diagnostics : Type 0 where
  pub per_round : Bool
  pub bucket_round0 : Bool
  pub survivor_counts : Bool
  pub early_phases : Bool
  pub slean_phases : Bool
  pub fine_csr : Bool
  pub fine_end_round : ℕ
  pub bucket_count : ℕ
  pub mask_bits : Option ℕ
  pub rounds : ℕ

abbrev pub or_else : Option ℕ → ℕ → ℕ
or_else none n = n
or_else (some m) n = m

abbrev pub from_env : ℕ → Option ℕ → Diagnostics
from_env rounds fine_end_override = record {
  per_round = false;
  bucket_round0 = false;
  survivor_counts = false;
  early_phases = false;
  slean_phases = false;
  fine_csr = false;
  fine_end_round = or_else fine_end_override 64;
  bucket_count = 16;
  mask_bits = none;
  rounds = rounds;
}

abbrev pub result_only : Diagnostics → Bool
result_only diagnostics = false

abbrev pub has_exclusive : Diagnostics → Bool
has_exclusive diagnostics = false

abbrev pub node_mask : ℕ → ℕ
node_mask edge_bits = if edge_bits == 32 then 2 ^ 32 - 1 else 2 ^ edge_bits - 1

pub record TrimOptions : Type 0 where
  pub bucketed_mark : Bool
  pub slean : Bool
  pub fine_end : Option ℕ

pub record ProductionModes : Type 0 where
  pub fine : Bool
  pub bucketed_mark : Bool
  pub slean : Bool

-- The uniform block of the kernels.
pub record Params : Type 0 where
  pub key_words : GpuSipKeys
  pub edge_bits : ℕ
  pub side : ℕ
  pub edge_count_lo : ℕ
  pub word_count : ℕ
  pub node_mask : ℕ
  pub chunk_base : ℕ
  pub chunk_count : ℕ
  pub bucket_config : ℕ

abbrev pub params_for_side : GraphParams → GraphSize → ℕ → Params
params_for_side request graph side = record {
  key_words = gpu_sip_keys request.keys;
  edge_bits = request.edge_bits;
  side = side;
  edge_count_lo = graph.edge_count % 2 ^ 32;
  word_count = graph.word_count % 2 ^ 32;
  node_mask = node_mask request.edge_bits;
  chunk_base = 0;
  chunk_count = 0;
  bucket_config = 0;
}

abbrev pub groups_for_words : GraphSize → ℕ
groups_for_words graph = min (div_ceil graph.word_count workgroup_size) dispatch_groups

unfoldable pub bucket_scratch_size :
    Limits
    → GraphParams
    → GraphSize
    → Diagnostics
    → ProductionModes
    → SleanSizing
    → Result SolveError (ℕ × ℕ)
bucket_scratch_size limits request graph diagnostics modes sizing =
    let bucket_count =
      if diagnostics.bucket_round0 then diagnostics.bucket_count else bucketed_mark_buckets in
    let chunk_edges = min graph.edge_count bucket_chunk_edges in
    let capacity = div_ceil chunk_edges bucket_count + bucket_margin in
    let payload_words = bucket_count * capacity in
    let required_bytes =
      (bucket_header_words + (if modes.bucketed_mark then 2 * payload_words else payload_words))
      * 4 in
    let scratch_bytes =
      if modes.slean
      then sizing.scratch_bytes
      else if diagnostics.bucket_round0 || modes.bucketed_mark
      then required_bytes
      else 4 in
    if exceeds limits scratch_bytes
    then err (
        unsupported (
          scratch_too_large (mib limits.max_storage_buffer_binding_size) request.edge_bits
            (mib scratch_bytes)))
    else ok (scratch_bytes, chunk_edges)

-- What the device is set up with; its buffers and bindings follow from it.
pub record PreparedTrim : Type 0 where
  pub diagnostics : Diagnostics
  pub modes : ProductionModes
  pub graph : GraphSize
  pub sizing : SleanSizing
  pub params : Params × Params
  pub bucket_scratch_bytes : ℕ
  pub bucket_chunk : ℕ

unfoldable pub production_modes : GraphParams → TrimOptions → Diagnostics → ProductionModes
production_modes request options diagnostics =
    let large = options.bucketed_mark && leb bucketed_mark_min_edge_bits request.edge_bits in
    record {
      fine = large && ltb bucketed_mark_rounds diagnostics.rounds && not (result_only diagnostics);
      bucketed_mark = large && not (has_exclusive diagnostics);
      slean =
          options.slean
          && (large && not (has_exclusive diagnostics))
          && not (result_only diagnostics);
    }

abbrev pub with_scratch :
    GraphParams
    → Diagnostics
    → ProductionModes
    → GraphSize
    → SleanSizing
    → Result SolveError (ℕ × ℕ)
    → Result SolveError PreparedTrim
with_scratch request diagnostics modes graph sizing (err e) = err e
with_scratch request diagnostics modes graph sizing (ok (bytes, chunk)) = ok (record {
  diagnostics = diagnostics;
  modes = modes;
  graph = graph;
  sizing = sizing;
  params = (params_for_side request graph 0, params_for_side request graph 1);
  bucket_scratch_bytes = bytes;
  bucket_chunk = chunk;
})

abbrev pub with_sizing :
    Limits
    → GraphParams
    → Diagnostics
    → ProductionModes
    → GraphSize
    → Option (Result SolveError SleanSizing)
    → Option (Result SolveError PreparedTrim)
with_sizing limits request diagnostics modes graph none = none
with_sizing limits request diagnostics modes graph (some (err e)) = some (err e)
with_sizing limits request diagnostics modes graph (some (ok sizing)) = some (
    with_scratch request diagnostics modes graph sizing
      (bucket_scratch_size limits request graph diagnostics modes sizing))

abbrev pub with_graph :
    GpuWgpuSolver
    → GraphParams
    → Diagnostics
    → ProductionModes
    → Result SolveError GraphSize
    → Option (Result SolveError PreparedTrim)
with_graph solver request diagnostics modes (err e) = some (err e)
with_graph solver request diagnostics modes (ok graph) =
    with_sizing solver.limits request diagnostics modes graph
      (slean_sizing solver modes.slean graph.edge_count graph.bitmap_bytes)

unfoldable pub prepare_trim :
    GpuWgpuSolver → GraphParams → ℕ → TrimOptions → Option (Result SolveError PreparedTrim)
prepare_trim solver request requested_rounds options =
    let diagnostics = from_env requested_rounds options.fine_end in
    with_graph solver request diagnostics (production_modes request options diagnostics)
      (graph_size solver.limits request)

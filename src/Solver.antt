-- ===== src/Solver.antt =====
-- src/solver/mod.rs: work requests, their validation, and what a backend returns. The text of a
-- message is a constructor that carries the numbers the text shows.
pub mod Validate
pub mod Bitmap
pub mod Trim
pub mod Search
pub mod CpuLean
pub mod Radix
pub mod Peel
pub mod D2
pub mod Wgpu
pub mod Metal
mod Tests
use rust_miner.Base.{ℕ, ◌%◌, Bool, not, ◌||◌, ◌&&◌, List, [], length, ltb, ◌==◌, if◌then◌else◌}
use rust_miner.Base.{Result, ok, err}
use rust_miner.Siphash.{SipKeys}
use rust_miner.Keys.{Blake2b256, derive_keys}
use rust_miner.Verify.{Proof}

pub data TrimmingMode : Type 0 where
  auto lean slean : TrimmingMode

pub record SolveRequest : Type 0 where
  pub pre_pow : List ℕ
  pub nonce : ℕ
  pub live_work : Bool
  pub edge_bits : ℕ
  pub cycle_length : ℕ
  pub rounds : ℕ

pub record GraphParams : Type 0 where
  pub keys : SipKeys
  pub edge_bits : ℕ
  pub cycle_length : ℕ
  pub rounds : ℕ

unfoldable pub sip_keys : Blake2b256 → SolveRequest → SipKeys
sip_keys blake request = derive_keys blake request.pre_pow request.nonce

unfoldable pub graph_params : Blake2b256 → SolveRequest → GraphParams
unfolding sip_keys
graph_params blake request = record {
  keys = sip_keys blake request;
  edge_bits = request.edge_bits;
  cycle_length = request.cycle_length;
  rounds = request.rounds;
}

pub record BackendCapabilities : Type 0 where
  pub min_edge_bits : ℕ
  pub max_edge_bits : ℕ
  pub cycle_length : ℕ

pub data Reason : Type 0 where
  pre_pow_empty edge_bits_range cycle_length_range rounds_zero : Reason
  backend_edge_bits : ℕ → ℕ → ℕ → Reason
  live_cycle_length : ℕ → Reason
  cpu_capped : ℕ → Reason
  generic_branches d2_branches d2_arcs : Reason
  d2_survivors core_survivors : Reason
  gpu_failure : ℕ → Reason
  slean_parts_power local_ram_power part_too_large : Reason
  bucket_count_range : ℕ → Reason
  bitmap_too_large scratch_too_large : ℕ → ℕ → ℕ → Reason
  survivor_counts_done fine_csr_done node_mask_done : Reason
  fine_offset_range fine_arena_too_large : Reason
  lean_on_metal metal_missing : Reason

pub data SolveError : Type 0 where
  invalid_config : Reason → SolveError
  unsupported : Reason → SolveError
  gpu : Reason → SolveError
  search_limit : Reason → SolveError

pub data SolveOutcome : Type 0 where
  found : Proof → SolveOutcome
  no_cycle : SolveOutcome
  cancelled : SolveOutcome
  inconclusive : Reason → SolveOutcome

unfoldable pub validate_request : SolveRequest → BackendCapabilities → Result SolveError (Unit {0})
validate_request request capabilities =
    if length request.pre_pow == 0
    then err (invalid_config pre_pow_empty)
    else if (request.edge_bits == 0) || ltb 32 request.edge_bits
    then err (invalid_config edge_bits_range)
    else if ltb request.edge_bits capabilities.min_edge_bits
        || ltb capabilities.max_edge_bits request.edge_bits
    then err (
        unsupported (
          backend_edge_bits capabilities.min_edge_bits capabilities.max_edge_bits
            request.edge_bits))
    else if (request.cycle_length == 0)
        || not (request.cycle_length % 2 == 0)
        || ltb 64 request.cycle_length
    then err (invalid_config cycle_length_range)
    else if request.live_work && not (request.cycle_length == capabilities.cycle_length)
    then err (unsupported (live_cycle_length capabilities.cycle_length))
    else if request.rounds == 0
    then err (invalid_config rounds_zero)
    else ok tt

-- ===== src/Solver/Validate.antt =====
-- Which requests `validate_request` of src/solver/mod.rs admits.
use rust_miner.Base.{◌%◌, ◌≤◌, ◌<◌, ◌≡◌, ◌↔◌, true, length, ok, arith}
use rust_miner.Solver.{SolveRequest, BackendCapabilities, validate_request}

pub record IsWork (request : SolveRequest) (capabilities : BackendCapabilities) : Type 0 where
  pub pre_pow : 0 < length request.pre_pow
  pub bits_pos : 1 ≤ request.edge_bits
  pub bits_le : request.edge_bits ≤ 32
  pub supported :
      (capabilities.min_edge_bits ≤ request.edge_bits)
      × (request.edge_bits ≤ capabilities.max_edge_bits)
  pub cycle_pos : 2 ≤ request.cycle_length
  pub cycle_even : request.cycle_length % 2 ≡ 0
  pub cycle_le : request.cycle_length ≤ 64
  pub live : request.live_work ≡ true → request.cycle_length ≡ capabilities.cycle_length
  pub rounds : 1 ≤ request.rounds

-- A request passes exactly if the template is not empty, the edge bits lie in 1 to 32 and in the
-- backend's range, the cycle length is even and in 2 to 64 and, for live work, the backend's, and
-- there is a round.
pub validate_request_iff :
    (request : SolveRequest) (capabilities : BackendCapabilities)
    → (validate_request request capabilities ≡ ok tt) ↔ IsWork request capabilities
unfolding validate_request
validate_request_iff request capabilities = (λ h. ground arith, λ w. ground arith)

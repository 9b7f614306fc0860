-- ===== src/Solver/Peel/Tests.antt =====
-- The peeling of a graph of eight edges that has one cycle of four.
use rust_miner.Base.{ℕ, List, [], ◌∷◌}
use rust_miner.Verify.{Proof}
use rust_miner.Solver.{GraphParams}

abbrev params : GraphParams
params = record {
  keys = record {
    k0 = 0x0c0c0c0c0c0c0c0c;
    k1 = 0x0c0c0c0c0c0c0c0c;
    k2 = 0x0c0c0c0c0c0c0c0c;
    k3 = 0x0c0c0c0c0c0c0c0c;
  };
  edge_bits = 3;
  cycle_length = 4;
  rounds = 2;
}

abbrev cycle : Proof
cycle = record { nonces = 0 ∷ 2 ∷ 6 ∷ 7 ∷ [] }

abbrev all_edges : List ℕ
all_edges = 0 ∷ 1 ∷ 2 ∷ 3 ∷ 4 ∷ 5 ∷ 6 ∷ 7 ∷ []

abbrev core : List ℕ
core = 0 ∷ 2 ∷ 6 ∷ 7 ∷ []

abbrev six : ℕ
six = 6

-- ===== src/Launch/Tests.antt =====
-- Tests of the choice of a backend and of the argument parser.
use rust_miner.Base.{ℕ, ◌≤◌, ◌^◌, ◌≡◌, ◌↔◌, refl, arith, false, some, err, codes, parse_uint}
use rust_miner.Solver.{auto, unsupported, metal_missing}
use rust_miner.Launch

abbrev no_device : Launch.Machine
no_device = record {
  is_macos = false;
  native_metal = err (unsupported metal_missing);
  open_device = λ config. err (unsupported metal_missing);
}

abbrev args : Launch.SolverArgs
args = record {
  backend = Launch.auto;
  edge_bits = 29;
  cycle_length = 42;
  rounds = 128;
  trimming = auto;
  slean_parts = 4;
  local_ram_kib = 32;
}

make_solver-IsChoice_example : Launch.IsChoice 29 (Launch.make_solver no_device args)
make_solver-IsChoice_example =
    Launch.make_solver-IsChoice no_device args refl (omega arith) (omega arith)

parse_power_of_two_iff_example :
    (Launch.parse_power_of_two (codes "+16") ≡ some 16)
    ↔ ((parse_uint (2 ^ 32) (codes "+16") ≡ some 16) × ((k : ℕ) × (1 ≤ k) × (16 ≡ 2 ^ k)))
parse_power_of_two_iff_example = Launch.parse_power_of_two_iff (codes "+16") 16

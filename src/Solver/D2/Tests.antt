-- ===== src/Solver/D2/Tests.antt =====
-- Tests of the pair search: the survivors are the 42 edges of a cycle.
use rust_miner.Base.{ℕ, ◌≡◌, refl, some, List, [], ◌∷◌, ok}
use rust_miner.Siphash.{sip_round, siphash24, endpoint}
use rust_miner.Verify.{
  verify_cycle, edge_ends, find_mates, check_nonces, scan_mates, mate_of, mate_node, walk, insert,
  sort, sorted,
}
use rust_miner.Solver.{GraphParams}
use rust_miner.Solver.Radix.{
  range_from, count_digits, positions, scatter, radix_pass, radix_order, partition_point,
  equal_range,
}
use rust_miner.Solver.D2.{
  push_arcs, push_mids, build_arcs, pair_nonces, try_arcs, dfs_arcs, search_arcs, find_cycle_d2,
}

orders : radix_order (7 ∷ 1 ∷ 0xffffffff ∷ 7 ∷ 0 ∷ 65_537 ∷ 1 ∷ []) ≡ 4 ∷ 1 ∷ 6 ∷ 0 ∷ 3 ∷ 5 ∷ 2 ∷ []
unfolding radix_order radix_pass scatter positions count_digits range_from
orders = refl

abbrev edges : List ℕ
edges =
    46 ∷ 77 ∷ 104 ∷ 119 ∷ 171 ∷ 184 ∷ 283 ∷ 419 ∷ 451 ∷ 477 ∷ 506 ∷ 530 ∷ 567 ∷ 576 ∷ 602 ∷ 609
    ∷ 755 ∷ 781 ∷ 789 ∷ 800 ∷ 880 ∷ 890 ∷ 988 ∷ 989 ∷ 1017 ∷ 1034 ∷ 1059 ∷ 1117 ∷ 1215 ∷ 1242 ∷ 1345
    ∷ 1358 ∷ 1392 ∷ 1488 ∷ 1538 ∷ 1576 ∷ 1586 ∷ 1880 ∷ 1899 ∷ 1924 ∷ 1932 ∷ 1996 ∷ []

abbrev request : GraphParams
request = record {
  keys = record {
    k0 = 0xe3e3e3e3e3e3e3e3;
    k1 = 0xe3e3e3e3e3e3e3e3;
    k2 = 0xe3e3e3e3e3e3e3e3;
    k3 = 0xe3e3e3e3e3e3e3e3;
  };
  edge_bits = 11;
  cycle_length = 42;
  rounds = 5;
}

finds : find_cycle_d2 request edges ≡ some (ok (some (record { nonces = edges })))
unfolding find_cycle_d2 search_arcs dfs_arcs try_arcs pair_nonces build_arcs push_mids push_arcs
    equal_range partition_point radix_order radix_pass scatter positions count_digits range_from
    verify_cycle edge_ends find_mates check_nonces scan_mates mate_of mate_node walk insert sort
    sorted endpoint siphash24 sip_round
finds = refl

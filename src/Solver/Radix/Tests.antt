-- ===== src/Solver/Radix/Tests.antt =====
-- The order of a few keys, and the run of one.
use rust_miner.Base.{
  ℕ, zero, suc, ◌<◌, ◌≤◌, ◌^◌, ◌≡◌, ◌↔◌, refl, subst, arith, List, [], ◌∷◌, get_or,
}
use rust_miner.Base.{ltb, if◌then◌else◌}
use rust_miner.Solver.Radix.{
  range_from, count_digits, positions, scatter, radix_pass, radix_order, partition_point,
  equal_range,
}
use rust_miner.Solver.Radix.Buckets.{count}
use rust_miner.Solver.Radix.Sorts.{Pairwise, Before, radix_order-sorts}
use rust_miner.Solver.Radix.Run.{equal_range_iff}

abbrev keys : List ℕ
keys = 7 ∷ 1 ∷ 0xffffffff ∷ 7 ∷ []

small : (index : ℕ) → get_or keys index 0 < 2 ^ 32
small zero = omega arith
small (suc zero) = omega arith
small (suc (suc zero)) = omega arith
small (suc (suc (suc zero))) = omega arith
small (suc (suc (suc (suc index)))) = omega arith

radix_order-sorts_example :
    Pairwise (Before keys) (radix_order keys)
    × ((index : ℕ) → count index (radix_order keys) ≡ (if ltb index 4 then 1 else 0))
radix_order-sorts_example = radix_order-sorts keys small

run_of_seven : equal_range (1 ∷ 0 ∷ 3 ∷ 2 ∷ []) keys 7 ≡ (1, 3)
unfolding equal_range partition_point
run_of_seven = refl

abbrev order : List ℕ
order = 1 ∷ 0 ∷ 3 ∷ 2 ∷ []

orders : radix_order keys ≡ order
unfolding radix_order radix_pass scatter positions count_digits range_from
orders = refl

in_order : Pairwise (Before keys) order
in_order = subst (Pairwise (Before keys)) orders (radix_order-sorts keys small).0

abbrev place : ℕ
place = 2

equal_range_iff_example :
    ((equal_range order keys 7).0 ≤ place) × (place < (equal_range order keys 7).1)
    ↔ (get_or keys 3 0 ≡ 7)
equal_range_iff_example = equal_range_iff keys order 7 in_order place (omega arith)

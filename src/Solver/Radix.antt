-- ===== src/Solver/Radix.antt =====
-- src/solver/d2.rs: the order of survivors by the node of one side, by two passes of a counting sort
-- on 16 bits each, and the run of one node in it.
pub mod Buckets
pub mod Counts
pub mod Scatter
pub mod Sorts
pub mod Run
mod Tests
use rust_miner.Base.{
  ℕ, zero, suc, ◌+◌, ◌/◌, ◌%◌, ◌^◌, Bool, List, [], ◌∷◌, length, get_or, set, drop,
}
use rust_miner.Base.{replicate, ltb, ◌==◌, if◌then◌else◌}

-- `0..n` behind `i`.
unfoldable pub range_from : ℕ → ℕ → List ℕ
range_from i zero = []
range_from i (suc n) = i ∷ range_from (suc i) n

-- The 16 bits of a key from `shift`.
abbrev pub digit_of : ℕ → ℕ → ℕ
digit_of shift key = key / 2 ^ shift % 2 ^ 16

abbrev pub increment : List ℕ → ℕ → List ℕ
increment counts bucket = set counts bucket (get_or counts bucket 0 + 1)

unfoldable pub count_digits : List ℕ → ℕ → List ℕ → List ℕ → List ℕ
count_digits keys shift [] counts = counts
count_digits keys shift (index ∷ order) counts =
    count_digits keys shift order (increment counts (digit_of shift (get_or keys index 0)))

-- Each count becomes the sum of those before it.
unfoldable pub positions : ℕ → List ℕ → List ℕ
positions position [] = []
positions position (count ∷ counts) = position ∷ positions (position + count) counts

unfoldable pub scatter : List ℕ → ℕ → List ℕ → List ℕ → List ℕ → List ℕ
scatter keys shift [] counts scratch = scratch
scatter keys shift (index ∷ order) counts scratch =
    let bucket = digit_of shift (get_or keys index 0) in
    scatter keys shift order (increment counts bucket) (set scratch (get_or counts bucket 0) index)

-- One pass. The old content of `scratch` is overwritten whole, so any list of its length serves.
unfoldable pub radix_pass : List ℕ → ℕ → List ℕ → List ℕ
radix_pass keys shift order =
    scatter keys shift order (positions 0 (count_digits keys shift order (replicate (2 ^ 16) 0)))
      (replicate (length keys) 0)

unfoldable pub radix_order : List ℕ → List ℕ
radix_order keys = radix_pass keys 16 (radix_pass keys 0 (range_from 0 (length keys)))

-- `partition_point` of a list where the test holds on a prefix: how long the prefix is.
unfoldable pub partition_point : (ℕ → Bool) → List ℕ → ℕ
partition_point test [] = 0
partition_point test (x ∷ xs) =
    let later = partition_point test xs in if test x then suc later else 0

unfoldable pub equal_range : List ℕ → List ℕ → ℕ → ℕ × ℕ
equal_range order keys wanted =
    let lower = partition_point (λ index. ltb (get_or keys index 0) wanted) order in
    let upper =
      partition_point (λ index. get_or keys index 0 == wanted) (drop lower order) + lower in
    (lower, upper)

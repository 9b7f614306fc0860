-- ===== src/Solver/Wgpu/Fine.antt =====
-- src/solver/gpu_fine.rs: where the buckets of a fine round begin in its arena, with exact sizes and
-- with one capacity for all. The buffers hold what is computed here.
use rust_miner.Base.{
  ℕ, zero, suc, ◌+◌, ◌*◌, ◌%◌, ◌^◌, ◌-◌, ◌≤◌, ◌<◌, max, ◌||◌, ltb, Option, none, some, List, [],
  ◌∷◌,
}
use rust_miner.Base.{
  if◌then◌else◌, get_or, take, length, false, Result, ok, err, ◌≡◌, refl, subst, arith,
}
use rust_miner.Base.{Bool-cases, inl, inr, some_inj, ok_inj, ltb→lt, none≢some, ◌∙◌, ap}
use native.Mathlib.Nat.{zero-add, mul-le-mul_right, mod-eq_of_lt}
use rust_miner.Solver.{SolveError, unsupported, fine_offset_range, fine_arena_too_large}
use rust_miner.Solver.Wgpu.{Limits, exceeds}
use rust_miner.Solver.Wgpu.Fits.{err≢ok}

abbrev pub fine_buckets : ℕ
fine_buckets = 32768

abbrev pub fine_fixed_min_margin : ℕ
fine_fixed_min_margin = 64

abbrev pub prepend : ℕ → Result SolveError (List ℕ) → Result SolveError (List ℕ)
prepend offset (err e) = err e
prepend offset (ok offsets) = ok (offset ∷ offsets)

-- The offsets behind `last`, one for the end of each bucket; each is a `u32`.
unfoldable pub offsets_from : ℕ → List ℕ → Result SolveError (List ℕ)
offsets_from last [] = ok []
offsets_from last (count ∷ counts) =
    let rest = offsets_from (last + count) counts in
    if ltb (last + count) (2 ^ 32)
    then prepend (last + count) rest
    else err (unsupported fine_offset_range)

abbrev pub fine_offsets : List ℕ → Result SolveError (List ℕ)
fine_offsets counts = prepend 0 (offsets_from 0 counts)

abbrev pub arena_size : ℕ → ℕ
arena_size slots = max (slots * 4) 4

abbrev pub fitting_arena : Limits → ℕ → Result SolveError (List ℕ) → Result SolveError (List ℕ × ℕ)
fitting_arena limits bytes (err e) = err e
fitting_arena limits bytes (ok offsets) =
    if exceeds limits bytes then err (unsupported fine_arena_too_large) else ok (offsets, bytes)

-- `allocate_fine_storage`: the offsets and the bytes of the arena.
unfoldable pub allocate_fine_storage : Limits → ℕ → List ℕ → Result SolveError (List ℕ × ℕ)
allocate_fine_storage limits survivor_count counts =
    fitting_arena limits (arena_size survivor_count) (fine_offsets counts)

unfoldable pub largest : List ℕ → ℕ
largest [] = 0
largest (count ∷ counts) = max count (largest counts)

-- The offsets of `n` buckets from `bucket`, cut off to a `u32`.
unfoldable pub fixed_offsets : ℕ → ℕ → ℕ → List ℕ
fixed_offsets capacity bucket zero = []
fixed_offsets capacity bucket (suc n) =
    bucket * capacity % 2 ^ 32 ∷ fixed_offsets capacity (suc bucket) n

pub record FixedStorage : Type 0 where
  pub offsets : List ℕ
  pub arena_bytes : ℕ

-- `prepare_fine_fixed_storage`.
unfoldable pub fixed_storage : Limits → List ℕ → Option FixedStorage
fixed_storage limits counts =
    let capacity = largest counts + fine_fixed_min_margin in
    let slots = capacity * fine_buckets in
    if ltb (2 ^ 32 - 1) slots || exceeds limits (arena_size slots)
    then none
    else some (record {
      offsets = fixed_offsets capacity 0 (suc fine_buckets);
      arena_bytes = arena_size slots;
    })

prepend-ok :
    (offset : ℕ) (r : Result SolveError (List ℕ)) (offsets : List ℕ)
    → prepend offset r ≡ ok offsets
    → (rest : List ℕ) × (r ≡ ok rest) × (offset ∷ rest ≡ offsets)
prepend-ok offset (err e) offsets h = cc
prepend-ok offset (ok rest) offsets h = (rest, refl, ok_inj h)

unfoldable pub total : List ℕ → ℕ
total [] = 0
total (count ∷ counts) = count + total counts

-- Behind `first` there is one offset for each bucket: what `first` and the buckets up to it come to.
-- Each is a `u32`.
abbrev ArePlaces : ℕ → List ℕ → List ℕ → Type 0
ArePlaces first counts offsets =
    (length offsets ≡ suc (length counts))
    × ((bucket : ℕ)
        → bucket ≤ length counts
        → (get_or offsets bucket 0 ≡ first + total (take bucket counts))
          × (get_or offsets bucket 0 < 2 ^ 32))

offsets_from-ArePlaces :
    (first : ℕ) (counts rest : List ℕ)
    → first < 2 ^ 32
    → offsets_from first counts ≡ ok rest
    → ArePlaces first counts (first ∷ rest)
unfolding offsets_from total
offsets_from-ArePlaces first [] rest small e =
    subst (λ (r : List ℕ). ArePlaces first [] (first ∷ r)) (ok_inj e) (refl, none_behind)
  where
    none_behind :
        (bucket : ℕ)
        → bucket ≤ 0
        → (get_or (first ∷ []) bucket 0 ≡ first + total (take bucket []))
          × (get_or (first ∷ []) bucket 0 < 2 ^ 32)
    none_behind zero le = (omega arith, small)
    none_behind (suc bucket) le = absurd (omega arith)
offsets_from-ArePlaces first (count ∷ counts) rest small e =
    elim (Bool-cases (ltb (first + count) (2 ^ 32))) [
      | inl below ↦
          let (behind, ends, same) = prepend-ok (first + count) _ rest (rw below at e) in
          subst (λ (r : List ℕ). ArePlaces first (count ∷ counts) (first ∷ r)) same
            (places behind (
              offsets_from-ArePlaces (first + count) counts behind
                (ltb→lt (first + count) (2 ^ 32) below) ends))
      | inr over ↦ absurd (err≢ok (rw over at e))
    ]
  where
    places :
        (behind : List ℕ)
        → ArePlaces (first + count) counts ((first + count) ∷ behind)
        → ArePlaces first (count ∷ counts) (first ∷ (first + count) ∷ behind)
    places behind (long, later) = (omega (arith, long), each)
      where
        each :
            (bucket : ℕ)
            → bucket ≤ suc (length counts)
            → (get_or (first ∷ (first + count) ∷ behind) bucket 0
                ≡ first + total (take bucket (count ∷ counts)))
              × (get_or (first ∷ (first + count) ∷ behind) bucket 0 < 2 ^ 32)
        each zero le = (omega arith, small)
        each (suc bucket) le =
            let (sum, fits) = later bucket (omega arith) in (omega (arith, sum), fits)

-- The first buckets and the next one come to no more than all.
total-take-le :
    (counts : List ℕ) (bucket : ℕ)
    → total (take bucket counts) + get_or counts bucket 0 ≤ total counts
unfolding total
total-take-le [] zero = omega arith
total-take-le [] (suc bucket) = omega arith
total-take-le (count ∷ counts) zero = omega arith
total-take-le (count ∷ counts) (suc bucket) = omega (arith, total-take-le counts bucket)

-- A bucket starts behind all edges of those before it, ends where the next one starts and within an
-- arena of `bytes`, which the adapter admits.
abbrev pub IsLaidOut : Limits → List ℕ → List ℕ → ℕ → Type 0
IsLaidOut limits counts offsets bytes =
    ((bucket : ℕ)
      → bucket < length counts
      → (get_or offsets bucket 0 ≡ total (take bucket counts))
        × (get_or offsets (suc bucket) 0 ≡ get_or offsets bucket 0 + get_or counts bucket 0)
        × (get_or offsets (suc bucket) 0 < 2 ^ 32)
        × (get_or offsets (suc bucket) 0 * 4 ≤ bytes))
    × (length offsets ≡ suc (length counts))
    × (bytes ≤ limits.max_buffer_size)
    × (bytes ≤ limits.max_storage_buffer_binding_size)

total-take-suc :
    (counts : List ℕ) (bucket : ℕ)
    → total (take (suc bucket) counts) ≡ total (take bucket counts) + get_or counts bucket 0
unfolding total
total-take-suc [] zero = omega arith
total-take-suc [] (suc bucket) = omega arith
total-take-suc (count ∷ counts) zero = omega arith
total-take-suc (count ∷ counts) (suc bucket) = omega (arith, total-take-suc counts bucket)

-- If the buckets hold the survivors, each once, the arena of exact sizes has one offset for the start
-- of each bucket and one for the end: a bucket starts where those before it have all their edges, from
-- 0, and ends where the next one starts; each end is a `u32` and within the arena, and the arena is
-- within both limits of the adapter.
pub allocate_fine_storage_exact :
    (limits : Limits) (survivor_count : ℕ) (counts offsets : List ℕ) (bytes : ℕ)
    → total counts ≡ survivor_count
    → allocate_fine_storage limits survivor_count counts ≡ ok (offsets, bytes)
    → IsLaidOut limits counts offsets bytes
unfolding allocate_fine_storage
allocate_fine_storage_exact limits survivor_count counts offsets bytes all e =
    from (offsets_from 0 counts) refl e
  where
    laid_out :
        (rest : List ℕ)
        → ArePlaces 0 counts (0 ∷ rest)
        → exceeds limits (arena_size survivor_count) ≡ false
        → IsLaidOut limits counts (0 ∷ rest) (arena_size survivor_count)
    laid_out rest (long, each) fitting =
        let (a, b) : (arena_size survivor_count ≤ limits.max_buffer_size)
            × (arena_size survivor_count ≤ limits.max_storage_buffer_binding_size) =
          ground arith in
        (
          λ bucket lt.
              let (start, _) = each bucket (omega arith) in
              let (end, fits) = each (suc bucket) lt in
              (
                omega (arith, start),
                omega (arith, start, end, total-take-suc counts bucket),
                fits,
                omega (arith, end, total-take-suc counts bucket, total-take-le counts bucket, all),
              ),
          long,
          a,
          b,
        )

    from :
        (r : Result SolveError (List ℕ))
        → offsets_from 0 counts ≡ r
        → fitting_arena limits (arena_size survivor_count) (prepend 0 r) ≡ ok (offsets, bytes)
        → IsLaidOut limits counts offsets bytes
    from (err x) q h = cc
    from (ok rest) q h = elim (Bool-cases (exceeds limits (arena_size survivor_count))) [
      | inl large ↦ absurd (err≢ok (rw large at h))
      | inr fitting ↦
          subst (λ (p : List ℕ × ℕ). IsLaidOut limits counts p.0 p.1) (ok_inj (rw fitting at h))
            (laid_out rest (offsets_from-ArePlaces 0 counts rest (omega arith) q) fitting)
    ]

largest-le : (counts : List ℕ) (i : ℕ) → get_or counts i 0 ≤ largest counts
unfolding largest
largest-le [] i = omega arith
largest-le (count ∷ counts) zero = omega arith
largest-le (count ∷ counts) (suc i) = omega (arith, largest-le counts i)

get_or-fixed_offsets :
    (capacity bucket n i : ℕ)
    → i < n
    → get_or (fixed_offsets capacity bucket n) i 0 ≡ (bucket + i) * capacity % 2 ^ 32
unfolding fixed_offsets
get_or-fixed_offsets capacity bucket zero i lt = omega arith
get_or-fixed_offsets capacity bucket (suc n) zero lt =
    ap (λ (b : ℕ). b * capacity % 2 ^ 32) (omega arith)
get_or-fixed_offsets capacity bucket (suc n) (suc i) lt =
    get_or-fixed_offsets capacity (suc bucket) n i (omega arith)
    ∙ ap (λ (b : ℕ). b * capacity % 2 ^ 32) (omega arith)

-- No offset is cut off while all slots together are a `u32`.
offset-exact :
    (capacity bucket : ℕ)
    → capacity * fine_buckets < 2 ^ 32
    → bucket ≤ fine_buckets
    → get_or (fixed_offsets capacity 0 (suc fine_buckets)) bucket 0 ≡ bucket * capacity
offset-exact capacity bucket slots le =
    get_or-fixed_offsets capacity 0 (suc fine_buckets) bucket (omega arith)
    ∙ ap (λ (b : ℕ). b * capacity % 2 ^ 32) (zero-add bucket)
    ∙ mod-eq_of_lt (omega (arith, mul-le-mul_right capacity le, slots))

module _ (limits : Limits) (counts : List ℕ) (bucket : ℕ) where
  abbrev pub IsRoomy : FixedStorage → Type 0
  IsRoomy storage =
      (get_or storage.offsets bucket 0 + get_or counts bucket 0 + fine_fixed_min_margin
        ≤ get_or storage.offsets (suc bucket) 0)
      × (get_or storage.offsets (suc bucket) 0 * 4 ≤ storage.arena_bytes)
      × (storage.arena_bytes ≤ limits.max_buffer_size)
      × (storage.arena_bytes ≤ limits.max_storage_buffer_binding_size)

-- In the arena of fixed capacity, no offset is cut off: each bucket has room for what it holds and 64
-- edges more before the next one begins, the last one ends within the arena, and the arena is within
-- both limits of the adapter.
pub fixed_storage_roomy :
    (limits : Limits) (counts : List ℕ) (storage : FixedStorage) (bucket : ℕ)
    → fixed_storage limits counts ≡ some storage
    → bucket < fine_buckets
    → (get_or storage.offsets bucket 0 + get_or counts bucket 0 + fine_fixed_min_margin
        ≤ get_or storage.offsets (suc bucket) 0)
      × (get_or storage.offsets (suc bucket) 0 * 4 ≤ storage.arena_bytes)
      × (storage.arena_bytes ≤ limits.max_buffer_size)
      × (storage.arena_bytes ≤ limits.max_storage_buffer_binding_size)
unfolding fixed_storage
fixed_storage_roomy limits counts storage bucket e lt =
    elim (Bool-cases (ltb (2 ^ 32 - 1) slots || exceeds limits (arena_size slots))) [
      | inl refused ↦ absurd (none≢some (rw refused at e))
      | inr fitting ↦
          let (small, bytes_le) : (slots < 2 ^ 32)
              × ((arena_size slots ≤ limits.max_buffer_size)
                  × (arena_size slots ≤ limits.max_storage_buffer_binding_size)) =
            ground arith in
          let here = offset-exact capacity bucket small (omega arith) in
          let next = offset-exact capacity (suc bucket) small (omega arith) in
          subst (IsRoomy limits counts bucket) (some_inj (rw fitting at e)) (
            omega (arith, here, next, largest-le counts bucket),
            omega (arith, next, mul-le-mul_right capacity lt),
            bytes_le.0,
            bytes_le.1,
          )
    ]
  where
    capacity : ℕ
    capacity = largest counts + fine_fixed_min_margin

    slots : ℕ
    slots = capacity * fine_buckets

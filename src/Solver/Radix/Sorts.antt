-- ===== src/Solver/Radix/Sorts.antt =====
-- src/solver/d2.rs: `radix_order` sorts the indices of the keys.
use rust_miner.Base.{
  ℕ, zero, suc, ◌+◌, ◌<◌, ◌≤◌, ◌^◌, ◌≡◌, refl, sym, ap, ◌∙◌, arith, ◌⊎◌, inl, inr,
}
use rust_miner.Base.{List, [], ◌∷◌, ◌++◌, length, get_or, ◌∈◌, mem-append_cases, Bool-cases}
use rust_miner.Base.{◌==◌, ltb, if◌then◌else◌, ==→≡, true}
use rust_miner.Solver.Radix.{range_from, radix_pass, radix_order}
use rust_miner.Solver.Radix.Buckets.{count, count-buckets, having, buckets, length-buckets}
use rust_miner.Solver.Radix.Scatter.{digit, digit-lt, radix_pass-buckets}

-- Each item stands in the relation to all behind it.
abbrev pub Pairwise : (ℕ → ℕ → Type 0) → List ℕ → Type 0
Pairwise R [] = Unit {0}
Pairwise R (x ∷ xs) = ((y : ℕ) → y ∈ xs → R x y) × Pairwise R xs

Pairwise-append :
    (R : ℕ → ℕ → Type 0) (xs ys : List ℕ)
    → Pairwise R xs
    → Pairwise R ys
    → ((x y : ℕ) → x ∈ xs → y ∈ ys → R x y)
    → Pairwise R (xs ++ ys)
Pairwise-append R [] ys p q h = q
Pairwise-append R (x ∷ xs) ys p q h = (
  λ y m. elim (mem-append_cases y xs ys m) [ inl a ↦ p.0 y a | inr b ↦ h x y (inl refl) b ],
  Pairwise-append R xs ys p.1 q (λ a b m. h a b (inr m)),
)

module _ (f : ℕ → ℕ) where
  mem-having : (d a : ℕ) (xs : List ℕ) → a ∈ having f d xs → (a ∈ xs) × (f a ≡ d)
  unfolding having
  mem-having d a [] m = absurd m
  mem-having d a (x ∷ xs) m = elim (Bool-cases (f x == d)) [
    | inl same ↦ first same (mem-having d a xs) (rw same at m)
    | inr other ↦ let (r, e) = mem-having d a xs (rw other at m) in (inr r, e)
  ]
    where
      first :
          (f x == d) ≡ true
          → (a ∈ having f d xs → (a ∈ xs) × (f a ≡ d))
          → a ∈ (x ∷ having f d xs)
          → (a ∈ (x ∷ xs)) × (f a ≡ d)
      first same later (inl e) = (inl e, ap f e ∙ ==→≡ _ d same)
      first same later (inr r) = let (r', e) = later r in (inr r', e)

  mem-buckets : (e a : ℕ) (xs : List ℕ) → a ∈ buckets f e xs → f a < e
  unfolding buckets
  mem-buckets zero a xs m = absurd m
  mem-buckets (suc e) a xs m = elim (mem-append_cases a (buckets f e xs) (having f e xs) m) [
    | inl l ↦ omega (arith, mem-buckets e a xs l)
    | inr r ↦ omega (arith, (mem-having e a xs r).1)
  ]

  module _ (S R : ℕ → ℕ → Type 0) (within : (x y : ℕ) → f x ≡ f y → S x y → R x y)
      (across : (x y : ℕ) → f x < f y → R x y) where
    having-Pairwise : (d : ℕ) (xs : List ℕ) → Pairwise S xs → Pairwise R (having f d xs)
    unfolding having
    having-Pairwise d [] p = tt
    having-Pairwise d (x ∷ xs) p = elim (Bool-cases (f x == d)) [
      | inl same ↦ rw same (
          (
            λ y m.
                within x y (==→≡ _ d same ∙ sym (mem-having d y xs m).1)
                  (p.0 y (mem-having d y xs m).0),
            having-Pairwise d xs p.1,
          ))
      | inr other ↦ rw other (having-Pairwise d xs p.1)
    ]

    -- Sorting into buckets keeps the order of those that share one.
    buckets-Pairwise : (e : ℕ) (xs : List ℕ) → Pairwise S xs → Pairwise R (buckets f e xs)
    unfolding buckets
    buckets-Pairwise zero xs p = tt
    buckets-Pairwise (suc e) xs p =
        Pairwise-append R (buckets f e xs) (having f e xs) (buckets-Pairwise e xs p)
          (having-Pairwise e xs p)
          (λ x y a b. across x y (omega (arith, mem-buckets e x xs a, (mem-having e y xs b).1)))

mem-range_from : (i n y : ℕ) → y ∈ range_from i n → i ≤ y
unfolding range_from
mem-range_from i zero y m = absurd m
mem-range_from i (suc n) y (inl e) = omega arith
mem-range_from i (suc n) y (inr m) = omega (arith, mem-range_from (suc i) n y m)

range_from-Pairwise : (i n : ℕ) → Pairwise ◌<◌ (range_from i n)
unfolding range_from
range_from-Pairwise i zero = tt
range_from-Pairwise i (suc n) =
    (λ y m. omega (arith, mem-range_from (suc i) n y m), range_from-Pairwise (suc i) n)

length-range_from : (i n : ℕ) → length (range_from i n) ≡ n
unfolding range_from
length-range_from i zero = refl
length-range_from i (suc n) = ap suc (length-range_from (suc i) n)

count-range_from :
    (i n a : ℕ) → count a (range_from i n) ≡ (if ltb a i then 0 else if ltb a (i + n) then 1 else 0)
unfolding range_from count
count-range_from i zero a = ground arith
count-range_from i (suc n) a = ground (arith, count-range_from (suc i) n a)

module _ (keys : List ℕ) where
  abbrev pub key : ℕ → ℕ
  key index = get_or keys index 0

  -- By the key, and by the index where two are equal.
  abbrev pub Before : ℕ → ℕ → Type 0
  Before x y = (key x < key y) ⊎ ((key x ≡ key y) × (x < y))

  first_pass : List ℕ
  first_pass = buckets (digit keys 0) (2 ^ 16) (range_from 0 (length keys))

  length-first_pass : length first_pass ≡ length keys
  unfolding first_pass
  length-first_pass =
      length-buckets (digit keys 0) (2 ^ 16) (range_from 0 (length keys)) (digit-lt keys 0)
      ∙ length-range_from 0 (length keys)

  radix_order-buckets : radix_order keys ≡ buckets (digit keys 16) (2 ^ 16) first_pass
  unfolding radix_order first_pass
  radix_order-buckets =
      ap (radix_pass keys 16) (
        radix_pass-buckets keys 0 (range_from 0 (length keys))
          (sym (length-range_from 0 (length keys))))
      ∙ radix_pass-buckets keys 16 first_pass (sym length-first_pass)

  count-first_pass :
      (index : ℕ) → count index first_pass ≡ (if ltb index (length keys) then 1 else 0)
  unfolding first_pass
  count-first_pass index =
      count-buckets (digit keys 0) (2 ^ 16) index (range_from 0 (length keys))
        (digit-lt keys 0 index)
      ∙ count-range_from 0 (length keys) index
      ∙ ground arith

  pub length-radix_order : length (radix_order keys) ≡ length keys
  length-radix_order =
      ap length radix_order-buckets
      ∙ length-buckets (digit keys 16) (2 ^ 16) first_pass (digit-lt keys 16)
      ∙ length-first_pass

  -- By the lower half of the key, and by the index.
  abbrev Lower : ℕ → ℕ → Type 0
  Lower x y = (digit keys 0 x < digit keys 0 y) ⊎ ((digit keys 0 x ≡ digit keys 0 y) × (x < y))

  first_pass-Pairwise : Pairwise Lower first_pass
  unfolding first_pass
  first_pass-Pairwise =
      buckets-Pairwise (digit keys 0) ◌<◌ Lower (λ x y e h. inr (e, h)) (λ x y h. inl h) (2 ^ 16)
        (range_from 0 (length keys)) (range_from-Pairwise 0 (length keys))

  module _ (small : (index : ℕ) → key index < 2 ^ 32) where
    within : (x y : ℕ) → digit keys 16 x ≡ digit keys 16 y → Lower x y → Before x y
    unfolding digit
    within x y e (inl h) = inl (omega (arith, small x, small y))
    within x y e (inr (l, h)) = inr (omega (arith, small x, small y), h)

    across : (x y : ℕ) → digit keys 16 x < digit keys 16 y → Before x y
    unfolding digit
    across x y h = inl (omega (arith, small x, small y))

  -- For keys that are `u32`, `radix_order` has each index below the number of keys once, and no
  -- other, and the indices in the order of their keys, those of equal keys in ascending order.
  pub radix_order-sorts :
      ((index : ℕ) → key index < 2 ^ 32)
      → Pairwise Before (radix_order keys)
        × ((index : ℕ)
            → count index (radix_order keys) ≡ (if ltb index (length keys) then 1 else 0))
  radix_order-sorts small = (
    rw radix_order-buckets (
        buckets-Pairwise (digit keys 16) Lower Before (within small) (across small) (2 ^ 16)
          first_pass first_pass-Pairwise),
    λ index. ap (count index) radix_order-buckets ∙ counts index,
  )
    where
      counts :
          (index : ℕ)
          → count index (buckets (digit keys 16) (2 ^ 16) first_pass)
            ≡ (if ltb index (length keys) then 1 else 0)
      counts index =
          count-buckets (digit keys 16) (2 ^ 16) index first_pass (digit-lt keys 16 index)
          ∙ count-first_pass index

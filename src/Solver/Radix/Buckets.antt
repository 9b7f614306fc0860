-- ===== src/Solver/Radix/Buckets.antt =====
-- What a pass of a counting sort is for: the items of a list in the order of a number that each has,
-- and of the list among the items with the same number.
use rust_miner.Base.{ℕ, zero, suc, ◌+◌, ◌-◌, ◌≤◌, ◌<◌, ◌≡◌, refl, ◌∙◌, arith, Bool-cases, inl, inr}
use rust_miner.Base.{List, [], ◌∷◌, ◌++◌, length, length-append, get_or, get_or-append_left}
use rust_miner.Base.{get_or-append_right, ◌==◌, ltb, if◌then◌else◌}
use native.Mathlib.Decide.{dec_lt}

-- How often an item occurs.
unfoldable pub count : ℕ → List ℕ → ℕ
count a [] = 0
count a (x ∷ xs) = if x == a then suc (count a xs) else count a xs

pub count-append : (a : ℕ) (xs ys : List ℕ) → count a (xs ++ ys) ≡ count a xs + count a ys
unfolding count
count-append a [] ys = omega arith
count-append a (x ∷ xs) ys = ground (arith, count-append a xs ys)

module _ (f : ℕ → ℕ) where
  unfoldable pub having : ℕ → List ℕ → List ℕ
  having d [] = []
  having d (x ∷ xs) = if f x == d then x ∷ having d xs else having d xs

  pub having-append : (d : ℕ) (xs ys : List ℕ) → having d (xs ++ ys) ≡ having d xs ++ having d ys
  unfolding having
  having-append d [] ys = refl
  having-append d (x ∷ xs) ys = ground (arith, having-append d xs ys)

  unfoldable pub buckets : ℕ → List ℕ → List ℕ
  buckets zero xs = []
  buckets (suc d) xs = buckets d xs ++ having d xs

  pub buckets_mono : (e d : ℕ) (xs : List ℕ) → d ≤ e → length (buckets d xs) ≤ length (buckets e xs)
  unfolding buckets
  buckets_mono zero zero xs h = omega arith
  buckets_mono zero (suc d) xs h = absurd (omega arith)
  buckets_mono (suc e) d xs h = elim (dec_lt e d) [
    | yes last ↦ let same : d ≡ suc e = omega arith in rw same (omega arith)
    | no below ↦
        omega (arith, buckets_mono e d xs (omega arith), length-append (buckets e xs) (having e xs))
  ]

  pub length-buckets-suc :
      (d : ℕ) (xs : List ℕ)
      → length (buckets (suc d) xs) ≡ length (buckets d xs) + length (having d xs)
  unfolding buckets
  length-buckets-suc d xs = length-append (buckets d xs) (having d xs)

  pub get_or-buckets :
      (e d i : ℕ) (xs : List ℕ)
      → d < e
      → i < length (having d xs)
      → get_or (buckets e xs) (length (buckets d xs) + i) 0 ≡ get_or (having d xs) i 0
  unfolding buckets
  get_or-buckets zero d i xs h k = absurd (omega arith)
  get_or-buckets (suc e) d i xs h k = elim (dec_lt d e) [
    | yes below ↦
        get_or-append_left (buckets e xs) (having e xs) (length (buckets d xs) + i) 0
          (omega (arith, buckets_mono e (suc d) xs (omega arith), length-buckets-suc d xs))
        ∙ get_or-buckets e d i xs below k
    | no last ↦
        let same : d ≡ e = omega arith in
        rw same (get_or-append_right (buckets e xs) (having e xs) i 0)
  ]

  -- Every position lies in one of the buckets.
  pub bucket_at :
      (e p : ℕ) (xs : List ℕ)
      → p < length (buckets e xs)
      → (d : ℕ) × (i : ℕ) × (d < e) × (i < length (having d xs)) × (p ≡ length (buckets d xs) + i)
  unfolding buckets
  bucket_at zero p xs h = absurd (omega arith)
  bucket_at (suc e) p xs h = elim (dec_lt p (length (buckets e xs))) [
    | yes below ↦ let (d, i, a, b, c) = bucket_at e p xs below in (d, i, omega arith, b, c)
    | no last ↦ (
      e,
      p - length (buckets e xs),
      omega arith,
      omega (arith, length-append (buckets e xs) (having e xs)),
      omega arith,
    )
  ]

  count-having :
      (a d : ℕ) (xs : List ℕ) → count a (having d xs) ≡ (if f a == d then count a xs else 0)
  unfolding having count
  count-having a d [] = ground arith
  count-having a d (x ∷ xs) = ground (arith, count-having a d xs)

  count_below :
      (e a : ℕ) (xs : List ℕ) → count a (buckets e xs) ≡ (if ltb (f a) e then count a xs else 0)
  unfolding buckets count
  count_below zero a xs = ground arith
  count_below (suc e) a xs =
      ground (
        arith,
        count-append a (buckets e xs) (having e xs),
        count_below e a xs,
        count-having a e xs,
      )

  -- Nothing is lost and nothing comes twice.
  pub count-buckets : (e a : ℕ) (xs : List ℕ) → f a < e → count a (buckets e xs) ≡ count a xs
  count-buckets e a xs h = ground (arith, count_below e a xs)

  length-buckets_cons :
      (e x : ℕ) (xs : List ℕ)
      → length (buckets e (x ∷ xs)) ≡ length (buckets e xs) + (if ltb (f x) e then 1 else 0)
  unfolding buckets having
  length-buckets_cons zero x xs = ground arith
  length-buckets_cons (suc e) x xs = elim (Bool-cases (f x == e)) [
    | inl same ↦ rw same (
        ground (
          arith,
          length-append (buckets e (x ∷ xs)) (x ∷ having e xs),
          length-append (buckets e xs) (having e xs),
          length-buckets_cons e x xs,
        ))
    | inr other ↦ rw other (
        ground (
          arith,
          length-append (buckets e (x ∷ xs)) (having e xs),
          length-append (buckets e xs) (having e xs),
          length-buckets_cons e x xs,
        ))
  ]

  length-buckets_nil : (e : ℕ) → length (buckets e []) ≡ 0
  unfolding buckets having
  length-buckets_nil zero = refl
  length-buckets_nil (suc e) = omega (arith, length-append (buckets e []) [], length-buckets_nil e)

  pub length-buckets :
      (e : ℕ) (xs : List ℕ) → ((x : ℕ) → f x < e) → length (buckets e xs) ≡ length xs
  length-buckets e [] h = length-buckets_nil e
  length-buckets e (x ∷ xs) h =
      ground (arith, length-buckets_cons e x xs, length-buckets e xs h, h x)

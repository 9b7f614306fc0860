-- ===== src/Base/Lists.antt =====
-- Sequences measured and indexed by native numbers, under the library's names, and membership as a
-- predicate by recursion.
use Prim.Native.Nat.{ℕ, zero, suc, ◌+◌, ◌<◌}
use mathlib.Core.Path.{◌≡◌, refl, sym, ap, ap₂}
use mathlib.Core.Logic.{◌≢◌, ◌⊎◌, inl, inr}
use mathlib.Core.Option.{Option, none, some}
use mathlib.Core.List.{List, [], ◌∷◌, ◌++◌, map}
use native.Mathlib.Omega.{arith}

module _ {ℓ} {A : Type ℓ} where
  abbrev pub length : List A → ℕ
  length [] = 0
  length (x ∷ xs) = suc (length xs)

  abbrev pub get_elem? : List A → ℕ → Option A
  get_elem? [] i = none
  get_elem? (x ∷ xs) zero = some x
  get_elem? (x ∷ xs) (suc i) = get_elem? xs i

  abbrev pub get_or : List A → ℕ → A → A
  get_or [] i d = d
  get_or (x ∷ xs) zero d = x
  get_or (x ∷ xs) (suc i) d = get_or xs i d

  -- A write out of bounds changes nothing.
  abbrev pub set : List A → ℕ → A → List A
  set [] i v = []
  set (x ∷ xs) zero v = v ∷ xs
  set (x ∷ xs) (suc i) v = x ∷ set xs i v

  abbrev pub replicate : ℕ → A → List A
  replicate zero v = []
  replicate (suc n) v = v ∷ replicate n v

  abbrev pub take : ℕ → List A → List A
  take zero xs = []
  take (suc n) [] = []
  take (suc n) (x ∷ xs) = x ∷ take n xs

  abbrev pub drop : ℕ → List A → List A
  drop zero xs = xs
  drop (suc n) [] = []
  drop (suc n) (x ∷ xs) = drop n xs

  pub length-append : (xs ys : List A) → length (xs ++ ys) ≡ length xs + length ys
  length-append [] ys = omega arith
  length-append (x ∷ xs) ys = omega (arith, length-append xs ys)

  pub length-replicate : (n : ℕ) (v : A) → length (replicate n v) ≡ n
  length-replicate zero v = refl
  length-replicate (suc n) v = ap suc (length-replicate n v)

  pub get_or-replicate : (n i : ℕ) (v : A) → get_or (replicate n v) i v ≡ v
  get_or-replicate zero i v = refl
  get_or-replicate (suc n) zero v = refl
  get_or-replicate (suc n) (suc i) v = get_or-replicate n i v

  pub length-set : (xs : List A) (i : ℕ) (v : A) → length (set xs i v) ≡ length xs
  length-set [] i v = refl
  length-set (x ∷ xs) zero v = refl
  length-set (x ∷ xs) (suc i) v = ap suc (length-set xs i v)

  pub get_or-set_self :
      (xs : List A) (i : ℕ) (v d : A) → i < length xs → get_or (set xs i v) i d ≡ v
  get_or-set_self [] i v d h = absurd (omega arith)
  get_or-set_self (x ∷ xs) zero v d h = refl
  get_or-set_self (x ∷ xs) (suc i) v d h = get_or-set_self xs i v d (omega arith)

  pub get_or-set_ne :
      (xs : List A) (i j : ℕ) (v d : A) → i ≢ j → get_or (set xs i v) j d ≡ get_or xs j d
  get_or-set_ne [] i j v d h = refl
  get_or-set_ne (x ∷ xs) zero zero v d h = absurd (h refl)
  get_or-set_ne (x ∷ xs) zero (suc j) v d h = refl
  get_or-set_ne (x ∷ xs) (suc i) zero v d h = refl
  get_or-set_ne (x ∷ xs) (suc i) (suc j) v d h = get_or-set_ne xs i j v d (λ e. h (ap suc e))

  pub get_or-append_left :
      (xs ys : List A) (i : ℕ) (d : A) → i < length xs → get_or (xs ++ ys) i d ≡ get_or xs i d
  get_or-append_left [] ys i d h = absurd (omega arith)
  get_or-append_left (x ∷ xs) ys zero d h = refl
  get_or-append_left (x ∷ xs) ys (suc i) d h = get_or-append_left xs ys i d (omega arith)

  pub get_or-append_right :
      (xs ys : List A) (i : ℕ) (d : A) → get_or (xs ++ ys) (length xs + i) d ≡ get_or ys i d
  get_or-append_right [] ys i d = ap (λ n. get_or ys n d) (omega arith)
  get_or-append_right (x ∷ xs) ys i d =
      let shift : suc (length xs) + i ≡ suc (length xs + i) = omega arith in
      rw shift (get_or-append_right xs ys i d)

  -- Two lists that agree at every index are one.
  pub eq_of_get_or :
      (xs ys : List A) (d : A)
      → length xs ≡ length ys
      → ((i : ℕ) → i < length xs → get_or xs i d ≡ get_or ys i d)
      → xs ≡ ys
  eq_of_get_or [] [] d n h = refl
  eq_of_get_or [] (y ∷ ys) d n h = absurd (omega arith)
  eq_of_get_or (x ∷ xs) [] d n h = absurd (omega arith)
  eq_of_get_or (x ∷ xs) (y ∷ ys) d n h =
      ap₂ ◌∷◌ (h 0 (omega arith))
        (eq_of_get_or xs ys d (omega arith) (λ i k. h (suc i) (omega arith)))

module _ {A : Type 0} where
  infix 40 ◌∈◌
  abbrev pub ◌∈◌ : A → List A → Type 0
  a ∈ [] = ⊥
  a ∈ (x ∷ xs) = (a ≡ x) ⊎ (a ∈ xs)

  pub mem-get_or : (xs : List A) (i : ℕ) (d : A) → i < length xs → get_or xs i d ∈ xs
  mem-get_or [] i d h = absurd (omega arith)
  mem-get_or (x ∷ xs) zero d h = inl refl
  mem-get_or (x ∷ xs) (suc i) d h = inr (mem-get_or xs i d (omega arith))

  pub index_of_mem :
      (xs : List A) (a : A) (d : A) → a ∈ xs → (i : ℕ) × (i < length xs) × (get_or xs i d ≡ a)
  index_of_mem [] a d m = absurd m
  index_of_mem (x ∷ xs) a d (inl e) = (0, omega arith, sym e)
  index_of_mem (x ∷ xs) a d (inr m) =
      let (i, h, e) = index_of_mem xs a d m in (suc i, omega arith, e)

  pub mem-append_left : (a : A) (xs ys : List A) → a ∈ xs → a ∈ (xs ++ ys)
  mem-append_left a [] ys m = absurd m
  mem-append_left a (x ∷ xs) ys (inl e) = inl e
  mem-append_left a (x ∷ xs) ys (inr m) = inr (mem-append_left a xs ys m)

  pub mem-append_right : (a : A) (xs ys : List A) → a ∈ ys → a ∈ (xs ++ ys)
  mem-append_right a [] ys m = m
  mem-append_right a (x ∷ xs) ys m = inr (mem-append_right a xs ys m)

  pub mem-append_cases : (a : A) (xs ys : List A) → a ∈ (xs ++ ys) → (a ∈ xs) ⊎ (a ∈ ys)
  mem-append_cases a [] ys m = inr m
  mem-append_cases a (x ∷ xs) ys (inl e) = inl (inl e)
  mem-append_cases a (x ∷ xs) ys (inr m) = elim (mem-append_cases a xs ys m) [
    | inl l ↦ inl (inr l)
    | inr r ↦ inr r
  ]

module _ {ℓ κ} {A : Type ℓ} {B : Type κ} where
  pub length-map : (f : A → B) (xs : List A) → length (map f xs) ≡ length xs
  length-map f [] = refl
  length-map f (x ∷ xs) = ap suc (length-map f xs)

  pub get_or-map :
      (f : A → B) (xs : List A) (i : ℕ) (d : A) (d' : B)
      → i < length xs
      → get_or (map f xs) i d' ≡ f (get_or xs i d)
  get_or-map f [] i d d' h = absurd (omega arith)
  get_or-map f (x ∷ xs) zero d d' h = refl
  get_or-map f (x ∷ xs) (suc i) d d' h = get_or-map f xs i d d' (omega arith)

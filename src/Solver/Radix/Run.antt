-- ===== src/Solver/Radix/Run.antt =====
-- src/solver/d2.rs: `equal_range` finds the run of a key in a sorted order.
use rust_miner.Base.{
  ℕ, zero, suc, ◌+◌, ◌-◌, ◌<◌, ◌≤◌, ◌≡◌, ◌↔◌, refl, sym, ap, ◌∙◌, subst, arith, inl, inr,
}
use rust_miner.Base.{List, [], ◌∷◌, length, get_or, drop, mem-get_or, Bool-cases}
use rust_miner.Base.{◌==◌, ltb, ==→≡, ==→≢, ltb→lt, ltb→le, Bool, true, false}
use native.Mathlib.Decide.{dec_lt}
use rust_miner.Solver.Radix.{partition_point, equal_range}
use rust_miner.Solver.Radix.Sorts.{Pairwise, key, Before}

module _ (test : ℕ → Bool) where
  partition_point_before :
      (xs : List ℕ) (p : ℕ) → p < partition_point test xs → test (get_or xs p 0) ≡ true
  unfolding partition_point
  partition_point_before [] p h = absurd (omega arith)
  partition_point_before (x ∷ xs) p h = elim (Bool-cases (test x)) [
    | inl holds ↦ inside p (λ q. partition_point_before xs q) holds (rw holds at h)
    | inr fails ↦ absurd (nowhere p (rw fails at h))
  ]
    where
      nowhere : (q : ℕ) → ¬ (q < 0)
      nowhere q k = omega arith

      inside :
          (q : ℕ)
          → ((r : ℕ) → r < partition_point test xs → test (get_or xs r 0) ≡ true)
          → test x ≡ true
          → q < suc (partition_point test xs)
          → test (get_or (x ∷ xs) q 0) ≡ true
      inside zero later holds k = holds
      inside (suc q) later holds k = later q (omega arith)

  partition_point_at :
      (xs : List ℕ)
      → partition_point test xs < length xs
      → test (get_or xs (partition_point test xs) 0) ≡ false
  unfolding partition_point
  partition_point_at [] h = absurd (omega arith)
  partition_point_at (x ∷ xs) h = elim (Bool-cases (test x)) [
    | inl holds ↦ rw holds (partition_point_at xs (shorter (rw holds at h)))
    | inr fails ↦ rw fails fails
  ]
    where
      shorter :
          suc (partition_point test xs) < suc (length xs) → partition_point test xs < length xs
      shorter k = omega arith

get_or-drop : (n i : ℕ) (xs : List ℕ) → get_or (drop n xs) i 0 ≡ get_or xs (n + i) 0
get_or-drop zero i xs = ap (λ k. get_or xs k 0) (omega arith)
get_or-drop (suc n) i [] = refl
get_or-drop (suc n) i (x ∷ xs) =
    let shift : suc n + i ≡ suc (n + i) = omega arith in rw shift (get_or-drop n i xs)

length-drop : (n : ℕ) (xs : List ℕ) → length (drop n xs) ≡ length xs - n
length-drop zero xs = omega arith
length-drop (suc n) [] = omega arith
length-drop (suc n) (x ∷ xs) = omega (arith, length-drop n xs)

pub Pairwise-get_or :
    (R : ℕ → ℕ → Type 0) (xs : List ℕ) (i j : ℕ)
    → Pairwise R xs
    → i < j
    → j < length xs
    → R (get_or xs i 0) (get_or xs j 0)
Pairwise-get_or R [] i j p h k = absurd (omega arith)
Pairwise-get_or R (x ∷ xs) i zero p h k = absurd (omega arith)
Pairwise-get_or R (x ∷ xs) zero (suc j) p h k = p.0 _ (mem-get_or xs j 0 (omega arith))
Pairwise-get_or R (x ∷ xs) (suc i) (suc j) p h k =
    Pairwise-get_or R xs i j p.1 (omega arith) (omega arith)

module _ (keys order : List ℕ) (wanted : ℕ) (sorted : Pairwise (Before keys) order) where
  abbrev key_at : ℕ → ℕ
  key_at p = key keys (get_or order p 0)

  key_at_mono : (p q : ℕ) → p ≤ q → q < length order → key_at p ≤ key_at q
  key_at_mono p q h k = elim (dec_lt p q) [
    | yes before ↦ elim (Pairwise-get_or (Before keys) order p q sorted before k) [
      | inl less ↦ omega arith
      | inr same ↦ omega (arith, same.0)
    ]
    | no last ↦ let it : p ≡ q = omega arith in subst (λ t. key_at p ≤ key_at t) it (omega arith)
  ]

  abbrev is_below : ℕ → Bool
  is_below index = ltb (key keys index) wanted

  abbrev is_wanted : ℕ → Bool
  is_wanted index = key keys index == wanted

  abbrev lower : ℕ
  lower = partition_point is_below order

  abbrev width : ℕ
  width = partition_point is_wanted (drop lower order)

  run_below : (p : ℕ) → p < lower → key_at p < wanted
  run_below p h = ltb→lt _ _ (partition_point_before is_below order p h)

  run_inside : (p : ℕ) → lower ≤ p → p < width + lower → key_at p ≡ wanted
  run_inside p h k =
      let place : lower + (p - lower) ≡ p = omega arith in
      ap key_at (sym place)
      ∙ ap (key keys) (sym (get_or-drop lower (p - lower) order))
      ∙ ==→≡ _ _ (partition_point_before is_wanted (drop lower order) (p - lower) (omega arith))

  run_above : (p : ℕ) → width + lower ≤ p → p < length order → wanted < key_at p
  run_above p h k = omega (
    arith,
    ltb→le _ _ (partition_point_at is_below order (omega arith)),
    key_at_mono lower (lower + width) (omega arith) (omega arith),
    key_at_mono (lower + width) p (omega arith) k,
    ==→≢ (key_at (lower + width)) wanted (other_key),
  )
    where
      other_key : (key_at (lower + width) == wanted) ≡ false
      other_key =
          ap (λ index. key keys index == wanted) (sym (get_or-drop lower width order))
          ∙ partition_point_at is_wanted (drop lower order) (omega (arith, length-drop lower order))

  -- In an order of the keys, the range of a key holds exactly the positions where that key stands.
  pub equal_range_iff :
      (p : ℕ)
      → p < length order
      → ((equal_range order keys wanted).0 ≤ p) × (p < (equal_range order keys wanted).1)
        ↔ (key keys (get_or order p 0) ≡ wanted)
  unfolding equal_range
  equal_range_iff p h = (λ r. run_inside p r.0 r.1, λ e. (from e, to e))
    where
      from : key_at p ≡ wanted → lower ≤ p
      from e = elim (dec_lt p lower) [
        | yes before ↦ absurd (omega (arith, run_below p before))
        | no other ↦ omega arith
      ]

      to : key_at p ≡ wanted → p < width + lower
      to e = elim (dec_lt p (width + lower)) [
        | yes before ↦ before
        | no other ↦ absurd (omega (arith, run_above p (omega arith) h))
      ]

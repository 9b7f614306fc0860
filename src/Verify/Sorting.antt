-- ===== src/Verify/Sorting.antt =====
-- `Proof::sorted` of src/verify.rs: what sorting a list of distinct numbers gives.
use rust_miner.Base.{ℕ, zero, suc, ◌≤◌, ◌<◌, ◌≡◌, ◌≢◌, refl, ◌∙◌, ap, none, some}
use rust_miner.Base.{
  List, [], ◌∷◌, length, get_or, arith, inl, inr, ◌⊎◌, ◌∈◌, leb, Bool-cases, subst, mem-get_or,
}
use mathlib.Core.Path.{ap₂}
use Prim.Native.Nat.{◌-◌}
use rust_miner.Verify.{sort, insert, sorted}
use rust_miner.Verify.Spec.{AscendingFrom, Distinct}

abbrev AllAbove : ℕ → List ℕ → Type 0
AllAbove a xs = (x : ℕ) → x ∈ xs → a < x

-- Strictly ascending.
abbrev pub IsAscending : List ℕ → Type 0
IsAscending [] = Unit
IsAscending (x ∷ xs) = AllAbove x xs × IsAscending xs

insert-mem : (n a : ℕ) (xs : List ℕ) → a ∈ insert n xs → (a ≡ n) ⊎ (a ∈ xs)
unfolding insert
insert-mem n a [] (inl e) = inl e
insert-mem n a [] (inr m) = absurd m
insert-mem n a (x ∷ xs) m = elim (Bool-cases (leb n x)) [
  | inl h ↦ rw h at m
  | inr h ↦ tail (rw h at m) (insert-mem n a xs)
]
  where
    tail : a ∈ (x ∷ insert n xs) → (a ∈ insert n xs → (a ≡ n) ⊎ (a ∈ xs)) → (a ≡ n) ⊎ (a ∈ (x ∷ xs))
    tail (inl e) ih = inr (inl e)
    tail (inr m') ih = elim (ih m') [ inl e ↦ inl e | inr k ↦ inr (inr k) ]

length-insert : (n : ℕ) (xs : List ℕ) → length (insert n xs) ≡ suc (length xs)
unfolding insert
length-insert n [] = refl
length-insert n (x ∷ xs) = ground (arith, length-insert n xs)

insert-IsAscending : (n : ℕ) (xs : List ℕ) → ¬ (n ∈ xs) → IsAscending xs → IsAscending (insert n xs)
unfolding insert
insert-IsAscending n [] out a = (λ x m. absurd m, tt)
insert-IsAscending n (x ∷ xs) out a = elim (Bool-cases (leb n x)) [
  | inl h ↦
      let less : n < x = let ne : n ≢ x = λ e. out (inl e) in ground arith in
      rw h (above less a.0, a)
  | inr h ↦
      let more : x < n = ground arith in
      rw h (over more a.0, insert-IsAscending n xs (λ m. out (inr m)) a.1)
]
  where
    above : n < x → AllAbove x xs → AllAbove n (x ∷ xs)
    above l up y (inl e) = omega arith
    above l up y (inr m) = let u = up y m in omega arith

    over : x < n → AllAbove x xs → AllAbove x (insert n xs)
    over l up y m = elim (insert-mem n y xs m) [ inl e ↦ omega arith | inr k ↦ up y k ]

pub sort-mem : (a : ℕ) (xs : List ℕ) → a ∈ sort xs → a ∈ xs
unfolding sort
sort-mem a [] m = m
sort-mem a (x ∷ xs) m = elim (insert-mem x a (sort xs) m) [
  | inl e ↦ inl e
  | inr k ↦ inr (sort-mem a xs k)
]

pub length-sort : (xs : List ℕ) → length (sort xs) ≡ length xs
unfolding sort
length-sort [] = refl
length-sort (x ∷ xs) = length-insert x (sort xs) ∙ ap suc (length-sort xs)

pub sort-IsAscending : (xs : List ℕ) → Distinct xs → IsAscending (sort xs)
unfolding sort
sort-IsAscending [] d = tt
sort-IsAscending (x ∷ xs) d =
    insert-IsAscending x (sort xs) (λ m. d.0 (sort-mem x xs m)) (sort-IsAscending xs d.1)

abbrev Within : List ℕ → List ℕ → Type 0
Within xs ys = (a : ℕ) → a ∈ xs → a ∈ ys

-- The head of `ys` is below what `xs` holds, so `xs` lies within the tail.
Within-tail : (y : ℕ) (xs ys : List ℕ) → AllAbove y xs → Within xs (y ∷ ys) → Within xs ys
Within-tail y xs ys up w a m = elim (w a m) [
  | inl e ↦ absurd (let u = up a m in omega arith)
  | inr k ↦ k
]

above_of_lt : (y x : ℕ) (xs : List ℕ) → y < x → AllAbove x xs → AllAbove y (x ∷ xs)
above_of_lt y x xs l up a (inl e) = omega arith
above_of_lt y x xs l up a (inr m) = let u = up a m in omega arith

length-Within :
    (xs ys : List ℕ) → IsAscending xs → IsAscending ys → Within xs ys → length xs ≤ length ys
length-Within [] ys ax ay w = omega arith
length-Within (x ∷ xs) [] ax ay w = absurd (w x (inl refl))
length-Within (x ∷ xs) (y ∷ ys) ax ay w = elim (w x (inl refl)) [
  | inl e ↦
      let up : AllAbove y xs = subst (λ k. AllAbove k xs) e ax.0 in
      omega (arith, length-Within xs ys ax.1 ay.1 (Within-tail y xs ys up (λ a m. w a (inr m))))
  | inr k ↦
      let less = ay.0 x k in
      omega (
        arith,
        length-Within (x ∷ xs) ys ax ay.1
            (Within-tail y (x ∷ xs) ys (above_of_lt y x xs less ax.0) w),
      )
]

-- Ascending lists of one length, the one within the other, are equal.
pub eq_of_Within :
    (xs ys : List ℕ)
    → IsAscending xs
    → IsAscending ys
    → Within xs ys
    → length xs ≡ length ys
    → xs ≡ ys
eq_of_Within [] [] ax ay w l = refl
eq_of_Within [] (y ∷ ys) ax ay w l = absurd (omega arith)
eq_of_Within (x ∷ xs) [] ax ay w l = absurd (omega arith)
eq_of_Within (x ∷ xs) (y ∷ ys) ax ay w l = elim (w x (inl refl)) [
  | inl e ↦
      let up : AllAbove y xs = subst (λ k. AllAbove k xs) e ax.0 in
      ap₂ (λ a l. a ∷ l) e
        (eq_of_Within xs ys ax.1 ay.1 (Within-tail y xs ys up (λ a m. w a (inr m))) (omega arith))
  | inr k ↦ absurd (
      let less = ay.0 x k in
      omega (
        arith,
        length-Within (x ∷ xs) ys ax ay.1
            (Within-tail y (x ∷ xs) ys (above_of_lt y x xs less ax.0) w),
      ))
]

-- The nonces of a proof that the verifier's order check passes.
AscendingFrom-AllAbove :
    (limit p : ℕ) (ns : List ℕ) → AscendingFrom limit (some p) ns → AllAbove p ns
AscendingFrom-AllAbove limit p [] a x m = absurd m
AscendingFrom-AllAbove limit p (n ∷ ns) a x (inl e) = let l = a.1 in omega arith
AscendingFrom-AllAbove limit p (n ∷ ns) a x (inr m) =
    let l = a.1 in omega (arith, AscendingFrom-AllAbove limit n ns a.2 x m)

AscendingFrom-tail : (limit p : ℕ) (ns : List ℕ) → AscendingFrom limit (some p) ns → IsAscending ns
AscendingFrom-tail limit p [] a = tt
AscendingFrom-tail limit p (n ∷ ns) a =
    (AscendingFrom-AllAbove limit n ns a.2, AscendingFrom-tail limit n ns a.2)

pub AscendingFrom-IsAscending :
    (limit : ℕ) (ns : List ℕ) → AscendingFrom limit none ns → IsAscending ns
AscendingFrom-IsAscending limit [] a = tt
AscendingFrom-IsAscending limit (n ∷ ns) a =
    (AscendingFrom-AllAbove limit n ns a.1, AscendingFrom-tail limit n ns a.1)

later_lt :
    (limit p : ℕ) (ns : List ℕ) (x : ℕ) → AscendingFrom limit (some p) ns → x ∈ ns → x < limit
later_lt limit p [] x a m = absurd m
later_lt limit p (n ∷ ns) x a (inl e) = let l = a.0 in omega arith
later_lt limit p (n ∷ ns) x a (inr m) = later_lt limit n ns x a.2 m

pub AscendingFrom-lt :
    (limit : ℕ) (ns : List ℕ) (x : ℕ) → AscendingFrom limit none ns → x ∈ ns → x < limit
AscendingFrom-lt limit [] x a m = absurd m
AscendingFrom-lt limit (n ∷ ns) x a (inl e) = let l = a.0 in omega arith
AscendingFrom-lt limit (n ∷ ns) x a (inr m) = later_lt limit n ns x a.1 m

-- Different places of an ascending list hold different numbers.
pub IsAscending-inj :
    (xs : List ℕ) (i j : ℕ)
    → IsAscending xs
    → i < length xs
    → j < length xs
    → get_or xs i 0 ≡ get_or xs j 0
    → i ≡ j
IsAscending-inj [] i j a li lj e = absurd (omega arith)
IsAscending-inj (x ∷ xs) zero zero a li lj e = refl
IsAscending-inj (x ∷ xs) zero (suc j) a li lj e =
    let u = a.0 (get_or xs j 0) (mem-get_or xs j 0 (omega arith)) in absurd (omega arith)
IsAscending-inj (x ∷ xs) (suc i) zero a li lj e =
    let u = a.0 (get_or xs i 0) (mem-get_or xs i 0 (omega arith)) in absurd (omega arith)
IsAscending-inj (x ∷ xs) (suc i) (suc j) a li lj e =
    ap suc (IsAscending-inj xs i j a.1 (omega arith) (omega arith) e)

pub nonces-sorted : (xs : List ℕ) → (sorted xs).nonces ≡ sort xs
unfolding sorted
nonces-sorted xs = refl

-- Ascending numbers from `p` up to `n` are at most `n - p`.
length-ascending :
    (n p : ℕ) (xs : List ℕ)
    → IsAscending xs
    → ((a : ℕ) → a ∈ xs → p ≤ a)
    → ((a : ℕ) → a ∈ xs → a < n)
    → length xs ≤ n - p
length-ascending n p [] a low high = omega arith
length-ascending n p (x ∷ xs) a low high =
    let l = low x (inl refl) in
    let h = high x (inl refl) in
    omega (arith, length-ascending n (suc x) xs a.1 a.0 (λ b m. high b (inr m)))

-- Distinct numbers below `n` are at most `n`.
pub length-Distinct :
    (n : ℕ) (xs : List ℕ) → Distinct xs → ((a : ℕ) → a ∈ xs → a < n) → length xs ≤ n
length-Distinct n xs d l = omega (
  arith,
  length-sort xs,
  length-ascending n 0 (sort xs) (sort-IsAscending xs d) (λ a m. omega arith)
      (λ a m. l a (sort-mem a xs m)),
)

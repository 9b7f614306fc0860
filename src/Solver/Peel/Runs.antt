-- ===== src/Solver/Peel/Runs.antt =====
-- Slices of lists, and the assignment of one group to many edges (src/solver/peel.rs).
use rust_miner.Base.{
  ℕ, zero, suc, ◌+◌, ◌<◌, ◌≤◌, ◌≡◌, refl, sym, ap, ◌∙◌, subst, arith, ◌⊎◌, inl, inr,
}
use rust_miner.Base.{List, [], ◌∷◌, ◌++◌, length, get_or, set, take, drop, ◌∈◌}
use rust_miner.Base.{mem-append_right, length-set, get_or-set_self}
use rust_miner.Base.{get_or-set_ne}
use native.Mathlib.Decide.{ℕ_discrete}
use rust_miner.Solver.Peel.{assign}

pub take-append-drop : (n : ℕ) (xs : List ℕ) → take n xs ++ drop n xs ≡ xs
take-append-drop zero xs = refl
take-append-drop (suc n) [] = refl
take-append-drop (suc n) (x ∷ xs) = ap (λ l. x ∷ l) (take-append-drop n xs)

pub mem-drop : (n e : ℕ) (xs : List ℕ) → e ∈ drop n xs → e ∈ xs
mem-drop n e xs m =
    subst (λ l. e ∈ l) (take-append-drop n xs) (mem-append_right e (take n xs) (drop n xs) m)

pub length-drop_le : (n : ℕ) (xs : List ℕ) → length (drop n xs) ≤ length xs
length-drop_le zero xs = omega arith
length-drop_le (suc n) [] = omega arith
length-drop_le (suc n) (x ∷ xs) = omega (arith, length-drop_le n xs)

pub drop-append : (xs ys : List ℕ) → drop (length xs) (xs ++ ys) ≡ ys
drop-append [] ys = refl
drop-append (x ∷ xs) ys = drop-append xs ys

pub take_all : (xs : List ℕ) → take (length xs) xs ≡ xs
take_all [] = refl
take_all (x ∷ xs) = ap (λ l. x ∷ l) (take_all xs)

-- A slice within a list is one of every longer list.
take-append : (n : ℕ) (xs ys : List ℕ) → n ≤ length xs → take n (xs ++ ys) ≡ take n xs
take-append zero xs ys h = refl
take-append (suc n) [] ys h = absurd (omega arith)
take-append (suc n) (x ∷ xs) ys h = ap (λ l. x ∷ l) (take-append n xs ys (omega arith))

pub slice-append :
    (b n : ℕ) (xs ys : List ℕ) → b + n ≤ length xs → take n (drop b (xs ++ ys)) ≡ take n (drop b xs)
slice-append zero n xs ys h = take-append n xs ys (omega arith)
slice-append (suc b) n [] ys h = absurd (omega arith)
slice-append (suc b) n (x ∷ xs) ys h = slice-append b n xs ys (omega arith)

pub length-slice : (b n : ℕ) (xs : List ℕ) → b + n ≤ length xs → length (take n (drop b xs)) ≡ n
length-slice zero zero xs h = refl
length-slice zero (suc n) [] h = absurd (omega arith)
length-slice zero (suc n) (x ∷ xs) h = ap suc (length-slice zero n xs (omega arith))
length-slice (suc b) zero [] h = refl
length-slice (suc b) (suc n) [] h = absurd (omega arith)
length-slice (suc b) n (x ∷ xs) h = length-slice b n xs (omega arith)

pub length-assign : (group : ℕ) (edges to : List ℕ) → length (assign group edges to) ≡ length to
unfolding assign
length-assign group [] to = refl
length-assign group (x ∷ edges) to =
    length-assign group edges (set to x group) ∙ length-set to x group

pub assign_other :
    (group e : ℕ) (edges to : List ℕ)
    → ¬ (e ∈ edges)
    → get_or (assign group edges to) e 0 ≡ get_or to e 0
unfolding assign
assign_other group e [] to h = refl
assign_other group e (x ∷ edges) to h =
    assign_other group e edges (set to x group) (λ m. h (inr m))
    ∙ get_or-set_ne to x e group 0 (λ s. h (inl (sym s)))

pub assign_self :
    (group e : ℕ) (edges to : List ℕ)
    → e < length to
    → (e ∈ edges) ⊎ (get_or to e 0 ≡ group)
    → get_or (assign group edges to) e 0 ≡ group
unfolding assign
assign_self group e [] to h (inl m) = absurd m
assign_self group e [] to h (inr s) = s
assign_self group e (x ∷ edges) to h k =
    assign_self group e edges (set to x group) (omega (arith, length-set to x group)) (or_set k)
  where
    was_set : x ≡ e → get_or (set to x group) e 0 ≡ group
    was_set s =
        subst (λ t. get_or (set to t group) e 0 ≡ group) (sym s) (get_or-set_self to e group 0 h)

    or_set :
        (e ∈ (x ∷ edges)) ⊎ (get_or to e 0 ≡ group)
        → (e ∈ edges) ⊎ (get_or (set to x group) e 0 ≡ group)
    or_set (inl (inl s)) = inr (was_set (sym s))
    or_set (inl (inr m)) = inl m
    or_set (inr s) = elim (ℕ_discrete x e) [
      | yes it ↦ inr (was_set it)
      | no other ↦ inr (get_or-set_ne to x e group 0 other ∙ s)
    ]

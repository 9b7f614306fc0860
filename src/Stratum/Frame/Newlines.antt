-- ===== src/Stratum/Frame/Newlines.antt =====
-- The first newline of bytes that are joined, and the bytes before and behind it, for `read_frame` of
-- src/stratum.rs.
use rust_miner.Base.{
  ℕ, zero, suc, ◌+◌, ◌≤◌, ◌<◌, ◌≡◌, refl, sym, ◌∙◌, ap, inl, inr, Option, none, some, List, [],
}
use rust_miner.Base.{◌∷◌, ◌++◌, length, take, drop, ◌==◌, Bool-cases, none≢some, some_inj, arith}
use rust_miner.Stratum.Frame.{further, newline_at, pop}

further-further : (n : ℕ) (r : Option ℕ) → further 1 (further n r) ≡ further (suc n) r
further-further n none = refl
further-further n (some k) = let e : 1 + (n + k) ≡ suc n + k = omega arith in ap some e

further_zero : (r : Option ℕ) → r ≡ further 0 r
further_zero none = refl
further_zero (some k) = let e : k ≡ 0 + k = omega arith in ap some e

further-none : (r : Option ℕ) → further 1 r ≡ none → r ≡ none
further-none none h = refl
further-none (some k) h = absurd (none≢some (sym h))

pub newline_at-append_none :
    (a b : List ℕ) → newline_at a ≡ none → newline_at (a ++ b) ≡ further (length a) (newline_at b)
unfolding newline_at
newline_at-append_none [] b e = further_zero (newline_at b)
newline_at-append_none (x ∷ a) b e = elim (Bool-cases (x == 10)) [
  | inl here ↦ absurd (none≢some (sym (rw here at e)))
  | inr other ↦ rw other (
      ap (further 1) (newline_at-append_none a b (further-none (newline_at a) (rw other at e)))
      ∙ further-further (length a) (newline_at b))
]

further-some : (r : Option ℕ) (p : ℕ) → further 1 r ≡ some p → (k : ℕ) × (r ≡ some k) × (1 + k ≡ p)
further-some none p h = absurd (none≢some h)
further-some (some k) p h = (k, refl, some_inj h)

pub newline_at-append_some :
    (a b : List ℕ) (p : ℕ) → newline_at a ≡ some p → (newline_at (a ++ b) ≡ some p) × (p < length a)
unfolding newline_at
newline_at-append_some [] b p e = absurd (none≢some e)
newline_at-append_some (x ∷ a) b p e = elim (Bool-cases (x == 10)) [
  | inl here ↦
      let first : some 0 ≡ some p = rw here at e in
      let z : 0 ≡ p = some_inj first in rw here (first, omega arith)
  | inr other ↦
      let (k, q, z) = further-some (newline_at a) p (rw other at e) in
      let (same, l) = newline_at-append_some a b k q in
      rw other (ap (further 1) same ∙ ap some z, omega arith)
]

take-append_add :
    (frame ys : List ℕ) (p : ℕ) → take (length frame + p) (frame ++ ys) ≡ frame ++ take p ys
take-append_add [] ys p = let e : 0 + p ≡ p = omega arith in ap (λ n. take n ys) e
take-append_add (x ∷ xs) ys p =
    let e : suc (length xs) + p ≡ suc (length xs + p) = omega arith in
    ap (λ n. take n (x ∷ xs ++ ys)) e ∙ ap (λ zs. x ∷ zs) (take-append_add xs ys p)

drop-append_add : (frame ys : List ℕ) (p : ℕ) → drop (length frame + p) (frame ++ ys) ≡ drop p ys
drop-append_add [] ys p = let e : 0 + p ≡ p = omega arith in ap (λ n. drop n ys) e
drop-append_add (x ∷ xs) ys p =
    let e : suc (length xs) + p ≡ suc (length xs + p) = omega arith in
    ap (λ n. drop n (x ∷ xs ++ ys)) e ∙ drop-append_add xs ys p

take-append_le : (xs ys : List ℕ) (p : ℕ) → p ≤ length xs → take p (xs ++ ys) ≡ take p xs
take-append_le xs ys zero l = refl
take-append_le [] ys (suc p) l = absurd (omega arith)
take-append_le (x ∷ xs) ys (suc p) l = ap (λ zs. x ∷ zs) (take-append_le xs ys p (omega arith))

drop-append_le : (xs ys : List ℕ) (p : ℕ) → p ≤ length xs → drop p (xs ++ ys) ≡ drop p xs ++ ys
drop-append_le xs ys zero l = refl
drop-append_le [] ys (suc p) l = absurd (omega arith)
drop-append_le (x ∷ xs) ys (suc p) l = drop-append_le xs ys p (omega arith)

pop-append : (xs : List ℕ) (y : ℕ) (ys : List ℕ) → pop (xs ++ y ∷ ys) ≡ xs ++ pop (y ∷ ys)
unfolding pop
pop-append [] y ys = refl
pop-append (x ∷ []) y ys = refl
pop-append (x ∷ x' ∷ xs) y ys = ap (λ zs. x ∷ zs) (pop-append (x' ∷ xs) y ys)

pop-take : (xs : List ℕ) (p : ℕ) → p < length xs → pop (take (suc p) xs) ≡ take p xs
unfolding pop
pop-take [] p l = absurd (omega arith)
pop-take (x ∷ xs) zero l = refl
pop-take (x ∷ []) (suc p) l = absurd (omega arith)
pop-take (x ∷ y ∷ ys) (suc p) l = ap (λ zs. x ∷ zs) (pop-take (y ∷ ys) p (omega arith))

pub take-newline :
    (frame chunk more : List ℕ) (p : ℕ)
    → p < length chunk
    → take (length frame + p) (frame ++ (chunk ++ more)) ≡ pop (frame ++ take (p + 1) chunk)
take-newline frame [] more p l = absurd (omega arith)
take-newline frame (c ∷ cs) more p l =
    let e : p + 1 ≡ suc p = omega arith in
    take-append_add frame (c ∷ cs ++ more) p
    ∙ ap (λ zs. frame ++ zs)
        (take-append_le (c ∷ cs) more p (omega arith) ∙ sym (pop-take (c ∷ cs) p l))
    ∙ sym (pop-append frame c (take p cs))
    ∙ ap (λ n. pop (frame ++ take n (c ∷ cs))) (sym e)

pub drop-newline :
    (frame chunk more : List ℕ) (p : ℕ)
    → p < length chunk
    → drop (length frame + p + 1) (frame ++ (chunk ++ more)) ≡ drop (p + 1) chunk ++ more
drop-newline frame chunk more p l =
    let e : length frame + p + 1 ≡ length frame + (p + 1) = omega arith in
    ap (λ n. drop n (frame ++ (chunk ++ more))) e
    ∙ drop-append_add frame (chunk ++ more) (p + 1)
    ∙ drop-append_le chunk more (p + 1) (omega arith)

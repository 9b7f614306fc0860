-- ===== src/Verify/Walk.antt =====
-- The walk of src/verify.rs succeeds exactly on a tour of all the edges.
use rust_miner.Base.{ℕ, zero, suc, ◌+◌, ◌<◌, ◌≡◌, ◌≢◌, refl, sym, ◌∙◌, ap, inl, inr, arith}
use rust_miner.Base.{Bool, true, false, true≢false, Bool-cases, subst}
use rust_miner.Base.{List, [], ◌∷◌, length, get_or, set, replicate, ◌∈◌, ok}
use rust_miner.Base.{length-set, get_or-set_self, get_or-set_ne}
use rust_miner.Verify.{Side, u_side, v_side, other, at, walk, all_true}
use rust_miner.Verify.Spec.{IsMate, Tour, Distinct}
use rust_miner.Verify.Mates.{AreMates}

-- The flags that are still false.
abbrev pub unseen : List Bool → ℕ
unseen [] = 0
unseen (false ∷ bs) = suc (unseen bs)
unseen (true ∷ bs) = unseen bs

-- Marking an edge that is not yet visited leaves one fewer.
unseen-set :
    (visited : List Bool) (index : ℕ)
    → get_or visited index false ≡ false
    → index < length visited
    → unseen visited ≡ suc (unseen (set visited index true))
unseen-set (seen ∷ rest) zero fresh l = rw fresh
unseen-set (true ∷ rest) (suc index) fresh l = unseen-set rest index fresh (omega arith)
unseen-set (false ∷ rest) (suc index) fresh l = ap suc (unseen-set rest index fresh (omega arith))
unseen-set [] index fresh l = absurd (omega arith)

all_true_of_unseen : (bs : List Bool) → unseen bs ≡ 0 → all_true bs ≡ true
all_true_of_unseen [] h = refl
all_true_of_unseen (false ∷ bs) h = absurd (omega arith)
all_true_of_unseen (true ∷ bs) h = all_true_of_unseen bs h

pub unseen-replicate : (n : ℕ) → unseen (replicate n false) ≡ n
unseen-replicate zero = refl
unseen-replicate (suc n) = ap suc (unseen-replicate n)

abbrev pub AreUnseen : List Bool → List ℕ → Type 0
AreUnseen visited tour = (j : ℕ) → j ∈ tour → get_or visited j false ≡ false

module _ (visited : List Bool) (i : ℕ) (l : i < length visited) where
  seen_self : get_or (set visited i true) i false ≡ true
  seen_self = get_or-set_self visited i true false l

  not-mem_seen : (tour : List ℕ) → AreUnseen (set visited i true) tour → ¬ (i ∈ tour)
  not-mem_seen tour u m = true≢false (sym seen_self ∙ u i m)

  AreUnseen-cons :
      (tour : List ℕ)
      → get_or visited i false ≡ false
      → AreUnseen (set visited i true) tour
      → AreUnseen visited (i ∷ tour)
  AreUnseen-cons tour fresh u j (inl e) = rw e fresh
  AreUnseen-cons tour fresh u j (inr m) =
      let ne : i ≢ j =
        λ e. true≢false (sym seen_self ∙ ap (λ k. get_or (set visited i true) k false) e ∙ u j m) in
      sym (get_or-set_ne visited i j true false ne) ∙ u j m

AreUnseen-tail :
    (visited : List Bool) (i : ℕ) (tour : List ℕ)
    → ¬ (i ∈ tour)
    → AreUnseen visited (i ∷ tour)
    → AreUnseen (set visited i true) tour
AreUnseen-tail visited i tour out u j m =
    let ne : i ≢ j = λ e. out (subst (λ k. k ∈ tour) (sym e) m) in
    get_or-set_ne visited i j true false ne ∙ u j (inr m)

module _ (endpoints mates : List (ℕ × ℕ)) (size : length mates ≡ length endpoints)
    (rows : AreMates endpoints 0 mates) where
  abbrev step : ℕ → Side → ℕ
  step index side = at side (get_or mates index (0, 0))

  step-IsMate :
      (index : ℕ) (side : Side)
      → index < length endpoints
      → IsMate endpoints side index (step index side)
  step-IsMate index side l =
      let q : 0 + index ≡ index = omega arith in
      subst (λ k. IsMate endpoints side k (step index side)) q (rows index side (omega arith)).0

  step_only :
      (index : ℕ) (side : Side) (m : ℕ)
      → index < length endpoints
      → IsMate endpoints side index m
      → m ≡ step index side
  step_only index side m l h =
      let q : 0 + index ≡ index = omega arith in (rows index side (omega arith)).1 m (rw q h)

  pub record Toured (n : ℕ) (visited : List Bool) (index : ℕ) (side : Side) : Type 0 where
    pub tour : List ℕ
    pub rounds : length tour ≡ n
    pub distinct : Distinct tour
    pub fresh : AreUnseen visited tour
    pub closed : Tour endpoints side index tour

  pub walk_sound :
      (n : ℕ) (visited : List Bool) (index : ℕ) (side : Side)
      → length visited ≡ length endpoints
      → index < length endpoints
      → walk n mates visited index side ≡ ok tt
      → Toured n visited index side
  unfolding walk
  walk_sound zero visited index side lv li h = record {
    tour = [];
    rounds = refl;
    distinct = tt;
    fresh = λ j m. absurd m;
    closed = ends index side h;
  }
    where
      ends :
          (index : ℕ) (side : Side)
          → walk zero mates visited index side ≡ ok tt
          → (index ≡ 0) × (side ≡ u_side)
      ends index u_side h = (ground arith, refl)
      ends index v_side h = absurd (ground arith)
  walk_sound (suc n) visited index side lv li h = elim (Bool-cases (get_or visited index false)) [
    | inl e ↦ absurd (ground arith)
    | inr e ↦
        let lv' = length-set visited index true ∙ lv in
        let mate = step-IsMate index side li in
        let rest =
          walk_sound n (set visited index true) (step index side) (other side) lv' mate.in_range
            (rw e at h) in
        let in_visited : index < length visited = omega arith in
        record {
          tour = index ∷ rest.tour;
          rounds = ap suc rest.rounds;
          distinct = (not-mem_seen visited index in_visited rest.tour rest.fresh, rest.distinct);
          fresh = AreUnseen-cons visited index in_visited rest.tour e rest.fresh;
          closed = (refl, (step index side, mate, rest.closed));
        }
  ]

  pub walk_complete :
      (tour : List ℕ) (visited : List Bool) (index : ℕ) (side : Side)
      → length visited ≡ length endpoints
      → index < length endpoints
      → Distinct tour
      → AreUnseen visited tour
      → unseen visited ≡ length tour
      → Tour endpoints side index tour
      → walk (length tour) mates visited index side ≡ ok tt
  unfolding walk
  walk_complete [] visited index side lv li d u c (at_start, on_u) =
      rw (at_start, on_u, all_true_of_unseen visited c)
  walk_complete (j ∷ js) visited index side lv li d u c (here, (m, mate, rest)) =
      let fresh = u index (inl here) in
      let same = step_only index side m li mate in
      let out : ¬ (index ∈ js) = subst (λ k. ¬ (k ∈ js)) (sym here) d.0 in
      let u' : AreUnseen visited (index ∷ js) =
        subst (λ k. AreUnseen visited (k ∷ js)) (sym here) u in
      rw (fresh, ← same)
        (walk_complete js (set visited index true) m (other side)
          (length-set visited index true ∙ lv) mate.in_range d.1
          (AreUnseen-tail visited index js out u')
          (omega (arith, unseen-set visited index fresh (omega arith))) rest)

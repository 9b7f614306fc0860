-- ===== src/Solver/Peel/Returns.antt =====
-- src/solver/peel.rs: the queue of `peel_two_core` runs empty, since no group enters it twice.
use rust_miner.Base.{
  ℕ, zero, suc, ◌+◌, ◌-◌, ◌<◌, ◌≤◌, ◌^◌, ◌≡◌, ◌≢◌, refl, sym, ap, ◌∙◌, subst, arith, ◌⊎◌, inl, inr,
}
use rust_miner.Base.{
  List, [], ◌∷◌, ◌++◌, length, get_or, set, ◌∈◌, mem-append_cases, Option, none, some, none≢some,
}
use rust_miner.Base.{
  length-append, length-replicate, length-set, get_or-set_ne, replicate, get_or-replicate,
  if◌then◌else◌, ltb,
}
use rust_miner.Base.{◌==◌, Bool-cases, Bool, true, false}
use rust_miner.Solver.{GraphParams}
use rust_miner.Solver.Peel.{
  Core, Peeling, mate_at, edges_of, group_count, enqueue_mate, lose_one, kill, kill_all, lacks_mate,
  step_queue, seed, drain, start_peeling, peel_two_core, as_ok, survivors_in,
}
use rust_miner.Solver.Peel.Mates.{IsCore, edge_groups, in_left, in_right, mate_at-lt}
use rust_miner.Solver.Peel.Keeps.{core_of-IsCore}

-- The groups that have never been in the queue.
unqueued : List Bool → ℕ
unqueued [] = 0
unqueued (q ∷ qs) = (if q then 0 else 1) + unqueued qs

unqueued-le : (qs : List Bool) → unqueued qs ≤ length qs
unfolding unqueued
unqueued-le [] = omega arith
unqueued-le (q ∷ qs) = ground (arith, unqueued-le qs)

unqueued-set :
    (qs : List Bool) (i : ℕ)
    → i < length qs
    → get_or qs i false ≡ false
    → suc (unqueued (set qs i true)) ≡ unqueued qs
unfolding unqueued
unqueued-set [] i h e = absurd (omega arith)
unqueued-set (q ∷ qs) zero h e = rw e (omega arith)
unqueued-set (q ∷ qs) (suc i) h e = omega (arith, unqueued-set qs i (omega arith) e)

module _ (left right : List ℕ) (core : Core) (c : IsCore left right core) where
  -- `left_over` bounds the groups in the queue and those that may still enter it.
  record Fits (left_over : ℕ) (s : Peeling) : Type 0 where
    sized : length s.queued ≡ group_count core
    bounded : (g : ℕ) → g ∈ s.queue → g < group_count core
    enough : length s.queue + unqueued s.queued ≤ left_over

  pushed :
      (n g : ℕ) (s : Peeling)
      → g < group_count core
      → get_or s.queued g false ≡ false
      → Fits n s
      → Fits n (record s { queued = set s.queued g true; queue = s.queue ++ g ∷ [] })
  pushed n g s h new p = record {
    sized = length-set s.queued g true ∙ p.sized;
    bounded = λ j m. in_queue j (mem-append_cases j s.queue (g ∷ []) m);
    enough = omega (
      arith,
      length-append s.queue (g ∷ []),
      unqueued-set s.queued g (omega (arith, p.sized)) new,
      p.enough,
    );
  }
    where
      in_queue : (j : ℕ) → (j ∈ s.queue) ⊎ (j ∈ (g ∷ [])) → j < group_count core
      in_queue j (inl m) = p.bounded j m
      in_queue j (inr (inl q)) = omega arith
      in_queue j (inr (inr m)) = absurd m

  enqueue_mate-Fits :
      (n g : ℕ) (s : Peeling) (o : Option ℕ)
      → g < group_count core
      → mate_at core g ≡ o
      → Fits n s
      → Fits n (enqueue_mate core o s)
  enqueue_mate-Fits n g s none h e p = p
  enqueue_mate-Fits n g s (some m) h e p = elim (Bool-cases (get_or s.queued m false)) [
    | inl old ↦ rw old p
    | inr new ↦ rw new (pushed n m s (mate_at-lt left right core c g h m e) new p)
  ]

  lose_one-Fits :
      (n g : ℕ) (s : Peeling) → g < group_count core → Fits n s → Fits n (lose_one core g s)
  unfolding lose_one
  lose_one-Fits n g s h p = elim (Bool-cases (get_or s.live_count g 0 - 1 == 0)) [
    | inl empty ↦ rw empty (enqueue_mate-Fits n g _ (mate_at core g) h refl same)
    | inr more ↦ rw more same
  ]
    where
      same : Fits n (record s { live_count = set s.live_count g (get_or s.live_count g 0 - 1) })
      same = record { sized = p.sized; bounded = p.bounded; enough = p.enough }

  kill-Fits : (n e : ℕ) (s : Peeling) → e < length left → Fits n s → Fits n (kill core e s)
  unfolding kill
  kill-Fits n e s h p = elim (Bool-cases (get_or s.alive e false)) [
    | inl lives ↦ rw lives (
        lose_one-Fits n _ _ (in_right left right core c e h).2 (
          lose_one-Fits n _ _ (omega (arith, (in_left left right core c e h).1))
            (record { sized = p.sized; bounded = p.bounded; enough = p.enough })))
    | inr dead ↦ rw dead p
  ]

  kill_all-Fits :
      (n : ℕ) (es : List ℕ) (s : Peeling)
      → ((e : ℕ) → e ∈ es → e < length left)
      → Fits n s
      → Fits n (kill_all core es s)
  unfolding kill_all
  kill_all-Fits n [] s h p = p
  kill_all-Fits n (e ∷ es) s h p =
      kill_all-Fits n es (kill core e s) (λ x m. h x (inr m)) (kill-Fits n e s (h e (inl refl)) p)

  front :
      (q : List ℕ) (n : ℕ) (s : Peeling) (rest : Peeling → Option Peeling)
      → s.queue ≡ q
      → Fits n s
      → ((g : ℕ) (q' : List ℕ)
          → q ≡ g ∷ q'
          → (s' : Peeling) → Fits (n - 1) s'
          → 0 < n
          → rest s' ≢ none)
      → step_queue core q s rest ≢ none
  front [] n s rest e p go = λ h. none≢some (sym h)
  front (g ∷ q) n s rest e p go =
      go g q refl _
        (kill_all-Fits (n - 1) (edges_of core g) (record s { queue = q })
          (λ x m. (edge_groups left right core c g (bound g (inl refl)) x m).0) popped)
        positive
    where
      bound : (j : ℕ) → j ∈ (g ∷ q) → j < group_count core
      bound j m = p.bounded j (subst (λ l. j ∈ l) (sym e) m)

      positive : 0 < n
      positive = omega (arith, p.enough, ap length e)

      popped : Fits (n - 1) (record s { queue = q })
      popped = record {
        sized = p.sized;
        bounded = λ j m. bound j (inr m);
        enough = omega (arith, p.enough, ap length e);
      }

  drain-ne-none : (fuel : ℕ) (s : Peeling) → Fits fuel s → drain core fuel s ≢ none
  unfolding drain
  drain-ne-none zero s p =
      front s.queue zero s (λ s'. none) refl p (λ g q e s' p' h. absurd (omega arith))
  drain-ne-none (suc fuel) s p =
      front s.queue (suc fuel) s (drain core fuel) refl p (λ g q e s' p' h.
        let n : suc fuel - 1 ≡ fuel = omega arith in
        drain-ne-none fuel s' (subst (λ k. Fits k s') n p'))

  seed-Fits :
      (n group left_groups : ℕ) (s : Peeling)
      → group + left_groups ≤ group_count core
      → ((j : ℕ) → group ≤ j → get_or s.queued j false ≡ false)
      → Fits n s
      → Fits n (seed core group left_groups s)
  unfolding seed
  seed-Fits n group zero s h new p = p
  seed-Fits n group (suc m) s h new p =
      elim (Bool-cases (lacks_mate core s.live_count (mate_at core group))) [
        | inl lonely ↦ rw lonely (
            seed-Fits n (suc group) m _ (omega arith)
              (λ j k. get_or-set_ne s.queued group j true false (omega arith) ∙ new j (omega arith))
              (pushed n group s (omega arith) (new group (omega arith)) p))
        | inr paired ↦
            rw paired (seed-Fits n (suc group) m s (omega arith) (λ j k. new j (omega arith)) p)
      ]

  pub peeling-ne-none :
      (n : ℕ)
      → drain core (group_count core) (seed core 0 (group_count core) (start_peeling core n)) ≢ none
  unfolding start_peeling
  peeling-ne-none n = drain-ne-none (group_count core) _ (
      seed-Fits (group_count core) 0 (group_count core) (start_peeling core n) (omega arith)
        (λ j h. get_or-replicate (group_count core) j false) start-Fits)
    where
      start-Fits : Fits (group_count core) (start_peeling core n)
      start-Fits = record {
        sized = length-replicate (group_count core) false;
        bounded = λ g m. absurd m;
        enough = omega (
          arith,
          unqueued-le (replicate (group_count core) false),
          length-replicate {A = Bool} (group_count core) false,
        );
      }

-- `peel_two_core` always returns: within 32 edge bits, as many rounds as there are groups empty the
-- queue.
pub peel_two_core-returns :
    (request : GraphParams) (survivors : List ℕ)
    → request.edge_bits ≤ 32
    → peel_two_core request survivors ≢ none
unfolding peel_two_core
peel_two_core-returns request survivors bits =
    elim (Bool-cases (ltb (2 ^ 32 - 1) (length survivors))) [
      | inl over ↦ rw over (λ h. none≢some (sym h))
      | inr fits ↦ elim (Bool-cases (length survivors == 0)) [
        | inl empty ↦ rw (fits, empty) (λ h. none≢some (sym h))
        | inr some_left ↦
            rw (fits, some_left)
              (returned _
                (peeling-ne-none _ _ _ (core_of-IsCore request survivors bits) (length survivors)))
      ]
    ]
  where
    returned : (o : Option Peeling) → o ≢ none → as_ok (survivors_in survivors o) ≢ none
    returned none h e = h refl
    returned (some s) h e = none≢some (sym e)

-- ===== src/Solver/Peel/Drains.antt =====
-- src/solver/peel.rs: the loop over the queue keeps edges that are mated with each other.
use rust_miner.Base.{
  ℕ, zero, suc, ◌+◌, ◌<◌, ◌≤◌, ◌≡◌, refl, sym, ap, ◌∙◌, subst, arith, ◌⊎◌, inl, inr,
}
use rust_miner.Base.{
  List, [], ◌∷◌, ◌++◌, length, get_or, set, ◌∈◌, mem-append_cases, Option, none, some, some_inj,
  none≢some,
}
use rust_miner.Base.{length-replicate, replicate}
use rust_miner.Base.{==→≡, Bool-cases, true, false}
use rust_miner.Solver.Radix.Buckets.{count}
use rust_miner.Solver.Peel.{
  Core, Peeling, mate_at, edges_of, group_count, lacks_mate, step_queue, seed, drain, start_peeling,
}
use rust_miner.Solver.Peel.Mates.{AreMated, IsCore, edge_groups, group_mate, length-live, live_at}
use rust_miner.Solver.Peel.Loses.{alive_in-le, alive_in_pos, IsFree, IsSafe, kill_all-IsSafe}

get_or-replicate_lt : (n i : ℕ) → i < n → get_or (replicate n true) i false ≡ true
get_or-replicate_lt zero i h = absurd (omega arith)
get_or-replicate_lt (suc n) zero h = refl
get_or-replicate_lt (suc n) (suc i) h = get_or-replicate_lt n i (omega arith)

module _ (left right : List ℕ) (core : Core) (c : IsCore left right core) (M : ℕ → Type 0)
    (a : AreMated M left) (b : AreMated M right) where
  abbrev Safe : Peeling → Type 0
  Safe s = IsSafe left right core c M a b [] s

  -- The group in front is taken, and its edges die.
  after_queue :
      (q : List ℕ) (s t : Peeling) (rest : Peeling → Option Peeling)
      → s.queue ≡ q
      → Safe s
      → step_queue core q s rest ≡ some t
      → ((s' : Peeling) → Safe s' → rest s' ≡ some t → Safe t)
      → Safe t
  after_queue [] s t rest e p h go = subst Safe (some_inj h) p
  after_queue (g ∷ q) s t rest e p h go =
      go _
        (kill_all-IsSafe left right core c M a b (edges_of core g) (record s { queue = q }) dies
          popped)
        h
    where
      member : (j : ℕ) → j ∈ (g ∷ q) → (j < group_count core) × IsFree left right core c M a b j
      member j m = p.waiting j (subst (λ l. j ∈ l) (sym e) m)

      popped : Safe (record s { queue = q })
      popped = record {
        living = p.living;
        counted = p.counted;
        waiting = λ j m. member j (inr m);
        counts = p.counts;
        edges = p.edges;
      }

      dies : (x : ℕ) → x ∈ edges_of core g → (x < length left) × (¬ M x)
      dies x i =
          let (lt, free) = member g (inl refl) in
          ((edge_groups left right core c g lt x i).0, λ k. free x k i)

  drain-Safe : (fuel : ℕ) (s t : Peeling) → Safe s → drain core fuel s ≡ some t → Safe t
  unfolding drain
  drain-Safe zero s t p e =
      after_queue s.queue s t (λ s'. none) refl p e (λ s' p' e'. absurd (none≢some e'))
  drain-Safe (suc fuel) s t p e =
      after_queue s.queue s t (drain core fuel) refl p e (λ s' p' e'. drain-Safe fuel s' t p' e')

  -- A group without a live mate has no edge of the set.
  lonely-IsFree :
      (g : ℕ) (s : Peeling)
      → g < group_count core
      → Safe s
      → lacks_mate core s.live_count (mate_at core g) ≡ true
      → IsFree left right core c M a b g
  lonely-IsFree g s h p lonely e k i =
      let (m, mate, lt, e', k', i') = group_mate left right core c M a b g h e k i in
      let none_left : get_or s.live_count m 0 ≡ 0 =
        ==→≡ _ _ (ap (lacks_mate core s.live_count) (sym mate) ∙ lonely) in
      omega (arith, p.counted m lt, alive_in_pos s.alive e' (edges_of core m) i' (p.living e' k'))

  seeded :
      (g : ℕ) (s : Peeling)
      → g < group_count core
      → Safe s
      → lacks_mate core s.live_count (mate_at core g) ≡ true
      → Safe (record s { queued = set s.queued g true; queue = s.queue ++ g ∷ [] })
  seeded g s h p lonely = record {
    living = p.living;
    counted = p.counted;
    waiting = λ j m. waits j (mem-append_cases j s.queue (g ∷ []) m);
    counts = p.counts;
    edges = p.edges;
  }
    where
      waits :
          (j : ℕ)
          → (j ∈ s.queue) ⊎ (j ∈ (g ∷ []))
          → (j < group_count core) × IsFree left right core c M a b j
      waits j (inl m) = p.waiting j m
      waits j (inr (inl q)) =
          subst (λ t. (t < group_count core) × IsFree left right core c M a b t) (sym q)
            (h, lonely-IsFree g s h p lonely)
      waits j (inr (inr m)) = absurd m

  seed-Safe :
      (group n : ℕ) (s : Peeling)
      → group + n ≤ group_count core
      → Safe s
      → Safe (seed core group n s)
  unfolding seed
  seed-Safe group zero s h p = p
  seed-Safe group (suc n) s h p =
      elim (Bool-cases (lacks_mate core s.live_count (mate_at core group))) [
        | inl lonely ↦
            rw lonely
              (seed-Safe (suc group) n _ (omega arith) (seeded group s (omega arith) p lonely))
        | inr paired ↦ rw paired (seed-Safe (suc group) n s (omega arith) p)
      ]

  start-Safe : Safe (start_peeling core (length left))
  unfolding start_peeling
  start-Safe = record {
    living = λ e k. get_or-replicate_lt (length left) e (a.ranged e k);
    counted = λ g h. omega (
      arith,
      live_at left right core c g h,
      alive_in-le (replicate (length left) true) (edges_of core g),
      unowed g,
    );
    waiting = λ g m. absurd m;
    counts = length-live left right core c;
    edges = length-replicate (length left) true;
  }
    where
      unowed : (g : ℕ) → count g [] ≡ 0
      unowed g = unfold count in refl

  -- The search for edges without a mate ends with every edge of the set alive.
  pub peeling-keeps :
      (t : Peeling)
      → drain core
          (group_count core)
          (seed core 0 (group_count core) (start_peeling core (length left)))
        ≡ some t
      → (e : ℕ) → M e
      → get_or t.alive e false ≡ true
  peeling-keeps t h =
      let p =
        drain-Safe (group_count core) _ t
          (seed-Safe 0 (group_count core) _ (omega arith) start-Safe) h in
      p.living

-- ===== src/Solver/Peel/Loses.antt =====
-- src/solver/peel.rs: the loops over the queue take no edge of a set whose edges have mates in it.
use rust_miner.Base.{
  ℕ, suc, ◌+◌, ◌-◌, ◌<◌, ◌≤◌, ◌≡◌, ◌≢◌, refl, sym, ◌∙◌, subst, arith, ◌⊎◌, inl, inr,
}
use rust_miner.Base.{List, [], ◌∷◌, length, get_or, set, ◌∈◌, mem-append_cases, Option, none, some}
use rust_miner.Base.{length-set, get_or-set_self, get_or-set_ne, if◌then◌else◌}
use rust_miner.Base.{◌==◌, ==→≡, ≡→==, ≢→==, Bool-cases, Bool, true, false}
use native.Mathlib.Decide.{ℕ_discrete}
use rust_miner.Solver.Radix.Buckets.{count}
use rust_miner.Solver.Peel.{
  Core, Peeling, mate_at, edges_of, group_count, enqueue, enqueue_mate, lose_one, kill, kill_all,
}
use rust_miner.Solver.Peel.Mates.{AreMated, IsCore, in_left, in_right, group_back, mate_at-lt}

-- How many edges of a group are alive.
pub alive_in : List Bool → List ℕ → ℕ
alive_in alive [] = 0
alive_in alive (e ∷ es) = (if get_or alive e false then 1 else 0) + alive_in alive es

pub alive_in-le : (alive : List Bool) (es : List ℕ) → alive_in alive es ≤ length es
unfolding alive_in
alive_in-le alive [] = omega arith
alive_in-le alive (e ∷ es) = ground (arith, alive_in-le alive es)

pub alive_in_pos :
    (alive : List Bool) (e : ℕ) (es : List ℕ)
    → e ∈ es
    → get_or alive e false ≡ true
    → 0 < alive_in alive es
unfolding alive_in
alive_in_pos alive e [] m h = absurd m
alive_in_pos alive e (x ∷ es) (inl q) h = rw (← q, h) (omega arith)
alive_in_pos alive e (x ∷ es) (inr m) h = omega (arith, alive_in_pos alive e es m h)

-- An edge that dies is one less where it stands.
dies :
    (alive : List Bool) (e x : ℕ)
    → e < length alive
    → (if get_or (set alive e false) x false then 1 else 0)
      ≤ (if get_or alive x false then 1 else 0)
dies alive e x h = elim (ℕ_discrete e x) [
  | yes it ↦ rw (← it, get_or-set_self alive e false false h) (omega arith)
  | no other ↦ rw (get_or-set_ne alive e x false false other) (omega arith)
]

alive_in-set :
    (alive : List Bool) (e : ℕ) (es : List ℕ)
    → e < length alive
    → alive_in (set alive e false) es ≤ alive_in alive es
unfolding alive_in
alive_in-set alive e [] h = omega arith
alive_in-set alive e (x ∷ es) h = omega (arith, dies alive e x h, alive_in-set alive e es h)

alive_in-set_mem :
    (alive : List Bool) (e : ℕ) (es : List ℕ)
    → e < length alive
    → get_or alive e false ≡ true
    → e ∈ es
    → alive_in (set alive e false) es < alive_in alive es
unfolding alive_in
alive_in-set_mem alive e [] h a m = absurd m
alive_in-set_mem alive e (x ∷ es) h a (inl q) =
    rw (← q, get_or-set_self alive e false false h, a) (omega (arith, alive_in-set alive e es h))
alive_in-set_mem alive e (x ∷ es) h a (inr m) =
    omega (arith, dies alive e x h, alive_in-set_mem alive e es h a m)

module _ (left right : List ℕ) (core : Core) (c : IsCore left right core) (M : ℕ → Type 0)
    (a : AreMated M left) (b : AreMated M right) where
  -- A group with no edge of the set.
  abbrev pub IsFree : ℕ → Type 0
  IsFree g = (e : ℕ) → M e → ¬ (e ∈ edges_of core g)

  -- All edges of the set live; the count of a group is at least that of its live edges and of what
  -- is still to be taken off for it; and the groups in the queue have no edge of the set.
  pub record IsSafe (owed : List ℕ) (s : Peeling) : Type 0 where
    pub living : (e : ℕ) → M e → get_or s.alive e false ≡ true
    pub counted :
        (g : ℕ)
        → g < group_count core
        → alive_in s.alive (edges_of core g) + count g owed ≤ get_or s.live_count g 0
    pub waiting : (g : ℕ) → g ∈ s.queue → (g < group_count core) × IsFree g
    pub counts : length s.live_count ≡ group_count core
    pub edges : length s.alive ≡ length left

  enqueue-IsSafe :
      (owed : List ℕ) (g : ℕ) (s : Peeling)
      → g < group_count core
      → IsFree g
      → IsSafe owed s
      → IsSafe owed (enqueue core g s)
  enqueue-IsSafe owed g s h free p = elim (Bool-cases (get_or s.queued g false)) [
    | inl old ↦ rw old p
    | inr new ↦ rw new (record {
      living = p.living;
      counted = p.counted;
      waiting = λ j m. waits j (mem-append_cases j s.queue (g ∷ []) m);
      counts = p.counts;
      edges = p.edges;
    })
  ]
    where
      waits : (j : ℕ) → (j ∈ s.queue) ⊎ (j ∈ (g ∷ [])) → (j < group_count core) × IsFree j
      waits j (inl m) = p.waiting j m
      waits j (inr (inl q)) = subst (λ t. (t < group_count core) × IsFree t) (sym q) (h, free)
      waits j (inr (inr m)) = absurd m

  -- A group that loses its last edge sets its mate free.
  lost-IsFree :
      (g m : ℕ) (owed : List ℕ) (s : Peeling)
      → g < group_count core
      → IsSafe owed s
      → get_or s.live_count g 0 ≡ 0
      → mate_at core g ≡ some m
      → (m < group_count core) × IsFree m
  lost-IsFree g m owed s h p none_left mate =
      (mate_at-lt left right core c g h m mate, λ e k i. spared e k i)
    where
      spared : (e : ℕ) → M e → ¬ (e ∈ edges_of core m)
      spared e k i =
          let (_, e', k', i') = group_back left right core c M a b g h m e mate k i in
          omega
            (arith, p.counted g h, alive_in_pos s.alive e' (edges_of core g) i' (p.living e' k'))

  enqueue_mate-IsSafe :
      (g : ℕ) (owed : List ℕ) (s : Peeling) (o : Option ℕ)
      → g < group_count core
      → IsSafe owed s
      → get_or s.live_count g 0 ≡ 0
      → mate_at core g ≡ o
      → IsSafe owed (enqueue_mate core o s)
  enqueue_mate-IsSafe g owed s none h p none_left mate = p
  enqueue_mate-IsSafe g owed s (some m) h p none_left mate =
      let (lt, free) = lost-IsFree g m owed s h p none_left mate in
      enqueue-IsSafe owed m s lt free p

  lose_one-IsSafe :
      (g : ℕ) (owed : List ℕ) (s : Peeling)
      → g < group_count core
      → IsSafe (g ∷ owed) s
      → IsSafe owed (lose_one core g s)
  unfolding lose_one
  lose_one-IsSafe g owed s h p = elim (Bool-cases (get_or s.live_count g 0 - 1 == 0)) [
    | inl empty ↦
        rw empty (enqueue_mate-IsSafe g owed _ (mate_at core g) h lost (now ∙ ==→≡ _ _ empty) refl)
    | inr more ↦ rw more lost
  ]
    where
      now :
          get_or (set s.live_count g (get_or s.live_count g 0 - 1)) g 0
          ≡ get_or s.live_count g 0 - 1
      now = get_or-set_self s.live_count g _ 0 (omega (arith, p.counts))

      own : count g (g ∷ owed) ≡ suc (count g owed)
      own = unfold count in rw (≡→== g g refl) refl

      foreign : (j : ℕ) → g ≢ j → count j (g ∷ owed) ≡ count j owed
      foreign j other = unfold count in rw (≢→== g j other) refl

      counted' :
          (j : ℕ)
          → j < group_count core
          → alive_in s.alive (edges_of core j) + count j owed
            ≤ get_or (set s.live_count g (get_or s.live_count g 0 - 1)) j 0
      counted' j k = elim (ℕ_discrete g j) [
        | yes it ↦
            subst
              (λ t.
                alive_in s.alive (edges_of core t) + count t owed
                ≤ get_or (set s.live_count g (get_or s.live_count g 0 - 1)) t 0)
              it (omega (arith, now, p.counted g h, own))
        | no other ↦ omega (
          arith,
          get_or-set_ne s.live_count g j (get_or s.live_count g 0 - 1) 0 other,
          p.counted j k,
          foreign j other,
        )
      ]

      lost :
          IsSafe owed (record s { live_count = set s.live_count g (get_or s.live_count g 0 - 1) })
      lost = record {
        living = p.living;
        counted = counted';
        waiting = p.waiting;
        counts = length-set s.live_count g _ ∙ p.counts;
        edges = p.edges;
      }

  -- An edge outside the set dies and is owed to its two groups.
  module _ (e : ℕ) (s : Peeling) (p : IsSafe [] s) (h : e < length left) (outside : ¬ M e)
      (lives : get_or s.alive e false ≡ true) where
    abbrev gl : ℕ
    gl = get_or core.left.group_of e 0

    abbrev gr : ℕ
    gr = get_or core.right.group_of e 0

    dying-IsSafe : IsSafe (gl ∷ gr ∷ []) (record s { alive = set s.alive e false })
    dying-IsSafe = record {
      living = λ x k.
          get_or-set_ne s.alive e x false false (λ q. outside (subst M (sym q) k)) ∙ p.living x k;
      counted = λ j k. counted' j k;
      waiting = p.waiting;
      counts = p.counts;
      edges = length-set s.alive e false ∙ p.edges;
    }
      where
        long : e < length s.alive
        long = omega (arith, p.edges)

        free_count : (j : ℕ) → count j [] ≡ 0
        free_count j = unfold count in refl

        owed_left : (j : ℕ) → gl ≡ j → count j (gl ∷ gr ∷ []) ≡ 1
        owed_left j q =
            unfold count in
            rw
              (
                ≡→== gl j q,
                ≢→== gr j (
                    omega (
                      arith,
                      (in_left left right core c e h).1,
                      (in_right left right core c e h).1,
                    )),
              )
              refl

        owed_right : (j : ℕ) → gl ≢ j → gr ≡ j → count j (gl ∷ gr ∷ []) ≡ 1
        owed_right j other q = unfold count in rw (≢→== gl j other, ≡→== gr j q) refl

        owed_none : (j : ℕ) → gl ≢ j → gr ≢ j → count j (gl ∷ gr ∷ []) ≡ 0
        owed_none j other other' = unfold count in rw (≢→== gl j other, ≢→== gr j other') refl

        fewer :
            (j : ℕ)
            → e ∈ edges_of core j
            → alive_in (set s.alive e false) (edges_of core j) < alive_in s.alive (edges_of core j)
        fewer j i = alive_in-set_mem s.alive e (edges_of core j) long lives i

        counted' :
            (j : ℕ)
            → j < group_count core
            → alive_in (set s.alive e false) (edges_of core j) + count j (gl ∷ gr ∷ [])
              ≤ get_or s.live_count j 0
        counted' j k = elim (ℕ_discrete gl j) [
          | yes it ↦ omega (
            arith,
            owed_left j it,
            p.counted j k,
            free_count j,
            fewer j (subst (λ t. e ∈ edges_of core t) it (in_left left right core c e h).0),
          )
          | no other ↦ elim (ℕ_discrete gr j) [
            | yes it ↦ omega (
              arith,
              owed_right j other it,
              p.counted j k,
              free_count j,
              fewer j (subst (λ t. e ∈ edges_of core t) it (in_right left right core c e h).0),
            )
            | no other' ↦ omega (
              arith,
              owed_none j other other',
              p.counted j k,
              free_count j,
              alive_in-set s.alive e (edges_of core j) long,
            )
          ]
        ]

  kill-IsSafe :
      (e : ℕ) (s : Peeling) → e < length left → ¬ M e → IsSafe [] s → IsSafe [] (kill core e s)
  unfolding kill
  kill-IsSafe e s h outside p = elim (Bool-cases (get_or s.alive e false)) [
    | inl lives ↦ rw lives (
        lose_one-IsSafe (gr e s p h outside lives) [] _ (in_right left right core c e h).2 (
          lose_one-IsSafe (gl e s p h outside lives) (gr e s p h outside lives ∷ []) _
            (omega (arith, (in_left left right core c e h).1))
            (dying-IsSafe e s p h outside lives)))
    | inr dead ↦ rw dead p
  ]

  pub kill_all-IsSafe :
      (es : List ℕ) (s : Peeling)
      → ((e : ℕ) → e ∈ es → (e < length left) × (¬ M e))
      → IsSafe [] s
      → IsSafe [] (kill_all core es s)
  unfolding kill_all
  kill_all-IsSafe [] s h p = p
  kill_all-IsSafe (e ∷ es) s h p =
      kill_all-IsSafe es (kill core e s) (λ x m. h x (inr m))
        (kill-IsSafe e s (h e (inl refl)).0 (h e (inl refl)).1 p)

-- ===== src/Solver/Peel/Grouped.antt =====
-- src/solver/peel.rs: the grouping puts each edge into the group of its node.
use rust_miner.Base.{
  ℕ, zero, suc, ◌+◌, ◌-◌, ◌<◌, ◌≤◌, ◌≡◌, refl, sym, ap, ◌∙◌, subst, arith, inl, inr,
}
use rust_miner.Base.{List, [], ◌∷◌, ◌++◌, length, length-append, get_or, take, drop, ◌∈◌}
use rust_miner.Base.{mem-append_left, mem-append_cases}
use rust_miner.Base.{get_or-append_left, get_or-append_right}
use rust_miner.Base.{◌==◌, ==→≡, ==→≢, Bool-cases, true, false}
use mathlib.Core.List.{append_assoc, append-nil}
use native.Mathlib.Decide.{dec_lt}
use rust_miner.Solver.Radix.Sorts.{Pairwise, Before}
use rust_miner.Solver.Peel.{Groups, run_length, add_group, group_runs, members}
use rust_miner.Solver.Peel.Runs.{
  take-append-drop, mem-drop, length-drop_le, drop-append, take_all, slice-append, length-assign,
  assign_other, assign_self,
}

module _ (nodes : List ℕ) where
  abbrev node : ℕ → ℕ
  node edge = get_or nodes edge 0

  mem-run : (k e : ℕ) (order : List ℕ) → e ∈ take (run_length nodes k order) order → node e ≡ k
  unfolding run_length
  mem-run k e [] m = absurd m
  mem-run k e (x ∷ order) m = elim (Bool-cases (node x == k)) [
    | inl same ↦ from same (mem-run k e order) (rw same at m)
    | inr other ↦ absurd (nowhere (rw other at m))
  ]
    where
      nowhere : ¬ (e ∈ take 0 (x ∷ order))
      nowhere h = h

      from :
          (node x == k) ≡ true
          → (e ∈ take (run_length nodes k order) order → node e ≡ k)
          → e ∈ (x ∷ take (run_length nodes k order) order)
          → node e ≡ k
      from same later (inl s) = ap node s ∙ ==→≡ _ k same
      from same later (inr r) = later r

  Pairwise-drop :
      (n : ℕ) (xs : List ℕ) → Pairwise (Before nodes) xs → Pairwise (Before nodes) (drop n xs)
  Pairwise-drop zero xs p = p
  Pairwise-drop (suc n) [] p = tt
  Pairwise-drop (suc n) (x ∷ xs) p = Pairwise-drop n xs p.1

  Before-le : (x y : ℕ) → Before nodes x y → node x ≤ node y
  Before-le x y (inl h) = omega arith
  Before-le x y (inr (e, h)) = omega arith

  -- Behind the run of a node, in a sorted order, all nodes are higher.
  mem-behind :
      (k e : ℕ) (order : List ℕ)
      → Pairwise (Before nodes) order
      → ((y : ℕ) → y ∈ order → k ≤ node y)
      → e ∈ drop (run_length nodes k order) order
      → k < node e
  unfolding run_length
  mem-behind k e [] p h m = absurd m
  mem-behind k e (x ∷ order) p h m = elim (Bool-cases (node x == k)) [
    | inl same ↦ mem-behind k e order p.1 (λ y i. h y (inr i)) (rw same at m)
    | inr other ↦ from other (rw other at m)
  ]
    where
      from : (node x == k) ≡ false → e ∈ (x ∷ order) → k < node e
      from other (inl s) = omega (arith, ap node s, ==→≢ _ k other, h x (inl refl))
      from other (inr r) = omega (arith, ==→≢ _ k other, h x (inl refl), Before-le x e (p.0 e r))

  -- What holds between two runs.
  pub record IsGrouped (first : ℕ) (g : Groups) (rest : List ℕ) : Type 0 where
    pub sized : length g.group_of ≡ length nodes
    pub ends : length g.offsets ≡ suc (length g.keys)
    pub last : get_or g.offsets (length g.keys) 0 ≡ length g.edges
    pub rising : (l : ℕ) → l < length g.keys → get_or g.offsets l 0 ≤ get_or g.offsets (l + 1) 0
    pub within : (l : ℕ) → l < length g.keys → get_or g.offsets (l + 1) 0 ≤ length g.edges
    pub inside :
        (l e : ℕ)
        → l < length g.keys
        → e ∈ members g l
        → (get_or g.group_of e 0 ≡ first + l) × (node e ≡ get_or g.keys l 0)
    pub found : (e : ℕ) → e ∈ g.edges → (l : ℕ) × (l < length g.keys) × (e ∈ members g l)
    pub ascending : (i j : ℕ) → i < j → j < length g.keys → get_or g.keys i 0 < get_or g.keys j 0
    pub before : (i e : ℕ) → i < length g.keys → e ∈ rest → get_or g.keys i 0 < node e

  module _ (first k : ℕ) (g : Groups) (rest run rest' : List ℕ)
      (is_first : (e : ℕ) → e ∈ run → node e ≡ k) (known : (e : ℕ) → e ∈ run → e < length nodes)
      (behind : (e : ℕ) → e ∈ rest' → k < node e) (from_run : (e : ℕ) → e ∈ run → e ∈ rest)
      (from_rest : (e : ℕ) → e ∈ rest' → e ∈ rest) (x : ℕ) (x_in : x ∈ run)
      (s : IsGrouped first g rest) where
    abbrev g' : Groups
    g' = add_group first k run g

    keys_old : (i : ℕ) → i < length g.keys → get_or g'.keys i 0 ≡ get_or g.keys i 0
    keys_old i h = get_or-append_left g.keys (k ∷ []) i 0 h

    keys_new : get_or g'.keys (length g.keys) 0 ≡ k
    keys_new =
        let e : length g.keys ≡ length g.keys + 0 = omega arith in
        ap (λ n. get_or g'.keys n 0) e ∙ get_or-append_right g.keys (k ∷ []) 0 0

    offsets_old : (i : ℕ) → i ≤ length g.keys → get_or g'.offsets i 0 ≡ get_or g.offsets i 0
    offsets_old i h = get_or-append_left g.offsets _ i 0 (omega (arith, s.ends))

    offsets_new : get_or g'.offsets (length g.keys + 1) 0 ≡ length g.edges + length run
    offsets_new =
        let e : length g.keys + 1 ≡ length g.offsets + 0 = omega (arith, s.ends) in
        ap (λ n. get_or g'.offsets n 0) e ∙ get_or-append_right g.offsets _ 0 0

    members_old : (l : ℕ) → l < length g.keys → members g' l ≡ members g l
    members_old l h =
        let b = offsets_old l (omega arith) in
        let e = offsets_old (l + 1) (omega arith) in
        rw (b, e)
          (slice-append (get_or g.offsets l 0) (get_or g.offsets (l + 1) 0 - get_or g.offsets l 0)
            g.edges run (omega (arith, s.rising l h, s.within l h)))

    members_new : members g' (length g.keys) ≡ run
    members_new =
        let b : get_or g'.offsets (length g.keys) 0 ≡ length g.edges =
          offsets_old (length g.keys) (omega arith) ∙ s.last in
        let n : length g.edges + length run - length g.edges ≡ length run = omega arith in
        rw (b, offsets_new, n, drop-append g.edges run) (take_all run)

    length-keys : length g'.keys ≡ suc (length g.keys)
    length-keys = length-append g.keys (k ∷ []) ∙ omega arith

    length-edges : length g'.edges ≡ length g.edges + length run
    length-edges = length-append g.edges run

    -- A fact about every group holds for those before and for the new one.
    every :
        (P : ℕ → Type 0)
        → ((l : ℕ) → l < length g.keys → P l)
        → P (length g.keys)
        → (l : ℕ) → l < length g'.keys
        → P l
    every P old new l h = elim (dec_lt l (length g.keys)) [
      | yes k' ↦ old l k'
      | no k' ↦ let it : length g.keys ≡ l = omega (arith, length-keys) in subst P it new
    ]

    stays : (l e : ℕ) → l < length g.keys → e ∈ members g l → ¬ (e ∈ run)
    stays l e h m r = omega (arith, s.before l e h (from_run e r), (s.inside l e h m).1)

    rising' : (l : ℕ) → l < length g'.keys → get_or g'.offsets l 0 ≤ get_or g'.offsets (l + 1) 0
    rising' =
        every (λ l. get_or g'.offsets l 0 ≤ get_or g'.offsets (l + 1) 0)
          (λ l h.
            omega
              (arith, offsets_old l (omega arith), offsets_old (l + 1) (omega arith), s.rising l h))
          (omega (arith, offsets_old (length g.keys) (omega arith), offsets_new, s.last))

    within' : (l : ℕ) → l < length g'.keys → get_or g'.offsets (l + 1) 0 ≤ length g'.edges
    within' =
        every (λ l. get_or g'.offsets (l + 1) 0 ≤ length g'.edges)
          (λ l h. omega (arith, offsets_old (l + 1) (omega arith), s.within l h, length-edges))
          (omega (arith, offsets_new, length-edges))

    abbrev Inside : ℕ → Type 0
    Inside l =
        (e : ℕ)
        → e ∈ members g' l
        → (get_or g'.group_of e 0 ≡ first + l) × (node e ≡ get_or g'.keys l 0)

    inside' : (l : ℕ) → l < length g'.keys → Inside l
    inside' = every Inside old new
      where
        old : (l : ℕ) → l < length g.keys → Inside l
        old l h e m =
            let m' : e ∈ members g l = subst (λ t. e ∈ t) (members_old l h) m in
            let (group, same) = s.inside l e h m' in
            (
              assign_other (first + length g.keys) e run g.group_of (stays l e h m') ∙ group,
              same ∙ sym (keys_old l h),
            )

        new : Inside (length g.keys)
        new e m =
            let r : e ∈ run = subst (λ t. e ∈ t) members_new m in
            (
              assign_self (first + length g.keys) e run g.group_of
                  (omega (arith, known e r, s.sized)) (inl r),
              is_first e r ∙ sym keys_new,
            )

    found' : (e : ℕ) → e ∈ g'.edges → (l : ℕ) × (l < length g'.keys) × (e ∈ members g' l)
    found' e m = elim (mem-append_cases e g.edges run m) [
      | inl old ↦
          let (l, h, i) = s.found e old in
          (l, omega (arith, length-keys), subst (λ t. e ∈ t) (sym (members_old l h)) i)
      | inr new ↦
          (length g.keys, omega (arith, length-keys), subst (λ t. e ∈ t) (sym members_new) new)
    ]

    ascending' : (i j : ℕ) → i < j → j < length g'.keys → get_or g'.keys i 0 < get_or g'.keys j 0
    ascending' i j h b = elim (dec_lt j (length g.keys)) [
      | yes old ↦ omega (arith, keys_old i (omega arith), keys_old j old, s.ascending i j h old)
      | no new ↦
          let it : length g.keys ≡ j = omega (arith, length-keys) in
          subst (λ t. get_or g'.keys i 0 < get_or g'.keys t 0) it
            (omega (
              arith,
              keys_old i (omega arith),
              keys_new,
              is_first x x_in,
              s.before i x (omega arith) (from_run x x_in),
            ))
    ]

    before' : (i : ℕ) → i < length g'.keys → (e : ℕ) → e ∈ rest' → get_or g'.keys i 0 < node e
    before' =
        every (λ i. (e : ℕ) → e ∈ rest' → get_or g'.keys i 0 < node e)
          (λ i h e m. omega (arith, keys_old i h, s.before i e h (from_rest e m)))
          (λ e m. omega (arith, keys_new, behind e m))

    add_group-IsGrouped : IsGrouped first g' rest'
    add_group-IsGrouped = record {
      sized = length-assign _ run g.group_of ∙ s.sized;
      ends = length-append g.offsets _ ∙ omega (arith, s.ends, length-keys);
      last =
          ap (λ n. get_or g'.offsets n 0) (length-keys ∙ omega arith)
          ∙ offsets_new
          ∙ sym length-edges;
      rising = rising';
      within = within';
      inside = λ l e h m. inside' l h e m;
      found = found';
      ascending = ascending';
      before = λ i e h m. before' i h e m;
    }

  pub group_runs-IsGrouped :
      (first fuel : ℕ) (order : List ℕ) (g : Groups)
      → Pairwise (Before nodes) order
      → ((e : ℕ) → e ∈ order → e < length nodes)
      → length order ≤ fuel
      → IsGrouped first g order
      → IsGrouped first (group_runs first nodes fuel order g) []
        × ((group_runs first nodes fuel order g).edges ≡ g.edges ++ order)
  unfolding group_runs
  group_runs-IsGrouped first zero [] g p known h s = (s, sym (append-nil g.edges))
  group_runs-IsGrouped first (suc fuel) [] g p known h s = (s, sym (append-nil g.edges))
  group_runs-IsGrouped first zero (x ∷ order) g p known h s = absurd (omega arith)
  group_runs-IsGrouped first (suc fuel) (x ∷ order) g p known h s =
      let (t, e) =
        group_runs-IsGrouped first fuel rest (add_group first (node x) run g)
          (Pairwise-drop n order p.1) (λ y m. known y (inr (mem-drop n y order m)))
          (omega (arith, length-drop_le n order)) next in
      (t, e ∙ append_assoc g.edges run rest ∙ ap (λ l. g.edges ++ x ∷ l) (take-append-drop n order))
    where
      n : ℕ
      n = run_length nodes (node x) order

      run : List ℕ
      run = x ∷ take n order

      rest : List ℕ
      rest = drop n order

      in_order : (y : ℕ) → y ∈ run → y ∈ (x ∷ order)
      in_order y (inl q) = inl q
      in_order y (inr m) =
          inr (
            subst (λ l. y ∈ l) (take-append-drop n order) (mem-append_left y (take n order) rest m))

      same_node : (y : ℕ) → y ∈ run → node y ≡ node x
      same_node y (inl q) = ap node q
      same_node y (inr m) = mem-run (node x) y order m

      next : IsGrouped first (add_group first (node x) run g) rest
      next =
          add_group-IsGrouped first (node x) g (x ∷ order) run rest same_node
            (λ y m. known y (in_order y m))
            (λ y m. mem-behind (node x) y order p.1 (λ z i. Before-le x z (p.0 z i)) m) in_order
            (λ y m. inr (mem-drop n y order m)) x (inl refl) s

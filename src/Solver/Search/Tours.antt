-- ===== src/Solver/Search/Tours.antt =====
-- A proof whose edges are among the survivors is a cycle that the search of
-- src/solver/cpu_lean.rs can follow.
use rust_miner.Base.{ℕ, suc, ◌^◌, ◌<◌, ◌≡◌, refl, sym, ◌∙◌, ap}
use rust_miner.Base.{
  List, [], ◌∷◌, map, length, length-map, get_or, get_or-map, arith, inl, inr, ◌∈◌, subst,
  mem-get_or, Bool-cases, ==→≡, ==→≢, ◌==◌, if◌then◌else◌, false,
}
use mathlib.Core.Path.{ap₂}
use rust_miner.Verify.{Proof, Side, u_side, other, at, mate_node, edge_ends, sort}
use rust_miner.Verify.Spec.{IsMate, IsProof, Tour, Distinct}
use rust_miner.Verify.Sorting.{
  AscendingFrom-IsAscending, IsAscending-inj, sort-mem, length-sort, sort-IsAscending, eq_of_Within,
}
use rust_miner.Solver.{GraphParams}
use rust_miner.Solver.Search.Visits.{Linked}

-- The place of a number in a list that holds it.
first_place : ℕ → List ℕ → ℕ
first_place a [] = 0
first_place a (x ∷ xs) = let later = first_place a xs in if x == a then 0 else suc later

record IsPlace (a : ℕ) (xs : List ℕ) (i : ℕ) : Type 0 where
  in_range : i < length xs
  same : get_or xs i 0 ≡ a

first_place-IsPlace : (a : ℕ) (xs : List ℕ) → a ∈ xs → IsPlace a xs (first_place a xs)
unfolding first_place
first_place-IsPlace a [] m = absurd m
first_place-IsPlace a (x ∷ xs) m = elim (Bool-cases (x == a)) [
  | inl e ↦ rw e (record { in_range = omega arith; same = ==→≡ x a e })
  | inr e ↦ rw e (from e m (first_place-IsPlace a xs))
]
  where
    from :
        (x == a) ≡ false
        → a ∈ (x ∷ xs)
        → (a ∈ xs → IsPlace a xs (first_place a xs))
        → IsPlace a (x ∷ xs) (suc (first_place a xs))
    from e (inl q) ih = absurd (==→≢ x a e (sym q))
    from e (inr m') ih =
        let r = ih m' in record { in_range = omega (arith, r.in_range); same = r.same }

-- Below `n` the function `f` tells numbers apart.
abbrev IsInjBelow : ℕ → (ℕ → ℕ) → Type 0
IsInjBelow n f = (i j : ℕ) → i < n → j < n → f i ≡ f j → i ≡ j

abbrev pub AllBelow : ℕ → List ℕ → Type 0
AllBelow n xs = (a : ℕ) → a ∈ xs → a < n

not-mem-map :
    (n i : ℕ) (f : ℕ → ℕ) (js : List ℕ)
    → IsInjBelow n f
    → AllBelow n js
    → i < n
    → ¬ (i ∈ js)
    → ¬ (f i ∈ map f js)
not-mem-map n i f [] inj l li out m = m
not-mem-map n i f (j ∷ js) inj l li out (inl e) = out (inl (inj i j li (l j (inl refl)) e))
not-mem-map n i f (j ∷ js) inj l li out (inr m) =
    not-mem-map n i f js inj (λ a k. l a (inr k)) li (λ k. out (inr k)) m

Distinct-map :
    (n : ℕ) (f : ℕ → ℕ) (xs : List ℕ)
    → IsInjBelow n f
    → AllBelow n xs
    → Distinct xs
    → Distinct (map f xs)
Distinct-map n f [] inj l d = tt
Distinct-map n f (x ∷ xs) inj l d =
    let l' = λ (a : ℕ) (m : a ∈ xs). l a (inr m) in
    (not-mem-map n x f xs inj l' (l x (inl refl)) d.0, Distinct-map n f xs inj l' d.1)

pub mem-map : (a : ℕ) (f : ℕ → ℕ) (xs : List ℕ) → a ∈ map f xs → (x : ℕ) × (x ∈ xs) × (a ≡ f x)
mem-map a f [] m = absurd m
mem-map a f (x ∷ xs) (inl e) = (x, inl refl, e)
mem-map a f (x ∷ xs) (inr m) = let (y, k, e) = mem-map a f xs m in (y, inr k, e)

module _ (request : GraphParams) (survivors : List ℕ) (proof : Proof)
    (p : IsProof request.keys request.edge_bits request.cycle_length proof)
    (kept : (a : ℕ) → a ∈ proof.nonces → a ∈ survivors) where
  abbrev edge_at : ℕ → ℕ
  edge_at i = get_or proof.nonces i 0

  abbrev proof_ends : List (ℕ × ℕ)
  proof_ends = map (edge_ends request.keys request.edge_bits) proof.nonces

  abbrev survivor_ends : List (ℕ × ℕ)
  survivor_ends = map (edge_ends request.keys request.edge_bits) survivors

  -- Where edge `i` of the proof stands among the survivors.
  slot : ℕ → ℕ
  slot i = first_place (edge_at i) survivors

  slot-IsPlace : (i : ℕ) → i < length proof.nonces → IsPlace (edge_at i) survivors (slot i)
  unfolding slot
  slot-IsPlace i l =
      first_place-IsPlace _ survivors (kept (edge_at i) (mem-get_or proof.nonces i 0 l))

  slot_ends :
      (i : ℕ) (side : Side)
      → i < length proof.nonces
      → at side (get_or survivor_ends (slot i) (0, 0)) ≡ at side (get_or proof_ends i (0, 0))
  slot_ends i side l =
      let s = slot-IsPlace i l in
      ap (at side) (
        get_or-map (edge_ends request.keys request.edge_bits) survivors (slot i) 0 (0, 0) s.in_range
        ∙ ap (edge_ends request.keys request.edge_bits) s.same
        ∙ sym (get_or-map (edge_ends request.keys request.edge_bits) proof.nonces i 0 (0, 0) l))

  slot-inj : (i j : ℕ) → i < length proof.nonces → j < length proof.nonces → slot i ≡ slot j → i ≡ j
  slot-inj i j li lj e =
      let ascending = AscendingFrom-IsAscending (2 ^ request.edge_bits) proof.nonces p.ascending in
      let a = slot-IsPlace i li in
      let b = slot-IsPlace j lj in
      IsAscending-inj proof.nonces i j ascending li lj
        (sym a.same ∙ ap (λ k. get_or survivors k 0) e ∙ b.same)

  length_ends : length proof_ends ≡ length proof.nonces
  length_ends = length-map (edge_ends request.keys request.edge_bits) proof.nonces

  -- Every edge of a tour is one of the proof, if the tour starts at one.
  Tour-lt :
      (side : Side) (i : ℕ) (tour : List ℕ)
      → i < length proof.nonces
      → Tour proof_ends side i tour
      → (a : ℕ) → a ∈ tour
      → a < length proof.nonces
  Tour-lt side i [] l t a m = absurd m
  Tour-lt side i (j ∷ js) l (here, (m, mate, rest)) a (inl e) = omega arith
  Tour-lt side i (j ∷ js) l (here, (m, mate, rest)) a (inr k) =
      Tour-lt (other side) m js (let r = mate.in_range in omega (arith, length_ends)) rest a k

  -- A tour of the proof's edges is a cycle among the survivors.
  Linked-slots :
      (side : Side) (i : ℕ) (rest : List ℕ)
      → i < length proof.nonces
      → Tour proof_ends side i (i ∷ rest)
      → Linked survivor_ends (slot i) side (slot 0) (map slot rest)
  Linked-slots side i [] l (here, (m, mate, (back, on_u))) =
      slot_ends 0 side (omega arith)
      ∙ subst
          (λ k.
            at side (get_or proof_ends k (0, 0)) ≡ mate_node (at side (get_or proof_ends i (0, 0))))
          back mate.meet
      ∙ ap mate_node (sym (slot_ends i side l))
  Linked-slots side i (j ∷ js) l (here, (m, mate, (here', more))) =
      let mate' : IsMate proof_ends side i j = subst (λ k. IsMate proof_ends side i k) here' mate in
      let more' =
        subst
          (λ k.
            (x : ℕ) × IsMate proof_ends (other side) k x
            × Tour proof_ends (other (other side)) x js)
          here' more in
      let lj : j < length proof.nonces = omega (arith, mate'.in_range, length_ends) in
      (
        omega (
          arith,
          (slot-IsPlace j lj).in_range,
          length-map (edge_ends request.keys request.edge_bits) survivors,
        ),
        slot_ends j side lj ∙ mate'.meet ∙ ap mate_node (sym (slot_ends i side l)),
        Linked-slots (other side) j js lj (refl, more'),
      )

  abbrev pub survivor_at : ℕ → ℕ
  survivor_at i = get_or survivors i 0

  slots_edges :
      (tour : List ℕ)
      → AllBelow (length proof.nonces) tour
      → map survivor_at (map slot tour) ≡ map edge_at tour
  slots_edges [] l = refl
  slots_edges (i ∷ is) l =
      ap₂ (λ a as'. a ∷ as') (slot-IsPlace i (l i (inl refl))).same
        (slots_edges is (λ a m. l a (inr m)))

  edge_at-inj : IsInjBelow (length proof.nonces) edge_at
  edge_at-inj i j li lj e =
      IsAscending-inj proof.nonces i j
        (AscendingFrom-IsAscending (2 ^ request.edge_bits) proof.nonces p.ascending) li lj e

  -- The edges of a whole tour, sorted, are the nonces of the proof.
  sorted_tour :
      (tour : List ℕ)
      → length tour ≡ length proof.nonces
      → AllBelow (length proof.nonces) tour
      → Distinct tour
      → sort (map edge_at tour) ≡ proof.nonces
  sorted_tour tour size l d =
      eq_of_Within (sort (map edge_at tour)) proof.nonces
        (sort-IsAscending (map edge_at tour) (Distinct-map _ edge_at tour edge_at-inj l d))
        (AscendingFrom-IsAscending (2 ^ request.edge_bits) proof.nonces p.ascending)
        (λ a m.
          let (i, k, e) = mem-map a edge_at tour (sort-mem a _ m) in
          subst (λ b. b ∈ proof.nonces) (sym e) (mem-get_or proof.nonces i 0 (l i k)))
        (length-sort (map edge_at tour) ∙ length-map edge_at tour ∙ size)

  -- What the search needs of a cycle that starts at the survivor `first`.
  pub record IsRoute : Type 0 where
    pub first : ℕ
    pub rest : List ℕ
    pub in_range : first < length survivors
    pub linked : Linked survivor_ends first u_side first rest
    pub distinct : Distinct (first ∷ rest)
    pub size : length (first ∷ rest) ≡ request.cycle_length
    pub sorts : sort (map survivor_at (first ∷ rest)) ≡ proof.nonces

  route_of :
      (tour : List ℕ)
      → 0 < length proof.nonces
      → length tour ≡ length proof.nonces
      → Distinct tour
      → Tour proof_ends u_side 0 tour
      → IsRoute
  route_of [] pos size d t = absurd (omega arith)
  route_of (j ∷ js) pos size d (here, more) =
      let t : Tour proof_ends u_side 0 (0 ∷ js) = (refl, more) in
      let d' : Distinct (0 ∷ js) = subst (λ k. Distinct (k ∷ js)) (sym here) d in
      let below = Tour-lt u_side 0 (0 ∷ js) pos t in
      record {
        first = slot 0;
        rest = map slot js;
        in_range = (slot-IsPlace 0 pos).in_range;
        linked = Linked-slots u_side 0 js pos t;
        distinct = Distinct-map _ slot (0 ∷ js) slot-inj below d';
        size = ap suc (length-map slot js) ∙ size ∙ p.size;
        sorts = ap sort (slots_edges (0 ∷ js) below) ∙ sorted_tour (0 ∷ js) size below d';
      }

  -- With all its edges among the survivors, a proof of a positive length has a route.
  pub route : 0 < request.cycle_length → IsRoute
  route pos =
      route_of p.cycle.tour (omega (arith, p.size)) (p.cycle.covers ∙ length_ends) p.cycle.distinct
        p.cycle.closed

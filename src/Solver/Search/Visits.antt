-- ===== src/Solver/Search/Visits.antt =====
-- A search of src/solver/cpu_lean.rs that meets a cycle does not come back empty.
use rust_miner.Base.{ℕ, zero, suc, ◌+◌, ◌<◌, ◌≡◌, refl, sym, ◌∙◌, ap, Bool, true, false}
use rust_miner.Base.{
  List, [], ◌∷◌, ◌++◌, length, length-append, get_or, arith, inl, inr, ◌⊎◌, ◌∈◌, ltb, true≢false,
  Bool-cases, ◌==◌, ≡→==, ≢→==,
}
use rust_miner.Base.{map, length-map, subst}
use rust_miner.Verify.{Side, other, at, mate_node, edge_ends}
use rust_miner.Verify.Lookup.{
  endpoint_index_lem, endpoint_index_nodes, edges_at, mem-edges_at, candidates,
}
use mathlib.Core.List.{append-nil, append_assoc}
use rust_miner.Solver.{GraphParams}
use rust_miner.Solver.Search.{
  Search, Verdict, Visit, hit, miss, limit, stuck, contains, verifies, path_proof, wanted, close,
  resume, try_all, dfs, max_search_branches, new_search,
}
use rust_miner.Verify.Spec.{Distinct}

pub contains-mem : (xs : List ℕ) (a : ℕ) → a ∈ xs → contains xs a ≡ true
unfolding contains
contains-mem [] a m = absurd m
contains-mem (x ∷ xs) a (inl e) = ground arith
contains-mem (x ∷ xs) a (inr m) = ground (arith, contains-mem xs a m)

pub contains-not_mem : (xs : List ℕ) (a : ℕ) → ¬ (a ∈ xs) → contains xs a ≡ false
unfolding contains
contains-not_mem [] a out = refl
contains-not_mem (x ∷ xs) a out =
    let first : (x == a) ≡ false = ≢→== x a (λ e. out (inl (sym e))) in
    rw (first, contains-not_mem xs a (λ m. out (inr m)))

abbrev pub missed : Verdict → Bool
missed miss = true
missed _ = false

missed-resume :
    (v : Verdict) (branches : ℕ) (back : Visit)
    → (missed v ≡ false) ⊎ (missed back.0 ≡ false)
    → missed (resume v branches back).0 ≡ false
missed-resume (hit p) b back h = refl
missed-resume miss b back (inl h) = absurd (true≢false h)
missed-resume miss b back (inr h) = h
missed-resume limit b back h = refl
missed-resume stuck b back h = refl

-- If the call at one unused candidate does not miss, whatever the count, nor does the loop.
try_all_meets :
    (visit : ℕ → ℕ → Visit) (used rest : List ℕ) (r branches : ℕ)
    → ((b : ℕ) → missed (visit r b).0 ≡ false)
    → contains used r ≡ false
    → r ∈ rest
    → missed (try_all visit used rest branches).0 ≡ false
unfolding try_all
try_all_meets visit used [] r branches good fresh m = absurd m
try_all_meets visit used (next ∷ rest) r branches good fresh m =
    elim (Bool-cases (ltb max_search_branches (branches + 1))) [
      | inl over ↦ rw over
      | inr under ↦ elim (Bool-cases (contains used next)) [
        | inl seen ↦
            rw (under, seen)
              (try_all_meets visit used rest r (branches + 1) good fresh (later seen m))
        | inr new ↦
            rw (under, new)
              (missed-resume _ _ _
                (either (λ m'. try_all_meets visit used rest r _ good fresh m') m))
      ]
    ]
  where
    later : contains used next ≡ true → r ∈ (next ∷ rest) → r ∈ rest
    later seen (inr m') = m'
    later seen (inl e) = absurd (true≢false (sym seen ∙ ap (contains used) (sym e) ∙ fresh))

    either :
        (r ∈ rest → missed (try_all visit used rest (visit next (branches + 1)).1).0 ≡ false)
        → r ∈ (next ∷ rest)
        → (missed (visit next (branches + 1)).0 ≡ false)
          ⊎ (missed (try_all visit used rest (visit next (branches + 1)).1).0 ≡ false)
    either back (inl e) = inl (rw (sym e) (good (branches + 1)))
    either back (inr m') = inr (back m')

-- The edges that a cycle goes on with from `current`, left on `side`, until it closes at `start`.
abbrev pub Linked : List (ℕ × ℕ) → ℕ → Side → ℕ → List ℕ → Type 0
Linked nodes current side start [] =
    at side (get_or nodes start (0, 0)) ≡ mate_node (at side (get_or nodes current (0, 0)))
Linked nodes current side start (next ∷ rest) =
    (next < length nodes)
    × (at side (get_or nodes next (0, 0)) ≡ mate_node (at side (get_or nodes current (0, 0))))
    × Linked nodes next (other side) start rest

abbrev pub Disjoint : List ℕ → List ℕ → Type 0
Disjoint used rest = (a : ℕ) → a ∈ rest → ¬ (a ∈ used)

module _ (request : GraphParams) (survivors : List ℕ) (start : ℕ)
    (in_range : start < length survivors) where
  abbrev graph : Search
  graph = new_search request survivors

  abbrev reachable : (current : ℕ) (side : Side) → List ℕ
  reachable current side = candidates side (wanted graph current side) graph.index

  mem-reachable :
      (current next : ℕ) (side : Side)
      → next < length survivors
      → at side (get_or graph.nodes next (0, 0)) ≡ wanted graph current side
      → next ∈ reachable current side
  mem-reachable current next side l meet =
      let ends = map (edge_ends request.keys request.edge_bits) survivors in
      let nodes = endpoint_index_nodes request.keys request.edge_bits survivors in
      let node = wanted graph current side in
      let q : 0 + next ≡ next = omega arith in
      rw (endpoint_index_lem request.keys request.edge_bits survivors side node) (
        subst (λ j. j ∈ edges_at side node 0 ends) q
          (mem-edges_at side node 0 next ends
            (omega (arith, length-map (edge_ends request.keys request.edge_bits) survivors))
            (subst (λ ns. at side (get_or ns next (0, 0)) ≡ node) nodes meet)))

  -- From any point of the cycle, with the rest of it unused, `dfs` does not miss.
  pub dfs_meets :
      (fuel current : ℕ) (side : Side) (used path rest : List ℕ) (branches : ℕ)
      → Linked graph.nodes current side start rest
      → length (path ++ rest) ≡ request.cycle_length
      → Distinct rest
      → Disjoint used rest
      → verifies request (path_proof graph (path ++ rest)) ≡ true
      → missed (dfs fuel graph start current side used path branches).0 ≡ false
  unfolding dfs close
  dfs_meets zero current side used path rest branches k size d free good = refl
  dfs_meets (suc fuel) current side used path [] branches k size d free good =
      let whole = append-nil path in
      let full : (length path == request.cycle_length) ≡ true =
        ≡→== _ _ (ap length (sym whole) ∙ size) in
      let closes =
        contains-mem (reachable current side) start (mem-reachable current start side in_range k) in
      let good' : verifies request (path_proof graph path) ≡ true =
        subst (λ p. verifies request (path_proof graph p) ≡ true) whole good in
      rw (full, closes, good')
  dfs_meets (suc fuel) current side used path (next ∷ rest) branches k size d free good =
      let more : (length path == request.cycle_length) ≡ false =
        ≢→== _ _ (λ e. let z = length-append path (next ∷ rest) in absurd (omega arith)) in
      let split = append_assoc path (next ∷ []) rest in
      rw more (
        try_all_meets _ used (reachable current side) next branches
          (λ b.
            dfs_meets fuel next (other side) (next ∷ used) (path ++ next ∷ []) rest b k.2
              (ap length split ∙ size) d.1 (free_next d free)
              (subst (λ p. verifies request (path_proof graph p) ≡ true) (sym split) good))
          (contains-not_mem used next (free next (inl refl)))
          (mem-reachable current next side (omega (arith, length_nodes)) k.1))
    where
      free_next : Distinct (next ∷ rest) → Disjoint used (next ∷ rest) → Disjoint (next ∷ used) rest
      free_next d free a m (inl e) = d.0 (subst (λ j. j ∈ rest) e m)
      free_next d free a m (inr u) = free a (inr m) u

      length_nodes : length graph.nodes ≡ length survivors
      length_nodes =
          ap length (endpoint_index_nodes request.keys request.edge_bits survivors)
          ∙ length-map (edge_ends request.keys request.edge_bits) survivors

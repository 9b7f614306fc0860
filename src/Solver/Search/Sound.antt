-- ===== src/Solver/Search/Sound.antt =====
-- What the answers of the search of src/solver/cpu_lean.rs mean, and that it returns.
use rust_miner.Base.{
  ℕ, zero, suc, ◌+◌, ◌<◌, ◌≡◌, ◌≢◌, refl, sym, ◌∙◌, true, false, Option, none, some, ok, err,
}
use rust_miner.Base.{
  List, [], ◌∷◌, ◌++◌, map, get_or, mem-get_or, length, length-map, arith, inl, inr, ◌∈◌, subst,
  ltb, true≢false, Bool-cases, ◌==◌, Result,
}
use rust_miner.Verify.{Proof, VerifyError, Side, u_side, other, edge_ends, verify_cycle}
use rust_miner.Verify.Spec.{Distinct}
use rust_miner.Verify.Sorting.{nonces-sorted, sort-mem, length-Distinct}
use rust_miner.Verify.Lookup.{endpoint_index_lem, edges_at-mem, candidates}
use rust_miner.Solver.{GraphParams, SolveError, search_limit, generic_branches}
use rust_miner.Solver.Search.{
  Search, Verdict, Visit, hit, miss, limit, stuck, contains, resume, conclude, verifies,
  is_accepted, path_proof, wanted, close, try_all, dfs, search_from, find_cycle, new_search,
  max_search_branches,
}
use rust_miner.Solver.Search.Visits.{contains-mem}
use rust_miner.Solver.Search.Tours.{AllBelow, mem-map}

-- A proof found is accepted and made of survivors; no search is stuck.
abbrev Fine : GraphParams → List ℕ → Verdict → Type 0
Fine request survivors (hit proof) =
    (verifies request proof ≡ true) × ((a : ℕ) → a ∈ proof.nonces → a ∈ survivors)
Fine request survivors miss = Unit
Fine request survivors limit = Unit
Fine request survivors stuck = ⊥

pub accepted : (r : Result VerifyError (Unit {0})) → is_accepted r ≡ true → r ≡ ok tt
accepted (ok tt) e = refl
accepted (err x) e = absurd (true≢false (sym e))

AllBelow-cons : (n : ℕ) (xs : List ℕ) (x : ℕ) → AllBelow n xs → x < n → AllBelow n (x ∷ xs)
AllBelow-cons n xs x l k a (inl e) = omega arith
AllBelow-cons n xs x l k a (inr m) = l a m

AllBelow-append : (n : ℕ) (xs : List ℕ) (x : ℕ) → AllBelow n xs → x < n → AllBelow n (xs ++ x ∷ [])
AllBelow-append n [] x l k = AllBelow-cons n [] x l k
AllBelow-append n (y ∷ ys) x l k =
    AllBelow-cons n (ys ++ x ∷ []) y (AllBelow-append n ys x (λ a m. l a (inr m)) k)
      (l y (inl refl))

module _ (request : GraphParams) (survivors : List ℕ) where
  abbrev graph : Search
  graph = new_search request survivors

  Fine-resume :
      (v : Verdict) (branches : ℕ) (back : Visit)
      → Fine request survivors v
      → Fine request survivors back.0
      → Fine request survivors (resume v branches back).0
  Fine-resume (hit p) branches back f g = f
  Fine-resume miss branches back f g = g
  Fine-resume limit branches back f g = tt
  Fine-resume stuck branches back f g = f

  try_all-Fine :
      (visit : ℕ → ℕ → Visit) (used rest : List ℕ) (branches : ℕ)
      → ((next b : ℕ)
          → next ∈ rest
          → contains used next ≡ false
          → Fine request survivors (visit next b).0)
      → Fine request survivors (try_all visit used rest branches).0
  unfolding try_all
  try_all-Fine visit used [] branches good = tt
  try_all-Fine visit used (next ∷ rest) branches good =
      let good' = λ (a b : ℕ) (m : a ∈ rest). good a b (inr m) in
      elim (Bool-cases (ltb max_search_branches (branches + 1))) [
        | inl over ↦ rw over tt
        | inr under ↦ elim (Bool-cases (contains used next)) [
          | inl seen ↦ rw (under, seen) (try_all-Fine visit used rest (branches + 1) good')
          | inr new ↦
              rw (under, new)
                (Fine-resume _ _ _ (good next (branches + 1) (inl refl) new)
                  (try_all-Fine visit used rest _ good'))
        ]
      ]

  candidates-lt :
      (current next : ℕ) (side : Side)
      → next ∈ candidates side (wanted graph current side) graph.index
      → next < length survivors
  candidates-lt current next side m =
      let ends = map (edge_ends request.keys request.edge_bits) survivors in
      let node = wanted graph current side in
      let (d, e, l, _) = edges_at-mem side node 0 next ends (
        subst (λ c. next ∈ c)
          (endpoint_index_lem request.keys request.edge_bits survivors side node) m) in
      omega (arith, length-map (edge_ends request.keys request.edge_bits) survivors)

  path_proof-mem :
      (path : List ℕ)
      → AllBelow (length survivors) path
      → (a : ℕ) → a ∈ (path_proof graph path).nonces
      → a ∈ survivors
  path_proof-mem path l a m =
      let (i, k, e) = mem-map a _ path (
        sort-mem a _
          (subst (λ ns. a ∈ ns) (nonces-sorted (map (λ j. get_or survivors j 0) path)) m)) in
      subst (λ b. b ∈ survivors) (sym e) (mem-get_or survivors i 0 (l i k))

  close-Fine :
      (start current : ℕ) (side : Side) (path : List ℕ)
      → AllBelow (length survivors) path
      → Fine request survivors (close graph start current side path)
  unfolding close
  close-Fine start current side path l =
      elim (Bool-cases (contains (candidates side (wanted graph current side) graph.index) start)) [
        | inl closes ↦ elim (Bool-cases (verifies request (path_proof graph path))) [
          | inl good ↦ rw (closes, good) (good, path_proof-mem path l)
          | inr bad ↦ rw (closes, bad) tt
        ]
        | inr open_ ↦ rw open_ tt
      ]

  dfs-Fine :
      (fuel start current : ℕ) (side : Side) (used path : List ℕ) (branches : ℕ)
      → AllBelow (length survivors) path
      → AllBelow (length survivors) used
      → Distinct used
      → length survivors < fuel + length used
      → Fine request survivors (dfs fuel graph start current side used path branches).0
  unfolding dfs
  dfs-Fine zero start current side used path branches lp lu d enough =
      let most = length-Distinct (length survivors) used d lu in absurd (omega arith)
  dfs-Fine (suc fuel) start current side used path branches lp lu d enough =
      elim (Bool-cases (length path == request.cycle_length)) [
        | inl full ↦ rw full (close-Fine start current side path lp)
        | inr more ↦ rw more (
            try_all-Fine _ used (candidates side (wanted graph current side) graph.index) branches
              (λ next b m new.
                let l = candidates-lt current next side m in
                dfs-Fine fuel start next (other side) (next ∷ used) (path ++ next ∷ []) b
                  (AllBelow-append _ path next lp l) (AllBelow-cons _ used next lu l)
                  ((λ u. true≢false (sym (contains-mem used next u) ∙ new)), d) (omega arith)))
      ]

  -- What an answer of the search may be.
  abbrev Answer : Option (Result SolveError (Option Proof)) → Type 0
  Answer none = ⊥
  Answer (some (ok (some proof))) = Fine request survivors (hit proof)
  Answer (some (ok none)) = Unit
  Answer (some (err e)) = e ≡ search_limit generic_branches

  conclude-Answer :
      (v : Verdict) (rest : Option (Result SolveError (Option Proof)))
      → Fine request survivors v
      → Answer rest
      → Answer (conclude v rest)
  conclude-Answer (hit p) rest f a = f
  conclude-Answer miss rest f a = a
  conclude-Answer limit rest f a = refl
  conclude-Answer stuck rest f a = f

  search_from-Answer :
      (left start branches : ℕ)
      → start + left ≡ length survivors
      → Answer (search_from (suc (length survivors)) graph left start branches)
  unfolding search_from
  search_from-Answer zero start branches e = tt
  search_from-Answer (suc left) start branches e =
      let one : AllBelow (length survivors) (start ∷ []) =
        AllBelow-cons _ [] start (λ a m. absurd m) (omega arith) in
      conclude-Answer _ _
        (dfs-Fine (suc (length survivors)) start start u_side (start ∷ []) (start ∷ []) branches one
          one ((λ n. n), tt) (omega arith))
        (search_from-Answer left (suc start) _ (omega arith))

  find_cycle-Answer : Answer (find_cycle request survivors)
  unfolding find_cycle
  find_cycle-Answer = elim (Bool-cases (ltb (length survivors) request.cycle_length)) [
    | inl small ↦ rw small tt
    | inr large ↦ rw large (search_from-Answer (length survivors) 0 0 (omega arith))
  ]

-- `find_cycle` always returns: the fuel is enough for any list of survivors.
pub find_cycle-returns :
    (request : GraphParams) (survivors : List ℕ) → find_cycle request survivors ≢ none
find_cycle-returns request survivors e =
    subst (Answer request survivors) e (find_cycle-Answer request survivors)

-- A proof that `find_cycle` returns is one that `verify_cycle` accepts, and each of its edges is
-- one of the survivors.
pub find_cycle_sound :
    (request : GraphParams) (survivors : List ℕ) (proof : Proof)
    → find_cycle request survivors ≡ some (ok (some proof))
    → (verify_cycle request.keys request.edge_bits request.cycle_length proof ≡ ok tt)
      × ((a : ℕ) → a ∈ proof.nonces → a ∈ survivors)
find_cycle_sound request survivors proof e =
    let (good, within) = subst (Answer request survivors) e (find_cycle-Answer request survivors) in
    (accepted _ good, within)

-- The only error of `find_cycle` is the one for too many branches.
pub find_cycle-err :
    (request : GraphParams) (survivors : List ℕ) (e : SolveError)
    → find_cycle request survivors ≡ some (err e)
    → e ≡ search_limit generic_branches
find_cycle-err request survivors e h =
    subst (Answer request survivors) h (find_cycle-Answer request survivors)

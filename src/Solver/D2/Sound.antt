-- ===== src/Solver/D2/Sound.antt =====
-- What the answers of the pair search of src/solver/d2.rs mean, and that it returns.
use rust_miner.Base.{
  ℕ, zero, suc, ◌+◌, ◌-◌, ◌^◌, ◌≡◌, ◌≢◌, refl, sym, subst, Bool, true, false, not, ◌||◌, Option,
  none, some, List, [], ◌∷◌,
}
use rust_miner.Base.{
  length, get_or, set, ltb, ◌==◌, ==→≡, ==→≢, Result, ok, err, inl, inr, Bool-cases, arith,
}
use rust_miner.Verify.{Proof, verify_cycle}
use rust_miner.Solver.{GraphParams, SolveError}
use rust_miner.Solver.Search.{
  Verdict, Visit, hit, miss, limit, stuck, resume, max_search_branches, find_cycle,
}
use rust_miner.Solver.Search.Sound.{accepted, find_cycle-returns, find_cycle_sound}
use rust_miner.Solver.D2.{
  Arc, DfsContext, pair_proof, is_cycle_of_42, try_arcs, dfs_arcs, conclude_arcs, search_arcs,
  search_built, find_cycle_d2,
}

-- A proof found is accepted; no search is stuck.
abbrev IsFine : GraphParams → Verdict → Type 0
IsFine request (hit proof) = is_cycle_of_42 request proof ≡ true
IsFine request miss = Unit
IsFine request limit = Unit
IsFine request stuck = ⊥

resume-IsFine :
    (request : GraphParams) (v : Verdict) (branches : ℕ) (back : Visit)
    → IsFine request v
    → IsFine request back.0
    → IsFine request (resume v branches back).0
resume-IsFine request (hit p) branches back f g = f
resume-IsFine request miss branches back f g = g
resume-IsFine request limit branches back f g = tt
resume-IsFine request stuck branches back f g = f

module _ (context : DfsContext) where
  try_arcs-IsFine :
      (visit : Arc → ℕ → Visit) (depth : ℕ) (path mids : List ℕ) (on_path : List Bool)
      (arcs : List Arc) (branches : ℕ)
      → (depth + 1 ≢ 21 → (arc : Arc) (b : ℕ) → IsFine context.request (visit arc b).0)
      → IsFine context.request (try_arcs context visit depth path mids on_path arcs branches).0
  unfolding try_arcs
  try_arcs-IsFine visit depth path mids on_path [] branches good = tt
  try_arcs-IsFine visit depth path mids on_path (arc ∷ arcs) branches good =
      let rest = λ (b : ℕ). try_arcs-IsFine visit depth path mids on_path arcs b good in
      elim (Bool-cases (ltb max_search_branches (branches + 1))) [
        | inl over ↦ rw over tt
        | inr under ↦ elim (Bool-cases (arc.dst == context.start)) [
          | inl home ↦ elim (Bool-cases (depth + 1 == 21)) [
            | inl full ↦
                elim (Bool-cases (
                  is_cycle_of_42 context.request
                    (pair_proof context path (set mids depth arc.mid)))) [
                      | inl accepts ↦ rw (under, home, full, accepts) accepts
                      | inr refuses ↦ rw (under, home, full, refuses) (rest (branches + 1))
                    ]
            | inr short ↦ rw (under, home, short) (rest (branches + 1))
          ]
          | inr away ↦ elim (Bool-cases ((depth + 1 == 21) || get_or on_path arc.dst false)) [
            | inl skip ↦ rw (under, away, skip) (rest (branches + 1))
            | inr go ↦
                rw (under, away, go)
                  (resume-IsFine context.request _ _ _
                    (good (==→≢ _ 21 (ground arith)) arc (branches + 1)) (rest _))
          ]
        ]
      ]

  dfs_arcs-IsFine :
      (fuel current depth : ℕ) (path mids : List ℕ) (on_path : List Bool) (branches : ℕ)
      → suc fuel + depth ≡ 21
      → IsFine context.request
          (dfs_arcs (suc fuel) context current depth path mids on_path branches).0
  unfolding dfs_arcs
  dfs_arcs-IsFine zero current depth path mids on_path branches e =
      try_arcs-IsFine _ depth path mids on_path _ branches (λ short. absurd (short (omega arith)))
  dfs_arcs-IsFine (suc fuel) current depth path mids on_path branches e =
      try_arcs-IsFine _ depth path mids on_path _ branches
        (λ short arc b. dfs_arcs-IsFine fuel arc.dst (depth + 1) _ _ _ b (omega arith))

module _ (request : GraphParams) (survivors : List ℕ) where
  abbrev IsAnswer : Option (Result SolveError (Option Proof)) → Type 0
  IsAnswer none = ⊥
  IsAnswer (some (err e)) = Unit
  IsAnswer (some (ok none)) = Unit
  IsAnswer (some (ok (some proof))) = is_cycle_of_42 request proof ≡ true

  conclude_arcs-IsAnswer :
      (v : Verdict) (rest : Option (Result SolveError (Option Proof)))
      → IsFine request v
      → IsAnswer rest
      → IsAnswer (conclude_arcs v rest)
  conclude_arcs-IsAnswer (hit p) rest f a = f
  conclude_arcs-IsAnswer miss rest f a = a
  conclude_arcs-IsAnswer limit rest f a = tt
  conclude_arcs-IsAnswer stuck rest f a = f

  search_arcs-IsAnswer :
      (offsets : List ℕ) (arcs : List Arc) (left start branches : ℕ)
      → IsAnswer (search_arcs request survivors offsets arcs left start branches)
  unfolding search_arcs
  search_arcs-IsAnswer offsets arcs zero start branches = tt
  search_arcs-IsAnswer offsets arcs (suc left) start branches =
      elim (Bool-cases (get_or offsets start 0 == get_or offsets (start + 1) 0)) [
        | inl empty ↦ rw empty (search_arcs-IsAnswer offsets arcs left (suc start) branches)
        | inr some_arcs ↦ rw some_arcs (
            conclude_arcs-IsAnswer _ _ (dfs_arcs-IsFine _ 20 start 0 _ _ _ branches (omega arith))
              (search_arcs-IsAnswer offsets arcs left (suc start) _))
      ]

  search_built-IsAnswer :
      (built : Result SolveError (List ℕ × List Arc))
      → IsAnswer (search_built request survivors built)
  search_built-IsAnswer (err e) = tt
  search_built-IsAnswer (ok (offsets, arcs)) =
      search_arcs-IsAnswer offsets arcs (length survivors) 0 0

-- What an answer may be.
abbrev IsRight : GraphParams → Option (Result SolveError (Option Proof)) → Type 0
IsRight request none = ⊥
IsRight request (some (err e)) = Unit
IsRight request (some (ok none)) = Unit
IsRight request (some (ok (some proof))) =
    verify_cycle request.keys request.edge_bits request.cycle_length proof ≡ ok tt

answer-IsRight :
    (request : GraphParams) (survivors : List ℕ)
    (answer : Option (Result SolveError (Option Proof)))
    → request.cycle_length ≡ 42
    → IsAnswer request survivors answer
    → IsRight request answer
answer-IsRight request survivors none size a = a
answer-IsRight request survivors (some (err e)) size a = tt
answer-IsRight request survivors (some (ok none)) size a = tt
answer-IsRight request survivors (some (ok (some proof))) size a =
    subst (λ n. verify_cycle request.keys request.edge_bits n proof ≡ ok tt) (sym size)
      (accepted _ a)

cpu-IsRight :
    (request : GraphParams) (survivors : List ℕ)
    (answer : Option (Result SolveError (Option Proof)))
    → find_cycle request survivors ≡ answer
    → IsRight request answer
cpu-IsRight request survivors none e = find_cycle-returns request survivors e
cpu-IsRight request survivors (some (err failure)) e = tt
cpu-IsRight request survivors (some (ok none)) e = tt
cpu-IsRight request survivors (some (ok (some proof))) e =
    (find_cycle_sound request survivors proof e).0

find_cycle_d2-IsRight :
    (request : GraphParams) (survivors : List ℕ) → IsRight request (find_cycle_d2 request survivors)
unfolding find_cycle_d2
find_cycle_d2-IsRight request survivors =
    elim (Bool-cases (ltb (length survivors) request.cycle_length)) [
      | inl small ↦ rw small tt
      | inr large ↦ elim (Bool-cases (not (request.cycle_length == 42))) [
        | inl other ↦ rw (large, other) (cpu-IsRight request survivors _ refl)
        | inr whole ↦ elim (Bool-cases (ltb (2 ^ 32 - 1) (length survivors))) [
          | inl many ↦ rw (large, whole, many) tt
          | inr few ↦
              rw (large, whole, few)
                (answer-IsRight request survivors _ (==→≡ _ 42 (ground arith))
                  (search_built-IsAnswer request survivors _))
        ]
      ]
    ]

-- `find_cycle_d2` always returns: a path of 21 pairs is the longest, whatever the survivors.
pub find_cycle_d2-returns :
    (request : GraphParams) (survivors : List ℕ) → find_cycle_d2 request survivors ≢ none
find_cycle_d2-returns request survivors e =
    subst (IsRight request) e (find_cycle_d2-IsRight request survivors)

-- A proof that `find_cycle_d2` returns, from the pair search or from the search that it falls back
-- on, is one that `verify_cycle` accepts.
pub find_cycle_d2_sound :
    (request : GraphParams) (survivors : List ℕ) (proof : Proof)
    → find_cycle_d2 request survivors ≡ some (ok (some proof))
    → verify_cycle request.keys request.edge_bits request.cycle_length proof ≡ ok tt
find_cycle_d2_sound request survivors proof e =
    subst (IsRight request) e (find_cycle_d2-IsRight request survivors)

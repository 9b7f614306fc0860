-- ===== src/Solver/Search.antt =====
-- src/solver/cpu_lean.rs: the depth-first search for a cycle among the survivors. `used` and `path`
-- are passed down; on the way back the code pops and removes what it had added, so the caller's
-- values are the ones that it reads again. The count of branches is threaded through.
pub mod Sound
pub mod Visits
pub mod Total
pub mod Tours
use rust_miner.Base.{ℕ, zero, suc, ◌+◌, Bool, true, false, not, ◌||◌, Option, none, some, List, []}
use rust_miner.Base.{◌∷◌, ◌++◌, map, length, get_or, ltb, ◌==◌, if◌then◌else◌, Result, ok, err}
use rust_miner.Siphash.{SipKeys}
use rust_miner.Verify.{Proof, VerifyError, sorted, Side, u_side, other, at, mate_node, verify_cycle}
use rust_miner.Verify.Lookup.{EndpointIndex, endpoint_index, candidates}
use rust_miner.Solver.{GraphParams, SolveError, search_limit, generic_branches}

abbrev pub max_search_branches : ℕ
max_search_branches = 100_000_000

-- What the search reads.
pub record Search : Type 0 where
  pub request : GraphParams
  pub survivors : List ℕ
  pub nodes : List (ℕ × ℕ)
  pub index : EndpointIndex

-- `hit` and `miss` are `Ok(Some(_))` and `Ok(None)`, `limit` is `Err(())`; `stuck` is a search of the
-- model that ran out of fuel.
pub data Verdict : Type 0 where
  hit : Proof → Verdict
  miss limit stuck : Verdict

abbrev pub Visit : Type 0
Visit = Verdict × ℕ

-- `contains` of a vector and of a set.
unfoldable pub contains : List ℕ → ℕ → Bool
contains [] a = false
contains (x ∷ xs) a = (x == a) || contains xs a

-- `verify_cycle(..).is_ok()`.
abbrev pub is_accepted : Result VerifyError (Unit {0}) → Bool
is_accepted (ok _) = true
is_accepted (err _) = false

abbrev pub verifies : GraphParams → Proof → Bool
verifies request proof =
    is_accepted (verify_cycle request.keys request.edge_bits request.cycle_length proof)

abbrev pub path_proof : Search → List ℕ → Proof
path_proof graph path = sorted (map (λ i. get_or graph.survivors i 0) path)

abbrev pub wanted : Search → ℕ → Side → ℕ
wanted graph current side = mate_node (at side (get_or graph.nodes current (0, 0)))

-- The branch of `dfs` for a path of full length.
unfoldable pub close : Search → ℕ → ℕ → Side → List ℕ → Verdict
close graph start current side path =
    if not (contains (candidates side (wanted graph current side) graph.index) start)
    then miss
    else if verifies graph.request (path_proof graph path)
    then hit (path_proof graph path)
    else miss

-- What follows a call: the rest of the loop only if it missed.
abbrev pub resume : Verdict → ℕ → Visit → Visit
resume (hit proof) branches back = (hit proof, branches)
resume miss branches back = back
resume limit branches back = (limit, branches)
resume stuck branches back = (stuck, branches)

-- The loop over the candidates; `visit` is the recursive call at a candidate.
unfoldable pub try_all : (ℕ → ℕ → Visit) → List ℕ → List ℕ → ℕ → Visit
try_all visit used [] branches = (miss, branches)
try_all visit used (next ∷ rest) branches =
    let skip = try_all visit used rest (branches + 1) in
    let (verdict, branches') = visit next (branches + 1) in
    let back = try_all visit used rest branches' in
    if ltb max_search_branches (branches + 1)
    then (limit, branches + 1)
    else if contains used next
    then skip
    else resume verdict branches' back

unfoldable pub dfs : ℕ → Search → ℕ → ℕ → Side → List ℕ → List ℕ → ℕ → Visit
dfs zero graph start current side used path branches = (stuck, branches)
dfs (suc fuel) graph start current side used path branches =
    let visit = λ (next : ℕ) (b : ℕ).
      dfs fuel graph start next (other side) (next ∷ used) (path ++ next ∷ []) b in
    let deeper =
      try_all visit used (candidates side (wanted graph current side) graph.index) branches in
    if length path == graph.request.cycle_length
    then (close graph start current side path, branches)
    else deeper

-- What follows the call from one first edge.
abbrev pub conclude :
    Verdict → Option (Result SolveError (Option Proof)) → Option (Result SolveError (Option Proof))
conclude (hit proof) rest = some (ok (some proof))
conclude miss rest = rest
conclude limit rest = some (err (search_limit generic_branches))
conclude stuck rest = none

-- The loop over the first edges from `start`, with `left` to go. `none` is a stuck search.
unfoldable pub search_from : ℕ → Search → ℕ → ℕ → ℕ → Option (Result SolveError (Option Proof))
search_from fuel graph zero start branches = some (ok none)
search_from fuel graph (suc left) start branches =
    let (verdict, branches') =
      dfs fuel graph start start u_side (start ∷ []) (start ∷ []) branches in
    let rest = search_from fuel graph left (suc start) branches' in conclude verdict rest

abbrev pub new_search : GraphParams → List ℕ → Search
new_search request survivors =
    let (nodes, index) = endpoint_index request.keys request.edge_bits survivors in
    record { request = request; survivors = survivors; nodes = nodes; index = index }

-- A path visits each survivor at most once, so it is never longer than the fuel.
unfoldable pub find_cycle : GraphParams → List ℕ → Option (Result SolveError (Option Proof))
find_cycle request survivors =
    if ltb (length survivors) request.cycle_length
    then some (ok none)
    else search_from (suc (length survivors)) (new_search request survivors) (length survivors) 0 0

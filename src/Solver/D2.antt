-- ===== src/Solver/D2.antt =====
-- src/solver/d2.rs: the search for a cycle of 42 over pairs of edges.
pub mod Sound
mod Tests
use rust_miner.Base.{
  ℕ, zero, suc, ◌+◌, ◌-◌, ◌*◌, ◌^◌, bit_xor, Bool, true, false, not, ◌||◌, Option, none, some, List,
  [],
}
use rust_miner.Base.{
  ◌∷◌, ◌++◌, map, length, get_or, set, take, drop, replicate, ltb, ◌==◌, if◌then◌else◌, Result, ok,
  err, ◌>>=◌,
}
use rust_miner.Siphash.{endpoint}
use rust_miner.Verify.{Proof, sorted, mate_node, verify_cycle}
use rust_miner.Solver.{
  GraphParams, SolveError, unsupported, search_limit, d2_arcs, d2_branches, d2_survivors,
}
use rust_miner.Solver.Radix.{radix_order, equal_range}
use rust_miner.Solver.Search.{
  Verdict, Visit, hit, miss, limit, stuck, resume, is_accepted, max_search_branches, find_cycle,
}

abbrev pub arc_cap : ℕ
arc_cap = 16 * 1024 * 1024

pub record Arc : Type 0 where
  pub dst : ℕ
  pub mid : ℕ

pub record DfsContext : Type 0 where
  pub request : GraphParams
  pub survivors : List ℕ
  pub offsets : List ℕ
  pub arcs : List Arc
  pub start : ℕ

-- `xs[begin..end]`.
abbrev pub slice_nodes : List ℕ → ℕ × ℕ → List ℕ
slice_nodes xs (begin, end) = take (end - begin) (drop begin xs)

abbrev pub slice_arcs : List Arc → ℕ → ℕ → List Arc
slice_arcs arcs begin n = take n (drop begin arcs)

-- The innermost loop of the build, over the edges behind `mid`.
pub push_arcs : ℕ → ℕ → List ℕ → List Arc → Result SolveError (List Arc)
push_arcs src mid [] arcs = ok arcs
push_arcs src mid (dst ∷ dsts) arcs =
    let skip = push_arcs src mid dsts arcs in
    let push = push_arcs src mid dsts (arcs ++ record { dst = dst; mid = mid } ∷ []) in
    if dst == src then skip else if length arcs == arc_cap then err (search_limit d2_arcs) else push

-- The loop over the edges `mid` that meet `src` on the first side.
pub push_mids : List ℕ → List ℕ → ℕ → List ℕ → List Arc → Result SolveError (List Arc)
push_mids order_v key_v src [] arcs = ok arcs
push_mids order_v key_v src (mid ∷ mids) arcs =
    let skip = push_mids order_v key_v src mids arcs in
    let dsts = slice_nodes order_v (equal_range order_v key_v (mate_node (get_or key_v mid 0))) in
    let push = push_arcs src mid dsts arcs >>= λ arcs'. push_mids order_v key_v src mids arcs' in
    if mid == src then skip else push

-- The loop over `src`, with `left` to go; at its end the last offset is pushed.
pub build_arcs :
    List ℕ
    → List ℕ
    → List ℕ
    → List ℕ
    → ℕ
    → ℕ
    → List ℕ
    → List Arc
    → Result SolveError (List ℕ × List Arc)
build_arcs order_u key_u order_v key_v zero src offsets arcs =
    ok (offsets ++ length arcs ∷ [], arcs)
build_arcs order_u key_u order_v key_v (suc left) src offsets arcs = do
  let mids = slice_nodes order_u (equal_range order_u key_u (mate_node (get_or key_u src 0)))
  arcs' ← push_mids order_v key_v src mids arcs
  build_arcs order_u key_u order_v key_v left (suc src) (offsets ++ length arcs ∷ []) arcs'

-- The nonces of the 21 pairs.
pub pair_nonces : List ℕ → List ℕ → List ℕ → ℕ → ℕ → List ℕ
pair_nonces survivors path mids i zero = []
pair_nonces survivors path mids i (suc n) =
    get_or survivors (get_or path i 0) 0
    ∷ get_or survivors (get_or mids i 0) 0
    ∷ pair_nonces survivors path mids (suc i) n

abbrev pub pair_proof : DfsContext → List ℕ → List ℕ → Proof
pair_proof context path mids = sorted (pair_nonces context.survivors path mids 0 21)

abbrev pub is_cycle_of_42 : GraphParams → Proof → Bool
is_cycle_of_42 request proof = is_accepted (verify_cycle request.keys request.edge_bits 42 proof)

-- The loop over the arcs of one node. `visit` is the recursive call. `path`, `mids` and `on_path` are
-- passed down: what a call wrote is written again before it is read, and marks are taken back.
pub try_arcs :
    DfsContext → (Arc → ℕ → Visit) → ℕ → List ℕ → List ℕ → List Bool → List Arc → ℕ → Visit
try_arcs context visit depth path mids on_path [] branches = (miss, branches)
try_arcs context visit depth path mids on_path (arc ∷ arcs) branches =
    let skip = try_arcs context visit depth path mids on_path arcs (branches + 1) in
    let (verdict, branches') = visit arc (branches + 1) in
    let back = try_arcs context visit depth path mids on_path arcs branches' in
    let proof = pair_proof context path (set mids depth arc.mid) in
    if ltb max_search_branches (branches + 1)
    then (limit, branches + 1)
    else if arc.dst == context.start
    then (if (depth + 1 == 21)
        then (if is_cycle_of_42 context.request proof then (hit proof, branches + 1) else skip)
        else skip)
    else if (depth + 1 == 21) || get_or on_path arc.dst false
    then skip
    else resume verdict branches' back

pub dfs_arcs : ℕ → DfsContext → ℕ → ℕ → List ℕ → List ℕ → List Bool → ℕ → Visit
dfs_arcs zero context current depth path mids on_path branches = (stuck, branches)
dfs_arcs (suc fuel) context current depth path mids on_path branches =
    let begin = get_or context.offsets current 0 in
    let end = get_or context.offsets (current + 1) 0 in
    let visit = λ (arc : Arc) (b : ℕ).
      dfs_arcs fuel context arc.dst (depth + 1) (set path (depth + 1) arc.dst)
        (set mids depth arc.mid) (set on_path arc.dst true) b in
    try_arcs context visit depth path mids on_path (slice_arcs context.arcs begin (end - begin))
      branches

abbrev pub conclude_arcs :
    Verdict → Option (Result SolveError (Option Proof)) → Option (Result SolveError (Option Proof))
conclude_arcs (hit proof) rest = some (ok (some proof))
conclude_arcs miss rest = rest
conclude_arcs limit rest = some (err (search_limit d2_branches))
conclude_arcs stuck rest = none

-- The loop over the starts, with `left` to go.
pub search_arcs :
    GraphParams → List ℕ → List ℕ → List Arc → ℕ → ℕ → ℕ → Option (Result SolveError (Option Proof))
search_arcs request survivors offsets arcs zero start branches = some (ok none)
search_arcs request survivors offsets arcs (suc left) start branches =
    let context : DfsContext = record {
      request = request;
      survivors = survivors;
      offsets = offsets;
      arcs = arcs;
      start = start;
    } in
    let on_path = set (replicate (length survivors) false) start true in
    let (verdict, branches') =
      dfs_arcs 21 context start 0 (set (replicate 21 0) 0 start) (replicate 21 0) on_path
        branches in
    let skip = search_arcs request survivors offsets arcs left (suc start) branches in
    let rest = search_arcs request survivors offsets arcs left (suc start) branches' in
    if get_or offsets start 0 == get_or offsets (start + 1) 0
    then skip
    else conclude_arcs verdict rest

abbrev pub search_built :
    GraphParams
    → List ℕ
    → Result SolveError (List ℕ × List Arc)
    → Option (Result SolveError (Option Proof))
search_built request survivors (err e) = some (err e)
search_built request survivors (ok (offsets, arcs)) =
    search_arcs request survivors offsets arcs (length survivors) 0 0

unfoldable pub find_cycle_d2 : GraphParams → List ℕ → Option (Result SolveError (Option Proof))
find_cycle_d2 request survivors =
    let key_u = map (λ edge. endpoint request.keys request.edge_bits edge 0) survivors in
    let key_v = map (λ edge. endpoint request.keys request.edge_bits edge 1) survivors in
    if ltb (length survivors) request.cycle_length
    then some (ok none)
    else if not (request.cycle_length == 42)
    then find_cycle request survivors
    else if ltb (2 ^ 32 - 1) (length survivors)
    then some (err (unsupported d2_survivors))
    else search_built request survivors
        (build_arcs (radix_order key_u) key_u (radix_order key_v) key_v (length survivors) 0 [] [])

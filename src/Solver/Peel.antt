-- ===== src/Solver/Peel.antt =====
-- src/solver/peel.rs: `peel_two_core` takes away edges without a live mate until there are none. The
-- groups are the edges with one node on one side. `usize` has 64 bits.
pub mod Runs
pub mod Grouped
pub mod Sides
pub mod Mates
pub mod Loses
pub mod Drains
pub mod Keeps
pub mod Returns
mod Tests
use rust_miner.Base.{
  ℕ, zero, suc, ◌+◌, ◌-◌, ◌*◌, ◌%◌, ◌^◌, Bool, true, false, not, Option, none, some,
}
use rust_miner.Base.{List, [], ◌∷◌, ◌++◌, map, length, get_or, set, replicate, take, drop, bit_xor}
use rust_miner.Base.{Result, ok, err, ltb, leb, ◌==◌, if◌then◌else◌}
use rust_miner.Siphash.{endpoint}
use rust_miner.Solver.{GraphParams, SolveError, unsupported, core_survivors}
use rust_miner.Solver.Radix.{radix_order}

-- One side: the group of each edge, the node of each group, where each group begins in `edges`, and
-- the edges group by group.
pub record Groups : Type 0 where
  pub group_of : List ℕ
  pub keys : List ℕ
  pub offsets : List ℕ
  pub edges : List ℕ

-- How many edges in front have the node.
unfoldable pub run_length : List ℕ → ℕ → List ℕ → ℕ
run_length keys key [] = 0
run_length keys key (edge ∷ order) =
    let longer = suc (run_length keys key order) in if get_or keys edge 0 == key then longer else 0

unfoldable pub assign : ℕ → List ℕ → List ℕ → List ℕ
assign group [] group_of = group_of
assign group (edge ∷ edges) group_of = assign group edges (set group_of edge group)

-- The end of a run: its node, its edges and its end are pushed. `first` groups belong to the sides
-- before.
abbrev pub add_group : ℕ → ℕ → List ℕ → Groups → Groups
add_group first key members g = record {
  group_of = assign (first + length g.keys) members g.group_of;
  keys = g.keys ++ key ∷ [];
  offsets = g.offsets ++ (length g.edges + length members) ∷ [];
  edges = g.edges ++ members;
}

-- The loop over the runs of `order`; each round takes at least one edge, so that its length is
-- enough fuel.
unfoldable pub group_runs : ℕ → List ℕ → ℕ → List ℕ → Groups → Groups
group_runs first keys fuel [] g = g
group_runs first keys zero (edge ∷ order) g = g
group_runs first keys (suc fuel) (edge ∷ order) g =
    let key = get_or keys edge 0 in
    let n = run_length keys key order in
    group_runs first keys fuel (drop n order) (add_group first key (edge ∷ take n order) g)

unfoldable pub group_side : ℕ → List ℕ → Groups
group_side first keys =
    group_runs first keys (length keys) (radix_order keys)
      (record { group_of = replicate (length keys) 0; keys = []; offsets = 0 ∷ []; edges = [] })

-- The group of the complementary node is a neighbour in the order of the nodes, if there is one.
-- `l` counts from the first group of the side.
abbrev pub is_even : ℕ → Bool
is_even n = n % 2 == 0

abbrev pub neighbour : List ℕ → ℕ → Option ℕ
neighbour keys l =
    if is_even (get_or keys l 0)
    then (if ltb (l + 1) (length keys) then some (l + 1) else none)
    else (if l == 0 then none else some (l - 1))

abbrev pub if_complement : List ℕ → ℕ → Option ℕ → Option ℕ
if_complement keys l none = none
if_complement keys l (some m) =
    if get_or keys m 0 == bit_xor (get_or keys l 0) 1 then some m else none

unfoldable pub mate_group : List ℕ → ℕ → Option ℕ
mate_group keys l = if_complement keys l (neighbour keys l)

-- The edges of a group.
abbrev pub slice : List ℕ → ℕ → ℕ → List ℕ
slice xs begin end = take (end - begin) (drop begin xs)

abbrev pub members : Groups → ℕ → List ℕ
members g l = slice g.edges (get_or g.offsets l 0) (get_or g.offsets (l + 1) 0)

-- `windows(2)` of the offsets: how many edges each group has.
unfoldable pub widths : List ℕ → List ℕ
widths [] = []
widths (begin ∷ []) = []
widths (begin ∷ end ∷ offsets) = (end - begin) ∷ widths (end ∷ offsets)

-- What the loop over the queue reads. Groups are numbered through both sides.
pub record Core : Type 0 where
  pub left : Groups
  pub right : Groups

pub record Peeling : Type 0 where
  pub alive : List Bool
  pub live_count : List ℕ
  pub queued : List Bool
  pub queue : List ℕ

module _ (core : Core) where
  open core use {left, right}

  abbrev pub right_start : ℕ
  right_start = length left.keys

  abbrev pub group_count : ℕ
  group_count = length left.keys + length right.keys

  abbrev pub shift_by : ℕ → Option ℕ → Option ℕ
  shift_by n none = none
  shift_by n (some m) = some (n + m)

  -- The entry of a group in the table `mate_group`.
  unfoldable pub mate_at : ℕ → Option ℕ
  mate_at group =
      if ltb group right_start
      then mate_group left.keys group
      else shift_by right_start (mate_group right.keys (group - right_start))

  unfoldable pub edges_of : ℕ → List ℕ
  edges_of group =
      if ltb group right_start then members left group else members right (group - right_start)

  -- A group is put into the queue once.
  abbrev pub enqueue : ℕ → Peeling → Peeling
  enqueue group s =
      if get_or s.queued group false
      then s
      else record s { queued = set s.queued group true; queue = s.queue ++ group ∷ [] }

  abbrev pub enqueue_mate : Option ℕ → Peeling → Peeling
  enqueue_mate none s = s
  enqueue_mate (some mate) s = enqueue mate s

  -- An edge of the group has died; with the last one, its mates have none left.
  unfoldable pub lose_one : ℕ → Peeling → Peeling
  lose_one group s =
      let count = get_or s.live_count group 0 - 1 in
      let s' = record s { live_count = set s.live_count group count } in
      if count == 0 then enqueue_mate (mate_at group) s' else s'

  unfoldable pub kill : ℕ → Peeling → Peeling
  kill edge s =
      if get_or s.alive edge false
      then lose_one (get_or right.group_of edge 0)
          (lose_one (get_or left.group_of edge 0) (record s { alive = set s.alive edge false }))
      else s

  unfoldable pub kill_all : List ℕ → Peeling → Peeling
  kill_all [] s = s
  kill_all (edge ∷ edges) s = kill_all edges (kill edge s)

  abbrev pub lacks_mate : List ℕ → Option ℕ → Bool
  lacks_mate live_count none = true
  lacks_mate live_count (some mate) = get_or live_count mate 0 == 0

  -- The groups that have no live mate at the start; `n` of them are to go.
  unfoldable pub seed : ℕ → ℕ → Peeling → Peeling
  seed group zero s = s
  seed group (suc n) s = seed (suc group) n (
      if lacks_mate s.live_count (mate_at group)
      then record s { queued = set s.queued group true; queue = s.queue ++ group ∷ [] }
      else s)

  abbrev pub step_queue : List ℕ → Peeling → (Peeling → Option Peeling) → Option Peeling
  step_queue [] s rest = some s
  step_queue (group ∷ queue) s rest = rest (kill_all (edges_of group) (record s { queue = queue }))

  -- `none` is a queue that is not empty when the fuel has run out.
  unfoldable pub drain : ℕ → Peeling → Option Peeling
  drain zero s = step_queue s.queue s (λ s'. none)
  drain (suc fuel) s = step_queue s.queue s (λ s'. drain fuel s')

  unfoldable pub start_peeling : ℕ → Peeling
  start_peeling edges = record {
    alive = replicate edges true;
    live_count = widths left.offsets ++ widths right.offsets;
    queued = replicate group_count false;
    queue = [];
  }

unfoldable pub core_of : GraphParams → List ℕ → Core
core_of request survivors =
    let node = λ (side : ℕ) (edge : ℕ). endpoint request.keys request.edge_bits edge side in
    let left = group_side 0 (map (node 0) survivors) in
    record { left = left; right = group_side (length left.keys) (map (node 1) survivors) }

unfoldable pub keep_alive : List ℕ → List Bool → List ℕ
keep_alive [] alive = []
keep_alive (edge ∷ survivors) [] = []
keep_alive (edge ∷ survivors) (a ∷ alive) =
    let rest = keep_alive survivors alive in if a then edge ∷ rest else rest

abbrev pub survivors_in : List ℕ → Option Peeling → Option (List ℕ)
survivors_in survivors none = none
survivors_in survivors (some s) = some (keep_alive survivors s.alive)

abbrev pub peeled : List ℕ → Core → Option (List ℕ)
peeled survivors core = survivors_in survivors (
    drain core (group_count core)
      (seed core 0 (group_count core) (start_peeling core (length survivors))))

abbrev pub as_ok : Option (List ℕ) → Option (Result SolveError (List ℕ))
as_ok none = none
as_ok (some kept) = some (ok kept)

-- `none` would be a queue that outlasts the number of groups.
unfoldable pub peel_two_core : GraphParams → List ℕ → Option (Result SolveError (List ℕ))
peel_two_core request survivors =
    if ltb (2 ^ 32 - 1) (length survivors)
    then some (err (unsupported core_survivors))
    else if length survivors == 0
    then some (ok [])
    else as_ok (peeled survivors (core_of request survivors))

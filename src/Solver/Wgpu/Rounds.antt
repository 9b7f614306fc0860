-- ===== src/Solver/Wgpu/Rounds.antt =====
-- src/solver/gpu_wgpu.rs: the loop over the rounds of a trimming on the device.
use rust_miner.Base.{ℕ, zero, suc, ◌+◌, ◌-◌, ◌*◌, min, Bool, true, false, not, ◌||◌, ◌&&◌, bit_and}
use rust_miner.Base.{Option, none, some, List, [], ◌∷◌, ◌++◌, Result, ok, err, ltb, ◌==◌}
use rust_miner.Base.{if◌then◌else◌}
use rust_miner.Solver.{GraphParams, SolveError, Reason}
use rust_miner.Solver.{survivor_counts_done, fine_csr_done, node_mask_done}
use rust_miner.Solver.Trim.{trailing_zeros}
use rust_miner.Solver.Wgpu.{GpuWgpuSolver, bucketed_mark_rounds}
use rust_miner.Solver.Wgpu.Prepare.{TrimOptions, PreparedTrim, prepare_trim}

abbrev pub rounds_per_submission : ℕ
rounds_per_submission = 16

-- What the device answers during one trimming, and what the loads of the flag before and after the
-- work on a round read. `dense_round` and `bucket_round` are false if they were cancelled.
pub record Device : Type 0 where
  pub dense_round : ℕ → Result SolveError Bool
  pub bucket_round : ℕ → Result SolveError Bool
  pub lean_rounds : ℕ → ℕ → Result SolveError (Unit {0})
  pub fine_transition : ℕ → ℕ → Result SolveError (Option (List ℕ))
  pub edge_words : Result SolveError (List ℕ)
  pub cancel_before : ℕ → Bool
  pub cancel_after : ℕ → Bool

pub data TrimOutcome : Type 0 where
  trimmed : List ℕ → TrimOutcome
  trim_cancelled : TrimOutcome
  diagnostic : Reason → TrimOutcome

-- `TrimRun`: what the loop reads.
pub record TrimRun : Type 0 where
  pub prepared : PreparedTrim
  pub live_work : Bool
  pub bucket_rounds : ℕ
  pub fine_transition_round : ℕ
  pub fine_end_round : ℕ

unfoldable pub trim_run : PreparedTrim → Bool → TrimRun
trim_run prepared live_work =
    let fine = prepared.modes.fine in
    let transition = if fine then (if prepared.modes.slean then 3 else 2) else 6 in
    record {
      prepared = prepared;
      live_work = live_work;
      bucket_rounds =
          if fine then (if prepared.modes.slean then 3 else transition) else bucketed_mark_rounds;
      fine_transition_round = transition;
      fine_end_round =
          if fine then prepared.diagnostics.rounds else prepared.diagnostics.fine_end_round;
    }

-- The set bits of a word, the lowest first; a word has 32.
unfoldable pub word_survivors : ℕ → ℕ → ℕ → ℕ → List ℕ
word_survivors zero edge_count base bits = []
word_survivors (suc fuel) edge_count base bits =
    let edge = base + trailing_zeros 32 bits in
    let rest = word_survivors fuel edge_count base (bit_and bits (bits - 1)) in
    if bits == 0 then [] else if ltb edge edge_count then edge ∷ rest else rest

unfoldable pub bitmap_survivors : ℕ → ℕ → List ℕ → List ℕ
bitmap_survivors edge_count word_index [] = []
bitmap_survivors edge_count word_index (word ∷ words) =
    word_survivors 32 edge_count (word_index * 32) word
    ++ bitmap_survivors edge_count (suc word_index) words

abbrev pub read_survivors : ℕ → Result SolveError (List ℕ) → Result SolveError TrimOutcome
read_survivors edge_count (err e) = err e
read_survivors edge_count (ok words) = ok (trimmed (bitmap_survivors edge_count 0 words))

module _ (device : Device) (trim : TrimRun) where
  open trim use {prepared}
  open prepared use {diagnostics, modes}

  -- A round on its own: the next round, or none if it was cancelled.
  abbrev pub one_round : ℕ → Result SolveError Bool → Result SolveError (Option ℕ)
  one_round round (err e) = err e
  one_round round (ok completed) = ok (if completed then some (round + 1) else none)

  abbrev pub lean_batch : ℕ → Result SolveError (Unit {0}) → Result SolveError (Option ℕ)
  lean_batch batch_end (err e) = err e
  lean_batch batch_end (ok _) = ok (some batch_end)

  -- `run_lean_batch` up to `batch_end`.
  unfoldable pub batch_end : ℕ → ℕ
  batch_end round =
      let one_at_a_time =
        diagnostics.per_round || diagnostics.survivor_counts || diagnostics.fine_csr
        || trim.live_work in
      min (round + (if one_at_a_time then 1 else rounds_per_submission)) diagnostics.rounds

  unfoldable pub advance_round : ℕ → Result SolveError (Option ℕ)
  advance_round round =
      if modes.slean && ltb round trim.bucket_rounds
      then one_round round (device.dense_round round)
      else if modes.bucketed_mark && not modes.slean && ltb round trim.bucket_rounds
      then one_round round (device.bucket_round round)
      else lean_batch (batch_end round) (device.lean_rounds round (batch_end round))

  -- The survivor counts of a diagnostic run are only printed.
  unfoldable pub report_round : ℕ → Result SolveError (Option (List ℕ))
  report_round completed_round =
      if (diagnostics.fine_csr || modes.fine)
        && (completed_round == trim.fine_transition_round)
        && ltb completed_round trim.fine_end_round
      then device.fine_transition completed_round trim.fine_end_round
      else ok none

  abbrev pub is_set : Option ℕ → Bool
  is_set none = false
  is_set (some _) = true

  -- What follows the loop.
  unfoldable pub read_back : Result SolveError TrimOutcome
  read_back =
      if diagnostics.survivor_counts
      then ok (diagnostic survivor_counts_done)
      else if diagnostics.fine_csr
      then ok (diagnostic fine_csr_done)
      else if is_set diagnostics.mask_bits
      then ok (diagnostic node_mask_done)
      else read_survivors prepared.graph.edge_count device.edge_words

  abbrev pub after_report :
      Result SolveError (Option (List ℕ))
      → Option (Result SolveError TrimOutcome)
      → Option (Result SolveError TrimOutcome)
  after_report (err e) rest = some (err e)
  after_report (ok (some survivors)) rest = some (ok (trimmed survivors))
  after_report (ok none) rest = rest

  abbrev pub after_round :
      Result SolveError (Option ℕ)
      → (ℕ → Option (Result SolveError TrimOutcome))
      → Option (Result SolveError TrimOutcome)
  after_round (err e) rest = some (err e)
  after_round (ok none) rest = some (ok trim_cancelled)
  after_round (ok (some round)) rest =
      let more = after_report (report_round round) (rest round) in
      if device.cancel_after round then some (ok trim_cancelled) else more

  -- `none` is a loop that is not over when the fuel has run out.
  unfoldable pub run_rounds : ℕ → ℕ → Option (Result SolveError TrimOutcome)
  run_rounds zero round = if ltb round diagnostics.rounds then none else some read_back
  run_rounds (suc fuel) round =
      let next = after_round (advance_round round) (λ r. run_rounds fuel r) in
      if ltb round diagnostics.rounds
      then (if device.cancel_before round then some (ok trim_cancelled) else next)
      else some read_back

-- `trim_with_mark_mode` without the counters of its rounds; each round of the loop ends at a later
-- round, so that the number of rounds is enough fuel.
abbrev pub executed :
    (PreparedTrim → Device)
    → Bool
    → Option (Result SolveError PreparedTrim)
    → Option (Result SolveError TrimOutcome)
executed device live_work none = none
executed device live_work (some (err e)) = some (err e)
executed device live_work (some (ok prepared)) =
    run_rounds (device prepared) (trim_run prepared live_work) prepared.diagnostics.rounds 0

unfoldable pub trim_with_mark_mode :
    GpuWgpuSolver
    → (PreparedTrim → Device)
    → GraphParams
    → ℕ
    → Bool
    → TrimOptions
    → Option (Result SolveError TrimOutcome)
trim_with_mark_mode solver device request rounds live_work options =
    executed device live_work (prepare_trim solver request rounds options)

-- ===== src/Solver/Wgpu/Ends.antt =====
-- src/solver/gpu_wgpu.rs: the loop over the rounds of a trimming ends, whatever the device answers.
use rust_miner.Base.{
  ℕ, zero, suc, ◌+◌, ◌^◌, ◌≤◌, ◌<◌, Bool, true, false, not, ◌||◌, ◌&&◌, Option, none, some, List,
}
use rust_miner.Base.{Result, ok, err, ltb, ◌≡◌, ◌≢◌, refl, sym, arith, none≢some, some_inj, ok_inj}
use rust_miner.Base.{div_ceil, ◌==◌, ◌*◌, ◌%◌, Bool-cases, inl, inr, ltb→lt, subst}
use native.Mathlib.Nat.{pow-le-pow_right}
use rust_miner.Solver.{GraphParams, SolveError}
use rust_miner.Solver.Wgpu.{GpuWgpuSolver, exceeds, Limits, GraphSize, SleanSizing, graph_size}
use rust_miner.Solver.Wgpu.Prepare.{
  TrimOptions, PreparedTrim, prepare_trim, from_env, production_modes, with_graph, with_sizing,
}
use rust_miner.Solver.Wgpu.Fits.{err≢ok, slean_sizing-returns}
use rust_miner.Solver.Wgpu.Rounds.{
  Device, TrimRun, TrimOutcome, one_round, lean_batch, batch_end, advance_round, report_round,
  after_report, after_round, run_rounds, executed, trim_run, trim_with_mark_mode,
}

module _ (device : Device) (trim : TrimRun) where
  open trim use {prepared}
  open prepared use {diagnostics, modes}

  one_round-later :
      (round next : ℕ) (r : Result SolveError Bool)
      → one_round device trim round r ≡ ok (some next)
      → round < next
  one_round-later round next (err e) h = cc
  one_round-later round next (ok false) h = cc
  one_round-later round next (ok true) h = omega (arith, some_inj (ok_inj h))

  lean_batch-end :
      (batch next : ℕ) (r : Result SolveError (Unit {0}))
      → lean_batch device trim batch r ≡ ok (some next)
      → batch ≡ next
  lean_batch-end batch next (err e) h = cc
  lean_batch-end batch next (ok tt) h = some_inj (ok_inj h)

  batch_end-later : (round : ℕ) → round < diagnostics.rounds → round < batch_end device trim round
  unfolding batch_end
  batch_end-later round more = ground arith

  advance_round-later :
      (round next : ℕ)
      → round < diagnostics.rounds
      → advance_round device trim round ≡ ok (some next)
      → round < next
  unfolding advance_round
  advance_round-later round next more e =
      elim (Bool-cases (modes.slean && ltb round trim.bucket_rounds)) [
        | inl dense ↦ one_round-later round next _ (rw dense at e)
        | inr sparse ↦
            elim (Bool-cases
              (modes.bucketed_mark && not modes.slean && ltb round trim.bucket_rounds)) [
                | inl bucketed ↦ one_round-later round next _ (rw (sparse, bucketed) at e)
                | inr plain ↦ omega (
                  arith,
                  batch_end-later round more,
                  lean_batch-end (batch_end device trim round) next _ (rw (sparse, plain) at e),
                )
              ]
      ]

  after_round-returns :
      (r : Result SolveError (Option ℕ)) (rest : ℕ → Option (Result SolveError TrimOutcome))
      → ((next : ℕ) → r ≡ ok (some next) → rest next ≢ none)
      → after_round device trim r rest ≢ none
  after_round-returns (err e) rest later = λ h. none≢some (sym h)
  after_round-returns (ok none) rest later = λ h. none≢some (sym h)
  after_round-returns (ok (some next)) rest later = elim (Bool-cases (device.cancel_after next)) [
    | inl cancelled ↦ rw cancelled (λ h. none≢some (sym h))
    | inr calm ↦ rw calm (reported (report_round device trim next))
  ]
    where
      reported :
          (r : Result SolveError (Option (List ℕ))) → after_report device trim r (rest next) ≢ none
      reported (err e) = λ h. none≢some (sym h)
      reported (ok (some survivors)) = λ h. none≢some (sym h)
      reported (ok none) = later next refl

  run_rounds-returns :
      (fuel round : ℕ)
      → diagnostics.rounds ≤ round + fuel
      → run_rounds device trim fuel round ≢ none
  unfolding run_rounds
  run_rounds-returns zero round enough = elim (Bool-cases (ltb round diagnostics.rounds)) [
    | inl more ↦ omega (arith, ltb→lt round diagnostics.rounds more)
    | inr over ↦ rw over (λ h. none≢some (sym h))
  ]
  run_rounds-returns (suc fuel) round enough = elim (Bool-cases (ltb round diagnostics.rounds)) [
    | inl more ↦ elim (Bool-cases (device.cancel_before round)) [
      | inl cancelled ↦ rw (more, cancelled) (λ h. none≢some (sym h))
      | inr calm ↦
          rw (more, calm)
            (after_round-returns (advance_round device trim round)
              (λ r. run_rounds device trim fuel r)
              (λ next e. run_rounds-returns fuel next (
                omega (
                  arith,
                  advance_round-later round next (ltb→lt round diagnostics.rounds more) e,
                ))))
    ]
    | inr over ↦ rw over (λ h. none≢some (sym h))
  ]

graph_size-le :
    (limits : Limits) (request : GraphParams) (graph : GraphSize)
    → graph_size limits request ≡ ok graph
    → graph.edge_count ≤ 2 ^ 32
unfolding graph_size
graph_size-le limits request graph e =
    elim (Bool-cases ((request.edge_bits == 0) || ltb 32 request.edge_bits)) [
      | inl out ↦ absurd (err≢ok (rw out at e))
      | inr within ↦
          elim (Bool-cases ((request.cycle_length == 0) || not (request.cycle_length % 2 == 0))) [
            | inl odd ↦ absurd (err≢ok (rw (within, odd) at e))
            | inr even ↦
                elim (Bool-cases (exceeds limits (div_ceil (2 ^ request.edge_bits) 32 * 4))) [
                  | inl large ↦ absurd (err≢ok (rw (within, even, large) at e))
                  | inr fitting ↦
                      subst (λ (g : GraphSize). g.edge_count ≤ 2 ^ 32)
                        (ok_inj (rw (within, even, fitting) at e))
                        (pow-le-pow_right (omega arith) (bits_le within))
                ]
          ]
    ]
  where
    bits_le :
        ((request.edge_bits == 0) || ltb 32 request.edge_bits) ≡ false → request.edge_bits ≤ 32
    bits_le within = ground arith

-- A trimming always ends, whatever the device answers and the flag reads, if the configuration has
-- a part.
pub trim_with_mark_mode-returns :
    (solver : GpuWgpuSolver) (device : PreparedTrim → Device) (request : GraphParams) (rounds : ℕ)
    (live_work : Bool) (options : TrimOptions)
    → 1 ≤ solver.config.slean_parts
    → trim_with_mark_mode solver device request rounds live_work options ≢ none
unfolding trim_with_mark_mode prepare_trim trim_run
trim_with_mark_mode-returns solver device request rounds live_work options pos =
    ends (prepare_trim solver request rounds options)
      (with_graph-returns (graph_size solver.limits request) (graph_size-le solver.limits request))
  where
    ends :
        (p : Option (Result SolveError PreparedTrim))
        → p ≢ none
        → executed device live_work p ≢ none
    ends none there = absurd (there refl)
    ends (some (err e)) there = λ h. none≢some (sym h)
    ends (some (ok prepared)) there =
        run_rounds-returns (device prepared) (trim_run prepared live_work)
          prepared.diagnostics.rounds 0 (omega arith)

    with_graph-returns :
        (g : Result SolveError GraphSize)
        → ((graph : GraphSize) → g ≡ ok graph → graph.edge_count ≤ 2 ^ 32)
        → with_graph solver request
            (from_env rounds options.fine_end)
            (production_modes request options (from_env rounds options.fine_end))
            g
          ≢ none
    with_graph-returns (err e) small = λ h. none≢some (sym h)
    with_graph-returns (ok graph) small =
        sized _
          (slean_sizing-returns solver _ graph.edge_count graph.bitmap_bytes pos (small graph refl))
      where
        sized :
            (s : Option (Result SolveError SleanSizing))
            → s ≢ none
            → with_sizing solver.limits request
                (from_env rounds options.fine_end)
                (production_modes request options (from_env rounds options.fine_end))
                graph
                s
              ≢ none
        sized none there = absurd (there refl)
        sized (some (err e)) there = λ h. none≢some (sym h)
        sized (some (ok sizing)) there = λ h. none≢some (sym h)

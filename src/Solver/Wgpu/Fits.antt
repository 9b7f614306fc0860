-- ===== src/Solver/Wgpu/Fits.antt =====
-- The sizes of `slean_sizing` of src/solver/gpu_wgpu.rs: the loop ends, and what it finds fits.
use rust_miner.Base.{
  ℕ, zero, suc, ◌*◌, ◌-◌, ◌^◌, ◌≤◌, ◌<◌, Bool, true, false, ◌||◌, ◌&&◌, not, ◌==◌, Option, none,
  some, ltb,
}
use rust_miner.Base.{
  Result, ok, err, arith, inl, inr, Bool-cases, some_inj, none≢some, ok_inj, ◌≡◌, ◌≢◌, ◌⊎◌, ◌∙◌,
  refl, sym,
}
use rust_miner.Base.{subst, ap, is_power_of_two, le-mul-div_ceil, div_ceil-pos, div_ceil, ltb→le}
use native.Mathlib.Nat.{le_trans, pow-suc, mul_assoc, mul-le-mul_left}
use rust_miner.Solver.{unsupported, part_too_large}
use rust_miner.Solver.Wgpu.{
  GpuWgpuSolver, Limits, SleanSizing, exceeds, fits, sizing_for, double_parts, slean_sizing,
  selected_slean_parts, auto_parts, is_scarce, is_auto, local_bytes,
}

-- One pass of the loop refuses, takes the sizes, or goes on with twice the parts.
double_parts-cases :
    (solver : GpuWgpuSolver) (fuel : ℕ) (enabled : Bool) (local edge_count bucket_count parts : ℕ)
    → (double_parts solver (suc fuel) enabled local edge_count bucket_count parts
        ≡ some (err (unsupported part_too_large)))
      ⊎ ((parts ≤ edge_count)
          × (((fits solver enabled (sizing_for solver local edge_count bucket_count parts) ≡ true)
                × (double_parts solver (suc fuel) enabled local edge_count bucket_count parts
                    ≡ some (ok (sizing_for solver local edge_count bucket_count parts))))
              ⊎ (double_parts solver (suc fuel) enabled local edge_count bucket_count parts
                  ≡ double_parts solver fuel enabled local edge_count bucket_count (parts * 2))))
unfolding double_parts sizing_for
double_parts-cases solver fuel enabled local edge_count bucket_count parts =
    elim (Bool-cases (ltb edge_count parts)) [
      | inl over ↦ inl (rw over refl)
      | inr within ↦ inr (
        ltb→le edge_count parts within,
        elim (Bool-cases
            (fits solver enabled (sizing_for solver local edge_count bucket_count parts))) [
              | inl good ↦ inl (good, rw (within, good) refl)
              | inr bad ↦ inr (rw (within, bad) refl)
            ],
      )
    ]

-- A part of the graph holds its share of the edges, its buckets hold the part, and the buffers are
-- within the limits.
pub record IsFit (limits : Limits) (edge_count : ℕ) (sizing : SleanSizing) : Type 0 where
  pub few : sizing.parts ≤ edge_count
  pub covers : edge_count ≤ sizing.parts * sizing.part_edges
  pub roomy : sizing.part_edges ≤ sizing.bucket_count * sizing.capacity
  pub scratch :
      (sizing.scratch_bytes ≤ limits.max_buffer_size)
      × (sizing.scratch_bytes ≤ limits.max_storage_buffer_binding_size)
  pub dead :
      (sizing.dead_scratch_bytes ≤ limits.max_buffer_size)
      × (sizing.dead_scratch_bytes ≤ limits.max_storage_buffer_binding_size)

pub err≢ok : {A B : Type 0} {e : A} {b : B} → ◌≡◌ {A = Result A B} (err e) (ok b) → ⊥
err≢ok h = cc

within-limits :
    (limits : Limits) (a b : ℕ)
    → (not (exceeds limits a) && not (exceeds limits b)) ≡ true
    → ((a ≤ limits.max_buffer_size) × (a ≤ limits.max_storage_buffer_binding_size))
      × ((b ≤ limits.max_buffer_size) × (b ≤ limits.max_storage_buffer_binding_size))
within-limits limits a b h = ground arith

module _ (solver : GpuWgpuSolver) (calm : solver.force_slean_overflow ≡ false) where
  open solver use {limits}

  covered :
      (local edge_count bucket_count parts : ℕ)
      → 0 < parts
      → 0 < bucket_count
      → (edge_count ≤ parts * (sizing_for solver local edge_count bucket_count parts).part_edges)
        × ((sizing_for solver local edge_count bucket_count parts).part_edges
            ≤ bucket_count * (sizing_for solver local edge_count bucket_count parts).capacity)
  unfolding sizing_for
  covered local edge_count bucket_count parts pos some_buckets = (
    le-mul-div_ceil edge_count parts pos,
    rw calm (
        le_trans (le-mul-div_ceil (div_ceil edge_count parts) bucket_count some_buckets)
          (mul-le-mul_left bucket_count (omega arith))),
  )

  fit :
      (local edge_count bucket_count parts : ℕ)
      → 0 < parts
      → 0 < bucket_count
      → parts ≤ edge_count
      → fits solver true (sizing_for solver local edge_count bucket_count parts) ≡ true
      → IsFit limits edge_count (sizing_for solver local edge_count bucket_count parts)
  unfolding sizing_for
  fit local edge_count bucket_count parts pos buckets few good =
      let (roomy_scratch, roomy_dead) = within-limits limits _ _ good in
      record {
        few = few;
        covers = (covered local edge_count bucket_count parts pos buckets).0;
        roomy = (covered local edge_count bucket_count parts pos buckets).1;
        scratch = roomy_scratch;
        dead = roomy_dead;
      }

  double_parts-IsFit :
      (fuel local edge_count bucket_count parts : ℕ) (sizing : SleanSizing)
      → 0 < parts
      → 0 < bucket_count
      → double_parts solver fuel true local edge_count bucket_count parts ≡ some (ok sizing)
      → IsFit limits edge_count sizing
  unfolding double_parts
  double_parts-IsFit zero local edge_count bucket_count parts sizing pos buckets e =
      absurd (none≢some e)
  double_parts-IsFit (suc fuel) local edge_count bucket_count parts sizing pos buckets e =
      elim (double_parts-cases solver fuel true local edge_count bucket_count parts) [
        | inl refused ↦ absurd (err≢ok (some_inj (sym refused ∙ e)))
        | inr (few, inl (good, taken)) ↦
            subst (IsFit limits edge_count) (ok_inj (some_inj (sym taken ∙ e)))
              (fit local edge_count bucket_count parts pos buckets few good)
        | inr (few, inr again) ↦
            double_parts-IsFit fuel local edge_count bucket_count (parts * 2) sizing (omega arith)
              buckets (sym again ∙ e)
      ]

again_returns :
    (solver : GpuWgpuSolver) (fuel : ℕ) (enabled : Bool) (local edge_count bucket_count parts : ℕ)
    → (parts ≤ edge_count
        → double_parts solver fuel enabled local edge_count bucket_count (parts * 2) ≢ none)
    → double_parts solver (suc fuel) enabled local edge_count bucket_count parts ≢ none
again_returns solver fuel enabled local edge_count bucket_count parts later e =
    elim (double_parts-cases solver fuel enabled local edge_count bucket_count parts) [
      | inl refused ↦ none≢some (sym e ∙ refused)
      | inr (few, inl (good, taken)) ↦ none≢some (sym e ∙ taken)
      | inr (few, inr again) ↦ later few (sym again ∙ e)
    ]

double_parts-returns :
    (solver : GpuWgpuSolver) (fuel : ℕ) (enabled : Bool) (local edge_count bucket_count parts : ℕ)
    → edge_count < parts * 2 ^ fuel
    → double_parts solver (suc fuel) enabled local edge_count bucket_count parts ≢ none
double_parts-returns solver zero enabled local edge_count bucket_count parts enough =
    again_returns solver zero enabled local edge_count bucket_count parts (λ few. omega arith)
double_parts-returns solver (suc fuel) enabled local edge_count bucket_count parts enough =
    again_returns solver (suc fuel) enabled local edge_count bucket_count parts (λ few.
      double_parts-returns solver fuel enabled local edge_count bucket_count (parts * 2)
        (omega (arith, mul_assoc parts 2 (2 ^ fuel), ap (λ (t : ℕ). parts * t) (pow-suc 2 fuel))))

selected_slean_parts-pos :
    (solver : GpuWgpuSolver) (enabled : Bool)
    → 1 ≤ solver.config.slean_parts
    → 1 ≤ selected_slean_parts solver enabled
unfolding selected_slean_parts
selected_slean_parts-pos solver enabled pos =
    elim (Bool-cases (
      enabled
      && (auto_parts (enabled && is_auto solver.config.trimming) solver.startup_available_memory
            solver.config.slean_parts
          == 2)
      && is_scarce solver.startup_available_memory)) [
        | inl raised ↦ rw raised (omega arith)
        | inr kept ↦
            rw kept
              (chosen (enabled && is_auto solver.config.trimming) solver.startup_available_memory)
      ]
  where
    chosen :
        (choose : Bool) (available : Option ℕ)
        → 1 ≤ auto_parts choose available solver.config.slean_parts
    chosen choose none = pos
    chosen false (some available) = pos
    chosen true (some available) = ground arith

-- The loop of `slean_sizing` ends: the parts double until they fit or pass the number of edges, for
-- at most `2 ^ 32` edges and a configuration with a part.
pub slean_sizing-returns :
    (solver : GpuWgpuSolver) (enabled : Bool) (edge_count bitmap_bytes : ℕ)
    → 1 ≤ solver.config.slean_parts
    → edge_count ≤ 2 ^ 32
    → slean_sizing solver enabled edge_count bitmap_bytes ≢ none
unfolding slean_sizing
slean_sizing-returns solver enabled edge_count bitmap_bytes pos small =
    let local = local_bytes solver bitmap_bytes in
    let buckets = div_ceil bitmap_bytes local in
    elim (Bool-cases (enabled && (not (is_power_of_two buckets) || ltb (2 ^ 16 - 1) buckets))) [
      | inl refused ↦ rw refused (λ h. none≢some (sym h))
      | inr admitted ↦ rw admitted (
          double_parts-returns solver 33 enabled local edge_count buckets
            (selected_slean_parts solver enabled)
            (omega (arith, selected_slean_parts-pos solver enabled pos)))
    ]

-- With slean, on an adapter with workgroup memory and a bitmap that is not empty, the sizes that
-- `slean_sizing` finds cut the edges into at most as many parts as there are edges, which together
-- hold all of them; the buckets hold a part, and both buffers are within both limits of the adapter.
pub slean_sizing-IsFit :
    (solver : GpuWgpuSolver) (edge_count bitmap_bytes : ℕ) (sizing : SleanSizing)
    → solver.force_slean_overflow ≡ false
    → 1 ≤ solver.config.slean_parts
    → 1 ≤ solver.config.local_ram_kib
    → 1 ≤ solver.limits.max_compute_workgroup_storage_size
    → 1 ≤ bitmap_bytes
    → slean_sizing solver true edge_count bitmap_bytes ≡ some (ok sizing)
    → IsFit solver.limits edge_count sizing
unfolding slean_sizing
slean_sizing-IsFit solver edge_count bitmap_bytes sizing calm parts_pos ram adapter bitmap e =
    let local = local_bytes solver bitmap_bytes in
    let buckets = div_ceil bitmap_bytes local in
    elim (Bool-cases (not (is_power_of_two buckets) || ltb (2 ^ 16 - 1) buckets)) [
      | inl refused ↦ absurd (err≢ok (some_inj (rw refused at e)))
      | inr admitted ↦
          double_parts-IsFit solver calm 34 local edge_count buckets
            (selected_slean_parts solver true) sizing
            (omega (arith, selected_slean_parts-pos solver true parts_pos))
            (div_ceil-pos bitmap_bytes local (omega arith) (omega arith)) (rw admitted at e)
    ]

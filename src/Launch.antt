-- ===== src/Launch.antt =====
-- src/main.rs and src/cli.rs: the choice of the backend, and the arguments of a solver.
mod Tests
use rust_miner.Base.{ℕ, ◌<◌, ◌≤◌, ◌^◌, ◌&&◌, ◌||◌, not, Bool, true, false, leb, ltb, if◌then◌else◌}
use rust_miner.Base.{Option, none, some, List, Result, ok, err, ◌≡◌, ◌↔◌, ◌≢◌, refl, sym, arith}
use rust_miner.Base.{
  none≢some, zero, suc, some_inj, ap, ◌⊎◌, parse_uint-lt, parse_uint, is_power_of_two,
  is_power_of_two_iff, Bool-cases, inl, inr, subst,
}
use rust_miner.Base.{ok_inj, ◌∙◌}
use native.Mathlib.Nat.{pow-le-pow_right}
use rust_miner.Solver.{TrimmingMode, BackendCapabilities, SolveError}
use rust_miner.Solver.CpuLean.{CpuLeanSolver, default_solver, default_max_edge_bits, capabilities}
use rust_miner.Solver.Wgpu.{GpuWgpuConfig, GpuWgpuSolver, new_with_config}
use rust_miner.Solver.Wgpu.Verdict.{gpu_capabilities}
use rust_miner.Solver.Metal.{GpuMetalSolver, new_metal, metal_capabilities, is_lean}

pub data Backend : Type 0 where
  auto metal cpu wgpu : Backend

pub record SolverArgs : Type 0 where
  pub backend : Backend
  pub edge_bits : ℕ
  pub cycle_length : ℕ
  pub rounds : ℕ
  pub trimming : TrimmingMode
  pub slean_parts : ℕ
  pub local_ram_kib : ℕ

-- The machine: whether the target is macOS, and what the opening of a device gives.
pub record Machine : Type 0 where
  pub is_macos : Bool
  pub native_metal : Result SolveError (Unit {0})
  pub open_device : GpuWgpuConfig → Result SolveError GpuWgpuSolver

-- `Box<dyn Solver>`.
pub data AnySolver : Type 0 where
  on_metal : GpuMetalSolver → AnySolver
  on_wgpu : GpuWgpuSolver → AnySolver
  on_cpu : CpuLeanSolver → AnySolver

pub data LaunchError : Type 0 where
  no_backend : SolveError → LaunchError
  gpu_unavailable : SolveError → ℕ → LaunchError

abbrev pub capabilities_of : AnySolver → BackendCapabilities
capabilities_of (on_metal solver) = metal_capabilities
capabilities_of (on_wgpu solver) = gpu_capabilities
capabilities_of (on_cpu solver) = capabilities solver

abbrev pub gpu_config : SolverArgs → GpuWgpuConfig
gpu_config args = record {
  trimming = args.trimming;
  slean_parts = args.slean_parts;
  local_ram_kib = args.local_ram_kib;
}

abbrev pub boxed :
    {A : Type 0} → (A → AnySolver) → Result SolveError A → Result LaunchError AnySolver
boxed on (ok solver) = ok (on solver)
boxed on (err e) = err (no_backend e)

abbrev pub wgpu_or_cpu : ℕ → Result SolveError GpuWgpuSolver → Result LaunchError AnySolver
wgpu_or_cpu edge_bits (ok solver) = ok (on_wgpu solver)
wgpu_or_cpu edge_bits (err e) =
    if leb edge_bits default_max_edge_bits
    then ok (on_cpu default_solver)
    else err (gpu_unavailable e default_max_edge_bits)

abbrev pub metal_or :
    Result SolveError GpuMetalSolver → Result LaunchError AnySolver → Result LaunchError AnySolver
metal_or (ok solver) rest = ok (on_metal solver)
metal_or (err e) rest = rest

abbrev pub new_metal_on : Machine → SolverArgs → Result SolveError GpuMetalSolver
new_metal_on machine args = new_metal machine.is_macos machine.native_metal (gpu_config args)

abbrev pub new_wgpu_on : Machine → SolverArgs → Result SolveError GpuWgpuSolver
new_wgpu_on machine args = new_with_config machine.open_device (gpu_config args)

abbrev pub solver_for : Machine → SolverArgs → Backend → Result LaunchError AnySolver
solver_for machine args auto =
    if machine.is_macos && leb 18 args.edge_bits && not (is_lean args.trimming)
    then metal_or (new_metal_on machine args)
        (wgpu_or_cpu args.edge_bits (new_wgpu_on machine args))
    else wgpu_or_cpu args.edge_bits (new_wgpu_on machine args)
solver_for machine args metal = boxed on_metal (new_metal_on machine args)
solver_for machine args cpu = ok (on_cpu default_solver)
solver_for machine args wgpu = boxed on_wgpu (new_wgpu_on machine args)

unfoldable pub make_solver : Machine → SolverArgs → Result LaunchError AnySolver
make_solver machine args = solver_for machine args args.backend

-- The edge bits lie in the range of the solver.
abbrev pub Supports : ℕ → AnySolver → Type 0
Supports edge_bits solver =
    ((capabilities_of solver).min_edge_bits ≤ edge_bits)
    × (edge_bits ≤ (capabilities_of solver).max_edge_bits)

-- A choice for some edge bits is there for at most 28, and supports them.
abbrev pub IsChoice : ℕ → Result LaunchError AnySolver → Type 0
IsChoice edge_bits (ok solver) = Supports edge_bits solver
IsChoice edge_bits (err e) = 28 < edge_bits

wgpu_or_cpu-IsChoice :
    (edge_bits : ℕ) (r : Result SolveError GpuWgpuSolver)
    → 1 ≤ edge_bits
    → edge_bits ≤ 32
    → IsChoice edge_bits (wgpu_or_cpu edge_bits r)
wgpu_or_cpu-IsChoice edge_bits (ok solver) pos le = (pos, le)
wgpu_or_cpu-IsChoice edge_bits (err e) pos le =
    elim (Bool-cases (leb edge_bits default_max_edge_bits)) [
      | inl small ↦ rw small (pos, ground arith)
      | inr large ↦ rw large (ground arith)
    ]

metal_or-IsChoice :
    (edge_bits : ℕ) (r : Result SolveError GpuMetalSolver) (rest : Result LaunchError AnySolver)
    → 18 ≤ edge_bits
    → edge_bits ≤ 32
    → IsChoice edge_bits rest
    → IsChoice edge_bits (metal_or r rest)
metal_or-IsChoice edge_bits (ok solver) rest min le choice = (min, le)
metal_or-IsChoice edge_bits (err e) rest min le choice = choice

-- Whatever devices the machine has, for 1 to 32 edge bits the automatic choice is a solver whose
-- range has them, and it fails only for more than 28.
pub make_solver-IsChoice :
    (machine : Machine) (args : SolverArgs)
    → args.backend ≡ auto
    → 1 ≤ args.edge_bits
    → args.edge_bits ≤ 32
    → IsChoice args.edge_bits (make_solver machine args)
unfolding make_solver
make_solver-IsChoice machine args chosen pos le =
    rw chosen
      (elim (Bool-cases
        (machine.is_macos && leb 18 args.edge_bits && not (is_lean args.trimming))) [
          | inl native ↦ rw native (
              metal_or-IsChoice args.edge_bits (new_metal_on machine args) _ (ground arith) le
                (wgpu_or_cpu-IsChoice args.edge_bits (new_wgpu_on machine args) pos le))
          | inr other ↦
              rw other (wgpu_or_cpu-IsChoice args.edge_bits (new_wgpu_on machine args) pos le)
        ])

abbrev pub power_of_two : Option ℕ → Option ℕ
power_of_two none = none
power_of_two (some n) = if ltb n 2 || not (is_power_of_two n) then none else some n

-- The value parser of two arguments; its messages are left out.
unfoldable pub parse_power_of_two : List ℕ → Option ℕ
parse_power_of_two value = power_of_two (parse_uint (2 ^ 32) value)

-- An argument that `parse_power_of_two` takes is the decimal `u32` that stands there, and is `2` to a
-- power of at least 1; it takes every one of them.
pub parse_power_of_two_iff :
    (value : List ℕ) (n : ℕ)
    → (parse_power_of_two value ≡ some n)
      ↔ ((parse_uint (2 ^ 32) value ≡ some n) × ((k : ℕ) × (1 ≤ k) × (n ≡ 2 ^ k)))
unfolding parse_power_of_two
parse_power_of_two_iff value n = (
  λ h. power (parse_uint (2 ^ 32) value) (λ m e. parse_uint-lt (2 ^ 32) m value (omega arith) e) h,
  λ (parsed, (k, pos, e)).
      rw parsed (taken k pos e (parse_uint-lt (2 ^ 32) n value (omega arith) parsed)),
)
  where
    exponent-pos : (k : ℕ) → 2 ≤ 2 ^ k → 1 ≤ k
    exponent-pos zero h = omega arith
    exponent-pos (suc k) h = omega arith

    power :
        (parsed : Option ℕ)
        → ((m : ℕ) → parsed ≡ some m → m < 2 ^ 32)
        → power_of_two parsed ≡ some n
        → (parsed ≡ some n) × ((k : ℕ) × (1 ≤ k) × (n ≡ 2 ^ k))
    power none below h = absurd (none≢some h)
    power (some m) below h = elim (Bool-cases (ltb m 2 || not (is_power_of_two m))) [
      | inl refused ↦ absurd (none≢some (rw refused at h))
      | inr kept ↦
          let same = some_inj (rw kept at h) in
          let (two, one_bit) : (2 ≤ m) × (is_power_of_two m ≡ true) = ground arith in
          let (k, _, e) = (is_power_of_two_iff m (omega (arith, below m refl))).0 one_bit in
          (ap some same, (k, exponent-pos k (omega (arith, e)), sym same ∙ e))
    ]

    taken : (k : ℕ) → 1 ≤ k → n ≡ 2 ^ k → n < 2 ^ 32 → power_of_two (some n) ≡ some n
    taken k pos e below =
        let small : k < 32 = elim (either_side k) [
          | inl lt ↦ lt
          | inr ge ↦ omega (arith, e, pow-le-pow_right one_le ge)
        ] in
        let one_bit = (is_power_of_two_iff n (omega arith)).1 (k, omega arith, e) in
        let two = pow-le-pow_right one_le pos in
        let ordinary : (ltb n 2 || not (is_power_of_two n)) ≡ false = ground arith in
        rw ordinary refl
      where
        one_le : 0 < 2
        one_le = omega arith

        either_side : (k : ℕ) → (k < 32) ⊎ (32 ≤ k)
        either_side k = ground arith

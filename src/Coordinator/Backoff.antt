-- ===== src/Coordinator/Backoff.antt =====
-- src/coordinator.rs: the delays of a reconnect.
use rust_miner.Base.{
  ℕ, zero, suc, ◌*◌, ◌^◌, ◌≤◌, ◌<◌, ◌≡◌, refl, sym, ◌∙◌, ap, min, Option, none, some, List, [], ◌∷◌,
  length, get_or, arith,
}
use rust_miner.Base.{leb, leb→le, Bool-cases, inl, inr}
use native.Mathlib.Nat.{mul_assoc, mul-le-mul_right}
use rust_miner.Base.Bits.{pow_pos, pow-suc_two}
use rust_miner.Stratum.{Job}
use rust_miner.Coordinator.{Attempt, reconnect_failed, job_failed, got_job, reconnect_and_get_job}

capped_once : (q p : ℕ) → 0 < p → min (min q 30 * p) 30 ≡ min (q * p) 30
capped_once q p pos = elim (Bool-cases (leb q 30)) [
  | inl small ↦
      let le : q ≤ 30 = leb→le q 30 small in
      let whole : min q 30 ≡ q = omega arith in ap (λ m. min (m * p) 30) whole
  | inr large ↦
      let le : 30 ≤ q = ground arith in
      let cut : min q 30 ≡ 30 = omega arith in
      let more : 30 * p ≤ q * p = mul-le-mul_right p le in
      ap (λ m. min (m * p) 30) cut ∙ omega (arith, more)
]

capped : (d p : ℕ) → 0 < p → min (min (d * 2) 30 * p) 30 ≡ min (d * (2 * p)) 30
capped d p pos = capped_once (d * 2) p pos ∙ ap (λ m. min m 30) (mul_assoc d 2 p)

-- A delay is its place in the list further on than in the rest.
later :
    (delays : List ℕ) (delay i : ℕ)
    → delay ≤ 30
    → ((j : ℕ) → j < length delays → get_or delays j 0 ≡ min (min (delay * 2) 30 * 2 ^ j) 30)
    → i < suc (length delays)
    → get_or (delay ∷ delays) i 0 ≡ min (delay * 2 ^ i) 30
later delays delay zero le rest l = omega arith
later delays delay (suc i) le rest l =
    rest i (omega arith)
    ∙ capped delay (2 ^ i) (pow_pos i)
    ∙ ap (λ p. min (delay * p) 30) (sym (pow-suc_two i))

-- The failures before the first job, and that job.
unfoldable pub failures : List Attempt → ℕ
failures [] = 0
failures (got_job job ∷ rest) = 0
failures (reconnect_failed ∷ rest) = suc (failures rest)
failures (job_failed ∷ rest) = suc (failures rest)

unfoldable pub first_job : List Attempt → Option Job
first_job [] = none
first_job (got_job job ∷ rest) = some job
first_job (reconnect_failed ∷ rest) = first_job rest
first_job (job_failed ∷ rest) = first_job rest

-- One sleep for each failure, the first of `delay` and each twice the last, but at most 30.
abbrev HasDelays : List Attempt → ℕ → Option Job × List ℕ → Type 0
HasDelays attempts delay (job, delays) =
    (job ≡ first_job attempts)
    × (length delays ≡ failures attempts)
    × ((i : ℕ) → i < failures attempts → get_or delays i 0 ≡ min (delay * 2 ^ i) 30)

retry-HasDelays :
    (attempts rest : List Attempt) (delay : ℕ) (job : Option Job) (delays : List ℕ)
    → delay ≤ 30
    → first_job attempts ≡ first_job rest
    → failures attempts ≡ suc (failures rest)
    → HasDelays rest (min (delay * 2) 30) (job, delays)
    → HasDelays attempts delay (job, delay ∷ delays)
retry-HasDelays attempts rest delay job delays le same one_more (brings, sleeps, each) = (
  brings ∙ sym same,
  omega (arith, sleeps, one_more),
  λ i lt.
      later delays delay i le (λ j k. each j (omega (arith, sleeps)))
        (omega (arith, sleeps, one_more)),
)

reconnect_and_get_job-HasDelays :
    (attempts : List Attempt) (delay : ℕ)
    → delay ≤ 30
    → HasDelays attempts delay (reconnect_and_get_job attempts delay)
unfolding reconnect_and_get_job failures first_job
reconnect_and_get_job-HasDelays [] delay le = (refl, refl, λ i lt. omega arith)
reconnect_and_get_job-HasDelays (got_job job ∷ rest) delay le = (refl, refl, λ i lt. omega arith)
reconnect_and_get_job-HasDelays (reconnect_failed ∷ rest) delay le =
    retry-HasDelays (reconnect_failed ∷ rest) rest delay _ _ le refl refl
      (reconnect_and_get_job-HasDelays rest (min (delay * 2) 30) (omega arith))
reconnect_and_get_job-HasDelays (job_failed ∷ rest) delay le =
    retry-HasDelays (job_failed ∷ rest) rest delay _ _ le refl refl
      (reconnect_and_get_job-HasDelays rest (min (delay * 2) 30) (omega arith))

-- The first job that an attempt brings is returned. Before it there is one delay for each failed
-- attempt, of a reconnect or of a request for a job, and the delay after `i` earlier failures is
-- `2 ^ i` seconds, but at most 30.
pub reconnect_and_get_job-delays :
    (attempts : List Attempt)
    → ((reconnect_and_get_job attempts 1).0 ≡ first_job attempts)
      × (length (reconnect_and_get_job attempts 1).1 ≡ failures attempts)
      × ((i : ℕ)
          → i < failures attempts
          → get_or (reconnect_and_get_job attempts 1).1 i 0 ≡ min (2 ^ i) 30)
reconnect_and_get_job-delays attempts =
    let (brings, sleeps, each) = reconnect_and_get_job-HasDelays attempts 1 (omega arith) in
    (brings, sleeps, λ i lt. omega (arith, each i lt))

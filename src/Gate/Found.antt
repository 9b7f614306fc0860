-- ===== src/Gate/Found.antt =====
-- Which nonces the gate of src/main.rs finds.
use rust_miner.Base.{
  ℕ, zero, suc, ◌+◌, ◌^◌, ◌≤◌, ◌<◌, ◌≡◌, refl, sym, ◌∙◌, ap, subst, not, ◌&&◌, ◌-◌, ==→≡, ==→≢,
  Option, some, List, [], ◌∷◌, ◌++◌, ◌∈◌, ◌↔◌, ◌⊎◌, inl, inr, arith, length, ltb, ◌==◌, Bool-cases,
}
use rust_miner.Base.{
  Result, ok, err, ok_inj, >>=-eq-ok, mem-append_cases, mem-append_left, mem-append_right,
}
use rust_miner.Keys.{Blake2b256}
use rust_miner.Verify.{Proof, VerifyError, verify_cycle}
use rust_miner.Solver.{
  SolveRequest, SolveError, SolveOutcome, sip_keys, found, no_cycle, cancelled, inconclusive,
}
use rust_miner.Solver.CpuLean.Answers.{}
use rust_miner.Gate.{
  GateArgs, gate_request, after_gate_verify, after_gate_solve, gate_loop, acceptance, is_list,
  is_zero_zero, with_pre_pow, gate,
}

module _ (blake : Blake2b256) (decode : List ℕ → Option (List ℕ))
    (solver : SolveRequest → Result SolveError SolveOutcome) (args : GateArgs)
    (pre_pow : List ℕ) where
  -- The solver finds a proof for the nonce that the verifier accepts.
  pub record IsHit (nonce : ℕ) : Type 0 where
    pub proof : Proof
    pub solved : solver (gate_request args pre_pow nonce) ≡ ok (found proof)
    pub valid :
        verify_cycle
          (sip_keys blake (gate_request args pre_pow nonce))
          args.edge_bits
          args.cycle_length
          proof
        ≡ ok tt

  Adds : ℕ → ℕ → List ℕ → List ℕ → Type 0
  Adds nonce n so_far more = (n ∈ more) ↔ ((n ∈ so_far) ⊎ ((n ≡ nonce) × IsHit nonce))

  unchanged :
      (nonce n : ℕ) (so_far more : List ℕ)
      → so_far ≡ more
      → (IsHit nonce → ⊥)
      → Adds nonce n so_far more
  unfolding Adds
  unchanged nonce n so_far more same miss = (λ m. inl (subst (λ l. n ∈ l) (sym same) m), from)
    where
      from : (n ∈ so_far) ⊎ ((n ≡ nonce) × IsHit nonce) → n ∈ more
      from (inl m) = subst (λ l. n ∈ l) same m
      from (inr (e, hit)) = absurd (miss hit)

  verified :
      (nonce n : ℕ) (so_far more : List ℕ) (proof : Proof) (v : Result VerifyError (Unit {0}))
      → solver (gate_request args pre_pow nonce) ≡ ok (found proof)
      → verify_cycle
          (sip_keys blake (gate_request args pre_pow nonce))
          args.edge_bits
          args.cycle_length
          proof
        ≡ v
      → after_gate_verify blake decode solver args nonce so_far v ≡ ok more
      → Adds nonce n so_far more
  unfolding Adds
  verified nonce n so_far more proof (err e) q v h = absurd (let x = h in cc)
  verified nonce n so_far more proof (ok done) q v h = (to, from)
    where
      same : so_far ++ nonce ∷ [] ≡ more
      same = ok_inj h

      to : n ∈ more → (n ∈ so_far) ⊎ ((n ≡ nonce) × IsHit nonce)
      to m = elim (mem-append_cases n so_far (nonce ∷ []) (subst (λ l. n ∈ l) (sym same) m)) [
        | inl old ↦ inl old
        | inr (inl e) ↦ inr (e, record { proof = proof; solved = q; valid = v })
        | inr (inr nothing) ↦ absurd nothing
      ]

      from : (n ∈ so_far) ⊎ ((n ≡ nonce) × IsHit nonce) → n ∈ more
      from (inl m) = subst (λ l. n ∈ l) same (mem-append_left n so_far (nonce ∷ []) m)
      from (inr (e, hit)) = subst (λ l. n ∈ l) same (mem-append_right n so_far (nonce ∷ []) (inl e))

  -- One nonce adds itself if it is a hit, and nothing else.
  one_nonce :
      (nonce n : ℕ) (so_far more : List ℕ) (r : Result SolveError SolveOutcome)
      → solver (gate_request args pre_pow nonce) ≡ r
      → after_gate_solve blake decode solver args pre_pow nonce so_far r ≡ ok more
      → Adds nonce n so_far more
  one_nonce nonce n so_far more (err e) q h = absurd (let x = h in cc)
  one_nonce nonce n so_far more (ok (found proof)) q h =
      verified nonce n so_far more proof _ q refl h
  one_nonce nonce n so_far more (ok no_cycle) q h =
      unchanged nonce n so_far more (ok_inj h) (λ hit. let e = sym q ∙ hit.solved in cc)
  one_nonce nonce n so_far more (ok cancelled) q h = absurd (let x = h in cc)
  one_nonce nonce n so_far more (ok (inconclusive reason)) q h =
      unchanged nonce n so_far more (ok_inj h) (λ hit. let e = sym q ∙ hit.solved in cc)

  abbrev InRange : ℕ → ℕ → ℕ → Type 0
  InRange nonce left n = (nonce ≤ n) × (n < nonce + left) × IsHit n

  join_range :
      (nonce left n : ℕ) (so_far : List ℕ)
      → (n ∈ so_far) ⊎ ((n ≡ nonce) × IsHit nonce)
      → (n ∈ so_far) ⊎ InRange nonce (suc left) n
  join_range nonce left n so_far (inl m) = inl m
  join_range nonce left n so_far (inr (e, hit)) =
      inr (omega arith, omega arith, subst IsHit (sym e) hit)

  to_range :
      (nonce left n : ℕ) (so_far more : List ℕ)
      → Adds nonce n so_far more
      → (n ∈ more) ⊎ InRange (suc nonce) left n
      → (n ∈ so_far) ⊎ InRange nonce (suc left) n
  unfolding Adds
  to_range nonce left n so_far more adds (inl m) = join_range nonce left n so_far (adds.0 m)
  to_range nonce left n so_far more adds (inr (le, lt, hit)) = inr (omega arith, omega arith, hit)

  from_range :
      (nonce left n : ℕ) (so_far more : List ℕ)
      → Adds nonce n so_far more
      → (n ∈ so_far) ⊎ InRange nonce (suc left) n
      → (n ∈ more) ⊎ InRange (suc nonce) left n
  unfolding Adds
  from_range nonce left n so_far more adds (inl m) = inl (adds.1 (inl m))
  from_range nonce left n so_far more adds (inr (le, lt, hit)) = elim (Bool-cases (n == nonce)) [
    | inl e ↦ let same = ==→≡ n nonce e in inl (adds.1 (inr (same, subst IsHit same hit)))
    | inr e ↦ let differ = ==→≢ n nonce e in inr (omega arith, omega arith, hit)
  ]

  gate_loop-hits :
      (left nonce n : ℕ) (so_far all : List ℕ)
      → gate_loop blake decode solver args pre_pow left nonce so_far ≡ ok all
      → (n ∈ all) ↔ ((n ∈ so_far) ⊎ InRange nonce left n)
  unfolding gate_loop
  gate_loop-hits zero nonce n so_far all h =
      (λ m. inl (subst (λ l. n ∈ l) (sym (ok_inj h)) m), from)
    where
      from : (n ∈ so_far) ⊎ InRange nonce 0 n → n ∈ all
      from (inl m) = subst (λ l. n ∈ l) (ok_inj h) m
      from (inr (le, lt, hit)) = absurd (omega arith)
  gate_loop-hits (suc left) nonce n so_far all h =
      let (more, now, later) =
        >>=-eq-ok
          (after_gate_solve blake decode solver args pre_pow nonce so_far
            (solver (gate_request args pre_pow nonce)))
          _ h in
      let adds = one_nonce nonce n so_far more _ refl now in
      let (to, from) = gate_loop-hits left (suc nonce) n more all later in
      (
        λ m. to_range nonce left n so_far more adds (to m),
        λ m. from (from_range nonce left n so_far more adds m),
      )

  acceptance-ok :
      (all all' : List ℕ) → acceptance blake decode solver args all ≡ ok all' → all ≡ all'
  acceptance-ok all all' h =
      elim (Bool-cases (
        (args.edge_bits == 32)
        && is_zero_zero args.pre_pow
        && (args.nonce_start == 0)
        && (args.count == 100)
        && not (is_list all (45 ∷ 74 ∷ [])))) [
          | inl fails ↦ absurd (let x = rw fails at h in cc)
          | inr passes ↦ ok_inj (rw passes at h)
        ]

  with_pre_pow-hits :
      (all : List ℕ) (n : ℕ)
      → with_pre_pow blake decode solver args (some pre_pow) ≡ ok all
      → (n ∈ all) ↔ InRange args.nonce_start args.count n
  with_pre_pow-hits all n h = elim (Bool-cases (length pre_pow == 0)) [
    | inl empty ↦ absurd (let x = rw empty at h in cc)
    | inr full ↦ elim (Bool-cases (ltb (2 ^ 64 - 1) (args.nonce_start + args.count))) [
      | inl over ↦ absurd (let x = rw (full, over) at h in cc)
      | inr fits ↦
          let (all', looped, accepted) =
            >>=-eq-ok (gate_loop blake decode solver args pre_pow args.count args.nonce_start []) _
              (rw (full, fits) at h) in
          let hits = gate_loop-hits args.count args.nonce_start n [] all' looped in
          from_empty all' all (acceptance-ok all' all accepted) hits
    ]
  ]
    where
      right :
          (n ∈ []) ⊎ InRange args.nonce_start args.count n → InRange args.nonce_start args.count n
      right (inl nothing) = absurd nothing
      right (inr r) = r

      from_empty :
          (all' all : List ℕ)
          → all' ≡ all
          → (n ∈ all') ↔ ((n ∈ []) ⊎ InRange args.nonce_start args.count n)
          → (n ∈ all) ↔ InRange args.nonce_start args.count n
      from_empty all' all same hits = (
        λ m. right (hits.0 (subst (λ l. n ∈ l) (sym same) m)),
        λ r. subst (λ l. n ∈ l) same (hits.1 (inr r)),
      )

-- When the gate ends well on a template, it has found exactly the nonces of its range for which the
-- solver finds a proof that `verify_cycle` accepts.
pub gate-hits :
    (blake : Blake2b256) (decode : List ℕ → Option (List ℕ))
    (solver : SolveRequest → Result SolveError SolveOutcome) (args : GateArgs)
    (pre_pow all : List ℕ) (n : ℕ)
    → decode args.pre_pow ≡ some pre_pow
    → gate blake decode solver args ≡ ok all
    → (n ∈ all) ↔ (
        (args.nonce_start ≤ n)
        × (n < args.nonce_start + args.count)
        × IsHit blake decode solver args pre_pow n)
unfolding gate
gate-hits blake decode solver args pre_pow all n d h =
    with_pre_pow-hits blake decode solver args pre_pow all n
      (ap (with_pre_pow blake decode solver args) (sym d) ∙ h)

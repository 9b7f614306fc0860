-- ===== src/Solver/Trim/Keeps.antt =====
-- The trimming of src/solver/cpu_lean.rs, as a whole, returns every edge of every proof that
-- src/verify.rs accepts.
use rust_miner.Base.{
  ℕ, zero, suc, ◌^◌, ◌≤◌, ◌<◌, ◌≡◌, ◌≢◌, ◌==◌, refl, sym, ◌∙◌, ap, Bool, false, none≢some, some_inj,
  subst,
}
use rust_miner.Base.{
  Option, none, some, List, length, length-map, get_or, get_or-map, mem-get_or, index_of_mem, arith,
  ◌∈◌, Result, ok, ok_inj, Bool-cases, ltb, inl, inr,
}
use rust_miner.Verify.{Proof, Side, u_side, v_side, number, at, mate_node, edge_ends, verify_cycle}
use rust_miner.Verify.Spec.{IsProof, at-edge_ends}
use rust_miner.Verify.Correct.{verify_cycle_iff}
use rust_miner.Verify.Sorting.{AscendingFrom-lt}
use rust_miner.Solver.{GraphParams, SolveError}
use rust_miner.Solver.Bitmap.{AreWords}
use rust_miner.Solver.Trim.{
  trim_round, trim_rounds, initial_alive, collect, edge_count, survivors_of,
  trim_survivors_cancellable,
}
use rust_miner.Solver.Trim.Initial.{
  trim_round-AreWords, length-initial_alive, initial_alive-AreWords, test_bit-initial_alive,
}
use rust_miner.Solver.Trim.Loops.{node_of}
use rust_miner.Solver.Trim.Round.{IsGraph}
use rust_miner.Solver.Trim.Collect.{mem-collect}
use rust_miner.Solver.Trim.Safe.{IsMated, trim_rounds_inv, trim_rounds-Alive}

module _ (request : GraphParams) (proof : Proof)
    (p : IsProof request.keys request.edge_bits request.cycle_length proof) where
  abbrev Member : ℕ → Type 0
  Member e = e ∈ proof.nonces

  -- The mate of an edge of the proof on a side is another of its edges.
  pub mate_in :
      (side : Side) (e : ℕ)
      → Member e
      → (m : ℕ) × Member m
        × (node_of request (number side) m ≡ mate_node (node_of request (number side) e))
  mate_in side e k =
      let ends = edge_ends request.keys request.edge_bits in
      let size = length-map ends proof.nonces in
      let (i, l, same) = index_of_mem proof.nonces e 0 k in
      let (j, mate, _) = p.cycle.degree i side (omega (arith, size)) in
      let lj : j < length proof.nonces = let r = mate.in_range in omega (arith, size) in
      let at_i = get_or-map ends proof.nonces i 0 (0, 0) l in
      let at_j = get_or-map ends proof.nonces j 0 (0, 0) lj in
      (
        get_or proof.nonces j 0,
        mem-get_or proof.nonces j 0 lj,
        sym (at-edge_ends request.keys request.edge_bits _ side)
            ∙ ap (at side) (sym at_j)
            ∙ mate.meet
            ∙ ap (λ n. mate_node (at side n)) (at_i ∙ ap ends same)
            ∙ ap mate_node (at-edge_ends request.keys request.edge_bits e side),
      )

  Member-IsMated : IsMated request Member
  Member-IsMated = record {
    in_range = λ e k. AscendingFrom-lt (2 ^ request.edge_bits) proof.nonces e p.ascending k;
    mates = sides;
  }
    where
      sides :
          (e side : ℕ)
          → Member e
          → side < 2
          → (m : ℕ) × Member m × (node_of request side m ≡ mate_node (node_of request side e))
      sides e zero k l = mate_in u_side e k
      sides e (suc zero) k l = mate_in v_side e k
      sides e (suc (suc n)) k l = absurd (omega arith)

  kept_in :
      (cancel : ℕ → Bool) (alive : List ℕ)
      → trim_rounds request cancel request.rounds 0 (initial_alive request) ≡ some alive
      → (e : ℕ) → Member e
      → e ∈ collect (edge_count request) 0 alive
  kept_in cancel alive t e k =
      let g : IsGraph request = record { bits_pos = p.bits_pos; bits_le = p.bits_le } in
      let closed = Member-IsMated in
      let (size, live) =
        trim_rounds-Alive request g Member closed cancel request.rounds 0 (initial_alive request)
          (length-initial_alive request)
          (λ a m. test_bit-initial_alive request g a (closed.in_range a m)) t in
      let words =
        trim_rounds_inv AreWords request cancel (trim_round-AreWords request) request.rounds 0
          (initial_alive request) (initial_alive-AreWords request) t in
      let l = closed.in_range e k in
      mem-collect (edge_count request) e alive words (omega arith) l (live e k)

-- Whatever the number of rounds and the flag, a trimming that is not cancelled returns every nonce
-- of every proof that `verify_cycle` accepts.
pub trim_survivors-keeps :
    (request : GraphParams) (max_edge_bits : ℕ) (cancel : ℕ → Bool) (survivors : List ℕ)
    (proof : Proof)
    → trim_survivors_cancellable request max_edge_bits cancel ≡ ok (some survivors)
    → verify_cycle request.keys request.edge_bits request.cycle_length proof ≡ ok tt
    → (e : ℕ) → e ∈ proof.nonces
    → e ∈ survivors
unfolding trim_survivors_cancellable
trim_survivors-keeps request max_edge_bits cancel survivors proof t v =
    let p = (verify_cycle_iff request.keys request.edge_bits request.cycle_length proof).0 v in
    elim (Bool-cases (ltb max_edge_bits request.edge_bits)) [
      | inl over ↦ absurd (let e = rw over at t in cc)
      | inr fits ↦
          let kept : survivors_of request
                (trim_rounds request cancel request.rounds 0 (initial_alive request))
              ≡ some survivors =
            ok_inj (rw fits at t) in
          from p _ refl kept
    ]
  where
    from :
        IsProof request.keys request.edge_bits request.cycle_length proof
        → (r : Option (List ℕ))
        → trim_rounds request cancel request.rounds 0 (initial_alive request) ≡ r
        → survivors_of request r ≡ some survivors
        → (e : ℕ) → e ∈ proof.nonces
        → e ∈ survivors
    from p none t' kept e k = absurd (none≢some kept)
    from p (some alive) t' kept e k =
        subst (λ s. e ∈ s) (some_inj kept) (kept_in request proof p cancel alive t' e k)

trim_rounds-uncancelled :
    (request : GraphParams) (cancel : ℕ → Bool) (left round : ℕ) (alive : List ℕ)
    → ((r : ℕ) → cancel r ≡ false)
    → trim_rounds request cancel left round alive ≢ none
unfolding trim_rounds
trim_rounds-uncancelled request cancel zero round alive calm e = none≢some (sym e)
trim_rounds-uncancelled request cancel (suc left) round alive calm e =
    let (alive', killed) = trim_round request round alive in
    elim (Bool-cases (killed == 0)) [
      | inl z ↦ none≢some (sym (rw (calm round, z) at e))
      | inr z ↦
          trim_rounds-uncancelled request cancel left (suc round) alive' calm
            (rw (calm round, z) at e)
    ]

-- Within the edge bits of the backend, a trimming that reads no cancellation returns survivors.
pub trim_survivors-uncancelled :
    (request : GraphParams) (max_edge_bits : ℕ) (cancel : ℕ → Bool)
    → request.edge_bits ≤ max_edge_bits
    → ((r : ℕ) → cancel r ≡ false)
    → (survivors : List ℕ) × (trim_survivors_cancellable request max_edge_bits cancel
        ≡ ok (some survivors))
unfolding trim_survivors_cancellable
trim_survivors-uncancelled request max_edge_bits cancel le calm =
    let fits : ltb max_edge_bits request.edge_bits ≡ false = ground arith in rw fits (from _ refl)
  where
    from :
        (r : Option (List ℕ))
        → trim_rounds request cancel request.rounds 0 (initial_alive request) ≡ r
        → (survivors : List ℕ) × (◌≡◌ {A = Result SolveError (Option (List ℕ))}
            (ok (
              survivors_of request
                (trim_rounds request cancel request.rounds 0 (initial_alive request))))
            (ok (some survivors)))
    from none t = absurd (trim_rounds-uncancelled request cancel request.rounds 0 _ calm t)
    from (some alive) t =
        (collect (edge_count request) 0 alive, ap (λ r'. ok (survivors_of request r')) t)

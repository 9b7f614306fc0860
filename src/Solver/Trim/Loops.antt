-- ===== src/Solver/Trim/Loops.antt =====
-- What the two loops of a trimming round of src/solver/cpu_lean.rs leave in their bitmaps.
use rust_miner.Base.{ℕ, zero, suc, ◌+◌, ◌*◌, ◌/◌, ◌≤◌, ◌<◌, ◌≡◌, refl, sym, ◌∙◌, Bool, true, false}
use rust_miner.Base.{not, ◌&&◌, List, length, arith, ◌==◌, Bool-cases, if◌then◌else◌, inl, inr, ◌⊎◌}
use rust_miner.Base.{==→≡, ==→≢, leb, ltb, subst}
use rust_miner.Siphash.{endpoint}
use rust_miner.Verify.{mate_node}
use rust_miner.Solver.{GraphParams}
use rust_miner.Solver.Bitmap.{test_bit, set_bit, clear_bit, test_bit-set_bit, test_bit-clear_bit}
use rust_miner.Solver.Bitmap.{length-set_bit, length-clear_bit}
use rust_miner.Solver.Trim.{mark, sweep}

-- The window of edges that are passed grows by its first edge.
window :
    (edge left e : ℕ) (a m t : Bool)
    → t ≡ (if edge == e then a && m else a)
    → (if leb (suc edge) e && ltb e (suc edge + left) then t && m else t)
      ≡ (if leb edge e && ltb e (edge + suc left) then a && m else a)
window edge left e a m t h = ground arith

module _ (request : GraphParams) (side : ℕ) where
  abbrev pub node_of : ℕ → ℕ
  node_of edge = endpoint request.keys request.edge_bits edge side

  module _ (alive : List ℕ) where
    abbrev Marked : ℕ → ℕ → ℕ → Type 0
    Marked left edge n =
        (e : ℕ) × (edge ≤ e) × (e < edge + left) × (test_bit alive e ≡ true) × (node_of e ≡ n)

    -- The marks behind one round of the loop.
    abbrev mark_next : ℕ → List ℕ → List ℕ
    mark_next edge occupied =
        if test_bit alive edge then set_bit occupied (node_of edge) else occupied

    mark_next-lem :
        (edge n : ℕ) (occupied : List ℕ)
        → node_of edge / 64 < length occupied
        → test_bit (mark_next edge occupied) n
          ≡ (if test_bit alive edge && (node_of edge == n) then true else test_bit occupied n)
    mark_next-lem edge n occupied room = elim (Bool-cases (test_bit alive edge)) [
      | inl a ↦ rw a (test_bit-set_bit occupied (node_of edge) n room)
      | inr a ↦ rw a
    ]

    length-mark_next :
        (edge : ℕ) (occupied : List ℕ) → length (mark_next edge occupied) ≡ length occupied
    length-mark_next edge occupied = ground (arith, length-set_bit occupied (node_of edge))

    pub length-mark :
        (left edge : ℕ) (occupied : List ℕ)
        → length (mark request side alive left edge occupied) ≡ length occupied
    unfolding mark
    length-mark zero edge occupied = refl
    length-mark (suc left) edge occupied =
        length-mark left (suc edge) _ ∙ length-mark_next edge occupied

    -- A live edge that the loop passes has its node marked, and marks are kept.
    pub mark_complete :
        (left edge n : ℕ) (occupied : List ℕ)
        → ((e : ℕ) → node_of e / 64 < length occupied)
        → (test_bit occupied n ≡ true) ⊎ Marked left edge n
        → test_bit (mark request side alive left edge occupied) n ≡ true
    unfolding mark
    mark_complete zero edge n occupied room (inl m) = m
    mark_complete zero edge n occupied room (inr (e, l, u, a, q)) = absurd (omega arith)
    mark_complete (suc left) edge n occupied room h =
        mark_complete left (suc edge) n (mark_next edge occupied)
          (λ e. rw (length-mark_next edge occupied) (room e)) (now h)
      where
        step :
            test_bit (mark_next edge occupied) n
            ≡ (if test_bit alive edge && (node_of edge == n) then true else test_bit occupied n)
        step = mark_next-lem edge n occupied (room edge)

        now :
            (test_bit occupied n ≡ true) ⊎ Marked (suc left) edge n
            → (test_bit (mark_next edge occupied) n ≡ true) ⊎ Marked left (suc edge) n
        now (inl m) = inl (ground (arith, step))
        now (inr (e, l, u, a, q)) = elim (Bool-cases (edge == e)) [
          | inl same ↦
              let here : edge ≡ e = ==→≡ edge e same in
              let a' : test_bit alive edge ≡ true = rw here a in
              let q' : node_of edge ≡ n = rw here q in inl (ground (arith, step))
          | inr other ↦ inr (e, omega (arith, ==→≢ edge e other), omega arith, a, q)
        ]

    -- Every mark comes from before or from a live edge.
    pub mark_sound :
        (left edge n : ℕ) (occupied : List ℕ)
        → ((e : ℕ) → node_of e / 64 < length occupied)
        → test_bit (mark request side alive left edge occupied) n ≡ true
        → (test_bit occupied n ≡ true) ⊎ Marked left edge n
    unfolding mark
    mark_sound zero edge n occupied room h = inl h
    mark_sound (suc left) edge n occupied room h = before (
        mark_sound left (suc edge) n (mark_next edge occupied)
          (λ e. rw (length-mark_next edge occupied) (room e)) h)
      where
        step :
            test_bit (mark_next edge occupied) n
            ≡ (if test_bit alive edge && (node_of edge == n) then true else test_bit occupied n)
        step = mark_next-lem edge n occupied (room edge)

        before :
            (test_bit (mark_next edge occupied) n ≡ true) ⊎ Marked left (suc edge) n
            → (test_bit occupied n ≡ true) ⊎ Marked (suc left) edge n
        before (inr (e, l, u, a, q)) = inr (e, omega arith, omega arith, a, q)
        before (inl m) = elim (Bool-cases (test_bit alive edge && (node_of edge == n))) [
          | inl hit ↦ inr (edge, omega arith, omega arith, ground arith, ground arith)
          | inr miss ↦ inl (sym (rw miss at step) ∙ m)
        ]

  module _ (occupied : List ℕ) where
    -- A live edge survives the second loop if its complementary node is marked.
    abbrev pub is_mated : ℕ → Bool
    is_mated edge = test_bit occupied (mate_node (node_of edge))

    abbrev dies : List ℕ → ℕ → Bool
    dies alive edge = test_bit alive edge && not (is_mated edge)

    abbrev sweep_next : ℕ → List ℕ → List ℕ
    sweep_next edge alive = if dies alive edge then clear_bit alive edge else alive

    length-sweep_next : (edge : ℕ) (alive : List ℕ) → length (sweep_next edge alive) ≡ length alive
    length-sweep_next edge alive = ground (arith, length-clear_bit alive edge)

    sweep_next-lem :
        (edge e : ℕ) (alive : List ℕ)
        → edge / 64 < length alive
        → test_bit (sweep_next edge alive) e
          ≡ (if edge == e then test_bit alive e && is_mated e else test_bit alive e)
    sweep_next-lem edge e alive room = elim (Bool-cases (dies alive edge)) [
      | inl d ↦ elim (Bool-cases (edge == e)) [
        | inl s ↦
            let here : edge ≡ e = ==→≡ edge e s in
            let d' : dies alive e ≡ true = subst (λ k. dies alive k ≡ true) here d in
            rw (d, test_bit-clear_bit alive edge e room, s) (ground arith)
        | inr s ↦ rw (d, test_bit-clear_bit alive edge e room, s)
      ]
      | inr d ↦ elim (Bool-cases (edge == e)) [
        | inl s ↦
            let here : edge ≡ e = ==→≡ edge e s in
            let d' : dies alive e ≡ false = subst (λ k. dies alive k ≡ false) here d in
            rw (d, s) (ground arith)
        | inr s ↦ rw (d, s)
      ]
    ]

    pub length-sweep :
        (left edge killed : ℕ) (alive : List ℕ)
        → length (sweep request side occupied left edge alive killed).0 ≡ length alive
    unfolding sweep
    length-sweep zero edge killed alive = refl
    length-sweep (suc left) edge killed alive =
        length-sweep left (suc edge) _ (sweep_next edge alive) ∙ length-sweep_next edge alive

    -- The second loop keeps exactly the live edges whose complementary node is marked, among the
    -- edges that it passes.
    pub sweep-lem :
        (left edge killed e : ℕ) (alive : List ℕ)
        → edge + left ≤ 64 * length alive
        → test_bit (sweep request side occupied left edge alive killed).0 e ≡ (
            if leb edge e && ltb e (edge + left)
            then test_bit alive e && is_mated e
            else test_bit alive e)
    unfolding sweep
    sweep-lem zero edge killed e alive room = ground arith
    sweep-lem (suc left) edge killed e alive room =
        let next = sweep_next edge alive in
        let step = sweep_next-lem edge e alive (omega arith) in
        let rest =
          sweep-lem left (suc edge) (if dies alive edge then killed + 1 else killed) e next
            (rw (length-sweep_next edge alive) (omega arith)) in
        rest ∙ window edge left e (test_bit alive e) (is_mated e) (test_bit next e) step

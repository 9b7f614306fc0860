-- ===== src/Solver/Trim/Round.antt =====
-- One round of trimming keeps the live edges that have a live mate on the side of the round.
use rust_miner.Base.{ℕ, zero, suc, ◌+◌, ◌/◌, ◌^◌, ◌≤◌, ◌<◌, ◌≡◌, ◌↔◌, sym, ◌∙◌, true}
use rust_miner.Base.{◌&&◌, List, length, replicate, length-replicate, arith, bit_and, inl, inr}
use rust_miner.Base.{true≢false, &&-eq_true, leb, ltb}
use rust_miner.Base.Bits.{pow_pos, pow-suc_two, bit_xor-lt}
use rust_miner.Siphash.Bounds.{endpoint-lt}
use rust_miner.Verify.{mate_node}
use rust_miner.Solver.{GraphParams}
use rust_miner.Solver.Bitmap.{test_bit, test_bit-zeros}
use rust_miner.Solver.Trim.{mark, trim_round, edge_count, word_count}
use rust_miner.Solver.Trim.Loops.{
  node_of, mark_sound, mark_complete, sweep-lem, is_mated, length-sweep,
}

-- The graph sizes that are searched: `validate_request` admits no other.
pub record IsGraph (request : GraphParams) : Type 0 where
  pub bits_pos : 1 ≤ request.edge_bits
  pub bits_le : request.edge_bits ≤ 32

-- Another live edge, or the same, at the complementary node.
pub record HasLiveMate (request : GraphParams) (side : ℕ) (alive : List ℕ) (e : ℕ) : Type 0 where
  pub mate : ℕ
  pub in_range : mate < edge_count request
  pub live : test_bit alive mate ≡ true
  pub meet : node_of request side mate ≡ mate_node (node_of request side e)

mate_node-lt : (w n : ℕ) → 1 ≤ w → n < 2 ^ w → mate_node n < 2 ^ w
unfolding mate_node
mate_node-lt zero n h l = absurd (omega arith)
mate_node-lt (suc w) n h l = bit_xor-lt (suc w) n 1 l (omega (arith, pow-suc_two w, pow_pos w))

module _ (request : GraphParams) (g : IsGraph request) (round : ℕ) (alive : List ℕ)
    (size : length alive ≡ word_count request) where
  abbrev side_of : ℕ
  side_of = bit_and round 1

  abbrev empty : List ℕ
  empty = replicate (word_count request) 0

  occupied_of : List ℕ
  occupied_of = mark request side_of alive (edge_count request) 0 empty

  room : (e : ℕ) → node_of request side_of e / 64 < length empty
  room e =
      let l = endpoint-lt request.keys request.edge_bits e side_of g.bits_le in
      let zero_word : ℕ = 0 in
      let s : length empty ≡ word_count request = length-replicate (word_count request) zero_word in
      omega arith

  -- After the first loop exactly the nodes of the live edges are marked.
  mated_iff :
      (e : ℕ)
      → (is_mated request side_of occupied_of e ≡ true) ↔ HasLiveMate request side_of alive e
  unfolding occupied_of
  mated_iff e = (
    λ h. elim (mark_sound request side_of alive (edge_count request) 0 _ empty room h) [
      | inl old ↦ absurd (
          let z = test_bit-zeros (word_count request) (mate_node (node_of request side_of e)) in
          true≢false (sym old ∙ z))
      | inr (m, l, u, a, q) ↦ record { mate = m; in_range = omega arith; live = a; meet = q }
    ],
    λ h.
        mark_complete request side_of alive (edge_count request) 0 _ empty room
          (inr (h.mate, omega arith, let r = h.in_range in omega arith, h.live, h.meet)),
  )

  pub length-trim_round : length (trim_round request round alive).0 ≡ length alive
  unfolding trim_round
  length-trim_round = length-sweep request side_of _ (edge_count request) 0 0 alive

  -- For 1 to 32 edge bits and a bitmap of the right length, a round keeps exactly the live edges that
  -- have a live mate on its side.
  pub trim_round_iff :
      (e : ℕ)
      → e < edge_count request
      → (test_bit (trim_round request round alive).0 e ≡ true)
        ↔ ((test_bit alive e ≡ true) × HasLiveMate request side_of alive e)
  unfolding trim_round occupied_of
  trim_round_iff e l =
      let kept =
        sweep-lem request side_of occupied_of (edge_count request) 0 0 e alive (omega arith) in
      let (fwd, bwd) = mated_iff e in
      let inside : (leb 0 e && ltb e (0 + edge_count request)) ≡ true = ground arith in
      let k = rw inside at kept in
      (
        λ h. let both = &&-eq_true _ _ (sym k ∙ h) in (both.0, fwd both.1),
        λ h. let m = bwd h.1 in k ∙ rw (h.0, m),
      )

-- ===== src/Verify/Tests.antt =====
-- Tests of src/verify.rs: a cycle of four edges in a graph of eight.
use rust_miner.Base.{◌≡◌, ◌↔◌, refl, [], ◌∷◌, ok, err, map}
use rust_miner.Siphash.{SipKeys, sip_round, siphash24, endpoint}
use rust_miner.Verify.{
  Proof, verify_cycle, edge_ends, find_mates, check_nonces, scan_mates, mate_of, mate_node, walk,
  v_side, endpoint_degree, not_sorted_distinct, bad_proof_size,
}
use rust_miner.Verify.Spec.{IsProof}
use rust_miner.Verify.Lookup.{endpoint_index, endpoint_index_lem, candidates, edges_at}
use rust_miner.Verify.Correct.{verify_cycle_iff}

abbrev keys : SipKeys
keys = record {
  k0 = 0x0c0c0c0c0c0c0c0c;
  k1 = 0x0c0c0c0c0c0c0c0c;
  k2 = 0x0c0c0c0c0c0c0c0c;
  k3 = 0x0c0c0c0c0c0c0c0c;
}

abbrev four_edges : Proof
four_edges = record { nonces = 0 ∷ 2 ∷ 6 ∷ 7 ∷ [] }

accepts_four_edges : verify_cycle keys 3 4 four_edges ≡ ok tt
unfolding verify_cycle edge_ends find_mates check_nonces scan_mates mate_of mate_node walk endpoint
    siphash24 sip_round
accepts_four_edges = refl

rejects_a_repeat :
    verify_cycle keys 3 4 (record { nonces = 0 ∷ 2 ∷ 2 ∷ 7 ∷ [] }) ≡ err not_sorted_distinct
unfolding verify_cycle check_nonces
rejects_a_repeat = refl

rejects_three : verify_cycle keys 3 3 (record { nonces = 0 ∷ 2 ∷ 6 ∷ [] }) ≡ err endpoint_degree
unfolding verify_cycle edge_ends find_mates check_nonces scan_mates mate_of mate_node endpoint
    siphash24 sip_round
rejects_three = refl

rejects_a_size : verify_cycle keys 3 2 four_edges ≡ err (bad_proof_size 2 4)
unfolding verify_cycle
rejects_a_size = refl

verify_cycle_iff_example : (verify_cycle keys 3 4 four_edges ≡ ok tt) ↔ IsProof keys 3 4 four_edges
verify_cycle_iff_example = verify_cycle_iff keys 3 4 four_edges

endpoint_index_lem_example :
    candidates v_side 1 (endpoint_index keys 3 (0 ∷ 2 ∷ 6 ∷ 7 ∷ [])).1
    ≡ edges_at v_side 1 0 (map (edge_ends keys 3) (0 ∷ 2 ∷ 6 ∷ 7 ∷ []))
endpoint_index_lem_example = endpoint_index_lem keys 3 (0 ∷ 2 ∷ 6 ∷ 7 ∷ []) v_side 1

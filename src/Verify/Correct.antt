-- ===== src/Verify/Correct.antt =====
-- `verify_cycle` accepts exactly the proofs that are one cycle.
use rust_miner.Base.{ℕ, ◌+◌, ◌^◌, ◌≤◌, ◌<◌, ◌≡◌, ◌↔◌, refl, sym, ◌∙◌, arith}
use rust_miner.Base.{true, false, ◌&&◌, Bool-cases, ◌==◌, leb, subst, none}
use rust_miner.Base.{List, [], ◌∷◌, map, length, get_or, replicate, ok, ◌>>=◌, >>=-eq-ok, Result}
use rust_miner.Base.{length-map, length-replicate, get_or-replicate, inl, inr}
use rust_miner.Siphash.{SipKeys}
use rust_miner.Verify.{
  Proof, Side, u_side, VerifyError, at, verify_cycle, check_nonces, find_mates, walk, edge_ends,
}
use rust_miner.Verify.Spec.{IsMate, IsCycle, IsProof, HasOneMate}
use rust_miner.Verify.Nonces.{check_nonces_iff}
use rust_miner.Verify.Mates.{find_mates_sound, find_mates_complete, AreMates}
use rust_miner.Verify.Walk.{walk_sound, walk_complete, unseen-replicate}

-- The part of `verify_cycle` behind the checks of the nonces.
abbrev follow : List (ℕ × ℕ) → ℕ → Result VerifyError (Unit {0})
follow endpoints n =
    find_mates endpoints 0 endpoints >>= λ mates. walk n mates (replicate n false) 0 u_side

suffix_all :
    (endpoints : List (ℕ × ℕ)) (d : ℕ)
    → d < length endpoints
    → get_or endpoints d (0, 0) ≡ get_or endpoints (0 + d) (0, 0)
suffix_all endpoints d l = let q : 0 + d ≡ d = omega arith in rw q

degree_of_rows :
    (endpoints mates : List (ℕ × ℕ))
    → length mates ≡ length endpoints
    → AreMates endpoints 0 mates
    → (i : ℕ) (side : Side) → i < length endpoints
    → HasOneMate endpoints side i
degree_of_rows endpoints mates size rows i side l =
    let q : 0 + i ≡ i = omega arith in
    let (mate, only) = rows i side (omega arith) in
    (
      at side (get_or mates i (0, 0)),
      subst (λ k. IsMate endpoints side k (at side (get_or mates i (0, 0)))) q mate,
      λ k h. only k (rw q h),
    )

follow_sound :
    (endpoints : List (ℕ × ℕ)) → follow endpoints (length endpoints) ≡ ok tt → IsCycle endpoints
follow_sound [] h = record {
  degree = λ i side l. absurd (omega arith);
  tour = [];
  covers = refl;
  distinct = tt;
  closed = (refl, refl);
}
follow_sound (e ∷ es) h =
    let endpoints = e ∷ es in
    let (mates, found, walked) = >>=-eq-ok (find_mates endpoints 0 endpoints) _ h in
    let (size, rows) = find_mates_sound endpoints 0 endpoints mates (suffix_all endpoints) found in
    let t =
      walk_sound endpoints mates size rows (length endpoints) (replicate (length endpoints) false) 0
        u_side (length-replicate (length endpoints) false) (omega arith) walked in
    record {
      degree = degree_of_rows endpoints mates size rows;
      tour = t.tour;
      covers = t.rounds;
      distinct = t.distinct;
      closed = t.closed;
    }

follow_complete :
    (endpoints : List (ℕ × ℕ)) → IsCycle endpoints → follow endpoints (length endpoints) ≡ ok tt
unfolding find_mates walk
follow_complete [] c = refl
follow_complete (e ∷ es) c =
    let endpoints = e ∷ es in
    let (mates, found) =
      find_mates_complete endpoints 0 endpoints (suffix_all endpoints)
        (λ d side l. let q : 0 + d ≡ d = omega arith in rw q (c.degree d side l)) in
    let (size, rows) = find_mates_sound endpoints 0 endpoints mates (suffix_all endpoints) found in
    let n = length endpoints in
    let walked =
      walk_complete endpoints mates size rows c.tour (replicate n false) 0 u_side
        (length-replicate n false) (omega arith) c.distinct (λ j m. get_or-replicate n j false)
        (unseen-replicate n ∙ sym c.covers) c.closed in
    rw found (rw c.covers at walked)

module _ (keys : SipKeys) (edge_bits cycle_length : ℕ) (proof : Proof) where
  abbrev endpoints_of : List (ℕ × ℕ)
  endpoints_of = map (edge_ends keys edge_bits) proof.nonces

  -- The guards of `verify_cycle`, each passed.
  record Passes : Type 0 where
    bits_pos : 1 ≤ edge_bits
    bits_le : edge_bits ≤ 32
    size : length proof.nonces ≡ cycle_length
    checked : check_nonces (2 ^ edge_bits) none proof.nonces ≡ ok tt
    followed : follow endpoints_of cycle_length ≡ ok tt

  verify_cycle-Passes : verify_cycle keys edge_bits cycle_length proof ≡ ok tt → Passes
  unfolding verify_cycle
  verify_cycle-Passes h = elim (Bool-cases (leb 1 edge_bits && leb edge_bits 32)) [
    | inr e ↦ absurd (let h' = rw e at h in cc h')
    | inl e ↦ elim (Bool-cases (length proof.nonces == cycle_length)) [
      | inr e' ↦ absurd (let h' = rw (e, e') at h in cc h')
      | inl e' ↦
          let (u, a, b) =
            >>=-eq-ok (check_nonces (2 ^ edge_bits) none proof.nonces)
              (λ _. follow endpoints_of cycle_length) (rw (e, e') at h) in
          record {
            bits_pos = ground arith;
            bits_le = ground arith;
            size = ground arith;
            checked = a;
            followed = b;
          }
    ]
  ]

  Passes-verify_cycle : Passes → verify_cycle keys edge_bits cycle_length proof ≡ ok tt
  unfolding verify_cycle
  Passes-verify_cycle p =
      let bits : (leb 1 edge_bits && leb edge_bits 32) ≡ true =
        let a = p.bits_pos in let b = p.bits_le in ground arith in
      let size : (length proof.nonces == cycle_length) ≡ true = let z = p.size in ground arith in
      rw (bits, size, p.checked) p.followed

  size_of_ends : length proof.nonces ≡ cycle_length → length endpoints_of ≡ cycle_length
  size_of_ends e = length-map (edge_ends keys edge_bits) proof.nonces ∙ e

  Passes-IsProof : Passes → IsProof keys edge_bits cycle_length proof
  Passes-IsProof p = record {
    bits_pos = p.bits_pos;
    bits_le = p.bits_le;
    size = p.size;
    ascending = (check_nonces_iff (2 ^ edge_bits) none proof.nonces).0 p.checked;
    cycle = follow_sound endpoints_of (rw (size_of_ends p.size) p.followed);
  }

  IsProof-Passes : IsProof keys edge_bits cycle_length proof → Passes
  IsProof-Passes p = record {
    bits_pos = p.bits_pos;
    bits_le = p.bits_le;
    size = p.size;
    checked = (check_nonces_iff (2 ^ edge_bits) none proof.nonces).1 p.ascending;
    followed = rw (size_of_ends p.size) at (follow_complete endpoints_of p.cycle);
  }

-- `verify_cycle` accepts a proof exactly if `edge_bits` is in 1 to 32, there are `cycle_length`
-- nonces, all below `2 ^ edge_bits` and strictly ascending, each edge has exactly one mate on each
-- side, and the steps to mates from edge 0 on alternating sides pass every edge once and close.
pub verify_cycle_iff :
    (keys : SipKeys) (edge_bits cycle_length : ℕ) (proof : Proof)
    → (verify_cycle keys edge_bits cycle_length proof ≡ ok tt)
      ↔ IsProof keys edge_bits cycle_length proof
verify_cycle_iff keys edge_bits cycle_length proof = (
  λ h.
      Passes-IsProof keys edge_bits cycle_length proof
        (verify_cycle-Passes keys edge_bits cycle_length proof h),
  λ p.
      Passes-verify_cycle keys edge_bits cycle_length proof
        (IsProof-Passes keys edge_bits cycle_length proof p),
)

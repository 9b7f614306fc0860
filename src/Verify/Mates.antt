-- ===== src/Verify/Mates.antt =====
-- The search for mates in src/verify.rs finds the one mate, or fails.
use rust_miner.Base.{ℕ, zero, suc, ◌+◌, ◌<◌, ◌≡◌, refl, arith}
use rust_miner.Base.{Option, none, some, List, [], ◌∷◌, length, get_or, ok, >>=-eq-ok, ok_or}
use rust_miner.Base.{ap, subst}
use rust_miner.Verify.{
  Side, u_side, v_side, at, mate_node, scan_mates, mate_of, find_mates, endpoint_degree,
}
use rust_miner.Verify.Spec.{IsMate, HasOneMate}
use rust_miner.Verify.Scan.{IsHit, scan_mates_finds, scan_mates-none}

module _ (endpoints : List (ℕ × ℕ)) where
  abbrev row : ℕ → ℕ × ℕ
  row i = get_or endpoints i (0, 0)

  IsMate-IsHit :
      (side : Side) (i j : ℕ)
      → IsHit side (mate_node (at side (row i))) i 0 endpoints j
      → IsMate endpoints side i j
  IsMate-IsHit side i j h = record {
    in_range = h.in_range;
    differ = λ e. h.differ (omega arith);
    meet = h.meet;
  }

  IsHit-IsMate :
      (side : Side) (i j : ℕ)
      → IsMate endpoints side i j
      → IsHit side (mate_node (at side (row i))) i 0 endpoints j
  IsHit-IsMate side i j h = record {
    in_range = h.in_range;
    differ = λ e. h.differ (omega arith);
    meet = h.meet;
  }

  -- The search for the mate of edge `i` returns `m` exactly when `m` is its only mate.
  pub mate_of_sound :
      (i m : ℕ) (side : Side)
      → mate_of endpoints i (row i) side ≡ ok m
      → IsMate endpoints side i m × ((k : ℕ) → IsMate endpoints side i k → k ≡ m)
  unfolding mate_of
  mate_of_sound i m side h =
      let (found, e, last) =
        >>=-eq-ok (scan_mates side (mate_node (at side (row i))) i 0 endpoints none) _ h in
      from_found found e last
    where
      from_found :
          (found : Option ℕ)
          → scan_mates side (mate_node (at side (row i))) i 0 endpoints none ≡ ok found
          → ok_or found endpoint_degree ≡ ok m
          → IsMate endpoints side i m × ((k : ℕ) → IsMate endpoints side i k → k ≡ m)
      from_found none e last = absurd (cc)
      from_found (some f) e last =
          let (d, p, o) = scan_mates-none side (mate_node (at side (row i))) i 0 f endpoints e in
          let q : d ≡ m = ground arith in
          rw (← q) (IsMate-IsHit side i d o.hit, λ k h'. o.only k (IsHit-IsMate side i k h'))

  pub mate_of_complete :
      (i : ℕ) (side : Side)
      → (o : HasOneMate endpoints side i) → mate_of endpoints i (row i) side ≡ ok o.0
  unfolding mate_of
  mate_of_complete i side (m, mate, only) =
      let found = scan_mates_finds side (mate_node (at side (row i))) i 0 m endpoints (record {
        hit = IsHit-IsMate side i m mate;
        only = λ k h. only k (IsMate-IsHit side i k h);
      }) in
      let q : 0 + m ≡ m = omega arith in rw found (ap ok q)

  abbrev IsOnlyMate : Side → ℕ → ℕ → Type 0
  IsOnlyMate side i m = IsMate endpoints side i m × ((k : ℕ) → IsMate endpoints side i k → k ≡ m)

  -- Row `d` of `mates` holds the only mates of edge `i + d`.
  abbrev pub AreMates : ℕ → List (ℕ × ℕ) → Type 0
  AreMates i mates =
      (d : ℕ) (side : Side)
      → d < length mates
      → IsMate endpoints side (i + d) (at side (get_or mates d (0, 0)))
        × ((k : ℕ) → IsMate endpoints side (i + d) k → k ≡ at side (get_or mates d (0, 0)))

  AreMates-cons :
      (i a b : ℕ) (more : List (ℕ × ℕ))
      → IsOnlyMate u_side i a
      → IsOnlyMate v_side i b
      → AreMates (suc i) more
      → AreMates i ((a, b) ∷ more)
  AreMates-cons i a b more pa pb rows zero u_side l = let q : i + 0 ≡ i = omega arith in rw q pa
  AreMates-cons i a b more pa pb rows zero v_side l = let q : i + 0 ≡ i = omega arith in rw q pb
  AreMates-cons i a b more pa pb rows (suc d) side l =
      let q : i + suc d ≡ suc i + d = omega arith in rw q (rows d side (omega arith))

  abbrev IsSuffix : ℕ → List (ℕ × ℕ) → Type 0
  IsSuffix i rest = (d : ℕ) → d < length rest → get_or rest d (0, 0) ≡ row (i + d)

  IsSuffix-head : (i : ℕ) (e : ℕ × ℕ) (rest : List (ℕ × ℕ)) → IsSuffix i (e ∷ rest) → e ≡ row i
  IsSuffix-head i e rest s =
      let q : i + 0 ≡ i = omega arith in subst (λ k. e ≡ row k) q (s 0 (omega arith))

  IsSuffix-tail :
      (i : ℕ) (e : ℕ × ℕ) (rest : List (ℕ × ℕ)) → IsSuffix i (e ∷ rest) → IsSuffix (suc i) rest
  IsSuffix-tail i e rest s d h =
      let q : suc i + d ≡ i + suc d = omega arith in rw q (s (suc d) (omega arith))

  mate_of_at :
      (i m : ℕ) (e : ℕ × ℕ) (side : Side)
      → e ≡ row i
      → mate_of endpoints i e side ≡ ok m
      → IsOnlyMate side i m
  mate_of_at i m e side same h = mate_of_sound i m side (rw same at h)

  -- The rows that the search returns hold each edge's only mates.
  pub find_mates_sound :
      (i : ℕ) (rest mates : List (ℕ × ℕ))
      → IsSuffix i rest
      → find_mates endpoints i rest ≡ ok mates
      → (length mates ≡ length rest) × AreMates i mates
  unfolding find_mates
  find_mates_sound i [] mates s h =
      let e : mates ≡ [] = ground arith in rw e (refl, λ d side l. absurd (omega arith))
  find_mates_sound i (e ∷ rest) mates s h =
      let (a, ha, h1) = >>=-eq-ok (mate_of endpoints i e u_side) _ h in
      let (b, hb, h2) = >>=-eq-ok (mate_of endpoints i e v_side) _ h1 in
      let (more, hm, h3) = >>=-eq-ok (find_mates endpoints (suc i) rest) _ h2 in
      let (size, rows) = find_mates_sound (suc i) rest more (IsSuffix-tail i e rest s) hm in
      let same = IsSuffix-head i e rest s in
      let q : (a, b) ∷ more ≡ mates = cc h3 in
      rw (← q) (
        ap suc size,
        AreMates-cons i a b more (mate_of_at i a e u_side same ha) (mate_of_at i b e v_side same hb)
            rows,
      )

  pub find_mates_complete :
      (i : ℕ) (rest : List (ℕ × ℕ))
      → IsSuffix i rest
      → ((d : ℕ) (side : Side) → d < length rest → HasOneMate endpoints side (i + d))
      → (mates : List (ℕ × ℕ)) × (find_mates endpoints i rest ≡ ok mates)
  unfolding find_mates
  find_mates_complete i [] s h = ([], refl)
  find_mates_complete i (e ∷ rest) s h =
      let q : i + 0 ≡ i = omega arith in
      let same = IsSuffix-head i e rest s in
      let one =
        λ (side : Side). subst (λ k. HasOneMate endpoints side k) q (h 0 side (omega arith)) in
      let a = mate_of_complete i u_side (one u_side) in
      let b = mate_of_complete i v_side (one v_side) in
      let (more, m) = find_mates_complete (suc i) rest (IsSuffix-tail i e rest s) (λ d side l.
        let q' : i + suc d ≡ suc i + d = omega arith in
        subst (λ k. HasOneMate endpoints side k) q' (h (suc d) side (omega arith))) in
      (((one u_side).0, (one v_side).0) ∷ more, rw (same, a, b, m))

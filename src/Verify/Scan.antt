-- ===== src/Verify/Scan.antt =====
-- The scan of src/verify.rs for the mates of one edge on one side.
use rust_miner.Base.{ℕ, zero, suc, ◌+◌, ◌<◌, ◌≡◌, ◌≢◌, refl, inl, inr, Bool-cases, arith}
use rust_miner.Base.{Option, none, some, List, [], ◌∷◌, length, get_or, ok}
use rust_miner.Base.{Bool, true, false, ap, not, ◌&&◌, ◌==◌}
use rust_miner.Verify.{Side, at, scan_mates}

module _ (side : Side) (wanted i : ℕ) where
  -- Candidate `d` of a list that starts at index `j` is another edge at the wanted node.
  pub record IsHit (j : ℕ) (cs : List (ℕ × ℕ)) (d : ℕ) : Type 0 where
    pub in_range : d < length cs
    pub differ : i ≢ j + d
    pub meet : at side (get_or cs d (0, 0)) ≡ wanted

  IsHit-tail :
      {j : ℕ} {c : ℕ × ℕ} {cs : List (ℕ × ℕ)} {d : ℕ}
      → IsHit j (c ∷ cs) (suc d)
      → IsHit (suc j) cs d
  IsHit-tail h = record {
    in_range = omega arith;
    differ = λ e. h.differ (omega arith);
    meet = h.meet;
  }

  IsHit-cons :
      {j : ℕ} (c : ℕ × ℕ) {cs : List (ℕ × ℕ)} {d : ℕ}
      → IsHit (suc j) cs d
      → IsHit j (c ∷ cs) (suc d)
  IsHit-cons c h = record {
    in_range = omega arith;
    differ = λ e. h.differ (omega arith);
    meet = h.meet;
  }

  abbrev is_hit : ℕ → ℕ × ℕ → Bool
  is_hit j c = not (i == j) && (at side c == wanted)

  IsHit-head : (j : ℕ) (c : ℕ × ℕ) (cs : List (ℕ × ℕ)) → is_hit j c ≡ true → IsHit j (c ∷ cs) 0
  IsHit-head j c cs h = record {
    in_range = omega arith;
    differ = ground arith;
    meet = ground arith;
  }

  not-IsHit-head :
      (j : ℕ) (c : ℕ × ℕ) (cs : List (ℕ × ℕ)) → is_hit j c ≡ false → ¬ IsHit j (c ∷ cs) 0
  not-IsHit-head j c cs h k = let d = k.differ in let m = k.meet in ground arith

  -- With a mate found, the scan succeeds exactly when no candidate is left.
  pub scan_mates-some :
      (j f : ℕ) (cs : List (ℕ × ℕ)) (r : Option ℕ)
      → scan_mates side wanted i j cs (some f) ≡ ok r
      → (r ≡ some f) × ((d : ℕ) → ¬ IsHit j cs d)
  unfolding scan_mates
  scan_mates-some j f [] r h = (ground arith, λ d k. absurd (let b = k.in_range in omega arith))
  scan_mates-some j f (c ∷ cs) r h = elim (Bool-cases (is_hit j c)) [
    | inl e ↦ absurd (ground arith)
    | inr e ↦
        let (p, no_more) = scan_mates-some (suc j) f cs r (rw e at h) in
        (p, λ d. no_hit e no_more d)
  ]
    where
      no_hit :
          is_hit j c ≡ false → ((d : ℕ) → ¬ IsHit (suc j) cs d) → (d : ℕ) → ¬ IsHit j (c ∷ cs) d
      no_hit e none_left zero k = not-IsHit-head j c cs e k
      no_hit e none_left (suc d) k = none_left d (IsHit-tail k)

  -- And without a mate it finds one exactly when there is one and no other.
  pub record IsOnlyHit (j : ℕ) (cs : List (ℕ × ℕ)) (d : ℕ) : Type 0 where
    pub hit : IsHit j cs d
    pub only : (e : ℕ) → IsHit j cs e → e ≡ d

  pub scan_mates-none :
      (j m : ℕ) (cs : List (ℕ × ℕ))
      → scan_mates side wanted i j cs none ≡ ok (some m)
      → (d : ℕ) × (m ≡ j + d) × IsOnlyHit j cs d
  unfolding scan_mates
  scan_mates-none j m [] h = absurd (cc)
  scan_mates-none j m (c ∷ cs) h = elim (Bool-cases (is_hit j c)) [
    | inl e ↦
        let (p, none_left) = scan_mates-some (suc j) j cs (some m) (rw e at h) in
        let q : m ≡ j + 0 = ground arith in
        (0, q, record { hit = IsHit-head j c cs e; only = λ d k. first none_left d k })
    | inr e ↦
        let (d, p, o) = scan_mates-none (suc j) m cs (rw e at h) in
        let q : m ≡ j + suc d = omega arith in
        (suc d, q, record { hit = IsHit-cons c o.hit; only = λ k. later e d o k })
  ]
    where
      first : ((d : ℕ) → ¬ IsHit (suc j) cs d) → (d : ℕ) → IsHit j (c ∷ cs) d → d ≡ 0
      first none_left zero k = refl
      first none_left (suc d) k = absurd (none_left d (IsHit-tail k))

      later :
          is_hit j c ≡ false
          → (d : ℕ) → IsOnlyHit (suc j) cs d
          → (k : ℕ) → IsHit j (c ∷ cs) k
          → k ≡ suc d
      later e d o zero h = absurd (not-IsHit-head j c cs e h)
      later e d o (suc k) h = ap suc (o.only k (IsHit-tail h))

  pub scan_mates_keeps :
      (j f : ℕ) (cs : List (ℕ × ℕ))
      → ((d : ℕ) → ¬ IsHit j cs d)
      → scan_mates side wanted i j cs (some f) ≡ ok (some f)
  unfolding scan_mates
  scan_mates_keeps j f [] no_hit = refl
  scan_mates_keeps j f (c ∷ cs) no_hit = elim (Bool-cases (is_hit j c)) [
    | inl e ↦ absurd (no_hit 0 (IsHit-head j c cs e))
    | inr e ↦ rw e (scan_mates_keeps (suc j) f cs (λ d k. no_hit (suc d) (IsHit-cons c k)))
  ]

  pub scan_mates_finds :
      (j d : ℕ) (cs : List (ℕ × ℕ))
      → IsOnlyHit j cs d
      → scan_mates side wanted i j cs none ≡ ok (some (j + d))
  unfolding scan_mates
  scan_mates_finds j d [] o = absurd (let b = o.hit.in_range in omega arith)
  scan_mates_finds j zero (c ∷ cs) o = elim (Bool-cases (is_hit j c)) [
    | inl e ↦
        let q : j ≡ j + 0 = omega arith in
        rw (e, ← q)
          (scan_mates_keeps (suc j) j cs
            (λ d k. absurd (let z = o.only (suc d) (IsHit-cons c k) in omega arith)))
    | inr e ↦ absurd (not-IsHit-head j c cs e o.hit)
  ]
  scan_mates_finds j (suc d) (c ∷ cs) o = elim (Bool-cases (is_hit j c)) [
    | inl e ↦ absurd (let z = o.only 0 (IsHit-head j c cs e) in omega arith)
    | inr e ↦
        let q : suc j + d ≡ j + suc d = omega arith in
        rw (e, ← q)
          (scan_mates_finds (suc j) d cs (record {
            hit = IsHit-tail o.hit;
            only = λ k h. suc_inj (o.only (suc k) (IsHit-cons c h));
          }))
  ]
    where
      suc_inj : {a b : ℕ} → suc a ≡ suc b → a ≡ b
      suc_inj e = omega arith

-- ===== src/Solver/Radix/Scatter.antt =====
-- A pass of `radix_order` puts the items in the order of their buckets.
use rust_miner.Base.{
  ℕ, zero, suc, ◌+◌, ◌≤◌, ◌<◌, ◌^◌, ◌≡◌, ◌≢◌, refl, sym, ap, subst, ◌∙◌, arith, Bool-cases, inl,
  inr,
}
use rust_miner.Base.{List, [], ◌∷◌, ◌++◌, length, length-append, get_or, set, get_or-set_self}
use rust_miner.Base.{get_or-set_ne, length-set, replicate, get_or-replicate, length-replicate}
use rust_miner.Base.{get_or-append_left, get_or-append_right, eq_of_get_or}
use rust_miner.Base.{◌==◌, if◌then◌else◌, ≡→==}
use mathlib.Core.List.{append_assoc, append-nil}
use native.Mathlib.Decide.{dec_lt}
use rust_miner.Solver.Radix.{digit_of, increment, count_digits, positions, scatter, radix_pass}
use rust_miner.Solver.Radix.Buckets.{
  having, buckets, having-append, buckets_mono, length-buckets-suc, get_or-buckets, bucket_at,
  length-buckets,
}
use rust_miner.Solver.Radix.Counts.{
  get_or-increment, total, get_or-positions, length-positions, total-suc, total-zero,
}

module _ (keys : List ℕ) (shift : ℕ) where
  unfoldable pub digit : ℕ → ℕ
  digit index = digit_of shift (get_or keys index 0)

  length-count_digits :
      (xs counts : List ℕ) → length (count_digits keys shift xs counts) ≡ length counts
  unfolding count_digits
  length-count_digits [] counts = refl
  length-count_digits (x ∷ xs) counts =
      length-count_digits xs _
      ∙ length-set counts (digit_of shift (get_or keys x 0))
          (get_or counts (digit_of shift (get_or keys x 0)) 0 + 1)

  -- Counting counts each bucket.
  get_or-count_digits :
      (xs counts : List ℕ) (d : ℕ)
      → d < length counts
      → get_or (count_digits keys shift xs counts) d 0
        ≡ get_or counts d 0 + length (having digit d xs)
  unfolding count_digits having digit
  get_or-count_digits [] counts d h = omega arith
  get_or-count_digits (x ∷ xs) counts d h =
      let b = digit x in
      get_or-count_digits xs (increment counts b) d
        (omega (arith, length-set counts b (get_or counts b 0 + 1)))
      ∙ ground (arith, get_or-increment counts b d h)

  total-buckets :
      (cs xs : List ℕ) (d : ℕ)
      → ((e : ℕ) → e < length cs → get_or cs e 0 ≡ length (having digit e xs))
      → d ≤ length cs
      → total d cs ≡ length (buckets digit d xs)
  unfolding buckets
  total-buckets cs xs zero h k = total-zero cs
  total-buckets cs xs (suc d) h k = omega (
    arith,
    total-suc cs d (omega arith),
    h d (omega arith),
    total-buckets cs xs d h (omega arith),
    length-append (buckets digit d xs) (having digit d xs),
  )

  -- What holds while the items are placed: of those in `done`, each bucket has its own behind one
  -- another from the start of its range, and `counts` has the next free position.
  record IsPlaced (size : ℕ) (xs done counts scratch : List ℕ) : Type 0 where
    counted : length counts ≡ size
    sized : length scratch ≡ length xs
    next_free :
        (d : ℕ)
        → d < size
        → get_or counts d 0 ≡ length (buckets digit d xs) + length (having digit d done)
    placed :
        (d i : ℕ)
        → d < size
        → i < length (having digit d done)
        → get_or scratch (length (buckets digit d xs) + i) 0 ≡ get_or (having digit d done) i 0

  -- A step of the pass, from the item `x` with those before it.
  module _ (xs done rest : List ℕ) (x : ℕ) (split : xs ≡ done ++ x ∷ rest) where
    had :
        (d : ℕ)
        → length (having digit d xs)
          ≡ length (having digit d done) + length (having digit d (x ∷ rest))
    had d =
        ap (λ l. length (having digit d l)) split
        ∙ ap length (having-append digit d done (x ∷ rest))
        ∙ length-append (having digit d done) (having digit d (x ∷ rest))

    own : length (having digit (digit x) (x ∷ rest)) ≡ suc (length (having digit (digit x) rest))
    unfolding having
    own = ground arith

    -- The free position of a bucket lies behind its own items and in no other bucket.
    apart :
        (d i : ℕ)
        → i < length (having digit d done)
        → length (buckets digit (digit x) xs) + length (having digit (digit x) done)
          ≢ length (buckets digit d xs) + i
    apart d i h e = elim (dec_lt d (digit x)) [
      | yes below ↦ omega (
        arith,
        buckets_mono digit (digit x) (suc d) xs below,
        length-buckets-suc digit d xs,
        had d,
      )
      | no other ↦ elim (dec_lt (digit x) d) [
        | yes above ↦ omega (
          arith,
          buckets_mono digit d (suc (digit x)) xs above,
          length-buckets-suc digit (digit x) xs,
          had (digit x),
          own,
        )
        | no same ↦
            let it : d ≡ digit x = omega arith in
            let k : i < length (having digit (digit x) done) =
              subst (λ t. i < length (having digit t done)) it h in
            let e' : length (buckets digit (digit x) xs) + length (having digit (digit x) done)
                ≡ length (buckets digit (digit x) xs) + i =
              subst
                (λ t.
                  length (buckets digit (digit x) xs) + length (having digit (digit x) done)
                  ≡ length (buckets digit t xs) + i)
                it e in
            omega arith
      ]
    ]

    inside :
        (size : ℕ)
        → digit x < size
        → length (buckets digit size xs) ≡ length xs
        → length (buckets digit (digit x) xs) + length (having digit (digit x) done) < length xs
    inside size h all = omega (
      arith,
      buckets_mono digit size (suc (digit x)) xs h,
      length-buckets-suc digit (digit x) xs,
      had (digit x),
      own,
    )

    having_last :
        (d : ℕ)
        → having digit d (done ++ x ∷ [])
          ≡ having digit d done ++ (if digit x == d then x ∷ [] else [])
    unfolding having
    having_last d = having-append digit d done (x ∷ [])

    length-having_last :
        (d : ℕ)
        → length (having digit d (done ++ x ∷ []))
          ≡ length (having digit d done) + (if digit x == d then 1 else 0)
    length-having_last d = elim (Bool-cases (digit x == d)) [
      | inl same ↦
          ap length (having_last d) ∙ rw same (length-append (having digit d done) (x ∷ []))
      | inr other ↦ ap length (having_last d) ∙ rw other (length-append (having digit d done) [])
    ]

    module _ (size : ℕ) (counts scratch : List ℕ) (fits : (y : ℕ) → digit y < size)
        (p : IsPlaced size xs done counts scratch) where
      position :
          get_or counts (digit x) 0
          ≡ length (buckets digit (digit x) xs) + length (having digit (digit x) done)
      position = p.next_free (digit x) (fits x)

      placed_before :
          (d i : ℕ)
          → d < size
          → i < length (having digit d done)
          → get_or (set scratch (get_or counts (digit x) 0) x) (length (buckets digit d xs) + i) 0
            ≡ get_or (having digit d (done ++ x ∷ [])) i 0
      placed_before d i h k =
          get_or-set_ne scratch _ _ x 0 (λ e. apart d i k (sym position ∙ e))
          ∙ p.placed d i h k
          ∙ sym (get_or-append_left (having digit d done) _ i 0 k)
          ∙ ap (λ l. get_or l i 0) (sym (having_last d))

      placed_now :
          get_or
            (set scratch (get_or counts (digit x) 0) x)
            (length (buckets digit (digit x) xs) + length (having digit (digit x) done))
            0
          ≡ get_or
              (having digit (digit x) (done ++ x ∷ []))
              (length (having digit (digit x) done))
              0
      placed_now =
          ap (λ n. get_or (set scratch (get_or counts (digit x) 0) x) n 0) (sym position)
          ∙ get_or-set_self scratch (get_or counts (digit x) 0) x 0 (
              omega (
                arith,
                position,
                p.sized,
                inside size (fits x) (length-buckets digit size xs fits),
              ))
          ∙ sym (last_own)
        where
          own_last : having digit (digit x) (done ++ x ∷ []) ≡ having digit (digit x) done ++ x ∷ []
          own_last = having_last (digit x) ∙ rw (≡→== (digit x) (digit x) refl) refl

          behind : length (having digit (digit x) done) ≡ length (having digit (digit x) done) + 0
          behind = omega arith

          last_own :
              get_or
                (having digit (digit x) (done ++ x ∷ []))
                (length (having digit (digit x) done))
                0
              ≡ x
          last_own =
              ap (λ l. get_or l (length (having digit (digit x) done)) 0) own_last
              ∙ ap (λ n. get_or (having digit (digit x) done ++ x ∷ []) n 0) behind
              ∙ get_or-append_right (having digit (digit x) done) (x ∷ []) 0 0

      placed_all :
          (d i : ℕ)
          → d < size
          → i < length (having digit d (done ++ x ∷ []))
          → get_or (set scratch (get_or counts (digit x) 0) x) (length (buckets digit d xs) + i) 0
            ≡ get_or (having digit d (done ++ x ∷ [])) i 0
      placed_all d i h k = elim (dec_lt i (length (having digit d done))) [
        | yes before ↦ placed_before d i h before
        | no now ↦
            let it : digit x ≡ d = ground (arith, length-having_last d) in
            let last : i ≡ length (having digit d done) = ground (arith, length-having_last d) in
            subst
              (λ n.
                get_or (set scratch (get_or counts (digit x) 0) x) (length (buckets digit d xs) + n)
                  0
                ≡ get_or (having digit d (done ++ x ∷ [])) n 0)
              (sym last)
              (subst
                (λ t.
                  get_or (set scratch (get_or counts (digit x) 0) x)
                    (length (buckets digit t xs) + length (having digit t done)) 0
                  ≡ get_or (having digit t (done ++ x ∷ [])) (length (having digit t done)) 0)
                it placed_now)
      ]

      place :
          IsPlaced size xs
            (done ++ x ∷ [])
            (increment counts (digit x))
            (set scratch (get_or counts (digit x) 0) x)
      place = record {
        counted = length-set counts _ _ ∙ p.counted;
        sized = length-set scratch _ _ ∙ p.sized;
        next_free = λ d h. omega (
          arith,
          get_or-increment counts (digit x) d (omega (arith, p.counted)),
          p.next_free d h,
          length-having_last d,
        );
        placed = λ d i h k. placed_all d i h k;
      }

  scatter-IsPlaced :
      (size : ℕ) (xs done rest counts scratch : List ℕ)
      → ((y : ℕ) → digit y < size)
      → xs ≡ done ++ rest
      → IsPlaced size xs done counts scratch
      → (counts' : List ℕ) × IsPlaced size xs xs counts' (scatter keys shift rest counts scratch)
  unfolding scatter digit
  scatter-IsPlaced size xs done [] counts scratch fits e p =
      (counts, subst (λ l. IsPlaced size xs l counts scratch) (sym (e ∙ append-nil done)) p)
  scatter-IsPlaced size xs done (x ∷ rest) counts scratch fits e p =
      scatter-IsPlaced size xs (done ++ x ∷ []) rest _ _ fits
        (e ∙ sym (append_assoc done (x ∷ []) rest))
        (place xs done rest x e size counts scratch fits p)

  -- A list that holds all its buckets is the list in their order.
  IsPlaced-buckets :
      (size : ℕ) (xs counts scratch : List ℕ)
      → ((y : ℕ) → digit y < size)
      → IsPlaced size xs xs counts scratch
      → scratch ≡ buckets digit size xs
  IsPlaced-buckets size xs counts scratch fits p =
      eq_of_get_or scratch (buckets digit size xs) 0
        (p.sized ∙ sym (length-buckets digit size xs fits)) (λ n h. at n h)
    where
      at : (n : ℕ) → n < length scratch → get_or scratch n 0 ≡ get_or (buckets digit size xs) n 0
      at n h =
          let (d, i, a, b, c) =
            bucket_at digit size n xs (omega (arith, p.sized, length-buckets digit size xs fits)) in
          ap (λ m. get_or scratch m 0) c
          ∙ p.placed d i a b
          ∙ sym (get_or-buckets digit size d i xs a b)
          ∙ ap (λ m. get_or (buckets digit size xs) m 0) (sym c)

  -- Before the pass: the counts of all buckets, as positions.
  starts :
      (size : ℕ) (xs : List ℕ)
      → length keys ≡ length xs
      → IsPlaced size xs []
          (positions 0 (count_digits keys shift xs (replicate size 0)))
          (replicate (length keys) 0)
  unfolding having
  starts size xs n = record {
    counted = length-positions cs 0 ∙ sizes;
    sized = length-replicate (length keys) 0 ∙ n;
    next_free = λ d h.
        get_or-positions cs 0 d (omega (arith, sizes))
        ∙ omega (arith, total-buckets cs xs d counts (omega (arith, sizes)));
    placed = λ d i h k. absurd (omega arith);
  }
    where
      cs : List ℕ
      cs = count_digits keys shift xs (replicate size 0)

      sizes : length cs ≡ size
      sizes = length-count_digits xs (replicate size 0) ∙ length-replicate size 0

      counts : (e : ℕ) → e < length cs → get_or cs e 0 ≡ length (having digit e xs)
      counts e h = omega (
        arith,
        get_or-count_digits xs (replicate size 0) e
            (omega (arith, sizes, length-replicate {A = ℕ} size 0)),
        get_or-replicate {A = ℕ} size e 0,
      )

  -- A pass with any number of buckets.
  pass_with :
      (size : ℕ) (xs : List ℕ)
      → ((y : ℕ) → digit y < size)
      → length keys ≡ length xs
      → scatter keys shift xs
          (positions 0 (count_digits keys shift xs (replicate size 0)))
          (replicate (length keys) 0)
        ≡ buckets digit size xs
  pass_with size xs fits n =
      let (counts, p) = scatter-IsPlaced size xs [] xs _ _ fits refl (starts size xs n) in
      IsPlaced-buckets size xs counts _ fits p

  pub digit-lt : (y : ℕ) → digit y < 2 ^ 16
  unfolding digit
  digit-lt y = omega arith

  pub radix_pass-buckets :
      (xs : List ℕ) → length keys ≡ length xs → radix_pass keys shift xs ≡ buckets digit (2 ^ 16) xs
  unfolding radix_pass
  radix_pass-buckets xs n = pass_with (2 ^ 16) xs digit-lt n

-- ===== src/Solver/Trim/Words.antt =====
-- The loop of src/solver/cpu_lean.rs over the set bits of a word.
use rust_miner.Base.{
  ℕ, zero, suc, ◌+◌, ◌-◌, ◌*◌, ◌/◌, ◌%◌, ◌^◌, ◌≤◌, ◌<◌, ◌≡◌, ◌≢◌, refl, sym, ◌∙◌, ap,
}
use rust_miner.Base.{
  bit_and, List, ◌∷◌, arith, inl, inr, Bool-cases, ◌==◌, ==→≡, ==→≢, true, ◌∈◌, ltb, ltb→lt,
}
use rust_miner.Base.Bits.{bit, bit_and-lt, bit_and_step, pow-suc_two, bit-zero}
use native.Mathlib.Nat.{le_refl}
use rust_miner.Solver.Trim.{trailing_zeros, collect_word}

-- The number of set bits among the lowest `n`.
pub ones : ℕ → ℕ → ℕ
ones zero w = 0
ones (suc n) w = w % 2 + ones n (w / 2)

ones-zero_of : (n w : ℕ) → w < 2 ^ n → ones n w ≡ 0 → w ≡ 0
unfolding ones
ones-zero_of zero w h e = omega arith
ones-zero_of (suc n) w h e =
    omega
      (arith, pow-suc_two n, ones-zero_of n (w / 2) (omega (arith, pow-suc_two n)) (omega arith))

pub ones-le : (n w : ℕ) → ones n w ≤ n
unfolding ones
ones-le zero w = omega arith
ones-le (suc n) w = omega (arith, ones-le n (w / 2))

-- For a word that is not 0 the count of trailing zeros is the place of its lowest bit, and
-- `w & (w - 1)` clears that bit and no other.
pub record IsLowest (n w t : ℕ) : Type 0 where
  pub in_range : t < n
  pub is_set : bit w t ≡ 1
  pub below : (k : ℕ) → k < t → bit w k ≡ 0
  pub cleared : bit (bit_and w (w - 1)) t ≡ 0
  pub others : (k : ℕ) → k ≢ t → bit (bit_and w (w - 1)) k ≡ bit w k
  pub fewer : suc (ones n (bit_and w (w - 1))) ≡ ones n w

bit_and-self_fuel : (n a : ℕ) → a ≤ n → bit_and a a ≡ a
bit_and-self_fuel n zero h = refl
bit_and-self_fuel zero (suc a) h = absurd (omega arith)
bit_and-self_fuel (suc n) (suc a) h =
    omega (arith, bit_and_step (suc a) (suc a), bit_and-self_fuel n (suc a / 2) (omega arith))

IsLowest-odd : (n w : ℕ) → w % 2 ≡ 1 → IsLowest (suc n) w 0
unfolding ones
IsLowest-odd n w odd =
    let v = w / 2 in
    let same : (w - 1) / 2 ≡ v = omega arith in
    let step = rw same at (bit_and_step w (w - 1)) in
    let self = bit_and-self_fuel v v (le_refl v) in
    let high : bit_and w (w - 1) / 2 ≡ v = omega arith in
    let low : bit_and w (w - 1) % 2 ≡ 0 = omega arith in
    record {
      in_range = omega arith;
      is_set = odd;
      below = λ k l. absurd (omega arith);
      cleared = low;
      others = λ k ne. other k ne high;
      fewer = rw (high, low, odd) (omega arith);
    }
  where
    other : (k : ℕ) → k ≢ 0 → bit_and w (w - 1) / 2 ≡ w / 2 → bit (bit_and w (w - 1)) k ≡ bit w k
    other zero ne high = absurd (ne refl)
    other (suc k) ne high = ap (λ (v : ℕ). bit v k) high

IsLowest-even : (n w t : ℕ) → w % 2 ≡ 0 → w ≢ 0 → IsLowest n (w / 2) t → IsLowest (suc n) w (suc t)
unfolding ones
IsLowest-even n w t even ne i =
    let v = w / 2 in
    let same : (w - 1) / 2 ≡ v - 1 = omega arith in
    let step = rw same at (bit_and_step w (w - 1)) in
    let high : bit_and w (w - 1) / 2 ≡ bit_and v (v - 1) = omega arith in
    let low : bit_and w (w - 1) % 2 ≡ 0 = omega arith in
    record {
      in_range = let r = i.in_range in omega arith;
      is_set = i.is_set;
      below = lower;
      cleared = ap (λ (u : ℕ). bit u t) high ∙ i.cleared;
      others = other high low;
      fewer = rw (high, low, even) (let f = i.fewer in omega arith);
    }
  where
    lower : (k : ℕ) → k < suc t → bit w k ≡ 0
    lower zero l = even
    lower (suc k) l = i.below k (omega arith)

    other :
        bit_and w (w - 1) / 2 ≡ bit_and (w / 2) (w / 2 - 1)
        → bit_and w (w - 1) % 2 ≡ 0
        → (k : ℕ) → k ≢ suc t
        → bit (bit_and w (w - 1)) k ≡ bit w k
    other high low zero ne = low ∙ sym even
    other high low (suc k) ne = ap (λ (u : ℕ). bit u k) high ∙ i.others k (λ e. ne (ap suc e))

pub trailing_zeros-IsLowest : (n w : ℕ) → w < 2 ^ n → w ≢ 0 → IsLowest n w (trailing_zeros n w)
unfolding trailing_zeros
trailing_zeros-IsLowest zero w h ne = absurd (ne (omega arith))
trailing_zeros-IsLowest (suc n) w h ne = elim (Bool-cases (w % 2 == 1)) [
  | inl odd ↦ rw odd (IsLowest-odd n w (==→≡ _ 1 odd))
  | inr even ↦
      let even' : w % 2 ≡ 0 = omega (arith, ==→≢ _ 1 even) in
      rw even (
        IsLowest-even n w _ even' ne
          (trailing_zeros-IsLowest n (w / 2) (omega (arith, pow-suc_two n)) (omega arith)))
]

fewer_fuel : (a b fuel : ℕ) → suc a ≡ b → b ≤ suc fuel → a ≤ fuel
fewer_fuel a b fuel e h = omega arith

one≢zero : ◌≢◌ {A = ℕ} 1 0
one≢zero e = omega arith

module _ (count word_index : ℕ) where
  abbrev place : ℕ → ℕ
  place k = word_index * 64 + k

  abbrev Placed : ℕ → ℕ → Type 0
  Placed w e = (k : ℕ) × (k < 64) × (bit w k ≡ 1) × (e ≡ place k) × (e < count)

  from_next : {e : ℕ} (w t : ℕ) → IsLowest 64 w t → Placed (bit_and w (w - 1)) e → Placed w e
  from_next w t low (k, l, b, p, u) = elim (Bool-cases (k == t)) [
    | inl same ↦
        let here : k ≡ t = ==→≡ k t same in
        absurd (one≢zero (sym b ∙ ap (λ j. bit (bit_and w (w - 1)) j) here ∙ low.cleared))
    | inr other ↦ (k, l, sym (low.others k (==→≢ k t other)) ∙ b, p, u)
  ]

  from_cons :
      {e : ℕ} (w t : ℕ) (rest : List ℕ)
      → IsLowest 64 w t
      → ltb (place t) count ≡ true
      → (e ∈ rest → Placed w e)
      → e ∈ (place t ∷ rest)
      → Placed w e
  from_cons w t rest low below later (inl here) =
      (t, low.in_range, low.is_set, here, omega (arith, ltb→lt (place t) count below))
  from_cons w t rest low below later (inr m) = later m

  -- With fuel for its set bits the loop returns the places of exactly the set bits below `count`.
  pub collect_word_sound :
      (fuel w e : ℕ) → w < 2 ^ 64 → e ∈ collect_word fuel count word_index w → Placed w e
  unfolding collect_word
  collect_word_sound zero w e h m = absurd m
  collect_word_sound (suc fuel) w e h m =
      let t = trailing_zeros 64 w in
      let next = bit_and w (w - 1) in
      elim (Bool-cases (w == 0)) [
        | inl z ↦ absurd (rw z at m)
        | inr z ↦
            let low = trailing_zeros-IsLowest 64 w h (==→≢ w 0 z) in
            let later = λ (m' : e ∈ collect_word fuel count word_index next).
              from_next w t low (collect_word_sound fuel next e (bit_and-lt 64 w (w - 1) h) m') in
            elim (Bool-cases (ltb (place t) count)) [
              | inl below ↦ from_cons w t _ low below later (rw (z, below) at m)
              | inr above ↦ later (rw (z, above) at m)
            ]
      ]

  pub collect_word_complete :
      (fuel w k : ℕ)
      → w < 2 ^ 64
      → ones 64 w ≤ fuel
      → k < 64
      → bit w k ≡ 1
      → place k < count
      → place k ∈ collect_word fuel count word_index w
  unfolding collect_word
  collect_word_complete zero w k h f l b u = absurd (
      let z = ones-zero_of 64 w h (omega arith) in
      one≢zero (sym b ∙ ap (λ (v : ℕ). bit v k) z ∙ bit-zero k))
  collect_word_complete (suc fuel) w k h f l b u =
      let t = trailing_zeros 64 w in
      let next = bit_and w (w - 1) in
      elim (Bool-cases (w == 0)) [
        | inl z ↦ absurd (one≢zero (sym b ∙ ap (λ (v : ℕ). bit v k) (==→≡ w 0 z) ∙ bit-zero k))
        | inr z ↦
            let low = trailing_zeros-IsLowest 64 w h (==→≢ w 0 z) in
            elim (Bool-cases (k == t)) [
              | inl e ↦
                  let here : k ≡ t = ==→≡ k t e in
                  let first : ltb (place t) count ≡ true = ground arith in
                  rw (z, first) (inl (ap place here))
              | inr e ↦
                  let b' = low.others k (==→≢ k t e) ∙ b in
                  let later =
                    collect_word_complete fuel next k (bit_and-lt 64 w (w - 1) h)
                      (fewer_fuel (ones 64 next) (ones 64 w) fuel low.fewer f) l b' u in
                  elim (Bool-cases (ltb (place t) count)) [
                    | inl below ↦ rw (z, below) (inr later)
                    | inr above ↦ rw (z, above) later
                  ]
            ]
      ]

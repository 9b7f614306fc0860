-- ===== src/Solver/Peel/Sides.antt =====
-- src/solver/peel.rs: what the groups of one side say of its nodes, and which group is a mate.
use rust_miner.Base.{
  ℕ, zero, suc, ◌+◌, ◌-◌, ◌*◌, ◌/◌, ◌%◌, ◌^◌, ◌<◌, ◌≡◌, ◌≢◌, refl, sym, ap, ◌∙◌, subst, arith, inl,
  inr,
}
use rust_miner.Base.{
  List, [], ◌∷◌, length, get_or, ◌∈◌, bit_xor, Option, none, some, some_inj, none≢some,
}
use rust_miner.Base.{◌==◌, ==→≡, ==→≢, ≡→==, Bool-cases, true, false}
use rust_miner.Base.{length-replicate, replicate, take, drop, mem-append_left, ◌↔◌}
use rust_miner.Base.Bits.{bit_xor_step}
use native.Mathlib.Decide.{dec_lt}
use rust_miner.Solver.Radix.{radix_order}
use rust_miner.Solver.Radix.Buckets.{count}
use rust_miner.Solver.Radix.Sorts.{radix_order-sorts, length-radix_order}
use rust_miner.Solver.Peel.{
  Groups, group_side, members, widths, mate_group, neighbour, if_complement, is_even,
}
use rust_miner.Solver.Peel.Runs.{length-slice, mem-drop, take-append-drop}
use rust_miner.Solver.Peel.Grouped.{IsGrouped, group_runs-IsGrouped}

length-widths : (b : ℕ) (os : List ℕ) → length (widths (b ∷ os)) ≡ length os
unfolding widths
length-widths b [] = refl
length-widths b (e ∷ os) = ap suc (length-widths e os)

get_or-widths :
    (os : List ℕ) (l : ℕ)
    → l + 1 < length os
    → get_or (widths os) l 0 ≡ get_or os (l + 1) 0 - get_or os l 0
unfolding widths
get_or-widths [] l h = absurd (omega arith)
get_or-widths (b ∷ []) l h = absurd (omega arith)
get_or-widths (b ∷ e ∷ os) zero h = refl
get_or-widths (b ∷ e ∷ os) (suc l) h =
    let shift : suc l + 1 ≡ suc (l + 1) = omega arith in
    rw shift (get_or-widths (e ∷ os) l (omega arith))

mem_of_count : (a : ℕ) (xs : List ℕ) → 0 < count a xs → a ∈ xs
unfolding count
mem_of_count a [] h = absurd (omega arith)
mem_of_count a (x ∷ xs) h = elim (Bool-cases (x == a)) [
  | inl same ↦ inl (sym (==→≡ x a same))
  | inr other ↦ inr (mem_of_count a xs (rw other at h))
]

count_of_mem : (a : ℕ) (xs : List ℕ) → a ∈ xs → 0 < count a xs
unfolding count
count_of_mem a [] m = absurd m
count_of_mem a (x ∷ xs) (inl e) = rw (≡→== x a (sym e)) (omega arith)
count_of_mem a (x ∷ xs) (inr m) = ground (arith, count_of_mem a xs m)

-- The groups of one side.
pub record IsSide (nodes : List ℕ) (first : ℕ) (g : Groups) : Type 0 where
  pub inside :
      (l e : ℕ)
      → l < length g.keys
      → e ∈ members g l
      → (get_or g.group_of e 0 ≡ first + l) × (get_or nodes e 0 ≡ get_or g.keys l 0)
  pub found : (e : ℕ) → e < length nodes → (l : ℕ) × (l < length g.keys) × (e ∈ members g l)
  pub known : (l e : ℕ) → l < length g.keys → e ∈ members g l → e < length nodes
  pub ascending : (i j : ℕ) → i < j → j < length g.keys → get_or g.keys i 0 < get_or g.keys j 0
  pub measured : (l : ℕ) → l < length g.keys → get_or (widths g.offsets) l 0 ≡ length (members g l)
  pub length-widths_keys : length (widths g.offsets) ≡ length g.keys

mem-slice : (b n e : ℕ) (xs : List ℕ) → e ∈ take n (drop b xs) → e ∈ xs
mem-slice b n e xs m = mem-drop b e xs (
    subst (λ l. e ∈ l) (take-append-drop n (drop b xs))
      (mem-append_left e (take n (drop b xs)) _ m))

module _ (nodes : List ℕ) (first : ℕ) (small : (e : ℕ) → get_or nodes e 0 < 2 ^ 32) where
  mem-radix_order : (e : ℕ) → (e ∈ radix_order nodes) ↔ (e < length nodes)
  mem-radix_order e = (
    λ m. ground (arith, count_of_mem e (radix_order nodes) m, (radix_order-sorts nodes small).1 e),
    λ h. mem_of_count e (radix_order nodes) (ground (arith, (radix_order-sorts nodes small).1 e)),
  )

  abbrev start : Groups
  start = record { group_of = replicate (length nodes) 0; keys = []; offsets = 0 ∷ []; edges = [] }

  start-IsGrouped : IsGrouped nodes first start (radix_order nodes)
  start-IsGrouped = record {
    sized = length-replicate (length nodes) 0;
    ends = refl;
    last = refl;
    rising = λ l h. absurd (omega arith);
    within = λ l h. absurd (omega arith);
    inside = λ l e h m. absurd (omega arith);
    found = λ e m. absurd m;
    ascending = λ i j h b. absurd (omega arith);
    before = λ i e h m. absurd (omega arith);
  }

  pub group_side-IsSide : IsSide nodes first (group_side first nodes)
  unfolding group_side
  group_side-IsSide =
      let (s, edges) =
        group_runs-IsGrouped nodes first (length nodes) (radix_order nodes) start
          (radix_order-sorts nodes small).0 (λ e m. (mem-radix_order e).0 m)
          (omega (arith, length-radix_order nodes)) start-IsGrouped in
      side _ s edges
    where
      side :
          (g : Groups)
          → IsGrouped nodes first g []
          → g.edges ≡ radix_order nodes
          → IsSide nodes first g
      side g s edges = record {
        inside = s.inside;
        found = λ e h. s.found e (subst (λ l. e ∈ l) (sym edges) ((mem-radix_order e).1 h));
        known =
            λ l e h m. (mem-radix_order e).0 (subst (λ t. e ∈ t) edges (mem-slice _ _ e g.edges m));
        ascending = s.ascending;
        measured = λ l h.
            get_or-widths g.offsets l (omega (arith, s.ends))
            ∙ sym (length-slice _ _ g.edges (omega (arith, s.rising l h, s.within l h)));
        length-widths_keys = all_widths g.offsets s.ends;
      }
        where
          all_widths :
              (os : List ℕ) → length os ≡ suc (length g.keys) → length (widths os) ≡ length g.keys
          all_widths [] e = absurd (omega arith)
          all_widths (b ∷ os) e = length-widths b os ∙ omega arith

-- The mate of a node differs in the lowest bit.
bit_xor-zero : (k x : ℕ) → x < k → bit_xor x 0 ≡ x
bit_xor-zero zero x h = absurd (omega arith)
bit_xor-zero (suc k) zero h = refl
bit_xor-zero (suc k) (suc x) h =
    omega (arith, bit_xor_step (suc x) 0, bit_xor-zero k (suc x / 2) (omega arith))

bit_xor-one : (x : ℕ) → bit_xor x 1 ≡ x / 2 * 2 + (x + 1) % 2
bit_xor-one x = omega (arith, bit_xor_step x 1, bit_xor-zero (suc (x / 2)) (x / 2) (omega arith))

pub bit_xor-one_twice : (x y : ℕ) → bit_xor x 1 ≡ y → bit_xor y 1 ≡ x
bit_xor-one_twice x y e = omega (arith, bit_xor-one x, bit_xor-one y)

module _ (nodes : List ℕ) (first : ℕ) (g : Groups) (s : IsSide nodes first g) where
  abbrev group_key : ℕ → ℕ
  group_key l = get_or g.keys l 0

  pub same_group :
      (i j : ℕ) → i < length g.keys → j < length g.keys → group_key i ≡ group_key j → i ≡ j
  same_group i j hi hj e = elim (dec_lt i j) [
    | yes less ↦ absurd (omega (arith, s.ascending i j less hj))
    | no other ↦ elim (dec_lt j i) [
      | yes more ↦ absurd (omega (arith, s.ascending j i more hi))
      | no same ↦ omega arith
    ]
  ]

  in_order : (i j : ℕ) → i < length g.keys → group_key i < group_key j → j < length g.keys → i < j
  in_order i j hi h hj = elim (dec_lt i j) [
    | yes less ↦ less
    | no other ↦ elim (dec_lt j i) [
      | yes more ↦ absurd (omega (arith, s.ascending j i more hi))
      | no same ↦ let it : i ≡ j = omega arith in absurd (omega (arith, ap group_key it))
    ]
  ]

  next_to :
      (i j : ℕ) → i < length g.keys → j < length g.keys → group_key j ≡ group_key i + 1 → j ≡ i + 1
  next_to i j hi hj e = elim (dec_lt (i + 1) j) [
    | yes gap ↦ absurd (
        omega
          (arith, s.ascending i (i + 1) (omega arith) (omega arith), s.ascending (i + 1) j gap hj))
    | no other ↦ omega (arith, in_order i j hi (omega arith) hj)
  ]

  neighbour_found :
      (l m : ℕ)
      → l < length g.keys
      → m < length g.keys
      → group_key m ≡ bit_xor (group_key l) 1
      → neighbour g.keys l ≡ some m
  neighbour_found l m hl hm e = elim (Bool-cases (is_even (group_key l))) [
    | inl even ↦ above even
    | inr odd ↦ below odd
  ]
    where
      above : is_even (group_key l) ≡ true → neighbour g.keys l ≡ some m
      above even =
          let halves : group_key l % 2 ≡ 0 = ==→≡ _ _ even in
          let it : m ≡ l + 1 = next_to l m hl hm (omega (arith, bit_xor-one (group_key l))) in
          rw even (ground arith)

      below : is_even (group_key l) ≡ false → neighbour g.keys l ≡ some m
      below odd =
          let halves : group_key l % 2 ≢ 0 = ==→≢ _ _ odd in
          let it : l ≡ m + 1 = next_to m l hm hl (omega (arith, bit_xor-one (group_key l))) in
          rw odd (ground arith)

  -- A group whose node is the mate of another's is found as its mate.
  pub mate_group_found :
      (l m : ℕ)
      → l < length g.keys
      → m < length g.keys
      → group_key m ≡ bit_xor (group_key l) 1
      → mate_group g.keys l ≡ some m
  unfolding mate_group
  mate_group_found l m hl hm e =
      ap (if_complement g.keys l) (neighbour_found l m hl hm e) ∙ rw (≡→== _ _ e) refl

  neighbour-lt : (l k : ℕ) → l < length g.keys → neighbour g.keys l ≡ some k → k < length g.keys
  neighbour-lt l k h e = ground arith

  -- And a mate that is found has the mate of its node.
  pub mate_group_is :
      (l m : ℕ)
      → l < length g.keys
      → mate_group g.keys l ≡ some m
      → (m < length g.keys) × (group_key m ≡ bit_xor (group_key l) 1)
  unfolding mate_group
  mate_group_is l m hl e = complement (neighbour g.keys l) refl e
    where
      complement :
          (o : Option ℕ)
          → neighbour g.keys l ≡ o
          → if_complement g.keys l o ≡ some m
          → (m < length g.keys) × (group_key m ≡ bit_xor (group_key l) 1)
      complement none n c = absurd (none≢some c)
      complement (some k) n c = elim (Bool-cases (group_key k == bit_xor (group_key l) 1)) [
        | inl same ↦
            let it : k ≡ m = some_inj (rw same at c) in
            subst (λ t. (t < length g.keys) × (group_key t ≡ bit_xor (group_key l) 1)) it
              (neighbour-lt l k hl n, ==→≡ _ _ same)
        | inr other ↦ absurd (none≢some (rw other at c))
      ]

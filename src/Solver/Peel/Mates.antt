-- ===== src/Solver/Peel/Mates.antt =====
-- src/solver/peel.rs: a set of edges of which each has a mate on each side, among the groups.
use rust_miner.Base.{ℕ, ◌+◌, ◌-◌, ◌<◌, ◌≤◌, ◌≡◌, refl, sym, ap, ◌∙◌, subst, arith, ◌⊎◌, inl, inr}
use rust_miner.Base.{
  List, ◌++◌, length, length-append, get_or, ◌∈◌, bit_xor, Option, none, some, some_inj, none≢some,
}
use rust_miner.Base.{get_or-append_left, get_or-append_right}
use rust_miner.Base.{ltb, false}
use native.Mathlib.Decide.{dec_lt}
use rust_miner.Solver.Peel.{
  Groups, Core, members, widths, mate_group, mate_at, edges_of, group_count, shift_by,
}
use rust_miner.Solver.Peel.Sides.{
  IsSide, mate_group_found, mate_group_is, same_group, bit_xor-one_twice,
}

-- Edges that have mates among themselves by the nodes of a side.
pub record AreMated (M : ℕ → Type 0) (nodes : List ℕ) : Type 0 where
  pub ranged : (e : ℕ) → M e → e < length nodes
  pub mated : (e : ℕ) → M e → (m : ℕ) × M m × (get_or nodes m 0 ≡ bit_xor (get_or nodes e 0) 1)

module _ (M : ℕ → Type 0) (nodes : List ℕ) (first : ℕ) (g : Groups) (s : IsSide nodes first g)
    (a : AreMated M nodes) where
  side_mate :
      (l e : ℕ)
      → l < length g.keys
      → M e
      → e ∈ members g l
      → (m : ℕ) × (mate_group g.keys l ≡ some m)
        × (m < length g.keys)
        × (e' : ℕ) × M e'
        × (e' ∈ members g m)
  side_mate l e hl k i =
      let (e', k', same) = a.mated e k in
      let (m, hm, i') = s.found e' (a.ranged e' k') in
      let key : get_or g.keys m 0 ≡ bit_xor (get_or g.keys l 0) 1 =
        sym (s.inside m e' hm i').1 ∙ same ∙ ap (λ n. bit_xor n 1) (s.inside l e hl i).1 in
      (m, mate_group_found nodes first g s l m hl hm key, hm, e', k', i')

  side_back :
      (l m e : ℕ)
      → l < length g.keys
      → mate_group g.keys l ≡ some m
      → M e
      → e ∈ members g m
      → (e' : ℕ) × M e' × (e' ∈ members g l)
  side_back l m e hl mate k i =
      let (hm, key) = mate_group_is nodes first g s l m hl mate in
      let (e', k', same) = a.mated e k in
      let (j, hj, i') = s.found e' (a.ranged e' k') in
      let back : get_or g.keys j 0 ≡ get_or g.keys l 0 =
        sym (s.inside j e' hj i').1
        ∙ same
        ∙ ap (λ n. bit_xor n 1) (s.inside m e hm i).1
        ∙ bit_xor-one_twice (get_or g.keys l 0) (get_or g.keys m 0) (sym key) in
      (e', k', subst (λ t. e' ∈ members g t) (same_group nodes first g s j l hj hl back) i')

-- Both sides, with the groups of the right behind those of the left.
pub record IsCore (left right : List ℕ) (core : Core) : Type 0 where
  pub as_long : length right ≡ length left
  pub on_left : IsSide left 0 core.left
  pub on_right : IsSide right (length core.left.keys) core.right

module _ (left right : List ℕ) (core : Core) (s : IsCore left right core) where
  abbrev count_left : ℕ
  count_left = length core.left.keys

  edges_of-left : (g : ℕ) → g < count_left → edges_of core g ≡ members core.left g
  unfolding edges_of
  edges_of-left g h = ground arith

  edges_of-right : (l : ℕ) → edges_of core (count_left + l) ≡ members core.right l
  unfolding edges_of
  edges_of-right l =
      let e : count_left + l - count_left ≡ l = omega arith in
      rw (ltb_not (count_left + l) count_left (omega arith), e) refl
    where
      ltb_not : (x y : ℕ) → y ≤ x → ltb x y ≡ false
      ltb_not x y h = ground arith

  mate_at-left : (g : ℕ) → g < count_left → mate_at core g ≡ mate_group core.left.keys g
  unfolding mate_at
  mate_at-left g h = ground arith

  mate_at-right :
      (l : ℕ)
      → mate_at core (count_left + l) ≡ shift_by core count_left (mate_group core.right.keys l)
  unfolding mate_at
  mate_at-right l =
      let e : count_left + l - count_left ≡ l = omega arith in
      rw (ltb_not (count_left + l) count_left (omega arith), e) refl
    where
      ltb_not : (x y : ℕ) → y ≤ x → ltb x y ≡ false
      ltb_not x y h = ground arith

  -- A fact about every group holds if it holds on each side.
  pub by_side :
      (P : ℕ → Type 0)
      → ((g : ℕ) → g < count_left → P g)
      → ((l : ℕ) → l < length core.right.keys → P (count_left + l))
      → (g : ℕ) → g < group_count core
      → P g
  by_side P on_left on_right g h = elim (dec_lt g count_left) [
    | yes k ↦ on_left g k
    | no k ↦
        let e : count_left + (g - count_left) ≡ g = omega arith in
        subst P e (on_right (g - count_left) (omega arith))
  ]

  -- Each edge is in its group on each side, and in no other.
  pub in_left :
      (e : ℕ)
      → e < length left
      → (e ∈ edges_of core (get_or core.left.group_of e 0))
        × (get_or core.left.group_of e 0 < count_left)
  in_left e h =
      let (l, hl, i) = s.on_left.found e h in
      let same : l ≡ get_or core.left.group_of e 0 = omega (arith, (s.on_left.inside l e hl i).0) in
      subst (λ t. (e ∈ edges_of core t) × (t < count_left)) same
        (subst (λ t. e ∈ t) (sym (edges_of-left l hl)) i, hl)

  pub in_right :
      (e : ℕ)
      → e < length left
      → (e ∈ edges_of core (get_or core.right.group_of e 0))
        × (count_left ≤ get_or core.right.group_of e 0)
        × (get_or core.right.group_of e 0 < group_count core)
  in_right e h =
      let (l, hl, i) = s.on_right.found e (omega (arith, s.as_long)) in
      let same : count_left + l ≡ get_or core.right.group_of e 0 =
        sym (s.on_right.inside l e hl i).0 in
      subst (λ t. (e ∈ edges_of core t) × (count_left ≤ t) × (t < group_count core)) same
        (subst (λ t. e ∈ t) (sym (edges_of-right l)) i, omega arith, omega arith)

  abbrev Known : ℕ → Type 0
  Known g =
      (e : ℕ)
      → e ∈ edges_of core g
      → (e < length left)
        × ((g ≡ get_or core.left.group_of e 0) ⊎ (g ≡ get_or core.right.group_of e 0))

  pub edge_groups : (g : ℕ) → g < group_count core → Known g
  edge_groups =
      by_side Known
        (λ g h e i.
          let i' : e ∈ members core.left g = subst (λ t. e ∈ t) (edges_of-left g h) i in
          (s.on_left.known g e h i', inl (omega (arith, (s.on_left.inside g e h i').0))))
        (λ l h e i.
          let i' : e ∈ members core.right l = subst (λ t. e ∈ t) (edges_of-right l) i in
          (
            omega (arith, s.on_right.known l e h i', s.as_long),
            inr (sym (s.on_right.inside l e h i').0),
          ))

  pub length-live :
      length (widths core.left.offsets ++ widths core.right.offsets) ≡ group_count core
  length-live =
      length-append (widths core.left.offsets) (widths core.right.offsets)
      ∙ omega (arith, s.on_left.length-widths_keys, s.on_right.length-widths_keys)

  abbrev live : List ℕ
  live = widths core.left.offsets ++ widths core.right.offsets

  pub live_at : (g : ℕ) → g < group_count core → get_or live g 0 ≡ length (edges_of core g)
  live_at =
      by_side (λ g. get_or live g 0 ≡ length (edges_of core g))
        (λ g h.
          get_or-append_left (widths core.left.offsets) _ g 0
            (omega (arith, s.on_left.length-widths_keys))
          ∙ s.on_left.measured g h
          ∙ ap length (sym (edges_of-left g h)))
        (λ l h.
          ap (λ n. get_or live (n + l) 0) (sym s.on_left.length-widths_keys)
          ∙ get_or-append_right (widths core.left.offsets) (widths core.right.offsets) l 0
          ∙ s.on_right.measured l h
          ∙ ap length (sym (edges_of-right l)))

  pub mate_at-lt :
      (g : ℕ) → g < group_count core → (m : ℕ) → mate_at core g ≡ some m → m < group_count core
  mate_at-lt =
      by_side (λ g. (m : ℕ) → mate_at core g ≡ some m → m < group_count core)
        (λ g h m mate. omega (
          arith,
          (mate_group_is left 0 core.left s.on_left g m h (sym (mate_at-left g h) ∙ mate)).0,
        ))
        (λ l h m mate.
          shifted l h m (mate_group core.right.keys l) refl (sym (mate_at-right l) ∙ mate))
    where
      shifted :
          (l : ℕ)
          → l < length core.right.keys
          → (m : ℕ) (o : Option ℕ) → mate_group core.right.keys l ≡ o
          → shift_by core count_left o ≡ some m
          → m < group_count core
      shifted l h m none n e = absurd (none≢some e)
      shifted l h m (some j) n e =
          omega
            (arith, some_inj e, (mate_group_is right count_left core.right s.on_right l j h n).0)

  module _ (M : ℕ → Type 0) (a : AreMated M left) (b : AreMated M right) where
    abbrev HasMate : ℕ → Type 0
    HasMate g =
        (e : ℕ)
        → M e
        → e ∈ edges_of core g
        → (m : ℕ) × (mate_at core g ≡ some m)
          × (m < group_count core)
          × (e' : ℕ) × M e'
          × (e' ∈ edges_of core m)

    pub group_mate : (g : ℕ) → g < group_count core → HasMate g
    group_mate =
        by_side HasMate
          (λ g h e k i.
            let (m, mate, hm, e', k', i') =
              side_mate M left 0 core.left s.on_left a g e h k
                (subst (λ t. e ∈ t) (edges_of-left g h) i) in
            (
              m,
              mate_at-left g h ∙ mate,
              omega arith,
              e',
              k',
              subst (λ t. e' ∈ t) (sym (edges_of-left m hm)) i',
            ))
          (λ l h e k i.
            let (m, mate, hm, e', k', i') =
              side_mate M right count_left core.right s.on_right b l e h k
                (subst (λ t. e ∈ t) (edges_of-right l) i) in
            (
              count_left + m,
              mate_at-right l ∙ ap (shift_by core count_left) mate,
              omega arith,
              e',
              k',
              subst (λ t. e' ∈ t) (sym (edges_of-right m)) i',
            ))

    abbrev IsMateOf : ℕ → Type 0
    IsMateOf g =
        (m e : ℕ)
        → mate_at core g ≡ some m
        → M e
        → e ∈ edges_of core m
        → (m < group_count core) × (e' : ℕ) × M e' × (e' ∈ edges_of core g)

    back_left : (g : ℕ) → g < count_left → IsMateOf g
    back_left g h m e mate k i =
        let mate' : mate_group core.left.keys g ≡ some m = sym (mate_at-left g h) ∙ mate in
        let hm : m < count_left = (mate_group_is left 0 core.left s.on_left g m h mate').0 in
        let (e', k', i') =
          side_back M left 0 core.left s.on_left a g m e h mate' k
            (subst (λ t. e ∈ t) (edges_of-left m hm) i) in
        (omega arith, e', k', subst (λ t. e' ∈ t) (sym (edges_of-left g h)) i')

    back_right : (l : ℕ) → l < length core.right.keys → IsMateOf (count_left + l)
    back_right l h m e mate k i =
        from (mate_group core.right.keys l) refl (sym (mate_at-right l) ∙ mate)
      where
        from :
            (o : Option ℕ)
            → mate_group core.right.keys l ≡ o
            → shift_by core count_left o ≡ some m
            → (m < group_count core) × (e' : ℕ) × M e' × (e' ∈ edges_of core (count_left + l))
        from none n c = absurd (none≢some c)
        from (some j) n c =
            let it : count_left + j ≡ m = some_inj c in
            let hj : j < length core.right.keys =
              (mate_group_is right count_left core.right s.on_right l j h n).0 in
            let (e', k', i') =
              side_back M right count_left core.right s.on_right b l j e h n k
                (subst (λ t. e ∈ t) (ap (edges_of core) (sym it) ∙ edges_of-right j) i) in
            (omega arith, e', k', subst (λ t. e' ∈ t) (sym (edges_of-right l)) i')

    pub group_back : (g : ℕ) → g < group_count core → IsMateOf g
    group_back = by_side IsMateOf back_left back_right

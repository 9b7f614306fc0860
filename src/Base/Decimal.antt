-- ===== src/Base/Decimal.antt =====
-- `str::parse` of an unsigned integer below a limit, and the code points of a text.
use Prim.Native.Nat.{ℕ, ◌+◌, ◌-◌, ◌*◌, ◌<◌}
use Prim.Native.Char.{code}
use Prim.Native.String.{String}
use mathlib.Core.Bool.{◌&&◌}
use mathlib.Core.Option.{Option, none, some}
use mathlib.Core.List.{List, [], ◌∷◌}
use mathlib.Core.Path.{◌≡◌}
use mathlib.Core.Logic.{inl, inr}
use native.Mathlib.Omega.{arith}
use rust_miner.Base.Tests.{leb, ltb, ◌==◌, if◌then◌else◌, Bool-cases, some_inj, none≢some}

abbrev pub codes : String → List ℕ
codes String.[] = []
codes (String.◌∷◌ c s) = code c ∷ codes s

-- The digits behind a prefix that is worth `value`; a value at the limit is an overflow.
unfoldable pub parse_digits : ℕ → ℕ → List ℕ → Option ℕ
parse_digits limit value [] = some value
parse_digits limit value (c ∷ cs) =
    let longer = value * 10 + (c - 48) in
    let rest = parse_digits limit longer cs in
    if leb 48 c && leb c 57 && ltb longer limit then rest else none

abbrev pub parse_some_digits : ℕ → List ℕ → Option ℕ
parse_some_digits limit [] = none
parse_some_digits limit (c ∷ cs) = parse_digits limit 0 (c ∷ cs)

-- A leading `+` is allowed, an empty text is not.
abbrev pub parse_uint : ℕ → List ℕ → Option ℕ
parse_uint limit [] = none
parse_uint limit (c ∷ cs) =
    if c == 43 then parse_some_digits limit cs else parse_some_digits limit (c ∷ cs)

parse_digits-lt :
    (limit value n : ℕ) (cs : List ℕ)
    → value < limit
    → parse_digits limit value cs ≡ some n
    → n < limit
unfolding parse_digits
parse_digits-lt limit value n [] below e = omega (arith, some_inj e)
parse_digits-lt limit value n (c ∷ cs) below e =
    elim (Bool-cases (leb 48 c && leb c 57 && ltb (value * 10 + (c - 48)) limit)) [
      | inl digit ↦
          parse_digits-lt limit (value * 10 + (c - 48)) n cs (ground arith) (rw digit at e)
      | inr other ↦ absurd (none≢some (rw other at e))
    ]

pub parse_uint-lt :
    (limit n : ℕ) (cs : List ℕ) → 0 < limit → parse_uint limit cs ≡ some n → n < limit
parse_uint-lt limit n [] pos e = absurd (none≢some e)
parse_uint-lt limit n (c ∷ cs) pos e = elim (Bool-cases (c == 43)) [
  | inl plus ↦ digits cs (rw plus at e)
  | inr plain ↦ digits (c ∷ cs) (rw plain at e)
]
  where
    digits : (ds : List ℕ) → parse_some_digits limit ds ≡ some n → n < limit
    digits [] q = absurd (none≢some q)
    digits (d ∷ ds) q = parse_digits-lt limit 0 n (d ∷ ds) pos q

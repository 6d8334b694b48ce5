-- ===== src/Base/Decimal.antt =====
-- `%d` of a number that is not negative, with twenty digits, which are enough for every 64-bit
-- integer, and `strconv.Atoi` on 64 bits.
use Prim.Native.Nat.{ℕ, zero, suc, ◌+◌, ◌-◌, ◌*◌, ◌^◌, ◌/◌, ◌%◌}
use Prim.Native.Char.{code}
use mathlib.Core.Bool.{◌&&◌}
use mathlib.Core.Option.{Option, none, some}
use mathlib.Core.Option
use Prim.Native.String.{String, [], ◌∷◌, ◌++◌, char_at}
use ciwi.Base.Int.{ℤ, pos, negsuc}
use ciwi.Base.Tests.{leb, eqb, if◌then◌else◌}

digit : ℕ → String
digit d = char_at "0123456789" d ∷ []

digits_from : ℕ → ℕ → String
unfolding digit
digits_from zero n = []
digits_from (suc fuel) n =
    let front = digits_from fuel (n / 10) in
    if eqb (n / 10) 0 then digit n else front ++ digit (n % 10)

unfoldable pub decimal : ℕ → String
unfolding digits_from
decimal n = digits_from 20 n

atoi_digits : ℕ → String → Option ℕ
atoi_digits total [] = some total
atoi_digits total (c ∷ s) =
    let rest = atoi_digits (10 * total + (code c - b'0')) s in
    if leb b'0' (code c) && leb (code c) b'9' then rest else none

-- At least one digit, and at most the bound.
atoi_within : ℕ → String → Option ℕ
unfolding atoi_digits
atoi_within bound [] = none
atoi_within bound (c ∷ s) = elim (atoi_digits 0 (c ∷ s)) [
  | none ↦ none
  | some n ↦ if leb n bound then some n else none
]

negated : Option ℕ → Option ℤ
negated none = none
negated (some zero) = some (pos 0)
negated (some (suc n)) = some (negsuc n)

-- `strconv.Atoi`; none is its error.
unfoldable pub atoi : String → Option ℤ
unfolding atoi_within negated
atoi [] = none
atoi (c ∷ s) =
    if eqb (code c) b'-'
    then negated (atoi_within (2 ^ 63) s)
    else if eqb (code c) b'+'
    then Option.map pos (atoi_within (2 ^ 63 - 1) s)
    else Option.map pos (atoi_within (2 ^ 63 - 1) (c ∷ s))

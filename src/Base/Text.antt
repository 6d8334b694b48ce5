-- ===== src/Base/Text.antt =====
-- Go's `strings` and `unicode` functions that the program calls, over texts of code points.
-- `to_lower` is exact on ASCII and on the two other letters whose lower case is ASCII; every other
-- letter is kept, where Go maps it to a letter outside ASCII. The program compares the result with
-- ASCII words only.
use Prim.Native.Nat.{ℕ, ◌-◌}
use Prim.Native.Char.{Char, code}
use Prim.Native.String.{String, [], ◌∷◌, ◌++◌, len, slice, char_at}
use mathlib.Core.Path.{◌≡◌, refl, ap, ◌∙◌}
use mathlib.Core.Bool.{Bool, true, false, ◌&&◌, ◌||◌}
use mathlib.Core.List.{List}
use native.Mathlib.Omega.{arith}
use text.Mathlib.Text.{starts_with}
use ciwi.Base.Tests.{eqb, leb, if◌then◌else◌}

-- `unicode.IsSpace`.
unfoldable pub is_space : ℕ → Bool
is_space c =
    (leb 9 c && leb c 13)
    || eqb c 32
    || eqb c 0x85
    || eqb c 0xa0
    || eqb c 0x1680
    || (leb 0x2000 c && leb c 0x200a)
    || eqb c 0x2028
    || eqb c 0x2029
    || eqb c 0x202f
    || eqb c 0x205f
    || eqb c 0x3000

abbrev pub is_empty_text : String → Bool
is_empty_text [] = true
is_empty_text (c ∷ s) = false

trim_left : String → String
trim_left [] = []
trim_left (c ∷ s) = if is_space (code c) then trim_left s else c ∷ s

trim_right : String → String
trim_right [] = []
trim_right (c ∷ s) =
    let rest = trim_right s in if is_space (code c) && is_empty_text rest then [] else c ∷ rest

-- `strings.TrimSpace`.
unfoldable pub trim_space : String → String
unfolding trim_left trim_right is_space
trim_space s = trim_right (trim_left s)

-- `unicode.ToLower`, within the bounds that the header of this file states.
lower_char : Char → Char
lower_char c =
    if leb b'A' (code c) && leb (code c) b'Z'
    then char_at "abcdefghijklmnopqrstuvwxyz" (code c - b'A')
    else if eqb (code c) 0x130
    then char_at "i" 0
    else if eqb (code c) 0x212a
    then char_at "k" 0
    else c

-- `strings.ToLower`.
unfoldable pub to_lower : String → String
unfolding lower_char
to_lower [] = []
to_lower (c ∷ s) = lower_char c ∷ to_lower s

-- `strings.TrimPrefix`.
unfoldable pub trim_prefix : String → String → String
trim_prefix s prefix = if starts_with s prefix then slice s (len prefix) (len s) else s

push_first : Char → List String → List String
push_first c List.[] = List.◌∷◌ (c ∷ []) List.[]
push_first c (List.◌∷◌ w ws) = List.◌∷◌ (c ∷ w) ws

-- `strings.Split` at a separator of one character.
unfoldable pub split_at : ℕ → String → List String
unfolding push_first
split_at sep [] = List.◌∷◌ [] List.[]
split_at sep (c ∷ s) =
    let rest = split_at sep s in if eqb (code c) sep then List.◌∷◌ [] rest else push_first c rest

-- `strings.Join`.
unfoldable pub join : String → List String → String
join sep List.[] = []
join sep (List.◌∷◌ w List.[]) = w
join sep (List.◌∷◌ w (List.◌∷◌ v ws)) = w ++ (sep ++ join sep (List.◌∷◌ v ws))

trim_right_idem : (s : String) → trim_right (trim_right s) ≡ trim_right s
unfolding trim_right
trim_right_idem [] = refl
trim_right_idem (c ∷ s) = ground (arith, trim_right_idem s)

trim_left_idem : (s : String) → trim_left (trim_left s) ≡ trim_left s
unfolding trim_left
trim_left_idem [] = refl
trim_left_idem (c ∷ s) = ground (arith, trim_left_idem s)

trim_left-trim_right :
    (s : String) → trim_left (trim_right (trim_left s)) ≡ trim_right (trim_left s)
unfolding trim_left trim_right
trim_left-trim_right [] = refl
trim_left-trim_right (c ∷ s) = ground (arith, trim_left-trim_right s)

-- A trimmed text has nothing left to trim.
pub trim_space_idem : (s : String) → trim_space (trim_space s) ≡ trim_space s
unfolding trim_space
trim_space_idem s = ap trim_right (trim_left-trim_right s) ∙ trim_right_idem (trim_left s)

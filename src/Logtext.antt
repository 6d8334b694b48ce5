-- ===== src/Logtext.antt =====
-- internal/logtext/logtext.go: the splitting of log text into chunks that no character crosses. A
-- text is its UTF-8 bytes.
use ciwi.Base.{
  ℕ, zero, suc, ◌-◌, ◌*◌, Bool, not, ◌&&◌, List, [], ◌∷◌, if◌then◌else◌, length, is_empty, ltb, leb,
  eqb,
}
pub mod Laws

-- `utf8.RuneStart`: not a continuation byte.
unfoldable pub rune_start : ℕ → Bool
rune_start b = not (leb 0x80 b && ltb b 0xc0)

unfoldable pub byte_at : List ℕ → ℕ → ℕ
byte_at [] i = 0
byte_at (b ∷ bs) zero = b
byte_at (b ∷ bs) (suc i) = byte_at bs i

unfoldable pub take : ℕ → List ℕ → List ℕ
take zero bs = []
take (suc n) [] = []
take (suc n) (b ∷ bs) = b ∷ take n bs

unfoldable pub drop : ℕ → List ℕ → List ℕ
drop zero bs = bs
drop (suc n) [] = []
drop (suc n) (b ∷ bs) = drop n bs

abbrev pub is_within : ℕ → ℕ → ℕ → Bool
is_within low high b = leb low b && leb b high

-- The second byte that may follow a first byte of three or four.
unfoldable pub accepts_second : ℕ → ℕ → Bool
accepts_second first second =
    if eqb first 0xe0
    then is_within 0xa0 0xbf second
    else if eqb first 0xed
    then is_within 0x80 0x9f second
    else if eqb first 0xf0
    then is_within 0x90 0xbf second
    else if eqb first 0xf4
    then is_within 0x80 0x8f second
    else is_within 0x80 0xbf second

-- The bytes behind the first that a rune of two, three or four bytes wants.
abbrev pub is_two_wide : ℕ → List ℕ → Bool
is_two_wide b bs = is_within 0xc2 0xdf b && leb 1 (length bs) && is_within 0x80 0xbf (byte_at bs 0)

abbrev pub is_three_wide : ℕ → List ℕ → Bool
is_three_wide b bs =
    is_within 0xe0 0xef b
    && leb 2 (length bs)
    && accepts_second b (byte_at bs 0)
    && is_within 0x80 0xbf (byte_at bs 1)

abbrev pub is_four_wide : ℕ → List ℕ → Bool
is_four_wide b bs =
    is_within 0xf0 0xf4 b
    && leb 3 (length bs)
    && accepts_second b (byte_at bs 0)
    && is_within 0x80 0xbf (byte_at bs 1)
    && is_within 0x80 0xbf (byte_at bs 2)

-- The width that `utf8.DecodeRuneInString` gives: 1 for a byte that starts no valid rune.
unfoldable pub rune_width : List ℕ → ℕ
rune_width [] = 0
rune_width (b ∷ bs) =
    if is_two_wide b bs
    then 2
    else if is_three_wide b bs
    then 3
    else if is_four_wide b bs
    then 4
    else 1

-- The inner loop: back from a cut to the start of a rune, or to 0.
unfoldable pub back_up : ℕ → List ℕ → ℕ
back_up zero text = 0
back_up (suc cut) text =
    let earlier = back_up cut text in
    if rune_start (byte_at text (suc cut)) then suc cut else earlier

unfoldable pub cut_of : ℕ → List ℕ → ℕ
cut_of max_bytes text =
    let cut = back_up max_bytes text in if eqb cut 0 then rune_width text else cut

-- The outer loop.
unfoldable pub split_from : ℕ → ℕ → List ℕ → List (List ℕ)
split_from zero max_bytes text = []
split_from (suc fuel) max_bytes text =
    let cut = cut_of max_bytes text in
    let rest = split_from fuel max_bytes (drop cut text) in
    if ltb max_bytes (length text)
    then take cut text ∷ rest
    else if is_empty text
    then []
    else text ∷ []

abbrev pub chunk_bytes : ℕ
chunk_bytes = 64 * 1024

-- `Split`; a round of the outer loop takes at least one byte.
unfoldable pub split : ℕ → List ℕ → List (List ℕ)
split max_bytes text =
    split_from (length text) (if eqb max_bytes 0 then chunk_bytes else max_bytes) text

-- `TailRunes`, of the text's runes.
unfoldable pub tail_runes : List ℕ → ℕ → List ℕ
tail_runes runes count =
    if eqb count 0
    then []
    else if leb (length runes) count
    then runes
    else drop (length runes - count) runes

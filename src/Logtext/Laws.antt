-- ===== src/Logtext/Laws.antt =====
-- The chunks of a text put together are the text, and none of them is empty or too long.
use ciwi.Base.{
  ℕ, zero, suc, ◌-◌, ◌≤◌, ◌<◌, min, max, ◌≡◌, refl, ap, ◌∙◌, List, [], ◌∷◌, ◌++◌, arith,
  if◌then◌else◌, length, is_empty, All, ltb, eqb, ltb→lt, if-cases,
}
use ciwi.Logtext.{
  take, drop, rune_width, back_up, cut_of, split_from, split, chunk_bytes, is_two_wide,
  is_three_wide, is_four_wide,
}

-- The chunks, one behind the other.
unfoldable pub concat : List (List ℕ) → List ℕ
concat [] = []
concat (chunk ∷ chunks) = chunk ++ concat chunks

take-drop : (n : ℕ) (text : List ℕ) → take n text ++ drop n text ≡ text
unfolding take drop
take-drop zero text = refl
take-drop (suc n) [] = refl
take-drop (suc n) (b ∷ bs) = ap (λ xs. b ∷ xs) (take-drop n bs)

length-take : (n : ℕ) (text : List ℕ) → length (take n text) ≡ min n (length text)
unfolding take
length-take zero text = omega arith
length-take (suc n) [] = omega arith
length-take (suc n) (b ∷ bs) = omega (arith, length-take n bs)

length-drop : (n : ℕ) (text : List ℕ) → length (drop n text) ≡ length text - n
unfolding drop
length-drop zero text = omega arith
length-drop (suc n) [] = omega arith
length-drop (suc n) (b ∷ bs) = omega (arith, length-drop n bs)

-- The width of a rune, within the bytes that are there.
abbrev IsWidth : List ℕ → ℕ → Type 0
IsWidth text n = (0 < n) × (n ≤ 4) × (n ≤ length text)

rune_width-bounds : (text : List ℕ) → 0 < length text → IsWidth text (rune_width text)
unfolding rune_width
rune_width-bounds [] h = absurd (omega arith)
rune_width-bounds (b ∷ bs) h =
    if-cases (IsWidth (b ∷ bs)) (is_two_wide b bs) 2 _
      (λ two. (omega arith, omega arith, ground arith))
      (λ more.
        if-cases (IsWidth (b ∷ bs)) (is_three_wide b bs) 3 _
          (λ three. (omega arith, omega arith, ground arith))
          (λ most.
            if-cases (IsWidth (b ∷ bs)) (is_four_wide b bs) 4 1
              (λ four. (omega arith, omega arith, ground arith))
              (λ one. (omega arith, omega arith, omega arith))))

back_up-bound : (cut : ℕ) (text : List ℕ) → back_up cut text ≤ cut
unfolding back_up
back_up-bound zero text = omega arith
back_up-bound (suc cut) text = ground (arith, back_up-bound cut text)

cut_of-bounds :
    (max_bytes : ℕ) (text : List ℕ)
    → max_bytes < length text
    → (0 < cut_of max_bytes text)
      × (cut_of max_bytes text ≤ max max_bytes 4)
      × (cut_of max_bytes text ≤ length text)
unfolding cut_of
cut_of-bounds max_bytes text h =
    ground (arith, rune_width-bounds text, back_up-bound max_bytes text)

append_nothing : (text : List ℕ) → text ++ [] ≡ text
append_nothing [] = refl
append_nothing (b ∷ bs) = ap (λ xs. b ∷ xs) (append_nothing bs)

split_from-concat :
    (fuel max_bytes : ℕ) (text : List ℕ)
    → length text ≤ fuel
    → concat (split_from fuel max_bytes text) ≡ text
unfolding split_from concat
split_from-concat zero max_bytes [] h = refl
split_from-concat zero max_bytes (b ∷ bs) h = absurd (omega arith)
split_from-concat (suc fuel) max_bytes text h =
    if-cases (λ chunks. concat chunks ≡ text) (ltb max_bytes (length text)) _ _
      (λ long.
        let cut = cut_of max_bytes text in
        let bounds = cut_of-bounds max_bytes text (ltb→lt max_bytes (length text) long) in
        ap (λ rest. take cut text ++ rest)
          (split_from-concat fuel max_bytes (drop cut text)
            (omega (arith, length-drop cut text, bounds)))
        ∙ take-drop cut text)
      (λ short. last text)
  where
    last : (rest : List ℕ) → concat (if is_empty rest then [] else rest ∷ []) ≡ rest
    last [] = refl
    last (b ∷ bs) = append_nothing (b ∷ bs)

-- A chunk that is not empty and not longer than the bound, or than the longest rune.
abbrev pub IsChunk : ℕ → List ℕ → Type 0
IsChunk max_bytes chunk = (0 < length chunk) × (length chunk ≤ max max_bytes 4)

split_from-IsChunk :
    (fuel max_bytes : ℕ) (text : List ℕ) → All (IsChunk max_bytes) (split_from fuel max_bytes text)
unfolding split_from
split_from-IsChunk zero max_bytes text = tt
split_from-IsChunk (suc fuel) max_bytes text =
    if-cases (All (IsChunk max_bytes)) (ltb max_bytes (length text)) _ _
      (λ long.
        let cut = cut_of max_bytes text in
        let bounds = cut_of-bounds max_bytes text (ltb→lt max_bytes (length text) long) in
        let size = length-take cut text in
        (
          (omega (arith, size, bounds), omega (arith, size, bounds)),
          split_from-IsChunk fuel max_bytes (drop cut text),
        ))
      (λ short. last text (ground arith))
  where
    last :
        (rest : List ℕ)
        → length rest ≤ max_bytes
        → All (IsChunk max_bytes) (if is_empty rest then [] else rest ∷ [])
    last [] h = tt
    last (b ∷ bs) h = ((omega arith, omega arith), tt)

-- The bound that a split works with.
abbrev pub bound_of : ℕ → ℕ
bound_of max_bytes = if eqb max_bytes 0 then chunk_bytes else max_bytes

-- The chunks of a text, one behind the other, are the text again.
pub split-concat : (max_bytes : ℕ) (text : List ℕ) → concat (split max_bytes text) ≡ text
unfolding split
split-concat max_bytes text =
    split_from-concat (length text) (bound_of max_bytes) text (omega arith)

-- No chunk is empty, and none is longer than the bound, or than four bytes where the bound is less.
pub split-IsChunk :
    (max_bytes : ℕ) (text : List ℕ) → All (IsChunk (bound_of max_bytes)) (split max_bytes text)
unfolding split
split-IsChunk max_bytes text = split_from-IsChunk (length text) (bound_of max_bytes) text

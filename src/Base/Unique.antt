-- ===== src/Base/Unique.antt =====
-- The loop by which the program cleans a list of ids: trim, drop the empty, drop what was seen.
use Prim.Native.String.{String}
use mathlib.Core.Path.{◌≡◌, refl, ap, ◌∙◌}
use mathlib.Core.Logic.{inl, inr}
use mathlib.Core.Bool.{Bool, true, false, not, ◌&&◌, ◌||◌}
use mathlib.Core.List.{List, [], ◌∷◌}
use native.Mathlib.Omega.{arith}
use text.Mathlib.Text.{◌==◌}
use text.Mathlib.TextEquality.{eq_iff}
use text.Mathlib.TextPositions.{eq_refl}
use ciwi.Base.Tests.{if◌then◌else◌, Bool-cases}
use ciwi.Base.Lists.{All}
use ciwi.Base.Text.{trim_space, trim_space_idem}

unfoldable pub contains : String → List String → Bool
contains y [] = false
contains y (x ∷ xs) = x == y || contains y xs

-- The entries that the loop passes over.
skips : List String → String → Bool
skips seen id = id == "" || contains id seen

unfoldable pub unique_from : List String → List String → List String
unfolding contains skips
unique_from seen [] = []
unique_from seen (x ∷ xs) =
    let id = trim_space x in
    let skipped = unique_from seen xs in
    let kept = id ∷ unique_from (id ∷ seen) xs in if skips seen id then skipped else kept

unfoldable pub trim_unique : List String → List String
unfolding unique_from
trim_unique xs = unique_from [] xs

-- No text stands in the list twice.
abbrev pub NoRepeat : List String → Type 0
NoRepeat [] = Unit
NoRepeat (x ∷ xs) = (contains x xs ≡ false) × NoRepeat xs

-- A text that a clean list may hold.
abbrev pub IsTrimmed : String → Type 0
IsTrimmed x = (trim_space x ≡ x) × ((x == "") ≡ false)

-- Some entry trims to the text.
unfoldable pub mentions : String → List String → Bool
mentions y [] = false
mentions y (x ∷ xs) = trim_space x == y || mentions y xs

unique_from-skip :
    (seen : List String) (x : String) (xs : List String)
    → skips seen (trim_space x) ≡ true
    → unique_from seen (x ∷ xs) ≡ unique_from seen xs
unfolding unique_from
unique_from-skip seen x xs h = ground arith

unique_from-keep :
    (seen : List String) (x : String) (xs : List String)
    → skips seen (trim_space x) ≡ false
    → unique_from seen (x ∷ xs) ≡ trim_space x ∷ unique_from (trim_space x ∷ seen) xs
unfolding unique_from
unique_from-keep seen x xs h = ground arith

-- A text that is skipped, or was seen, is not the one asked for.
skipped_other :
    (y id : String) (seen : List String) (a : Bool)
    → skips seen id ≡ true
    → (a && not (y == "") && not (contains y seen))
      ≡ ((id == y || a) && not (y == "") && not (contains y seen))
unfolding skips
skipped_other y id seen a h = ground (arith, eq_iff id y)

kept_other :
    (y id : String) (seen : List String) (a : Bool)
    → skips seen id ≡ false
    → (id == y || (a && not (y == "") && not (id == y || contains y seen)))
      ≡ ((id == y || a) && not (y == "") && not (contains y seen))
unfolding skips
kept_other y id seen a h = ground (arith, eq_iff id y)

-- What the loop keeps: every text that some entry trims to, but the empty one and those seen.
pub contains-unique_from :
    (y : String) (seen xs : List String)
    → contains y (unique_from seen xs) ≡ (mentions y xs && not (y == "") && not (contains y seen))
unfolding mentions contains
contains-unique_from y seen [] = unfold unique_from in refl
contains-unique_from y seen (x ∷ xs) = elim (Bool-cases (skips seen (trim_space x))) [
  | inl skip ↦
      rw (unique_from-skip seen x xs skip)
        (contains-unique_from y seen xs ∙ skipped_other y (trim_space x) seen (mentions y xs) skip)
  | inr keep ↦ rw (unique_from-keep seen x xs keep) (
      ap (λ b. trim_space x == y || b) (contains-unique_from y (trim_space x ∷ seen) xs)
      ∙ kept_other y (trim_space x) seen (mentions y xs) keep)
]

self_seen :
    (y : String) (ys : List String) (a : Bool)
    → (a && not (y == "") && not (contains y (y ∷ ys))) ≡ false
unfolding contains
self_seen y ys a = ground (arith, eq_refl y)

pub unique_from-NoRepeat : (seen xs : List String) → NoRepeat (unique_from seen xs)
unique_from-NoRepeat seen [] = unfold unique_from in tt
unique_from-NoRepeat seen (x ∷ xs) = elim (Bool-cases (skips seen (trim_space x))) [
  | inl skip ↦ rw (unique_from-skip seen x xs skip) (unique_from-NoRepeat seen xs)
  | inr keep ↦ rw (unique_from-keep seen x xs keep) (
    contains-unique_from (trim_space x) (trim_space x ∷ seen) xs
        ∙ self_seen (trim_space x) seen (mentions (trim_space x) xs),
    unique_from-NoRepeat (trim_space x ∷ seen) xs,
  )
]

pub unique_from-IsTrimmed : (seen xs : List String) → All IsTrimmed (unique_from seen xs)
unique_from-IsTrimmed seen [] = unfold unique_from in tt
unique_from-IsTrimmed seen (x ∷ xs) = elim (Bool-cases (skips seen (trim_space x))) [
  | inl skip ↦ rw (unique_from-skip seen x xs skip) (unique_from-IsTrimmed seen xs)
  | inr keep ↦ rw (unique_from-keep seen x xs keep) (
    (trim_space_idem x, unfold skips in ground arith),
    unique_from-IsTrimmed (trim_space x ∷ seen) xs,
  )
]

still_new :
    (x : String) (seen xs : List String)
    → contains x xs ≡ false
    → All (λ z. contains z seen ≡ false) xs
    → All (λ z. contains z (x ∷ seen) ≡ false) xs
unfolding contains
still_new x seen [] h d = tt
still_new x seen (z ∷ zs) h (new, d) =
    (ground (arith, eq_iff z x, eq_iff x z), still_new x seen zs (ground arith) d)

-- A clean list that holds nothing seen is left as it is.
pub unique_from_clean :
    (seen xs : List String)
    → NoRepeat xs
    → All IsTrimmed xs
    → All (λ x. contains x seen ≡ false) xs
    → unique_from seen xs ≡ xs
unique_from_clean seen [] n t d = unfold unique_from in refl
unique_from_clean seen (x ∷ xs) (fresh, n) ((trimmed, nonempty), t) (new, d) =
    unique_from-keep seen x xs (unfold skips in rw trimmed (ground arith))
    ∙ rw trimmed (ap (◌∷◌ x) (unique_from_clean (x ∷ seen) xs n t (still_new x seen xs fresh d)))

none_seen : (xs : List String) → All (λ x. contains x [] ≡ false) xs
unfolding contains
none_seen [] = tt
none_seen (x ∷ xs) = (refl, none_seen xs)

-- Cleaning a list twice is cleaning it once.
pub trim_unique_idem : (xs : List String) → trim_unique (trim_unique xs) ≡ trim_unique xs
unfolding trim_unique
trim_unique_idem xs =
    unique_from_clean [] (unique_from [] xs) (unique_from-NoRepeat [] xs)
      (unique_from-IsTrimmed [] xs) (none_seen (unique_from [] xs))

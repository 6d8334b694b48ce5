-- ===== src/Base/Sort.antt =====
-- Sorting by a Boolean order, stable as `sort.SliceStable` is. Where the source calls `sort.Slice` or
-- `sort.Strings`, which promise no order among equals, this is one of the results that they allow.
use Prim.Native.String.{String, compare}
use Prim.Native.Nat.{◌+◌}
use native.Mathlib.Omega.{arith}
use mathlib.Core.Path.{◌≡◌, refl, sym, ap, ◌∙◌}
use mathlib.Core.Bool.{Bool, ◌&&◌}
use mathlib.Core.List.{List, [], ◌∷◌, Perm}
use mathlib.Core.List.Perm
use text.Mathlib.Text.{is_lt}
use ciwi.Base.Lists.{count_where, all, any, ltb-count_where}
use ciwi.Base.Tests.{ltb, if◌then◌else◌, Bool-cases}
use mathlib.Core.Logic.{inl, inr}

-- Go's `<` on strings: the order of their bytes.
abbrev pub text_lt : String → String → Bool
text_lt s t = is_lt (compare s t)

module _ {ℓ} {A : Type ℓ} (lt : A → A → Bool) where
  unfoldable pub insert_by : A → List A → List A
  insert_by x [] = x ∷ []
  insert_by x (y ∷ ys) = if lt y x then y ∷ insert_by x ys else x ∷ y ∷ ys

  unfoldable pub sort_by : List A → List A
  unfolding insert_by
  sort_by [] = []
  sort_by (x ∷ xs) = insert_by x (sort_by xs)

  insert_by-perm : (x : A) (ys : List A) → Perm (insert_by x ys) (x ∷ ys)
  unfolding insert_by
  insert_by-perm x [] = Perm.refl (x ∷ [])
  insert_by-perm x (y ∷ ys) = elim (Bool-cases (lt y x)) [
    | inl less ↦ rw less (Perm.trans (Perm.cons y (insert_by-perm x ys)) (Perm.swap x y ys))
    | inr other ↦ rw other (Perm.refl (x ∷ y ∷ ys))
  ]

  -- Sorting neither loses nor invents an element.
  pub sort_by-perm : (xs : List A) → Perm (sort_by xs) xs
  unfolding sort_by
  sort_by-perm [] = Perm.refl []
  sort_by-perm (x ∷ xs) = Perm.trans (insert_by-perm x (sort_by xs)) (Perm.cons x (sort_by-perm xs))

  count_where-insert_by :
      (p : A → Bool) (x : A) (ys : List A)
      → count_where p (insert_by x ys) ≡ (if p x then 1 else 0) + count_where p ys
  unfolding insert_by count_where
  count_where-insert_by p x [] = refl
  count_where-insert_by p x (y ∷ ys) = ground (arith, count_where-insert_by p x ys)

  -- Sorting changes no count.
  pub count_where-sort_by :
      (p : A → Bool) (xs : List A) → count_where p (sort_by xs) ≡ count_where p xs
  unfolding sort_by count_where
  count_where-sort_by p [] = refl
  count_where-sort_by p (x ∷ xs) =
      count_where-insert_by p x (sort_by xs)
      ∙ ap (λ n. (if p x then 1 else 0) + n) (count_where-sort_by p xs)

  all-insert_by : (p : A → Bool) (x : A) (ys : List A) → all p (insert_by x ys) ≡ (p x && all p ys)
  unfolding insert_by all
  all-insert_by p x [] = refl
  all-insert_by p x (y ∷ ys) = ground (arith, all-insert_by p x ys)

  -- Sorting changes no test of every element.
  pub all-sort_by : (p : A → Bool) (xs : List A) → all p (sort_by xs) ≡ all p xs
  unfolding sort_by all
  all-sort_by p [] = refl
  all-sort_by p (x ∷ xs) = all-insert_by p x (sort_by xs) ∙ ap (λ b. p x && b) (all-sort_by p xs)

  pub any-sort_by : (p : A → Bool) (xs : List A) → any p (sort_by xs) ≡ any p xs
  any-sort_by p xs =
      sym (ltb-count_where p (sort_by xs))
      ∙ ap (ltb 0) (count_where-sort_by p xs)
      ∙ ltb-count_where p xs

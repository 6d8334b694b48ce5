-- ===== src/Base/Lists.antt =====
-- Lists measured by native numbers and tested by Boolean functions, and a table of rows as SQL
-- statements see it.
use Prim.Native.Nat.{ℕ, suc, ◌+◌}
use mathlib.Core.Path.{◌≡◌, refl, ap, subst}
use mathlib.Core.Bool.{Bool, true, false, not, ◌&&◌, ◌||◌}
use mathlib.Core.Logic.{inl, inr}
use mathlib.Core.Option.{Option, none, some}
use mathlib.Core.List.{List, [], ◌∷◌, ◌++◌, map}
use native.Mathlib.Omega.{arith}
use ciwi.Base.Tests.{ltb, if◌then◌else◌, Bool-cases}

module _ {ℓ} {A : Type ℓ} where
  abbrev pub length : List A → ℕ
  length [] = 0
  length (x ∷ xs) = suc (length xs)

  abbrev pub is_empty : List A → Bool
  is_empty [] = true
  is_empty (x ∷ xs) = false

  -- The rows that pass a test, in order.
  unfoldable pub select : (A → Bool) → List A → List A
  select p [] = []
  select p (x ∷ xs) = let rest = select p xs in if p x then x ∷ rest else rest

  -- `DELETE … WHERE p`.
  unfoldable pub delete_where : (A → Bool) → List A → List A
  delete_where p xs = select (λ x. not (p x)) xs

  -- The number of rows that a statement touches.
  unfoldable pub count_where : (A → Bool) → List A → ℕ
  count_where p [] = 0
  count_where p (x ∷ xs) = (if p x then 1 else 0) + count_where p xs

  unfoldable pub find_where : (A → Bool) → List A → Option A
  find_where p [] = none
  find_where p (x ∷ xs) = if p x then some x else find_where p xs

  unfoldable pub any : (A → Bool) → List A → Bool
  any p [] = false
  any p (x ∷ xs) = p x || any p xs

  unfoldable pub all : (A → Bool) → List A → Bool
  all p [] = true
  all p (x ∷ xs) = p x && all p xs

-- A predicate of every element, by recursion, which the tactics read and build.
abbrev pub All {ℓ κ} : {A : Type ℓ} → (A → Type κ) → List A → Type κ
All P [] = Unit
All P (x ∷ xs) = P x × All P xs

module _ {ℓ} {A : Type ℓ} where
  pub length-append : (xs ys : List A) → length (xs ++ ys) ≡ length xs + length ys
  length-append [] ys = omega arith
  length-append (x ∷ xs) ys = omega (arith, length-append xs ys)

module _ {ℓ κ} {A : Type ℓ} (P : A → Type κ) where
  pub All-append : (xs ys : List A) → All P xs → All P ys → All P (xs ++ ys)
  All-append [] ys hx hy = hy
  All-append (x ∷ xs) ys (h, hx) hy = (h, All-append xs ys hx hy)

  pub All-select : (p : A → Bool) (xs : List A) → All P xs → All P (select p xs)
  unfolding select
  All-select p [] h = tt
  All-select p (x ∷ xs) (hx, h) = branch (p x) (All-select p xs h)
    where
      branch : (b : Bool) → All P (select p xs) → All P (if b then x ∷ select p xs else select p xs)
      branch true r = (hx, r)
      branch false r = r

  pub All-delete_where : (p : A → Bool) (xs : List A) → All P xs → All P (delete_where p xs)
  unfolding delete_where
  All-delete_where p xs h = All-select (λ x. not (p x)) xs h

  found_first :
      (x a : A) (b : Bool) (r : Option A) → b ≡ true → (if b then some x else r) ≡ some a → x ≡ a
  found_first x a b r t e = ground arith

  pub find_where-All :
      (p : A → Bool) (xs : List A) {a : A}
      → All P xs
      → find_where p xs ≡ some a
      → P a × (p a ≡ true)
  unfolding find_where
  find_where-All p [] h e = cc
  find_where-All p (x ∷ xs) {a} (hx, h) e = elim (Bool-cases (p x)) [
    | inl t ↦
        let same : x ≡ a = found_first x a (p x) (find_where p xs) t e in
        (subst P same hx, subst (λ y. p y ≡ true) same t)
    | inr f ↦ find_where-All p xs h (rw f at e)
  ]

module _ {ℓ} {A : Type ℓ} where
  -- A count is positive exactly when some element passes the test.
  pub ltb-count_where : (p : A → Bool) (xs : List A) → ltb 0 (count_where p xs) ≡ any p xs
  unfolding count_where any
  ltb-count_where p [] = refl
  ltb-count_where p (x ∷ xs) = ground (arith, ltb-count_where p xs)

  pub any-congr : (p q : A → Bool) → ((x : A) → p x ≡ q x) → (xs : List A) → any p xs ≡ any q xs
  unfolding any
  any-congr p q h [] = refl
  any-congr p q h (x ∷ xs) = ground (arith, h x, any-congr p q h xs)

  pub any-map {κ} :
      {B : Type κ} (p : A → Bool) (f : B → A) (xs : List B)
      → any p (map f xs) ≡ any (λ x. p (f x)) xs
  unfolding any
  any-map p f [] = refl
  any-map p f (x ∷ xs) = ap (λ b. p (f x) || b) (any-map p f xs)

  pub all-map {κ} :
      {B : Type κ} (p : A → Bool) (f : B → A) (xs : List B)
      → all p (map f xs) ≡ all (λ x. p (f x)) xs
  unfolding all
  all-map p f [] = refl
  all-map p f (x ∷ xs) = ap (λ b. p (f x) && b) (all-map p f xs)

  pub all-select :
      (p q : A → Bool) (xs : List A) → all p (select q xs) ≡ all (λ x. not (q x) || p x) xs
  unfolding all select
  all-select p q [] = refl
  all-select p q (x ∷ xs) = ground (arith, all-select p q xs)

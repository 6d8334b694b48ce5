-- ===== src/Base/TextOrder.antt =====
-- The order of texts by their bytes: no text is less than itself, and the order is transitive.
use Prim.Native.Nat.{Ordering, compare as compare_ℕ}
use Prim.Native.Char.{Char, code}
use Prim.Native.String.compare
use Prim.Native.String.{String, compare, then}
use text.Mathlib.Text.{is_lt}
use text.Mathlib.TextPositions.{compare_refl}
use mathlib.Core.Path.{◌≡◌, refl, ap, ◌∙◌, sym}
use mathlib.Core.Bool.{Bool, true, false, ◌&&◌, ◌||◌}
use native.Mathlib.Omega.{arith}
use ciwi.Base.Tests.{ltb, eqb}
use ciwi.Base.Sort.{text_lt}

then-is_lt :
    (o r : Ordering)
    → is_lt (then o r) ≡ (
        elim o as (λ x. Bool) [ Ordering.lt ↦ true | _ ↦ false ]
        || (elim o as (λ x. Bool) [ Ordering.eq ↦ true | _ ↦ false ] && is_lt r))
then-is_lt Ordering.lt r = refl
then-is_lt Ordering.eq r = refl
then-is_lt Ordering.gt r = refl

text_lt-cons :
    (c d : Char) (s t : String)
    → text_lt (String.◌∷◌ c s) (String.◌∷◌ d t)
      ≡ (ltb (code c) (code d) || (eqb (code c) (code d) && text_lt s t))
text_lt-cons c d s t =
    ap is_lt (compare.cons-cons c d s t) ∙ then-is_lt (compare_ℕ (code c) (code d)) (compare s t)

not_below_empty : (s : String) → text_lt s String.[] ≡ false
not_below_empty String.[] = ap is_lt compare.nil-nil
not_below_empty (String.◌∷◌ c s) = ap is_lt (compare.cons-nil c s)

pub text_lt_irrefl : (s : String) → text_lt s s ≡ false
text_lt_irrefl s = ap is_lt (compare_refl s)

pub text_lt_trans : (a b c : String) → text_lt a b ≡ true → text_lt b c ≡ true → text_lt a c ≡ true
text_lt_trans a String.[] c h k = absurd (cc (not_below_empty a, h))
text_lt_trans a (String.◌∷◌ y b) String.[] h k = absurd (cc (not_below_empty (String.◌∷◌ y b), k))
text_lt_trans String.[] (String.◌∷◌ y b) (String.◌∷◌ z c) h k = ap is_lt (compare.nil-cons z c)
text_lt_trans (String.◌∷◌ x a) (String.◌∷◌ y b) (String.◌∷◌ z c) h k =
    text_lt-cons x z a c
    ∙ ground
        (arith, sym (text_lt-cons x y a b) ∙ h, sym (text_lt-cons y z b c) ∙ k, text_lt_trans a b c)

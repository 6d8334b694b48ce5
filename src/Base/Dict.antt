-- ===== src/Base/Dict.antt =====
-- Go maps with text keys, as association lists. A range over a map visits the entries in the
-- list's order; Go's order is arbitrary, so a theorem here holds for every list.
use Prim.Native.String.{String}
use mathlib.Core.Path.{◌≡◌, refl}
use mathlib.Core.Option.{Option, none, some}
use mathlib.Core.List.{List, [], ◌∷◌}
use native.Mathlib.Omega.{arith}
use text.Mathlib.Text.{◌==◌}
use text.Mathlib.TextEquality.{eq_iff}
use ciwi.Base.Tests.{if◌then◌else◌}

abbrev pub Dict {ℓ} : Type ℓ → Type ℓ
Dict V = List (String × V)

module _ {ℓ} {V : Type ℓ} where
  -- `m[key]` with the comma-ok form.
  unfoldable pub lookup : String → Dict V → Option V
  lookup key [] = none
  lookup key (entry ∷ rest) = if entry.0 == key then some entry.1 else lookup key rest

  -- `delete(m, key)`.
  unfoldable pub delete : String → Dict V → Dict V
  delete key [] = []
  delete key (entry ∷ rest) =
      let others = delete key rest in if entry.0 == key then others else entry ∷ others

  -- `m[key] = value`: in place, or behind the entries.
  unfoldable pub insert : String → V → Dict V → Dict V
  insert key value [] = (key, value) ∷ []
  insert key value (entry ∷ rest) =
      let others = insert key value rest in
      if entry.0 == key then (key, value) ∷ rest else entry ∷ others

  pub lookup-insert :
      (written read : String) (value : V) (entries : Dict V)
      → lookup read (insert written value entries)
        ≡ (if written == read then some value else lookup read entries)
  unfolding insert lookup
  lookup-insert written read value [] = refl
  lookup-insert written read value (entry ∷ rest) = ground (
    lookup-insert written read value rest,
    eq_iff entry.0 read,
    eq_iff entry.0 written,
    eq_iff written read,
    arith,
  )

  pub lookup-delete :
      (removed read : String) (entries : Dict V)
      → lookup read (delete removed entries)
        ≡ (if removed == read then none else lookup read entries)
  unfolding delete lookup
  lookup-delete removed read [] = ground arith
  lookup-delete removed read (entry ∷ rest) = ground (
    lookup-delete removed read rest,
    eq_iff entry.0 read,
    eq_iff entry.0 removed,
    eq_iff removed read,
    arith,
  )

pub ruleset dict_laws = (lookup-insert, lookup-delete)

-- A read of a `map[string]string`: the zero value where the key is missing.
unfoldable pub value_or_empty : String → Dict String → String
value_or_empty k m = elim (lookup k m) [ none ↦ "" | some v ↦ v ]

pub value_or_empty-found :
    (k : String) (m : Dict String) {v : String} → lookup k m ≡ some v → value_or_empty k m ≡ v
unfolding value_or_empty
value_or_empty-found k m e = rw (e, value_or_empty) refl

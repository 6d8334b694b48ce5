-- ===== src/Viewport/Reconcile/Sizes.antt =====
-- The sizes and the anchor while the items are placed one by one.
use ciwi.Base.{
  ℕ, zero, suc, ◌+◌, ◌<◌, String, ◌≡◌, refl, ap, subst, ◌∙◌, ◌⊎◌, inl, inr, some, List, [], ◌∷◌,
  ◌++◌, map, arith, ◌==◌, eq_iff, if◌then◌else◌, length, length-append, Bool-cases, Option-cases,
}
use ciwi.Base.Dict.{Dict, lookup, lookup-insert}
use ciwi.Base.Int.{ℤ, pos}
use mathlib.Core.List.{append_assoc}
use ciwi.Viewport.{Measurement, KeyedViewportState, set_extent_at, resize_and_clear}
use ciwi.Viewport.Reconcile.{forget_index, item_size, place_index, place_item, place_items}

pub item_size-forget_index :
    (estimate : ℕ) (key : String) (measurements : Dict Measurement)
    → item_size estimate (forget_index measurements) key ≡ item_size estimate measurements key
unfolding item_size lookup
item_size-forget_index estimate key [] = refl
item_size-forget_index estimate key (entry ∷ rest) =
    ground (arith, item_size-forget_index estimate key rest)

-- Noting an item's index changes no size.
item_size-place_index :
    (estimate index : ℕ) (key read : String) (measurements : Dict Measurement)
    → item_size estimate (place_index index key measurements) read
      ≡ item_size estimate measurements read
unfolding item_size place_index
item_size-place_index estimate index key read measurements =
    elim (Option-cases (lookup key measurements)) [
      | inl missing ↦ rw (missing, place_index)
      | inr (measured, found) ↦
          rw
            (
              found,
              place_index,
              lookup-insert key read (record measured { index = pos index }) measurements,
              item_size,
            )
            (elim (Bool-cases (key == read)) [
              | inl same ↦ rw (
                same,
                item_size,
                subst (λ k. lookup k measurements ≡ some measured) ((eq_iff key read).0 same) found,
              )
              | inr other ↦ rw (other, item_size)
            ])
    ]

set_extent_at-cleared :
    (placed rest : List ℕ) (index size : ℕ)
    → index ≡ length placed
    → set_extent_at index size (placed ++ 0 ∷ rest) ≡ (placed ++ size ∷ []) ++ rest
unfolding set_extent_at
set_extent_at-cleared [] rest zero size h = refl
set_extent_at-cleared [] rest (suc index) size h = absurd (omega arith)
set_extent_at-cleared (x ∷ placed) rest zero size h = absurd (omega arith)
set_extent_at-cleared (x ∷ placed) rest (suc index) size h =
    ap (λ xs. x ∷ xs) (set_extent_at-cleared placed rest index size (omega arith))

-- The sizes that the loop leaves behind those placed before it.
pub place_items-extents :
    (estimate gap index : ℕ) (keys : List String) (s : KeyedViewportState) (anchor_index : ℤ)
    (placed : List ℕ) (size : String → ℕ)
    → index ≡ length placed
    → ((key : String) → item_size estimate s.measurements key ≡ size key)
    → s.extents ≡ placed ++ resize_and_clear 0 (length keys)
    → (place_items estimate gap index keys s anchor_index).0.extents ≡ placed ++ map size keys
unfolding place_items resize_and_clear
place_items-extents estimate gap index [] s anchor_index placed size here sized fits = fits
place_items-extents estimate gap index (key ∷ keys) s anchor_index placed size here sized fits =
    let rest : List ℕ = resize_and_clear 0 (length keys) in
    place_items-extents estimate gap (suc index) keys (place_item estimate gap index key s)
      (if key == s.anchor then pos index else anchor_index) (placed ++ size key ∷ []) size
      (omega (arith, length-append placed (size key ∷ [])))
      (λ read. item_size-place_index estimate index key read s.measurements ∙ sized read)
      (rw (fits, sized key) (set_extent_at-cleared placed rest index (size key) here))
    ∙ append_assoc placed (size key ∷ []) (map size keys)

pub place_items-anchor :
    (estimate gap index : ℕ) (keys : List String) (s : KeyedViewportState) (anchor_index : ℤ)
    → let found = (place_items estimate gap index keys s anchor_index).1 in
      (found ≡ anchor_index) ⊎ ((i : ℕ) × (i < length keys) × (found ≡ pos (index + i)))
unfolding place_items
place_items-anchor estimate gap index [] s anchor_index = inl refl
place_items-anchor estimate gap index (key ∷ keys) s anchor_index =
    elim (place_items-anchor estimate gap (suc index) keys (place_item estimate gap index key s)
      (if key == s.anchor then pos index else anchor_index)) [
        | inl kept ↦ elim (Bool-cases (key == s.anchor)) [
          | inl here ↦ inr (0, omega arith, kept ∙ rw here (ap pos (omega arith)))
          | inr other ↦ inl (kept ∙ rw other)
        ]
        | inr later ↦ inr (suc later.0, omega (arith, later.1), later.2 ∙ ap pos (omega arith))
      ]

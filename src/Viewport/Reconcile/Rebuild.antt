-- ===== src/Viewport/Reconcile/Rebuild.antt =====
-- What the rebuilt index holds: the children's sizes in order, a tree that fits them, and an anchor
-- inside them.
use ciwi.Base.{
  ℕ, suc, ◌+◌, ◌-◌, ◌<◌, min, max, ◌∙◌, Option, none, some, Option-cases, String, ◌≡◌, refl, ap,
  inl, inr, true, false, List, [], map, arith, length, ltb, if-cases,
}
use ciwi.Base.Int.{pos_part, pos, negsuc}
use ciwi.Base.Dict.{Dict, lookup}
use ciwi.Viewport.{Measurement, Children, KeyedViewportState, resize_and_clear}
use ciwi.Viewport.Tree.{Represents}
use ciwi.Viewport.Sums.{Indexed, running}
use ciwi.Viewport.Reconcile.{item_size, place_items, is_changed, cleared, reconcile_index}
use ciwi.Viewport.Reconcile.Placed.{
  place_items-Placed, cleared-Placed, placed-Represents, length-clear,
}
use ciwi.Viewport.Reconcile.Sizes.{item_size-forget_index, place_items-extents, place_items-anchor}

-- The rebuilt part of the state, before the anchor and the revision are noted.
rebuilt-Indexed :
    (estimate gap : ℕ) (keys : List String) (s : KeyedViewportState)
    → let placed = (place_items estimate gap 0 keys (cleared keys s) (negsuc 0)).0 in
      (length placed.prefix_tree ≡ suc (length placed.extents))
      × Represents placed.prefix_tree (running gap placed.extents)
rebuilt-Indexed estimate gap keys s =
    let zeros : List ℕ = resize_and_clear 0 (length keys) in
    let placed = (place_items estimate gap 0 keys (cleared keys s) (negsuc 0)).0 in
    let fits = length-clear {A = ℕ} 0 (length keys) in
    let walk =
      place_items-Placed estimate gap 0 keys (cleared keys s) (negsuc 0) (omega (arith, fits))
        (cleared-Placed gap keys s) in
    (
      walk.1.0,
      placed-Represents gap (0 + length keys) placed.extents placed.prefix_tree
          (omega (arith, walk.0, walk.1.0, fits)) walk.1.1,
    )

pub is_changed-indexed :
    (children : Children) (estimate gap cross_size : ℕ) (s : KeyedViewportState)
    → is_changed children estimate gap cross_size s ≡ false
    → s.indexed ≡ true
unfolding is_changed
is_changed-indexed children estimate gap cross_size s h = ground arith

-- The index is sound after a rebuilding, and stays so when nothing changed.
pub reconcile_index-Indexed :
    (children : Children) (estimate gap cross_size : ℕ) (s : KeyedViewportState)
    → (s.indexed ≡ true → Indexed s)
    → Indexed (reconcile_index children estimate gap cross_size s)
unfolding reconcile_index
reconcile_index-Indexed children estimate gap cross_size s own =
    if-cases Indexed (is_changed children estimate gap cross_size s) _ s
      (λ changed. rebuilt-Indexed estimate gap children.keys s)
      (λ same. own (is_changed-indexed children estimate gap cross_size s same))

-- The size of a child by what the cache has for its key.
abbrev pub expected_size : ℕ → Option Measurement → ℕ
expected_size estimate none = estimate
expected_size estimate (some measured) = max 1 measured.size

item_size-expected :
    (estimate : ℕ) (measurements : Dict Measurement) (key : String)
    → item_size estimate measurements key ≡ expected_size estimate (lookup key measurements)
unfolding item_size
item_size-expected estimate measurements key = elim (Option-cases (lookup key measurements)) [
  | inl missing ↦ rw (missing, item_size)
  | inr (measured, found) ↦ rw (found, item_size)
]

-- An index that has to be rebuilt holds then one size for each child, in the children's order: the
-- cached one, but at least 1, or the estimate where the cache has none.
pub reconcile_index-extents :
    (children : Children) (estimate gap cross_size : ℕ) (s : KeyedViewportState)
    → is_changed children estimate gap cross_size s ≡ true
    → (reconcile_index children estimate gap cross_size s).extents
      ≡ map (λ key. expected_size estimate (lookup key s.measurements)) children.keys
unfolding reconcile_index
reconcile_index-extents children estimate gap cross_size s changed = rw changed (
    place_items-extents estimate gap 0 children.keys (cleared children.keys s) (negsuc 0) []
      (λ key. expected_size estimate (lookup key s.measurements)) refl
      (λ key.
        item_size-forget_index estimate key s.measurements
        ∙ item_size-expected estimate s.measurements key)
      refl)

-- An index that has to be rebuilt for at least one child anchors then at one of the children.
pub reconcile_index-anchor :
    (children : Children) (estimate gap cross_size : ℕ) (s : KeyedViewportState)
    → is_changed children estimate gap cross_size s ≡ true
    → 0 < length children.keys
    → (i : ℕ) × (i < length children.keys)
      × ((reconcile_index children estimate gap cross_size s).anchor_index ≡ pos i)
unfolding reconcile_index
reconcile_index-anchor children estimate gap cross_size s changed some_child =
    let has_item : ltb 0 (length children.keys) ≡ true = ground arith in
    elim (place_items-anchor estimate gap 0 children.keys (cleared children.keys s) (negsuc 0)) [
      | inl lost ↦ (
        min (pos_part s.anchor_index) (length children.keys - 1),
        omega arith,
        rw (changed, lost, has_item) refl,
      )
      | inr found ↦ (found.0, found.1, rw (changed, found.2) (ap pos (omega arith)))
    ]

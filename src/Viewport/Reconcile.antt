-- ===== src/Viewport/Reconcile.antt =====
-- The rebuilding of the index from the children (`reconcileIndex`).
use ciwi.Base.{
  ℕ, suc, ◌+◌, ◌-◌, min, max, String, Bool, true, not, ◌&&◌, ◌||◌, none, some, List, [], ◌∷◌, map,
  ◌==◌, if◌then◌else◌, length, ltb, eqb,
}
use ciwi.Base.Dict.{Dict, lookup, insert}
use ciwi.Base.Int.{ℤ, is_negative, pos_part, pos, negsuc}
use ciwi.Viewport.{
  Measurement, Children, KeyedViewportState, set_extent_at, add_prefix, resize_and_clear,
}
pub mod Placed
pub mod Sizes
pub mod Rebuild

abbrev pub forget_index : Dict Measurement → Dict Measurement
forget_index measurements =
    map (λ entry. (entry.0, record entry.1 { index = negsuc 0 })) measurements

unfoldable pub item_size : ℕ → Dict Measurement → String → ℕ
item_size estimate measurements key = elim (lookup key measurements) [
  | none ↦ estimate
  | some measured ↦ max 1 measured.size
]

unfoldable pub place_index : ℕ → String → Dict Measurement → Dict Measurement
place_index index key measurements = elim (lookup key measurements) [
  | none ↦ measurements
  | some measured ↦ insert key (record measured { index = pos index }) measurements
]

-- The body of the loop over the children.
abbrev pub place_item : ℕ → ℕ → ℕ → String → KeyedViewportState → KeyedViewportState
place_item estimate gap index key s =
    let size = item_size estimate s.measurements key in
    record s {
      measurements = place_index index key s.measurements;
      extents = set_extent_at index size s.extents;
      prefix_tree = add_prefix index (pos (size + gap)) s.prefix_tree;
    }

unfoldable pub place_items :
    ℕ → ℕ → ℕ → List String → KeyedViewportState → ℤ → KeyedViewportState × ℤ
place_items estimate gap index [] s anchor_index = (s, anchor_index)
place_items estimate gap index (key ∷ keys) s anchor_index =
    place_items estimate gap (suc index) keys (place_item estimate gap index key s)
      (if key == s.anchor then pos index else anchor_index)

unfoldable pub is_changed : Children → ℕ → ℕ → ℕ → KeyedViewportState → Bool
is_changed children estimate gap cross_size s =
    not s.indexed
    || not (eqb s.revision children.revision)
    || not (eqb s.count (length children.keys))
    || not (eqb s.estimate estimate)
    || not (eqb s.gap gap)
    || not (eqb s.cross_size cross_size)

abbrev pub cleared : List String → KeyedViewportState → KeyedViewportState
cleared keys s = record s {
  measurements = forget_index s.measurements;
  extents = resize_and_clear 0 (length keys);
  prefix_tree = resize_and_clear (pos 0) (suc (length keys));
}

unfoldable pub reconcile_index : Children → ℕ → ℕ → ℕ → KeyedViewportState → KeyedViewportState
reconcile_index children estimate gap cross_size s =
    let placed = place_items estimate gap 0 children.keys (cleared children.keys s) (negsuc 0) in
    let fallback = pos (min (pos_part s.anchor_index) (length children.keys - 1)) in
    let indexed = record placed.0 {
      anchor_index =
          if is_negative placed.1 && ltb 0 (length children.keys) then fallback else placed.1;
      revision = children.revision;
      count = length children.keys;
      estimate = estimate;
      gap = gap;
      cross_size = cross_size;
      indexed = true;
    } in
    if is_changed children estimate gap cross_size s then indexed else s

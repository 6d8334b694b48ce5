-- ===== src/Examples/Viewports.antt =====
-- A virtual list of three items, through rebuildings and measurements.
use ciwi.Base.{ℕ, suc, ◌≤◌, ◌<◌, ◌≡◌, refl, ap, true, some, List, [], ◌∷◌, map, arith, length, any}
use ciwi.Base.Dict.{lookup}
use ciwi.Base.Int.{pos}
use ciwi.Viewport.{Children, KeyedViewportState, prefix_at, first_visible, anchor_at}
use ciwi.Viewport.Sums.{Indexed, running}
use ciwi.Viewport.Search.{FirstVisible, first_visible-FirstVisible, anchor_at-owner}
use ciwi.Viewport.Reconcile.{is_changed, reconcile_index}
use ciwi.Viewport.Reconcile.Rebuild.{
  expected_size, reconcile_index-Indexed, reconcile_index-extents, reconcile_index-anchor,
}
use ciwi.Viewport.Recency.{IsCache, remember}
use ciwi.Viewport.Recency.Laws.{remember-lookup, remember-IsCache}
use ciwi.Viewport.Refine.{
  Command, rebuild, visible, tail, leading, fresh, perform_all, perform_all-prefix_at,
}

abbrev three_items : Children
three_items = record { revision = 1; keys = "a" ∷ "b" ∷ "c" ∷ [] }

abbrev frames : List Command
frames =
    rebuild three_items 10 2 300
    ∷ visible 10 2 "b" 1 25
    ∷ tail 10 2 "c" 2 0
    ∷ leading 2 "a" 0 7
    ∷ rebuild (record three_items { revision = 2 }) 10 2 300
    ∷ []

abbrev built : KeyedViewportState
built = reconcile_index three_items 10 2 300 fresh

built-Indexed : Indexed built
built-Indexed = reconcile_index-Indexed three_items 10 2 300 fresh (λ h. absurd (ground arith))

three_items-is_changed : is_changed three_items 10 2 300 fresh ≡ true
unfolding is_changed
three_items-is_changed = refl

has_items : 0 < length built.extents
has_items =
    omega
      (arith, ap length (reconcile_index-extents three_items 10 2 300 fresh three_items-is_changed))

perform_all-prefix_at_example :
    let s = perform_all frames fresh in prefix_at s (pos 2) ≡ pos (running s.gap s.extents 2)
perform_all-prefix_at_example = perform_all-prefix_at frames (pos 2)

first_visible-FirstVisible_example : FirstVisible built 15 (first_visible built 15)
first_visible-FirstVisible_example = first_visible-FirstVisible built 15 built-Indexed

anchor_at-owner_example :
    (anchor_at built 11 < length built.extents)
    × (running built.gap built.extents (anchor_at built 11) ≤ 11)
    × (suc (anchor_at built 11) < length built.extents
        → 11 < running built.gap built.extents (suc (anchor_at built 11)))
anchor_at-owner_example = anchor_at-owner built 11 built-Indexed has_items

abbrev measured_once : KeyedViewportState
measured_once = record fresh {
  measurements = ("a", record { size = 5; last_used = 1; index = pos 0 }) ∷ [];
  clock = 1;
}

measured_once-is_changed : is_changed three_items 10 2 300 measured_once ≡ true
unfolding is_changed
measured_once-is_changed = refl

reconcile_index-extents_example :
    (reconcile_index three_items 10 2 300 measured_once).extents
    ≡ map (λ key. expected_size 10 (lookup key measured_once.measurements)) three_items.keys
reconcile_index-extents_example =
    reconcile_index-extents three_items 10 2 300 measured_once measured_once-is_changed

-- The measured item has its size, and the others the estimate.
measured_sizes :
    map (λ key. expected_size 10 (lookup key measured_once.measurements)) three_items.keys
    ≡ 5 ∷ 10 ∷ 10 ∷ []
unfolding lookup
measured_sizes = refl

reconcile_index-anchor_example :
    (i : ℕ) × (i < 3) × ((reconcile_index three_items 10 2 300 fresh).anchor_index ≡ pos i)
reconcile_index-anchor_example =
    reconcile_index-anchor three_items 10 2 300 fresh three_items-is_changed (omega arith)

measured_once-IsCache : IsCache 1 measured_once
unfolding any
measured_once-IsCache = ((refl, tt), (omega arith, tt), omega arith)

remember-IsCache_example : IsCache 1 (remember "b" (pos 1) 7 1 measured_once).0
remember-IsCache_example =
    remember-IsCache "b" (pos 1) 7 1 measured_once (omega arith) measured_once-IsCache

remember-lookup_example :
    lookup "b" (remember "b" (pos 1) 7 1 measured_once).0.measurements
    ≡ some (record { size = 7; last_used = 2; index = pos 1 })
remember-lookup_example =
    remember-lookup "b" (pos 1) 7 1 measured_once (omega arith) (omega arith) measured_once-IsCache

-- ===== src/Viewport/Refine.antt =====
-- The index through any sequence of rebuildings and measurements, against running sums of its
-- sizes.
use ciwi.Base.{
  ℕ, min, max, String, Option, none, some, ◌≡◌, refl, sym, ap, ◌∙◌, inl, inr, true, false, ◌||◌,
  List, [], ◌∷◌, arith, length, leb, eqb, Bool-cases, if-cases,
}
use ciwi.Base.Int.{ℤ, is_negative, pos_part, pos}
use ciwi.Viewport.{Children, KeyedViewportState, extent_at, prefix_at, prefix_from, set_extent}
use ciwi.Viewport.Recency.{remember}
use ciwi.Viewport.Measure.{forget_extent, measure_visible, measure_tail, measure_leading}
use ciwi.Viewport.Sums.{Indexed, running, prefix_at-running, set_extent-Indexed}
use ciwi.Viewport.Reconcile.{is_changed, reconcile_index}
use ciwi.Viewport.Reconcile.Rebuild.{is_changed-indexed, reconcile_index-Indexed}

-- A list as it is first laid out, before any item has an index.
abbrev pub fresh : KeyedViewportState
fresh = record {
  anchor = "";
  anchor_index = pos 0;
  measurements = [];
  clock = 0;
  indexed = false;
  revision = 0;
  count = 0;
  estimate = 0;
  gap = 0;
  cross_size = 0;
  extents = [];
  prefix_tree = [];
}

-- What a frame does to the index: it is fitted to the children, or an item is measured. The
-- measurements carry the estimate and the limit of the cache, and the item's key, index and size.
pub data Command : Type 0 where
  rebuild : Children → ℕ → ℕ → ℕ → Command
  visible : ℕ → ℕ → String → ℕ → ℕ → Command
  tail : ℕ → ℕ → String → ℕ → ℕ → Command
  leading : ℕ → String → ℕ → ℕ → Command

unfoldable pub perform : Command → KeyedViewportState → KeyedViewportState
perform (rebuild children estimate gap cross_size) s =
    reconcile_index children estimate gap cross_size s
perform (visible estimate limit key index size) s = measure_visible estimate limit key index size s
perform (tail estimate limit key index size) s = measure_tail estimate limit key index size s
perform (leading limit key index size) s = measure_leading limit key index size s

unfoldable pub perform_all : List Command → KeyedViewportState → KeyedViewportState
perform_all [] s = s
perform_all (command ∷ commands) s = perform_all commands (perform command s)

-- Sound once it is built, and empty before.
abbrev IsSound : KeyedViewportState → Type 0
IsSound s = (s.indexed ≡ true → Indexed s) × (s.indexed ≡ false → s.extents ≡ [])

reconcile_index-indexed :
    (children : Children) (estimate gap cross_size : ℕ) (s : KeyedViewportState)
    → (reconcile_index children estimate gap cross_size s).indexed ≡ true
unfolding reconcile_index
reconcile_index-indexed children estimate gap cross_size s =
    if-cases (λ (r : KeyedViewportState). r.indexed ≡ true)
      (is_changed children estimate gap cross_size s) _ s (λ changed. refl)
      (λ same. is_changed-indexed children estimate gap cross_size s same)

set_extent-indexed :
    (s : KeyedViewportState) (index : ℤ) (size : ℕ) → (set_extent s index size).indexed ≡ s.indexed
unfolding set_extent
set_extent-indexed s index size =
    if-cases (λ (r : KeyedViewportState). r.indexed ≡ s.indexed)
      (is_negative index || leb (length s.extents) (pos_part index)) s _ (λ outside. refl)
      (λ inside.
        if-cases (λ (r : KeyedViewportState). r.indexed ≡ s.indexed)
          (eqb (max 1 size) (extent_at s.extents (pos_part index))) s _ (λ same. refl)
          (λ changed. refl))

set_extent-empty :
    (s : KeyedViewportState) (index : ℤ) (size : ℕ) → s.extents ≡ [] → set_extent s index size ≡ s
unfolding set_extent
set_extent-empty s index size h =
    if-cases (λ (r : KeyedViewportState). r ≡ s)
      (is_negative index || leb (length s.extents) (pos_part index)) s _ (λ outside. refl)
      (λ inside. absurd (ground (arith, ap length h)))

set_extent-IsSound :
    (s : KeyedViewportState) (index : ℤ) (size : ℕ) → IsSound s → IsSound (set_extent s index size)
set_extent-IsSound s index size own = (
  λ h. set_extent-Indexed s index size (own.0 (sym (set_extent-indexed s index size) ∙ h)),
  λ h.
      let untouched = own.1 (sym (set_extent-indexed s index size) ∙ h) in
      ap (λ (r : KeyedViewportState). r.extents) (set_extent-empty s index size untouched)
      ∙ untouched,
)

-- The cache is no part of the index.
remember-IsSound :
    (key : String) (index : ℤ) (size limit : ℕ) (s : KeyedViewportState)
    → IsSound s
    → IsSound (remember key index size limit s).0
unfolding remember
remember-IsSound key index size limit s own = own

forget_extent-IsSound :
    (estimate : ℕ) (evicted : Option ℤ) (s : KeyedViewportState)
    → IsSound s
    → IsSound (forget_extent estimate evicted s)
unfolding forget_extent
forget_extent-IsSound estimate none s own = own
forget_extent-IsSound estimate (some index) s own =
    if-cases IsSound (is_negative index) s (set_extent s index estimate) (λ gone. own)
      (λ there. set_extent-IsSound s index estimate own)

perform-IsSound :
    (command : Command) (s : KeyedViewportState) → IsSound s → IsSound (perform command s)
unfolding perform measure_visible measure_tail measure_leading
perform-IsSound (rebuild children estimate gap cross_size) s own = (
  λ h. reconcile_index-Indexed children estimate gap cross_size s own.0,
  λ h. absurd (ground (arith, reconcile_index-indexed children estimate gap cross_size s)),
)
perform-IsSound (visible estimate limit key index size) s own =
    let remembered = remember key (pos index) (max 1 size) limit s in
    forget_extent-IsSound estimate remembered.1 (set_extent remembered.0 (pos index) (max 1 size)) (
      set_extent-IsSound remembered.0 (pos index) (max 1 size)
        (remember-IsSound key (pos index) (max 1 size) limit s own))
perform-IsSound (tail estimate limit key index size) s own =
    let sized = set_extent s (pos index) (max 1 size) in
    let remembered = remember key (pos index) (max 1 size) limit sized in
    forget_extent-IsSound (max 1 estimate) remembered.1 remembered.0 (
      remember-IsSound key (pos index) (max 1 size) limit sized
        (set_extent-IsSound s (pos index) (max 1 size) own))
perform-IsSound (leading limit key index size) s own =
    remember-IsSound key (pos index) (max 1 size) limit (set_extent s (pos index) (max 1 size))
      (set_extent-IsSound s (pos index) (max 1 size) own)

perform_all-IsSound :
    (commands : List Command) (s : KeyedViewportState)
    → IsSound s
    → IsSound (perform_all commands s)
unfolding perform_all
perform_all-IsSound [] s own = own
perform_all-IsSound (command ∷ commands) s own =
    perform_all-IsSound commands (perform command s) (perform-IsSound command s own)

empty-prefix_at : (s : KeyedViewportState) (end : ℤ) → s.extents ≡ [] → prefix_at s end ≡ pos 0
unfolding prefix_at prefix_from
empty-prefix_at s end h =
    let nothing : min (pos_part end) 0 ≡ 0 = omega arith in rw h (rw nothing refl)

-- After any sequence of rebuildings and measurements of a fresh list, whatever the cache forgets, a
-- query of the prefix tree
-- answers the sum of the sizes and gaps before its end, and 0 for a negative end.
pub perform_all-prefix_at :
    (commands : List Command) (end : ℤ)
    → let s = perform_all commands fresh in
      prefix_at s end ≡ pos (running s.gap s.extents (pos_part end))
unfolding running
perform_all-prefix_at commands end =
    let s = perform_all commands fresh in
    let sound = perform_all-IsSound commands fresh ((λ h. absurd (ground arith)), λ h. refl) in
    elim (Bool-cases s.indexed) [
      | inl built ↦ prefix_at-running s end (sound.0 built)
      | inr empty ↦
          let none_yet = sound.1 empty in empty-prefix_at s end none_yet ∙ rw none_yet refl
    ]

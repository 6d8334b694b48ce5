-- ===== src/Viewport/Search.antt =====
-- The search for the first item that reaches behind an offset, and for the item that owns it.
use ciwi.Base.{
  ℕ, zero, suc, ◌+◌, ◌-◌, ◌/◌, ◌≤◌, ◌<◌, ◌≡◌, sym, ap, subst, inl, inr, ◌&&◌, ◌||◌, arith, length,
  ltb, eqb, Bool-cases, if-cases,
}
use ciwi.Base.Int.{◌+ℤ◌, ltb_ℤ, +ℤ_parts, pos}
use ciwi.Viewport.{
  KeyedViewportState, extent_at, prefix_at, first_visible_between, first_visible, anchor_at,
}
use ciwi.Viewport.Sums.{
  Indexed, running, running-start, running-step, running_mono, prefix_at-running,
}

-- The offset behind the item at an index, without its gap.
abbrev pub trailing : KeyedViewportState → ℕ → ℕ
trailing s i = running s.gap s.extents i + extent_at s.extents i

-- An index that parts the items: those before it end at the offset or before, and it ends behind.
abbrev pub FirstVisible : KeyedViewportState → ℕ → ℕ → Type 0
FirstVisible s offset i =
    (i ≤ length s.extents)
    × ((m : ℕ) → m < i → trailing s m ≤ offset)
    × (i < length s.extents → offset < trailing s i)

trailing_mono :
    (s : KeyedViewportState) (i j : ℕ) → i ≤ j → i < length s.extents → trailing s i ≤ trailing s j
trailing_mono s i j h inside = elim (Bool-cases (eqb i j)) [
  | inl same ↦ ground arith
  | inr apart ↦ ground (
    arith,
    running-step s.gap s.extents i inside,
    running_mono s.gap s.extents (suc i) j (ground arith),
  )
]

-- The test of the search.
is_behind-trailing :
    (s : KeyedViewportState) (offset i : ℕ)
    → Indexed s
    → ltb_ℤ (pos offset) (prefix_at s (pos i) +ℤ pos (extent_at s.extents i))
      ≡ ltb offset (trailing s i)
is_behind-trailing s offset i own = ground (
  arith,
  prefix_at-running s (pos i) own,
  +ℤ_parts (pos (running s.gap s.extents i)) (pos (extent_at s.extents i)),
)

-- An empty interval is the answer.
closed-FirstVisible :
    (s : KeyedViewportState) (offset low high : ℕ)
    → low ≡ high
    → high ≤ length s.extents
    → ((m : ℕ) → m < low → trailing s m ≤ offset)
    → (high < length s.extents → offset < trailing s high)
    → FirstVisible s offset low
closed-FirstVisible s offset low high same inside left right =
    (omega arith, left, subst (λ i. i < length s.extents → offset < trailing s i) (sym same) right)

first_visible_between-FirstVisible :
    (fuel : ℕ) (s : KeyedViewportState) (offset low high : ℕ)
    → Indexed s
    → low ≤ high
    → high ≤ low + fuel
    → high ≤ length s.extents
    → ((m : ℕ) → m < low → trailing s m ≤ offset)
    → (high < length s.extents → offset < trailing s high)
    → FirstVisible s offset (first_visible_between fuel s offset low high)
unfolding first_visible_between
first_visible_between-FirstVisible zero s offset low high own ordered enough inside left right =
    closed-FirstVisible s offset low high (omega arith) inside left right
first_visible_between-FirstVisible (suc fuel) s offset low high own ordered enough inside left
      right =
    let middle = low + (high - low) / 2 in
    if-cases (FirstVisible s offset) (ltb low high) _ low
      (λ nonempty.
        if-cases (FirstVisible s offset)
          (ltb_ℤ (pos offset) (prefix_at s (pos middle) +ℤ pos (extent_at s.extents middle))) _ _
          (λ behind.
            first_visible_between-FirstVisible fuel s offset low middle own (omega arith)
              (ground arith) (ground arith) left
              (λ h. ground (arith, is_behind-trailing s offset middle own)))
          (λ before.
            first_visible_between-FirstVisible fuel s offset (suc middle) high own (ground arith)
              (ground arith) inside
              (λ m h. ground (
                arith,
                is_behind-trailing s offset middle own,
                trailing_mono s m middle (omega arith) (ground arith),
              ))
              right))
      (λ closed. closed-FirstVisible s offset low high (ground arith) inside left right)

-- Where the tree fits the sizes, the search, with one round of fuel for each item, returns the first
-- item that ends behind the offset, or the number of items.
pub first_visible-FirstVisible :
    (s : KeyedViewportState) (offset : ℕ)
    → Indexed s
    → FirstVisible s offset (first_visible s offset)
unfolding first_visible
first_visible-FirstVisible s offset own =
    first_visible_between-FirstVisible (length s.extents) s offset 0 (length s.extents) own
      (omega arith) (omega arith) (omega arith) (λ m h. absurd (omega arith))
      (λ h. absurd (omega arith))

-- Where the tree fits the sizes and there is an item, the anchor of an offset is an item that starts
-- at the offset or before, and the next item, if any, starts behind the offset.
pub anchor_at-owner :
    (s : KeyedViewportState) (offset : ℕ)
    → Indexed s
    → 0 < length s.extents
    → (anchor_at s offset < length s.extents)
      × (running s.gap s.extents (anchor_at s offset) ≤ offset)
      × (suc (anchor_at s offset) < length s.extents
          → offset < running s.gap s.extents (suc (anchor_at s offset)))
unfolding anchor_at
anchor_at-owner s offset own some_item =
    let index = first_visible s offset in
    let found = first_visible-FirstVisible s offset own in
    let restored : 0 < index → suc (index - 1) ≡ index = λ h. omega arith in
    let start = prefix_at-running s (pos index) own in
    if-cases
      (λ i.
        (i < length s.extents)
        × (running s.gap s.extents i ≤ offset)
        × (suc i < length s.extents → offset < running s.gap s.extents (suc i)))
      (ltb 0 index
        && (eqb index (length s.extents) || ltb_ℤ (pos offset) (prefix_at s (pos index))))
      (index - 1) index
      (λ back. (
        ground (arith, found.0),
        ground (arith, found.1 (index - 1)),
        λ h. ground (arith, start, ap (running s.gap s.extents) (restored (ground arith))),
      ))
      (λ stay. (
        ground (arith, found.0),
        elim (Bool-cases (ltb 0 index)) [
          | inl later ↦ ground (arith, start)
          | inr first ↦
              ground (arith, running_mono s.gap s.extents index 0, running-start s.gap s.extents)
        ],
        λ h. ground (arith, found.2, running-step s.gap s.extents index),
      ))

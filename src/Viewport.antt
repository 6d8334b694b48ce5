-- ===== src/Viewport.antt =====
-- The index of a virtual list (internal/giodom/viewport.go): the sizes of its items, a prefix tree
-- over them, the search for the item at an offset, and the cache of measured sizes.
--
-- A position outside the lists reads as zero and writes nothing. The code never takes one: its
-- loops and its search stay below the lengths, as `Viewport/Tree` and `Viewport/Search` use.
-- `int` sizes, gaps and offsets are natural numbers, which the callers make sure of by `max`.
use ciwi.Base.{
  ℕ, zero, suc, ◌+◌, ◌-◌, ◌/◌, min, max, String, Bool, ◌&&◌, ◌||◌, List, [], ◌∷◌, if◌then◌else◌,
  length, is_empty, ltb, leb, eqb,
}
use ciwi.Base.Dict.{Dict}
use ciwi.Base.Int.{ℤ, is_negative, pos_part, neg_part, sub_ℕ, ◌+ℤ◌, ltb_ℤ, pos}
use ciwi.Viewport.Bits.{above, below}
pub mod Bits
pub mod Tree
pub mod Sums
pub mod Search
pub mod Reconcile
pub mod Recency
pub mod Measure
pub mod Refine

pub record Measurement : Type 0 where
  pub size : ℕ
  pub last_used : ℕ
  pub index : ℤ

pub record Children : Type 0 where
  pub revision : ℕ
  pub keys : List String

pub record KeyedViewportState : Type 0 where
  pub anchor : String
  pub anchor_index : ℤ
  pub measurements : Dict Measurement
  pub clock : ℕ
  pub indexed : Bool
  pub revision : ℕ
  pub count : ℕ
  pub estimate : ℕ
  pub gap : ℕ
  pub cross_size : ℕ
  pub extents : List ℕ
  pub prefix_tree : List ℤ

unfoldable pub extent_at : List ℕ → ℕ → ℕ
extent_at [] i = 0
extent_at (x ∷ xs) zero = x
extent_at (x ∷ xs) (suc i) = extent_at xs i

unfoldable pub set_extent_at : ℕ → ℕ → List ℕ → List ℕ
set_extent_at i size [] = []
set_extent_at zero size (x ∷ xs) = size ∷ xs
set_extent_at (suc i) size (x ∷ xs) = x ∷ set_extent_at i size xs

unfoldable pub node : List ℤ → ℕ → ℤ
node [] i = pos 0
node (x ∷ xs) zero = x
node (x ∷ xs) (suc i) = node xs i

unfoldable pub add_at : ℕ → ℤ → List ℤ → List ℤ
add_at i delta [] = []
add_at zero delta (x ∷ xs) = (x +ℤ delta) ∷ xs
add_at (suc i) delta (x ∷ xs) = x ∷ add_at i delta xs

module _ {ℓ} {A : Type ℓ} where
  unfoldable pub resize_and_clear : A → ℕ → List A
  resize_and_clear cleared zero = []
  resize_and_clear cleared (suc n) = cleared ∷ resize_and_clear cleared n

-- The loop of `addPrefix`.
unfoldable pub add_from : ℕ → ℕ → ℤ → List ℤ → List ℤ
add_from zero i delta tree = tree
add_from (suc fuel) i delta tree =
    let rest = add_from fuel (above i) delta (add_at i delta tree) in
    if ltb i (length tree) then rest else tree

unfoldable pub add_prefix : ℕ → ℤ → List ℤ → List ℤ
add_prefix index delta tree = add_from (length tree) (suc index) delta tree

-- The loop of `prefixAt`.
unfoldable pub prefix_from : ℕ → ℕ → ℤ → List ℤ → ℤ
prefix_from zero end total tree = total
prefix_from (suc fuel) end total tree =
    let rest = prefix_from fuel (below end) (total +ℤ node tree end) tree in
    if ltb 0 end then rest else total

unfoldable pub prefix_at : KeyedViewportState → ℤ → ℤ
prefix_at s end =
    let clamped = min (pos_part end) (length s.extents) in
    prefix_from clamped clamped (pos 0) s.prefix_tree

unfoldable pub total_extent : KeyedViewportState → ℕ
total_extent s =
    if is_empty s.extents
    then 0
    else (let whole = prefix_at s (pos (length s.extents)) in
        pos_part whole - (neg_part whole + s.gap))

-- The loop of `firstVisible`.
unfoldable pub first_visible_between : ℕ → KeyedViewportState → ℕ → ℕ → ℕ → ℕ
first_visible_between zero s offset low high = low
first_visible_between (suc fuel) s offset low high =
    let middle = low + (high - low) / 2 in
    let left = first_visible_between fuel s offset low middle in
    let right = first_visible_between fuel s offset (suc middle) high in
    if ltb low high
    then (if ltb_ℤ (pos offset) (prefix_at s (pos middle) +ℤ pos (extent_at s.extents middle))
        then left
        else right)
    else low

unfoldable pub first_visible : KeyedViewportState → ℕ → ℕ
first_visible s offset = first_visible_between (length s.extents) s offset 0 (length s.extents)

unfoldable pub anchor_at : KeyedViewportState → ℕ → ℕ
anchor_at s offset =
    let index = first_visible s offset in
    if ltb 0 index && (eqb index (length s.extents) || ltb_ℤ (pos offset) (prefix_at s (pos index)))
    then index - 1
    else index

unfoldable pub set_extent : KeyedViewportState → ℤ → ℕ → KeyedViewportState
set_extent s index size =
    let i = pos_part index in
    let extent = max 1 size in
    if is_negative index || leb (length s.extents) i
    then s
    else (if eqb extent (extent_at s.extents i) then s else record s {
      extents = set_extent_at i extent s.extents;
      prefix_tree = add_prefix i (sub_ℕ extent (extent_at s.extents i)) s.prefix_tree;
    })

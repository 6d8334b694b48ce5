-- ===== src/Viewport/Reconcile/Placed.antt =====
-- The tree while the items are placed one by one.
use ciwi.Base.{
  ℕ, zero, suc, ◌+◌, ◌≤◌, ◌<◌, min, String, ◌≡◌, refl, ap, subst, List, [], ◌∷◌, arith, ◌==◌,
  if◌then◌else◌, length,
}
use ciwi.Base.Int.{ℤ, pos}
use ciwi.Viewport.{KeyedViewportState, set_extent_at, extent_at, add_prefix, resize_and_clear, node}
use ciwi.Viewport.Tree.{Represents, add_prefix-Represents}
use ciwi.Viewport.Bits.{below}
use ciwi.Viewport.Sums.{
  running, running-start, running-step, running-set_extent_at, length-set_extent_at,
  length-add_prefix,
}
use ciwi.Viewport.Reconcile.{item_size, place_item, place_items, cleared}

pub length-clear {ℓ} : {A : Type ℓ} (x : A) (n : ℕ) → length (resize_and_clear x n) ≡ n
unfolding resize_and_clear
length-clear x zero = refl
length-clear x (suc n) = ap suc (length-clear x n)

node-clear : (n j : ℕ) → node (resize_and_clear (pos 0) n) j ≡ pos 0
unfolding resize_and_clear node
node-clear zero j = refl
node-clear (suc n) zero = refl
node-clear (suc n) (suc j) = node-clear n j

-- The tree and the sizes while the items from an index on are still to be placed.
abbrev pub Placed : ℕ → ℕ → KeyedViewportState → Type 0
Placed gap index s =
    (length s.prefix_tree ≡ suc (length s.extents))
    × Represents s.prefix_tree (λ j. running gap s.extents (min j index))

extent_at-set :
    (i size : ℕ) (xs : List ℕ) → i < length xs → extent_at (set_extent_at i size xs) i ≡ size
unfolding extent_at set_extent_at
extent_at-set i size [] h = absurd (omega arith)
extent_at-set zero size (x ∷ xs) h = refl
extent_at-set (suc i) size (x ∷ xs) h = extent_at-set i size xs (omega arith)

min_left : (i j : ℕ) → i ≤ j → min i j ≡ i
min_left i j h = omega arith

min_right : (i j : ℕ) → j ≤ i → min i j ≡ j
min_right i j h = omega arith

place-Represents :
    (gap index size : ℕ) (xs : List ℕ) (tree : List ℤ)
    → index < length xs
    → Represents tree (λ j. running gap xs (min j index))
    → Represents
        (add_prefix index (pos (size + gap)) tree)
        (λ j. running gap (set_extent_at index size xs) (min j (suc index)))
place-Represents gap index size xs tree h =
    let xs' = set_extent_at index size xs in
    add_prefix-Represents index (pos (size + gap)) tree (λ j. running gap xs (min j index))
      (λ j. running gap xs' (min j (suc index)))
      (λ j early. ground (
        arith,
        ap (running gap xs') (min_left j (suc index) (omega arith)),
        ap (running gap xs) (min_left j index early),
        running-set_extent_at gap index size xs j h,
      ))
      (λ j late inside. ground (
        arith,
        ap (running gap xs') (min_right j (suc index) late),
        ap (running gap xs) (min_right j index (omega arith)),
        running-set_extent_at gap index size xs (suc index) h,
        running-step gap xs index h,
      ))

place_item-Placed :
    (estimate gap index : ℕ) (key : String) (s : KeyedViewportState)
    → index < length s.extents
    → Placed gap index s
    → Placed gap (suc index) (place_item estimate gap index key s)
place_item-Placed estimate gap index key s h own =
    let size = item_size estimate s.measurements key in
    (
      omega (
        arith,
        own.0,
        length-add_prefix index (pos (size + gap)) s.prefix_tree,
        length-set_extent_at index size s.extents,
      ),
      place-Represents gap index size s.extents s.prefix_tree h own.1,
    )

pub place_items-Placed :
    (estimate gap index : ℕ) (keys : List String) (s : KeyedViewportState) (anchor_index : ℤ)
    → index + length keys ≡ length s.extents
    → Placed gap index s
    → let placed = (place_items estimate gap index keys s anchor_index).0 in
      (length placed.extents ≡ length s.extents) × Placed gap (index + length keys) placed
unfolding place_items
place_items-Placed estimate gap index [] s anchor_index fits own =
    (refl, subst (λ n. Placed gap n s) (omega arith) own)
place_items-Placed estimate gap index (key ∷ keys) s anchor_index fits own =
    let size = item_size estimate s.measurements key in
    let kept = length-set_extent_at index size s.extents in
    let later =
      place_items-Placed estimate gap (suc index) keys (place_item estimate gap index key s)
        (if key == s.anchor then pos index else anchor_index) (omega (arith, kept, fits))
        (place_item-Placed estimate gap index key s (omega (arith, fits)) own) in
    (
      omega (arith, later.0, kept),
      subst
          (λ n.
            Placed gap n
              (place_items estimate gap (suc index) keys (place_item estimate gap index key s)
                (if key == s.anchor then pos index else anchor_index)).0)
          (omega arith) later.1,
    )

pub cleared-Placed :
    (gap : ℕ) (keys : List String) (s : KeyedViewportState) → Placed gap 0 (cleared keys s)
unfolding Represents
cleared-Placed gap keys s = (
  omega (arith, length-clear (pos 0) (suc (length keys)), length-clear {A = ℕ} 0 (length keys)),
  λ j hj inside. ground (
    arith,
    node-clear (suc (length keys)) j,
    ap (running gap (resize_and_clear 0 (length keys))) (min_right j 0 (omega arith)),
    ap (running gap (resize_and_clear 0 (length keys))) (min_right (below j) 0 (omega arith)),
    running-start gap (resize_and_clear 0 (length keys)),
  ),
)

pub placed-Represents :
    (gap index : ℕ) (xs : List ℕ) (tree : List ℤ)
    → length tree ≤ suc index
    → Represents tree (λ j. running gap xs (min j index))
    → Represents tree (running gap xs)
unfolding Represents
placed-Represents gap index xs tree h own j hj inside = ground (
  arith,
  own j hj inside,
  ap (running gap xs) (min_left j index (omega arith)),
  ap (running gap xs) (min_left (below j) index (omega arith)),
)

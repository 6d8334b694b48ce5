-- ===== src/Viewport/Sums.antt =====
-- The reference for the prefix tree: running sums of the items' sizes and gaps, by recursion on the
-- list of sizes, and what `prefixAt`, `totalExtent` and `setExtent` are by them.
use ciwi.Base.{
  ℕ, zero, suc, ◌+◌, ◌-◌, ◌≤◌, ◌<◌, min, max, ◌≡◌, refl, sym, ap, ◌∙◌, inl, inr, true, ◌||◌, List,
  [], ◌∷◌, arith, if◌then◌else◌, length, is_empty, ltb, leb, eqb, Bool-cases, if-cases,
}
use ciwi.Base.Int.{ℤ, is_negative, pos_part, sub_ℕ, ◌+ℤ◌, +ℤ_parts, sub_ℕ_parts, eq_of_parts, pos}
use ciwi.Viewport.{
  KeyedViewportState, extent_at, set_extent_at, prefix_at, total_extent, set_extent, add_prefix,
}
use ciwi.Viewport.Tree.{Represents, add_prefix-Represents, prefix_from-Represents, length-add_from}

-- The offset of the item at an index: the sizes before it, each with its gap.
unfoldable pub running : ℕ → List ℕ → ℕ → ℕ
running gap [] i = 0
running gap (x ∷ xs) zero = 0
running gap (x ∷ xs) (suc i) = x + gap + running gap xs i

-- The state's tree and gap fit its sizes.
abbrev pub Indexed : KeyedViewportState → Type 0
Indexed s =
    (length s.prefix_tree ≡ suc (length s.extents))
    × Represents s.prefix_tree (running s.gap s.extents)

pub running-start : (gap : ℕ) (xs : List ℕ) → running gap xs 0 ≡ 0
unfolding running
running-start gap [] = refl
running-start gap (x ∷ xs) = refl

pub running-step :
    (gap : ℕ) (xs : List ℕ) (i : ℕ)
    → i < length xs
    → running gap xs (suc i) ≡ running gap xs i + extent_at xs i + gap
unfolding running extent_at
running-step gap [] i h = absurd (omega arith)
running-step gap (x ∷ xs) zero h = omega (arith, running-start gap xs)
running-step gap (x ∷ xs) (suc i) h = omega (arith, running-step gap xs i (omega arith))

pub running_mono : (gap : ℕ) (xs : List ℕ) (i j : ℕ) → i ≤ j → running gap xs i ≤ running gap xs j
unfolding running
running_mono gap [] i j h = omega arith
running_mono gap (x ∷ xs) zero j h = omega arith
running_mono gap (x ∷ xs) (suc i) zero h = absurd (omega arith)
running_mono gap (x ∷ xs) (suc i) (suc j) h = omega (arith, running_mono gap xs i j (omega arith))

-- Behind the last item the sum stays.
pub running-saturates :
    (gap : ℕ) (xs : List ℕ) (i : ℕ) → length xs ≤ i → running gap xs i ≡ running gap xs (length xs)
unfolding running
running-saturates gap [] i h = refl
running-saturates gap (x ∷ xs) zero h = absurd (omega arith)
running-saturates gap (x ∷ xs) (suc i) h = omega (arith, running-saturates gap xs i (omega arith))

running-min :
    (gap : ℕ) (xs : List ℕ) (i : ℕ) → running gap xs (min i (length xs)) ≡ running gap xs i
running-min gap xs i = elim (Bool-cases (leb i (length xs))) [
  | inl inside ↦ ap (running gap xs) (ground arith)
  | inr outside ↦
      ap (running gap xs) (ground arith) ∙ sym (running-saturates gap xs i (ground arith))
]

+ℤ-pos : (a : ℕ) → pos 0 +ℤ pos a ≡ pos a
+ℤ-pos a = eq_of_parts (pos 0 +ℤ pos a) (pos a) (omega (arith, +ℤ_parts (pos 0) (pos a)))

pub prefix_at-running :
    (s : KeyedViewportState) (end : ℤ)
    → Indexed s
    → prefix_at s end ≡ pos (running s.gap s.extents (pos_part end))
unfolding prefix_at
prefix_at-running s end own =
    let clamped = min (pos_part end) (length s.extents) in
    let summed =
      prefix_from-Represents clamped clamped (pos 0) s.prefix_tree (running s.gap s.extents) own.1
        (running-start s.gap s.extents) (omega arith) (omega (arith, own.0)) in
    summed
    ∙ +ℤ-pos (running s.gap s.extents clamped)
    ∙ ap pos (running-min s.gap s.extents (pos_part end))

is_empty-running : (gap : ℕ) (xs : List ℕ) → is_empty xs ≡ true → running gap xs (length xs) ≡ 0
unfolding running
is_empty-running gap [] h = refl
is_empty-running gap (x ∷ xs) h = absurd (ground arith)

pub total_extent-running :
    (s : KeyedViewportState)
    → Indexed s
    → total_extent s ≡ running s.gap s.extents (length s.extents) - s.gap
unfolding total_extent
total_extent-running s own =
    ground
      (arith, prefix_at-running s (pos (length s.extents)) own, is_empty-running s.gap s.extents)

pub length-set_extent_at : (i size : ℕ) (xs : List ℕ) → length (set_extent_at i size xs) ≡ length xs
unfolding set_extent_at
length-set_extent_at i size [] = refl
length-set_extent_at zero size (x ∷ xs) = refl
length-set_extent_at (suc i) size (x ∷ xs) = ap suc (length-set_extent_at i size xs)

pub running-set_extent_at :
    (gap i size : ℕ) (xs : List ℕ) (j : ℕ)
    → i < length xs
    → running gap (set_extent_at i size xs) j + (if ltb i j then extent_at xs i else 0)
      ≡ running gap xs j + (if ltb i j then size else 0)
unfolding running set_extent_at extent_at
running-set_extent_at gap i size [] j h = absurd (omega arith)
running-set_extent_at gap zero size (x ∷ xs) zero h = ground arith
running-set_extent_at gap zero size (x ∷ xs) (suc j) h = ground arith
running-set_extent_at gap (suc i) size (x ∷ xs) zero h = ground arith
running-set_extent_at gap (suc i) size (x ∷ xs) (suc j) h =
    ground (arith, running-set_extent_at gap i size xs j (omega arith))

-- A new size and the addition of its growth keep the tree fitting.
replace-Represents :
    (gap i size : ℕ) (xs : List ℕ) (tree : List ℤ)
    → i < length xs
    → Represents tree (running gap xs)
    → Represents
        (add_prefix i (sub_ℕ size (extent_at xs i)) tree)
        (running gap (set_extent_at i size xs))
replace-Represents gap i size xs tree h =
    let grown = λ (j : ℕ). running-set_extent_at gap i size xs j h in
    let parts = sub_ℕ_parts size (extent_at xs i) in
    add_prefix-Represents i (sub_ℕ size (extent_at xs i)) tree (running gap xs)
      (running gap (set_extent_at i size xs)) (λ j early. ground (arith, grown j))
      (λ j late inside. ground (arith, grown j, parts))

pub length-add_prefix :
    (i : ℕ) (delta : ℤ) (tree : List ℤ) → length (add_prefix i delta tree) ≡ length tree
unfolding add_prefix
length-add_prefix i delta tree = length-add_from (length tree) (suc i) delta tree

pub set_extent-Indexed :
    (s : KeyedViewportState) (index : ℤ) (size : ℕ) → Indexed s → Indexed (set_extent s index size)
unfolding set_extent
set_extent-Indexed s index size own =
    let i = pos_part index in
    let extent = max 1 size in
    if-cases Indexed (is_negative index || leb (length s.extents) i) s _ (λ outside. own)
      (λ inside.
        if-cases Indexed (eqb extent (extent_at s.extents i)) s _ (λ same. own)
          (λ changed. (
            omega (
              arith,
              own.0,
              length-add_prefix i (sub_ℕ extent (extent_at s.extents i)) s.prefix_tree,
              length-set_extent_at i extent s.extents,
            ),
            replace-Represents s.gap i extent s.extents s.prefix_tree (ground arith) own.1,
          )))

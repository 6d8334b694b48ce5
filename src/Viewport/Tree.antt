-- ===== src/Viewport/Tree.antt =====
-- The prefix tree: `addPrefix` adds to exactly the nodes that cover an item, and `prefixAt` sums
-- nodes that tile the items before an index.
use ciwi.Base.{
  ℕ, zero, suc, ◌+◌, ◌≤◌, ◌<◌, ◌≡◌, refl, ap, inl, inr, List, [], ◌∷◌, arith, if◌then◌else◌, length,
  ltb, leb, eqb, Bool-cases,
}
use ciwi.Base.Int.{ℤ, pos_part, neg_part, sub_ℕ, ◌+ℤ◌, +ℤ_parts, sub_ℕ_parts, eq_of_parts, pos}
use ciwi.Viewport.{node, add_at, add_from, add_prefix, prefix_from}
use ciwi.Viewport.Bits.{below, above, covers, covers-above, lowest_bit_bounds}

pub length-add_at : (i : ℕ) (delta : ℤ) (tree : List ℤ) → length (add_at i delta tree) ≡ length tree
unfolding add_at
length-add_at i delta [] = refl
length-add_at zero delta (x ∷ xs) = refl
length-add_at (suc i) delta (x ∷ xs) = ap suc (length-add_at i delta xs)

pub node-add_at :
    (i j : ℕ) (delta : ℤ) (tree : List ℤ)
    → j < length tree
    → node (add_at i delta tree) j ≡ (if eqb i j then node tree j +ℤ delta else node tree j)
unfolding add_at node
node-add_at i j delta [] h = absurd (omega arith)
node-add_at zero zero delta (x ∷ xs) h = refl
node-add_at zero (suc j) delta (x ∷ xs) h = ground arith
node-add_at (suc i) zero delta (x ∷ xs) h = ground arith
node-add_at (suc i) (suc j) delta (x ∷ xs) h =
    ground (arith, node-add_at i j delta xs (omega arith))

pub length-add_from :
    (fuel i : ℕ) (delta : ℤ) (tree : List ℤ) → length (add_from fuel i delta tree) ≡ length tree
unfolding add_from
length-add_from zero i delta tree = refl
length-add_from (suc fuel) i delta tree =
    ground (
      arith,
      length-add_from fuel (above i) delta (add_at i delta tree),
      length-add_at i delta tree,
    )

-- With enough fuel the loop changes the nodes that cover the item and no others.
pub node-add_from :
    (fuel i j : ℕ) (delta : ℤ) (tree : List ℤ)
    → 0 < i
    → 0 < j
    → j < length tree
    → length tree ≤ i + fuel
    → node (add_from fuel i delta tree) j
      ≡ (if covers j i then node tree j +ℤ delta else node tree j)
unfolding add_from
node-add_from zero i j delta tree hi hj hl hf = ground arith
node-add_from (suc fuel) i j delta tree hi hj hl hf =
    let own =
      node-add_from fuel (above i) j delta (add_at i delta tree) (omega arith) hj
        (omega (arith, length-add_at i delta tree))
        (omega (arith, length-add_at i delta tree, lowest_bit_bounds i i)) in
    elim (Bool-cases (ltb i (length tree))) [
      | inr out ↦ ground arith
      | inl in_range ↦ elim (Bool-cases (eqb i j)) [
        | inl same ↦ ground (
          arith,
          own,
          node-add_at i j delta tree hl,
          lowest_bit_bounds i i,
          lowest_bit_bounds j j,
        )
        | inr other ↦ ground (
          arith,
          own,
          node-add_at i j delta tree hl,
          covers-above i i j (omega arith) hi hj (λ e. absurd (ground arith)),
        )
      ]
    ]

sub_ℕ-shift :
    (a b a' : ℕ) (delta : ℤ)
    → a' + neg_part delta ≡ a + pos_part delta
    → sub_ℕ a b +ℤ delta ≡ sub_ℕ a' b
sub_ℕ-shift a b a' delta h =
    eq_of_parts (sub_ℕ a b +ℤ delta) (sub_ℕ a' b)
      (omega (arith, +ℤ_parts (sub_ℕ a b) delta, sub_ℕ_parts a b, sub_ℕ_parts a' b))

+ℤ-pos0 : (total : ℤ) → total ≡ total +ℤ pos 0
+ℤ-pos0 total = eq_of_parts total (total +ℤ pos 0) (omega (arith, +ℤ_parts total (pos 0)))

+ℤ-join : (total : ℤ) (a b : ℕ) → total +ℤ sub_ℕ a b +ℤ pos b ≡ total +ℤ pos a
+ℤ-join total a b = eq_of_parts (total +ℤ sub_ℕ a b +ℤ pos b) (total +ℤ pos a) (
    omega (
      arith,
      +ℤ_parts (total +ℤ sub_ℕ a b) (pos b),
      +ℤ_parts total (sub_ℕ a b),
      +ℤ_parts total (pos a),
      sub_ℕ_parts a b,
    ))

-- Each node of the tree holds the sum's growth over the items that it covers.
unfoldable pub Represents : List ℤ → (ℕ → ℕ) → Type 0
Represents tree total =
    (j : ℕ) → 0 < j → j < length tree → node tree j ≡ sub_ℕ (total j) (total (below j))

-- An addition at an index turns the tree of one running sum into the tree of the sum that grows by
-- the addition behind that index.
pub add_prefix-Represents :
    (index : ℕ) (delta : ℤ) (tree : List ℤ) (before after : ℕ → ℕ)
    → ((j : ℕ) → j ≤ index → after j ≡ before j)
    → ((j : ℕ) → index < j → j < length tree → after j + neg_part delta ≡ before j + pos_part delta)
    → Represents tree before
    → Represents (add_prefix index delta tree) after
unfolding Represents add_prefix
add_prefix-Represents index delta tree before after kept moved own j hj hl =
    let hl' : j < length tree =
      omega (arith, length-add_from (length tree) (suc index) delta tree) in
    let added =
      node-add_from (length tree) (suc index) j delta tree (omega arith) hj hl' (omega arith) in
    elim (Bool-cases (covers j (suc index))) [
      | inl covered ↦ ground (
        arith,
        added,
        own j hj hl',
        sub_ℕ-shift (before j) (before (below j)) (after j) delta (moved j (ground arith) hl'),
        kept (below j) (ground arith),
      )
      | inr apart ↦ elim (Bool-cases (leb j index)) [
        | inl early ↦
            ground
              (arith, added, own j hj hl', kept j (ground arith), kept (below j) (ground arith))
        | inr late ↦ ground (
          arith,
          added,
          own j hj hl',
          moved j (ground arith) hl',
          moved (below j) (ground arith) (ground arith),
        )
      ]
    ]

-- A query sums nodes that tile the items before its end.
pub prefix_from-Represents :
    (fuel end : ℕ) (total : ℤ) (tree : List ℤ) (sum : ℕ → ℕ)
    → Represents tree sum
    → sum 0 ≡ 0
    → end ≤ fuel
    → end < length tree
    → prefix_from fuel end total tree ≡ total +ℤ pos (sum end)
unfolding prefix_from Represents
prefix_from-Represents zero end total tree sum own start hf hl = ground (arith, +ℤ-pos0 total)
prefix_from-Represents (suc fuel) end total tree sum own start hf hl =
    elim (Bool-cases (ltb 0 end)) [
      | inr done ↦ ground (arith, +ℤ-pos0 total)
      | inl more ↦
          let tiled =
            prefix_from-Represents fuel (below end) (total +ℤ node tree end) tree sum own start
              (ground (arith, lowest_bit_bounds end end)) (ground arith) in
          ground (arith, tiled, own end, +ℤ-join total (sum end) (sum (below end)))
    ]

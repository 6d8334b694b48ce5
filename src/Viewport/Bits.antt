-- ===== src/Viewport/Bits.antt =====
-- The lowest set bit of an index, and the steps that an update and a query of the prefix tree take
-- by it. The tree's node `j` covers the items from `below j` up to `j`.
use ciwi.Base.{
  ℕ, zero, suc, ◌+◌, ◌-◌, ◌*◌, ◌/◌, ◌%◌, ◌≤◌, ◌<◌, Bool, ◌&&◌, ◌≡◌, ◌≢◌, ◌⊎◌, inl, inr,
  if◌then◌else◌, ltb, leb, eqb, arith,
}

lowest_bit_from : ℕ → ℕ → ℕ
lowest_bit_from zero n = 0
lowest_bit_from (suc rounds) n =
    let rest = 2 * lowest_bit_from rounds (n / 2) in if eqb (n % 2) 1 then 1 else rest

-- `n & -n`, by the binary digits of `n`.
unfoldable pub lowest_bit : ℕ → ℕ
unfolding lowest_bit_from
lowest_bit n = lowest_bit_from n n

-- More rounds than the number has digits change nothing.
rounds_enough : (f g n : ℕ) → 0 < n → n ≤ f → n ≤ g → lowest_bit_from f n ≡ lowest_bit_from g n
unfolding lowest_bit_from
rounds_enough zero g n p hf hg = absurd (omega arith)
rounds_enough (suc f) zero n p hf hg = absurd (omega arith)
rounds_enough (suc f) (suc g) n p hf hg = ground (arith, rounds_enough f g (n / 2))

pub lowest_bit_odd : (n : ℕ) → n % 2 ≡ 1 → lowest_bit n ≡ 1
unfolding lowest_bit
lowest_bit_odd zero h = absurd (omega arith)
lowest_bit_odd (suc n) h = ground arith

pub lowest_bit_even : (n : ℕ) → 0 < n → n % 2 ≡ 0 → lowest_bit n ≡ 2 * lowest_bit (n / 2)
unfolding lowest_bit
lowest_bit_even zero p h = absurd (omega arith)
lowest_bit_even (suc n) p h = ground (arith, rounds_enough n (suc n / 2) (suc n / 2))

pub parity : (n : ℕ) → (n % 2 ≡ 0) ⊎ (n % 2 ≡ 1)
parity n = ground arith

pub lowest_bit_bounds : (k n : ℕ) → n ≤ k → 0 < n → (0 < lowest_bit n) × (lowest_bit n ≤ n)
lowest_bit_bounds zero n h p = absurd (omega arith)
lowest_bit_bounds (suc k) n h p = elim (parity n) [
  | inl even ↦
      omega
        (arith, lowest_bit_even n p even, lowest_bit_bounds k (n / 2) (omega arith) (omega arith))
  | inr odd ↦ omega (arith, lowest_bit_odd n odd)
]

abbrev pub below : ℕ → ℕ
below n = n - lowest_bit n

abbrev pub above : ℕ → ℕ
above n = n + lowest_bit n

abbrev pub covers : ℕ → ℕ → Bool
covers j i = ltb (below j) i && leb i j

-- A node other than the item's own covers the item exactly when it covers the next one on the way
-- up from the item.
pub covers-above : (k i j : ℕ) → i ≤ k → 0 < i → 0 < j → i ≢ j → covers j i ≡ covers j (above i)
covers-above zero i j h p q ne = absurd (omega arith)
covers-above (suc k) i j h p q ne = elim (parity i) [
  | inr odd_i ↦ elim (parity j) [
    | inr odd_j ↦ ground (arith, lowest_bit_odd i odd_i, lowest_bit_odd j odd_j)
    | inl even_j ↦
        ground
          (arith, lowest_bit_odd i odd_i, lowest_bit_even j q even_j, lowest_bit_bounds j (j / 2))
  ]
  | inl even_i ↦ elim (parity j) [
    | inr odd_j ↦ ground (arith, lowest_bit_even i p even_i, lowest_bit_odd j odd_j)
    | inl even_j ↦ ground (
      arith,
      lowest_bit_even i p even_i,
      lowest_bit_even j q even_j,
      covers-above k (i / 2) (j / 2) (omega arith) (omega arith) (omega arith) (omega arith),
    )
  ]
]

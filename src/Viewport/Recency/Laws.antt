-- ===== src/Viewport/Recency/Laws.antt =====
-- What `remember` keeps: the limit, the written size, and the shape of the cache.
use ciwi.Base.{
  ℕ, suc, ◌+◌, ◌-◌, ◌%◌, ◌^◌, ◌≤◌, ◌<◌, String, ◌≡◌, refl, ◌∙◌, true, false, Option, none, some, [],
  ◌∷◌, arith, ◌==◌, eq_iff, eq_refl, length, any, All, ltb, leb, eqb, if-cases,
}
use ciwi.Base.Dict.{Dict, lookup, insert, lookup-insert, lookup-delete}
use ciwi.Base.Int.{ℤ}
use ciwi.Viewport.{Measurement, KeyedViewportState}
use ciwi.Viewport.Recency.{oldest_from, evict, remember, holds_key, UniqueKeys, IsCache}
use ciwi.Viewport.Recency.Keys.{
  length-insert, length-delete-held, UniqueKeys-insert, All-delete, UniqueKeys-delete, All-insert,
  All-weaken,
}

-- The search returns an entry of the cache.
oldest_from-held :
    (entries : Dict Measurement) (oldest : String × Measurement)
    → holds_key (oldest_from entries oldest).0 (oldest ∷ entries) ≡ true
unfolding oldest_from any
oldest_from-held [] oldest = ground (arith, eq_refl oldest.0)
oldest_from-held (candidate ∷ rest) oldest =
    ground (arith, oldest_from-held rest candidate, oldest_from-held rest oldest)

-- No entry of the cache is older than the one that the search returns.
oldest_from-least :
    (entries : Dict Measurement) (oldest : String × Measurement)
    → let least = (oldest_from entries oldest).1.last_used in
      (least ≤ oldest.1.last_used) × All (λ entry. least ≤ entry.1.last_used) entries
unfolding oldest_from
oldest_from-least [] oldest = (omega arith, tt)
oldest_from-least (candidate ∷ rest) oldest =
    if-cases
      (λ from.
        let least = (oldest_from rest from).1.last_used in
        (least ≤ oldest.1.last_used)
        × ((least ≤ candidate.1.last_used) × All (λ entry. least ≤ entry.1.last_used) rest))
      (ltb candidate.1.last_used oldest.1.last_used) candidate oldest
      (λ older.
        let least = oldest_from-least rest candidate in
        (ground (arith, least.0), (least.0, least.1)))
      (λ newer.
        let least = oldest_from-least rest oldest in (least.0, (ground (arith, least.0), least.1)))

oldest_from-All :
    (P : String × Measurement → Type 0) (entries : Dict Measurement) (oldest : String × Measurement)
    → P oldest
    → All P entries
    → P (oldest_from entries oldest)
unfolding oldest_from
oldest_from-All P [] oldest h hs = h
oldest_from-All P (candidate ∷ rest) oldest h hs =
    oldest_from-All P rest _
      (if-cases P (ltb candidate.1.last_used oldest.1.last_used) candidate oldest (λ e. hs.0)
        (λ e. h))
      hs.1

length-evict : (entries : Dict Measurement) → length (evict entries).0 ≤ length entries - 1
unfolding evict
length-evict [] = omega arith
length-evict (first ∷ rest) =
    let oldest = oldest_from rest first in
    omega (arith, length-delete-held oldest.0 (first ∷ rest) (oldest_from-held rest first))

-- The entry of the key is the only one that was used now.
abbrev Fresh : String → ℕ → String × Measurement → Type 0
Fresh key now entry = (eqb entry.1.last_used now ≡ (entry.0 == key)) × (entry.1.last_used ≤ now)

unheld-Fresh :
    (key : String) (clock : ℕ) (entries : Dict Measurement)
    → holds_key key entries ≡ false
    → All (λ entry. entry.1.last_used ≤ clock) entries
    → All (Fresh key (suc clock)) entries
unfolding any
unheld-Fresh key clock [] h old = tt
unheld-Fresh key clock (entry ∷ rest) h old =
    ((ground arith, omega (arith, old.0)), unheld-Fresh key clock rest (ground arith) old.1)

insert-Fresh :
    (key : String) (clock : ℕ) (measured : Measurement) (entries : Dict Measurement)
    → measured.last_used ≡ suc clock
    → UniqueKeys entries
    → All (λ entry. entry.1.last_used ≤ clock) entries
    → All (Fresh key (suc clock)) (insert key measured entries)
unfolding insert
insert-Fresh key clock measured [] h unique old = ((ground (arith, eq_refl key), omega arith), tt)
insert-Fresh key clock measured (entry ∷ rest) h unique old =
    if-cases (All (Fresh key (suc clock))) (entry.0 == key) _ _
      (λ same. (
        (ground (arith, eq_refl key), omega arith),
        unheld-Fresh key clock rest (rw (← ((eq_iff entry.0 key).0 same)) unique.0) old.1,
      ))
      (λ other. (
        (ground arith, omega (arith, old.0)),
        insert-Fresh key clock measured rest h unique.1 old.1,
      ))

-- Of two entries or more, the one that was used now is not removed.
two_keys :
    (first second : String × Measurement) (rest : Dict Measurement) (key : String)
    → holds_key first.0 (second ∷ rest) ≡ false
    → first.0 == key ≡ true
    → second.0 == key ≡ false
unfolding any
two_keys first second rest key apart same =
    ground (arith, eq_iff first.0 key, eq_iff second.0 key, eq_iff second.0 first.0)

lookup-evict :
    (key : String) (now : ℕ) (entries : Dict Measurement)
    → 1 < length entries
    → UniqueKeys entries
    → All (Fresh key now) entries
    → lookup key (evict entries).0 ≡ lookup key entries
unfolding evict
lookup-evict key now [] many unique fresh = absurd (omega arith)
lookup-evict key now (first ∷ []) many unique fresh = absurd (omega arith)
lookup-evict key now (first ∷ second ∷ rest) many unique fresh =
    let oldest = oldest_from (second ∷ rest) first in
    let own = oldest_from-All (Fresh key now) (second ∷ rest) first fresh.0 fresh.1 in
    let least = oldest_from-least (second ∷ rest) first in
    let apart : oldest.0 == key ≡ false =
      ground (arith, own, least, fresh.0, fresh.1.0, two_keys first second rest key unique.0) in
    lookup-delete oldest.0 key (first ∷ second ∷ rest) ∙ rw apart refl

-- Where the limit is positive, the clock does not wrap and the cache is sound, a size that was just
-- written can be read back, whether or not another entry had to go.
pub remember-lookup :
    (key : String) (index : ℤ) (size limit : ℕ) (s : KeyedViewportState)
    → s.clock + 1 < 2 ^ 64
    → 0 < limit
    → IsCache limit s
    → lookup key (remember key index size limit s).0.measurements
      ≡ some (record { size = size; last_used = s.clock + 1; index = index })
unfolding remember
remember-lookup key index size limit s small some_room own =
    let now = (s.clock + 1) % 2 ^ 64 in
    let same : now ≡ s.clock + 1 = omega arith in
    let entry : Measurement = record { size = size; last_used = now; index = index } in
    let written = insert key entry s.measurements in
    let wrote : lookup key written
        ≡ some (record { size = size; last_used = s.clock + 1; index = index }) =
      lookup-insert key key entry s.measurements ∙ rw (eq_refl key, same) refl in
    if-cases
      (λ (r : Dict Measurement × Option ℤ).
        lookup key r.0 ≡ some (record { size = size; last_used = s.clock + 1; index = index }))
      (leb (length written) limit) (written, none) (evict written) (λ fits. wrote)
      (λ full.
        lookup-evict key (suc s.clock) written (ground arith)
          (UniqueKeys-insert key entry s.measurements own.0)
          (insert-Fresh key s.clock entry s.measurements (omega arith) own.0 own.1)
        ∙ wrote)

evict-All :
    (P : String × Measurement → Type 0) (entries : Dict Measurement)
    → All P entries
    → All P (evict entries).0
unfolding evict
evict-All P [] h = h
evict-All P (first ∷ rest) h = All-delete P (oldest_from rest first).0 (first ∷ rest) h

evict-UniqueKeys : (entries : Dict Measurement) → UniqueKeys entries → UniqueKeys (evict entries).0
unfolding evict
evict-UniqueKeys [] h = h
evict-UniqueKeys (first ∷ rest) h = UniqueKeys-delete (oldest_from rest first).0 (first ∷ rest) h

-- Where the clock does not wrap, a sound cache stays sound: no key twice, no use in the future, no
-- more entries than the limit.
pub remember-IsCache :
    (key : String) (index : ℤ) (size limit : ℕ) (s : KeyedViewportState)
    → s.clock + 1 < 2 ^ 64
    → IsCache limit s
    → IsCache limit (remember key index size limit s).0
unfolding remember
remember-IsCache key index size limit s small own =
    let now = (s.clock + 1) % 2 ^ 64 in
    let entry : Measurement = record { size = size; last_used = now; index = index } in
    let written = insert key entry s.measurements in
    let unique = UniqueKeys-insert key entry s.measurements own.0 in
    let used =
      All-insert (λ e. e.1.last_used ≤ now) key entry s.measurements (omega arith)
        (All-weaken s.clock now s.measurements (omega arith) own.1) in
    if-cases
      (λ (r : Dict Measurement × Option ℤ).
        UniqueKeys r.0 × All (λ e. e.1.last_used ≤ now) r.0 × (length r.0 ≤ limit))
      (leb (length written) limit) (written, none) (evict written)
      (λ fits. (unique, used, ground arith))
      (λ full. (
        evict-UniqueKeys written unique,
        evict-All _ written used,
        omega (arith, own.2, length-evict written, length-insert key entry s.measurements),
      ))

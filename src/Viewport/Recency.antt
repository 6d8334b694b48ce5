-- ===== src/Viewport/Recency.antt =====
-- The cache of measured sizes, which holds at most a fixed number of them (`remember`).
use ciwi.Base.{
  ℕ, ◌+◌, ◌%◌, ◌^◌, ◌≤◌, String, ◌≡◌, Bool, false, Option, none, some, [], ◌∷◌, ◌==◌, if◌then◌else◌,
  length, any, All, ltb, leb,
}
use ciwi.Base.Dict.{Dict, delete, insert}
use ciwi.Base.Int.{ℤ}
use ciwi.Viewport.{Measurement, KeyedViewportState}
pub mod Keys
pub mod Laws

-- The range over the cache that looks for the least recently used entry.
unfoldable pub oldest_from : Dict Measurement → String × Measurement → String × Measurement
oldest_from [] oldest = oldest
oldest_from (candidate ∷ rest) oldest =
    oldest_from rest (if ltb candidate.1.last_used oldest.1.last_used then candidate else oldest)

-- The removal of the least recently used entry, with its index. The cache is never empty there.
unfoldable pub evict : Dict Measurement → Dict Measurement × Option ℤ
evict [] = ([], none)
evict (first ∷ rest) =
    let oldest = oldest_from rest first in (delete oldest.0 (first ∷ rest), some oldest.1.index)

unfoldable pub remember : String → ℤ → ℕ → ℕ → KeyedViewportState → KeyedViewportState × Option ℤ
remember key index size limit s =
    let now = (s.clock + 1) % 2 ^ 64 in
    let written =
      insert key (record { size = size; last_used = now; index = index }) s.measurements in
    let kept = if leb (length written) limit then (written, none) else evict written in
    (record s { clock = now; measurements = kept.0 }, kept.1)

-- Some entry has the key.
abbrev pub holds_key : String → Dict Measurement → Bool
holds_key key entries = any (λ entry. entry.0 == key) entries

-- No key stands in the cache twice.
abbrev pub UniqueKeys : Dict Measurement → Type 0
UniqueKeys [] = Unit
UniqueKeys (entry ∷ rest) = (holds_key entry.0 rest ≡ false) × UniqueKeys rest

-- No key twice, no use in the future, no more entries than the limit.
abbrev pub IsCache : ℕ → KeyedViewportState → Type 0
IsCache limit s =
    UniqueKeys s.measurements
    × All (λ entry. entry.1.last_used ≤ s.clock) s.measurements
    × (length s.measurements ≤ limit)

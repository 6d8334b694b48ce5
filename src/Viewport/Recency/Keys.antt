-- ===== src/Viewport/Recency/Keys.antt =====
-- Writing to and deleting from a cache whose keys stand in it once.
use ciwi.Base.{
  ℕ, suc, ◌≤◌, ◌<◌, String, ◌≡◌, refl, ◌∙◌, inl, inr, true, false, [], ◌∷◌, arith, ◌==◌, eq_iff,
  length, any, All, Bool-cases, if-cases,
}
use ciwi.Base.Dict.{Dict, delete, insert}
use ciwi.Viewport.{Measurement}
use ciwi.Viewport.Recency.{holds_key, UniqueKeys}

pub length-insert :
    (key : String) (measured : Measurement) (entries : Dict Measurement)
    → length (insert key measured entries) ≤ suc (length entries)
unfolding insert
length-insert key measured [] = omega arith
length-insert key measured (entry ∷ rest) = ground (arith, length-insert key measured rest)

pub length-delete :
    (key : String) (entries : Dict Measurement) → length (delete key entries) ≤ length entries
unfolding delete
length-delete key [] = omega arith
length-delete key (entry ∷ rest) = ground (arith, length-delete key rest)

pub length-delete-held :
    (key : String) (entries : Dict Measurement)
    → holds_key key entries ≡ true
    → length (delete key entries) < length entries
unfolding delete any
length-delete-held key [] h = absurd (ground arith)
length-delete-held key (entry ∷ rest) h = elim (Bool-cases (entry.0 == key)) [
  | inl here ↦ ground (arith, length-delete key rest)
  | inr later ↦ ground (arith, length-delete-held key rest (ground arith))
]

pub holds_key-insert :
    (key : String) (measured : Measurement) (entries : Dict Measurement) (read : String)
    → read == key ≡ false
    → holds_key read (insert key measured entries) ≡ holds_key read entries
unfolding insert any
holds_key-insert key measured [] read h = ground (arith, eq_iff read key, eq_iff key read)
holds_key-insert key measured (entry ∷ rest) read h = ground (
  arith,
  holds_key-insert key measured rest read h,
  eq_iff read key,
  eq_iff key read,
  eq_iff entry.0 key,
  eq_iff entry.0 read,
)

pub UniqueKeys-insert :
    (key : String) (measured : Measurement) (entries : Dict Measurement)
    → UniqueKeys entries
    → UniqueKeys (insert key measured entries)
unfolding insert any
UniqueKeys-insert key measured [] unique = (refl, tt)
UniqueKeys-insert key measured (entry ∷ rest) unique =
    if-cases UniqueKeys (entry.0 == key) _ _
      (λ same. (rw (← ((eq_iff entry.0 key).0 same)) unique.0, unique.1))
      (λ other. (
        holds_key-insert key measured rest entry.0 other ∙ unique.0,
        UniqueKeys-insert key measured rest unique.1,
      ))

pub All-delete :
    (P : String × Measurement → Type 0) (key : String) (entries : Dict Measurement)
    → All P entries
    → All P (delete key entries)
unfolding delete
All-delete P key [] h = h
All-delete P key (entry ∷ rest) h =
    if-cases (All P) (entry.0 == key) _ _ (λ here. All-delete P key rest h.1)
      (λ other. (h.0, All-delete P key rest h.1))

pub holds_key-delete :
    (key read : String) (entries : Dict Measurement)
    → holds_key read entries ≡ false
    → holds_key read (delete key entries) ≡ false
unfolding delete any
holds_key-delete key read [] h = h
holds_key-delete key read (entry ∷ rest) h =
    ground (arith, holds_key-delete key read rest (ground arith))

pub UniqueKeys-delete :
    (key : String) (entries : Dict Measurement)
    → UniqueKeys entries
    → UniqueKeys (delete key entries)
unfolding delete
UniqueKeys-delete key [] unique = unique
UniqueKeys-delete key (entry ∷ rest) unique =
    if-cases UniqueKeys (entry.0 == key) _ _ (λ here. UniqueKeys-delete key rest unique.1)
      (λ other. (holds_key-delete key entry.0 rest unique.0, UniqueKeys-delete key rest unique.1))

pub All-insert :
    (P : String × Measurement → Type 0) (key : String) (measured : Measurement)
    (entries : Dict Measurement)
    → P (key, measured)
    → All P entries
    → All P (insert key measured entries)
unfolding insert
All-insert P key measured [] new h = (new, tt)
All-insert P key measured (entry ∷ rest) new h =
    if-cases (All P) (entry.0 == key) _ _ (λ here. (new, h.1))
      (λ other. (h.0, All-insert P key measured rest new h.1))

pub All-weaken :
    (a b : ℕ) (entries : Dict Measurement)
    → a ≤ b
    → All (λ entry. entry.1.last_used ≤ a) entries
    → All (λ entry. entry.1.last_used ≤ b) entries
All-weaken a b [] h old = tt
All-weaken a b (entry ∷ rest) h old = (omega (arith, old.0), All-weaken a b rest h old.1)

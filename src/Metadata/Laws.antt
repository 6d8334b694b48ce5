-- ===== src/Metadata/Laws.antt =====
-- Reads after writes of the metadata map.
use ciwi.Base.{
  String, Bool, true, false, ◌&&◌, Option, none, some, [], ◌==◌, ◌≡◌, refl, if◌then◌else◌, arith,
  Bool-cases, inl, inr, is_some,
}
use ciwi.Base.Dict.{insert, lookup-insert, value_or_empty}
use ciwi.Base.Text.{trim_space}
use ciwi.Metadata.{Metadata, value, flag, set, set_flag}

-- What a read of the map sees: a nil map reads as an empty one.
abbrev pub contents : Option Metadata → Metadata
contents none = []
contents (some m) = m

value_or_empty-insert :
    (m : Metadata) (k j v : String)
    → value_or_empty j (insert k v m) ≡ (if k == j then v else value_or_empty j m)
unfolding value_or_empty
value_or_empty-insert m k j v = ground (arith, lookup-insert k j v m)

value-insert :
    (m : Metadata) (k j v : String)
    → value (insert k v m) j ≡ (if k == j then trim_space v else value m j)
unfolding value
value-insert m k j v = ground (arith, value_or_empty-insert m k j v)

trimmed_flags : (trim_space "1" ≡ "1") × (trim_space "" ≡ "")
unfolding trim_space
trimmed_flags = (refl, refl)

-- After a flag of a map that is not nil is set, it reads as set, and every other flag reads as
-- before. On a nil map every flag reads as before.
pub flag-set_flag :
    (m : Option Metadata) (k j : String) (b : Bool)
    → flag (contents (set_flag m k b)) j ≡ (if is_some m && k == j then b else flag (contents m) j)
unfolding flag set_flag set
flag-set_flag none k j true = refl
flag-set_flag none k j false = refl
flag-set_flag (some m) k j true = elim (Bool-cases (k == j)) [
  | inl same ↦ rw (value-insert, same, trimmed_flags.0)
  | inr other ↦ rw (value-insert, other)
]
flag-set_flag (some m) k j false = elim (Bool-cases (k == j)) [
  | inl same ↦ rw (value-insert, same, trimmed_flags.1)
  | inr other ↦ rw (value-insert, other)
]

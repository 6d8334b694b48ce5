-- ===== src/Blocked/Flags.antt =====
-- Dropping a flag of a queued job takes one block away.
use ciwi.Base.{
  ◌<◌, String, ◌≡◌, refl, ap, ◌∙◌, inl, inr, true, not, ◌&&◌, some, [], ◌∷◌, arith, ◌==◌,
  if◌then◌else◌, Bool-cases,
}
use ciwi.Base.Dict.{Dict, delete, lookup-delete, value_or_empty}
use ciwi.Base.Text.{trim_space}
use ciwi.Blocked.{World, merge_job_metadata}
use ciwi.Blocked.Measure.{blocks, Moved}
use ciwi.Blocked.Progress.{OnSuccess, OnSuccess-map, merge_job_metadata-Moved, Lowers}
use ciwi.Blocked.Reconcile.{is_queued_job, chain_patch, needs_patch}
use ciwi.Jobs.{JobExecution}
use ciwi.Metadata.{Metadata, value, flag, key_chain_blocked, key_needs_blocked}
use ciwi.Store.Table.{find_job}
use ciwi.Store.Merge.{patch_map, patch_entry, with_metadata}

trimmed_nothing : trim_space "" ≡ ""
unfolding trim_space
trimmed_nothing = refl

value_or_empty-delete :
    (k j : String) (m : Metadata)
    → value_or_empty j (delete k m) ≡ (if k == j then "" else value_or_empty j m)
unfolding value_or_empty
value_or_empty-delete k j m = ground (arith, lookup-delete k j m)

value-delete :
    (k j : String) (m : Metadata) → value (delete k m) j ≡ (if k == j then "" else value m j)
unfolding value
value-delete k j m = ground (arith, value_or_empty-delete k j m, trimmed_nothing)

flag-delete : (k j : String) (m : Metadata) → flag (delete k m) j ≡ (not (k == j) && flag m j)
unfolding flag
flag-delete k j m = elim (Bool-cases (k == j)) [
  | inl same ↦ rw (value-delete k j m, same) refl
  | inr other ↦ rw (value-delete k j m, other) refl
]

patched :
    (m : Metadata)
    → (patch_map chain_patch m ≡ delete key_chain_blocked m)
      × (patch_map needs_patch m ≡ delete key_needs_blocked m)
unfolding patch_map patch_entry trim_space
patched m = (refl, refl)

-- A job whose flag is dropped.
flag-patched :
    (k : String) (row : JobExecution) (patch : Dict String)
    → patch_map patch row.metadata ≡ delete k row.metadata
    → (j : String)
    → flag (with_metadata (patch_map patch row.metadata) row).metadata j
      ≡ (not (k == j) && flag row.metadata j)
flag-patched k row patch e j = ap (λ m. flag m j) e ∙ flag-delete k j row.metadata

pub chain_blocks :
    (row : JobExecution)
    → is_queued_job row ≡ true
    → flag row.metadata key_chain_blocked ≡ true
    → blocks (with_metadata (patch_map chain_patch row.metadata) row) < blocks row
unfolding blocks
chain_blocks row waits blocked =
    let left = flag-patched key_chain_blocked row chain_patch (patched row.metadata).0 in
    ground (arith, left key_chain_blocked, left key_needs_blocked)

pub needs_blocks :
    (row : JobExecution)
    → is_queued_job row ≡ true
    → flag row.metadata key_needs_blocked ≡ true
    → blocks (with_metadata (patch_map needs_patch row.metadata) row) < blocks row
unfolding blocks
needs_blocks row waits blocked =
    let left = flag-patched key_needs_blocked row needs_patch (patched row.metadata).1 in
    ground (arith, left key_chain_blocked, left key_needs_blocked)

-- A job of which one flag is dropped.
pub release-Lowers :
    (key : String) (w : World) (row : JobExecution)
    → find_job row.id w.jobs ≡ some row
    → blocks (with_metadata (patch_map ((key, "") ∷ []) row.metadata) row) < blocks row
    → OnSuccess (λ w'. Lowers w.jobs w'.jobs) (merge_job_metadata row.id ((key, "") ∷ []) w)
release-Lowers key w row found fewer =
    OnSuccess-map
      (λ w'. Moved w.jobs row (with_metadata (patch_map ((key, "") ∷ []) row.metadata) row) w'.jobs)
      (λ w'. Lowers w.jobs w'.jobs) (merge_job_metadata row.id ((key, "") ∷ []) w)
      (merge_job_metadata-Moved row.id key "" [] w row found)
      (λ w' moved. (omega (arith, moved.0, fewer), moved.1))

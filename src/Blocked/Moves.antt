-- ===== src/Blocked/Moves.antt =====
-- Each way in which a job is moved lowers the number of blocks.
use ciwi.Base.{
  ℕ, ◌<◌, String, ◌≡◌, refl, sym, subst, ◌∙◌, inl, inr, true, Option, none, some, List, [], ◌∷◌,
  arith,
}
use ciwi.Base.Result.{Result, ok, err}
use ciwi.Blocked.{
  World, merge_job_metadata, Verdict, unchanged, waiting, changed, as_verdict, all_done, not_done,
  broken, Upstream,
}
use ciwi.Blocked.Measure.{blocks, Moved, update_by_id-Moved}
use ciwi.Blocked.Flags.{chain_blocks, needs_blocks, release-Lowers}
use ciwi.Blocked.Progress.{OnSuccess, OnSuccess-map, Lowers, fail_blocked_job-Lowers}
use ciwi.Blocked.Reconcile.{
  is_queued_job, chain_patch, cancel_chained, release, after_needs, write_binding, after_binding,
}
use ciwi.Jobs.{JobExecution}
use ciwi.Metadata.{flag, key_chain_blocked, key_chain_cancelled, key_needs_blocked}
use ciwi.Store.Table.{StoreError, find_job}
use ciwi.Store.Merge.{patch_map, with_metadata, with_dependencies, always}
use ciwi.Store.Merge.Laws.{set_dependencies-outcome}
use ciwi.Store.Create.{normalize_dependency_artifact_job_ids}

-- What a look at a job makes of the table.
abbrev pub Progress : World → Result StoreError Verdict × World → Type 0
Progress w r = elim r.0 [
  | err e ↦ Unit
  | ok changed ↦ Lowers w.jobs r.1.jobs
  | ok waiting ↦ r.1 ≡ w
  | ok unchanged ↦ r.1 ≡ w
]

as_verdict-Progress :
    (w : World) (r : Result StoreError (Unit {0}) × World)
    → OnSuccess (λ w'. Lowers w.jobs w'.jobs) r
    → Progress w (as_verdict changed r)
as_verdict-Progress w (ok done, w') h = h
as_verdict-Progress w (err e, w') h = tt

some_block :
    (row : JobExecution) (key : String)
    → blocks (with_metadata (patch_map ((key, "") ∷ []) row.metadata) row) < blocks row
    → 0 < blocks row
some_block row key h = omega (arith, h)

pub after_needs-Progress :
    (now : ℕ) (candidate : JobExecution) (w : World) (u : Upstream)
    → find_job candidate.id w.jobs ≡ some candidate
    → is_queued_job candidate ≡ true
    → flag candidate.metadata key_needs_blocked ≡ true
    → Progress w (after_needs now candidate w u)
unfolding release
after_needs-Progress now candidate w all_done found waits blocked =
    as_verdict-Progress w _
      (release-Lowers key_needs_blocked w candidate found (needs_blocks candidate waits blocked))
after_needs-Progress now candidate w not_done found waits blocked = refl
after_needs-Progress now candidate w (broken need) found waits blocked = as_verdict-Progress w _ (
    fail_blocked_job-Lowers now candidate "server-needs" "needs" _ key_needs_blocked "" [] w found
      waits (some_block candidate key_needs_blocked (needs_blocks candidate waits blocked)))

pub cancel_chained-Progress :
    (now : ℕ) (candidate : JobExecution) (why : String) (w : World)
    → find_job candidate.id w.jobs ≡ some candidate
    → is_queued_job candidate ≡ true
    → flag candidate.metadata key_chain_blocked ≡ true
    → Progress w (cancel_chained now candidate why w)
unfolding cancel_chained
cancel_chained-Progress now candidate why w found waits blocked = as_verdict-Progress w _ (
    fail_blocked_job-Lowers now candidate "server-chain" "chain" _ key_chain_cancelled "1"
      ((key_chain_blocked, "") ∷ []) w found waits
      (some_block candidate key_chain_blocked (chain_blocks candidate waits blocked)))

-- The write of the ids fails and leaves the table, or changes only the job's ids.
pub Bound : World → JobExecution → Option String × World → Type 0
Bound w job (some e, w') = w' ≡ w
Bound w job (none, w') = (ids : List String) × Moved w.jobs job (with_dependencies ids job) w'.jobs

pub write_binding-Bound :
    (job : JobExecution) (w : World) (ids : Result String (List String))
    → find_job job.id w.jobs ≡ some job
    → Bound w job (write_binding job w ids)
unfolding Bound write_binding
write_binding-Bound job w (err e) found = refl
write_binding-Bound job w (ok []) found = (job.dependency_artifact_job_ids, (refl, refl, found))
write_binding-Bound job w (ok (id ∷ ids)) found =
    elim (set_dependencies-outcome job.id (id ∷ ids) w.jobs job found) [
      | inl refused ↦ rw (refused, write_binding, Bound) refl
      | inr written ↦
          rw (written, write_binding, Bound)
            (
              normalize_dependency_artifact_job_ids (id ∷ ids),
              update_by_id-Moved job.id
                  (with_dependencies (normalize_dependency_artifact_job_ids (id ∷ ids))) always
                  w.jobs job (λ r. refl) found refl,
            )
    ]

same_blocks :
    (ids : List String) (job : JobExecution) → blocks (with_dependencies ids job) ≡ blocks job
unfolding blocks
same_blocks ids job = refl

pub after_binding-Progress :
    (now : ℕ) (candidate : JobExecution) (w : World) (bound : Option String × World)
    → is_queued_job candidate ≡ true
    → flag candidate.metadata key_chain_blocked ≡ true
    → find_job candidate.id w.jobs ≡ some candidate
    → Bound w candidate bound
    → Progress w (after_binding now candidate bound)
unfolding Bound release
after_binding-Progress now candidate w (some e, w') waits blocked found same =
    subst (λ v. Progress w (cancel_chained now candidate e v)) (sym same)
      (cancel_chained-Progress now candidate e w found waits blocked)
after_binding-Progress now candidate w (none, w') waits blocked found (ids, moved) =
    let bound = with_dependencies ids candidate in
    let one_less =
      release-Lowers key_chain_blocked w' bound moved.2 (chain_blocks bound waits blocked) in
    as_verdict-Progress w (merge_job_metadata candidate.id chain_patch w') (
      OnSuccess-map (λ w''. Lowers w'.jobs w''.jobs) (λ w''. Lowers w.jobs w''.jobs)
        (merge_job_metadata candidate.id chain_patch w') one_less
        (λ w'' less. (omega (arith, less.0, moved.0, same_blocks ids candidate), less.1 ∙ moved.1)))

pub release-chain-Progress :
    (w : World) (candidate : JobExecution)
    → find_job candidate.id w.jobs ≡ some candidate
    → is_queued_job candidate ≡ true
    → flag candidate.metadata key_chain_blocked ≡ true
    → Progress w (release candidate.id chain_patch w)
unfolding release
release-chain-Progress w candidate found waits blocked =
    as_verdict-Progress w (merge_job_metadata candidate.id chain_patch w)
      (release-Lowers key_chain_blocked w candidate found (chain_blocks candidate waits blocked))

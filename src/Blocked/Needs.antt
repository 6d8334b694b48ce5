-- ===== src/Blocked/Needs.antt =====
-- When the needs of a job are met, against what its needs mean.
use ciwi.Base.{
  String, ◌≡◌, refl, ◌∙◌, Bool, true, false, not, ◌&&◌, ◌||◌, List, [], ◌∷◌, arith, any, all,
}
use ciwi.Blocked.{Upstream, all_done, not_done, broken, is_needed, note_needed, needed}
use ciwi.Chains.{ChainStatus}
use ciwi.Chains.Laws.{is_done, is_good}
use ciwi.Jobs.{JobExecution}

abbrev pub is_all_done : Upstream → Bool
is_all_done all_done = true
is_all_done not_done = false
is_all_done (broken need) = false

-- What the loop makes of what it has seen.
abbrev tally : JobExecution → String → List JobExecution → ChainStatus → ChainStatus
tally candidate need jobs seen = record {
  terminated = seen.terminated && all (λ j. not (is_needed candidate need j) || is_done j) jobs;
  all_succeeded =
      seen.all_succeeded && all (λ j. not (is_needed candidate need j) || is_good j) jobs;
  exists = seen.exists || any (is_needed candidate need) jobs;
}

abbrev note_one : JobExecution → String → JobExecution → ChainStatus → ChainStatus
note_one candidate need possible seen = note_needed candidate need (possible ∷ []) seen

note_needed-tally :
    (candidate : JobExecution) (need : String) (jobs : List JobExecution) (seen : ChainStatus)
    → note_needed candidate need jobs seen ≡ tally candidate need jobs seen
unfolding note_needed any all
note_needed-tally candidate need [] seen = ground arith
note_needed-tally candidate need (possible ∷ jobs) seen =
    note_needed-tally candidate need jobs (note_one candidate need possible seen) ∙ ground arith

-- A need is met when the run has such a job and all of them succeeded.
abbrev pub is_met : List JobExecution → JobExecution → String → Bool
is_met jobs candidate need =
    any (is_needed candidate need) jobs
    && all (λ j. not (is_needed candidate need j) || is_good j) jobs

good_done :
    (candidate : JobExecution) (need : String) (jobs : List JobExecution)
    → all (λ j. not (is_needed candidate need j) || is_good j) jobs ≡ true
    → all (λ j. not (is_needed candidate need j) || is_done j) jobs ≡ true
unfolding all
good_done candidate need [] h = refl
good_done candidate need (job ∷ jobs) h = ground (arith, good_done candidate need jobs)

-- The needs of a job are all done exactly when each of them names a job of the run, and all the jobs
-- that it names have succeeded.
pub needed-is_all_done :
    (jobs : List JobExecution) (candidate : JobExecution) (needs : List String)
    → is_all_done (needed jobs candidate needs) ≡ all (is_met jobs candidate) needs
unfolding needed all
needed-is_all_done jobs candidate [] = refl
needed-is_all_done jobs candidate (need ∷ needs) =
    rw
      (note_needed-tally candidate need jobs
        (record { terminated = true; all_succeeded = true; exists = false }))
      (ground (arith, needed-is_all_done jobs candidate needs, good_done candidate need jobs))

abbrev pub is_not_done : Upstream → Bool
is_not_done all_done = false
is_not_done not_done = true
is_not_done (broken need) = false

-- A need is open when the run has no such job, or one of them has not ended.
abbrev pub is_open : List JobExecution → JobExecution → String → Bool
is_open jobs candidate need =
    not (any (is_needed candidate need) jobs)
    || not (all (λ j. not (is_needed candidate need j) || is_done j) jobs)

-- The needs up to some open one are met.
unfoldable pub waits_at_open : List JobExecution → JobExecution → List String → Bool
waits_at_open jobs candidate [] = false
waits_at_open jobs candidate (need ∷ needs) =
    is_open jobs candidate need
    || (is_met jobs candidate need && waits_at_open jobs candidate needs)

pub needed-is_not_done :
    (jobs : List JobExecution) (candidate : JobExecution) (needs : List String)
    → is_not_done (needed jobs candidate needs) ≡ waits_at_open jobs candidate needs
unfolding needed waits_at_open
needed-is_not_done jobs candidate [] = refl
needed-is_not_done jobs candidate (need ∷ needs) =
    rw
      (note_needed-tally candidate need jobs
        (record { terminated = true; all_succeeded = true; exists = false }))
      (ground (arith, needed-is_not_done jobs candidate needs, good_done candidate need jobs))

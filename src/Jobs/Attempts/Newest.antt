-- ===== src/Jobs/Attempts/Newest.antt =====
-- No attempt of a job is newer than the one that is left.
use ciwi.Base.{not, String, Bool, true, false, ◌&&◌, ◌≡◌, Option, some, List, ◌==◌, arith, any, ◌⊎◌}
use ciwi.Base.Dict.{Dict, lookup}
use ciwi.Base.Text.{trim_space}
use ciwi.Base.TextOrder.{text_lt_irrefl, text_lt_trans}
use ciwi.Jobs.{JobExecution}
use ciwi.Jobs.Attempts.{job_execution_attempt_root_id, supersedes}

-- The map has an attempt of the job's root that the job does not supersede.
abbrev Covers : Dict JobExecution → JobExecution → Type 0
Covers latest job =
    (c : JobExecution) × (lookup (job_execution_attempt_root_id job) latest ≡ some c)
    × (supersedes job c ≡ false)

abbrev Among : List JobExecution → JobExecution → Type 0
Among jobs c = (p : JobExecution → Bool) → p c ≡ true → any p jobs ≡ true

-- Each entry of the map is one of the jobs, under its root.
abbrev Sourced : List JobExecution → Dict JobExecution → Type 0
Sourced jobs latest =
    (r : String) (c : JobExecution)
    → lookup r latest ≡ some c
    → (job_execution_attempt_root_id c ≡ r) × Among jobs c

-- A read finds what it found before, or the job just noted, which supersedes that.
abbrev Noted : Dict JobExecution → JobExecution → String → Option JobExecution → Type 0
Noted latest job r read =
    (read ≡ lookup r latest)
    ⊎ ((read ≡ some job)
        × (job_execution_attempt_root_id job ≡ r)
        × ((c : JobExecution) → lookup r latest ≡ some c → supersedes job c ≡ true))

pub supersedes_irrefl : (a : JobExecution) → supersedes a a ≡ false
unfolding supersedes
supersedes_irrefl a = ground (arith, text_lt_irrefl (trim_space a.id))

pub supersedes_trans :
    (a b c : JobExecution) → supersedes a b ≡ true → supersedes b c ≡ true → supersedes a c ≡ true
unfolding supersedes
supersedes_trans a b c h k =
    ground (arith, h, k, text_lt_trans (trim_space c.id) (trim_space b.id) (trim_space a.id))

-- An attempt of the same job that the job does not supersede.
abbrev pub is_newest_of : JobExecution → JobExecution → Bool
is_newest_of j a =
    job_execution_attempt_root_id a == job_execution_attempt_root_id j && not (supersedes j a)

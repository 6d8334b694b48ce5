-- ===== src/Store/Invariant.antt =====
-- What holds of every row of the table, whichever operations ran: the status is one of five words,
-- and the instants of a job are in order. The clock of the server does not run backwards: `now`
-- is at least every instant that was written before.
pub mod Moves
pub mod Reach
pub mod Rows
pub mod Steps
use ciwi.Base.{ℕ, ◌≤◌, ◌<◌, String, Bool, true, false, ◌≡◌, ◌==◌, if◌then◌else◌, All}
use ciwi.Jobs.{JobExecution}
use ciwi.Status.{queued, leased, running, succeeded, failed}
use ciwi.Store.Table.{Table}

pub data Phase : Type 0 where
  waiting held active ended unknown : Phase

-- The phase that a status text stands for.
abbrev pub phase : String → Phase
phase status =
    if status == queued
    then waiting
    else if status == leased
    then held
    else if status == running
    then active
    else if status == succeeded
    then ended
    else if status == failed
    then ended
    else unknown

-- The instants and the lease that belong to each phase.
abbrev pub FitsPhase : Phase → ℕ → JobExecution → Type 0
FitsPhase waiting now row =
    (row.started_utc ≡ 0)
    × (row.finished_utc ≡ 0)
    × (row.created_utc ≤ now)
    × (row.leased_by_agent_id ≡ "")
    × (row.leased_utc ≡ 0)
FitsPhase held now row =
    (row.started_utc ≡ 0)
    × (row.finished_utc ≡ 0)
    × (row.created_utc ≤ now)
    × ((row.leased_by_agent_id == "") ≡ false)
    × (row.leased_utc ≤ now)
FitsPhase active now row =
    (0 < row.started_utc)
    × (row.created_utc ≤ row.started_utc)
    × (row.started_utc ≤ now)
    × (row.finished_utc ≡ 0)
FitsPhase ended now row =
    (0 < row.started_utc)
    × (row.created_utc ≤ row.started_utc)
    × (row.started_utc ≤ row.finished_utc)
    × (row.finished_utc ≤ now)
FitsPhase unknown now row = ⊥

abbrev pub IsSound : ℕ → JobExecution → Type 0
IsSound now row = FitsPhase (phase row.status) now row

abbrev pub IsSoundTable : ℕ → Table → Type 0
IsSoundTable now table = All (IsSound now) table

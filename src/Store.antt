-- ===== src/Store.antt =====
-- internal/store: the table `job_executions` and the operations that change it. The table is the
-- list of its rows, in no order that matters; `id` is its primary key. A SQL statement is the
-- function of the rows that its text says. Failures of SQLite itself are not modelled, except for
-- the retries of a busy database, which repeat one statement; JSON columns hold what was written into them. The clock of an
-- operation is its argument `now`.
pub mod Table
pub mod Create
pub mod Lease
pub mod Update
pub mod Race
pub mod Invariant
pub mod Requeue
pub mod Delete
pub mod Maintain
pub mod Merge

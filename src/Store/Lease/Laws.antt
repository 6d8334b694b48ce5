-- ===== src/Store/Lease/Laws.antt =====
-- What a lease does to the table, and when one is given. The jobs that were listed may be out of
-- date, as they are where other writers came in after the query.
use ciwi.Base.{
  ℕ, String, Bool, true, false, ◌&&◌, Option, none, some, List, [], ◌∷◌, ◌≡◌, ◌≢◌, inl, inr, refl,
  ap, subst, sym, ◌∙◌, eq_refl, ◌==◌, eqb, any, arith, eq_iff, Bool-cases, Option-cases, is_some,
}
use ciwi.Base.Dict.{Dict}
use ciwi.Jobs.{JobExecution}
use ciwi.Requirements.Semver.{Semver}
use ciwi.Status.{queued, leased}
use ciwi.Store.Table.{Table, find_job, update_by_id, rows_affected}
use ciwi.Store.Table.Laws.{find_job-id, find_job-update_by_id}
use ciwi.Store.Lease.{can_lease, is_queued_row, lease_row, lease_from}

-- The row that the table has for a job that was listed is queued still.
abbrev pub is_queued_still : Table → JobExecution → Bool
is_queued_still table job = eqb (rows_affected job.id is_queued_row table) 1

same_row : (x a : JobExecution) → some x ≡ some a → x ≡ a
same_row x a h = cc h

absurd_bool : false ≡ true → ⊥
absurd_bool e = cc e

two_words : queued ≡ leased → ⊥
two_words h = absurd_bool (ap (λ s. s == leased) h)

-- Either the statement for a job changes no row, or it changes the one that is stored and queued.
data Affected (id : String) (table : Table) : Type 0 where
  untouched : rows_affected id is_queued_row table ≡ 0 → Affected id table
  touched :
      (row : JobExecution)
      → find_job id table ≡ some row
      → is_queued_row row ≡ true
      → rows_affected id is_queued_row table ≡ 1
      → Affected id table

Affected-cases : (id : String) (table : Table) → Affected id table
unfolding rows_affected
Affected-cases id table = elim (Option-cases (find_job id table)) [
  | inl absent ↦ untouched (rw (absent, rows_affected) refl)
  | inr (row, found) ↦ elim (Bool-cases (is_queued_row row)) [
    | inl t ↦ touched row found t (rw (found, t, rows_affected) refl)
    | inr f ↦ untouched (rw (found, f, rows_affected) refl)
  ]
]

lease_row-id :
    (now : ℕ) (agent_id : String) (row : JobExecution) → (lease_row now agent_id row).id ≡ row.id
lease_row-id now agent_id row = refl

find_job-leased :
    (now : ℕ) (agent_id id : String) (table : Table) (row : JobExecution)
    → find_job id table ≡ some row
    → is_queued_row row ≡ true
    → find_job id (update_by_id id is_queued_row (lease_row now agent_id) table)
      ≡ some (lease_row now agent_id row)
find_job-leased now agent_id id table row found q =
    find_job-update_by_id id is_queued_row (lease_row now agent_id) (lease_row-id now agent_id) id
      table
    ∙ rw (eq_refl id, found, q) refl

module _ (semver : Semver) (parse_time : String → Option ℕ) where
  -- The outcome of a lease: none, and the table is as it was; or the row of a queued job that may
  -- go to the agent, which now carries the lease, and every other row is as it was.
  pub record Granted (now : ℕ) (agent_id : String) (agent_caps : Dict String)
      (jobs : List JobExecution) (table final : Table) (job : JobExecution) : Type 0 where
    pub id : String
    pub before : JobExecution
    pub names : before.id ≡ id
    pub was_stored : find_job id table ≡ some before
    pub was_queued : before.status ≡ queued
    pub is_leased : job ≡ lease_row now agent_id before
    pub is_stored : find_job id final ≡ some job
    pub frame : (j : String) → (id == j) ≡ false → find_job j final ≡ find_job j table
    pub was_eligible :
        any (λ listed. listed.id == id && can_lease semver parse_time now agent_caps listed) jobs
        ≡ true

  abbrev pub Outcome :
      ℕ → String → Dict String → List JobExecution → Table → Option JobExecution × Table → Type 0
  Outcome now agent_id agent_caps jobs table (none, final) = final ≡ table
  Outcome now agent_id agent_caps jobs table (some job, final) =
      Granted now agent_id agent_caps jobs table final job

  -- A job is leased exactly where one of those listed is queued still, and neither blocked nor held
  -- back nor asking for more than the agent has.
  pub lease_from-is_some :
      (now : ℕ) (agent_id : String) (agent_caps : Dict String) (jobs : List JobExecution)
      (table : Table)
      → is_some (lease_from semver parse_time now agent_id agent_caps jobs table).0
        ≡ any
            (λ job. can_lease semver parse_time now agent_caps job && is_queued_still table job)
            jobs
  unfolding lease_from any
  lease_from-is_some now agent_id agent_caps [] table = refl
  lease_from-is_some now agent_id agent_caps (job ∷ jobs) table =
      let ih = lease_from-is_some now agent_id agent_caps jobs table in
      elim (Bool-cases (can_lease semver parse_time now agent_caps job)) [
        | inr blocked ↦ rw blocked ih
        | inl free ↦ elim (Affected-cases job.id table) [
          | untouched z ↦ rw (free, z) ih
          | touched row found q one ↦
              rw (free, one, find_job-leased now agent_id job.id table row found q) refl
        ]
      ]

  Outcome-widen :
      (now : ℕ) (agent_id : String) (agent_caps : Dict String) (job : JobExecution)
      (jobs : List JobExecution) (table : Table) (r : Option JobExecution × Table)
      → Outcome now agent_id agent_caps jobs table r
      → Outcome now agent_id agent_caps (job ∷ jobs) table r
  unfolding any
  Outcome-widen now agent_id agent_caps job jobs table (none, final) o = o
  Outcome-widen now agent_id agent_caps job jobs table (some j, final) o = record {
    id = o.id;
    before = o.before;
    names = o.names;
    was_stored = o.was_stored;
    was_queued = o.was_queued;
    is_leased = o.is_leased;
    is_stored = o.is_stored;
    frame = o.frame;
    was_eligible = rw (o.was_eligible) (ground arith);
  }

  granted :
      (now : ℕ) (agent_id : String) (agent_caps : Dict String) (job : JobExecution)
      (jobs : List JobExecution) (table : Table) (row : JobExecution)
      → can_lease semver parse_time now agent_caps job ≡ true
      → find_job job.id table ≡ some row
      → row.id ≡ job.id
      → is_queued_row row ≡ true
      → Granted now agent_id agent_caps
          (job ∷ jobs)
          table
          (update_by_id job.id is_queued_row (lease_row now agent_id) table)
          (lease_row now agent_id row)
  unfolding any
  granted now agent_id agent_caps job jobs table row free found same q = record {
    id = job.id;
    before = row;
    names = same;
    was_stored = found;
    was_queued = (eq_iff row.status queued).0 q;
    is_leased = refl;
    is_stored = find_job-leased now agent_id job.id table row found q;
    frame = λ j other.
        find_job-update_by_id job.id is_queued_row (lease_row now agent_id)
          (lease_row-id now agent_id) j table
        ∙ rw other refl;
    was_eligible = rw (eq_refl job.id, free) refl;
  }

  Granted-stored :
      (now : ℕ) (agent_id : String) (agent_caps : Dict String) (jobs : List JobExecution)
      (table final : Table) (job : JobExecution)
      → Granted now agent_id agent_caps jobs table final job
      → (find_job job.id final ≡ some job) × (job.status ≡ leased)
  Granted-stored now agent_id agent_caps jobs table final job g = (
    ap (λ id. find_job id final) (job_id ∙ g.names) ∙ g.is_stored,
    ap (λ r. r.status) g.is_leased,
  )
    where
      job_id : job.id ≡ g.before.id
      job_id = ap (λ r. r.id) g.is_leased

  Granted-before :
      (now : ℕ) (agent_id : String) (agent_caps : Dict String) (jobs : List JobExecution)
      (table final : Table) (job : JobExecution)
      → (g : Granted now agent_id agent_caps jobs table final job)
      → find_job job.id table ≡ some g.before
  Granted-before now agent_id agent_caps jobs table final job g =
      ap (λ id. find_job id table) (ap (λ r. r.id) g.is_leased ∙ g.names) ∙ g.was_stored

  -- From whatever list it works, a lease either gives no job and leaves the table as it was, or
  -- gives the row of a job that was stored and queued and that a listed job of its id lets the
  -- agent run; then this row carries the lease, and every other job is as it was.
  pub lease_from-Outcome :
      (now : ℕ) (agent_id : String) (agent_caps : Dict String) (jobs : List JobExecution)
      (table : Table)
      → Outcome now agent_id agent_caps jobs table
          (lease_from semver parse_time now agent_id agent_caps jobs table)
  unfolding lease_from
  lease_from-Outcome now agent_id agent_caps [] table = refl
  lease_from-Outcome now agent_id agent_caps (job ∷ jobs) table =
      let rest =
        Outcome-widen now agent_id agent_caps job jobs table _
          (lease_from-Outcome now agent_id agent_caps jobs table) in
      elim (Bool-cases (can_lease semver parse_time now agent_caps job)) [
        | inr blocked ↦ rw blocked rest
        | inl free ↦ elim (Affected-cases job.id table) [
          | untouched z ↦ rw (free, z) rest
          | touched row found q one ↦
              rw (free, one, find_job-leased now agent_id job.id table row found q)
                (granted now agent_id agent_caps job jobs table row free found
                  (find_job-id job.id table found) q)
        ]
      ]

  -- Of two leases, one after the other with no other writer between them, from lists of any age,
  -- the second gets another job.
  pub lease_from-exclusive :
      (now now' : ℕ) (agent_id agent_id' : String) (agent_caps agent_caps' : Dict String)
      (jobs jobs' : List JobExecution) (table : Table) (first second : JobExecution)
      → (lease_from semver parse_time now agent_id agent_caps jobs table).0 ≡ some first
      → (lease_from semver parse_time now' agent_id' agent_caps' jobs'
          (lease_from semver parse_time now agent_id agent_caps jobs table).1).0
        ≡ some second
      → first.id ≢ second.id
  lease_from-exclusive now now' agent_id agent_id' agent_caps agent_caps' jobs jobs' table first
        second e e' same =
      clash (lease_from semver parse_time now agent_id agent_caps jobs table).1
        (of_first (lease_from semver parse_time now agent_id agent_caps jobs table) e
          (lease_from-Outcome now agent_id agent_caps jobs table))
        (lease_from semver parse_time now' agent_id' agent_caps' jobs'
          (lease_from semver parse_time now agent_id agent_caps jobs table).1)
        e'
        (lease_from-Outcome now' agent_id' agent_caps' jobs'
          (lease_from semver parse_time now agent_id agent_caps jobs table).1)
    where
      of_first :
          (r : Option JobExecution × Table)
          → r.0 ≡ some first
          → Outcome now agent_id agent_caps jobs table r
          → (find_job first.id r.1 ≡ some first) × (first.status ≡ leased)
      of_first (none, final) e o = cc e
      of_first (some job, final) e o =
          subst (λ r. (find_job r.id final ≡ some r) × (r.status ≡ leased)) (same_row job first e)
            (Granted-stored now agent_id agent_caps jobs table final job o)

      clash :
          (middle : Table)
          → (find_job first.id middle ≡ some first) × (first.status ≡ leased)
          → (r : Option JobExecution × Table) → r.0 ≡ some second
          → Outcome now' agent_id' agent_caps' jobs' middle r
          → ⊥
      clash middle (f, l) (none, final) e o = cc e
      clash middle (f, l) (some job, final) e o = two_words (
          sym o.was_queued
          ∙ ap (λ r. r.status)
              (same_row o.before first (
                sym (Granted-before now' agent_id' agent_caps' jobs' middle final job o)
                ∙ ap (λ id. find_job id middle) (ap (λ r. r.id) (same_row job second e) ∙ sym same)
                ∙ f))
          ∙ l)

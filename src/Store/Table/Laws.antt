-- ===== src/Store/Table/Laws.antt =====
-- Reads after a conditional update by the primary key.
use ciwi.Base.{
  String, Bool, true, false, Option, none, some, [], ◌∷◌, ◌≡◌, refl, ◌==◌, if◌then◌else◌, arith,
  eq_iff, find_where, find_where-All, All, Bool-cases, inl, inr,
}
use ciwi.Jobs.{JobExecution}
use ciwi.Store.Table.{Table, has_id, find_job, update_by_id}

-- What a conditional statement makes of the row that it names.
abbrev pub changed :
    (JobExecution → Bool)
    → (JobExecution → JobExecution)
    → Option JobExecution
    → Option JobExecution
changed test change none = none
changed test change (some row) = some (if test row then change row else row)

-- The change keeps the primary key.
abbrev pub KeepsId : (JobExecution → JobExecution) → Type 0
KeepsId change = (row : JobExecution) → (change row).id ≡ row.id

module _ (id : String) (test : JobExecution → Bool) (change : JobExecution → JobExecution)
    (keeps : KeepsId change) where
  pub find_job-update_by_id :
      (j : String) (table : Table)
      → find_job j (update_by_id id test change table)
        ≡ (if id == j then changed test change (find_job j table) else find_job j table)
  unfolding find_job update_by_id find_where
  find_job-update_by_id j [] = ground arith
  find_job-update_by_id j (row ∷ rows) = ground (
    arith,
    keeps row,
    eq_iff row.id id,
    eq_iff id j,
    eq_iff row.id j,
    find_job-update_by_id j rows,
  )

every : (table : Table) → All {0, 0} (λ row. Unit) table
every [] = tt
every (row ∷ rows) = (tt, every rows)

pub find_job-id :
    (id : String) (table : Table) {row : JobExecution} → find_job id table ≡ some row → row.id ≡ id
unfolding find_job
find_job-id id table {row} e =
    (eq_iff row.id id).0 ((find_where-All (λ r. Unit {0}) (has_id id) table (every table) e).1)

-- A result comes with the table that the operation leaves: all its rows satisfy `P`.
abbrev pub Leaves {ℓ κ} : {A : Type ℓ} → (JobExecution → Type κ) → A × Table → Type κ
Leaves P r = All P r.1

module _ {κ} (P : JobExecution → Type κ) where
  pub All-find_job :
      (id : String) (table : Table) {row : JobExecution}
      → All P table
      → find_job id table ≡ some row
      → P row
  unfolding find_job
  All-find_job id table h e = (find_where-All P (has_id id) table h e).0

  pub All-update_by_id :
      (id : String) (test : JobExecution → Bool) (change : JobExecution → JobExecution)
      (table : Table)
      → ((row : JobExecution)
          → find_job id table ≡ some row
          → test row ≡ true
          → P row
          → P (change row))
      → All P table
      → All P (update_by_id id test change table)
  unfolding find_job update_by_id find_where
  All-update_by_id id test change [] keep h = tt
  All-update_by_id id test change (row ∷ rows) keep (hr, h) = elim (Bool-cases (row.id == id)) [
    | inl same ↦ rw same (branch (test row) (keep row (rw same)) hr, h)
    | inr other ↦ rw other (hr, All-update_by_id id test change rows (λ r e. keep r (rw other e)) h)
  ]
    where
      branch :
          (b : Bool)
          → (b ≡ true → P row → P (change row))
          → P row
          → P (if b then change row else row)
      branch true k q = k refl q
      branch false k q = q

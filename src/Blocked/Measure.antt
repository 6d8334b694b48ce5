-- ===== src/Blocked/Measure.antt =====
-- How many blocks stand in the table: the flags of its queued jobs. A change of one row by its id
-- changes the count by what it changes in that row.
use ciwi.Base.{
  ℕ, ◌+◌, ◌*◌, ◌≤◌, String, ◌≡◌, refl, sym, ap, subst, ◌∙◌, inl, inr, Bool, true, some, List, [],
  ◌∷◌, map, arith, ◌==◌, eq_refl, if◌then◌else◌, length, find_where, Bool-cases,
}
use ciwi.Blocked.{◌then◌}
use ciwi.Blocked.Reconcile.{is_queued_job}
use ciwi.Jobs.{JobExecution}
use ciwi.Metadata.{flag, key_chain_blocked, key_needs_blocked}
use ciwi.Store.Table.{Table, find_job, update_by_id}
use ciwi.Store.Table.Laws.{KeepsId, find_job-update_by_id, find_job-id}

abbrev pub one_if : Bool → ℕ
one_if b = if b then 1 else 0

-- The blocks of one row.
unfoldable pub blocks : JobExecution → ℕ
blocks row =
    if is_queued_job row
    then one_if (flag row.metadata key_chain_blocked) + one_if (flag row.metadata key_needs_blocked)
    else 0

unfoldable pub blocks_of : Table → ℕ
blocks_of [] = 0
blocks_of (row ∷ rows) = blocks row + blocks_of rows

abbrev pub ids_of : Table → List String
ids_of table = map (λ (row : JobExecution). row.id) table

pub blocks_of-bound : (table : Table) → blocks_of table ≤ 2 * length table
unfolding blocks_of blocks
blocks_of-bound [] = omega arith
blocks_of-bound (row ∷ rows) = ground (arith, blocks_of-bound rows)

-- The row was changed to another, and nothing else.
abbrev pub Moved : Table → JobExecution → JobExecution → Table → Type 0
Moved before row row' after =
    (blocks_of after + blocks row ≡ blocks_of before + blocks row')
    × (ids_of after ≡ ids_of before)
    × (find_job row.id after ≡ some row')

blocks_of-update_by_id :
    (id : String) (change : JobExecution → JobExecution) (test : JobExecution → Bool)
    (table : Table) (row : JobExecution)
    → find_job id table ≡ some row
    → test row ≡ true
    → blocks_of (update_by_id id test change table) + blocks row
      ≡ blocks_of table + blocks (change row)
unfolding find_job find_where update_by_id blocks_of
blocks_of-update_by_id id change test [] row found t = absurd (cc found)
blocks_of-update_by_id id change test (first ∷ rows) row found t =
    elim (Bool-cases (first.id == id)) [
      | inl here ↦
          let own : some first ≡ some row = rw here at found in
          let same : first ≡ row = cc own in
          rw here (
            rw (ap test same ∙ t) (omega (arith, ap blocks same, ap (λ r. blocks (change r)) same)))
      | inr later ↦
          rw later
            (omega (arith, blocks_of-update_by_id id change test rows row (rw later at found) t))
    ]

ids_of-update_by_id :
    (id : String) (change : JobExecution → JobExecution) (test : JobExecution → Bool)
    → KeepsId change
    → (table : Table) → ids_of (update_by_id id test change table) ≡ ids_of table
unfolding update_by_id
ids_of-update_by_id id change test keeps [] = refl
ids_of-update_by_id id change test keeps (row ∷ rows) =
    ground (arith, keeps row, ids_of-update_by_id id change test keeps rows)

pub update_by_id-Moved :
    (id : String) (change : JobExecution → JobExecution) (test : JobExecution → Bool)
    (table : Table) (row : JobExecution)
    → KeepsId change
    → find_job id table ≡ some row
    → test row ≡ true
    → Moved table row (change row) (update_by_id id test change table)
update_by_id-Moved id change test table row keeps found t = (
  blocks_of-update_by_id id change test table row found t,
  ids_of-update_by_id id change test keeps table,
  subst (λ j. find_job j (update_by_id id test change table) ≡ some (change row))
      (sym (find_job-id id table found))
      (find_job-update_by_id id test change keeps id table ∙ rw (eq_refl id, found, t) refl),
)

pub Moved-then :
    (a b c : Table) (x y z : JobExecution)
    → Moved a x y b
    → Moved b y z c
    → y.id ≡ x.id
    → Moved a x z c
Moved-then a b c x y z first second same =
    (omega (arith, first.0, second.0), second.1 ∙ first.1, rw (← same) second.2)

-- ===== src/Blocked/Listing.antt =====
-- Where ids are unique, a listed job is the row that its id finds.
use ciwi.Base.{
  String, ◌≡◌, refl, Bool, false, some, List, [], ◌∷◌, arith, eq_iff, eq_refl, find_where, All,
  if-cases,
}
use ciwi.Base.Sort.{insert_by, sort_by}
use ciwi.Base.Unique.{contains, NoRepeat}
use ciwi.Blocked.Measure.{ids_of}
use ciwi.Jobs.{JobExecution}
use ciwi.Store.Table.{Table, find_job, list_job_executions}

-- A list of jobs that stand in the table as they are listed.
abbrev pub Stands : Table → List JobExecution → Type 0
Stands table jobs = All (λ job. find_job job.id table ≡ some job) jobs

-- The primary key: no two rows have one id.
abbrev pub UniqueIds : Table → Type 0
UniqueIds table = NoRepeat (ids_of table)

uncontained :
    (id : String) (table : Table) (rows : List JobExecution)
    → contains id (ids_of rows) ≡ false
    → Stands table rows
    → (first : JobExecution) → first.id ≡ id
    → Stands (first ∷ table) rows
unfolding contains find_job find_where
uncontained id table [] h stands first same = tt
uncontained id table (row ∷ rows) h (stands, rest) first same = (
  ground (arith, eq_iff first.id row.id, eq_iff row.id id, same),
  uncontained id table rows (ground arith) rest first same,
)

found_self :
    (row : JobExecution) (rows : List JobExecution) → find_job row.id (row ∷ rows) ≡ some row
unfolding find_job find_where
found_self row rows = rw (eq_refl row.id) refl

table-Stands : (table : Table) → UniqueIds table → Stands table table
table-Stands [] unique = tt
table-Stands (row ∷ rows) (apart, unique) =
    (found_self row rows, uncontained row.id rows rows apart (table-Stands rows unique) row refl)

All-insert_by :
    (P : JobExecution → Type 0) (lt : JobExecution → JobExecution → Bool) (x : JobExecution)
    (ys : List JobExecution)
    → P x
    → All P ys
    → All P (insert_by lt x ys)
unfolding insert_by
All-insert_by P lt x [] h hs = (h, tt)
All-insert_by P lt x (y ∷ ys) h hs =
    if-cases (All P) (lt y x) _ _ (λ less. (hs.0, All-insert_by P lt x ys h hs.1))
      (λ other. (h, hs))

All-sort_by :
    (P : JobExecution → Type 0) (lt : JobExecution → JobExecution → Bool) (xs : List JobExecution)
    → All P xs
    → All P (sort_by lt xs)
unfolding sort_by
All-sort_by P lt [] h = tt
All-sort_by P lt (x ∷ xs) h = All-insert_by P lt x (sort_by lt xs) h.0 (All-sort_by P lt xs h.1)

pub list-Stands : (table : Table) → UniqueIds table → Stands table (list_job_executions table)
unfolding list_job_executions
list-Stands table unique =
    All-sort_by (λ job. find_job job.id table ≡ some job) _ table (table-Stands table unique)

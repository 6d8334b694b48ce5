-- ===== src/Jobs/Attempts/Laws.antt =====
-- One attempt of each logical job is left.
use ciwi.Base.{
  ◌≡◌, refl, sym, subst, ◌∙◌, inl, inr, true, some, List, [], ◌∷◌, arith, eq_iff, All, Option-cases,
  if-cases,
}
use ciwi.Base.Dict.{Dict, lookup}
use ciwi.Jobs.{JobExecution}
use ciwi.Jobs.Attempts.{
  job_execution_attempt_root_id, latest_by_root, is_selected, keep_selected,
  latest_job_execution_attempts,
}

keep_selected-All :
    (latest : Dict JobExecution) (jobs : List JobExecution)
    → All (λ j. is_selected latest j ≡ true) (keep_selected latest jobs)
unfolding keep_selected
keep_selected-All latest [] = tt
keep_selected-All latest (job ∷ jobs) =
    if-cases (All (λ j. is_selected latest j ≡ true)) (is_selected latest job)
      (job ∷ keep_selected latest jobs) (keep_selected latest jobs)
      (λ chosen. (chosen, keep_selected-All latest jobs)) (λ other. keep_selected-All latest jobs)

-- The two jobs are attempts of one job only where they are one.
abbrev pub AreApart : JobExecution → JobExecution → Type 0
AreApart a b = job_execution_attempt_root_id a ≡ job_execution_attempt_root_id b → a.id ≡ b.id

selected-AreApart :
    (latest : Dict JobExecution) (a b : JobExecution)
    → is_selected latest a ≡ true
    → is_selected latest b ≡ true
    → AreApart a b
unfolding is_selected
selected-AreApart latest a b ha hb same =
    elim (Option-cases (lookup (job_execution_attempt_root_id a) latest)) [
      | inl missing ↦ absurd (ground (arith, rw (missing, is_selected) at ha))
      | inr found ↦
          let chosen = found.0 in
          let of_b = subst (λ root. lookup root latest ≡ some chosen) same found.1 in
          sym ((eq_iff chosen.id a.id).0 (rw (found.1, is_selected) at ha))
          ∙ (eq_iff chosen.id b.id).0 (rw (of_b, is_selected) at hb)
    ]

each-AreApart :
    (latest : Dict JobExecution) (a : JobExecution) (jobs : List JobExecution)
    → is_selected latest a ≡ true
    → All (λ j. is_selected latest j ≡ true) jobs
    → All (AreApart a) jobs
each-AreApart latest a [] ha hs = tt
each-AreApart latest a (b ∷ jobs) ha (hb, hs) =
    (selected-AreApart latest a b ha hb, each-AreApart latest a jobs ha hs)

All-AreApart :
    (latest : Dict JobExecution) (rest jobs : List JobExecution)
    → All (λ j. is_selected latest j ≡ true) rest
    → All (λ j. is_selected latest j ≡ true) jobs
    → All (λ a. All (AreApart a) jobs) rest
All-AreApart latest [] jobs hr hs = tt
All-AreApart latest (a ∷ rest) jobs (ha, hr) hs =
    (each-AreApart latest a jobs ha hs, All-AreApart latest rest jobs hr hs)

-- Of the latest attempts, two with one root have one id.
pub latest_job_execution_attempts-AreApart :
    (jobs : List JobExecution)
    → All
        (λ a. All (AreApart a) (latest_job_execution_attempts jobs))
        (latest_job_execution_attempts jobs)
unfolding latest_job_execution_attempts
latest_job_execution_attempts-AreApart [] = tt
latest_job_execution_attempts-AreApart (job ∷ []) = (((λ h. refl), tt), tt)
latest_job_execution_attempts-AreApart (job ∷ other ∷ jobs) =
    let latest = latest_by_root [] (job ∷ other ∷ jobs) in
    let chosen = keep_selected-All latest (job ∷ other ∷ jobs) in
    All-AreApart latest _ _ chosen chosen

-- ===== src/Store/Create/Laws.antt =====
-- What is stored of the ids of dependencies.
use ciwi.Base.{String, not, ◌&&◌, List, [], ◌≡◌, ◌==◌, All, ◌∙◌, arith}
use ciwi.Base.Unique.{
  contains, mentions, NoRepeat, IsTrimmed, trim_unique, trim_unique_idem, contains-unique_from,
  unique_from-NoRepeat, unique_from-IsTrimmed,
}
use ciwi.Store.Create.{normalize_dependency_artifact_job_ids}

-- The stored ids are trimmed and not empty, none of them stands there twice, they are those of the
-- request that are not blank, and storing them again changes nothing.
pub normalize_dependency_artifact_job_ids_lem :
    (ids : List String)
    → NoRepeat (normalize_dependency_artifact_job_ids ids)
      × All IsTrimmed (normalize_dependency_artifact_job_ids ids)
      × ((id : String)
          → contains id (normalize_dependency_artifact_job_ids ids)
            ≡ (mentions id ids && not (id == "")))
      × (normalize_dependency_artifact_job_ids (normalize_dependency_artifact_job_ids ids)
          ≡ normalize_dependency_artifact_job_ids ids)
unfolding normalize_dependency_artifact_job_ids trim_unique
normalize_dependency_artifact_job_ids_lem ids = (
  unique_from-NoRepeat [] ids,
  unique_from-IsTrimmed [] ids,
  λ id. contains-unique_from id [] ids ∙ ground arith,
  trim_unique_idem ids,
)

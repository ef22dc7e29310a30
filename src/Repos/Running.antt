-- ===== src/Repos/Running.antt =====
-- The worker's handler: handleIngestionJob of api/internal/api/repos.go, and the start of
-- ingestRepository, up to the files that the walk gives. The rest of ingestRepository, which the modules Ingest
-- and Guardrails are about, is any action here.
pub mod Recorded
use know_your_repo.Prelude.{ℕ, Bool, true, false, ◌&&◌, List, [], Option, some, none, if◌then◌else◌}
use know_your_repo.Text.{Text, codes}
use know_your_repo.Store.{Db, IngestionJob, Repository, JobStatus, Stage}
use know_your_repo.Store.Jobs.{update_job_status, update_job_stage, find_job}
use know_your_repo.Store.Repositories.{get_repository_by_id, insert_repository, touch_repo_check}
use know_your_repo.Ingest.{FileInfo}
use know_your_repo.Repos.World.{
  World, Result, ok, err, M, ◌>>=◌, ◌>>◌, return, fail, db_call, query, exec, logged,
}

-- What the code learns from GitHub, git, the disk and the sidecar: whether the size is within the
-- limit, whether the clone is on disk, whether clearing, cloning and syncing succeed, the head, the embedding model and
-- the walk.
pub record Machine : Type 0 where
  pub size_ok : Bool
  pub clone_on_disk : Bool
  pub remove_ok : Bool
  pub clone_ok : Bool
  pub sync_ok : Bool
  pub head_commit_sha : Option Text
  pub embed_model : Option Text
  pub walk : Option (List FileInfo)

-- `if err := …; err != nil { return err }`
abbrev pub require : Bool → M (Unit {0})
require true = return tt
require false = fail

-- A row is inserted only if there is none.
unfoldable pub record_if_new : Text → Text → Option Repository → M (Unit {0})
record_if_new id url (some repo) = return tt
record_if_new id url none =
    db_call (λ db. elim (insert_repository id url db) [
      | none ↦ none
      | some inserted ↦ some (tt, inserted)
    ])

unfoldable pub clone_anew : Machine → Text → Text → M (Unit {0})
unfolding record_if_new
clone_anew m id url = do
  require m.remove_ok
  require m.clone_ok
  existing ← query (get_repository_by_id id)
  record_if_new id url existing

unfoldable pub clone_or_sync : Machine → Text → Text → M (Unit {0})
unfolding clone_anew
clone_or_sync m id url = if m.clone_on_disk then require m.sync_ok else clone_anew m id url

unfoldable pub record_head : Text → Option Text → M (Unit {0})
record_head id none = return tt
record_head id (some sha) = logged (exec (touch_repo_check id sha))

abbrev pub model_or_empty : Option Text → Text
model_or_empty none = []
model_or_empty (some model) = model

abbrev pub walked : Option (List FileInfo) → M (List FileInfo)
walked none = fail
walked (some files) = return files

-- From the load of the job on.
unfoldable pub prepare_job : Machine → Text → Option IngestionJob → M (Text × List FileInfo)
unfolding clone_or_sync record_head
prepare_job m id none = fail
prepare_job m id (some job) = do
  logged (exec (update_job_status id JobStatus.processing none))
  logged (exec (update_job_stage id Stage.cloning))
  require m.size_ok
  clone_or_sync m id job.repo_url
  record_head id m.head_commit_sha
  logged (exec (update_job_stage id Stage.walking))
  files ← walked m.walk
  return (model_or_empty m.embed_model, files)

unfoldable pub prepare : Machine → Text → M (Text × List FileInfo)
unfolding prepare_job
prepare m id = do job ← query (find_job id); prepare_job m id job

-- ingestRepository, with the rest of it given: what is done of the embedding model and the files.
unfoldable pub ingest_repository :
    (Text → List FileInfo → M (Unit {0})) → Machine → Text → M (Unit {0})
unfolding prepare
ingest_repository rest m id = do prepared ← prepare m id; rest prepared.0 prepared.1

abbrev pub interrupted_message : Text
interrupted_message = codes "interrupted by a server restart - it will resume automatically"

-- The status that is recorded, and its message; `message` is that of userFacingJobError.
abbrev pub verdict : Bool → Text → Result (Unit {0}) → JobStatus × Option Text
verdict interrupted message (ok a) = (JobStatus.completed, none)
verdict interrupted message err =
    if interrupted
    then (JobStatus.pending, some interrupted_message)
    else (JobStatus.failed, some message)

-- handleIngestionJob: the outcome is given on, and recorded if that succeeds.
unfoldable pub handle_ingestion_job :
    (World → Result (Unit {0}) × World)
    → Bool
    → Bool
    → Text
    → Text
    → World
    → Result (Unit {0}) × World
handle_ingestion_job ingest shutting_down cancelled message id w =
    let r = ingest w in
    let v = verdict (shutting_down && cancelled) message r.0 in
    (r.0, (logged (exec (update_job_status id v.0 v.1)) r.1).1)

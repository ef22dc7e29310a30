-- ===== src/Repos/Queueing.antt =====
-- CreateRepo, checkAndEnqueueSync, SyncRepo, SyncIfStale and ResumeUnfinishedJobs. Each is an action that
-- runs with no other request between its calls; the source takes no lock or transaction that would keep
-- others out, and the child module Requests has the same calls one by one, in any order among requests.
pub mod Requests
pub mod Tracked
pub mod Stuck
pub mod Resumed
use know_your_repo.Prelude.{
  ℕ, ◌-◌, Bool, true, false, ◌&&◌, not, List, [], ◌∷◌, Option, some, none, ltb, if◌then◌else◌,
}
use know_your_repo.Text.{Text, codes, same}
use know_your_repo.Store.{Db, IngestionJob, Repository, JobStatus}
use know_your_repo.Store.Jobs.{
  insert_job, update_job_status, find_job, get_active_job_by_url, list_unfinished_job_ids,
}
use know_your_repo.Store.Repositories.{
  get_repository_by_id, get_repository_by_url, touch_repo_check, get_last_commit_sha,
  get_last_checked_at,
}
use know_your_repo.Store.Files.{count_files_pending_embedding}
use know_your_repo.Repos.World.{
  World, Result, ok, err, M, ◌>>=◌, ◌>>◌, return, fail, db_call, query, exec, logged, attempt,
  enqueue_job, spawn, Background, check_staleness,
}
use know_your_repo.Store

-- The responses of POST /repos and POST /repos/:id/sync, by status code.
pub data Response : Type 0 where
  bad_request : Response
  internal_error : Response
  not_found : Response
  -- 202 with "ingestion already in progress", and with "ingestion queued"
  in_progress : Text → Response
  ingestion_queued : Text → Response
  -- 200 with "repository already ingested"
  cached : Text → Response
  -- 503
  queue_full : Response
  -- 200 "up_to_date" and 202 "sync_queued"
  up_to_date : Response
  sync_queued : Text → Response

-- `c.JSON(500, …)` on an error.
abbrev pub or_internal_error : M Response → World → Response × World
or_internal_error m w = let r = m w in (elim r.0 [ ok a ↦ a | err ↦ internal_error ], r.1)

abbrev create_full_message : Text
create_full_message = codes "ingestion queue is full, try again shortly"

give_up : Text → M Response
give_up id = do
  logged (exec (update_job_status id JobStatus.failed (some create_full_message)))
  return queue_full

-- From InsertJob on.
queue_ingestion : Text → Text → M Response
unfolding give_up
queue_ingestion id url = do
  exec (insert_job id url)
  queued ← enqueue_job id
  if queued then return (ingestion_queued id) else give_up id

is_completed : Option IngestionJob → Bool
is_completed none = false
is_completed (some j) = elim j.status [ JobStatus.completed ↦ true | _ ↦ false ]

serve_cached : Repository → M Response
serve_cached repo = do spawn (check_staleness repo.id repo.repo_url); return (cached repo.id)

-- The repository that the URL already has.
serve_existing : Text → Repository → M Response
unfolding is_completed serve_cached queue_ingestion
serve_existing url repo = do
  job ← query (find_job repo.id)
  if is_completed job then serve_cached repo else queue_ingestion repo.id url

create_or_serve : Text → Text → Option Repository → M Response
unfolding serve_existing queue_ingestion
create_or_serve fresh_id url (some repo) = serve_existing url repo
create_or_serve fresh_id url none = queue_ingestion fresh_id url

unless_active : Text → Text → Option IngestionJob → M Response
unfolding create_or_serve
unless_active fresh_id url (some job) = return (in_progress job.id)
unless_active fresh_id url none = do
  existing ← query (get_repository_by_url url)
  create_or_serve fresh_id url existing

create_for_url : Text → Text → M Response
unfolding unless_active
create_for_url fresh_id url = do
  active ← query (get_active_job_by_url url)
  unless_active fresh_id url active

-- CreateRepo, with no other request between its calls: `normalized` is what NormalizeGitHubURL makes of the URL of the body, and `fresh_id`
-- what generateRepoDirName gives.
pub create_repo : Text → Option Text → World → Response × World
unfolding create_for_url
create_repo fresh_id normalized w = elim normalized [
  | none ↦ (bad_request, w)
  | some url ↦ or_internal_error (create_for_url fresh_id url) w
]

-- What checkAndEnqueueSync learns from outside: whether the clone is on disk, what the sidecar says
-- of the embedding model and its quota, and the head of the remote.
pub record Outside : Type 0 where
  pub clone_exists : Bool
  pub embed_info : Option (Text × Bool)
  pub remote_sha : Option Text

-- hasPendingEmbedding
has_pending_embedding : Option (Text × Bool) → Text → M Bool
has_pending_embedding none id = return false
has_pending_embedding (some (model, exhausted)) id = if exhausted then return false else do
  pending ← attempt (query (count_files_pending_embedding id model))
  return (elim pending [ err ↦ false | ok n ↦ ltb 0 n ])

-- The remote has not moved, and nothing is missing.
note_unchanged : Text → Text → M Bool
note_unchanged id sha = do logged (exec (touch_repo_check id sha)); return false

queue_sync : Text → Text → M Bool
queue_sync id url = do
  exec (insert_job id url)
  queued ← enqueue_job id
  if queued then return true else fail

-- From the comparison of the heads on; `none` is the error of a missing repository.
sync_if_moved : Outside → Text → Text → Bool → Text → Option Text → M Bool
unfolding note_unchanged queue_sync
sync_if_moved outside id url pending_embedding remote_sha none = fail
sync_if_moved outside id url pending_embedding remote_sha (some local_sha) =
    if same remote_sha local_sha && (outside.clone_exists && not pending_embedding)
    then note_unchanged id local_sha
    else queue_sync id url

compare_heads : Outside → Text → Text → Option Text → Bool → M Bool
unfolding sync_if_moved
compare_heads outside id url none pending_embedding = fail
compare_heads outside id url (some remote_sha) pending_embedding = do
  found ← query (get_last_commit_sha id)
  sync_if_moved outside id url pending_embedding remote_sha found

sync_unless_active : Outside → Text → Text → Option IngestionJob → M Bool
unfolding has_pending_embedding compare_heads
sync_unless_active outside id url (some job) = return true
sync_unless_active outside id url none = do
  pending_embedding ← has_pending_embedding outside.embed_info id
  compare_heads outside id url outside.remote_sha pending_embedding

-- checkAndEnqueueSync, with no other request between its calls.
pub check_and_enqueue_sync : Outside → Text → Text → M Bool
unfolding sync_unless_active
check_and_enqueue_sync outside id url = do
  active ← query (get_active_job_by_url url)
  sync_unless_active outside id url active

-- SyncRepo
pub sync_repo : Outside → Text → World → Response × World
unfolding check_and_enqueue_sync
sync_repo outside id = or_internal_error (do
  found ← query (get_repository_by_id id)
  elim found [
    | none ↦ return not_found
    | some repo ↦ do
      enqueued ← check_and_enqueue_sync outside repo.id repo.repo_url
      return (if enqueued then sync_queued repo.id else up_to_date)
  ])

-- SyncIfStale
pub sync_if_stale : Outside → Text → M (Unit {0})
unfolding check_and_enqueue_sync
sync_if_stale outside id = do
  found ← query (get_repository_by_id id)
  elim found [
    | none ↦ fail
    | some repo ↦ do _ ← check_and_enqueue_sync outside repo.id repo.repo_url; return tt
  ]

abbrev cooldown_seconds : ℕ
cooldown_seconds = 600

sync_quietly : Outside → Text → Text → M (Unit {0})
unfolding check_and_enqueue_sync
sync_quietly outside id url = do _ ← check_and_enqueue_sync outside id url; return tt

is_recent : ℕ → Option ℕ → Bool
is_recent now none = false
is_recent now (some t) = ltb (now - t) cooldown_seconds

-- checkStalenessInBackground, at the time `now`.
pub check_staleness_in_background : ℕ → Outside → Text → Text → M (Unit {0})
unfolding sync_quietly is_recent
check_staleness_in_background now outside id url = logged (do
  checked ← query (get_last_checked_at id)
  if is_recent now checked then return tt else sync_quietly outside id url)

abbrev resume_full_message : Text
resume_full_message = codes "ingestion queue was full after a server restart - please resubmit"

mark_unresumable : Text → M (Unit {0})
mark_unresumable id =
    logged (exec (update_job_status id JobStatus.failed (some resume_full_message)))

resume_each : List Text → M (Unit {0})
unfolding mark_unresumable
resume_each [] = return tt
resume_each (id ∷ ids) = do
  queued ← enqueue_job id
  if queued then return tt else mark_unresumable id
  resume_each ids

-- ResumeUnfinishedJobs
pub resume_unfinished_jobs : M (Unit {0})
unfolding resume_each
resume_unfinished_jobs = logged (do ids ← query list_unfinished_job_ids; resume_each ids)

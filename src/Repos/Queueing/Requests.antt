-- ===== src/Repos/Queueing/Requests.antt =====
-- The requests of api/internal/api/repos.go as goroutines: CreateRepo and checkAndEnqueueSync, one call of
-- the database or of the queue at a time. Nothing but these calls is shared, and no transaction or lock
-- spans two of them, so that other requests may move between any two.
pub mod Alone
pub mod Settled
pub mod OneJob
pub mod Race
use know_your_repo.Prelude.{
  ℕ, zero, suc, Bool, true, false, ◌&&◌, not, List, [], ◌∷◌, Option, some, none, if◌then◌else◌,
}
use know_your_repo.Text.{Text, same}
use know_your_repo.Store.{IngestionJob, Repository, JobStatus}
use know_your_repo.Store.Jobs.{insert_job, update_job_status, find_job, get_active_job_by_url}
use know_your_repo.Store.Repositories.{get_repository_by_url, touch_repo_check, get_last_commit_sha}
use know_your_repo.Repos.World.{
  World, Result, ok, err, M, ◌>>=◌, ◌>>◌, return, fail, query, exec, logged, enqueue_job, spawn,
  check_staleness,
}
use know_your_repo.Repos.Queueing.{
  Response, internal_error, in_progress, ingestion_queued, queue_full, cached, Outside,
  has_pending_embedding, is_completed, create_full_message,
}

-- How far a request has come: the call that it makes next, with what it needs for it.
pub data Request : Type 0 where
  -- CreateRepo: GetActiveJobByURL, GetRepositoryByURL, FindJob, InsertJob, Enqueue, UpdateJobStatus
  create_checking : Text → Text → Request
  create_locating : Text → Text → Request
  create_deciding : Repository → Text → Request
  create_inserting : Text → Text → Request
  create_enqueuing : Text → Request
  create_failing : Text → Request
  answered : Response → Request
  -- checkAndEnqueueSync: GetActiveJobByURL, hasPendingEmbedding, GetLastCommitSHA after the answer of the
  -- remote, InsertJob, Enqueue
  sync_checking : Outside → Text → Text → Request
  sync_asking : Outside → Text → Text → Request
  sync_comparing : Outside → Text → Text → Bool → Text → Request
  sync_inserting : Text → Text → Request
  sync_enqueuing : Text → Request
  synced : Result Bool → Request

-- What a call leads to; an error ends the request.
abbrev pub settle : Request → Result Request × World → Request × World
settle failed (ok r, w) = (r, w)
settle failed (err, w) = (failed, w)

abbrev pub after_check : Text → Text → Option IngestionJob → Request
after_check fresh_id url (some job) = answered (in_progress job.id)
after_check fresh_id url none = create_locating fresh_id url

abbrev pub after_location : Text → Text → Option Repository → Request
after_location fresh_id url (some repo) = create_deciding repo url
after_location fresh_id url none = create_inserting fresh_id url

-- A completed job is answered, and its staleness checked in the background.
unfoldable pub decide : Repository → Text → Bool → M Request
unfolding spawn
decide repo url true = do
  spawn (check_staleness repo.id repo.repo_url)
  return (answered (cached repo.id))
decide repo url false = return (create_inserting repo.id url)

abbrev pub after_sync_check : Outside → Text → Text → Option IngestionJob → Request
after_sync_check outside id url (some job) = synced (ok true)
after_sync_check outside id url none = sync_asking outside id url

-- RemoteHeadSHA may fail.
abbrev pub after_asking : Outside → Text → Text → Bool → Request
after_asking outside id url pending_embedding = elim outside.remote_sha [
  | none ↦ synced err
  | some remote_sha ↦ sync_comparing outside id url pending_embedding remote_sha
]

unfoldable pub compare : Outside → Text → Text → Bool → Text → Option Text → M Request
compare outside id url pending_embedding remote_sha none = fail
compare outside id url pending_embedding remote_sha (some local_sha) =
    if same remote_sha local_sha && (outside.clone_exists && not pending_embedding)
    then (do logged (exec (touch_repo_check id local_sha)); return (synced (ok false)))
    else return (sync_inserting id url)

-- The next call of a request.
unfoldable pub advance : Request → World → Request × World
unfolding decide compare is_completed has_pending_embedding
advance (create_checking fresh_id url) w =
    settle (answered internal_error)
      ((do active ← query (get_active_job_by_url url); return (after_check fresh_id url active)) w)
advance (create_locating fresh_id url) w = settle (answered internal_error) (
    (do existing ← query (get_repository_by_url url); return (after_location fresh_id url existing))
      w)
advance (create_deciding repo url) w =
    settle (answered internal_error)
      ((do job ← query (find_job repo.id); decide repo url (is_completed job)) w)
advance (create_inserting id url) w =
    settle (answered internal_error) ((do exec (insert_job id url); return (create_enqueuing id)) w)
advance (create_enqueuing id) w = settle (answered internal_error) (
    (do
      queued ← enqueue_job id
      return (if queued then answered (ingestion_queued id) else create_failing id))
      w)
advance (create_failing id) w = settle (answered internal_error) (
    (do
      logged (exec (update_job_status id JobStatus.failed (some create_full_message)))
      return (answered queue_full))
      w)
advance (answered r) w = (answered r, w)
advance (sync_checking outside id url) w = settle (synced err) (
    (do active ← query (get_active_job_by_url url); return (after_sync_check outside id url active))
      w)
advance (sync_asking outside id url) w = settle (synced err) (
    (do
      pending_embedding ← has_pending_embedding outside.embed_info id
      return (after_asking outside id url pending_embedding))
      w)
advance (sync_comparing outside id url pending_embedding remote_sha) w = settle (synced err) (
    (do
      found ← query (get_last_commit_sha id)
      compare outside id url pending_embedding remote_sha found)
      w)
advance (sync_inserting id url) w =
    settle (synced err) ((do exec (insert_job id url); return (sync_enqueuing id)) w)
advance (sync_enqueuing id) w =
    settle (synced err)
      ((do queued ← enqueue_job id; return (synced (if queued then ok true else err))) w)
advance (synced r) w = (synced r, w)

-- The requests under way, and the world that they share.
pub record System : Type 0 where
  pub requests : List Request
  pub world : World

-- The request at the place makes its next call.
unfoldable pub move : ℕ → List Request → World → List Request × World
unfolding advance
move i [] w = ([], w)
move zero (r ∷ rs) w = let (r', w') = advance r w in (r' ∷ rs, w')
move (suc i) (r ∷ rs) w = let (rs', w') = move i rs w in (r ∷ rs', w')

-- The calls in the order of a schedule, which says whose turn it is.
unfoldable pub run : List ℕ → System → System
unfolding move
run [] s = s
run (i ∷ schedule) s =
    let (rs, w) = move i s.requests s.world in run schedule (record { requests = rs; world = w })

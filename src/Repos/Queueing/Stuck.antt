-- ===== src/Repos/Queueing/Stuck.antt =====
-- What checkAndEnqueueSync leaves behind where the queue refuses the job.
use know_your_repo.Prelude.{
  ◌≡◌, refl, ap, ◌∙◌, Bool, true, false, Option, some, none, if◌then◌else◌, ltb,
}
use know_your_repo.Text.{Text, same}
use know_your_repo.Pool.{Pool, enqueue, refused, Enqueued}
use know_your_repo.Store.{Db, IngestionJob, pending}
use know_your_repo.Store.Jobs.{insert_job, get_active_job_by_url}
use know_your_repo.Store.Jobs.Laws.{active_inserted}
use know_your_repo.Store.Repositories.{get_last_commit_sha}
use know_your_repo.Store.Files.{count_files_pending_embedding}
use know_your_repo.Repos.World.{
  World, Result, ok, err, M, and_then, ◌>>=◌, ◌>>◌, return, fail, query, exec, enqueue_job,
  is_queued,
}
use know_your_repo.Repos.World.Rules.{query-run, exec-run}
use know_your_repo.Repos.Queueing.Tracked.{NoFaults}
use know_your_repo.Repos.Queueing.{
  Outside, create_repo, create_for_url, unless_active, in_progress, internal_error, Response,
  check_and_enqueue_sync, sync_unless_active, compare_heads, sync_if_moved, queue_sync,
  has_pending_embedding,
}

module _ (w : World) (calm : NoFaults w) where
  query-step : {A B : Type 0} (f : Db → A) (k : A → M B) → (query f >>= k) w ≡ k (f w.db) w
  query-step f k = ap (λ r. and_then r k) (query-run w f calm)

  exec-step : {B : Type 0} (f : Db → Db) (k : M B) → (exec f >> k) w ≡ k (record w { db = f w.db })
  exec-step f k = ap (λ r. and_then r (λ _. k)) (exec-run w f calm)

  pending-step :
      {B : Type 0} (info : Option (Text × Bool)) (id : Text) (k : Bool → M B)
      → (b : Bool) × ((has_pending_embedding info id >>= k) w ≡ k b w)
  unfolding has_pending_embedding
  pending-step none id k = (false, refl)
  pending-step (some (model, true)) id k = (false, refl)
  pending-step (some (model, false)) id k = (
    _,
    ap (λ (r : Result _ × World). k (elim r.0 [ err ↦ false | ok n ↦ ltb 0 n ]) r.1)
        (query-run w (count_files_pending_embedding id model) calm),
  )

-- A sync that the remote calls for, of a repository whose URL has no active job, when the queue is
-- full or closed.
pub record IsRefused (outside : Outside) (id url : Text) (w : World) : Type 0 where
  pub calm : NoFaults w
  pub idle : get_active_job_by_url url w.db ≡ none
  pub local_sha : Text
  pub known : get_last_commit_sha id w.db ≡ some local_sha
  pub remote_sha : Text
  pub answered : outside.remote_sha ≡ some remote_sha
  pub moved : same remote_sha local_sha ≡ false
  pub full : enqueue id w.pool ≡ (w.pool, refused)

module _ (outside : Outside) (id url : Text) (w : World) (r : IsRefused outside id url w) where
  abbrev left_behind : World
  left_behind = record w { db = insert_job id url w.db }

  queue_sync-refused : queue_sync id url w ≡ (err, left_behind)
  unfolding queue_sync enqueue_job is_queued
  queue_sync-refused =
      exec-step w r.calm (insert_job id url)
        (enqueue_job id >>= λ queued. if queued then return true else fail)
      ∙ ap
          (λ (p : Pool × Enqueued).
            (if is_queued p.1 then return true else fail) (record left_behind { pool = p.0 }))
          r.full

  check-refused : check_and_enqueue_sync outside id url w ≡ (err, left_behind)
  unfolding check_and_enqueue_sync sync_unless_active compare_heads sync_if_moved
  check-refused =
      query-step w r.calm (get_active_job_by_url url) (sync_unless_active outside id url)
      ∙ ap (λ a. sync_unless_active outside id url a w) r.idle
      ∙ (pending-step w r.calm outside.embed_info id
          (compare_heads outside id url outside.remote_sha)).1
      ∙ ap (λ h. compare_heads outside id url h pending w) r.answered
      ∙ query-step w r.calm (get_last_commit_sha id)
          (sync_if_moved outside id url pending r.remote_sha)
      ∙ ap (λ f. sync_if_moved outside id url pending r.remote_sha f w) r.known
      ∙ rw r.moved queue_sync-refused
    where
      pending : Bool
      pending =
          (pending-step w r.calm outside.embed_info id
            (compare_heads outside id url outside.remote_sha)).0

  -- The next request for the URL is told that the job is in progress.
  create-left_behind :
      (fresh_id : Text)
      → create_repo fresh_id (some url) left_behind ≡ (in_progress id, left_behind)
  unfolding create_repo create_for_url unless_active
  create-left_behind fresh_id =
      let (j, found, is, _) = active_inserted id url w.db r.idle in
      ap (λ (o : Result Response × World). (elim o.0 [ ok a ↦ a | err ↦ internal_error ], o.1))
        (query-step left_behind r.calm (get_active_job_by_url url) (unless_active fresh_id url)
          ∙ ap (λ a. unless_active fresh_id url a left_behind) found)
      ∙ ap (λ k. (in_progress k, left_behind)) is

  again-left_behind : check_and_enqueue_sync outside id url left_behind ≡ (ok true, left_behind)
  unfolding check_and_enqueue_sync sync_unless_active
  again-left_behind =
      let (j, found, is, _) = active_inserted id url w.db r.idle in
      query-step left_behind r.calm (get_active_job_by_url url) (sync_unless_active outside id url)
      ∙ ap (λ a. sync_unless_active outside id url a left_behind) found

  -- When the queue refuses the job of a sync, the sync is an error and the pool is unchanged, but
  -- the job stays pending in the database. From then on CreateRepo answers a request for the URL
  -- with 202 "already in progress", and another sync reports the job as queued; neither changes
  -- anything, so that the pool stays as it was before the refusal. Each of the three runs with no other request
  -- between its calls.
  pub sync_refused-stuck :
      (fresh_id : Text)
      → (w' : World) × (check_and_enqueue_sync outside id url w ≡ (err, w'))
        × (w'.pool ≡ w.pool)
        × ((j : IngestionJob) × (get_active_job_by_url url w'.db ≡ some j)
            × (j.id ≡ id)
            × (j.status ≡ pending))
        × (create_repo fresh_id (some url) w' ≡ (in_progress id, w'))
        × (check_and_enqueue_sync outside id url w' ≡ (ok true, w'))
  sync_refused-stuck fresh_id = (
    left_behind,
    check-refused,
    refl,
    active_inserted id url w.db r.idle,
    create-left_behind fresh_id,
    again-left_behind,
  )

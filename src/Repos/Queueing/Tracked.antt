-- ===== src/Repos/Queueing/Tracked.antt =====
-- CreateRepo leaves no job behind: a job that is active in the database is in the pool.
use mathlib.Core.Path.{subst}
use know_your_repo.Prelude.{
  ◌≡◌, refl, sym, Bool, true, false, [], Option, some, none, All-mono, inl, inr, if◌then◌else◌,
}
use know_your_repo.Text.{Text}
use know_your_repo.Pool.{enqueue, queued, Enqueued, refused, panic}
use know_your_repo.Pool.Members.{InPool, InPool-enqueue, InPool-enqueued}
use know_your_repo.Store.{Db, IngestionJob, Repository}
use know_your_repo.Store.Jobs.{insert_job, find_job, get_active_job_by_url}
use know_your_repo.Store.Jobs.Laws
use know_your_repo.Store.Repositories.{get_repository_by_url}
use know_your_repo.Repos.World.{
  World, M, and_then, ◌>>=◌, ◌>>◌, return, query, exec, logged, enqueue_job, is_queued, spawn,
}
use know_your_repo.Repos.World.Rules.{query-run, exec-run}
use know_your_repo.Repos.Queueing.{
  create_repo, create_for_url, create_or_serve, unless_active, serve_existing, serve_cached,
  queue_ingestion, give_up, is_completed, create_full_message, ingestion_queued, queue_full,
}

-- No database call to come fails.
abbrev pub NoFaults : World → Type 0
NoFaults w = w.db_faults ≡ []

-- Every active job is queued or at work.
abbrev pub IsTracked : World → Type 0
IsTracked w = Laws.ActiveIn (InPool w.pool) w.db.ingestion_jobs

-- Without faults a query or a change is followed by the rest of the handler.
module _ {B : Type 0} (P : World → Type 0) (w : World) (calm : NoFaults w) where
  pub after_query :
      {A : Type 0} (f : Db → A) (k : A → M B) → P (k (f w.db) w).1 → P ((query f >>= k) w).1
  after_query f k h = subst (λ r. P (and_then r k).1) (sym (query-run w f calm)) h

  pub after_exec :
      (f : Db → Db) (k : M B) → P (k (record w { db = f w.db })).1 → P ((exec f >> k) w).1
  after_exec f k h = subst (λ r. P (and_then r (λ _. k)).1) (sym (exec-run w f calm)) h

  pub after_logged :
      (f : Db → Db) (k : M B) → P (k (record w { db = f w.db })).1 → P ((logged (exec f) >> k) w).1
  after_logged f k h = subst (λ r. P (k r.1).1) (sym (exec-run w f calm)) h

abbrev AlmostTracked : Text → World → Type 0
AlmostTracked id w = Laws.ActiveIn (Laws.OrIs (InPool w.pool) id) w.db.ingestion_jobs

-- What is done with the outcome of Enqueue settles the job.
IsTracked-settle :
    (e : Enqueued) (id : Text) (w : World)
    → NoFaults w
    → AlmostTracked id w
    → (e ≡ queued → InPool w.pool id)
    → IsTracked ((if is_queued e then return (ingestion_queued id) else give_up id) w).1
unfolding is_queued give_up
IsTracked-settle queued id w calm h q =
    All-mono _ _ w.db.ingestion_jobs
      (λ j k a. elim (k a) [ inl p ↦ p | inr e ↦ subst (InPool w.pool) (sym e) (q refl) ]) h
IsTracked-settle refused id w calm h q =
    after_logged IsTracked w calm _ (return queue_full)
      (Laws.ActiveIn-fail_job (InPool w.pool) id (some create_full_message) w.db h)
IsTracked-settle panic id w calm h q =
    after_logged IsTracked w calm _ (return queue_full)
      (Laws.ActiveIn-fail_job (InPool w.pool) id (some create_full_message) w.db h)

-- A job is inserted and then queued or, where the queue refuses it, marked failed.
IsTracked-queue_ingestion :
    (id url : Text) (w : World) → NoFaults w → IsTracked w → IsTracked (queue_ingestion id url w).1
unfolding queue_ingestion enqueue_job
IsTracked-queue_ingestion id url w calm h = after_exec IsTracked w calm (insert_job id url) _ (
    IsTracked-settle (enqueue id w.pool).1 id
      (record w { db = insert_job id url w.db; pool = (enqueue id w.pool).0 }) calm
      (All-mono _ _ (insert_job id url w.db).ingestion_jobs
        (λ j k a. elim (k a) [ inl p ↦ inl (InPool-enqueue w.pool id j.id p) | inr e ↦ inr e ])
        (Laws.ActiveIn-insert_job (InPool w.pool) id url w.db h))
      (InPool-enqueued w.pool id))

IsTracked-serve_existing :
    (url : Text) (repo : Repository) (w : World)
    → NoFaults w
    → IsTracked w
    → IsTracked (serve_existing url repo w).1
unfolding serve_existing serve_cached spawn
IsTracked-serve_existing url repo w calm h =
    after_query IsTracked w calm (find_job repo.id)
      (λ job. if is_completed job then serve_cached repo else queue_ingestion repo.id url)
      (known (is_completed (find_job repo.id w.db)))
  where
    known :
        (b : Bool) → IsTracked ((if b then serve_cached repo else queue_ingestion repo.id url) w).1
    known true = h
    known false = IsTracked-queue_ingestion repo.id url w calm h

IsTracked-create_or_serve :
    (fresh_id url : Text) (existing : Option Repository) (w : World)
    → NoFaults w
    → IsTracked w
    → IsTracked (create_or_serve fresh_id url existing w).1
unfolding create_or_serve
IsTracked-create_or_serve fresh_id url (some repo) = IsTracked-serve_existing url repo
IsTracked-create_or_serve fresh_id url none = IsTracked-queue_ingestion fresh_id url

IsTracked-unless_active :
    (fresh_id url : Text) (active : Option IngestionJob) (w : World)
    → NoFaults w
    → IsTracked w
    → IsTracked (unless_active fresh_id url active w).1
unfolding unless_active
IsTracked-unless_active fresh_id url (some job) w calm h = h
IsTracked-unless_active fresh_id url none w calm h =
    after_query IsTracked w calm (get_repository_by_url url) (create_or_serve fresh_id url)
      (IsTracked-create_or_serve fresh_id url _ w calm h)

-- Where no database call fails and no other request comes between the calls of CreateRepo: if every
-- pending or processing job is in the worker pool, then so after it. In particular a job that the full queue refuses does not stay pending.
pub create_repo-IsTracked :
    (fresh_id : Text) (normalized : Option Text) (w : World)
    → NoFaults w
    → IsTracked w
    → IsTracked (create_repo fresh_id normalized w).1
unfolding create_repo create_for_url
create_repo-IsTracked fresh_id none w calm h = h
create_repo-IsTracked fresh_id (some url) w calm h =
    after_query IsTracked w calm (get_active_job_by_url url) (unless_active fresh_id url)
      (IsTracked-unless_active fresh_id url _ w calm h)

-- ===== src/Repos/Queueing/Resumed.antt =====
-- What ResumeUnfinishedJobs makes of the jobs of the process before.
use mathlib.Core.Path.{subst}
use mathlib.Core.List.{Memᴰ}
use mathlib.Core.List.Memᴰ
use know_your_repo.Prelude.{
  ◌≡◌, refl, sym, List, [], ◌∷◌, some, All-mono, ◌⊎◌, inl, inr, if◌then◌else◌,
}
use know_your_repo.Text.{Text}
use know_your_repo.Pool.{Pool, enqueue, queued, Enqueued, refused, panic}
use know_your_repo.Pool.Members.{InPool, InPool-enqueue, InPool-enqueued}
use know_your_repo.Store.Jobs.{list_unfinished_job_ids}
use know_your_repo.Store.Jobs.Laws
use know_your_repo.Store.Jobs.Unfinished.{list_unfinished_job_ids-ActiveIn}
use know_your_repo.Repos.World.{World, ◌>>◌, return, enqueue_job, is_queued}
use know_your_repo.Repos.Queueing.{
  resume_each, resume_unfinished_jobs, mark_unresumable, resume_full_message,
}
use know_your_repo.Repos.Queueing.Tracked.{NoFaults, IsTracked, after_query, after_logged}

-- In the pool, or still to be resumed.
abbrev Waits : Pool → List Text → Text → Type 0
Waits p ids k = InPool p k ⊎ Memᴰ k ids

abbrev IsWaiting : List Text → World → Type 0
IsWaiting ids w = Laws.ActiveIn (Waits w.pool ids) w.db.ingestion_jobs

resume_one :
    (e : Enqueued) (id : Text) (ids : List Text) (w : World)
    → NoFaults w
    → Laws.ActiveIn (Laws.OrIs (Waits w.pool ids) id) w.db.ingestion_jobs
    → (e ≡ queued → InPool w.pool id)
    → ((w' : World) → NoFaults w' → IsWaiting ids w' → IsTracked (resume_each ids w').1)
    → IsTracked (((if is_queued e then return tt else mark_unresumable id) >> resume_each ids) w).1
unfolding is_queued mark_unresumable
resume_one queued id ids w calm h q next = next w calm (
    All-mono _ _ w.db.ingestion_jobs
      (λ j k a. elim (k a) [ inl p ↦ p | inr e ↦ inl (subst (InPool w.pool) (sym e) (q refl)) ]) h)
resume_one refused id ids w calm h q next =
    after_logged IsTracked w calm _ (resume_each ids)
      (next _ calm (Laws.ActiveIn-fail_job (Waits w.pool ids) id (some resume_full_message) w.db h))
resume_one panic id ids w calm h q next =
    after_logged IsTracked w calm _ (resume_each ids)
      (next _ calm (Laws.ActiveIn-fail_job (Waits w.pool ids) id (some resume_full_message) w.db h))

Waits-enqueue :
    (p : Pool) (id : Text) (ids : List Text) (k : Text)
    → Waits p (id ∷ ids) k
    → Laws.OrIs (Waits (enqueue id p).0 ids) id k
Waits-enqueue p id ids k (inl h) = inl (inl (InPool-enqueue p id k h))
Waits-enqueue p id ids k (inr (Memᴰ.head e)) = inr e
Waits-enqueue p id ids k (inr (Memᴰ.tail m)) = inl (inr m)

resume_each-IsTracked :
    (ids : List Text) (w : World) → NoFaults w → IsWaiting ids w → IsTracked (resume_each ids w).1
unfolding resume_each enqueue_job
resume_each-IsTracked [] w calm h =
    All-mono _ _ w.db.ingestion_jobs
      (λ j k a. elim (k a) [ inl p ↦ p | inr m ↦ absurd (Memᴰ.not-nil m) ]) h
resume_each-IsTracked (id ∷ ids) w calm h =
    resume_one (enqueue id w.pool).1 id ids (record w { pool = (enqueue id w.pool).0 }) calm
      (All-mono _ _ w.db.ingestion_jobs (λ j k a. Waits-enqueue w.pool id ids j.id (k a)) h)
      (InPool-enqueued w.pool id) (resume_each-IsTracked ids)

-- Where no database call fails, after ResumeUnfinishedJobs every pending or processing job is in the
-- worker pool, whatever the process before left in the database: a job for which the queue has no room
-- is marked failed.
pub resume_unfinished_jobs-IsTracked :
    (w : World) → NoFaults w → IsTracked (resume_unfinished_jobs w).1
unfolding resume_unfinished_jobs
resume_unfinished_jobs-IsTracked w calm =
    after_query IsTracked w calm list_unfinished_job_ids resume_each (
      resume_each-IsTracked (list_unfinished_job_ids w.db) w calm (
        All-mono _ _ w.db.ingestion_jobs (λ j k a. inr (k a))
          (list_unfinished_job_ids-ActiveIn w.db)))

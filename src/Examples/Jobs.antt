-- ===== src/Examples/Jobs.antt =====
-- Runs of the worker pool and of the handlers that queue jobs.
use mathlib.Core.List.{Memᴰ}
use know_your_repo.Prelude.{
  ◌<◌, ◌≤◌, ◌≡◌, ◌↔◌, ◌⊎◌, ◌++◌, inl, refl, true, false, [], ◌∷◌, some, none, length, count, arith,
}
use know_your_repo.Text.{Text, codes, is_among, same, equal_fold, to_lower, lower_byte}
use know_your_repo.Pool.{
  Pool, new_pool, start, enqueue, try_send, begin_shutdown, close_jobs, receive, handled, leave,
  Work, begin, finish, stop, submit, shutdown, work, Reach, here, next, queued, refused, AllDone,
}
use know_your_repo.Pool.Sound.{IsSound, Reach-IsSound}
use know_your_repo.Pool.Drain.{shutdown_drains, shutdown_progress, enqueue_accepts, work_left}
use know_your_repo.Store.{IngestionJob, Repository, pending}
use know_your_repo.Store.Jobs.{get_active_job_by_url, newest, is_active_for, is_active}
use know_your_repo.Store.Repositories.{get_last_commit_sha, find_by_id, get_repository_by_url}
use know_your_repo.Repos.World.{World, ok, err}
use know_your_repo.Repos.Queueing.{
  Outside, create_repo, resume_unfinished_jobs, check_and_enqueue_sync, in_progress,
}
use know_your_repo.Repos.Queueing.Requests.{
  System, run, create_checking, create_enqueuing, sync_checking,
}
use know_your_repo.Repos.Queueing.Requests.OneJob.{requests-OneJob}
use know_your_repo.Repos.Queueing.Requests.Settled.{IsSettled}
use know_your_repo.Repos.Queueing.Requests.Race.{in_turns, create_repo-races}
use know_your_repo.Store.Jobs.Rows.{HasJob}
use know_your_repo.Repos.Queueing.Tracked.{IsTracked, create_repo-IsTracked}
use know_your_repo.Repos.Queueing.Resumed.{resume_unfinished_jobs-IsTracked}
use know_your_repo.Repos.Queueing.Stuck.{IsRefused, sync_refused-stuck}

abbrev job_a : Text
job_a = codes "a"

abbrev fresh_pool : Pool
fresh_pool = start (new_pool 1 1)

abbrev busy_pool : Pool
busy_pool = (enqueue job_a fresh_pool).0

abbrev worked_pool : Pool
worked_pool = handled [] (receive job_a [] busy_pool)

abbrev closed_pool : Pool
closed_pool = begin_shutdown worked_pool

abbrev done_pool : Pool
done_pool = leave closed_pool

abbrev busy_reach : Reach fresh_pool busy_pool
busy_reach = next here (submit job_a refl)

closed_reach : Reach fresh_pool closed_pool
unfolding new_pool start enqueue try_send receive handled
closed_reach =
    next
      (next (next busy_reach (work (begin job_a [] refl (omega arith) refl)))
        (work (finish [] job_a [] refl refl)))
      (shutdown refl)

done_reach : Reach fresh_pool done_pool
unfolding new_pool start enqueue try_send receive handled begin_shutdown close_jobs leave
done_reach = next closed_reach (work (stop refl refl (omega arith) refl))

Reach-IsSound_example : IsSound busy_pool
Reach-IsSound_example = Reach-IsSound 1 1 busy_reach

shutdown_drains_example :
    (done_pool.jobs ≡ [])
    × (done_pool.running ≡ [])
    × (done_pool.started ≡ done_pool.accepted)
    × (done_pool.finished ≡ length done_pool.accepted)
unfolding new_pool start enqueue try_send receive handled begin_shutdown close_jobs leave
shutdown_drains_example = shutdown_drains 1 1 done_reach refl

closed_pool-busy : ¬ AllDone closed_pool
unfolding new_pool start enqueue try_send receive handled begin_shutdown close_jobs
closed_pool-busy e = omega (arith, e)

shutdown_progress_example :
    ((q : Pool) × Work closed_pool q)
    × ((q : Pool) → Work closed_pool q → work_left q < work_left closed_pool)
unfolding new_pool start enqueue try_send receive handled begin_shutdown close_jobs
shutdown_progress_example = shutdown_progress 1 1 closed_reach refl closed_pool-busy

enqueue_accepts_example :
    (((enqueue job_a busy_pool).1 ≡ queued)
      ↔ ((busy_pool.closed ≡ false) × (length busy_pool.jobs < busy_pool.queue_size)))
    × ((((enqueue job_a busy_pool).1 ≡ queued)
          × ((enqueue job_a busy_pool).0.jobs ≡ busy_pool.jobs ++ job_a ∷ []))
        ⊎ (((enqueue job_a busy_pool).1 ≡ refused) × ((enqueue job_a busy_pool).0 ≡ busy_pool)))
enqueue_accepts_example = enqueue_accepts 1 1 job_a busy_reach

-- The queue of one place is full.
full_refuses : (enqueue job_a busy_pool).1 ≡ refused
unfolding new_pool start enqueue try_send
full_refuses = refl

abbrev url_a : Text
url_a = codes "https://github.com/o/a"

abbrev url_b : Text
url_b = codes "https://github.com/o/b"

abbrev running_job : IngestionJob
running_job = record {
  id = job_a;
  repo_url = url_a;
  status = pending;
  error_message = none;
  stage = none;
  parse_status = none;
  embed_status = none;
  created_at = 1;
  updated_at = 1;
}

abbrev indexed_repo : Repository
indexed_repo = record {
  id = codes "b";
  repo_url = url_b;
  created_at = 1;
  last_commit_sha = some (codes "old");
  last_checked_at = none;
}

-- One job fills the queue; another repository is indexed.
abbrev full_world : World
full_world = record {
  db = record {
    ingestion_jobs = running_job ∷ [];
    repositories = indexed_repo ∷ [];
    files = [];
    symbols = [];
    call_edges = [];
    next_file_id = 0;
    now = 2;
  };
  pool = busy_pool;
  background = [];
  db_faults = [];
}

full_world-IsTracked : IsTracked full_world
unfolding new_pool start enqueue try_send
full_world-IsTracked = ((λ _. inl (Memᴰ.head refl)), tt)

create_repo-IsTracked_example : IsTracked (create_repo (codes "c") (some url_b) full_world).1
create_repo-IsTracked_example =
    create_repo-IsTracked (codes "c") (some url_b) full_world refl full_world-IsTracked

-- The remote of the indexed repository moved.
abbrev moved : Outside
moved = record {
  clone_exists = true;
  embed_info = some (codes "m", false);
  remote_sha = some (codes "new");
}

-- A request to CreateRepo and a sync, for the repository on record.
abbrev two_requests : System
two_requests = record {
  requests = create_checking (codes "c") url_b ∷ sync_checking moved (codes "b") url_b ∷ [];
  world = full_world;
}

full_world-IsSettled : IsSettled url_b (codes "b") full_world.db
unfolding is_active_for is_active is_among same equal_fold to_lower lower_byte
full_world-IsSettled = record {
  keyed = record { distinct = (refl, tt); named = ((λ a. absurd (cc)), tt) };
  on_record = record {
    repo = indexed_repo;
    present = Memᴰ.head refl;
    its_url = refl;
    named = ((λ a. refl), tt);
  };
}

requests-OneJob_example :
    count
      (is_active_for url_b)
      (run (0 ∷ 1 ∷ 0 ∷ 1 ∷ 1 ∷ 0 ∷ 1 ∷ 0 ∷ []) two_requests).world.db.ingestion_jobs
    ≤ 1
requests-OneJob_example =
    requests-OneJob url_b (codes "b") (0 ∷ 1 ∷ 0 ∷ 1 ∷ 1 ∷ 0 ∷ 1 ∷ 0 ∷ []) two_requests
      (tt, ((λ a. refl), tt)) full_world-IsSettled

-- Neither knows of the other.
abbrev url_c : Text
url_c = codes "https://github.com/o/c"

create_repo-races_example :
    (s : System) × (run in_turns (record {
      requests = create_checking (codes "c") url_c ∷ create_checking (codes "d") url_c ∷ [];
      world = full_world;
    })
      ≡ s)
    × (s.requests ≡ create_enqueuing (codes "c") ∷ create_enqueuing (codes "d") ∷ [])
    × HasJob (codes "c") url_c s.world.db.ingestion_jobs
    × HasJob (codes "d") url_c s.world.db.ingestion_jobs
unfolding get_active_job_by_url newest is_active_for is_active get_repository_by_url same equal_fold
    to_lower lower_byte
create_repo-races_example =
    create_repo-races (codes "c") (codes "d") url_c full_world refl refl refl refl

full_world-IsRefused : IsRefused moved (codes "b") url_b full_world
unfolding new_pool start enqueue try_send get_active_job_by_url newest is_active_for is_active
    get_last_commit_sha find_by_id same equal_fold to_lower lower_byte
full_world-IsRefused = record {
  calm = refl;
  idle = refl;
  local_sha = codes "old";
  known = refl;
  remote_sha = codes "new";
  answered = refl;
  moved = refl;
  full = refl;
}

sync_refused-stuck_example :
    (w' : World) × (check_and_enqueue_sync moved (codes "b") url_b full_world ≡ (err, w'))
    × (w'.pool ≡ full_world.pool)
    × ((j : IngestionJob) × (get_active_job_by_url url_b w'.db ≡ some j)
        × (j.id ≡ codes "b")
        × (j.status ≡ pending))
    × (create_repo (codes "c") (some url_b) w' ≡ (in_progress (codes "b"), w'))
    × (check_and_enqueue_sync moved (codes "b") url_b w' ≡ (ok true, w'))
sync_refused-stuck_example =
    sync_refused-stuck moved (codes "b") url_b full_world full_world-IsRefused (codes "c")

-- The job of before finds the queue full, as another took its place.
abbrev restarted_world : World
restarted_world = record full_world { pool = (enqueue (codes "c") fresh_pool).0 }

resume_unfinished_jobs-IsTracked_example : IsTracked (resume_unfinished_jobs restarted_world).1
resume_unfinished_jobs-IsTracked_example = resume_unfinished_jobs-IsTracked restarted_world refl

-- ===== src/Pool.antt =====
-- api/internal/worker/pool.go: a fixed number of workers behind a bounded queue. A step is what one
-- goroutine does while it holds the mutex or the channel; what the handler does to a job stands in
-- Repos. The fields `accepted`, `started`, `finished` are the history that the theorems speak of.
pub mod Sound
pub mod Drain
pub mod Members
use know_your_repo.Prelude.{
  ℕ, zero, suc, ◌+◌, ◌-◌, ◌<◌, ◌≡◌, Bool, true, false, List, [], ◌∷◌, ◌++◌, length, ltb,
  if◌then◌else◌,
}
use know_your_repo.Text.{Text}

pub record Pool : Type 0 where
  pub workers : ℕ
  pub queue_size : ℕ
  -- the buffered channel, and whether it was closed
  pub jobs : List Text
  pub jobs_closed : Bool
  -- the flag that the mutex guards
  pub closed : Bool
  -- the context that the handlers are given was cancelled
  pub cancelled : Bool
  -- a send on a closed channel, or a second close of it
  pub panicked : Bool
  -- workers that wait for a job, the jobs at work, workers that returned
  pub idle : ℕ
  pub running : List Text
  pub stopped : ℕ
  pub accepted : List Text
  pub started : List Text
  pub finished : ℕ

abbrev at_least_one : ℕ → ℕ
at_least_one n = if ltb n 1 then 1 else n

unfoldable pub new_pool : ℕ → ℕ → Pool
new_pool workers queue_size = record {
  workers = at_least_one workers;
  queue_size = at_least_one queue_size;
  jobs = [];
  jobs_closed = false;
  closed = false;
  cancelled = false;
  panicked = false;
  idle = 0;
  running = [];
  stopped = 0;
  accepted = [];
  started = [];
  finished = 0;
}

-- Start launches the workers, which wait for jobs.
unfoldable pub start : Pool → Pool
start p = record p { idle = p.workers }

pub data Enqueued : Type 0 where
  queued refused panic : Enqueued

-- A send without blocking: the default case is taken where the buffer is full.
unfoldable pub try_send : Text → Pool → Pool × Enqueued
try_send job p =
    if p.jobs_closed
    then (record p { panicked = true }, panic)
    else if ltb (length p.jobs) p.queue_size
    then (record p { jobs = p.jobs ++ job ∷ []; accepted = p.accepted ++ job ∷ [] }, queued)
    else (p, refused)

unfoldable pub enqueue : Text → Pool → Pool × Enqueued
enqueue job p = if p.closed then (p, refused) else try_send job p

unfoldable pub close_jobs : Pool → Pool
close_jobs p =
    if p.jobs_closed then record p { panicked = true } else record p { jobs_closed = true }

-- The first part of Shutdown, under the mutex.
unfoldable pub begin_shutdown : Pool → Pool
unfolding close_jobs
begin_shutdown p = if p.closed then p else close_jobs (record p { closed = true })

-- A worker receives the oldest job and calls the handler.
unfoldable pub receive : Text → List Text → Pool → Pool
receive job rest p = record p {
  jobs = rest;
  idle = p.idle - 1;
  running = job ∷ p.running;
  started = p.started ++ job ∷ [];
}

-- The handler returns, with or without an error, and the worker goes on.
unfoldable pub handled : List Text → Pool → Pool
handled left p = record p { running = left; idle = p.idle + 1; finished = p.finished + 1 }

-- The range over the closed, empty channel ends.
unfoldable pub leave : Pool → Pool
leave p = record p { idle = p.idle - 1; stopped = p.stopped + 1 }

-- What a worker does.
pub data Work (p q : Pool) : Type 0 where
  begin :
      (job : Text) (rest : List Text)
      → p.jobs ≡ job ∷ rest
      → 0 < p.idle
      → q ≡ receive job rest p
      → Work p q
  finish :
      (before : List Text) (job : Text) (after : List Text)
      → p.running ≡ before ++ job ∷ after
      → q ≡ handled (before ++ after) p
      → Work p q
  stop : p.jobs ≡ [] → p.jobs_closed ≡ true → 0 < p.idle → q ≡ leave p → Work p q

pub data Step (p q : Pool) : Type 0 where
  submit : (job : Text) → q ≡ (enqueue job p).0 → Step p q
  shutdown : q ≡ begin_shutdown p → Step p q
  -- Shutdown cancels the context, when its own expires or the workers are done
  cancel : p.closed ≡ true → q ≡ record p { cancelled = true } → Step p q
  work : Work p q → Step p q

pub data Reach (p : Pool) : Pool → Type 0 where
  here : Reach p p
  next : {q r : Pool} → Reach p q → Step q r → Reach p r

-- The WaitGroup is at zero, which Shutdown waits for before it returns.
abbrev pub AllDone : Pool → Type 0
AllDone p = p.stopped ≡ p.workers

-- ===== src/Pool/Sound.antt =====
-- What holds of every reachable pool.
use know_your_repo.Prelude.{
  ℕ, ◌+◌, ◌≤◌, ◌<◌, ◌≡◌, true, false, List, [], ◌∷◌, ◌++◌, length, length-append, arith,
}
use mathlib.Core.List.{append_assoc}
use know_your_repo.Text.{Text}
use know_your_repo.Pool.{
  Pool, new_pool, start, enqueue, try_send, begin_shutdown, receive, handled, leave, Work, begin,
  finish, stop, Step, submit, shutdown, cancel, work, Reach, here, next,
}

pub record IsSound (p : Pool) : Type 0 where
  pub manned : 0 < p.workers
  pub bounded : length p.jobs ≤ p.queue_size
  pub counted : p.idle + length p.running + p.stopped ≡ p.workers
  pub fifo : p.accepted ≡ p.started ++ p.jobs
  pub balanced : length p.started ≡ length p.running + p.finished
  pub agree : p.jobs_closed ≡ p.closed
  pub calm : p.panicked ≡ false
  pub stopping : 0 < p.stopped → (p.closed ≡ true) × (p.jobs ≡ [])

IsSound-start : (workers queue_size : ℕ) → IsSound (start (new_pool workers queue_size))
unfolding start new_pool
IsSound-start workers queue_size = ground arith

IsSound-enqueue : {p : Pool} (job : Text) → IsSound p → IsSound (enqueue job p).0
unfolding enqueue try_send
IsSound-enqueue {p} job h =
    ground (arith, length-append p.jobs (job ∷ []), append_assoc p.started p.jobs (job ∷ []))

IsSound-begin_shutdown : {p : Pool} → IsSound p → IsSound (begin_shutdown p)
unfolding begin_shutdown
IsSound-begin_shutdown {p} h = ground arith

IsSound-receive :
    {p : Pool} (job : Text) (rest : List Text)
    → p.jobs ≡ job ∷ rest
    → 0 < p.idle
    → IsSound p
    → IsSound (receive job rest p)
unfolding receive
IsSound-receive {p} job rest e i h =
    ground (arith, append_assoc p.started (job ∷ []) rest, length-append p.started (job ∷ []))

IsSound-handled :
    {p : Pool} (before : List Text) (job : Text) (after : List Text)
    → p.running ≡ before ++ job ∷ after
    → IsSound p
    → IsSound (handled (before ++ after) p)
unfolding handled
IsSound-handled {p} before job after e h =
    ground (arith, length-append before (job ∷ after), length-append before after)

IsSound-leave :
    {p : Pool} → p.jobs ≡ [] → p.jobs_closed ≡ true → 0 < p.idle → IsSound p → IsSound (leave p)
unfolding leave
IsSound-leave {p} e c i h = ground arith

pub IsSound-Work : {p q : Pool} → Work p q → IsSound p → IsSound q
IsSound-Work (begin job rest e i u) h = rw u (IsSound-receive job rest e i h)
IsSound-Work (finish before job after e u) h = rw u (IsSound-handled before job after e h)
IsSound-Work (stop e c i u) h = rw u (IsSound-leave e c i h)

IsSound-cancelled : {p : Pool} → IsSound p → IsSound (record p { cancelled = true })
IsSound-cancelled {p} h = ground arith

IsSound-Step : {p q : Pool} → Step p q → IsSound p → IsSound q
IsSound-Step (submit job u) h = rw u (IsSound-enqueue job h)
IsSound-Step (shutdown u) h = rw u (IsSound-begin_shutdown h)
IsSound-Step (cancel c u) h = rw u (IsSound-cancelled h)
IsSound-Step (work w) h = IsSound-Work w h

-- Whatever the goroutines do after Start, the pool stays sound: the queue keeps to its size, every
-- worker waits, works or has returned, jobs are started in the order in which they were accepted
-- and each once, there is no send on a closed channel and no second close, and no worker returns
-- before the shutdown began and the queue was empty.
pub Reach-IsSound :
    (workers queue_size : ℕ) {p : Pool} → Reach (start (new_pool workers queue_size)) p → IsSound p
Reach-IsSound workers queue_size here = IsSound-start workers queue_size
Reach-IsSound workers queue_size (next r s) = IsSound-Step s (Reach-IsSound workers queue_size r)

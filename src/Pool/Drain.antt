-- ===== src/Pool/Drain.antt =====
-- Shutdown: the workers drain the queue, and do not get stuck.
use know_your_repo.Prelude.{
  ℕ, ◌+◌, ◌*◌, ◌<◌, ◌≡◌, ◌↔◌, ◌⊎◌, refl, sym, ap, ◌∙◌, true, false, List, [], ◌∷◌, ◌++◌, length,
  arith, length-append,
}
use mathlib.Core.List.{append-nil}
use know_your_repo.Text.{Text}
use know_your_repo.Pool.{
  Pool, new_pool, start, enqueue, try_send, receive, handled, leave, Work, begin, finish, stop,
  Reach, AllDone, queued, refused,
}
use know_your_repo.Pool.Sound.{IsSound, Reach-IsSound}

nil_of_length : (xs : List Text) → length xs ≡ 0 → xs ≡ []
nil_of_length [] h = refl
nil_of_length (x ∷ xs) h = absurd (omega arith)

drained : {p : Pool} → IsSound p → AllDone p → (p.jobs ≡ []) × (p.running ≡ []) × (p.closed ≡ true)
drained {p} h done =
    let (shut, empty) = h.stopping (omega (arith, h.manned)) in
    (empty, nil_of_length p.running (omega (arith, h.counted)), shut)

-- When the workers of a started pool have all returned, which is what Shutdown waits for, nothing
-- is queued or at work: every job that Enqueue accepted was handed to the handler, in the order of
-- acceptance, and every call of the handler returned. This holds also where the context of the
-- handlers was cancelled.
pub shutdown_drains :
    (workers queue_size : ℕ) {p : Pool}
    → Reach (start (new_pool workers queue_size)) p
    → AllDone p
    → (p.jobs ≡ []) × (p.running ≡ []) × (p.started ≡ p.accepted) × (p.finished ≡ length p.accepted)
shutdown_drains workers queue_size {p} r done =
    let h = Reach-IsSound workers queue_size r in
    let (empty, quiet, _) = drained h done in
    let same_jobs : p.accepted ≡ p.started = h.fifo ∙ rw empty (append-nil p.started) in
    (empty, quiet, sym same_jobs, omega (arith, h.balanced, ap length quiet, ap length same_jobs))

abbrev pub work_left : Pool → ℕ
work_left p = 3 * length p.jobs + 2 * length p.running + p.idle

Work-moves :
    {p : Pool} (jobs running : List Text)
    → p.jobs ≡ jobs
    → p.running ≡ running
    → IsSound p
    → p.closed ≡ true
    → ¬ AllDone p
    → (q : Pool) × Work p q
Work-moves {p} jobs (job ∷ after) j r h shut busy = (handled after p, finish [] job after r refl)
Work-moves {p} (job ∷ rest) [] j r h shut busy =
    let nobody_left : p.stopped ≡ 0 = ground (arith, h.stopping) in
    let waits : 0 < p.idle = omega (arith, h.manned, h.counted, ap length r) in
    (receive job rest p, begin job rest j waits refl)
Work-moves {p} [] [] j r h shut busy =
    let waits : 0 < p.idle = omega (arith, h.counted, ap length r, busy) in
    (leave p, stop j (h.agree ∙ shut) waits refl)

-- Whatever a worker does lessens the work that is left.
Work-lessens : {p q : Pool} → Work p q → work_left q < work_left p
unfolding receive handled leave
Work-lessens (begin job rest j waits e) = rw e (omega (arith, ap length j))
Work-lessens (finish before job after r e) =
    rw e
      (omega (arith, ap length r, length-append before (job ∷ after), length-append before after))
Work-lessens (stop j shut waits e) = rw e (omega arith)

-- After the shutdown began some worker can move until all have returned, and every move that a
-- worker can make, this one or another, lessens the work that is left.
pub shutdown_progress :
    (workers queue_size : ℕ) {p : Pool}
    → Reach (start (new_pool workers queue_size)) p
    → p.closed ≡ true
    → ¬ AllDone p
    → ((q : Pool) × Work p q) × ((q : Pool) → Work p q → work_left q < work_left p)
shutdown_progress workers queue_size {p} r shut busy = (
  Work-moves p.jobs p.running refl refl (Reach-IsSound workers queue_size r) shut busy,
  λ q m. Work-lessens m,
)

-- In a reachable pool Enqueue accepts a job exactly when no shutdown began and the queue has room,
-- and then puts it last; otherwise the pool is unchanged.
pub enqueue_accepts :
    (workers queue_size : ℕ) {p : Pool} (job : Text)
    → Reach (start (new_pool workers queue_size)) p
    → (((enqueue job p).1 ≡ queued) ↔ ((p.closed ≡ false) × (length p.jobs < p.queue_size)))
      × ((((enqueue job p).1 ≡ queued) × ((enqueue job p).0.jobs ≡ p.jobs ++ job ∷ []))
          ⊎ (((enqueue job p).1 ≡ refused) × ((enqueue job p).0 ≡ p)))
unfolding enqueue try_send
enqueue_accepts workers queue_size {p} job r =
    let h = Reach-IsSound workers queue_size r in ground (arith, h.agree)

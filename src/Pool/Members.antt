-- ===== src/Pool/Members.antt =====
-- Which jobs a pool holds, queued or at work.
use mathlib.Core.List.{Memᴰ}
use mathlib.Core.List.Memᴰ
use mathlib.Core.Path.{subst}
use know_your_repo.Prelude.{◌≡◌, refl, ◌⊎◌, inl, inr, [], ◌∷◌, ◌++◌, ◌≢◌, sym, arith}
use know_your_repo.Text.{Text}
use know_your_repo.Pool.{Pool, enqueue, try_send, queued}

abbrev pub InPool : Pool → Text → Type 0
InPool p id = Memᴰ id p.jobs ⊎ Memᴰ id p.running

-- A call of Enqueue adds the job last, or leaves the queue alone; what is at work stays.
pub enqueue-shape :
    (p : Pool) (job : Text)
    → ((enqueue job p).1 ≡ queued)
        × ((enqueue job p).0.jobs ≡ p.jobs ++ job ∷ [])
        × ((enqueue job p).0.running ≡ p.running)
      ⊎ ((enqueue job p).1 ≢ queued)
        × ((enqueue job p).0.jobs ≡ p.jobs)
        × ((enqueue job p).0.running ≡ p.running)
unfolding enqueue try_send
enqueue-shape p job = ground arith

pub InPool-enqueue : (p : Pool) (job id : Text) → InPool p id → InPool (enqueue job p).0 id
InPool-enqueue p job id (inr r) = elim (enqueue-shape p job) [
  | inl (_, _, e) ↦ inr (subst (Memᴰ id) (sym e) r)
  | inr (_, _, e) ↦ inr (subst (Memᴰ id) (sym e) r)
]
InPool-enqueue p job id (inl q) = elim (enqueue-shape p job) [
  | inl (_, e, _) ↦ inl (subst (Memᴰ id) (sym e) (Memᴰ.append_left (job ∷ []) q))
  | inr (_, e, _) ↦ inl (subst (Memᴰ id) (sym e) q)
]

pub InPool-enqueued :
    (p : Pool) (job : Text) → (enqueue job p).1 ≡ queued → InPool (enqueue job p).0 job
InPool-enqueued p job h = elim (enqueue-shape p job) [
  | inl (_, e, _) ↦ inl (subst (Memᴰ job) (sym e) (Memᴰ.append_right p.jobs (Memᴰ.head refl)))
  | inr (n, _, _) ↦ absurd (n h)
]

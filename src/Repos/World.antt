-- ===== src/Repos/World.antt =====
-- The world that the handlers act on, and its monad.
pub mod Rules
use know_your_repo.Prelude.{
  Bool, true, false, List, [], ◌∷◌, ◌++◌, if◌then◌else◌, Option, some, none,
}
use know_your_repo.Text.{Text}
use know_your_repo.Store.{Db}
use know_your_repo.Pool.{Pool, enqueue, Enqueued, queued, refused, panic}

-- A goroutine that a handler starts.
pub data Background : Type 0 where
  check_staleness : Text → Text → Background

pub record World : Type 0 where
  pub db : Db
  pub pool : Pool
  pub background : List Background
  -- for each database call to come, whether it fails; those past the end succeed
  pub db_faults : List Bool

pub data Result {ℓ} (A : Type ℓ) : Type ℓ where
  ok : A → Result A
  err : Result A

abbrev pub M : Type 0 → Type 0
M A = World → Result A × World

-- What follows is skipped after an error.
abbrev pub and_then : {A B : Type 0} → Result A × World → (A → M B) → Result B × World
and_then (ok a, w) f = f a w
and_then (err, w) f = (err, w)

infixl 5 ◌>>=◌ ◌>>◌
abbrev pub ◌>>=◌ : {A B : Type 0} → M A → (A → M B) → M B
◌>>=◌ m f w = and_then (m w) f

abbrev pub ◌>>◌ : {A B : Type 0} → M A → M B → M B
m >> k = m >>= λ _. k

abbrev pub return : {A : Type 0} → A → M A
return a w = (ok a, w)

abbrev pub fail : {A : Type 0} → M A
fail w = (err, w)

-- A database call fails, or acts on the database; the action may itself refuse.
call : {A : Type 0} → (Db → Option (A × Db)) → World → List Bool → Result A × World
call f w [] = elim (f w.db) [ none ↦ (err, w) | some (a, db) ↦ (ok a, record w { db = db }) ]
call f w (true ∷ faults) = (err, record w { db_faults = faults })
call f w (false ∷ faults) = elim (f w.db) [
  | none ↦ (err, record w { db_faults = faults })
  | some (a, db) ↦ (ok a, record w { db = db; db_faults = faults })
]

unfoldable pub db_call : {A : Type 0} → (Db → Option (A × Db)) → M A
unfolding call
db_call f w = call f w w.db_faults

abbrev pub query : {A : Type 0} → (Db → A) → M A
query f = db_call (λ db. some (f db, db))

abbrev pub exec : (Db → Db) → M (Unit {0})
exec f = db_call (λ db. some (tt, f db))

-- `if err := …; err != nil { log }`: a failure is logged and the work goes on.
abbrev pub logged : M (Unit {0}) → M (Unit {0})
logged m w = (ok tt, (m w).1)

-- The outcome of a call as a value.
abbrev pub attempt : {A : Type 0} → M A → M (Result A)
attempt m w = let r = m w in (ok r.0, r.1)

unfoldable pub is_queued : Enqueued → Bool
is_queued queued = true
is_queued refused = false
is_queued panic = false

-- h.workerPool.Enqueue(id)
unfoldable pub enqueue_job : Text → M Bool
unfolding is_queued
enqueue_job id w = let r = enqueue id w.pool in (ok (is_queued r.1), record w { pool = r.0 })

unfoldable pub spawn : Background → M (Unit {0})
spawn b w = (ok tt, record w { background = w.background ++ b ∷ [] })

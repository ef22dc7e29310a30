-- ===== src/Repos/World/Rules.antt =====
-- Rules for a step of a handler, with and without failures of the database.
use know_your_repo.Prelude.{
  ◌≡◌, refl, sym, ap, Bool, true, false, List, [], ◌∷◌, some, ◌⊎◌, inl, inr,
}
use mathlib.Core.Path.{subst}
use know_your_repo.Store.{Db}
use know_your_repo.Pool.{Pool}
use know_your_repo.Repos.World.{
  World, ok, err, M, and_then, ◌>>=◌, ◌>>◌, query, exec, logged, db_call, call,
}

-- The database and the pool are the given ones; how many calls are to fail is open.
pub record Holds (w : World) (db : Db) (pool : Pool) : Type 0 where
  pub same_db : w.db ≡ db
  pub same_pool : w.pool ≡ pool

module _ {A : Type 0} (w : World) where
  call_query-cases :
      (f : Db → A) (faults : List Bool)
      → (w' : World) × Holds w' w.db w.pool
        × ((call (λ db. some (f db, db)) w faults ≡ (ok (f w.db), w'))
            ⊎ (call (λ db. some (f db, db)) w faults ≡ (err, w')))
  unfolding call
  call_query-cases f [] = (w, record { same_db = refl; same_pool = refl }, inl refl)
  call_query-cases f (true ∷ faults) =
      (record w { db_faults = faults }, record { same_db = refl; same_pool = refl }, inr refl)
  call_query-cases f (false ∷ faults) =
      (record w { db_faults = faults }, record { same_db = refl; same_pool = refl }, inl refl)

  -- A query fails, or gives what it reads; the database stays.
  pub query-cases :
      (f : Db → A)
      → (w' : World) × Holds w' w.db w.pool
        × ((query f w ≡ (ok (f w.db), w')) ⊎ (query f w ≡ (err, w')))
  unfolding db_call
  query-cases f = call_query-cases f w.db_faults

  -- A query leaves the database and the pool as they are.
  pub query-Holds : (f : Db → A) → Holds (query f w).1 w.db w.pool
  query-Holds f = elim (query-cases f).2 [
    | inl e ↦ subst (λ r. Holds r.1 w.db w.pool) (sym e) (query-cases f).1
    | inr e ↦ subst (λ r. Holds r.1 w.db w.pool) (sym e) (query-cases f).1
  ]

  -- Without failures to come a query gives what it reads, and nothing changes.
  pub query-run : (f : Db → A) → w.db_faults ≡ [] → query f w ≡ (ok (f w.db), w)
  unfolding db_call call
  query-run f e = ap (call (λ db. some (f db, db)) w) e

module _ (w : World) where
  call_exec-cases :
      (f : Db → Db) (faults : List Bool)
      → (w' : World) × (Holds w' (f w.db) w.pool
            × (call (λ db. some (tt, f db)) w faults ≡ (ok tt, w'))
          ⊎ Holds w' w.db w.pool × (call (λ db. some (tt, f db)) w faults ≡ (err, w')))
  unfolding call
  call_exec-cases f [] =
      (record w { db = f w.db }, inl (record { same_db = refl; same_pool = refl }, refl))
  call_exec-cases f (true ∷ faults) =
      (record w { db_faults = faults }, inr (record { same_db = refl; same_pool = refl }, refl))
  call_exec-cases f (false ∷ faults) = (
    record w { db = f w.db; db_faults = faults },
    inl (record { same_db = refl; same_pool = refl }, refl),
  )

  -- A change of the database happens, or fails and changes nothing.
  pub exec-cases :
      (f : Db → Db)
      → (w' : World) × (Holds w' (f w.db) w.pool × (exec f w ≡ (ok tt, w'))
          ⊎ Holds w' w.db w.pool × (exec f w ≡ (err, w')))
  unfolding db_call
  exec-cases f = call_exec-cases f w.db_faults

  pub exec-run : (f : Db → Db) → w.db_faults ≡ [] → exec f w ≡ (ok tt, record w { db = f w.db })
  unfolding db_call
  exec-run f e = simp (e, call)

module _ (P : World → Type 0) (w : World) where
  -- What follows a query sees what was read; a failure ends the handler.
  pub query-rule :
      {A B : Type 0} (f : Db → A) (k : A → M B)
      → ((w' : World) → Holds w' w.db w.pool → P (k (f w.db) w').1)
      → ((w' : World) → Holds w' w.db w.pool → P w')
      → P ((query f >>= k) w).1
  query-rule f k good bad = elim (query-cases w f).2 [
    | inl e ↦ subst (λ r. P (and_then r k).1) (sym e) (good (query-cases w f).0 (query-cases w f).1)
    | inr e ↦ subst (λ r. P (and_then r k).1) (sym e) (bad (query-cases w f).0 (query-cases w f).1)
  ]

  pub exec-rule :
      {B : Type 0} (f : Db → Db) (k : M B)
      → ((w' : World) → Holds w' (f w.db) w.pool → P (k w').1)
      → ((w' : World) → Holds w' w.db w.pool → P w')
      → P ((exec f >> k) w).1
  exec-rule f k good bad = elim (exec-cases w f).1 [
    | inl (h, e) ↦ subst (λ r. P (and_then r (λ _. k)).1) (sym e) (good (exec-cases w f).0 h)
    | inr (h, e) ↦ subst (λ r. P (and_then r (λ _. k)).1) (sym e) (bad (exec-cases w f).0 h)
  ]

  -- After a logged change the handler goes on, whether it happened or not.
  pub logged-rule :
      {B : Type 0} (f : Db → Db) (k : M B)
      → ((w' : World) → Holds w' (f w.db) w.pool → P (k w').1)
      → ((w' : World) → Holds w' w.db w.pool → P (k w').1)
      → P ((logged (exec f) >> k) w).1
  logged-rule f k good bad = elim (exec-cases w f).1 [
    | inl (h, e) ↦ subst (λ r. P (k r.1).1) (sym e) (good (exec-cases w f).0 h)
    | inr (h, e) ↦ subst (λ r. P (k r.1).1) (sym e) (bad (exec-cases w f).0 h)
  ]

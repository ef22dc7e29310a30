-- ===== src/Repos/Queueing/Requests/Settled.antt =====
-- What holds of a URL on record between any two calls of requests, and how a call keeps it.
use mathlib.Core.Path.{subst}
use know_your_repo.Prelude.{◌≡◌, sym, inl, inr, true, Option}
use know_your_repo.Text.{Text, equal_fold}
use know_your_repo.Pool.{Pool}
use know_your_repo.Store.{Db, JobStatus}
use know_your_repo.Store.Jobs.{insert_job, update_job_status}
use know_your_repo.Store.Jobs.Rows.{
  IsKeyed, IsKeyed-insert_job, IsKeyed-failed, IsKeyed-jobs, repositories-insert_job,
  repositories-update_job_status,
}
use know_your_repo.Store.Repositories.{touch_repo_check, jobs-touch_repo_check}
use know_your_repo.Store.Repositories.Rows.{IsOnRecord, IsOnRecord-touch}
use know_your_repo.Repos.World.{World, M, and_then, ◌>>=◌, ◌>>◌, return, query, exec}
use know_your_repo.Repos.World.Rules.{Holds, query-cases, exec-cases}
use know_your_repo.Repos.Queueing.Requests.{
  Request, create_checking, create_locating, create_deciding, create_inserting, create_enqueuing,
  create_failing, answered, sync_checking, sync_asking, sync_comparing, sync_inserting,
  sync_enqueuing, synced, settle,
}

module _ (u r : Text) where
  -- A request that has chosen an id for the URL has chosen that of its repository.
  abbrev pub Names : Text → Text → Type 0
  Names id url = equal_fold url u ≡ true → id ≡ r

  abbrev pub Fits : Request → Type 0
  Fits (create_checking fresh_id url) = Unit
  Fits (create_locating fresh_id url) = Unit
  Fits (create_deciding repo url) = Names repo.id url
  Fits (create_inserting id url) = Names id url
  Fits (create_enqueuing id) = Unit
  Fits (create_failing id) = Unit
  Fits (answered response) = Unit
  Fits (sync_checking outside id url) = Names id url
  Fits (sync_asking outside id url) = Names id url
  Fits (sync_comparing outside id url pending_embedding remote_sha) = Names id url
  Fits (sync_inserting id url) = Names id url
  Fits (sync_enqueuing id) = Unit
  Fits (synced result) = Unit

  -- The tables: the URL is on record under the id, and its active jobs have that id.
  pub record IsSettled (db : Db) : Type 0 where
    pub keyed : IsKeyed u r db
    pub on_record : IsOnRecord u r db.repositories

  -- What holds of a request and the world, between two calls.
  abbrev pub Good : Request × World → Type 0
  Good (q, w) = Fits q × IsSettled w.db

  pub settled :
      (w' : World) (db : Db) {pool : Pool} → Holds w' db pool → IsSettled db → IsSettled w'.db
  settled w' db s h = subst IsSettled (sym s.same_db) h

  module _ (failed : Request) (fits : Fits failed) where
    pub query-Good :
        {A : Type 0} (f : Db → A) (k : A → M Request) (w : World)
        → IsSettled w.db
        → ((w' : World) → IsSettled w'.db → Good (settle failed (k (f w.db) w')))
        → Good (settle failed ((query f >>= k) w))
    query-Good f k w h next = elim (query-cases w f).2 [
      | inl e ↦
          subst (λ x. Good (settle failed (and_then x k))) (sym e)
            (next (query-cases w f).0 (settled _ w.db (query-cases w f).1 h))
      | inr e ↦
          subst (λ x. Good (settle failed (and_then x k))) (sym e)
            (fits, settled _ w.db (query-cases w f).1 h)
    ]

    pub exec-Good :
        (f : Db → Db) (q : Request) (w : World)
        → Fits q
        → IsSettled w.db
        → IsSettled (f w.db)
        → Good (settle failed ((exec f >> return q) w))
    exec-Good f q w ok_fits h h' = elim (exec-cases w f).1 [
      | inl (s, e) ↦
          subst (λ x. Good (settle failed (and_then x (λ _. return q)))) (sym e)
            (ok_fits, settled (exec-cases w f).0 (f w.db) s h')
      | inr (s, e) ↦
          subst (λ x. Good (settle failed (and_then x (λ _. return q)))) (sym e)
            (fits, settled (exec-cases w f).0 w.db s h)
    ]

  pub logged-IsSettled :
      (f : Db → Db) (w : World) → IsSettled w.db → IsSettled (f w.db) → IsSettled (exec f w).1.db
  logged-IsSettled f w h h' = elim (exec-cases w f).1 [
    | inl (s, e) ↦ subst (λ x. IsSettled x.1.db) (sym e) (settled (exec-cases w f).0 (f w.db) s h')
    | inr (s, e) ↦ subst (λ x. IsSettled x.1.db) (sym e) (settled (exec-cases w f).0 w.db s h)
  ]

  pub IsSettled-insert_job :
      (id url : Text) (db : Db) → Names id url → IsSettled db → IsSettled (insert_job id url db)
  IsSettled-insert_job id url db named h = record {
    keyed = IsKeyed-insert_job id url u r db named h.keyed;
    on_record = subst (IsOnRecord u r) (sym (repositories-insert_job id url db)) h.on_record;
  }

  pub IsSettled-failed :
      (id : Text) (msg : Option Text) (db : Db)
      → IsSettled db
      → IsSettled (update_job_status id JobStatus.failed msg db)
  IsSettled-failed id msg db h = record {
    keyed = IsKeyed-failed id msg u r db h.keyed;
    on_record =
        subst (IsOnRecord u r) (sym (repositories-update_job_status id JobStatus.failed msg db))
          h.on_record;
  }

  pub IsSettled-touch :
      (id sha : Text) (db : Db) → IsSettled db → IsSettled (touch_repo_check id sha db)
  IsSettled-touch id sha db h = record {
    keyed = IsKeyed-jobs u r db (jobs-touch_repo_check id sha db) h.keyed;
    on_record = IsOnRecord-touch u r id sha db h.on_record;
  }

-- ===== src/Repos/Queueing/Requests/OneJob.antt =====
-- A URL that is on record has one job at most, however the calls of requests interleave.
use mathlib.Core.Path.{subst}
use know_your_repo.Prelude.{
  ℕ, zero, suc, ◌≤◌, ◌≡◌, sym, ◌∙◌, inl, inr, Bool, true, false, ◌&&◌, not, List, [], ◌∷◌, Option,
  some, none, All, Option-cases, if◌then◌else◌, count, Bool-cases,
}
use know_your_repo.Text.{Text, same, equal_fold}
use know_your_repo.Store.{Db, IngestionJob, Repository, JobStatus}
use know_your_repo.Store.Jobs.{
  insert_job, update_job_status, find_job, get_active_job_by_url, is_active_for,
}
use know_your_repo.Store.Jobs.Rows.{IsKeyed-count}
use know_your_repo.Store.Repositories.{get_repository_by_url, touch_repo_check, get_last_commit_sha}
use know_your_repo.Store.Repositories.Rows.{get_repository_by_url-IsOnRecord}
use know_your_repo.Store.Files.{count_files_pending_embedding}
use know_your_repo.Repos.World.{World, err, ◌>>=◌, return, enqueue_job, spawn}
use know_your_repo.Repos.World.Rules.{query-Holds}
use know_your_repo.Repos.Queueing.{
  Response, internal_error, Outside, has_pending_embedding, is_completed, create_full_message,
}
use know_your_repo.Repos.Queueing.Requests.{
  Request, create_checking, create_locating, create_deciding, create_inserting, create_enqueuing,
  create_failing, answered, sync_checking, sync_asking, sync_comparing, sync_inserting,
  sync_enqueuing, synced, settle, advance, decide, compare, after_check, after_location,
  after_asking, after_sync_check, System, move, run,
}
use know_your_repo.Repos.Queueing.Requests.Settled.{
  Names, Fits, IsSettled, Good, settled, query-Good, exec-Good, logged-IsSettled,
  IsSettled-insert_job, IsSettled-failed, IsSettled-touch,
}

module _ (u r : Text) where
  Fits-check :
      (fresh_id url : Text) (active : Option IngestionJob)
      → Fits u r (after_check fresh_id url active)
  Fits-check fresh_id url none = tt
  Fits-check fresh_id url (some job) = tt

  Fits-sync_check :
      (outside : Outside) (id url : Text) (active : Option IngestionJob)
      → Names u r id url
      → Fits u r (after_sync_check outside id url active)
  Fits-sync_check outside id url none named = named
  Fits-sync_check outside id url (some job) named = tt

  other_url : (id url : Text) → equal_fold url u ≡ false → Names u r id url
  other_url id url n a = let no : true ≡ false = sym a ∙ n in absurd (cc)

  Fits-other :
      (fresh_id url : Text) (existing : Option Repository)
      → equal_fold url u ≡ false
      → Fits u r (after_location fresh_id url existing)
  Fits-other fresh_id url none n = other_url fresh_id url n
  Fits-other fresh_id url (some repo) n = other_url repo.id url n

  -- The repository of the URL is found, so that no fresh id is taken for it.
  Fits-location :
      (fresh_id url : Text) (db : Db)
      → IsSettled u r db
      → Fits u r (after_location fresh_id url (get_repository_by_url url db))
  Fits-location fresh_id url db h = elim (Bool-cases (equal_fold url u)) [
    | inl e ↦
        let (x, found, is) = get_repository_by_url-IsOnRecord u r url db h.on_record e in
        subst (λ o. Fits u r (after_location fresh_id url o)) (sym found) (λ _. is)
    | inr n ↦ Fits-other fresh_id url (get_repository_by_url url db) n
  ]

  Good-decide :
      (repo : Repository) (url : Text) (done : Bool) (w : World)
      → Names u r repo.id url
      → IsSettled u r w.db
      → Good u r (settle (answered internal_error) (decide repo url done w))
  unfolding decide spawn
  Good-decide repo url true w named h = (tt, h)
  Good-decide repo url false w named h = (named, h)

  Fits-asking :
      (outside : Outside) (id url : Text) (b : Bool)
      → Names u r id url
      → Fits u r (after_asking outside id url b)
  Fits-asking outside id url b named = elim (Option-cases outside.remote_sha) [
    | inl e ↦ rw e tt
    | inr (sha, e) ↦ rw e named
  ]

  Good-compare :
      (outside : Outside) (id url : Text) (b : Bool) (remote_sha : Text) (found : Option Text)
      (w : World)
      → Names u r id url
      → IsSettled u r w.db
      → Good u r (settle (synced err) (compare outside id url b remote_sha found w))
  unfolding compare
  Good-compare outside id url b remote_sha none w named h = (tt, h)
  Good-compare outside id url b remote_sha (some local_sha) w named h =
      elim (Bool-cases (same remote_sha local_sha && (outside.clone_exists && not b))) [
        | inl still ↦ rw still (
          tt,
          logged-IsSettled u r (touch_repo_check id local_sha) w h
              (IsSettled-touch u r id local_sha w.db h),
        )
        | inr moved ↦ rw moved (named, h)
      ]

  Fits-enqueued :
      (id : Text) (queued : Bool)
      → Fits u r (if queued then answered (Response.ingestion_queued id) else create_failing id)
  Fits-enqueued id true = tt
  Fits-enqueued id false = tt

  Good-asking :
      (info : Option (Text × Bool)) (outside : Outside) (id url : Text) (w : World)
      → Names u r id url
      → IsSettled u r w.db
      → Good u r (
          settle
            (synced err)
            ((has_pending_embedding info id >>= λ b. return (after_asking outside id url b)) w))
  unfolding has_pending_embedding
  Good-asking none outside id url w named h = (Fits-asking outside id url false named, h)
  Good-asking (some (model, true)) outside id url w named h =
      (Fits-asking outside id url false named, h)
  Good-asking (some (model, false)) outside id url w named h = (
    Fits-asking outside id url _ named,
    settled u r _ w.db (query-Holds w (count_files_pending_embedding id model)) h,
  )

  -- A call of any request keeps all this, whether it fails or not.
  advance-Good :
      (q : Request) (w : World) → Fits u r q → IsSettled u r w.db → Good u r (advance q w)
  unfolding advance enqueue_job
  advance-Good (create_checking fresh_id url) w fits h =
      query-Good u r (answered internal_error) tt (get_active_job_by_url url) _ w h
        (λ w' h'. (Fits-check fresh_id url (get_active_job_by_url url w.db), h'))
  advance-Good (create_locating fresh_id url) w fits h =
      query-Good u r (answered internal_error) tt (get_repository_by_url url) _ w h
        (λ w' h'. (Fits-location fresh_id url w.db h, h'))
  advance-Good (create_deciding repo url) w fits h =
      query-Good u r (answered internal_error) tt (find_job repo.id) _ w h
        (λ w' h'. Good-decide repo url (is_completed (find_job repo.id w.db)) w' fits h')
  advance-Good (create_inserting id url) w fits h =
      exec-Good u r (answered internal_error) tt (insert_job id url) (create_enqueuing id) w tt h
        (IsSettled-insert_job u r id url w.db fits h)
  advance-Good (create_enqueuing id) w fits h = (Fits-enqueued id _, h)
  advance-Good (create_failing id) w fits h = (
    tt,
    logged-IsSettled u r (update_job_status id JobStatus.failed (some create_full_message)) w h
        (IsSettled-failed u r id (some create_full_message) w.db h),
  )
  advance-Good (answered response) w fits h = (tt, h)
  advance-Good (sync_checking outside id url) w fits h =
      query-Good u r (synced err) tt (get_active_job_by_url url) _ w h
        (λ w' h'. (Fits-sync_check outside id url (get_active_job_by_url url w.db) fits, h'))
  advance-Good (sync_asking outside id url) w fits h =
      Good-asking outside.embed_info outside id url w fits h
  advance-Good (sync_comparing outside id url b remote_sha) w fits h =
      query-Good u r (synced err) tt (get_last_commit_sha id) _ w h
        (λ w' h'. Good-compare outside id url b remote_sha (get_last_commit_sha id w.db) w' fits h')
  advance-Good (sync_inserting id url) w fits h =
      exec-Good u r (synced err) tt (insert_job id url) (sync_enqueuing id) w tt h
        (IsSettled-insert_job u r id url w.db fits h)
  advance-Good (sync_enqueuing id) w fits h = (tt, h)
  advance-Good (synced result) w fits h = (tt, h)

  move-Good :
      (i : ℕ) (qs : List Request) (w : World)
      → All (Fits u r) qs
      → IsSettled u r w.db
      → All (Fits u r) (move i qs w).0 × IsSettled u r (move i qs w).1.db
  unfolding move
  move-Good i [] w fits h = (tt, h)
  move-Good zero (q ∷ qs) w (first, fits) h =
      let (first', h') = advance-Good q w first h in ((first', fits), h')
  move-Good (suc i) (q ∷ qs) w (first, fits) h =
      let (fits', h') = move-Good i qs w fits h in ((first, fits'), h')

  run-IsSettled :
      (schedule : List ℕ) (s : System)
      → All (Fits u r) s.requests
      → IsSettled u r s.world.db
      → IsSettled u r (run schedule s).world.db
  unfolding run
  run-IsSettled [] s fits h = h
  run-IsSettled (i ∷ schedule) s fits h =
      let (fits', h') = move-Good i s.requests s.world fits h in run-IsSettled schedule _ fits' h'

  -- Take a URL that is on record, in whatever spelling, where every row for it has one id, and whose
  -- active jobs have that id, in a table of jobs without an id twice. Let any requests be under way, of
  -- which those that have chosen an id for the URL chose that one, as every sync of it does. Then in
  -- whatever order the requests make their calls, and whichever of these fail, at most one job is
  -- active for the URL. What the workers write in the meantime is not part of this.
  pub requests-OneJob :
      (schedule : List ℕ) (s : System)
      → All (Fits u r) s.requests
      → IsSettled u r s.world.db
      → count (is_active_for u) (run schedule s).world.db.ingestion_jobs ≤ 1
  requests-OneJob schedule s fits h =
      IsKeyed-count u r (run schedule s).world.db (run-IsSettled schedule s fits h).keyed

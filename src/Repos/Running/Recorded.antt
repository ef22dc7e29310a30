-- ===== src/Repos/Running/Recorded.antt =====
-- What is recorded of a job and of a repository.
use mathlib.Core.List.{Memᴰ}
use mathlib.Core.List.Memᴰ
use mathlib.Core.Path.{subst}
use know_your_repo.Prelude.{
  ℕ, ◌≡◌, refl, sym, ap, ◌∙◌, ◌⊎◌, inl, inr, Bool, true, false, ◌&&◌, List, [], ◌∷◌, Option, some,
  none, Bool-cases, arith,
}
use know_your_repo.Text.{Text, same, same_iff}
use know_your_repo.Store.{Db, IngestionJob, JobStatus, Stage}
use know_your_repo.Store.Jobs.{
  update_job, set_status, update_job_status, update_job_stage, find_job,
}
use know_your_repo.Ingest.{FileInfo}
use know_your_repo.Repos.World.{World, Result, ok, err, M, return, ◌>>=◌, ◌>>◌, exec, logged}
use know_your_repo.Repos.World.Rules.{exec-run, exec-cases, query-rule}
use know_your_repo.Repos.Running.{
  Machine, require, clone_anew, clone_or_sync, record_head, prepare_job, walked, model_or_empty,
  interrupted_message, prepare, ingest_repository, verdict, handle_ingestion_job,
}

different : ¬ (false ≡ true)
different e = cc

-- Every row of the job has the status and the message.
abbrev pub HasStatus : Text → JobStatus → Option Text → List IngestionJob → Type 0
HasStatus id status msg js =
    (j : IngestionJob) → Memᴰ j js → j.id ≡ id → (j.status ≡ status) × (j.error_message ≡ msg)

-- What is to be on record of a job after its handler: no error completes it; an error in a shutdown
-- that cancelled it leaves it pending, and any other error makes it fail.
abbrev pub IsRecorded : Bool → Bool → Text → Text → Result (Unit {0}) → List IngestionJob → Type 0
IsRecorded shutting_down cancelled message id (ok a) js = HasStatus id JobStatus.completed none js
IsRecorded shutting_down cancelled message id err js =
    (shutting_down ≡ true)
      × (cancelled ≡ true)
      × HasStatus id JobStatus.pending (some interrupted_message) js
    ⊎ ((shutting_down ≡ false) ⊎ (cancelled ≡ false))
      × HasStatus id JobStatus.failed (some message) js

update-HasStatus :
    (id : Text) (now : ℕ) (status : JobStatus) (msg : Option Text) (js : List IngestionJob)
    → HasStatus id status msg (update_job id (set_status now status msg) js)
unfolding update_job set_status
update-HasStatus id now status msg [] j m e = absurd (Memᴰ.not-nil m)
update-HasStatus id now status msg (k ∷ js) j m e = elim (Memᴰ.cases_cons m) [
  | inr rest ↦ update-HasStatus id now status msg js j rest e
  | inl here ↦ elim (Bool-cases (same k.id id)) [
    | inl this ↦
        let row : j ≡ set_status now status msg k = here ∙ rw this refl in
        (ap (λ (i : IngestionJob). i.status) row, ap (λ (i : IngestionJob). i.error_message) row)
    | inr away ↦
        let unchanged : j ≡ k = here ∙ rw away refl in
        let same_id : k.id ≡ id = ap (λ (i : IngestionJob). i.id) (sym unchanged) ∙ e in
        absurd (different (sym away ∙ (same_iff k.id id).1 same_id))
  ]
]

-- The verdict is the outcome's.
verdict-IsRecorded :
    (shutting_down cancelled : Bool) (message id : Text) (outcome : Result (Unit {0})) (now : ℕ)
    (js : List IngestionJob)
    → IsRecorded shutting_down cancelled message id outcome (
        update_job id
          (set_status now
            (verdict (shutting_down && cancelled) message outcome).0
            (verdict (shutting_down && cancelled) message outcome).1)
          js)
verdict-IsRecorded shutting_down cancelled message id (ok a) now js =
    update-HasStatus id now JobStatus.completed none js
verdict-IsRecorded true true message id err now js =
    inl (refl, refl, update-HasStatus id now JobStatus.pending (some interrupted_message) js)
verdict-IsRecorded true false message id err now js =
    inr (inr refl, update-HasStatus id now JobStatus.failed (some message) js)
verdict-IsRecorded false cancelled message id err now js =
    inr (inl refl, update-HasStatus id now JobStatus.failed (some message) js)

-- If the last write to the database does not fail, the job's rows are completed, without a message,
-- after a run without an error. After an error they are pending, with the message of an interruption,
-- if the server is shutting down and the context is cancelled; if it is not shutting down or the
-- context is not cancelled they are failed, with the message given. This holds whatever the rest of
-- the ingestion does.
pub handle-HasStatus :
    (rest : Text → List FileInfo → M (Unit {0})) (m : Machine) (shutting_down cancelled : Bool)
    (message id : Text) (w : World)
    → (ingest_repository rest m id w).1.db_faults ≡ []
    → IsRecorded shutting_down cancelled message id
        (ingest_repository rest m id w).0
        (handle_ingestion_job
          (ingest_repository rest m id)
          shutting_down
          cancelled
          message
          id
          w).1.db.ingestion_jobs
unfolding handle_ingestion_job update_job_status
handle-HasStatus rest m shutting_down cancelled message id w e =
    let r = ingest_repository rest m id w in
    let v = verdict (shutting_down && cancelled) message r.0 in
    subst (λ x. IsRecorded shutting_down cancelled message id r.0 x.1.db.ingestion_jobs)
      (sym (exec-run r.1 (update_job_status id v.0 v.1) e))
      (verdict-IsRecorded shutting_down cancelled message id r.0 r.1.db.now r.1.db.ingestion_jobs)

module _ (m : Machine) (id : Text) (w : World) where
  -- The table of repositories is that of the world given.
  abbrev KeepsRepositories : World → Type 0
  KeepsRepositories w' = w'.db.repositories ≡ w.db.repositories

  -- The clone is not there, and is not made.
  abbrev pub IsCloneless : Type 0
  IsCloneless = (m.clone_on_disk ≡ false) × ((m.size_ok && (m.remove_ok && m.clone_ok)) ≡ false)

  -- What follows the first writes.
  after_writes : Text → M (Text × List FileInfo)
  after_writes url = do
    require m.size_ok
    clone_or_sync m id url
    record_head id m.head_commit_sha
    logged (exec (update_job_stage id Stage.walking))
    files ← walked m.walk
    return (model_or_empty m.embed_model, files)

  after_writes-fails : (url : Text) (w' : World) → IsCloneless → after_writes url w' ≡ (err, w')
  unfolding after_writes clone_or_sync clone_anew
  after_writes-fails url w' (lost, failed) = elim (Bool-cases m.size_ok) [
    | inr large ↦ rw (after_writes, large) refl
    | inl small ↦ elim (Bool-cases m.remove_ok) [
      | inr stuck ↦ rw (after_writes, small, lost, stuck) refl
      | inl cleared ↦
          let unclonable : m.clone_ok ≡ false = ground (arith) in
          rw (after_writes, small, lost, cleared, unclonable) refl
    ]
  ]

  exec-keeps :
      (f : Db → Db) (v : World)
      → ((db : Db) → (f db).repositories ≡ db.repositories)
      → KeepsRepositories v
      → KeepsRepositories (exec f v).1
  exec-keeps f v same_table k = elim (exec-cases v f).1 [
    | inl (holds, e) ↦
        subst (λ r. KeepsRepositories r.1) (sym e)
          (ap (λ (db : Db). db.repositories) holds.same_db ∙ same_table v.db ∙ k)
    | inr (holds, e) ↦
        subst (λ r. KeepsRepositories r.1) (sym e)
          (ap (λ (db : Db). db.repositories) holds.same_db ∙ k)
  ]

  prepare_job-keeps :
      (job : Option IngestionJob) (w₀ : World)
      → IsCloneless
      → KeepsRepositories w₀
      → KeepsRepositories (prepare_job m id job w₀).1
  unfolding prepare_job update_job_status update_job_stage after_writes
  prepare_job-keeps none w₀ h k = k
  prepare_job-keeps (some job) w₀ h k =
      let w₁ = (exec (update_job_status id JobStatus.processing none) w₀).1 in
      let w₂ = (exec (update_job_stage id Stage.cloning) w₁).1 in
      subst (λ r. KeepsRepositories r.1) (sym (after_writes-fails job.repo_url w₂ h))
        (exec-keeps (update_job_stage id Stage.cloning) w₁ (λ db. refl)
          (exec-keeps (update_job_status id JobStatus.processing none) w₀ (λ db. refl) k))

  -- Where the clone is not on disk, and the repository is too large, or clearing its directory or cloning
  -- fails, the table of repositories stays as it is, whichever writes to the database fail.
  pub prepare-unlisted : IsCloneless → (prepare m id w).1.db.repositories ≡ w.db.repositories
  unfolding prepare
  prepare-unlisted h =
      query-rule KeepsRepositories w (find_job id) (prepare_job m id)
        (λ w' holds.
          prepare_job-keeps (find_job id w.db) w' h
            (ap (λ (db : Db). db.repositories) holds.same_db))
        (λ w' holds. ap (λ (db : Db). db.repositories) holds.same_db)

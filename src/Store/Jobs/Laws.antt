-- ===== src/Store/Jobs/Laws.antt =====
-- What the writes to ingestion_jobs do to the jobs that are active.
use know_your_repo.Prelude.{
  ℕ, ◌≡◌, refl, ◌⊎◌, inl, inr, true, false, List, [], ◌∷◌, Option, some, none, select, All,
  All-mono, arith, Bool-cases,
}
use know_your_repo.Text.{Text, same, same_iff, same_refl, equal_fold, to_lower}
use know_your_repo.Store.{Db, IngestionJob, pending, failed}
use know_your_repo.Store.Jobs.{
  is_active, fresh_job, reset_job, upsert_job, update_job, set_status, newest, is_active_for,
  get_active_job_by_url, insert_job, update_job_status,
}

-- Every active job's id has the property.
abbrev pub ActiveIn : (Text → Type 0) → List IngestionJob → Type 0
ActiveIn Q = All (λ j. is_active j.status ≡ true → Q j.id)

abbrev pub OrIs : (Text → Type 0) → Text → Text → Type 0
OrIs Q id k = Q k ⊎ (k ≡ id)

module _ (Q : Text → Type 0) where
  pub ActiveIn-upsert :
      (now : ℕ) (id url : Text) (js : List IngestionJob)
      → Q id
      → ActiveIn Q js
      → ActiveIn Q (upsert_job now id url js)
  unfolding upsert_job
  ActiveIn-upsert now id url [] q h = (λ _. q, tt)
  ActiveIn-upsert now id url (j ∷ js) q h = elim (Bool-cases (same j.id id)) [
    | inl e ↦ rw e ((λ _. rw ((same_iff j.id id).0 e) q), h.1)
    | inr n ↦ rw n (h.0, ActiveIn-upsert now id url js q h.1)
  ]

  -- A job that is marked failed is no longer active.
  pub ActiveIn-failed :
      (now : ℕ) (id : Text) (msg : Option Text) (js : List IngestionJob)
      → ActiveIn (OrIs Q id) js
      → ActiveIn Q (update_job id (set_status now failed msg) js)
  unfolding update_job set_status is_active
  ActiveIn-failed now id msg [] h = tt
  ActiveIn-failed now id msg (j ∷ js) h = elim (Bool-cases (same j.id id)) [
    | inl e ↦ rw e ((λ a. cc), ActiveIn-failed now id msg js h.1)
    | inr n ↦ rw n (
      (λ a. elim (h.0 a) [ inl q ↦ q | inr e ↦ absurd (ground (arith, same_iff j.id id)) ]),
      ActiveIn-failed now id msg js h.1,
    )
  ]

-- An inserted job is the one that may be new among the active ones.
pub ActiveIn-insert_job :
    (Q : Text → Type 0) (id url : Text) (db : Db)
    → ActiveIn Q db.ingestion_jobs
    → ActiveIn (OrIs Q id) (insert_job id url db).ingestion_jobs
unfolding insert_job
ActiveIn-insert_job Q id url db h =
    ActiveIn-upsert (OrIs Q id) db.now id url db.ingestion_jobs (inr refl)
      (All-mono _ _ db.ingestion_jobs (λ j k a. inl (k a)) h)

pub ActiveIn-fail_job :
    (Q : Text → Type 0) (id : Text) (msg : Option Text) (db : Db)
    → ActiveIn (OrIs Q id) db.ingestion_jobs
    → ActiveIn Q (update_job_status id failed msg db).ingestion_jobs
unfolding update_job_status
ActiveIn-fail_job Q id msg db h = ActiveIn-failed Q db.now id msg db.ingestion_jobs h

newest-ne-none : (j : IngestionJob) (js : List IngestionJob) → newest (j ∷ js) ≡ none → ⊥
unfolding newest
newest-ne-none j js = ground arith

nil_of_newest : (js : List IngestionJob) → newest js ≡ none → js ≡ []
nil_of_newest [] e = refl
nil_of_newest (j ∷ js) e = absurd (newest-ne-none j js e)

-- GetActiveJobByURL finds nothing only if no job for the URL is active.
pub none-active :
    (url : Text) (db : Db)
    → get_active_job_by_url url db ≡ none
    → select (is_active_for url) db.ingestion_jobs ≡ []
unfolding get_active_job_by_url
none-active url db e = nil_of_newest _ e

select_nil_tail :
    (url : Text) (j : IngestionJob) (js : List IngestionJob)
    → select (is_active_for url) (j ∷ js) ≡ []
    → (is_active_for url j ≡ false) × (select (is_active_for url) js ≡ [])
select_nil_tail url j js h = ground arith

sole-upsert :
    (now : ℕ) (id url : Text) (js : List IngestionJob)
    → select (is_active_for url) js ≡ []
    → (j : IngestionJob) × (select (is_active_for url) (upsert_job now id url js) ≡ j ∷ [])
      × (j.id ≡ id)
      × (j.status ≡ pending)
unfolding upsert_job is_active_for is_active equal_fold
sole-upsert now id url [] h = (fresh_job now id url, rw (same_refl (to_lower url)), refl, refl)
sole-upsert now id url (j ∷ js) h =
    let (passive, rest) = select_nil_tail url j js h in
    elim (Bool-cases (same j.id id)) [
      | inl e ↦ (
        reset_job now url j,
        rw (e, same_refl (to_lower url), rest),
        (same_iff j.id id).0 e,
        refl,
      )
      | inr n ↦
          let (k, only, is, st) = sole-upsert now id url js rest in
          (k, simp (n, passive, only), is, st)
    ]

-- The job inserted for a URL without an active job is the one that GetActiveJobByURL finds.
pub active_inserted :
    (id url : Text) (db : Db)
    → get_active_job_by_url url db ≡ none
    → (j : IngestionJob) × (get_active_job_by_url url (insert_job id url db) ≡ some j)
      × (j.id ≡ id)
      × (j.status ≡ pending)
unfolding insert_job get_active_job_by_url
active_inserted id url db idle =
    let (j, only, is, st) = sole-upsert db.now id url db.ingestion_jobs (none-active url db idle) in
    (j, rw only, is, st)

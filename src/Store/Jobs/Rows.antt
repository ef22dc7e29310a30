-- ===== src/Store/Jobs/Rows.antt =====
-- The rows of ingestion_jobs, by their ids: what InsertJob does to the active jobs of a URL.
use mathlib.Core.List.{Memᴰ}
use mathlib.Core.List.Memᴰ
use mathlib.Core.Path.{subst}
use know_your_repo.Prelude.{
  ℕ, ◌≤◌, ◌≡◌, refl, sym, ap, ◌∙◌, inl, inr, true, false, ◌||◌, List, [], ◌∷◌, map, Option, All,
  count, arith, Bool-cases,
}
use know_your_repo.Text.{
  Text, same, same_iff, same_refl, to_lower, equal_fold, is_among, IsDistinct,
}
use know_your_repo.Store.{Db, IngestionJob, JobStatus, failed}
use know_your_repo.Store.Jobs.{
  insert_job, upsert_job, fresh_job, reset_job, update_job, set_status, update_job_status,
  is_active, is_active_for,
}

-- An active job of the id for the URL.
abbrev pub HasJob : Text → Text → List IngestionJob → Type 0
HasJob id url js = (j : IngestionJob) × Memᴰ j js × (j.id ≡ id) × (is_active_for url j ≡ true)

upsert-HasJob :
    (now : ℕ) (id url : Text) (js : List IngestionJob) → HasJob id url (upsert_job now id url js)
unfolding upsert_job is_active_for is_active equal_fold
upsert-HasJob now id url [] =
    (fresh_job now id url, Memᴰ.head refl, refl, rw (same_refl (to_lower url)))
upsert-HasJob now id url (j ∷ js) = elim (Bool-cases (same j.id id)) [
  | inl e ↦
      rw e
        (reset_job now url j, Memᴰ.head refl, (same_iff j.id id).0 e, rw (same_refl (to_lower url)))
  | inr n ↦
      let (k, m, is, active) = upsert-HasJob now id url js in rw n (k, Memᴰ.tail m, is, active)
]

-- Another job's row stays.
HasJob-upsert :
    (now : ℕ) (id url other : Text) (js : List IngestionJob)
    → same other id ≡ false
    → HasJob other url js
    → HasJob other url (upsert_job now id url js)
unfolding upsert_job
HasJob-upsert now id url other [] n (k, m, is, active) = absurd (Memᴰ.not-nil m)
HasJob-upsert now id url other (j ∷ js) n (k, m, is, active) = elim (Bool-cases (same j.id id)) [
  | inl e ↦ rw e (elim (Memᴰ.cases_cons m) [
    | inl here ↦
        let no : true ≡ false =
          sym e ∙ ap (λ t. same t id) (ap (λ (i : IngestionJob). i.id) (sym here) ∙ is) ∙ n in
        absurd (cc)
    | inr rest ↦ (k, Memᴰ.tail rest, is, active)
  ])
  | inr away ↦ rw away (elim (Memᴰ.cases_cons m) [
    | inl here ↦ (k, Memᴰ.head here, is, active)
    | inr rest ↦
        let (k', m', is', active') = HasJob-upsert now id url other js n (k, rest, is, active) in
        (k', Memᴰ.tail m', is', active')
  ])
]

pub insert_job-HasJob :
    (id url : Text) (db : Db) → HasJob id url (insert_job id url db).ingestion_jobs
unfolding insert_job
insert_job-HasJob id url db = upsert-HasJob db.now id url db.ingestion_jobs

pub HasJob-insert_job :
    (id url other : Text) (db : Db)
    → same other id ≡ false
    → HasJob other url db.ingestion_jobs
    → HasJob other url (insert_job id url db).ingestion_jobs
unfolding insert_job
HasJob-insert_job id url other db differ h =
    HasJob-upsert db.now id url other db.ingestion_jobs differ h

-- The primary key: no id stands on two rows.
abbrev pub ids_of : List IngestionJob → List Text
ids_of js = map (λ j. j.id) js

-- The active jobs of the URL all have the id.
abbrev pub AreNamed : Text → Text → List IngestionJob → Type 0
AreNamed url id = All (λ j. is_active_for url j ≡ true → j.id ≡ id)

among-upsert :
    (now : ℕ) (id url t : Text) (js : List IngestionJob)
    → is_among t (ids_of (upsert_job now id url js)) ≡ (is_among t (ids_of js) || same id t)
unfolding upsert_job is_among
among-upsert now id url t [] = ground arith
among-upsert now id url t (j ∷ js) = elim (Bool-cases (same j.id id)) [
  | inl e ↦ rw e (ground (arith, same_iff j.id id, ap (λ i. same i t)))
  | inr n ↦ rw n (ground (arith, among-upsert now id url t js))
]

IsDistinct-upsert :
    (now : ℕ) (id url : Text) (js : List IngestionJob)
    → IsDistinct (ids_of js)
    → IsDistinct (ids_of (upsert_job now id url js))
unfolding upsert_job is_among
IsDistinct-upsert now id url [] h = (refl, tt)
IsDistinct-upsert now id url (j ∷ js) (first, h) = elim (Bool-cases (same j.id id)) [
  | inl e ↦ rw e (first, h)
  | inr n ↦ rw n (
    ground (arith, among-upsert now id url j.id js, same_iff id j.id, same_iff j.id id),
    IsDistinct-upsert now id url js h,
  )
]

AreNamed-upsert :
    (now : ℕ) (id url u r : Text) (js : List IngestionJob)
    → (equal_fold url u ≡ true → id ≡ r)
    → AreNamed u r js
    → AreNamed u r (upsert_job now id url js)
unfolding upsert_job is_active_for
AreNamed-upsert now id url u r [] named h = (λ a. named (ground arith), tt)
AreNamed-upsert now id url u r (j ∷ js) named (first, h) = elim (Bool-cases (same j.id id)) [
  | inl e ↦ rw e ((λ a. (same_iff j.id id).0 e ∙ named (ground arith)), h)
  | inr n ↦ rw n (first, AreNamed-upsert now id url u r js named h)
]

-- A table with its primary key, where the active jobs of the URL have one id.
pub record IsKeyed (u r : Text) (db : Db) : Type 0 where
  pub distinct : IsDistinct (ids_of db.ingestion_jobs)
  pub named : AreNamed u r db.ingestion_jobs

pub IsKeyed-insert_job :
    (id url u r : Text) (db : Db)
    → (equal_fold url u ≡ true → id ≡ r)
    → IsKeyed u r db
    → IsKeyed u r (insert_job id url db)
unfolding insert_job
IsKeyed-insert_job id url u r db named h = record {
  distinct = IsDistinct-upsert db.now id url db.ingestion_jobs h.distinct;
  named = AreNamed-upsert db.now id url u r db.ingestion_jobs named h.named;
}

ids-update :
    (id : Text) (now : ℕ) (status : JobStatus) (msg : Option Text) (js : List IngestionJob)
    → ids_of (update_job id (set_status now status msg) js) ≡ ids_of js
unfolding update_job set_status
ids-update id now status msg [] = refl
ids-update id now status msg (j ∷ js) = elim (Bool-cases (same j.id id)) [
  | inl e ↦ rw e (ap (λ r. j.id ∷ r) (ids-update id now status msg js))
  | inr n ↦ rw n (ap (λ r. j.id ∷ r) (ids-update id now status msg js))
]

AreNamed-failed :
    (id : Text) (now : ℕ) (msg : Option Text) (u r : Text) (js : List IngestionJob)
    → AreNamed u r js
    → AreNamed u r (update_job id (set_status now failed msg) js)
unfolding update_job set_status is_active_for is_active
AreNamed-failed id now msg u r [] h = tt
AreNamed-failed id now msg u r (j ∷ js) (first, h) = elim (Bool-cases (same j.id id)) [
  | inl e ↦ rw e ((λ a. absurd (ground arith)), AreNamed-failed id now msg u r js h)
  | inr n ↦ rw n (first, AreNamed-failed id now msg u r js h)
]

pub IsKeyed-failed :
    (id : Text) (msg : Option Text) (u r : Text) (db : Db)
    → IsKeyed u r db
    → IsKeyed u r (update_job_status id failed msg db)
unfolding update_job_status
IsKeyed-failed id msg u r db h = record {
  distinct = rw (ids-update id db.now failed msg db.ingestion_jobs) h.distinct;
  named = AreNamed-failed id db.now msg u r db.ingestion_jobs h.named;
}

count_zero :
    (u r : Text) (js : List IngestionJob)
    → is_among r (ids_of js) ≡ false
    → AreNamed u r js
    → count (is_active_for u) js ≡ 0
unfolding is_among
count_zero u r [] h k = refl
count_zero u r (j ∷ js) h (first, k) = ground (arith, count_zero u r js, same_iff j.id r)

count-le-one :
    (u r : Text) (js : List IngestionJob)
    → IsDistinct (ids_of js)
    → AreNamed u r js
    → count (is_active_for u) js ≤ 1
count-le-one u r [] h k = omega arith
count-le-one u r (j ∷ js) (alone, h) (first, k) = elim (Bool-cases (is_active_for u j)) [
  | inl e ↦
      let fresh : is_among r (ids_of js) ≡ false =
        ap (λ t. is_among t (ids_of js)) (sym (first e)) ∙ alone in
      ground (arith, count_zero u r js fresh k)
  | inr n ↦ ground (arith, count-le-one u r js h k)
]

-- Then at most one job is active for the URL.
pub IsKeyed-count :
    (u r : Text) (db : Db) → IsKeyed u r db → count (is_active_for u) db.ingestion_jobs ≤ 1
IsKeyed-count u r db h = count-le-one u r db.ingestion_jobs h.distinct h.named

pub repositories-insert_job :
    (id url : Text) (db : Db) → (insert_job id url db).repositories ≡ db.repositories
unfolding insert_job
repositories-insert_job id url db = refl

pub repositories-update_job_status :
    (id : Text) (status : JobStatus) (msg : Option Text) (db : Db)
    → (update_job_status id status msg db).repositories ≡ db.repositories
unfolding update_job_status
repositories-update_job_status id status msg db = refl

-- Only the jobs count.
pub IsKeyed-jobs :
    (u r : Text) (db : Db) {db' : Db}
    → db'.ingestion_jobs ≡ db.ingestion_jobs
    → IsKeyed u r db
    → IsKeyed u r db'
IsKeyed-jobs u r db e h = record {
  distinct = subst (λ js. IsDistinct (ids_of js)) (sym e) h.distinct;
  named = subst (AreNamed u r) (sym e) h.named;
}

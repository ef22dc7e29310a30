-- ===== src/Store/Jobs.antt =====
-- api/internal/store/job_repo.go: the table ingestion_jobs.
pub mod Laws
pub mod Rows
pub mod Unfinished
use know_your_repo.Prelude.{
  ℕ, ◌≡◌, Bool, true, false, ◌&&◌, List, [], ◌∷◌, map, Option, some, none, select, leb, ltb,
  if◌then◌else◌,
}
use know_your_repo.Text.{Text, same, equal_fold}
use know_your_repo.Store.{
  Db, IngestionJob, JobStatus, pending, processing, completed, failed, skipped, Stage,
}

unfoldable pub is_active : JobStatus → Bool
is_active pending = true
is_active processing = true
is_active completed = false
is_active failed = false
is_active skipped = false

fresh_job : ℕ → Text → Text → IngestionJob
fresh_job now id url = record {
  id = id;
  repo_url = url;
  status = pending;
  error_message = none;
  stage = none;
  parse_status = none;
  embed_status = none;
  created_at = now;
  updated_at = now;
}

-- DO UPDATE SET; the stage is not among the columns.
reset_job : ℕ → Text → IngestionJob → IngestionJob
reset_job now url j = record j {
  repo_url = url;
  status = pending;
  error_message = none;
  parse_status = none;
  embed_status = none;
  updated_at = now;
}

pub upsert_job : ℕ → Text → Text → List IngestionJob → List IngestionJob
unfolding fresh_job reset_job
upsert_job now id url [] = fresh_job now id url ∷ []
upsert_job now id url (j ∷ js) =
    if same j.id id then reset_job now url j ∷ js else j ∷ upsert_job now id url js

pub insert_job : Text → Text → Db → Db
insert_job id url db = record db { ingestion_jobs = upsert_job db.now id url db.ingestion_jobs }

-- UPDATE ingestion_jobs SET … WHERE id = …
unfoldable pub update_job :
    Text → (IngestionJob → IngestionJob) → List IngestionJob → List IngestionJob
update_job id f [] = []
update_job id f (j ∷ js) = (if same j.id id then f j else j) ∷ update_job id f js

unfoldable pub set_status : ℕ → JobStatus → Option Text → IngestionJob → IngestionJob
set_status now status msg j = record j { status = status; error_message = msg; updated_at = now }

unfoldable pub update_job_status : Text → JobStatus → Option Text → Db → Db
unfolding set_status
update_job_status id status msg db = record db {
  ingestion_jobs = update_job id (set_status db.now status msg) db.ingestion_jobs;
}

pub set_parse_status : Text → JobStatus → Db → Db
set_parse_status id status db = record db {
  ingestion_jobs =
      update_job id (λ j. record j { parse_status = some status; updated_at = db.now })
        db.ingestion_jobs;
}

pub set_embed_status : Text → JobStatus → Db → Db
set_embed_status id status db = record db {
  ingestion_jobs =
      update_job id (λ j. record j { embed_status = some status; updated_at = db.now })
        db.ingestion_jobs;
}

unfoldable pub update_job_stage : Text → Stage → Db → Db
update_job_stage id stage db = record db {
  ingestion_jobs =
      update_job id (λ j. record j { stage = some stage; updated_at = db.now }) db.ingestion_jobs;
}

unfoldable pub find_by_id : Text → List IngestionJob → Option IngestionJob
find_by_id id [] = none
find_by_id id (j ∷ js) = if same j.id id then some j else find_by_id id js

-- FindJob, and GetJob, for which `none` is the error sql.ErrNoRows.
unfoldable pub find_job : Text → Db → Option IngestionJob
find_job id db = find_by_id id db.ingestion_jobs

-- ORDER BY created_at DESC LIMIT 1
unfoldable pub newest : List IngestionJob → Option IngestionJob
newest [] = none
newest (j ∷ js) = elim (newest js) [
  | none ↦ some j
  | some k ↦ if ltb j.created_at k.created_at then some k else some j
]

unfoldable pub is_active_for : Text → IngestionJob → Bool
is_active_for url j = equal_fold j.repo_url url && is_active j.status

unfoldable pub get_active_job_by_url : Text → Db → Option IngestionJob
unfolding newest is_active_for
get_active_job_by_url url db = newest (select (is_active_for url) db.ingestion_jobs)

insert_by_update : IngestionJob → List IngestionJob → List IngestionJob
insert_by_update j [] = j ∷ []
insert_by_update j (k ∷ ks) =
    if leb j.updated_at k.updated_at then j ∷ k ∷ ks else k ∷ insert_by_update j ks

-- ORDER BY updated_at
by_update : List IngestionJob → List IngestionJob
unfolding insert_by_update
by_update [] = []
by_update (j ∷ js) = insert_by_update j (by_update js)

pub list_unfinished_job_ids : Db → List Text
unfolding by_update
list_unfinished_job_ids db =
    map (λ j. j.id) (by_update (select (λ j. is_active j.status) db.ingestion_jobs))

-- ===== src/Store.antt =====
-- api/internal/store: the tables of schema.sql as lists of rows, and the queries of the package as
-- functions on them. The clock `now` is that of the database.
pub mod Jobs
pub mod Repositories
pub mod Files
pub mod Reads
use know_your_repo.Prelude.{ℕ, List, [], Option}
use know_your_repo.Text.{Text}

-- The Status* constants of job_repo.go.
pub data JobStatus : Type 0 where
  pending processing completed failed skipped : JobStatus

-- The Stage* constants of job_repo.go.
pub data Stage : Type 0 where
  cloning walking parsing embedding done : Stage

pub record IngestionJob : Type 0 where
  pub id : Text
  pub repo_url : Text
  pub status : JobStatus
  pub error_message : Option Text
  pub stage : Option Stage
  pub parse_status : Option JobStatus
  pub embed_status : Option JobStatus
  pub created_at : ℕ
  pub updated_at : ℕ

pub record Repository : Type 0 where
  pub id : Text
  pub repo_url : Text
  pub created_at : ℕ
  pub last_commit_sha : Option Text
  pub last_checked_at : Option ℕ

pub record FileRow : Type 0 where
  pub id : ℕ
  pub repo_id : Text
  pub path : Text
  pub language : Text
  pub hash : Option Text
  pub embedded_model : Option Text

pub record Symbol : Type 0 where
  pub file_id : ℕ
  pub name : Text
  pub type : Text
  pub start_line : ℕ
  pub end_line : ℕ

pub record CallEdge : Type 0 where
  pub repo_id : Text
  pub caller_symbol : Text
  pub caller_file_path : Text
  pub callee_symbol : Text

pub record Db : Type 0 where
  pub ingestion_jobs : List IngestionJob
  pub repositories : List Repository
  pub files : List FileRow
  pub symbols : List Symbol
  pub call_edges : List CallEdge
  pub next_file_id : ℕ
  pub now : ℕ

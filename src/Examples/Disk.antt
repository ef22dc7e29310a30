-- ===== src/Examples/Disk.antt =====
-- Runs of what reads a clone and of the worker's handler.
use know_your_repo.Prelude.{◌≡◌, refl, true, false, [], ◌∷◌, ◌++◌, some, none, if◌then◌else◌}
use know_your_repo.Text.{codes, same, is_among, has_prefix, split, push_front, join}
use know_your_repo.Store.{IngestionJob, JobStatus, Repository}
use know_your_repo.Store.Jobs.{find_job, find_by_id, update_job_status, update_job_stage}
use know_your_repo.Pool.{new_pool}
use know_your_repo.Repos.World.{World, return, db_call}
use know_your_repo.Repos.Running.{Machine, ingest_repository, handle_ingestion_job}
use know_your_repo.Repos.Running.Recorded.{IsRecorded, handle-HasStatus}
use know_your_repo.Walker.{Walker, Entries, walk_repo, is_skipped}
use know_your_repo.Walker.Accepted.{accepted, capped, walk_repo-accepted}
use know_your_repo.Files.{Platform, Stat, get_file_content}
use know_your_repo.Files.Contained.{IsServed, get_file_content-IsServed}

abbrev tree : Entries
tree =
    Entries.directory (codes "node_modules") (Entries.unreadable (codes "x") Entries.done)
      (Entries.file (codes "a.go") (some 10) (Entries.file (codes "b.py") none Entries.done))

abbrev one_file : Walker
one_file = record { max_files = 1; max_file_bytes = 100 }

walk_repo-accepted_example :
    walk_repo one_file (codes "repo") (codes "data/repo") tree
    ≡ some (
        if is_skipped (codes "repo") (codes "repo")
        then []
        else capped 1 (accepted one_file (codes "repo") (codes "data/repo") [] tree))
unfolding is_skipped is_among same has_prefix
walk_repo-accepted_example =
    walk_repo-accepted one_file (codes "repo") (codes "data/repo") tree refl

abbrev repository : Repository
repository = record {
  id = codes "r";
  repo_url = codes "u";
  created_at = 0;
  last_commit_sha = none;
  last_checked_at = none;
}

-- Every path is a small file, and paths are absolute as they stand.
abbrev platform : Platform
platform = record {
  is_abs = λ path. has_prefix path (codes "/");
  abs = λ path. some path;
  join = λ dir path. dir ++ b'/' ∷ path;
  stat = λ path. Stat.info false 5;
  read_file = λ path. some (codes "a");
  atoi = λ raw. none;
}

get_file_content-IsServed_example : IsServed platform (codes "r") (codes "a.go") (codes "a")
unfolding get_file_content same has_prefix split push_front join
get_file_content-IsServed_example =
    get_file_content-IsServed platform (some (some repository)) (codes "r") (codes "a.go") [] []
      (codes "a") refl

abbrev job : IngestionJob
job = record {
  id = codes "r";
  repo_url = codes "u";
  status = JobStatus.pending;
  error_message = none;
  stage = none;
  parse_status = none;
  embed_status = none;
  created_at = 0;
  updated_at = 0;
}

abbrev world : World
world = record {
  db = record {
    ingestion_jobs = job ∷ [];
    repositories = [];
    files = [];
    symbols = [];
    call_edges = [];
    next_file_id = 1;
    now = 5;
  };
  pool = new_pool 1 1;
  background = [];
  db_faults = [];
}

-- The repository is too large.
abbrev machine : Machine
machine = record {
  size_ok = false;
  clone_on_disk = false;
  remove_ok = true;
  clone_ok = true;
  sync_ok = true;
  head_commit_sha = none;
  embed_model = none;
  walk = none;
}

handle-HasStatus_example :
    IsRecorded false true
      (codes "too large")
      (codes "r")
      (ingest_repository (λ model files. return tt) machine (codes "r") world).0
      (handle_ingestion_job
        (ingest_repository (λ model files. return tt) machine (codes "r"))
        false
        true
        (codes "too large")
        (codes "r")
        world).1.db.ingestion_jobs
unfolding ingest_repository find_job find_by_id same db_call update_job_status update_job_stage
handle-HasStatus_example =
    handle-HasStatus (λ model files. return tt) machine false true (codes "too large") (codes "r")
      world refl

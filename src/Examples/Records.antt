-- ===== src/Examples/Records.antt =====
-- Runs of the search over the tables of the store.
use know_your_repo.Prelude.{ℕ, ◌≡◌, refl, true, [], ◌∷◌, none, All}
use know_your_repo.Text.{codes, to_lower, lower_byte}
use know_your_repo.Store.{Db}
use know_your_repo.Store.Reads.{like, ilike_within}
use know_your_repo.Retrieval.Lexical.{lexical_search}
use know_your_repo.Retrieval.Database.{lookups_of}
use know_your_repo.Retrieval.Database.OnRecord.{IsOnRecord, lexical_search-IsOnRecord}

-- The underscore of an identifier matches any character.
underscore_matches_any : ilike_within (codes "add_job") (codes "ReAddXJobs") ≡ true
unfolding ilike_within like to_lower lower_byte
underscore_matches_any = refl

abbrev tables : Db
tables = record {
  ingestion_jobs = [];
  repositories = [];
  files =
      record {
        id = 1;
        repo_id = codes "r";
        path = codes "room.go";
        language = codes "go";
        hash = none;
        embedded_model = none;
      }
      ∷ [];
  symbols =
      record {
        file_id = 1;
        name = codes "HandleWord";
        type = codes "method";
        start_line = 1;
        end_line = 2;
      }
      ∷ [];
  call_edges =
      record {
        repo_id = codes "r";
        caller_symbol = codes "HandleWord";
        caller_file_path = codes "room.go";
        callee_symbol = codes "handleword.log";
      }
      ∷ [];
  next_file_id = 2;
  now = 0;
}

abbrev no_distance : ℕ
no_distance = 0

lexical_search-IsOnRecord_example :
    All (IsOnRecord no_distance (λ path. none) (λ groups. groups) (codes "r") tables) (
      lexical_search no_distance
        (lookups_of (λ path. none) (λ groups. groups) (codes "r") tables)
        (codes "handleword"))
lexical_search-IsOnRecord_example =
    lexical_search-IsOnRecord no_distance (λ path. none) (λ groups. groups) (codes "r") tables
      (λ groups g m. m) (codes "handleword")

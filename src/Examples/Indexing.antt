-- ===== src/Examples/Indexing.antt =====
-- Runs of what indexes a repository: the files, the chunks of a function, the batches.
use mathlib.Core.List.{Memᴰ}
use know_your_repo.Prelude.{ℕ, ◌≡◌, refl, sym, Bool, true, false, List, [], ◌∷◌, some, none, ltb}
use mathlib.Core.Path.{subst}
use know_your_repo.Text.{Text, codes, same}
use know_your_repo.Chunk.{Chunk, split_chunk, over_lap_chars}
use know_your_repo.Chunk.Stitch.{stitch, contents, AllPieces, split_chunk-stitch}
use know_your_repo.Guardrails.{FileChunkSpan}
use know_your_repo.Store.{Db, CallEdge}
use know_your_repo.Store.Files.{FileRecord, get_file_hashes_by_repo, is_file_of}
use know_your_repo.Store.Files.EdgeLaws.{edges_of}
use know_your_repo.Ingest.{FileInfo, Disk, prior_of, content_unchanged, index_repository}
use know_your_repo.Ingest.Edges.{IsRight, edge_rows}
use know_your_repo.Ingest.Fresh.{index_repository-fresh, index_repository-gone}

abbrev file_a : FileInfo
file_a = record { path = codes "a.go"; rel_path = codes "a.go"; language = codes "go" }

abbrev repo : Text
repo = codes "r"

-- In every file f calls g.
abbrev disk : Disk
disk = record {
  hash_file = λ _. some (codes "new");
  analyse = λ _.
      some
        (record { chunks = codes "f()" ∷ []; symbols = []; edges = (codes "f", codes "g") ∷ [] });
}

abbrev old_edge : Text → CallEdge
old_edge path = record {
  repo_id = repo;
  caller_symbol = codes "f";
  caller_file_path = path;
  callee_symbol = codes "h";
}

-- On record are a.go, as it was before, and b.go, which is no more.
abbrev old_db : Db
old_db = record {
  ingestion_jobs = [];
  repositories = [];
  files =
      record {
        id = 1;
        repo_id = repo;
        path = codes "a.go";
        language = codes "go";
        hash = some (codes "old");
        embedded_model = none;
      }
      ∷ record {
        id = 2;
        repo_id = repo;
        path = codes "b.go";
        language = codes "go";
        hash = some (codes "b");
        embedded_model = none;
      }
      ∷ [];
  symbols = [];
  call_edges = old_edge (codes "a.go") ∷ old_edge (codes "b.go") ∷ [];
  next_file_id = 3;
  now = 0;
}

abbrev old_record : FileRecord
old_record = record { id = 1; hash = codes "old"; embedded_model = [] }

changed-IsRight : (es : List CallEdge) → IsRight disk repo file_a (some old_record) es
unfolding content_unchanged same
changed-IsRight es = record {
  new = λ e. cc;
  same_text = λ hash e c.
      let read : codes "new" ≡ hash = cc in
      let clash : false ≡ true = subst (λ h. same (codes "old") h ≡ true) (sym read) c in cc;
}

prior_a : prior_of file_a.path (get_file_hashes_by_repo repo old_db) ≡ some old_record
unfolding prior_of get_file_hashes_by_repo is_file_of same
prior_a = refl

index_repository-fresh_example :
    edges_of repo (codes "a.go") (index_repository disk repo [] (file_a ∷ []) old_db).db
    ≡ edge_rows repo (codes "a.go") (disk.analyse file_a)
unfolding prior_of get_file_hashes_by_repo is_file_of same
index_repository-fresh_example =
    index_repository-fresh disk repo [] (file_a ∷ []) old_db file_a (codes "new") refl
      (Memᴰ.head refl) refl (changed-IsRight _)

index_repository-gone_example :
    edges_of repo (codes "b.go") (index_repository disk repo [] (file_a ∷ []) old_db).db ≡ []
unfolding get_file_hashes_by_repo is_file_of same
index_repository-gone_example =
    index_repository-gone disk repo [] (file_a ∷ []) old_db (codes "b.go") refl refl

abbrev short_function : Chunk
short_function = record {
  id = codes "1";
  repo_id = codes "r";
  file_path = codes "a.go";
  language = codes "go";
  symbol_name = codes "f";
  content = codes "func f() { g() }";
  start_line = 1;
  end_line = 1;
}

split_chunk-stitch_example :
    (cs : List Chunk) × (split_chunk short_function ≡ some cs)
    × (stitch over_lap_chars (contents cs) ≡ codes "func f() { g() }")
    × AllPieces short_function cs
split_chunk-stitch_example = split_chunk-stitch short_function

-- The requests before the third item succeed.
abbrev sidecar : ℕ → List ℕ → Bool
sidecar start batch = ltb start 2

abbrev items : List ℕ
items = 10 ∷ 11 ∷ 12 ∷ []

abbrev spans : List FileChunkSpan
spans =
    record { path = codes "a.go"; start = 0; end = 2 }
    ∷ record { path = codes "b.go"; start = 2; end = 3 }
    ∷ []

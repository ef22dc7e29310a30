-- ===== src/Ingest.antt =====
-- The incremental part of ingestRepository, and processFile (api/internal/api/repos.go): the walked
-- files are compared by hash with the files on record, and what changed is indexed anew. The disk
-- with the parser and the extractors is a parameter; the calls of the database succeed.
pub mod Edges
pub mod Fresh
use know_your_repo.Prelude.{
  ℕ, ◌+◌, Bool, true, false, not, ◌&&◌, ◌||◌, List, [], ◌∷◌, ◌++◌, map, Option, some, none, length,
  if◌then◌else◌,
}
use know_your_repo.Text.{Text, same, is_empty, IsDistinct, is_among}
use know_your_repo.Store.{Db, Symbol, CallEdge}
use know_your_repo.Store.Files.{
  FileRecord, get_file_hashes_by_repo, delete_file_by_path, delete_symbols_and_call_edges,
  insert_file, insert_symbol, insert_call_edge,
}
use know_your_repo.Guardrails.{FileChunkSpan}
use mathlib.Core.Option

-- ingestion.FileInfo
pub record FileInfo : Type 0 where
  pub path : Text
  pub rel_path : Text
  pub language : Text

-- A symbol that the extractor finds.
pub record SymbolInfo : Type 0 where
  pub name : Text
  pub type : Text
  pub start_line : ℕ
  pub end_line : ℕ

-- What processFile makes of a file's text: the texts of its chunks, its symbols, its call edges.
pub record Analysis : Type 0 where
  pub chunks : List Text
  pub symbols : List SymbolInfo
  pub edges : List (Text × Text)

-- HashFile of a path, or an error; and the analysis, or the error of the parser or the extractor.
pub record Disk : Type 0 where
  pub hash_file : Text → Option Text
  pub analyse : FileInfo → Option Analysis

pub record Run : Type 0 where
  pub db : Db
  -- DeleteEmbeddings requests, by path
  pub purged : List Text
  pub seen_paths : List Text
  pub spans : List FileChunkSpan
  pub embed_items : List Text
  pub skipped : ℕ
  pub processed : ℕ
  pub reembedded : ℕ

-- `existing[path]`
unfoldable pub prior_of : Text → List (Text × FileRecord) → Option FileRecord
prior_of path [] = none
prior_of path ((p, r) ∷ rest) = if same p path then some r else prior_of path rest

insert_edges : Text → Text → List (Text × Text) → Db → Db
insert_edges repo path [] db = db
insert_edges repo path ((caller, callee) ∷ edges) db = insert_edges repo path edges (
    insert_call_edge
      (record {
        repo_id = repo;
        caller_symbol = caller;
        caller_file_path = path;
        callee_symbol = callee;
      })
      db)

insert_symbols : ℕ → List SymbolInfo → Db → Db
insert_symbols file_id [] db = db
insert_symbols file_id (s ∷ ss) db = insert_symbols file_id ss (
    insert_symbol
      (record {
        file_id = file_id;
        name = s.name;
        type = s.type;
        start_line = s.start_line;
        end_line = s.end_line;
      })
      db)

-- What processFile stores once the file row is there: on an error nothing more.
store_analysis : Text → Text → ℕ → Option Analysis → Db → Db
unfolding insert_edges insert_symbols
store_analysis repo path file_id none db = db
store_analysis repo path file_id (some a) db =
    insert_symbols file_id a.symbols (insert_edges repo path a.edges db)

pub process_file : Disk → Text → FileInfo → Text → Db → Option Analysis × Db
unfolding store_analysis
process_file disk repo file hash db =
    let (id, db') = insert_file repo file.path file.language hash db in
    (disk.analyse file, store_analysis repo file.path id (disk.analyse file) db')

unfoldable pub content_unchanged : Option FileRecord → Text → Bool
content_unchanged none hash = false
content_unchanged (some prior) hash = same prior.hash hash

-- `prior.EmbeddedModel`, of the zero record where there is none.
abbrev pub prior_model : Option FileRecord → Text
prior_model none = []
prior_model (some prior) = prior.embedded_model

pub needs_embedding : Text → Option FileRecord → Bool
needs_embedding model prior = not (is_empty model) && not (same (prior_model prior) model)

-- A file on record is cleared before it is indexed anew.
purge : Text → FileInfo → Option FileRecord → Run → Run
purge repo file none run = run
purge repo file (some prior) run = record run {
  db = delete_symbols_and_call_edges repo prior.id file.path run.db;
  purged = run.purged ++ file.path ∷ [];
}

-- The chunks, the span and the counters of a file that was processed.
collect : FileInfo → Bool → Option Analysis → Run → Run
collect file unchanged none run = run
collect file unchanged (some a) run = record run {
  spans =
      run.spans
      ++ record {
        path = file.path;
        start = length run.embed_items;
        end = length run.embed_items + length a.chunks;
      }
        ∷ [];
  embed_items = run.embed_items ++ a.chunks;
  processed = if unchanged then run.processed else run.processed + 1;
  reembedded = if unchanged then run.reembedded + 1 else run.reembedded;
}

index_file : Disk → Text → FileInfo → Text → Option FileRecord → Run → Run
unfolding purge collect process_file
index_file disk repo file hash prior run =
    let cleared = purge repo file prior run in
    let (analysis, db') = process_file disk repo file hash cleared.db in
    collect file (content_unchanged prior hash) analysis (record cleared { db = db' })

visit_hashed : Disk → Text → Text → FileInfo → Text → Option FileRecord → Run → Run
unfolding index_file
visit_hashed disk repo model file hash prior run =
    if content_unchanged prior hash && not (needs_embedding model prior)
    then record run { skipped = run.skipped + 1 }
    else index_file disk repo file hash prior run

-- A file that cannot be hashed is passed over.
visit_if_hashed : Disk → Text → Text → FileInfo → Option Text → Option FileRecord → Run → Run
unfolding visit_hashed
visit_if_hashed disk repo model file none prior run = run
visit_if_hashed disk repo model file (some hash) prior run =
    visit_hashed disk repo model file hash prior run

-- The body of the loop over the walked files.
pub visit : Disk → Text → Text → List (Text × FileRecord) → FileInfo → Run → Run
unfolding visit_if_hashed
visit disk repo model existing file run =
    visit_if_hashed disk repo model file (disk.hash_file file.path) (prior_of file.path existing)
      (record run { seen_paths = file.path ∷ run.seen_paths })

pub visit_all : Disk → Text → Text → List (Text × FileRecord) → List FileInfo → Run → Run
visit_all disk repo model existing [] run = run
visit_all disk repo model existing (file ∷ files) run =
    visit_all disk repo model existing files (visit disk repo model existing file run)

-- A file on record that the walk did not see is deleted.
unfoldable delete_if_unseen : Text → Text → Run → Run
delete_if_unseen repo path run =
    if is_among path run.seen_paths
    then run
    else record run { db = delete_file_by_path repo path run.db; purged = run.purged ++ path ∷ [] }

-- The loop over the files on record.
pub delete_unseen : Text → List (Text × FileRecord) → Run → Run
unfolding delete_if_unseen
delete_unseen repo [] run = run
delete_unseen repo ((path, _) ∷ rest) run = delete_unseen repo rest (delete_if_unseen repo path run)

abbrev pub fresh_run : Db → Run
fresh_run db = record {
  db = db;
  purged = [];
  seen_paths = [];
  spans = [];
  embed_items = [];
  skipped = 0;
  processed = 0;
  reembedded = 0;
}

pub index_repository : Disk → Text → Text → List FileInfo → Db → Run
index_repository disk repo model files db =
    let existing = get_file_hashes_by_repo repo db in
    delete_unseen repo existing (visit_all disk repo model existing files (fresh_run db))

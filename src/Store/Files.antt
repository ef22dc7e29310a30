-- ===== src/Store/Files.antt =====
-- The tables files, symbols and call_edges: file_repo.go, symbol_repo.go, callgraph.go,
-- graph_queries.go and the part of sync_repo.go that is about files.
pub mod EdgeLaws
use know_your_repo.Prelude.{
  ℕ, suc, ◌+◌, Bool, true, false, not, ◌&&◌, ◌||◌, List, [], ◌∷◌, ◌++◌, map, Option, some, none,
  length, select, ◌==◌, if◌then◌else◌,
}
use know_your_repo.Text.{Text, same, is_among}
use know_your_repo.Store.{Db, FileRow, Symbol, CallEdge}
use mathlib.Core.Option

pub record FileRecord : Type 0 where
  pub id : ℕ
  pub hash : Text
  pub embedded_model : Text

-- sql.NullString: the empty string for NULL.
abbrev pub null_string : Option Text → Text
null_string o = Option.get_or o []

unfoldable pub is_file_of : Text → FileRow → Bool
is_file_of repo f = same f.repo_id repo

-- The row of UNIQUE(repo_id, path).
unfoldable pub is_row : Text → Text → FileRow → Bool
is_row repo path f = same f.repo_id repo && same f.path path

-- GetFileHashesByRepo: the map from paths, as its entries.
unfoldable pub get_file_hashes_by_repo : Text → Db → List (Text × FileRecord)
unfolding is_file_of
get_file_hashes_by_repo repo db =
    map
      (λ f. (
        f.path,
        record {
          id = f.id;
          hash = null_string f.hash;
          embedded_model = null_string f.embedded_model;
        },
      ))
      (select (is_file_of repo) db.files)

unfoldable pub is_edge_of : Text → Text → CallEdge → Bool
is_edge_of repo path e = same e.repo_id repo && same e.caller_file_path path

has_id : ℕ → List FileRow → Bool
has_id id [] = false
has_id id (f ∷ fs) = (f.id == id) || has_id id fs

-- DeleteFileByPath; deleting a file cascades to its symbols.
unfoldable pub delete_file_by_path : Text → Text → Db → Db
unfolding is_edge_of is_row has_id
delete_file_by_path repo path db = record db {
  call_edges = select (λ e. not (is_edge_of repo path e)) db.call_edges;
  files = select (λ f. not (is_row repo path f)) db.files;
  symbols = select (λ s. not (has_id s.file_id (select (is_row repo path) db.files))) db.symbols;
}

-- DeleteSymbolsAndCallEdges
unfoldable pub delete_symbols_and_call_edges : Text → ℕ → Text → Db → Db
unfolding is_edge_of
delete_symbols_and_call_edges repo file_id path db = record db {
  symbols = select (λ s. not (s.file_id == file_id)) db.symbols;
  call_edges = select (λ e. not (is_edge_of repo path e)) db.call_edges;
}

-- ON CONFLICT (repo_id, path) DO UPDATE … RETURNING id
upsert_file : ℕ → Text → Text → Text → Text → List FileRow → List FileRow × ℕ
unfolding is_row
upsert_file next repo path language hash [] = (
  record {
    id = next;
    repo_id = repo;
    path = path;
    language = language;
    hash = some hash;
    embedded_model = none;
  }
      ∷ [],
  next,
)
upsert_file next repo path language hash (f ∷ fs) =
    let (rest, id) = upsert_file next repo path language hash fs in
    if is_row repo path f
    then (record f { language = language; hash = some hash; embedded_model = none } ∷ fs, f.id)
    else (f ∷ rest, id)

unfoldable pub insert_file : Text → Text → Text → Text → Db → ℕ × Db
unfolding upsert_file
insert_file repo path language hash db =
    let (files, id) = upsert_file db.next_file_id repo path language hash db.files in
    (id, record db { files = files; next_file_id = suc db.next_file_id })

unfoldable pub insert_symbol : Symbol → Db → Db
insert_symbol s db = record db { symbols = db.symbols ++ s ∷ [] }

unfoldable pub insert_call_edge : CallEdge → Db → Db
insert_call_edge e db = record db { call_edges = db.call_edges ++ e ∷ [] }

-- MarkFilesEmbedded: path = ANY(paths)
unfoldable pub mark_files_embedded : Text → List Text → Text → Db → Db
unfolding is_file_of is_among
mark_files_embedded repo paths model db = record db {
  files =
      map
        (λ f.
          if is_file_of repo f && is_among f.path paths
          then record f { embedded_model = some model }
          else f)
        db.files;
}

-- embedded_model IS DISTINCT FROM model
is_embedded_with : Text → FileRow → Bool
is_embedded_with model f = elim f.embedded_model [ none ↦ false | some m ↦ same m model ]

unfoldable pub count_files_pending_embedding : Text → Text → Db → ℕ
unfolding is_file_of is_embedded_with
count_files_pending_embedding repo model db =
    length (select (λ f. is_file_of repo f && not (is_embedded_with model f)) db.files)

-- ===== src/Ingest/Edges.antt =====
-- What the visit of one file does to the call edges on record.
use know_your_repo.Prelude.{
  ℕ, ◌≡◌, refl, ap, sym, ◌∙◌, Bool, true, false, not, ◌&&◌, List, [], ◌∷◌, ◌++◌, map, Option, some,
  none, arith, Bool-cases, inl, inr,
}
use mathlib.Core.List.{append-nil, append_assoc}
use know_your_repo.Text.{Text, same, same_iff, same_refl}
use know_your_repo.Store.{Db, CallEdge}
use know_your_repo.Store.Files.{FileRecord, insert_call_edge, is_edge_of}
use know_your_repo.Store.Files.EdgeLaws.{
  edges_of, edges_of-insert_file, edges_of-insert_symbol, edges_of-insert_call_edge, edges_of-clear,
  edges_of-clear_other,
}
use know_your_repo.Ingest.{
  FileInfo, Analysis, Disk, Run, SymbolInfo, insert_edges, insert_symbols, store_analysis,
  process_file, content_unchanged, needs_embedding, purge, collect, index_file, visit_hashed,
  visit_if_hashed, visit, prior_of,
}

-- The rows of the calls that the analysis of a file finds.
abbrev pub edge_row : Text → Text → Text × Text → CallEdge
edge_row repo path (caller, callee) = record {
  repo_id = repo;
  caller_symbol = caller;
  caller_file_path = path;
  callee_symbol = callee;
}

abbrev pub edge_rows : Text → Text → Option Analysis → List CallEdge
edge_rows repo path none = []
edge_rows repo path (some a) = map (edge_row repo path) a.edges

module _ (repo path : Text) where
  edges_of-insert_symbols :
      (id : ℕ) (ss : List SymbolInfo) (db : Db)
      → edges_of repo path (insert_symbols id ss db) ≡ edges_of repo path db
  unfolding insert_symbols
  edges_of-insert_symbols id [] db = refl
  edges_of-insert_symbols id (s ∷ ss) db =
      edges_of-insert_symbols id ss _ ∙ edges_of-insert_symbol repo path _ db

  own-edge : (e : Text × Text) → is_edge_of repo path (edge_row repo path e) ≡ true
  unfolding is_edge_of
  own-edge (a, b) = rw (same_refl repo, same_refl path)

  edges_of-insert_edges :
      (es : List (Text × Text)) (db : Db)
      → edges_of repo path (insert_edges repo path es db)
        ≡ edges_of repo path db ++ map (edge_row repo path) es
  unfolding insert_edges
  edges_of-insert_edges [] db = sym (append-nil _)
  edges_of-insert_edges ((a, b) ∷ es) db =
      edges_of-insert_edges es (insert_call_edge (edge_row repo path (a, b)) db)
      ∙ rw (edges_of-insert_call_edge repo path (edge_row repo path (a, b)) db, own-edge (a, b))
          (append_assoc (edges_of repo path db) (edge_row repo path (a, b) ∷ []) _)

  edges_of-store :
      (id : ℕ) (analysis : Option Analysis) (db : Db)
      → edges_of repo path (store_analysis repo path id analysis db)
        ≡ edges_of repo path db ++ edge_rows repo path analysis
  unfolding store_analysis
  edges_of-store id none db = sym (append-nil _)
  edges_of-store id (some a) db =
      edges_of-insert_symbols id a.symbols _ ∙ edges_of-insert_edges a.edges db

  module _ (other : Text) (differ : same path other ≡ false) where
    foreign-edge : (e : Text × Text) → is_edge_of repo path (edge_row repo other e) ≡ false
    unfolding is_edge_of
    foreign-edge (a, b) = ground (arith, same_iff path other, same_iff other path)

    edges_of-insert_edges_other :
        (es : List (Text × Text)) (db : Db)
        → edges_of repo path (insert_edges repo other es db) ≡ edges_of repo path db
    unfolding insert_edges
    edges_of-insert_edges_other [] db = refl
    edges_of-insert_edges_other ((a, b) ∷ es) db =
        edges_of-insert_edges_other es (insert_call_edge (edge_row repo other (a, b)) db)
        ∙ rw
            (
              edges_of-insert_call_edge repo path (edge_row repo other (a, b)) db,
              foreign-edge (a, b),
            )
            (append-nil _)

    edges_of-store_other :
        (id : ℕ) (analysis : Option Analysis) (db : Db)
        → edges_of repo path (store_analysis repo other id analysis db) ≡ edges_of repo path db
    unfolding store_analysis
    edges_of-store_other id none db = refl
    edges_of-store_other id (some a) db =
        edges_of-insert_symbols id a.symbols _ ∙ edges_of-insert_edges_other a.edges db

db-collect :
    (file : FileInfo) (unchanged : Bool) (analysis : Option Analysis) (run : Run)
    → (collect file unchanged analysis run).db ≡ run.db
unfolding collect
db-collect file unchanged none run = refl
db-collect file unchanged (some a) run = refl

seen-collect :
    (file : FileInfo) (unchanged : Bool) (analysis : Option Analysis) (run : Run)
    → (collect file unchanged analysis run).seen_paths ≡ run.seen_paths
unfolding collect
seen-collect file unchanged none run = refl
seen-collect file unchanged (some a) run = refl

module _ (disk : Disk) (repo : Text) (file : FileInfo) (hash : Text) where
  edges_of-process_file :
      (db : Db)
      → edges_of repo file.path (process_file disk repo file hash db).1
        ≡ edges_of repo file.path db ++ edge_rows repo file.path (disk.analyse file)
  unfolding process_file
  edges_of-process_file db =
      edges_of-store repo file.path _ (disk.analyse file) _
      ∙ ap (λ es. es ++ edge_rows repo file.path (disk.analyse file))
          (edges_of-insert_file repo file.path file.path file.language hash db)

  -- A file that is indexed has the edges that its analysis finds, and those alone.
  edges_of-index_file :
      (prior : Option FileRecord) (run : Run)
      → (prior ≡ none → edges_of repo file.path run.db ≡ [])
      → edges_of repo file.path (index_file disk repo file hash prior run).db
        ≡ edge_rows repo file.path (disk.analyse file)
  unfolding index_file purge
  edges_of-index_file none run new =
      ap (edges_of repo file.path) (db-collect file _ (disk.analyse file) _)
      ∙ edges_of-process_file run.db
      ∙ rw (new refl)
  edges_of-index_file (some prior) run new =
      ap (edges_of repo file.path) (db-collect file _ (disk.analyse file) _)
      ∙ edges_of-process_file _
      ∙ rw (edges_of-clear repo file.path prior.id run.db)

  module _ (other : Text) (differ : same other file.path ≡ false) where
    edges_of-process_other :
        (db : Db)
        → edges_of repo other (process_file disk repo file hash db).1 ≡ edges_of repo other db
    unfolding process_file
    edges_of-process_other db =
        edges_of-store_other repo other file.path differ _ (disk.analyse file) _
        ∙ edges_of-insert_file repo other file.path file.language hash db

    edges_of-index_other :
        (prior : Option FileRecord) (run : Run)
        → edges_of repo other (index_file disk repo file hash prior run).db
          ≡ edges_of repo other run.db
    unfolding index_file purge
    edges_of-index_other none run =
        ap (edges_of repo other) (db-collect file _ (disk.analyse file) _)
        ∙ edges_of-process_other run.db
    edges_of-index_other (some prior) run =
        ap (edges_of repo other) (db-collect file _ (disk.analyse file) _)
        ∙ edges_of-process_other _
        ∙ edges_of-clear_other repo file.path other differ prior.id run.db

-- The record of a file is right for the text that is on disk: a file that is not on record has no
-- edges, and where the hash on record is that of the text, the edges are those of its analysis.
pub record IsRight (disk : Disk) (repo : Text) (file : FileInfo) (prior : Option FileRecord)
    (es : List CallEdge) : Type 0 where
  pub new : prior ≡ none → es ≡ []
  pub same_text :
      (hash : Text)
      → disk.hash_file file.path ≡ some hash
      → content_unchanged prior hash ≡ true
      → es ≡ edge_rows repo file.path (disk.analyse file)

both-left : (a b : Bool) → (a && b) ≡ true → a ≡ true
both-left a b h = ground (arith)

module _ (disk : Disk) (repo model : Text) (file : FileInfo) (prior : Option FileRecord)
    (run : Run) where
  edges_of-visit_hashed :
      (hash : Text)
      → disk.hash_file file.path ≡ some hash
      → IsRight disk repo file prior (edges_of repo file.path run.db)
      → edges_of repo file.path (visit_hashed disk repo model file hash prior run).db
        ≡ edge_rows repo file.path (disk.analyse file)
  unfolding visit_hashed
  edges_of-visit_hashed hash e right =
      elim (Bool-cases (content_unchanged prior hash && not (needs_embedding model prior))) [
        | inl skip ↦
            rw skip (right.same_text hash e (both-left (content_unchanged prior hash) _ skip))
        | inr go ↦ rw go (edges_of-index_file disk repo file hash prior run right.new)
      ]

  edges_of-visit_if_other :
      (other : Text) (hash : Option Text)
      → same other file.path ≡ false
      → edges_of repo other (visit_if_hashed disk repo model file hash prior run).db
        ≡ edges_of repo other run.db
  unfolding visit_if_hashed visit_hashed
  edges_of-visit_if_other other none differ = refl
  edges_of-visit_if_other other (some hash) differ =
      elim (Bool-cases (content_unchanged prior hash && not (needs_embedding model prior))) [
        | inl skip ↦ rw skip
        | inr go ↦ rw go (edges_of-index_other disk repo file hash other differ prior run)
      ]

module _ (disk : Disk) (repo model : Text) (file : FileInfo) (run : Run) where
  seen-index_file :
      (hash : Text) (prior : Option FileRecord)
      → (index_file disk repo file hash prior run).seen_paths ≡ run.seen_paths
  unfolding index_file purge
  seen-index_file hash none = seen-collect file _ (disk.analyse file) _
  seen-index_file hash (some prior) = seen-collect file _ (disk.analyse file) _

  seen-visit_if_hashed :
      (hash : Option Text) (prior : Option FileRecord)
      → (visit_if_hashed disk repo model file hash prior run).seen_paths ≡ run.seen_paths
  unfolding visit_if_hashed visit_hashed
  seen-visit_if_hashed none prior = refl
  seen-visit_if_hashed (some hash) prior =
      elim (Bool-cases (content_unchanged prior hash && not (needs_embedding model prior))) [
        | inl skip ↦ rw skip
        | inr go ↦ rw go (seen-index_file hash prior)
      ]

module _ (disk : Disk) (repo model : Text) (existing : List (Text × FileRecord)) (file : FileInfo)
    (run : Run) where
  abbrev seen_run : Run
  seen_run = record run { seen_paths = file.path ∷ run.seen_paths }

  pub edges_of-visit :
      (hash : Text)
      → disk.hash_file file.path ≡ some hash
      → IsRight disk repo file (prior_of file.path existing) (edges_of repo file.path run.db)
      → edges_of repo file.path (visit disk repo model existing file run).db
        ≡ edge_rows repo file.path (disk.analyse file)
  unfolding visit visit_if_hashed
  edges_of-visit hash e right =
      ap
        (λ h.
          edges_of repo file.path
            (visit_if_hashed disk repo model file h (prior_of file.path existing) seen_run).db)
        e
      ∙ edges_of-visit_hashed disk repo model file (prior_of file.path existing) seen_run hash e
          right

  pub edges_of-visit_other :
      (other : Text)
      → same other file.path ≡ false
      → edges_of repo other (visit disk repo model existing file run).db
        ≡ edges_of repo other run.db
  unfolding visit
  edges_of-visit_other other differ =
      edges_of-visit_if_other disk repo model file (prior_of file.path existing) seen_run other
        (disk.hash_file file.path) differ

  -- Every visited path is noted as seen.
  pub seen-visit : (visit disk repo model existing file run).seen_paths ≡ file.path ∷ run.seen_paths
  unfolding visit
  seen-visit = seen-visit_if_hashed disk repo model file seen_run (disk.hash_file file.path) _

-- ===== src/Ingest/Fresh.antt =====
-- What an index run leaves in the table call_edges: the loops over the walked files and over the files
-- on record, and the whole run.
use know_your_repo.Prelude.{
  ◌≡◌, refl, ap, sym, ◌∙◌, Bool, true, false, not, ◌&&◌, ◌||◌, List, [], ◌∷◌, some, arith,
  Bool-cases, inl, inr,
}
use mathlib.Core.Path.{subst}
use mathlib.Core.List.{Memᴰ}
use know_your_repo.Text.{Text, same, same_iff, same_refl, same-cases, is_among}
use know_your_repo.Store.{Db}
use know_your_repo.Store.Files.{FileRecord, delete_file_by_path, get_file_hashes_by_repo}
use know_your_repo.Store.Files.EdgeLaws.{edges_of, edges_of-delete_other, edges_of-delete}
use know_your_repo.Ingest.{
  FileInfo, Disk, Run, visit, visit_all, delete_if_unseen, delete_unseen, prior_of, fresh_run,
  index_repository,
}
use know_your_repo.Ingest.Edges.{
  IsRight, edge_rows, edges_of-visit, edges_of-visit_other, seen-visit,
}

-- Is the path one of the walked files?
abbrev pub is_walked : Text → List FileInfo → Bool
is_walked path [] = false
is_walked path (f ∷ fs) = same f.path path || is_walked path fs

-- No two walked files have the same path.
abbrev pub is_distinct : List FileInfo → Bool
is_distinct [] = true
is_distinct (f ∷ fs) = not (is_walked f.path fs) && is_distinct fs

-- Is there a row of the table files for the path?
abbrev pub is_recorded : Text → List (Text × FileRecord) → Bool
is_recorded path [] = false
is_recorded path ((p, _) ∷ rest) = same p path || is_recorded path rest

same_sym : (a b : Text) → same a b ≡ same b a
same_sym a b = ground (arith, same_iff a b, same_iff b a)

walked-member : (f : FileInfo) (fs : List FileInfo) → Memᴰ f fs → is_walked f.path fs ≡ true
walked-member f [] m = elim m [ ]
walked-member f (g ∷ fs) (Memᴰ.head e) = rw (sym e, same_refl f.path)
walked-member f (g ∷ fs) (Memᴰ.tail m) = ground (arith, walked-member f fs m)

apart-seen :
    (path p : Text) (seen : List Text)
    → is_among path seen ≡ true
    → is_among p seen ≡ false
    → same path p ≡ false
apart-seen path p seen there absent = ground (arith, same_iff path p)

module _ (disk : Disk) (repo model : Text) (existing : List (Text × FileRecord)) where
  edges_of-visit_all_other :
      (path : Text) (files : List FileInfo) (run : Run)
      → is_walked path files ≡ false
      → edges_of repo path (visit_all disk repo model existing files run).db
        ≡ edges_of repo path run.db
  unfolding visit_all is_among
  edges_of-visit_all_other path [] run absent = refl
  edges_of-visit_all_other path (f ∷ fs) run absent =
      edges_of-visit_all_other path fs (visit disk repo model existing f run) (ground arith)
      ∙ edges_of-visit_other disk repo model existing f run path
          (same_sym path f.path ∙ ground arith)

  seen-visit_all :
      (path : Text) (files : List FileInfo) (run : Run)
      → is_among path (visit_all disk repo model existing files run).seen_paths
        ≡ (is_walked path files || is_among path run.seen_paths)
  unfolding visit_all is_among
  seen-visit_all path [] run = refl
  seen-visit_all path (f ∷ fs) run =
      seen-visit_all path fs (visit disk repo model existing f run)
      ∙ rw (seen-visit disk repo model existing f run) (ground arith)

module _ (repo path p : Text) (run : Run) where
  seen-delete : (delete_if_unseen repo p run).seen_paths ≡ run.seen_paths
  unfolding delete_if_unseen
  seen-delete = elim (Bool-cases (is_among p run.seen_paths)) [ inl e ↦ rw e | inr n ↦ rw n ]

  edges_of-delete_if :
      is_among path run.seen_paths ≡ true
      → edges_of repo path (delete_if_unseen repo p run).db ≡ edges_of repo path run.db
  unfolding delete_if_unseen
  edges_of-delete_if seen = elim (Bool-cases (is_among p run.seen_paths)) [
    | inl kept ↦ rw kept
    | inr gone ↦
        rw gone
          (edges_of-delete_other repo p path (apart-seen path p run.seen_paths seen gone) run.db)
  ]

  still_none :
      edges_of repo path run.db ≡ [] → edges_of repo path (delete_file_by_path repo p run.db) ≡ []
  still_none e = elim (same-cases path p) [
    | inl here ↦
        subst (λ q. edges_of repo path (delete_file_by_path repo q run.db) ≡ []) here
          (edges_of-delete repo path run.db)
    | inr away ↦ edges_of-delete_other repo p path away run.db ∙ e
  ]

  no_edges-delete :
      edges_of repo path run.db ≡ [] → edges_of repo path (delete_if_unseen repo p run).db ≡ []
  unfolding delete_if_unseen
  no_edges-delete e = elim (Bool-cases (is_among p run.seen_paths)) [
    | inl kept ↦ rw kept e
    | inr gone ↦ rw gone (still_none e)
  ]

gone-delete :
    (repo path : Text) (run : Run)
    → is_among path run.seen_paths ≡ false
    → edges_of repo path (delete_if_unseen repo path run).db ≡ []
unfolding delete_if_unseen
gone-delete repo path run gone = rw gone (edges_of-delete repo path run.db)

module _ (repo path : Text) where
  edges_of-delete_unseen :
      (existing : List (Text × FileRecord)) (run : Run)
      → is_among path run.seen_paths ≡ true
      → edges_of repo path (delete_unseen repo existing run).db ≡ edges_of repo path run.db
  unfolding delete_unseen
  edges_of-delete_unseen [] run seen = refl
  edges_of-delete_unseen ((p, r) ∷ rest) run seen =
      edges_of-delete_unseen rest (delete_if_unseen repo p run)
        (ap (is_among path) (seen-delete repo path p run) ∙ seen)
      ∙ edges_of-delete_if repo path p run seen

  no_edges-delete_unseen :
      (existing : List (Text × FileRecord)) (run : Run)
      → edges_of repo path run.db ≡ []
      → edges_of repo path (delete_unseen repo existing run).db ≡ []
  unfolding delete_unseen
  no_edges-delete_unseen [] run e = e
  no_edges-delete_unseen ((p, r) ∷ rest) run e =
      no_edges-delete_unseen rest (delete_if_unseen repo p run) (no_edges-delete repo path p run e)

  gone-delete_unseen :
      (existing : List (Text × FileRecord)) (run : Run)
      → is_recorded path existing ≡ true
      → is_among path run.seen_paths ≡ false
      → edges_of repo path (delete_unseen repo existing run).db ≡ []
  unfolding delete_unseen
  gone-delete_unseen [] run recorded unseen = cc
  gone-delete_unseen ((p, r) ∷ rest) run recorded unseen = elim (same-cases p path) [
    | inl here ↦ no_edges-delete_unseen rest _ (
        subst (λ q. edges_of repo path (delete_if_unseen repo q run).db ≡ []) (sym here)
          (gone-delete repo path run unseen))
    | inr away ↦
        gone-delete_unseen rest (delete_if_unseen repo p run) (ground arith)
          (ap (is_among path) (seen-delete repo path p run) ∙ unseen)
  ]

apart-walked :
    (f g : FileInfo) (fs : List FileInfo)
    → is_walked f.path fs ≡ true
    → is_walked g.path fs ≡ false
    → same f.path g.path ≡ false
apart-walked f g fs there absent = ground (arith, same_iff f.path g.path)

module _ (disk : Disk) (repo model : Text) (existing : List (Text × FileRecord)) (file : FileInfo)
    (hash : Text) where
  visit-then :
      (g : FileInfo) (fs : List FileInfo) (run : Run)
      → file ≡ g
      → is_walked g.path fs ≡ false
      → disk.hash_file file.path ≡ some hash
      → IsRight disk repo file (prior_of file.path existing) (edges_of repo file.path run.db)
      → edges_of repo file.path
          (visit_all disk repo model existing fs (visit disk repo model existing g run)).db
        ≡ edge_rows repo file.path (disk.analyse file)
  visit-then g fs run e absent hashed right =
      edges_of-visit_all_other disk repo model existing file.path fs _
        (subst (λ h. is_walked h.path fs ≡ false) (sym e) absent)
      ∙ subst
          (λ h.
            edges_of repo file.path (visit disk repo model existing h run).db
            ≡ edge_rows repo file.path (disk.analyse file))
          e (edges_of-visit disk repo model existing file run hash hashed right)

  edges_of-visit_all :
      (files : List FileInfo) (run : Run)
      → is_distinct files ≡ true
      → Memᴰ file files
      → disk.hash_file file.path ≡ some hash
      → IsRight disk repo file (prior_of file.path existing) (edges_of repo file.path run.db)
      → edges_of repo file.path (visit_all disk repo model existing files run).db
        ≡ edge_rows repo file.path (disk.analyse file)
  unfolding visit_all
  edges_of-visit_all [] run distinct m hashed right = elim m [ ]
  edges_of-visit_all (g ∷ fs) run distinct (Memᴰ.head e) hashed right =
      visit-then g fs run e (ground arith) hashed right
  edges_of-visit_all (g ∷ fs) run distinct (Memᴰ.tail m) hashed right =
      edges_of-visit_all fs (visit disk repo model existing g run) (ground arith) m hashed (
        subst (IsRight disk repo file (prior_of file.path existing))
          (sym (
            edges_of-visit_other disk repo model existing g run file.path
              (apart-walked file g fs (walked-member file fs m) (ground arith))))
          right)

module _ (disk : Disk) (repo model : Text) (files : List FileInfo) (db : Db) where
  abbrev recorded_files : List (Text × FileRecord)
  recorded_files = get_file_hashes_by_repo repo db

  abbrev walked_run : Run
  walked_run = visit_all disk repo model recorded_files files (fresh_run db)

  -- After an index run, the call edges on record for a walked file are those that the analysis of its
  -- text on disk finds, each once and in order (none where the analysis fails). The conditions: no two
  -- walked files have one path, the file can be hashed, and before the run the record of the file was
  -- right, that is: a file that was not on record had no edges, and where the hash on record was that
  -- of the text on disk, the edges were those of its analysis.
  pub index_repository-fresh :
      (file : FileInfo) (hash : Text)
      → is_distinct files ≡ true
      → Memᴰ file files
      → disk.hash_file file.path ≡ some hash
      → IsRight disk repo file (prior_of file.path recorded_files) (edges_of repo file.path db)
      → edges_of repo file.path (index_repository disk repo model files db).db
        ≡ edge_rows repo file.path (disk.analyse file)
  unfolding index_repository
  index_repository-fresh file hash distinct m hashed right =
      edges_of-delete_unseen repo file.path recorded_files walked_run (
        seen-visit_all disk repo model recorded_files file.path files (fresh_run db)
        ∙ rw (walked-member file files m))
      ∙ edges_of-visit_all disk repo model recorded_files file hash files (fresh_run db) distinct m
          hashed right

  -- After an index run, a path that was on record and that the walk did not see has no call edges on
  -- record.
  pub index_repository-gone :
      (path : Text)
      → is_recorded path recorded_files ≡ true
      → is_walked path files ≡ false
      → edges_of repo path (index_repository disk repo model files db).db ≡ []
  unfolding index_repository is_among
  index_repository-gone path recorded unseen =
      gone-delete_unseen repo path recorded_files walked_run recorded
        (seen-visit_all disk repo model recorded_files path files (fresh_run db) ∙ rw unseen)

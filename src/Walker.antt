-- ===== src/Walker.antt =====
-- The files of a repository that are indexed: WalkRepo of api/internal/ingestion/walker.go, and
-- ReadReadme. A path has `/` between its parts; the walk is not cancelled.
pub mod Accepted
use know_your_repo.Prelude.{
  ℕ, zero, suc, ◌+◌, ◌==◌, Bool, true, false, not, ◌&&◌, ◌||◌, List, [], ◌∷◌, ◌++◌, map, Option,
  some, none, length, take, leb, ltb, if◌then◌else◌,
}
use know_your_repo.Text.{
  Text, codes, same, is_among, is_empty, has_prefix, has_suffix, contains, to_lower,
}
use know_your_repo.Ingest.{FileInfo}

-- The limits; zero disables one.
pub record Walker : Type 0 where
  pub max_files : ℕ
  pub max_file_bytes : ℕ

-- What a directory holds, in the order of the names: files with their size, where it can be read,
-- directories, and an error that WalkDir reports, of an entry or of reading the directory itself.
pub data Entries : Type 0 where
  done : Entries
  file : Text → Option ℕ → Entries → Entries
  directory : Text → Entries → Entries → Entries
  unreadable : Text → Entries → Entries

abbrev pub ignored_dirs : List Text
ignored_dirs = map codes (
    ".git" ∷ "node_modules" ∷ "dist" ∷ "build" ∷ ".next" ∷ "vendor" ∷ "venv" ∷ ".venv" ∷ "coverage"
    ∷ "target" ∷ "site-packages" ∷ "__pycache__" ∷ [])

unfoldable pub is_ignored : Text → Bool
unfolding is_among
is_ignored name = is_among name ignored_dirs

-- The two tests of a directory, the first of which asks for the second.
unfoldable pub is_skipped : Text → Text → Bool
unfolding is_ignored has_prefix same
is_skipped root_name name =
    ((not (same name root_name) && has_prefix name (codes ".")) && is_ignored name)
    || is_ignored name

-- filepath.Ext
unfoldable pub extension : Text → Text
unfolding is_empty contains
extension [] = []
extension (c ∷ s) =
    let rest = extension s in
    if not (is_empty rest)
    then rest
    else if (c == b'.') && not (contains s (codes "/"))
    then c ∷ s
    else []

abbrev languages : List (Text × Text)
languages =
    (codes ".go", codes "go")
    ∷ (codes ".py", codes "python")
    ∷ (codes ".js", codes "javascript")
    ∷ (codes ".jsx", codes "javascript")
    ∷ (codes ".ts", codes "typescript")
    ∷ (codes ".tsx", codes "typescript")
    ∷ (codes ".cpp", codes "cpp")
    ∷ (codes ".c", codes "cpp")
    ∷ (codes ".java", codes "java")
    ∷ (codes ".html", codes "html")
    ∷ (codes ".css", codes "css")
    ∷ []

language_of : Text → List (Text × Text) → Text
language_of ext [] = []
language_of ext (l ∷ ls) = if same l.0 ext then l.1 else language_of ext ls

unfoldable pub detect_language : Text → Text
unfolding language_of extension same to_lower
detect_language path = language_of (to_lower (extension path)) languages

unfoldable pub is_minified : Text → Bool
unfolding contains has_suffix to_lower
is_minified name =
    let lower = to_lower name in
    contains lower (codes ".min.")
    || (has_suffix lower (codes ".bundle.js") || has_suffix lower (codes "-bundle.js"))

abbrev pub is_oversize : Walker → Option ℕ → Bool
is_oversize w none = false
is_oversize w (some size) = ltb 0 w.max_file_bytes && ltb w.max_file_bytes size

-- The path below the root.
abbrev pub join_path : Text → Text → Text
join_path at name = if is_empty at then name else at ++ b'/' ∷ name

abbrev pub full_path : Text → Text → Text
full_path root rel = root ++ b'/' ∷ rel

-- A file that is left out: without a language, minified, or too large.
unfoldable pub is_passed_over : Walker → Text → Text → Text → Option ℕ → Bool
unfolding is_empty detect_language is_minified
is_passed_over w root at name size =
    is_empty (detect_language (full_path root (join_path at name)))
    || (is_minified name || is_oversize w size)

abbrev pub file_info : Text → Text → FileInfo
file_info root rel = record {
  path = full_path root rel;
  rel_path = rel;
  language = detect_language (full_path root rel);
}

-- SkipAll, or an error.
pub data Status : Type 0 where
  going skipped_all failed : Status

pub record Walk : Type 0 where
  pub files : List FileInfo
  pub status : Status

abbrev pub has_ended : Status → Bool
has_ended going = false
has_ended skipped_all = true
has_ended failed = true

-- The end of the callback, for a file that is not left out. After SkipAll or an error nothing is visited.
unfoldable pub offer : Walker → FileInfo → Walk → Walk
offer w f st =
    if has_ended st.status
    then st
    else if ltb 0 w.max_files && leb w.max_files (length st.files)
    then record st { status = skipped_all }
    else record st { files = st.files ++ f ∷ [] }

unfoldable pub fail : Walk → Walk
fail st = if has_ended st.status then st else record st { status = failed }

unfoldable pub visit_file : Walker → Text → Text → Text → Option ℕ → Walk → Walk
unfolding is_passed_over offer
visit_file w root at name size st =
    if is_passed_over w root at name size
    then st
    else offer w (file_info root (join_path at name)) st

unfoldable pub walk : Walker → Text → Text → Text → Entries → Walk → Walk
unfolding visit_file fail is_skipped
walk w root_name root at done st = st
walk w root_name root at (file name size rest) st =
    walk w root_name root at rest (visit_file w root at name size st)
walk w root_name root at (directory name children rest) st =
    let inner = walk w root_name root (join_path at name) children st in
    walk w root_name root at rest (if is_skipped root_name name then st else inner)
walk w root_name root at (unreadable name rest) st = walk w root_name root at rest (fail st)

abbrev pub walked : Walk → Option (List FileInfo)
walked st = elim st.status [ going ↦ some st.files | skipped_all ↦ some st.files | failed ↦ none ]

-- WalkRepo, for a root whose last part is `root_name`; `none` is an error.
unfoldable pub walk_repo : Walker → Text → Text → Entries → Option (List FileInfo)
unfolding walk is_skipped
walk_repo w root_name root entries =
    let visited = walk w root_name root [] entries (record { files = []; status = going }) in
    if is_skipped root_name root_name then some [] else walked visited

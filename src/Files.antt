-- ===== src/Files.antt =====
-- Serving a file of a clone: GetFileContent of api/internal/api/files.go. What the packages filepath, os and
-- strconv do is a parameter, `Platform`; a line number below 1 is given as 0.
pub mod Contained
use know_your_repo.Prelude.{
  ℕ, ◌*◌, Bool, true, false, not, ◌&&◌, ◌||◌, List, [], ◌∷◌, ◌++◌, Option, some, none, ltb,
  if◌then◌else◌,
}
use know_your_repo.Text.{Text, codes, same, is_empty, has_prefix}
use know_your_repo.Store.{Repository}
use know_your_repo.Snippet.{extract_snippet}

abbrev pub max_servable_file_bytes : ℕ
max_servable_file_bytes = 2 * 1048576

-- os.Stat
pub data Stat : Type 0 where
  missing : Stat
  stat_failed : Stat
  info : Bool → ℕ → Stat

pub record Platform : Type 0 where
  pub is_abs : Text → Bool
  pub abs : Text → Option Text
  pub join : Text → Text → Text
  pub stat : Text → Stat
  pub read_file : Text → Option Text
  pub atoi : Text → Option ℕ

-- The answers, by their status; a restore of the clone is started with `unavailable`.
pub data FileResponse : Type 0 where
  bad_request : FileResponse
  not_found : FileResponse
  server_error : FileResponse
  too_large : FileResponse
  unavailable : FileResponse
  served : Text → FileResponse

-- The path is the directory or below it.
abbrev pub is_within : Text → Text → Bool
is_within repo_dir path = same path repo_dir || has_prefix path (repo_dir ++ b'/' ∷ [])

-- repoDirFor, whose parts are joined as filepath.Join does for a name that is one part.
abbrev pub repo_dir_for : Text → Text
repo_dir_for repo_id = codes "../data/repos/" ++ repo_id

module _ (os : Platform) where
  -- cloneExists
  unfoldable pub clone_exists : Text → Bool
  clone_exists repo_id = elim (os.stat (os.join (repo_dir_for repo_id) (codes ".git"))) [
    | missing ↦ false
    | stat_failed ↦ false
    | info is_dir size ↦ true
  ]

  -- A line number that is not given is 0.
  unfoldable pub get_line : Text → Option ℕ
  unfolding is_empty
  get_line raw = if is_empty raw then some 0 else os.atoi raw

  -- The excerpt, where both line numbers are read.
  unfoldable pub serve_lines : Text → Option ℕ → Option ℕ → FileResponse
  unfolding extract_snippet
  serve_lines content none end_line = bad_request
  serve_lines content (some start) none = bad_request
  serve_lines content (some start) (some end) = served (extract_snippet content start end)

  unfoldable pub serve_content : Text → Text → Option Text → FileResponse
  unfolding serve_lines get_line
  serve_content raw_start raw_end none = server_error
  serve_content raw_start raw_end (some content) =
      serve_lines content (get_line raw_start) (get_line raw_end)

  unfoldable pub serve_stat : Text → Text → Text → Stat → FileResponse
  unfolding serve_content
  serve_stat path raw_start raw_end missing = not_found
  serve_stat path raw_start raw_end stat_failed = server_error
  serve_stat path raw_start raw_end (info is_dir size) =
      if is_dir
      then bad_request
      else if ltb max_servable_file_bytes size
      then too_large
      else serve_content raw_start raw_end (os.read_file path)

  unfoldable pub serve_path : Text → Text → Text → Option Text → FileResponse
  unfolding serve_stat same has_prefix
  serve_path repo_dir raw_start raw_end none = server_error
  serve_path repo_dir raw_start raw_end (some path) =
      if is_within repo_dir path
      then serve_stat path raw_start raw_end (os.stat path)
      else bad_request

  unfoldable pub serve_below : Text → Text → Text → Option Text → FileResponse
  unfolding serve_path
  serve_below rel_path raw_start raw_end none = server_error
  serve_below rel_path raw_start raw_end (some repo_dir) =
      serve_path repo_dir raw_start raw_end (os.abs (os.join repo_dir rel_path))

  unfoldable pub serve_repository :
      Text → Text → Text → Text → Option (Option Repository) → FileResponse
  unfolding serve_below clone_exists
  serve_repository repo_id rel_path raw_start raw_end none = server_error
  serve_repository repo_id rel_path raw_start raw_end (some none) = not_found
  serve_repository repo_id rel_path raw_start raw_end (some (some repo)) =
      if clone_exists repo_id
      then serve_below rel_path raw_start raw_end (os.abs (repo_dir_for repo_id))
      else unavailable

  -- GetFileContent, for what the lookup of the repository gives; `none` is an error.
  unfoldable pub get_file_content :
      Option (Option Repository) → Text → Text → Text → Text → FileResponse
  unfolding serve_repository is_empty
  get_file_content lookup repo_id rel_path raw_start raw_end =
      if is_empty rel_path || os.is_abs rel_path
      then bad_request
      else serve_repository repo_id rel_path raw_start raw_end lookup

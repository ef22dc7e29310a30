-- ===== src/Validate.antt =====
-- api/internal/api/validate.go: which repository URLs are taken. `parse` is url.Parse, which gives
-- the parts of a URL or an error.
pub mod Canonical
use know_your_repo.Prelude.{
  ℕ, Bool, true, false, ◌&&◌, ◌||◌, not, List, [], ◌∷◌, ◌++◌, Option, some, none, length, leb, ltb,
  ◌==◌, if◌then◌else◌, take, ◌-◌,
}
use know_your_repo.Text.{Text, codes, same, is_empty, has_suffix, to_lower, trim_space, split}

pub record Url : Type 0 where
  pub scheme : Text
  pub hostname : Text
  pub port : Text
  pub has_user : Bool
  pub raw_query : Text
  pub fragment : Text
  pub opaque : Text
  pub path : Text

abbrev pub slash : ℕ
slash = b'/'

unfoldable pub all_bytes : (ℕ → Bool) → Text → Bool
all_bytes p [] = true
all_bytes p (c ∷ s) = p c && all_bytes p s

unfoldable pub is_alnum : ℕ → Bool
is_alnum c =
    (leb b'A' c && leb c b'Z') || ((leb b'a' c && leb c b'z') || (leb b'0' c && leb c b'9'))

-- ^[A-Za-z0-9][A-Za-z0-9-]{0,38}$
unfoldable pub is_owner : Text → Bool
unfolding all_bytes is_alnum
is_owner [] = false
is_owner (c ∷ s) = is_alnum c && (leb (length s) 38 && all_bytes (λ d. is_alnum d || (d == b'-')) s)

-- ^[A-Za-z0-9._-]{1,100}$
unfoldable pub is_repo : Text → Bool
unfolding all_bytes is_alnum
is_repo s =
    ltb 0 (length s)
    && (leb (length s) 100
        && all_bytes (λ d. is_alnum d || ((d == b'.') || ((d == b'_') || (d == b'-')))) s)

-- strings.Trim(s, "/")
unfoldable pub trim_left_slash : Text → Text
trim_left_slash [] = []
trim_left_slash (c ∷ s) = if c == slash then trim_left_slash s else c ∷ s

unfoldable pub trim_right_slash : Text → Text
trim_right_slash [] = []
trim_right_slash (c ∷ s) =
    let rest = trim_right_slash s in if (c == slash) && is_empty rest then [] else c ∷ rest

unfoldable pub trim_slashes : Text → Text
unfolding trim_left_slash trim_right_slash
trim_slashes s = trim_right_slash (trim_left_slash s)

abbrev pub dot_git : Text
dot_git = codes ".git"

-- strings.TrimSuffix(s, ".git")
unfoldable pub trim_dot_git : Text → Text
trim_dot_git s = if has_suffix s dot_git then take (length s - 4) s else s

unfoldable pub canonical : Text → Text → Text
canonical owner repo = codes "https://github.com/" ++ (owner ++ (slash ∷ repo))

-- The guards on what stands around the path.
unfoldable pub is_plain_github : Url → Bool
is_plain_github u =
    (same u.scheme (codes "https") || same u.scheme (codes "http"))
    && ((same (to_lower u.hostname) (codes "github.com")
          || same (to_lower u.hostname) (codes "www.github.com"))
        && (is_empty u.port
            && (not u.has_user
                && (is_empty u.raw_query && (is_empty u.fragment && is_empty u.opaque)))))

unfoldable pub is_repo_name : Text → Bool
unfolding is_repo
is_repo_name repo = is_repo repo && (not (same repo (codes ".")) && not (same repo (codes "..")))

unfoldable pub check_parts : List Text → Option Text
unfolding trim_dot_git is_owner is_repo_name canonical
check_parts (owner ∷ part ∷ []) =
    let repo = trim_dot_git part in
    if is_owner owner && is_repo_name repo then some (canonical owner repo) else none
check_parts _ = none

-- NormalizeGitHubURL; `none` is ErrInvalidRepoURL.
unfoldable pub normalize_github_url : (Text → Option Url) → Text → Option Text
unfolding is_plain_github check_parts trim_slashes
normalize_github_url parse input =
    let raw = trim_space input in
    if is_empty raw then none else elim (parse raw) [
      | none ↦ none
      | some u ↦ if is_plain_github u then check_parts (split slash (trim_slashes u.path)) else none
    ]

-- ===== src/Validate/Canonical.antt =====
-- What the URLs that are taken look like.
use know_your_repo.Prelude.{◌≡◌, Bool, true, ◌&&◌, not, [], ◌∷◌, ◌==◌}
use know_your_repo.Text.{Text, codes, split}
use know_your_repo.Validate.{slash, is_owner, is_repo_name}

abbrev no_slash : Text → Bool
no_slash [] = true
no_slash (c ∷ s) = not (c == slash) && no_slash s

-- A text whose parts between slashes are those of the address of a repository on github.com.
abbrev pub IsRepoUrl : Text → Type 0
IsRepoUrl url =
    (owner : Text) × (repo : Text) × (is_owner owner ≡ true)
    × (is_repo_name repo ≡ true)
    × (split slash url ≡ codes "https:" ∷ [] ∷ codes "github.com" ∷ owner ∷ repo ∷ [])

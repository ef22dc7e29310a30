-- ===== src/Answer.antt =====
-- The results of two searches put together: mergeResults of api/internal/answer/service.go. The map
-- `seen` is its list of keys.
pub mod Merge
pub mod Service
use know_your_repo.Prelude.{ℕ, Bool, true, false, ◌||◌, List, [], ◌∷◌, ◌++◌, map, if◌then◌else◌}
use know_your_repo.Text.{Text, same, is_among}

-- retrieval.RetrievalResult; the edges, the metadata and the distance stand in `rest`.
pub record RetrievalResult {ℓ} (A : Type ℓ) : Type ℓ where
  pub symbol : Text
  pub file_path : Text
  pub document : Text
  pub origin : Text
  pub rest : A

module _ {ℓ} {A : Type ℓ} where
  -- `r.Symbol + "|" + r.FilePath`
  abbrev pub key : RetrievalResult A → Text
  key r = r.symbol ++ b'|' ∷ r.file_path

module _ {ℓ} {A : Type ℓ} where
  -- The loop over `extra`.
  unfoldable pub merge_loop :
      List Text → List (RetrievalResult A) → List (RetrievalResult A) → List (RetrievalResult A)
  unfolding is_among
  merge_loop seen base [] = base
  merge_loop seen base (r ∷ extra) =
      let kept = merge_loop seen base extra in
      let joined = merge_loop (key r ∷ seen) (base ++ r ∷ []) extra in
      if is_among (key r) seen then kept else joined

  unfoldable pub merge_results :
      List (RetrievalResult A) → List (RetrievalResult A) → List (RetrievalResult A)
  unfolding merge_loop
  merge_results base extra = merge_loop (map key base) base extra

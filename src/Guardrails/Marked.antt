-- ===== src/Guardrails/Marked.antt =====
-- The batches of a run, and the files that it marks as embedded.
use mathlib.Core.List.{Memᴰ}
use mathlib.Core.List.Memᴰ
use know_your_repo.Prelude.{
  ℕ, ◌≤◌, ◌<◌, ◌≡◌, ◌⊎◌, Bool, true, false, List, [], ◌∷◌, ◌++◌, length, slice, min,
}
use know_your_repo.Text.{Text}
use know_your_repo.Guardrails.{EmbedRun, batch_end, FileChunkSpan}

abbrev pub concat {ℓ} : {A : Type ℓ} → List (List A) → List A
concat [] = []
concat (xs ∷ xss) = xs ++ concat xss

abbrev pub AllWithin {ℓ} : {A : Type ℓ} → ℕ → List (List A) → Type 0
AllWithin size [] = Unit
AllWithin size (xs ∷ xss) = (length xs ≤ size) × AllWithin size xss

-- A run over the items from `start` on: the batches taken are those items up to `embedded`, each
-- within the size, and all of them unless a request failed.
pub record Progress {ℓ} {A : Type ℓ} (size start : ℕ) (items : List A) (run : EmbedRun A)
    : Type ℓ where
  pub prefix : concat run.sent ≡ slice start run.embedded items
  pub from_start : min start (length items) ≤ run.embedded
  pub bounded : run.embedded ≤ length items
  pub within : AllWithin size run.sent
  pub outcome :
      (run.failed ≡ false) × (run.embedded ≡ length items)
      ⊎ (run.failed ≡ true) × (run.embedded < length items)

module _ {ℓ} {A : Type ℓ} (size : ℕ) (sidecar : ℕ → List A → Bool) (items : List A) where
  abbrev batch : ℕ → List A
  batch start = slice start (batch_end size start items) items

-- Some span of the file is empty or ends within what was sent, and its chunks were all sent.
abbrev pub IsSent {ℓ} : {A : Type ℓ} → List A → List FileChunkSpan → EmbedRun A → Text → Type ℓ
IsSent items spans run path =
    (s : FileChunkSpan) × Memᴰ s spans
    × (s.path ≡ path)
    × ((s.start ≡ s.end) ⊎ (s.end ≤ length (concat run.sent)))
    × (slice s.start s.end (concat run.sent) ≡ slice s.start s.end items)

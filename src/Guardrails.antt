-- ===== src/Guardrails.antt =====
-- api/internal/api/ingestion_guardrails.go: embedding in bounded batches, which files of a run
-- are fully embedded, when an overview is generated, and the message of a failed job; and the
-- part of ingestRepository (api/internal/api/repos.go) that caps and embeds the chunks of a run.
pub mod Marked
use know_your_repo.Prelude.{
  ℕ, zero, suc, ◌+◌, Bool, true, false, ◌||◌, List, [], ◌∷◌, ◌++◌, map, Option, some, none, length,
  slice, take, select, ltb, leb, ◌==◌, ◌&&◌, not, if◌then◌else◌,
}
use know_your_repo.Text.{Text, is_empty, has_prefix, codes}
use mathlib.Core.Option

-- What embedInBatches returns, and the batches that the sidecar took.
pub record EmbedRun {ℓ} (A : Type ℓ) : Type ℓ where
  pub embedded : ℕ
  pub failed : Bool
  pub sent : List (List A)

-- `size <= 0` stands for "not configured".
abbrev pub batch_size : ℕ → ℕ
batch_size zero = 128
batch_size (suc n) = suc n

module _ {ℓ} {A : Type ℓ} where
  abbrev pub batch_end : ℕ → ℕ → List A → ℕ
  batch_end size start items =
      if ltb (length items) (start + size) then length items else start + size

  accept : List A → EmbedRun A → EmbedRun A
  accept batch run = record run { sent = batch ∷ run.sent }

  -- The loop of embedInBatches, with fuel. `sidecar start batch` is whether the request that is
  -- made at `start` succeeds.
  pub embed_loop : ℕ → (ℕ → List A → Bool) → ℕ → ℕ → List A → Option (EmbedRun A)
  embed_loop size sidecar zero start items = none
  embed_loop size sidecar (suc fuel) start items =
      let end = batch_end size start items in
      let batch = slice start end items in
      let rest = embed_loop size sidecar fuel (start + size) items in
      if ltb start (length items)
      then if sidecar start batch
        then Option.map (accept batch) rest
        else some (record { embedded = start; failed = true; sent = [] })
      else some (record { embedded = length items; failed = false; sent = [] })

  pub embed_in_batches : ℕ → (ℕ → List A → Bool) → List A → Option (EmbedRun A)
  embed_in_batches limit sidecar items =
      embed_loop (batch_size limit) sidecar (suc (length items)) 0 items

pub record FileChunkSpan : Type 0 where
  pub path : Text
  pub start : ℕ
  pub end : ℕ

pub is_fully_embedded : ℕ → FileChunkSpan → Bool
is_fully_embedded embedded s = leb s.end embedded || (s.start == s.end)

pub fully_embedded_files : List FileChunkSpan → ℕ → List Text
fully_embedded_files spans embedded = map (λ s. s.path) (select (is_fully_embedded embedded) spans)

-- The overview that the store has, as far as shouldGenerateOverview reads it: an error, no
-- overview, or its narrative.
pub data OverviewLookup : Type 0 where
  failed : OverviewLookup
  missing : OverviewLookup
  found : Text → OverviewLookup

pub should_generate_overview : OverviewLookup → ℕ → ℕ → Bool
should_generate_overview lookup processed deleted =
    if ltb 0 processed || ltb 0 deleted
    then true
    else elim lookup [ failed ↦ true | missing ↦ true | found narrative ↦ is_empty narrative ]

-- The outcome that SetEmbedStatus records.
pub data EmbedStatus : Type 0 where
  completed failed skipped : EmbedStatus

pub record EmbedPhase {ℓ} (A : Type ℓ) : Type ℓ where
  pub run : EmbedRun A
  pub status : EmbedStatus
  pub marked : List Text

module _ {ℓ} {A : Type ℓ} where
  -- `embedItems[:MaxEmbedChunks]`, where a cap is set and passed.
  pub cap_items : ℕ → List A → List A
  cap_items most items = if ltb 0 most && ltb most (length items) then take most items else items

  abbrev nothing_sent : EmbedRun A
  nothing_sent = record { embedded = 0; failed = false; sent = [] }

  status_of : List A → EmbedRun A → EmbedStatus
  status_of [] run = EmbedStatus.skipped
  status_of (_ ∷ _) run = if run.failed then EmbedStatus.failed else EmbedStatus.completed

  -- embedInBatches is called only with something to embed.
  embed_if_any : ℕ → (ℕ → List A → Bool) → List A → Option (EmbedRun A)
  embed_if_any limit sidecar [] = some nothing_sent
  embed_if_any limit sidecar (item ∷ items) = embed_in_batches limit sidecar (item ∷ items)

  conclude : Text → List FileChunkSpan → List A → EmbedRun A → EmbedPhase A
  conclude model spans items run = record {
    run = run;
    status = status_of items run;
    marked = if is_empty model then [] else fully_embedded_files spans run.embedded;
  }

  -- The embedding phase of ingestRepository. `model` is the embedding model, "" if the sidecar
  -- could not name it; the files to mark are then left alone.
  pub embed_phase :
      ℕ → ℕ → (ℕ → List A → Bool) → Text → List FileChunkSpan → List A → Option (EmbedPhase A)
  unfolding cap_items embed_if_any conclude status_of
  embed_phase limit_chunks limit sidecar model spans all_items =
      let items = cap_items limit_chunks all_items in
      Option.map (conclude model spans items) (embed_if_any limit sidecar items)

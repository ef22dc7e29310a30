-- ===== src/Chunk.antt =====
-- api/internal/chunk: a function's text is cut into overlapping chunks for embedding
-- (splitter.go; the record is the Chunk of models.go).
pub mod Stitch
use know_your_repo.Prelude.{
  ℕ, zero, suc, ◌+◌, ◌-◌, List, [], ◌∷◌, Option, some, none, if◌then◌else◌, leb, ltb, ◌==◌, length,
  slice, map,
}
use know_your_repo.Text.{Text}
use mathlib.Core.Option

abbrev pub max_chunk_chars : ℕ
max_chunk_chars = 1500

abbrev pub over_lap_chars : ℕ
over_lap_chars = 200

pub record Chunk : Type 0 where
  pub id : Text
  pub repo_id : Text
  pub file_path : Text
  pub language : Text
  pub symbol_name : Text
  pub content : Text
  pub start_line : ℕ
  pub end_line : ℕ

-- `end`, the smaller of `start + MaxChunkChars` and the length.
abbrev pub chunk_end : ℕ → ℕ → Text → ℕ
chunk_end size start content =
    if ltb (length content) (start + size) then length content else start + size

-- The loop of SplitChunk over the contents, with fuel; `none` means that the fuel ran out.
-- The sizes are arguments, which SplitChunk instantiates by its constants.
pub split_loop : ℕ → ℕ → ℕ → ℕ → Text → Option (List Text)
split_loop size overlap zero start content = none
split_loop size overlap (suc fuel) start content =
    let end = chunk_end size start content in
    let rest = split_loop size overlap fuel (end - overlap) content in
    if ltb start (length content)
    then if end == length content
      then some (slice start end content ∷ [])
      else Option.map (λ cs. slice start end content ∷ cs) rest
    else some []

-- The texts of the chunks of SplitChunk.
pub split_text : Text → Option (List Text)
split_text content =
    if leb (length content) max_chunk_chars
    then some (content ∷ [])
    else split_loop max_chunk_chars over_lap_chars (length content) 0 content

-- The pieces of a function that is cut do not take over its repository's id.
abbrev pub kept_repo_id : Chunk → Text
kept_repo_id c = if leb (length c.content) max_chunk_chars then c.repo_id else []

-- SplitChunk: a short function is its own chunk, and a piece keeps the other fields but the text.
pub split_chunk : Chunk → Option (List Chunk)
unfolding split_text
split_chunk c =
    Option.map (map (λ text. record c { repo_id = kept_repo_id c; content = text }))
      (split_text c.content)

-- ===== src/Chunk/Stitch.antt =====
-- The chunks of one function put back together.
use know_your_repo.Prelude.{
  ℕ, zero, suc, ◌+◌, ◌-◌, ◌≤◌, ◌<◌, ◌≡◌, refl, ap, List, [], ◌∷◌, ◌++◌, map, some, length, slice,
  drop, arith, min, length-slice, slice-append-drop, drop-drop, drop-append, ltb, Bool-cases, inl,
  inr, drop_of_length-le, leb, ◌∙◌, sym, ltb→lt, leb→le,
}
use mathlib.Core.List.{append-nil}
use know_your_repo.Text.{Text}
use know_your_repo.Chunk.{
  Chunk, kept_repo_id, chunk_end, split_loop, split_text, split_chunk, max_chunk_chars,
  over_lap_chars,
}

-- The later chunks without the part that each repeats of the one before.
pub fresh_parts : ℕ → List Text → Text
fresh_parts overlap [] = []
fresh_parts overlap (c ∷ cs) = drop overlap c ++ fresh_parts overlap cs

pub stitch : ℕ → List Text → Text
unfolding fresh_parts
stitch overlap [] = []
stitch overlap (c ∷ cs) = c ++ fresh_parts overlap cs

abbrev pub AllFit : ℕ → List Text → Type 0
AllFit size [] = Unit
AllFit size (c ∷ cs) = (length c ≤ size) × AllFit size cs

module _ (size overlap : ℕ) (ov : overlap < size) (content : Text) where
  abbrev first : ℕ → Text
  first start = slice start (chunk_end size start content) content

  length-first :
      (start : ℕ)
      → start < length content
      → length (first start) ≡ min size (length content - start)
  length-first start h = ground (arith, length-slice start (chunk_end size start content) content)

  first_fits : (start : ℕ) → start < length content → length (first start) ≤ size
  first_fits start h = omega (arith, length-first start h)

  first_joined :
      (start : ℕ)
      → start < length content
      → first start ++ drop (chunk_end size start content) content ≡ drop start content
  first_joined start h =
      slice-append-drop start (chunk_end size start content) content (ground arith)

  -- The next chunk starts `overlap` before the end of this one, and repeats that much.
  fresh_parts-first :
      (start : ℕ) (cs : List Text)
      → start + size < length content
      → first (start + size - overlap) ++ fresh_parts overlap cs
        ≡ drop (start + size - overlap) content
      → fresh_parts overlap (first (start + size - overlap) ∷ cs) ≡ drop (start + size) content
  unfolding fresh_parts
  fresh_parts-first start cs h e =
      let next = start + size - overlap in
      sym (
        drop-append overlap (first next) (fresh_parts overlap cs)
          (omega (arith, length-first next (omega arith))))
      ∙ ap (drop overlap) e
      ∙ drop-drop overlap next (start + size) content (omega arith)

  split_loop_last :
      (fuel start : ℕ)
      → start < length content
      → length content ≤ start + size
      → split_loop size overlap (suc fuel) start content ≡ some (first start ∷ [])
  unfolding split_loop
  split_loop_last fuel start h k = ground arith

  split_loop_more :
      (fuel start : ℕ) {cs : List Text}
      → start + size < length content
      → split_loop size overlap fuel (start + size - overlap) content ≡ some cs
      → split_loop size overlap (suc fuel) start content ≡ some (first start ∷ cs)
  unfolding split_loop
  split_loop_more fuel start h runs = ground arith

  -- From a position inside the text the loop ends, and gives the text from there on.
  split_loop_lem :
      (fuel start : ℕ)
      → start < length content
      → length content ≤ fuel + start
      → (cs : List Text) × (split_loop size overlap fuel start content ≡ some (first start ∷ cs))
        × (first start ++ fresh_parts overlap cs ≡ drop start content)
        × AllFit size (first start ∷ cs)
  unfolding fresh_parts
  split_loop_lem zero start h k = absurd (omega arith)
  split_loop_lem (suc fuel) start h k = elim (Bool-cases (ltb (start + size) (length content))) [
    | inr last ↦
        let nothing : drop (chunk_end size start content) content ≡ [] =
          drop_of_length-le (chunk_end size start content) content (ground arith) in
        (
          [],
          split_loop_last fuel start h (ground arith),
          ap (λ r. first start ++ r) (sym nothing) ∙ first_joined start h,
          (first_fits start h, tt),
        )
    | inl more ↦
        let inside : start + size < length content = ltb→lt _ _ more in
        let ends : start + size ≡ chunk_end size start content = ground arith in
        let (cs, runs, joined, fit) =
          split_loop_lem fuel (start + size - overlap) (omega arith) (omega arith) in
        (
          first (start + size - overlap) ∷ cs,
          split_loop_more fuel start inside runs,
          ap (λ r. first start ++ r)
                (fresh_parts-first start cs inside joined ∙ ap (λ e. drop e content) ends)
              ∙ first_joined start h,
          (first_fits start h, fit),
        )
  ]

-- What a chunk keeps of the function that it is a piece of, and its size.
pub record IsPieceOf (c piece : Chunk) : Type 0 where
  pub id : piece.id ≡ c.id
  pub file_path : piece.file_path ≡ c.file_path
  pub language : piece.language ≡ c.language
  pub symbol_name : piece.symbol_name ≡ c.symbol_name
  pub lines : (piece.start_line ≡ c.start_line) × (piece.end_line ≡ c.end_line)
  pub fits : length piece.content ≤ max_chunk_chars

abbrev pub AllPieces : Chunk → List Chunk → Type 0
AllPieces c [] = Unit
AllPieces c (piece ∷ pieces) = IsPieceOf c piece × AllPieces c pieces

abbrev pub contents : List Chunk → List Text
contents = map (λ c. c.content)

module _ (c : Chunk) where
  abbrev with_text : Text → Chunk
  with_text text = record c { repo_id = kept_repo_id c; content = text }

  contents-map : (ts : List Text) → contents (map with_text ts) ≡ ts
  contents-map [] = refl
  contents-map (t ∷ ts) = ap (λ r. t ∷ r) (contents-map ts)

  AllPieces-map : (ts : List Text) → AllFit max_chunk_chars ts → AllPieces c (map with_text ts)
  AllPieces-map [] h = tt
  AllPieces-map (t ∷ ts) h = (
    record {
      id = refl;
      file_path = refl;
      language = refl;
      symbol_name = refl;
      lines = (refl, refl);
      fits = h.0;
    },
    AllPieces-map ts h.1,
  )

split_text-stitch :
    (text : Text)
    → (ts : List Text) × (split_text text ≡ some ts)
      × (stitch over_lap_chars ts ≡ text)
      × AllFit max_chunk_chars ts
unfolding split_text stitch fresh_parts
split_text-stitch text = elim (Bool-cases (leb (length text) max_chunk_chars)) [
  | inl short ↦ (text ∷ [], rw short, append-nil text, (leb→le _ _ short, tt))
  | inr long ↦
      let (ts, runs, joined, fit) =
        split_loop_lem max_chunk_chars over_lap_chars (omega arith) text (length text) 0
          (ground arith) (omega arith) in
      (first max_chunk_chars over_lap_chars (omega arith) text 0 ∷ ts, rw long runs, joined, fit)
]

-- SplitChunk ends on every function. Each of its chunks is at most MaxChunkChars long and keeps
-- the function's id, path, language, symbol and lines, and putting the chunks together without
-- the OverLapChars that each repeats of the one before gives the function's text back.
pub split_chunk-stitch :
    (c : Chunk)
    → (cs : List Chunk) × (split_chunk c ≡ some cs)
      × (stitch over_lap_chars (contents cs) ≡ c.content)
      × AllPieces c cs
unfolding split_chunk
split_chunk-stitch c =
    let (ts, runs, joined, fit) = split_text-stitch c.content in
    (
      map (with_text c) ts,
      rw runs,
      ap (stitch over_lap_chars) (contents-map c ts) ∙ joined,
      AllPieces-map c ts fit,
    )

-- ===== src/Snippet/Adjacent.antt =====
-- Excerpts that follow one another.
use know_your_repo.Prelude.{
  ℕ, ◌+◌, ◌-◌, ◌≤◌, ◌<◌, ◌≡◌, refl, sym, ap, ◌∙◌, false, List, [], ◌∷◌, ◌++◌, length, slice, arith,
  slice-append-slice, length-slice, take_of_length-le, ltb,
}
use mathlib.Core.List.{append_assoc}
use know_your_repo.Text.{Text, split, join, push_front}
use know_your_repo.Snippet.{newline, extract_snippet, lines_between, clamp_end}

join-append :
    (sep : ℕ) (x : Text) (xs : List Text) (y : Text) (ys : List Text)
    → join sep ((x ∷ xs) ++ y ∷ ys) ≡ join sep (x ∷ xs) ++ (sep ∷ join sep (y ∷ ys))
unfolding join
join-append sep x [] y ys = refl
join-append sep x (x' ∷ xs) y ys =
    rw (join-append sep x' xs y ys) (sym (append_assoc x (sep ∷ join sep (x' ∷ xs)) _))

join-append_nonempty :
    (sep : ℕ) (xs ys : List Text)
    → 1 ≤ length xs
    → 1 ≤ length ys
    → join sep (xs ++ ys) ≡ join sep xs ++ (sep ∷ join sep ys)
join-append_nonempty sep [] ys h k = absurd (omega arith)
join-append_nonempty sep (x ∷ xs) [] h k = absurd (omega arith)
join-append_nonempty sep (x ∷ xs) (y ∷ ys) h k = join-append sep x xs y ys

module _ (content : Text) where
  abbrev lines : List Text
  lines = split newline content

  extract-in_range :
      (first last : ℕ)
      → 1 ≤ first
      → first ≤ last
      → last ≤ length lines
      → extract_snippet content first last ≡ join newline (slice (first - 1) last lines)
  unfolding extract_snippet lines_between
  extract-in_range first last h k l = ground arith

  -- Two excerpts, the second from the line after the last of the first on, make up, with the line break
  -- between them, the excerpt of all their lines. The lines are lines of the content.
  pub extract-append :
      (first middle last : ℕ)
      → 1 ≤ first
      → first ≤ middle
      → middle < last
      → last ≤ length lines
      → extract_snippet content first middle
          ++ (newline ∷ extract_snippet content (middle + 1) last)
        ≡ extract_snippet content first last
  extract-append first middle last a b c d =
      let next : middle + 1 - 1 ≡ middle = omega arith in
      rw
        (
          extract-in_range first middle a b (omega arith),
          extract-in_range (middle + 1) last (omega arith) (omega arith) d,
          extract-in_range first last a (omega arith) d,
          next,
        )
        (sym (
            join-append_nonempty newline (slice (first - 1) middle lines) (slice middle last lines)
              (omega (arith, length-slice (first - 1) middle lines (omega arith) (omega arith)))
              (omega (arith, length-slice middle last lines (omega arith) d)))
          ∙ ap (join newline)
              (slice-append-slice (first - 1) middle last lines (omega arith) (omega arith)))

join-push_front :
    (sep c : ℕ) (pieces : List Text)
    → 1 ≤ length pieces
    → join sep (push_front c pieces) ≡ c ∷ join sep pieces
unfolding join push_front
join-push_front sep c [] h = absurd (omega arith)
join-push_front sep c (x ∷ []) h = refl
join-push_front sep c (x ∷ y ∷ ys) h = refl

length-push_front : (c : ℕ) (pieces : List Text) → 1 ≤ length (push_front c pieces)
unfolding push_front
length-push_front c [] = omega arith
length-push_front c (x ∷ xs) = omega arith

length-split : (sep : ℕ) (s : Text) → 1 ≤ length (split sep s)
unfolding split
length-split sep [] = omega arith
length-split sep (c ∷ s) = ground (arith, length-push_front c (split sep s))

join-cons :
    (sep : ℕ) (pieces : List Text)
    → 1 ≤ length pieces
    → join sep ([] ∷ pieces) ≡ sep ∷ join sep pieces
unfolding join
join-cons sep [] h = absurd (omega arith)
join-cons sep (x ∷ xs) h = refl

join-nil : (sep : ℕ) → join sep ([] ∷ []) ≡ []
unfolding join
join-nil sep = refl

join-split : (sep : ℕ) (s : Text) → join sep (split sep s) ≡ s
unfolding split
join-split sep [] = join-nil sep
join-split sep (c ∷ s) = ground (
  arith,
  join-split sep s,
  length-split sep s,
  join-cons sep (split sep s),
  join-push_front sep c (split sep s),
)

-- The excerpt from the first line to the last, or further, is the content.
pub extract-whole :
    (content : Text) (last : ℕ)
    → length (split newline content) ≤ last
    → extract_snippet content 1 last ≡ content
unfolding extract_snippet lines_between
extract-whole content last h =
    let lines = split newline content in
    let some_line : ltb (length lines) 1 ≡ false = ground (arith, length-split newline content) in
    let clamped : clamp_end 1 last (length lines) ≡ length lines =
      ground (arith, length-split newline content) in
    rw (some_line, clamped)
      (ap (join newline) (take_of_length-le (length lines - 0) lines (omega arith))
        ∙ join-split newline content)

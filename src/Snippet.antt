-- ===== src/Snippet.antt =====
-- The excerpts of files: extractSnippet (api/internal/api/files.go) and readSymbolSource
-- (api/internal/retrieval/lexical.go). Line numbers below 1 are all treated alike, and 0 stands for
-- them; reading a file is a parameter.
pub mod Adjacent
use know_your_repo.Prelude.{
  ℕ, ◌+◌, ◌-◌, Bool, true, false, ◌&&◌, ◌||◌, List, [], ◌∷◌, Option, some, none, length, slice, leb,
  ltb, ◌==◌, if◌then◌else◌,
}
use know_your_repo.Text.{Text, split, join}

abbrev pub newline : ℕ
newline = 10

abbrev max_lexical_snippet_lines : ℕ
max_lexical_snippet_lines = 60

-- The lines from the first to the last, numbered from 1.
unfoldable lines_between : ℕ → ℕ → List Text → Text
lines_between first last lines = join newline (slice (first - 1) last lines)

abbrev clamp_end : ℕ → ℕ → ℕ → ℕ
clamp_end start end count =
    let end' = if ltb end start then start else end in if ltb count end' then count else end'

unfoldable pub extract_snippet : Text → ℕ → ℕ → Text
unfolding lines_between
extract_snippet content start_line end_line =
    let lines = split newline content in
    let start = if ltb start_line 1 then 1 else start_line in
    if (start_line == 0) && (end_line == 0)
    then content
    else if ltb (length lines) start
    then []
    else lines_between start (clamp_end start end_line (length lines)) lines

-- At most 60 lines are kept.
abbrev cap_end : ℕ → ℕ → ℕ
cap_end start end =
    if ltb max_lexical_snippet_lines (end - start + 1)
    then start + max_lexical_snippet_lines - 1
    else end

unfoldable source_lines : ℕ → ℕ → List Text → Option Text
unfolding lines_between
source_lines start_line end_line lines =
    if ltb start_line 1 || ltb (length lines) start_line
    then none
    else some (
        lines_between start_line (cap_end start_line (clamp_end start_line end_line (length lines)))
          lines)

unfoldable pub read_symbol_source : (Text → Option Text) → Text → ℕ → ℕ → Option Text
unfolding source_lines
read_symbol_source read_file path start_line end_line = elim (read_file path) [
  | none ↦ none
  | some content ↦ source_lines start_line end_line (split newline content)
]

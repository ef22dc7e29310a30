-- ===== src/Architecture/Narrative.antt =====
-- GenerateOverview of api/internal/architecture/service.go. The sidecar's answer and the write to the
-- database are parameters; `none` is an error.
pub mod Cited
use know_your_repo.Prelude.{
  ℕ, ◌==◌, Bool, true, false, ◌||◌, List, [], ◌∷◌, ◌++◌, map, Option, some, none, take, length, ltb,
  if◌then◌else◌, slice_stable,
}
use know_your_repo.Prelude.Optional.{◌>>=◌}
use know_your_repo.Text.{text_less, Text, codes, same, is_among, is_empty, push_front}
use know_your_repo.Architecture.{ArchitectureFile, ArchitectureSymbol, EntryPoint, Concept}
use know_your_repo.Architecture.Detect.{detect_entrypoints, find_file}
use know_your_repo.Architecture.Reading.{add_symbol}

abbrev pub max_representative_symbols : ℕ
max_representative_symbols = 30

-- sidecar.OverviewConcept; an absent symbol is empty.
pub record OverviewConcept : Type 0 where
  pub term : Text
  pub explanation : Text
  pub symbol : Text

-- sidecar.GenerateOverviewRequest; an entrypoint is its name, path and language.
pub record GenerateOverviewRequest : Type 0 where
  pub readme_text : Text
  pub entrypoints : List (Text × Text × Text)
  pub directory_structure : List Text
  pub representative_symbols : List Text

-- sidecar.GenerateOverviewResponse
pub record GenerateOverviewResponse : Type 0 where
  pub narrative_summary : Text
  pub concepts : List OverviewConcept

-- strings.FieldsFunc at slashes of both kinds: `part` is the field read so far.
fields_loop : Text → Text → List Text
unfolding is_empty
fields_loop part [] = if is_empty part then [] else part ∷ []
fields_loop part (c ∷ s) =
    let rest = fields_loop [] s in
    let longer = fields_loop (part ++ c ∷ []) s in
    if (c == b'/') || (c == b'\\') then (if is_empty part then rest else part ∷ rest) else longer

-- The segments after the first that is the identifier.
after_id : Text → List Text → Option (List Text)
after_id repo_id [] = none
after_id repo_id (seg ∷ segs) = if same seg repo_id then some segs else after_id repo_id segs

unfoldable pub repo_relative_segments : Text → Text → List Text
unfolding fields_loop after_id
repo_relative_segments file_path repo_id =
    let segments = fields_loop [] file_path in
    elim (after_id repo_id segments) [
      | none ↦ segments
      | some [] ↦ segments
      | some (seg ∷ segs) ↦ seg ∷ segs
    ]

top_level_dir : List Text → Text
top_level_dir [] = codes "(root)"
top_level_dir (file ∷ []) = codes "(root)"
top_level_dir (dir ∷ next ∷ segs) = dir

collect_dirs : Text → List Text → List ArchitectureFile → List Text
unfolding repo_relative_segments top_level_dir add_symbol
collect_dirs repo_id seen [] = seen
collect_dirs repo_id seen (f ∷ fs) =
    collect_dirs repo_id (add_symbol seen (top_level_dir (repo_relative_segments f.path repo_id)))
      fs

unfoldable pub top_level_dirs : List ArchitectureFile → Text → List Text
unfolding collect_dirs slice_stable text_less
top_level_dirs files repo_id = slice_stable text_less (collect_dirs repo_id [] files)

-- The first symbol of the name decides.
unfoldable pub resolve_symbol :
    Text → List ArchitectureFile → List ArchitectureSymbol → Option (Text × ℕ × ℕ)
unfolding find_file same
resolve_symbol claimed files [] = none
resolve_symbol claimed files (s ∷ symbols) =
    let rest = resolve_symbol claimed files symbols in
    if same s.name claimed
    then elim (find_file s.file_id files) [
      | none ↦ none
      | some file ↦ some (file.path, s.start_line, s.end_line)
    ]
    else rest

unfoldable pub resolve_concept_citation :
    Text → List ArchitectureFile → List ArchitectureSymbol → Option (Text × ℕ × ℕ)
unfolding resolve_symbol is_empty
resolve_concept_citation claimed files symbols =
    if is_empty claimed then none else resolve_symbol claimed files symbols

-- "%s (%s)", for the first symbols.
unfoldable pub representative_symbol_strings : List ArchitectureSymbol → ℕ → List Text
representative_symbol_strings symbols limit =
    map (λ s. s.name ++ codes " (" ++ s.type ++ codes ")") (take limit symbols)

abbrev pub cite : OverviewConcept → Option (Text × ℕ × ℕ) → Concept
cite c none = record {
  term = c.term;
  explanation = c.explanation;
  symbol = [];
  file_path = [];
  start_line = 0;
  end_line = 0;
}
cite c (some place) = record {
  term = c.term;
  explanation = c.explanation;
  symbol = c.symbol;
  file_path = place.0;
  start_line = place.1;
  end_line = place.2;
}

abbrev pub to_concept : List ArchitectureFile → List ArchitectureSymbol → OverviewConcept → Concept
to_concept files symbols c = cite c (resolve_concept_citation c.symbol files symbols)

-- What is asked of the sidecar, and what is stored of its answer: the summary and the concepts.
unfoldable pub generate_overview :
    (GenerateOverviewRequest → Option GenerateOverviewResponse)
    → Option (List ArchitectureFile)
    → Option (List ArchitectureSymbol)
    → Text
    → Text
    → Option (Text × List Concept)
unfolding detect_entrypoints top_level_dirs representative_symbol_strings resolve_concept_citation
generate_overview sidecar get_files get_symbols repo_id readme_text = do
  files ← get_files
  symbols ← get_symbols
  resp ← sidecar (record {
    readme_text = readme_text;
    entrypoints =
        map (λ ep. (ep.name, ep.file_path, ep.language)) (detect_entrypoints files symbols);
    directory_structure = top_level_dirs files repo_id;
    representative_symbols = representative_symbol_strings symbols max_representative_symbols;
  })
  some (resp.narrative_summary, map (to_concept files symbols) resp.concepts)

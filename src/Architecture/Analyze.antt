-- ===== src/Architecture/Analyze.antt =====
-- AnalyzeRepository of api/internal/architecture/analyzer.go, which BuildSummary of service.go calls.
-- The queries are `Rows`, for one repository; `none` is an error.
pub mod Summarized
use know_your_repo.Prelude.{ℕ, List, [], Option, some, none, length}
use know_your_repo.Prelude.Optional.{◌>>=◌}
use know_your_repo.Text.{Text}
use know_your_repo.Architecture.{
  ArchitectureFile, ArchitectureSymbol, ArchitectureCallEdge, Component, EntryPoint, Statistics,
  Concept, Overview,
}
use know_your_repo.Architecture.Detect.{detect_components, detect_entrypoints}
use know_your_repo.Architecture.Reading.{ReadingStep, build_reading_path}

pub record Rows : Type 0 where
  pub get_files : Option (List ArchitectureFile)
  pub get_symbols : Option (List ArchitectureSymbol)
  pub get_call_edges : Option (List ArchitectureCallEdge)
  pub get_languages : Option (List Text)
  pub get_overview : Option (Option Overview)

pub record Summary : Type 0 where
  pub repo_id : Text
  pub statistics : Statistics
  pub languages : List Text
  pub entry_points : List EntryPoint
  pub components : List Component
  pub narrative_summary : Text
  pub concepts : List Concept
  pub reading_path : List ReadingStep

abbrev pub summary_of : Option Overview → Text
summary_of none = []
summary_of (some o) = o.narrative_summary

abbrev pub concepts_of : Option Overview → List Concept
concepts_of none = []
concepts_of (some o) = o.concepts

unfoldable pub analyze_repository : Text → Rows → Option Summary
unfolding detect_components detect_entrypoints build_reading_path
analyze_repository repo_id rows = do
  files ← rows.get_files
  symbols ← rows.get_symbols
  call_edges ← rows.get_call_edges
  languages ← rows.get_languages
  let components = detect_components files symbols
  let entrypoints = detect_entrypoints files symbols
  reading_path ← build_reading_path entrypoints call_edges symbols
  overview ← rows.get_overview
  some (record {
    repo_id = repo_id;
    statistics = record {
      file_count = length files;
      symbol_count = length symbols;
      call_edges = length call_edges;
    };
    languages = languages;
    entry_points = entrypoints;
    components = components;
    narrative_summary = summary_of overview;
    concepts = concepts_of overview;
    reading_path = reading_path;
  })

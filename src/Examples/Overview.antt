-- ===== src/Examples/Overview.antt =====
-- Runs of what tells of a repository's structure.
use know_your_repo.Prelude.{ℕ, ◌≡◌, refl, List, [], ◌∷◌, map, Option, some, none, take, All}
use know_your_repo.Text.{codes, same, is_among, is_empty}
use know_your_repo.Architecture.{
  ArchitectureFile, ArchitectureSymbol, ArchitectureCallEdge, EntryPoint, Concept,
}
use know_your_repo.Architecture.Reading.{
  Discovered, build_reading_path, make_step, max_reading_path_steps,
}
use know_your_repo.Architecture.Reading.Steps.{
  IsListing, HasDepth, IsInOrder, build_reading_path-IsRanked,
}
use know_your_repo.Architecture.Analyze.{Summary, analyze_repository}
use know_your_repo.Architecture.Analyze.Summarized.{
  IsSummary, rows_of, analyze_repository-IsSummary,
}
use know_your_repo.Architecture.Narrative.{
  GenerateOverviewRequest, GenerateOverviewResponse, generate_overview,
}
use know_your_repo.Architecture.Narrative.Cited.{IsCited, generate_overview-IsCited}

abbrev call : List ℕ → List ℕ → ArchitectureCallEdge
call caller callee = record {
  caller_symbol = caller;
  caller_file_path = codes "main.go";
  callee_symbol = callee;
}

-- main calls serve and log, and serve calls log and itself.
abbrev calls : List ArchitectureCallEdge
calls =
    call (codes "main") (codes "log")
    ∷ call (codes "main") (codes "serve")
    ∷ call (codes "serve") (codes "log")
    ∷ call (codes "serve") (codes "serve")
    ∷ []

abbrev main : EntryPoint
main = record {
  name = codes "main";
  file_path = codes "main.go";
  language = codes "go";
  type = codes "main";
}

abbrev main_file : ArchitectureFile
main_file = record { id = 1; path = codes "data/r/main.go"; language = codes "go" }

abbrev main_symbol : ArchitectureSymbol
main_symbol = record {
  id = 1;
  file_id = 1;
  name = codes "main";
  type = codes "function";
  start_line = 3;
  end_line = 9;
}

build_reading_path-IsRanked_example :
    (ranked : List Discovered) × IsListing (main ∷ []) calls ranked
    × All (HasDepth (main ∷ []) calls) ranked
    × IsInOrder calls ranked
    × (build_reading_path (main ∷ []) calls (main_symbol ∷ [])
        ≡ some (
            map
              (make_step (main ∷ []) calls (main_symbol ∷ []))
              (take max_reading_path_steps ranked)))
build_reading_path-IsRanked_example =
    build_reading_path-IsRanked (main ∷ []) calls (main_symbol ∷ [])

analyze_repository-IsSummary_example :
    (summary : Summary) × (analyze_repository
        (codes "r")
        (rows_of (main_file ∷ []) (main_symbol ∷ []) calls [] none)
      ≡ some summary)
    × IsSummary (main_file ∷ []) (main_symbol ∷ []) calls summary
analyze_repository-IsSummary_example =
    analyze_repository-IsSummary (main_file ∷ []) (main_symbol ∷ []) calls [] none (codes "r")

-- A language model that names a symbol on record, and one that is not.
abbrev claims : GenerateOverviewRequest → Option GenerateOverviewResponse
claims request = some (record {
  narrative_summary = codes "A program.";
  concepts =
      record { term = codes "start"; explanation = []; symbol = codes "main" }
      ∷ record { term = codes "stop"; explanation = []; symbol = codes "halt" }
      ∷ [];
})

abbrev stored : List Concept
stored =
    record {
      term = codes "start";
      explanation = [];
      symbol = codes "main";
      file_path = codes "data/r/main.go";
      start_line = 3;
      end_line = 9;
    }
    ∷ record {
      term = codes "stop";
      explanation = [];
      symbol = [];
      file_path = [];
      start_line = 0;
      end_line = 0;
    }
    ∷ []

generate_overview-IsCited_example : All (IsCited (main_file ∷ []) (main_symbol ∷ [])) stored
unfolding generate_overview is_among same is_empty
generate_overview-IsCited_example =
    generate_overview-IsCited claims (main_file ∷ []) (main_symbol ∷ []) (codes "r") []
      (codes "A program.", stored) refl

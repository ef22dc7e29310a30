-- ===== src/Answer/Service.antt =====
-- Answering a question: Answer of api/internal/answer/service.go, the tests of intent.go and AnswerQuestion
-- of api/internal/rag/service.go. The sidecar's search and the language model are parameters; `chat`
-- stands for the prompt, whose wording is not modelled, and the request.
pub mod Grounded
use know_your_repo.Prelude.{
  ℕ, Bool, true, false, ◌&&◌, List, [], ◌∷◌, ◌++◌, map, Option, some, none, take, if◌then◌else◌,
}
use know_your_repo.Text.{Text, codes, any_contained, to_lower, contains, is_empty, decimal}
use know_your_repo.Answer.{RetrievalResult, merge_results}
use know_your_repo.Retrieval.{Details, SearchResult, Lookups}
use know_your_repo.Retrieval.Semantic.{search}
use know_your_repo.Retrieval.Lexical.{lexical_search}
use know_your_repo.Context.{ContextPackage, build}
use know_your_repo.Architecture.{EntryPoint, Component, Concept}
use know_your_repo.Architecture.Analyze.{Summary}

abbrev pub reingest_keywords : List Text
reingest_keywords = map codes (
    "latest" ∷ "recent changes" ∷ "recently changed" ∷ "up to date" ∷ "up-to-date"
    ∷ "did anything change" ∷ "has this changed" ∷ "new commits" ∷ "newest version"
    ∷ "current state" ∷ "most recent" ∷ [])

abbrev pub architecture_keywords : List Text
architecture_keywords = map codes (
    "architecture" ∷ "entrypoint" ∷ "entry point" ∷ "component" ∷ "overview"
    ∷ "structure of the repo" ∷ "repository structure" ∷ "statistics" ∷ "high level" ∷ "high-level"
    ∷ "what languages" ∷ [])

unfoldable pub wants_reingestion : Text → Bool
unfolding any_contained to_lower
wants_reingestion query = any_contained (to_lower query) reingest_keywords

unfoldable pub wants_architecture_overview : Text → Bool
unfolding any_contained to_lower
wants_architecture_overview query = any_contained (to_lower query) architecture_keywords

abbrev pub max_architecture_list_items : ℕ
max_architecture_list_items = 15

-- strings.Join(pieces, ", ")
join_list : List Text → Text
join_list [] = []
join_list (piece ∷ []) = piece
join_list (piece ∷ next ∷ rest) = piece ++ codes ", " ++ join_list (next ∷ rest)

concat_all : List Text → Text
concat_all [] = []
concat_all (t ∷ ts) = t ++ concat_all ts

line : Text → Text
line t = t ++ 10 ∷ []

entrypoint_line : EntryPoint → Text
unfolding line
entrypoint_line ep =
    line (codes "- " ++ ep.name ++ codes " (" ++ ep.type ++ codes ") in " ++ ep.file_path)

component_line : Component → Text
unfolding line
component_line c =
    line (codes "- " ++ c.name ++ codes " (" ++ c.type ++ codes ") in " ++ c.file_path)

concept_line : Concept → Text
unfolding line
concept_line c = line (codes "- " ++ c.term ++ codes ": " ++ c.explanation)

concept_lines : List Concept → Text
unfolding line concat_all concept_line
concept_lines [] = []
concept_lines (c ∷ cs) =
    line (codes "Notable concepts:")
    ++ concat_all (map concept_line (take max_architecture_list_items (c ∷ cs)))

unfoldable pub overview_text : Summary → Text
unfolding line join_list concat_all concept_lines entrypoint_line component_line
overview_text s =
    (if is_empty s.narrative_summary then [] else line (codes "Summary: " ++ s.narrative_summary))
    ++ line (
        codes "Repository statistics: "
        ++ decimal s.statistics.file_count
        ++ codes " files, "
        ++ decimal s.statistics.symbol_count
        ++ codes " symbols, "
        ++ decimal s.statistics.call_edges
        ++ codes " call edges.")
    ++ line (codes "Languages: " ++ join_list s.languages)
    ++ concept_lines s.concepts
    ++ line (codes "EntryPoints:")
    ++ concat_all (map entrypoint_line (take max_architecture_list_items s.entry_points))
    ++ line (codes "Components:")
    ++ concat_all (map component_line (take max_architecture_list_items s.components))

-- What the service calls, for one repository: the sidecar's search, BuildSummary and the language model.
-- `zero_distance` is the float64 zero.
pub record Services (F : Type 0) : Type 0 where
  pub zero_distance : F
  pub lookups : Lookups
  pub semantic_search : Option (List (SearchResult F))
  pub build_summary : Option Summary
  pub chat : Text → ContextPackage → Text → Option Text

module _ {F : Type 0} where
  unfoldable pub overview_as_result : F → Text → Summary → RetrievalResult (Details F)
  unfolding overview_text
  overview_as_result zero_distance repo_id summary = record {
    symbol = codes "architecture_overview";
    file_path = repo_id;
    document = overview_text summary;
    origin = [];
    rest = record { edges = []; metadata = []; distance = zero_distance };
  }

  -- The results of the semantic search, none if it fails.
  abbrev pub found :
      Option (List (RetrievalResult (Details F))) → List (RetrievalResult (Details F))
  found none = []
  found (some results) = results

  -- The results of both searches.
  unfoldable pub grounding : Services F → Text → List (RetrievalResult (Details F))
  unfolding search lexical_search merge_results
  grounding s query =
      merge_results (found (search s.lookups s.semantic_search))
        (lexical_search s.zero_distance s.lookups query)

  -- The semantic search failed and there is no result.
  abbrev pub is_ungrounded : Services F → List (RetrievalResult (Details F)) → Bool
  is_ungrounded s (r ∷ rs) = false
  is_ungrounded s [] = elim s.semantic_search [ none ↦ true | some hits ↦ false ]

  -- A summary that cannot be built adds nothing.
  abbrev pub overview_results : F → Text → Option Summary → List (RetrievalResult (Details F))
  overview_results zero_distance repo_id none = []
  overview_results zero_distance repo_id (some summary) =
      overview_as_result zero_distance repo_id summary ∷ []

  -- The overview, where the question asks for one and there is one.
  unfoldable pub with_overview :
      Services F
      → Text
      → Text
      → List (RetrievalResult (Details F))
      → List (RetrievalResult (Details F))
  unfolding wants_architecture_overview overview_as_result
  with_overview s repo_id query results =
      if wants_architecture_overview query
      then results ++ overview_results s.zero_distance repo_id s.build_summary
      else results

  -- AnswerQuestion of package rag
  unfoldable pub answer_question :
      Services F → Text → Text → List (RetrievalResult (Details F)) → Option Text
  unfolding build
  answer_question s query history results = s.chat history (build query results) query

  abbrev pub reply :
      Option Text
      → List (RetrievalResult (Details F))
      → Option (Text × List (RetrievalResult (Details F)))
  reply none results = none
  reply (some text) results = some (text, results)

  -- Answer: whether a background sync was started, and the answer with its results; `none` is an error.
  unfoldable pub answer :
      Services F → Text → Text → Text → Bool × Option (Text × List (RetrievalResult (Details F)))
  unfolding wants_reingestion grounding with_overview answer_question
  answer s repo_id query history =
      let results = with_overview s repo_id query (grounding s query) in
      (
        wants_reingestion query,
        if is_ungrounded s (grounding s query)
            then none
            else reply (answer_question s query history results) results,
      )

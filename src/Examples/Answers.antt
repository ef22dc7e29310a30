-- ===== src/Examples/Answers.antt =====
-- Runs of what finds the context of an answer.
use mathlib.Core.List.{Memᴰ}
use know_your_repo.Prelude.{
  slice_stable, ℕ, ◌≤◌, ◌≡◌, ◌↔◌, ◌⊎◌, ◌||◌, refl, true, List, [], ◌∷◌, ◌++◌, map, some, none,
  length,
}
use know_your_repo.Text.{
  Text, codes, same, is_among, IsDistinct, to_lower, lower_byte, equal_fold, any_contained,
  contains, has_prefix, is_empty,
}
use know_your_repo.Answer.{RetrievalResult, merge_results, merge_loop}
use know_your_repo.Answer.Merge.{keys}
use know_your_repo.Retrieval.{Details, SearchResult, Lookups, Value}
use know_your_repo.Store.Reads.{SymbolEntry}
use know_your_repo.Retrieval.Identifiers.{extract_candidate_identifiers, matches}
use know_your_repo.Retrieval.Identifiers.Chosen.{IsChoice, IsLookedUp, folded, extract-IsChoice}
use know_your_repo.Retrieval.Lexical.{lexical_search, max_lexical_results}
use know_your_repo.Retrieval.Lexical.Within.{lexical_search-IsWithin}
use know_your_repo.Retrieval.Lexical.Exact.{IsFirst, IsExactResult, lexical_search-exact-IsFirst}
use know_your_repo.Retrieval.Semantic.{search}
use know_your_repo.Retrieval.Semantic.Covered.{is_shown, search-shown}
use know_your_repo.Context.{build}
use know_your_repo.Context.Compressed.{IsCompressedAll, build-IsCompressedAll}
use know_your_repo.Architecture.Analyze.{Summary}
use know_your_repo.Answer.Service.{Services, answer, grounding, with_overview}
use know_your_repo.Answer.Service.Grounded.{
  IsUngrounded, IsOverview, shown_results, semantic_results, lexical_results, answer-none_iff,
  answer-grounded,
}

abbrev question : Text
question = codes "Where is asyncio.create_task called in 3b.run?"

-- The dotted name, its parts, and the part of what is no name as a whole.
candidates_of_question :
    extract_candidate_identifiers question
    ≡ map codes ("asyncio.create_task" ∷ "asyncio" ∷ "create_task" ∷ "run" ∷ [])
unfolding extract_candidate_identifiers is_among same to_lower lower_byte
candidates_of_question = refl

extract-IsChoice_example :
    IsChoice (extract_candidate_identifiers question)
    × ((t : Text)
        → is_among t (extract_candidate_identifiers question) ≡ true
        → is_among t (matches question) ≡ true)
    × ((length (extract_candidate_identifiers question) ≤ 4)
        → (t : Text) → is_among t (matches question) ≡ true
        → IsLookedUp t
        → is_among (to_lower t) (folded (extract_candidate_identifiers question)) ≡ true)
extract-IsChoice_example = extract-IsChoice question

abbrev pub word_handler : SymbolEntry
word_handler = record {
  name = codes "HandleWord";
  type = codes "method";
  language = codes "go";
  file_path = codes "room.go";
  start_line = 10;
  end_line = 20;
}

abbrev pub word_test : SymbolEntry
word_test = record word_handler { name = codes "TestHandleWord"; file_path = codes "a_test.go" }

-- The test comes first in the order of the files; nothing can be read from the disk.
abbrev pub lookups : Lookups
lookups = record {
  list_symbols = λ _. some (word_test ∷ word_handler ∷ []);
  search_call_edges = λ _. none;
  get_outgoing_calls = λ _ _. some [];
  get_incoming_calls = λ _. some [];
  read_file = λ _. none;
  visit_order = λ groups. groups;
}

abbrev no_distance : ℕ
no_distance = 0

abbrev word_question : Text
word_question = codes "handleword"

lexical_search-IsWithin_example :
    (length (lexical_search no_distance lookups word_question) ≤ max_lexical_results)
    × IsDistinct (keys (lexical_search no_distance lookups word_question))
lexical_search-IsWithin_example = lexical_search-IsWithin no_distance lookups word_question

lexical_search-exact-IsFirst_example :
    IsFirst
      (IsExactResult no_distance word_question)
      (lexical_search no_distance lookups word_question)
unfolding extract_candidate_identifiers is_among same to_lower lower_byte equal_fold
lexical_search-exact-IsFirst_example =
    lexical_search-exact-IsFirst no_distance lookups word_question word_question []
      (word_test ∷ word_handler ∷ []) word_handler refl refl (Memᴰ.tail (Memᴰ.head refl)) refl

abbrev pub word_hit : SearchResult ℕ
word_hit = record {
  id = codes "1";
  document = codes "func HandleWord";
  metadata =
      (codes "symbol", Value.text (codes "HandleWord"))
      ∷ (codes "file_path", Value.text (codes "room.go"))
      ∷ [];
  distance = 3;
}

search-shown_example :
    (results : List (RetrievalResult (Details ℕ))) × (search lookups
        (some (word_hit ∷ word_hit ∷ []))
      ≡ some results)
    × IsDistinct (keys results)
    × ((k : Text) → is_among k (keys results) ≡ is_shown lookups k (word_hit ∷ word_hit ∷ []))
search-shown_example = search-shown lookups (word_hit ∷ word_hit ∷ [])

build-IsCompressedAll_example :
    IsCompressedAll
      (lexical_search no_distance lookups word_question)
      (build word_question (lexical_search no_distance lookups word_question)).entries
build-IsCompressedAll_example =
    build-IsCompressedAll word_question (lexical_search no_distance lookups word_question)

abbrev pub no_lookups : Lookups
no_lookups = record lookups { list_symbols = λ _. none }

-- One hit, no overview, and a language model that repeats the question.
abbrev pub services : Services ℕ
services = record {
  zero_distance = 0;
  lookups = no_lookups;
  semantic_search = some (word_hit ∷ []);
  build_summary = none;
  chat = λ history context query. some query;
}

answer-none_iff_example : ((answer services (codes "r") (codes "so?") []).1 ≡ none) ↔ (
    IsUngrounded services (codes "so?")
    ⊎ (services.chat []
          (build (codes "so?") (shown_results services (codes "r") (codes "so?") []))
          (codes "so?")
        ≡ none))
answer-none_iff_example = answer-none_iff services (codes "r") (codes "so?") []

abbrev no_summary : Summary
no_summary = record {
  repo_id = codes "r";
  statistics = record { file_count = 0; symbol_count = 0; call_edges = 0 };
  languages = [];
  entry_points = [];
  components = [];
  narrative_summary = [];
  concepts = [];
  reading_path = [];
}

-- A symbol can be found too, and there is a summary, which the question asks for.
abbrev rich_services : Services ℕ
rich_services = record services { lookups = lookups; build_summary = some no_summary }

abbrev rich_question : Text
rich_question = codes "overview of handleword"

abbrev rich_results : List (RetrievalResult (Details ℕ))
rich_results = shown_results rich_services (codes "r") rich_question []

-- The hit, which the lexical search finds too, one more that it adds, and the overview.
rich_results-count : length rich_results ≡ 3
unfolding with_overview grounding search is_among same to_lower lower_byte any_contained contains
    has_prefix is_empty merge_results merge_loop lexical_search extract_candidate_identifiers
    equal_fold slice_stable
rich_results-count = refl

answer-grounded_example :
    ¬ IsUngrounded rich_services rich_question
    × (rich_services.chat [] (build rich_question rich_results) rich_question ≡ some rich_question)
    × ((new extra : List (RetrievalResult (Details ℕ))) × (rich_results
          ≡ (semantic_results rich_services ++ new) ++ extra)
        × IsDistinct (keys (semantic_results rich_services ++ new))
        × ((r : RetrievalResult (Details ℕ))
            → Memᴰ r new
            → Memᴰ r (lexical_results rich_services rich_question))
        × ((k : Text)
            → is_among k (keys (semantic_results rich_services ++ new)) ≡ (
                is_among k (keys (semantic_results rich_services))
                || is_among k (keys (lexical_results rich_services rich_question))))
        × IsOverview rich_services (codes "r") rich_question [] extra)
unfolding answer grounding search is_among same to_lower lower_byte any_contained contains
    has_prefix is_empty merge_results merge_loop lexical_search extract_candidate_identifiers
    equal_fold slice_stable
answer-grounded_example =
    answer-grounded rich_services (codes "r") rich_question [] rich_question rich_results refl

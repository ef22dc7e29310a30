-- ===== src/Retrieval/Semantic.antt =====
-- ExpandSymbol and Search of api/internal/retrieval/hybrid.go. What the sidecar's search gives is a
-- parameter: `none` for an error, which Search gives on.
pub mod Covered
use know_your_repo.Prelude.{
  ℕ, Bool, true, false, ◌||◌, List, [], ◌∷◌, ◌++◌, map, Option, some, none, if◌then◌else◌,
}
use know_your_repo.Text.{Text, codes, same, is_among}
use know_your_repo.Store.{CallEdge}
use know_your_repo.Answer.{RetrievalResult, key}
use know_your_repo.Retrieval.{
  graph_edge, GraphEdge, Value, Metadata, Details, SearchResult, Lookups,
}

pub expand_symbol : Lookups → Text → Text → Option (List GraphEdge)
unfolding graph_edge
expand_symbol look file_path symbol = elim (look.get_outgoing_calls file_path symbol) [
  | none ↦ none
  | some outgoing ↦ elim (look.get_incoming_calls symbol) [
    | none ↦ none
    | some incoming ↦ some (map graph_edge outgoing ++ map graph_edge incoming)
  ]
]

-- `v, ok := metadata[name]; s, ok := v.(string)`
unfoldable pub get_text : Text → Metadata → Option Text
get_text name [] = none
get_text name (m ∷ ms) =
    let rest = get_text name ms in
    if same m.0 name
    then elim m.1 [ Value.text s ↦ some s | Value.number n ↦ none | Value.other ↦ none ]
    else rest

-- The symbol and the file path of a hit.
unfoldable pub place_of : Metadata → Option (Text × Text)
unfolding get_text
place_of metadata = elim (get_text (codes "symbol") metadata) [
  | none ↦ none
  | some symbol ↦ elim (get_text (codes "file_path") metadata) [
    | none ↦ none
    | some file_path ↦ some (symbol, file_path)
  ]
]

abbrev pub dedupe_key : Text × Text → Text
dedupe_key p = p.0 ++ b'|' ∷ p.1

pub record Hits (F : Type 0) : Type 0 where
  pub seen : List Text
  pub results : List (RetrievalResult (Details F))

module _ {F : Type 0} where
  pub to_result : SearchResult F → Text × Text → List GraphEdge → RetrievalResult (Details F)
  to_result sr p edges = record {
    symbol = p.0;
    file_path = p.1;
    document = sr.document;
    origin = codes "semantic";
    rest = record { edges = edges; metadata = sr.metadata; distance = sr.distance };
  }

  -- A place that was not seen.
  unfoldable pub expand_hit : Lookups → SearchResult F → Text × Text → Hits F → Hits F
  unfolding expand_symbol to_result
  expand_hit look sr p st = elim (expand_symbol look p.1 p.0) [
    | none ↦ record st { seen = dedupe_key p ∷ st.seen }
    | some edges ↦ record {
      seen = dedupe_key p ∷ st.seen;
      results = st.results ++ to_result sr p edges ∷ [];
    }
  ]

  -- One round of the loop.
  unfoldable pub add_hit : Lookups → SearchResult F → Hits F → Hits F
  unfolding expand_hit place_of is_among
  add_hit look sr st = elim (place_of sr.metadata) [
    | none ↦ st
    | some p ↦ if is_among (dedupe_key p) st.seen then st else expand_hit look sr p st
  ]

  unfoldable pub add_hits : Lookups → List (SearchResult F) → Hits F → Hits F
  unfolding add_hit
  add_hits look [] st = st
  add_hits look (sr ∷ srs) st = add_hits look srs (add_hit look sr st)

  unfoldable pub search :
      Lookups → Option (List (SearchResult F)) → Option (List (RetrievalResult (Details F)))
  unfolding add_hits
  search look none = none
  search look (some hits) = some (add_hits look hits (record { seen = []; results = [] })).results

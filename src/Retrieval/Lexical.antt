-- ===== src/Retrieval/Lexical.antt =====
-- LexicalSearch of api/internal/retrieval/lexical.go. Its error is always nil, and is left out; the
-- break out of a loop whose results are full is that the steps left change nothing.
pub mod Within
pub mod Exact
use know_your_repo.Prelude.{
  ℕ, Bool, true, false, ◌||◌, List, [], ◌∷◌, ◌++◌, map, Option, some, none, length, leb,
  if◌then◌else◌, slice_stable, first_group, select,
}
use know_your_repo.Text.{Text, codes, same, is_among, equal_fold, decimal, join}
use know_your_repo.Store.{CallEdge}
use know_your_repo.Answer.{RetrievalResult, key}
use know_your_repo.Snippet.{read_symbol_source, newline}
use know_your_repo.Retrieval.{graph_edge, Value, Metadata, Details, Lookups}
use know_your_repo.Store.Reads.{SymbolEntry}
use know_your_repo.Retrieval.Identifiers.{extract_candidate_identifiers}
use mathlib.Core.Option

abbrev pub max_lexical_results : ℕ
max_lexical_results = 5

-- "%s is a %s defined at %s, lines %d-%d."
location : SymbolEntry → Text
location s =
    s.name
    ++ codes " is a "
    ++ s.type
    ++ codes " defined at "
    ++ s.file_path
    ++ codes ", lines "
    ++ decimal s.start_line
    ++ b'-' ∷ decimal s.end_line
    ++ codes "."

-- "%s calls %s (in %s)"
call_line : CallEdge → Text
call_line e =
    e.caller_symbol
    ++ codes " calls "
    ++ e.callee_symbol
    ++ codes " (in "
    ++ e.caller_file_path
    ++ codes ")"

-- `groupCallEdgesByCallee`: an edge joins the group of its callee.
unfoldable pub join_group : CallEdge → List (Text × List CallEdge) → List (Text × List CallEdge)
join_group e [] = (e.callee_symbol, e ∷ []) ∷ []
join_group e (g ∷ gs) =
    if same g.0 e.callee_symbol then (g.0, g.1 ++ e ∷ []) ∷ gs else g ∷ join_group e gs

unfoldable pub group_loop :
    List (Text × List CallEdge) → List CallEdge → List (Text × List CallEdge)
unfolding join_group
group_loop groups [] = groups
group_loop groups (e ∷ es) = group_loop (join_group e groups) es

unfoldable pub group_call_edges_by_callee : List CallEdge → List (Text × List CallEdge)
unfolding group_loop
group_call_edges_by_callee es = group_loop [] es

abbrev pub is_exact : Text → SymbolEntry → Bool
is_exact candidate s = equal_fold s.name candidate

module _ {F : Type 0} (zero_distance : F) where
  unfoldable pub symbol_result : Lookups → SymbolEntry → RetrievalResult (Details F)
  unfolding location
  symbol_result look s = record {
    symbol = s.name;
    file_path = s.file_path;
    document =
        Option.get_or (read_symbol_source look.read_file s.file_path s.start_line s.end_line)
          (location s);
    origin = codes "lexical";
    rest = record {
      edges = [];
      metadata =
          (codes "start_line", Value.number s.start_line)
          ∷ (codes "end_line", Value.number s.end_line)
          ∷ [];
      distance = zero_distance;
    };
  }

  unfoldable pub group_result : Text × List CallEdge → RetrievalResult (Details F)
  unfolding call_line graph_edge
  group_result g = record {
    symbol = g.0;
    file_path = [];
    document = join newline (map call_line g.1);
    origin = codes "lexical";
    rest = record { edges = map graph_edge g.1; metadata = []; distance = zero_distance };
  }

  pub record Found : Type 0 where
    pub seen : List Text
    pub results : List (RetrievalResult (Details F))

  abbrev pub is_full : Found → Bool
  is_full st = leb max_lexical_results (length st.results)

  -- One round of either inner loop.
  unfoldable pub add_result : RetrievalResult (Details F) → Found → Found
  unfolding is_among
  add_result r st =
      if is_full st || is_among (key r) st.seen
      then st
      else record { seen = key r ∷ st.seen; results = st.results ++ r ∷ [] }

  unfoldable pub add_results : List (RetrievalResult (Details F)) → Found → Found
  unfolding add_result
  add_results [] st = st
  add_results (r ∷ rs) st = add_results rs (add_result r st)

  -- The symbols of a candidate, the exact matches first; a failed query gives none.
  unfoldable pub symbol_results : Lookups → Text → List (RetrievalResult (Details F))
  unfolding symbol_result
  symbol_results look candidate =
      let syms = Option.get_or (look.list_symbols candidate) [] in
      map (symbol_result look) (slice_stable (first_group (is_exact candidate)) syms)

  -- The calls of a candidate, a result for each callee.
  unfoldable pub call_results : Lookups → Text → List (RetrievalResult (Details F))
  unfolding group_result group_call_edges_by_callee
  call_results look candidate = elim (look.search_call_edges candidate) [
    | none ↦ []
    | some edges ↦ map group_result (look.visit_order (group_call_edges_by_callee edges))
  ]

  unfoldable pub search_candidate : Lookups → Text → Found → Found
  unfolding add_results symbol_results call_results
  search_candidate look candidate st =
      let after_symbols = add_results (symbol_results look candidate) st in
      if is_full st
      then st
      else if is_full after_symbols
      then after_symbols
      else add_results (call_results look candidate) after_symbols

  unfoldable pub search_candidates : Lookups → List Text → Found → Found
  unfolding search_candidate
  search_candidates look [] st = st
  search_candidates look (c ∷ cs) st = search_candidates look cs (search_candidate look c st)

  abbrev pub nothing_found : Found
  nothing_found = record { seen = []; results = [] }

  unfoldable pub lexical_search : Lookups → Text → List (RetrievalResult (Details F))
  unfolding search_candidates extract_candidate_identifiers
  lexical_search look query =
      (search_candidates look (extract_candidate_identifiers query) nothing_found).results

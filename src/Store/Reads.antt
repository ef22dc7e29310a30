-- ===== src/Store/Reads.antt =====
-- The queries of symbols and calls: symbols_query.go and graph_queries.go of api/internal/store. A text is of
-- ASCII characters. What SQL leaves open, the order of rows without ORDER BY, is the order of the table, the
-- first of equal rows kept.
pub mod OnRecord
use know_your_repo.Prelude.{
  ℕ, ◌==◌, Bool, true, false, not, ◌&&◌, ◌||◌, List, [], ◌∷◌, ◌++◌, Option, some, none, ltb, take,
  select, if◌then◌else◌, slice_stable,
}
use know_your_repo.Text.{text_less, Text, same, is_empty, to_lower}
use know_your_repo.Store.{Db, FileRow, Symbol, CallEdge}

-- The symbols of the alphabet of a pattern: any character, or the one.
one : (ℕ → Bool) → (Text → Bool) → Text → Bool
one is_char rest [] = false
one is_char rest (c ∷ s) = is_char c && rest s

any_suffix : (Text → Bool) → Text → Bool
any_suffix rest [] = rest []
any_suffix rest (c ∷ s) = rest (c ∷ s) || any_suffix rest s

-- LIKE: `%` stands for any text, `_` for any character, and `\` takes what follows as it is.
unfoldable pub like : Text → Text → Bool
unfolding one any_suffix is_empty
like [] s = is_empty s
like (c ∷ []) s =
    if c == b'%'
    then true
    else if c == b'_'
    then one (λ _. true) is_empty s
    else one (λ d. d == c) is_empty s
like (c ∷ d ∷ p) s =
    let anywhere = any_suffix (like (d ∷ p)) s in
    let escaped = one (λ x. x == d) (like p) s in
    let any_one = one (λ _. true) (like (d ∷ p)) s in
    let this_one = one (λ x. x == c) (like (d ∷ p)) s in
    if c == b'%'
    then anywhere
    else if c == b'\\'
    then escaped
    else if c == b'_'
    then any_one
    else this_one

-- `name ILIKE '%' || part || '%'`
unfoldable pub ilike_within : Text → Text → Bool
unfolding like to_lower
ilike_within part name = like (b'%' ∷ to_lower part ++ b'%' ∷ []) (to_lower name)

pub record SymbolEntry : Type 0 where
  pub name : Text
  pub type : Text
  pub language : Text
  pub file_path : Text
  pub start_line : ℕ
  pub end_line : ℕ

unfoldable pub file_with_id : ℕ → List FileRow → Option FileRow
file_with_id id [] = none
file_with_id id (f ∷ fs) = if f.id == id then some f else file_with_id id fs

unfoldable pub row_of : Symbol → FileRow → SymbolEntry
row_of s f = record {
  name = s.name;
  type = s.type;
  language = f.language;
  file_path = f.path;
  start_line = s.start_line;
  end_line = s.end_line;
}

-- JOIN files f ON sym.file_id = f.id WHERE f.repo_id = $1 AND ($2 = '' OR …)
unfoldable pub select_symbols : Text → Text → List FileRow → List Symbol → List SymbolEntry
unfolding file_with_id row_of ilike_within is_empty same
select_symbols repo search files [] = []
select_symbols repo search files (s ∷ symbols) =
    let rest = select_symbols repo search files symbols in
    elim (file_with_id s.file_id files) [
      | none ↦ rest
      | some f ↦
          if same f.repo_id repo && (is_empty search || ilike_within search s.name)
          then row_of s f ∷ rest
          else rest
    ]

unfoldable pub comes_first : SymbolEntry → SymbolEntry → Bool
unfolding text_less same
comes_first a b =
    text_less a.file_path b.file_path
    || (same a.file_path b.file_path && ltb a.start_line b.start_line)

-- ListSymbols: ORDER BY f.path, sym.start_line, for the order of the bytes.
unfoldable pub list_symbols : Text → Text → Db → List SymbolEntry
unfolding select_symbols comes_first slice_stable
list_symbols repo search db =
    slice_stable comes_first (select_symbols repo search db.files db.symbols)

unfoldable pub same_edge : CallEdge → CallEdge → Bool
unfolding same
same_edge a b =
    (same a.repo_id b.repo_id && same a.caller_symbol b.caller_symbol)
    && (same a.caller_file_path b.caller_file_path && same a.callee_symbol b.callee_symbol)

-- SELECT DISTINCT
unfoldable pub distinct_edges : List CallEdge → List CallEdge
unfolding same_edge
distinct_edges [] = []
distinct_edges (e ∷ es) = e ∷ select (λ d. not (same_edge e d)) (distinct_edges es)

abbrev pub max_lexical_call_edges : ℕ
max_lexical_call_edges = 20

-- SearchCallEdgesByCalleeSubstring
unfoldable pub search_call_edges_by_callee_substring : Text → Text → Db → List CallEdge
unfolding distinct_edges ilike_within same
search_call_edges_by_callee_substring repo substr db = take max_lexical_call_edges (
    distinct_edges
      (select (λ e. same e.repo_id repo && ilike_within substr e.callee_symbol) db.call_edges))

unfoldable pub get_outgoing_calls : Text → Text → Text → Db → List CallEdge
unfolding distinct_edges same
get_outgoing_calls repo file_path caller_symbol db = distinct_edges (
    select
      (λ e.
        same e.repo_id repo
        && (same e.caller_symbol caller_symbol && same e.caller_file_path file_path))
      db.call_edges)

unfoldable pub get_incoming_calls : Text → Text → Db → List CallEdge
unfolding distinct_edges same
get_incoming_calls repo callee db =
    distinct_edges (select (λ e. same e.repo_id repo && same e.callee_symbol callee) db.call_edges)

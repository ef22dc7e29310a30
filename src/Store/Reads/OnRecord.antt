-- ===== src/Store/Reads/OnRecord.antt =====
-- That the queries give what is on record of the repository.
use mathlib.Core.List.{Memᴰ}
use mathlib.Core.Path.{subst}
use know_your_repo.Prelude.{
  ◌≡◌, refl, sym, inl, inr, true, false, not, ◌&&◌, ◌||◌, List, [], ◌∷◌, some, none, select, arith,
  All, All-mem, All-mono, All-select, All-take, Bool-cases, Option-cases, slice_stable-All,
}
use know_your_repo.Text.{Text, same, same_iff, is_empty}
use know_your_repo.Store.{Db, FileRow, Symbol, CallEdge}
use know_your_repo.Store.Reads.{
  SymbolEntry, file_with_id, row_of, select_symbols, comes_first, list_symbols, distinct_edges,
  same_edge, ilike_within, search_call_edges_by_callee_substring, max_lexical_call_edges,
}

-- The entry is that of a symbol on record in a file of the repository.
pub record IsEntry (repo : Text) (files : List FileRow) (symbols : List Symbol)
    (entry : SymbolEntry) : Type 0 where
  pub symbol : Symbol
  pub file : FileRow
  pub of_table : Memᴰ symbol symbols
  pub in_file : file_with_id symbol.file_id files ≡ some file
  pub of_repository : file.repo_id ≡ repo
  pub made : entry ≡ row_of symbol file

module _ (repo search : Text) (files : List FileRow) where
  module _ (s : Symbol) (symbols : List Symbol) where
    IsEntry-later :
        (e : SymbolEntry) → IsEntry repo files symbols e → IsEntry repo files (s ∷ symbols) e
    IsEntry-later e h = record {
      symbol = h.symbol;
      file = h.file;
      of_table = Memᴰ.tail h.of_table;
      in_file = h.in_file;
      of_repository = h.of_repository;
      made = h.made;
    }

    select-lost :
        file_with_id s.file_id files ≡ none
        → select_symbols repo search files (s ∷ symbols) ≡ select_symbols repo search files symbols
    unfolding select_symbols
    select-lost e = rw (select_symbols, e) refl

    module _ (f : FileRow) (found : file_with_id s.file_id files ≡ some f) where
      select-other :
          (same f.repo_id repo && (is_empty search || ilike_within search s.name)) ≡ false
          → select_symbols repo search files (s ∷ symbols)
            ≡ select_symbols repo search files symbols
      unfolding select_symbols
      select-other e = rw (select_symbols, found, e) refl

      select-own :
          (same f.repo_id repo && (is_empty search || ilike_within search s.name)) ≡ true
          → select_symbols repo search files (s ∷ symbols)
            ≡ row_of s f ∷ select_symbols repo search files symbols
      unfolding select_symbols
      select-own e = rw (select_symbols, found, e) refl

      own-IsEntry :
          (same f.repo_id repo && (is_empty search || ilike_within search s.name)) ≡ true
          → IsEntry repo files (s ∷ symbols) (row_of s f)
      own-IsEntry e = record {
        symbol = s;
        file = f;
        of_table = Memᴰ.head refl;
        in_file = found;
        of_repository = (same_iff f.repo_id repo).0 (ground arith);
        made = refl;
      }

  select-IsEntry :
      (symbols : List Symbol)
      → All (IsEntry repo files symbols) (select_symbols repo search files symbols)
  unfolding select_symbols
  select-IsEntry [] = tt
  select-IsEntry (s ∷ symbols) =
      let rest =
        All-mono (IsEntry repo files symbols) (IsEntry repo files (s ∷ symbols))
          (select_symbols repo search files symbols) (IsEntry-later s symbols)
          (select-IsEntry symbols) in
      elim (Option-cases (file_with_id s.file_id files)) [
        | inl lost ↦
            subst (All (IsEntry repo files (s ∷ symbols))) (sym (select-lost s symbols lost)) rest
        | inr (f, found) ↦
            elim (Bool-cases
              (same f.repo_id repo && (is_empty search || ilike_within search s.name))) [
                | inr away ↦
                    subst (All (IsEntry repo files (s ∷ symbols)))
                      (sym (select-other s symbols f found away)) rest
                | inl own ↦
                    subst (All (IsEntry repo files (s ∷ symbols)))
                      (sym (select-own s symbols f found own))
                      (own-IsEntry s symbols f found own, rest)
              ]
      ]

pub list_symbols-IsEntry :
    (repo search : Text) (db : Db)
    → All (IsEntry repo db.files db.symbols) (list_symbols repo search db)
unfolding list_symbols
list_symbols-IsEntry repo search db =
    slice_stable-All (IsEntry repo db.files db.symbols) comes_first
      (select_symbols repo search db.files db.symbols)
      (select-IsEntry repo search db.files db.symbols)

distinct-All : (P : CallEdge → Type 0) (es : List CallEdge) → All P es → All P (distinct_edges es)
unfolding distinct_edges
distinct-All P [] h = tt
distinct-All P (e ∷ es) (p, h) = (
  p,
  All-select P (λ d. not (same_edge e d)) (distinct_edges es)
      (λ a m t. All-mem P (distinct_edges es) (distinct-All P es h) m),
)

-- The call is on record for the repository.
abbrev pub IsCall : Text → List CallEdge → CallEdge → Type 0
IsCall repo es e = Memᴰ e es × (e.repo_id ≡ repo)

pub search_call_edges-IsCall :
    (repo substr : Text) (db : Db)
    → All (IsCall repo db.call_edges) (search_call_edges_by_callee_substring repo substr db)
unfolding search_call_edges_by_callee_substring
search_call_edges-IsCall repo substr db =
    let test = λ (e : CallEdge). same e.repo_id repo && ilike_within substr e.callee_symbol in
    All-take (IsCall repo db.call_edges) max_lexical_call_edges
      (distinct_edges (select test db.call_edges))
      (distinct-All (IsCall repo db.call_edges) (select test db.call_edges) (
        All-select (IsCall repo db.call_edges) test db.call_edges
          (λ e m t. (m, (same_iff e.repo_id repo).0 (ground arith)))))

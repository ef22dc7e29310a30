-- ===== src/Retrieval/Database/OnRecord.antt =====
-- That the lexical search gives what is on record of the repository.
use mathlib.Core.List.{Memᴰ}
use know_your_repo.Prelude.{
  ◌≡◌, ◌⊎◌, refl, inl, inr, ◌||◌, List, [], ◌∷◌, Option, All, All-mem, All-mono, All-map,
  All-append, All-intro, Bool-cases, slice_stable, slice_stable-All, first_group,
}
use know_your_repo.Text.{Text, same, is_among}
use know_your_repo.Store.{Db, CallEdge}
use know_your_repo.Store.Reads.{SymbolEntry, list_symbols, search_call_edges_by_callee_substring}
use know_your_repo.Store.Reads.OnRecord.{
  IsEntry, IsCall, list_symbols-IsEntry, search_call_edges-IsCall,
}
use know_your_repo.Answer.{RetrievalResult, key}
use know_your_repo.Retrieval.{Details, Lookups}
use know_your_repo.Retrieval.Identifiers.{extract_candidate_identifiers}
use know_your_repo.Retrieval.Lexical.{
  Found, is_full, is_exact, join_group, group_loop, group_call_edges_by_callee, symbol_result,
  group_result, add_result, add_results, symbol_results, call_results, search_candidate,
  search_candidates, nothing_found, lexical_search,
}
use know_your_repo.Retrieval.Database.{lookups_of}

-- A group holds calls of its callee, and one at least.
module _ (Q : CallEdge → Type 0) where
  abbrev Named : Text × List CallEdge → Type 0
  Named g = (e : CallEdge) × Q e × (g.0 ≡ e.callee_symbol)

  join_group-All :
      (e : CallEdge) (gs : List (Text × List CallEdge))
      → Q e
      → All Named gs
      → All Named (join_group e gs)
  unfolding join_group
  join_group-All e [] q h = ((e, q, refl), tt)
  join_group-All e (g ∷ gs) q (n, h) = elim (Bool-cases (same g.0 e.callee_symbol)) [
    | inl here ↦ rw here (n, h)
    | inr away ↦ rw away (n, join_group-All e gs q h)
  ]

  group_loop-All :
      (es : List CallEdge) (gs : List (Text × List CallEdge))
      → All Q es
      → All Named gs
      → All Named (group_loop gs es)
  unfolding group_loop
  group_loop-All [] gs h k = k
  group_loop-All (e ∷ es) gs (q, h) k =
      group_loop-All es (join_group e gs) h (join_group-All e gs q k)

module _ {F : Type 0} (zero_distance : F) (P : RetrievalResult (Details F) → Type 0) where
  add_result-All :
      (r : RetrievalResult (Details F)) (st : Found zero_distance)
      → P r
      → All P st.results
      → All P (add_result zero_distance r st).results
  unfolding add_result
  add_result-All r st p h =
      elim (Bool-cases (is_full zero_distance st || is_among (key r) st.seen)) [
        | inl skipped ↦ rw skipped h
        | inr fits ↦ rw fits (All-append P st.results (r ∷ []) h (p, tt))
      ]

  add_results-All :
      (rs : List (RetrievalResult (Details F))) (st : Found zero_distance)
      → All P rs
      → All P st.results
      → All P (add_results zero_distance rs st).results
  unfolding add_results
  add_results-All [] st p h = h
  add_results-All (r ∷ rs) st (p, ps) h =
      add_results-All rs (add_result zero_distance r st) ps (add_result-All r st p h)

  module _ (look : Lookups)
      (symbols_hold : (c : Text) → All P (symbol_results zero_distance look c))
      (calls_hold : (c : Text) → All P (call_results zero_distance look c)) where
    search_candidate-All :
        (c : Text) (st : Found zero_distance)
        → All P st.results
        → All P (search_candidate zero_distance look c st).results
    unfolding search_candidate
    search_candidate-All c st h =
        let after = add_results zero_distance (symbol_results zero_distance look c) st in
        let q = add_results-All (symbol_results zero_distance look c) st (symbols_hold c) h in
        elim (Bool-cases (is_full zero_distance st)) [
          | inl full ↦ rw full h
          | inr room ↦ elim (Bool-cases (is_full zero_distance after)) [
            | inl full ↦ rw (room, full) q
            | inr more ↦
                rw (room, more)
                  (add_results-All (call_results zero_distance look c) after (calls_hold c) q)
          ]
        ]

    search_candidates-All :
        (cs : List Text) (st : Found zero_distance)
        → All P st.results
        → All P (search_candidates zero_distance look cs st).results
    unfolding search_candidates
    search_candidates-All [] st h = h
    search_candidates-All (c ∷ cs) st h =
        search_candidates-All cs (search_candidate zero_distance look c st)
          (search_candidate-All c st h)

module _ {F : Type 0} (zero_distance : F) (read_file : Text → Option Text)
    (visit_order : List (Text × List CallEdge) → List (Text × List CallEdge)) (repo : Text)
    (db : Db) where
  -- A symbol on record in a file of the repository, or the callee of a call on record for it.
  abbrev pub IsOnRecord : RetrievalResult (Details F) → Type 0
  IsOnRecord r =
      ((entry : SymbolEntry) × IsEntry repo db.files db.symbols entry
        × (r.symbol ≡ entry.name)
        × (r.file_path ≡ entry.file_path))
      ⊎ ((e : CallEdge) × IsCall repo db.call_edges e
          × (r.symbol ≡ e.callee_symbol)
          × (r.file_path ≡ []))

  symbols-IsOnRecord :
      (c : Text)
      → All IsOnRecord (symbol_results zero_distance (lookups_of read_file visit_order repo db) c)
  unfolding symbol_results symbol_result lookups_of
  symbols-IsOnRecord c =
      let look = lookups_of read_file visit_order repo db in
      let entries = slice_stable (first_group (is_exact c)) (list_symbols repo c db) in
      All-map IsOnRecord (symbol_result zero_distance look) entries (
        All-mono (IsEntry repo db.files db.symbols)
          (λ entry. IsOnRecord (symbol_result zero_distance look entry)) entries
          (λ entry h. inl (entry, h, refl, refl))
          (slice_stable-All (IsEntry repo db.files db.symbols) (first_group (is_exact c))
            (list_symbols repo c db) (list_symbols-IsEntry repo c db)))

  calls-IsOnRecord :
      ((gs : List (Text × List CallEdge)) (g : Text × List CallEdge)
        → Memᴰ g (visit_order gs)
        → Memᴰ g gs)
      → (c : Text)
      → All IsOnRecord (call_results zero_distance (lookups_of read_file visit_order repo db) c)
  unfolding call_results group_result lookups_of group_call_edges_by_callee
  calls-IsOnRecord visits c =
      let edges = search_call_edges_by_callee_substring repo c db in
      let groups = group_loop [] edges in
      let named =
        group_loop-All (IsCall repo db.call_edges) edges [] (search_call_edges-IsCall repo c db)
          tt in
      All-map IsOnRecord (group_result zero_distance) (visit_order groups) (
        All-intro (λ g. IsOnRecord (group_result zero_distance g)) (visit_order groups)
          (λ g m.
            let (e, q, callee) =
              All-mem (Named (IsCall repo db.call_edges)) groups named (visits groups g m) in
            inr (e, q, callee, refl)))

  -- Over the tables of the store, where a range over a map visits only entries of the map, each result of the
  -- lexical search is a symbol on record in a file of the repository, with the file's path, or the
  -- callee of a call on record for the repository, without a path.
  pub lexical_search-IsOnRecord :
      ((gs : List (Text × List CallEdge)) (g : Text × List CallEdge)
        → Memᴰ g (visit_order gs)
        → Memᴰ g gs)
      → (query : Text)
      → All IsOnRecord
          (lexical_search zero_distance (lookups_of read_file visit_order repo db) query)
  unfolding lexical_search
  lexical_search-IsOnRecord visits query =
      search_candidates-All zero_distance IsOnRecord (lookups_of read_file visit_order repo db)
        symbols-IsOnRecord (calls-IsOnRecord visits) (extract_candidate_identifiers query)
        (nothing_found zero_distance) tt

-- ===== src/Retrieval/Lexical/Within.antt =====
-- How many results the lexical search gives, and that none comes twice.
use mathlib.Core.Path.{subst}
use know_your_repo.Prelude.{
  ◌≤◌, ◌≡◌, refl, sym, ap, inl, inr, false, ◌||◌, List, [], ◌∷◌, ◌++◌, length, arith, Bool-cases,
  length-append,
}
use know_your_repo.Text.{Text, is_among, is_among-append, IsDistinct, IsDistinct-append}
use know_your_repo.Answer.{RetrievalResult, key}
use know_your_repo.Answer.Merge.{keys, keys-append}
use know_your_repo.Retrieval.{Details, Lookups}
use know_your_repo.Retrieval.Identifiers.{extract_candidate_identifiers}
use know_your_repo.Retrieval.Lexical.{
  Found, is_full, add_result, add_results, symbol_results, call_results, search_candidate,
  search_candidates, nothing_found, lexical_search, max_lexical_results,
}

module _ {F : Type 0} (zero_distance : F) where
  record IsWithin (st : Found zero_distance) : Type 0 where
    few : length st.results ≤ max_lexical_results
    once : IsDistinct (keys st.results)
    agree : (t : Text) → is_among t st.seen ≡ is_among t (keys st.results)

  joined : RetrievalResult (Details F) → Found zero_distance → Found zero_distance
  joined r st = record { seen = key r ∷ st.seen; results = st.results ++ r ∷ [] }

  joined-IsWithin :
      (r : RetrievalResult (Details F)) (st : Found zero_distance)
      → (is_full zero_distance st || is_among (key r) st.seen) ≡ false
      → IsWithin st
      → IsWithin (joined r st)
  unfolding joined is_among
  joined-IsWithin r st h p = record {
    few = ground (arith, length-append st.results (r ∷ []));
    once =
        subst IsDistinct (sym (keys-append st.results (r ∷ [])))
          (IsDistinct-append (key r) (keys st.results) (ground (arith, p.agree (key r))) p.once);
    agree = λ t. ground (
      arith,
      p.agree t,
      ap (is_among t) (keys-append st.results (r ∷ [])),
      is_among-append t (keys st.results) (key r ∷ []),
    );
  }

  add_result-IsWithin :
      (r : RetrievalResult (Details F)) (st : Found zero_distance)
      → IsWithin st
      → IsWithin (add_result zero_distance r st)
  unfolding add_result joined
  add_result-IsWithin r st p =
      elim (Bool-cases (is_full zero_distance st || is_among (key r) st.seen)) [
        | inl skipped ↦ rw skipped p
        | inr fits ↦ rw fits (joined-IsWithin r st fits p)
      ]

  add_results-IsWithin :
      (rs : List (RetrievalResult (Details F))) (st : Found zero_distance)
      → IsWithin st
      → IsWithin (add_results zero_distance rs st)
  unfolding add_results
  add_results-IsWithin [] st p = p
  add_results-IsWithin (r ∷ rs) st p =
      add_results-IsWithin rs (add_result zero_distance r st) (add_result-IsWithin r st p)

  search_candidate-IsWithin :
      (look : Lookups) (c : Text) (st : Found zero_distance)
      → IsWithin st
      → IsWithin (search_candidate zero_distance look c st)
  unfolding search_candidate
  search_candidate-IsWithin look c st p =
      let after = add_results zero_distance (symbol_results zero_distance look c) st in
      let q = add_results-IsWithin (symbol_results zero_distance look c) st p in
      elim (Bool-cases (is_full zero_distance st)) [
        | inl full ↦ rw full p
        | inr room ↦ elim (Bool-cases (is_full zero_distance after)) [
          | inl full ↦ rw (room, full) q
          | inr more ↦
              rw (room, more) (add_results-IsWithin (call_results zero_distance look c) after q)
        ]
      ]

  search_candidates-IsWithin :
      (look : Lookups) (cs : List Text) (st : Found zero_distance)
      → IsWithin st
      → IsWithin (search_candidates zero_distance look cs st)
  unfolding search_candidates
  search_candidates-IsWithin look [] st p = p
  search_candidates-IsWithin look (c ∷ cs) st p =
      search_candidates-IsWithin look cs (search_candidate zero_distance look c st)
        (search_candidate-IsWithin look c st p)

  nothing-IsWithin : IsWithin (nothing_found zero_distance)
  unfolding is_among
  nothing-IsWithin = record { few = omega arith; once = tt; agree = λ t. refl }

  -- The lexical search gives at most 5 results, and no two with the same symbol and file path as one
  -- key.
  pub lexical_search-IsWithin :
      (look : Lookups) (query : Text)
      → (length (lexical_search zero_distance look query) ≤ max_lexical_results)
        × IsDistinct (keys (lexical_search zero_distance look query))
  unfolding lexical_search
  lexical_search-IsWithin look query =
      let p =
        search_candidates-IsWithin look (extract_candidate_identifiers query)
          (nothing_found zero_distance) nothing-IsWithin in
      (p.few, p.once)

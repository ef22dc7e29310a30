-- ===== src/Retrieval/Lexical/Exact.antt =====
-- That an exact match of the first identifier comes first.
use mathlib.Core.Path.{subst}
use mathlib.Core.List.{Memᴰ}
use mathlib.Core.List.Memᴰ
use know_your_repo.Prelude.{
  List-cases, mem-select, mem-select_of_mem, ◌≡◌, refl, sym, ap, ◌∙◌, inl, inr, true, false, ◌||◌,
  List, [], ◌∷◌, ◌++◌, map, some, Bool-cases, select, slice_stable, first_group, sort-groups, fails,
}
use know_your_repo.Text.{Text, is_among, equal_fold}
use know_your_repo.Answer.{RetrievalResult, key}
use know_your_repo.Retrieval.{Details, Lookups}
use know_your_repo.Store.Reads.{SymbolEntry}
use know_your_repo.Retrieval.Identifiers.{extract_candidate_identifiers}
use know_your_repo.Retrieval.Lexical.{
  Found, is_full, is_exact, add_result, add_results, symbol_result, symbol_results, call_results,
  search_candidate, search_candidates, nothing_found, lexical_search,
}

-- There is a first result, and it has the property.
abbrev pub IsFirst {ℓ} : {A : Type ℓ} → (A → Type 0) → List A → Type 0
IsFirst P [] = ⊥
IsFirst P (x ∷ xs) = P x

module _ {F : Type 0} (zero_distance : F) (P : RetrievalResult (Details F) → Type 0) where
  IsFirst-append :
      (xs ys : List (RetrievalResult (Details F))) → IsFirst P xs → IsFirst P (xs ++ ys)
  IsFirst-append [] ys h = absurd h
  IsFirst-append (x ∷ xs) ys h = h

  add_result-IsFirst :
      (r : RetrievalResult (Details F)) (st : Found zero_distance)
      → IsFirst P st.results
      → IsFirst P (add_result zero_distance r st).results
  unfolding add_result
  add_result-IsFirst r st h =
      elim (Bool-cases (is_full zero_distance st || is_among (key r) st.seen)) [
        | inl skipped ↦ rw skipped h
        | inr fits ↦ rw fits (IsFirst-append st.results (r ∷ []) h)
      ]

  add_results-IsFirst :
      (rs : List (RetrievalResult (Details F))) (st : Found zero_distance)
      → IsFirst P st.results
      → IsFirst P (add_results zero_distance rs st).results
  unfolding add_results
  add_results-IsFirst [] st h = h
  add_results-IsFirst (r ∷ rs) st h =
      add_results-IsFirst rs (add_result zero_distance r st) (add_result-IsFirst r st h)

  search_candidate-full :
      (look : Lookups) (c : Text) (st : Found zero_distance)
      → is_full zero_distance st ≡ true
      → IsFirst P st.results
      → IsFirst P (search_candidate zero_distance look c st).results
  unfolding search_candidate
  search_candidate-full look c st full h = rw full h

  search_candidate-IsFirst :
      (look : Lookups) (c : Text) (st : Found zero_distance)
      → IsFirst P (add_results zero_distance (symbol_results zero_distance look c) st).results
      → is_full zero_distance st ≡ false
      → IsFirst P (search_candidate zero_distance look c st).results
  unfolding search_candidate
  search_candidate-IsFirst look c st h room =
      let after = add_results zero_distance (symbol_results zero_distance look c) st in
      elim (Bool-cases (is_full zero_distance after)) [
        | inl full ↦ rw (room, full) h
        | inr more ↦
            rw (room, more) (add_results-IsFirst (call_results zero_distance look c) after h)
      ]

  search_candidates-IsFirst :
      (look : Lookups) (cs : List Text) (st : Found zero_distance)
      → IsFirst P st.results
      → IsFirst P (search_candidates zero_distance look cs st).results
  unfolding search_candidates
  search_candidates-IsFirst look [] st h = h
  search_candidates-IsFirst look (c ∷ cs) st h =
      search_candidates-IsFirst look cs (search_candidate zero_distance look c st) (later c st h)
    where
      later :
          (d : Text) (st' : Found zero_distance)
          → IsFirst P st'.results
          → IsFirst P (search_candidate zero_distance look d st').results
      later d st' k = elim (Bool-cases (is_full zero_distance st')) [
        | inl full ↦ search_candidate-full look d st' full k
        | inr room ↦
            search_candidate-IsFirst look d st'
              (add_results-IsFirst (symbol_results zero_distance look d) st' k) room
      ]

-- An exact match among the symbols is the first of the sorted ones.
sorted_exact :
    (c : Text) (syms : List SymbolEntry) (s : SymbolEntry)
    → Memᴰ s syms
    → is_exact c s ≡ true
    → (x : SymbolEntry) × (rest : List SymbolEntry) × (is_exact c x ≡ true)
      × (slice_stable (first_group (is_exact c)) syms ≡ x ∷ rest)
sorted_exact c syms s m exact = elim (List-cases (select (is_exact c) syms)) [
  | inl nothing ↦
      absurd (Memᴰ.not-nil (subst (Memᴰ s) nothing (mem-select_of_mem (is_exact c) syms m exact)))
  | inr (x, rest, e) ↦ (
    x,
    rest ++ select (fails (is_exact c)) syms,
    (mem-select (is_exact c) syms (subst (Memᴰ x) (sym e) (Memᴰ.head refl))).1,
    sort-groups (is_exact c) syms ∙ ap (λ xs. xs ++ select (fails (is_exact c)) syms) e,
  )
]

module _ {F : Type 0} (zero_distance : F) where
  -- The name is the identifier, but for case.
  abbrev pub IsExactResult : Text → RetrievalResult (Details F) → Type 0
  IsExactResult c r = equal_fold r.symbol c ≡ true

  symbol_results-sorted :
      (look : Lookups) (c : Text) (syms : List SymbolEntry)
      → look.list_symbols c ≡ some syms
      → symbol_results zero_distance look c
        ≡ map (symbol_result zero_distance look) (slice_stable (first_group (is_exact c)) syms)
  unfolding symbol_results
  symbol_results-sorted look c syms e = rw e

  IsFirst-added :
      (look : Lookups) (c : Text) (x : SymbolEntry) (rest : List SymbolEntry)
      → is_exact c x ≡ true
      → IsFirst
          (IsExactResult c)
          (add_results zero_distance
            (map (symbol_result zero_distance look) (x ∷ rest))
            (nothing_found zero_distance)).results
  unfolding add_results add_result symbol_result is_among
  IsFirst-added look c x rest exact =
      add_results-IsFirst zero_distance (IsExactResult c)
        (map (symbol_result zero_distance look) rest)
        (add_result zero_distance (symbol_result zero_distance look x)
          (nothing_found zero_distance))
        exact

  -- If the first identifier of the question is the name of a symbol, but for case, then there is a
  -- result, and the first is a symbol of that name, but for case.
  pub lexical_search-exact-IsFirst :
      (look : Lookups) (query c : Text) (cs : List Text) (syms : List SymbolEntry) (s : SymbolEntry)
      → extract_candidate_identifiers query ≡ c ∷ cs
      → look.list_symbols c ≡ some syms
      → Memᴰ s syms
      → is_exact c s ≡ true
      → IsFirst (IsExactResult c) (lexical_search zero_distance look query)
  unfolding lexical_search search_candidates
  lexical_search-exact-IsFirst look query c cs syms s picked listed m exact =
      let (x, rest, x_exact, sorted) = sorted_exact c syms s m exact in
      subst
        (λ ds.
          IsFirst (IsExactResult c)
            (search_candidates zero_distance look ds (nothing_found zero_distance)).results)
        (sym picked)
        (search_candidates-IsFirst zero_distance (IsExactResult c) look cs
          (search_candidate zero_distance look c (nothing_found zero_distance))
          (search_candidate-IsFirst zero_distance (IsExactResult c) look c
            (nothing_found zero_distance)
            (subst
              (λ rs.
                IsFirst (IsExactResult c)
                  (add_results zero_distance rs (nothing_found zero_distance)).results)
              (sym (
                symbol_results-sorted look c syms listed
                ∙ ap (map (symbol_result zero_distance look)) sorted))
              (IsFirst-added look c x rest x_exact))
            refl))

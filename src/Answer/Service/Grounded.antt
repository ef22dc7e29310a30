-- ===== src/Answer/Service/Grounded.antt =====
-- What an answer is built from, and when there is none.
use mathlib.Core.Path.{subst}
use mathlib.Core.List.{append-nil, Memᴰ}
use know_your_repo.Prelude.{
  ◌≡◌, ◌↔◌, ◌⊎◌, ◌||◌, refl, sym, ap, ◌∙◌, inl, inr, true, false, List, [], ◌∷◌, ◌++◌, Option, some,
  none, arith, Bool-cases, Option-cases,
}
use know_your_repo.Text.{Text, same_refl, is_among, IsDistinct}
use know_your_repo.Answer.{RetrievalResult, key, merge_results, merge_loop}
use know_your_repo.Answer.Merge.{keys, merge_results-IsMerged, merge_results-IsDistinct}
use know_your_repo.Retrieval.{Details, SearchResult, Lookups}
use know_your_repo.Retrieval.Semantic.{search}
use know_your_repo.Retrieval.Semantic.Covered.{search-shown}
use know_your_repo.Retrieval.Lexical.{lexical_search}
use know_your_repo.Context.{build}
use know_your_repo.Architecture.Analyze.{Summary}
use know_your_repo.Answer.Service.{
  Services, found, grounding, is_ungrounded, with_overview, overview_results, answer_question,
  reply, answer, wants_architecture_overview, overview_as_result,
}

no_answer : {A : Type 0} (a : A) → ¬ (none ≡ some a)
no_answer a e = cc

module _ {F : Type 0} (s : Services F) where
  -- The results of the semantic search, none if it fails.
  abbrev pub semantic_results : List (RetrievalResult (Details F))
  semantic_results = found (search s.lookups s.semantic_search)

  abbrev pub lexical_results : Text → List (RetrievalResult (Details F))
  lexical_results query = lexical_search s.zero_distance s.lookups query

  found-IsDistinct :
      (look : Lookups) (hits : Option (List (SearchResult F)))
      → IsDistinct (keys (found (search look hits)))
  unfolding search
  found-IsDistinct look none = tt
  found-IsDistinct look (some hits) =
      let (results, e, once, shown) = search-shown look hits in
      subst (λ o. IsDistinct (keys (found o))) (sym e) once

  -- No semantic search and no lexical result.
  abbrev pub IsUngrounded : Text → Type 0
  IsUngrounded query = (s.semantic_search ≡ none) × (lexical_results query ≡ [])

  IsUngrounded-grounding :
      (query : Text) → IsUngrounded query → is_ungrounded s (grounding s query) ≡ true
  unfolding grounding search merge_results merge_loop
  IsUngrounded-grounding query (e, f) = rw (grounding, e, f) refl

  nothing-lexical :
      (base lexical : List (RetrievalResult (Details F)))
      → merge_results base lexical ≡ []
      → lexical ≡ []
  unfolding is_among
  nothing-lexical base [] e = refl
  nothing-lexical base (r ∷ rs) e =
      let all = (merge_results-IsMerged base (r ∷ rs)).1 (key r) in
      let none_left : is_among (key r) (keys (merge_results base (r ∷ rs))) ≡ false = rw e refl in
      absurd (ground (arith, same_refl (key r)))

  ungrounded-cases :
      (results : List (RetrievalResult (Details F)))
      → is_ungrounded s results ≡ true
      → (s.semantic_search ≡ none) × (results ≡ [])
  ungrounded-cases [] h = elim (Option-cases s.semantic_search) [
    | inl e ↦ (e, refl)
    | inr (hits, e) ↦ let no : false ≡ true = rw e at h in cc
  ]
  ungrounded-cases (r ∷ rs) h = cc

  IsUngrounded-iff :
      (query : Text) → (is_ungrounded s (grounding s query) ≡ true) ↔ IsUngrounded query
  unfolding grounding
  IsUngrounded-iff query = (
    λ h.
        let (e, nothing) = ungrounded-cases (grounding s query) h in
        (e, nothing-lexical semantic_results (lexical_results query) nothing),
    IsUngrounded-grounding query,
  )

  module _ (repo_id query history : Text) where
    -- What the answer is built from.
    abbrev pub shown_results : List (RetrievalResult (Details F))
    shown_results = with_overview s repo_id query (grounding s query)

    answer-ungrounded :
        is_ungrounded s (grounding s query) ≡ true → (answer s repo_id query history).1 ≡ none
    unfolding answer
    answer-ungrounded h = rw (answer, h) refl

    answer-asked :
        is_ungrounded s (grounding s query) ≡ false
        → (answer s repo_id query history).1
          ≡ reply (answer_question s query history shown_results) shown_results
    unfolding answer
    answer-asked h = rw (answer, h) refl

    reply-some :
        (o : Option Text) (results : List (RetrievalResult (Details F))) (text : Text)
        (given : List (RetrievalResult (Details F)))
        → reply o results ≡ some (text, given)
        → (o ≡ some text) × (results ≡ given)
    reply-some none results text given e = cc
    reply-some (some t) results text given e =
        let one : ◌≡◌ {A = Text × List (RetrievalResult (Details F))} (t, results) (text, given) =
          cc in
        (ap (λ p. some p.0) one, ap (λ p. p.1) one)

    reply-none :
        (o : Option Text) (results : List (RetrievalResult (Details F)))
        → (reply o results ≡ none) ↔ (o ≡ none)
    reply-none none results = (λ e. refl, λ e. refl)
    reply-none (some t) results = (λ e. cc, λ e. cc)

    -- Answer returns an error exactly if the semantic search fails and the lexical search finds
    -- nothing, or if the language model fails on the context built from the results.
    pub answer-none_iff :
        ((answer s repo_id query history).1 ≡ none)
        ↔ (IsUngrounded query ⊎ (s.chat history (build query shown_results) query ≡ none))
    unfolding answer_question
    answer-none_iff = elim (Bool-cases (is_ungrounded s (grounding s query))) [
      | inl bare ↦ (λ e. inl ((IsUngrounded-iff query).0 bare), λ e. answer-ungrounded bare)
      | inr based ↦ (
        λ e. inr (
            (reply-none (answer_question s query history shown_results) shown_results).0
              (sym (answer-asked based) ∙ e)),
        λ c.
            answer-asked based
            ∙ (reply-none (answer_question s query history shown_results) shown_results).1 (elim c [
              | inl bare ↦
                  let no : true ≡ false = sym (IsUngrounded-grounding query bare) ∙ based in cc
              | inr silent ↦ silent
            ]),
      )
    ]

    -- The overview of the summary that was built, where the question asks for one; otherwise nothing.
    abbrev pub IsOverview : List (RetrievalResult (Details F)) → Type 0
    IsOverview extra =
        (wants_architecture_overview query ≡ true)
          × ((summary : Summary) × (s.build_summary ≡ some summary)
              × (extra ≡ overview_as_result s.zero_distance repo_id summary ∷ []))
        ⊎ ((wants_architecture_overview query ≡ false) ⊎ (s.build_summary ≡ none)) × (extra ≡ [])

    overview_results-IsOverview :
        wants_architecture_overview query ≡ true
        → IsOverview (overview_results s.zero_distance repo_id s.build_summary)
    overview_results-IsOverview wanted = elim (Option-cases s.build_summary) [
      | inl e ↦ inr (inr e, rw e refl)
      | inr (summary, e) ↦ inl (wanted, (summary, e, rw e refl))
    ]

    with_overview-extra :
        (results : List (RetrievalResult (Details F)))
        → (extra : List (RetrievalResult (Details F))) × IsOverview extra
          × (with_overview s repo_id query results ≡ results ++ extra)
    unfolding with_overview
    with_overview-extra results = elim (Bool-cases (wants_architecture_overview query)) [
      | inl wanted ↦ (
        overview_results s.zero_distance repo_id s.build_summary,
        overview_results-IsOverview wanted,
        rw (with_overview, wanted) refl,
      )
      | inr unwanted ↦
          ([], inr (inl unwanted, refl), rw (with_overview, unwanted) (sym (append-nil results)))
    ]

    -- An answer is what the language model says of the context built from the results given with it, and
    -- the semantic search did not fail, or the lexical search found something. The results are
    -- those of the semantic search, then results of the lexical search, no key coming twice and every
    -- key of either search coming; then the overview if the question asks for one and its summary can
    -- be built, and otherwise nothing more.
    pub answer-grounded :
        (text : Text) (results : List (RetrievalResult (Details F)))
        → (answer s repo_id query history).1 ≡ some (text, results)
        → ¬ IsUngrounded query
          × (s.chat history (build query results) query ≡ some text)
          × ((new extra : List (RetrievalResult (Details F))) × (results
                ≡ (semantic_results ++ new) ++ extra)
              × IsDistinct (keys (semantic_results ++ new))
              × ((r : RetrievalResult (Details F)) → Memᴰ r new → Memᴰ r (lexical_results query))
              × ((k : Text)
                  → is_among k (keys (semantic_results ++ new)) ≡ (
                      is_among k (keys semantic_results)
                      || is_among k (keys (lexical_results query))))
              × IsOverview extra)
    unfolding answer_question grounding
    answer-grounded text results e = elim (Bool-cases (is_ungrounded s (grounding s query))) [
      | inl bare ↦ absurd (no_answer (text, results) (sym (answer-ungrounded bare) ∙ e))
      | inr based ↦
          let (said, given) =
            reply-some (answer_question s query history shown_results) shown_results text results
              (sym (answer-asked based) ∙ e) in
          let ((new, merged, from), all) =
            merge_results-IsMerged semantic_results (lexical_results query) in
          let (extra, few, extended) = with_overview-extra (grounding s query) in
          (
            λ bare. let no : true ≡ false = sym (IsUngrounded-grounding query bare) ∙ based in cc,
            subst (λ rs. s.chat history (build query rs) query ≡ some text) given said,
            (
              new,
              extra,
              sym given ∙ extended ∙ ap (λ rs. rs ++ extra) merged,
              subst (λ rs. IsDistinct (keys rs)) merged
                  (merge_results-IsDistinct semantic_results (lexical_results query)
                    (found-IsDistinct s.lookups s.semantic_search)),
              from,
              λ k. ap (λ rs. is_among k (keys rs)) (sym merged) ∙ all k,
              few,
            ),
          )
    ]

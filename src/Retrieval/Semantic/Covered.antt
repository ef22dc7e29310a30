-- ===== src/Retrieval/Semantic/Covered.antt =====
-- What the semantic search gives.
use mathlib.Core.Path.{subst}
use know_your_repo.Prelude.{
  ◌≡◌, refl, sym, ap, ◌∙◌, inl, inr, Bool, true, false, not, ◌&&◌, ◌||◌, List, [], ◌∷◌, ◌++◌, arith,
  Option, some, none, Bool-cases, Option-cases, if◌then◌else◌,
}
use know_your_repo.Text.{
  Text, same, same_iff, is_among, is_among-append, IsDistinct, IsDistinct-append,
}
use know_your_repo.Answer.{RetrievalResult}
use know_your_repo.Answer.Merge.{keys, keys-append}
use know_your_repo.Retrieval.{Details, SearchResult, Lookups, GraphEdge}
use know_your_repo.Retrieval.Semantic.{
  Hits, place_of, dedupe_key, to_result, expand_symbol, expand_hit, add_hit, add_hits, search,
}

module _ (look : Lookups) where
  -- What a hit of a place says of a key, before the hits that follow.
  abbrev pub decided : Text × Text → Text → Bool → Bool
  decided p k rest =
      if same (dedupe_key p) k
      then elim (expand_symbol look p.1 p.0) [ none ↦ false | some edges ↦ true ]
      else rest

  abbrev pub shown_or : Option (Text × Text) → Text → Bool → Bool
  shown_or none k rest = rest
  shown_or (some p) k rest = decided p k rest

module _ {F : Type 0} (look : Lookups) where
  -- Whether the first hit of a key has calls that can be read.
  abbrev pub is_shown : Text → List (SearchResult F) → Bool
  is_shown k [] = false
  is_shown k (sr ∷ srs) = shown_or look (place_of sr.metadata) k (is_shown k srs)

  -- No key twice, and what is shown was seen.
  record IsTidy (st : Hits F) : Type 0 where
    once : IsDistinct (keys st.results)
    known : (k : Text) → is_among k (keys st.results) ≡ true → is_among k st.seen ≡ true

  expand-failed :
      (sr : SearchResult F) (p : Text × Text) (st : Hits F)
      → expand_symbol look p.1 p.0 ≡ none
      → expand_hit look sr p st ≡ record st { seen = dedupe_key p ∷ st.seen }
  unfolding expand_hit
  expand-failed sr p st e = rw (expand_hit, e)

  expand-read :
      (sr : SearchResult F) (p : Text × Text) (st : Hits F) (edges : List GraphEdge)
      → expand_symbol look p.1 p.0 ≡ some edges
      → expand_hit look sr p st ≡ record {
        seen = dedupe_key p ∷ st.seen;
        results = st.results ++ to_result sr p edges ∷ [];
      }
  unfolding expand_hit
  expand-read sr p st edges e = rw (expand_hit, e)

  among-joined :
      (k : Text) (sr : SearchResult F) (p : Text × Text) (edges : List GraphEdge)
      (rs : List (RetrievalResult (Details F)))
      → is_among k (keys (rs ++ to_result sr p edges ∷ []))
        ≡ (is_among k (keys rs) || same (dedupe_key p) k)
  unfolding to_result is_among
  among-joined k sr p edges rs = ground (
    arith,
    ap (is_among k) (keys-append rs (to_result sr p edges ∷ [])),
    is_among-append k (keys rs) (dedupe_key p ∷ []),
  )

  expand_hit-IsTidy :
      (sr : SearchResult F) (p : Text × Text) (st : Hits F)
      → is_among (dedupe_key p) st.seen ≡ false
      → IsTidy st
      → IsTidy (expand_hit look sr p st)
  unfolding is_among to_result
  expand_hit-IsTidy sr p st fresh h = elim (Option-cases (expand_symbol look p.1 p.0)) [
    | inl e ↦
        rw (expand-failed sr p st e)
          (record { once = h.once; known = λ k m. ground (arith, h.known k) })
    | inr (edges, e) ↦ rw (expand-read sr p st edges e) (record {
      once = subst IsDistinct (sym (keys-append st.results (to_result sr p edges ∷ []))) (
          IsDistinct-append (dedupe_key p) (keys st.results)
            (ground (arith, h.known (dedupe_key p))) h.once);
      known = λ k m. ground (arith, h.known k, among-joined k sr p edges st.results);
    })
  ]

  add_hit-IsTidy : (sr : SearchResult F) (st : Hits F) → IsTidy st → IsTidy (add_hit look sr st)
  unfolding add_hit
  add_hit-IsTidy sr st h = elim (Option-cases (place_of sr.metadata)) [
    | inl e ↦ rw (add_hit, e) h
    | inr (p, e) ↦ elim (Bool-cases (is_among (dedupe_key p) st.seen)) [
      | inl old ↦ rw (add_hit, e, old) h
      | inr new ↦ rw (add_hit, e, new) (expand_hit-IsTidy sr p st new h)
    ]
  ]

  add_hits-IsTidy :
      (srs : List (SearchResult F)) (st : Hits F) → IsTidy st → IsTidy (add_hits look srs st)
  unfolding add_hits
  add_hits-IsTidy [] st h = h
  add_hits-IsTidy (sr ∷ srs) st h =
      add_hits-IsTidy srs (add_hit look sr st) (add_hit-IsTidy sr st h)

  among-expand_hit :
      (k : Text) (sr : SearchResult F) (p : Text × Text) (st : Hits F) (rest : Bool)
      → is_among (dedupe_key p) st.seen ≡ false
      → (is_among k (keys (expand_hit look sr p st).results)
          || (not (is_among k (expand_hit look sr p st).seen) && rest))
        ≡ (is_among k (keys st.results) || (not (is_among k st.seen) && decided look p k rest))
  unfolding is_among
  among-expand_hit k sr p st rest fresh = elim (Option-cases (expand_symbol look p.1 p.0)) [
    | inl e ↦
        rw (expand-failed sr p st e, e)
          (ground (arith, ap (λ t. is_among t st.seen), same_iff (dedupe_key p) k))
    | inr (edges, e) ↦
        rw (expand-read sr p st edges e, e)
          (ground (
            arith,
            among-joined k sr p edges st.results,
            ap (λ t. is_among t st.seen),
            same_iff (dedupe_key p) k,
          ))
  ]

  among-add_hit :
      (k : Text) (sr : SearchResult F) (st : Hits F) (rest : Bool)
      → (is_among k (keys (add_hit look sr st).results)
          || (not (is_among k (add_hit look sr st).seen) && rest))
        ≡ (is_among k (keys st.results)
            || (not (is_among k st.seen) && shown_or look (place_of sr.metadata) k rest))
  unfolding add_hit
  among-add_hit k sr st rest = elim (Option-cases (place_of sr.metadata)) [
    | inl e ↦ rw (add_hit, e) refl
    | inr (p, e) ↦ elim (Bool-cases (is_among (dedupe_key p) st.seen)) [
      | inl old ↦
          rw (add_hit, e, old)
            (ground (arith, ap (λ t. is_among t st.seen), same_iff (dedupe_key p) k))
      | inr new ↦ rw (add_hit, e, new) (among-expand_hit k sr p st rest new)
    ]
  ]

  among-add_hits :
      (k : Text) (srs : List (SearchResult F)) (st : Hits F)
      → is_among k (keys (add_hits look srs st).results)
        ≡ (is_among k (keys st.results) || (not (is_among k st.seen) && is_shown k srs))
  unfolding add_hits
  among-add_hits k [] st = ground arith
  among-add_hits k (sr ∷ srs) st =
      among-add_hits k srs (add_hit look sr st) ∙ among-add_hit k sr st (is_shown k srs)

  -- The semantic search fails only if the sidecar does. No two results have one key, and a key is among
  -- the results if and only if the first hit of that key has calls that can be read; hits that
  -- do not name a symbol and a file are passed over.
  pub search-shown :
      (srs : List (SearchResult F))
      → (results : List (RetrievalResult (Details F))) × (search look (some srs) ≡ some results)
        × IsDistinct (keys results)
        × ((k : Text) → is_among k (keys results) ≡ is_shown k srs)
  unfolding search is_among
  search-shown srs = (
    (add_hits look srs (record { seen = []; results = [] })).results,
    refl,
    (add_hits-IsTidy srs (record { seen = []; results = [] })
        (record { once = tt; known = λ k m. cc })).once,
    λ k. among-add_hits k srs (record { seen = []; results = [] }),
  )

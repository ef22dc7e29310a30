-- ===== src/Retrieval/Identifiers/Chosen.antt =====
-- Which identifiers of a question are looked up.
use mathlib.Core.Path.{subst}
use know_your_repo.Prelude.{
  ◌≤◌, ◌≡◌, refl, sym, ap, ◌∙◌, inl, inr, true, false, ◌||◌, List, [], ◌∷◌, ◌++◌, map, length,
  arith, Bool-cases, length-append, leb, ltb,
}
use know_your_repo.Text.{
  Text, same, same_iff, to_lower, is_among, is_among-append, IsDistinct, IsDistinct-append,
}
use know_your_repo.Retrieval.Identifiers.{
  Picked, none_picked, is_common, add, add_all, matches, is_passed_over,
  extract_candidate_identifiers, max_lexical_candidates,
}

-- Folded to lower case.
abbrev pub folded : List Text → List Text
folded toks = map to_lower toks

folded-append : (xs ys : List Text) → folded (xs ++ ys) ≡ folded xs ++ folded ys
folded-append [] ys = refl
folded-append (x ∷ xs) ys = ap (λ r. to_lower x ∷ r) (folded-append xs ys)

-- Long enough, and not a common word.
abbrev pub IsLookedUp : Text → Type 0
IsLookedUp tok = (ltb (length tok) 3 || is_common tok) ≡ false

-- At most 5 tokens that are looked up, each once without regard to case.
pub record IsChoice (toks : List Text) : Type 0 where
  pub few : length toks ≤ max_lexical_candidates
  pub once : IsDistinct (folded toks)
  pub looked_up : (t : Text) → is_among t toks ≡ true → IsLookedUp t

record IsPicked (st : Picked) : Type 0 where
  choice : IsChoice st.candidates
  agree : (t : Text) → is_among t st.seen ≡ is_among t (folded st.candidates)

-- What offering tokens does.
record IsAdded (toks : List Text) (st st' : Picked) : Type 0 where
  picked : IsPicked st'
  grows : length st.candidates ≤ length st'.candidates
  keeps : (t : Text) → is_among t st.seen ≡ true → is_among t st'.seen ≡ true
  from :
      (t : Text)
      → is_among t st'.candidates ≡ true
      → (is_among t st.candidates || is_among t toks) ≡ true
  covers :
      (t : Text)
      → is_among t toks ≡ true
      → IsLookedUp t
      → leb max_lexical_candidates (length st'.candidates) ≡ false
      → is_among (to_lower t) st'.seen ≡ true

taken : Text → Picked → Picked
taken tok st = record { seen = to_lower tok ∷ st.seen; candidates = st.candidates ++ tok ∷ [] }

same-fold : (s t : Text) → same s t ≡ true → same (to_lower s) (to_lower t) ≡ true
same-fold s t h =
    let e = (same_iff s t).0 h in (same_iff (to_lower s) (to_lower t)).1 (ap to_lower e)

module _ (tok : Text) (st : Picked) (p : IsPicked st) where
  taken-IsPicked :
      leb max_lexical_candidates (length st.candidates) ≡ false
      → is_passed_over st.seen tok ≡ false
      → IsPicked (taken tok st)
  unfolding taken is_among
  taken-IsPicked h k = record {
    choice = record {
      few = ground (arith, length-append st.candidates (tok ∷ []));
      once = subst IsDistinct (sym (folded-append st.candidates (tok ∷ []))) (
          IsDistinct-append (to_lower tok) (folded st.candidates)
            (ground (arith, p.agree (to_lower tok))) p.choice.once);
      looked_up = λ t m. elim (Bool-cases (is_among t st.candidates)) [
        | inl old ↦ p.choice.looked_up t old
        | inr new ↦ ground (
          arith,
          is_among-append t st.candidates (tok ∷ []),
          same_iff tok t,
          ap is_common,
          ap (λ (u : Text). ltb (length u) 3),
        )
      ];
    };
    agree = λ t. ground (
      arith,
      p.agree t,
      ap (is_among t) (folded-append st.candidates (tok ∷ [])),
      is_among-append t (folded st.candidates) (to_lower tok ∷ []),
    );
  }

  taken-IsAdded :
      leb max_lexical_candidates (length st.candidates) ≡ false
      → is_passed_over st.seen tok ≡ false
      → IsAdded (tok ∷ []) st (taken tok st)
  unfolding taken is_among
  taken-IsAdded h k = record {
    picked = taken-IsPicked h k;
    grows = omega (arith, length-append st.candidates (tok ∷ []));
    keeps = λ t m. ground arith;
    from = λ t m. ground (arith, is_among-append t st.candidates (tok ∷ []));
    covers = λ t m l room. ground (arith, same-fold tok t);
  }

  same-IsAdded :
      (leb max_lexical_candidates (length st.candidates) || is_passed_over st.seen tok) ≡ true
      → IsAdded (tok ∷ []) st st
  unfolding is_among
  same-IsAdded h = record {
    picked = p;
    grows = omega arith;
    keeps = λ t m. m;
    from = λ t m. ground arith;
    covers = λ t m l room. ground (
      arith,
      same_iff tok t,
      ap is_common,
      ap (λ (u : Text). ltb (length u) 3),
      ap (λ u. is_among (to_lower u) st.seen),
    );
  }

  add-IsAdded : IsAdded (tok ∷ []) st (add tok st)
  unfolding add taken
  add-IsAdded = elim (Bool-cases (leb max_lexical_candidates (length st.candidates))) [
    | inl full ↦ rw full (same-IsAdded (ground arith))
    | inr room ↦ elim (Bool-cases (is_passed_over st.seen tok)) [
      | inl over ↦ rw (room, over) (same-IsAdded (ground arith))
      | inr fits ↦ rw (room, fits) (taken-IsAdded room fits)
    ]
  ]

add_all-IsAdded : (toks : List Text) (st : Picked) → IsPicked st → IsAdded toks st (add_all toks st)
unfolding add_all is_among
add_all-IsAdded [] st p = record {
  picked = p;
  grows = omega arith;
  keeps = λ t m. m;
  from = λ t m. ground arith;
  covers = λ t m. cc;
}
add_all-IsAdded (tok ∷ toks) st p =
    let one = add-IsAdded tok st p in
    let more = add_all-IsAdded toks (add tok st) one.picked in
    record {
      picked = more.picked;
      grows = omega (arith, one.grows, more.grows);
      keeps = λ t m. more.keeps t (one.keeps t m);
      from = λ t m. ground (arith, one.from t, more.from t);
      covers = λ t m l room.
          ground
            (arith, one.covers t, more.covers t, more.keeps (to_lower t), one.grows, more.grows);
    }

none-IsPicked : IsPicked none_picked
unfolding is_among
none-IsPicked = record {
  choice = record { few = omega arith; once = tt; looked_up = λ t m. cc };
  agree = λ t. refl;
}

-- The identifiers looked up are matches of the patterns, at most 5, each of 3 bytes or more, not a
-- common word, and each once without regard to case. If they are fewer than 5, every match of 3
-- bytes or more that is not a common word is among them, without regard to case.
pub extract-IsChoice :
    (query : Text)
    → IsChoice (extract_candidate_identifiers query)
      × ((t : Text)
          → is_among t (extract_candidate_identifiers query) ≡ true
          → is_among t (matches query) ≡ true)
      × ((length (extract_candidate_identifiers query) ≤ 4)
          → (t : Text) → is_among t (matches query) ≡ true
          → IsLookedUp t
          → is_among (to_lower t) (folded (extract_candidate_identifiers query)) ≡ true)
unfolding extract_candidate_identifiers is_among
extract-IsChoice query =
    let all = add_all-IsAdded (matches query) none_picked none-IsPicked in
    (
      all.picked.choice,
      all.from,
      λ room t m l. sym (all.picked.agree (to_lower t)) ∙ all.covers t m l (ground arith),
    )

-- ===== src/Context/Compressed.antt =====
-- What the context keeps of the results.
use know_your_repo.Prelude.{
  ℕ, ◌+◌, ◌≤◌, ◌≡◌, refl, sym, ap, ◌∙◌, inl, inr, true, not, ◌&&◌, List, [], ◌∷◌, length, take,
  arith, Bool-cases, length-append, length-take, take_of_length-le, take-append_left, take-take,
  leb,
}
use know_your_repo.Text.{Text, same_iff, is_among, IsDistinct, among-take, take-IsDistinct}
use know_your_repo.Answer.{RetrievalResult}
use know_your_repo.Retrieval.{Details}
use know_your_repo.Context.{
  ContextNode, truncate_document, dedup_loop, deduplicate_calls, limit_calls, callees_of, to_node,
  build, max_document_chars, max_calls_per_node, truncated,
}

-- Cut where the limit is, whether or not the document is longer.
take-truncate : (doc : Text) (n : ℕ) → take n (truncate_document doc n) ≡ take n doc
unfolding truncate_document
take-truncate doc n = elim (Bool-cases (leb (length doc) n)) [
  | inl short ↦ rw short
  | inr long ↦ rw long (
      take-append_left n (take n doc) truncated (ground (arith, length-take n doc))
      ∙ take-take n n doc (omega arith))
]

length-truncate : (doc : Text) (n : ℕ) → length (truncate_document doc n) ≤ n + 14
unfolding truncate_document
length-truncate doc n = ground (arith, length-append (take n doc) truncated, length-take n doc)

among-dedup :
    (t : Text) (seen cs : List Text)
    → is_among t (dedup_loop seen cs) ≡ (is_among t cs && not (is_among t seen))
unfolding dedup_loop is_among
among-dedup t seen [] = refl
among-dedup t seen (c ∷ cs) = ground (
  arith,
  among-dedup t seen cs,
  among-dedup t (c ∷ seen) cs,
  same_iff c t,
  ap (λ u. is_among u seen),
)

dedup-IsDistinct : (seen cs : List Text) → IsDistinct (dedup_loop seen cs)
unfolding dedup_loop is_among
dedup-IsDistinct seen [] = tt
dedup-IsDistinct seen (c ∷ cs) = elim (Bool-cases (is_among c seen)) [
  | inl old ↦ rw old (dedup-IsDistinct seen cs)
  | inr new ↦
      rw new
        (among-dedup c (c ∷ seen) cs ∙ ground (arith, same_iff c c), dedup-IsDistinct (c ∷ seen) cs)
]

truncate_short : (doc : Text) (n : ℕ) → length doc ≤ n → truncate_document doc n ≡ doc
unfolding truncate_document
truncate_short doc n h = ground arith

limit_calls-take : (calls : List Text) (n : ℕ) → limit_calls calls n ≡ take n calls
unfolding limit_calls
limit_calls-take calls n = elim (Bool-cases (leb (length calls) n)) [
  | inl short ↦ rw short (sym (take_of_length-le n calls (ground arith)))
  | inr long ↦ rw long refl
]

limited : (n : ℕ) (cs : List Text) → length (take n cs) + 1 ≤ n → take n cs ≡ cs
limited n cs h = take_of_length-le n cs (omega (arith, length-take n cs))

among-compressed :
    (n : ℕ) (t : Text) (cs : List Text)
    → is_among t (take n (dedup_loop [] cs)) ≡ true
    → is_among t cs ≡ true
unfolding is_among
among-compressed n t cs m = ground (arith, among-take t n (dedup_loop [] cs), among-dedup t [] cs)

module _ {F : Type 0} where
  -- What an entry keeps of a result.
  pub record IsCompressed (r : RetrievalResult (Details F)) (node : ContextNode) : Type 0 where
    pub same_symbol : node.symbol ≡ r.symbol
    pub short : length node.document ≤ max_document_chars + 14
    pub whole : length r.document ≤ max_document_chars → node.document ≡ r.document
    pub start : take max_document_chars node.document ≡ take max_document_chars r.document
    pub few : length node.calls ≤ max_calls_per_node
    pub once : IsDistinct node.calls
    pub from : (t : Text) → is_among t node.calls ≡ true → is_among t (callees_of r) ≡ true
    pub all :
        (length node.calls ≤ 9)
        → (t : Text) → is_among t (callees_of r) ≡ true
        → is_among t node.calls ≡ true

  -- An entry for each result, in order.
  abbrev pub IsCompressedAll : List (RetrievalResult (Details F)) → List ContextNode → Type 0
  IsCompressedAll [] [] = Unit
  IsCompressedAll [] (node ∷ nodes) = ⊥
  IsCompressedAll (r ∷ rs) [] = ⊥
  IsCompressedAll (r ∷ rs) (node ∷ nodes) = IsCompressed r node × IsCompressedAll rs nodes

  to_node-IsCompressed : (r : RetrievalResult (Details F)) → IsCompressed r (to_node r)
  unfolding to_node deduplicate_calls is_among
  to_node-IsCompressed r =
      let cs = callees_of r in
      let e = limit_calls-take (dedup_loop [] cs) max_calls_per_node in
      record {
        same_symbol = refl;
        short = length-truncate r.document max_document_chars;
        whole = truncate_short r.document max_document_chars;
        start = take-truncate r.document max_document_chars;
        few = rw e (omega (arith, length-take max_calls_per_node (dedup_loop [] cs)));
        once =
            rw e (take-IsDistinct max_calls_per_node (dedup_loop [] cs) (dedup-IsDistinct [] cs));
        from = λ t. rw e (among-compressed max_calls_per_node t cs);
        all = rw e (λ room t m.
            rw (limited max_calls_per_node (dedup_loop [] cs) (omega arith))
              (among-dedup t [] cs ∙ ground arith));
      }

  -- The context has an entry for each result, in order. An entry has the result's symbol, its document
  -- up to 1200 bytes and a mark of at most 14 bytes, the whole document if it is no longer, and at
  -- most 10 names, each once, of what the symbol calls; all of them if they are fewer than 10.
  pub build-IsCompressedAll :
      (query : Text) (results : List (RetrievalResult (Details F)))
      → IsCompressedAll results (build query results).entries
  unfolding build
  build-IsCompressedAll query [] = tt
  build-IsCompressedAll query (r ∷ rs) = (to_node-IsCompressed r, build-IsCompressedAll query rs)

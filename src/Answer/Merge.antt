-- ===== src/Answer/Merge.antt =====
-- What mergeResults keeps.
use know_your_repo.Prelude.{
  ◌≡◌, refl, sym, ap, ◌∙◌, true, ◌||◌, List, [], ◌∷◌, ◌++◌, map, Bool-cases, inl, inr, arith,
}
use mathlib.Core.Path.{subst}
use mathlib.Core.List.{Memᴰ}
use mathlib.Core.List.Memᴰ
use mathlib.Core.List.{append_assoc, append-nil}
use know_your_repo.Text.{Text, same_iff, is_among, is_among-append, IsDistinct, IsDistinct-append}
use know_your_repo.Answer.{RetrievalResult, key, merge_loop, merge_results}

module _ {ℓ} {A : Type ℓ} where
  abbrev pub keys : List (RetrievalResult A) → List Text
  keys rs = map key rs

  pub keys-append : (xs ys : List (RetrievalResult A)) → keys (xs ++ ys) ≡ keys xs ++ keys ys
  keys-append [] ys = refl
  keys-append (x ∷ xs) ys = ap (λ r. key x ∷ r) (keys-append xs ys)

  -- The keys seen are those of the results so far.
  abbrev IsSeen : List Text → List (RetrievalResult A) → Type 0
  IsSeen seen base = (k : Text) → is_among k seen ≡ is_among k (keys base)

  IsSeen-next :
      (seen : List Text) (base : List (RetrievalResult A)) (r : RetrievalResult A)
      → IsSeen seen base
      → IsSeen (key r ∷ seen) (base ++ r ∷ [])
  unfolding is_among
  IsSeen-next seen base r s k = ground (
    arith,
    s k,
    ap (is_among k) (keys-append base (r ∷ [])),
    is_among-append k (keys base) (key r ∷ []),
  )

  -- What the loop gives: the results so far, then some of the others; the keys are those of both lists.
  abbrev pub IsMerged :
      List (RetrievalResult A) → List (RetrievalResult A) → List (RetrievalResult A) → Type ℓ
  IsMerged base extra merged =
      ((new : List (RetrievalResult A)) × (merged ≡ base ++ new)
        × ((r : RetrievalResult A) → Memᴰ r new → Memᴰ r extra))
      × ((k : Text)
          → is_among k (keys merged) ≡ (is_among k (keys base) || is_among k (keys extra)))

  kept-IsMerged :
      (base extra : List (RetrievalResult A)) (r : RetrievalResult A)
      (merged : List (RetrievalResult A))
      → is_among (key r) (keys base) ≡ true
      → IsMerged base extra merged
      → IsMerged base (r ∷ extra) merged
  unfolding is_among
  kept-IsMerged base extra r merged old ((new, e, from), all) =
      ((new, e, λ x m. Memᴰ.tail (from x m)), λ k. all k ∙ ground (arith, same_iff (key r) k))

  joined-IsMerged :
      (base extra : List (RetrievalResult A)) (r : RetrievalResult A)
      (merged : List (RetrievalResult A))
      → IsMerged (base ++ r ∷ []) extra merged
      → IsMerged base (r ∷ extra) merged
  unfolding is_among
  joined-IsMerged base extra r merged ((new, e, from), all) = (
    (
      r ∷ new,
      e ∙ append_assoc base (r ∷ []) new,
      λ x m. elim (Memᴰ.cases_cons m) [
        | inl here ↦ Memᴰ.head here
        | inr rest ↦ Memᴰ.tail (from x rest)
      ],
    ),
    λ k.
        all k
        ∙ ground (
          arith,
          ap (is_among k) (keys-append base (r ∷ [])),
          is_among-append k (keys base) (key r ∷ []),
        ),
  )

  merge_loop-IsMerged :
      (seen : List Text) (base extra : List (RetrievalResult A))
      → IsSeen seen base
      → IsMerged base extra (merge_loop seen base extra)
  unfolding merge_loop is_among
  merge_loop-IsMerged seen base [] s =
      (([], sym (append-nil base), λ x m. absurd (Memᴰ.not-nil m)), λ k. ground arith)
  merge_loop-IsMerged seen base (r ∷ extra) s = elim (Bool-cases (is_among (key r) seen)) [
    | inl old ↦ rw old (
        kept-IsMerged base extra r _ (sym (s (key r)) ∙ old)
          (merge_loop-IsMerged seen base extra s))
    | inr new ↦ rw new (
        joined-IsMerged base extra r _
          (merge_loop-IsMerged (key r ∷ seen) (base ++ r ∷ []) extra (IsSeen-next seen base r s)))
  ]

  merge_loop-IsDistinct :
      (seen : List Text) (base extra : List (RetrievalResult A))
      → IsSeen seen base
      → IsDistinct (keys base)
      → IsDistinct (keys (merge_loop seen base extra))
  unfolding merge_loop is_among
  merge_loop-IsDistinct seen base [] s h = h
  merge_loop-IsDistinct seen base (r ∷ extra) s h = elim (Bool-cases (is_among (key r) seen)) [
    | inl old ↦ rw old (merge_loop-IsDistinct seen base extra s h)
    | inr new ↦ rw new (
        merge_loop-IsDistinct (key r ∷ seen) (base ++ r ∷ []) extra (IsSeen-next seen base r s) (
          subst IsDistinct (sym (keys-append base (r ∷ [])))
            (IsDistinct-append (key r) (keys base) (sym (s (key r)) ∙ new) h)))
  ]

  base-IsSeen : (base : List (RetrievalResult A)) → IsSeen (keys base) base
  base-IsSeen base k = refl

  -- Merging leaves the results of the first search as they are and in front, what follows is of the
  -- second search, and its keys are those of the two searches.
  pub merge_results-IsMerged :
      (base extra : List (RetrievalResult A)) → IsMerged base extra (merge_results base extra)
  unfolding merge_results
  merge_results-IsMerged base extra = merge_loop-IsMerged (keys base) base extra (base-IsSeen base)

  -- Where the first search has no key twice, the merged results have none twice.
  pub merge_results-IsDistinct :
      (base extra : List (RetrievalResult A))
      → IsDistinct (keys base)
      → IsDistinct (keys (merge_results base extra))
  unfolding merge_results
  merge_results-IsDistinct base extra h =
      merge_loop-IsDistinct (keys base) base extra (base-IsSeen base) h

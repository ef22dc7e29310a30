-- ===== src/Architecture/Reading/Ranked.antt =====
-- The order of the reading path, and what it holds.
use know_your_repo.Prelude.{
  slice_stable, insert, ◌≡◌, refl, ◌∙◌, inl, inr, true, false, ◌||◌, List, [], ◌∷◌, arith, All,
  All-mono, Bool-cases,
}
use know_your_repo.Text.{text_less, Text, same, same_iff, is_among, IsDistinct}
use know_your_repo.Architecture.{ArchitectureCallEdge}
use know_your_repo.Architecture.Reading.{Discovered, comes_before}
use know_your_repo.Architecture.Reading.Offer.{symbols_of}

text_less-asym : (s t : Text) → text_less s t ≡ true → text_less t s ≡ false
unfolding text_less
text_less-asym [] [] h = cc
text_less-asym [] (d ∷ t) h = refl
text_less-asym (c ∷ s) [] h = cc
text_less-asym (c ∷ s) (d ∷ t) h = ground (arith, text_less-asym s t)

text_less_trans :
    (s t u : Text) → text_less t s ≡ false → text_less u t ≡ false → text_less u s ≡ false
unfolding text_less
text_less_trans [] [] u h k = k
text_less_trans [] (d ∷ t) [] h k = cc
text_less_trans [] (d ∷ t) (e ∷ u) h k = refl
text_less_trans (c ∷ s) [] u h k = cc
text_less_trans (c ∷ s) (d ∷ t) [] h k = cc
text_less_trans (c ∷ s) (d ∷ t) (e ∷ u) h k = ground (arith, text_less_trans s t u)

module _ (es : List ArchitectureCallEdge) where
  -- a comes first, or they are alike.
  abbrev pub Precedes : Discovered → Discovered → Type 0
  Precedes a b = comes_before es b a ≡ false

  before-Precedes : (a b : Discovered) → comes_before es a b ≡ true → Precedes a b
  unfolding comes_before
  before-Precedes a b h = ground (arith, text_less-asym a.0 b.0)

  Precedes-trans : (a b c : Discovered) → Precedes a b → Precedes b c → Precedes a c
  unfolding comes_before
  Precedes-trans a b c h k = ground (arith, text_less_trans a.0 b.0 c.0)

  abbrev pub IsRanked : List Discovered → Type 0
  IsRanked [] = Unit
  IsRanked (d ∷ ds) = All (Precedes d) ds × IsRanked ds

  insert-All :
      (P : Discovered → Type 0) (d : Discovered) (ds : List Discovered)
      → P d
      → All P ds
      → All P (insert (comes_before es) d ds)
  unfolding insert
  insert-All P d [] p h = (p, h)
  insert-All P d (y ∷ ys) p (q, h) = elim (Bool-cases (comes_before es y d)) [
    | inl later ↦ rw later (q, insert-All P d ys p h)
    | inr now ↦ rw now (p, (q, h))
  ]

  among-insert :
      (s : Text) (d : Discovered) (ds : List Discovered)
      → is_among s (symbols_of (insert (comes_before es) d ds))
        ≡ (same d.0 s || is_among s (symbols_of ds))
  unfolding insert is_among
  among-insert s d [] = refl
  among-insert s d (y ∷ ys) = elim (Bool-cases (comes_before es y d)) [
    | inl later ↦ rw later (ground (arith, among-insert s d ys))
    | inr now ↦ rw now
  ]

  insert-IsRanked :
      (d : Discovered) (ds : List Discovered)
      → IsRanked ds
      → IsRanked (insert (comes_before es) d ds)
  unfolding insert
  insert-IsRanked d [] h = (tt, tt)
  insert-IsRanked d (y ∷ ys) (first, h) = elim (Bool-cases (comes_before es y d)) [
    | inl later ↦
        rw later
          (insert-All (Precedes y) d ys (before-Precedes y d later) first, insert-IsRanked d ys h)
    | inr now ↦ rw now (
      (now, All-mono (Precedes y) (Precedes d) ys (λ z k. Precedes-trans d y z now k) first),
      (first, h),
    )
  ]

  insert-IsDistinct :
      (d : Discovered) (ds : List Discovered)
      → is_among d.0 (symbols_of ds) ≡ false
      → IsDistinct (symbols_of ds)
      → IsDistinct (symbols_of (insert (comes_before es) d ds))
  unfolding insert is_among
  insert-IsDistinct d [] fresh h = (refl, tt)
  insert-IsDistinct d (y ∷ ys) fresh (first, h) = elim (Bool-cases (comes_before es y d)) [
    | inl later ↦ rw later (
      ground (arith, among-insert y.0 d ys, same_iff y.0 d.0, same_iff d.0 y.0),
      insert-IsDistinct d ys (ground arith) h,
    )
    | inr now ↦ rw now (fresh, (first, h))
  ]

  -- Sorting keeps the symbols, and puts them in order.
  pub among-sort :
      (s : Text) (ds : List Discovered)
      → is_among s (symbols_of (slice_stable (comes_before es) ds)) ≡ is_among s (symbols_of ds)
  unfolding slice_stable is_among
  among-sort s [] = refl
  among-sort s (d ∷ ds) =
      among-insert s d (slice_stable (comes_before es) ds) ∙ ground (arith, among-sort s ds)

  pub sort-IsRanked : (ds : List Discovered) → IsRanked (slice_stable (comes_before es) ds)
  unfolding slice_stable
  sort-IsRanked [] = tt
  sort-IsRanked (d ∷ ds) = insert-IsRanked d (slice_stable (comes_before es) ds) (sort-IsRanked ds)

  pub sort-IsDistinct :
      (ds : List Discovered)
      → IsDistinct (symbols_of ds)
      → IsDistinct (symbols_of (slice_stable (comes_before es) ds))
  unfolding slice_stable
  sort-IsDistinct [] h = tt
  sort-IsDistinct (d ∷ ds) (first, h) =
      insert-IsDistinct d (slice_stable (comes_before es) ds) (among-sort d.0 ds ∙ first)
        (sort-IsDistinct ds h)

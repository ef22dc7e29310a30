-- ===== src/Prelude/Sort.antt =====
-- sort.SliceStable, and what a test that tells two groups apart makes of it.
use mathlib.Core.Path.{◌≡◌, refl, ap, ◌∙◌}
use mathlib.Core.List.{List, [], ◌∷◌, ◌++◌}
use mathlib.Core.Bool.{Bool, true, false, not, ◌&&◌}
use mathlib.Core.Logic.{inl, inr}
use know_your_repo.Prelude.Tests.{if◌then◌else◌, Bool-cases}
use know_your_repo.Prelude.Lists.{All, select}

module _ {ℓ} {A : Type ℓ} (before : A → A → Bool) where
  unfoldable pub insert : A → List A → List A
  insert x [] = x ∷ []
  insert x (y ∷ ys) = if before y x then y ∷ insert x ys else x ∷ y ∷ ys

  -- sort.SliceStable
  unfoldable pub slice_stable : List A → List A
  unfolding insert
  slice_stable [] = []
  slice_stable (x ∷ xs) = insert x (slice_stable xs)

module _ {ℓ} {A : Type ℓ} (p : A → Bool) where
  -- Those that pass the test come first.
  abbrev pub first_group : A → A → Bool
  first_group x y = p x && not (p y)

  insert-passing : (x : A) (ys : List A) → p x ≡ true → insert first_group x ys ≡ x ∷ ys
  unfolding insert
  insert-passing x [] h = refl
  insert-passing x (y ∷ ys) h = elim (Bool-cases (p y)) [ inl q ↦ rw (h, q) | inr q ↦ rw (h, q) ]

  abbrev pub fails : A → Bool
  fails x = not (p x)

  insert-failing_last :
      (x : A) (zs : List A)
      → p x ≡ false
      → insert first_group x (select fails zs) ≡ x ∷ select fails zs
  unfolding insert
  insert-failing_last x [] h = refl
  insert-failing_last x (z ∷ zs) h = elim (Bool-cases (p z)) [
    | inl q ↦ rw q (insert-failing_last x zs h)
    | inr q ↦ rw (q, q)
  ]

  insert-failing :
      (x : A) (ys zs : List A)
      → p x ≡ false
      → insert first_group x (select p ys ++ select fails zs) ≡ select p ys ++ x ∷ select fails zs
  unfolding insert
  insert-failing x [] zs h = insert-failing_last x zs h
  insert-failing x (y ∷ ys) zs h = elim (Bool-cases (p y)) [
    | inl q ↦ rw q (rw (q, h) (ap (λ r. y ∷ r) (insert-failing x ys zs h)))
    | inr q ↦ rw q (insert-failing x ys zs h)
  ]

  -- Sorting by a test of two groups keeps the order in each group.
  pub sort-groups : (xs : List A) → slice_stable first_group xs ≡ select p xs ++ select fails xs
  unfolding slice_stable
  sort-groups [] = refl
  sort-groups (x ∷ xs) = ap (insert first_group x) (sort-groups xs) ∙ elim (Bool-cases (p x)) [
    | inl q ↦ rw q (insert-passing x (select p xs ++ select fails xs) q)
    | inr q ↦ rw q (insert-failing x xs xs q)
  ]

module _ {ℓ κ} {A : Type ℓ} (P : A → Type κ) (before : A → A → Bool) where
  insert-All : (x : A) (xs : List A) → P x → All P xs → All P (insert before x xs)
  unfolding insert
  insert-All x [] p h = (p, h)
  insert-All x (y ∷ ys) p (q, h) = elim (Bool-cases (before y x)) [
    | inl later ↦ rw later (q, insert-All x ys p h)
    | inr now ↦ rw now (p, (q, h))
  ]

  pub slice_stable-All : (xs : List A) → All P xs → All P (slice_stable before xs)
  unfolding slice_stable
  slice_stable-All [] h = tt
  slice_stable-All (x ∷ xs) (p, h) = insert-All x (slice_stable before xs) p (slice_stable-All xs h)

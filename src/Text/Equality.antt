-- ===== src/Text/Equality.antt =====
-- Texts as lists of bytes, and the test by which Go compares them.
use know_your_repo.Prelude.{
  ℕ, ◌≡◌, ◌↔◌, refl, Bool, true, false, ◌&&◌, List, [], ◌∷◌, ◌==◌, arith, ◌⊎◌, inl, inr, Bool-cases,
}

abbrev pub Text : Type 0
Text = List ℕ

-- `s == t`
unfoldable pub same : Text → Text → Bool
same [] [] = true
same [] (_ ∷ _) = false
same (_ ∷ _) [] = false
same (c ∷ s) (d ∷ t) = (c == d) && same s t

pub same→eq : (s t : Text) → same s t ≡ true → s ≡ t
unfolding same
same→eq [] [] h = refl
same→eq [] (d ∷ t) h = cc
same→eq (c ∷ s) [] h = cc
same→eq (c ∷ s) (d ∷ t) h = ground (arith, same→eq s t)

pub same_refl : (s : Text) → same s s ≡ true
unfolding same
same_refl [] = refl
same_refl (c ∷ s) = ground (arith, same_refl s)

pub same_iff : (s t : Text) → (same s t ≡ true) ↔ (s ≡ t)
same_iff s t = (same→eq s t, λ e. rw e (same_refl t))

pub same-cases : (s t : Text) → (s ≡ t) ⊎ (same s t ≡ false)
same-cases s t = elim (Bool-cases (same s t)) [ inl e ↦ inl (same→eq s t e) | inr n ↦ inr n ]

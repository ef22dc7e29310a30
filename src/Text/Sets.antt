-- ===== src/Text/Sets.antt =====
-- Lists of texts as the sets and the keys of Go's maps.
use mathlib.Core.List.{Memᴰ}
use know_your_repo.Prelude.{
  ℕ, zero, suc, take, ◌+◌, ◌≤◌, ◌≡◌, refl, sym, ap, Bool, true, false, ◌||◌, List, [], ◌∷◌, ◌++◌,
  arith, length, inl, inr, if◌then◌else◌,
}
use know_your_repo.Text.Equality.{Text, same, same_iff, same_refl, same-cases}

-- `_, ok := set[t]; ok`
unfoldable pub is_among : Text → List Text → Bool
is_among t [] = false
is_among t (s ∷ ss) = same s t || is_among t ss

-- No text twice.
abbrev pub IsDistinct : List Text → Type 0
IsDistinct [] = Unit
IsDistinct (s ∷ ss) = (is_among s ss ≡ false) × IsDistinct ss

pub is_among-append :
    (t : Text) (xs ys : List Text) → is_among t (xs ++ ys) ≡ (is_among t xs || is_among t ys)
unfolding is_among
is_among-append t [] ys = refl
is_among-append t (x ∷ xs) ys = ground (arith, is_among-append t xs ys)

pub is_among-mem : {t : Text} (ts : List Text) → Memᴰ t ts → is_among t ts ≡ true
unfolding is_among
is_among-mem {t} [] m = elim m [ ]
is_among-mem {t} (s ∷ ss) (Memᴰ.head e) = rw (sym e, same_refl t)
is_among-mem {t} (s ∷ ss) (Memᴰ.tail m) = ground (arith, is_among-mem ss m)

pub mem-is_among : (t : Text) (ts : List Text) → is_among t ts ≡ true → Memᴰ t ts
unfolding is_among
mem-is_among t [] h = cc
mem-is_among t (s ∷ ss) h = elim (same-cases s t) [
  | inl here ↦ Memᴰ.head (sym here)
  | inr away ↦ Memᴰ.tail (mem-is_among t ss (ground arith))
]

pub IsDistinct-append :
    (t : Text) (xs : List Text) → is_among t xs ≡ false → IsDistinct xs → IsDistinct (xs ++ t ∷ [])
unfolding is_among
IsDistinct-append t [] fresh h = (refl, _)
IsDistinct-append t (x ∷ xs) fresh (first, rest) = (
  ground (arith, is_among-append x xs (t ∷ []), same_iff x t, same_iff t x),
  IsDistinct-append t xs (ground arith) rest,
)

-- How many of the texts are not in the set.
pub absent : List Text → List Text → ℕ
unfolding is_among
absent seen [] = 0
absent seen (t ∷ ts) = (if is_among t seen then 0 else 1) + absent seen ts

pub absent-le-length : (seen ts : List Text) → absent seen ts ≤ length ts
unfolding absent
absent-le-length seen [] = omega arith
absent-le-length seen (t ∷ ts) = ground (arith, absent-le-length seen ts)

absent-cons-le : (s : Text) (seen ts : List Text) → absent (s ∷ seen) ts ≤ absent seen ts
unfolding absent is_among
absent-cons-le s seen [] = omega arith
absent-cons-le s seen (t ∷ ts) = ground (arith, absent-cons-le s seen ts)

-- A text that joins the set is no longer absent.
pub absent-cons :
    (s : Text) (seen ts : List Text)
    → is_among s seen ≡ false
    → is_among s ts ≡ true
    → absent (s ∷ seen) ts + 1 ≤ absent seen ts
unfolding absent is_among
absent-cons s seen [] fresh m = cc
absent-cons s seen (t ∷ ts) fresh m = elim (same-cases t s) [
  | inl here ↦
      ground (arith, same_iff t s, absent-cons-le s seen ts, ap (λ u. is_among u seen) here)
  | inr away ↦ ground (arith, absent-cons s seen ts fresh)
]

pub among-take :
    (t : Text) (n : ℕ) (ts : List Text) → is_among t (take n ts) ≡ true → is_among t ts ≡ true
unfolding is_among
among-take t zero ts m = cc
among-take t (suc n) [] m = cc
among-take t (suc n) (u ∷ ts) m = ground (arith, among-take t n ts)

pub take-IsDistinct : (n : ℕ) (ts : List Text) → IsDistinct ts → IsDistinct (take n ts)
unfolding is_among
take-IsDistinct zero ts h = tt
take-IsDistinct (suc n) [] h = tt
take-IsDistinct (suc n) (t ∷ ts) (first, h) =
    (ground (arith, among-take t n ts), take-IsDistinct n ts h)

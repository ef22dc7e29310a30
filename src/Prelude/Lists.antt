-- ===== src/Prelude/Lists.antt =====
-- Lists measured and indexed by native numbers, under the library's names; Go slices of them.
use Prim.Native.Nat.{ℕ, zero, suc, ◌+◌, ◌-◌, ◌≤◌, min}
use mathlib.Core.Path.{◌≡◌, refl, ap, ap₂, sym, subst, ◌∙◌}
use mathlib.Core.List.{List, [], ◌∷◌, ◌++◌, map, append-nil}
use mathlib.Core.Option.{Option, none, some}
use mathlib.Core.Bool.{Bool, true}
use native.Mathlib.Omega.{arith}
use mathlib.Core.List.{Memᴰ}
use mathlib.Core.List.Memᴰ
use mathlib.Core.Logic.{inl, inr}
use know_your_repo.Prelude.Tests.{if◌then◌else◌, Bool-cases}

module _ {ℓ} {A : Type ℓ} where
  abbrev pub length : List A → ℕ
  length [] = 0
  length (x ∷ xs) = suc (length xs)

  abbrev pub get_elem? : List A → ℕ → Option A
  get_elem? [] i = none
  get_elem? (x ∷ xs) zero = some x
  get_elem? (x ∷ xs) (suc i) = get_elem? xs i

  abbrev pub take : ℕ → List A → List A
  take zero xs = []
  take (suc n) [] = []
  take (suc n) (x ∷ xs) = x ∷ take n xs

  abbrev pub drop : ℕ → List A → List A
  drop zero xs = xs
  drop (suc n) [] = []
  drop (suc n) (x ∷ xs) = drop n xs

  -- Go's `xs[start:end]`, for `start ≤ end ≤ len(xs)`.
  abbrev pub slice : ℕ → ℕ → List A → List A
  slice start end xs = take (end - start) (drop start xs)

  -- The items that pass a test, in order.
  abbrev pub select : (A → Bool) → List A → List A
  select p [] = []
  select p (x ∷ xs) = if p x then x ∷ select p xs else select p xs

-- Each item has the property.
abbrev pub All {ℓ κ} : {A : Type ℓ} → (A → Type κ) → List A → Type κ
All P [] = Unit
All P (x ∷ xs) = P x × All P xs

-- How many items pass a test.
abbrev pub count {ℓ} : {A : Type ℓ} → (A → Bool) → List A → ℕ
count p xs = length (select p xs)

module _ {ℓ κ} {A : Type ℓ} (P : A → Type κ) where
  pub All-mem : (xs : List A) {a : A} → All P xs → Memᴰ a xs → P a
  All-mem [] h m = absurd (Memᴰ.not-nil m)
  All-mem (x ∷ xs) h (Memᴰ.head e) = subst P (sym e) h.0
  All-mem (x ∷ xs) h (Memᴰ.tail m) = All-mem xs h.1 m

  pub All-intro : (xs : List A) → ((a : A) → Memᴰ a xs → P a) → All P xs
  All-intro [] h = tt
  All-intro (x ∷ xs) h = (h x (Memᴰ.head refl), All-intro xs (λ a m. h a (Memᴰ.tail m)))

pub All-mono {ℓ κ μ} :
    {A : Type ℓ} (P : A → Type κ) (Q : A → Type μ) (xs : List A)
    → ((a : A) → P a → Q a)
    → All P xs
    → All Q xs
All-mono P Q [] f h = tt
All-mono P Q (x ∷ xs) f h = (f x h.0, All-mono P Q xs f h.1)

module _ {ℓ} {A : Type ℓ} where
  pub length-append : (xs ys : List A) → length (xs ++ ys) ≡ length xs + length ys
  length-append [] ys = omega arith
  length-append (x ∷ xs) ys = omega (arith, length-append xs ys)

  pub take-append-drop : (n : ℕ) (xs : List A) → take n xs ++ drop n xs ≡ xs
  take-append-drop zero xs = refl
  take-append-drop (suc n) [] = refl
  take-append-drop (suc n) (x ∷ xs) = rw (take-append-drop n xs)

  pub length-take : (n : ℕ) (xs : List A) → length (take n xs) ≡ min n (length xs)
  length-take zero xs = omega arith
  length-take (suc n) [] = omega arith
  length-take (suc n) (x ∷ xs) = omega (arith, length-take n xs)

  pub length-drop : (n : ℕ) (xs : List A) → length (drop n xs) ≡ length xs - n
  length-drop zero xs = omega arith
  length-drop (suc n) [] = omega arith
  length-drop (suc n) (x ∷ xs) = omega (arith, length-drop n xs)

  pub drop-append : (n : ℕ) (xs ys : List A) → n ≤ length xs → drop n (xs ++ ys) ≡ drop n xs ++ ys
  drop-append zero xs ys h = refl
  drop-append (suc n) [] ys h = absurd (omega arith)
  drop-append (suc n) (x ∷ xs) ys h = drop-append n xs ys (omega arith)

  pub drop-drop : (m n k : ℕ) (xs : List A) → m + n ≡ k → drop m (drop n xs) ≡ drop k xs
  drop-drop m zero k xs h = let e : m ≡ k = omega arith in rw e
  drop-drop zero (suc n) zero xs h = absurd (omega arith)
  drop-drop zero (suc n) (suc k) [] h = refl
  drop-drop zero (suc n) (suc k) (x ∷ xs) h = drop-drop zero n k xs (omega arith)
  drop-drop (suc m) (suc n) zero xs h = absurd (omega arith)
  drop-drop (suc m) (suc n) (suc k) [] h = refl
  drop-drop (suc m) (suc n) (suc k) (x ∷ xs) h = drop-drop (suc m) n k xs (omega arith)

  pub drop_of_length-le : (n : ℕ) (xs : List A) → length xs ≤ n → drop n xs ≡ []
  drop_of_length-le zero [] h = refl
  drop_of_length-le zero (x ∷ xs) h = absurd (omega arith)
  drop_of_length-le (suc n) [] h = refl
  drop_of_length-le (suc n) (x ∷ xs) h = drop_of_length-le n xs (omega arith)

  pub take_of_length-le : (n : ℕ) (ys : List A) → length ys ≤ n → take n ys ≡ ys
  take_of_length-le n ys h =
      sym (append-nil (take n ys))
      ∙ ap (λ rest. take n ys ++ rest) (sym (drop_of_length-le n ys h))
      ∙ take-append-drop n ys

  -- A slice and what follows it make up what follows its start.
  pub slice-append-drop :
      (start end : ℕ) (xs : List A)
      → start ≤ end
      → slice start end xs ++ drop end xs ≡ drop start xs
  slice-append-drop start end xs h =
      rw (← drop-drop (end - start) start end xs (omega arith))
        (take-append-drop (end - start) (drop start xs))

  pub length-slice :
      (start end : ℕ) (xs : List A)
      → start ≤ end
      → end ≤ length xs
      → length (slice start end xs) ≡ end - start
  length-slice start end xs h k =
      omega (arith, length-take (end - start) (drop start xs), length-drop start xs)

  -- Cutting a list beyond the end of a slice does not change the slice.
  pub take-take : (m n : ℕ) (xs : List A) → m ≤ n → take m (take n xs) ≡ take m xs
  take-take zero n xs h = refl
  take-take (suc m) zero xs h = absurd (omega arith)
  take-take (suc m) (suc n) [] h = refl
  take-take (suc m) (suc n) (x ∷ xs) h = ap (◌∷◌ x) (take-take m n xs (omega arith))

  pub take-nil : (n : ℕ) → take {A = A} n [] ≡ []
  take-nil zero = refl
  take-nil (suc n) = refl

  pub drop-take : (m n : ℕ) (xs : List A) → drop m (take n xs) ≡ take (n - m) (drop m xs)
  drop-take zero n xs = let e : n - zero ≡ n = omega arith in rw e
  drop-take (suc m) zero xs = let e : zero - suc m ≡ 0 = omega arith in rw e
  drop-take (suc m) (suc n) [] = rw (take-nil (suc n - suc m))
  drop-take (suc m) (suc n) (x ∷ xs) =
      let e : suc n - suc m ≡ n - m = omega arith in rw (drop-take m n xs, e)

  pub slice-take :
      (start end n : ℕ) (xs : List A) → end ≤ n → slice start end (take n xs) ≡ slice start end xs
  slice-take start end n xs h =
      rw (drop-take start n xs, take-take (end - start) (n - start) (drop start xs) (omega arith))

  -- Two adjacent slices make up one.
  pub slice-append-slice :
      (a b c : ℕ) (xs : List A) → a ≤ b → b ≤ c → slice a b xs ++ slice b c xs ≡ slice a c xs
  slice-append-slice a b c xs h k =
      ap₂ ◌++◌ (sym (slice-take a b c xs k)) (sym (drop-take b c xs))
      ∙ slice-append-drop a b (take c xs) h
      ∙ drop-take a c xs

  pub length-slice-le : (a b : ℕ) (xs : List A) → length (slice a b xs) ≤ b - a
  length-slice-le a b xs = omega (arith, length-take (b - a) (drop a xs))

  pub take-append_left : (n : ℕ) (xs ys : List A) → n ≤ length xs → take n (xs ++ ys) ≡ take n xs
  take-append_left zero xs ys h = refl
  take-append_left (suc n) [] ys h = absurd (omega arith)
  take-append_left (suc n) (x ∷ xs) ys h = ap (◌∷◌ x) (take-append_left n xs ys (omega arith))

  pub length-map {κ} : {B : Type κ} (xs : List A) (f : A → B) → length (map f xs) ≡ length xs
  length-map [] f = refl
  length-map (x ∷ xs) f = ap suc (length-map xs f)

  pub length-select-le : (p : A → Bool) (xs : List A) → length (select p xs) ≤ length xs
  length-select-le p [] = omega arith
  length-select-le p (x ∷ xs) = ground (arith, length-select-le p xs)

  -- What a selection holds.
  pub mem-select :
      (p : A → Bool) {a : A} (xs : List A) → Memᴰ a (select p xs) → Memᴰ a xs × (p a ≡ true)
  mem-select p [] m = absurd (Memᴰ.not-nil m)
  mem-select p (x ∷ xs) m = elim (Bool-cases (p x)) [
    | inl kept ↦ elim (Memᴰ.cases_cons (rw kept at m)) [
      | inl e ↦ (Memᴰ.head e, ap p e ∙ kept)
      | inr later ↦ (Memᴰ.tail (mem-select p xs later).0, (mem-select p xs later).1)
    ]
    | inr out ↦ let later = mem-select p xs (rw out at m) in (Memᴰ.tail later.0, later.1)
  ]

  pub mem-select_of_mem :
      (p : A → Bool) {a : A} (xs : List A) → Memᴰ a xs → p a ≡ true → Memᴰ a (select p xs)
  mem-select_of_mem p [] m h = absurd (Memᴰ.not-nil m)
  mem-select_of_mem p (x ∷ xs) (Memᴰ.head e) h = rw (sym (ap p e) ∙ h) (Memᴰ.head e)
  mem-select_of_mem p (x ∷ xs) (Memᴰ.tail m) h = elim (Bool-cases (p x)) [
    | inl kept ↦ rw kept (Memᴰ.tail (mem-select_of_mem p xs m h))
    | inr out ↦ rw out (mem-select_of_mem p xs m h)
  ]

module _ {ℓ κ} {A : Type ℓ} (P : A → Type κ) where
  pub All-append : (xs ys : List A) → All P xs → All P ys → All P (xs ++ ys)
  All-append [] ys h k = k
  All-append (x ∷ xs) ys (p, h) k = (p, All-append xs ys h k)

  pub All-take : (n : ℕ) (xs : List A) → All P xs → All P (take n xs)
  All-take zero xs h = tt
  All-take (suc n) [] h = tt
  All-take (suc n) (x ∷ xs) (p, h) = (p, All-take n xs h)

  -- A selection of items that have the property, or of which it holds by the test.
  pub All-select :
      (test : A → Bool) (xs : List A)
      → ((a : A) → Memᴰ a xs → test a ≡ true → P a)
      → All P (select test xs)
  All-select test xs f =
      All-intro P (select test xs) (λ a m. let h = mem-select test xs m in f a h.0 h.1)

  pub All-map {μ} :
      {B : Type μ} (f : B → A) (ys : List B) → All (λ b. P (f b)) ys → All P (map f ys)
  All-map f [] h = tt
  All-map f (y ∷ ys) (p, h) = (p, All-map f ys h)

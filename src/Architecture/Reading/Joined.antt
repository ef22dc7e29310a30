-- ===== src/Architecture/Reading/Joined.antt =====
-- What joins the queue of the search of the reading path, and lists of symbols with their depths.
use mathlib.Core.Path.{subst}
use mathlib.Core.List.{Memᴰ, append_assoc, append-nil}
use mathlib.Core.List.Memᴰ
use know_your_repo.Prelude.{
  ℕ, ◌≤◌, ◌≡◌, refl, sym, ap, ◌∙◌, inl, inr, true, false, List, [], ◌∷◌, ◌++◌, arith, Bool-cases,
}
use know_your_repo.Text.{Text, same, same_iff, is_among, is_among-mem, IsDistinct}
use know_your_repo.Architecture.Reading.{Discovered, Search, offer, offer_all}
use know_your_repo.Architecture.Reading.Offer.{symbols_of}

abbrev pub EachIn : (Discovered → Type 0) → List Discovered → Type 0
EachIn P ds = (d : Discovered) → Memᴰ d ds → P d

-- What joins the queue: some of the symbols offered, at the depth given.
pub record Joined (depth : ℕ) (symbols : List Text) (st st' : Search) (news : List Discovered)
    : Type 0 where
  pub queue : st'.queue ≡ st.queue ++ news
  pub order : st'.order ≡ st.order
  pub depths : EachIn (λ d. (d.1 ≡ depth) × (is_among d.0 symbols ≡ true)) news

pub offer_all-Joined :
    (depth : ℕ) (symbols : List Text) (st : Search)
    → (news : List Discovered) × Joined depth symbols st (offer_all depth symbols st) news
unfolding offer_all offer is_among
offer_all-Joined depth [] st = (
  [],
  record {
    queue = sym (append-nil st.queue);
    order = refl;
    depths = λ d m. absurd (Memᴰ.not-nil m);
  },
)
offer_all-Joined depth (symbol ∷ symbols) st = elim (Bool-cases (is_among symbol st.visited)) [
  | inl old ↦
      let (news, j) = offer_all-Joined depth symbols st in
      rw old (
        news,
        record { queue = j.queue; order = j.order; depths = λ d m. ground (arith, j.depths d m) },
      )
  | inr new ↦
      let st' : Search = record st {
        visited = symbol ∷ st.visited;
        queue = st.queue ++ (symbol, depth) ∷ [];
      } in
      let (news, j) = offer_all-Joined depth symbols st' in
      rw new (
        (symbol, depth) ∷ news,
        record {
          queue = j.queue ∙ append_assoc st.queue ((symbol, depth) ∷ []) news;
          order = j.order;
          depths = λ d m. elim (Memᴰ.cases_cons m) [
            | inl here ↦ (
              ap (λ x. x.1) here,
              ground (arith, ap (λ (x : Discovered). x.0) here, same_iff symbol d.0),
            )
            | inr rest ↦ ground (arith, j.depths d rest)
          ];
        },
      )
]

abbrev pub IsSorted : List Discovered → Type 0
IsSorted [] = Unit
IsSorted (d ∷ ds) = EachIn (λ e. d.1 ≤ e.1) ds × IsSorted ds

-- The queue stays sorted when what joins it is one deeper than any in it may be.
pub IsSorted-append :
    (depth : ℕ) (ds news : List Discovered)
    → IsSorted ds
    → EachIn (λ d. d.1 ≤ depth) ds
    → EachIn (λ d. d.1 ≡ depth) news
    → IsSorted (ds ++ news)
IsSorted-append depth [] [] h below all = tt
IsSorted-append depth [] (d ∷ news) h below all = (
  λ e m. omega (arith, all d (Memᴰ.head refl), all e (Memᴰ.tail m)),
  IsSorted-append depth [] news tt below (λ e m. all e (Memᴰ.tail m)),
)
IsSorted-append depth (d ∷ ds) news (first, h) below all = (
  λ e m. elim (Memᴰ.append_cases ds m) [
    | inl old ↦ first e old
    | inr new ↦ omega (arith, below d (Memᴰ.head refl), all e new)
  ],
  IsSorted-append depth ds news h (λ e m. below e (Memᴰ.tail m)) all,
)

-- A symbol on the list is there with some depth.
pub with_depth :
    (s : Text) (ds : List Discovered)
    → is_among s (symbols_of ds) ≡ true
    → (d : Discovered) × Memᴰ d ds × (d.0 ≡ s)
unfolding is_among
with_depth s [] h = cc
with_depth s (d ∷ ds) h = elim (Bool-cases (same d.0 s)) [
  | inl here ↦ (d, Memᴰ.head refl, (same_iff d.0 s).0 here)
  | inr away ↦ let (e, m, is) = with_depth s ds (ground arith) in (e, Memᴰ.tail m, is)
]

not_both : (t : Text) (ts : List Text) → is_among t ts ≡ false → ¬ Memᴰ t ts
not_both t ts h m = let both : true ≡ false = sym (is_among-mem ts m) ∙ h in cc

-- Where no symbol comes twice, it comes with one depth.
pub one_depth :
    (d e : Discovered) (ds : List Discovered)
    → IsDistinct (symbols_of ds)
    → Memᴰ d ds
    → Memᴰ e ds
    → d.0 ≡ e.0
    → d.1 ≡ e.1
one_depth d e [] h m k is = absurd (Memᴰ.not-nil m)
one_depth d e (x ∷ ds) (first, h) m k is = elim (Memᴰ.cases_cons m) [
  | inl a ↦ elim (Memᴰ.cases_cons k) [
    | inl b ↦ ap (λ (y : Discovered). y.1) (a ∙ sym b)
    | inr b ↦ absurd (
        not_both x.0 (symbols_of ds) first (
          subst (λ t. Memᴰ t (symbols_of ds)) (sym is ∙ ap (λ (y : Discovered). y.0) a)
            (Memᴰ.map (λ (y : Discovered). y.0) b)))
  ]
  | inr a ↦ elim (Memᴰ.cases_cons k) [
    | inl b ↦ absurd (
        not_both x.0 (symbols_of ds) first (
          subst (λ t. Memᴰ t (symbols_of ds)) (is ∙ ap (λ (y : Discovered). y.0) b)
            (Memᴰ.map (λ (y : Discovered). y.0) a)))
    | inr b ↦ one_depth d e ds h a b is
  ]
]

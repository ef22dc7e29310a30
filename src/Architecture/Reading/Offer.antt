-- ===== src/Architecture/Reading/Offer.antt =====
-- One round of the search: what offering symbols does to the queue, and that the search ends.
use mathlib.Core.Path.{subst}
use mathlib.Core.List.{append_assoc}
use know_your_repo.Prelude.{
  ℕ, zero, suc, ◌+◌, ◌≤◌, ◌≡◌, refl, sym, ap, ◌∙◌, inl, inr, true, false, ◌||◌, List, [], ◌∷◌, ◌++◌,
  map, some, length, arith, Bool-cases, length-append,
}
use know_your_repo.Text.{
  Text, same_iff, same_refl, is_among, is_among-append, IsDistinct, IsDistinct-append, absent,
  absent-cons,
}
use know_your_repo.Architecture.{ArchitectureCallEdge}
use know_your_repo.Architecture.Reading.{
  Discovered, Search, callees, offer, offer_all, expand, explore,
}

-- The symbols, without their depths.
abbrev pub symbols_of : List Discovered → List Text
symbols_of ds = map (λ d. d.0) ds

pub symbols_of-append :
    (xs ys : List Discovered) → symbols_of (xs ++ ys) ≡ symbols_of xs ++ symbols_of ys
symbols_of-append [] ys = refl
symbols_of-append (x ∷ xs) ys = ap (λ r. x.0 ∷ r) (symbols_of-append xs ys)

-- What was discovered so far, in order: the symbols that left the queue, and those in it.
abbrev pub so_far : Search → List Discovered
so_far st = st.order ++ st.queue

-- The visited set is what was discovered, each symbol once.
pub record IsTidy (st : Search) : Type 0 where
  pub agree : (s : Text) → is_among s st.visited ≡ is_among s (symbols_of (so_far st))
  pub once : IsDistinct (symbols_of (so_far st))

-- What offering symbols does: nothing is lost, the offered are visited, and nothing else.
pub record IsOffered (names : List Text) (st st' : Search) : Type 0 where
  pub tidy : IsTidy st'
  pub same_order : st'.order ≡ st.order
  pub visits : (s : Text) → is_among s st'.visited ≡ (is_among s st.visited || is_among s names)

so_far-join :
    (st : Search) (symbol : Text) (depth : ℕ)
    → symbols_of (st.order ++ (st.queue ++ (symbol, depth) ∷ []))
      ≡ symbols_of (so_far st) ++ symbol ∷ []
so_far-join st symbol depth =
    ap symbols_of (sym (append_assoc st.order st.queue ((symbol, depth) ∷ [])))
    ∙ symbols_of-append (so_far st) ((symbol, depth) ∷ [])

joined-IsTidy :
    (st : Search) (symbol : Text) (depth : ℕ)
    → is_among symbol st.visited ≡ false
    → IsTidy st
    → IsTidy (record st { visited = symbol ∷ st.visited; queue = st.queue ++ (symbol, depth) ∷ [] })
unfolding is_among
joined-IsTidy st symbol depth fresh h = record {
  agree = λ s. ground (
    arith,
    h.agree s,
    ap (is_among s) (so_far-join st symbol depth),
    is_among-append s (symbols_of (so_far st)) (symbol ∷ []),
  );
  once =
      subst IsDistinct (sym (so_far-join st symbol depth))
        (IsDistinct-append symbol (symbols_of (so_far st)) (sym (h.agree symbol) ∙ fresh) h.once);
}

offer-IsOffered :
    (depth : ℕ) (symbol : Text) (st : Search)
    → IsTidy st
    → IsOffered (symbol ∷ []) st (offer depth symbol st)
unfolding offer is_among
offer-IsOffered depth symbol st h = elim (Bool-cases (is_among symbol st.visited)) [
  | inl old ↦ rw old (record {
    tidy = h;
    same_order = refl;
    visits = λ s. ground (arith, same_iff symbol s, ap (λ u. is_among u st.visited));
  })
  | inr new ↦ rw new (record {
    tidy = joined-IsTidy st symbol depth new h;
    same_order = refl;
    visits = λ s. ground (arith);
  })
]

pub offer_all-IsOffered :
    (depth : ℕ) (symbols : List Text) (st : Search)
    → IsTidy st
    → IsOffered symbols st (offer_all depth symbols st)
unfolding offer_all is_among
offer_all-IsOffered depth [] st h = record {
  tidy = h;
  same_order = refl;
  visits = λ s. ground arith;
}
offer_all-IsOffered depth (symbol ∷ symbols) st h =
    let one = offer-IsOffered depth symbol st h in
    let all = offer_all-IsOffered depth symbols (offer depth symbol st) one.tidy in
    record {
      tidy = all.tidy;
      same_order = all.same_order ∙ one.same_order;
      visits = λ s. ground (arith, all.visits s, one.visits s);
    }

module _ (names : List Text) where
  -- What is left to do, as far as a bound goes: the names that were not visited, and the queue.
  abbrev work : Search → ℕ
  work st = absent st.visited names + length st.queue

  work-offer :
      (depth : ℕ) (symbol : Text) (st : Search)
      → is_among symbol names ≡ true
      → work (offer depth symbol st) ≤ work st
  unfolding offer
  work-offer depth symbol st m = elim (Bool-cases (is_among symbol st.visited)) [
    | inl old ↦ rw old (omega arith)
    | inr new ↦ rw new (
        omega (
          arith,
          absent-cons symbol st.visited names new m,
          length-append st.queue ((symbol, depth) ∷ []),
        ))
  ]

  pub work-offer_all :
      (depth : ℕ) (symbols : List Text) (st : Search)
      → ((s : Text) → is_among s symbols ≡ true → is_among s names ≡ true)
      → work (offer_all depth symbols st) ≤ work st
  unfolding offer_all is_among
  work-offer_all depth [] st inside = omega arith
  work-offer_all depth (symbol ∷ symbols) st inside = omega (
    arith,
    work-offer_all depth symbols (offer depth symbol st) (λ s m. inside s (ground arith)),
    work-offer depth symbol st (inside symbol (ground (arith, same_refl symbol))),
  )

  work-expand :
      (es : List ArchitectureCallEdge) (cur : Discovered) (rest : List Discovered) (st : Search)
      → ((caller s : Text) → is_among s (callees es caller) ≡ true → is_among s names ≡ true)
      → work (expand es cur rest st) ≤ absent st.visited names + length rest
  unfolding expand
  work-expand es cur rest st inside =
      work-offer_all (cur.1 + 1) (callees es cur.0)
        (record st { queue = rest; order = st.order ++ cur ∷ [] }) (inside cur.0)

  -- With fuel for the work left the search ends.
  pub explore_ends :
      (es : List ArchitectureCallEdge) (fuel : ℕ) (queue : List Discovered) (st : Search)
      → ((caller s : Text) → is_among s (callees es caller) ≡ true → is_among s names ≡ true)
      → absent st.visited names + length queue ≤ fuel
      → (order : List Discovered) × (explore es fuel queue st ≡ some order)
  unfolding explore
  explore_ends es fuel [] st inside h = (st.order, refl)
  explore_ends es zero (cur ∷ rest) st inside h = absurd (omega arith)
  explore_ends es (suc fuel) (cur ∷ rest) st inside h =
      explore_ends es fuel (expand es cur rest st).queue (expand es cur rest st) inside
        (omega (arith, work-expand es cur rest st inside))

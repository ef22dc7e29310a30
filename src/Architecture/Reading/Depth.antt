-- ===== src/Architecture/Reading/Depth.antt =====
-- The depths of the search of the reading path: each symbol has the length of the shortest chain of
-- calls that leads to it from an entrypoint.
use mathlib.Core.Path.{subst}
use mathlib.Core.List.{Memᴰ, append_assoc, append-nil}
use mathlib.Core.List.Memᴰ
use know_your_repo.Prelude.{
  ℕ, zero, suc, ◌+◌, ◌≤◌, ◌≡◌, refl, sym, ap, ◌∙◌, ◌⊎◌, inl, inr, true, List, [], ◌∷◌, ◌++◌, some,
  arith,
}
use know_your_repo.Text.{Text, is_among, is_among-mem}
use know_your_repo.Architecture.{ArchitectureCallEdge, EntryPoint}
use know_your_repo.Architecture.Reading.{
  Discovered, Search, callees, expand, explore, empty_search, names_of, seeds,
}
use know_your_repo.Architecture.Reading.Found.{IsSearch, expand-IsSearch, seeds-IsSearch, same-some}
use know_your_repo.Architecture.Reading.Joined.{
  EachIn, Joined, offer_all-Joined, IsSorted, IsSorted-append, with_depth, one_depth,
}
use know_your_repo.Architecture.Reading.Offer.{symbols_of, so_far}

-- A chain of n calls leads from an entrypoint to the symbol.
pub data ReachedIn (eps : List EntryPoint) (es : List ArchitectureCallEdge)
    : ℕ → Text → Type 0 where
  entry : {symbol : Text} → is_among symbol (names_of eps) ≡ true → ReachedIn eps es 0 symbol
  call :
      {n : ℕ} {caller callee : Text}
      → ReachedIn eps es n caller
      → is_among callee (callees es caller) ≡ true
      → ReachedIn eps es (suc n) callee

-- The depth of a symbol is the length of a shortest chain.
abbrev pub IsShortest : List EntryPoint → List ArchitectureCallEdge → Discovered → Type 0
IsShortest eps es d = ReachedIn eps es d.1 d.0 × ((n : ℕ) → ReachedIn eps es n d.0 → d.1 ≤ n)

module _ (eps : List EntryPoint) (es : List ArchitectureCallEdge) where
  -- What holds before each round: the queue holds depths of m and m + 1, in order, and the callees of
  -- a symbol that left the queue are found at most one deeper.
  record IsLevelled (m : ℕ) (st : Search) : Type 0 where
    search : IsSearch eps es st
    chain : EachIn (λ d. ReachedIn eps es d.1 d.0) (so_far st)
    high : EachIn (λ d. d.1 ≤ suc m) (so_far st)
    low : EachIn (λ d. m ≤ d.1) st.queue
    sorted : IsSorted st.queue
    started : (s : Text) → is_among s (names_of eps) ≡ true → Memᴰ (s, 0) (so_far st)
    steps :
        (d : Discovered) (c : Text)
        → Memᴰ d st.order
        → is_among c (callees es d.0) ≡ true
        → (e : Discovered) × Memᴰ e (so_far st) × (e.0 ≡ c) × (e.1 ≤ suc d.1)

  module _ (m : ℕ) (st : Search) (cur : Discovered) (rest : List Discovered)
      (e : st.queue ≡ cur ∷ rest) (h : IsLevelled m st) where
    abbrev st' : Search
    st' = expand es cur rest st

    abbrev popped : Search
    popped = record st { queue = rest; order = st.order ++ cur ∷ [] }

    expand-Joined : (news : List Discovered) × Joined (cur.1 + 1) (callees es cur.0) popped st' news
    unfolding expand
    expand-Joined = offer_all-Joined (cur.1 + 1) (callees es cur.0) popped

    so_far-expand : so_far st' ≡ so_far st ++ expand-Joined.0
    so_far-expand =
        let (news, j) = expand-Joined in
        ap (λ o. o ++ st'.queue) j.order
        ∙ ap (λ q. (st.order ++ cur ∷ []) ++ q) j.queue
        ∙ append_assoc st.order (cur ∷ []) (rest ++ news)
        ∙ sym (append_assoc st.order (cur ∷ rest) news)
        ∙ ap (λ q. (st.order ++ q) ++ news) (sym e)

    cur-found : Memᴰ cur (so_far st)
    cur-found = Memᴰ.append_right st.order (subst (Memᴰ cur) (sym e) (Memᴰ.head refl))

    rest-found : (d : Discovered) → Memᴰ d rest → Memᴰ d (so_far st)
    rest-found d k = Memᴰ.append_right st.order (subst (Memᴰ d) (sym e) (Memᴰ.tail k))

    kept : (d : Discovered) → Memᴰ d (so_far st) → Memᴰ d (so_far st')
    kept d k = subst (Memᴰ d) (sym so_far-expand) (Memᴰ.append_left expand-Joined.0 k)

    grown :
        (d : Discovered)
        → Memᴰ d (so_far st')
        → Memᴰ d (so_far st) ⊎ ((d.1 ≡ cur.1 + 1) × (is_among d.0 (callees es cur.0) ≡ true))
    grown d k = elim (Memᴰ.append_cases (so_far st) (subst (Memᴰ d) so_far-expand k)) [
      | inl old ↦ inl old
      | inr new ↦ inr (expand-Joined.1.depths d new)
    ]

    level-le : m ≤ cur.1
    level-le = h.low cur (subst (Memᴰ cur) (sym e) (Memᴰ.head refl))

    rest-IsSorted : EachIn (λ d. cur.1 ≤ d.1) rest × IsSorted rest
    rest-IsSorted = subst IsSorted e h.sorted

    expand-high : EachIn (λ d. d.1 ≤ suc cur.1) (so_far st')
    expand-high d k = elim (grown d k) [
      | inl old ↦ omega (arith, h.high d old, level-le)
      | inr (new, _) ↦ omega (arith, new)
    ]

    expand-IsLevelled : IsLevelled cur.1 st'
    expand-IsLevelled =
        let (news, j) = expand-Joined in
        let found = expand-IsSearch eps es st cur rest e h.search in
        record {
          search = found;
          chain = λ d k. elim (grown d k) [
            | inl old ↦ h.chain d old
            | inr (new, called) ↦
                let deeper : suc cur.1 ≡ d.1 = omega (arith, new) in
                subst (λ n. ReachedIn eps es n d.0) deeper (call (h.chain cur cur-found) called)
          ];
          high = expand-high;
          low = λ d k. elim (Memᴰ.append_cases rest (subst (Memᴰ d) j.queue k)) [
            | inl old ↦ rest-IsSorted.0 d old
            | inr new ↦ omega (arith, (j.depths d new).0)
          ];
          sorted = subst IsSorted (sym j.queue) (
              IsSorted-append (cur.1 + 1) rest news rest-IsSorted.1
                (λ d k. omega (arith, h.high d (rest-found d k), level-le))
                (λ d k. (j.depths d k).0));
          started = λ s k. kept (s, 0) (h.started s k);
          steps = λ d c k called. elim (Memᴰ.append_cases st.order (subst (Memᴰ d) j.order k)) [
            | inl old ↦
                let (x, there, is, near) = h.steps d c old called in (x, kept x there, is, near)
            | inr new ↦
                let this : d ≡ cur = Memᴰ.eq_of_singleton new in
                let seen =
                  found.closed d.0 c
                    (is_among-mem (symbols_of st'.order) (Memᴰ.map (λ (y : Discovered). y.0) k))
                    called in
                let (x, there, is) = with_depth c (so_far st') (sym (found.tidy.agree c) ∙ seen) in
                (
                  x,
                  there,
                  is,
                  omega (arith, expand-high x there, ap (λ (y : Discovered). y.1) this),
                )
          ];
        }

  -- With an empty queue every chain is at least as long as the depth.
  chain-le :
      {m : ℕ} (st : Search)
      → st.queue ≡ []
      → IsLevelled m st
      → {n : ℕ} {s : Text} → ReachedIn eps es n s
      → (d : Discovered) × Memᴰ d (so_far st) × (d.0 ≡ s) × (d.1 ≤ n)
  chain-le st e h {n} {s} (entry k) = ((s, 0), h.started s k, refl, omega arith)
  chain-le st e h (call {n} {caller} {callee} r k) =
      let (d, there, is, near) = chain-le st e h r in
      let whole : so_far st ≡ st.order = ap (λ q. st.order ++ q) e ∙ append-nil st.order in
      let (x, found, named, next) =
        h.steps d callee (subst (Memᴰ d) whole there)
          (subst (λ t. is_among callee (callees es t) ≡ true) (sym is) k) in
      (x, found, named, omega arith)

  ended-IsShortest :
      {m : ℕ} (st : Search) → st.queue ≡ [] → IsLevelled m st → EachIn (IsShortest eps es) st.order
  ended-IsShortest st e h d k =
      let there = Memᴰ.append_left st.queue k in
      (
        h.chain d there,
        λ n r.
            let (x, found, is, near) = chain-le st e h r in
            omega (arith, one_depth d x (so_far st) h.search.tidy.once there found (sym is)),
      )

  explore-IsShortest :
      (fuel m : ℕ) (queue : List Discovered) (st : Search) (order : List Discovered)
      → st.queue ≡ queue
      → IsLevelled m st
      → explore es fuel queue st ≡ some order
      → EachIn (IsShortest eps es) order
  unfolding explore
  explore-IsShortest fuel m [] st order e h ends =
      subst (EachIn (IsShortest eps es)) (same-some ends) (ended-IsShortest st e h)
  explore-IsShortest zero m (cur ∷ rest) st order e h ends = cc
  explore-IsShortest (suc fuel) m (cur ∷ rest) st order e h ends =
      explore-IsShortest fuel cur.1 (expand es cur rest st).queue (expand es cur rest st) order refl
        (expand-IsLevelled m st cur rest e h) ends

  seeds-IsLevelled : IsLevelled 0 (seeds eps)
  unfolding seeds
  seeds-IsLevelled =
      let (news, j) = offer_all-Joined 0 (names_of eps) empty_search in
      let found = seeds-IsSearch eps es in
      let whole : so_far (seeds eps) ≡ news = ap (λ o. o ++ (seeds eps).queue) j.order ∙ j.queue in
      let at_start =
        λ (d : Discovered) (k : Memᴰ d (so_far (seeds eps))). j.depths d (subst (Memᴰ d) whole k) in
      record {
        search = found;
        chain = λ d k.
            subst (λ n. ReachedIn eps es n d.0) (sym (at_start d k).0) (entry (at_start d k).1);
        high = λ d k. omega (arith, (at_start d k).0);
        low = λ d k. omega arith;
        sorted = subst IsSorted (sym j.queue) (
            IsSorted-append 0 [] news tt (λ d k. absurd (Memᴰ.not-nil k))
              (λ d k. (j.depths d k).0));
        started = λ s k.
            let (d, there, is) =
              with_depth s (so_far (seeds eps)) (sym (found.tidy.agree s) ∙ found.start s k) in
            subst (λ (x : Discovered). Memᴰ x (so_far (seeds eps)))
              (λ i. (is i, (at_start d there).0 i)) there;
        steps = λ d c k called. absurd (Memᴰ.not-nil (subst (Memᴰ d) j.order k));
      }

  -- The search from the entrypoints gives each symbol its shortest distance.
  pub explore-seeds-IsShortest :
      (fuel : ℕ) (order : List Discovered)
      → explore es fuel (seeds eps).queue (seeds eps) ≡ some order
      → EachIn (IsShortest eps es) order
  explore-seeds-IsShortest fuel order ends =
      explore-IsShortest fuel 0 (seeds eps).queue (seeds eps) order refl seeds-IsLevelled ends

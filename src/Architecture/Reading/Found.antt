-- ===== src/Architecture/Reading/Found.antt =====
-- The search of the reading path: it ends, and finds what the entrypoints reach, each symbol once.
use mathlib.Core.Path.{subst}
use mathlib.Core.List.{append_assoc, append-nil}
use know_your_repo.Prelude.{
  ℕ, zero, suc, ◌+◌, ◌≤◌, ◌≡◌, refl, sym, ap, ◌∙◌, ◌⊎◌, ◌↔◌, inl, inr, Bool, true, false, ◌||◌,
  List, [], ◌∷◌, ◌++◌, map, some, length, arith, Bool-cases, length-append, length-map,
}
use know_your_repo.Text.{
  Text, same, same_iff, same_refl, is_among, is_among-append, IsDistinct, absent, absent-le-length,
}
use know_your_repo.Architecture.{ArchitectureCallEdge, EntryPoint}
use know_your_repo.Architecture.Reading.{
  Discovered, Search, callees, expand, explore, empty_search, names_of, seeds, discover,
}
use know_your_repo.Architecture.Reading.Offer.{
  symbols_of, symbols_of-append, so_far, IsTidy, offer_all-IsOffered, work-offer_all, explore_ends,
}

pub same-some {ℓ} : {A : Type ℓ} {x y : A} → some x ≡ some y → x ≡ y
same-some h = cc

-- The symbols that some chain of calls leads to from an entrypoint.
pub data Reached (eps : List EntryPoint) (es : List ArchitectureCallEdge) : Text → Type 0 where
  entry : {symbol : Text} → is_among symbol (names_of eps) ≡ true → Reached eps es symbol
  call :
      {caller callee : Text}
      → Reached eps es caller
      → is_among callee (callees es caller) ≡ true
      → Reached eps es callee

either : (a b : Bool) → (a || b) ≡ true → (a ≡ true) ⊎ (b ≡ true)
either true b h = inl refl
either false b h = inr h

module _ (eps : List EntryPoint) (es : List ArchitectureCallEdge) where
  -- What holds before each round.
  pub record IsSearch (st : Search) : Type 0 where
    pub tidy : IsTidy st
    pub start : (s : Text) → is_among s (names_of eps) ≡ true → is_among s st.visited ≡ true
    pub sound : (s : Text) → is_among s st.visited ≡ true → Reached eps es s
    pub closed :
        (s c : Text)
        → is_among s (symbols_of st.order) ≡ true
        → is_among c (callees es s) ≡ true
        → is_among c st.visited ≡ true

  popped-IsTidy :
      (st : Search) (cur : Discovered) (rest : List Discovered)
      → st.queue ≡ cur ∷ rest
      → IsTidy st
      → IsTidy (record st { queue = rest; order = st.order ++ cur ∷ [] })
  popped-IsTidy st cur rest e h =
      let same_list : (st.order ++ cur ∷ []) ++ rest ≡ so_far st =
        append_assoc st.order (cur ∷ []) rest ∙ ap (λ q. st.order ++ q) (sym e) in
      record {
        agree = λ s. h.agree s ∙ ap (λ l. is_among s (symbols_of l)) (sym same_list);
        once = subst (λ l. IsDistinct (symbols_of l)) (sym same_list) h.once;
      }

  cur-visited :
      (st : Search) (cur : Discovered) (rest : List Discovered)
      → st.queue ≡ cur ∷ rest
      → IsTidy st
      → is_among cur.0 st.visited ≡ true
  unfolding is_among
  cur-visited st cur rest e h =
      h.agree cur.0
      ∙ ap (λ q. is_among cur.0 (symbols_of (st.order ++ q))) e
      ∙ ap (is_among cur.0) (symbols_of-append st.order (cur ∷ rest))
      ∙ ground (
        arith,
        is_among-append cur.0 (symbols_of st.order) (cur.0 ∷ symbols_of rest),
        same_refl cur.0,
      )

  in_order :
      (st : Search) (cur : Discovered) (s : Text)
      → is_among s (symbols_of (st.order ++ cur ∷ [])) ≡ true
      → (is_among s (symbols_of st.order) ≡ true) ⊎ (cur.0 ≡ s)
  unfolding is_among
  in_order st cur s m = ground (
    arith,
    ap (is_among s) (symbols_of-append st.order (cur ∷ [])),
    is_among-append s (symbols_of st.order) (cur.0 ∷ []),
    same_iff cur.0 s,
  )

  pub expand-IsSearch :
      (st : Search) (cur : Discovered) (rest : List Discovered)
      → st.queue ≡ cur ∷ rest
      → IsSearch st
      → IsSearch (expand es cur rest st)
  unfolding expand is_among
  expand-IsSearch st cur rest e h =
      let popped : Search = record st { queue = rest; order = st.order ++ cur ∷ [] } in
      let done =
        offer_all-IsOffered (cur.1 + 1) (callees es cur.0) popped
          (popped-IsTidy st cur rest e h.tidy) in
      record {
        tidy = done.tidy;
        start = λ s m. done.visits s ∙ ground (arith, h.start s);
        sound = λ s m.
            elim (either (is_among s st.visited) (is_among s (callees es cur.0))
              (sym (done.visits s) ∙ m)) [
                | inl old ↦ h.sound s old
                | inr new ↦ call (h.sound cur.0 (cur-visited st cur rest e h.tidy)) new
              ];
        closed = λ s c m k.
            done.visits c
            ∙ elim (in_order st cur s
                (ap (λ l. is_among s (symbols_of l)) (sym done.same_order) ∙ m)) [
                  | inl old ↦ ground (arith, h.closed s c old k)
                  | inr here ↦
                      ground (arith, subst (λ t. is_among c (callees es t) ≡ true) (sym here) k)
                ];
      }

  -- What the search gives: the symbols that are reached, each once.
  abbrev pub IsFound : List Discovered → Type 0
  IsFound order =
      IsDistinct (symbols_of order)
      × ((s : Text) → (is_among s (symbols_of order) ≡ true) ↔ Reached eps es s)

  -- With an empty queue what is visited is closed under calls.
  found_all :
      (st : Search)
      → st.queue ≡ []
      → IsSearch st
      → (s : Text) → Reached eps es s
      → is_among s st.visited ≡ true
  found_all st e h s (entry m) = h.start s m
  found_all st e h s (call {caller} r m) =
      h.closed caller s
        (ap (λ l. is_among caller (symbols_of l)) (sym (append-nil st.order))
          ∙ ap (λ q. is_among caller (symbols_of (st.order ++ q))) (sym e)
          ∙ sym (h.tidy.agree caller)
          ∙ found_all st e h caller r)
        m

  ended-IsFound : (st : Search) → st.queue ≡ [] → IsSearch st → IsFound st.order
  ended-IsFound st e h =
      let whole : so_far st ≡ st.order = ap (λ q. st.order ++ q) e ∙ append-nil st.order in
      (
        subst (λ l. IsDistinct (symbols_of l)) whole h.tidy.once,
        λ s. (
          λ m. h.sound s (h.tidy.agree s ∙ ap (λ l. is_among s (symbols_of l)) whole ∙ m),
          λ r.
              ap (λ l. is_among s (symbols_of l)) (sym whole)
              ∙ sym (h.tidy.agree s)
              ∙ found_all st e h s r,
        ),
      )

  explore-IsFound :
      (fuel : ℕ) (queue : List Discovered) (st : Search) (order : List Discovered)
      → st.queue ≡ queue
      → IsSearch st
      → explore es fuel queue st ≡ some order
      → IsFound order
  unfolding explore
  explore-IsFound fuel [] st order e h ends = subst IsFound (same-some ends) (ended-IsFound st e h)
  explore-IsFound zero (cur ∷ rest) st order e h ends = cc
  explore-IsFound (suc fuel) (cur ∷ rest) st order e h ends =
      explore-IsFound fuel (expand es cur rest st).queue (expand es cur rest st) order refl
        (expand-IsSearch st cur rest e h) ends

  pub seeds-IsSearch : IsSearch (seeds eps)
  unfolding seeds is_among
  seeds-IsSearch =
      let done =
        offer_all-IsOffered 0 (names_of eps) empty_search
          (record { agree = λ s. refl; once = tt }) in
      record {
        tidy = done.tidy;
        start = λ s m. done.visits s ∙ m;
        sound = λ s m. entry (sym (done.visits s) ∙ m);
        closed = λ s c m k.
            let nowhere : false ≡ true =
              ap (λ l. is_among s (symbols_of l)) (sym done.same_order) ∙ m in
            cc;
      }

  -- All that can be in the queue: the entrypoints and what is called.
  abbrev names : List Text
  names = names_of eps ++ map (λ e. e.callee_symbol) es

callees-inside :
    (es : List ArchitectureCallEdge) (caller s : Text)
    → is_among s (callees es caller) ≡ true
    → is_among s (map (λ (e : ArchitectureCallEdge). e.callee_symbol) es) ≡ true
unfolding is_among
callees-inside [] caller s m = cc
callees-inside (e ∷ es) caller s m = elim (Bool-cases (same e.caller_symbol caller)) [
  | inl own ↦ ground (arith, callees-inside es caller s)
  | inr other ↦ ground (arith, callees-inside es caller s)
]

module _ (ep : EntryPoint) (eps : List EntryPoint) (es : List ArchitectureCallEdge) where
  abbrev all_eps : List EntryPoint
  all_eps = ep ∷ eps

  callees-names :
      (caller s : Text)
      → is_among s (callees es caller) ≡ true
      → is_among s (names all_eps es) ≡ true
  callees-names caller s m =
      is_among-append s (names_of all_eps) (map (λ (e : ArchitectureCallEdge). e.callee_symbol) es)
      ∙ ground (arith, callees-inside es caller s m)

  seeds-work :
      absent (seeds all_eps).visited (names all_eps es) + length (seeds all_eps).queue
      ≤ length all_eps + length es
  unfolding seeds
  seeds-work = omega (
    arith,
    work-offer_all (names all_eps es) 0 (names_of all_eps) empty_search (λ s m.
        is_among-append s (names_of all_eps)
          (map (λ (e : ArchitectureCallEdge). e.callee_symbol) es)
        ∙ ground (arith, m)),
    absent-le-length [] (names all_eps es),
    length-append (names_of all_eps) (map (λ (e : ArchitectureCallEdge). e.callee_symbol) es),
    length-map eps (λ (e : EntryPoint). e.name),
    length-map es (λ (e : ArchitectureCallEdge). e.callee_symbol),
  )

  -- From the entrypoints the search ends, and finds the symbols that they reach by calls, each once.
  pub discover-IsFound :
      (order : List Discovered) × (discover (ep ∷ eps) es ≡ some order)
      × IsFound (ep ∷ eps) es order
  unfolding discover
  discover-IsFound =
      let st = seeds all_eps in
      let (order, ends) =
        explore_ends (names all_eps es) es (length all_eps + length es) st.queue st callees-names
          seeds-work in
      (
        order,
        ends,
        explore-IsFound all_eps es (length all_eps + length es) st.queue st order refl
            (seeds-IsSearch all_eps es) ends,
      )

-- ===== src/Architecture/Reading/Steps.antt =====
-- What the reading path holds.
use mathlib.Core.Path.{subst}
use know_your_repo.Prelude.{
  slice_stable, slice_stable-All, All, All-mono, All-intro, length, ℕ, ◌<◌, ◌+◌, ◌⊎◌, ◌≡◌, ◌↔◌,
  refl, sym, ap, ◌∙◌, inl, inr, Bool, true, false, ◌||◌, List, [], ◌∷◌, map, some, take, arith,
  Bool-cases,
}
use know_your_repo.Text.{
  text_less, Text, same, same_iff, is_among, is_among-append, IsDistinct, IsDistinct-append,
}
use know_your_repo.Architecture.{ArchitectureCallEdge, ArchitectureSymbol, EntryPoint}
use know_your_repo.Architecture.Reading.{
  Discovered, add_symbol, collect_symbols, discover, caller_count, comes_before, make_step,
  max_reading_path_steps, build_reading_path,
}
use know_your_repo.Architecture.Reading.Offer.{symbols_of}
use know_your_repo.Architecture.Reading.Found.{Reached, discover-IsFound, same-some}
use know_your_repo.Architecture.Reading.Depth.{IsShortest, explore-seeds-IsShortest}
use know_your_repo.Architecture.Reading.Ranked.{
  Precedes, IsRanked, among-sort, sort-IsRanked, sort-IsDistinct,
}

among-add_symbol :
    (seen : List Text) (symbol s : Text)
    → is_among s (add_symbol seen symbol) ≡ (is_among s seen || same symbol s)
unfolding add_symbol is_among
among-add_symbol seen symbol s = elim (Bool-cases (is_among symbol seen)) [
  | inl old ↦ rw old (ground (arith, same_iff symbol s, ap (λ u. is_among u seen)))
  | inr new ↦ rw new (is_among-append s seen (symbol ∷ []) ∙ ground arith)
]

add_symbol-IsDistinct :
    (seen : List Text) (symbol : Text) → IsDistinct seen → IsDistinct (add_symbol seen symbol)
unfolding add_symbol
add_symbol-IsDistinct seen symbol h = elim (Bool-cases (is_among symbol seen)) [
  | inl old ↦ rw old h
  | inr new ↦ rw new (IsDistinct-append symbol seen new h)
]

-- A symbol that calls or is called.
abbrev pub is_in_edges : Text → List ArchitectureCallEdge → Bool
is_in_edges s [] = false
is_in_edges s (e ∷ es) = same e.caller_symbol s || (same e.callee_symbol s || is_in_edges s es)

among-collect_symbols :
    (seen : List Text) (es : List ArchitectureCallEdge) (s : Text)
    → is_among s (collect_symbols seen es) ≡ (is_among s seen || is_in_edges s es)
unfolding collect_symbols
among-collect_symbols seen [] s = ground arith
among-collect_symbols seen (e ∷ es) s =
    among-collect_symbols (add_symbol (add_symbol seen e.caller_symbol) e.callee_symbol) es s
    ∙ ground (
      arith,
      among-add_symbol seen e.caller_symbol s,
      among-add_symbol (add_symbol seen e.caller_symbol) e.callee_symbol s,
    )

collect_symbols-IsDistinct :
    (seen : List Text) (es : List ArchitectureCallEdge)
    → IsDistinct seen
    → IsDistinct (collect_symbols seen es)
unfolding collect_symbols
collect_symbols-IsDistinct seen [] h = h
collect_symbols-IsDistinct seen (e ∷ es) h =
    collect_symbols-IsDistinct (add_symbol (add_symbol seen e.caller_symbol) e.callee_symbol) es (
      add_symbol-IsDistinct (add_symbol seen e.caller_symbol) e.callee_symbol
        (add_symbol-IsDistinct seen e.caller_symbol h))

symbols_of-map : (n : ℕ) (ss : List Text) → symbols_of (map (λ s. (s, n)) ss) ≡ ss
symbols_of-map n [] = refl
symbols_of-map n (s ∷ ss) = ap (λ r. s ∷ r) (symbols_of-map n ss)

-- The symbols that a reading path is about: what the entrypoints reach by calls or, without an
-- entrypoint, what calls or is called.
abbrev pub IsRelevant : List EntryPoint → List ArchitectureCallEdge → Text → Type 0
IsRelevant [] es s = is_in_edges s es ≡ true
IsRelevant (ep ∷ eps) es s = Reached (ep ∷ eps) es s

-- The depth that a symbol is ranked by: the length of a shortest chain of calls from an entrypoint or,
-- without an entrypoint, 1.
abbrev pub HasDepth : List EntryPoint → List ArchitectureCallEdge → Discovered → Type 0
HasDepth [] es d = d.1 ≡ 1
HasDepth (ep ∷ eps) es d = IsShortest (ep ∷ eps) es d

-- One that is not deeper and, at the same depth, has as many callers or more and, with as many, does
-- not have the greater name.
abbrev pub ComesFirst : List ArchitectureCallEdge → Discovered → Discovered → Type 0
ComesFirst es a b =
    (a.1 < b.1)
    ⊎ (a.1 ≡ b.1)
      × ((caller_count es b.0 < caller_count es a.0)
          ⊎ (caller_count es a.0 ≡ caller_count es b.0) × (text_less b.0 a.0 ≡ false))

abbrev pub IsInOrder : List ArchitectureCallEdge → List Discovered → Type 0
IsInOrder es [] = Unit
IsInOrder es (d ∷ ds) = All (ComesFirst es d) ds × IsInOrder es ds

Precedes-ComesFirst :
    (es : List ArchitectureCallEdge) (a b : Discovered) → Precedes es a b → ComesFirst es a b
unfolding comes_before
Precedes-ComesFirst es a b h = ground arith

IsRanked-IsInOrder :
    (es : List ArchitectureCallEdge) (ds : List Discovered) → IsRanked es ds → IsInOrder es ds
IsRanked-IsInOrder es [] h = tt
IsRanked-IsInOrder es (d ∷ ds) (first, h) =
    (All-mono _ _ ds (Precedes-ComesFirst es d) first, IsRanked-IsInOrder es ds h)

discover-HasDepth :
    (eps : List EntryPoint) (es : List ArchitectureCallEdge) (order : List Discovered)
    → discover eps es ≡ some order
    → All (HasDepth eps es) order
unfolding discover
discover-HasDepth [] es order found =
    subst (All (HasDepth [] es)) (same-some found) (at_depth 1 (collect_symbols [] es))
  where
    at_depth : (n : ℕ) (ss : List Text) → All (λ (d : Discovered). d.1 ≡ n) (map (λ s. (s, n)) ss)
    at_depth n [] = tt
    at_depth n (s ∷ ss) = (refl, at_depth n ss)
discover-HasDepth (ep ∷ eps) es order found =
    All-intro (HasDepth (ep ∷ eps) es) order
      (explore-seeds-IsShortest (ep ∷ eps) es (length (ep ∷ eps) + length es) order found)

-- A list of the relevant symbols, each once.
abbrev pub IsListing : List EntryPoint → List ArchitectureCallEdge → List Discovered → Type 0
IsListing eps es order =
    IsDistinct (symbols_of order)
    × ((s : Text) → (is_among s (symbols_of order) ≡ true) ↔ IsRelevant eps es s)

-- The search ends, and lists the relevant symbols, each once.
pub discover-IsListing :
    (eps : List EntryPoint) (es : List ArchitectureCallEdge)
    → (order : List Discovered) × (discover eps es ≡ some order) × IsListing eps es order
unfolding discover is_among
discover-IsListing [] es =
    let same_symbols = symbols_of-map 1 (collect_symbols [] es) in
    (
      map (λ s. (s, 1)) (collect_symbols [] es),
      refl,
      (
        subst IsDistinct (sym same_symbols) (collect_symbols-IsDistinct [] es tt),
        λ s.
            let agree : is_among s (symbols_of (map (λ t. (t, 1)) (collect_symbols [] es)))
                ≡ is_in_edges s es =
              ap (is_among s) same_symbols ∙ among-collect_symbols [] es s in
            (λ m. sym agree ∙ m, λ m. agree ∙ m),
      ),
    )
discover-IsListing (ep ∷ eps) es = discover-IsFound ep eps es

sort-IsListing :
    (eps : List EntryPoint) (es : List ArchitectureCallEdge) (order : List Discovered)
    → IsListing eps es order
    → IsListing eps es (slice_stable (comes_before es) order)
sort-IsListing eps es order (once, all) = (
  sort-IsDistinct es order once,
  λ s. (λ m. (all s).0 (sym (among-sort es s order) ∙ m), λ r. among-sort es s order ∙ (all s).1 r),
)

build_reading_path-discover :
    (eps : List EntryPoint) (es : List ArchitectureCallEdge) (symbols : List ArchitectureSymbol)
    (order : List Discovered)
    → discover eps es ≡ some order
    → build_reading_path eps es symbols
      ≡ some (
          map
            (make_step eps es symbols)
            (take max_reading_path_steps (slice_stable (comes_before es) order)))
unfolding build_reading_path
build_reading_path-discover eps es symbols order found = rw (build_reading_path, found) refl

-- The reading path is made. It is the first 12 entries, or all if they are fewer, of a list of the
-- symbols that are relevant, each once: by depth, then by the number of distinct callers with the most
-- first, then by name. The depth of a symbol is the length of a shortest chain of calls that leads to
-- it from an entrypoint; where there is no entrypoint it is 1 for every symbol.
pub build_reading_path-IsRanked :
    (eps : List EntryPoint) (es : List ArchitectureCallEdge) (symbols : List ArchitectureSymbol)
    → (ranked : List Discovered) × IsListing eps es ranked
      × All (HasDepth eps es) ranked
      × IsInOrder es ranked
      × (build_reading_path eps es symbols
          ≡ some (map (make_step eps es symbols) (take max_reading_path_steps ranked)))
build_reading_path-IsRanked eps es symbols =
    let (order, found, listing) = discover-IsListing eps es in
    (
      slice_stable (comes_before es) order,
      sort-IsListing eps es order listing,
      slice_stable-All (HasDepth eps es) (comes_before es) order
          (discover-HasDepth eps es order found),
      IsRanked-IsInOrder es _ (sort-IsRanked es order),
      build_reading_path-discover eps es symbols order found,
    )

-- ===== src/Architecture/Analyze/Summarized.antt =====
-- What a summary says.
use know_your_repo.Prelude.{
  ℕ, ◌≤◌, ◌≡◌, refl, sym, ap, ◌∙◌, true, List, [], ◌∷◌, map, Option, some, length, take, arith,
  length-take, length-map, take_of_length-le, zero, suc, min,
}
use mathlib.Core.Path.{subst}
use know_your_repo.Text.{Text, is_among, IsDistinct, among-take, take-IsDistinct}
use know_your_repo.Architecture.{
  ArchitectureFile, ArchitectureSymbol, ArchitectureCallEdge, EntryPoint, Overview,
}
use know_your_repo.Architecture.Detect.{detect_components, detect_entrypoints}
use know_your_repo.Architecture.Reading.{
  Discovered, ReadingStep, make_step, build_reading_path, max_reading_path_steps,
}
use know_your_repo.Architecture.Reading.Offer.{symbols_of}
use know_your_repo.Architecture.Reading.Steps.{IsRelevant, build_reading_path-IsRanked}
use know_your_repo.Architecture.Analyze.{Rows, Summary, analyze_repository, concepts_of, summary_of}

abbrev pub step_symbols : List ReadingStep → List Text
step_symbols steps = map (λ s. s.symbol) steps

step_symbols-take :
    (eps : List EntryPoint) (es : List ArchitectureCallEdge) (symbols : List ArchitectureSymbol)
    (n : ℕ) (ds : List Discovered)
    → step_symbols (map (make_step eps es symbols) (take n ds)) ≡ take n (symbols_of ds)
unfolding make_step
step_symbols-take eps es symbols zero ds = refl
step_symbols-take eps es symbols (suc n) [] = refl
step_symbols-take eps es symbols (suc n) (d ∷ ds) =
    ap (λ r. d.0 ∷ r) (step_symbols-take eps es symbols n ds)

-- The reading path and the numbers of a summary.
pub record IsSummary (files : List ArchitectureFile) (symbols : List ArchitectureSymbol)
    (es : List ArchitectureCallEdge) (summary : Summary) : Type 0 where
  pub counted :
      summary.statistics
      ≡ record { file_count = length files; symbol_count = length symbols; call_edges = length es }
  pub found : summary.entry_points ≡ detect_entrypoints files symbols
  pub few_steps : length summary.reading_path ≤ max_reading_path_steps
  pub once : IsDistinct (step_symbols summary.reading_path)
  pub relevant :
      (s : Text)
      → is_among s (step_symbols summary.reading_path) ≡ true
      → IsRelevant summary.entry_points es s
  pub all :
      (length summary.reading_path ≤ 11)
      → (s : Text) → IsRelevant summary.entry_points es s
      → is_among s (step_symbols summary.reading_path) ≡ true

module _ (files : List ArchitectureFile) (symbols : List ArchitectureSymbol)
    (es : List ArchitectureCallEdge) (languages : List Text) (overview : Option Overview) where
  abbrev pub rows_of : Rows
  rows_of = record {
    get_files = some files;
    get_symbols = some symbols;
    get_call_edges = some es;
    get_languages = some languages;
    get_overview = some overview;
  }

  analyze-path :
      (repo_id : Text) (path : List ReadingStep)
      → build_reading_path (detect_entrypoints files symbols) es symbols ≡ some path
      → analyze_repository repo_id rows_of
        ≡ some (record {
          repo_id = repo_id;
          statistics = record {
            file_count = length files;
            symbol_count = length symbols;
            call_edges = length es;
          };
          languages = languages;
          entry_points = detect_entrypoints files symbols;
          components = detect_components files symbols;
          narrative_summary = summary_of overview;
          concepts = concepts_of overview;
          reading_path = path;
        })
  unfolding analyze_repository
  analyze-path repo_id path e = rw (analyze_repository, e) refl

  -- If the queries succeed, there is a summary. It counts the rows, and its reading path has at most 12
  -- steps, each once, each about a symbol that is relevant to the entrypoints detected; every
  -- relevant symbol has a step if the steps are fewer than 12.
  pub analyze_repository-IsSummary :
      (repo_id : Text)
      → (summary : Summary) × (analyze_repository repo_id rows_of ≡ some summary)
        × IsSummary files symbols es summary
  analyze_repository-IsSummary repo_id =
      let eps = detect_entrypoints files symbols in
      let (ranked, listing, depths, in_order, made) = build_reading_path-IsRanked eps es symbols in
      let top = take max_reading_path_steps ranked in
      let named = step_symbols-take eps es symbols max_reading_path_steps ranked in
      let counted : length (map (make_step eps es symbols) top)
          ≡ min max_reading_path_steps (length ranked) =
        length-map top (make_step eps es symbols) ∙ length-take max_reading_path_steps ranked in
      (
        record {
          repo_id = repo_id;
          statistics = record {
            file_count = length files;
            symbol_count = length symbols;
            call_edges = length es;
          };
          languages = languages;
          entry_points = eps;
          components = detect_components files symbols;
          narrative_summary = summary_of overview;
          concepts = concepts_of overview;
          reading_path = map (make_step eps es symbols) top;
        },
        analyze-path repo_id (map (make_step eps es symbols) top) made,
        record {
          counted = refl;
          found = refl;
          few_steps = omega (arith, counted);
          once =
              subst IsDistinct (sym named)
                (take-IsDistinct max_reading_path_steps (symbols_of ranked) listing.0);
          relevant = λ s m. (listing.1 s).0 (
              among-take s max_reading_path_steps (symbols_of ranked)
                (subst (λ ts. is_among s ts ≡ true) named m));
          all = λ room s r.
              let whole : take max_reading_path_steps (symbols_of ranked) ≡ symbols_of ranked =
                take_of_length-le max_reading_path_steps (symbols_of ranked)
                  (omega (arith, counted, length-map ranked (λ d. d.0))) in
              subst (λ ts. is_among s ts ≡ true) (sym (named ∙ whole)) ((listing.1 s).1 r);
        },
      )

-- ===== src/Architecture/Narrative/Cited.antt =====
-- That a concept cites only what is on record.
use mathlib.Core.List.{Memᴰ}
use mathlib.Core.Path.{subst}
use know_your_repo.Prelude.{
  ℕ, ◌≡◌, refl, sym, ◌∙◌, inl, inr, true, false, List, [], ◌∷◌, map, Option, some, none, All,
  Bool-cases, Option-cases, ◌⊎◌,
}
use know_your_repo.Prelude.Optional.{◌>>=◌}
use know_your_repo.Text.{Text, same, same_iff, is_empty}
use know_your_repo.Architecture.{ArchitectureFile, ArchitectureSymbol, Concept}
use know_your_repo.Architecture.Detect.{find_file, detect_entrypoints}
use know_your_repo.Architecture.Detect.Sound.{find_file-on_record}
use know_your_repo.Architecture.Narrative.{
  OverviewConcept, GenerateOverviewRequest, GenerateOverviewResponse, resolve_symbol,
  resolve_concept_citation, to_concept, top_level_dirs, representative_symbol_strings,
  max_representative_symbols, generate_overview,
}

-- The place is that of a symbol on record of the name, in the file that it is of.
pub record IsPlace (name : Text) (files : List ArchitectureFile) (symbols : List ArchitectureSymbol)
    (place : Text × ℕ × ℕ) : Type 0 where
  pub symbol : ArchitectureSymbol
  pub file : ArchitectureFile
  pub of_repository : Memᴰ symbol symbols
  pub on_record : Memᴰ file files
  pub of_file : file.id ≡ symbol.file_id
  pub of_name : symbol.name ≡ name
  pub here : place ≡ (file.path, symbol.start_line, symbol.end_line)

module _ (name : Text) (files : List ArchitectureFile) where
  module _ (s : ArchitectureSymbol) (symbols : List ArchitectureSymbol) where
    IsPlace-later :
        (place : Text × ℕ × ℕ)
        → IsPlace name files symbols place
        → IsPlace name files (s ∷ symbols) place
    IsPlace-later place p = record {
      symbol = p.symbol;
      file = p.file;
      of_repository = Memᴰ.tail p.of_repository;
      on_record = p.on_record;
      of_file = p.of_file;
      of_name = p.of_name;
      here = p.here;
    }

    resolve-other :
        same s.name name ≡ false
        → resolve_symbol name files (s ∷ symbols) ≡ resolve_symbol name files symbols
    unfolding resolve_symbol
    resolve-other e = rw (resolve_symbol, e) refl

    resolve-lost :
        same s.name name ≡ true
        → find_file s.file_id files ≡ none
        → resolve_symbol name files (s ∷ symbols) ≡ none
    unfolding resolve_symbol
    resolve-lost e lost = rw (resolve_symbol, e, lost) refl

    resolve-found :
        (file : ArchitectureFile)
        → same s.name name ≡ true
        → find_file s.file_id files ≡ some file
        → resolve_symbol name files (s ∷ symbols) ≡ some (file.path, s.start_line, s.end_line)
    unfolding resolve_symbol
    resolve-found file e found = rw (resolve_symbol, e, found) refl

  resolve-IsPlace :
      (symbols : List ArchitectureSymbol) (place : Text × ℕ × ℕ)
      → resolve_symbol name files symbols ≡ some place
      → IsPlace name files symbols place
  unfolding resolve_symbol
  resolve-IsPlace [] place e = cc
  resolve-IsPlace (s ∷ symbols) place e = elim (Bool-cases (same s.name name)) [
    | inr other ↦
        IsPlace-later s symbols place
          (resolve-IsPlace symbols place (sym (resolve-other s symbols other) ∙ e))
    | inl named ↦ elim (Option-cases (find_file s.file_id files)) [
      | inl lost ↦
          let nothing : none ≡ some place = sym (resolve-lost s symbols named lost) ∙ e in cc
      | inr (file, found) ↦
          let one : some (file.path, s.start_line, s.end_line) ≡ some place =
            sym (resolve-found s symbols file named found) ∙ e in
          let h = find_file-on_record s.file_id files file found in
          record {
            symbol = s;
            file = file;
            of_repository = Memᴰ.head refl;
            on_record = h.0;
            of_file = h.1;
            of_name = (same_iff s.name name).0 named;
            here = cc;
          }
    ]
  ]

-- The concept cites nothing, or a symbol on record at its place.
abbrev pub IsCited : List ArchitectureFile → List ArchitectureSymbol → Concept → Type 0
IsCited files symbols c =
    ((c.symbol ≡ []) × (c.file_path ≡ []) × (c.start_line ≡ 0) × (c.end_line ≡ 0))
    ⊎ IsPlace c.symbol files symbols (c.file_path, c.start_line, c.end_line)

citation-IsPlace :
    (name : Text) (files : List ArchitectureFile) (symbols : List ArchitectureSymbol)
    (place : Text × ℕ × ℕ)
    → resolve_concept_citation name files symbols ≡ some place
    → IsPlace name files symbols place
unfolding resolve_concept_citation
citation-IsPlace name files symbols place e = elim (Bool-cases (is_empty name)) [
  | inl empty ↦ let nothing : none ≡ some place = rw empty at e in cc
  | inr named ↦ resolve-IsPlace name files symbols place (rw named at e)
]

to_concept-IsCited :
    (files : List ArchitectureFile) (symbols : List ArchitectureSymbol) (c : OverviewConcept)
    → IsCited files symbols (to_concept files symbols c)
to_concept-IsCited files symbols c =
    elim (Option-cases (resolve_concept_citation c.symbol files symbols)) [
      | inl e ↦ rw e (inl (refl, refl, refl, refl))
      | inr (place, e) ↦ rw e (inr (citation-IsPlace c.symbol files symbols place e))
    ]

All-IsCited :
    (files : List ArchitectureFile) (symbols : List ArchitectureSymbol) (cs : List OverviewConcept)
    → All (IsCited files symbols) (map (to_concept files symbols) cs)
All-IsCited files symbols [] = tt
All-IsCited files symbols (c ∷ cs) =
    (to_concept-IsCited files symbols c, All-IsCited files symbols cs)

stored-IsCited :
    (files : List ArchitectureFile) (symbols : List ArchitectureSymbol)
    (stored : Text × List Concept) (answer : Option GenerateOverviewResponse)
    → (answer >>= λ resp.
        some (resp.narrative_summary, map (to_concept files symbols) resp.concepts))
      ≡ some stored
    → All (IsCited files symbols) stored.1
stored-IsCited files symbols stored none e = cc
stored-IsCited files symbols stored (some resp) e =
    let one : (resp.narrative_summary, map (to_concept files symbols) resp.concepts) ≡ stored =
      cc in
    subst (λ p. All (IsCited files symbols) p.1) one (All-IsCited files symbols resp.concepts)

-- Of what is stored of the language model's overview, each concept cites nothing, or the path and the
-- lines on record of a symbol of that name in the repository, whatever the model claims.
pub generate_overview-IsCited :
    (sidecar : GenerateOverviewRequest → Option GenerateOverviewResponse)
    (files : List ArchitectureFile) (symbols : List ArchitectureSymbol) (repo_id readme_text : Text)
    (stored : Text × List Concept)
    → generate_overview sidecar (some files) (some symbols) repo_id readme_text ≡ some stored
    → All (IsCited files symbols) stored.1
unfolding generate_overview
generate_overview-IsCited sidecar files symbols repo_id readme_text stored e =
    stored-IsCited files symbols stored
      (sidecar (record {
        readme_text = readme_text;
        entrypoints =
            map (λ ep. (ep.name, ep.file_path, ep.language)) (detect_entrypoints files symbols);
        directory_structure = top_level_dirs files repo_id;
        representative_symbols = representative_symbol_strings symbols max_representative_symbols;
      }))
      e

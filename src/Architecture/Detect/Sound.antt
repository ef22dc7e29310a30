-- ===== src/Architecture/Detect/Sound.antt =====
-- What is detected: symbols on record, each with its file.
use mathlib.Core.List.{Memᴰ}
use mathlib.Core.List.Memᴰ
use mathlib.Core.Path.{subst}
use know_your_repo.Prelude.{
  ℕ, ◌==◌, ==_iff, ◌≡◌, ◌↔◌, refl, sym, ap, ◌∙◌, inl, inr, Bool, true, false, List, [], ◌∷◌, some,
  none, Bool-cases, Option-cases, if◌then◌else◌,
}
use know_your_repo.Architecture.{ArchitectureFile, ArchitectureSymbol, Component, EntryPoint}
use know_your_repo.Architecture.Detect.{
  find_file, detect, detect_components, detect_entrypoints, is_architectural_component,
  build_component, is_entrypoint, build_entrypoint,
}

find_file-rest :
    (id : ℕ) (f file : ArchitectureFile) (fs : List ArchitectureFile)
    → find_file id fs ≡ some file
    → find_file id (f ∷ fs) ≡ some file
unfolding find_file
find_file-rest id f file fs e = rw e

find_file-here :
    (id : ℕ) (f : ArchitectureFile) (fs : List ArchitectureFile)
    → find_file id fs ≡ none
    → find_file id (f ∷ fs) ≡ (if f.id == id then some f else none)
unfolding find_file
find_file-here id f fs e = rw e

-- A file that is found is on record under the id.
pub find_file-on_record :
    (id : ℕ) (files : List ArchitectureFile) (file : ArchitectureFile)
    → find_file id files ≡ some file
    → Memᴰ file files × (file.id ≡ id)
unfolding find_file
find_file-on_record id [] file e = cc
find_file-on_record id (f ∷ fs) file e = elim (Option-cases (find_file id fs)) [
  | inr (g, later) ↦
      let same_file : some g ≡ some file = sym (find_file-rest id f g fs later) ∙ e in
      let h = find_file-on_record id fs file (later ∙ same_file) in (Memᴰ.tail h.0, h.1)
  | inl absent ↦ elim (Bool-cases (f.id == id)) [
    | inl here ↦
        let same_file : some f ≡ some file =
          sym (find_file-here id f fs absent ∙ rw here refl) ∙ e in
        let found : f ≡ file = cc in
        (Memᴰ.head (sym found), ap (λ g. g.id) (sym found) ∙ (==_iff f.id id).0 here)
    | inr away ↦
        let nothing : none ≡ some file = sym (find_file-here id f fs absent ∙ rw away refl) ∙ e in
        cc
  ]
]

module _ {B : Type 0} (test : ArchitectureSymbol → ArchitectureFile → Bool)
    (make : ArchitectureSymbol → ArchitectureFile → B) where
  -- It is made of a symbol on record that passes the test, and the file that the symbol is of.
  pub record IsDetected (files : List ArchitectureFile) (symbols : List ArchitectureSymbol) (b : B)
      : Type 0 where
    pub symbol : ArchitectureSymbol
    pub file : ArchitectureFile
    pub of_repository : Memᴰ symbol symbols
    pub found : find_file symbol.file_id files ≡ some file
    pub on_record : Memᴰ file files
    pub of_file : file.id ≡ symbol.file_id
    pub passes : test symbol file ≡ true
    pub made : b ≡ make symbol file

  module _ (files : List ArchitectureFile) (s : ArchitectureSymbol)
      (symbols : List ArchitectureSymbol) where
    later : (b : B) → IsDetected files symbols b → IsDetected files (s ∷ symbols) b
    later b d = record {
      symbol = d.symbol;
      file = d.file;
      of_repository = Memᴰ.tail d.of_repository;
      found = d.found;
      on_record = d.on_record;
      of_file = d.of_file;
      passes = d.passes;
      made = d.made;
    }

    detect-absent :
        find_file s.file_id files ≡ none
        → detect test make files (s ∷ symbols) ≡ detect test make files symbols
    unfolding detect
    detect-absent e = rw (detect, e) refl

    module _ (file : ArchitectureFile) (found : find_file s.file_id files ≡ some file) where
      detect-fails :
          test s file ≡ false
          → detect test make files (s ∷ symbols) ≡ detect test make files symbols
      unfolding detect
      detect-fails e = rw (detect, found, e) refl

      detect-passes :
          test s file ≡ true
          → detect test make files (s ∷ symbols) ≡ make s file ∷ detect test make files symbols
      unfolding detect
      detect-passes e = rw (detect, found, e) refl

      here-IsDetected : test s file ≡ true → IsDetected files (s ∷ symbols) (make s file)
      here-IsDetected passes =
          let h = find_file-on_record s.file_id files file found in
          record {
            symbol = s;
            file = file;
            of_repository = Memᴰ.head refl;
            found = found;
            on_record = h.0;
            of_file = h.1;
            passes = passes;
            made = refl;
          }

  detect-IsDetected :
      (files : List ArchitectureFile) (symbols : List ArchitectureSymbol) (b : B)
      → Memᴰ b (detect test make files symbols)
      → IsDetected files symbols b
  unfolding detect
  detect-IsDetected files [] b m = absurd (Memᴰ.not-nil m)
  detect-IsDetected files (s ∷ symbols) b m =
      let IH = detect-IsDetected files symbols b in
      elim (Option-cases (find_file s.file_id files)) [
        | inl absent ↦
            later files s symbols b (IH (subst (Memᴰ b) (detect-absent files s symbols absent) m))
        | inr (file, found) ↦ elim (Bool-cases (test s file)) [
          | inr fails ↦
              later files s symbols b
                (IH (subst (Memᴰ b) (detect-fails files s symbols file found fails) m))
          | inl passes ↦
              elim (Memᴰ.cases_cons
                (subst (Memᴰ b) (detect-passes files s symbols file found passes) m)) [
                  | inl here ↦
                      subst (IsDetected files (s ∷ symbols)) (sym here)
                        (here-IsDetected files s symbols file found passes)
                  | inr rest ↦ later files s symbols b (IH rest)
                ]
        ]
      ]

  detect-all :
      (files : List ArchitectureFile) (symbols : List ArchitectureSymbol) (s : ArchitectureSymbol)
      (file : ArchitectureFile)
      → Memᴰ s symbols
      → find_file s.file_id files ≡ some file
      → test s file ≡ true
      → Memᴰ (make s file) (detect test make files symbols)
  unfolding detect
  detect-all files [] s file m found passes = absurd (Memᴰ.not-nil m)
  detect-all files (t ∷ symbols) s file (Memᴰ.head e) found passes =
      subst (λ u. Memᴰ (make s file) (detect test make files (u ∷ symbols))) e
        (subst (Memᴰ (make s file)) (sym (detect-passes files s symbols file found passes))
          (Memᴰ.head refl))
  detect-all files (t ∷ symbols) s file (Memᴰ.tail m) found passes =
      let rest = detect-all files symbols s file m found passes in
      elim (Option-cases (find_file t.file_id files)) [
        | inl absent ↦ subst (Memᴰ (make s file)) (sym (detect-absent files t symbols absent)) rest
        | inr (g, at_g) ↦ elim (Bool-cases (test t g)) [
          | inr fails ↦
              subst (Memᴰ (make s file)) (sym (detect-fails files t symbols g at_g fails)) rest
          | inl ok ↦
              subst (Memᴰ (make s file)) (sym (detect-passes files t symbols g at_g ok))
                (Memᴰ.tail rest)
        ]
      ]

  pub detect_iff :
      (files : List ArchitectureFile) (symbols : List ArchitectureSymbol) (b : B)
      → Memᴰ b (detect test make files symbols) ↔ IsDetected files symbols b
  detect_iff files symbols b = (
    detect-IsDetected files symbols b,
    λ d.
        subst (λ c. Memᴰ c (detect test make files symbols)) (sym d.made)
          (detect-all files symbols d.symbol d.file d.of_repository d.found d.passes),
  )

-- The entrypoints are what is made of the symbols on record that pass isEntrypoint, with the file that
-- each is of.
pub detect_entrypoints_iff :
    (files : List ArchitectureFile) (symbols : List ArchitectureSymbol) (ep : EntryPoint)
    → Memᴰ ep (detect_entrypoints files symbols)
      ↔ IsDetected is_entrypoint build_entrypoint files symbols ep
unfolding detect_entrypoints
detect_entrypoints_iff = detect_iff is_entrypoint build_entrypoint

-- The components are what is made of the symbols on record that pass isArchitecturalComponent, with
-- the file that each is of.
pub detect_components_iff :
    (files : List ArchitectureFile) (symbols : List ArchitectureSymbol) (c : Component)
    → Memᴰ c (detect_components files symbols)
      ↔ IsDetected is_architectural_component build_component files symbols c
unfolding detect_components
detect_components_iff = detect_iff is_architectural_component build_component

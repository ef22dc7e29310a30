-- ===== src/Architecture/Detect.antt =====
-- Which symbols are entrypoints and components: entrypoints.go and components.go of
-- api/internal/architecture. A path is one that filepath.Clean leaves as it is, with `/` between its
-- parts.
pub mod Sound
use know_your_repo.Prelude.{
  ℕ, ◌==◌, Bool, true, false, ◌||◌, List, [], ◌∷◌, map, Option, some, none, if◌then◌else◌,
}
use know_your_repo.Text.{
  Text, codes, same, is_among, is_empty, to_lower, has_suffix, contains, any_contained,
}
use know_your_repo.Architecture.{ArchitectureFile, ArchitectureSymbol, Component, EntryPoint}

-- What follows the last slash, and whether there is one.
last_part : Text → Text × Bool
last_part [] = ([], false)
last_part (c ∷ s) =
    let (rest, slash) = last_part s in
    if slash then (rest, true) else if c == b'/' then (rest, true) else (c ∷ rest, false)

-- filepath.Base
unfoldable base : Text → Text
unfolding last_part is_empty
base path =
    if is_empty path
    then codes "."
    else if is_empty (last_part path).0
    then codes "/"
    else (last_part path).0

-- What comes before the last slash, if there is one.
before_last : Text → Option Text
before_last [] = none
before_last (c ∷ s) = elim (before_last s) [
  | some front ↦ some (c ∷ front)
  | none ↦ if c == b'/' then some [] else none
]

-- filepath.Dir
unfoldable dir : Text → Text
unfolding before_last is_empty
dir path = elim (before_last path) [
  | none ↦ codes "."
  | some front ↦ if is_empty front then codes "/" else front
]

-- `fileMap[id]`: the last file of the id.
unfoldable pub find_file : ℕ → List ArchitectureFile → Option ArchitectureFile
find_file id [] = none
find_file id (f ∷ fs) = elim (find_file id fs) [
  | some file ↦ some file
  | none ↦ if f.id == id then some f else none
]

abbrev architectural_suffixes : List Text
architectural_suffixes = map codes (
    "Manager" ∷ "Service" ∷ "Repository" ∷ "Repo" ∷ "Controller" ∷ "Handler" ∷ "Client" ∷ "Server"
    ∷ "Hub" ∷ "Store" ∷ "Parser" ∷ "Extractor" ∷ "Builder" ∷ "Walker" ∷ "Factory" ∷ "Provider"
    ∷ "Agent" ∷ "Engine" ∷ "Scheduler" ∷ "Coordinator" ∷ "Cache" ∷ [])

has_any_suffix : Text → List Text → Bool
unfolding has_suffix
has_any_suffix s [] = false
has_any_suffix s (suffix ∷ suffixes) = has_suffix s suffix || has_any_suffix s suffixes

unfoldable pub is_architectural_component : ArchitectureSymbol → ArchitectureFile → Bool
unfolding is_among has_any_suffix any_contained base to_lower
is_architectural_component symbol file =
    is_among (to_lower symbol.type) (map codes ("struct" ∷ "interface" ∷ "class" ∷ []))
    || (has_any_suffix symbol.name architectural_suffixes
        || any_contained (to_lower (base file.path)) (
            map codes
              ("handler" ∷ "controller" ∷ "service" ∷ "repository" ∷ "manager" ∷ "agent" ∷ [])))

pub build_component : ArchitectureSymbol → ArchitectureFile → Component
build_component symbol file = record {
  name = symbol.name;
  type = symbol.type;
  file_path = file.path;
  language = file.language;
  start_line = symbol.start_line;
  end_line = symbol.end_line;
}

-- The languages that the switches tell apart.
pub data Family : Type 0 where
  go python script other_language : Family

family_of : Text → Family
unfolding same
family_of language =
    if same language (codes "go")
    then Family.go
    else if same language (codes "python")
    then Family.python
    else if same language (codes "javascript") || same language (codes "typescript")
    then Family.script
    else Family.other_language

unfoldable pub is_entrypoint : ArchitectureSymbol → ArchitectureFile → Bool
unfolding family_of is_among base dir contains to_lower same
is_entrypoint symbol file =
    let filename = to_lower (base file.path) in
    elim (family_of (to_lower file.language)) [
      | Family.go ↦
          same symbol.name (codes "main")
          || (contains (to_lower (dir file.path)) (codes "cmd") || same filename (codes "main.go"))
      | Family.python ↦
          same filename (codes "main.py")
          || (same symbol.name (codes "__main__") || same filename (codes "app.py"))
      | Family.script ↦ is_among filename (
          map codes
            ("index.js" ∷ "index.ts" ∷ "main.js" ∷ "main.ts" ∷ "server.js" ∷ "server.ts" ∷ []))
      | Family.other_language ↦ false
    ]

pub build_entrypoint : ArchitectureSymbol → ArchitectureFile → EntryPoint
unfolding family_of same to_lower
build_entrypoint symbol file = record {
  name = symbol.name;
  file_path = file.path;
  language = file.language;
  type = elim (family_of (to_lower file.language)) [
    | Family.go ↦ if same symbol.name (codes "main") then codes "main" else codes "entrypoint"
    | Family.python ↦
        if same symbol.name (codes "__main__") then codes "__main__" else codes "entrypoint"
    | Family.script ↦ codes "server"
    | Family.other_language ↦ codes "entrypoint"
  ];
}

-- The loop over the symbols, which is the same for both: those of a file on record that pass the test.
module _ {B : Type 0} (test : ArchitectureSymbol → ArchitectureFile → Bool)
    (make : ArchitectureSymbol → ArchitectureFile → B) where
  unfoldable pub detect : List ArchitectureFile → List ArchitectureSymbol → List B
  unfolding find_file
  detect files [] = []
  detect files (sym ∷ syms) =
      let rest = detect files syms in
      elim (find_file sym.file_id files) [
        | none ↦ rest
        | some file ↦ if test sym file then make sym file ∷ rest else rest
      ]

unfoldable pub detect_components : List ArchitectureFile → List ArchitectureSymbol → List Component
unfolding is_architectural_component build_component detect
detect_components = detect is_architectural_component build_component

unfoldable pub detect_entrypoints :
    List ArchitectureFile → List ArchitectureSymbol → List EntryPoint
unfolding is_entrypoint build_entrypoint detect
detect_entrypoints = detect is_entrypoint build_entrypoint

-- ===== src/Architecture/Reading.antt =====
-- The reading path: api/internal/architecture/reading_path.go. A map that is only read is the function
-- that looks its key up; the set of symbols that a `range` visits is a list of them.
pub mod Offer
pub mod Depth
pub mod Found
pub mod Joined
pub mod Ranked
pub mod Steps
use know_your_repo.Prelude.{
  ℕ, zero, suc, ◌+◌, Bool, true, false, not, ◌&&◌, ◌||◌, List, [], ◌∷◌, ◌++◌, map, Option, some,
  none, length, take, select, ltb, leb, ◌==◌, slice_stable, if◌then◌else◌,
}
use know_your_repo.Text.{text_less, Text, same, is_among}
use know_your_repo.Architecture.{ArchitectureSymbol, ArchitectureCallEdge, EntryPoint}

-- The reason, as it is worded: "Entrypoint", or "Called by n function(s) in the core flow".
pub data Reason : Type 0 where
  entrypoint : Reason
  called_by : ℕ → Reason

pub record ReadingStep : Type 0 where
  pub symbol : Text
  pub file_path : Text
  pub reason : Reason
  pub start_line : ℕ
  pub end_line : ℕ

abbrev pub max_reading_path_steps : ℕ
max_reading_path_steps = 12

-- `linesOf[symbol]`: the first symbol of the name.
unfoldable lines_of : List ArchitectureSymbol → Text → ℕ × ℕ
lines_of [] symbol = (0, 0)
lines_of (s ∷ ss) symbol =
    if same s.name symbol then (s.start_line, s.end_line) else lines_of ss symbol

-- `fileOf` of the entrypoints: the last of the name.
unfoldable file_of_entrypoint : List EntryPoint → Text → Option Text
file_of_entrypoint [] symbol = none
file_of_entrypoint (ep ∷ eps) symbol = elim (file_of_entrypoint eps symbol) [
  | some path ↦ some path
  | none ↦ if same ep.name symbol then some ep.file_path else none
]

-- The first edge that the symbol calls from.
unfoldable file_of_caller : List ArchitectureCallEdge → Text → Text
file_of_caller [] symbol = []
file_of_caller (e ∷ es) symbol =
    if same e.caller_symbol symbol then e.caller_file_path else file_of_caller es symbol

-- `fileOf[symbol]`
unfoldable file_of : List EntryPoint → List ArchitectureCallEdge → Text → Text
unfolding file_of_entrypoint file_of_caller
file_of eps es symbol = elim (file_of_entrypoint eps symbol) [
  | some path ↦ path
  | none ↦ file_of_caller es symbol
]

-- `callerCount[symbol]`: callers that were not seen before.
unfoldable count_callers : List Text → List ArchitectureCallEdge → Text → ℕ
unfolding is_among
count_callers seen [] symbol = 0
count_callers seen (e ∷ es) symbol =
    let fresh = same e.callee_symbol symbol && not (is_among e.caller_symbol seen) in
    (if fresh then 1 else 0)
    + count_callers (if fresh then e.caller_symbol ∷ seen else seen) es symbol

unfoldable pub caller_count : List ArchitectureCallEdge → Text → ℕ
unfolding count_callers
caller_count es symbol = count_callers [] es symbol

-- `adjacency[symbol]`
abbrev pub callees : List ArchitectureCallEdge → Text → List Text
callees es symbol = map (λ e. e.callee_symbol) (select (λ e. same e.caller_symbol symbol) es)

-- discovered
abbrev pub Discovered : Type 0
Discovered = Text × ℕ

pub record Search : Type 0 where
  pub visited : List Text
  pub queue : List Discovered
  pub order : List Discovered

-- A symbol that was not visited joins the queue, with its depth.
unfoldable offer : ℕ → Text → Search → Search
offer depth symbol st =
    if is_among symbol st.visited
    then st
    else record st { visited = symbol ∷ st.visited; queue = st.queue ++ (symbol, depth) ∷ [] }

unfoldable offer_all : ℕ → List Text → Search → Search
unfolding offer
offer_all depth [] st = st
offer_all depth (symbol ∷ symbols) st = offer_all depth symbols (offer depth symbol st)

-- One round: the symbol that left the queue.
unfoldable expand : List ArchitectureCallEdge → Discovered → List Discovered → Search → Search
unfolding offer_all
expand es (symbol, depth) rest st =
    offer_all (depth + 1) (callees es symbol)
      (record st { queue = rest; order = st.order ++ (symbol, depth) ∷ [] })

-- The loop over the queue, with fuel; `none` means that the fuel ran out.
unfoldable explore :
    List ArchitectureCallEdge → ℕ → List Discovered → Search → Option (List Discovered)
unfolding expand
explore es fuel [] st = some st.order
explore es zero (cur ∷ rest) st = none
explore es (suc fuel) (cur ∷ rest) st =
    let st' = expand es cur rest st in explore es fuel st'.queue st'

abbrev empty_search : Search
empty_search = record { visited = []; queue = []; order = [] }

abbrev names_of : List EntryPoint → List Text
names_of eps = map (λ ep. ep.name) eps

-- The entrypoints in the queue.
unfoldable seeds : List EntryPoint → Search
unfolding offer_all
seeds eps = offer_all 0 (names_of eps) empty_search

-- `seen[symbol] = struct{}{}`
unfoldable pub add_symbol : List Text → Text → List Text
unfolding is_among
add_symbol seen symbol = if is_among symbol seen then seen else seen ++ symbol ∷ []

-- Without an entrypoint: every symbol of the edges.
unfoldable collect_symbols : List Text → List ArchitectureCallEdge → List Text
unfolding add_symbol
collect_symbols seen [] = seen
collect_symbols seen (e ∷ es) =
    collect_symbols (add_symbol (add_symbol seen e.caller_symbol) e.callee_symbol) es

unfoldable pub discover : List EntryPoint → List ArchitectureCallEdge → Option (List Discovered)
unfolding explore seeds collect_symbols
discover [] es = some (map (λ s. (s, 1)) (collect_symbols [] es))
discover (ep ∷ eps) es =
    let st = seeds (ep ∷ eps) in explore es (length (ep ∷ eps) + length es) st.queue st

-- The comparison given to SliceStable.
unfoldable pub comes_before : List ArchitectureCallEdge → Discovered → Discovered → Bool
unfolding text_less
comes_before es a b =
    if not (a.1 == b.1)
    then ltb a.1 b.1
    else if not (caller_count es a.0 == caller_count es b.0)
    then ltb (caller_count es b.0) (caller_count es a.0)
    else text_less a.0 b.0

unfoldable pub make_step :
    List EntryPoint → List ArchitectureCallEdge → List ArchitectureSymbol → Discovered → ReadingStep
unfolding file_of lines_of
make_step eps es symbols d = record {
  symbol = d.0;
  file_path = file_of eps es d.0;
  reason = if is_among d.0 (names_of eps) then entrypoint else called_by (caller_count es d.0);
  start_line = (lines_of symbols d.0).0;
  end_line = (lines_of symbols d.0).1;
}

-- BuildReadingPath; the break after the last step is the cut.
unfoldable pub build_reading_path :
    List EntryPoint
    → List ArchitectureCallEdge
    → List ArchitectureSymbol
    → Option (List ReadingStep)
unfolding discover slice_stable comes_before make_step
build_reading_path eps es symbols = elim (discover eps es) [
  | none ↦ none
  | some order ↦ some (
      map (make_step eps es symbols)
        (take max_reading_path_steps (slice_stable (comes_before es) order)))
]

-- ===== src/Retrieval.antt =====
-- What answers a question: the package retrieval. The queries of the database and the files on disk
-- are `Lookups`, for one repository; `none` is an error. The order in which Go visits a map is one of
-- them. A child module per source file: Identifiers and Lexical (lexical.go), Semantic (hybrid.go).
pub mod Identifiers
pub mod Lexical
pub mod Semantic
pub mod Database
use know_your_repo.Prelude.{ℕ, List, Option}
use know_your_repo.Text.{Text}
use know_your_repo.Store.{CallEdge}
use know_your_repo.Store.Reads.{SymbolEntry}

pub record GraphEdge : Type 0 where
  pub caller : Text
  pub callee : Text

unfoldable pub graph_edge : CallEdge → GraphEdge
graph_edge e = record { caller = e.caller_symbol; callee = e.callee_symbol }

-- The values of a `map[string]interface{}`.
pub data Value : Type 0 where
  text : Text → Value
  number : ℕ → Value
  other : Value

abbrev pub Metadata : Type 0
Metadata = List (Text × Value)

-- The rest of a RetrievalResult. A float64 is not read here, and is of a type of its own.
pub record Details (F : Type 0) : Type 0 where
  pub edges : List GraphEdge
  pub metadata : Metadata
  pub distance : F

-- sidecar.SearchResult
pub record SearchResult (F : Type 0) : Type 0 where
  pub id : Text
  pub document : Text
  pub metadata : Metadata
  pub distance : F

pub record Lookups : Type 0 where
  pub list_symbols : Text → Option (List SymbolEntry)
  pub search_call_edges : Text → Option (List CallEdge)
  pub get_outgoing_calls : Text → Text → Option (List CallEdge)
  pub get_incoming_calls : Text → Option (List CallEdge)
  pub read_file : Text → Option Text
  pub visit_order : List (Text × List CallEdge) → List (Text × List CallEdge)

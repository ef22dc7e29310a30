-- ===== src/BoundedGraph.antt =====
-- The bounded call graph: api/internal/api/graph_bounded.go. The set seenNode and the list nodeOrder hold
-- the same names, and are one list here; so are the set seenEdge and the list responseEdges.
pub mod Nodes
pub mod Sound
use know_your_repo.Prelude.{
  ℕ, ◌≤◌, Bool, true, false, not, ◌&&◌, ◌||◌, List, [], ◌∷◌, ◌++◌, map, Option, some, none, length,
  leb, ltb, ◌==◌, if◌then◌else◌,
}
use know_your_repo.Text.{Text, same, is_empty, is_among}

abbrev default_graph_depth : ℕ
default_graph_depth = 2

abbrev pub max_graph_depth : ℕ
max_graph_depth = 5

abbrev pub max_graph_nodes : ℕ
max_graph_nodes = 150

abbrev max_graph_edge_rows : ℕ
max_graph_edge_rows = 1000

-- store.CallGraphEdge
pub record CallGraphEdge : Type 0 where
  pub caller : Text
  pub caller_file_path : Text
  pub callee : Text
  pub depth : ℕ

-- GraphEdgeResponse
abbrev pub Edge : Type 0
Edge = Text × Text

pub record GraphNode : Type 0 where
  pub symbol : Text
  pub file_path : Text

pub record Response : Type 0 where
  pub repo_id : Text
  pub root_symbol : Text
  pub depth : ℕ
  pub truncated : Bool
  pub nodes : List GraphNode
  pub edges : List Edge

-- The depth that the handler asks for, or none for a bad request. Atoi is a parameter; it is none
-- for what is not a number, and for a negative one.
pub get_depth : (Text → Option ℕ) → Text → Option ℕ
get_depth atoi raw = if is_empty raw then some default_graph_depth else elim (atoi raw) [
  | none ↦ none
  | some parsed ↦
      if ltb parsed 1
      then none
      else some (if ltb max_graph_depth parsed then max_graph_depth else parsed)
]

-- What the loop collects.
pub record Collected : Type 0 where
  pub nodes : List Text
  pub node_file_path : List (Text × Text)
  pub edges : List Edge

unfoldable pub is_edge_seen : Edge → List Edge → Bool
is_edge_seen e [] = false
is_edge_seen e (d ∷ ds) = (same d.0 e.0 && same d.1 e.1) || is_edge_seen e ds

-- `nodeFilePath[symbol]`, with the empty string for a missing key.
file_path_of : Text → List (Text × Text) → Text
file_path_of symbol [] = []
file_path_of symbol ((s, path) ∷ rest) = if same s symbol then path else file_path_of symbol rest

-- The first path that is not empty is kept.
unfoldable pub note_path : Text → Text → Collected → Collected
unfolding is_among
note_path symbol path st =
    if not (is_empty path) && not (is_among symbol (map (λ p. p.0) st.node_file_path))
    then record st { node_file_path = st.node_file_path ++ (symbol, path) ∷ [] }
    else st

-- The closure addNode: none where it returns false.
unfoldable pub add_node : Text → Text → Collected → Option Collected
unfolding is_among note_path
add_node symbol path st =
    if is_among symbol st.nodes
    then some (note_path symbol path st)
    else if leb max_graph_nodes (length st.nodes)
    then none
    else some (note_path symbol path (record st { nodes = st.nodes ++ symbol ∷ [] }))

unfoldable pub add_edge : CallGraphEdge → Collected → Collected
unfolding is_edge_seen
add_edge e st =
    if is_edge_seen (e.caller, e.callee) st.edges
    then st
    else record st { edges = st.edges ++ (e.caller, e.callee) ∷ [] }

-- What the loop body does to the state, with whether it goes on.
unfoldable pub add_callee : CallGraphEdge → Collected → Collected × Bool
unfolding add_node add_edge
add_callee e st = elim (add_node e.callee [] st) [
  | none ↦ (st, false)
  | some st' ↦ (add_edge e st', true)
]

unfoldable pub add_row : CallGraphEdge → Collected → Collected × Bool
unfolding add_node add_callee
add_row e st = elim (add_node e.caller e.caller_file_path st) [
  | none ↦ (st, false)
  | some st' ↦ add_callee e st'
]

-- The loop over the rows, with whether it ran to its end.
unfoldable pub add_rows : List CallGraphEdge → Collected → Collected × Bool
unfolding add_row
add_rows [] st = (st, true)
add_rows (e ∷ es) st =
    let (st', goes_on) = add_row e st in
    let rest = add_rows es st' in if goes_on then rest else (st', false)

abbrev empty_graph : Collected
empty_graph = record { nodes = []; node_file_path = []; edges = [] }

-- The state before the loop: addNode(rootSymbol, "").
unfoldable pub root_only : Text → Collected
unfolding add_node
root_only root = elim (add_node root [] empty_graph) [ none ↦ empty_graph | some st ↦ st ]

unfoldable pub build_bounded_graph_response : Text → Text → ℕ → List CallGraphEdge → Response
unfolding root_only add_rows file_path_of
build_bounded_graph_response repo root depth rows =
    let (st, finished) = add_rows rows (root_only root) in
    record {
      repo_id = repo;
      root_symbol = root;
      depth = depth;
      truncated = leb max_graph_edge_rows (length rows) || not finished;
      nodes =
          map (λ s. record { symbol = s; file_path = file_path_of s st.node_file_path }) st.nodes;
      edges = st.edges;
    }

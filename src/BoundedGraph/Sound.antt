-- ===== src/BoundedGraph/Sound.antt =====
-- What the response of the bounded call graph holds.
use know_your_repo.Prelude.{
  ℕ, ◌≡◌, refl, sym, ap, Bool, true, false, ◌&&◌, ◌||◌, List, [], ◌∷◌, ◌++◌, map, Option, some,
  none, if◌then◌else◌, arith, Bool-cases, inl, inr,
}
use mathlib.Core.Path.{subst}
use know_your_repo.Text.{Text, is_empty, same, same_iff, same_refl, is_among}
use know_your_repo.BoundedGraph.{
  CallGraphEdge, Edge, Collected, GraphNode, Response, is_edge_seen, file_path_of, note_path,
  add_node, add_edge, add_callee, add_row, add_rows, build_bounded_graph_response, root_only,
}
use know_your_repo.BoundedGraph.Nodes.{
  Joins, IsGraph, IsGraphOf, IsAdded, OnSome, All-snoc, edge-seen-append, NoDupEdges-append,
  add_node-IsAdded,
}

abbrev edge_of : CallGraphEdge → Edge
edge_of e = (e.caller, e.callee)

-- What a row does: the graph stays one, no edge is lost, an edge comes from the row, and the edge
-- of the row is there if the loop goes on.
abbrev IsStep : CallGraphEdge → List Edge → Collected × Bool → Type 0
IsStep e edges (st', goes_on) =
    IsGraphOf st'
    × ((d : Edge) → is_edge_seen d edges ≡ true → is_edge_seen d st'.edges ≡ true)
    × ((d : Edge)
        → is_edge_seen d st'.edges ≡ true
        → (is_edge_seen d edges || is_edge_seen d (edge_of e ∷ [])) ≡ true)
    × (goes_on ≡ true → is_edge_seen (edge_of e) st'.edges ≡ true)

module _ (e : CallGraphEdge) (st : Collected) where
  stay : IsGraphOf st → IsStep e st.edges (st, false)
  stay h = (h, (λ d s. s), (λ d s. ground arith), λ k. cc)

  add_new-IsStep :
      IsGraphOf st
      → Joins st.nodes (edge_of e)
      → is_edge_seen (edge_of e) st.edges ≡ false
      → IsStep e st.edges (record st { edges = st.edges ++ edge_of e ∷ [] }, true)
  unfolding is_edge_seen
  add_new-IsStep (few, once, edges_once, joins) j fresh = (
    (
      few,
      once,
      NoDupEdges-append (edge_of e) st.edges fresh edges_once,
      All-snoc (Joins st.nodes) st.edges joins j,
    ),
    (λ d s. ground (arith, edge-seen-append d st.edges (edge_of e ∷ []))),
    (λ d s. ground (arith, edge-seen-append d st.edges (edge_of e ∷ []))),
    λ k. ground (
      arith,
      edge-seen-append (edge_of e) st.edges (edge_of e ∷ []),
      same_refl e.caller,
      same_refl e.callee,
    ),
  )

  add_edge-IsStep :
      IsGraphOf st → Joins st.nodes (edge_of e) → IsStep e st.edges (add_edge e st, true)
  unfolding add_edge
  add_edge-IsStep h j = elim (Bool-cases (is_edge_seen (edge_of e) st.edges)) [
    | inl old ↦ rw old (h, (λ d s. s), (λ d s. ground arith), λ k. old)
    | inr new ↦ rw new (add_new-IsStep h j new)
  ]

module _ (e : CallGraphEdge) where
  callee-IsStep :
      (st : Collected) (added : Option Collected)
      → IsGraphOf st
      → is_among e.caller st.nodes ≡ true
      → OnSome (IsAdded e.callee st) added
      → IsStep e st.edges (elim added [ none ↦ (st, false) | some st' ↦ (add_edge e st', true) ])
  callee-IsStep st none h caller a = stay e st h
  callee-IsStep st (some st') h caller (same_edges, callee, kept, h') =
      subst (λ edges. IsStep e edges (add_edge e st', true)) same_edges
        (add_edge-IsStep e st' h' (kept e.caller caller, callee))

  add_callee-IsStep :
      (st : Collected)
      → IsGraphOf st
      → is_among e.caller st.nodes ≡ true
      → IsStep e st.edges (add_callee e st)
  unfolding add_callee
  add_callee-IsStep st h caller =
      callee-IsStep st (add_node e.callee [] st) h caller (add_node-IsAdded e.callee [] st h)

  caller-IsStep :
      (st : Collected) (added : Option Collected)
      → IsGraphOf st
      → OnSome (IsAdded e.caller st) added
      → IsStep e st.edges (elim added [ none ↦ (st, false) | some st' ↦ add_callee e st' ])
  caller-IsStep st none h a = stay e st h
  caller-IsStep st (some st') h (same_edges, caller, kept, h') =
      subst (λ edges. IsStep e edges (add_callee e st')) same_edges
        (add_callee-IsStep st' h' caller)

  add_row-IsStep : (st : Collected) → IsGraphOf st → IsStep e st.edges (add_row e st)
  unfolding add_row
  add_row-IsStep st h =
      caller-IsStep st (add_node e.caller e.caller_file_path st) h
        (add_node-IsAdded e.caller e.caller_file_path st h)

seen-same :
    (a b : Edge) (es : List Edge)
    → (same a.0 b.0 && same a.1 b.1) ≡ true
    → is_edge_seen a es ≡ true
    → is_edge_seen b es ≡ true
seen-same (a, b) (c, d) es e s =
    subst (λ x. is_edge_seen (x, d) es ≡ true) (ground (arith, same_iff a c))
      (subst (λ y. is_edge_seen (a, y) es ≡ true) (ground (arith, same_iff b d)) s)

abbrev pub edges_of : List CallGraphEdge → List Edge
edges_of rows = map edge_of rows

-- What a run over rows does: the same, for all rows.
abbrev IsRun : List CallGraphEdge → List Edge → Collected × Bool → Type 0
IsRun rows edges (st', finished) =
    IsGraphOf st'
    × ((d : Edge)
        → is_edge_seen d st'.edges ≡ true
        → (is_edge_seen d edges || is_edge_seen d (edges_of rows)) ≡ true)
    × ((d : Edge) → is_edge_seen d edges ≡ true → is_edge_seen d st'.edges ≡ true)
    × (finished ≡ true
        → (d : Edge) → is_edge_seen d (edges_of rows) ≡ true
        → is_edge_seen d st'.edges ≡ true)

module _ (e : CallGraphEdge) (rows : List CallGraphEdge) (edges : List Edge) where
  step-IsRun :
      (st : Collected) (goes_on : Bool) (rest : Collected × Bool)
      → IsStep e edges (st, goes_on)
      → IsRun rows st.edges rest
      → IsRun (e ∷ rows) edges (if goes_on then rest else (st, false))
  unfolding is_edge_seen
  step-IsRun st false rest (h, kept, from, here) run =
      (h, (λ d s. ground (arith, from d)), kept, λ k. cc)
  step-IsRun st true (st', finished) (h, kept, from, here) (h', from', kept', all) = (
    h',
    (λ d s. ground (arith, from d, from' d)),
    (λ d s. kept' d (kept d s)),
    λ k d s. elim (Bool-cases (same e.caller d.0 && same e.callee d.1)) [
      | inl own ↦ kept' d (seen-same (edge_of e) d st.edges own (here refl))
      | inr other ↦ all k d (ground arith)
    ],
  )

add_rows-IsRun :
    (rows : List CallGraphEdge) (st : Collected)
    → IsGraphOf st
    → IsRun rows st.edges (add_rows rows st)
unfolding add_rows is_edge_seen
add_rows-IsRun [] st h = (h, (λ d s. ground arith), (λ d s. s), λ k d s. cc)
add_rows-IsRun (e ∷ rows) st h =
    step-IsRun e rows st.edges (add_row e st).0 (add_row e st).1 (add_rows rows (add_row e st).0)
      (add_row-IsStep e st h) (add_rows-IsRun rows (add_row e st).0 (add_row-IsStep e st h).0)

map-symbol :
    (f : Text → Text) (names : List Text)
    → map (λ (n : GraphNode). n.symbol) (map (λ s. record { symbol = s; file_path = f s }) names)
      ≡ names
map-symbol f [] = refl
map-symbol f (s ∷ ss) = ap (λ r. s ∷ r) (map-symbol f ss)

root-IsGraph : (root : Text) → IsGraphOf (root_only root)
unfolding root_only add_node is_among note_path is_empty
root-IsGraph root = (omega arith, (refl, _), _, _)

root-edges : (root : Text) → (root_only root).edges ≡ []
unfolding root_only add_node is_among note_path is_empty
root-edges root = refl

whole-IsRun :
    (root : Text) (rows : List CallGraphEdge) → IsRun rows [] (add_rows rows (root_only root))
whole-IsRun root rows =
    subst (λ edges. IsRun rows edges (add_rows rows (root_only root))) (root-edges root)
      (add_rows-IsRun rows (root_only root) (root-IsGraph root))

module _ (repo root : Text) (depth : ℕ) (rows : List CallGraphEdge) where
  abbrev response : Response
  response = build_bounded_graph_response repo root depth rows

  -- The response is a graph within the cap: at most 150 nodes, no node and no edge twice, and both ends
  -- of each edge among the nodes.
  pub build-IsGraph : IsGraph (map (λ (n : GraphNode). n.symbol) response.nodes) response.edges
  unfolding build_bounded_graph_response
  build-IsGraph =
      subst (λ names. IsGraph names response.edges)
        (sym (
          map-symbol (λ s. file_path_of s (add_rows rows (root_only root)).0.node_file_path)
            (add_rows rows (root_only root)).0.nodes))
        (whole-IsRun root rows).0

  -- Each edge of the response is that of a row.
  pub build-from_rows :
      (d : Edge) → is_edge_seen d response.edges ≡ true → is_edge_seen d (edges_of rows) ≡ true
  unfolding build_bounded_graph_response is_edge_seen
  build-from_rows = (whole-IsRun root rows).1

  finished : response.truncated ≡ false → (add_rows rows (root_only root)).1 ≡ true
  unfolding build_bounded_graph_response
  finished whole = ground arith

  -- Where the response does not say that it is truncated, it has an edge for every row.
  pub build_complete :
      response.truncated ≡ false
      → (d : Edge) → is_edge_seen d (edges_of rows) ≡ true
      → is_edge_seen d response.edges ≡ true
  unfolding build_bounded_graph_response
  build_complete whole = (whole-IsRun root rows).3 (finished whole)

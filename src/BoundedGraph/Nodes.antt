-- ===== src/BoundedGraph/Nodes.antt =====
-- What addNode and addEdge keep of the graph that is collected.
use know_your_repo.Prelude.{
  ◌+◌, ◌≤◌, ◌≡◌, refl, true, false, not, ◌&&◌, ◌||◌, List, [], ◌∷◌, ◌++◌, map, Option, some, none,
  length, leb, arith, All, All-mono, length-append, Bool-cases, inl, inr,
}
use know_your_repo.Text.{
  Text, is_empty, same_iff, same_refl, is_among, is_among-append, IsDistinct, IsDistinct-append,
}
use know_your_repo.BoundedGraph.{
  Edge, Collected, max_graph_nodes, is_edge_seen, note_path, add_node,
}

-- No name twice.
abbrev pub NoDupEdges : List Edge → Type 0
NoDupEdges [] = Unit
NoDupEdges (e ∷ es) = (is_edge_seen e es ≡ false) × NoDupEdges es

-- Both ends of an edge are among the names.
abbrev pub Joins : List Text → Edge → Type 0
Joins names e = (is_among e.0 names ≡ true) × (is_among e.1 names ≡ true)

-- A graph within the cap, with no node and no edge twice, whose edges join its nodes.
abbrev pub IsGraph : List Text → List Edge → Type 0
IsGraph names edges =
    (length names ≤ max_graph_nodes) × IsDistinct names × NoDupEdges edges × All (Joins names) edges

pub edge-seen-append :
    (e : Edge) (xs ys : List Edge)
    → is_edge_seen e (xs ++ ys) ≡ (is_edge_seen e xs || is_edge_seen e ys)
unfolding is_edge_seen
edge-seen-append e [] ys = refl
edge-seen-append e (x ∷ xs) ys = ground (arith, edge-seen-append e xs ys)

pub NoDupEdges-append :
    (e : Edge) (xs : List Edge)
    → is_edge_seen e xs ≡ false
    → NoDupEdges xs
    → NoDupEdges (xs ++ e ∷ [])
unfolding is_edge_seen
NoDupEdges-append e [] fresh h = (refl, _)
NoDupEdges-append e (x ∷ xs) fresh (first, rest) = (
  ground (
    arith,
    edge-seen-append x xs (e ∷ []),
    same_iff x.0 e.0,
    same_iff e.0 x.0,
    same_iff x.1 e.1,
    same_iff e.1 x.1,
  ),
  NoDupEdges-append e xs (ground arith) rest,
)

Joins-append : (xs : List Text) (s : Text) (e : Edge) → Joins xs e → Joins (xs ++ s ∷ []) e
Joins-append xs s e (a, b) = (
  ground (arith, is_among-append e.0 xs (s ∷ [])),
  ground (arith, is_among-append e.1 xs (s ∷ [])),
)

pub All-snoc {ℓ κ} :
    {A : Type ℓ} (P : A → Type κ) (xs : List A) {x : A} → All P xs → P x → All P (xs ++ x ∷ [])
All-snoc P [] h p = (p, _)
All-snoc P (y ∷ ys) (first, rest) p = (first, All-snoc P ys rest p)

note-nodes : (s path : Text) (st : Collected) → (note_path s path st).nodes ≡ st.nodes
unfolding note_path
note-nodes s path st =
    elim (Bool-cases (not (is_empty path) && not (is_among s (map (λ p. p.0) st.node_file_path)))) [
      | inl e ↦ rw e
      | inr n ↦ rw n
    ]

note-edges : (s path : Text) (st : Collected) → (note_path s path st).edges ≡ st.edges
unfolding note_path
note-edges s path st =
    elim (Bool-cases (not (is_empty path) && not (is_among s (map (λ p. p.0) st.node_file_path)))) [
      | inl e ↦ rw e
      | inr n ↦ rw n
    ]

abbrev pub IsGraphOf : Collected → Type 0
IsGraphOf st = IsGraph st.nodes st.edges

-- What addNode makes of a graph, when it returns true.
abbrev pub IsAdded : Text → Collected → Collected → Type 0
IsAdded s st st' =
    (st'.edges ≡ st.edges)
    × (is_among s st'.nodes ≡ true)
    × ((t : Text) → is_among t st.nodes ≡ true → is_among t st'.nodes ≡ true)
    × IsGraphOf st'

abbrev pub OnSome {ℓ κ} : {A : Type ℓ} → (A → Type κ) → Option A → Type κ
OnSome P none = Unit
OnSome P (some x) = P x

note-IsAdded :
    (s path : Text) (st st' : Collected) → IsAdded s st st' → IsAdded s st (note_path s path st')
note-IsAdded s path st st' h = rw (note-nodes s path st', note-edges s path st') h

new-IsAdded :
    (s : Text) (st : Collected)
    → is_among s st.nodes ≡ false
    → length st.nodes + 1 ≤ max_graph_nodes
    → IsGraphOf st
    → IsAdded s st (record st { nodes = st.nodes ++ s ∷ [] })
unfolding is_among
new-IsAdded s st fresh room (few, once, edges_once, joins) = (
  refl,
  ground (arith, is_among-append s st.nodes (s ∷ []), same_refl s),
  λ t h. ground (arith, is_among-append t st.nodes (s ∷ [])),
  (
    ground (arith, length-append st.nodes (s ∷ [])),
    IsDistinct-append s st.nodes fresh once,
    edges_once,
    All-mono (Joins st.nodes) (Joins (st.nodes ++ s ∷ [])) st.edges
        (λ e j. Joins-append st.nodes s e j) joins,
  ),
)

pub add_node-IsAdded :
    (s path : Text) (st : Collected) → IsGraphOf st → OnSome (IsAdded s st) (add_node s path st)
unfolding add_node
add_node-IsAdded s path st h = elim (Bool-cases (is_among s st.nodes)) [
  | inl old ↦ rw old (note-IsAdded s path st st (refl, old, (λ t k. k), h))
  | inr new ↦ elim (Bool-cases (leb max_graph_nodes (length st.nodes))) [
    | inl full ↦ rw (new, full) _
    | inr room ↦ rw (new, room) (note-IsAdded s path st _ (new-IsAdded s st new (ground arith) h))
  ]
]

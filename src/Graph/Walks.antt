-- ===== src/Graph/Walks.antt =====
-- src/components/JB_Graph/JB_Graph.c: the children, parents and neighbours of a vertex, the
-- iterators, and the functions that walk over a graph.
use junction_box.Base.{
  ℕ, zero, suc, true, List, [], ◌∷◌, if◌then◌else◌, Option, none, some, Outcome, ok, fault, ◌>>=◌,
}
use junction_box.CString.{Text}
use junction_box.AssocMap.StringMap.{StringMap}
use junction_box.Graph.{
  Graph, contents, map_get_first, map_get_next, vertex_at, get_label, get_src_sink, get_tail,
  get_head, create, get_fst_vertex, get_nxt_vertex, get_edge, add_vertex, add_edge,
}

module _ {A B : Type 0} where
  -- The head or the tail of an edge that may be NULL.
  abbrev pub head_of : Graph A B → Option ℕ → Outcome (Option ℕ)
  head_of g none = ok none
  head_of g (some e) = get_head g e >>= λ v. ok (some v)

  abbrev pub tail_of : Graph A B → Option ℕ → Outcome (Option ℕ)
  tail_of g none = ok none
  tail_of g (some e) = get_tail g e >>= λ v. ok (some v)

  -- `EdgeMap_GetNext(edges, tmp)`; `tmp` is dereferenced, NULL or not.
  abbrev pub next_edge : Graph A B → StringMap ℕ → Option ℕ → Outcome (Option ℕ)
  next_edge g edges none = fault
  next_edge g edges (some tmp) = get_src_sink g tmp >>= map_get_next edges

  unfoldable pub get_fst_child : Graph A B → ℕ → Outcome (Option ℕ)
  get_fst_child g v =
      if g.directed then (vertex_at g v >>= λ x. head_of g (map_get_first x.outedges)) else ok none

  unfoldable pub get_nxt_child : Graph A B → ℕ → ℕ → Outcome (Option ℕ)
  unfolding get_edge map_get_next
  get_nxt_child g v last =
      let child = (do
        tmp ← get_edge g v last
        x ← vertex_at g v
        nxt ← next_edge g x.outedges tmp
        head_of g nxt) in
      if g.directed then child else ok none

  unfoldable pub get_fst_parent : Graph A B → ℕ → Outcome (Option ℕ)
  get_fst_parent g v = vertex_at g v >>= λ x. tail_of g (map_get_first x.inedges)

  unfoldable pub get_nxt_parent : Graph A B → ℕ → ℕ → Outcome (Option ℕ)
  unfolding get_edge map_get_next
  get_nxt_parent g v last = do
    tmp ← get_edge g last v
    x ← vertex_at g v
    nxt ← next_edge g x.inedges tmp
    tail_of g nxt

-- The iterators hold the rest of a chain; `Advance` is called for its effect and its result.
pub record NeighborItr : Type 0 where
  pub cur_out : List (Text × ℕ)
  pub cur_in : List (Text × ℕ)

-- `VertexItr` and `EdgeItr`
abbrev pub MapItr : Type 0
MapItr = List (Text × ℕ)

abbrev pub map_itr_advance : MapItr → MapItr
map_itr_advance [] = []
map_itr_advance (me ∷ next) = next

-- The choice of the chain that `GetCurrent` and `GetCurrentEdge` make.
abbrev pub get_current_edge : NeighborItr → Option ℕ
get_current_edge this = elim this.cur_in [ [] ↦ contents this.cur_out | (_, e) ∷ _ ↦ some e ]

-- `NeighborItr_Advance`: the iterator behind its current edge. What it returns is `get_current`
-- of the result.
abbrev pub advance : NeighborItr → NeighborItr
advance this = elim this.cur_in [
  | [] ↦ record this { cur_out = map_itr_advance this.cur_out }
  | _ ∷ next ↦ record this { cur_in = next }
]

module _ {A B : Type 0} where
  unfoldable pub get_neighbor_itr : Graph A B → ℕ → Outcome NeighborItr
  get_neighbor_itr g v =
      vertex_at g v >>= λ x. ok (record { cur_out = x.outedges.first; cur_in = x.inedges.first })

  unfoldable pub get_current : Graph A B → NeighborItr → Outcome (Option ℕ)
  get_current g this = elim this.cur_in [
    | [] ↦ head_of g (contents this.cur_out)
    | (_, e) ∷ _ ↦ tail_of g (some e)
  ]

  abbrev pub get_vertex_itr : Graph A B → MapItr
  get_vertex_itr g = g.vertices.first

  abbrev pub get_edge_itr : Graph A B → MapItr
  get_edge_itr g = g.edges.first

-- The walks. Each has fuel for the `while` over a chain, and faults without it.
module _ {A B S : Type 0} where
  -- `for (cur = Graph_GetFstVertex(g); cur != NULL; cur = Graph_GetNxtVertex(g, cur)) …`
  unfoldable pub for_vertices : (S → ℕ → Outcome S) → ℕ → Graph A B → Option ℕ → S → Outcome S
  for_vertices step fuel g none s = ok s
  for_vertices step zero g (some cur) s = fault
  for_vertices step (suc fuel) g (some cur) s = do
    s' ← step s cur
    nxt ← get_nxt_vertex g cur
    for_vertices step fuel g nxt s'

  -- `for (p = Graph_GetFstParent(g, v); p != NULL; p = Graph_GetNxtParent(g, v, p)) …`
  unfoldable pub for_parents : (S → ℕ → Outcome S) → ℕ → Graph A B → ℕ → Option ℕ → S → Outcome S
  for_parents step fuel g v none s = ok s
  for_parents step zero g v (some cur) s = fault
  for_parents step (suc fuel) g v (some cur) s = do
    s' ← step s cur
    nxt ← get_nxt_parent g v cur
    for_parents step fuel g v nxt s'

module _ {A B : Type 0} (blank : A) (blank_edge : B) where
  -- The body of the inner loop of `Graph_Copy`.
  unfoldable pub copy_parent : Graph A B → ℕ → Graph A B → ℕ → Outcome (Graph A B)
  copy_parent this cur_f fresh cur_parent = do
    label ← get_label this cur_parent
    (fresh₁, cur_parent_f) ← add_vertex blank fresh label
    (fresh₂, _) ← add_edge blank_edge fresh₁ cur_parent_f cur_f
    ok fresh₂

  unfoldable pub copy_vertex : ℕ → Graph A B → Graph A B → ℕ → Outcome (Graph A B)
  unfolding copy_parent for_parents
  copy_vertex fuel this fresh cur = do
    label ← get_label this cur
    (fresh₁, cur_f) ← add_vertex blank fresh label
    fst ← get_fst_parent this cur
    for_parents (copy_parent this cur_f) fuel this cur fst fresh₁

  -- `Graph_Copy`
  unfoldable pub copy : ℕ → Graph A B → Outcome (Graph A B)
  unfolding copy_vertex for_vertices
  copy fuel this = do
    fresh ←
        for_vertices (copy_vertex fuel this) fuel this (get_fst_vertex this)
          (create this.name this.directed)
    ok (record fresh { graph_dirty = true })

-- `Graph_AddEdge` on pointers that may be NULL, which it dereferences.
abbrev pub add_edge_ptr :
    {A B : Type 0} → B → Graph A B → Option ℕ → Option ℕ → Outcome (Graph A B × ℕ)
add_edge_ptr blank g none sink = fault
add_edge_ptr blank g (some src) none = fault
add_edge_ptr blank g (some src) (some sink) = add_edge blank g src sink

module _ {A B : Type 0} (blank_edge : B) where
  -- The inner loop of `Graph_ConnectAll`.
  unfoldable pub connect_rest : Graph A B → Option ℕ → List (Option ℕ) → Outcome (Graph A B)
  connect_rest g nb₁ [] = ok g
  connect_rest g nb₁ (nb₂ ∷ nodes) = do
    (g₁, _) ← add_edge_ptr blank_edge g nb₁ nb₂
    (g₂, _) ← add_edge_ptr blank_edge g₁ nb₂ nb₁
    connect_rest g₂ nb₁ nodes

  -- `Graph_ConnectAll`: every vertex of the list with every one behind it, in both directions.
  unfoldable pub connect_all : Graph A B → List (Option ℕ) → Outcome (Graph A B)
  unfolding connect_rest
  connect_all g [] = ok g
  connect_all g (nb₁ ∷ nodes) = connect_rest g nb₁ nodes >>= λ g'. connect_all g' nodes

module _ {A B S : Type 0} where
  -- `for (n = GetCurrent(itr); n != NULL; n = Advance(itr)) …`, with fuel.
  unfoldable pub for_neighbors : (S → ℕ → Outcome S) → ℕ → Graph A B → NeighborItr → S → Outcome S
  unfolding get_current
  for_neighbors step zero g itr s = fault
  for_neighbors step (suc fuel) g itr s = do
    current ← get_current g itr
    elim current [
      | none ↦ ok s
      | some n ↦ (step s n >>= λ s'. for_neighbors step fuel g (advance itr) s')
    ]

-- ===== src/Graph.antt =====
-- src/components/JB_Graph/JB_Graph.c: graphs of labelled vertices.
--
-- A graph owns its vertices and edges: a `Vertex *` or `Edge *` is a position in the store of its
-- graph, where new ones come at the end, and NULL is `none`. The fields that other parts hang on a
-- vertex or an edge (`elim_set`, `variable`, `pot` and the memos) are its `annotation`; what a new
-- one holds there is a parameter. Lists are finite lists, by the theorems of LinkedList.
pub mod Printers
pub mod Walks
pub mod Incident
pub mod Valid
pub mod Grown
pub mod Vertices
pub mod Edges
pub mod Woven
pub mod Connect
pub mod Chains
pub mod Parts
pub mod CopiedEdges
pub mod Copies
use junction_box.Base.{
  ℕ, zero, suc, ◌+◌, Bool, true, false, List, [], ◌∷◌, ◌++◌, if◌then◌else◌, Option, none, some,
  length, set, Outcome, ok, ◌>>=◌, read, write, deref,
}
use junction_box.CString.{Text, strcat_lk}
use junction_box.AssocMap.{get_first_element}
use junction_box.AssocMap.StringMap
use junction_box.AssocMap.StringMap.{StringMap}

-- The label of an edge: those of its ends, and a space between.
abbrev pub key : Text → Text → Text
key src sink = src ++ 32 ∷ sink

-- `srcsink`, which makes the text in a new block.
unfoldable pub srcsink : (ℕ → List ℕ) → Text → Text → Outcome (List ℕ)
unfolding strcat_lk
srcsink fresh src sink = strcat_lk fresh src sink (32 ∷ [])

pub record Vertex (A : Type 0) : Type 0 where
  pub label : Text
  pub outedges : StringMap ℕ
  pub inedges : StringMap ℕ
  pub annotation : A

pub record Edge (B : Type 0) : Type 0 where
  pub src_sink : Text
  pub src : ℕ
  pub sink : ℕ
  pub annotation : B

pub record Graph (A B : Type 0) : Type 0 where
  pub graph_dirty : Bool
  pub directed : Bool
  pub name : Text
  pub vertices : StringMap ℕ
  pub edges : StringMap ℕ
  pub vertex_store : List (Vertex A)
  pub edge_store : List (Edge B)

-- What a pointer to an element of a map gives.
abbrev pub contents : List (Text × ℕ) → Option ℕ
contents [] = none
contents ((id, a) ∷ next) = some a

abbrev pub next_contents : List (Text × ℕ) → Option ℕ
next_contents [] = none
next_contents (me ∷ next) = contents next

-- `VertexMap_Get` and `EdgeMap_Get`
unfoldable pub map_get : StringMap ℕ → Text → Outcome (Option ℕ)
unfolding StringMap.get
map_get this id = StringMap.get this id >>= λ me. ok (contents me)

-- `VertexMap_GetFirst` and `EdgeMap_GetFirst`
abbrev pub map_get_first : StringMap ℕ → Option ℕ
map_get_first this = contents (get_first_element this)

-- `VertexMap_GetNext` and `EdgeMap_GetNext`, for an object with the given key.
unfoldable pub map_get_next : StringMap ℕ → Text → Outcome (Option ℕ)
unfolding StringMap.get
map_get_next this id = StringMap.get this id >>= λ me. ok (next_contents me)

module _ {A B : Type 0} where
  abbrev pub vertex_at : Graph A B → ℕ → Outcome (Vertex A)
  vertex_at g v = read g.vertex_store v

  abbrev pub edge_at : Graph A B → ℕ → Outcome (Edge B)
  edge_at g e = read g.edge_store e

  abbrev pub get_label : Graph A B → ℕ → Outcome Text
  get_label g v = vertex_at g v >>= λ x. ok x.label

  abbrev pub get_src_sink : Graph A B → ℕ → Outcome Text
  get_src_sink g e = edge_at g e >>= λ x. ok x.src_sink

  -- `Edge_GetTail` and `Edge_GetHead`
  abbrev pub get_tail : Graph A B → ℕ → Outcome ℕ
  get_tail g e = edge_at g e >>= λ x. ok x.src

  abbrev pub get_head : Graph A B → ℕ → Outcome ℕ
  get_head g e = edge_at g e >>= λ x. ok x.sink

  -- `Vertex_SetElimSet` and `Edge_SetElimSet`, and every other change of such a field.
  unfoldable pub annotate_vertex : Graph A B → ℕ → (A → A) → Outcome (Graph A B)
  annotate_vertex g v f = do
    x ← vertex_at g v
    vertex_store ← write g.vertex_store v (record x { annotation = f x.annotation })
    ok (record g { vertex_store = vertex_store })

  unfoldable pub annotate_edge : Graph A B → ℕ → (B → B) → Outcome (Graph A B)
  annotate_edge g e f = do
    x ← edge_at g e
    edge_store ← write g.edge_store e (record x { annotation = f x.annotation })
    ok (record g { edge_store = edge_store })

  -- `Graph_Create`, with `Graph_common_init`
  abbrev pub create : Text → Bool → Graph A B
  create name directed = record {
    graph_dirty = true;
    directed = directed;
    name = name;
    vertices = StringMap.create;
    edges = StringMap.create;
    vertex_store = [];
    edge_store = [];
  }

  abbrev pub set_directed : Graph A B → Bool → Graph A B
  set_directed this setting = record this { directed = setting }

  abbrev pub get_num_vertices : Graph A B → ℕ
  get_num_vertices this = StringMap.size this.vertices

  abbrev pub get_num_edges : Graph A B → ℕ
  get_num_edges this = StringMap.size this.edges

  abbrev pub get_fst_vertex : Graph A B → Option ℕ
  get_fst_vertex g = map_get_first g.vertices

  unfoldable pub get_nxt_vertex : Graph A B → ℕ → Outcome (Option ℕ)
  unfolding map_get_next
  get_nxt_vertex g v = get_label g v >>= map_get_next g.vertices

  abbrev pub get_fst_edge : Graph A B → Option ℕ
  get_fst_edge g = map_get_first g.edges

  unfoldable pub get_nxt_edge : Graph A B → ℕ → Outcome (Option ℕ)
  unfolding map_get_next
  get_nxt_edge g e = get_src_sink g e >>= map_get_next g.edges

  -- `Graph_GetVertex`
  unfoldable pub get_vertex : Graph A B → Text → Outcome (Option ℕ)
  unfolding map_get
  get_vertex g name = map_get g.vertices name

  unfoldable pub get_edge : Graph A B → ℕ → ℕ → Outcome (Option ℕ)
  unfolding map_get
  get_edge g src sink = do
    src_label ← get_label g src
    sink_label ← get_label g sink
    map_get g.edges (key src_label sink_label)

  -- `Vertex_Create`: the graph with the new vertex in its store, and its place.
  abbrev pub vertex_create : A → Graph A B → Text → Graph A B × ℕ
  vertex_create blank g name = (
    record g {
      vertex_store =
          g.vertex_store
          ++ record {
            label = name;
            outedges = StringMap.create;
            inedges = StringMap.create;
            annotation = blank;
          }
            ∷ [];
    },
    length g.vertex_store,
  )

  abbrev pub found_or_new : A → Graph A B → Text → Option ℕ → Graph A B × ℕ
  found_or_new blank g name none = vertex_create blank g name
  found_or_new blank g name (some v) = (g, v)

  -- `VertexMap_Add` on the vertices of the graph
  unfoldable pub register_vertex : Graph A B → ℕ → Outcome (Graph A B)
  unfolding StringMap.add
  register_vertex g v = do
    label ← get_label g v
    vertices ← StringMap.add g.vertices label v
    ok (record g { vertices = vertices })

  -- `Graph_AddVertex`: the new graph, and the vertex with the name.
  unfoldable pub add_vertex : A → Graph A B → Text → Outcome (Graph A B × ℕ)
  add_vertex blank g name = do
    found ← map_get g.vertices name
    let (g', ret) = found_or_new blank g name found
    g'' ← register_vertex (record g' { graph_dirty = true }) ret
    ok (g'', ret)

  -- `EdgeMap_Add(src->outedges, ret)` and `EdgeMap_Add(sink->inedges, ret)`
  unfoldable pub add_outedge : Graph A B → ℕ → Text → ℕ → Outcome (Graph A B)
  unfolding StringMap.add
  add_outedge g src id e = do
    x ← vertex_at g src
    outedges ← StringMap.add x.outedges id e
    vertex_store ← write g.vertex_store src (record x { outedges = outedges })
    ok (record g { vertex_store = vertex_store })

  unfoldable pub add_inedge : Graph A B → ℕ → Text → ℕ → Outcome (Graph A B)
  unfolding StringMap.add
  add_inedge g sink id e = do
    x ← vertex_at g sink
    inedges ← StringMap.add x.inedges id e
    vertex_store ← write g.vertex_store sink (record x { inedges = inedges })
    ok (record g { vertex_store = vertex_store })

  -- `Edge_Create`: the graph with the new edge in its store.
  unfoldable pub edge_create : B → Graph A B → ℕ → ℕ → Outcome (Graph A B × Edge B)
  edge_create blank g src sink = do
    src_label ← get_label g src
    sink_label ← get_label g sink
    let e : Edge B = record {
      src_sink = key src_label sink_label;
      src = src;
      sink = sink;
      annotation = blank;
    }
    ok (record g { edge_store = g.edge_store ++ e ∷ [] }, e)

  -- The part of `Graph_AddEdge` for an edge that is not there.
  unfoldable pub connect : B → Graph A B → ℕ → ℕ → Outcome (Graph A B × ℕ)
  unfolding StringMap.add
  connect blank g src sink = do
    (g₁, e) ← edge_create blank (record g { graph_dirty = true }) src sink
    edges ← StringMap.add g₁.edges e.src_sink (length g.edge_store)
    g₂ ← add_outedge (record g₁ { edges = edges }) src e.src_sink (length g.edge_store)
    g₃ ← add_inedge g₂ sink e.src_sink (length g.edge_store)
    ok (g₃, length g.edge_store)

  unfoldable pub add_edge : B → Graph A B → ℕ → ℕ → Outcome (Graph A B × ℕ)
  add_edge blank g src sink = do
    found ← get_edge g src sink
    elim found [ none ↦ connect blank g src sink | some e ↦ ok (g, e) ]

  -- `Vertex_Totdegree` and `Graph_VertexTotdegree`
  abbrev pub vertex_totdegree : Graph A B → ℕ → Outcome ℕ
  vertex_totdegree g v =
      vertex_at g v >>= λ x. ok (StringMap.size x.outedges + StringMap.size x.inedges)

  -- `Graph_VertexIndegree` and `Graph_VertexOutdegree`
  unfoldable pub vertex_indegree : Graph A B → ℕ → Outcome ℕ
  vertex_indegree g v = vertex_at g v >>= λ x. ok (StringMap.size x.outedges)

  unfoldable pub vertex_outdegree : Graph A B → ℕ → Outcome ℕ
  vertex_outdegree g v = vertex_at g v >>= λ x. ok (StringMap.size x.inedges)

-- ===== src/Graph/Vertices.antt =====
-- What `Graph_AddVertex` does.
use junction_box.Base.{
  ℕ, ◌+◌, true, ◌≡◌, refl, sym, ap, ◌∙◌, if◌then◌else◌, Option, none, some, length, get_elem?,
  Outcome, ok,
}
use junction_box.CString.{Text, text_eq}
use junction_box.LinkedList.Chain.{get_elem?-append_new}
use junction_box.AssocMap.StringMap.{StringMap}
use junction_box.AssocMap.Laws.{IsMap, or_else, absent, add-IsAdded}
use junction_box.AssocMap.Keys.{text_keys}
use junction_box.Graph.{Graph, Vertex, vertex_create, register_vertex, add_vertex}
use junction_box.Graph.Valid.{find, map_get_lem, IsGraph}
use junction_box.Graph.Grown.{
  get_elem?-grown, if_found, new_vertex, with_vertices, grown, grown-IsGraph,
}

module _ {A B : Type 0} where
  register_vertex_lem :
      (g : Graph A B) (v : ℕ) (x : Vertex A)
      → IsMap text_keys g.vertices
      → get_elem? g.vertex_store v ≡ some x
      → (m : StringMap ℕ) × (register_vertex (record g { graph_dirty = true }) v
          ≡ ok (with_vertices g m))
        × IsMap text_keys m
        × (m.size ≡ g.vertices.size + absent (find x.label g.vertices))
        × ((j : Text)
            → find j m ≡ (
                if text_eq x.label j
                then some (or_else (find x.label g.vertices) v)
                else find j g.vertices))
  unfolding register_vertex
  register_vertex_lem g v x h at =
      let a = add-IsAdded text_keys g.vertices x.label v h tt in
      (a.result, rw (at, a.returns), a.valid, a.grows, a.holds)

  -- What adding a vertex makes of a graph.
  pub record IsVertexAdded (g : Graph A B) (name : Text) (r : Outcome (Graph A B × ℕ))
      : Type 0 where
    pub graph : Graph A B
    pub vertex : ℕ
    pub returns : r ≡ ok (graph, vertex)
    pub valid : IsGraph graph
    pub grows : graph.vertices.size ≡ g.vertices.size + absent (find name g.vertices)
    pub found :
        (j : Text)
        → find j graph.vertices ≡ (if text_eq name j then some vertex else find j g.vertices)
    pub kept :
        (v : ℕ) (x : Vertex A)
        → get_elem? g.vertex_store v ≡ some x
        → get_elem? graph.vertex_store v ≡ some x
    pub edges : graph.edges ≡ g.edges
    pub edge_store : graph.edge_store ≡ g.edge_store
    pub directed : graph.directed ≡ g.directed

  refound :
      (g : Graph A B) (m : StringMap ℕ)
      → IsGraph g
      → IsMap text_keys m
      → ((j : Text) → find j m ≡ find j g.vertices)
      → IsGraph (with_vertices g m)
  refound g m h k same = record {
    vertex_map = k;
    edge_map = h.edge_map;
    registered = λ v x at. same x.label ∙ h.registered v x at;
    vertex_there = λ l v at. h.vertex_there l v (sym (same l) ∙ at);
    edge_there = h.edge_there;
    outgoing = h.outgoing;
    incoming = h.incoming;
  }

  add_old :
      (blank : A) (g : Graph A B) (name : Text) (v : ℕ) (x : Vertex A)
      → IsGraph g
      → find name g.vertices ≡ some v
      → get_elem? g.vertex_store v ≡ some x
      → x.label ≡ name
      → IsVertexAdded g name (add_vertex blank g name)
  unfolding add_vertex
  add_old blank g name v x h f at l =
      let (m, returns, valid, grows, holds) = register_vertex_lem g v x h.vertex_map at in
      let found : (j : Text) → find j m ≡ (if text_eq name j then some v else find j g.vertices) =
        λ j.
          holds j
          ∙ ap
              (λ (t : Text).
                if text_eq t j then some (or_else (find t g.vertices) v) else find j g.vertices)
              l
          ∙ ap (λ (o : Option ℕ). if text_eq name j then some (or_else o v) else find j g.vertices)
              f in
      let same : (j : Text) → find j m ≡ find j g.vertices =
        λ j. found j ∙ if_found name j v g.vertices f in
      record {
        graph = with_vertices g m;
        vertex = v;
        returns = rw (map_get_lem g.vertices name h.vertex_map, f, returns);
        valid = refound g m h valid same;
        grows = grows ∙ ap (λ (t : Text). g.vertices.size + absent (find t g.vertices)) l;
        found = found;
        kept = λ u y e. e;
        edges = refl;
        edge_store = refl;
        directed = refl;
      }

  add_new :
      (blank : A) (g : Graph A B) (name : Text)
      → IsGraph g
      → find name g.vertices ≡ none
      → IsVertexAdded g name (add_vertex blank g name)
  unfolding add_vertex
  add_new blank g name h f =
      let x = new_vertex blank name in
      let g' = (vertex_create blank g name).0 in
      let (m, returns, valid, grows, holds) =
        register_vertex_lem g' (length g.vertex_store) x h.vertex_map
          (get_elem?-append_new g.vertex_store x) in
      let found : (j : Text)
          → find j m
            ≡ (if text_eq name j then some (length g.vertex_store) else find j g.vertices) =
        λ j.
          holds j
          ∙ ap
              (λ (o : Option ℕ).
                if text_eq name j
                then some (or_else o (length g.vertex_store))
                else find j g.vertices)
              f in
      record {
        graph = grown blank g name m;
        vertex = length g.vertex_store;
        returns = rw (map_get_lem g.vertices name h.vertex_map, f, returns);
        valid = grown-IsGraph blank g name m h f valid found;
        grows = grows;
        found = found;
        kept = λ u y e. get_elem?-grown g.vertex_store x y u e;
        edges = refl;
        edge_store = refl;
        directed = refl;
      }

  added :
      (blank : A) (g : Graph A B) (name : Text) (o : Option ℕ)
      → IsGraph g
      → find name g.vertices ≡ o
      → IsVertexAdded g name (add_vertex blank g name)
  added blank g name none h f = add_new blank g name h f
  added blank g name (some v) h f =
      let (x, at, l) = h.vertex_there name v f in add_old blank g name v x h f at l

  -- `Graph_AddVertex` keeps a well-formed graph well-formed and returns the vertex with the name,
  -- the old one when there is one. No other name gets or loses its vertex, the vertices stay as
  -- they were, with their edges, and the number of vertices grows by one exactly for a new name.
  pub add_vertex_lem :
      (blank : A) (g : Graph A B) (name : Text)
      → IsGraph g
      → IsVertexAdded g name (add_vertex blank g name)
  add_vertex_lem blank g name h = added blank g name (find name g.vertices) h refl

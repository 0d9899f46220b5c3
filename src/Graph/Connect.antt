-- ===== src/Graph/Connect.antt =====
-- `Graph_AddEdge` keeps a graph well-formed.
use junction_box.Base.{
  ℕ, ◌+◌, true, [], ◌∷◌, ◌++◌, ◌≡◌, refl, sym, ap, ◌∙◌, arith, if◌then◌else◌, Option, none, some,
  length, set, get_elem?, Outcome, ok,
}
use mathlib.Core.Path.{subst}
use junction_box.CString.{Text, text_eq}
use junction_box.AssocMap.StringMap.{StringMap}
use junction_box.AssocMap.Laws.{IsMap, or_else, absent, add-IsAdded}
use junction_box.AssocMap.Keys.{text_keys}
use junction_box.Graph.{Graph, Vertex, Edge, key, edge_create, connect, add_edge}
use junction_box.Graph.Valid.{find, IsGraph}
use junction_box.Graph.Grown.{if_found, get_elem?-grown}
use junction_box.Graph.Edges.{SameLabels, SameLabels-self, SameLabels-set, get_edge_lem}
use junction_box.Graph.Woven.{
  add_outedge_lem, add_inedge_lem, same_incoming, result, result-SameLabels, result-IsGraph,
}

-- What adding an edge makes of a graph.
pub record IsEdgeAdded {A B : Type 0} (g : Graph A B) (k : Text) (r : Outcome (Graph A B × ℕ))
    : Type 0 where
  pub graph : Graph A B
  pub edge : ℕ
  pub returns : r ≡ ok (graph, edge)
  pub is : edge ≡ or_else (find k g.edges) (length g.edge_store)
  pub valid : IsGraph graph
  pub grows : graph.edges.size ≡ g.edges.size + absent (find k g.edges)
  pub found : (j : Text) → find j graph.edges ≡ (if text_eq k j then some edge else find j g.edges)
  pub vertices : graph.vertices ≡ g.vertices
  pub kept : SameLabels g.vertex_store graph.vertex_store
  pub kept_edges :
      (e : ℕ) (d : Edge B)
      → get_elem? g.edge_store e ≡ some d
      → get_elem? graph.edge_store e ≡ some d
  pub directed : graph.directed ≡ g.directed

module _ {A B : Type 0} (blank : B) (g : Graph A B) (h : IsGraph g) where
  connect_lem :
      (src sink : ℕ) (x y : Vertex A)
      → get_elem? g.vertex_store src ≡ some x
      → get_elem? g.vertex_store sink ≡ some y
      → find (key x.label y.label) g.edges ≡ none
      → IsEdgeAdded g (key x.label y.label) (connect blank g src sink)
  unfolding connect edge_create
  connect_lem src sink x y at at' f =
      let k = key x.label y.label in
      let d : Edge B = record { src_sink = k; src = src; sink = sink; annotation = blank } in
      let e = length g.edge_store in
      let a = add-IsAdded text_keys g.edges k e h.edge_map tt in
      let found : (j : Text) → find j a.result ≡ (if text_eq k j then some e else find j g.edges) =
        λ j.
          a.holds j
          ∙ ap (λ (q : Option ℕ). if text_eq k j then some (or_else q e) else find j g.edges) f in
      let g₁ : Graph A B = record g {
        graph_dirty = true;
        edges = a.result;
        edge_store = g.edge_store ++ d ∷ [];
      } in
      let (o, out_runs, woven) = add_outedge_lem g₁ src x k e at (h.outgoing src x at).0 in
      let g₂ : Graph A B = record g₁ {
        vertex_store = set g.vertex_store src (record x { outedges = o });
      } in
      let (y₁, at₁, l, n) =
        (SameLabels-set g.vertex_store src x (record x { outedges = o }) at refl refl).forth sink y
          at' in
      let (y₀, at₀, same, l₀) = same_incoming g h d a.result a.valid f found x o at sink y₁ at₁ in
      let map₁ : IsMap text_keys y₁.inedges =
        subst (λ (w : StringMap ℕ). IsMap text_keys w) same (h.incoming sink y₀ at₀).0 in
      let (i, in_runs, woven₁) = add_inedge_lem g₂ sink y₁ k e at₁ map₁ in
      record {
        graph = result g h d a.result a.valid f found x y₁ o i at woven at₁ woven₁;
        edge = e;
        returns = rw (at, at', a.returns, out_runs, in_runs);
        is = sym (ap (λ (q : Option ℕ). or_else q e) f);
        valid =
            result-IsGraph g h d a.result a.valid f found x y₁ o i at woven at₁ woven₁
              (record { tail = x; head = y; tail_at = at; head_at = at'; labelled = refl });
        grows = a.grows;
        found = found;
        vertices = refl;
        kept = result-SameLabels g h d a.result a.valid f found x y₁ o i at woven at₁ woven₁;
        kept_edges = λ c b there. get_elem?-grown g.edge_store d b c there;
        directed = refl;
      }

  edge_added :
      (src sink : ℕ) (x y : Vertex A) (q : Option ℕ)
      → get_elem? g.vertex_store src ≡ some x
      → get_elem? g.vertex_store sink ≡ some y
      → find (key x.label y.label) g.edges ≡ q
      → IsEdgeAdded g (key x.label y.label) (add_edge blank g src sink)
  unfolding add_edge
  edge_added src sink x y none at at' f =
      let c = connect_lem src sink x y at at' f in
      record {
        graph = c.graph;
        edge = c.edge;
        returns = rw (get_edge_lem g src sink x y h at at', f) c.returns;
        is = c.is;
        valid = c.valid;
        grows = c.grows;
        found = c.found;
        vertices = c.vertices;
        kept = c.kept;
        kept_edges = c.kept_edges;
        directed = c.directed;
      }
  edge_added src sink x y (some e) at at' f = record {
    graph = g;
    edge = e;
    returns = rw (get_edge_lem g src sink x y h at at', f);
    is = sym (ap (λ (q : Option ℕ). or_else q (length g.edge_store)) f);
    valid = h;
    grows = rw f (omega arith);
    found = λ j. sym (if_found (key x.label y.label) j e g.edges f);
    vertices = refl;
    kept = SameLabels-self g.vertex_store;
    kept_edges = λ c b there. there;
    directed = refl;
  }

  -- `Graph_AddEdge` between two vertices of a well-formed graph keeps it well-formed. The edge is
  -- found by the labels of its ends, as every later `Graph_GetEdge` looks for it; no other edge is
  -- added or lost, and all edges stay what they were. An edge that is there is returned, at its old
  -- place; a new one stands behind all others, and the number of edges grows by one exactly then.
  -- The vertices keep their places and labels.
  pub add_edge_lem :
      (src sink : ℕ) (x y : Vertex A)
      → get_elem? g.vertex_store src ≡ some x
      → get_elem? g.vertex_store sink ≡ some y
      → IsEdgeAdded g (key x.label y.label) (add_edge blank g src sink)
  add_edge_lem src sink x y at at' =
      edge_added src sink x y (find (key x.label y.label) g.edges) at at' refl

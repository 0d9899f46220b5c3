-- ===== src/Graph/Copies.antt =====
-- `Graph_Copy` makes a graph with the same labels and the same edges.
use junction_box.Base.{
  ℕ, ◌≤◌, true, List, [], ◌∷◌, ◌++◌, ◌≡◌, refl, sym, ap, ◌∙◌, arith, inl, inr, Bool_ext, some,
  get_elem?, append_snoc, ok,
}
use mathlib.Core.Path.{subst}
use junction_box.CString.{Text}
use junction_box.AssocMap.Laws.{lookup}
use junction_box.AssocMap.Keys.{text_keys}
use junction_box.Graph.{Graph, Vertex, create}
use junction_box.Graph.Walks.{copy_parent, copy_vertex, copy}
use junction_box.Graph.Valid.{find, is_some, some_of, ends, IsGraph, create-IsGraph}
use junction_box.Graph.Chains.{find-Split, run_chain, for_vertices_lem, for_parents_lem}
use junction_box.Graph.Parts.{IsWider, IsWider-self, IsWider-trans, IsPart, IsStep, add_name}
use junction_box.Graph.CopiedEdges.{first_or_other, parents_run}

module _ {A B : Type 0} (blank : A) (blank_edge : B) (this : Graph A B) (h : IsGraph this) where
  module _ (fuel : ℕ)
      (room : (v : ℕ) (x : Vertex A)
        → get_elem? this.vertex_store v ≡ some x
        → x.inedges.size ≤ fuel) where
    -- What the copy has of a vertex: its label and its incoming edges.
    HasVertex : Graph A B → Text → ℕ → Type 0
    HasVertex g l v =
        (is_some (find l g.vertices) ≡ true)
        × ((x : Vertex A) (K : Text) (w : ℕ)
            → get_elem? this.vertex_store v ≡ some x
            → find K x.inedges ≡ some w
            → is_some (find K g.edges) ≡ true)

    HasVertex-wider :
        (g g' : Graph A B) (l : Text) (v : ℕ) → IsWider g g' → HasVertex g l v → HasVertex g' l v
    unfolding HasVertex
    HasVertex-wider g g' l v wider (name, joins) =
        (wider.names l name, λ x K w at e. wider.joins K (joins x K w at e))

    -- One round of the outer loop.
    copy_vertex_lem :
        (g : Graph A B) (l : Text) (v : ℕ)
        → IsPart this h g
        → find l this.vertices ≡ some v
        → IsStep this h g (λ g'. HasVertex g' l v) (copy_vertex blank blank_edge fuel this g v)
    unfolding copy_vertex HasVertex
    copy_vertex_lem g l v part f =
        let (x, at, label) = h.vertex_there l v f in
        let (g₁, u, y, adds, part₁, wider₁, at_u, label_u, there) =
          add_name this h blank g x.label part (ap is_some (h.registered v x at)) in
        let more =
          parents_run blank blank_edge this h v x at u [] x.inedges.first g₁ y refl part₁ at_u
            label_u in
        let loop =
          for_parents_lem (copy_parent blank blank_edge this u) this h v x at fuel g₁ (room v x at)
          ∙ more.returns in
        record {
          graph = more.graph;
          returns = rw (at, adds) loop;
          part = more.part;
          wider = IsWider-trans g g₁ more.graph wider₁ more.wider;
          holds = (
            ap (λ (t : Text). is_some (find t more.graph.vertices)) (sym label)
                ∙ more.wider.names x.label there,
            λ z K w at_z e.
                more.holds K w
                  (let same : z ≡ x = cc in ap (λ (q : Vertex A). find K q.inedges) (sym same) ∙ e),
          );
        }

    vertices_run :
        (before rest : List (Text × ℕ)) (g : Graph A B)
        → this.vertices.first ≡ before ++ rest
        → IsPart this h g
        → IsStep this h g
            (λ g'. (l : Text) (v : ℕ) → lookup text_keys l rest ≡ some v → HasVertex g' l v)
            (run_chain (copy_vertex blank blank_edge fuel this) rest g)
    unfolding run_chain lookup
    vertices_run before [] g split part = record {
      graph = g;
      returns = refl;
      part = part;
      wider = IsWider-self g;
      holds = λ l v e. cc;
    }
    vertices_run before ((k, u) ∷ rest) g split part =
        let one =
          copy_vertex_lem g k u part
            (find-Split this.vertices before rest k u h.vertex_map split) in
        let more =
          vertices_run (before ++ (k, u) ∷ []) rest one.graph
            (split ∙ sym (append_snoc before (k, u) rest)) one.part in
        record {
          graph = more.graph;
          returns = rw one.returns more.returns;
          part = more.part;
          wider = IsWider-trans g one.graph more.graph one.wider more.wider;
          holds = λ l v there. elim (first_or_other k l u v rest there) [
            | inl (is, place) ↦
                subst (λ (t : Text). HasVertex more.graph t v) is
                  (subst (λ (w : ℕ). HasVertex more.graph k w) place
                    (HasVertex-wider one.graph more.graph k u more.wider one.holds))
            | inr later ↦ more.holds l v later
          ];
        }

  -- Every edge is one of the incoming edges of its sink.
  sink_of :
      (k : Text) (e : ℕ)
      → find k this.edges ≡ some e
      → (v : ℕ) × (x : Vertex A) × (l : Text) × (find l this.vertices ≡ some v)
        × (get_elem? this.vertex_store v ≡ some x)
        × (find k x.inedges ≡ some e)
  sink_of k e f =
      let (d, there, l, j) = h.edge_there k e f in
      let ends_here : ends this.edge_store d.sink e ≡ true = rw there (ground arith) in
      (
        d.sink,
        j.head,
        j.head.label,
        h.registered d.sink j.head j.head_at,
        j.head_at,
        (h.incoming d.sink j.head j.head_at).1 k ∙ rw (f, ends_here),
      )

  empty-IsPart : IsPart this h (create this.name this.directed)
  unfolding lookup
  empty-IsPart = record {
    valid = create-IsGraph this.name this.directed;
    names = λ l e. cc;
    joins = λ k e. cc;
    directed = refl;
  }

  dirty-IsGraph : (g : Graph A B) → IsGraph g → IsGraph (record g { graph_dirty = true })
  dirty-IsGraph g k = record {
    vertex_map = k.vertex_map;
    edge_map = k.edge_map;
    registered = k.registered;
    vertex_there = k.vertex_there;
    edge_there = k.edge_there;
    outgoing = k.outgoing;
    incoming = k.incoming;
  }

  -- The copy of a well-formed graph succeeds, with fuel for its vertices and for the incoming edges
  -- of each, and is a well-formed graph with the same labels of vertices, the same labels of edges
  -- and the same direction.
  pub copy_lem :
      (fuel : ℕ)
      → ((v : ℕ) (x : Vertex A) → get_elem? this.vertex_store v ≡ some x → x.inedges.size ≤ fuel)
      → this.vertices.size ≤ fuel
      → (g : Graph A B) × (copy blank blank_edge fuel this ≡ ok g)
        × IsGraph g
        × (g.directed ≡ this.directed)
        × ((l : Text) → is_some (find l g.vertices) ≡ is_some (find l this.vertices))
        × ((k : Text) → is_some (find k g.edges) ≡ is_some (find k this.edges))
  unfolding copy
  copy_lem fuel room size =
      let start : Graph A B = create this.name this.directed in
      let run = vertices_run fuel room [] this.vertices.first start refl empty-IsPart in
      let g : Graph A B = record run.graph { graph_dirty = true } in
      let loop =
        for_vertices_lem (copy_vertex blank blank_edge fuel this) this h fuel start size
        ∙ run.returns in
      (
        g,
        rw loop,
        dirty-IsGraph run.graph run.part.valid,
        run.part.directed,
        λ l. Bool_ext (is_some (find l g.vertices)) (is_some (find l this.vertices)) (
          run.part.names l,
          λ e.
              let (v, at) = some_of (find l this.vertices) e in
              unfold HasVertex in (run.holds l v at).0,
        ),
        λ k. Bool_ext (is_some (find k g.edges)) (is_some (find k this.edges)) (
          run.part.joins k,
          λ e.
              let (c, at) = some_of (find k this.edges) e in
              let (v, x, l, named, place, incoming) = sink_of k c at in
              unfold HasVertex in (run.holds l v named).1 x k c place incoming,
        ),
      )

-- ===== src/JunctionTree/Tree.antt =====
-- src/components/JB_JunctionTree/JB_JunctionTree.c: candidates for edges and `ElimTree_Create`.
--
-- The vertices and edges of a tree carry an elimination set, among other things: `Carrier` says how
-- to write and to read it. `sort` is the `qsort` of the candidates, by `ECCollection_DefEdgeComp`.
use junction_box.Base.{
  ℕ, ◌+◌, false, List, [], ◌∷◌, ◌++◌, ◌==◌, if◌then◌else◌, Option, none, some, Outcome, ok, ◌>>=◌,
  deref, read_all,
}
use junction_box.DisjointSets
use junction_box.DisjointSets.{DSetForest}
use junction_box.Graph.{
  Graph, create, vertex_at, get_vertex, add_vertex, add_edge, annotate_vertex, annotate_edge,
  get_num_vertices,
}
use junction_box.ElimSets.{ElimSet, EdgeCandidate, elim_set_get_label, edge_candidate_create}
use junction_box.JunctionTree.{VertexOrdering, default_vertex_ordering}
use junction_box.JunctionTree.Collection.{ElimSetCollection, text_of}

-- The field `elim_set` of what a vertex or an edge carries.
pub record Carrier (A : Type 0) : Type 0 where
  pub blank : A
  pub set_elim_set : ElimSet → A → A
  pub get_elim_set : A → Option ElimSet

module _ {A B : Type 0} (c : Carrier A) (k : Carrier B) where
  -- `Vertex_GetElimSet(v)`, which is dereferenced.
  unfoldable pub elim_set_at : Graph A B → ℕ → Outcome ElimSet
  elim_set_at g v = vertex_at g v >>= λ x. deref (c.get_elim_set x.annotation)

  -- The loops of `ECCollection_Create`: a candidate for each vertex and each later one.
  unfoldable pub candidates_from : Graph A B → ℕ → List ℕ → Outcome (List EdgeCandidate)
  unfolding elim_set_at
  candidates_from g src [] = ok []
  candidates_from g src (sink ∷ vertices) = do
    src_set ← elim_set_at g src
    sink_set ← elim_set_at g sink
    ec ← edge_candidate_create src src_set sink sink_set
    rest ← candidates_from g src vertices
    ok (ec ∷ rest)

  unfoldable pub candidates : Graph A B → List ℕ → Outcome (List EdgeCandidate)
  unfolding candidates_from
  candidates g [] = ok []
  candidates g (src ∷ vertices) = do
    first ← candidates_from g src vertices
    rest ← candidates g vertices
    ok (first ++ rest)

  -- `ECCollection_Create` with the default order.
  unfoldable pub ec_collection_create :
      (List EdgeCandidate → Outcome (List EdgeCandidate))
      → Graph A B
      → VertexOrdering
      → Outcome (List EdgeCandidate)
  unfolding candidates
  ec_collection_create sort g o =
      read_all o.size o.vertices >>= λ vertices. candidates g vertices >>= sort

  -- The body of the first loop of `ElimTree_Create`, for a set that is there.
  unfoldable pub add_clique :
      (ℕ → List ℕ) → Graph A B × DSetForest → ElimSet → Outcome (Graph A B × DSetForest)
  unfolding text_of
  add_clique fresh (ret, dsf) es = do
    label ← elim_set_get_label fresh es
    found ← get_vertex ret (text_of label)
    elim found [
      | some v ↦ ok (ret, dsf)
      | none ↦ (do
        (ret₁, v) ← add_vertex c.blank ret (text_of label)
        ret₂ ← annotate_vertex ret₁ v (c.set_elim_set es)
        (dsf', _) ← DisjointSets.make_set dsf v
        ok (ret₂, dsf'))
    ]

  unfoldable pub cliques_loop :
      (ℕ → List ℕ)
      → List (Option ElimSet)
      → Graph A B × DSetForest
      → Outcome (Graph A B × DSetForest)
  unfolding add_clique
  cliques_loop fresh [] s = ok s
  cliques_loop fresh (none ∷ sets) s = cliques_loop fresh sets s
  cliques_loop fresh (some es ∷ sets) s = add_clique fresh s es >>= cliques_loop fresh sets

  -- The second loop: an edge for each candidate that joins two trees, until there are enough.
  unfoldable pub kruskal_loop :
      ℕ → ℕ → List EdgeCandidate → ℕ → DSetForest → Graph A B → Outcome (Graph A B)
  kruskal_loop fuel num_vertices [] num_edges dsf ret = ok ret
  kruskal_loop fuel num_vertices (ec ∷ edge_cs) num_edges dsf ret = do
    (dsf₁, rep_u) ← DisjointSets.get_representative fuel dsf ec.sink
    (dsf₂, rep_v) ← DisjointSets.get_representative fuel dsf₁ ec.src
    let next = kruskal_loop fuel num_vertices edge_cs num_edges dsf₂ ret
    let joins = (do
      (ret₁, e) ← add_edge k.blank ret ec.sink ec.src
      ret₂ ← annotate_edge ret₁ e (k.set_elim_set ec.elim_set)
      dsf₃ ← DisjointSets.union fuel dsf₂ ec.sink ec.src
      let more = kruskal_loop fuel num_vertices edge_cs (num_edges + 1) dsf₃ ret₂
      if num_edges + 1 + 1 == num_vertices then ok ret₂ else more)
    if rep_u == rep_v then next else joins

  -- `ElimTree_Create`
  unfoldable pub elim_tree_create :
      (List EdgeCandidate → Outcome (List EdgeCandidate))
      → (ℕ → List ℕ)
      → (ℕ → List ℕ)
      → ℕ
      → ElimSetCollection
      → Outcome (Graph A B)
  unfolding cliques_loop ec_collection_create kruskal_loop
  elim_tree_create sort fresh fresh_array fuel esc = do
    sets ← read_all esc.size esc.elim_sets
    (ret, dsf) ← cliques_loop fresh sets (
      create (b'E' ∷ b'l' ∷ b'i' ∷ b'm' ∷ b'_' ∷ b'T' ∷ b'r' ∷ b'e' ∷ b'e' ∷ []) false,
      DisjointSets.create,
    )
    o ← default_vertex_ordering fresh_array fuel ret
    edge_cs ← ec_collection_create sort ret o
    kruskal_loop fuel (get_num_vertices ret) edge_cs 0 dsf ret

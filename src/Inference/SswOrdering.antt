-- ===== src/Inference/SswOrdering.antt =====
-- src/components/JB_Inference/JB_Inference.c, lines 3 to 44: the state space weighted ordering.
-- `sort` is the `qsort`, which calls the comparison with two vertices.
use junction_box.Base.{
  ℕ, ◌+◌, ◌==◌, List, [], ◌∷◌, if◌then◌else◌, Option, some, Outcome, ok, ◌>>=◌, deref, read, write,
}
use junction_box.Variables.{Variable, VariableOrdering, get_variable_rank_by_label}
use junction_box.Graph.{
  Graph, vertex_at, get_label, annotate_vertex, get_num_vertices, vertex_totdegree,
}
use junction_box.Graph.Walks.{MapItr, get_vertex_itr}
use junction_box.JunctionTree.{VertexOrdering}
use junction_box.Model.Network.{BNet}

-- The field `variable` of a vertex of the initial graph is its annotation.
abbrev pub Initial : Type 0 → Type 0
Initial B = Graph (Option Variable) B

module _ {B : Type 0} where
  -- `vtx_SSW_cmp`: the two numbers whose difference the comparison returns. A tie of the degrees is
  -- broken by the cardinalities.
  unfoldable pub ssw_cmp : Initial B → ℕ → ℕ → Outcome (ℕ × ℕ)
  ssw_cmp g v₁ v₂ = do
    degree₂ ← vertex_totdegree g v₂
    degree₁ ← vertex_totdegree g v₁
    x₂ ← vertex_at g v₂
    x₁ ← vertex_at g v₁
    let tie = (do
      variable₂ ← deref x₂.annotation
      variable₁ ← deref x₁.annotation
      ok (variable₂.cardinality, variable₁.cardinality))
    if degree₂ == degree₁ then tie else ok (degree₂, degree₁)

  -- The loop over the vertices: each is put into the array and gets its variable.
  unfoldable pub weigh_loop :
      VariableOrdering → MapItr → ℕ → Initial B → List ℕ → Outcome (Initial B × List ℕ)
  weigh_loop vbls [] i g vertices = ok (g, vertices)
  weigh_loop vbls ((_, v) ∷ itr) i g vertices = do
    vertices' ← write vertices i v
    label ← get_label g v
    rank ← get_variable_rank_by_label vbls label
    vbl_rank ← deref rank
    variable ← read vbls.vbls vbl_rank
    g' ← annotate_vertex g v (λ _. some variable)
    weigh_loop vbls itr (i + 1) g' vertices'

  -- `BNet_StateSpaceWeightedElimOrdering`
  unfoldable pub state_space_weighted_elim_ordering :
      {N : Type 0}
      → ((ℕ → ℕ → Outcome (ℕ × ℕ)) → List ℕ → Outcome (List ℕ))
      → (ℕ → List ℕ)
      → BNet N (Option Variable) B
      → Outcome (BNet N (Option Variable) B × VertexOrdering)
  unfolding ssw_cmp weigh_loop
  state_space_weighted_elim_ordering sort fresh this = do
    let num_vertices = get_num_vertices this.initial_graph
    (g, vertices) ←
        weigh_loop this.vbls (get_vertex_itr this.initial_graph) 0 this.initial_graph
          (fresh num_vertices)
    sorted ← sort (ssw_cmp g) vertices
    ok (record this { initial_graph = g }, record { size = num_vertices; vertices = sorted })

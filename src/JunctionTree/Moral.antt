-- ===== src/JunctionTree/Moral.antt =====
-- src/components/JB_JunctionTree/JB_JunctionTree.c: `MoralGraph`.
use junction_box.Base.{ℕ, false, List, [], ◌∷◌, ◌++◌, Option, Outcome, ok, ◌>>=◌}
use junction_box.Graph.{Graph, get_label, get_vertex, get_fst_vertex, set_directed}
use junction_box.Graph.Walks.{add_edge_ptr, for_vertices, for_parents, get_fst_parent, copy}

module _ {A B : Type 0} (blank_edge : B) (imm : Graph A B) where
  -- `Graph_GetVertex(ret, Vertex_GetLabel(p))` for a vertex of the immoral graph.
  unfoldable pub moral_vertex : Graph A B → ℕ → Outcome (Option ℕ)
  moral_vertex ret p = get_label imm p >>= get_vertex ret

  -- The loop of the second cursor: one edge from the first parent to each later one.
  unfoldable pub marry_rest : Option ℕ → List ℕ → Graph A B → Outcome (Graph A B)
  unfolding moral_vertex
  marry_rest moral_parent₁ [] ret = ok ret
  marry_rest moral_parent₁ (p₂ ∷ parents) ret = do
    moral_parent₂ ← moral_vertex ret p₂
    (ret', _) ← add_edge_ptr blank_edge ret moral_parent₁ moral_parent₂
    marry_rest moral_parent₁ parents ret'

  unfoldable pub marry : List ℕ → Graph A B → Outcome (Graph A B)
  unfolding moral_vertex marry_rest
  marry [] ret = ok ret
  marry (p₁ ∷ parents) ret = do
    moral_parent₁ ← moral_vertex ret p₁
    ret' ← marry_rest moral_parent₁ parents ret
    marry parents ret'

  -- The body of the loop over the vertices, with the lists of parents as finite lists.
  unfoldable pub moralize : ℕ → Graph A B → ℕ → Outcome (Graph A B)
  unfolding marry
  moralize fuel ret current = do
    fst ← get_fst_parent imm current
    parents ← for_parents (λ parents p. ok (parents ++ p ∷ [])) fuel imm current fst []
    marry parents ret

-- `MoralGraph`
unfoldable pub moral_graph : {A B : Type 0} → A → B → ℕ → Graph A B → Outcome (Graph A B)
unfolding moralize
moral_graph blank blank_edge fuel imm = do
  ret ← copy blank blank_edge fuel imm
  for_vertices (moralize blank_edge imm fuel) fuel imm (get_fst_vertex imm) (set_directed ret false)

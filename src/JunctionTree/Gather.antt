-- ===== src/JunctionTree/Gather.antt =====
-- src/components/JB_JunctionTree/JB_JunctionTree.c: `GatherElimSets`.
pub mod Lower
use junction_box.Base.{
  ℕ, zero, suc, Bool, true, List, ltb, if◌then◌else◌, Option, none, some, Outcome, ok, ◌>>=◌,
  bind_ext, bind_assoc, deref, read, ◌≡◌, refl, sym, ◌∙◌,
}
use junction_box.Variables.{VariableOrdering}
use junction_box.Graph.{Graph, get_label, get_vertex}
use junction_box.Graph.Walks.{for_neighbors, get_neighbor_itr, connect_all}
use junction_box.ElimSets
use junction_box.ElimSets.{ElimSet, get_vertex_list}
use junction_box.ElimSets.Laws.{get_vertex_list_lem}
use junction_box.JunctionTree.{VertexOrdering, get_vertex_rank_by_label}
use junction_box.JunctionTree.Collection
use junction_box.JunctionTree.Collection.{ElimSetCollection}

-- `rank < i`, for a rank that may be -1.
abbrev pub before : Option ℕ → ℕ → Bool
before none i = true
before (some rank) i = ltb rank i

-- The vertices of the ordering `o` belong to `g`, not to the moral graph.
module _ {A B : Type 0} (g : Graph A B) (o : VertexOrdering) where
  -- The body of the loop over the neighbours.
  unfoldable pub gather_neighbor : Graph A B → ℕ → ElimSet → ℕ → Outcome ElimSet
  gather_neighbor moral i eset nghbr = do
    label ← get_label moral nghbr
    rank ← get_vertex_rank_by_label g o label
    if before rank i then ElimSets.add eset label else ok eset

  -- The elimination set of the vertex at `i`: itself and its neighbours of lower rank.
  unfoldable pub gather_set : VariableOrdering → ℕ → Graph A B → ℕ → Outcome ElimSet
  unfolding gather_neighbor for_neighbors
  gather_set o2 fuel moral i = do
    v ← read o.vertices i
    label ← get_label g v
    found ← get_vertex moral label
    current ← deref found
    label' ← get_label moral current
    eset ← ElimSets.add (ElimSets.create o2) label'
    itr ← get_neighbor_itr moral current
    for_neighbors (gather_neighbor moral i) fuel moral itr eset

  -- `for (i = o->size - 1; i > -1; i--) …` with `i + 1` rounds left.
  unfoldable pub gather_loop :
      B
      → VariableOrdering
      → ℕ
      → ℕ
      → Graph A B
      → ElimSetCollection
      → Outcome (Graph A B × ElimSetCollection)
  unfolding gather_set connect_all
  gather_loop blank_edge o2 fuel zero moral ret = ok (moral, ret)
  gather_loop blank_edge o2 fuel (suc i) moral ret = do
    eset ← gather_set o2 fuel moral i
    members ← get_vertex_list moral fuel eset
    moral' ← connect_all blank_edge moral members
    ret' ← Collection.add ret eset i
    gather_loop blank_edge o2 fuel i moral' ret'

  -- `GatherElimSets`, which changes the moral graph.
  unfoldable pub gather_elim_sets :
      B
      → (ℕ → List (Option ElimSet))
      → ℕ
      → Graph A B
      → VariableOrdering
      → Outcome (Graph A B × ElimSetCollection)
  unfolding gather_loop
  gather_elim_sets blank_edge fresh fuel moral o2 =
      gather_loop blank_edge o2 fuel o.size moral (Collection.create fresh o.size)

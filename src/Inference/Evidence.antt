-- ===== src/Inference/Evidence.antt =====
-- src/components/JB_Inference/JB_Inference.c: collecting and distributing evidence. The runs along
-- the tree and along the neighbours of a vertex have fuel, and fault without it.
use junction_box.Base.{
  ℕ, zero, suc, List, if◌then◌else◌, Option, none, some, Outcome, ok, fault, ◌>>=◌, deref, read,
}
use junction_box.Graph.Walks.{NeighborItr, get_neighbor_itr, get_current, get_current_edge, advance}
use junction_box.JunctionTree.{default_vertex_ordering}
use junction_box.Inference.{ElimTree, Mode, message_pass}
use junction_box.Inference.VertexSets
use junction_box.Inference.VertexSets.{VertexSet, contains_vertex}

-- The tree and the marks.
abbrev pub State : Type 0 → Type 0
State N = ElimTree N × VertexSet

module _ {N : Type 0} where
  -- The loop over the neighbours that calls `visit` for the unmarked ones, with the edge to them.
  -- The second result is the iterator at the end.
  unfoldable pub visit_loop :
      (State N → ℕ → ℕ → Outcome (State N))
      → ℕ
      → NeighborItr
      → State N
      → Outcome (State N × NeighborItr)
  unfolding get_current
  visit_loop visit zero itr s = fault
  visit_loop visit (suc fuel) itr (tree, marks) = do
    current ← get_current tree itr
    elim current [
      | none ↦ ok ((tree, marks), itr)
      | some nghbr ↦ (do
        marked ← contains_vertex marks nghbr
        let visited = (deref (get_current_edge itr) >>= λ e. visit (tree, marks) nghbr e)
        s' ← (if marked then ok (tree, marks) else visited)
        visit_loop visit fuel (advance itr) s')
    ]

module _ {N : Type 0} (mode : Mode N) (fresh : ℕ → List ℕ) (fresh_numbers : ℕ → List N) where
  -- `MessagePass(caller, this, backsep)` unless there is no caller.
  abbrev pub answer : State N → ℕ → Option (ℕ × ℕ) → Outcome (State N)
  answer s this none = ok s
  answer (tree, marks) this (some (caller, backsep)) =
      message_pass mode fresh fresh_numbers tree caller this backsep >>= λ tree'. ok (tree', marks)

  -- `Vertex_CollectEvidence`; the caller comes with its edge.
  unfoldable pub collect : ℕ → State N → ℕ → Option (ℕ × ℕ) → Outcome (State N)
  unfolding visit_loop message_pass
  collect zero s this caller = fault
  collect (suc fuel) (tree, marks) this caller = do
    marks' ← VertexSets.add marks this
    itr ← get_neighbor_itr tree this
    (s, _) ←
        visit_loop (λ s nghbr fwdsep. collect fuel s nghbr (some (this, fwdsep))) fuel itr
          (tree, marks')
    answer s this caller

  -- The first loop of `Vertex_DistributeEvidence`: a message to each unmarked neighbour.
  abbrev pub send : ℕ → State N → ℕ → ℕ → Outcome (State N)
  send this (tree, marks) nghbr fwdsep =
      message_pass mode fresh fresh_numbers tree nghbr this fwdsep >>= λ tree'. ok (tree', marks)

  -- `Vertex_DistributeEvidence`. Both loops run on one iterator.
  unfoldable pub distribute : ℕ → State N → ℕ → Outcome (State N)
  unfolding visit_loop message_pass
  distribute zero s this = fault
  distribute (suc fuel) (tree, marks) this = do
    marks' ← VertexSets.add marks this
    itr ← get_neighbor_itr tree this
    (s, itr') ← visit_loop (send this) (suc fuel) itr (tree, marks')
    (s', _) ← visit_loop (λ s nghbr _. distribute fuel s nghbr) (suc fuel) itr' s
    ok s'

  -- `BNet_CollectEvidence` and `BNet_DistributeEvidence` on the elimination tree, from the first
  -- vertex of its default ordering.
  unfoldable pub from_root :
      (State N → ℕ → Outcome (State N)) → (ℕ → List ℕ) → ℕ → ElimTree N → Outcome (ElimTree N)
  from_root run fresh_array fuel tree = do
    o ← default_vertex_ordering fresh_array fuel tree
    fst_vertex ← read o.vertices 0
    (tree', _) ← run (tree, VertexSets.create o) fst_vertex
    ok tree'

  unfoldable pub collect_evidence : (ℕ → List ℕ) → ℕ → ElimTree N → Outcome (ElimTree N)
  unfolding from_root collect
  collect_evidence fresh_array fuel = from_root (λ s v. collect fuel s v none) fresh_array fuel

  unfoldable pub distribute_evidence : (ℕ → List ℕ) → ℕ → ElimTree N → Outcome (ElimTree N)
  unfolding from_root distribute
  distribute_evidence fresh_array fuel = from_root (λ s v. distribute fuel s v) fresh_array fuel

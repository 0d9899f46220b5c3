-- ===== src/Inference/VertexSets.antt =====
-- src/components/JB_Inference/VertexSet.c: sets of vertices as bit vectors over an ordering.
use junction_box.Base.{
  ℕ, ◌+◌, Bool, false, List, [], ◌∷◌, ◌++◌, nonzero, none, some, Outcome, ok, ◌>>=◌, read, write,
}
use junction_box.BitVector
use junction_box.BitVector.{BitVector}
use junction_box.CString.{strcat_all, spaced}
use junction_box.CString.Join.{total}
use junction_box.VariableSet.{scan_loop}
use junction_box.Graph.{Graph, get_label}
use junction_box.JunctionTree.{VertexOrdering, get_vertex_rank}

pub record VertexSet : Type 0 where
  pub bv : BitVector
  pub o : VertexOrdering

unfoldable pub create : VertexOrdering → VertexSet
create o = record { bv = BitVector.create o.size 0; o = o }

-- `VertexSet_GetLabel` and `VertexSet_ToString`; the vertices are those of `g`.
unfoldable pub vertex_set_get_label :
    {A B : Type 0} → (ℕ → List ℕ) → Graph A B → VertexSet → Outcome (List ℕ)
vertex_set_get_label fresh g this = do
  labels ←
      scan_loop (λ l i. read this.o.vertices i >>= λ v. get_label g v >>= λ t. ok (l ++ t ∷ []))
        this.bv.size 0 this.bv []
  ret ← write (fresh (total (spaced labels) + 1)) 0 0
  strcat_all ret (spaced labels)

unfoldable pub add : VertexSet → ℕ → Outcome VertexSet
add this v = do
  indx ← get_vertex_rank this.o v
  elim indx [
    | none ↦ ok this
    | some i ↦ (BitVector.set_bit_on this.bv i >>= λ bv. ok (record this { bv = bv }))
  ]

unfoldable pub contains_vertex : VertexSet → ℕ → Outcome Bool
contains_vertex this v = do
  indx ← get_vertex_rank this.o v
  elim indx [ none ↦ ok false | some i ↦ (BitVector.get_bit this.bv i >>= λ b. ok (nonzero b)) ]

-- Whether `this` contains the other set.
unfoldable pub contains : VertexSet → VertexSet → Outcome Bool
contains this other = do
  (_, test) ← BitVector.and_ this.bv other.bv 0
  BitVector.equals other.bv test

unfoldable pub intersect : VertexSet → VertexSet → Outcome VertexSet
intersect this other = do
  (_, bv) ← BitVector.and_ this.bv other.bv 0
  ok (record { bv = bv; o = this.o })

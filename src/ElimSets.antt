-- ===== src/ElimSets.antt =====
-- src/components/JB_JunctionTree/JB_JunctionTree.c, lines 80 to 180: elimination sets, and the
-- candidates for edges between them.
--
-- An `ElimSet` has the fields of a `VariableSet`: a bit vector and a variable ordering. A vertex is
-- given by its label.
pub mod Laws
use junction_box.Base.{
  ℕ, zero, suc, ◌+◌, ◌-◌, Bool, List, [], ◌∷◌, ◌++◌, if◌then◌else◌, ltb, nonzero, Option, none,
  some, Outcome, ok, fault, ◌>>=◌, read,
}
use junction_box.BitVector
use junction_box.CString.{Text}
use junction_box.Variables.{VariableOrdering, get_label, get_variable_rank_by_label}
use junction_box.Graph.{Graph, get_vertex}
use junction_box.VariableSet
use junction_box.VariableSet.{VariableSet, create_from_bv, set_get_label}

abbrev pub ElimSet : Type 0
ElimSet = VariableSet

abbrev pub create : VariableOrdering → ElimSet
create o = VariableSet.create o

-- `ElimSet_GetLabel` and `ElimSet_ToString`, which repeat the code of `VariableSet_GetLabel`.
unfoldable pub elim_set_get_label : (ℕ → List ℕ) → ElimSet → Outcome (List ℕ)
unfolding set_get_label
elim_set_get_label = set_get_label

unfoldable pub add : ElimSet → Text → Outcome ElimSet
add this label = do
  indx ← get_variable_rank_by_label this.o label
  elim indx [
    | none ↦ ok this
    | some i ↦ BitVector.set_bit_on this.bv i >>= λ bv. ok (record this { bv = bv })
  ]

-- `for (i = 0; i > size; i++) …`, a loop that goes on while `i` is above the size; on fuel.
unfoldable pub list_loop :
    {A B : Type 0} → Graph A B → ℕ → ℕ → ElimSet → List (Option ℕ) → Outcome (List (Option ℕ))
list_loop g zero i this ret = fault
list_loop g (suc fuel) i this ret =
    let round = (do
      b ← BitVector.get_bit this.bv i
      ret' ←
          (if nonzero b
            then (read this.o.vbls i >>= λ v.
                get_vertex g (get_label v) >>= λ p. ok (ret ++ p ∷ []))
            else ok ret)
      list_loop g fuel (i + 1) this ret') in
    if ltb this.bv.size i then round else ok ret

-- `ElimSet_GetVertexList`
unfoldable pub get_vertex_list :
    {A B : Type 0} → Graph A B → ℕ → ElimSet → Outcome (List (Option ℕ))
unfolding list_loop
get_vertex_list g fuel this = list_loop g fuel 0 this []

-- Whether `this` contains the other set.
unfoldable pub contains : ElimSet → ElimSet → Outcome Bool
contains this other = do
  (_, test) ← BitVector.and_ this.bv other.bv 0
  BitVector.equals other.bv test

unfoldable pub intersect : ElimSet → ElimSet → Outcome ElimSet
intersect this other = do (_, bv) ← BitVector.and_ this.bv other.bv 0; ok (create_from_bv this.o bv)

-- An `EdgeCandidate`: two vertices, and the intersection of their sets.
pub record EdgeCandidate : Type 0 where
  pub src : ℕ
  pub sink : ℕ
  pub elim_set : ElimSet

unfoldable pub edge_candidate_create : ℕ → ElimSet → ℕ → ElimSet → Outcome EdgeCandidate
unfolding intersect
edge_candidate_create src src_set sink sink_set = do
  elim_set ← intersect src_set sink_set
  ok (record { src = src; sink = sink; elim_set = elim_set })

-- Whether `ECCollection_DefEdgeComp` is negative, 0 or positive, as the two numbers whose
-- difference it returns.
unfoldable pub edge_comp : EdgeCandidate → EdgeCandidate → Outcome (ℕ × ℕ)
edge_comp edgec1 edgec2 = do
  on_bits1 ← BitVector.get_num_on_bits edgec1.elim_set.bv
  on_bits2 ← BitVector.get_num_on_bits edgec2.elim_set.bv
  ok (on_bits2, on_bits1)

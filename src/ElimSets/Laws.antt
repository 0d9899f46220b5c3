-- ===== src/ElimSets/Laws.antt =====
-- What the operations on elimination sets do.
use junction_box.Base.{
  ℕ, suc, ◌<◌, ◌&&◌, Bool, true, false, [], ◌≡◌, ◌↔◌, refl, sym, ◌∙◌, arith, if◌then◌else◌, ltb,
  Option, none, some, ok,
}
use junction_box.BitVector.Valid.{bit}
use junction_box.BitVector.Access.{set_bit_on_lem}
use junction_box.BitVector.Combine.{and_or_xor_lem}
use junction_box.BitVector.Compare.{equals_lem}
use junction_box.CString.{Text}
use junction_box.Variables.{Variable}
use junction_box.Variables.Laws.{first_from, first_from-some, label_is, get_variable_rank_lem}
use junction_box.Graph.{Graph}
use junction_box.VariableSet.{create_from_bv}
use junction_box.VariableSet.Members.{IsVariableSet}
use junction_box.VariableSet.Ops.{is_rank}
use junction_box.ElimSets.{ElimSet, add, get_vertex_list, list_loop, contains, intersect}

-- `ElimSet_GetVertexList` returns the empty list for every set and every graph: its loop asks for
-- an index above the size and never runs.
pub get_vertex_list_lem :
    {A B : Type 0} (g : Graph A B) (fuel : ℕ) (this : ElimSet)
    → get_vertex_list g (suc fuel) this ≡ ok []
unfolding get_vertex_list list_loop
get_vertex_list_lem g fuel this = let stop : ltb this.bv.size 0 ≡ false = ground arith in rw stop

-- For well-formed sets over vectors of one size, `Contains` decides whether the first has every
-- member of the second, and `Intersect` returns the well-formed set of the common members.
pub contains-intersect :
    (this other : ElimSet)
    → IsVariableSet this
    → IsVariableSet other
    → this.bv.size ≡ other.bv.size
    → ((b : Bool) × (contains this other ≡ ok b)
        × ((b ≡ true)
            ↔ ((k : ℕ) → k < other.bv.size → bit other.bv k ≡ true → bit this.bv k ≡ true)))
      × ((ret : ElimSet) × (intersect this other ≡ ok ret)
          × IsVariableSet ret
          × (ret.o ≡ this.o)
          × ((k : ℕ) → bit ret.bv k ≡ (bit this.bv k && bit other.bv k)))
unfolding contains intersect
contains-intersect this other h k e =
    let both = (and_or_xor_lem this.bv other.bv 0 h.vector k.vector e).0 in
    let (b, runs, means) =
      equals_lem other.bv both.result k.vector both.valid (sym e ∙ sym both.same_size) in
    (
      (
        b,
        rw (both.returns, runs),
        (
          λ t i lt on. ground (arith, means.0 t i lt, both.bits i),
          λ sub. means.1 (λ i lt. ground (arith, both.bits i, sub i lt)),
        ),
      ),
      (
        create_from_bv this.o both.result,
        rw both.returns,
        record {
          vector = both.valid;
          width = both.same_size ∙ h.width;
          ordering = h.ordering;
          discrete = h.discrete;
        },
        refl,
        both.bits,
      ),
    )

-- A variable, for the half of the lemma on ranks that is not used here.
abbrev any_variable : Text → Variable
any_variable label = record { address = 0; label = label; cardinality = 1 }

add_at_label :
    (s : ElimSet) (label : Text) (r : Option ℕ)
    → IsVariableSet s
    → first_from (label_is label) 0 s.o.vbls ≡ r
    → (s' : ElimSet) × (add s label ≡ ok s')
      × IsVariableSet s'
      × (s'.o ≡ s.o)
      × ((k : ℕ) → bit s'.bv k ≡ (if is_rank r k then true else bit s.bv k))
unfolding add
add_at_label s label none h e = (
  s,
  rw ((get_variable_rank_lem s.o (any_variable label) label h.ordering).1, e),
  h,
  refl,
  λ k. refl,
)
add_at_label s label (some r) h e =
    let lt = (first_from-some (label_is label) s.o.vbls 0 r e).1 in
    let inside : r < s.bv.size = omega (arith, h.width, h.ordering, lt) in
    let (bv, sets, valid, size, bits) = set_bit_on_lem s.bv r h.vector inside in
    (
      record s { bv = bv },
      rw ((get_variable_rank_lem s.o (any_variable label) label h.ordering).1, e, sets),
      record {
        vector = valid;
        width = size ∙ h.width;
        ordering = h.ordering;
        discrete = h.discrete;
      },
      refl,
      bits,
    )

-- `ElimSet_Add` keeps a set well-formed; it turns on the bit of the first variable with the label
-- of the vertex, and for a label that the ordering does not have it changes nothing.
pub elim_set_add_lem :
    (s : ElimSet) (label : Text)
    → IsVariableSet s
    → (s' : ElimSet) × (add s label ≡ ok s')
      × IsVariableSet s'
      × (s'.o ≡ s.o)
      × ((k : ℕ)
          → bit s'.bv k
            ≡ (if is_rank (first_from (label_is label) 0 s.o.vbls) k then true else bit s.bv k))
elim_set_add_lem s label h = add_at_label s label (first_from (label_is label) 0 s.o.vbls) h refl

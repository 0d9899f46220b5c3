-- ===== src/MulInds/Same.antt =====
-- Index tables depend on the members of a set, not on the vector that holds them.
use junction_box.Base.{
  ℕ, Bool, ◌<◌, List, ◌≡◌, sym, ap, ap₂, ◌∙◌, arith, ◌||◌, length, length-map, ok, ◌>>=◌, read,
}
use junction_box.BitVector.Valid.{bit}
use junction_box.Radix.{product, encode}
use junction_box.Variables.{Variable, VariableOrdering}
use junction_box.VariableSet.{VariableSet}
use junction_box.VariableSet.Members.{IsVariableSet, members, select}
use junction_box.VariableSet.Ops.{cardinalities}
use junction_box.Indices.Bounds.{length-Digits}
use junction_box.MulInds.{MulInd}
use junction_box.MulInds.Table.{IsSplit, select_ext}
use junction_box.MulInds.Assignments.{InRange, index_of}
use junction_box.MulInds.Laws.{IsTable}

-- Two sets of one ordering with the same members.
pub record IsSame (s t : VariableSet) : Type 0 where
  pub first_set : IsVariableSet s
  pub second_set : IsVariableSet t
  pub one_ordering : s.o ≡ t.o
  pub bits : (k : ℕ) → k < s.bv.size → bit s.bv k ≡ bit t.bv k

module _ (s t : VariableSet) (h : IsSame s t) where
  wide : length s.o.vbls ≡ s.bv.size
  wide = sym (h.first_set.width ∙ h.first_set.ordering)

  same_select :
      {C : Type 0} (xs : List C)
      → length xs ≡ s.bv.size
      → select (bit s.bv) 0 xs ≡ select (bit t.bv) 0 xs
  same_select xs e = select_ext (bit s.bv) (bit t.bv) 0 xs (λ k lt. h.bits k (omega (arith, lt, e)))

  same_members : members s ≡ members t
  unfolding members
  same_members =
      same_select s.o.vbls wide
      ∙ ap (λ (o : VariableOrdering). select (bit t.bv) 0 o.vbls) h.one_ordering

  same_index : (a : List ℕ) → InRange s.o a → index_of s a ≡ index_of t a
  unfolding index_of
  same_index a range = ap₂ encode (ap cardinalities same_members) (
      same_select a
        (length-Digits _ a range ∙ length-map s.o.vbls (λ (v : Variable). v.cardinality) ∙ wide))

  -- A split of a set, and a table for it, are those of the same set.
  pub IsSplit-same : (first rest : VariableSet) → IsSplit first rest s → IsSplit first rest t
  IsSplit-same first rest p = record {
    first_set = p.first_set;
    second_set = p.second_set;
    over_set = h.second_set;
    first_o = p.first_o ∙ h.one_ordering;
    second_o = p.second_o ∙ h.one_ordering;
    disjoint = p.disjoint;
    union = λ k lt.
        let size : first.bv.size ≡ s.bv.size =
          p.first_set.width
          ∙ ap (λ (o : VariableOrdering). o.size) p.first_o
          ∙ sym h.first_set.width in
        sym (h.bits k (omega (arith, lt, size))) ∙ p.union k lt;
  }

  pub IsTable-same :
      (first rest : VariableSet) (mi : MulInd) → IsTable first rest s mi → IsTable first rest t mi
  IsTable-same first rest mi p = record {
    rows = p.rows;
    columns = p.columns;
    cells = λ a range.
        let range' : InRange s.o a = rw h.one_ordering range in
        p.cells a range' ∙ ap (λ (i : ℕ). ok i) (same_index a range');
  }

  one_size : t.bv.size ≡ s.bv.size
  one_size =
      h.second_set.width
      ∙ ap (λ (o : VariableOrdering). o.size) (sym h.one_ordering)
      ∙ sym h.first_set.width

  -- And so with a part of the split.
  pub part-IsSplit-same : (rest over : VariableSet) → IsSplit s rest over → IsSplit t rest over
  part-IsSplit-same rest over p = record {
    first_set = h.second_set;
    second_set = p.second_set;
    over_set = p.over_set;
    first_o = sym h.one_ordering ∙ p.first_o;
    second_o = p.second_o;
    disjoint = λ k lt e.
        let inside : k < s.bv.size = omega (arith, lt, one_size) in
        p.disjoint k inside (h.bits k inside ∙ e);
    union = λ k lt.
        let inside : k < s.bv.size = omega (arith, lt, one_size) in
        p.union k inside ∙ ap (λ (b : Bool). b || bit rest.bv k) (h.bits k inside);
  }

  pub part-IsTable-same :
      (rest over : VariableSet) (mi : MulInd)
      → s.o ≡ over.o
      → IsTable s rest over mi
      → IsTable t rest over mi
  part-IsTable-same rest over mi o p = record {
    rows = p.rows ∙ ap (λ (l : List Variable). product (cardinalities l)) same_members;
    columns = p.columns;
    cells = λ a range.
        let range' : InRange s.o a = rw o range in
        ap (λ (i : ℕ). read mi.second_indices i >>= λ row. read row (index_of rest a))
          (sym (same_index a range'))
        ∙ p.cells a range;
  }

-- ===== src/MulInds/Laws.antt =====
-- `ComputeMargInd`, `ComputeMulInd` and `CreateIdentity`.
use junction_box.Base.{
  ℕ, zero, suc, ◌+◌, ◌<◌, ◌⊎◌, false, List, [], ◌∷◌, map, ◌≡◌, refl, sym, ap, ◌∙◌, arith, inl, inr,
  ◌==◌, none, some, length, ok, ◌>>=◌, read,
}
use junction_box.Radix.{product}
use junction_box.Radix.Laws.{product-pos}
use junction_box.BitVector.Valid.{bit}
use junction_box.VariableSet.{VariableSet, create_from_bv}
use junction_box.VariableSet.Members.{IsVariableSet, members}
use junction_box.VariableSet.Ops.{set_views}
use junction_box.Indices.{enumerate_values}
use junction_box.Indices.Laws.{
  cards, cards-pos_of, count_up, enumerate_values_lem, enumerate_values_empty,
}
use junction_box.MulInds.{
  MulInd, table_loop, compute_marg_ind, compute_mul_ind, create_identity, identity_loop,
}
use junction_box.MulInds.Table.{IsSplit, table_row, table_lem, members_split}
use junction_box.MulInds.Assignments.{InRange, index_of, combinations, full_table, full_table_lem}
use junction_box.MulInds.Difference.{
  Contained, xor_swap, difference-IsSplit, length-combinations, combinations_rows, table_run,
  difference,
}

-- The table of two sets and their union: for every assignment, the row of the first set's index
-- and the column of the second set's index have the index of the union.
pub record IsTable (first second over : VariableSet) (mi : MulInd) : Type 0 where
  pub rows : mi.first_indices ≡ product (cards first)
  pub columns : mi.mul_size ≡ product (cards second)
  pub cells :
      (a : List ℕ)
      → InRange over.o a
      → (read mi.second_indices (index_of first a) >>= λ row. read row (index_of second a))
        ≡ ok (index_of over a)

unfoldable pub full : VariableSet → VariableSet → VariableSet → VariableSet → MulInd
full vbls first second over = record {
  vbls = vbls;
  first_indices = product (cards first);
  mul_size = product (cards second);
  second_indices = full_table first second over;
}

pub full-IsTable :
    (vbls first second over : VariableSet)
    → IsSplit first second over
    → IsTable first second over (full vbls first second over)
unfolding full
full-IsTable vbls first second over h = record {
  rows = refl;
  columns = refl;
  cells = λ a d. full_table_lem first second over a h d;
}

zero_or_pos : (n : ℕ) → (n ≡ 0) ⊎ (0 < n)
zero_or_pos zero = inl refl
zero_or_pos (suc n) = inr (omega arith)

-- The rows of a set that is not empty, and their number.
listed :
    (s : VariableSet)
    → IsVariableSet s
    → 0 < length (members s)
    → enumerate_values s ≡ ok (combinations s, product (cards s))
listed s h n = enumerate_values_lem s h n

some_rows : (s : VariableSet) → IsVariableSet s → (product (cards s) == 0) ≡ false
some_rows s h = let p = product-pos (cards s) (cards-pos_of s h) in ground arith

module _ (fresh : ℕ → List ℕ) (this target : VariableSet) (fits : (n : ℕ) → length (fresh n) ≡ n)
    (hs : IsVariableSet this) (ht : IsVariableSet target) (o : this.o ≡ target.o) where
  -- The result of `ComputeMargInd`, for variables among those of `this`.
  pub marg_run :
      Contained target this
      → 0 < length (members target)
      → (rest : VariableSet) × IsSplit target rest this
        × (((length (members rest) ≡ 0) × (compute_marg_ind fresh this target ≡ ok none))
            ⊎ ((0 < length (members rest))
                × (compute_marg_ind fresh this target ≡ ok (some (full rest target rest this)))))
  unfolding compute_marg_ind full
  marg_run sub n =
      let d = difference this target hs ht o in
      let rest = create_from_bv this.o d.vector in
      let split : IsSplit target rest this =
        difference-IsSplit target rest this ht d.valid hs (sym o) refl
          (λ i. d.bits i ∙ xor_swap (bit this.bv i) (bit target.bv i)) sub in
      let some_member : 0 < length (members this) =
        omega (arith, members_split target rest this split) in
      (
        rest,
        split,
        elim (zero_or_pos (length (members rest))) [
          | inl e ↦ inl (e, rw (d.returns, enumerate_values_empty rest d.valid e))
          | inr p ↦ inr (
            p,
            rw (
              d.returns,
              listed rest d.valid p,
              some_rows rest d.valid,
              listed target ht n,
              table_run fresh target rest this fits split some_member,
            ),
          )
        ],
      )

  -- For a target that is not empty and whose variables are among those of `this`,
  -- `ComputeMargInd` returns NULL when no variable is left to sum over, and else the table by
  -- which the potential is summed: for every assignment it leads from the index of the target's
  -- values and the index of the values that are summed over to the index of all values. The
  -- variables that it stores are those that are summed over.
  pub compute_marg_ind_lem :
      Contained target this
      → 0 < length (members target)
      → (rest : VariableSet) × IsSplit target rest this
        × (((length (members rest) ≡ 0) × (compute_marg_ind fresh this target ≡ ok none))
            ⊎ ((0 < length (members rest))
                × ((mi : MulInd) × (compute_marg_ind fresh this target ≡ ok (some mi))
                    × (mi.vbls ≡ rest)
                    × IsTable target rest this mi)))
  compute_marg_ind_lem sub n =
      let (rest, split, run) = marg_run sub n in
      (
        rest,
        split,
        elim run [
          | inl none_left ↦ inl none_left
          | inr (p, r) ↦ inr (
            p,
            (
              full rest target rest this,
              r,
              unfold full in refl,
              full-IsTable rest target rest this split,
            ),
          )
        ],
      )

  -- The table of `ComputeMulInd` when the target has another variable.
  pub mul_run :
      (sub : Contained this target)
      → 0 < length (members this)
      → (rest : VariableSet) × IsSplit this rest target
        × (((length (members rest) ≡ 0)
              × (compute_mul_ind fresh this target
                  ≡ ok (record {
                    vbls = this;
                    first_indices = product (cards this);
                    mul_size = 0;
                    second_indices = map (table_row this rest target []) (combinations this);
                  })))
            ⊎ ((0 < length (members rest))
                × (compute_mul_ind fresh this target ≡ ok (full this this rest target))))
  unfolding compute_mul_ind full
  mul_run sub n =
      let d = difference this target hs ht o in
      let rest = create_from_bv this.o d.vector in
      let split : IsSplit this rest target =
        difference-IsSplit this rest target hs d.valid ht o o d.bits sub in
      let some_member : 0 < length (members target) =
        omega (arith, members_split this rest target split) in
      (
        rest,
        split,
        elim (zero_or_pos (length (members rest))) [
          | inl e ↦
              let bare =
                ap (λ (m : ℕ). table_loop fresh this (combinations this) rest [] 0 target m 0)
                  (sym (length-combinations this))
                ∙ table_lem this rest target split fresh fits some_member [] tt (combinations this)
                    [] 0 (combinations_rows this) refl in
              inl (e, rw (d.returns, enumerate_values_empty rest d.valid e, listed this hs n, bare))
          | inr p ↦ inr (
            p,
            rw (
              d.returns,
              listed rest d.valid p,
              listed this hs n,
              table_run fresh this rest target fits split some_member,
            ),
          )
        ],
      )

  -- For a set `this` that is not empty and whose variables are among those of the target,
  -- `ComputeMulInd` returns a table that stores `this`. When the target has no other variable its
  -- rows are empty; else it leads, for every assignment, from the index of the values of `this`
  -- and the index of the other values to the index of the target's values.
  pub compute_mul_ind_lem :
      Contained this target
      → 0 < length (members this)
      → (rest : VariableSet) × IsSplit this rest target
        × ((mi : MulInd) × (compute_mul_ind fresh this target ≡ ok mi)
            × (mi.vbls ≡ this)
            × (((length (members rest) ≡ 0) × (mi.mul_size ≡ 0))
                ⊎ ((0 < length (members rest)) × IsTable this rest target mi)))
  compute_mul_ind_lem sub n =
      let (rest, split, run) = mul_run sub n in
      (
        rest,
        split,
        elim run [
          | inl (e, r) ↦ (_, r, refl, inl (e, refl))
          | inr (p, r) ↦
              (_, r, unfold full in refl, inr (p, full-IsTable this this rest target split))
        ],
      )

singles : (i n : ℕ) → identity_loop n i ≡ map (λ k. k ∷ []) (count_up i n)
unfolding identity_loop count_up
singles i zero = refl
singles i (suc n) = ap (λ (l : List (List ℕ)). (i ∷ []) ∷ l) (singles (i + 1) n)

-- `CreateIdentity` returns the table with one row for each index of the target, and the index
-- itself in it.
pub create_identity_lem :
    (target : VariableSet)
    → IsVariableSet target
    → create_identity target
      ≡ ok (record {
        vbls = target;
        first_indices = product (cards target);
        mul_size = 1;
        second_indices = map (λ k. k ∷ []) (count_up 0 (product (cards target)));
      })
unfolding create_identity
create_identity_lem target h = rw ((set_views target h).3, singles 0 (product (cards target)))

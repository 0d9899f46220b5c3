-- ===== src/MulInds.antt =====
-- src/components/JB_Pot/JB_Pot.c, lines 304 to 450: for each index of a table, the indices of
-- another table that belong to it.
--
-- NULL is `none`. What the functions free is not modelled.
pub mod Table
pub mod Assignments
pub mod Digits
pub mod Difference
pub mod Laws
pub mod Memo
pub mod Same
pub mod Memos
use junction_box.Base.{
  ℕ, zero, suc, ◌+◌, Bool, true, false, List, [], ◌∷◌, ◌==◌, if◌then◌else◌, Option, none, some,
  Outcome, ok, ◌>>=◌, read,
}
use junction_box.BitVector
use junction_box.BitVector.{BitVector}
use junction_box.VariableSet.{VariableSet, create_from_bv, get_cardinality}
use junction_box.Indices.{enumerate_values, compute_indices}
use junction_box.Crossing.{index_cross}
use junction_box.AssocMap.{Assoc}
use junction_box.AssocMap.BitVectorMap
use junction_box.AssocMap.BitVectorMap.{BitVectorMap}

pub record MulInd : Type 0 where
  pub vbls : VariableSet
  pub first_indices : ℕ
  pub mul_size : ℕ
  pub second_indices : List (List ℕ)

-- A block with one integer.
abbrev pub indirect : ℕ → List ℕ
indirect i = i ∷ []

pub identity_loop : ℕ → ℕ → List (List ℕ)
identity_loop zero i = []
identity_loop (suc left) i = indirect i ∷ identity_loop left (i + 1)

-- `MulInd_CreateIdentity`
unfoldable pub create_identity : VariableSet → Outcome MulInd
unfolding identity_loop
create_identity target = do
  first_indices ← get_cardinality target
  ok (record {
    vbls = target;
    first_indices = first_indices;
    mul_size = 1;
    second_indices = identity_loop first_indices 0;
  })

module _ (fresh : ℕ → List ℕ) where
  -- The loop of `VariableSet_ComputeMargInd` and of `VariableSet_ComputeMulInd`: the rows of
  -- `first` are crossed with all rows of `second` and turned into indices for `over`.
  pub table_loop :
      VariableSet
      → List (List ℕ)
      → VariableSet
      → List (List ℕ)
      → ℕ
      → VariableSet
      → ℕ
      → ℕ
      → Outcome (List (List ℕ))
  table_loop first firsts second seconds card over zero i = ok []
  table_loop first firsts second seconds card over (suc left) i = do
    values ← read firsts i
    rows ← index_cross fresh first values second seconds card
    indices ← compute_indices over rows card
    rest ← table_loop first firsts second seconds card over left (i + 1)
    ok (indices ∷ rest)

  -- `VariableSet_ComputeMargInd`
  unfoldable pub compute_marg_ind : VariableSet → VariableSet → Outcome (Option MulInd)
  unfolding table_loop
  compute_marg_ind this target = do
    (_, marg_bits) ← BitVector.xor_ this.bv target.bv 0
    let marg_vars = create_from_bv this.o marg_bits
    (marg_indices, sum_cardinality) ← enumerate_values marg_vars
    let rest = (do
      (new_pot_indices, new_pot_cardinality) ← enumerate_values target
      sum_indices ←
          table_loop target new_pot_indices marg_vars marg_indices sum_cardinality this
            new_pot_cardinality 0
      ok (
          some (record {
            vbls = marg_vars;
            first_indices = new_pot_cardinality;
            mul_size = sum_cardinality;
            second_indices = sum_indices;
          })))
    if sum_cardinality == 0 then ok none else rest

  -- `VariableSet_ComputeMulInd`
  unfoldable pub compute_mul_ind : VariableSet → VariableSet → Outcome MulInd
  unfolding table_loop
  compute_mul_ind this target = do
    (_, itr_bits) ← BitVector.xor_ this.bv target.bv 0
    let itr_vars = create_from_bv this.o itr_bits
    (itr_indices, itr_cardinality) ← enumerate_values itr_vars
    (this_indices, this_cardinality) ← enumerate_values this
    target_indices ←
        table_loop this this_indices itr_vars itr_indices itr_cardinality target this_cardinality 0
    ok (record {
      vbls = this;
      first_indices = this_cardinality;
      mul_size = itr_cardinality;
      second_indices = target_indices;
    })

-- A memo: the contents for a target, by the vector of its members. `MulMemo_GetMulInd` and
-- `MulMemo_GetMargInd` differ in what they compute when there is nothing.
module _ {V : Type 0} (compute : VariableSet → Outcome V) where
  unfoldable pub memo_get : BitVectorMap V → VariableSet → Outcome (BitVectorMap V × V)
  memo_get this target = do
    me ← BitVectorMap.get this target.bv
    elim me [
      | [] ↦ (do ret ← compute target; this' ← BitVectorMap.add this target.bv ret; ok (this', ret))
      | (bv, contents) ∷ _ ↦ ok (this, contents)
    ]

unfoldable pub get_mul_ind :
    (ℕ → List ℕ)
    → BitVectorMap MulInd
    → VariableSet
    → VariableSet
    → Outcome (BitVectorMap MulInd × MulInd)
unfolding memo_get
get_mul_ind fresh this vbls target = memo_get (compute_mul_ind fresh vbls) this target

unfoldable pub get_marg_ind :
    (ℕ → List ℕ)
    → BitVectorMap (Option MulInd)
    → VariableSet
    → VariableSet
    → Outcome (BitVectorMap (Option MulInd) × Option MulInd)
unfolding memo_get
get_marg_ind fresh this vbls target = memo_get (compute_marg_ind fresh vbls) this target

-- `MulMemo_Has`: the element of the map is returned in place of its contents.
unfoldable pub memo_has : BitVectorMap MulInd → VariableSet → Outcome (List (BitVector × MulInd))
memo_has this target = BitVectorMap.get this target.bv

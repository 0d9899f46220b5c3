-- ===== src/MulInds/Memos.antt =====
-- `MulMemo_GetMulInd` and `MulMemo_GetMargInd`: the memos of the tables of one set.
use junction_box.Base.{
  ℕ, ◌<◌, ◌⊎◌, inl, inr, true, List, ◌≡◌, refl, sym, ap, ◌∙◌, arith, length, if◌then◌else◌, Option,
  none, some, ok,
}
use junction_box.BitVector.{BitVector}
use junction_box.AssocMap.BitVectorMap.{BitVectorMap}
use junction_box.AssocMap.Laws.{lookup}
use junction_box.AssocMap.Keys.{bits_eq, bits_eq_iff, bits_keys}
use junction_box.Variables.{VariableOrdering}
use junction_box.VariableSet.{VariableSet}
use junction_box.VariableSet.Members.{IsVariableSet, members}
use junction_box.MulInds.{MulInd, compute_mul_ind, compute_marg_ind, get_mul_ind, get_marg_ind}
use junction_box.MulInds.Table.{IsSplit}
use junction_box.MulInds.Difference.{Contained}
use junction_box.MulInds.Laws.{IsTable, compute_mul_ind_lem, compute_marg_ind_lem}
use junction_box.MulInds.Same.{
  IsSame, IsSplit-same, IsTable-same, part-IsSplit-same, part-IsTable-same,
}
use junction_box.MulInds.Memo.{IsSound, memo_get_lem}

-- The table of a set in a target, as `ComputeMulInd` makes it.
abbrev pub IsMulTable : VariableSet → VariableSet → MulInd → Type 0
IsMulTable this target mi =
    (rest : VariableSet) × IsSplit this rest target
    × (mi.vbls ≡ this)
    × (((length (members rest) ≡ 0) × (mi.mul_size ≡ 0))
        ⊎ ((0 < length (members rest)) × IsTable this rest target mi))

-- The table for the sums onto a target, as `ComputeMargInd` makes it.
abbrev pub IsMargTable : VariableSet → VariableSet → Option MulInd → Type 0
IsMargTable this target o =
    (rest : VariableSet) × IsSplit target rest this
    × (((length (members rest) ≡ 0) × (o ≡ none))
        ⊎ ((0 < length (members rest))
            × ((mi : MulInd) × (o ≡ some mi) × (mi.vbls ≡ rest) × IsTable target rest this mi)))

-- What the memo of `this` may hold for a key: the table in every target with the bits of the key.
abbrev pub MulRight : VariableSet → BitVector → MulInd → Type 0
MulRight this id mi =
    (target : VariableSet)
    → IsVariableSet target
    → this.o ≡ target.o
    → Contained this target
    → bits_eq this.bv.size id target.bv ≡ true
    → IsMulTable this target mi

-- The same for the sums of a set onto every target with the bits of the key.
abbrev pub MargRight : VariableSet → BitVector → Option MulInd → Type 0
MargRight this id o =
    (target : VariableSet)
    → IsVariableSet target
    → this.o ≡ target.o
    → Contained target this
    → bits_eq this.bv.size id target.bv ≡ true
    → IsMargTable this target o

module _ (fresh : ℕ → List ℕ) (this : VariableSet) where
  pub mul_respects :
      (a b : BitVector) (mi : MulInd)
      → bits_eq this.bv.size a b ≡ true
      → MulRight this a mi
      → MulRight this b mi
  mul_respects a b mi e right target ht o sub f =
      right target ht o sub ((bits_keys this.bv.size).transitive a b target.bv e f)

  pub marg_respects :
      (a b : BitVector) (mi : Option MulInd)
      → bits_eq this.bv.size a b ≡ true
      → MargRight this a mi
      → MargRight this b mi
  marg_respects a b mi e right target ht o sub f =
      right target ht o sub ((bits_keys this.bv.size).transitive a b target.bv e f)

  -- The memos of the set: they hold tables of it.
  abbrev pub IsMulMemo : BitVectorMap MulInd → Type 0
  IsMulMemo memo =
      IsSound this.bv.size (compute_mul_ind fresh this) (MulRight this) mul_respects memo

  abbrev pub IsMargMemo : BitVectorMap (Option MulInd) → Type 0
  IsMargMemo memo =
      IsSound this.bv.size (compute_marg_ind fresh this) (MargRight this) marg_respects memo

  -- What a memo holds after a target was looked for.
  abbrev pub Holds : {V : Type 0} → VariableSet → V → BitVectorMap V → BitVectorMap V → Type 0
  Holds target v memo memo' =
      (id : BitVector)
      → lookup (bits_keys this.bv.size) id memo'.first ≡ (
          if bits_eq this.bv.size target.bv id
          then some v
          else lookup (bits_keys this.bv.size) id memo.first)

  one_width :
      (s : VariableSet)
      → IsVariableSet this
      → IsVariableSet s
      → this.o ≡ s.o
      → s.bv.size ≡ this.bv.size
  one_width s h hs o = hs.width ∙ ap (λ (v : VariableOrdering). v.size) (sym o) ∙ sym h.width

  IsSame-set :
      (s t : VariableSet)
      → IsVariableSet this
      → IsVariableSet s
      → IsVariableSet t
      → this.o ≡ s.o
      → this.o ≡ t.o
      → bits_eq this.bv.size s.bv t.bv ≡ true
      → IsSame s t
  IsSame-set s t h hs ht o o' e =
      let size = one_width s h hs o in
      record {
        first_set = hs;
        second_set = ht;
        one_ordering = sym o ∙ o';
        bits = λ k lt. (bits_eq_iff this.bv.size s.bv t.bv).0 e k (omega (arith, lt, size));
      }

  -- What is computed for a target is right for its key.
  mul_right :
      (target : VariableSet)
      → ((n : ℕ) → length (fresh n) ≡ n)
      → IsVariableSet this
      → IsVariableSet target
      → this.o ≡ target.o
      → Contained this target
      → 0 < length (members this)
      → (mi : MulInd) × (compute_mul_ind fresh this target ≡ ok mi) × MulRight this target.bv mi
  mul_right target fits h ht o sub n =
      let (rest, split, (mi, computes, stores, table)) =
        compute_mul_ind_lem fresh this target fits h ht o sub n in
      (
        mi,
        computes,
        λ t hu o' sub' e.
            let same = IsSame-set target t h ht hu o o' e in
            (
              rest,
              IsSplit-same target t same this rest split,
              stores,
              elim table [
                | inl bare ↦ inl bare
                | inr (p, is) ↦ inr (p, IsTable-same target t same this rest mi is)
              ],
            ),
      )

  marg_right :
      (target : VariableSet)
      → ((n : ℕ) → length (fresh n) ≡ n)
      → IsVariableSet this
      → IsVariableSet target
      → this.o ≡ target.o
      → Contained target this
      → 0 < length (members target)
      → (mi : Option MulInd) × (compute_marg_ind fresh this target ≡ ok mi)
        × MargRight this target.bv mi
  marg_right target fits h ht o sub n =
      let (rest, split, run) = compute_marg_ind_lem fresh this target fits h ht o sub n in
      elim run [
        | inl (none_left, computes) ↦ (
          none,
          computes,
          λ t hu o' sub' e.
              let same = IsSame-set target t h ht hu o o' e in
              (rest, part-IsSplit-same target t same rest this split, inl (none_left, refl)),
        )
        | inr (p, (mi, computes, stores, is)) ↦ (
          some mi,
          computes,
          λ t hu o' sub' e.
              let same = IsSame-set target t h ht hu o o' e in
              (
                rest,
                part-IsSplit-same target t same rest this split,
                inr (
                  p,
                  (mi, refl, stores, part-IsTable-same target t same rest this mi (sym o) is),
                ),
              ),
        )
      ]

  -- `MulMemo_GetMulInd` for a target `over` that has the variables of `this`, at least one, and
  -- `MulMemo_GetMargInd` for a target `onto` whose variables, at least one, are among those of
  -- `this`, with memos that hold tables of `this`. Both succeed with a table of `this` and the
  -- target, whether the memo has it or not: that of the product, whose rows are empty when no
  -- variable is left, and that of the sums, which is NULL when no variable is left. The memo then
  -- holds what they return for the target, what it held for every other key, and only tables of
  -- `this`.
  pub memo_tables_lem :
      (over onto : VariableSet) (memo : BitVectorMap MulInd)
      (marg_memo : BitVectorMap (Option MulInd))
      → ((n : ℕ) → length (fresh n) ≡ n)
      → IsVariableSet this
      → IsVariableSet over
      → IsVariableSet onto
      → this.o ≡ over.o
      → this.o ≡ onto.o
      → Contained this over
      → 0 < length (members this)
      → Contained onto this
      → 0 < length (members onto)
      → IsMulMemo memo
      → IsMargMemo marg_memo
      → ((memo' : BitVectorMap MulInd) × (mi : MulInd) × (get_mul_ind fresh memo this over
            ≡ ok (memo', mi))
          × IsMulTable this over mi
          × IsMulMemo memo'
          × Holds over mi memo memo')
        × ((memo' : BitVectorMap (Option MulInd)) × (mi : Option MulInd) × (get_marg_ind fresh
                marg_memo this onto
              ≡ ok (memo', mi))
            × IsMargTable this onto mi
            × IsMargMemo memo'
            × Holds onto mi marg_memo memo')
  unfolding get_mul_ind get_marg_ind
  memo_tables_lem over onto memo marg_memo fits h hv ht o o' sub n sub' n' s s' =
      let (mi, computes, right) = mul_right over fits h hv o sub n in
      let (mi', computes', right') = marg_right onto fits h ht o' sub' n' in
      let got =
        memo_get_lem this.bv.size (compute_mul_ind fresh this) (MulRight this) mul_respects memo
          over mi s hv.vector (one_width over h hv o) computes right in
      let got' =
        memo_get_lem this.bv.size (compute_marg_ind fresh this) (MargRight this) marg_respects
          marg_memo onto mi' s' ht.vector (one_width onto h ht o') computes' right' in
      (
        (
          got.memo',
          got.result,
          got.returns,
          got.right over hv o sub ((bits_keys this.bv.size).reflexive over.bv),
          got.sound,
          got.stored,
        ),
        (
          got'.memo',
          got'.result,
          got'.returns,
          got'.right onto ht o' sub' ((bits_keys this.bv.size).reflexive onto.bv),
          got'.sound,
          got'.stored,
        ),
      )

-- ===== src/Potentials/Absorbed.antt =====
-- The product of a table into the potential of a clique, by the indices of `ComputeMargInd`.
use junction_box.Base.{
  some, none, ok, ℕ, zero, suc, ◌+◌, ◌<◌, Bool, false, Bool-cases, List, [], ◌∷◌, ◌≡◌, refl, sym,
  ap, ap₂, ◌∙◌, arith, length, length-map, map, get_or, get_or_default, get_or-zip_with,
  length-zip_with, zip_with, Option, inl, inr,
}
use junction_box.BitVector.Valid.{bit}
use junction_box.Radix.{product, encode}
use junction_box.Variables.{Variable, VariableOrdering}
use junction_box.VariableSet.{VariableSet}
use junction_box.VariableSet.Members.{members, select}
use junction_box.Indices.Laws.{cards}
use junction_box.Indices.Bounds.{length-Digits}
use junction_box.MulInds.{MulInd, compute_marg_ind}
use junction_box.MulInds.Table.{IsSplit, select_ext}
use junction_box.MulInds.Difference.{Contained}
use junction_box.MulInds.Assignments.{InRange, index_of, index_of_lem}
use junction_box.MulInds.Laws.{full, marg_run}
use junction_box.Potentials.{Pot, product_tabular}
use junction_box.Potentials.Sizes.{IsPot}
use junction_box.Potentials.Product.{product_full}
use junction_box.Potentials.Pointwise.{product_pointwise_lem}
use junction_box.Potentials.Entries.{hits-full_table}

-- A selection that is empty takes nothing.
select_none :
    {A : Type 0} (p : ℕ → Bool) (i : ℕ) (xs : List A)
    → length (select p i xs) ≡ 0
    → (k : ℕ) → k < length xs
    → p (i + k) ≡ false
unfolding select
select_none p i [] e k lt = absurd (omega arith)
select_none p i (x ∷ xs) e k lt = elim (Bool-cases (p i)) [
  | inl on ↦
      let some_one : suc (length (select p (i + 1) xs)) ≡ 0 = sym (rw on) ∙ e in
      absurd (omega arith)
  | inr off ↦
      let none_later : length (select p (i + 1) xs) ≡ 0 = sym (rw off) ∙ e in
      later k lt off (select_none p (i + 1) xs none_later)
]
  where
    later :
        (k : ℕ)
        → k < suc (length xs)
        → p i ≡ false
        → ((j : ℕ) → j < length xs → p (i + 1 + j) ≡ false)
        → p (i + k) ≡ false
    later zero lt off rest = ap p (omega arith) ∙ off
    later (suc j) lt off rest = ap p (omega arith) ∙ rest j (omega arith)

module _ (first rest over : VariableSet) (h : IsSplit first rest over)
    (none_left : length (members rest) ≡ 0) where
  -- Nothing is left, so that the two sets are the same.
  same_bits : (k : ℕ) → k < first.bv.size → bit over.bv k ≡ bit first.bv k
  unfolding members
  same_bits k lt =
      let size : length rest.o.vbls ≡ first.bv.size =
        ap (λ (o : VariableOrdering). length o.vbls) (h.second_o ∙ sym h.first_o)
        ∙ sym h.first_set.ordering
        ∙ sym h.first_set.width in
      let off : bit rest.bv k ≡ false =
        ap (bit rest.bv) (omega arith)
        ∙ select_none (bit rest.bv) 0 rest.o.vbls none_left k (omega (arith, size, lt)) in
      h.union k lt ∙ rw off (ground arith)

  same_select :
      {C : Type 0} (xs : List C)
      → length xs ≡ first.bv.size
      → select (bit over.bv) 0 xs ≡ select (bit first.bv) 0 xs
  same_select xs e =
      select_ext (bit over.bv) (bit first.bv) 0 xs (λ k lt. same_bits k (omega (arith, lt, e)))

  same_members : members over ≡ members first
  unfolding members
  same_members =
      ap (λ (o : VariableOrdering). select (bit over.bv) 0 o.vbls) (sym h.first_o)
      ∙ same_select first.o.vbls (sym h.first_set.ordering ∙ sym h.first_set.width)

  same_cards : cards over ≡ cards first
  same_cards = ap (map (λ (v : Variable). v.cardinality)) same_members

  same_index : (a : List ℕ) → InRange over.o a → index_of over a ≡ index_of first a
  unfolding index_of
  same_index a range =
      let size : length a ≡ first.bv.size =
        length-Digits _ a range
        ∙ length-map over.o.vbls (λ (v : Variable). v.cardinality)
        ∙ ap (λ (o : VariableOrdering). length o.vbls) (sym h.first_o)
        ∙ sym h.first_set.ordering
        ∙ sym h.first_set.width in
      ap₂ encode same_cards (same_select a size)

-- An entry of a pointwise table.
entry_at :
    {N : Type 0} (op : N → N → N) (p q : Pot N)
    → IsPot p
    → IsPot q
    → p.table_size ≡ q.table_size
    → (a : List ℕ) (d : N) → index_of q.vbls a < product (cards q.vbls)
    → get_or (zip_with op p.tab_data q.tab_data) (index_of q.vbls a) d
      ≡ op (get_or p.tab_data (index_of q.vbls a) d) (get_or q.tab_data (index_of q.vbls a) d)
entry_at op p q h k e a d lt =
    let same : length p.tab_data ≡ length q.tab_data = h.filled ∙ e ∙ sym k.filled in
    let inside : index_of q.vbls a < length (zip_with op p.tab_data q.tab_data) =
      omega (arith, length-zip_with op p.tab_data q.tab_data same, same, k.filled, k.sized) in
    get_or_default (zip_with op p.tab_data q.tab_data) (index_of q.vbls a) d (op d d) inside
    ∙ get_or-zip_with op p.tab_data q.tab_data (index_of q.vbls a) d d same

-- The product of a well-formed potential `p` over variables of `q`, at least one, into the
-- well-formed potential `q`, by what `ComputeMargInd` returns for the two sets, is a well-formed
-- potential over the variables of `q`. Its entry for every assignment of values in range is the
-- operation applied to the entries of `p` and of `q`, also when the two have the same variables.
pub product_marg-entries :
    {N : Type 0} (op : N → N → N) (p q : Pot N) (fresh : ℕ → List ℕ)
    → IsPot p
    → IsPot q
    → ((n : ℕ) → length (fresh n) ≡ n)
    → p.vbls.o ≡ q.vbls.o
    → Contained p.vbls q.vbls
    → 0 < length (members p.vbls)
    → (mi : Option MulInd) × (compute_marg_ind fresh q.vbls p.vbls ≡ ok mi)
      × ((q' : Pot N) × (product_tabular op p q mi ≡ ok q')
          × IsPot q'
          × (q'.vbls ≡ q.vbls)
          × ((a : List ℕ) (d : N)
              → InRange q.vbls.o a
              → get_or q'.tab_data (index_of q.vbls a) d
                ≡ op
                    (get_or p.tab_data (index_of p.vbls a) d)
                    (get_or q.tab_data (index_of q.vbls a) d)))
unfolding product_tabular full
product_marg-entries {N = N} op p q fresh h k fits o sub n =
    let (rest, split, run) = marg_run fresh q.vbls p.vbls fits k.set h.set (sym o) sub n in
    elim run [
      | inl (none_left, r) ↦
          let same = same_cards p.vbls rest q.vbls split none_left in
          let sizes : p.table_size ≡ q.table_size = h.sized ∙ ap product (sym same) ∙ sym k.sized in
          let (q', times, pot, vbls, table) = product_pointwise_lem op p q h k sizes in
          (
            none,
            r,
            (
              q',
              times,
              pot,
              vbls,
              λ a d range.
                  ap (λ (l : List N). get_or l (index_of q.vbls a) d) table
                  ∙ entry_at op p q h k sizes a d (index_of_lem q.vbls a range).0
                  ∙ ap
                      (λ (i : ℕ).
                        op (get_or p.tab_data i d) (get_or q.tab_data (index_of q.vbls a) d))
                      (same_index p.vbls rest q.vbls split none_left a range),
            ),
          )
      | inr (_, r) ↦
          let c = product_full op p q rest h k split in
          (
            some (full rest p.vbls rest q.vbls),
            r,
            (
              record q { tab_data = c.after },
              rw c.returns,
              record { set = k.set; sized = k.sized; filled = c.same_length },
              refl,
              λ a d range.
                  c.values (index_of q.vbls a) d
                    (let (lt, _) = index_of_lem q.vbls a range in omega (arith, lt, k.sized))
                  ∙ hits-full_table p.vbls rest q.vbls a split range op p.tab_data
                      (get_or q.tab_data (index_of q.vbls a) d) d (h.filled ∙ h.sized),
            ),
          )
    ]

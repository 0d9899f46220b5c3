-- ===== src/Inference/Message.antt =====
-- What one message does: JB_Inference.c, `MessagePass`.
use junction_box.Base.{
  ℕ, ◌+◌, ◌<◌, false, List, [], ◌∷◌, map, get_or, All, ◌≡◌, sym, ap, ◌∙◌, some, length, set,
  get_elem?, ok,
}
use junction_box.BitVector
use junction_box.BitVector.{BitVector}
use junction_box.AssocMap
use junction_box.AssocMap.BitVectorMap
use junction_box.AssocMap.BitVectorMap.{BitVectorMap}
use junction_box.AssocMap.Keys.{bits_eq}
use junction_box.CString.Laws.{IsText}
use junction_box.Radix.{product}
use junction_box.Variables.{Variable}
use junction_box.VariableSet.{VariableSet}
use junction_box.VariableSet.Members.{members}
use junction_box.Indices.Laws.{cards}
use junction_box.MulInds.{MulInd, compute_mul_ind, memo_get, get_mul_ind}
use junction_box.MulInds.Table.{IsSplit}
use junction_box.MulInds.Assignments.{InRange, index_of, index_of_lem, full_table}
use junction_box.Potentials.{
  Numbers, Pot, margin_values, sum_margin_tabular, ratio, update_ratio_tabular, product_tabular,
}
use junction_box.Potentials.Sizes.{IsPot, update_ratio_tabular_lem}
use junction_box.Potentials.Margin.{gather}
use junction_box.Inference.{
  Clique, Separator, ElimTree, Mode, plain_mode, find_indices, message, message_pass,
}
use junction_box.Graph.{Vertex, Edge, annotate_vertex, annotate_edge}
use junction_box.Inference.Beside.{IsBeside, bits_differ, margin_of, product_of, ratio_at}

-- A memo with one table, and with two.
abbrev one_table : BitVector → MulInd → BitVectorMap MulInd
one_table bv mi = record { first = (bv, mi) ∷ []; size = 0 + 1 }

abbrev two_tables : BitVector → MulInd → BitVector → MulInd → BitVectorMap MulInd
two_tables bv mi bv' mi' = record { first = (bv', mi') ∷ (bv, mi) ∷ []; size = 0 + 1 + 1 }

module _ {N : Type 0} (mode : Mode N) (fresh : ℕ → List ℕ) (fresh_numbers : ℕ → List N) where
  first_find :
      (sep pot : Pot N) (mi : MulInd)
      → compute_mul_ind fresh sep.vbls pot.vbls ≡ ok mi
      → find_indices mode fresh fresh_numbers BitVectorMap.create sep pot
        ≡ ok (one_table pot.vbls.bv mi, mi)
  unfolding find_indices get_mul_ind memo_get AssocMap.add AssocMap.get BitVectorMap.add
      BitVectorMap.get
  first_find sep pot mi e = rw e

  second_find :
      (sep pot : Pot N) (bv : BitVector) (mi mi' : MulInd)
      → BitVector.equals bv pot.vbls.bv ≡ ok false
      → compute_mul_ind fresh sep.vbls pot.vbls ≡ ok mi'
      → find_indices mode fresh fresh_numbers (one_table bv mi) sep pot
        ≡ ok (two_tables bv mi pot.vbls.bv mi', mi')
  unfolding find_indices get_mul_ind memo_get AssocMap.add AssocMap.get BitVectorMap.add
      BitVectorMap.get
  second_find sep pot bv mi mi' differ e = rw (differ, e, differ)

module _ {N : Type 0} (num : Numbers N) (fresh : ℕ → List ℕ) (fresh_numbers : ℕ → List N) where
  message_runs :
      (sep caller receiver marg update receiver' : Pot N) (mi mi' : MulInd)
      → BitVector.equals caller.vbls.bv receiver.vbls.bv ≡ ok false
      → compute_mul_ind fresh sep.vbls caller.vbls ≡ ok mi
      → sum_margin_tabular num (margin_values num) fresh caller mi ≡ ok marg
      → update_ratio_tabular (ratio num) fresh_numbers marg sep ≡ ok update
      → compute_mul_ind fresh sep.vbls receiver.vbls ≡ ok mi'
      → product_tabular num.times update receiver (some mi') ≡ ok receiver'
      → message (plain_mode num) fresh fresh_numbers BitVectorMap.create sep caller receiver
        ≡ ok (receiver', marg, two_tables caller.vbls.bv mi receiver.vbls.bv mi')
  unfolding message
  message_runs sep caller receiver marg update receiver' mi mi' differ first margin quotient second
        product =
      let one = first_find (plain_mode num) fresh fresh_numbers sep caller mi first in
      let two =
        second_find (plain_mode num) fresh fresh_numbers sep receiver caller.vbls.bv mi mi' differ
          second in
      rw (one, margin, quotient, two, product)

  -- What `MessagePass` computes.
  message_lem :
      (sep caller receiver : Pot N)
      → ((k : ℕ) → length (fresh k) ≡ k)
      → ((k : ℕ) → length (fresh_numbers k) ≡ k)
      → All (λ (v : Variable). IsText v.label) sep.vbls.o.vbls
      → IsPot sep
      → IsPot caller
      → IsPot receiver
      → IsBeside sep.vbls caller.vbls
      → IsBeside sep.vbls receiver.vbls
      → 0 < length (members sep.vbls)
      → bits_eq caller.vbls.bv.size caller.vbls.bv receiver.vbls.bv ≡ false
      → (receiver' : Pot N) × (marg : Pot N) × (memo : BitVectorMap MulInd) × (message
            (plain_mode num)
            fresh
            fresh_numbers
            BitVectorMap.create
            sep
            caller
            receiver
          ≡ ok (receiver', marg, memo))
        × IsPot receiver'
        × IsPot marg
        × (receiver'.vbls ≡ receiver.vbls)
        × (marg.vbls ≡ sep.vbls)
        × ((rest : VariableSet) × IsSplit sep.vbls rest caller.vbls
            × (marg.tab_data
                ≡ map
                    (λ row. gather num.null num.plus caller.tab_data row num.null)
                    (full_table sep.vbls rest caller.vbls)))
        × ((a : List ℕ) (d : N)
            → InRange receiver.vbls.o a
            → get_or receiver'.tab_data (index_of receiver.vbls a) d
              ≡ num.times
                  (ratio num
                    (get_or marg.tab_data (index_of sep.vbls a) d)
                    (get_or sep.tab_data (index_of sep.vbls a) d))
                  (get_or receiver.tab_data (index_of receiver.vbls a) d))
  message_lem sep caller receiver fits fits' texts hs hc hr beside_c beside_r some_v other =
      let (rest, split, (mi, first, (marg, margin, pot, vbls, table))) =
        margin_of num fresh sep caller fits texts hs hc beside_c some_v in
      let same_size : sep.table_size ≡ marg.table_size =
        hs.sized ∙ ap (λ (s : VariableSet). product (cards s)) (sym vbls) ∙ sym pot.sized in
      let (update, quotient, pot_u, _, vbls_u, table_u) =
        update_ratio_tabular_lem (ratio num) fresh_numbers marg sep fits' pot hs same_size in
      let (mi', second, (receiver', times, pot_r, vbls_r, entries)) =
        product_of num fresh sep update receiver fits pot_u hr (vbls_u ∙ vbls) beside_r some_v in
      (
        receiver',
        marg,
        two_tables caller.vbls.bv mi receiver.vbls.bv mi',
        message_runs sep caller receiver marg update receiver' mi mi'
            (bits_differ num fresh caller receiver hc hr
              (sym beside_c.one_ordering ∙ beside_r.one_ordering) other)
            first margin quotient second times,
        pot_r,
        pot,
        vbls_r,
        vbls,
        (rest, split, table),
        λ a d range.
            entries a d range
            ∙ ap (λ (r : N). num.times r (get_or receiver.tab_data (index_of receiver.vbls a) d))
                (ap (λ (l : List N). get_or l (index_of sep.vbls a) d) table_u
                  ∙ ratio_at num fresh marg sep pot hs vbls (index_of sep.vbls a) d
                      (index_of_lem sep.vbls a (rw beside_r.one_ordering range)).0),
      )

-- The tree in which the receiver has another potential, and the separator another potential and
-- memo.
abbrev pub passed :
    {N : Type 0}
    → ElimTree N
    → ℕ
    → Vertex (Clique N)
    → Pot N
    → ℕ
    → Edge (Separator N)
    → Pot N
    → BitVectorMap MulInd
    → ElimTree N
passed tree receiver r receiver' sep s marg memo = record tree {
  vertex_store =
      set tree.vertex_store receiver
        (record r { annotation = record r.annotation { pot = some receiver' } });
  edge_store =
      set tree.edge_store sep
        (record s { annotation = record s.annotation { pot = some marg; mul_memo = memo } });
}

module _ {N : Type 0} (num : Numbers N) (fresh : ℕ → List ℕ) (fresh_numbers : ℕ → List N) where
  -- `MessagePass` stores what is computed.
  message_pass_runs :
      (tree : ElimTree N) (to from over : ℕ) (r c : Vertex (Clique N)) (s : Edge (Separator N))
      (sep caller receiver receiver' marg : Pot N) (memo : BitVectorMap MulInd)
      → get_elem? tree.vertex_store to ≡ some r
      → get_elem? tree.vertex_store from ≡ some c
      → get_elem? tree.edge_store over ≡ some s
      → r.annotation.pot ≡ some receiver
      → c.annotation.pot ≡ some caller
      → s.annotation.pot ≡ some sep
      → message (plain_mode num) fresh fresh_numbers s.annotation.mul_memo sep caller receiver
        ≡ ok (receiver', marg, memo)
      → message_pass (plain_mode num) fresh fresh_numbers tree to from over
        ≡ ok (passed tree to r receiver' over s marg memo)
  unfolding message_pass annotate_vertex annotate_edge
  message_pass_runs tree to from over r c s sep caller receiver receiver' marg memo at_r at_c at_s
        pot_r pot_c pot_s runs =
      rw (at_s, at_c, at_r, pot_s, pot_c, pot_r, runs, at_s)

  -- `MessagePass` from one vertex of the elimination tree to another over an edge with an empty
  -- memo, for well-formed potentials of the separator, which is not empty, and of the two cliques,
  -- which have other variables than each other, those of the separator and at least one more. It
  -- succeeds. The new potential of the separator, with which it is stored at the edge, is the
  -- margin of that of the caller: each value is the sum over a row of the table for the variables
  -- that the separator lacks. The potential of the receiver is stored with the entry for every
  -- assignment of values in range multiplied by the ratio of the new and the old entry of the
  -- separator. Both are well-formed, over the same variables as before, and nothing else changes in
  -- the tree but the memo of the edge.
  pub message_pass_lem :
      (tree : ElimTree N) (to from over : ℕ) (r c : Vertex (Clique N)) (s : Edge (Separator N))
      (sep caller receiver : Pot N)
      → ((k : ℕ) → length (fresh k) ≡ k)
      → ((k : ℕ) → length (fresh_numbers k) ≡ k)
      → get_elem? tree.vertex_store to ≡ some r
      → get_elem? tree.vertex_store from ≡ some c
      → get_elem? tree.edge_store over ≡ some s
      → r.annotation.pot ≡ some receiver
      → c.annotation.pot ≡ some caller
      → s.annotation.pot ≡ some sep
      → s.annotation.mul_memo ≡ BitVectorMap.create
      → All (λ (v : Variable). IsText v.label) sep.vbls.o.vbls
      → IsPot sep
      → IsPot caller
      → IsPot receiver
      → IsBeside sep.vbls caller.vbls
      → IsBeside sep.vbls receiver.vbls
      → 0 < length (members sep.vbls)
      → bits_eq caller.vbls.bv.size caller.vbls.bv receiver.vbls.bv ≡ false
      → (receiver' : Pot N) × (marg : Pot N) × (memo : BitVectorMap MulInd) × (message_pass
            (plain_mode num)
            fresh
            fresh_numbers
            tree
            to
            from
            over
          ≡ ok (passed tree to r receiver' over s marg memo))
        × IsPot receiver'
        × IsPot marg
        × (receiver'.vbls ≡ receiver.vbls)
        × (marg.vbls ≡ sep.vbls)
        × ((rest : VariableSet) × IsSplit sep.vbls rest caller.vbls
            × (marg.tab_data
                ≡ map
                    (λ row. gather num.null num.plus caller.tab_data row num.null)
                    (full_table sep.vbls rest caller.vbls)))
        × ((a : List ℕ) (d : N)
            → InRange receiver.vbls.o a
            → get_or receiver'.tab_data (index_of receiver.vbls a) d
              ≡ num.times
                  (ratio num
                    (get_or marg.tab_data (index_of sep.vbls a) d)
                    (get_or sep.tab_data (index_of sep.vbls a) d))
                  (get_or receiver.tab_data (index_of receiver.vbls a) d))
  message_pass_lem tree to from over r c s sep caller receiver fits fits' at_r at_c at_s pot_r pot_c
        pot_s empty texts hs hc hr beside_c beside_r some_v other =
      let (receiver', marg, memo, runs, pot_r', pot_s', vbls_r, vbls_s, table, entries) =
        message_lem num fresh fresh_numbers sep caller receiver fits fits' texts hs hc hr beside_c
          beside_r some_v other in
      (
        receiver',
        marg,
        memo,
        message_pass_runs tree to from over r c s sep caller receiver receiver' marg memo at_r at_c
            at_s pot_r pot_c pot_s
            (ap
                (λ (m : BitVectorMap MulInd).
                  message (plain_mode num) fresh fresh_numbers m sep caller receiver)
                empty
              ∙ runs),
        pot_r',
        pot_s',
        vbls_r,
        vbls_s,
        table,
        entries,
      )

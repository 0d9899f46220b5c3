-- ===== src/Inference/Beside.antt =====
-- The margin, the ratio and the product of a message.
use junction_box.Base.{
  ℕ, ◌<◌, inl, inr, Bool, false, List, map, zip_with, get_or, get_or-zip_with, get_or_default,
  length-zip_with, All, ◌≡◌, refl, sym, ap, ◌∙◌, arith, some, length, ok,
}
use mathlib.Core.Path.{subst}
use junction_box.BitVector
use junction_box.BitVector.{BitVector}
use junction_box.AssocMap.Keys.{bits_eq, bits_runs}
use junction_box.CString.Laws.{IsText}
use junction_box.Radix.{product}
use junction_box.Variables.{Variable, VariableOrdering}
use junction_box.VariableSet.{VariableSet}
use junction_box.VariableSet.Members.{members}
use junction_box.Indices.Laws.{cards}
use junction_box.MulInds.{MulInd, compute_mul_ind}
use junction_box.MulInds.Table.{IsSplit, members_split}
use junction_box.MulInds.Assignments.{InRange, index_of, full_table}
use junction_box.MulInds.Difference.{Contained}
use junction_box.MulInds.Laws.{compute_mul_ind_lem}
use junction_box.Potentials.{
  Numbers, Pot, margin_values, sum_margin_tabular, ratio, product_tabular,
}
use junction_box.Potentials.Sizes.{IsPot}
use junction_box.Potentials.Margin.{gather, sum_margin_tabular_lem}
use junction_box.Potentials.Entries.{product_tabular-entries}

-- What the variables of a separator and of a clique next to it have in common: one ordering, and
-- the clique has the variables of the separator and another one.
pub record IsBeside (sep clique : VariableSet) : Type 0 where
  pub one_ordering : sep.o ≡ clique.o
  pub within : Contained sep clique
  pub strictly : length (members sep) < length (members clique)

module _ {N : Type 0} (num : Numbers N) (fresh : ℕ → List ℕ) where
  -- The variables that a separator lacks.
  pub lacks :
      (sep clique rest : VariableSet)
      → IsBeside sep clique
      → IsSplit sep rest clique
      → ¬ (length (members rest) ≡ 0)
  lacks sep clique rest h split e = omega (arith, members_split sep rest clique split, h.strictly)

  pub bits_differ :
      (caller receiver : Pot N)
      → IsPot caller
      → IsPot receiver
      → caller.vbls.o ≡ receiver.vbls.o
      → bits_eq caller.vbls.bv.size caller.vbls.bv receiver.vbls.bv ≡ false
      → BitVector.equals caller.vbls.bv receiver.vbls.bv ≡ ok false
  bits_differ caller receiver hc hr o e =
      let size : receiver.vbls.bv.size ≡ caller.vbls.bv.size =
        hr.set.width ∙ ap (λ (x : VariableOrdering). x.size) (sym o) ∙ sym hc.set.width in
      bits_runs caller.vbls.bv.size caller.vbls.bv receiver.vbls.bv (hc.set.vector, refl)
        (hr.set.vector, size)
      ∙ ap (λ (b : Bool). ok b) e

  -- The margin that the message takes.
  pub margin_of :
      (sep caller : Pot N)
      → ((k : ℕ) → length (fresh k) ≡ k)
      → All (λ (v : Variable). IsText v.label) sep.vbls.o.vbls
      → IsPot sep
      → IsPot caller
      → IsBeside sep.vbls caller.vbls
      → 0 < length (members sep.vbls)
      → (rest : VariableSet) × IsSplit sep.vbls rest caller.vbls
        × ((mi : MulInd) × (compute_mul_ind fresh sep.vbls caller.vbls ≡ ok mi)
            × ((marg : Pot N) × (sum_margin_tabular num (margin_values num) fresh caller mi
                  ≡ ok marg)
                × IsPot marg
                × (marg.vbls ≡ sep.vbls)
                × (marg.tab_data
                    ≡ map
                        (λ row. gather num.null num.plus caller.tab_data row num.null)
                        (full_table sep.vbls rest caller.vbls))))
  margin_of sep caller fits texts hs hc beside some_v =
      let (_, _, (mi, first, _, _)) =
        compute_mul_ind_lem fresh sep.vbls caller.vbls fits hs.set hc.set beside.one_ordering
          beside.within some_v in
      let (rest, split, (marg, runs, pot, vbls, table)) =
        sum_margin_tabular_lem num caller sep.vbls hc fresh fits texts hs.set beside.one_ordering
          beside.within some_v in
      (
        rest,
        split,
        (
          mi,
          first,
          (
            marg,
            rw first at runs,
            pot,
            vbls,
            elim table [
              | inl (none_left, _) ↦ absurd (lacks sep.vbls caller.vbls rest beside split none_left)
              | inr (_, t) ↦ t
            ],
          ),
        ),
      )

  -- The product that it forms.
  pub product_of :
      (sep update receiver : Pot N)
      → ((k : ℕ) → length (fresh k) ≡ k)
      → IsPot update
      → IsPot receiver
      → update.vbls ≡ sep.vbls
      → IsBeside sep.vbls receiver.vbls
      → 0 < length (members sep.vbls)
      → (mi : MulInd) × (compute_mul_ind fresh sep.vbls receiver.vbls ≡ ok mi)
        × ((receiver' : Pot N) × (product_tabular num.times update receiver (some mi)
              ≡ ok receiver')
            × IsPot receiver'
            × (receiver'.vbls ≡ receiver.vbls)
            × ((a : List ℕ) (d : N)
                → InRange receiver.vbls.o a
                → get_or receiver'.tab_data (index_of receiver.vbls a) d
                  ≡ num.times
                      (get_or update.tab_data (index_of sep.vbls a) d)
                      (get_or receiver.tab_data (index_of receiver.vbls a) d)))
  product_of sep update receiver fits hu hr e beside some_v =
      let (beside', some_v') : IsBeside update.vbls receiver.vbls
          × (0 < length (members update.vbls)) =
        subst (λ (s : VariableSet). IsBeside s receiver.vbls × (0 < length (members s))) (sym e)
          (beside, some_v) in
      let (_, _, (mi, second, _, _)) =
        compute_mul_ind_lem fresh update.vbls receiver.vbls fits hu.set hr.set beside'.one_ordering
          beside'.within some_v' in
      let (rest, split, (receiver', runs, pot, vbls, entries)) =
        product_tabular-entries num.times update receiver fresh hu hr fits beside'.one_ordering
          beside'.within some_v' in
      (
        mi,
        ap (λ (s : VariableSet). compute_mul_ind fresh s receiver.vbls) (sym e) ∙ second,
        (
          receiver',
          rw second at runs,
          pot,
          vbls,
          elim entries [
            | inl (none_left, _) ↦
                absurd (lacks update.vbls receiver.vbls rest beside' split none_left)
            | inr (_, at) ↦ λ a d range.
                at a d range
                ∙ ap
                    (λ (s : VariableSet).
                      num.times (get_or update.tab_data (index_of s a) d)
                        (get_or receiver.tab_data (index_of receiver.vbls a) d))
                    e
          ],
        ),
      )

  -- An entry of the update ratio.
  pub ratio_at :
      (marg sep : Pot N)
      → IsPot marg
      → IsPot sep
      → marg.vbls ≡ sep.vbls
      → (i : ℕ) (d : N) → i < product (cards sep.vbls)
      → get_or (zip_with (ratio num) marg.tab_data sep.tab_data) i d
        ≡ ratio num (get_or marg.tab_data i d) (get_or sep.tab_data i d)
  ratio_at marg sep hm hs e i d lt =
      let same : length marg.tab_data ≡ length sep.tab_data =
        hm.filled
        ∙ hm.sized
        ∙ ap (λ (s : VariableSet). product (cards s)) e
        ∙ sym (hs.filled ∙ hs.sized) in
      let inside : i < length (zip_with (ratio num) marg.tab_data sep.tab_data) = omega (
        arith,
        length-zip_with (ratio num) marg.tab_data sep.tab_data same,
        same,
        hs.filled,
        hs.sized,
      ) in
      get_or_default (zip_with (ratio num) marg.tab_data sep.tab_data) i d (ratio num d d) inside
      ∙ get_or-zip_with (ratio num) marg.tab_data sep.tab_data i d d same

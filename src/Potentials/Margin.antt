-- ===== src/Potentials/Margin.antt =====
-- The margins of tabular potentials.
use junction_box.Base.{
  ℕ, ◌+◌, ◌<◌, ◌⊎◌, inl, inr, List, [], ◌∷◌, ◌++◌, map, ◌≡◌, refl, sym, ap, ◌∙◌, some, length,
  length-map, length_snoc, append_snoc, get_elem?, get_elem?-append_mid, get_or,
  get_elem?-eq-get_or, All, replicate, length-replicate, Outcome, ok, ◌>>=◌,
}
use junction_box.Radix.{product}
use junction_box.CString.{spaced}
use junction_box.CString.Laws.{IsText}
use junction_box.CString.Join.{joined}
use junction_box.Variables.{Variable, get_label}
use junction_box.VariableSet.{VariableSet}
use junction_box.VariableSet.Members.{IsVariableSet, members}
use junction_box.VariableSet.Ops.{set_get_label_lem}
use junction_box.Indices.Laws.{cards}
use junction_box.MulInds.{MulInd, compute_mul_ind}
use junction_box.MulInds.Table.{IsSplit, table_row}
use junction_box.MulInds.Assignments.{combinations, full_table}
use junction_box.MulInds.Difference.{Contained, length-combinations}
use junction_box.MulInds.Digits.{full_table-Places}
use junction_box.MulInds.Laws.{full, mul_run}
use junction_box.Potentials.{
  Numbers, Pot, sum_row, margin_loop, margin_values, margin_values_log, sum_margin_tabular,
  create_tabular,
}
use junction_box.Potentials.Sizes.{IsPot, table_size_of_lem}

module _ {N : Type 0} (start : N) (add : N → N → N) (pvalues : List N) where
  -- The values at the indices of a row, added from the left to `q`.
  unfoldable pub gather : List ℕ → N → N
  gather [] q = q
  gather (k ∷ row) q = gather row (add q (get_or pvalues k start))

  sum_row-gather :
      (pindices : List (List ℕ)) (i : ℕ) (row done : List ℕ) (j : ℕ) (q : N)
      → get_elem? pindices i ≡ some (done ++ row)
      → length done ≡ j
      → All (λ k. k < length pvalues) row
      → sum_row add pvalues pindices i (length row) j q ≡ ok (gather row q)
  unfolding sum_row gather
  sum_row-gather pindices i [] done j q at e l = refl
  sum_row-gather pindices i (k ∷ row) done j q at e l =
      rw (at, get_elem?-append_mid done k row j e, get_elem?-eq-get_or pvalues k start l.0)
        (sum_row-gather pindices i row (done ++ k ∷ []) (j + 1) (add q (get_or pvalues k start))
          (rw (append_snoc done k row) at) (length_snoc done k j e) l.1)

  pub margin_loop-gather :
      (finish : N → N) (m : ℕ) (rows done : List (List ℕ)) (i : ℕ)
      → length done ≡ i
      → All (λ (row : List ℕ). (length row ≡ m) × All (λ k. k < length pvalues) row) rows
      → margin_loop start add finish pvalues (done ++ rows) m (length rows) i
        ≡ ok (map (λ row. finish (gather row start)) rows)
  unfolding margin_loop
  margin_loop-gather finish m [] done i e l = refl
  margin_loop-gather finish m (row ∷ rows) done i e l =
      let inner =
        ap (λ (n : ℕ). sum_row add pvalues (done ++ row ∷ rows) i n 0 start) (sym l.0.0)
        ∙ sum_row-gather (done ++ row ∷ rows) i row [] 0 start
            (get_elem?-append_mid done row rows i e) refl l.0.1 in
      rw inner (
        ap
          (λ (all : List (List ℕ)).
            margin_loop start add finish pvalues all m (length rows) (i + 1) >>= λ rest.
            ok (finish (gather row start) ∷ rest))
          (sym (append_snoc done row rows))
        ∙ ap (λ (o : Outcome (List N)). o >>= λ rest. ok (finish (gather row start) ∷ rest))
            (margin_loop-gather finish m rows (done ++ row ∷ []) (i + 1) (length_snoc done row i e)
              l.1))

pub length-full_table :
    (first second over : VariableSet)
    → length (full_table first second over) ≡ product (cards first)
length-full_table first second over =
    length-map (combinations first) (table_row first second over (combinations second))
    ∙ length-combinations first

module _ {N : Type 0} (num : Numbers N) (p : Pot N) (sep : VariableSet) (h : IsPot p) where
  open num use {null, plus, exp, log}

  -- Both margins over a complete table: each value is the sum of the values at the indices of one
  -- row.
  margin_values-full :
      (rest : VariableSet)
      → IsSplit sep rest p.vbls
      → (margin_values num p (full sep sep rest p.vbls)
          ≡ ok (map (λ row. gather null plus p.tab_data row null) (full_table sep rest p.vbls)))
        × (margin_values_log num p (full sep sep rest p.vbls)
            ≡ ok (
                map
                  (λ row. log (gather null (λ q v. plus q (exp v)) p.tab_data row null))
                  (full_table sep rest p.vbls)))
  unfolding margin_values margin_values_log full
  margin_values-full rest split =
      let size : product (cards p.vbls) ≡ length p.tab_data = sym (h.filled ∙ h.sized) in
      let places =
        rw (size, length-combinations rest) at (full_table-Places sep rest p.vbls split) in
      let table = full_table sep rest p.vbls in
      (
        ap (λ (n : ℕ). margin_loop null plus (λ q. q) p.tab_data table (product (cards rest)) n 0)
              (sym (length-full_table sep rest p.vbls))
            ∙ margin_loop-gather null plus p.tab_data (λ q. q) (product (cards rest)) table [] 0
                refl places,
        ap
              (λ (n : ℕ).
                margin_loop null (λ q v. plus q (exp v)) log p.tab_data table (product (cards rest))
                  n 0)
              (sym (length-full_table sep rest p.vbls))
            ∙ margin_loop-gather null (λ q v. plus q (exp v)) p.tab_data log (product (cards rest))
                table [] 0 refl places,
      )

  -- Over a table without columns each value is 0.
  bare_rows :
      (firsts : List (List ℕ)) (rest : VariableSet)
      → All
          (λ (row : List ℕ). (length row ≡ 0) × All (λ k. k < length p.tab_data) row)
          (map (table_row sep rest p.vbls []) firsts)
  bare_rows [] rest = tt
  bare_rows (xs ∷ firsts) rest = ((refl, tt), bare_rows firsts rest)

  bare_values :
      (firsts : List (List ℕ)) (rest : VariableSet)
      → map
          (λ row. gather null plus p.tab_data row null)
          (map (table_row sep rest p.vbls []) firsts)
        ≡ replicate (length firsts) null
  unfolding gather
  bare_values [] rest = refl
  bare_values (xs ∷ firsts) rest = ap (λ (l : List N). null ∷ l) (bare_values firsts rest)

  margin_values_bare :
      (rest : VariableSet)
      → margin_values num p (record {
        vbls = sep;
        first_indices = product (cards sep);
        mul_size = 0;
        second_indices = map (table_row sep rest p.vbls []) (combinations sep);
      })
        ≡ ok (replicate (product (cards sep)) null)
  unfolding margin_values
  margin_values_bare rest =
      let table = map (table_row sep rest p.vbls []) (combinations sep) in
      let many : length table ≡ product (cards sep) =
        length-map (combinations sep) (table_row sep rest p.vbls []) ∙ length-combinations sep in
      ap (λ (n : ℕ). margin_loop null plus (λ q. q) p.tab_data table 0 n 0) (sym many)
      ∙ margin_loop-gather null plus p.tab_data (λ q. q) 0 table [] 0 refl
          (bare_rows (combinations sep) rest)
      ∙ ap (λ (l : List N). ok l) (bare_values (combinations sep) rest)
      ∙ ap (λ (n : ℕ). ok (replicate n null)) (length-combinations sep)

  -- The potential that the values make.
  margin_pot :
      (fresh : ℕ → List ℕ) (mi : MulInd) (values : List N)
      → ((n : ℕ) → length (fresh n) ≡ n)
      → All (λ (v : Variable). IsText v.label) sep.o.vbls
      → IsVariableSet sep
      → mi.vbls ≡ sep
      → margin_values num p mi ≡ ok values
      → length values ≡ product (cards sep)
      → (q : Pot N) × (sum_margin_tabular num (margin_values num) fresh p mi ≡ ok q)
        × IsPot q
        × (q.vbls ≡ sep)
        × (q.tab_data ≡ values)
  unfolding sum_margin_tabular create_tabular
  margin_pot fresh mi values fits texts hs e run len = (
    record {
      label = joined (spaced (map get_label (members sep))) ++ 0 ∷ [];
      vbls = sep;
      tab_data = values;
      table_size = product (cards sep);
    },
    rw (run, e, set_get_label_lem fresh sep hs texts fits, table_size_of_lem sep hs),
    record { set = hs; sized = refl; filled = len },
    refl,
    refl,
  )

  -- The margin of a well-formed potential onto a set `sep` of its variables that is not empty, by
  -- the table of `ComputeMulInd`, is a well-formed potential over `sep`. Its value at each index
  -- is the sum, over the combinations of the other variables, of the values at the indices of one
  -- row of the table; when there is no other variable, it is 0.
  pub sum_margin_tabular_lem :
      (fresh : ℕ → List ℕ)
      → ((n : ℕ) → length (fresh n) ≡ n)
      → All (λ (v : Variable). IsText v.label) sep.o.vbls
      → IsVariableSet sep
      → sep.o ≡ p.vbls.o
      → Contained sep p.vbls
      → 0 < length (members sep)
      → (rest : VariableSet) × IsSplit sep rest p.vbls
        × ((q : Pot N) × ((compute_mul_ind fresh sep p.vbls >>= λ mi.
                sum_margin_tabular num (margin_values num) fresh p mi)
              ≡ ok q)
            × IsPot q
            × (q.vbls ≡ sep)
            × (((length (members rest) ≡ 0) × (q.tab_data ≡ replicate (product (cards sep)) null))
                ⊎ ((0 < length (members rest))
                    × (q.tab_data
                        ≡ map
                            (λ row. gather null plus p.tab_data row null)
                            (full_table sep rest p.vbls)))))
  sum_margin_tabular_lem fresh fits texts hs o sub n =
      let (rest, split, run) = mul_run fresh sep p.vbls fits hs h.set o sub n in
      let table = full_table sep rest p.vbls in
      (
        rest,
        split,
        elim run [
          | inl (e, r) ↦
              let (q, runs, pot, vbls, table_is) =
                margin_pot fresh _ (replicate (product (cards sep)) null) fits texts hs refl
                  (margin_values_bare rest) (length-replicate (product (cards sep)) null) in
              (q, rw r runs, pot, vbls, inl (e, table_is))
          | inr (some_left, r) ↦
              let (q, runs, pot, vbls, table_is) =
                margin_pot fresh (full sep sep rest p.vbls)
                  (map (λ row. gather null plus p.tab_data row null) table) fits texts hs
                  (unfold full in refl) (margin_values-full rest split).0
                  (length-map table (λ row. gather null plus p.tab_data row null)
                    ∙ length-full_table sep rest p.vbls) in
              (q, rw r runs, pot, vbls, inr (some_left, table_is))
        ],
      )

-- ===== src/Potentials/Product.antt =====
-- The products of tabular potentials.
use junction_box.Base.{
  ℕ, zero, suc, ◌+◌, ◌<◌, ◌⊎◌, inl, inr, List, [], ◌∷◌, ◌++◌, map, ◌≡◌, refl, sym, ap, ap₂, ◌∙◌,
  arith, some, length, if◌then◌else◌, ◌==◌, length_snoc, append_snoc, get_elem?,
  get_elem?-append_mid, get_or, set, length-set, get_elem?-eq-get_or, All, Outcome, ok, ◌>>=◌,
}
use junction_box.Radix.{product}
use junction_box.VariableSet.{VariableSet}
use junction_box.VariableSet.Members.{members}
use junction_box.Indices.Laws.{cards}
use junction_box.MulInds.{compute_mul_ind}
use junction_box.MulInds.Table.{IsSplit, table_row}
use junction_box.MulInds.Assignments.{combinations, full_table}
use junction_box.MulInds.Difference.{Contained, length-combinations}
use junction_box.MulInds.Digits.{full_table-Places}
use junction_box.MulInds.Laws.{full, mul_run}
use junction_box.Potentials.{Pot, product_row, product_loop, product_tabular}
use junction_box.Potentials.Sizes.{IsPot}
use junction_box.Potentials.Margin.{length-full_table}

get_or-set_modified :
    {N : Type 0} (f : N → N) (xs : List N) (c k : ℕ) (d d' : N)
    → c < length xs
    → get_or (set xs c (f (get_or xs c d'))) k d
      ≡ (if c == k then f (get_or xs k d) else get_or xs k d)
get_or-set_modified f [] c k d d' h = absurd (omega arith)
get_or-set_modified f (x ∷ xs) zero zero d d' h = refl
get_or-set_modified f (x ∷ xs) zero (suc k) d d' h = ground arith
get_or-set_modified f (x ∷ xs) (suc c) zero d d' h = ground arith
get_or-set_modified f (x ∷ xs) (suc c) (suc k) d d' h =
    ground (arith, get_or-set_modified f xs c k d d')

module _ {N : Type 0} (op : N → N → N) where
  -- What the places of a row that are `k` make of the value there.
  unfoldable pub hit : ℕ → N → List ℕ → N → N
  hit k pvalue [] q = q
  hit k pvalue (c ∷ row) q = hit k pvalue row (if c == k then op pvalue q else q)

  -- What all rows make of it, each with its own value.
  unfoldable pub hits : ℕ → List N → List (List ℕ) → N → N
  unfolding hit
  hits k [] rows q = q
  hits k (pvalue ∷ pvalues) [] q = q
  hits k (pvalue ∷ pvalues) (row ∷ rows) q = hits k pvalues rows (hit k pvalue row q)

  -- The result of a run that changes a table of `n` values at every place as `f` says.
  pub record Changes (n : ℕ) (f : ℕ → N → N) (before : List N) (run : Outcome (List N))
      : Type 0 where
    pub after : List N
    pub returns : run ≡ ok after
    pub same_length : length after ≡ n
    pub values : (k : ℕ) (d : N) → k < n → get_or after k d ≡ f k (get_or before k d)

  product_row-hit :
      (n : ℕ) (pvalue : N) (pvalues : List N) (qindices : List (List ℕ)) (i : ℕ) (row done : List ℕ)
      (j : ℕ) (qvalues : List N)
      → get_elem? qindices i ≡ some (done ++ row)
      → get_elem? pvalues i ≡ some pvalue
      → length done ≡ j
      → length qvalues ≡ n
      → All (λ k. k < n) row
      → Changes n
          (λ k. hit k pvalue row)
          qvalues
          (product_row op pvalues qindices i (length row) j qvalues)
  unfolding product_row hit
  product_row-hit n pvalue pvalues qindices i [] done j qvalues at pat e len l = record {
    after = qvalues;
    returns = refl;
    same_length = len;
    values = λ k d lt. refl;
  }
  product_row-hit n pvalue pvalues qindices i (c ∷ row) done j qvalues at pat e len l =
      let inside : c < length qvalues = omega (arith, len, l.0) in
      let qvalues' = set qvalues c (op pvalue (get_or qvalues c pvalue)) in
      let rest =
        product_row-hit n pvalue pvalues qindices i row (done ++ c ∷ []) (j + 1) qvalues'
          (rw (append_snoc done c row) at) pat (length_snoc done c j e)
          (length-set qvalues c (op pvalue (get_or qvalues c pvalue)) ∙ len) l.1 in
      record {
        after = rest.after;
        returns =
            rw
              (
                at,
                get_elem?-append_mid done c row j e,
                pat,
                get_elem?-eq-get_or qvalues c pvalue inside,
              )
              rest.returns;
        same_length = rest.same_length;
        values = λ k d lt.
            rest.values k d lt
            ∙ ap (hit k pvalue row) (get_or-set_modified (op pvalue) qvalues c k d pvalue inside);
      }

  product_loop-hits :
      (n m : ℕ) (ps done_p : List N) (rows done : List (List ℕ)) (i : ℕ) (qvalues : List N)
      → length done ≡ i
      → length done_p ≡ i
      → length ps ≡ length rows
      → length qvalues ≡ n
      → All (λ (row : List ℕ). (length row ≡ m) × All (λ k. k < n) row) rows
      → Changes n
          (λ k. hits k ps rows)
          qvalues
          (product_loop op (done_p ++ ps) (done ++ rows) m (length rows) i qvalues)
  unfolding product_loop hits
  product_loop-hits n m [] done_p [] done i qvalues e e' same len l = record {
    after = qvalues;
    returns = refl;
    same_length = len;
    values = λ k d lt. refl;
  }
  product_loop-hits n m [] done_p (row ∷ rows) done i qvalues e e' same len l = absurd (omega arith)
  product_loop-hits n m (p ∷ ps) done_p [] done i qvalues e e' same len l = absurd (omega arith)
  product_loop-hits n m (p ∷ ps) done_p (row ∷ rows) done i qvalues e e' same len l =
      let first =
        product_row-hit n p (done_p ++ p ∷ ps) (done ++ row ∷ rows) i row [] 0 qvalues
          (get_elem?-append_mid done row rows i e) (get_elem?-append_mid done_p p ps i e') refl len
          l.0.1 in
      let rest =
        product_loop-hits n m ps (done_p ++ p ∷ []) rows (done ++ row ∷ []) (i + 1) first.after
          (length_snoc done row i e) (length_snoc done_p p i e') (omega arith) first.same_length
          l.1 in
      let inner : product_row op (done_p ++ p ∷ ps) (done ++ row ∷ rows) i m 0 qvalues
          ≡ ok first.after =
        ap (λ (r : ℕ). product_row op (done_p ++ p ∷ ps) (done ++ row ∷ rows) i r 0 qvalues)
          (sym l.0.0)
        ∙ first.returns in
      record {
        after = rest.after;
        returns = rw (inner) (
            ap₂
              (λ (all_p : List N) (all : List (List ℕ)).
                product_loop op all_p all m (length rows) (i + 1) first.after)
              (sym (append_snoc done_p p ps)) (sym (append_snoc done row rows))
            ∙ rest.returns);
        same_length = rest.same_length;
        values = λ k d lt. rest.values k d lt ∙ ap (hits k ps rows) (first.values k d lt);
      }

  product_loop_bare :
      (ps : List N) (table : List (List ℕ)) (left i : ℕ) (qs : List N)
      → product_loop op ps table 0 left i qs ≡ ok qs
  unfolding product_loop product_row
  product_loop_bare ps table zero i qs = refl
  product_loop_bare ps table (suc left) i qs = product_loop_bare ps table left (i + 1) qs

  -- The product by a complete table.
  pub product_full :
      (p q : Pot N) (rest : VariableSet)
      → IsPot p
      → IsPot q
      → IsSplit p.vbls rest q.vbls
      → Changes q.table_size
          (λ k. hits k p.tab_data (full_table p.vbls rest q.vbls))
          q.tab_data
          (product_loop op p.tab_data
            (full_table p.vbls rest q.vbls)
            (product (cards rest))
            (product (cards p.vbls))
            0
            q.tab_data)
  product_full p q rest h k split =
      let table = full_table p.vbls rest q.vbls in
      let many : length table ≡ product (cards p.vbls) = length-full_table p.vbls rest q.vbls in
      let places =
        rw (← k.sized, length-combinations rest) at (full_table-Places p.vbls rest q.vbls split) in
      let run =
        product_loop-hits q.table_size (product (cards rest)) p.tab_data [] table [] 0 q.tab_data
          refl refl (h.filled ∙ h.sized ∙ sym many) k.filled places in
      record {
        after = run.after;
        returns =
            ap (λ (n : ℕ). product_loop op p.tab_data table (product (cards rest)) n 0 q.tab_data)
              (sym many)
            ∙ run.returns;
        same_length = run.same_length;
        values = run.values;
      }

  -- The product of a well-formed potential `p` over variables of `q`, at least one, into the
  -- well-formed potential `q` by the table of `ComputeMulInd` is a well-formed potential over the
  -- variables of `q`. The value at each place `k` is what the rows of the table make of the old
  -- one: each place of row `i` that is `k` applies the operation with the value of `p` at `i`. When `q` has no
  -- other variable, nothing changes.
  pub product_tabular_lem :
      (p q : Pot N) (fresh : ℕ → List ℕ)
      → IsPot p
      → IsPot q
      → ((n : ℕ) → length (fresh n) ≡ n)
      → p.vbls.o ≡ q.vbls.o
      → Contained p.vbls q.vbls
      → 0 < length (members p.vbls)
      → (rest : VariableSet) × IsSplit p.vbls rest q.vbls
        × ((q' : Pot N) × ((compute_mul_ind fresh p.vbls q.vbls >>= λ mi.
                product_tabular op p q (some mi))
              ≡ ok q')
            × IsPot q'
            × (q'.vbls ≡ q.vbls)
            × (((length (members rest) ≡ 0) × (q'.tab_data ≡ q.tab_data))
                ⊎ ((0 < length (members rest))
                    × ((k : ℕ) (d : N)
                        → k < q.table_size
                        → get_or q'.tab_data k d
                          ≡ hits k p.tab_data
                              (full_table p.vbls rest q.vbls)
                              (get_or q.tab_data k d)))))
  unfolding product_tabular full
  product_tabular_lem p q fresh h k fits o sub n =
      let (rest, split, run) = mul_run fresh p.vbls q.vbls fits h.set k.set o sub n in
      (
        rest,
        split,
        elim run [
          | inl (e, r) ↦ (
            q,
            rw (
              r,
              product_loop_bare p.tab_data
                  (map (table_row p.vbls rest q.vbls []) (combinations p.vbls))
                  (product (cards p.vbls)) 0 q.tab_data,
            ),
            k,
            refl,
            inl (e, refl),
          )
          | inr (some_left, r) ↦
              let c = product_full p q rest h k split in
              (
                record q { tab_data = c.after },
                rw (r, c.returns),
                record { set = k.set; sized = k.sized; filled = c.same_length },
                refl,
                inr (some_left, c.values),
              )
        ],
      )

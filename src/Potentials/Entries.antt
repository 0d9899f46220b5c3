-- ===== src/Potentials/Entries.antt =====
-- The product of two potentials at an assignment.
use junction_box.Base.{
  some, ok, ◌>>=◌, ℕ, ◌<◌, List, [], ◌∷◌, map, ◌≡◌, refl, sym, ap, ap₂, ◌∙◌, arith, length,
  length-map, get_or, ◌⊎◌, inl, inr,
}
use junction_box.Crossing.Tags.{weave}
use junction_box.Indices.Laws.{count_up, cards, cards-pos_of}
use junction_box.Indices.Bounds.{length-Digits}
use junction_box.Radix.{product, encode, decode}
use junction_box.Radix.Laws.{decode-encode, encode-decode, decode-Digits}
use junction_box.BitVector.Valid.{bit}
use junction_box.Variables.{Variable}
use junction_box.VariableSet.{VariableSet}
use junction_box.VariableSet.Members.{members, select}
use junction_box.Crossing.Sets.{tag_counts}
use junction_box.MulInds.Table.{IsSplit, split_tags, table_row}
use junction_box.MulInds.Assignments.{
  InRange, Digits-select, index_of, index_of_lem, weave_values, combinations, full_table,
}
use junction_box.MulInds.Digits.{weave-Digits}
use junction_box.Potentials.Product.{hit, hits}
use junction_box.Potentials.Cells.{weave-injective, hit_none, hit_once, hits_once}
use junction_box.MulInds.{compute_mul_ind}
use junction_box.MulInds.Difference.{Contained}
use junction_box.Potentials.{Pot, product_tabular}
use junction_box.Potentials.Sizes.{IsPot}
use junction_box.Potentials.Product.{product_tabular_lem}

map-map :
    {A B C : Type 0} (f : B → C) (g : A → B) (xs : List A)
    → map f (map g xs) ≡ map (λ x. f (g x)) xs
map-map f g [] = refl
map-map {C = C} f g (x ∷ xs) = ap (λ (l : List C). f (g x) ∷ l) (map-map f g xs)

module _ (first second over : VariableSet) (a : List ℕ) (h : IsSplit first second over)
    (d : InRange over.o a) where
  -- The place in row `m` and column `n`.
  abbrev cell : ℕ → ℕ → ℕ
  cell m n =
      encode (cards over)
        (weave (split_tags first second) (decode (cards first) m) (decode (cards second) n))

  -- The values of `a` stand in one cell only.
  cell_once :
      (m n : ℕ)
      → m < product (cards first)
      → n < product (cards second)
      → cell m n ≡ index_of over a
      → (m ≡ index_of first a) × (n ≡ index_of second a)
  unfolding index_of members
  cell_once m n lt_m lt_n e =
      let ts = split_tags first second in
      let pos_first = cards-pos_of first h.first_set in
      let pos_second = cards-pos_of second h.second_set in
      let xs = decode (cards first) m in
      let ys = decode (cards second) n in
      let digits_x = decode-Digits (cards first) m pos_first lt_m in
      let digits_y = decode-Digits (cards second) n pos_second lt_n in
      let digits_a = Digits-select (bit first.bv) 0 first.o.vbls a (rw h.first_o d) in
      let digits_b = Digits-select (bit second.bv) 0 second.o.vbls a (rw h.second_o d) in
      let same : weave ts xs ys
          ≡ weave ts (select (bit first.bv) 0 a) (select (bit second.bv) 0 a) =
        sym (
          decode-encode (cards over) (weave ts xs ys)
            (weave-Digits first second over h xs ys digits_x digits_y))
        ∙ ap (decode (cards over)) e
        ∙ (index_of_lem over a d).1
        ∙ sym (weave_values first second over a h d) in
      let (many_first, many_second) =
        tag_counts first second h.first_set h.second_set (h.first_o ∙ sym h.second_o) h.disjoint in
      let size_first = length-map (members first) (λ (v : Variable). v.cardinality) ∙ many_first in
      let size_second =
        length-map (members second) (λ (v : Variable). v.cardinality) ∙ many_second in
      let (f, s) =
        weave-injective ts 0 xs ys (select (bit first.bv) 0 a) (select (bit second.bv) 0 a)
          (length-Digits (cards first) xs digits_x ∙ size_first)
          (length-Digits (cards second) ys digits_y ∙ size_second)
          (length-Digits (cards first) (select (bit first.bv) 0 a) digits_a ∙ size_first)
          (length-Digits (cards second) (select (bit second.bv) 0 a) digits_b ∙ size_second) same in
      (
        sym (encode-decode (cards first) m pos_first lt_m) ∙ ap (encode (cards first)) f,
        sym (encode-decode (cards second) n pos_second lt_n) ∙ ap (encode (cards second)) s,
      )

  -- And they do stand there.
  cell_there : cell (index_of first a) (index_of second a) ≡ index_of over a
  unfolding index_of
  cell_there =
      let f = (index_of_lem first a (rw h.first_o d)).1 in
      let s = (index_of_lem second a (rw h.second_o d)).1 in
      ap₂ (λ (xs ys : List ℕ). encode (cards over) (weave (split_tags first second) xs ys)) f s
      ∙ ap (encode (cards over)) (weave_values first second over a h d)

  row_cells :
      (m : ℕ)
      → table_row first second over (combinations second) (decode (cards first) m)
        ≡ map (cell m) (count_up 0 (product (cards second)))
  row_cells m =
      let ts = split_tags first second in
      let ns = count_up 0 (product (cards second)) in
      ap (map (encode (cards over)))
        (map-map (weave ts (decode (cards first) m)) (decode (cards second)) ns)
      ∙ map-map (encode (cards over))
          (λ n. weave ts (decode (cards first) m) (decode (cards second) n)) ns

  -- At the index of `a` the table applies the operation once.
  pub hits-full_table :
      {N : Type 0} (op : N → N → N) (ps : List N) (q e : N)
      → length ps ≡ product (cards first)
      → hits op (index_of over a) ps (full_table first second over) q
        ≡ op (get_or ps (index_of first a) e) q
  hits-full_table op ps q e len =
      let k = index_of over a in
      let columns = product (cards second) in
      let (lt_m, _) = index_of_lem first a (rw h.first_o d) in
      let (lt_n, _) = index_of_lem second a (rw h.second_o d) in
      ap (λ (rows : List (List ℕ)). hits op k ps rows q)
        (map-map (table_row first second over (combinations second)) (decode (cards first))
          (count_up 0 (product (cards first))))
      ∙ hits_once op k
          (λ m. table_row first second over (combinations second) (decode (cards first) m)) 0
          (product (cards first)) (index_of first a) ps q e lt_m len
          (λ m is p r.
            ap (λ (row : List ℕ). hit op k p row r) (row_cells m)
            ∙ hit_once op k (cell m) 0 columns (index_of second a) p r (omega arith)
                (omega (arith, lt_n))
                (ap (λ (i : ℕ). cell i (index_of second a)) (is ∙ omega arith) ∙ cell_there)
                (λ n b c g. (cell_once m n (omega (arith, is, lt_m)) (omega (arith, c)) g).1))
          (λ m b other p r.
            ap (λ (row : List ℕ). hit op k p row r) (row_cells m)
            ∙ hit_none op k (cell m) 0 columns p r (λ n c g same.
              other ((cell_once m n (omega (arith, b)) (omega (arith, g)) same).0 ∙ omega arith)))

-- The product of a well-formed potential `p` over variables of `q`, at least one, into the
-- well-formed potential `q`, by the table of `ComputeMulInd`, is a well-formed potential over the
-- variables of `q`. When `q` has a variable that `p` has not, its entry for every assignment of
-- values in range is the operation applied to the entries of `p` and of `q` for that assignment.
-- When `q` has no other variable, the table has no columns and nothing changes.
pub product_tabular-entries :
    {N : Type 0} (op : N → N → N) (p q : Pot N) (fresh : ℕ → List ℕ)
    → IsPot p
    → IsPot q
    → ((n : ℕ) → length (fresh n) ≡ n)
    → p.vbls.o ≡ q.vbls.o
    → Contained p.vbls q.vbls
    → 0 < length (members p.vbls)
    → (rest : VariableSet) × IsSplit p.vbls rest q.vbls
      × ((q' : Pot N) × ((compute_mul_ind fresh p.vbls q.vbls >>= λ mi.
              product_tabular op p q (some mi))
            ≡ ok q')
          × IsPot q'
          × (q'.vbls ≡ q.vbls)
          × (((length (members rest) ≡ 0) × (q'.tab_data ≡ q.tab_data))
              ⊎ ((0 < length (members rest))
                  × ((a : List ℕ) (d : N)
                      → InRange q.vbls.o a
                      → get_or q'.tab_data (index_of q.vbls a) d
                        ≡ op
                            (get_or p.tab_data (index_of p.vbls a) d)
                            (get_or q.tab_data (index_of q.vbls a) d)))))
product_tabular-entries op p q fresh h k fits o sub n =
    let (rest, split, (q', run, pot, vbls, table)) =
      product_tabular_lem op p q fresh h k fits o sub n in
    (
      rest,
      split,
      (
        q',
        run,
        pot,
        vbls,
        elim table [
          | inl t ↦ inl t
          | inr (some_left, t) ↦ inr (
            some_left,
            λ a d range.
                t (index_of q.vbls a) d
                  (let (lt, _) = index_of_lem q.vbls a range in omega (arith, lt, k.sized))
                ∙ hits-full_table p.vbls rest q.vbls a split range op p.tab_data
                    (get_or q.tab_data (index_of q.vbls a) d) d (h.filled ∙ h.sized),
          )
        ],
      ),
    )

-- ===== src/MulInds/Table.antt =====
-- The table that crosses the rows of two sets and indexes their union.
use junction_box.Base.{
  ℕ, ◌+◌, ◌<◌, ◌||◌, Bool, List, [], ◌∷◌, ◌++◌, map, ◌≡◌, refl, sym, ap, ◌∙◌, arith, length,
  length-map, length_snoc, append_snoc, get_elem?-append_mid, All, Outcome, ok, ◌>>=◌,
}
use junction_box.Radix.{encode}
use junction_box.BitVector.Valid.{bit}
use junction_box.Variables.{VariableOrdering}
use junction_box.VariableSet.{VariableSet}
use junction_box.VariableSet.Members.{IsVariableSet, members, select}
use junction_box.Indices.{compute_indices}
use junction_box.Indices.Laws.{cards}
use junction_box.Indices.RoundTrip.{compute_indices_lem}
use junction_box.Crossing.Tags.{Tag, weave, union}
use junction_box.Crossing.Rows.{count, count-ranks, length-weave, length-union}
use junction_box.Crossing.Sets.{
  Disjoint, tags, length-tags, union-tags, tag_counts, index_cross-weave,
}
use junction_box.MulInds.{table_loop}

pub select_ext :
    {A : Type 0} (p q : ℕ → Bool) (i : ℕ) (xs : List A)
    → ((k : ℕ) → k < i + length xs → p k ≡ q k)
    → select p i xs ≡ select q i xs
unfolding select
select_ext p q i [] h = refl
select_ext {A = A} p q i (x ∷ xs) h =
    let ih = select_ext p q (i + 1) xs (λ k lt. h k (omega arith)) in rw (h i (omega arith), ih)

-- Two sets without a common member, and their union.
pub record IsSplit (first second over : VariableSet) : Type 0 where
  pub first_set : IsVariableSet first
  pub second_set : IsVariableSet second
  pub over_set : IsVariableSet over
  pub first_o : first.o ≡ over.o
  pub second_o : second.o ≡ over.o
  pub disjoint : Disjoint first.bv.size (bit first.bv) (bit second.bv)
  pub union : (k : ℕ) → k < first.bv.size → bit over.bv k ≡ (bit first.bv k || bit second.bv k)

abbrev pub split_tags : VariableSet → VariableSet → List Tag
split_tags first second = tags (bit first.bv) (bit second.bv) 0 first.bv.size

-- A row of the table: the indices of the values `xs` with each of the rows.
abbrev pub table_row : VariableSet → VariableSet → VariableSet → List (List ℕ) → List ℕ → List ℕ
table_row first second over seconds xs =
    map (encode (cards over)) (map (weave (split_tags first second) xs) seconds)

module _ (first second over : VariableSet) (h : IsSplit first second over) where
  open h use {first_set, second_set, over_set, first_o, second_o, disjoint}

  -- Elements for the positions, those of the union taken by tags or by bits.
  pub union_select :
      {A : Type 0} (xs : List A)
      → length xs ≡ first.bv.size
      → union (split_tags first second) xs ≡ select (bit over.bv) 0 xs
  union_select xs e =
      ap (λ (n : ℕ). union (tags (bit first.bv) (bit second.bv) 0 n) xs) (sym e)
      ∙ union-tags (bit first.bv) (bit second.bv) 0 xs
      ∙ sym (
          select_ext (bit over.bv) (λ k. bit first.bv k || bit second.bv k) 0 xs
            (λ k lt. h.union k (omega arith)))

  all_members : length (members over) ≡ count (split_tags first second)
  unfolding members
  all_members =
      let vs = over.o.vbls in
      let size : length vs ≡ first.bv.size =
        sym (first_set.width ∙ ap (λ (o : VariableOrdering). o.size) first_o ∙ over_set.ordering) in
      sym (ap length (union_select vs size))
      ∙ length-union (split_tags first second) vs
          (size ∙ sym (length-tags (bit first.bv) (bit second.bv) 0 first.bv.size))

  pub members_split : length (members over) ≡ length (members first) + length (members second)
  members_split =
      let (of_f, of_s) =
        tag_counts first second first_set second_set (first_o ∙ sym second_o) disjoint in
      all_members ∙ count-ranks (split_tags first second) 0 ∙ omega (arith, of_f, of_s)

  row_length :
      (xs ys : List ℕ)
      → length xs ≡ length (members first)
      → length ys ≡ length (members second)
      → length (weave (split_tags first second) xs ys) ≡ length (members over)
  row_length xs ys e f =
      let (of_f, of_s) =
        tag_counts first second first_set second_set (first_o ∙ sym second_o) disjoint in
      length-weave (split_tags first second) 0 xs ys (e ∙ of_f) (f ∙ of_s) ∙ sym all_members

  rows_lengths :
      (xs : List ℕ) (rows : List (List ℕ))
      → length xs ≡ length (members first)
      → All (λ (row : List ℕ). length row ≡ length (members second)) rows
      → All
          (λ (row : List ℕ). length row ≡ length (members over))
          (map (weave (split_tags first second) xs) rows)
  rows_lengths xs [] e l = tt
  rows_lengths xs (ys ∷ rows) e l = (row_length xs ys e l.0, rows_lengths xs rows e l.1)

  module _ (fresh : ℕ → List ℕ) (fits : (n : ℕ) → length (fresh n) ≡ n)
      (some_member : 0 < length (members over)) (seconds : List (List ℕ))
      (full : All (λ (row : List ℕ). length row ≡ length (members second)) seconds) where
    indices_lem :
        (xs : List ℕ)
        → length xs ≡ length (members first)
        → compute_indices over (map (weave (split_tags first second) xs) seconds) (length seconds)
          ≡ ok (table_row first second over seconds xs)
    indices_lem xs e =
        let rows : List (List ℕ) = map (weave (split_tags first second) xs) seconds in
        let many : length rows ≡ length seconds =
          length-map seconds (weave (split_tags first second) xs) in
        ap (λ (n : ℕ). compute_indices over rows n) (sym many)
        ∙ compute_indices_lem over rows over_set some_member (rows_lengths xs seconds e full)

    pub table_lem :
        (firsts seen : List (List ℕ)) (i : ℕ)
        → All (λ (row : List ℕ). length row ≡ length (members first)) firsts
        → length seen ≡ i
        → table_loop fresh first
            (seen ++ firsts)
            second
            seconds
            (length seconds)
            over
            (length firsts)
            i
          ≡ ok (map (table_row first second over seconds) firsts)
    unfolding table_loop
    table_lem [] seen i l e = refl
    table_lem (xs ∷ firsts) seen i l e =
        let cross =
          index_cross-weave fresh first second xs seconds fits first_set second_set
            (first_o ∙ sym second_o) disjoint l.0 full in
        rw (get_elem?-append_mid seen xs firsts i e, cross, indices_lem xs l.0)
          (ap
              (λ (all : List (List ℕ)).
                table_loop fresh first all second seconds (length seconds) over (length firsts)
                  (i + 1)
                >>= λ rest. ok (table_row first second over seconds xs ∷ rest))
              (sym (append_snoc seen xs firsts))
            ∙ ap
                (λ (o : Outcome (List (List ℕ))).
                  o >>= λ rest. ok (table_row first second over seconds xs ∷ rest))
                (table_lem firsts (seen ++ xs ∷ []) (i + 1) l.1 (length_snoc seen xs i e)))

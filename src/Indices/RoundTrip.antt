-- ===== src/Indices/RoundTrip.antt =====
-- `ComputeIndices` on arrays of rows, and back from the rows that `EnumerateValues` lists.
use junction_box.Base.{
  ℕ, zero, suc, ◌+◌, ◌%◌, ◌≤◌, ◌<◌, List, [], ◌∷◌, ◌++◌, map, ◌≡◌, refl, sym, ap, ap₂, ◌∙◌, arith,
  length, length-map, length_snoc, append_snoc, get_elem?-append_mid, All, Outcome, ok, ◌>>=◌,
}
use junction_box.Radix.{product, encode, decode}
use junction_box.Radix.Laws.{encode-decode}
use junction_box.Variables.{Variable}
use junction_box.VariableSet.{VariableSet}
use junction_box.VariableSet.Members.{IsVariableSet, members}
use junction_box.Indices.{each_index, enumerate_values, compute_indices}
use junction_box.Indices.Laws.{
  cards, cards-pos_of, domain_lem, num_vbls_lem, one_index, count_up, enumerate_values_lem,
}

each_lem :
    (cs : List ℕ) (rows done : List (List ℕ)) (i : ℕ)
    → 0 < length cs
    → All (λ c. 0 < c) cs
    → All (λ (row : List ℕ). length row ≡ length cs) rows
    → length done ≡ i
    → each_index cs (length cs) (product cs) (length rows) (done ++ rows) i
      ≡ ok (map (encode cs) rows)
unfolding each_index
each_lem cs [] done i n pos l e = refl
each_lem cs (row ∷ rows) done i n pos l e =
    rw (get_elem?-append_mid done row rows i e, one_index cs row n pos l.0)
      (ap
          (λ (values : List (List ℕ)).
            each_index cs (length cs) (product cs) (length rows) values (i + 1) >>= λ rest.
            ok (encode cs row ∷ rest))
          (sym (append_snoc done row rows))
        ∙ ap (λ (o : Outcome (List ℕ)). o >>= λ rest. ok (encode cs row ∷ rest))
            (each_lem cs rows (done ++ row ∷ []) (i + 1) n pos l.1 (length_snoc done row i e)))

-- For a set that is not empty, with one value per member in each row, `ComputeIndices` returns the
-- number of every row, in order.
pub compute_indices_lem :
    (s : VariableSet) (rows : List (List ℕ))
    → IsVariableSet s
    → 0 < length (members s)
    → All (λ (row : List ℕ). length row ≡ length (members s)) rows
    → compute_indices s rows (length rows) ≡ ok (map (encode (cards s)) rows)
unfolding compute_indices
compute_indices_lem s rows h n l =
    let len = length-map (members s) (λ (v : Variable). v.cardinality) in
    rw (num_vbls_lem s h, domain_lem s h)
      (each_lem (cards s) rows [] 0 (omega (arith, len)) (cards-pos_of s h) (rw len l) refl)

length-decode : (cs : List ℕ) (n : ℕ) → length (decode cs n) ≡ length cs
unfolding decode
length-decode [] n = refl
length-decode (c ∷ cs) n = ap suc (length-decode cs (n % product cs))

pub digits_rows :
    (cs : List ℕ) (i n : ℕ)
    → All (λ (row : List ℕ). length row ≡ length cs) (map (decode cs) (count_up i n))
unfolding count_up
digits_rows cs i zero = tt
digits_rows cs i (suc n) = (length-decode cs i, digits_rows cs (i + 1) n)

pub length-count_up : (i n : ℕ) → length (count_up i n) ≡ n
unfolding count_up
length-count_up i zero = refl
length-count_up i (suc n) = ap suc (length-count_up (i + 1) n)

count_back :
    (cs : List ℕ) (i n : ℕ)
    → All (λ c. 0 < c) cs
    → i + n ≤ product cs
    → map (encode cs) (map (decode cs) (count_up i n)) ≡ count_up i n
unfolding count_up
count_back cs i zero pos h = refl
count_back cs i (suc n) pos h =
    ap₂ (λ (v : ℕ) (l : List ℕ). v ∷ l) (encode-decode cs i pos (omega arith))
      (count_back cs (i + 1) n pos (omega arith))

-- The rows that `EnumerateValues` lists for a set that is not empty are sent by `ComputeIndices`
-- to 0, 1, 2, … in order: the two functions agree on the place of every combination of values.
pub compute_indices-enumerate_values :
    (s : VariableSet)
    → IsVariableSet s
    → 0 < length (members s)
    → (enumerate_values s >>= λ (rows, count). compute_indices s rows count)
      ≡ ok (count_up 0 (product (cards s)))
compute_indices-enumerate_values s h n =
    let cs = cards s in
    let rows = map (decode cs) (count_up 0 (product cs)) in
    let len = length-map (members s) (λ (v : Variable). v.cardinality) in
    let many : length rows ≡ product cs =
      length-map (count_up 0 (product cs)) (decode cs) ∙ length-count_up 0 (product cs) in
    rw (enumerate_values_lem s h n) (
      ap (λ (m : ℕ). compute_indices s rows m) (sym many)
      ∙ compute_indices_lem s rows h n (rw (sym len) (digits_rows cs 0 (product cs)))
      ∙ ap (λ (l : List ℕ). ok l) (count_back cs 0 (product cs) (cards-pos_of s h) (omega arith)))

-- ===== src/Indices/Laws.antt =====
-- `EnumerateValues`, `ComputeIndex` and `ComputeIndices` as mixed radix numbers over the
-- cardinalities of the members.
use native.Mathlib.Nat.{mul_assoc}
use mathlib.Core.List.{append-nil}
use junction_box.Base.{
  ℕ, zero, suc, ◌+◌, ◌-◌, ◌*◌, ◌≤◌, ◌<◌, true, false, List, [], ◌∷◌, ◌++◌, map, ◌≡◌, refl, sym, ap,
  ap₂, ◌∙◌, arith, ◌==◌, lt→ltb, length, length-map, length-append, append_snoc, All, ok, ◌>>=◌,
}
use junction_box.Radix.{product, encode, decode}
use junction_box.BitVector
use junction_box.Variables.{Variable}
use junction_box.VariableSet.{VariableSet, push}
use junction_box.VariableSet.Members.{
  IsVariableSet, members, fold, scan-fold, num_on_bits-members, members-discrete,
}
use junction_box.VariableSet.Ops.{cardinalities}
use junction_box.Indices.{domain, row_loop, rows_loop, enumerate_values, index_loop, compute_index}
use junction_box.Indices.Rows.{row_loop-decode, index_loop-encode}

abbrev pub cards : VariableSet → List ℕ
cards s = cardinalities (members s)

cards-pos :
    (vs : List Variable)
    → All (λ (v : Variable). 0 < v.cardinality) vs
    → All (λ c. 0 < c) (cardinalities vs)
cards-pos [] h = tt
cards-pos (v ∷ vs) h = (h.0, cards-pos vs h.1)

pub cards-pos_of : (s : VariableSet) → IsVariableSet s → All (λ c. 0 < c) (cards s)
cards-pos_of s h = cards-pos (members s) (members-discrete s h)

domain_fold :
    (room : ℕ) (vs : List Variable) (p : ℕ) (l : List ℕ)
    → length l + length vs ≤ room
    → fold
        (λ ((product, card) : ℕ × List ℕ) (v : Variable).
          push room card v.cardinality >>= λ card'. ok (product * v.cardinality, card'))
        vs
        (p, l)
      ≡ ok (p * product (cardinalities vs), l ++ cardinalities vs)
unfolding fold product
domain_fold room [] p l h =
    ap₂ (λ (n : ℕ) (t : List ℕ). ok (n, t)) (omega arith) (sym (append-nil l))
domain_fold room (v ∷ vs) p l h = rw (lt→ltb (length l) room (omega arith)) (
    domain_fold room vs (p * v.cardinality) (l ++ v.cardinality ∷ [])
      (omega (arith, length-append l (v.cardinality ∷ [])))
    ∙ ap₂ (λ (n : ℕ) (t : List ℕ). ok (n, t))
        (mul_assoc p v.cardinality (product (cardinalities vs)))
        (append_snoc l v.cardinality (cardinalities vs)))

pub domain_lem :
    (s : VariableSet)
    → IsVariableSet s
    → domain (length (cards s)) s ≡ ok (product (cards s), cards s)
unfolding domain
domain_lem s h =
    scan-fold _ s (1, []) h
    ∙ domain_fold (length (cards s)) (members s) 1 []
        (omega (arith, length-map (members s) (λ v. v.cardinality)))
    ∙ ap (λ (n : ℕ). ok (n, cards s)) (omega arith)

pub num_vbls_lem :
    (s : VariableSet) → IsVariableSet s → BitVector.get_num_on_bits s.bv ≡ ok (length (cards s))
num_vbls_lem s h =
    num_on_bits-members s h
    ∙ ap (λ (n : ℕ). ok n) (sym (length-map (members s) (λ v. v.cardinality)))

-- One row, from the start.
one_row :
    (cs : List ℕ) (code : ℕ)
    → 0 < length cs
    → All (λ c. 0 < c) cs
    → code < product cs
    → row_loop (length cs) cs (length cs - 1) 0 code (product cs) [] ≡ ok (decode cs code)
one_row [] code n pos lt = absurd (omega arith)
one_row (c ∷ cs) code n pos lt =
    let e : suc (length cs) - 1 ≡ length cs = omega arith in
    ap (λ (left : ℕ). row_loop (suc (length cs)) (c ∷ cs) left 0 code (product (c ∷ cs)) []) e
    ∙ row_loop-decode cs c (suc (length cs)) [] 0 code [] pos refl lt (omega arith)

pub one_index :
    (cs vs : List ℕ)
    → 0 < length cs
    → All (λ c. 0 < c) cs
    → length vs ≡ length cs
    → index_loop cs vs (length cs - 1) 0 (product cs) 0 ≡ ok (encode cs vs)
one_index [] vs n pos l = absurd (omega arith)
one_index (c ∷ cs) [] n pos l = absurd (omega arith)
one_index (c ∷ cs) (v ∷ vs) n pos l =
    let e : suc (length cs) - 1 ≡ length cs = omega arith in
    ap (λ (left : ℕ). index_loop (c ∷ cs) (v ∷ vs) left 0 (product (c ∷ cs)) 0) e
    ∙ index_loop-encode cs c [] vs [] v 0 0 pos refl refl (omega arith)
    ∙ ap (λ (n : ℕ). ok n) (omega arith)

-- The numbers from `i` on.
unfoldable pub count_up : ℕ → ℕ → List ℕ
count_up i zero = []
count_up i (suc n) = i ∷ count_up (i + 1) n

rows_lem :
    (cs : List ℕ) (left i : ℕ)
    → 0 < length cs
    → All (λ c. 0 < c) cs
    → i + left ≤ product cs
    → rows_loop (length cs) cs (product cs) left i ≡ ok (map (decode cs) (count_up i left))
unfolding rows_loop count_up
rows_lem cs zero i n pos lt = refl
rows_lem cs (suc left) i n pos lt =
    rw (one_row cs i n pos (omega arith), rows_lem cs left (i + 1) n pos (omega arith))

-- `EnumerateValues` of a set that is not empty lists the digits of 0, 1, 2, … up to the number of
-- value combinations, which it returns as the cardinality.
pub enumerate_values_lem :
    (s : VariableSet)
    → IsVariableSet s
    → 0 < length (members s)
    → enumerate_values s
      ≡ ok (map (decode (cards s)) (count_up 0 (product (cards s))), product (cards s))
unfolding enumerate_values
enumerate_values_lem s h n =
    let some_vbls : 0 < length (cards s) = rw (length-map (members s) (λ v. v.cardinality)) n in
    let test : (length (cards s) == 0) ≡ false = ground arith in
    rw (
      num_vbls_lem s h,
      test,
      domain_lem s h,
      rows_lem (cards s) (product (cards s)) 0 some_vbls (cards-pos_of s h) (omega arith),
    )

-- The empty set gives no rows, and the cardinality 0.
pub enumerate_values_empty :
    (s : VariableSet) → IsVariableSet s → length (members s) ≡ 0 → enumerate_values s ≡ ok ([], 0)
unfolding enumerate_values
enumerate_values_empty s h n =
    let none : length (cards s) ≡ 0 = length-map (members s) (λ v. v.cardinality) ∙ n in
    let test : (length (cards s) == 0) ≡ true = ground arith in rw (num_vbls_lem s h, test)

-- `ComputeIndex` of a set that is not empty returns the number that the values stand for.
pub compute_index_lem :
    (s : VariableSet) (values : List ℕ)
    → IsVariableSet s
    → 0 < length (members s)
    → length values ≡ length (members s)
    → compute_index s values ≡ ok (encode (cards s) values)
unfolding compute_index
compute_index_lem s values h n l =
    let len = length-map (members s) (λ (v : Variable). v.cardinality) in
    rw (
      num_vbls_lem s h,
      domain_lem s h,
      one_index (cards s) values (omega (arith, len)) (cards-pos_of s h) (omega (arith, len)),
    )

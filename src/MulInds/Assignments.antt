-- ===== src/MulInds/Assignments.antt =====
-- What the table says of one assignment of values to all variables of the ordering.
use junction_box.Base.{
  ℕ, zero, suc, ◌+◌, ◌<◌, Bool, List, [], ◌∷◌, map, ◌≡◌, refl, sym, ap, ◌∙◌, arith, inl, inr,
  Bool-cases, some, length, get_elem?, ok, ◌>>=◌, read,
}
use junction_box.Radix.{product, encode, decode, Digits}
use junction_box.Radix.Laws.{encode-lt, decode-encode}
use junction_box.BitVector.Valid.{bit}
use junction_box.Variables.{Variable, VariableOrdering}
use junction_box.VariableSet.{VariableSet}
use junction_box.VariableSet.Members.{members, select}
use junction_box.VariableSet.Ops.{cardinalities}
use junction_box.Indices.Laws.{cards, count_up}
use junction_box.Crossing.Tags.{Tag, flip, weave, pick, weave-pick}
use junction_box.Crossing.Sets.{tags, length-tags, pick-tags, flip-tags}
use junction_box.MulInds.Table.{IsSplit, split_tags, table_row, union_select}

-- The index of a set's values in its table.
unfoldable pub index_of : VariableSet → List ℕ → ℕ
index_of s a = encode (cards s) (select (bit s.bv) 0 a)

-- A value in range for every variable of the ordering.
abbrev pub InRange : VariableOrdering → List ℕ → Type 0
InRange o a = Digits (cardinalities o.vbls) a

length-InRange :
    (vs : List Variable) (a : List ℕ) → Digits (cardinalities vs) a → length a ≡ length vs
length-InRange [] [] d = refl
length-InRange [] (x ∷ a) d = absurd d
length-InRange (v ∷ vs) [] d = absurd d
length-InRange (v ∷ vs) (x ∷ a) d = ap suc (length-InRange vs a d.1)

pub Digits-select :
    (p : ℕ → Bool) (i : ℕ) (vs : List Variable) (a : List ℕ)
    → Digits (cardinalities vs) a
    → Digits (cardinalities (select p i vs)) (select p i a)
unfolding select
Digits-select p i [] [] d = tt
Digits-select p i [] (x ∷ a) d = absurd d
Digits-select p i (v ∷ vs) [] d = absurd d
Digits-select p i (v ∷ vs) (x ∷ a) d =
    let ih = Digits-select p (i + 1) vs a d.1 in
    elim (Bool-cases (p i)) [ inl on ↦ rw on (d.0, ih) | inr off ↦ rw off ih ]

-- The values of a set are the digits of their index, which is a place of its table.
pub index_of_lem :
    (s : VariableSet) (a : List ℕ)
    → InRange s.o a
    → (index_of s a < product (cards s)) × (decode (cards s) (index_of s a) ≡ select (bit s.bv) 0 a)
unfolding index_of members
index_of_lem s a d =
    let digits = Digits-select (bit s.bv) 0 s.o.vbls a d in
    (
      encode-lt (cards s) (select (bit s.bv) 0 a) digits,
      decode-encode (cards s) (select (bit s.bv) 0 a) digits,
    )

get_elem?-map :
    {A B : Type 0} (f : A → B) (xs : List A) (k : ℕ) (x : A)
    → get_elem? xs k ≡ some x
    → get_elem? (map f xs) k ≡ some (f x)
get_elem?-map f [] k x e = cc
get_elem?-map {B = B} f (y ∷ xs) zero x e = let h : y ≡ x = cc in ap (λ z. some (f z)) h
get_elem?-map f (y ∷ xs) (suc k) x e = get_elem?-map f xs k x e

get_elem?-count_up : (i n k : ℕ) → k < n → get_elem? (count_up i n) k ≡ some (i + k)
unfolding count_up
get_elem?-count_up i zero k h = absurd (omega arith)
get_elem?-count_up i (suc n) zero h = ap (λ (m : ℕ). some m) (omega arith)
get_elem?-count_up i (suc n) (suc k) h =
    get_elem?-count_up (i + 1) n k (omega arith) ∙ ap (λ (m : ℕ). some m) (omega arith)

-- The rows of `EnumerateValues`.
abbrev pub combinations : VariableSet → List (List ℕ)
combinations s = map (decode (cards s)) (count_up 0 (product (cards s)))

get_elem?-combinations :
    (s : VariableSet) (a : List ℕ)
    → InRange s.o a
    → get_elem? (combinations s) (index_of s a) ≡ some (select (bit s.bv) 0 a)
get_elem?-combinations s a d =
    let (lt, digits) = index_of_lem s a d in
    get_elem?-map (decode (cards s)) (count_up 0 (product (cards s))) (index_of s a) (index_of s a)
      (get_elem?-count_up 0 (product (cards s)) (index_of s a) lt
        ∙ ap (λ (m : ℕ). some m) (omega arith))
    ∙ ap (λ (l : List ℕ). some l) digits

-- The complete table.
abbrev pub full_table : VariableSet → VariableSet → VariableSet → List (List ℕ)
full_table first second over =
    map (table_row first second over (combinations second)) (combinations first)

-- The values of two disjoint sets, woven together, are those of the union.
pub weave_values :
    (first second over : VariableSet) (a : List ℕ)
    → IsSplit first second over
    → InRange over.o a
    → weave (split_tags first second) (select (bit first.bv) 0 a) (select (bit second.bv) 0 a)
      ≡ select (bit over.bv) 0 a
weave_values first second over a h d =
    let ts = split_tags first second in
    let n = first.bv.size in
    let p = bit first.bv in
    let q = bit second.bv in
    let of_first : InRange first.o a = rw h.first_o d in
    let size : length a ≡ n =
      length-InRange first.o.vbls a of_first ∙ sym (h.first_set.width ∙ h.first_set.ordering) in
    let firsts : pick ts a ≡ select p 0 a =
      ap (λ (m : ℕ). pick (tags p q 0 m) a) (sym size) ∙ pick-tags p q 0 a in
    let seconds : pick (flip ts) a ≡ select q 0 a =
      ap (λ (t : List Tag). pick t a) (flip-tags p q n 0 n h.disjoint (omega arith))
      ∙ ap (λ (m : ℕ). pick (tags q p 0 m) a) (sym size)
      ∙ pick-tags q p 0 a in
    rw (← firsts, ← seconds)
      (weave-pick ts a (size ∙ sym (length-tags p q 0 n)) ∙ union_select first second over h a size)

-- In the row of the first set's index and the column of the second set's index stands the index
-- of the union.
pub full_table_lem :
    (first second over : VariableSet) (a : List ℕ)
    → IsSplit first second over
    → InRange over.o a
    → (read (full_table first second over) (index_of first a) >>= λ row.
        read row (index_of second a))
      ≡ ok (index_of over a)
unfolding index_of
full_table_lem first second over a h d =
    let ts = split_tags first second in
    let p = bit first.bv in
    let q = bit second.bv in
    let of_first : InRange first.o a = rw h.first_o d in
    let of_second : InRange second.o a = rw h.second_o d in
    let row =
      get_elem?-map (table_row first second over (combinations second)) (combinations first) _ _
        (get_elem?-combinations first a of_first) in
    let cell =
      get_elem?-map (encode (cards over)) (map (weave ts (select p 0 a)) (combinations second)) _ _
        (get_elem?-map (weave ts (select p 0 a)) (combinations second) _ _
          (get_elem?-combinations second a of_second)) in
    let together : weave ts (select p 0 a) (select q 0 a) ≡ select (bit over.bv) 0 a =
      weave_values first second over a h d in
    rw (row, cell, together)

-- ===== src/MulInds/Digits.antt =====
-- The cells of a table are places of the union's table.
use junction_box.Base.{
  ℕ, zero, suc, ◌+◌, ◌≤◌, ◌<◌, Bool, List, [], ◌∷◌, map, ◌≡◌, refl, sym, ap, ◌∙◌, arith, inl, inr,
  Bool-cases, length, length-map, All,
}
use junction_box.Radix.{product, decode, Digits}
use junction_box.Radix.Laws.{encode-lt, decode-Digits}
use junction_box.BitVector.Valid.{bit}
use junction_box.Variables.{Variable, VariableOrdering}
use junction_box.VariableSet.{VariableSet}
use junction_box.VariableSet.Members.{IsVariableSet, members, select}
use junction_box.VariableSet.Ops.{cardinalities}
use junction_box.Indices.Laws.{cards, cards-pos_of, count_up}
use junction_box.Crossing.Tags.{Tag, one, two, neither, flip, pick, union, weave}
use junction_box.Crossing.Sets.{tags, pick-tags, flip-tags, length-tags}
use junction_box.MulInds.Table.{IsSplit, split_tags, table_row, union_select}
use junction_box.MulInds.Assignments.{combinations, full_table}

Digits-weave :
    (ts : List Tag) (cs xs ys : List ℕ)
    → length cs ≡ length ts
    → Digits (pick ts cs) xs
    → Digits (pick (flip ts) cs) ys
    → Digits (union ts cs) (weave ts xs ys)
unfolding pick flip union weave
Digits-weave [] cs xs ys l a b = tt
Digits-weave (t ∷ ts) [] xs ys l a b = absurd (omega arith)
Digits-weave (one ∷ ts) (c ∷ cs) [] ys l a b = absurd a
Digits-weave (one ∷ ts) (c ∷ cs) (x ∷ xs) ys l a b =
    (a.0, Digits-weave ts cs xs ys (omega arith) a.1 b)
Digits-weave (two ∷ ts) (c ∷ cs) xs [] l a b = absurd b
Digits-weave (two ∷ ts) (c ∷ cs) xs (y ∷ ys) l a b =
    (b.0, Digits-weave ts cs xs ys (omega arith) a b.1)
Digits-weave (neither ∷ ts) (c ∷ cs) xs ys l a b = Digits-weave ts cs xs ys (omega arith) a b

cardinalities-select :
    (p : ℕ → Bool) (i : ℕ) (vs : List Variable)
    → cardinalities (select p i vs) ≡ select p i (cardinalities vs)
unfolding select
cardinalities-select p i [] = refl
cardinalities-select p i (v ∷ vs) = elim (Bool-cases (p i)) [
  | inl on ↦ rw (on, cardinalities-select p (i + 1) vs)
  | inr off ↦ rw (off, cardinalities-select p (i + 1) vs)
]

rows_in_range :
    (cs : List ℕ) (i n : ℕ)
    → All (λ c. 0 < c) cs
    → i + n ≤ product cs
    → All (Digits cs) (map (decode cs) (count_up i n))
unfolding count_up
rows_in_range cs i zero pos h = tt
rows_in_range cs i (suc n) pos h =
    (decode-Digits cs i pos (omega arith), rows_in_range cs (i + 1) n pos (omega arith))

pub combinations-Digits :
    (s : VariableSet) → IsVariableSet s → All (Digits (cards s)) (combinations s)
combinations-Digits s h =
    rows_in_range (cards s) 0 (product (cards s)) (cards-pos_of s h) (omega arith)

module _ (first second over : VariableSet) (h : IsSplit first second over) where
  -- Values in range for both sets are in range for the union.
  pub weave-Digits :
      (xs ys : List ℕ)
      → Digits (cards first) xs
      → Digits (cards second) ys
      → Digits (cards over) (weave (split_tags first second) xs ys)
  unfolding members
  weave-Digits xs ys a b =
      let ts = split_tags first second in
      let n = first.bv.size in
      let p = bit first.bv in
      let q = bit second.bv in
      let cs = cardinalities over.o.vbls in
      let size : length cs ≡ n =
        length-map over.o.vbls (λ (v : Variable). v.cardinality)
        ∙ sym (
            h.first_set.width
            ∙ ap (λ (o : VariableOrdering). o.size) h.first_o
            ∙ h.over_set.ordering) in
      let firsts : cards first ≡ pick ts cs =
        ap (λ (o : VariableOrdering). cardinalities (select p 0 o.vbls)) h.first_o
        ∙ cardinalities-select p 0 over.o.vbls
        ∙ sym (ap (λ (m : ℕ). pick (tags p q 0 m) cs) (sym size) ∙ pick-tags p q 0 cs) in
      let seconds : cards second ≡ pick (flip ts) cs =
        ap (λ (o : VariableOrdering). cardinalities (select q 0 o.vbls)) h.second_o
        ∙ cardinalities-select q 0 over.o.vbls
        ∙ sym (
            ap (λ (t : List Tag). pick t cs) (flip-tags p q n 0 n h.disjoint (omega arith))
            ∙ ap (λ (m : ℕ). pick (tags q p 0 m) cs) (sym size)
            ∙ pick-tags q p 0 cs) in
      let all : cards over ≡ union ts cs =
        cardinalities-select (bit over.bv) 0 over.o.vbls
        ∙ sym (union_select first second over h cs size) in
      rw all (
        Digits-weave ts cs xs ys (size ∙ sym (length-tags p q 0 n)) (rw firsts at a)
          (rw seconds at b))

  -- The cells of a row are places of the union's table.
  row-Places :
      (xs : List ℕ) (seconds : List (List ℕ))
      → Digits (cards first) xs
      → All (Digits (cards second)) seconds
      → (length (table_row first second over seconds xs) ≡ length seconds)
        × All (λ k. k < product (cards over)) (table_row first second over seconds xs)
  row-Places xs [] a l = (refl, tt)
  row-Places xs (ys ∷ seconds) a l =
      let (len, rest) = row-Places xs seconds a l.1 in
      (
        ap suc len,
        (
          encode-lt (cards over) (weave (split_tags first second) xs ys) (weave-Digits xs ys a l.0),
          rest,
        ),
      )

  rows-Places :
      (firsts seconds : List (List ℕ))
      → All (Digits (cards first)) firsts
      → All (Digits (cards second)) seconds
      → All
          (λ (row : List ℕ).
            (length row ≡ length seconds) × All (λ k. k < product (cards over)) row)
          (map (table_row first second over seconds) firsts)
  rows-Places [] seconds l m = tt
  rows-Places (xs ∷ firsts) seconds l m =
      (row-Places xs seconds l.0 m, rows-Places firsts seconds l.1 m)

  -- Every row of the complete table has one cell for each combination of the second set.
  pub full_table-Places :
      All
        (λ (row : List ℕ).
          (length row ≡ length (combinations second)) × All (λ k. k < product (cards over)) row)
        (full_table first second over)
  full_table-Places =
      rows-Places (combinations first) (combinations second) (combinations-Digits first h.first_set)
        (combinations-Digits second h.second_set)

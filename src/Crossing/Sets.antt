-- ===== src/Crossing/Sets.antt =====
-- `IndexCross` on sets of variables.
use junction_box.Base.{
  ℕ, zero, suc, ◌+◌, ◌≤◌, ◌<◌, ◌||◌, Bool, true, false, List, [], ◌∷◌, map, ◌≡◌, refl, sym, ap, ap₂,
  ◌∙◌, arith, inl, inr, Bool-cases, some, length, All, get_elem?, ok,
}
use junction_box.BitVector.Valid.{IsValid, bit}
use junction_box.VariableSet.{VariableSet, scan_loop, push}
use junction_box.VariableSet.Members.{
  IsVariableSet, select, members, length-select, fold, scan_loop-fold,
}
use junction_box.VariableSet.Ops.{fold-push, set_views}
use junction_box.Base.Ranges.{count_from}
use junction_box.Variables.{VariableOrdering}
use junction_box.Indices.Laws.{count_up}
use junction_box.Indices.RoundTrip.{length-count_up}
use junction_box.Crossing.{places, index_cross}
use junction_box.Crossing.Tags.{
  Tag, one, two, neither, other, flip, ones, ranks, weave, union, pick, length-ranks,
}
use junction_box.Crossing.Ranks.{fix_vbls_indices_lem}
use junction_box.Crossing.Rows.{cross_loop-weave}

-- The tag of a position, and those of the `n` positions from `i`.
abbrev pub tag : Bool → Bool → Tag
tag true b = one
tag false true = two
tag false false = neither

unfoldable pub tags : (ℕ → Bool) → (ℕ → Bool) → ℕ → ℕ → List Tag
tags p q i zero = []
tags p q i (suc n) = tag (p i) (q i) ∷ tags p q (i + 1) n

-- No position below `n` has both sets.
abbrev pub Disjoint : ℕ → (ℕ → Bool) → (ℕ → Bool) → Type 0
Disjoint n p q = (k : ℕ) → k < n → p k ≡ true → q k ≡ false

other-tag : (a b : Bool) → (a ≡ true → b ≡ false) → other (tag a b) ≡ tag b a
other-tag true true h = let e : true ≡ false = h refl in cc
other-tag true false h = refl
other-tag false true h = refl
other-tag false false h = refl

pub flip-tags :
    (p q : ℕ → Bool) (size i n : ℕ)
    → Disjoint size p q
    → i + n ≤ size
    → flip (tags p q i n) ≡ tags q p i n
unfolding flip tags
flip-tags p q size i zero d h = refl
flip-tags p q size i (suc n) d h =
    ap₂ (λ (t : Tag) (ts : List Tag). t ∷ ts) (other-tag (p i) (q i) (d i (omega arith)))
      (flip-tags p q size (i + 1) n d (omega arith))

module _ (p q : ℕ → Bool) where
  ones-tags : (i n : ℕ) → ones (tags p q i n) i ≡ select p i (count_up i n)
  unfolding ones tags select count_up
  ones-tags i zero = refl
  ones-tags i (suc n) = elim (Bool-cases (p i)) [
    | inl a ↦ rw (a, ones-tags (i + 1) n)
    | inr a ↦ elim (Bool-cases (q i)) [
      | inl b ↦ rw (a, b, ones-tags (i + 1) n)
      | inr b ↦ rw (a, b, ones-tags (i + 1) n)
    ]
  ]

  pub pick-tags :
      {A : Type 0} (i : ℕ) (xs : List A) → pick (tags p q i (length xs)) xs ≡ select p i xs
  unfolding pick tags select
  pick-tags i [] = refl
  pick-tags i (x ∷ xs) = elim (Bool-cases (p i)) [
    | inl a ↦ rw (a, pick-tags (i + 1) xs)
    | inr a ↦ elim (Bool-cases (q i)) [
      | inl b ↦ rw (a, b, pick-tags (i + 1) xs)
      | inr b ↦ rw (a, b, pick-tags (i + 1) xs)
    ]
  ]

  pub union-tags :
      {A : Type 0} (i : ℕ) (xs : List A)
      → union (tags p q i (length xs)) xs ≡ select (λ k. p k || q k) i xs
  unfolding union tags select
  union-tags i [] = refl
  union-tags i (x ∷ xs) = elim (Bool-cases (p i)) [
    | inl a ↦ rw (a, union-tags (i + 1) xs)
    | inr a ↦ elim (Bool-cases (q i)) [
      | inl b ↦ rw (a, b, union-tags (i + 1) xs)
      | inr b ↦ rw (a, b, union-tags (i + 1) xs)
    ]
  ]

pub length-tags : (p q : ℕ → Bool) (i n : ℕ) → length (tags p q i n) ≡ n
unfolding tags
length-tags p q i zero = refl
length-tags p q i (suc n) = ap suc (length-tags p q (i + 1) n)

count_up_at : (i n k a : ℕ) → get_elem? (count_up i n) k ≡ some a → i + k ≡ a
unfolding count_up
count_up_at i zero k a e = cc
count_up_at i (suc n) zero a e = let h : i ≡ a = cc in omega arith
count_up_at i (suc n) (suc k) a e = omega (arith, count_up_at (i + 1) n k a e)

sym_zero : (i : ℕ) → i ≡ 0 + i
sym_zero i = omega arith

map_id : (l : List ℕ) → map (λ x. x) l ≡ l
map_id [] = refl
map_id (x ∷ l) = ap (λ (t : List ℕ). x ∷ t) (map_id l)

fold_numbers : (l : List ℕ) (room : ℕ) → length l ≤ room → fold (λ l x. push room l x) l [] ≡ ok l
fold_numbers l room h =
    fold-push (λ (x : ℕ). x) room l [] (omega arith) ∙ ap (λ (t : List ℕ). ok t) (map_id l)

-- The ranks of the members, as `IndexCross` collects them.
places_lem :
    (s : VariableSet) (n room : ℕ)
    → IsValid s.bv
    → n ≡ s.bv.size
    → room ≡ length (select (bit s.bv) 0 (count_up 0 n))
    → places room n s ≡ ok (select (bit s.bv) 0 (count_up 0 n))
unfolding places
places_lem s n room h w e =
    let len = length-count_up 0 n in
    ap (λ (m : ℕ). scan_loop (λ l i. push room l i) m 0 s.bv []) (sym len)
    ∙ scan_loop-fold s.bv h (λ l x. push room l x) (λ l i. push room l i) [] (count_up 0 n)
        (λ l i a at. ap (λ (m : ℕ). push room l m) (sym_zero i ∙ count_up_at 0 n i a at)) 0 refl
        (omega (arith, len)) []
    ∙ fold_numbers (select (bit s.bv) 0 (count_up 0 n)) room (omega arith)

member_count :
    (s : VariableSet) (n : ℕ)
    → IsVariableSet s
    → n ≡ s.o.size
    → length (members s) ≡ length (select (bit s.bv) 0 (count_up 0 n))
unfolding members
member_count s n h e =
    let p = bit s.bv in
    length-select p 0 s.o.vbls
    ∙ ap (λ (m : ℕ). count_from p 0 m) (sym h.ordering ∙ sym e ∙ sym (length-count_up 0 n))
    ∙ sym (length-select p 0 (count_up 0 n))

-- The numbers of values that the rows of two disjoint sets have.
pub tag_counts :
    (first second : VariableSet)
    → IsVariableSet first
    → IsVariableSet second
    → first.o ≡ second.o
    → Disjoint first.bv.size (bit first.bv) (bit second.bv)
    → let ts = tags (bit first.bv) (bit second.bv) 0 first.bv.size in
      (length (members first) ≡ length (ranks ts 0))
      × (length (members second) ≡ length (ranks (flip ts) 0))
tag_counts first second h k o d =
    let n = first.bv.size in
    let p = bit first.bv in
    let q = bit second.bv in
    let ts = tags p q 0 n in
    let same : n ≡ second.o.size = h.width ∙ ap (λ (o : VariableOrdering). o.size) o in
    let ones_s : ones (flip ts) 0 ≡ select q 0 (count_up 0 n) =
      ap (λ (t : List Tag). ones t 0) (flip-tags p q n 0 n d (omega arith)) ∙ ones-tags q p 0 n in
    let ranks_f = length-ranks ts 0 0 ∙ ap (λ (l : List ℕ). length l) (ones-tags p q 0 n) in
    let ranks_s = length-ranks (flip ts) 0 0 ∙ ap (λ (l : List ℕ). length l) ones_s in
    (member_count first n h h.width ∙ sym ranks_f, member_count second n k same ∙ sym ranks_s)

-- For disjoint sets of one ordering, with one value for each member of the first set and one for
-- each member of the second in every row, `IndexCross` returns the rows in which the values of
-- both sets stand in the order of the variables.
pub index_cross-weave :
    (fresh : ℕ → List ℕ) (first second : VariableSet) (xs : List ℕ) (rows : List (List ℕ))
    → ((n : ℕ) → length (fresh n) ≡ n)
    → IsVariableSet first
    → IsVariableSet second
    → first.o ≡ second.o
    → Disjoint first.bv.size (bit first.bv) (bit second.bv)
    → length xs ≡ length (members first)
    → All (λ (row : List ℕ). length row ≡ length (members second)) rows
    → index_cross fresh first xs second rows (length rows)
      ≡ ok (map (weave (tags (bit first.bv) (bit second.bv) 0 first.bv.size) xs) rows)
unfolding index_cross
index_cross-weave fresh first second xs rows fits h k o d lx lr =
    let n = first.bv.size in
    let p = bit first.bv in
    let q = bit second.bv in
    let ts = tags p q 0 n in
    let same : n ≡ second.o.size = h.width ∙ ap (λ (o : VariableOrdering). o.size) o in
    let count_f = member_count first n h h.width in
    let count_s = member_count second n k same in
    let ones_s : ones (flip ts) 0 ≡ select q 0 (count_up 0 n) =
      ap (λ (t : List Tag). ones t 0) (flip-tags p q n 0 n d (omega arith)) ∙ ones-tags q p 0 n in
    let (of_f, of_s) = tag_counts first second h k o d in
    rw
      (
        (set_views first h).1,
        (set_views second k).1,
        places_lem first n (length (members first)) h.vector refl count_f,
        places_lem second n (length (members second)) k.vector (same ∙ sym k.width) count_s,
        fix_vbls_indices_lem ts (length (members first)) (length (members second)) _ _
            (ones-tags p q 0 n) ones_s count_f count_s,
      )
      (cross_loop-weave fresh fits ts xs (lx ∙ of_f) (length (members first))
        (length (members second)) 0 [] rows (sym lx) of_s lr refl)

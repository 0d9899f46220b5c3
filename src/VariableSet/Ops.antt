-- ===== src/VariableSet/Ops.antt =====
-- What the operations on variable sets do, in terms of the members.
use junction_box.Base.{
  ℕ, ◌+◌, ◌*◌, ◌≤◌, ◌<◌, Bool, true, false, List, [], ◌∷◌, ◌++◌, map, ◌≡◌, ◌↔◌, refl, sym, ap, ◌∙◌,
  arith, inl, inr, if◌then◌else◌, Bool-cases, ◌==◌, lt→ltb, length, append_snoc, length_snoc,
  get_elem?, get_elem?-append_mid, length-append, All, Option, none, some, ok,
}
use mathlib.Core.List.{append-nil}
use native.Mathlib.Nat.{mul_assoc}
use junction_box.Radix.{product}
use junction_box.BitVector
use junction_box.BitVector.{BitVector}
use junction_box.BitVector.Valid.{IsValid, bit, create-IsValid, bit-create}
use junction_box.BitVector.Access.{get_bit_lem, set_bit_on_lem}
use junction_box.BitVector.Combine.{and_or_xor_lem}
use junction_box.BitVector.Compare.{equals_lem}
use junction_box.CString.{Text, spaced}
use junction_box.CString.Laws.{IsText}
use junction_box.CString.Join.{joined, total, join_lem}
use junction_box.Variables.{Variable, VariableOrdering, get_label}
use junction_box.Variables.Laws.{
  IsOrdering, first_from, first_from-some, address_is, get_variable_rank_lem, spaced-IsText,
  labels-IsText,
}
use junction_box.VariableSet.{
  VariableSet, create, contained_in, push, get_variable_list, get_cardinality, add, fst_loop,
  get_fst_vbl, get_num_vbls, get_vbl_cardinalities, set_get_label,
}
use junction_box.VariableSet.Members.{
  IsVariableSet, select, All-select, members, fold, scan-fold, num_on_bits-members,
}

abbrev pub cardinalities : List Variable → List ℕ
cardinalities vs = map (λ (v : Variable). v.cardinality) vs

module _ {A B : Type 0} (f : A → B) where
  fold-snoc :
      (xs : List A) (l : List B) → fold (λ l x. ok (l ++ f x ∷ [])) xs l ≡ ok (l ++ map f xs)
  unfolding fold
  fold-snoc [] l = ap (λ (t : List B). ok t) (sym (append-nil l))
  fold-snoc (x ∷ xs) l =
      fold-snoc xs (l ++ f x ∷ []) ∙ ap (λ (t : List B). ok t) (append_snoc l (f x) (map f xs))

  -- Filling an array that has room for all.
  pub fold-push :
      (room : ℕ) (xs : List A) (l : List B)
      → length l + length xs ≤ room
      → fold (λ l x. push room l (f x)) xs l ≡ ok (l ++ map f xs)
  unfolding fold
  fold-push room [] l h = ap (λ (t : List B). ok t) (sym (append-nil l))
  fold-push room (x ∷ xs) l h = rw (lt→ltb (length l) room (omega arith)) (
      fold-push room xs (l ++ f x ∷ []) (omega (arith, length-append l (f x ∷ [])))
      ∙ ap (λ (t : List B). ok t) (append_snoc l (f x) (map f xs)))

fold-product :
    (vs : List Variable) (r : ℕ)
    → fold (λ ret (v : Variable). ok (ret * v.cardinality)) vs r
      ≡ ok (r * product (cardinalities vs))
unfolding fold product
fold-product [] r = ap (λ (n : ℕ). ok n) (omega arith)
fold-product (v ∷ vs) r =
    fold-product vs (r * v.cardinality)
    ∙ ap (λ (n : ℕ). ok n) (mul_assoc r v.cardinality (product (cardinalities vs)))

map_same : (vs : List Variable) → map (λ x. x) vs ≡ vs
map_same [] = refl
map_same (v ∷ vs) = ap (λ (t : List Variable). v ∷ t) (map_same vs)

-- The counting functions of a set: its members as a list, their number, their cardinalities in
-- order, and the size of the space of their values.
pub set_views :
    (v : VariableSet)
    → IsVariableSet v
    → (get_variable_list v ≡ ok (members v))
      × (get_num_vbls v ≡ ok (length (members v)))
      × (get_vbl_cardinalities v ≡ ok (cardinalities (members v)))
      × (get_cardinality v ≡ ok (product (cardinalities (members v))))
unfolding get_variable_list get_num_vbls get_vbl_cardinalities get_cardinality
set_views v h = (
  scan-fold (λ l x. ok (l ++ x ∷ [])) v [] h
      ∙ fold-snoc (λ x. x) (members v) []
      ∙ ap (λ (t : List Variable). ok t) (map_same (members v)),
  num_on_bits-members v h,
  rw (num_on_bits-members v h) (
      scan-fold (λ l x. push (length (members v)) l x.cardinality) v [] h
      ∙ fold-push (λ (x : Variable). x.cardinality) (length (members v)) (members v) []
          (omega arith)),
  scan-fold (λ ret x. ok (ret * x.cardinality)) v 1 h
      ∙ fold-product (members v) 1
      ∙ ap (λ (n : ℕ). ok n) (omega arith),
)

-- `VariableSet_Create` makes the empty set of an ordering.
pub create_lem :
    (o : VariableOrdering)
    → IsOrdering o
    → All (λ (v : Variable). 0 < v.cardinality) o.vbls
    → IsVariableSet (create o) × ((k : ℕ) → k < o.size → bit (create o).bv k ≡ false)
unfolding create
create_lem o h d = (
  record {
    vector = create-IsValid o.size 0;
    width = unfold BitVector.create in refl;
    ordering = h;
    discrete = d;
  },
  λ k lt. bit-create o.size 0 k lt ∙ ground arith,
)

-- What `VariableSet_Add` makes of a set: the bit at the variable's rank is on, and a variable
-- that the ordering does not have changes nothing.
abbrev pub rank_of : VariableSet → Variable → Option ℕ
rank_of s v = first_from (address_is v) 0 s.o.vbls

abbrev pub is_rank : Option ℕ → ℕ → Bool
is_rank none k = false
is_rank (some r) k = r == k

add_at :
    (s : VariableSet) (v : Variable) (r : Option ℕ)
    → IsVariableSet s
    → rank_of s v ≡ r
    → (s' : VariableSet) × (add s v ≡ ok s')
      × IsVariableSet s'
      × (s'.o ≡ s.o)
      × ((k : ℕ) → bit s'.bv k ≡ (if is_rank r k then true else bit s.bv k))
unfolding add
add_at s v none h e = (s, rw ((get_variable_rank_lem s.o v [] h.ordering).0, e), h, refl, λ k. refl)
add_at s v (some r) h e =
    let lt = (first_from-some (address_is v) s.o.vbls 0 r e).1 in
    let inside : r < s.bv.size = omega (arith, h.width, h.ordering, lt) in
    let (bv, sets, valid, size, bits) = set_bit_on_lem s.bv r h.vector inside in
    (
      record s { bv = bv },
      rw ((get_variable_rank_lem s.o v [] h.ordering).0, e, sets),
      record {
        vector = valid;
        width = size ∙ h.width;
        ordering = h.ordering;
        discrete = h.discrete;
      },
      refl,
      bits,
    )

-- `VariableSet_Add` keeps a set well-formed; it turns on the bit at the rank of the variable, and
-- for a variable that the ordering does not have it changes nothing.
pub add_lem :
    (s : VariableSet) (v : Variable)
    → IsVariableSet s
    → (s' : VariableSet) × (add s v ≡ ok s')
      × IsVariableSet s'
      × (s'.o ≡ s.o)
      × ((k : ℕ) → bit s'.bv k ≡ (if is_rank (rank_of s v) k then true else bit s.bv k))
add_lem s v h = add_at s v (rank_of s v) h refl

-- `VariableSet_ContainedIn` decides inclusion.
pub contained_in_lem :
    (v w : VariableSet)
    → IsVariableSet v
    → IsVariableSet w
    → v.bv.size ≡ w.bv.size
    → (b : Bool) × (contained_in v w ≡ ok b)
      × ((b ≡ true) ↔ ((k : ℕ) → k < v.bv.size → bit v.bv k ≡ true → bit w.bv k ≡ true))
unfolding contained_in
contained_in_lem v w hv hw e =
    let both = (and_or_xor_lem v.bv w.bv 0 hv.vector hw.vector e).0 in
    let (b, runs, means) = equals_lem v.bv both.result hv.vector both.valid (sym both.same_size) in
    (
      b,
      rw (both.returns, runs),
      (
        λ t k lt on. ground (arith, means.0 t k lt, both.bits k),
        λ sub. means.1 (λ k lt. ground (arith, both.bits k, sub k lt)),
      ),
    )

abbrev pub first_of : List Variable → Option Variable
first_of [] = none
first_of (v ∷ vs) = some v

fst_loop_lem :
    (s : VariableSet) (done rest : List Variable) (i : ℕ)
    → IsValid s.bv
    → done ++ rest ≡ s.o.vbls
    → length done ≡ i
    → i + length rest ≡ s.bv.size
    → fst_loop (length rest) i s ≡ ok (first_of (select (bit s.bv) i rest))
unfolding fst_loop select
fst_loop_lem s done [] i h e l w = refl
fst_loop_lem s done (v ∷ rest) i h e l w =
    let (c, reads, means) = get_bit_lem s.bv i h (omega arith) in
    let next =
      fst_loop_lem s (done ++ v ∷ []) rest (i + 1) h (append_snoc done v rest ∙ e)
        (length_snoc done v i l) (omega arith) in
    let here : get_elem? s.o.vbls i ≡ some v = rw (← e) (get_elem?-append_mid done v rest i l) in
    rw (reads, means)
      (elim (Bool-cases (bit s.bv i)) [ inl on ↦ rw (on, here) | inr off ↦ rw off next ])

-- `VariableSet_GetFstVbl` returns the first member, and -1 as a pointer for the empty set.
pub get_fst_vbl_lem :
    (v : VariableSet) → IsVariableSet v → get_fst_vbl v ≡ ok (first_of (members v))
unfolding get_fst_vbl members
get_fst_vbl_lem v h =
    let len : length v.o.vbls ≡ v.bv.size = sym (h.width ∙ h.ordering) in
    ap (λ (n : ℕ). fst_loop n 0 v) (sym len)
    ∙ fst_loop_lem v [] v.o.vbls 0 h.vector refl refl (omega (arith, len))

-- `VariableSet_GetLabel` returns the labels of the members, each with a space behind it.
pub set_get_label_lem :
    (fresh : ℕ → List ℕ) (v : VariableSet)
    → IsVariableSet v
    → All (λ (x : Variable). IsText x.label) v.o.vbls
    → ((n : ℕ) → length (fresh n) ≡ n)
    → set_get_label fresh v ≡ ok (joined (spaced (map get_label (members v))) ++ 0 ∷ [])
unfolding set_get_label members
set_get_label_lem fresh v h texts fits =
    let words : List Text = spaced (map get_label (members v)) in
    let labels =
      scan-fold (λ l x. ok (l ++ get_label x ∷ [])) v [] h ∙ fold-snoc get_label (members v) [] in
    rw labels (
      join_lem words (fresh (total words + 1))
        (spaced-IsText (map get_label (members v)) (
          labels-IsText (members v)
            (All-select (λ (x : Variable). IsText x.label) (bit v.bv) 0 v.o.vbls texts)))
        (fits (total words + 1)))

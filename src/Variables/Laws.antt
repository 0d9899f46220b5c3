-- ===== src/Variables/Laws.antt =====
-- Laws of variables and orderings.
use junction_box.Base.{
  ℕ, suc, ◌+◌, ◌-◌, ◌≤◌, ◌<◌, Bool, true, false, List, [], ◌∷◌, ◌++◌, map, ◌≡◌, refl, ap, ◌∙◌,
  arith, inl, inr, ◌==◌, if◌then◌else◌, Bool-cases, Option, none, some, length, All, length-append,
  append_snoc, length_snoc, ap₂, get_elem?, get_elem?-append_mid, set-append_mid, read_all_lem, ok,
  fault,
}
use junction_box.CString.{Text, spaced, text_eq}
use junction_box.CString.Laws.{IsText, put_overflow}
use junction_box.CString.Join.{joined, total, join_lem}
use junction_box.Variables.{
  Variable, VariableOrdering, create_discrete, get_label, fill_loop, ordering_create, rank_loop,
  get_variable_rank, get_variable_rank_by_label, ordering_to_string,
}

-- `Variable_Create` writes the final 0 of the label behind its block, for every label.
pub create_discrete-fault :
    (fresh : ℕ → List ℕ) (address : ℕ) (label : Text) (cardinality : ℕ)
    → length (fresh (length label)) ≡ length label
    → create_discrete fresh address label cardinality ≡ fault
unfolding create_discrete
create_discrete-fault fresh address label cardinality fits = rw (
    put_overflow (label ++ 0 ∷ []) (fresh (length label))
      (omega (arith, length-append label (0 ∷ []))))

fill_lem :
    (nodes done fresh : List Variable) (i : ℕ)
    → length done ≡ i
    → length fresh ≡ length nodes
    → fill_loop (length nodes) i nodes (done ++ fresh) ≡ ok (done ++ nodes, i + length nodes)
unfolding fill_loop
fill_lem [] done [] i e f = ap (λ (n : ℕ). ok (done ++ [], n)) (omega arith)
fill_lem [] done (w ∷ fresh) i e f = absurd (omega arith)
fill_lem (v ∷ nodes) done [] i e f = absurd (omega arith)
fill_lem (v ∷ nodes) done (w ∷ fresh) i e f =
    rw
      (
        get_elem?-append_mid done w fresh i e,
        set-append_mid done w fresh v i e,
        ← append_snoc done v fresh,
      )
      (fill_lem nodes (done ++ v ∷ []) fresh (i + 1) (length_snoc done v i e) (omega arith)
        ∙ ap₂ (λ (l : List Variable) (n : ℕ). ok (l, n)) (append_snoc done v nodes) (omega arith))

-- For a list that tracks its size `VariableOrdering_Create` copies the nodes, in order, and
-- reports no error.
pub ordering_create_lem :
    (nodes fresh : List Variable)
    → length fresh ≡ length nodes
    → ordering_create (length nodes) nodes fresh
      ≡ ok (record { size = length nodes; vbls = nodes }, false)
unfolding ordering_create
ordering_create_lem nodes fresh f =
    let count : (0 + length nodes == length nodes) ≡ true = ground arith in
    rw (fill_lem nodes [] fresh 0 refl f, count)

-- The position of the first variable that passes.
unfoldable pub first_from : (Variable → Bool) → ℕ → List Variable → Option ℕ
first_from hit i [] = none
first_from hit i (v ∷ vs) = if hit v then some i else first_from hit (i + 1) vs

rank_lem :
    (hit : Variable → Bool) (vs done : List Variable) (i : ℕ)
    → length done ≡ i
    → rank_loop hit (length vs) i (done ++ vs) ≡ ok (first_from hit i vs)
unfolding rank_loop first_from
rank_lem hit [] done i e = refl
rank_lem hit (v ∷ vs) done i e = rw (get_elem?-append_mid done v vs i e) (
    rw (← append_snoc done v vs, rank_lem hit vs (done ++ v ∷ []) (i + 1) (length_snoc done v i e))
      (ground arith))

abbrev pub IsOrdering : VariableOrdering → Type 0
IsOrdering o = o.size ≡ length o.vbls

abbrev pub address_is : Variable → Variable → Bool
address_is v w = w.address == v.address

abbrev pub label_is : Text → Variable → Bool
label_is label w = text_eq w.label label

-- Both searches return the position of the first variable that fits, by address or by label, and
-- -1 when there is none; they read nothing out of range.
pub get_variable_rank_lem :
    (o : VariableOrdering) (v : Variable) (label : Text)
    → IsOrdering o
    → (get_variable_rank o v ≡ ok (first_from (address_is v) 0 o.vbls))
      × (get_variable_rank_by_label o label ≡ ok (first_from (label_is label) 0 o.vbls))
unfolding get_variable_rank get_variable_rank_by_label
get_variable_rank_lem o v label h =
    rw h (rank_lem (address_is v) o.vbls [] 0 refl, rank_lem (label_is label) o.vbls [] 0 refl)

-- What a rank means.
pub first_from-some :
    (hit : Variable → Bool) (vs : List Variable) (i r : ℕ)
    → first_from hit i vs ≡ some r
    → (i ≤ r)
      × (r < i + length vs)
      × (w : Variable) × (get_elem? vs (r - i) ≡ some w)
      × (hit w ≡ true)
unfolding first_from
first_from-some hit [] i r h = cc
first_from-some hit (v ∷ vs) i r h = elim (Bool-cases (hit v)) [
  | inl yes_hit ↦
      let e : i ≡ r = ground arith in
      let zero_off : r - i ≡ 0 = omega arith in (omega arith, omega arith, v, rw zero_off, yes_hit)
  | inr miss ↦
      let (low, high, w, at, is) = first_from-some hit vs (i + 1) r (rw miss at h) in
      let off : r - i ≡ suc (r - (i + 1)) = omega arith in
      (omega arith, omega arith, w, rw off at, is)
]

pub spaced-IsText : (ss : List Text) → All IsText ss → All IsText (spaced ss)
spaced-IsText [] h = tt
spaced-IsText (s ∷ ss) h = (h.0, (omega arith, spaced-IsText ss h.1))

pub labels-IsText :
    (vs : List Variable) → All (λ (v : Variable). IsText v.label) vs → All IsText (map get_label vs)
labels-IsText [] h = tt
labels-IsText (v ∷ vs) h = (h.0, labels-IsText vs h.1)

-- `VariableOrdering_ToString` returns each label with a space behind it.
pub ordering_to_string_lem :
    (fresh : ℕ → List ℕ) (o : VariableOrdering)
    → IsOrdering o
    → All (λ (v : Variable). IsText v.label) o.vbls
    → ((n : ℕ) → length (fresh n) ≡ n)
    → ordering_to_string fresh o ≡ ok (joined (spaced (map get_label o.vbls)) ++ 0 ∷ [])
unfolding ordering_to_string
ordering_to_string_lem fresh o h texts fits =
    let words : List Text = spaced (map get_label o.vbls) in
    rw (h, read_all_lem o.vbls)
      (join_lem words (fresh (total words + 1))
        (spaced-IsText (map get_label o.vbls) (labels-IsText o.vbls texts))
        (fits (total words + 1)))

-- ===== src/VariableSet/Members.antt =====
-- The members of a set, in the order of the variable ordering, and what a scan does with them.
use junction_box.Base.{
  ℕ, ◌+◌, ◌<◌, Bool, List, [], ◌∷◌, ◌++◌, ◌≡◌, refl, sym, ap, ◌∙◌, arith, inl, inr, if◌then◌else◌,
  Bool-cases, length, All, get_elem?, length_snoc, get_elem?-append_mid, append_snoc, Outcome, ok,
  ◌>>=◌, bind_ext, read, some,
}
use junction_box.Base.Ranges.{count_from}
use junction_box.BitVector
use junction_box.BitVector.{BitVector}
use junction_box.BitVector.Valid.{IsValid, bit}
use junction_box.BitVector.Access.{get_bit_lem}
use junction_box.BitVector.Walk.{get_num_on_bits_lem}
use junction_box.Variables.{Variable}
use junction_box.Variables.Laws.{IsOrdering}
use junction_box.VariableSet.{VariableSet, scan_loop, scan}

-- The vector has a bit for each variable of the ordering, and each variable is discrete.
pub record IsVariableSet (s : VariableSet) : Type 0 where
  pub vector : IsValid s.bv
  pub width : s.bv.size ≡ s.o.size
  pub ordering : IsOrdering s.o
  pub discrete : All (λ (v : Variable). 0 < v.cardinality) s.o.vbls

-- The elements of a list whose positions, counted from `i`, pass.
unfoldable pub select : {A : Type 0} → (ℕ → Bool) → ℕ → List A → List A
select p i [] = []
select p i (x ∷ xs) = if p i then x ∷ select p (i + 1) xs else select p (i + 1) xs

unfoldable pub members : VariableSet → List Variable
unfolding select
members s = select (bit s.bv) 0 s.o.vbls

pub All-select :
    {A : Type 0} (P : A → Type 0) (p : ℕ → Bool) (i : ℕ) (xs : List A)
    → All P xs
    → All P (select p i xs)
unfolding select
All-select P p i [] h = tt
All-select P p i (x ∷ xs) h = ground (arith, All-select P p (i + 1) xs h.1)

pub length-select :
    {A : Type 0} (p : ℕ → Bool) (i : ℕ) (xs : List A)
    → length (select p i xs) ≡ count_from p i (length xs)
unfolding select count_from
length-select p i [] = refl
length-select p i (x ∷ xs) = ground (arith, length-select p (i + 1) xs)

-- A run over the elements of a list with a body that can fail.
unfoldable pub fold : {S A : Type 0} → (S → A → Outcome S) → List A → S → Outcome S
fold step [] s = ok s
fold step (x ∷ xs) s = step s x >>= λ s'. fold step xs s'

module _ {S : Type 0} (bv : BitVector) (h : IsValid bv) where
  -- The loop visits the positions whose bit is on.
  pub scan_loop-fold :
      {A : Type 0} (f : S → A → Outcome S) (step : S → ℕ → Outcome S) (done rest : List A)
      → ((s : S) (i : ℕ) (a : A) → get_elem? (done ++ rest) i ≡ some a → step s i ≡ f s a)
      → (i : ℕ) → length done ≡ i
      → i + length rest ≡ bv.size
      → (s : S) → scan_loop step (length rest) i bv s ≡ fold f (select (bit bv) i rest) s
  unfolding scan_loop fold select
  scan_loop-fold f step done [] same i e w s = refl
  scan_loop-fold f step done (a ∷ rest) same i e w s =
      let (c, reads, means) = get_bit_lem bv i h (omega arith) in
      let next =
        scan_loop-fold f step (done ++ a ∷ []) rest (rw append_snoc same) (i + 1)
          (length_snoc done a i e) (omega arith) in
      rw (reads, means)
        (elim (Bool-cases (bit bv i)) [
          | inl on ↦
              rw (on, same s i a (get_elem?-append_mid done a rest i e)) (bind_ext (f s a) _ _ next)
          | inr off ↦ rw off (next s)
        ])

-- `scan` runs its body on the members of the set, in order.
pub scan-fold :
    {S : Type 0} (step : S → Variable → Outcome S) (v : VariableSet) (s : S)
    → IsVariableSet v
    → scan step v s ≡ fold step (members v) s
unfolding scan members
scan-fold step v s h =
    let len : length v.o.vbls ≡ v.bv.size = sym (h.width ∙ h.ordering) in
    ap (λ (n : ℕ). scan_loop (λ s i. read v.o.vbls i >>= step s) n 0 v.bv s) (sym len)
    ∙ scan_loop-fold v.bv h.vector step (λ s i. read v.o.vbls i >>= step s) [] v.o.vbls
        (λ s i a e. rw e) 0 refl (omega (arith, len)) s

pub members-discrete :
    (v : VariableSet) → IsVariableSet v → All (λ (x : Variable). 0 < x.cardinality) (members v)
unfolding members
members-discrete v h =
    All-select (λ (x : Variable). 0 < x.cardinality) (bit v.bv) 0 v.o.vbls h.discrete

-- `BitVector_GetNumOnBits` counts the members.
pub num_on_bits-members :
    (v : VariableSet) → IsVariableSet v → BitVector.get_num_on_bits v.bv ≡ ok (length (members v))
unfolding members
num_on_bits-members v h =
    get_num_on_bits_lem v.bv h.vector
    ∙ ap (λ (n : ℕ). ok (count_from (bit v.bv) 0 n)) (h.width ∙ h.ordering)
    ∙ ap (λ (n : ℕ). ok n) (sym (length-select (bit v.bv) 0 v.o.vbls))

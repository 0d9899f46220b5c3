-- ===== src/VariableSet.antt =====
-- src/components/JB_Pot/JB_Pot.c, lines 3 to 115: sets of variables as bit vectors over a variable
-- ordering.
pub mod Members
pub mod Ops
use junction_box.Base.{
  ℕ, zero, suc, ◌+◌, ◌*◌, Bool, true, false, List, [], ◌∷◌, ◌++◌, map, if◌then◌else◌, ltb, nonzero,
  Option, none, some, length, Outcome, ok, abort, fault, ◌>>=◌, read, write,
}
use junction_box.CString.{Text, strcat_all, spaced}
use junction_box.CString.Join.{total}
use junction_box.BitVector
use junction_box.BitVector.{BitVector}
use junction_box.Variables.{Variable, VariableOrdering, get_label, get_variable_rank}

pub record VariableSet : Type 0 where
  pub bv : BitVector
  pub o : VariableOrdering

unfoldable pub create : VariableOrdering → VariableSet
create o = record { bv = BitVector.create o.size 0; o = o }

abbrev pub create_from_bv : VariableOrdering → BitVector → VariableSet
create_from_bv o bv = record { bv = bv; o = o }

unfoldable pub contained_in : VariableSet → VariableSet → Outcome Bool
contained_in this other = do
  (_, test) ← BitVector.and_ this.bv other.bv 0
  BitVector.equals this.bv test

-- `for (i = 0; i < size; i++) if (BitVector_GetBit(bv, i)) …`, the loop of every function below,
-- with `left` rounds left.
pub scan_loop : {S : Type 0} → (S → ℕ → Outcome S) → ℕ → ℕ → BitVector → S → Outcome S
scan_loop step zero i bv s = ok s
scan_loop step (suc left) i bv s = do
  b ← BitVector.get_bit bv i
  s' ← (if nonzero b then step s i else ok s)
  scan_loop step left (i + 1) bv s'

-- The loop with a body that looks at `o->vbls[i]`.
unfoldable pub scan : {S : Type 0} → (S → Variable → Outcome S) → VariableSet → S → Outcome S
unfolding scan_loop
scan step this = scan_loop (λ s i. read this.o.vbls i >>= step s) this.bv.size 0 this.bv

-- `array[index++] = x` in an array of `room` cells that is filled from the start.
abbrev pub push : {A : Type 0} → ℕ → List A → A → Outcome (List A)
push room xs x = if ltb (length xs) room then ok (xs ++ x ∷ []) else fault

unfoldable pub get_variable_list : VariableSet → Outcome (List Variable)
unfolding scan
get_variable_list this = scan (λ l v. ok (l ++ v ∷ [])) this []

-- `VariableSet_GetLabel` and `VariableSet_ToString`: both loops visit the same labels.
unfoldable pub set_get_label : (ℕ → List ℕ) → VariableSet → Outcome (List ℕ)
unfolding scan
set_get_label fresh this = do
  labels ← scan (λ l v. ok (l ++ get_label v ∷ [])) this []
  ret ← write (fresh (total (spaced labels) + 1)) 0 0
  strcat_all ret (spaced labels)

unfoldable pub get_cardinality : VariableSet → Outcome ℕ
unfolding scan
get_cardinality this = scan (λ ret v. ok (ret * v.cardinality)) this 1

unfoldable pub add : VariableSet → Variable → Outcome VariableSet
add this v = do
  indx ← get_variable_rank this.o v
  elim indx [
    | none ↦ ok this
    | some i ↦ BitVector.set_bit_on this.bv i >>= λ bv. ok (record this { bv = bv })
  ]

-- The loop of `VariableSet_GetFstVbl`; `none` is the -1 that is returned as a pointer.
pub fst_loop : ℕ → ℕ → VariableSet → Outcome (Option Variable)
fst_loop zero i this = ok none
fst_loop (suc left) i this = do
  b ← BitVector.get_bit this.bv i
  let rest = fst_loop left (i + 1) this
  if nonzero b then (read this.o.vbls i >>= λ v. ok (some v)) else rest

unfoldable pub get_fst_vbl : VariableSet → Outcome (Option Variable)
unfolding fst_loop
get_fst_vbl this = fst_loop this.bv.size 0 this

unfoldable pub get_num_vbls : VariableSet → Outcome ℕ
get_num_vbls this = BitVector.get_num_on_bits this.bv

abbrev pub get_size : VariableSet → ℕ
get_size this = this.bv.size

unfoldable pub get_vbl_cardinalities : VariableSet → Outcome (List ℕ)
unfolding scan get_num_vbls
get_vbl_cardinalities this = do
  num_vbls ← get_num_vbls this
  scan (λ ret v. push num_vbls ret v.cardinality) this []

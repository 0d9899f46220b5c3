-- ===== src/Indices.antt =====
-- src/components/JB_Pot/JB_Pot.c, lines 117 to 199: the values of the variables of a set, listed
-- and turned into indices of a table.
--
-- An `int` that is never negative is a number. A division by 0 faults.
pub mod Rows
pub mod Laws
pub mod RoundTrip
pub mod Bounds
use junction_box.Base.{
  ℕ, zero, suc, ◌+◌, ◌-◌, ◌*◌, ◌/◌, Bool, true, false, List, [], ◌∷◌, ◌++◌, if◌then◌else◌, ◌==◌,
  ltb, Option, none, some, length, Outcome, ok, abort, fault, ◌>>=◌, read,
}
use junction_box.BitVector
use junction_box.VariableSet.{VariableSet, scan, push}

-- `a / b` of non-negative integers
abbrev pub divide : ℕ → ℕ → Outcome ℕ
divide a b = if b == 0 then fault else ok (a / b)

-- The first loop of the three functions: the product of the cardinalities and the array `card`
-- of `numVbls` cells.
unfoldable pub domain : ℕ → VariableSet → Outcome (ℕ × List ℕ)
unfolding scan
domain num_vbls this =
    scan
      (λ (product, card) v.
        push num_vbls card v.cardinality >>= λ card'. ok (product * v.cardinality, card'))
      this (1, [])

-- The inner loop of `EnumerateValues` with `left` rounds left; `row` is `ret[i]`, filled from the
-- start.
pub row_loop : ℕ → List ℕ → ℕ → ℕ → ℕ → ℕ → List ℕ → Outcome (List ℕ)
row_loop num_vbls card zero j code offset row = push num_vbls row code
row_loop num_vbls card (suc left) j code offset row = do
  c ← read card j
  offset' ← divide offset c
  quotient ← divide code offset'
  row' ← push num_vbls row quotient
  row_loop num_vbls card left (j + 1) (code - quotient * offset') offset' row'

pub rows_loop : ℕ → List ℕ → ℕ → ℕ → ℕ → Outcome (List (List ℕ))
unfolding row_loop
rows_loop num_vbls card product zero i = ok []
rows_loop num_vbls card product (suc left) i = do
  row ← row_loop num_vbls card (num_vbls - 1) 0 i product []
  rest ← rows_loop num_vbls card product left (i + 1)
  ok (row ∷ rest)

-- `VariableSet_EnumerateValues`: the rows and the value of `*cardinalityRet`. The empty set gives
-- NULL and 0; as no row is read then, NULL is the empty array.
unfoldable pub enumerate_values : VariableSet → Outcome (List (List ℕ) × ℕ)
unfolding domain rows_loop
enumerate_values this = do
  num_vbls ← BitVector.get_num_on_bits this.bv
  let rest = (do
    (product, card) ← domain num_vbls this
    rows ← rows_loop num_vbls card product product 0
    ok (rows, product))
  if num_vbls == 0 then ok ([], 0) else rest

-- The loop that turns the values of a set into an index, and its last addition.
pub index_loop : List ℕ → List ℕ → ℕ → ℕ → ℕ → ℕ → Outcome ℕ
index_loop card values zero i product ret = read values i >>= λ v. ok (ret + v)
index_loop card values (suc left) i product ret = do
  c ← read card i
  product' ← divide product c
  v ← read values i
  index_loop card values left (i + 1) product' (ret + v * product')

unfoldable pub compute_index : VariableSet → List ℕ → Outcome ℕ
unfolding domain index_loop
compute_index vbls values = do
  num_vbls ← BitVector.get_num_on_bits vbls.bv
  (product, card) ← domain num_vbls vbls
  index_loop card values (num_vbls - 1) 0 product 0

pub each_index : List ℕ → ℕ → ℕ → ℕ → List (List ℕ) → ℕ → Outcome (List ℕ)
unfolding index_loop
each_index card num_vbls product zero values i = ok []
each_index card num_vbls product (suc left) values i = do
  vals ← read values i
  index ← index_loop card vals (num_vbls - 1) 0 product 0
  rest ← each_index card num_vbls product left values (i + 1)
  ok (index ∷ rest)

unfoldable pub compute_indices : VariableSet → List (List ℕ) → ℕ → Outcome (List ℕ)
unfolding domain each_index
compute_indices vbls values num_indices = do
  num_vbls ← BitVector.get_num_on_bits vbls.bv
  (product, card) ← domain num_vbls vbls
  each_index card num_vbls product num_indices values 0

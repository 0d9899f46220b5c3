-- ===== src/Variables.antt =====
-- src/components/JB_Util/Variable.c and VariableOrdering.c.
--
-- A `Variable *` is the record with its address, by which pointers are compared. The functions
-- that a variable carries for its values are stubs in the source, and are left out.
pub mod Laws
use junction_box.Base.{
  ℕ, zero, suc, ◌+◌, Bool, true, false, List, [], ◌∷◌, ◌++◌, map, ◌==◌, if◌then◌else◌, Option, none,
  some, length, Outcome, ok, abort, fault, ◌>>=◌, ◌>>◌, read, read_all, write,
}
use junction_box.CString.{Text, text_eq, put, strlen, strcat_all, spaced}
use junction_box.CString.Join.{total}

pub record Variable : Type 0 where
  pub address : ℕ
  pub label : Text
  pub cardinality : ℕ

-- `vbls` is an array of `size` pointers.
pub record VariableOrdering : Type 0 where
  pub size : ℕ
  pub vbls : List Variable

-- The copy of the label that `Variable_Create` makes, in a block of `strlen(label)` bytes.
unfoldable pub copy_label : (ℕ → List ℕ) → Text → Outcome (List ℕ)
unfolding put
copy_label fresh label = put (label ++ 0 ∷ []) (fresh (strlen label))

-- `Variable_CreateDiscrete`, which is `Variable_Create` with the stubs.
unfoldable pub create_discrete : (ℕ → List ℕ) → ℕ → Text → ℕ → Outcome Variable
unfolding copy_label
create_discrete fresh address label cardinality = do
  _ ← copy_label fresh label
  ok (record { address = address; label = label; cardinality = cardinality })

abbrev pub get_label : Variable → Text
get_label this = this.label

abbrev pub get_cardinality : Variable → ℕ
get_cardinality this = this.cardinality

-- The loop of `VariableOrdering_Create` over the list's nodes; `vbls` is the array, and the
-- second result is `i` at the end.
pub fill_loop : ℕ → ℕ → List Variable → List Variable → Outcome (List Variable × ℕ)
fill_loop zero i nodes vbls = ok (vbls, i)
fill_loop (suc left) i [] vbls = ok (vbls, i)
fill_loop (suc left) i (v ∷ nodes) vbls = do
  vbls' ← write vbls i v
  fill_loop left (i + 1) nodes vbls'

-- `size` and `nodes` are those of the list, `fresh` the content of the new array; the second
-- result says whether the size was found wrong.
unfoldable pub ordering_create :
    ℕ → List Variable → List Variable → Outcome (VariableOrdering × Bool)
unfolding fill_loop
ordering_create size nodes fresh = do
  (vbls, i) ← fill_loop size 0 nodes fresh
  ok (record { size = size; vbls = vbls }, if i == size then false else true)

-- The linear search of `GetVariableRank` and `GetVariableRankByLabel`; `none` is -1.
pub rank_loop : (Variable → Bool) → ℕ → ℕ → List Variable → Outcome (Option ℕ)
rank_loop hit zero ret vbls = ok none
rank_loop hit (suc left) ret vbls = do
  v ← read vbls ret
  let rest = rank_loop hit left (ret + 1) vbls
  if hit v then ok (some ret) else rest

unfoldable pub get_variable_rank : VariableOrdering → Variable → Outcome (Option ℕ)
unfolding rank_loop
get_variable_rank this v = rank_loop (λ w. w.address == v.address) this.size 0 this.vbls

unfoldable pub get_variable_rank_by_label : VariableOrdering → Text → Outcome (Option ℕ)
unfolding rank_loop
get_variable_rank_by_label this label = rank_loop (λ w. text_eq w.label label) this.size 0 this.vbls

-- `VariableOrdering_ToString`: each label and a space.
unfoldable pub ordering_to_string : (ℕ → List ℕ) → VariableOrdering → Outcome (List ℕ)
ordering_to_string fresh this = do
  vbls ← read_all this.size this.vbls
  let words = spaced (map get_label vbls)
  ret ← write (fresh (total words + 1)) 0 0
  strcat_all ret words

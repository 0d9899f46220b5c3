-- ===== src/Model.antt =====
-- src/components/JB_Model/JB_Model.c, lines 2 to 113: conditional probability tables and
-- observations.
--
-- A `CPT *` or `Observation *` is the record, NULL is `none`. `reportError` prints and returns. A
-- negative value is `none`, any other `some`.
pub mod Laws
pub mod Network
pub mod Build
pub mod Lists
use junction_box.Base.{
  ℕ, zero, suc, ◌+◌, List, [], ◌∷◌, if◌then◌else◌, ◌==◌, ltb, Option, none, some, Outcome, ok,
  fault, ◌>>=◌, read, write,
}
use junction_box.CString.{string_create}
use junction_box.LinkedList.{LinkedList, Heap, walk}
use junction_box.Variables.{Variable, get_label, get_cardinality}
use junction_box.VariableSet.{VariableSet, get_fst_vbl}
use junction_box.Potentials.{Pot, create_tabular}

pub record Cpt (N : Type 0) : Type 0 where
  pub parents : List Variable
  pub num_parents : ℕ
  pub table_for : Variable
  pub allvbls : VariableSet
  pub pot : Pot N

pub record Observation (N : Type 0) : Type 0 where
  pub v : Variable
  pub pot : Pot N
  pub value : Option ℕ

module _ {N : Type 0} where
  -- `CPT_Create`
  abbrev pub cpt_create : List Variable → ℕ → Variable → Pot N → Cpt N
  cpt_create parents num_parents table_for pot = record {
    parents = parents;
    num_parents = num_parents;
    table_for = table_for;
    allvbls = pot.vbls;
    pot = pot;
  }

  -- `this->parents[i]`
  abbrev pub get_ith_parent : Cpt N → ℕ → Outcome Variable
  get_ith_parent this i = read this.parents i

-- `ret->parents[i++] = cur->contents`, and the same for other arrays.
abbrev pub fill_step : {C : Type 0} → List C × ℕ → C → Outcome (List C × ℕ)
fill_step (cells, i) c = write cells i c >>= λ cells'. ok (cells', i + 1)

module _ {N : Type 0} where
  -- `CPT_Create_ParentList`. The array for `n` parents and, without a list, both fields hold what
  -- the new blocks hold.
  unfoldable pub cpt_create_parent_list :
      (ℕ → List Variable)
      → List Variable × ℕ
      → ℕ
      → Heap Variable
      → Option LinkedList
      → Variable
      → Pot N
      → Outcome (Cpt N)
  cpt_create_parent_list fresh (parents, num_parents) fuel h none table_for pot =
      ok (cpt_create parents num_parents table_for pot)
  cpt_create_parent_list fresh junk fuel h (some parent_list) table_for pot = do
    (parents, _) ← walk fill_step fuel h parent_list.first (fresh parent_list.size, 0)
    ok (cpt_create parents parent_list.size table_for pot)

  -- `for (i = 0; i < vblSize; i++) potVals[i] = i == value ? hit : miss` with `left` rounds left.
  unfoldable pub values_loop : N → N → ℕ → ℕ → ℕ → List N
  values_loop hit miss value zero i = []
  values_loop hit miss value (suc left) i =
      (if i == value then hit else miss) ∷ values_loop hit miss value left (i + 1)

  -- `Observation_Create` with 1.0 and 0, `Observation_CreateLog` with log(1.0) and log(0). The
  -- -1 that `GetFstVbl` gives for the empty set is dereferenced.
  unfoldable pub observation_create :
      N → N → (ℕ → List ℕ) → VariableSet → Option ℕ → Outcome (Option (Observation N))
  unfolding values_loop
  observation_create hit miss fresh vset none = do
    fst ← get_fst_vbl vset
    elim fst [ none ↦ fault | some v ↦ ok none ]
  observation_create hit miss fresh vset (some value) = do
    fst ← get_fst_vbl vset
    elim fst [
      | none ↦ fault
      | some v ↦
          let accepted = (do
            label ← string_create fresh (get_label v)
            pot ← create_tabular label vset (values_loop hit miss value (get_cardinality v) 0)
            ok (some (record { v = v; pot = pot; value = some value }))) in
          if ltb (get_cardinality v) value then ok none else accepted
    ]

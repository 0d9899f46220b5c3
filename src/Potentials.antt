-- ===== src/Potentials.antt =====
-- src/components/JB_Pot/JB_Pot.c, lines 452 to 728: tabular potentials.
--
-- The arithmetic of `double` is a parameter, `Numbers`. The type of a potential is always
-- `TABULAR` and is left out. The potential that a function changes is its result; `p` and `q` of
-- the products are different potentials.
pub mod Sizes
pub mod Margin
pub mod Product
pub mod Pointwise
pub mod Cells
pub mod Entries
pub mod Absorbed
use junction_box.Base.{
  ℕ, zero, suc, ◌+◌, ◌*◌, Bool, true, false, List, [], ◌∷◌, ◌++◌, if◌then◌else◌, replicate, Option,
  none, some, length, Outcome, ok, fault, ◌>>=◌, read, write,
}
use junction_box.CString.{Text}
use junction_box.Variables.{Variable}
use junction_box.VariableSet
use junction_box.VariableSet.{VariableSet, get_num_vbls, get_vbl_cardinalities, set_get_label}
use junction_box.Indices.{compute_index}
use junction_box.MulInds.{MulInd, compute_marg_ind}

-- What the potentials use of `double`, `exp` and `log`.
pub record Numbers (N : Type 0) : Type 0 where
  pub null : N
  pub unit : N
  pub plus : N → N → N
  pub minus : N → N → N
  pub times : N → N → N
  pub over : N → N → N
  pub is_null : N → Bool
  pub exp : N → N
  pub log : N → N

pub record Pot (N : Type 0) : Type 0 where
  pub label : List ℕ
  pub vbls : VariableSet
  pub tab_data : List N
  pub table_size : ℕ

-- `for (i = 0; i < numVbls; i++) product *= cardinalities[i]` with `left` rounds left.
pub size_loop : ℕ → ℕ → List ℕ → ℕ → Outcome ℕ
size_loop zero i cardinalities product = ok product
size_loop (suc left) i cardinalities product = do
  c ← read cardinalities i
  size_loop left (i + 1) cardinalities (product * c)

-- The table size that the four constructors compute.
unfoldable pub table_size_of : VariableSet → Outcome ℕ
unfolding size_loop
table_size_of vbls = do
  num_vbls ← get_num_vbls vbls
  cardinalities ← get_vbl_cardinalities vbls
  size_loop num_vbls 0 cardinalities 1

module _ {N : Type 0} where
  unfoldable pub create_tabular : List ℕ → VariableSet → List N → Outcome (Pot N)
  create_tabular label vbls value_data = do
    product ← table_size_of vbls
    ok (record { label = label; vbls = vbls; tab_data = value_data; table_size = product })

  -- `Pot_CreateTabularUnity` with 1.0 and `Pot_CreateTabularUnityLog` with 0.0.
  unfoldable pub create_tabular_unity : N → List ℕ → VariableSet → Outcome (Pot N)
  create_tabular_unity value label vbls = do
    product ← table_size_of vbls
    ok (record {
      label = label;
      vbls = vbls;
      tab_data = replicate product value;
      table_size = product;
    })

  -- `Pot_CreateTabularUnInit`; `fresh` is the content of the new block.
  unfoldable pub create_tabular_un_init : (ℕ → List N) → List ℕ → VariableSet → Outcome (Pot N)
  create_tabular_un_init fresh label vbls = do
    product ← table_size_of vbls
    ok (record { label = label; vbls = vbls; tab_data = fresh product; table_size = product })

  unfoldable pub evaluate_tabular : Pot N → List ℕ → Outcome N
  evaluate_tabular this values = compute_index this.vbls values >>= read this.tab_data

  -- The inner loop of the products, with `left` rounds left.
  pub product_row : (N → N → N) → List N → List (List ℕ) → ℕ → ℕ → ℕ → List N → Outcome (List N)
  product_row op pvalues qindices i zero j qvalues = ok qvalues
  product_row op pvalues qindices i (suc left) j qvalues = do
    row ← read qindices i
    qindex ← read row j
    pvalue ← read pvalues i
    qvalue ← read qvalues qindex
    qvalues' ← write qvalues qindex (op pvalue qvalue)
    product_row op pvalues qindices i left (j + 1) qvalues'

  pub product_loop : (N → N → N) → List N → List (List ℕ) → ℕ → ℕ → ℕ → List N → Outcome (List N)
  unfolding product_row
  product_loop op pvalues qindices mul_size zero i qvalues = ok qvalues
  product_loop op pvalues qindices mul_size (suc left) i qvalues = do
    qvalues' ← product_row op pvalues qindices i mul_size 0 qvalues
    product_loop op pvalues qindices mul_size left (i + 1) qvalues'

  pub pointwise_loop : (N → N → N) → List N → ℕ → ℕ → List N → Outcome (List N)
  pointwise_loop op pvalues zero i qvalues = ok qvalues
  pointwise_loop op pvalues (suc left) i qvalues = do
    pvalue ← read pvalues i
    qvalue ← read qvalues i
    qvalues' ← write qvalues i (op pvalue qvalue)
    pointwise_loop op pvalues left (i + 1) qvalues'

  -- `Pot_ProductTabular` with the product and `Pot_ProductTabularLog` with the sum of values.
  unfoldable pub product_tabular : (N → N → N) → Pot N → Pot N → Option MulInd → Outcome (Pot N)
  unfolding product_loop pointwise_loop
  product_tabular op p q (some mi) = do
    data' ← product_loop op p.tab_data mi.second_indices mi.mul_size mi.first_indices 0 q.tab_data
    ok (record q { tab_data = data' })
  product_tabular op p q none = do
    data' ← pointwise_loop op p.tab_data p.table_size 0 q.tab_data
    ok (record q { tab_data = data' })

  pub ratio_loop : (N → N → N) → List N → List N → ℕ → ℕ → List N → Outcome (List N)
  ratio_loop op news olds zero i ret = ok ret
  ratio_loop op news olds (suc left) i ret = do
    old ← read olds i
    new ← read news i
    ret' ← write ret i (op new old)
    ratio_loop op news olds left (i + 1) ret'

  -- `Pot_UpdateRatioTabular` with `ratio` below and `Pot_UpdateRatioTabularLog` with the difference.
  unfoldable pub update_ratio_tabular : (N → N → N) → (ℕ → List N) → Pot N → Pot N → Outcome (Pot N)
  unfolding ratio_loop
  update_ratio_tabular op fresh new_sep old_sep = do
    ret ← create_tabular_un_init fresh new_sep.label new_sep.vbls
    data' ← ratio_loop op new_sep.tab_data old_sep.tab_data new_sep.table_size 0 ret.tab_data
    ok (record ret { tab_data = data' })

  -- The inner loop of the margins.
  pub sum_row : (N → N → N) → List N → List (List ℕ) → ℕ → ℕ → ℕ → N → Outcome N
  sum_row add pvalues pindices i zero j qvalue = ok qvalue
  sum_row add pvalues pindices i (suc left) j qvalue = do
    row ← read pindices i
    pindex ← read row j
    pvalue ← read pvalues pindex
    sum_row add pvalues pindices i left (j + 1) (add qvalue pvalue)

  -- The outer loop; `done` is what follows the inner loop.
  pub margin_loop :
      N → (N → N → N) → (N → N) → List N → List (List ℕ) → ℕ → ℕ → ℕ → Outcome (List N)
  unfolding sum_row
  margin_loop start add done pvalues pindices mul_size zero i = ok []
  margin_loop start add done pvalues pindices mul_size (suc left) i = do
    qvalue ← sum_row add pvalues pindices i mul_size 0 start
    rest ← margin_loop start add done pvalues pindices mul_size left (i + 1)
    ok (done qvalue ∷ rest)

module _ {N : Type 0} (num : Numbers N) where
  open num use {null, plus, over, is_null, exp, log}

  abbrev pub ratio : N → N → N
  ratio new old = if is_null old then null else over new old

  -- The table of `Pot_SumMarginTabular`, and that of `Pot_SumMarginTabularLog`.
  unfoldable pub margin_values : Pot N → MulInd → Outcome (List N)
  unfolding margin_loop
  margin_values p mi =
      margin_loop null plus (λ q. q) p.tab_data mi.second_indices mi.mul_size mi.first_indices 0

  unfoldable pub margin_values_log : Pot N → MulInd → Outcome (List N)
  unfolding margin_loop
  margin_values_log p mi =
      margin_loop null (λ q v. plus q (exp v)) log p.tab_data mi.second_indices mi.mul_size
        mi.first_indices 0

  -- `Pot_SumMarginTabular` and `Pot_SumMarginTabularLog`, by the values above.
  unfoldable pub sum_margin_tabular :
      (Pot N → MulInd → Outcome (List N)) → (ℕ → List ℕ) → Pot N → MulInd → Outcome (Pot N)
  sum_margin_tabular values fresh p mi = do
    qvalues ← values p mi
    label ← set_get_label fresh mi.vbls
    create_tabular label mi.vbls qvalues

  -- `Pot_SumMarginTabularSingleVbl` and its copy for logarithms: NULL is dereferenced.
  unfoldable pub sum_margin_tabular_single_vbl :
      (Pot N → MulInd → Outcome (List N)) → (ℕ → List ℕ) → Pot N → Variable → Outcome (List N)
  sum_margin_tabular_single_vbl values fresh p v = do
    vs ← VariableSet.add (VariableSet.create p.vbls.o) v
    mi ← compute_marg_ind fresh p.vbls vs
    elim mi [ none ↦ fault | some mi ↦ values p mi ]

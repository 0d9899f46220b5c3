-- ===== src/Inference.antt =====
-- src/components/JB_Inference/VertexSet.c, and the messages of
-- src/components/JB_Inference/JB_Inference.c.
--
-- The functions and their copies with `Log` in the name differ in the arithmetic, which is a
-- `Mode`. A potential that hangs on a vertex or an edge is a field of its annotation, NULL is
-- `none`.
pub mod VertexSets
pub mod Beside
pub mod Message
pub mod Marks
pub mod Evidence
pub mod Exhausted
pub mod Distribute
pub mod SswOrdering
pub mod Phases
pub mod Initialize
pub mod FirstClique
use junction_box.Base.{
  ℕ, zero, suc, Bool, false, List, [], ◌∷◌, nonzero, Option, none, some, Outcome, ok, fault, ◌>>=◌,
  deref, read_all, write,
}
use junction_box.BitVector
use junction_box.BitVector.{BitVector}
use junction_box.CString.{Text, strcat_all, spaced}
use junction_box.CString.Join.{total}
use junction_box.AssocMap.BitVectorMap.{BitVectorMap}
use junction_box.VariableSet.{VariableSet, scan_loop}
use junction_box.MulInds.{MulInd, get_mul_ind}
use junction_box.Potentials.{
  Numbers, Pot, sum_margin_tabular, margin_values, margin_values_log, update_ratio_tabular, ratio,
  product_tabular,
}
use junction_box.ElimSets.{ElimSet}
use junction_box.Graph.{Graph, vertex_at, edge_at, get_label, annotate_vertex, annotate_edge}
use junction_box.JunctionTree.{VertexOrdering, get_vertex_rank}

-- What the annotation of a vertex of the elimination tree holds.
pub record Clique (N : Type 0) : Type 0 where
  pub elim_set : Option ElimSet
  pub pot : Option (Pot N)
  pub marg_memo : BitVectorMap (Option MulInd)

-- And that of an edge.
pub record Separator (N : Type 0) : Type 0 where
  pub elim_set : Option ElimSet
  pub pot : Option (Pot N)
  pub mul_memo : BitVectorMap MulInd

abbrev pub ElimTree : Type 0 → Type 0
ElimTree N = Graph (Clique N) (Separator N)

-- The operations in which the two arithmetics differ.
pub record Mode (N : Type 0) : Type 0 where
  pub one : N
  pub times : N → N → N
  pub quotient : N → N → N
  pub margin : (ℕ → List ℕ) → Pot N → MulInd → Outcome (Pot N)

abbrev pub plain_mode : {N : Type 0} → Numbers N → Mode N
plain_mode num = record {
  one = num.unit;
  times = num.times;
  quotient = ratio num;
  margin = sum_margin_tabular num (margin_values num);
}

abbrev pub log_mode : {N : Type 0} → Numbers N → Mode N
log_mode num = record {
  one = num.null;
  times = num.plus;
  quotient = num.minus;
  margin = sum_margin_tabular num (margin_values_log num);
}

module _ {N : Type 0} (mode : Mode N) (fresh : ℕ → List ℕ) (fresh_numbers : ℕ → List N) where
  open mode use {times, quotient, margin}

  -- `find_marg_indices` and `find_mul_indices`, which have one body: the memo of the separator and
  -- the table of its variables in those of the potential.
  unfoldable pub find_indices :
      BitVectorMap MulInd → Pot N → Pot N → Outcome (BitVectorMap MulInd × MulInd)
  find_indices mul_memo sep pot = get_mul_ind fresh mul_memo sep.vbls pot.vbls

  -- What a message makes of the separator and of the potential of the receiver.
  unfoldable pub message :
      BitVectorMap MulInd → Pot N → Pot N → Pot N → Outcome (Pot N × Pot N × BitVectorMap MulInd)
  unfolding find_indices
  message mul_memo sep caller receiver = do
    (memo₁, marg_ind) ← find_indices mul_memo sep caller
    marg ← margin fresh caller marg_ind
    update_ratio ← update_ratio_tabular quotient fresh_numbers marg sep
    (memo₂, mul_ind) ← find_indices memo₁ sep receiver
    receiver' ← product_tabular times update_ratio receiver (some mul_ind)
    ok (receiver', marg, memo₂)

  -- `MessagePass` and `MessagePassLog`
  unfoldable pub message_pass : ElimTree N → ℕ → ℕ → ℕ → Outcome (ElimTree N)
  unfolding message
  message_pass tree receiver caller sep = do
    s ← edge_at tree sep
    c ← vertex_at tree caller
    r ← vertex_at tree receiver
    sep_pot ← deref s.annotation.pot
    caller_pot ← deref c.annotation.pot
    receiver_pot ← deref r.annotation.pot
    (receiver', marg, memo) ← message s.annotation.mul_memo sep_pot caller_pot receiver_pot
    tree₁ ← annotate_vertex tree receiver (λ a. record a { pot = some receiver' })
    annotate_edge tree₁ sep (λ a. record a { pot = some marg; mul_memo = memo })

-- ===== src/Inference/Initialize.antt =====
-- src/components/JB_Inference/JB_Inference.c, lines 99 to 225: the first potentials of an
-- elimination tree. `owner` of the potential of a clique is the vertex whose field it is.
use junction_box.Base.{
  ℕ, zero, suc, ◌+◌, List, [], ◌∷◌, map, if◌then◌else◌, some, Outcome, ok, ◌>>=◌, deref, read,
  read_all, write,
}
use junction_box.AssocMap.BitVectorMap
use junction_box.Variables.{VariableOrdering}
use junction_box.VariableSet
use junction_box.VariableSet.{VariableSet, contained_in}
use junction_box.MulInds.{get_marg_ind}
use junction_box.Potentials.{Pot, create_tabular_unity, product_tabular}
use junction_box.Graph.{vertex_at, edge_at, get_label, get_src_sink, annotate_vertex, annotate_edge}
use junction_box.Graph.Walks.{MapItr, get_vertex_itr, get_edge_itr}
use junction_box.Model.{Cpt, Observation}
use junction_box.Inference.Phases.{Network, pot_at}
use junction_box.Inference.{ElimTree, Mode}

module _ {N : Type 0} (mode : Mode N) where
  open mode use {one, times}

  -- The loop over the separators.
  unfoldable pub separators_loop :
      VariableOrdering → MapItr → ℕ → ElimTree N → List ℕ → Outcome (ElimTree N × List ℕ)
  separators_loop vbls [] i tree pots = ok (tree, pots)
  separators_loop vbls ((_, e) ∷ itr) i tree pots = do
    x ← edge_at tree e
    es ← deref x.annotation.elim_set
    label ← get_src_sink tree e
    pot ← create_tabular_unity one label (VariableSet.create_from_bv vbls es.bv)
    tree' ← annotate_edge tree e (λ a. record a { pot = some pot; mul_memo = BitVectorMap.create })
    pots' ← write pots i e
    separators_loop vbls itr (i + 1) tree' pots'

  -- The loop over the cliques.
  unfoldable pub potentials_loop :
      VariableOrdering → MapItr → ℕ → ElimTree N → List ℕ → Outcome (ElimTree N × List ℕ)
  potentials_loop vbls [] i tree pots = ok (tree, pots)
  potentials_loop vbls ((_, v) ∷ itr) i tree pots = do
    x ← vertex_at tree v
    es ← deref x.annotation.elim_set
    label ← get_label tree v
    pot ← create_tabular_unity one label (VariableSet.create_from_bv vbls es.bv)
    tree' ←
        annotate_vertex tree v (λ a. record a { pot = some pot; marg_memo = BitVectorMap.create })
    pots' ← write pots i v
    potentials_loop vbls itr (i + 1) tree' pots'

  -- The body of the inner loop, for a clique that contains the variables of the table.
  unfoldable pub absorb : (ℕ → List ℕ) → Pot N → ElimTree N → ℕ → Outcome (ElimTree N)
  absorb fresh cur_table tree v = do
    x ← vertex_at tree v
    cur_clique ← deref x.annotation.pot
    (memo, mi) ← get_marg_ind fresh x.annotation.marg_memo cur_clique.vbls cur_table.vbls
    clique' ← product_tabular times cur_table cur_clique mi
    annotate_vertex tree v (λ a. record a { pot = some clique'; marg_memo = memo })

  -- The inner loop, with `left` rounds left: the first such clique takes the table.
  unfoldable pub first_clique :
      (ℕ → List ℕ) → Pot N → List ℕ → ℕ → ℕ → ElimTree N → Outcome (ElimTree N)
  unfolding absorb
  first_clique fresh cur_table clique_pots zero j tree = ok tree
  first_clique fresh cur_table clique_pots (suc left) j tree = do
    v ← read clique_pots j
    cur_clique ← pot_at tree v
    b ← contained_in cur_table.vbls cur_clique.vbls
    let next = first_clique fresh cur_table clique_pots left (j + 1) tree
    if b then absorb fresh cur_table tree v else next

  unfoldable pub multiply_loop :
      (ℕ → List ℕ) → List (Pot N) → List ℕ → ℕ → ElimTree N → Outcome (ElimTree N)
  unfolding first_clique
  multiply_loop fresh [] clique_pots num_cliques tree = ok tree
  multiply_loop fresh (cur_table ∷ tables) clique_pots num_cliques tree = do
    tree' ← first_clique fresh cur_table clique_pots num_cliques 0 tree
    multiply_loop fresh tables clique_pots num_cliques tree'

  -- `BNet_InitializePotentials` and `BNet_InitializePotentialsLog`
  unfoldable pub initialize_potentials :
      {A B : Type 0} → (ℕ → List ℕ) → Network N A B → Outcome (Network N A B)
  unfolding separators_loop potentials_loop multiply_loop
  initialize_potentials fresh this = do
    (tree₁, separator_pots) ←
        separators_loop this.net.vbls (get_edge_itr this.elim_tree) 0 this.elim_tree
          this.separator_pots
    (tree₂, clique_pots) ←
        potentials_loop this.net.vbls (get_vertex_itr tree₁) 0 tree₁ this.clique_pots
    tables ← read_all this.net.num_tables this.net.tables
    tree₃ ←
        multiply_loop fresh (map (λ (t : Cpt N). t.pot) tables) clique_pots this.num_cliques tree₂
    obs ← read_all this.net.num_obs this.net.obs
    tree₄ ←
        multiply_loop fresh (map (λ (b : Observation N). b.pot) obs) clique_pots this.num_cliques
          tree₃
    ok (record this {
      elim_tree = tree₄;
      separator_pots = separator_pots;
      clique_pots = clique_pots;
    })

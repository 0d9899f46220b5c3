-- ===== src/Inference/Phases.antt =====
-- src/components/JB_Inference/JB_Inference.c, lines 46 to 98: the elimination tree of a network, and
-- the potentials that contain variables.
--
-- `sort_edges` is the `qsort` of the candidates. A `Pot **` of the arrays is the place of the
-- vertex or edge whose field it points to.
use junction_box.Base.{
  ℕ, zero, suc, ◌+◌, List, [], ◌∷◌, if◌then◌else◌, Option, none, some, Outcome, ok, ◌>>=◌, deref,
  read,
}
use junction_box.AssocMap.BitVectorMap
use junction_box.LinkedList.{LinkedList, Heap, walk}
use junction_box.Variables.{Variable}
use junction_box.VariableSet
use junction_box.VariableSet.{VariableSet, contained_in}
use junction_box.Potentials.{Pot}
use junction_box.ElimSets.{ElimSet, EdgeCandidate}
use junction_box.Graph.{Graph, vertex_at, get_num_vertices, get_num_edges}
use junction_box.JunctionTree.{VertexOrdering}
use junction_box.JunctionTree.Moral.{moral_graph}
use junction_box.JunctionTree.Gather.{gather_elim_sets}
use junction_box.JunctionTree.Collection.{ElimSetCollection, remove_non_cliques}
use junction_box.JunctionTree.Tree.{Carrier, elim_tree_create}
use junction_box.Model.Network.{BNet}
use junction_box.Inference.{Clique, Separator, ElimTree}

-- A network with what `BNet_BuildElimTree` adds.
pub record Network (N A B : Type 0) : Type 0 where
  pub net : BNet N A B
  pub moral : Graph A B
  pub elim_cliques : ElimSetCollection
  pub elim_tree : ElimTree N
  pub num_cliques : ℕ
  pub num_seps : ℕ
  pub separator_pots : List ℕ
  pub clique_pots : List ℕ

abbrev pub clique_carrier : {N : Type 0} → Carrier (Clique N)
clique_carrier = record {
  blank = record { elim_set = none; pot = none; marg_memo = BitVectorMap.create };
  set_elim_set = λ es a. record a { elim_set = some es };
  get_elim_set = λ a. a.elim_set;
}

abbrev pub separator_carrier : {N : Type 0} → Carrier (Separator N)
separator_carrier = record {
  blank = record { elim_set = none; pot = none; mul_memo = BitVectorMap.create };
  set_elim_set = λ es a. record a { elim_set = some es };
  get_elim_set = λ a. a.elim_set;
}

module _ {N A B : Type 0} (blank : A) (blank_edge : B)
    (sort_edges : List EdgeCandidate → Outcome (List EdgeCandidate))
    (fresh fresh_places : ℕ → List ℕ) (fresh_sets : ℕ → List (Option ElimSet)) where
  -- `BNet_BuildElimTree`. The ordering is one of the vertices of the initial graph.
  unfoldable pub build_elim_tree : ℕ → BNet N A B → VertexOrdering → Outcome (Network N A B)
  unfolding moral_graph gather_elim_sets remove_non_cliques elim_tree_create
  build_elim_tree fuel this o = do
    moral ← moral_graph blank blank_edge fuel this.initial_graph
    (moral', esc) ← gather_elim_sets this.initial_graph o blank_edge fresh_sets fuel moral this.vbls
    esc' ← remove_non_cliques fuel esc
    tree ← elim_tree_create clique_carrier separator_carrier sort_edges fresh fresh_places fuel esc'
    ok (record {
      net = this;
      moral = moral';
      elim_cliques = esc';
      elim_tree = tree;
      num_cliques = get_num_vertices tree;
      num_seps = get_num_edges tree;
      separator_pots = fresh_places (get_num_edges tree);
      clique_pots = fresh_places (get_num_vertices tree);
    })

module _ {N : Type 0} where
  -- `*(this->cliquePots[i])`
  abbrev pub pot_at : ElimTree N → ℕ → Outcome (Pot N)
  pot_at tree v = vertex_at tree v >>= λ x. deref x.annotation.pot

  -- The loop over the cliques, with `left` rounds left: the potentials whose variables contain `vs`.
  unfoldable pub containing_loop :
      VariableSet → ElimTree N → List ℕ → ℕ → ℕ → Outcome (List (Pot N))
  containing_loop vs tree clique_pots zero i = ok []
  containing_loop vs tree clique_pots (suc left) i = do
    v ← read clique_pots i
    cur_pot ← pot_at tree v
    b ← contained_in vs cur_pot.vbls
    rest ← containing_loop vs tree clique_pots left (i + 1)
    ok (if b then cur_pot ∷ rest else rest)

module _ {N A B : Type 0} where
  -- `BNet_AllContainingCliquePotentials`
  unfoldable pub all_containing_clique_potentials :
      ℕ → Heap Variable → Network N A B → LinkedList → Outcome (List (Pot N))
  unfolding containing_loop
  all_containing_clique_potentials fuel h this vbls = do
    vs ← walk VariableSet.add fuel h vbls.first (VariableSet.create this.net.vbls)
    containing_loop vs this.elim_tree this.clique_pots this.num_cliques 0

  -- `BNet_AllContClqPot`
  unfoldable pub all_cont_clq_pot : Network N A B → Variable → Outcome (List (Pot N))
  unfolding containing_loop
  all_cont_clq_pot this vbl = do
    vs ← VariableSet.add (VariableSet.create this.net.vbls) vbl
    containing_loop vs this.elim_tree this.clique_pots this.num_cliques 0

-- ===== src/Model/Network.antt =====
-- src/components/JB_Model/JB_Model.c, lines 115 to 231: networks.
--
-- The fields of a `BNet` that the constructors leave alone belong to the later phases; those that
-- inference reads though a constructor does not set them hold what the block held, a parameter.
use junction_box.Base.{ℕ, zero, suc, ◌+◌, true, List, [], ◌∷◌, Option, Outcome, ok, ◌>>=◌, read_all}
use junction_box.LinkedList.{LinkedList, Heap, walk}
use junction_box.Variables.{Variable, VariableOrdering, get_label}
use junction_box.Graph.{Graph, create, get_vertex, add_vertex}
use junction_box.Graph.Walks.{add_edge_ptr}
use junction_box.Model.{Cpt, Observation, get_ith_parent, fill_step}

pub record BNet (N A B : Type 0) : Type 0 where
  pub vbls : VariableOrdering
  pub tables : List (Cpt N)
  pub num_tables : ℕ
  pub obs : List (Observation N)
  pub num_obs : ℕ
  pub initial_graph : Graph A B

module _ {A B : Type 0} (blank : A) where
  -- `for (i = 0; i < vbls->size; i++) Graph_AddVertex(g, Variable_GetLabel(v))`
  unfoldable pub vertices_loop : List Variable → Graph A B → Outcome (Graph A B)
  vertices_loop [] g = ok g
  vertices_loop (v ∷ vs) g = add_vertex blank g (get_label v) >>= λ (g', _). vertices_loop vs g'

module _ {N A B : Type 0} (blank : B) where
  -- The loop over the parents of a table, with `left` rounds left.
  unfoldable pub parents_loop : Cpt N → Option ℕ → ℕ → ℕ → Graph A B → Outcome (Graph A B)
  parents_loop cur_tab child_v zero j g = ok g
  parents_loop cur_tab child_v (suc left) j g = do
    parent ← get_ith_parent cur_tab j
    parent_v ← get_vertex g (get_label parent)
    (g', _) ← add_edge_ptr blank g parent_v child_v
    parents_loop cur_tab child_v left (j + 1) g'

  unfoldable pub tables_loop : List (Cpt N) → Graph A B → Outcome (Graph A B)
  unfolding parents_loop
  tables_loop [] g = ok g
  tables_loop (cur_tab ∷ tables) g = do
    child_v ← get_vertex g (get_label cur_tab.table_for)
    g' ← parents_loop cur_tab child_v cur_tab.num_parents 0 g
    tables_loop tables g'

module _ {N A B : Type 0} (blank : A) (blank_edge : B) where
  -- The set-up of the graph, which the three constructors share.
  unfoldable pub network_graph : VariableOrdering → ℕ → List (Cpt N) → Outcome (Graph A B)
  unfolding vertices_loop tables_loop
  network_graph vbls num_tables tables = do
    vs ← read_all vbls.size vbls.vbls
    g ← vertices_loop blank vs (create (b'B' ∷ b'N' ∷ b'e' ∷ b't' ∷ []) true)
    ts ← read_all num_tables tables
    tables_loop blank_edge ts g

-- `while (cur != NULL) array[i++] = …` over a list, into a new array for its size.
unfoldable pub array_of : {C : Type 0} → (ℕ → List C) → ℕ → Heap C → LinkedList → Outcome (List C)
array_of fresh fuel h l = walk fill_step fuel h l.first (fresh l.size, 0) >>= λ (cells, _). ok cells

module _ {N A B : Type 0} (blank : A) (blank_edge : B) where
  -- `BNet_Create`. The observations and their number are what the block held.
  unfoldable pub bnet_create :
      List (Observation N) × ℕ → VariableOrdering → List (Cpt N) → ℕ → Outcome (BNet N A B)
  unfolding network_graph
  bnet_create (obs, num_obs) vbls tables num_tables = do
    g ← network_graph blank blank_edge vbls num_tables tables
    ok (record {
      vbls = vbls;
      tables = tables;
      num_tables = num_tables;
      obs = obs;
      num_obs = num_obs;
      initial_graph = g;
    })

  -- `BNet_Create_List`
  unfoldable pub bnet_create_list :
      (ℕ → List (Cpt N))
      → List (Observation N)
      → ℕ
      → Heap (Cpt N)
      → VariableOrdering
      → LinkedList
      → Outcome (BNet N A B)
  unfolding network_graph array_of
  bnet_create_list fresh obs fuel h vbls tables = do
    array ← array_of fresh fuel h tables
    g ← network_graph blank blank_edge vbls tables.size array
    ok (record {
      vbls = vbls;
      tables = array;
      num_tables = tables.size;
      obs = obs;
      num_obs = 0;
      initial_graph = g;
    })

  -- `BNet_Create_List2`
  unfoldable pub bnet_create_list2 :
      (ℕ → List (Cpt N))
      → (ℕ → List (Observation N))
      → ℕ
      → Heap (Cpt N)
      → Heap (Observation N)
      → VariableOrdering
      → LinkedList
      → LinkedList
      → Outcome (BNet N A B)
  unfolding network_graph array_of
  bnet_create_list2 fresh fresh_obs fuel h k vbls tables obs = do
    array ← array_of fresh fuel h tables
    obs_array ← array_of fresh_obs fuel k obs
    g ← network_graph blank blank_edge vbls tables.size array
    ok (record {
      vbls = vbls;
      tables = array;
      num_tables = tables.size;
      obs = obs_array;
      num_obs = obs.size;
      initial_graph = g;
    })

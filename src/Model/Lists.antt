-- ===== src/Model/Lists.antt =====
-- src/components/JB_Model/JB_Model.c: the networks from lists of tables and of observations.
use junction_box.Base.{
  ℕ, ◌≤◌, true, List, ◌≡◌, refl, sym, ap, ◌∙◌, length, length-map, All, Outcome, ok,
}
use junction_box.CString.{Text}
use junction_box.LinkedList.{LinkedList, Heap}
use junction_box.LinkedList.Chain.{IsList, contents_of}
use junction_box.Variables.{VariableOrdering}
use junction_box.Graph.Valid.{is_some, find, IsGraph}
use junction_box.Model.{Cpt, Observation}
use junction_box.Model.Laws.{fill_walk}
use junction_box.Model.Network.{
  BNet, network_graph, array_of, bnet_create, bnet_create_list, bnet_create_list2,
}
use junction_box.Model.Build.{IsTable, known, table_edge, network_graph_lem}

-- The network has the tables, the given observations, and the graph that the tables describe.
pub record IsNetwork {N A B : Type 0} (vbls : VariableOrdering) (tables : List (Cpt N))
    (obs : List (Observation N)) (num_obs : ℕ) (net : BNet N A B) : Type 0 where
  pub over : net.vbls ≡ vbls
  pub tables_are : net.tables ≡ tables
  pub counted : net.num_tables ≡ length tables
  pub observed : (net.obs ≡ obs) × (net.num_obs ≡ num_obs)
  pub graph : IsGraph net.initial_graph
  pub directed : net.initial_graph.directed ≡ true
  pub named : (l : Text) → is_some (find l net.initial_graph.vertices) ≡ known vbls.vbls l
  pub joined : (k : Text) → is_some (find k net.initial_graph.edges) ≡ table_edge tables k

-- The constructor succeeds, with such a network.
abbrev pub Makes :
    {N A B : Type 0}
    → VariableOrdering
    → List (Cpt N)
    → List (Observation N)
    → ℕ
    → Outcome (BNet N A B)
    → Type 0
Makes {N} {A} {B} vbls tables obs num_obs made =
    (net : BNet N A B) × (made ≡ ok net) × IsNetwork vbls tables obs num_obs net

module _ {N A B : Type 0} (blank : A) (blank_edge : B) where
  -- For well-formed lists, fuel for their nodes, and tables over the variables of the ordering, the
  -- three constructors of a network succeed and agree, up to the observations: the network has the
  -- tables in the order of the list and the well-formed directed graph with a vertex for each label
  -- of a variable and an edge for each parent in a table. `BNet_Create_List2` stores the contents
  -- of the second list, `BNet_Create_List` says that there are none, and `BNet_Create` leaves the
  -- array and its size what they were.
  pub bnet_create_lem :
      (fresh : ℕ → List (Cpt N)) (fresh_obs : ℕ → List (Observation N))
      (junk : List (Observation N) × ℕ) (fuel : ℕ) (h : Heap (Cpt N)) (k : Heap (Observation N))
      (vbls : VariableOrdering) (l m : LinkedList) (nodes : List (ℕ × Cpt N))
      (seen : List (ℕ × Observation N))
      → ((n : ℕ) → length (fresh n) ≡ n)
      → ((n : ℕ) → length (fresh_obs n) ≡ n)
      → IsList h l nodes
      → IsList k m seen
      → length nodes ≤ fuel
      → length seen ≤ fuel
      → vbls.size ≡ length vbls.vbls
      → All (IsTable vbls.vbls) (contents_of nodes)
      → Makes vbls
          (contents_of nodes)
          junk.0
          junk.1
          (bnet_create blank blank_edge junk vbls (contents_of nodes) (length nodes))
        × Makes vbls
            (contents_of nodes)
            junk.0
            0
            (bnet_create_list blank blank_edge fresh junk.0 fuel h vbls l)
        × Makes vbls
            (contents_of nodes)
            (contents_of seen)
            (length seen)
            (bnet_create_list2 blank blank_edge fresh fresh_obs fuel h k vbls l m)
  unfolding bnet_create bnet_create_list bnet_create_list2 array_of
  bnet_create_lem fresh fresh_obs junk fuel h k vbls l m nodes seen fits fits_obs i j f q size
        over =
      let tables = contents_of nodes in
      let count : length nodes ≡ length tables = sym (length-map nodes (λ (n : ℕ × Cpt N). n.1)) in
      let (g, made, valid, directed, named, joined) =
        network_graph_lem blank blank_edge vbls tables size over in
      let array_made : network_graph blank blank_edge vbls (length nodes) tables ≡ ok g =
        ap (λ (n : ℕ). network_graph blank blank_edge vbls n tables) count ∙ made in
      let list_made : network_graph blank blank_edge vbls l.size tables ≡ ok g =
        ap (λ (n : ℕ). network_graph blank blank_edge vbls n tables) i.sized ∙ array_made in
      let filled = fill_walk fresh fuel h l nodes fits i f in
      let filled_obs = fill_walk fresh_obs fuel k m seen fits_obs j q in
      let network : (n : ℕ) (obs : List (Observation N)) (num_obs : ℕ) → BNet N A B =
        λ n obs num_obs. record {
          vbls = vbls;
          tables = tables;
          num_tables = n;
          obs = obs;
          num_obs = num_obs;
          initial_graph = g;
        } in
      let is : (n : ℕ) (obs obs' : List (Observation N)) (num_obs num_obs' : ℕ)
          → n ≡ length tables
          → obs ≡ obs'
          → num_obs ≡ num_obs'
          → IsNetwork vbls tables obs' num_obs' (network n obs num_obs) =
        λ n obs obs' num_obs num_obs' c e e'. record {
          over = refl;
          tables_are = refl;
          counted = c;
          observed = (e, e');
          graph = valid;
          directed = directed;
          named = named;
          joined = joined;
        } in
      (
        (network (length nodes) junk.0 junk.1, rw array_made refl, is _ _ _ _ _ count refl refl),
        (
          network l.size junk.0 0,
          rw (filled, list_made) refl,
          is _ _ _ _ _ (i.sized ∙ count) refl refl,
        ),
        (
          network l.size (contents_of seen) m.size,
          rw (filled, filled_obs, list_made) refl,
          is _ _ _ _ _ (i.sized ∙ count) refl j.sized,
        ),
      )

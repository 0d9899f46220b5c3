-- ===== src/Tests/Networks.antt =====
-- Runs of the theorems on networks and junction trees.
use junction_box.Base.{
  ◌||◌, false, ℕ, zero, suc, true, List, [], ◌∷◌, ◌≡◌, refl, arith, Option, none, some, ok,
  replicate, length-replicate, ◌>>=◌,
}
use junction_box.CString.{Text, text_eq}
use junction_box.Graph.{Graph}
use junction_box.Graph.Valid.{is_some, find, IsGraph}
use junction_box.ElimSets.{ElimSet}
use junction_box.JunctionTree.{VertexOrdering}
use junction_box.JunctionTree.Collection
use junction_box.JunctionTree.Collection.{ElimSetCollection, remove_non_cliques}
use junction_box.JunctionTree.Collection.Cliques.{AllSets}
use junction_box.JunctionTree.Collection.Reduced.{IsReduced, remove_non_cliques_lem}
use junction_box.JunctionTree.Gather.{gather_elim_sets}
use junction_box.JunctionTree.Gather.Lower.{HasFuel, lower_sets, gather_elim_sets_lem}
use junction_box.JunctionTree.Moral.{moral_graph}
use junction_box.JunctionTree.Moralized.{any_married, moral_graph_lem}
use junction_box.LinkedList.{LinkedList, Heap}
use junction_box.LinkedList.Chain.{IsList}
use junction_box.Model.{Cpt, Observation}
use junction_box.Model.Network.{network_graph, bnet_create, bnet_create_list, bnet_create_list2}
use junction_box.Model.Lists.{Makes, bnet_create_lem}
use junction_box.Model.Build.{known, table_edge, network_graph_lem}
use junction_box.Tests.Data.{rain, grass, garden, set_of, set_of-IsVariableSet}
use junction_box.Tests.Products.{weights}
use junction_box.Tests.Graphs.{
  two_vertices, two_vertices-IsGraph, two_vertices_room, rain_vertex, grass_vertex,
}

-- The table of the grass given the rain.
abbrev grass_table : Cpt ℕ
grass_table = record {
  parents = rain ∷ [];
  num_parents = 1;
  table_for = grass;
  allvbls = set_of 5;
  pot = weights;
}

network_graph_lem_example :
    (g : Graph ℕ ℕ) × (network_graph 7 8 garden 1 (grass_table ∷ []) ≡ ok g)
    × IsGraph g
    × (g.directed ≡ true)
    × ((l : Text) → is_some (find l g.vertices) ≡ known garden.vbls l)
    × ((k : Text) → is_some (find k g.edges) ≡ table_edge (grass_table ∷ []) k)
unfolding text_eq
network_graph_lem_example =
    network_graph_lem 7 8 garden (grass_table ∷ []) refl ((refl, refl, (refl, tt)), tt)

-- The table and an observation of the rain, in lists of one node.
abbrev one_list : LinkedList
one_list = record { size = 1; first = some 0; last = some 0 }

abbrev node_of : {C : Type 0} → C → Heap C
node_of c = record { contents = c; next = none } ∷ []

one_list-IsList : {C : Type 0} (c : C) → IsList (node_of c) one_list ((0, c) ∷ [])
one_list-IsList c = record {
  chain = (refl, (none, refl, refl));
  sized = refl;
  ends = refl;
  distinct = (tt, tt);
  inside = (omega arith, tt);
}

abbrev rain_seen : Observation ℕ
rain_seen = record { v = rain; pot = weights; value = some 1 }

bnet_create_lem_example :
    Makes {N = ℕ} {A = ℕ} {B = ℕ} garden
      (grass_table ∷ [])
      []
      5
      (bnet_create 7 8 ([], 5) garden (grass_table ∷ []) 1)
    × Makes {N = ℕ} {A = ℕ} {B = ℕ} garden (grass_table ∷ []) [] 0 (
        bnet_create_list 7 8
          (λ n. replicate n grass_table)
          []
          1
          (node_of grass_table)
          garden
          one_list)
    × Makes {N = ℕ} {A = ℕ} {B = ℕ} garden (grass_table ∷ []) (rain_seen ∷ []) 1 (
        bnet_create_list2 7 8
          (λ n. replicate n grass_table)
          (λ n. replicate n rain_seen)
          1
          (node_of grass_table)
          (node_of rain_seen)
          garden
          one_list
          one_list)
unfolding text_eq
bnet_create_lem_example =
    bnet_create_lem 7 8 (λ n. replicate n grass_table) (λ n. replicate n rain_seen) ([], 5) 1
      (node_of grass_table) (node_of rain_seen) garden one_list one_list ((0, grass_table) ∷ [])
      ((0, rain_seen) ∷ []) (λ n. length-replicate n grass_table)
      (λ n. length-replicate n rain_seen) (one_list-IsList grass_table) (one_list-IsList rain_seen)
      (omega arith) (omega arith) refl ((refl, refl, (refl, tt)), tt)

-- The rain alone, and twice two variables.
abbrev three_sets : ElimSetCollection
three_sets = Collection.create (λ n. some (set_of 1) ∷ some (set_of 3) ∷ some (set_of 6) ∷ []) 3

three_sets-AllSets : AllSets 3 three_sets.elim_sets
three_sets-AllSets zero c e =
    let same : set_of 1 ≡ c = cc in rw (← same) (set_of-IsVariableSet 1 (omega arith), refl)
three_sets-AllSets (suc zero) c e =
    let same : set_of 3 ≡ c = cc in rw (← same) (set_of-IsVariableSet 3 (omega arith), refl)
three_sets-AllSets (suc (suc zero)) c e =
    let same : set_of 6 ≡ c = cc in rw (← same) (set_of-IsVariableSet 6 (omega arith), refl)
three_sets-AllSets (suc (suc (suc k))) c e = cc

remove_non_cliques_lem_example : IsReduced 3 three_sets.elim_sets (remove_non_cliques 7 three_sets)
remove_non_cliques_lem_example = remove_non_cliques_lem 3 three_sets refl three_sets-AllSets

-- The rain before the grass.
abbrev rain_first : VertexOrdering
rain_first = record { size = 2; vertices = 0 ∷ 1 ∷ [] }

abbrev no_sets : ℕ → List (Option ElimSet)
no_sets n = none ∷ none ∷ []

two_vertices-HasFuel : HasFuel 3 two_vertices
two_vertices-HasFuel zero x e = let same : rain_vertex ≡ x = cc in rw (← same) (omega arith)
two_vertices-HasFuel (suc zero) x e = let same : grass_vertex ≡ x = cc in rw (← same) (omega arith)
two_vertices-HasFuel (suc (suc v)) x e = cc

gather_elim_sets_lem_example :
    gather_elim_sets two_vertices rain_first 8 no_sets 3 two_vertices garden ≡ (
      lower_sets two_vertices rain_first two_vertices garden 2 (Collection.create no_sets 2)
      >>= λ esc. ok (two_vertices, esc))
gather_elim_sets_lem_example =
    gather_elim_sets_lem two_vertices rain_first two_vertices 8 no_sets 2 garden
      two_vertices-HasFuel

moral_graph_lem_example :
    (g : Graph ℕ ℕ) × (moral_graph 7 8 2 two_vertices ≡ ok g)
    × IsGraph g
    × (g.directed ≡ false)
    × ((l : Text) → is_some (find l g.vertices) ≡ is_some (find l two_vertices.vertices))
    × ((k : Text)
        → is_some (find k g.edges) ≡ (
            any_married two_vertices two_vertices.vertices.first k
            || is_some (find k two_vertices.edges)))
moral_graph_lem_example =
    moral_graph_lem 7 8 two_vertices two_vertices-IsGraph 2 two_vertices_room (omega arith)

-- ===== src/Model/Build.antt =====
-- The graph of a network has a vertex for each variable and an edge for each parent in a table.
use junction_box.Base.{
  ℕ, ◌+◌, ◌||◌, Bool, true, false, List, [], ◌∷◌, ◌++◌, ◌≡◌, refl, sym, ap, ◌∙◌, some, length,
  length_snoc, append_snoc, get_elem?, get_elem?-append_mid, All, read_all, read_all_lem, Outcome,
  ok,
}
use mathlib.Core.Path.{subst}
use junction_box.CString.{Text, text_eq}
use junction_box.AssocMap.StringMap.{StringMap}
use junction_box.AssocMap.Laws.{lookup}
use junction_box.AssocMap.Keys.{text_keys}
use junction_box.Variables.{Variable, VariableOrdering}
use junction_box.Graph.{Graph, Vertex, key, create, get_vertex}
use junction_box.Graph.Valid.{
  is_some-if, or_swap, some_of, is_some, create-IsGraph, find, map_get_lem, IsGraph,
}
use junction_box.Graph.Vertices.{add_vertex_lem}
use junction_box.Graph.Connect.{add_edge_lem}
use junction_box.Model.{Cpt}
use junction_box.Model.Network.{vertices_loop, parents_loop, tables_loop, network_graph}

-- Whether a variable has the label.
abbrev pub known : List Variable → Text → Bool
known [] l = false
known (v ∷ vs) l = text_eq v.label l || known vs l

-- Whether one of the parents makes an edge with the given label.
abbrev pub parent_edge : List Variable → Text → Text → Bool
parent_edge [] child k = false
parent_edge (p ∷ ps) child k = text_eq (key p.label child) k || parent_edge ps child k

abbrev pub table_edge : {N : Type 0} → List (Cpt N) → Text → Bool
table_edge [] k = false
table_edge (t ∷ ts) k = parent_edge t.parents t.table_for.label k || table_edge ts k

nothing_known : (b : Bool) (l : Text) → (b || is_some (lookup {V = ℕ} text_keys l [])) ≡ b
unfolding lookup
nothing_known true l = refl
nothing_known false l = refl

-- What a part of the set-up leaves.
pub record IsBuilt {A B : Type 0} (g : Graph A B) (names edges : Text → Bool)
    (r : Outcome (Graph A B)) : Type 0 where
  pub graph : Graph A B
  pub returns : r ≡ ok graph
  pub valid : IsGraph graph
  pub directed : graph.directed ≡ g.directed
  pub named :
      (l : Text) → is_some (find l graph.vertices) ≡ (names l || is_some (find l g.vertices))
  pub joined : (k : Text) → is_some (find k graph.edges) ≡ (edges k || is_some (find k g.edges))

module _ {A B : Type 0} (blank : A) where
  vertices_loop_lem :
      (vs : List Variable) (g : Graph A B)
      → IsGraph g
      → IsBuilt g (known vs) (λ _. false) (vertices_loop blank vs g)
  unfolding vertices_loop
  vertices_loop_lem [] g h = record {
    graph = g;
    returns = refl;
    valid = h;
    directed = refl;
    named = λ l. refl;
    joined = λ k. refl;
  }
  vertices_loop_lem (v ∷ vs) g h =
      let a = add_vertex_lem blank g v.label h in
      let rest = vertices_loop_lem vs a.graph a.valid in
      record {
        graph = rest.graph;
        returns = rw (a.returns) rest.returns;
        valid = rest.valid;
        directed = rest.directed ∙ a.directed;
        named = λ l.
            rest.named l
            ∙ ap (λ (b : Bool). known vs l || b)
                (ap is_some (a.found l)
                  ∙ is_some-if (text_eq v.label l) a.vertex (find l g.vertices))
            ∙ or_swap (text_eq v.label l) (known vs l) (is_some (find l g.vertices));
        joined = λ k. rest.joined k ∙ ap (λ (m : StringMap ℕ). is_some (find k m)) a.edges;
      }

-- The labels of a table have vertices.
abbrev pub Covered : {A B : Type 0} → Graph A B → List Variable → Type 0
Covered g vs = All (λ (v : Variable). is_some (find v.label g.vertices) ≡ true) vs

Covered-same :
    {A B : Type 0} (g g' : Graph A B) (vs : List Variable)
    → ((l : Text) → is_some (find l g'.vertices) ≡ is_some (find l g.vertices))
    → Covered g vs
    → Covered g' vs
Covered-same g g' [] same c = tt
Covered-same g g' (v ∷ vs) same c = (same v.label ∙ c.0, Covered-same g g' vs same c.1)

module _ {N A B : Type 0} (blank : B) where
  parents_loop_lem :
      (t : Cpt N) (c : ℕ) (y : Vertex A) (ps done : List Variable) (j : ℕ) (g : Graph A B)
      → t.parents ≡ done ++ ps
      → length done ≡ j
      → IsGraph g
      → get_elem? g.vertex_store c ≡ some y
      → Covered g ps
      → IsBuilt g
          (λ _. false)
          (parent_edge ps y.label)
          (parents_loop blank t (some c) (length ps) j g)
  unfolding parents_loop get_vertex
  parents_loop_lem t c y [] done j g e len h at covered = record {
    graph = g;
    returns = refl;
    valid = h;
    directed = refl;
    named = λ l. refl;
    joined = λ k. refl;
  }
  parents_loop_lem t c y (p ∷ ps) done j g e len h at covered =
      let reads : get_elem? t.parents j ≡ some p =
        ap (λ (l : List Variable). get_elem? l j) e ∙ get_elem?-append_mid done p ps j len in
      let (v, found) = some_of (find p.label g.vertices) covered.0 in
      let (x, there, label) = h.vertex_there p.label v found in
      let a = add_edge_lem blank g h v c x y there at in
      let (y', at', l, n) = a.kept.forth c y at in
      let covered' : Covered a.graph ps =
        subst (λ (m : StringMap ℕ). All (λ (w : Variable). is_some (find w.label m) ≡ true) ps)
          (sym a.vertices) covered.1 in
      let rest =
        parents_loop_lem t c y' ps (done ++ p ∷ []) (j + 1) a.graph
          (e ∙ sym (append_snoc done p ps)) (length_snoc done p j len) a.valid at' covered' in
      record {
        graph = rest.graph;
        returns =
            rw (reads, map_get_lem g.vertices p.label h.vertex_map, found, a.returns) rest.returns;
        valid = rest.valid;
        directed = rest.directed ∙ a.directed;
        named = λ l'. rest.named l' ∙ ap (λ (m : StringMap ℕ). is_some (find l' m)) a.vertices;
        joined = λ k.
            rest.joined k
            ∙ ap (λ (t' : Text). parent_edge ps t' k || is_some (find k a.graph.edges)) l
            ∙ ap (λ (b : Bool). parent_edge ps y.label k || b)
                (ap is_some (a.found k)
                  ∙ is_some-if (text_eq (key x.label y.label) k) a.edge (find k g.edges)
                  ∙ ap (λ (t' : Text). text_eq (key t' y.label) k || is_some (find k g.edges))
                      label)
            ∙ or_swap (text_eq (key p.label y.label) k) (parent_edge ps y.label k)
                (is_some (find k g.edges));
      }

module _ {N A B : Type 0} where
  -- Every parent and the variable of a table have a vertex.
  abbrev HasVertices : Graph A B → Cpt N → Type 0
  HasVertices g t =
      (t.num_parents ≡ length t.parents)
      × (is_some (find t.table_for.label g.vertices) ≡ true)
      × Covered g t.parents

  HasVertices-same :
      (g g' : Graph A B) (ts : List (Cpt N))
      → ((l : Text) → is_some (find l g'.vertices) ≡ is_some (find l g.vertices))
      → All (HasVertices g) ts
      → All (HasVertices g') ts
  HasVertices-same g g' [] same c = tt
  HasVertices-same g g' (t ∷ ts) same ((n, child, parents), c) = (
    (n, same t.table_for.label ∙ child, Covered-same g g' t.parents same parents),
    HasVertices-same g g' ts same c,
  )

module _ {N A B : Type 0} (blank : B) where
  tables_loop_lem :
      (ts : List (Cpt N)) (g : Graph A B)
      → IsGraph g
      → All (HasVertices g) ts
      → IsBuilt g (λ _. false) (table_edge ts) (tables_loop blank ts g)
  unfolding tables_loop get_vertex
  tables_loop_lem [] g h c = record {
    graph = g;
    returns = refl;
    valid = h;
    directed = refl;
    named = λ l. refl;
    joined = λ k. refl;
  }
  tables_loop_lem (t ∷ ts) g h ((n, child, parents), c) =
      let (v, found) = some_of (find t.table_for.label g.vertices) child in
      let (y, at, label) = h.vertex_there t.table_for.label v found in
      let one = parents_loop_lem blank t v y t.parents [] 0 g refl refl h at parents in
      let one_run : parents_loop blank t (some v) t.num_parents 0 g ≡ ok one.graph =
        ap (λ (m : ℕ). parents_loop blank t (some v) m 0 g) n ∙ one.returns in
      let rest =
        tables_loop_lem ts one.graph one.valid (HasVertices-same g one.graph ts one.named c) in
      record {
        graph = rest.graph;
        returns =
            rw (map_get_lem g.vertices t.table_for.label h.vertex_map, found, one_run) rest.returns;
        valid = rest.valid;
        directed = rest.directed ∙ one.directed;
        named = λ l. rest.named l ∙ one.named l;
        joined = λ k.
            rest.joined k
            ∙ ap (λ (b : Bool). table_edge ts k || b)
                (one.joined k
                  ∙ ap (λ (l : Text). parent_edge t.parents l k || is_some (find k g.edges)) label)
            ∙ or_swap (parent_edge t.parents t.table_for.label k) (table_edge ts k)
                (is_some (find k g.edges));
      }

-- The variables of a table are among those of the network.
abbrev pub IsTable : {N : Type 0} → List Variable → Cpt N → Type 0
IsTable vs t =
    (t.num_parents ≡ length t.parents)
    × (known vs t.table_for.label ≡ true)
    × All (λ (p : Variable). known vs p.label ≡ true) t.parents

module _ {A B : Type 0} where
  known-Covered :
      (vs : List Variable) (g : Graph A B) (ps : List Variable)
      → ((l : Text) → is_some (find l g.vertices) ≡ known vs l)
      → All (λ (p : Variable). known vs p.label ≡ true) ps
      → Covered g ps
  known-Covered vs g [] named c = tt
  known-Covered vs g (p ∷ ps) named c = (named p.label ∙ c.0, known-Covered vs g ps named c.1)

module _ {N A B : Type 0} where
  known-HasVertices :
      (vs : List Variable) (g : Graph A B) (ts : List (Cpt N))
      → ((l : Text) → is_some (find l g.vertices) ≡ known vs l)
      → All (IsTable vs) ts
      → All (HasVertices g) ts
  known-HasVertices vs g [] named c = tt
  known-HasVertices vs g (t ∷ ts) named ((n, child, parents), c) = (
    (n, named t.table_for.label ∙ child, known-Covered vs g t.parents named parents),
    known-HasVertices vs g ts named c,
  )

module _ {N A B : Type 0} (blank : A) (blank_edge : B) where
  -- For tables over the variables of the ordering, the constructors of a network make a
  -- well-formed directed graph. It has a vertex for a label exactly when a variable has that label,
  -- and an edge for a label exactly when it joins a parent in a table to the variable of the table.
  pub network_graph_lem :
      (vbls : VariableOrdering) (tables : List (Cpt N))
      → vbls.size ≡ length vbls.vbls
      → All (IsTable vbls.vbls) tables
      → (g : Graph A B) × (network_graph blank blank_edge vbls (length tables) tables ≡ ok g)
        × IsGraph g
        × (g.directed ≡ true)
        × ((l : Text) → is_some (find l g.vertices) ≡ known vbls.vbls l)
        × ((k : Text) → is_some (find k g.edges) ≡ table_edge tables k)
  unfolding network_graph
  network_graph_lem vbls tables size over =
      let reads : read_all vbls.size vbls.vbls ≡ ok vbls.vbls =
        ap (λ (n : ℕ). read_all n vbls.vbls) size ∙ read_all_lem vbls.vbls in
      let start = create-IsGraph (b'B' ∷ b'N' ∷ b'e' ∷ b't' ∷ []) true in
      let g₀ : Graph A B = create (b'B' ∷ b'N' ∷ b'e' ∷ b't' ∷ []) true in
      let one = vertices_loop_lem blank vbls.vbls g₀ start in
      let named : (l : Text) → is_some (find l one.graph.vertices) ≡ known vbls.vbls l =
        λ l. one.named l ∙ nothing_known (known vbls.vbls l) l in
      let two =
        tables_loop_lem blank_edge tables one.graph one.valid
          (known-HasVertices vbls.vbls one.graph tables named over) in
      (
        two.graph,
        rw (reads, one.returns, read_all_lem tables, two.returns),
        two.valid,
        two.directed ∙ one.directed,
        λ l. two.named l ∙ named l,
        λ k.
            two.joined k
            ∙ ap (λ (b : Bool). table_edge tables k || b) (one.joined k)
            ∙ nothing_known (table_edge tables k) k,
      )

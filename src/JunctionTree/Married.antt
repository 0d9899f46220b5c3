-- ===== src/JunctionTree/Married.antt =====
-- `MoralGraph` adds an edge between the parents of each vertex.
use junction_box.Base.{
  ℕ, ◌||◌, Bool, true, false, List, [], ◌∷◌, map, ◌≡◌, refl, ap, ◌∙◌, if◌then◌else◌, Option, none,
  some, get_elem?, All, Outcome, ok, ◌>>=◌,
}
use junction_box.CString.{Text, text_eq}
use junction_box.AssocMap.StringMap.{StringMap}
use junction_box.Graph.{Graph, Vertex, key, get_vertex}
use junction_box.Graph.Valid.{find, is_some, is_some-if, or_swap, some_of, map_get_lem, IsGraph}
use junction_box.Graph.Edges.{SameLabels, SameLabels-self, SameLabels-trans}
use junction_box.Graph.Connect.{add_edge_lem}
use junction_box.JunctionTree.Moral.{moral_vertex, marry_rest, marry}

-- Whether an edge joins the first text to one of the others, and whether it joins a text to a later
-- one.
abbrev pub rest_edge : Text → List Text → Text → Bool
rest_edge l [] k = false
rest_edge l (m ∷ ls) k = text_eq (key l m) k || rest_edge l ls k

abbrev pub pair_edge : List Text → Text → Bool
pair_edge [] k = false
pair_edge (l ∷ ls) k = rest_edge l ls k || pair_edge ls k

-- What marrying makes of a graph: it adds the edges.
pub record IsMarried {A B : Type 0} (g : Graph A B) (edges : Text → Bool) (r : Outcome (Graph A B))
    : Type 0 where
  pub graph : Graph A B
  pub returns : r ≡ ok graph
  pub valid : IsGraph graph
  pub vertices : graph.vertices ≡ g.vertices
  pub kept : SameLabels g.vertex_store graph.vertex_store
  pub joined : (k : Text) → is_some (find k graph.edges) ≡ (edges k || is_some (find k g.edges))
  pub directed : graph.directed ≡ g.directed

module _ {A B : Type 0} where
  pub IsMarried-self : (g : Graph A B) → IsGraph g → IsMarried g (λ k. false) (ok g)
  IsMarried-self g h = record {
    graph = g;
    returns = refl;
    valid = h;
    vertices = refl;
    kept = SameLabels-self g.vertex_store;
    joined = λ k. refl;
    directed = refl;
  }

  -- One after the other.
  pub IsMarried-then :
      (g : Graph A B) (p q : Text → Bool) (r : Outcome (Graph A B))
      (f : Graph A B → Outcome (Graph A B)) (one : IsMarried g p r)
      → IsMarried one.graph q (f one.graph)
      → IsMarried g (λ k. p k || q k) (r >>= f)
  IsMarried-then g p q r f one two = record {
    graph = two.graph;
    returns = rw one.returns two.returns;
    valid = two.valid;
    vertices = two.vertices ∙ one.vertices;
    kept =
        SameLabels-trans g.vertex_store one.graph.vertex_store two.graph.vertex_store one.kept
          two.kept;
    joined = λ k.
        two.joined k
        ∙ ap (λ (b : Bool). q k || b) (one.joined k)
        ∙ or_swap (p k) (q k) (is_some (find k g.edges));
    directed = two.directed ∙ one.directed;
  }

unfoldable pub label_or : {A : Type 0} → Option (Vertex A) → Text
label_or none = []
label_or (some x) = x.label

module _ {A B : Type 0} (imm : Graph A B) where
  abbrev pub label_at : ℕ → Text
  label_at p = label_or (get_elem? imm.vertex_store p)

  -- The vertices of the immoral graph are in the other one.
  abbrev pub HasAll : Graph A B → Type 0
  HasAll g = (l : Text) → is_some (find l imm.vertices) ≡ true → is_some (find l g.vertices) ≡ true

  pub HasAll-same : (g g' : Graph A B) → g'.vertices ≡ g.vertices → HasAll g → HasAll g'
  HasAll-same g g' e all l known = ap (λ (m : StringMap ℕ). is_some (find l m)) e ∙ all l known

  abbrev pub IsVertex : ℕ → Type 0
  IsVertex p = (x : Vertex A) × (get_elem? imm.vertex_store p ≡ some x)

module _ {A B : Type 0} (blank_edge : B) (imm : Graph A B) (h : IsGraph imm) where
  moral_vertex_lem :
      (g : Graph A B) (p : ℕ)
      → IsGraph g
      → HasAll imm g
      → IsVertex imm p
      → (u : ℕ) × (y : Vertex A) × (moral_vertex blank_edge imm g p ≡ ok (some u))
        × (get_elem? g.vertex_store u ≡ some y)
        × (y.label ≡ label_at imm p)
  unfolding moral_vertex get_vertex label_or
  moral_vertex_lem g p k all (x, at) =
      let (u, found) =
        some_of (find x.label g.vertices) (all x.label (ap is_some (h.registered p x at))) in
      let (y, there, l) = k.vertex_there x.label u found in
      (u, y, rw (at, map_get_lem g.vertices x.label k.vertex_map, found), there, l ∙ rw at)

  -- The first parent with the later ones.
  marry_rest_lem :
      (l : Text) (u : ℕ) (y : Vertex A) (ps : List ℕ) (g : Graph A B)
      → IsGraph g
      → HasAll imm g
      → get_elem? g.vertex_store u ≡ some y
      → y.label ≡ l
      → All (IsVertex imm) ps
      → IsMarried g (rest_edge l (map (label_at imm) ps)) (marry_rest blank_edge imm (some u) ps g)
  unfolding marry_rest
  marry_rest_lem l u y [] g k all at label there = IsMarried-self g k
  marry_rest_lem l u y (p ∷ ps) g k all at label (here, there) =
      let (w, z, gets, at_w, label_w) = moral_vertex_lem g p k all here in
      let a = add_edge_lem blank_edge g k u w y z at at_w in
      let (y', at', label', _) = a.kept.forth u y at in
      let e = key l (label_at imm p) in
      let is : key y.label z.label ≡ e = rw (label, label_w) in
      let rest =
        marry_rest_lem l u y' ps a.graph a.valid (HasAll-same imm g a.graph a.vertices all) at'
          (label' ∙ label) there in
      record {
        graph = rest.graph;
        returns = rw (gets, a.returns) rest.returns;
        valid = rest.valid;
        vertices = rest.vertices ∙ a.vertices;
        kept =
            SameLabels-trans g.vertex_store a.graph.vertex_store rest.graph.vertex_store a.kept
              rest.kept;
        joined = λ j.
            rest.joined j
            ∙ ap (λ (b : Bool). rest_edge l (map (label_at imm) ps) j || b)
                (ap is_some (a.found j)
                  ∙ ap (λ (t : Text). is_some (if text_eq t j then some a.edge else find j g.edges))
                      is
                  ∙ is_some-if (text_eq e j) a.edge (find j g.edges))
            ∙ or_swap (text_eq e j) (rest_edge l (map (label_at imm) ps) j)
                (is_some (find j g.edges));
        directed = rest.directed ∙ a.directed;
      }

  pub marry_lem :
      (ps : List ℕ) (g : Graph A B)
      → IsGraph g
      → HasAll imm g
      → All (IsVertex imm) ps
      → IsMarried g (pair_edge (map (label_at imm) ps)) (marry blank_edge imm ps g)
  unfolding marry
  marry_lem [] g k all there = IsMarried-self g k
  marry_lem (p ∷ ps) g k all (here, there) =
      let (u, y, gets, at, label) = moral_vertex_lem g p k all here in
      let one = marry_rest_lem (label_at imm p) u y ps g k all at label there in
      let two =
        marry_lem ps one.graph one.valid (HasAll-same imm g one.graph one.vertices all) there in
      rw gets (
        IsMarried-then g (rest_edge (label_at imm p) (map (label_at imm) ps))
          (pair_edge (map (label_at imm) ps)) (marry_rest blank_edge imm (some u) ps g)
          (marry blank_edge imm ps) one two)

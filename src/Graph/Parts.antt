-- ===== src/Graph/Parts.antt =====
-- Adding to a graph labels and edges of another one.
use junction_box.Base.{
  ℕ, ◌⊎◌, true, ◌≡◌, refl, sym, ap, ◌∙◌, inl, inr, Bool-cases, if◌then◌else◌, some, get_elem?,
  Outcome, ok,
}
use junction_box.CString.{Text, text_eq}
use junction_box.CString.Laws.{text_eq_iff}
use junction_box.AssocMap.StringMap.{StringMap}
use junction_box.AssocMap.Keys.{text_keys}
use junction_box.Graph.{Graph, Vertex, key, add_vertex, add_edge}
use junction_box.Graph.Valid.{find, is_some, IsGraph}
use junction_box.Graph.Vertices.{add_vertex_lem}
use junction_box.Graph.Connect.{add_edge_lem}

-- A map that got a key.
module _ (k : Text) (e : ℕ) (m m' : StringMap ℕ)
    (found : (j : Text) → find j m' ≡ (if text_eq k j then some e else find j m)) where
  found_here : is_some (find k m') ≡ true
  found_here = ap is_some (found k) ∙ rw (text_keys.reflexive k)

  found_forth : (j : Text) → is_some (find j m) ≡ true → is_some (find j m') ≡ true
  found_forth j e' = elim (Bool-cases (text_eq k j)) [
    | inl hit ↦ ap is_some (found j) ∙ rw hit
    | inr miss ↦ ap is_some (found j) ∙ rw miss e'
  ]

  found_back : (j : Text) → is_some (find j m') ≡ true → (k ≡ j) ⊎ (is_some (find j m) ≡ true)
  found_back j e' = elim (Bool-cases (text_eq k j)) [
    | inl hit ↦ inl ((text_eq_iff k j).0 hit)
    | inr miss ↦ inr (sym (ap is_some (found j) ∙ rw miss) ∙ e')
  ]

module _ {A B : Type 0} where
  -- The second graph has what the first has, with the vertices at their places.
  pub record IsWider (g g' : Graph A B) : Type 0 where
    pub names :
        (l : Text) → is_some (find l g.vertices) ≡ true → is_some (find l g'.vertices) ≡ true
    pub joins : (k : Text) → is_some (find k g.edges) ≡ true → is_some (find k g'.edges) ≡ true
    pub kept :
        (v : ℕ) (x : Vertex A)
        → get_elem? g.vertex_store v ≡ some x
        → (x' : Vertex A) × (get_elem? g'.vertex_store v ≡ some x') × (x'.label ≡ x.label)

  pub IsWider-self : (g : Graph A B) → IsWider g g
  IsWider-self g = record { names = λ l e. e; joins = λ k e. e; kept = λ v x at. (x, at, refl) }

  pub IsWider-trans : (f g g' : Graph A B) → IsWider f g → IsWider g g' → IsWider f g'
  IsWider-trans f g g' h k = record {
    names = λ l e. k.names l (h.names l e);
    joins = λ j e. k.joins j (h.joins j e);
    kept = λ v x at.
        let (y, at', l) = h.kept v x at in let (z, at'', l') = k.kept v y at' in (z, at'', l' ∙ l);
  }

module _ {A B : Type 0} (this : Graph A B) (h : IsGraph this) where
  -- A well-formed graph that has only what `this` has.
  pub record IsPart (g : Graph A B) : Type 0 where
    pub valid : IsGraph g
    pub names :
        (l : Text) → is_some (find l g.vertices) ≡ true → is_some (find l this.vertices) ≡ true
    pub joins : (k : Text) → is_some (find k g.edges) ≡ true → is_some (find k this.edges) ≡ true
    pub directed : g.directed ≡ this.directed

  -- What a step makes of a part: a larger part, of which `holds` is true.
  pub record IsStep (g : Graph A B) (P : Graph A B → Type 0) (r : Outcome (Graph A B))
      : Type 0 where
    pub graph : Graph A B
    pub returns : r ≡ ok graph
    pub part : IsPart graph
    pub wider : IsWider g graph
    pub holds : P graph

  -- A vertex with a label of `this`.
  pub add_name :
      (blank : A) (g : Graph A B) (l : Text)
      → IsPart g
      → is_some (find l this.vertices) ≡ true
      → (g' : Graph A B) × (v : ℕ) × (x : Vertex A) × (add_vertex blank g l ≡ ok (g', v))
        × IsPart g'
        × IsWider g g'
        × (get_elem? g'.vertex_store v ≡ some x)
        × (x.label ≡ l)
        × (is_some (find l g'.vertices) ≡ true)
  add_name blank g l part known =
      let a = add_vertex_lem blank g l part.valid in
      let there : find l a.graph.vertices ≡ some a.vertex =
        a.found l ∙ rw (text_keys.reflexive l) in
      let (x, at, label) = a.valid.vertex_there l a.vertex there in
      (
        a.graph,
        a.vertex,
        x,
        a.returns,
        record {
          valid = a.valid;
          names = λ j e. elim (found_back l a.vertex g.vertices a.graph.vertices a.found j e) [
            | inl same ↦ ap (λ (t : Text). is_some (find t this.vertices)) (sym same) ∙ known
            | inr old ↦ part.names j old
          ];
          joins =
              λ k e. part.joins k (ap (λ (m : StringMap ℕ). is_some (find k m)) (sym a.edges) ∙ e);
          directed = a.directed ∙ part.directed;
        },
        record {
          names = found_forth l a.vertex g.vertices a.graph.vertices a.found;
          joins = λ k e. ap (λ (m : StringMap ℕ). is_some (find k m)) a.edges ∙ e;
          kept = λ v y e. (y, a.kept v y e, refl);
        },
        at,
        label,
        found_here l a.vertex g.vertices a.graph.vertices a.found,
      )

  -- An edge of `this`.
  pub add_join :
      (blank_edge : B) (g : Graph A B) (src sink : ℕ) (x y : Vertex A) (k : Text)
      → IsPart g
      → get_elem? g.vertex_store src ≡ some x
      → get_elem? g.vertex_store sink ≡ some y
      → key x.label y.label ≡ k
      → is_some (find k this.edges) ≡ true
      → (g' : Graph A B) × (e : ℕ) × (add_edge blank_edge g src sink ≡ ok (g', e))
        × IsPart g'
        × IsWider g g'
        × (is_some (find k g'.edges) ≡ true)
  add_join blank_edge g src sink x y k part at at' is known =
      let a = add_edge_lem blank_edge g part.valid src sink x y at at' in
      let k' = key x.label y.label in
      (
        a.graph,
        a.edge,
        a.returns,
        record {
          valid = a.valid;
          names = λ l e.
              part.names l (ap (λ (m : StringMap ℕ). is_some (find l m)) (sym a.vertices) ∙ e);
          joins = λ j e. elim (found_back k' a.edge g.edges a.graph.edges a.found j e) [
            | inl same ↦ ap (λ (t : Text). is_some (find t this.edges)) (sym same ∙ is) ∙ known
            | inr old ↦ part.joins j old
          ];
          directed = a.directed ∙ part.directed;
        },
        record {
          names = λ l e. ap (λ (m : StringMap ℕ). is_some (find l m)) a.vertices ∙ e;
          joins = found_forth k' a.edge g.edges a.graph.edges a.found;
          kept = λ v z e. let (w, there, l, n) = a.kept.forth v z e in (w, there, l);
        },
        ap (λ (t : Text). is_some (find t a.graph.edges)) (sym is)
            ∙ found_here k' a.edge g.edges a.graph.edges a.found,
      )

-- ===== src/Graph/Grown.antt =====
-- A graph with one vertex more, as `Graph_AddVertex` leaves it.
use junction_box.Base.{
  ℕ, zero, suc, ◌⊎◌, ◌<◌, true, false, List, [], ◌∷◌, ◌++◌, ◌≡◌, refl, sym, ap, ◌∙◌, arith, inl,
  inr, Bool-cases, if◌then◌else◌, ◌==◌, Option, none, some, length, get_elem?,
}
use mathlib.Core.Path.{subst}
use junction_box.CString.{Text, text_eq}
use junction_box.CString.Laws.{text_eq_iff}
use junction_box.LinkedList.Chain.{get_elem?-append_new}
use junction_box.AssocMap.StringMap
use junction_box.AssocMap.StringMap.{StringMap}
use junction_box.AssocMap.Laws.{IsMap, lookup, lookup_same, create-IsMap}
use junction_box.AssocMap.Keys.{text_keys}
use junction_box.Graph.{Graph, Vertex, Edge, vertex_create}
use junction_box.Graph.Valid.{find, restrict, starts, ends, Agree, Joins, IsGraph}

module _ {C : Type 0} where
  pub get_elem?-lt : (h : List C) (a : ℕ) (x : C) → get_elem? h a ≡ some x → a < length h
  get_elem?-lt [] a x e = cc
  get_elem?-lt (y ∷ h) zero x e = omega arith
  get_elem?-lt (y ∷ h) (suc a) x e = let lt = get_elem?-lt h a x e in omega arith

  -- A store that grew keeps what it had.
  pub get_elem?-grown :
      (h : List C) (x y : C) (a : ℕ) → get_elem? h a ≡ some y → get_elem? (h ++ x ∷ []) a ≡ some y
  get_elem?-grown [] x y a e = cc
  get_elem?-grown (z ∷ h) x y zero e = e
  get_elem?-grown (z ∷ h) x y (suc a) e = get_elem?-grown h x y a e

  -- And it has one element more.
  pub grown_cases :
      (h : List C) (x y : C) (a : ℕ)
      → get_elem? (h ++ x ∷ []) a ≡ some y
      → (get_elem? h a ≡ some y) ⊎ ((a ≡ length h) × (x ≡ y))
  grown_cases [] x y zero e = inr (refl, cc)
  grown_cases [] x y (suc a) e = cc
  grown_cases (z ∷ h) x y zero e = inl e
  grown_cases (z ∷ h) x y (suc a) e = elim (grown_cases h x y a e) [
    | inl p ↦ inl p
    | inr (p, q) ↦ inr (ap suc p, q)
  ]

pub if_found :
    (name j : Text) (v : ℕ) (m : StringMap ℕ)
    → find name m ≡ some v
    → (if text_eq name j then some v else find j m) ≡ find j m
if_found name j v m f = elim (Bool-cases (text_eq name j)) [
  | inl hit ↦ rw hit (sym f ∙ lookup_same text_keys m.first name j hit)
  | inr miss ↦ rw miss
]

module _ {A : Type 0} where
  abbrev pub new_vertex : A → Text → Vertex A
  new_vertex blank name = record {
    label = name;
    outedges = StringMap.create;
    inedges = StringMap.create;
    annotation = blank;
  }

module _ {A B : Type 0} where
  pub Joins-grown :
      (store : List (Vertex A)) (x : Vertex A) (d : Edge B)
      → Joins store d
      → Joins (store ++ x ∷ []) d
  Joins-grown store x d j = record {
    tail = j.tail;
    head = j.head;
    tail_at = get_elem?-grown store x j.tail d.src j.tail_at;
    head_at = get_elem?-grown store x j.head d.sink j.head_at;
    labelled = j.labelled;
  }

  -- The vertices in the map of the graph are replaced.
  abbrev pub with_vertices : Graph A B → StringMap ℕ → Graph A B
  with_vertices g m = record g { graph_dirty = true; vertices = m }

  -- No edge starts or ends at the place of a new vertex.
  pub no_start :
      (g : Graph A B) (k : Text) (o : Option ℕ)
      → IsGraph g
      → find k g.edges ≡ o
      → (restrict (starts g.edge_store (length g.vertex_store)) o ≡ none)
        × (restrict (ends g.edge_store (length g.vertex_store)) o ≡ none)
  no_start g k none h f = (refl, refl)
  no_start g k (some e) h f =
      let (d, at, l, j) = h.edge_there k e f in
      let from : (d.src == length g.vertex_store) ≡ false =
        let lt = get_elem?-lt g.vertex_store d.src j.tail j.tail_at in ground arith in
      let to : (d.sink == length g.vertex_store) ≡ false =
        let lt = get_elem?-lt g.vertex_store d.sink j.head j.head_at in ground arith in
      (rw (at, from), rw (at, to))

  pub no_edges :
      (g : Graph A B)
      → IsGraph g
      → Agree (starts g.edge_store (length g.vertex_store)) g.edges StringMap.create
        × Agree (ends g.edge_store (length g.vertex_store)) g.edges StringMap.create
  unfolding lookup
  no_edges g h = (
    (create-IsMap text_keys, λ k. sym (no_start g k (find k g.edges) h refl).0),
    (create-IsMap text_keys, λ k. sym (no_start g k (find k g.edges) h refl).1),
  )

  abbrev pub grown : A → Graph A B → Text → StringMap ℕ → Graph A B
  grown blank g name m = with_vertices (vertex_create blank g name).0 m

  pub grown-IsGraph :
      (blank : A) (g : Graph A B) (name : Text) (m : StringMap ℕ)
      → IsGraph g
      → find name g.vertices ≡ none
      → IsMap text_keys m
      → ((j : Text)
          → find j m ≡ (if text_eq name j then some (length g.vertex_store) else find j g.vertices))
      → IsGraph (grown blank g name m)
  grown-IsGraph blank g name m h f k found =
      let x = new_vertex blank name in
      let fresh = no_edges g h in
      let old : (v : ℕ) (y : Vertex A)
          → get_elem? g.vertex_store v ≡ some y
          → find y.label m ≡ some v =
        λ v y at. found y.label ∙ elim (Bool-cases (text_eq name y.label)) [
          | inl hit ↦
              let same = lookup_same text_keys g.vertices.first name y.label hit in
              let r = h.registered v y at in cc
          | inr miss ↦ rw miss (h.registered v y at)
        ] in
      record {
        vertex_map = k;
        edge_map = h.edge_map;
        registered = λ v y at. elim (grown_cases g.vertex_store x y v at) [
          | inl here ↦ old v y here
          | inr (is, same) ↦
              ap (λ (z : Vertex A). find z.label m) (sym same)
              ∙ found name
              ∙ rw (text_keys.reflexive name) (ap (λ (u : ℕ). some u) (sym is))
        ];
        vertex_there = λ l v at. elim (Bool-cases (text_eq name l)) [
          | inl hit ↦
              let is : length g.vertex_store ≡ v =
                let q : find l m ≡ some (length g.vertex_store) = found l ∙ rw hit in cc in
              (
                x,
                ap (λ (u : ℕ). get_elem? (g.vertex_store ++ x ∷ []) u) (sym is)
                    ∙ get_elem?-append_new g.vertex_store x,
                (text_eq_iff name l).0 hit,
              )
          | inr miss ↦
              let was : find l g.vertices ≡ some v =
                let q : find l m ≡ find l g.vertices = found l ∙ rw miss in sym q ∙ at in
              let (y, there, label) = h.vertex_there l v was in
              (y, get_elem?-grown g.vertex_store x y v there, label)
        ];
        edge_there = λ l e at.
            let (d, there, label, j) = h.edge_there l e at in
            (d, there, label, Joins-grown g.vertex_store x d j);
        outgoing = λ v y at. elim (grown_cases g.vertex_store x y v at) [
          | inl here ↦ h.outgoing v y here
          | inr (is, same) ↦
              subst (λ (z : Vertex A). Agree (starts g.edge_store v) g.edges z.outedges) same
                (subst (λ (u : ℕ). Agree (starts g.edge_store u) g.edges StringMap.create) (sym is)
                  fresh.0)
        ];
        incoming = λ v y at. elim (grown_cases g.vertex_store x y v at) [
          | inl here ↦ h.incoming v y here
          | inr (is, same) ↦
              subst (λ (z : Vertex A). Agree (ends g.edge_store v) g.edges z.inedges) same
                (subst (λ (u : ℕ). Agree (ends g.edge_store u) g.edges StringMap.create) (sym is)
                  fresh.1)
        ];
      }

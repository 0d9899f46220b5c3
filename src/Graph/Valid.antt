-- ===== src/Graph/Valid.antt =====
-- Well-formed graphs: the maps of a graph and of its vertices agree with one another.
use junction_box.Base.{
  Bool-cases, ◌||◌, inl, inr, ℕ, Bool, true, false, List, [], ◌∷◌, ◌≡◌, refl, sym, ap, ◌∙◌,
  if◌then◌else◌, ◌==◌, Option, none, some, get_elem?, ok,
}
use junction_box.CString.{Text}
use junction_box.AssocMap.StringMap.{StringMap}
use junction_box.AssocMap.Laws.{IsMap, lookup, contents_of, get-lookup, create-IsMap}
use junction_box.AssocMap.Keys.{text_keys}
use junction_box.Graph.{Graph, create, Vertex, Edge, key, contents, map_get}

-- The contents of a key.
abbrev pub find : Text → StringMap ℕ → Option ℕ
find id m = lookup text_keys id m.first

contents_same : (chain : List (Text × ℕ)) → contents chain ≡ contents_of chain
contents_same [] = refl
contents_same ((id, a) ∷ next) = refl

pub map_get_lem : (m : StringMap ℕ) (id : Text) → IsMap text_keys m → map_get m id ≡ ok (find id m)
unfolding map_get
map_get_lem m id h =
    let (chain, gets, holds) = get-lookup text_keys m id h tt in
    rw gets (ap (λ (o : Option ℕ). ok o) (contents_same chain ∙ holds))

-- Those of an option that pass a test.
abbrev pub restrict : (ℕ → Bool) → Option ℕ → Option ℕ
restrict p none = none
restrict p (some e) = if p e then some e else none

pub restrict-some :
    (p : ℕ → Bool) (o : Option ℕ) (e : ℕ) → some e ≡ restrict p o → (o ≡ some e) × (p e ≡ true)
restrict-some p none e f = cc
restrict-some p (some c) e f = elim (Bool-cases (p c)) [
  | inl t ↦ let same : some e ≡ some c = f ∙ rw t in let is : e ≡ c = cc in (sym same, ap p is ∙ t)
  | inr u ↦ let none_some : some e ≡ none = f ∙ rw u in cc
]

abbrev pub is_some : Option ℕ → Bool
is_some none = false
is_some (some v) = true

pub some_of : (o : Option ℕ) → is_some o ≡ true → (v : ℕ) × (o ≡ some v)
some_of none e = cc
some_of (some v) e = (v, refl)

pub is_some-if :
    (b : Bool) (v : ℕ) (o : Option ℕ) → is_some (if b then some v else o) ≡ (b || is_some o)
is_some-if true v o = refl
is_some-if false v o = refl

pub or_swap : (a b c : Bool) → (b || (a || c)) ≡ ((a || b) || c)
or_swap true true c = refl
or_swap true false c = refl
or_swap false true c = refl
or_swap false false c = refl

-- A map has the edges that pass the test.
abbrev pub Agree : (ℕ → Bool) → StringMap ℕ → StringMap ℕ → Type 0
Agree p edges m = IsMap text_keys m × ((k : Text) → find k m ≡ restrict p (find k edges))

module _ {B : Type 0} where
  abbrev pub src_is : ℕ → Option (Edge B) → Bool
  src_is v none = false
  src_is v (some d) = d.src == v

  abbrev pub sink_is : ℕ → Option (Edge B) → Bool
  sink_is v none = false
  sink_is v (some d) = d.sink == v

  abbrev pub starts : List (Edge B) → ℕ → ℕ → Bool
  starts store v e = src_is v (get_elem? store e)

  abbrev pub ends : List (Edge B) → ℕ → ℕ → Bool
  ends store v e = sink_is v (get_elem? store e)

module _ {A B : Type 0} where
  -- An edge joins two vertices of the graph, and is labelled by them.
  pub record Joins (store : List (Vertex A)) (d : Edge B) : Type 0 where
    pub tail : Vertex A
    pub head : Vertex A
    pub tail_at : get_elem? store d.src ≡ some tail
    pub head_at : get_elem? store d.sink ≡ some head
    pub labelled : d.src_sink ≡ key tail.label head.label

  -- The vertices are registered by their labels, each label once; the edges by the labels of their
  -- ends; and the maps of a vertex have the edges of the graph that start or end there.
  pub record IsGraph (g : Graph A B) : Type 0 where
    pub vertex_map : IsMap text_keys g.vertices
    pub edge_map : IsMap text_keys g.edges
    pub registered :
        (v : ℕ) (x : Vertex A)
        → get_elem? g.vertex_store v ≡ some x
        → find x.label g.vertices ≡ some v
    pub vertex_there :
        (l : Text) (v : ℕ)
        → find l g.vertices ≡ some v
        → (x : Vertex A) × (get_elem? g.vertex_store v ≡ some x) × (x.label ≡ l)
    pub edge_there :
        (k : Text) (e : ℕ)
        → find k g.edges ≡ some e
        → (d : Edge B) × (get_elem? g.edge_store e ≡ some d)
          × (d.src_sink ≡ k)
          × Joins g.vertex_store d
    pub outgoing :
        (v : ℕ) (x : Vertex A)
        → get_elem? g.vertex_store v ≡ some x
        → Agree (starts g.edge_store v) g.edges x.outedges
    pub incoming :
        (v : ℕ) (x : Vertex A)
        → get_elem? g.vertex_store v ≡ some x
        → Agree (ends g.edge_store v) g.edges x.inedges

module _ {A B : Type 0} where
  pub create-IsGraph :
      (name : Text) (directed : Bool) → IsGraph (create {A = A} {B = B} name directed)
  unfolding lookup
  create-IsGraph name directed = record {
    vertex_map = create-IsMap text_keys;
    edge_map = create-IsMap text_keys;
    registered = λ v x e. cc;
    vertex_there = λ l v e. cc;
    edge_there = λ k e f. cc;
    outgoing = λ v x e. cc;
    incoming = λ v x e. cc;
  }

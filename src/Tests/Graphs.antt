-- ===== src/Tests/Graphs.antt =====
-- Runs of the theorems on graphs.
use junction_box.Base.{
  fault, ◌≤◌, ℕ, zero, suc, Bool, true, false, List, [], ◌∷◌, ◌++◌, ◌≡◌, refl, sym, ◌∙◌, arith, inl,
  inr, Bool-cases, none, some, get_elem?, Outcome, ok, ◌>>=◌,
}
use junction_box.CString.{Text, text_eq}
use junction_box.CString.Laws.{text_eq_iff}
use junction_box.AssocMap.StringMap
use junction_box.AssocMap.StringMap.{StringMap}
use junction_box.AssocMap.Laws.{IsMap, lookup, create-IsMap}
use junction_box.AssocMap.Keys.{text_keys}
use junction_box.Graph.{Graph, Vertex, Edge, key, add_vertex, add_edge}
use junction_box.Graph.Printers.{
  vertex_content_printer, edge_content_printer, content_printers-fault,
}
use junction_box.Tests.Data.{dirty_block, length-dirty_block}
use junction_box.Graph.Walks.{copy, get_fst_parent, for_parents}
use junction_box.Graph.Valid.{is_some, find, starts, ends, Agree, Joins, IsGraph}
use junction_box.Graph.Vertices.{IsVertexAdded, add_vertex_lem}
use junction_box.Graph.Connect.{IsEdgeAdded, add_edge_lem}
use junction_box.Graph.Copies.{copy_lem}
use junction_box.Graph.Chains.{run_sources, for_parents_lem}

abbrev rain_name : Text
rain_name = b'r' ∷ []

abbrev grass_name : Text
grass_name = b'g' ∷ []

abbrev one_edge : StringMap ℕ
one_edge = record { first = (key rain_name grass_name, 0) ∷ []; size = 1 }

abbrev pub rain_vertex : Vertex ℕ
rain_vertex = record {
  label = rain_name;
  outedges = one_edge;
  inedges = StringMap.create;
  annotation = 0;
}

abbrev pub grass_vertex : Vertex ℕ
grass_vertex = record {
  label = grass_name;
  outedges = StringMap.create;
  inedges = one_edge;
  annotation = 0;
}

abbrev wet : Edge ℕ
wet = record { src_sink = key rain_name grass_name; src = 0; sink = 1; annotation = 0 }

-- Two vertices, and an edge from the first to the second.
abbrev pub two_vertices : Graph ℕ ℕ
two_vertices = record {
  graph_dirty = true;
  directed = true;
  name = [];
  vertices = record { first = (grass_name, 1) ∷ (rain_name, 0) ∷ []; size = 2 };
  edges = one_edge;
  vertex_store = rain_vertex ∷ grass_vertex ∷ [];
  edge_store = wet ∷ [];
}

one_edge-IsMap : IsMap text_keys one_edge
unfolding lookup
one_edge-IsMap = record { sized = refl; distinct = (tt, refl, tt) }

all_edges : (p : ℕ → Bool) (e : p 0 ≡ true) → Agree p one_edge one_edge
unfolding lookup
all_edges p e = (
  one_edge-IsMap,
  λ k. elim (Bool-cases (text_eq (key rain_name grass_name) k)) [
    | inl hit ↦ rw (hit, e)
    | inr miss ↦ rw miss
  ],
)

no_edge : (p : ℕ → Bool) (e : p 0 ≡ false) → Agree p one_edge StringMap.create
unfolding lookup
no_edge p e = (
  create-IsMap text_keys,
  λ k. elim (Bool-cases (text_eq (key rain_name grass_name) k)) [
    | inl hit ↦ rw (hit, e)
    | inr miss ↦ rw miss
  ],
)

rain_registered :
    (v : ℕ) (x : Vertex ℕ)
    → get_elem? two_vertices.vertex_store v ≡ some x
    → find x.label two_vertices.vertices ≡ some v
unfolding lookup text_eq
rain_registered zero x e = let same : rain_vertex ≡ x = cc in rw (← same)
rain_registered (suc zero) x e = let same : grass_vertex ≡ x = cc in rw (← same)
rain_registered (suc (suc v)) x e = cc

labelled_so :
    (l : Text) (v : ℕ)
    → find l two_vertices.vertices ≡ some v
    → (x : Vertex ℕ) × (get_elem? two_vertices.vertex_store v ≡ some x) × (x.label ≡ l)
unfolding lookup
labelled_so l v e = elim (Bool-cases (text_eq grass_name l)) [
  | inl hit ↦
      let is : some 1 ≡ some v = sym (rw hit) ∙ e in
      let at : v ≡ 1 = cc in (grass_vertex, rw at, (text_eq_iff grass_name l).0 hit)
  | inr miss ↦ elim (Bool-cases (text_eq rain_name l)) [
    | inl hit ↦
        let is : some 0 ≡ some v = sym (rw (miss, hit)) ∙ e in
        let at : v ≡ 0 = cc in (rain_vertex, rw at, (text_eq_iff rain_name l).0 hit)
    | inr gone ↦ let is : none ≡ some v = sym (rw (miss, gone)) ∙ e in cc
  ]
]

joined_so :
    (k : Text) (e : ℕ)
    → find k one_edge ≡ some e
    → (d : Edge ℕ) × (get_elem? two_vertices.edge_store e ≡ some d)
      × (d.src_sink ≡ k)
      × Joins two_vertices.vertex_store d
unfolding lookup
joined_so k e f = elim (Bool-cases (text_eq (key rain_name grass_name) k)) [
  | inl hit ↦
      let is : some 0 ≡ some e = sym (rw hit) ∙ f in
      let at : e ≡ 0 = cc in
      (
        wet,
        rw at,
        (text_eq_iff (key rain_name grass_name) k).0 hit,
        record {
          tail = rain_vertex;
          head = grass_vertex;
          tail_at = refl;
          head_at = refl;
          labelled = refl;
        },
      )
  | inr miss ↦ let is : none ≡ some e = sym (rw miss) ∙ f in cc
]

outgoing_so :
    (v : ℕ) (x : Vertex ℕ)
    → get_elem? two_vertices.vertex_store v ≡ some x
    → Agree (starts two_vertices.edge_store v) one_edge x.outedges
outgoing_so zero x e = let same : rain_vertex ≡ x = cc in rw (← same) (all_edges _ refl)
outgoing_so (suc zero) x e = let same : grass_vertex ≡ x = cc in rw (← same) (no_edge _ refl)
outgoing_so (suc (suc v)) x e = cc

incoming_so :
    (v : ℕ) (x : Vertex ℕ)
    → get_elem? two_vertices.vertex_store v ≡ some x
    → Agree (ends two_vertices.edge_store v) one_edge x.inedges
incoming_so zero x e = let same : rain_vertex ≡ x = cc in rw (← same) (no_edge _ refl)
incoming_so (suc zero) x e = let same : grass_vertex ≡ x = cc in rw (← same) (all_edges _ refl)
incoming_so (suc (suc v)) x e = cc

pub two_vertices-IsGraph : IsGraph two_vertices
unfolding lookup text_eq
two_vertices-IsGraph = record {
  vertex_map = record { sized = refl; distinct = (tt, refl, (tt, refl, tt)) };
  edge_map = one_edge-IsMap;
  registered = rain_registered;
  vertex_there = labelled_so;
  edge_there = joined_so;
  outgoing = outgoing_so;
  incoming = incoming_so;
}

add_vertex_lem_example :
    IsVertexAdded two_vertices (b's' ∷ []) (add_vertex 7 two_vertices (b's' ∷ []))
add_vertex_lem_example = add_vertex_lem 7 two_vertices (b's' ∷ []) two_vertices-IsGraph

add_edge_lem_example :
    IsEdgeAdded two_vertices (key grass_name rain_name) (add_edge 7 two_vertices 1 0)
add_edge_lem_example =
    add_edge_lem 7 two_vertices two_vertices-IsGraph 1 0 grass_vertex rain_vertex refl refl

-- A list of the vertices that a loop visits.
abbrev note : List ℕ → ℕ → Outcome (List ℕ)
note seen v = ok (seen ++ v ∷ [])

for_parents_lem_example :
    (get_fst_parent two_vertices 1 >>= λ cur. for_parents note 1 two_vertices 1 cur [])
    ≡ run_sources note two_vertices two_vertices-IsGraph 1 grass_vertex refl one_edge.first []
for_parents_lem_example =
    for_parents_lem note two_vertices two_vertices-IsGraph 1 grass_vertex refl 1 [] (omega arith)

-- No vertex has more than one incoming edge.
pub two_vertices_room :
    (v : ℕ) (x : Vertex ℕ) → get_elem? two_vertices.vertex_store v ≡ some x → x.inedges.size ≤ 2
two_vertices_room zero x e = let same : rain_vertex ≡ x = cc in rw (← same) (omega arith)
two_vertices_room (suc zero) x e = let same : grass_vertex ≡ x = cc in rw (← same) (omega arith)
two_vertices_room (suc (suc v)) x e = cc

copy_lem_example :
    (g : Graph ℕ ℕ) × (copy 7 8 2 two_vertices ≡ ok g)
    × IsGraph g
    × (g.directed ≡ true)
    × ((l : Text) → is_some (find l g.vertices) ≡ is_some (find l two_vertices.vertices))
    × ((k : Text) → is_some (find k g.edges) ≡ is_some (find k two_vertices.edges))
copy_lem_example = copy_lem 7 8 two_vertices two_vertices-IsGraph 2 two_vertices_room (omega arith)

content_printers-fault_example :
    (vertex_content_printer dirty_block two_vertices (rain_name, 0) ≡ fault)
    × (edge_content_printer dirty_block two_vertices (rain_name, 0) ≡ fault)
content_printers-fault_example =
    content_printers-fault dirty_block two_vertices rain_name 0 length-dirty_block

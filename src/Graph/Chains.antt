-- ===== src/Graph/Chains.antt =====
-- The walks over a graph visit the chains of its maps from the first element to the last.
use junction_box.Base.{
  ℕ, zero, suc, ◌≤◌, List, [], ◌∷◌, ◌++◌, ◌≡◌, refl, sym, ap, ◌∙◌, arith, inl, inr, Bool-cases,
  ◌==◌, Option, none, some, length, get_elem?, append_snoc, Outcome, ok, bind_ext, ◌>>=◌,
}
use mathlib.Core.Path.{subst}
use junction_box.CString.{Text, text_eq}
use junction_box.AssocMap
use junction_box.AssocMap.StringMap.{StringMap}
use junction_box.AssocMap.Laws.{IsMap, lookup, Distinct, lookup_same}
use junction_box.AssocMap.Keys.{text_keys, text_same}
use junction_box.Graph.{Graph, Vertex, Edge, key, contents, map_get_next, get_nxt_vertex, get_edge}
use junction_box.Graph.Valid.{find, restrict-some, ends, IsGraph}
use junction_box.Graph.Edges.{get_edge_lem}
use junction_box.Graph.Walks.{tail_of, for_vertices, for_parents, get_fst_parent, get_nxt_parent}

-- The element with a key, among the others of its chain.
lookup_mid :
    (before rest : List (Text × ℕ)) (k : Text) (v : ℕ)
    → Distinct text_keys (before ++ (k, v) ∷ rest)
    → lookup text_keys k (before ++ (k, v) ∷ rest) ≡ some v
unfolding lookup
lookup_mid [] rest k v d = rw (text_keys.reflexive k)
lookup_mid ((j, w) ∷ before) rest k v d =
    let ih = lookup_mid before rest k v d.2 in
    elim (Bool-cases (text_eq j k)) [
      | inl hit ↦
          let same = lookup_same text_keys (before ++ (k, v) ∷ rest) j k hit in let gone = d.1 in cc
      | inr miss ↦ rw miss ih
    ]

find_mid :
    (before rest : List (Text × ℕ)) (k : Text) (v : ℕ)
    → Distinct text_keys (before ++ (k, v) ∷ rest)
    → AssocMap.find text_same (before ++ (k, v) ∷ rest) k ≡ ok ((k, v) ∷ rest)
unfolding AssocMap.find
find_mid [] rest k v d = rw (text_keys.reflexive k)
find_mid ((j, w) ∷ before) rest k v d =
    let ih = find_mid before rest k v d.2 in
    elim (Bool-cases (text_eq j k)) [
      | inl hit ↦
          let same = lookup_same text_keys (before ++ (k, v) ∷ rest) j k hit in
          let gone = d.1 in let there = lookup_mid before rest k v d.2 in cc
      | inr miss ↦ rw miss ih
    ]

-- A map whose chain has the element with a key behind some others.
abbrev pub Split : StringMap ℕ → List (Text × ℕ) → Text → ℕ → List (Text × ℕ) → Type 0
Split m before k v rest = m.first ≡ before ++ (k, v) ∷ rest

module _ (m : StringMap ℕ) (before rest : List (Text × ℕ)) (k : Text) (v : ℕ)
    (h : IsMap text_keys m) (split : Split m before k v rest) where
  Distinct-split : Distinct text_keys (before ++ (k, v) ∷ rest)
  Distinct-split = subst (λ (l : List (Text × ℕ)). Distinct text_keys l) split h.distinct

  pub find-Split : find k m ≡ some v
  find-Split =
      ap (λ (l : List (Text × ℕ)). lookup text_keys k l) split
      ∙ lookup_mid before rest k v Distinct-split

  pub map_get_next-Split : map_get_next m k ≡ ok (contents rest)
  unfolding map_get_next AssocMap.get
  map_get_next-Split =
      let finds : AssocMap.find text_same m.first k ≡ ok ((k, v) ∷ rest) =
        ap (λ (l : List (Text × ℕ)). AssocMap.find text_same l k) split
        ∙ find_mid before rest k v Distinct-split in
      rw finds

-- A body run on the contents of a chain.
unfoldable pub run_chain : {S : Type 0} → (S → ℕ → Outcome S) → List (Text × ℕ) → S → Outcome S
run_chain step [] s = ok s
run_chain step ((k, v) ∷ rest) s = step s v >>= run_chain step rest

module _ {A B S : Type 0} (step : S → ℕ → Outcome S) (g : Graph A B) (h : IsGraph g) where
  vertices_from :
      (before rest : List (Text × ℕ)) (fuel : ℕ) (s : S)
      → g.vertices.first ≡ before ++ rest
      → length rest ≤ fuel
      → for_vertices step fuel g (contents rest) s ≡ run_chain step rest s
  unfolding for_vertices run_chain get_nxt_vertex
  vertices_from before [] fuel s e room = refl
  vertices_from before ((k, v) ∷ rest) zero s e room = absurd (omega arith)
  vertices_from before ((k, v) ∷ rest) (suc fuel) s e room =
      let (x, at, l) = h.vertex_there k v (find-Split g.vertices before rest k v h.vertex_map e) in
      let next = map_get_next-Split g.vertices before rest k v h.vertex_map e in
      let step_on : get_nxt_vertex g v ≡ ok (contents rest) = rw (at, l) next in
      rw step_on (
        bind_ext (step s v) _ _ (λ s'.
          vertices_from (before ++ (k, v) ∷ []) rest fuel s'
            (e ∙ sym (append_snoc before (k, v) rest)) (omega arith)))

  -- `for (cur = Graph_GetFstVertex(g); cur != NULL; …)` visits the vertices in the order of the map.
  pub for_vertices_lem :
      (fuel : ℕ) (s : S)
      → g.vertices.size ≤ fuel
      → for_vertices step fuel g (contents g.vertices.first) s ≡ run_chain step g.vertices.first s
  for_vertices_lem fuel s room =
      vertices_from [] g.vertices.first fuel s refl (omega (arith, h.vertex_map.sized))

-- The source of an edge, given by its place.
abbrev pub src_or : {B : Type 0} → Option (Edge B) → ℕ
src_or none = 0
src_or (some d) = d.src

abbrev pub src_of : {B : Type 0} → List (Edge B) → ℕ → ℕ
src_of store e = src_or (get_elem? store e)

module _ {A B S : Type 0} (step : S → ℕ → Outcome S) (g : Graph A B) (h : IsGraph g) (v : ℕ)
    (x : Vertex A) (at : get_elem? g.vertex_store v ≡ some x) where
  -- An edge in the map of incoming edges.
  incoming_edge :
      (k : Text) (e : ℕ)
      → find k x.inedges ≡ some e
      → (d : Edge B) × (get_elem? g.edge_store e ≡ some d)
        × (d.src_sink ≡ k)
        × (get_edge g d.src v ≡ ok (some e))
  incoming_edge k e f =
      let (in_graph, ends_here) =
        restrict-some (ends g.edge_store v) (find k g.edges) e (sym f ∙ (h.incoming v x at).1 k) in
      let (d, there, l, j) = h.edge_there k e in_graph in
      let is : d.sink ≡ v =
        let q : ends g.edge_store v e ≡ (d.sink == v) = rw there in ground arith in
      let head : j.head ≡ x =
        let q = ap (λ (u : ℕ). get_elem? g.vertex_store u) is in let a = j.head_at in cc in
      let same_key : key j.tail.label x.label ≡ k =
        ap (λ (y : Vertex A). key j.tail.label y.label) (sym head) ∙ sym j.labelled ∙ l in
      (
        d,
        there,
        l,
        get_edge_lem g d.src v j.tail x h j.tail_at at
            ∙ ap (λ (t : Text). ok (find t g.edges)) same_key
            ∙ ap (λ (o : Option ℕ). ok o) in_graph,
      )

  -- The loop over the parents, on the sources of the edges.
  abbrev pub run_sources : List (Text × ℕ) → S → Outcome S
  run_sources = run_chain (λ s e. step s (src_of g.edge_store e))

  parents_from :
      (before rest : List (Text × ℕ)) (fuel : ℕ) (s : S)
      → x.inedges.first ≡ before ++ rest
      → length rest ≤ fuel
      → (tail_of g (contents rest) >>= λ cur. for_parents step fuel g v cur s) ≡ run_sources rest s
  unfolding for_parents run_chain get_nxt_parent
  parents_from before [] fuel s e room = refl
  parents_from before ((k, c) ∷ rest) zero s e room = absurd (omega arith)
  parents_from before ((k, c) ∷ rest) (suc fuel) s e room =
      let map_x = (h.incoming v x at).0 in
      let (d, there, l, gets) = incoming_edge k c (find-Split x.inedges before rest k c map_x e) in
      let next = map_get_next-Split x.inedges before rest k c map_x e in
      let ih : (s' : S)
          → (tail_of g (contents rest) >>= λ cur. for_parents step fuel g v cur s')
            ≡ run_sources rest s' =
        λ s'.
          parents_from (before ++ (k, c) ∷ []) rest fuel s'
            (e ∙ sym (append_snoc before (k, c) rest)) (omega arith) in
      let nxt_is : get_nxt_parent g v d.src ≡ tail_of g (contents rest) =
        rw (gets, at, there, l, next) in
      rw there (
        bind_ext (step s d.src) _ _ (λ s'.
          ap (λ (o : Outcome (Option ℕ)). o >>= λ nxt. for_parents step fuel g v nxt s') nxt_is
          ∙ ih s'))

  -- `for (p = Graph_GetFstParent(g, v); p != NULL; …)` visits the sources of the incoming edges in
  -- the order of the map.
  pub for_parents_lem :
      (fuel : ℕ) (s : S)
      → x.inedges.size ≤ fuel
      → (get_fst_parent g v >>= λ cur. for_parents step fuel g v cur s)
        ≡ run_sources x.inedges.first s
  unfolding get_fst_parent
  for_parents_lem fuel s room =
      rw at
        (parents_from [] x.inedges.first fuel s refl (omega (arith, (h.incoming v x at).0.sized)))

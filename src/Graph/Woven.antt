-- ===== src/Graph/Woven.antt =====
-- A graph with one edge more, as `Graph_AddEdge` leaves it.
use junction_box.Base.{
  ℕ, ◌≢◌, true, false, List, [], ◌∷◌, ◌++◌, ◌≡◌, refl, sym, ap, ◌∙◌, arith, inl, inr, Bool-cases,
  if◌then◌else◌, none, some, length, set, get_elem?, ok,
}
use mathlib.Core.Path.{subst}
use junction_box.CString.{Text, text_eq}
use junction_box.CString.Laws.{text_eq_iff}
use junction_box.LinkedList.Chain.{get_elem?-append_new}
use junction_box.AssocMap.StringMap.{StringMap}
use junction_box.AssocMap.Laws.{IsMap, or_else, add-IsAdded}
use junction_box.AssocMap.Keys.{text_keys}
use junction_box.Graph.{Graph, Vertex, Edge, add_outedge, add_inedge}
use junction_box.Graph.Valid.{find, starts, ends, Agree, Joins, IsGraph}
use junction_box.Graph.Grown.{get_elem?-lt, get_elem?-grown}
use junction_box.Graph.Edges.{
  Agree-apart, Agree-added, set_cases, SameLabels, SameLabels-trans, SameLabels-set, Joins-same,
}

-- The result of adding an edge to a map of one vertex.
pub record IsWoven (m : StringMap ℕ) (k : Text) (e : ℕ) (o : StringMap ℕ) : Type 0 where
  pub valid : IsMap text_keys o
  pub holds :
      (j : Text) → find j o ≡ (if text_eq k j then some (or_else (find k m) e) else find j m)

module _ {A B : Type 0} where
  pub add_outedge_lem :
      (g : Graph A B) (v : ℕ) (x : Vertex A) (k : Text) (e : ℕ)
      → get_elem? g.vertex_store v ≡ some x
      → IsMap text_keys x.outedges
      → (o : StringMap ℕ) × (add_outedge g v k e
          ≡ ok (record g { vertex_store = set g.vertex_store v (record x { outedges = o }) }))
        × IsWoven x.outedges k e o
  unfolding add_outedge
  add_outedge_lem g v x k e at h =
      let a = add-IsAdded text_keys x.outedges k e h tt in
      (a.result, rw (at, a.returns), record { valid = a.valid; holds = a.holds })

  pub add_inedge_lem :
      (g : Graph A B) (v : ℕ) (x : Vertex A) (k : Text) (e : ℕ)
      → get_elem? g.vertex_store v ≡ some x
      → IsMap text_keys x.inedges
      → (o : StringMap ℕ) × (add_inedge g v k e
          ≡ ok (record g { vertex_store = set g.vertex_store v (record x { inedges = o }) }))
        × IsWoven x.inedges k e o
  unfolding add_inedge
  add_inedge_lem g v x k e at h =
      let a = add-IsAdded text_keys x.inedges k e h tt in
      (a.result, rw (at, a.returns), record { valid = a.valid; holds = a.holds })

-- The parts of a graph with one edge more.
module _ {A B : Type 0} (g : Graph A B) (h : IsGraph g) (d : Edge B) (m : StringMap ℕ)
    (valid : IsMap text_keys m) (fresh : find d.src_sink g.edges ≡ none)
    (found : (j : Text)
      → find j m
        ≡ (if text_eq d.src_sink j then some (length g.edge_store) else find j g.edges)) where
  abbrev pub edge_store' : List (Edge B)
  edge_store' = g.edge_store ++ d ∷ []

  pub old_starts :
      (v : ℕ) (j : Text) (c : ℕ)
      → find j g.edges ≡ some c
      → starts edge_store' v c ≡ starts g.edge_store v c
  old_starts v j c f =
      let (b, at, l, joins) = h.edge_there j c f in rw (at, get_elem?-grown g.edge_store d b c at)

  pub old_ends :
      (v : ℕ) (j : Text) (c : ℕ)
      → find j g.edges ≡ some c
      → ends edge_store' v c ≡ ends g.edge_store v c
  old_ends v j c f =
      let (b, at, l, joins) = h.edge_there j c f in rw (at, get_elem?-grown g.edge_store d b c at)

  -- The outgoing edges when the map of the source has the new edge.
  pub outgoing_step :
      (x : Vertex A) (o : StringMap ℕ)
      → get_elem? g.vertex_store d.src ≡ some x
      → IsWoven x.outedges d.src_sink (length g.edge_store) o
      → (v : ℕ) (z : Vertex A)
      → get_elem? (set g.vertex_store d.src (record x { outedges = o })) v ≡ some z
      → Agree (starts edge_store' v) m z.outedges
  outgoing_step x o at woven v z e =
      let e' = get_elem?-append_new g.edge_store d in
      elim (set_cases g.vertex_store d.src v (record x { outedges = o }) z
        (get_elem?-lt g.vertex_store d.src x at) e) [
          | inl (is, same) ↦
              let hits : starts edge_store' v (length g.edge_store) ≡ true = rw e' (ground arith) in
              subst (λ (y : Vertex A). Agree (starts edge_store' v) m y.outedges) (sym same)
                (Agree-added (starts g.edge_store v) (starts edge_store' v) g.edges m d.src_sink
                  (length g.edge_store) fresh found (old_starts v) x.outedges o hits
                  (h.outgoing v x (ap (λ (i : ℕ). get_elem? g.vertex_store i) is ∙ at)) woven.valid
                  woven.holds)
          | inr (ne, there) ↦
              let misses : starts edge_store' v (length g.edge_store) ≡ false =
                rw e' (ground arith) in
              Agree-apart (starts g.edge_store v) (starts edge_store' v) g.edges m d.src_sink
                (length g.edge_store) fresh found (old_starts v) z.outedges misses
                (h.outgoing v z there)
        ]

  -- The incoming edges, in a store with the same ones but for the sink.
  pub incoming_step :
      (y : Vertex A) (i : StringMap ℕ)
      → get_elem? g.vertex_store d.sink ≡ some y
      → IsWoven y.inedges d.src_sink (length g.edge_store) i
      → Agree (ends edge_store' d.sink) m i
  incoming_step y i at woven =
      let e' = get_elem?-append_new g.edge_store d in
      let hits : ends edge_store' d.sink (length g.edge_store) ≡ true = rw e' (ground arith) in
      Agree-added (ends g.edge_store d.sink) (ends edge_store' d.sink) g.edges m d.src_sink
        (length g.edge_store) fresh found (old_ends d.sink) y.inedges i hits
        (h.incoming d.sink y at) woven.valid woven.holds

  pub incoming_apart :
      (v : ℕ) (z : Vertex A)
      → v ≢ d.sink
      → get_elem? g.vertex_store v ≡ some z
      → Agree (ends edge_store' v) m z.inedges
  incoming_apart v z ne at =
      let e' = get_elem?-append_new g.edge_store d in
      let misses : ends edge_store' v (length g.edge_store) ≡ false = rw e' (ground arith) in
      Agree-apart (ends g.edge_store v) (ends edge_store' v) g.edges m d.src_sink
        (length g.edge_store) fresh found (old_ends v) z.inedges misses (h.incoming v z at)

  -- The first store keeps the incoming edges.
  pub same_incoming :
      (x : Vertex A) (o : StringMap ℕ)
      → get_elem? g.vertex_store d.src ≡ some x
      → (v : ℕ) (z : Vertex A)
      → get_elem? (set g.vertex_store d.src (record x { outedges = o })) v ≡ some z
      → (y : Vertex A) × (get_elem? g.vertex_store v ≡ some y)
        × (y.inedges ≡ z.inedges)
        × (y.label ≡ z.label)
  same_incoming x o at v z e =
      elim (set_cases g.vertex_store d.src v (record x { outedges = o }) z
        (get_elem?-lt g.vertex_store d.src x at) e) [
          | inl (is, same) ↦ (
            x,
            ap (λ (i : ℕ). get_elem? g.vertex_store i) is ∙ at,
            ap (λ (w : Vertex A). w.inedges) (sym same),
            ap (λ (w : Vertex A). w.label) (sym same),
          )
          | inr (ne, there) ↦ (z, there, refl, refl)
        ]

  module _ (x y₁ : Vertex A) (o i : StringMap ℕ) (at : get_elem? g.vertex_store d.src ≡ some x)
      (woven : IsWoven x.outedges d.src_sink (length g.edge_store) o)
      (at₁ : get_elem? (set g.vertex_store d.src (record x { outedges = o })) d.sink ≡ some y₁)
      (woven₁ : IsWoven y₁.inedges d.src_sink (length g.edge_store) i) where
    abbrev pub store₁ : List (Vertex A)
    store₁ = set g.vertex_store d.src (record x { outedges = o })

    abbrev pub store₂ : List (Vertex A)
    store₂ = set store₁ d.sink (record y₁ { inedges = i })

    abbrev pub result : Graph A B
    result = record g {
      graph_dirty = true;
      edges = m;
      vertex_store = store₂;
      edge_store = edge_store';
    }

    pub result-SameLabels : SameLabels g.vertex_store store₂
    result-SameLabels =
        SameLabels-trans g.vertex_store store₁ store₂
          (SameLabels-set g.vertex_store d.src x (record x { outedges = o }) at refl refl)
          (SameLabels-set store₁ d.sink y₁ (record y₁ { inedges = i }) at₁ refl refl)

    pub result_outgoing :
        (v : ℕ) (z : Vertex A)
        → get_elem? store₂ v ≡ some z
        → Agree (starts edge_store' v) m z.outedges
    result_outgoing v z e =
        elim (set_cases store₁ d.sink v (record y₁ { inedges = i }) z
          (get_elem?-lt store₁ d.sink y₁ at₁) e) [
            | inl (is, same) ↦
                subst (λ (w : Vertex A). Agree (starts edge_store' v) m w.outedges) (sym same)
                  (outgoing_step x o at woven v y₁ (ap (λ (u : ℕ). get_elem? store₁ u) is ∙ at₁))
            | inr (ne, there) ↦ outgoing_step x o at woven v z there
          ]

    pub result_incoming :
        (v : ℕ) (z : Vertex A)
        → get_elem? store₂ v ≡ some z
        → Agree (ends edge_store' v) m z.inedges
    result_incoming v z e =
        elim (set_cases store₁ d.sink v (record y₁ { inedges = i }) z
          (get_elem?-lt store₁ d.sink y₁ at₁) e) [
            | inl (is, same) ↦
                let (y, at_y, edges, l) = same_incoming x o at d.sink y₁ at₁ in
                let woven_y =
                  subst (λ (w : StringMap ℕ). IsWoven w d.src_sink (length g.edge_store) i)
                    (sym edges) woven₁ in
                subst (λ (u : ℕ). Agree (ends edge_store' u) m z.inedges) (sym is)
                  (subst (λ (w : Vertex A). Agree (ends edge_store' d.sink) m w.inedges) (sym same)
                    (incoming_step y i at_y woven_y))
            | inr (ne, there) ↦
                let (y, at_y, edges, l) = same_incoming x o at v z there in
                subst (λ (w : StringMap ℕ). Agree (ends edge_store' v) m w) edges
                  (incoming_apart v y ne at_y)
          ]

    pub result-IsGraph : Joins g.vertex_store d → IsGraph result
    result-IsGraph joins = record {
      vertex_map = h.vertex_map;
      edge_map = valid;
      registered = λ v z e.
          let (w, there, l) = result-SameLabels.back v z e in
          ap (λ (t : Text). find t g.vertices) l ∙ h.registered v w there;
      vertex_there = λ l v f.
          let (w, there, label) = h.vertex_there l v f in
          let (z, here, same, n) = result-SameLabels.forth v w there in (z, here, same ∙ label);
      edge_there = λ j c f. elim (Bool-cases (text_eq d.src_sink j)) [
        | inl hit ↦
            let is : some (length g.edge_store) ≡ some c = sym (found j ∙ rw hit) ∙ f in
            let place : length g.edge_store ≡ c = cc in
            (
              d,
              ap (λ (u : ℕ). get_elem? edge_store' u) (sym place)
                  ∙ get_elem?-append_new g.edge_store d,
              (text_eq_iff d.src_sink j).0 hit,
              Joins-same g.vertex_store store₂ d result-SameLabels joins,
            )
        | inr miss ↦
            let old : find j g.edges ≡ some c = sym (found j ∙ rw miss) ∙ f in
            let (b, there, label, ends_b) = h.edge_there j c old in
            (
              b,
              get_elem?-grown g.edge_store d b c there,
              label,
              Joins-same g.vertex_store store₂ b result-SameLabels ends_b,
            )
      ];
      outgoing = result_outgoing;
      incoming = result_incoming;
    }

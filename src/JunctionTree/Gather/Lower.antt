-- ===== src/JunctionTree/Gather/Lower.antt =====
-- What `GatherElimSets` collects: the vertices with their neighbours of lower rank.
use junction_box.Base.{
  ℕ, zero, suc, ◌<◌, Bool, true, false, List, [], ◌∷◌, ltb, if◌then◌else◌, Option, none, some,
  get_elem?, length, Outcome, ok, ◌>>=◌, bind_ext, bind_assoc, deref, read, ◌≡◌, refl, sym, ap, ◌∙◌,
  arith,
}
use junction_box.CString.{Text}
use junction_box.Variables.{VariableOrdering}
use junction_box.Graph.{Graph, Vertex, edge_at, vertex_at, get_label, get_vertex}
use junction_box.Graph.Walks.{
  NeighborItr, get_current, get_neighbor_itr, advance, for_neighbors, connect_all,
}
use junction_box.Graph.Incident.{incident, edges_at, far_end, get_current_in, get_current_out}
use junction_box.ElimSets
use junction_box.ElimSets.{ElimSet, get_vertex_list}
use junction_box.ElimSets.Laws.{get_vertex_list_lem}
use junction_box.JunctionTree.{VertexOrdering, get_vertex_rank_by_label}
use junction_box.JunctionTree.Collection
use junction_box.JunctionTree.Collection.{ElimSetCollection}
use junction_box.JunctionTree.Gather.{
  before, gather_neighbor, gather_set, gather_loop, gather_elim_sets,
}

-- Enough fuel for the edges at each vertex.
abbrev pub HasFuel : {A B : Type 0} → ℕ → Graph A B → Type 0
HasFuel {A = A} fuel moral =
    (v : ℕ) (x : Vertex A) → get_elem? moral.vertex_store v ≡ some x → length (edges_at x) < fuel

choice :
    {C : Type 0} (rank : Option ℕ) (i : ℕ) (c d : C)
    → (if before rank i then c else d) ≡ elim rank [ none ↦ c | some r ↦ if ltb r i then c else d ]
choice none i c d = refl
choice (some r) i c d = refl

module _ {A B : Type 0} (g : Graph A B) (o : VertexOrdering) (moral : Graph A B) where
  -- Of the vertices at the other ends of the edges, those that the ordering lacks or has before `i`
  -- are added.
  abbrev pub add_lower : ℕ → List (Bool × ℕ) → ElimSet → Outcome ElimSet
  add_lower i [] eset = ok eset
  add_lower i ((incoming, e) ∷ edges) eset = do
    d ← edge_at moral e
    label ← get_label moral (far_end incoming d)
    rank ← get_vertex_rank_by_label g o label
    eset' ← elim rank [
      | none ↦ ElimSets.add eset label
      | some r ↦ if ltb r i then ElimSets.add eset label else ok eset
    ]
    add_lower i edges eset'

  -- The set of the vertex at `i`: its label, and those of its neighbours that come before it.
  abbrev pub lower_set : VariableOrdering → ℕ → Outcome ElimSet
  lower_set o2 i = do
    v ← read o.vertices i
    label ← get_label g v
    found ← get_vertex moral label
    current ← deref found
    x ← vertex_at moral current
    eset ← ElimSets.add (ElimSets.create o2) x.label
    add_lower i (edges_at x) eset

  -- The sets of the vertices from `i - 1` down, each at its place.
  abbrev pub lower_sets : VariableOrdering → ℕ → ElimSetCollection → Outcome ElimSetCollection
  lower_sets o2 zero ret = ok ret
  lower_sets o2 (suc i) ret = do
    eset ← lower_set o2 i
    ret' ← Collection.add ret eset i
    lower_sets o2 i ret'

  gather_round :
      (i fuel : ℕ) (incoming : Bool) (e : ℕ) (edges : List (Bool × ℕ)) (itr : NeighborItr)
      (eset : ElimSet)
      → get_current moral itr ≡ (edge_at moral e >>= λ d. ok (some (far_end incoming d)))
      → ((eset' : ElimSet)
          → for_neighbors (gather_neighbor g o moral i) fuel moral (advance itr) eset'
            ≡ add_lower i edges eset')
      → for_neighbors (gather_neighbor g o moral i) (suc fuel) moral itr eset
        ≡ add_lower i ((incoming, e) ∷ edges) eset
  unfolding for_neighbors gather_neighbor
  gather_round i fuel incoming e edges itr eset current rest =
      let go_on : ElimSet → Outcome ElimSet =
        λ s. for_neighbors (gather_neighbor g o moral i) fuel moral (advance itr) s in
      let step : Text → Option ℕ → Outcome ElimSet =
        λ label rank. if before rank i then ElimSets.add eset label else ok eset in
      rw current (
        bind_assoc (edge_at moral e) (λ d. ok (some (far_end incoming d))) _
        ∙ bind_ext (edge_at moral e) _ _ (λ d.
          bind_assoc (get_label moral (far_end incoming d))
            (λ label. get_vertex_rank_by_label g o label >>= step label) go_on
          ∙ bind_ext (get_label moral (far_end incoming d)) _ _ (λ label.
            bind_assoc (get_vertex_rank_by_label g o label) (step label) go_on
            ∙ bind_ext (get_vertex_rank_by_label g o label) _ _ (λ rank.
              ap (λ (m : Outcome ElimSet). m >>= go_on)
                (choice rank i (ElimSets.add eset label) (ok eset))
              ∙ bind_ext _ go_on (add_lower i edges) rest))))

  gather_neighbors :
      (i fuel : ℕ) (ins outs : List (Text × ℕ)) (eset : ElimSet)
      → length (incident ins outs) < fuel
      → for_neighbors
          (gather_neighbor g o moral i)
          fuel
          moral
          (record { cur_out = outs; cur_in = ins })
          eset
        ≡ add_lower i (incident ins outs) eset
  unfolding for_neighbors
  gather_neighbors i zero ins outs eset lt = absurd (omega arith)
  gather_neighbors i (suc fuel) [] [] eset lt = refl
  gather_neighbors i (suc fuel) [] ((l, e) ∷ outs) eset lt =
      gather_round i fuel false e (incident [] outs)
        (record { cur_out = (l, e) ∷ outs; cur_in = [] }) eset (get_current_out moral l e outs)
        (λ eset'. gather_neighbors i fuel [] outs eset' (omega arith))
  gather_neighbors i (suc fuel) ((l, e) ∷ ins) outs eset lt =
      gather_round i fuel true e (incident ins outs)
        (record { cur_out = outs; cur_in = (l, e) ∷ ins }) eset (get_current_in moral l e ins outs)
        (λ eset'. gather_neighbors i fuel ins outs eset' (omega arith))

  gather_at :
      (o2 : VariableOrdering) (fuel i current : ℕ) (x : Option (Vertex A))
      → HasFuel fuel moral
      → get_elem? moral.vertex_store current ≡ x
      → (do
        label' ← get_label moral current
        eset ← ElimSets.add (ElimSets.create o2) label'
        itr ← get_neighbor_itr moral current
        for_neighbors (gather_neighbor g o moral i) fuel moral itr eset)
        ≡ (do
          x ← vertex_at moral current
          eset ← ElimSets.add (ElimSets.create o2) x.label
          add_lower i (edges_at x) eset)
  unfolding get_neighbor_itr
  gather_at o2 fuel i current none room e = rw e
  gather_at o2 fuel i current (some x) room e = rw e (
      bind_ext (ElimSets.add (ElimSets.create o2) x.label) _ _
        (λ eset. gather_neighbors i fuel x.inedges.first x.outedges.first eset (room current x e)))

  gather_set_lem :
      (o2 : VariableOrdering) (fuel i : ℕ)
      → HasFuel fuel moral
      → gather_set g o o2 fuel moral i ≡ lower_set o2 i
  unfolding gather_set
  gather_set_lem o2 fuel i room = bind_ext (read o.vertices i) _ _ (λ v.
      bind_ext (get_label g v) _ _ (λ label. bind_ext (get_vertex moral label) _ _ (λ found.
        bind_ext (deref found) _ _ (λ current.
          gather_at o2 fuel i current (get_elem? moral.vertex_store current) room refl))))

  gather_loop_lem :
      (blank_edge : B) (o2 : VariableOrdering) (fuel i : ℕ) (ret : ElimSetCollection)
      → HasFuel (suc fuel) moral
      → gather_loop g o blank_edge o2 (suc fuel) i moral ret
        ≡ (lower_sets o2 i ret >>= λ esc. ok (moral, esc))
  unfolding gather_loop connect_all
  gather_loop_lem blank_edge o2 fuel zero ret room = refl
  gather_loop_lem blank_edge o2 fuel (suc i) ret room = rw (gather_set_lem o2 (suc fuel) i room) (
      bind_ext (lower_set o2 i) _ _ (λ eset.
        rw (get_vertex_list_lem moral fuel eset) (
          bind_ext (Collection.add ret eset i) _ _
            (λ ret'. gather_loop_lem blank_edge o2 fuel i ret' room))
        ∙ sym (
            bind_assoc (Collection.add ret eset i) (λ ret'. lower_sets o2 i ret')
              (λ esc. ok (moral, esc))))
      ∙ sym (
          bind_assoc (lower_set o2 i)
            (λ eset. Collection.add ret eset i >>= λ ret'. lower_sets o2 i ret')
            (λ esc. ok (moral, esc))))

  -- `GatherElimSets` does not triangulate: for every graph and ordering, with fuel for the edges at
  -- each vertex, it leaves the moral graph as it is, and what it returns, faults included, are the
  -- sets that the vertices and their neighbours of lower rank, or of none, make in that graph.
  pub gather_elim_sets_lem :
      (blank_edge : B) (fresh : ℕ → List (Option ElimSet)) (fuel : ℕ) (o2 : VariableOrdering)
      → HasFuel (suc fuel) moral
      → gather_elim_sets g o blank_edge fresh (suc fuel) moral o2
        ≡ (lower_sets o2 o.size (Collection.create fresh o.size) >>= λ esc. ok (moral, esc))
  unfolding gather_elim_sets
  gather_elim_sets_lem blank_edge fresh fuel o2 room =
      gather_loop_lem blank_edge o2 fuel o.size (Collection.create fresh o.size) room

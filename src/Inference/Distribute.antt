-- ===== src/Inference/Distribute.antt =====
-- `Vertex_DistributeEvidence` stops at the neighbours of the vertex where it starts.
use junction_box.Base.{
  ℕ, zero, suc, ◌<◌, ◌≤◌, Bool, true, false, List, [], ◌∷◌, length, get_elem?, if◌then◌else◌, ◌≡◌,
  refl, sym, ap, ◌∙◌, arith, Option, none, some, Outcome, ok, ◌>>=◌, bind_ext, bind_assoc, deref,
}
use junction_box.CString.{Text}
use junction_box.Graph.{Vertex, edge_at}
use junction_box.Graph.Incident.{edges_at, incident, far_end, get_current_in, get_current_out}
use junction_box.Graph.Walks.{NeighborItr, get_neighbor_itr, get_current, get_current_edge, advance}
use junction_box.Inference.{Clique, ElimTree, Mode, message_pass}
use junction_box.Inference.VertexSets
use junction_box.Inference.VertexSets.{VertexSet, contains_vertex}
use junction_box.Inference.Evidence.{State, visit_loop, send, distribute}
use junction_box.Inference.Exhausted.{visit_loop_end, visit_loop_done}

module _ {N : Type 0} (mode : Mode N) (fresh : ℕ → List ℕ) (fresh_numbers : ℕ → List N) where
  -- The second loop does nothing.
  first_loop_only :
      (fuel : ℕ) (tree : ElimTree N) (marks : VertexSet) (this : ℕ)
      → distribute mode fresh fresh_numbers (suc fuel) (tree, marks) this ≡ (
          VertexSets.add marks this >>= λ marks'. get_neighbor_itr tree this >>= λ itr.
          visit_loop (send mode fresh fresh_numbers this) (suc fuel) itr (tree, marks')
          >>= λ (s, _). ok s)
  unfolding distribute
  first_loop_only fuel tree marks this = bind_ext (VertexSets.add marks this) _ _ (λ marks'.
      bind_ext (get_neighbor_itr tree this) _ _ (λ itr.
        visit_loop_end (send mode fresh fresh_numbers this) (suc fuel) itr (tree, marks') _ _
          (λ (tree', marks'') itr' done. rw (
            visit_loop_done (λ s nghbr _. distribute mode fresh fresh_numbers fuel s nghbr) fuel
              itr' tree' marks'' done))))

  module _ (this : ℕ) where
    -- A message from the vertex to the other end of each of the edges, in order, unless it is marked.
    abbrev pub pass_over : VertexSet → List (Bool × ℕ) → ElimTree N → Outcome (ElimTree N)
    pass_over marks [] tree = ok tree
    pass_over marks ((incoming, e) ∷ edges) tree = do
      d ← edge_at tree e
      marked ← contains_vertex marks (far_end incoming d)
      let message = message_pass mode fresh fresh_numbers tree (far_end incoming d) this e
      tree' ← (if marked then ok tree else message)
      pass_over marks edges tree'

    -- A run of the loop, without its iterator.
    abbrev sends : ℕ → NeighborItr → VertexSet → ElimTree N → Outcome (State N)
    sends fuel itr marks tree =
        visit_loop (send mode fresh fresh_numbers this) fuel itr (tree, marks) >>= λ (s, _). ok s

    passes : VertexSet → List (Bool × ℕ) → ElimTree N → Outcome (State N)
    passes marks edges tree = pass_over marks edges tree >>= λ tree'. ok (tree', marks)

    send_or_not :
        (marks : VertexSet) (tree : ElimTree N) (n e : ℕ) (marked : Bool)
        (run : State N → Outcome (State N))
        → ((if marked
              then ok (tree, marks)
              else send mode fresh fresh_numbers this (tree, marks) n e)
            >>= run)
          ≡ ((if marked then ok tree else message_pass mode fresh fresh_numbers tree n this e)
              >>= λ tree'. run (tree', marks))
    send_or_not marks tree n e true run = refl
    send_or_not marks tree n e false run =
        bind_assoc (message_pass mode fresh fresh_numbers tree n this e)
          (λ tree'. ok (tree', marks)) run

    -- A round of the description, with what follows it.
    passes_round :
        (incoming : Bool) (e : ℕ) (edges : List (Bool × ℕ)) (marks : VertexSet) (tree : ElimTree N)
        → passes marks ((incoming, e) ∷ edges) tree ≡ (do
          d ← edge_at tree e
          marked ← contains_vertex marks (far_end incoming d)
          tree' ←
              (if marked
                then ok tree
                else message_pass mode fresh fresh_numbers tree (far_end incoming d) this e)
          passes marks edges tree')
    unfolding passes
    passes_round incoming e edges marks tree =
        let end : ElimTree N → Outcome (State N) = λ tree'. ok (tree', marks) in
        bind_assoc (edge_at tree e) _ end
        ∙ bind_ext (edge_at tree e) _ _ (λ d.
          bind_assoc (contains_vertex marks (far_end incoming d)) _ end
          ∙ bind_ext (contains_vertex marks (far_end incoming d)) _ _ (λ marked.
            bind_assoc
              (if marked
                then ok tree
                else message_pass mode fresh fresh_numbers tree (far_end incoming d) this e)
              (pass_over marks edges) end))

    send_round :
        (fuel : ℕ) (incoming : Bool) (e : ℕ) (edges : List (Bool × ℕ)) (itr : NeighborItr)
        (marks : VertexSet) (tree : ElimTree N)
        → get_current tree itr ≡ (edge_at tree e >>= λ d. ok (some (far_end incoming d)))
        → get_current_edge itr ≡ some e
        → ((tree' : ElimTree N) → sends fuel (advance itr) marks tree' ≡ passes marks edges tree')
        → sends (suc fuel) itr marks tree ≡ passes marks ((incoming, e) ∷ edges) tree
    unfolding visit_loop
    send_round fuel incoming e edges itr marks tree current edge rest =
        let first : State N × NeighborItr → Outcome (State N) = λ (s, _). ok s in
        let go_on : State N → Outcome (State N × NeighborItr) =
          visit_loop (send mode fresh fresh_numbers this) fuel (advance itr) in
        let step : Option ℕ → ℕ → Bool → Outcome (State N) = λ q n marked.
          if marked
          then ok (tree, marks)
          else (deref q >>= λ e. send mode fresh fresh_numbers this (tree, marks) n e) in
        let body : Option ℕ → Option ℕ → Outcome (State N × NeighborItr) = λ q c. elim c [
          | none ↦ ok ((tree, marks), itr)
          | some n ↦ contains_vertex marks n >>= λ marked. step q n marked >>= go_on
        ] in
        let there : Outcome (Option ℕ) = edge_at tree e >>= λ d. ok (some (far_end incoming d)) in
        rw current (
          ap (λ (q : Option ℕ). (there >>= body q) >>= first) edge
          ∙ ap (λ (m : Outcome (State N × NeighborItr)). m >>= first)
              (bind_assoc (edge_at tree e) (λ d. ok (some (far_end incoming d))) (body (some e)))
          ∙ bind_assoc (edge_at tree e) (λ d. body (some e) (some (far_end incoming d))) first
          ∙ bind_ext (edge_at tree e) _ _ (λ d.
            let n = far_end incoming d in
            bind_assoc (contains_vertex marks n) (λ marked. step (some e) n marked >>= go_on) first
            ∙ bind_ext (contains_vertex marks n) _ _ (λ marked.
              bind_assoc (step (some e) n marked) go_on first
              ∙ send_or_not marks tree n e marked (λ s. go_on s >>= first)
              ∙ bind_ext
                  (if marked then ok tree else message_pass mode fresh fresh_numbers tree n this e)
                  _ _ rest))
          ∙ sym (passes_round incoming e edges marks tree))

    sends_lem :
        (fuel : ℕ) (ins outs : List (Text × ℕ)) (marks : VertexSet) (tree : ElimTree N)
        → length (incident ins outs) < fuel
        → sends fuel (record { cur_out = outs; cur_in = ins }) marks tree
          ≡ passes marks (incident ins outs) tree
    unfolding visit_loop passes
    sends_lem zero ins outs marks tree lt = absurd (omega arith)
    sends_lem (suc fuel) [] [] marks tree lt = refl
    sends_lem (suc fuel) [] ((l, e) ∷ outs) marks tree lt =
        send_round fuel false e (incident [] outs) (record { cur_out = (l, e) ∷ outs; cur_in = [] })
          marks tree (get_current_out tree l e outs) refl
          (λ tree'. sends_lem fuel [] outs marks tree' (omega arith))
    sends_lem (suc fuel) ((l, e) ∷ ins) outs marks tree lt =
        send_round fuel true e (incident ins outs)
          (record { cur_out = outs; cur_in = (l, e) ∷ ins }) marks tree
          (get_current_in tree l e ins outs) refl
          (λ tree'. sends_lem fuel ins outs marks tree' (omega arith))

  -- `Vertex_DistributeEvidence` at a vertex of the tree, with fuel for its edges, marks the vertex,
  -- and goes over its edges, the incoming ones before the outgoing ones. Over each edge to a vertex
  -- that is not marked it passes a message, from this vertex to the other. That is all: the second
  -- loop, which is meant to go on from the neighbours, starts with an exhausted iterator, so that
  -- no message is passed from any other vertex. Whatever else the tree is, faults are included.
  pub distribute_lem :
      (fuel : ℕ) (tree : ElimTree N) (marks : VertexSet) (this : ℕ) (x : Vertex (Clique N))
      → get_elem? tree.vertex_store this ≡ some x
      → length (edges_at x) ≤ fuel
      → distribute mode fresh fresh_numbers (suc fuel) (tree, marks) this ≡ (
          VertexSets.add marks this >>= λ marks'.
          pass_over this marks' (edges_at x) tree >>= λ tree'. ok (tree', marks'))
  unfolding get_neighbor_itr passes
  distribute_lem fuel tree marks this x at room =
      first_loop_only fuel tree marks this
      ∙ bind_ext (VertexSets.add marks this) _ _ (λ marks'.
        rw at
          (sends_lem this (suc fuel) x.inedges.first x.outedges.first marks' tree (omega arith)))

-- ===== src/Graph/Incident.antt =====
-- The edges at a vertex, in the order in which the neighbour iterator passes them.
use junction_box.Base.{
  ℕ, Bool, true, false, List, [], ◌∷◌, if◌then◌else◌, ◌≡◌, some, ok, ◌>>=◌, bind_assoc,
}
use junction_box.CString.{Text}
use junction_box.Graph.{Graph, Vertex, Edge, edge_at}
use junction_box.Graph.Walks.{get_current}

-- An edge with whether it comes in.
abbrev pub outgoing : List (Text × ℕ) → List (Bool × ℕ)
outgoing [] = []
outgoing ((_, e) ∷ outs) = (false, e) ∷ outgoing outs

abbrev pub incident : List (Text × ℕ) → List (Text × ℕ) → List (Bool × ℕ)
incident [] outs = outgoing outs
incident ((_, e) ∷ ins) outs = (true, e) ∷ incident ins outs

-- The edges at a vertex: those that come in, then those that go out.
abbrev pub edges_at : {A : Type 0} → Vertex A → List (Bool × ℕ)
edges_at x = incident x.inedges.first x.outedges.first

-- The other end of an edge at a vertex.
abbrev pub far_end : {B : Type 0} → Bool → Edge B → ℕ
far_end incoming d = if incoming then d.src else d.sink

module _ {A B : Type 0} (g : Graph A B) where
  -- The neighbour that the iterator stands at is the other end of its edge.
  pub get_current_in :
      (l : Text) (e : ℕ) (ins outs : List (Text × ℕ))
      → get_current g (record { cur_out = outs; cur_in = (l, e) ∷ ins })
        ≡ (edge_at g e >>= λ d. ok (some (far_end true d)))
  unfolding get_current
  get_current_in l e ins outs = bind_assoc (edge_at g e) (λ d. ok d.src) (λ v. ok (some v))

  pub get_current_out :
      (l : Text) (e : ℕ) (outs : List (Text × ℕ))
      → get_current g (record { cur_out = (l, e) ∷ outs; cur_in = [] })
        ≡ (edge_at g e >>= λ d. ok (some (far_end false d)))
  unfolding get_current
  get_current_out l e outs = bind_assoc (edge_at g e) (λ d. ok d.sink) (λ v. ok (some v))

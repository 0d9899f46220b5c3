-- ===== src/Inference/Exhausted.antt =====
-- The loops over the neighbours of a vertex leave an iterator that has no vertex left.
use junction_box.Base.{
  ℕ, zero, suc, Bool, if◌then◌else◌, ◌≡◌, refl, sym, ◌∙◌, Option, none, some, Outcome, ok, abort,
  fault, ◌>>=◌, bind_ext, bind_assoc, deref,
}
use junction_box.Graph.Walks.{NeighborItr, get_current, get_current_edge, advance}
use junction_box.Inference.{ElimTree}
use junction_box.Inference.VertexSets.{VertexSet, contains_vertex}
use junction_box.Inference.Evidence.{State, visit_loop}

module _ {N : Type 0} where
  -- The iterator has no vertex left.
  abbrev pub Exhausted : State N → NeighborItr → Type 0
  Exhausted (tree, marks) itr = get_current tree itr ≡ ok none

  -- What a round does once it is known whether the neighbour is marked.
  abbrev round :
      (State N → ℕ → ℕ → Outcome (State N))
      → ℕ
      → NeighborItr
      → State N
      → ℕ
      → Bool
      → Outcome (State N)
  round visit fuel itr s nghbr marked =
      if marked then ok s else (deref (get_current_edge itr) >>= λ e. visit s nghbr e)

  abbrev pub AgreeAfter :
      {C : Type 0}
      → (State N × NeighborItr → Outcome C)
      → (State N × NeighborItr → Outcome C)
      → Type 0
  AgreeAfter k k' = (s : State N) (itr : NeighborItr) → Exhausted s itr → k (s, itr) ≡ k' (s, itr)

  -- A round by the neighbour that the iterator stands at.
  round_end :
      {C : Type 0} (visit : State N → ℕ → ℕ → Outcome (State N)) (fuel : ℕ) (itr : NeighborItr)
      (tree : ElimTree N) (marks : VertexSet) (k k' : State N × NeighborItr → Outcome C)
      (o : Outcome (Option ℕ))
      → AgreeAfter k k'
      → ((s : State N)
          → (visit_loop visit fuel (advance itr) s >>= k)
            ≡ (visit_loop visit fuel (advance itr) s >>= k'))
      → get_current tree itr ≡ o
      → (visit_loop visit (suc fuel) itr (tree, marks) >>= k)
        ≡ (visit_loop visit (suc fuel) itr (tree, marks) >>= k')
  unfolding visit_loop
  round_end visit fuel itr tree marks k k' abort same ih e = rw e
  round_end visit fuel itr tree marks k k' fault same ih e = rw e
  round_end visit fuel itr tree marks k k' (ok none) same ih e = rw e (same (tree, marks) itr e)
  round_end {C = C} visit fuel itr tree marks k k' (ok (some nghbr)) same ih e =
      let test = contains_vertex marks nghbr in
      let step : Bool → Outcome (State N) = round visit fuel itr (tree, marks) nghbr in
      let go_on : State N → Outcome (State N × NeighborItr) = visit_loop visit fuel (advance itr) in
      let body : Bool → Outcome (State N × NeighborItr) = λ marked. step marked >>= go_on in
      let after : (f : State N × NeighborItr → Outcome C)
          → ((test >>= body) >>= f) ≡ (test >>= λ marked. step marked >>= λ s. go_on s >>= f) =
        λ f.
          bind_assoc test body f ∙ bind_ext test _ _ (λ marked. bind_assoc (step marked) go_on f) in
      rw e (after k ∙ bind_ext test _ _ (λ marked. bind_ext (step marked) _ _ ih) ∙ sym (after k'))

  -- What follows a loop sees only exhausted iterators.
  pub visit_loop_end :
      {C : Type 0} (visit : State N → ℕ → ℕ → Outcome (State N)) (fuel : ℕ) (itr : NeighborItr)
      (s : State N) (k k' : State N × NeighborItr → Outcome C)
      → AgreeAfter k k'
      → (visit_loop visit fuel itr s >>= k) ≡ (visit_loop visit fuel itr s >>= k')
  unfolding visit_loop
  visit_loop_end visit zero itr s k k' same = refl
  visit_loop_end visit (suc fuel) itr (tree, marks) k k' same =
      round_end visit fuel itr tree marks k k' (get_current tree itr) same
        (λ s. visit_loop_end visit fuel (advance itr) s k k' same) refl

  -- A loop that starts exhausted does nothing.
  pub visit_loop_done :
      (visit : State N → ℕ → ℕ → Outcome (State N)) (fuel : ℕ) (itr : NeighborItr)
      (tree : ElimTree N) (marks : VertexSet)
      → Exhausted (tree, marks) itr
      → visit_loop visit (suc fuel) itr (tree, marks) ≡ ok ((tree, marks), itr)
  unfolding visit_loop
  visit_loop_done visit fuel itr tree marks e = rw e

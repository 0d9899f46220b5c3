-- ===== src/Graph/Printers.antt =====
-- src/components/JB_Graph/JB_Graph.c: the printers for the contents of the maps of a graph.
use junction_box.Base.{
  ℕ, ◌+◌, List, [], ◌∷◌, ◌++◌, ◌≡◌, refl, arith, length, length-append, Option, none, some,
  get_elem?, deref, Outcome, ok, fault, ◌>>=◌,
}
use junction_box.CString.{Text, strlen, put}
use junction_box.CString.Laws.{put_overflow}
use junction_box.Graph.{Graph, get_label, get_src_sink}

-- `sprintf(ret, "%s \t %s\n", id, name)` into a new block.
unfoldable pub print_pair : (ℕ → List ℕ) → Text → Text → Outcome (List ℕ)
unfolding put
print_pair fresh id name =
    put (id ++ 32 ∷ 9 ∷ 32 ∷ (name ++ 10 ∷ 0 ∷ [])) (fresh (strlen id + strlen name + 4))

module _ {A B : Type 0} (fresh : ℕ → List ℕ) (g : Graph A B) where
  unfoldable pub vertex_content_printer : Text × ℕ → Outcome (List ℕ)
  unfolding print_pair
  vertex_content_printer (id, v) = get_label g v >>= λ vertex_name. print_pair fresh id vertex_name

  unfoldable pub edge_content_printer : Text × ℕ → Outcome (List ℕ)
  unfolding print_pair
  edge_content_printer (id, e) = get_src_sink g e >>= λ src_sink. print_pair fresh id src_sink

print_pair_overflow :
    (fresh : ℕ → List ℕ) (id name : Text)
    → ((n : ℕ) → length (fresh n) ≡ n)
    → print_pair fresh id name ≡ fault
unfolding print_pair
print_pair_overflow fresh id name fits =
    put_overflow (id ++ 32 ∷ 9 ∷ 32 ∷ (name ++ 10 ∷ 0 ∷ [])) (fresh (length id + length name + 4)) (
      let sizes : length (32 ∷ 9 ∷ 32 ∷ (name ++ 10 ∷ 0 ∷ [])) ≡ length name + 5 =
        omega (arith, length-append name (10 ∷ 0 ∷ [])) in
      omega (
        arith,
        fits (length id + length name + 4),
        length-append id (32 ∷ 9 ∷ 32 ∷ (name ++ 10 ∷ 0 ∷ [])),
        sizes,
      ))

deref_fault :
    {C D E : Type 0} (o : Option C) (f : C → D) (run : D → Outcome E)
    → ((d : D) → run d ≡ fault)
    → ((deref o >>= λ c. ok (f c)) >>= run) ≡ fault
deref_fault none f run h = refl
deref_fault (some c) f run h = h (f c)

-- The two printers write past the end of their block, which is one byte short, for every element
-- of a map: they never return a text.
pub content_printers-fault :
    {A B : Type 0} (fresh : ℕ → List ℕ) (g : Graph A B) (id : Text) (place : ℕ)
    → ((n : ℕ) → length (fresh n) ≡ n)
    → (vertex_content_printer fresh g (id, place) ≡ fault)
      × (edge_content_printer fresh g (id, place) ≡ fault)
unfolding vertex_content_printer edge_content_printer
content_printers-fault fresh g id place fits = (
  deref_fault (get_elem? g.vertex_store place) (λ x. x.label) (print_pair fresh id)
      (λ t. print_pair_overflow fresh id t fits),
  deref_fault (get_elem? g.edge_store place) (λ x. x.src_sink) (print_pair fresh id)
      (λ t. print_pair_overflow fresh id t fits),
)

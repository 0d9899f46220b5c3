-- ===== src/JunctionTree.antt =====
-- src/components/JB_JunctionTree/JB_JunctionTree.c: orderings of the vertices of a graph. The
-- children model the rest of the file: elimination sets are in ElimSets.
pub mod Collection
pub mod Moral
pub mod Married
pub mod Moralized
pub mod Gather
pub mod Tree
use junction_box.Base.{
  ℕ, zero, suc, ◌+◌, Bool, true, false, List, [], ◌∷◌, ◌++◌, map, ◌==◌, if◌then◌else◌, Option, none,
  some, length, Outcome, ok, fault, ◌>>=◌, read, read_all, write,
}
use junction_box.CString.{Text, text_eq, strcat_all, spaced}
use junction_box.CString.Join.{total}
use junction_box.Graph.{Graph, get_label, get_fst_vertex}
use junction_box.Graph.Walks.{for_vertices}

-- `vertices` is an array of `size` pointers.
pub record VertexOrdering : Type 0 where
  pub size : ℕ
  pub vertices : List ℕ

-- `for (i = 0, itr = first; i < size && itr != NULL; …) vertices[i] = …`; the second result is `i`
-- at the end.
unfoldable pub fill_loop : ℕ → ℕ → List ℕ → List ℕ → Outcome (List ℕ × ℕ)
fill_loop zero i nodes vertices = ok (vertices, i)
fill_loop (suc left) i [] vertices = ok (vertices, i)
fill_loop (suc left) i (v ∷ nodes) vertices = do
  vertices' ← write vertices i v
  fill_loop left (i + 1) nodes vertices'

-- `VertexOrdering_Create`, for a list of the given size; `fresh` is the content of a new array, and
-- the second result says whether the size was found wrong.
unfoldable pub ordering_create : (ℕ → List ℕ) → ℕ → List ℕ → Outcome (VertexOrdering × Bool)
unfolding fill_loop
ordering_create fresh size nodes = do
  (vertices, i) ← fill_loop size 0 nodes (fresh size)
  ok (record { size = size; vertices = vertices }, if i == size then false else true)

-- `defaultVertexOrdering`
unfoldable pub default_vertex_ordering :
    {A B : Type 0} → (ℕ → List ℕ) → ℕ → Graph A B → Outcome VertexOrdering
unfolding for_vertices ordering_create
default_vertex_ordering fresh fuel g = do
  l ← for_vertices (λ l cur. ok (l ++ cur ∷ [])) fuel g (get_fst_vertex g) []
  (ret, _) ← ordering_create fresh (length l) l
  ok ret

unfoldable pub labels_of : {A B : Type 0} → Graph A B → List ℕ → Outcome (List Text)
labels_of g [] = ok []
labels_of g (v ∷ vs) = do l ← get_label g v; rest ← labels_of g vs; ok (l ∷ rest)

unfoldable pub ordering_to_string :
    {A B : Type 0} → (ℕ → List ℕ) → Graph A B → VertexOrdering → Outcome (List ℕ)
ordering_to_string fresh g this = do
  vertices ← read_all this.size this.vertices
  labels ← labels_of g vertices
  let words = spaced labels
  ret ← write (fresh (total words + 1)) 0 0
  strcat_all ret words

-- The linear search of the two functions below, with `left` rounds left; `none` is -1.
unfoldable pub rank_loop : (ℕ → Outcome Bool) → ℕ → ℕ → List ℕ → Outcome (Option ℕ)
rank_loop hit zero ret vertices = ok none
rank_loop hit (suc left) ret vertices = do
  v ← read vertices ret
  found ← hit v
  let rest = rank_loop hit left (ret + 1) vertices
  if found then ok (some ret) else rest

unfoldable pub get_vertex_rank : VertexOrdering → ℕ → Outcome (Option ℕ)
unfolding rank_loop
get_vertex_rank this v = rank_loop (λ w. ok (w == v)) this.size 0 this.vertices

-- The vertices of the ordering are those of `g`.
unfoldable pub get_vertex_rank_by_label :
    {A B : Type 0} → Graph A B → VertexOrdering → Text → Outcome (Option ℕ)
unfolding rank_loop
get_vertex_rank_by_label g this c =
    rank_loop (λ w. get_label g w >>= λ l. ok (text_eq l c)) this.size 0 this.vertices

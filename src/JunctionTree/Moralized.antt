-- ===== src/JunctionTree/Moralized.antt =====
-- `MoralGraph` as a whole.
use junction_box.Base.{
  ℕ, ◌≤◌, ◌||◌, Bool, false, List, [], ◌∷◌, ◌++◌, map, ◌≡◌, refl, sym, ap, ◌∙◌, Option, none, some,
  get_elem?, append_snoc, All, Outcome, ok, ◌>>=◌, bind_assoc,
}
use junction_box.CString.{Text}
use junction_box.AssocMap.StringMap.{StringMap}
use junction_box.Graph.{Graph, Vertex, set_directed}
use junction_box.Graph.Walks.{for_parents, get_fst_parent}
use junction_box.Graph.Valid.{find, is_some, IsGraph}
use junction_box.Graph.Chains.{find-Split, run_chain, for_vertices_lem, for_parents_lem, src_of}
use junction_box.Graph.CopiedEdges.{parent_of}
use junction_box.Graph.Copies.{copy_lem}
use junction_box.JunctionTree.Moral.{marry, moralize, moral_graph}
use junction_box.JunctionTree.Married.{
  pair_edge, IsMarried, IsMarried-self, IsMarried-then, label_at, HasAll, HasAll-same, IsVertex,
  marry_lem,
}

append_nil : {C : Type 0} (xs : List C) → (xs ++ []) ≡ xs
append_nil [] = refl
append_nil {C = C} (x ∷ xs) = ap (λ (l : List C). x ∷ l) (append_nil xs)

module _ {A B : Type 0} (imm : Graph A B) where
  -- The places of the parents in a map of incoming edges.
  abbrev pub sources : List (Text × ℕ) → List ℕ
  sources [] = []
  sources ((k, e) ∷ chain) = src_of imm.edge_store e ∷ sources chain

  abbrev pub parents_or : Option (Vertex A) → List ℕ
  parents_or none = []
  parents_or (some x) = sources x.inedges.first

  -- Whether a label joins two parents of the vertex, and whether it does so for one of a chain.
  abbrev pub married_at : ℕ → Text → Bool
  married_at v = pair_edge (map (label_at imm) (parents_or (get_elem? imm.vertex_store v)))

  abbrev pub any_married : List (Text × ℕ) → Text → Bool
  any_married [] k = false
  any_married ((l, v) ∷ chain) k = married_at v k || any_married chain k

  -- The list of the parents.
  abbrev gather_parent : List ℕ → ℕ → Outcome (List ℕ)
  gather_parent parents p = ok (parents ++ p ∷ [])

  gather_run :
      (chain : List (Text × ℕ)) (seen : List ℕ)
      → run_chain (λ s e. gather_parent s (src_of imm.edge_store e)) chain seen
        ≡ ok (seen ++ sources chain)
  unfolding run_chain
  gather_run [] seen = ap (λ (l : List ℕ). ok l) (sym (append_nil seen))
  gather_run ((k, e) ∷ chain) seen =
      gather_run chain (seen ++ src_of imm.edge_store e ∷ [])
      ∙ ap (λ (l : List ℕ). ok l) (append_snoc seen (src_of imm.edge_store e) (sources chain))

module _ {A B : Type 0} (blank : A) (blank_edge : B) (imm : Graph A B) (h : IsGraph imm) where
  sources_there :
      (v : ℕ) (x : Vertex A) (at : get_elem? imm.vertex_store v ≡ some x)
      (before rest : List (Text × ℕ))
      → x.inedges.first ≡ before ++ rest
      → All (IsVertex imm) (sources imm rest)
  sources_there v x at before [] split = tt
  sources_there v x at before ((k, e) ∷ rest) split =
      let f = find-Split x.inedges before rest k e (h.incoming v x at).0 split in
      let (p, there, _, _) = parent_of blank blank_edge imm h v x at k e f in
      (
        (p, there),
        sources_there v x at (before ++ (k, e) ∷ []) rest
            (split ∙ sym (append_snoc before (k, e) rest)),
      )

  module _ (fuel : ℕ)
      (room : (v : ℕ) (x : Vertex A)
        → get_elem? imm.vertex_store v ≡ some x
        → x.inedges.size ≤ fuel) where
    moralize_lem :
        (g : Graph A B) (l : Text) (v : ℕ)
        → IsGraph g
        → HasAll imm g
        → find l imm.vertices ≡ some v
        → IsMarried g (married_at imm v) (moralize blank_edge imm fuel g v)
    unfolding moralize
    moralize_lem g l v k all f =
        let (x, at, _) = h.vertex_there l v f in
        let ps = sources imm x.inedges.first in
        let one =
          marry_lem blank_edge imm h ps g k all (sources_there v x at [] x.inedges.first refl) in
        let gathers : (get_fst_parent imm v >>= λ fst.
        for_parents (gather_parent imm) fuel imm v fst [])
            ≡ ok ps =
          for_parents_lem (gather_parent imm) imm h v x at fuel [] (room v x at)
          ∙ gather_run imm x.inedges.first [] in
        let run : moralize blank_edge imm fuel g v ≡ marry blank_edge imm ps g =
          sym (
            bind_assoc (get_fst_parent imm v)
              (λ fst. for_parents (gather_parent imm) fuel imm v fst [])
              (λ parents. marry blank_edge imm parents g))
          ∙ ap (λ (o : Outcome (List ℕ)). o >>= λ parents. marry blank_edge imm parents g)
              gathers in
        record {
          graph = one.graph;
          returns = run ∙ one.returns;
          valid = one.valid;
          vertices = one.vertices;
          kept = one.kept;
          joined = λ j. rw at (one.joined j);
          directed = one.directed;
        }

    vertices_run :
        (before rest : List (Text × ℕ)) (g : Graph A B)
        → imm.vertices.first ≡ before ++ rest
        → IsGraph g
        → HasAll imm g
        → IsMarried g (any_married imm rest) (run_chain (moralize blank_edge imm fuel) rest g)
    unfolding run_chain
    vertices_run before [] g split k all = IsMarried-self g k
    vertices_run before ((l, v) ∷ rest) g split k all =
        let one =
          moralize_lem g l v k all (find-Split imm.vertices before rest l v h.vertex_map split) in
        let two =
          vertices_run (before ++ (l, v) ∷ []) rest one.graph
            (split ∙ sym (append_snoc before (l, v) rest)) one.valid
            (HasAll-same imm g one.graph one.vertices all) in
        IsMarried-then g (married_at imm v) (any_married imm rest)
          (moralize blank_edge imm fuel g v) (run_chain (moralize blank_edge imm fuel) rest) one two

  turned-IsGraph : (g : Graph A B) → IsGraph g → IsGraph (set_directed g false)
  turned-IsGraph g k = record {
    vertex_map = k.vertex_map;
    edge_map = k.edge_map;
    registered = k.registered;
    vertex_there = k.vertex_there;
    edge_there = k.edge_there;
    outgoing = k.outgoing;
    incoming = k.incoming;
  }

  -- `MoralGraph` of a well-formed graph succeeds, with fuel for its vertices and for the incoming
  -- edges of each. The moral graph is well-formed and undirected, has the same labels of vertices,
  -- and its edges are those of the graph and one from each parent of a vertex to each parent that
  -- the map of the incoming edges has behind it.
  pub moral_graph_lem :
      (fuel : ℕ)
      → ((v : ℕ) (x : Vertex A) → get_elem? imm.vertex_store v ≡ some x → x.inedges.size ≤ fuel)
      → imm.vertices.size ≤ fuel
      → (g : Graph A B) × (moral_graph blank blank_edge fuel imm ≡ ok g)
        × IsGraph g
        × (g.directed ≡ false)
        × ((l : Text) → is_some (find l g.vertices) ≡ is_some (find l imm.vertices))
        × ((k : Text)
            → is_some (find k g.edges)
              ≡ (any_married imm imm.vertices.first k || is_some (find k imm.edges)))
  unfolding moral_graph
  moral_graph_lem fuel room size =
      let (ret, copies, valid, _, names, joins) = copy_lem blank blank_edge imm h fuel room size in
      let start = set_directed ret false in
      let run =
        vertices_run fuel room [] imm.vertices.first start refl (turned-IsGraph ret valid)
          (λ l known. names l ∙ known) in
      let loop =
        for_vertices_lem (moralize blank_edge imm fuel) imm h fuel start size ∙ run.returns in
      (
        run.graph,
        rw (copies, loop),
        run.valid,
        run.directed,
        λ l. ap (λ (m : StringMap ℕ). is_some (find l m)) run.vertices ∙ names l,
        λ k. run.joined k ∙ ap (λ (b : Bool). any_married imm imm.vertices.first k || b) (joins k),
      )

-- ===== src/Graph/CopiedEdges.antt =====
-- One vertex of `Graph_Copy`: its incoming edges are copied.
use junction_box.Base.{
  ℕ, ◌⊎◌, true, List, [], ◌∷◌, ◌++◌, ◌≡◌, refl, sym, ap, ◌∙◌, arith, inl, inr, Bool-cases, ◌==◌,
  some, get_elem?, append_snoc,
}
use junction_box.CString.{Text, text_eq}
use junction_box.CString.Laws.{text_eq_iff}
use junction_box.AssocMap.Laws.{lookup}
use junction_box.AssocMap.Keys.{text_keys}
use junction_box.Graph.{Graph, Vertex, key}
use junction_box.Graph.Walks.{copy_parent}
use junction_box.Graph.Valid.{find, is_some, restrict-some, ends, IsGraph}
use junction_box.Graph.Chains.{find-Split, run_chain, src_of}
use junction_box.Graph.Parts.{IsWider-self, IsWider-trans, IsPart, IsStep, add_name, add_join}

-- A key of a chain is the first one or one of the others.
pub first_or_other :
    (k K : Text) (v w : ℕ) (rest : List (Text × ℕ))
    → lookup text_keys K ((k, v) ∷ rest) ≡ some w
    → ((k ≡ K) × (v ≡ w)) ⊎ (lookup text_keys K rest ≡ some w)
unfolding lookup
first_or_other k K v w rest e = elim (Bool-cases (text_eq k K)) [
  | inl hit ↦ let same : some v ≡ some w = sym (rw hit) ∙ e in inl ((text_eq_iff k K).0 hit, cc)
  | inr miss ↦ inr (sym (rw miss) ∙ e)
]

module _ {A B : Type 0} (blank : A) (blank_edge : B) (this : Graph A B) (h : IsGraph this) where
  module _ (v : ℕ) (x : Vertex A) (at : get_elem? this.vertex_store v ≡ some x) where
    -- What the map of incoming edges has.
    pub parent_of :
        (k : Text) (e : ℕ)
        → find k x.inedges ≡ some e
        → (p : Vertex A) × (get_elem? this.vertex_store (src_of this.edge_store e) ≡ some p)
          × (key p.label x.label ≡ k)
          × (is_some (find k this.edges) ≡ true)
    parent_of k e f =
        let (in_graph, ends_here) =
          restrict-some (ends this.edge_store v) (find k this.edges) e
            (sym f ∙ (h.incoming v x at).1 k) in
        let (d, there, l, j) = h.edge_there k e in_graph in
        let is : d.sink ≡ v =
          let q : ends this.edge_store v e ≡ (d.sink == v) = rw there in ground arith in
        let head : j.head ≡ x =
          let q = ap (λ (u : ℕ). get_elem? this.vertex_store u) is in let a = j.head_at in cc in
        (
          j.tail,
          rw there j.tail_at,
          ap (λ (z : Vertex A). key j.tail.label z.label) (sym head) ∙ sym j.labelled ∙ l,
          ap is_some in_graph,
        )

    -- One round of the inner loop.
    pub copy_parent_lem :
        (g : Graph A B) (cur_f : ℕ) (y : Vertex A) (k : Text) (e : ℕ)
        → IsPart this h g
        → get_elem? g.vertex_store cur_f ≡ some y
        → y.label ≡ x.label
        → find k x.inedges ≡ some e
        → IsStep this h g
            (λ g'. is_some (find k g'.edges) ≡ true)
            (copy_parent blank blank_edge this cur_f g (src_of this.edge_store e))
    unfolding copy_parent
    copy_parent_lem g cur_f y k e part at_f label f =
        let (p, at_p, labelled, known) = parent_of k e f in
        let (g₁, u, z, adds, part₁, wider₁, at_u, label_u, _) =
          add_name this h blank g p.label part
            (ap is_some (h.registered (src_of this.edge_store e) p at_p)) in
        let (y', at_f', label') = wider₁.kept cur_f y at_f in
        let (g₂, c, joins, part₂, wider₂, there) =
          add_join this h blank_edge g₁ u cur_f z y' k part₁ at_u at_f'
            (rw (label_u, label', label) labelled) known in
        record {
          graph = g₂;
          returns = rw (at_p, adds, joins);
          part = part₂;
          wider = IsWider-trans g g₁ g₂ wider₁ wider₂;
          holds = there;
        }

    -- The inner loop: every incoming edge is copied.
    pub parents_run :
        (cur_f : ℕ) (before rest : List (Text × ℕ)) (g : Graph A B) (y : Vertex A)
        → x.inedges.first ≡ before ++ rest
        → IsPart this h g
        → get_elem? g.vertex_store cur_f ≡ some y
        → y.label ≡ x.label
        → IsStep this h g
            (λ g'.
              (K : Text) (w : ℕ)
              → lookup text_keys K rest ≡ some w
              → is_some (find K g'.edges) ≡ true)
            (run_chain
              (λ s e. copy_parent blank blank_edge this cur_f s (src_of this.edge_store e))
              rest
              g)
    unfolding run_chain lookup
    parents_run cur_f before [] g y split part at_f label = record {
      graph = g;
      returns = refl;
      part = part;
      wider = IsWider-self g;
      holds = λ K w e. cc;
    }
    parents_run cur_f before ((k, e) ∷ rest) g y split part at_f label =
        let f = find-Split x.inedges before rest k e (h.incoming v x at).0 split in
        let one = copy_parent_lem g cur_f y k e part at_f label f in
        let (y', at_f', label') = one.wider.kept cur_f y at_f in
        let more =
          parents_run cur_f (before ++ (k, e) ∷ []) rest one.graph y'
            (split ∙ sym (append_snoc before (k, e) rest)) one.part at_f' (label' ∙ label) in
        record {
          graph = more.graph;
          returns = rw one.returns more.returns;
          part = more.part;
          wider = IsWider-trans g one.graph more.graph one.wider more.wider;
          holds = λ K w there. elim (first_or_other k K e w rest there) [
            | inl (is, _) ↦
                ap (λ (t : Text). is_some (find t more.graph.edges)) (sym is)
                ∙ more.wider.joins k one.holds
            | inr later ↦ more.holds K w later
          ];
        }

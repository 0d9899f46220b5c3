-- ===== src/Inference/FirstClique.antt =====
-- One table of a network, and the first clique that has its variables, with an empty memo.
use junction_box.Base.{
  ℕ, ◌+◌, ◌<◌, Bool, true, false, Bool-cases, inl, inr, List, [], ◌∷◌, ◌++◌, ◌≡◌, refl, sym, ap,
  ◌∙◌, Option, some, length, length_snoc, append_snoc, get_elem?, get_elem?-append_mid, set, get_or,
  All, ok,
}
use junction_box.AssocMap
use junction_box.AssocMap.BitVectorMap
use junction_box.AssocMap.BitVectorMap.{BitVectorMap}
use junction_box.Variables.{VariableOrdering}
use junction_box.VariableSet.{VariableSet, contained_in}
use junction_box.VariableSet.Members.{IsVariableSet, members}
use junction_box.VariableSet.Ops.{contained_in_lem}
use junction_box.MulInds.{MulInd, compute_marg_ind, get_marg_ind, memo_get}
use junction_box.MulInds.Difference.{Contained}
use junction_box.MulInds.Assignments.{InRange, index_of}
use junction_box.Potentials.{Pot}
use junction_box.Potentials.Sizes.{IsPot}
use junction_box.Potentials.Absorbed.{product_marg-entries}
use junction_box.Graph.{Vertex, annotate_vertex}
use junction_box.Inference.{Clique, ElimTree, Mode}
use junction_box.Inference.Initialize.{absorb, first_clique}

-- The tree in which a vertex has another potential and memo.
abbrev pub absorbed :
    {N : Type 0}
    → ElimTree N
    → ℕ
    → Vertex (Clique N)
    → Pot N
    → BitVectorMap (Option MulInd)
    → ElimTree N
absorbed tree v x q memo = record tree {
  vertex_store =
      set tree.vertex_store v
        (record x { annotation = record x.annotation { pot = some q; marg_memo = memo } });
}

-- A clique that lacks a variable of the table.
abbrev pub IsSkipped : {N : Type 0} → ElimTree N → VariableSet → ℕ → Type 0
IsSkipped {N = N} tree vbls v =
    (x : Vertex (Clique N)) × (q : Pot N) × (get_elem? tree.vertex_store v ≡ some x)
    × (x.annotation.pot ≡ some q)
    × IsVariableSet q.vbls
    × (q.vbls.bv.size ≡ vbls.bv.size)
    × ¬ Contained vbls q.vbls

module _ {N : Type 0} (mode : Mode N) (fresh : ℕ → List ℕ) where
  first_marg :
      (vbls target : VariableSet) (mi : Option MulInd)
      → compute_marg_ind fresh vbls target ≡ ok mi
      → get_marg_ind fresh BitVectorMap.create vbls target
        ≡ ok (record { first = (target.bv, mi) ∷ []; size = 0 + 1 }, mi)
  unfolding get_marg_ind memo_get AssocMap.add AssocMap.get BitVectorMap.add BitVectorMap.get
  first_marg vbls target mi e = rw e

  absorb_lem :
      (p q : Pot N) (tree : ElimTree N) (v : ℕ) (x : Vertex (Clique N))
      → ((n : ℕ) → length (fresh n) ≡ n)
      → IsPot p
      → IsPot q
      → p.vbls.o ≡ q.vbls.o
      → Contained p.vbls q.vbls
      → 0 < length (members p.vbls)
      → get_elem? tree.vertex_store v ≡ some x
      → x.annotation.pot ≡ some q
      → x.annotation.marg_memo ≡ BitVectorMap.create
      → (q' : Pot N) × (memo : BitVectorMap (Option MulInd)) × (absorb mode fresh p tree v
          ≡ ok (absorbed tree v x q' memo))
        × IsPot q'
        × (q'.vbls ≡ q.vbls)
        × ((a : List ℕ) (d : N)
            → InRange q.vbls.o a
            → get_or q'.tab_data (index_of q.vbls a) d
              ≡ mode.times
                  (get_or p.tab_data (index_of p.vbls a) d)
                  (get_or q.tab_data (index_of q.vbls a) d))
  unfolding absorb annotate_vertex
  absorb_lem p q tree v x fits h k o sub n at pot memo =
      let (mi, computes, (q', times, pot', vbls, entries)) =
        product_marg-entries mode.times p q fresh h k fits o sub n in
      let finds = first_marg q.vbls p.vbls mi computes in
      (
        q',
        record { first = (p.vbls.bv, mi) ∷ []; size = 0 + 1 },
        rw (at, pot, memo, finds, times),
        pot',
        vbls,
        entries,
      )

  -- A clique that lacks a variable does not contain the set.
  not-Contained :
      (v w : VariableSet)
      → IsVariableSet v
      → IsVariableSet w
      → w.bv.size ≡ v.bv.size
      → ¬ Contained v w
      → contained_in v w ≡ ok false
  not-Contained v w hv hw e lacks =
      let (b, runs, means) = contained_in_lem v w hv hw (sym e) in
      runs
      ∙ ap (λ (c : Bool). ok c)
          (elim (Bool-cases b) [ inl t ↦ absurd (lacks (means.0 t)) | inr f ↦ f ])

  contained :
      (v w : VariableSet)
      → IsVariableSet v
      → IsVariableSet w
      → w.bv.size ≡ v.bv.size
      → Contained v w
      → contained_in v w ≡ ok true
  contained v w hv hw e sub =
      let (b, runs, means) = contained_in_lem v w hv hw (sym e) in
      runs ∙ ap (λ (c : Bool). ok c) (means.1 sub)

  -- The search passes the cliques that lack a variable.
  search_absorb :
      (p q : Pot N) (tree : ElimTree N) (v : ℕ) (x : Vertex (Clique N)) (done skipped more : List ℕ)
      (j : ℕ)
      → length done ≡ j
      → IsVariableSet p.vbls
      → IsVariableSet q.vbls
      → q.vbls.bv.size ≡ p.vbls.bv.size
      → Contained p.vbls q.vbls
      → get_elem? tree.vertex_store v ≡ some x
      → x.annotation.pot ≡ some q
      → All (IsSkipped tree p.vbls) skipped
      → first_clique mode fresh p
          (done ++ (skipped ++ v ∷ more))
          (length (skipped ++ v ∷ more))
          j
          tree
        ≡ absorb mode fresh p tree v
  unfolding first_clique
  search_absorb p q tree v x done [] more j e hp hq size sub at pot skips =
      rw (get_elem?-append_mid done v more j e, at, pot, contained p.vbls q.vbls hp hq size sub)
  search_absorb p q tree v x done (u ∷ skipped) more j e hp hq size sub at pot
        ((y, r, at_u, pot_u, hr, same, lacks), skips) =
      rw
        (
          get_elem?-append_mid done u (skipped ++ v ∷ more) j e,
          at_u,
          pot_u,
          not-Contained p.vbls r.vbls hp hr same lacks,
        )
        (ap
            (λ (l : List ℕ).
              first_clique mode fresh p l (length (skipped ++ v ∷ more)) (j + 1) tree)
            (sym (append_snoc done u (skipped ++ v ∷ more)))
          ∙ search_absorb p q tree v x (done ++ u ∷ []) skipped more (j + 1)
              (length_snoc done u j e) hp hq size sub at pot skips)

  -- `BNet_InitializePotentials` for one table with at least one variable: when the cliques before
  -- `v` lack a variable of the table, and `v`, whose memo is empty, has them all, then the table goes
  -- into the potential of `v` and nowhere else. The potential stays well-formed over the same
  -- variables, and its entry for every assignment of values in range is multiplied by that of the
  -- table, also when the table has all the variables of the clique.
  pub first_clique_lem :
      (p q : Pot N) (tree : ElimTree N) (v : ℕ) (x : Vertex (Clique N)) (skipped more : List ℕ)
      → ((n : ℕ) → length (fresh n) ≡ n)
      → IsPot p
      → IsPot q
      → p.vbls.o ≡ q.vbls.o
      → Contained p.vbls q.vbls
      → 0 < length (members p.vbls)
      → get_elem? tree.vertex_store v ≡ some x
      → x.annotation.pot ≡ some q
      → x.annotation.marg_memo ≡ BitVectorMap.create
      → All (IsSkipped tree p.vbls) skipped
      → (q' : Pot N) × (memo : BitVectorMap (Option MulInd)) × (first_clique mode fresh p
            (skipped ++ v ∷ more)
            (length (skipped ++ v ∷ more))
            0
            tree
          ≡ ok (absorbed tree v x q' memo))
        × IsPot q'
        × (q'.vbls ≡ q.vbls)
        × ((a : List ℕ) (d : N)
            → InRange q.vbls.o a
            → get_or q'.tab_data (index_of q.vbls a) d
              ≡ mode.times
                  (get_or p.tab_data (index_of p.vbls a) d)
                  (get_or q.tab_data (index_of q.vbls a) d))
  first_clique_lem p q tree v x skipped more fits h k o sub n at pot memo skips =
      let size : q.vbls.bv.size ≡ p.vbls.bv.size =
        k.set.width ∙ ap (λ (r : VariableOrdering). r.size) (sym o) ∙ sym h.set.width in
      let (q', memo', runs, pot', vbls, entries) =
        absorb_lem p q tree v x fits h k o sub n at pot memo in
      (
        q',
        memo',
        search_absorb p q tree v x [] skipped more 0 refl h.set k.set size sub at pot skips ∙ runs,
        pot',
        vbls,
        entries,
      )

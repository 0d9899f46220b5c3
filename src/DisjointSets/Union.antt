-- ===== src/DisjointSets/Union.antt =====
-- `DSetForest_Union` on the elements of a forest.
use junction_box.Base.{
  ℕ, ◌+◌, ◌≤◌, ◌<◌, ◌⊎◌, inl, inr, true, false, List, [], ◌∷◌, ◌≡◌, refl, sym, ap, ◌∙◌, arith, ◌==◌,
  ltb, some, set, get_elem?, ok,
}
use mathlib.Core.Path.{subst}
use junction_box.LinkedList.Chain.{get_elem?-set_same}
use junction_box.AssocMap.VoidpMap
use junction_box.AssocMap.Laws.{lookup, contents_of, IsMap, get-lookup}
use junction_box.AssocMap.Keys.{number_keys}
use junction_box.DisjointSets.{DSetNode, DSetForest, get_representative, link, union}
use junction_box.DisjointSets.Roots.{Root, Root-own, Root-top, Kept, equal_or_not, get_elem?-lt}
use junction_box.DisjointSets.Laws.{find_set_lem, merged, Merges, reranked, link_lem}

-- The node of an element is `x`.
abbrev pub HasNode : DSetForest → ℕ → ℕ → Type 0
HasNode this element x = lookup number_keys element this.lookup.first ≡ some x

-- The element is in the set with the root `r`.
abbrev pub InSet : DSetForest → ℕ → ℕ → Type 0
InSet this element r = (x : ℕ) × (d : ℕ) × HasNode this element x × Root this.nodes d x r

-- The lookup is a map, and its nodes have roots, at most `n` steps away.
pub record IsForest (n : ℕ) (this : DSetForest) : Type 0 where
  pub elements : IsMap number_keys this.lookup
  pub rooted :
      (element x : ℕ) → HasNode this element x → (d : ℕ) × (r : ℕ) × (d ≤ n) × Root this.nodes d x r

starts_with :
    (chain : List (ℕ × ℕ)) (x : ℕ)
    → contents_of chain ≡ some x
    → (key : ℕ) × (next : List (ℕ × ℕ)) × (chain ≡ (key, x) ∷ next)
starts_with [] x e = cc
starts_with ((key, v) ∷ next) x e =
    let is : v ≡ x = cc in (key, next, ap (λ (u : ℕ). (key, u) ∷ next) is)

get_representative_lem :
    (fuel : ℕ) (this : DSetForest) (element x d r : ℕ)
    → IsMap number_keys this.lookup
    → HasNode this element x
    → Root this.nodes d x r
    → d < fuel
    → (nodes : List DSetNode) × (get_representative fuel this element
        ≡ ok (record this { nodes = nodes }, r))
      × Kept this.nodes nodes
unfolding get_representative VoidpMap.get
get_representative_lem fuel this element x d r m has root lt =
    let (chain, gets, holds) = get-lookup number_keys this.lookup element m tt in
    let (nodes, finds, kept) = find_set_lem this.nodes d x r fuel root lt in
    let (key, next, is) = starts_with chain x (holds ∙ has) in (nodes, rw (gets, is, finds), kept)

-- `Link` of a root with itself changes no root.
link_same :
    (nodes : List DSetNode) (x : ℕ)
    → Root nodes 0 x x
    → (nodes' : List DSetNode) × (link nodes x x ≡ ok nodes')
      × ((e z s : ℕ) → Root nodes e z s → Root nodes' e z s)
unfolding link
link_same nodes x h =
    let (a, at, own) = Root-own nodes 0 x x h in
    let a1 : DSetNode = record a { parent = x } in
    let nodes1 : List DSetNode = set nodes x a1 in
    let at1 : get_elem? nodes1 x ≡ some a1 =
      get_elem?-set_same nodes x a1 (get_elem?-lt nodes x a at) in
    let no_less : ltb a.rank a.rank ≡ false = ground arith in
    let tie : (a.rank == a.rank) ≡ true = ground arith in
    (
      set nodes1 x (record a1 { rank = a.rank + 1 }),
      rw (at, no_less, at1, tie),
      λ e z s k. reranked nodes1 x (a.rank + 1) a1 at1 e z s (
          subst (λ (p : ℕ). Root (set nodes x (record a { parent = p })) e z s) own
            (reranked nodes x a.rank a at e z s k)),
    )

link_any :
    (nodes : List DSetNode) (x y : ℕ)
    → Root nodes 0 x x
    → Root nodes 0 y y
    → (nodes' : List DSetNode) × (w : ℕ) × (link nodes x y ≡ ok nodes')
      × ((w ≡ x) ⊎ (w ≡ y))
      × Merges nodes nodes' x y w
link_any nodes x y hx hy = elim (equal_or_not x y) [
  | inl same ↦
      let (nodes', links, roots) = link_same nodes x hx in
      (
        nodes',
        x,
        ap (λ (u : ℕ). link nodes x u) (sym same) ∙ links,
        inl refl,
        λ e z s h.
            let stays : merged x y x s ≡ s = ground arith in
            (e, omega arith, rw stays (roots e z s h)),
      )
  | inr differ ↦ link_lem nodes x y hx hy differ
]

-- `DSetForest_Union` of two elements of a well-formed forest with fuel for its distances succeeds,
-- also for two elements of one set. One of their roots becomes the root of all elements of both
-- sets, every other element keeps its root, and no node gets more than one step further away from
-- its root. The elements keep their nodes.
pub union_lem :
    (n fuel : ℕ) (this : DSetForest) (element1 element2 x y : ℕ)
    → IsForest n this
    → HasNode this element1 x
    → HasNode this element2 y
    → n < fuel
    → (this' : DSetForest) × (r : ℕ) × (s : ℕ) × (w : ℕ) × (union fuel this element1 element2
        ≡ ok this')
      × IsForest (n + 1) this'
      × InSet this element1 r
      × InSet this element2 s
      × ((w ≡ r) ⊎ (w ≡ s))
      × ((element q : ℕ) → InSet this element q → InSet this' element (merged r s w q))
      × (this'.lookup ≡ this.lookup)
      × Merges this.nodes this'.nodes r s w
unfolding union
union_lem n fuel this element1 element2 x y h has1 has2 lt =
    let (d, r, dn, root1) = h.rooted element1 x has1 in
    let (f, s, fn, root2) = h.rooted element2 y has2 in
    let (nodes1, finds1, kept1) =
      get_representative_lem fuel this element1 x d r h.elements has1 root1 (omega arith) in
    let (f', f'le, root2') = kept1 f y s root2 in
    let (nodes2, finds2, kept2) =
      get_representative_lem fuel (record this { nodes = nodes1 }) element2 y f' s h.elements has2
        root2' (omega arith) in
    let (d', _, root1') = kept1 d x r root1 in
    let (d2, _, top1) = kept2 d' x r root1' in
    let (f2, _, top2) = kept2 f' y s root2' in
    let (nodes3, w, links, which, merges) =
      link_any nodes2 r s (Root-top nodes2 d2 x r top1) (Root-top nodes2 f2 y s top2) in
    let moved : (e z q : ℕ)
        → Root this.nodes e z q
        → (e' : ℕ) × (e' ≤ e + 1) × Root nodes3 e' z (merged r s w q) =
      λ e z q k.
        let (e1, le1, k1) = kept1 e z q k in
        let (e2, le2, k2) = kept2 e1 z q k1 in
        let (e3, le3, k3) = merges e2 z q k2 in (e3, omega arith, k3) in
    (
      record this { nodes = nodes3 },
      r,
      s,
      w,
      rw (finds1, finds2, links) refl,
      record {
        elements = h.elements;
        rooted = λ element z has.
            let (e, q, en, k) = h.rooted element z has in
            let (e', le, k') = moved e z q k in (e', merged r s w q, omega arith, k');
      },
      (x, d, has1, root1),
      (y, f, has2, root2),
      which,
      λ element q (z, e, has, k). let (e', le, k') = moved e z q k in (z, e', has, k'),
      refl,
      moved,
    )

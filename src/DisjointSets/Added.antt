-- ===== src/DisjointSets/Added.antt =====
-- `DSetForest_MakeSet` on the elements of a forest.
use junction_box.Base.{
  ℕ, ◌≢◌, ◌⊎◌, inl, inr, true, false, Bool-cases, List, [], ◌∷◌, ◌++◌, ◌≡◌, refl, sym, ap, ◌∙◌,
  arith, ◌==◌, none, length, ok,
}
use junction_box.LinkedList.Chain.{get_elem?-append, get_elem?-append_new}
use junction_box.AssocMap.VoidpMap
use junction_box.AssocMap.Laws.{lookup, contents_of, get-lookup, add-IsAdded}
use junction_box.AssocMap.Keys.{number_keys}
use junction_box.DisjointSets.{DSetNode, DSetForest, node_create, make_set}
use junction_box.DisjointSets.Roots.{Root, top, up, Root-own, get_elem?-lt}
use junction_box.DisjointSets.Union.{HasNode, InSet, IsForest}

-- New nodes change no root.
Root-append :
    (nodes more : List DSetNode) (d x r : ℕ) → Root nodes d x r → Root (nodes ++ more) d x r
Root-append nodes more d x r (top _ n at own) =
    top x n (get_elem?-append nodes more x (get_elem?-lt nodes x n at) ∙ at) own
Root-append nodes more d x r (up f _ _ n at ne h) =
    up f x r n (get_elem?-append nodes more x (get_elem?-lt nodes x n at) ∙ at) ne
      (Root-append nodes more f n.parent r h)

-- What `MakeSet` makes of a forest.
pub record IsMade (n : ℕ) (this : DSetForest) (element : ℕ) (this' : DSetForest) (x : ℕ)
    : Type 0 where
  pub forest : IsForest n this'
  pub has : HasNode this' element x
  pub kept : (other q : ℕ) → InSet this other q → InSet this' other q
  pub others : (other z : ℕ) → HasNode this' other z → (other ≡ element) ⊎ HasNode this other z
  pub alone :
      (HasNode this element x × (this' ≡ this))
      ⊎ ((lookup number_keys element this.lookup.first ≡ none)
          × Root this'.nodes 0 x x
          × ((other q : ℕ) → InSet this other q → q ≢ x))

made :
    (n : ℕ) (this : DSetForest) (element : ℕ) (chain : List (ℕ × ℕ))
    → IsForest n this
    → VoidpMap.get this.lookup element ≡ ok chain
    → contents_of chain ≡ lookup number_keys element this.lookup.first
    → (this' : DSetForest) × (x : ℕ) × (make_set this element ≡ ok (this', x))
      × IsMade n this element this' x
unfolding make_set VoidpMap.add
made n this element ((key, x) ∷ next) h g e = (
  this,
  x,
  rw g refl,
  record {
    forest = h;
    has = sym e;
    kept = λ other q k. k;
    others = λ other z k. inr k;
    alone = inl (sym e, refl);
  },
)
made n this element [] h g e =
    let x = length this.nodes in
    let a = add-IsAdded number_keys this.lookup element x h.elements tt in
    let this' : DSetForest = record { lookup = a.result; nodes = node_create this.nodes element } in
    let fresh : Root this'.nodes 0 x x =
      top x (record { parent = x; rank = 0; contents = element })
        (get_elem?-append_new this.nodes _) refl in
    let has : HasNode this' element x =
      let hit : (element == element) ≡ true = ground arith in
      a.holds element ∙ rw (hit, ← e) refl in
    let miss : (other : ℕ)
        → (element == other) ≡ false
        → lookup number_keys other a.result.first ≡ lookup number_keys other this.lookup.first =
      λ other q. a.holds other ∙ rw q refl in
    let kept : (other z : ℕ) → HasNode this other z → HasNode this' other z = λ other z k.
      elim (Bool-cases (element == other)) [
        | inl t ↦
            let same : element ≡ other = ground arith in
            let gone = ap (λ (u : ℕ). lookup number_keys u this.lookup.first) same in cc
        | inr f ↦ miss other f ∙ k
      ] in
    let others : (other z : ℕ) → HasNode this' other z → (other ≡ element) ⊎ HasNode this other z =
      λ other z k. elim (Bool-cases (element == other)) [
        | inl t ↦ inl (ground arith)
        | inr f ↦ inr (sym (miss other f) ∙ k)
      ] in
    (
      this',
      x,
      rw (g, a.returns) refl,
      record {
        forest = record {
          elements = a.valid;
          rooted = λ other z k. elim (others other z k) [
            | inl same ↦
                let at = ap (λ (u : ℕ). lookup number_keys u a.result.first) same in
                let is : z ≡ x = cc in (0, x, omega arith, rw is fresh)
            | inr old ↦
                let (d, r, le, root) = h.rooted other z old in
                (d, r, le, Root-append this.nodes _ d z r root)
          ];
        };
        has = has;
        kept =
            λ other q (z, d, k, root). (z, d, kept other z k, Root-append this.nodes _ d z q root);
        others = others;
        alone = inr (
          sym e,
          fresh,
          λ other q (z, d, k, root) same.
              let (m, at, own) = Root-own this.nodes d z q root in
              absurd (omega (arith, get_elem?-lt this.nodes q m at, same)),
        );
      },
    )

-- `DSetForest_MakeSet` on a well-formed forest succeeds and keeps it well-formed, with the same
-- bound on the distances to the roots. It returns the node of the element, all elements that were
-- there stay in their sets, and no other element is added. An element that is there changes
-- nothing; a new one is the root of a set of its own.
pub make_set_lem :
    (n : ℕ) (this : DSetForest) (element : ℕ)
    → IsForest n this
    → (this' : DSetForest) × (x : ℕ) × (make_set this element ≡ ok (this', x))
      × IsMade n this element this' x
unfolding VoidpMap.get
make_set_lem n this element h =
    let (chain, gets, holds) = get-lookup number_keys this.lookup element h.elements tt in
    made n this element chain h gets holds

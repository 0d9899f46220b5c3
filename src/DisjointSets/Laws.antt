-- ===== src/DisjointSets/Laws.antt =====
-- `FindSet` and `Link` on the partition into sets with one root.
use junction_box.Base.{
  ℕ, zero, suc, ◌+◌, ◌≤◌, ◌<◌, ◌≢◌, ◌⊎◌, inl, inr, true, false, Bool-cases, List, ◌≡◌, refl, sym,
  ap, ◌∙◌, arith, if◌then◌else◌, ◌==◌, ltb, some, set, get_elem?, ok,
}
use junction_box.LinkedList.Chain.{get_elem?-set_ne, get_elem?-set_same}
use junction_box.DisjointSets.{DSetNode, find_set, link}
use junction_box.DisjointSets.Roots.{
  Root, top, up, Root-own, Root-below, Kept, compressed, equal_or_not, get_elem?-lt,
}

Kept-trans : (a b c : List DSetNode) → Kept a b → Kept b c → Kept a c
Kept-trans a b c h k e y s r =
    let (e', le, r') = h e y s r in let (e2, le2, r2) = k e' y s r' in (e2, omega arith, r2)

-- A node with another root than itself is not its own parent.
way_up :
    (nodes : List DSetNode) (d x r : ℕ)
    → Root nodes d x r
    → r ≢ x
    → (n : DSetNode) × (get_elem? nodes x ≡ some n) × (x ≢ n.parent)
way_up nodes d x r (top _ n at own) ne = absurd (ne refl)
way_up nodes d x r (up f _ _ n at de h) ne = (n, at, de)

-- For a node with a root and fuel for its distance, `FindSet` returns the root; path compression
-- leaves every node with its root, at no greater distance.
pub find_set_lem :
    (nodes : List DSetNode) (d x r fuel : ℕ)
    → Root nodes d x r
    → d < fuel
    → (nodes' : List DSetNode) × (find_set fuel nodes x ≡ ok (nodes', r)) × Kept nodes nodes'
unfolding find_set
find_set_lem nodes d x r zero h lt = absurd (omega arith)
find_set_lem nodes d x r (suc fuel) (top _ n at own) lt =
    let test : (x == n.parent) ≡ true = ground arith in
    (nodes, rw (at, test, at, own), λ e y s k. (e, omega arith, k))
find_set_lem nodes d x r (suc fuel) (up f _ _ n at ne h) lt =
    let (nodes1, finds, kept) = find_set_lem nodes f n.parent r fuel h (omega arith) in
    let apart : r ≢ x = Root-below nodes f n.parent x r n at ne h in
    let (e', le, after) = kept (suc f) x r (up f x r n at ne h) in
    let (n1, at1, ne1) = way_up nodes1 e' x r after apart in
    let test : (x == n.parent) ≡ false = ground arith in
    let nodes2 : List DSetNode = set nodes1 x (record n1 { parent = r }) in
    (
      nodes2,
      rw (
        at,
        test,
        finds,
        at1,
        get_elem?-set_same nodes1 x (record n1 { parent = r }) (get_elem?-lt nodes1 x n1 at1),
      ),
      Kept-trans nodes nodes1 nodes2 kept (compressed nodes1 e' x r n1 after at1 ne1),
    )

-- The sets of two roots become one, with the root `w`.
abbrev pub merged : ℕ → ℕ → ℕ → ℕ → ℕ
merged x y w s = if s == x then w else if s == y then w else s

abbrev pub Merges : List DSetNode → List DSetNode → ℕ → ℕ → ℕ → Type 0
Merges nodes nodes' x y w =
    (e z s : ℕ) → Root nodes e z s → (e' : ℕ) × (e' ≤ e + 1) × Root nodes' e' z (merged x y w s)

-- The root `a` is hung below the root `b`.
hung :
    (nodes : List DSetNode) (a b : ℕ) (n m : DSetNode)
    → get_elem? nodes a ≡ some n
    → get_elem? nodes b ≡ some m
    → n.parent ≡ a
    → m.parent ≡ b
    → a ≢ b
    → (e z s : ℕ) → Root nodes e z s
    → (e' : ℕ) × (e' ≤ e + 1)
      × Root (set nodes a (record n { parent = b })) e' z (if s == a then b else s)
hung nodes a b n m at bt alone own ne e z s (top _ k ct self) = elim (equal_or_not z a) [
  | inl same ↦
      let test : (z == a) ≡ true = ground arith in
      let base : Root (set nodes a (record n { parent = b })) 0 b b =
        top b m (get_elem?-set_ne nodes b a _ (λ q. ne (sym q)) ∙ bt) own in
      (
        1,
        omega arith,
        rw (test, same)
            (up 0 a b (record n { parent = b })
              (get_elem?-set_same nodes a _ (get_elem?-lt nodes a n at)) ne base),
      )
  | inr differ ↦
      let test : (z == a) ≡ false = ground arith in
      (0, omega arith, rw test (top z k (get_elem?-set_ne nodes z a _ differ ∙ ct) self))
]
hung nodes a b n m at bt alone own ne e z s (up f _ _ k ct de h) = elim (equal_or_not z a) [
  | inl same ↦
      let it : k ≡ n = cc in
      absurd (de (same ∙ sym alone ∙ ap (λ (v : DSetNode). v.parent) (sym it)))
  | inr differ ↦
      let (f', le, h') = hung nodes a b n m at bt alone own ne f k.parent s h in
      (
        suc f',
        omega arith,
        up f' z (if s == a then b else s) k (get_elem?-set_ne nodes z a _ differ ∙ ct) de h',
      )
]

-- A new rank changes no root.
pub reranked :
    (nodes : List DSetNode) (y c : ℕ) (n : DSetNode)
    → get_elem? nodes y ≡ some n
    → (e z s : ℕ) → Root nodes e z s
    → Root (set nodes y (record n { rank = c })) e z s
reranked nodes y c n at e z s (top _ k ct own) = elim (equal_or_not z y) [
  | inl same ↦
      let it : k ≡ n = cc in
      let here : get_elem? (set nodes y (record n { rank = c })) z ≡ some (record n { rank = c }) =
        rw same (get_elem?-set_same nodes y _ (get_elem?-lt nodes y n at)) in
      top z (record n { rank = c }) here (ap (λ (v : DSetNode). v.parent) (sym it) ∙ own)
  | inr differ ↦ top z k (get_elem?-set_ne nodes z y _ differ ∙ ct) own
]
reranked nodes y c n at e z s (up f _ _ k ct de h) =
    let ih = reranked nodes y c n at f k.parent s h in
    elim (equal_or_not z y) [
      | inl same ↦
          let it : k ≡ n = cc in
          let here : get_elem? (set nodes y (record n { rank = c })) z
              ≡ some (record n { rank = c }) =
            rw same (get_elem?-set_same nodes y _ (get_elem?-lt nodes y n at)) in
          let parent : k.parent ≡ n.parent = ap (λ (v : DSetNode). v.parent) it in
          up f z s (record n { rank = c }) here (λ q. de (q ∙ sym parent)) (rw parent at ih)
      | inr differ ↦ up f z s k (get_elem?-set_ne nodes z y _ differ ∙ ct) de ih
    ]

merged_fst : (x y s : ℕ) → (if s == y then x else s) ≡ merged x y x s
merged_fst x y s = ground arith

merged_snd : (x y s : ℕ) → (if s == x then y else s) ≡ merged x y y s
merged_snd x y s = ground arith

-- For two different roots, `Link` makes one of them the root of both their sets and leaves all
-- other nodes with their roots; a node gets at most one step further from its root.
pub link_lem :
    (nodes : List DSetNode) (x y : ℕ)
    → Root nodes 0 x x
    → Root nodes 0 y y
    → x ≢ y
    → (nodes' : List DSetNode) × (w : ℕ) × (link nodes x y ≡ ok nodes')
      × ((w ≡ x) ⊎ (w ≡ y))
      × Merges nodes nodes' x y w
unfolding link
link_lem nodes x y hx hy ne =
    let (a, at, a_own) = Root-own nodes 0 x x hx in
    let (b, bt, b_own) = Root-own nodes 0 y y hy in
    elim (Bool-cases (ltb b.rank a.rank)) [
      | inl x_wins ↦ (
        set nodes y (record b { parent = x }),
        x,
        rw (at, bt, x_wins),
        inl refl,
        λ e z s h.
            rw (← merged_fst x y s)
              (hung nodes y x b a bt at b_own a_own (λ q. ne (sym q)) e z s h),
      )
      | inr y_wins ↦
          let nodes1 : List DSetNode = set nodes x (record a { parent = y }) in
          let at1 : get_elem? nodes1 x ≡ some (record a { parent = y }) =
            get_elem?-set_same nodes x _ (get_elem?-lt nodes x a at) in
          let bt1 : get_elem? nodes1 y ≡ some b =
            get_elem?-set_ne nodes y x _ (λ q. ne (sym q)) ∙ bt in
          let one : Merges nodes nodes1 x y y =
            λ e z s h. rw (← merged_snd x y s) (hung nodes x y a b at bt a_own b_own ne e z s h) in
          elim (Bool-cases (a.rank == b.rank)) [
            | inl tie ↦ (
              set nodes1 y (record b { rank = b.rank + 1 }),
              y,
              rw (at, bt, y_wins, at1, bt1, tie),
              inr refl,
              λ e z s h.
                  let (e', le, h') = one e z s h in
                  (e', le, reranked nodes1 y (b.rank + 1) b bt1 e' z (merged x y y s) h'),
            )
            | inr less ↦ (nodes1, y, rw (at, bt, y_wins, at1, bt1, less), inr refl, one)
          ]
    ]

-- ===== src/DisjointSets/Roots.antt =====
-- The root of a node, as a relation: the abstract view of the forest.
use junction_box.Base.{
  ℕ, zero, suc, ◌≤◌, ◌<◌, ◌≢◌, ◌⊎◌, inl, inr, Bool-cases, ◌==◌, List, [], ◌∷◌, ◌≡◌, refl, sym, ap,
  ◌∙◌, arith, some, length, set, get_elem?,
}
use junction_box.LinkedList.Chain.{get_elem?-set_ne, get_elem?-set_same}
use junction_box.DisjointSets.{DSetNode}

-- `Root nodes d x r`: following `d` parents from `x` leads to `r`, which is its own parent.
pub data Root (nodes : List DSetNode) : ℕ → ℕ → ℕ → Type 0 where
  top : (x : ℕ) (n : DSetNode) → get_elem? nodes x ≡ some n → n.parent ≡ x → Root nodes 0 x x
  up :
      (d x r : ℕ) (n : DSetNode)
      → get_elem? nodes x ≡ some n
      → x ≢ n.parent
      → Root nodes d n.parent r
      → Root nodes (suc d) x r

-- A node has one root.
pub Root-unique :
    (nodes : List DSetNode) (d e x r s : ℕ) → Root nodes d x r → Root nodes e x s → r ≡ s
Root-unique nodes d e x r s (top _ n at own) (top _ m bt _) = refl
Root-unique nodes d e x r s (top _ n at own) (up f _ _ m bt ne k) =
    let same : n ≡ m = cc in absurd (ne (sym own ∙ ap (λ (v : DSetNode). v.parent) same))
Root-unique nodes d e x r s (up f _ _ m bt ne k) (top _ n at own) =
    let same : n ≡ m = cc in absurd (ne (sym own ∙ ap (λ (v : DSetNode). v.parent) same))
Root-unique nodes d e x r s (up f _ _ n at ne h) (up g _ _ m bt _ k) =
    let same : n.parent ≡ m.parent = let eq : n ≡ m = cc in ap (λ (v : DSetNode). v.parent) eq in
    Root-unique nodes f g m.parent r s (rw (← same) h) k

pub equal_or_not : (a b : ℕ) → (a ≡ b) ⊎ (a ≢ b)
equal_or_not a b = elim (Bool-cases (a == b)) [
  | inl same ↦ inl (ground arith)
  | inr differ ↦ inr (λ e. ground arith)
]

pub get_elem?-lt :
    {A : Type 0} (xs : List A) (i : ℕ) (x : A) → get_elem? xs i ≡ some x → i < length xs
get_elem?-lt [] i x e = let no : ◌≡◌ {A = ℕ} 0 1 = cc in absurd (omega arith)
get_elem?-lt (y ∷ xs) zero x e = omega arith
get_elem?-lt (y ∷ xs) (suc i) x e = let h = get_elem?-lt xs i x e in omega arith

-- The end of a way up is its own parent.
pub Root-own :
    (nodes : List DSetNode) (d x r : ℕ)
    → Root nodes d x r
    → (n : DSetNode) × (get_elem? nodes r ≡ some n) × (n.parent ≡ r)
Root-own nodes d x r (top _ n at own) = (n, at, own)
Root-own nodes d x r (up f _ _ n at ne h) = Root-own nodes f n.parent r h

pub Root-top : (nodes : List DSetNode) (d x r : ℕ) → Root nodes d x r → Root nodes 0 r r
Root-top nodes d x r h = let (n, at, own) = Root-own nodes d x r h in top r n at own

-- A node that is not its own parent is not the root of any.
pub Root-below :
    (nodes : List DSetNode) (d y x r : ℕ) (n : DSetNode)
    → get_elem? nodes x ≡ some n
    → x ≢ n.parent
    → Root nodes d y r
    → r ≢ x
Root-below nodes d y x r n at ne h = λ e.
    let (m, bt, own) = Root-own nodes d y r h in
    let same : n ≡ m = cc in ne (sym e ∙ sym own ∙ ap (λ (v : DSetNode). v.parent) (sym same))

-- Every node keeps its root, at no greater distance.
abbrev pub Kept : List DSetNode → List DSetNode → Type 0
Kept nodes nodes' = (e y s : ℕ) → Root nodes e y s → (e' : ℕ) × (e' ≤ e) × Root nodes' e' y s

-- The step of path compression: a node with the root `r` gets `r` as its parent.
pub compressed :
    (nodes : List DSetNode) (d x r : ℕ) (n : DSetNode)
    → Root nodes d x r
    → get_elem? nodes x ≡ some n
    → x ≢ n.parent
    → Kept nodes (set nodes x (record n { parent = r }))
compressed nodes d x r n h at ne e y s (top _ m bt own) =
    let apart : y ≢ x = Root-below nodes 0 y x y n at ne (top y m bt own) in
    (0, omega arith, top y m (get_elem?-set_ne nodes y x _ apart ∙ bt) own)
compressed nodes d x r n h at ne e y s (up f _ _ m bt de k) = elim (equal_or_not y x) [
  | inl same ↦
      let root : r ≡ s = Root-unique nodes d (suc f) x r s h (rw same at (up f y s m bt de k)) in
      let (q, ct, own) = Root-own nodes d x r h in
      let apart = Root-below nodes d x x r n at ne h in
      let up_one : Root (set nodes x (record n { parent = r })) 1 x r =
        up 0 x r (record n { parent = r })
          (get_elem?-set_same nodes x _ (get_elem?-lt nodes x n at)) (λ e. apart (sym e))
          (top r q (get_elem?-set_ne nodes r x _ apart ∙ ct) own) in
      (1, omega arith, rw (same, ← root) up_one)
  | inr differ ↦
      let (f', le, k') = compressed nodes d x r n h at ne f m.parent s k in
      (suc f', omega arith, up f' y s m (get_elem?-set_ne nodes y x _ differ ∙ bt) de k')
]

-- ===== src/LinkedList/Chain.antt =====
-- Chains of nodes in the heap: the abstract view of a list.
use junction_box.Base.{
  ℕ, zero, suc, ◌<◌, ◌≢◌, List, [], ◌∷◌, ◌++◌, map, ◌≡◌, refl, sym, ap, ◌∙◌, arith, Option, none,
  some, length, length-append, length-set, set, get_elem?, All,
}
use junction_box.LinkedList.{ListNode, LinkedList, Heap}

-- From `p` on, the heap has the given nodes, in order, and then NULL. A node is given by its
-- address and its contents.
abbrev pub Chain : {C : Type 0} → Heap C → Option ℕ → List (ℕ × C) → Type 0
Chain h p [] = p ≡ none
Chain h p ((a, c) ∷ nodes) =
    (p ≡ some a)
    × ((n : Option ℕ) × (get_elem? h a ≡ some (record { contents = c; next = n }))
        × Chain h n nodes)

abbrev pub Distinct : {C : Type 0} → List (ℕ × C) → Type 0
Distinct [] = Unit
Distinct {C = C} ((a, c) ∷ nodes) = All (λ (m : ℕ × C). m.0 ≢ a) nodes × Distinct nodes

abbrev pub last_of : {C : Type 0} → List (ℕ × C) → Option ℕ
last_of [] = none
last_of ((a, c) ∷ []) = some a
last_of (m ∷ m' ∷ nodes) = last_of (m' ∷ nodes)

abbrev pub contents_of : {C : Type 0} → List (ℕ × C) → List C
contents_of nodes = map (λ m. m.1) nodes

-- The list has the given nodes, each once, its size, and its last node.
pub record IsList {C : Type 0} (h : Heap C) (l : LinkedList) (nodes : List (ℕ × C)) : Type 0 where
  pub chain : Chain h l.first nodes
  pub sized : l.size ≡ length nodes
  pub ends : l.last ≡ last_of nodes
  pub distinct : Distinct nodes
  pub inside : All (λ (m : ℕ × C). m.0 < length h) nodes

module _ {C : Type 0} where
  pub get_elem?-append :
      (h k : List C) (a : ℕ) → a < length h → get_elem? (h ++ k) a ≡ get_elem? h a
  get_elem?-append [] k a lt = absurd (omega arith)
  get_elem?-append (x ∷ h) k zero lt = refl
  get_elem?-append (x ∷ h) k (suc a) lt = get_elem?-append h k a (omega arith)

  pub get_elem?-append_new : (h : List C) (x : C) → get_elem? (h ++ x ∷ []) (length h) ≡ some x
  get_elem?-append_new [] x = refl
  get_elem?-append_new (y ∷ h) x = get_elem?-append_new h x

  pub get_elem?-set_ne :
      (h : List C) (a b : ℕ) (x : C) → a ≢ b → get_elem? (set h b x) a ≡ get_elem? h a
  get_elem?-set_ne [] a b x ne = refl
  get_elem?-set_ne (y ∷ h) zero zero x ne = absurd (ne refl)
  get_elem?-set_ne (y ∷ h) zero (suc b) x ne = refl
  get_elem?-set_ne (y ∷ h) (suc a) zero x ne = refl
  get_elem?-set_ne (y ∷ h) (suc a) (suc b) x ne = get_elem?-set_ne h a b x (λ e. ne (ap suc e))

  pub get_elem?-set_same :
      (h : List C) (a : ℕ) (x : C) → a < length h → get_elem? (set h a x) a ≡ some x
  get_elem?-set_same [] a x lt = absurd (omega arith)
  get_elem?-set_same (y ∷ h) zero x lt = refl
  get_elem?-set_same (y ∷ h) (suc a) x lt = get_elem?-set_same h a x (omega arith)

last_apart :
    {C : Type 0} (nodes : List (ℕ × C)) (a b : ℕ)
    → All (λ (m : ℕ × C). m.0 ≢ b) nodes
    → last_of nodes ≡ some a
    → a ≢ b
last_apart [] a b i e = cc
last_apart ((k, x) ∷ []) a b i e = let h : k ≡ a = cc in rw (← h) i.0
last_apart (m ∷ m' ∷ nodes) a b i e = last_apart (m' ∷ nodes) a b i.1 e

module _ {C : Type 0} where
  -- A new node leaves the chains alone.
  pub Chain-grows :
      (h k : Heap C) (p : Option ℕ) (nodes : List (ℕ × C))
      → All (λ (m : ℕ × C). m.0 < length h) nodes
      → Chain h p nodes
      → Chain (h ++ k) p nodes
  Chain-grows h k p [] i c = c
  Chain-grows h k p ((a, x) ∷ nodes) i (e, (n, at, c)) =
      (e, (n, get_elem?-append h k a i.0 ∙ at, Chain-grows h k n nodes i.1 c))

  -- So does a write to a node that is not in them.
  pub Chain-apart :
      (h : Heap C) (b : ℕ) (x : ListNode C) (p : Option ℕ) (nodes : List (ℕ × C))
      → All (λ (m : ℕ × C). m.0 ≢ b) nodes
      → Chain h p nodes
      → Chain (set h b x) p nodes
  Chain-apart h b x p [] i c = c
  Chain-apart h b x p ((a, y) ∷ nodes) i (e, (n, at, c)) =
      (e, (n, get_elem?-set_ne h a b x i.0 ∙ at, Chain-apart h b x n nodes i.1 c))

  pub inside_grows :
      (h k : Heap C) (nodes : List (ℕ × C))
      → All (λ (m : ℕ × C). m.0 < length h) nodes
      → All (λ (m : ℕ × C). m.0 < length (h ++ k)) nodes
  inside_grows h k [] i = tt
  inside_grows h k (m ∷ nodes) i =
      (omega (arith, i.0, length-append h k), inside_grows h k nodes i.1)

  -- The address of a new node is not in a chain.
  pub new_apart :
      (h : Heap C) (nodes : List (ℕ × C))
      → All (λ (m : ℕ × C). m.0 < length h) nodes
      → All (λ (m : ℕ × C). m.0 ≢ length h) nodes
  new_apart h [] i = tt
  new_apart h (m ∷ nodes) i = (λ e. absurd (omega (arith, i.0, e)), new_apart h nodes i.1)

  -- The last node is linked to a new one.
  pub Chain-linked :
      (h : Heap C) (p : Option ℕ) (nodes : List (ℕ × C)) (a new : ℕ) (n : ListNode C) (c : C)
      → Chain h p nodes
      → Distinct nodes
      → last_of nodes ≡ some a
      → get_elem? h a ≡ some n
      → a < length h
      → new ≢ a
      → get_elem? h new ≡ some (record { contents = c; next = none })
      → Chain (set h a (record n { next = some new })) p (nodes ++ (new, c) ∷ [])
  Chain-linked h p [] a new n c ch d l at lt ne is =
      let no : ◌≡◌ {A = ℕ} 0 1 = cc in absurd (omega arith)
  Chain-linked h p ((b, x) ∷ []) a new n c (e, (m, bt, ch)) d l at lt ne is =
      let same : b ≡ a = cc in
      let node : n ≡ record { contents = x; next = m } = cc in
      let content : n.contents ≡ x = ap (λ (k : ListNode C). k.contents) node in
      (
        e,
        (
          some new,
          ap (λ (k : ℕ). get_elem? (set h a (record n { next = some new })) k) same
              ∙ get_elem?-set_same h a (record n { next = some new }) lt
              ∙ ap (λ (y : C). some (record { contents = y; next = some new })) content,
          (refl, (none, get_elem?-set_ne h new a _ ne ∙ is, refl)),
        ),
      )
  Chain-linked h p ((b, x) ∷ m' ∷ nodes) a new n c (e, (m, bt, ch)) d l at lt ne is =
      let apart = last_apart (m' ∷ nodes) a b d.0 l in
      (
        e,
        (
          m,
          get_elem?-set_ne h b a _ (λ q. apart (sym q)) ∙ bt,
          Chain-linked h m (m' ∷ nodes) a new n c ch d.1 l at lt ne is,
        ),
      )

  pub inside_set :
      (h : Heap C) (a : ℕ) (x : ListNode C) (nodes : List (ℕ × C))
      → All (λ (m : ℕ × C). m.0 < length h) nodes
      → All (λ (m : ℕ × C). m.0 < length (set h a x)) nodes
  inside_set h a x [] i = tt
  inside_set h a x (m ∷ nodes) i =
      (omega (arith, i.0, length-set h a x), inside_set h a x nodes i.1)

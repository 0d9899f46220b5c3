-- ===== src/Potentials/Cells.antt =====
-- Which rows and cells of an index table change a place.
use junction_box.Base.{
  ℕ, zero, suc, ◌+◌, ◌<◌, ◌≤◌, List, [], ◌∷◌, map, ◌≡◌, refl, sym, ap, ap₂, ◌∙◌, arith, length,
  ◌==◌, get_or, true, false, Bool-cases, ◌⊎◌, inl, inr,
}
use junction_box.Crossing.Tags.{Tag, one, two, neither, flip, weave, ranks}
use junction_box.Indices.Laws.{count_up}
use junction_box.Potentials.Product.{hit, hits}

head_tail : (x x' : ℕ) (xs xs' : List ℕ) → x ∷ xs ≡ x' ∷ xs' → (x ≡ x') × (xs ≡ xs')
head_tail x x' xs xs' e = (cc, cc)

-- Two lists have one weave only when they are the same.
pub weave-injective :
    (ts : List Tag) (r : ℕ) (xs ys xs' ys' : List ℕ)
    → length xs ≡ length (ranks ts r)
    → length ys ≡ length (ranks (flip ts) r)
    → length xs' ≡ length (ranks ts r)
    → length ys' ≡ length (ranks (flip ts) r)
    → weave ts xs ys ≡ weave ts xs' ys'
    → (xs ≡ xs') × (ys ≡ ys')
unfolding weave flip ranks
weave-injective [] r [] [] [] [] a b c d e = (refl, refl)
weave-injective [] r (x ∷ xs) ys xs' ys' a b c d e = absurd (omega arith)
weave-injective [] r [] (y ∷ ys) xs' ys' a b c d e = absurd (omega arith)
weave-injective [] r [] [] (x ∷ xs) ys' a b c d e = absurd (omega arith)
weave-injective [] r [] [] [] (y ∷ ys) a b c d e = absurd (omega arith)
weave-injective (one ∷ ts) r [] ys xs' ys' a b c d e = absurd (omega arith)
weave-injective (one ∷ ts) r (x ∷ xs) ys [] ys' a b c d e = absurd (omega arith)
weave-injective (one ∷ ts) r (x ∷ xs) ys (x' ∷ xs') ys' a b c d e =
    let (h, t) = head_tail x x' (weave ts xs ys) (weave ts xs' ys') e in
    let (p, q) = weave-injective ts (r + 1) xs ys xs' ys' (omega arith) b (omega arith) d t in
    (ap₂ (λ (z : ℕ) (zs : List ℕ). z ∷ zs) h p, q)
weave-injective (two ∷ ts) r xs [] xs' ys' a b c d e = absurd (omega arith)
weave-injective (two ∷ ts) r xs (y ∷ ys) xs' [] a b c d e = absurd (omega arith)
weave-injective (two ∷ ts) r xs (y ∷ ys) xs' (y' ∷ ys') a b c d e =
    let (h, t) = head_tail y y' (weave ts xs ys) (weave ts xs' ys') e in
    let (p, q) = weave-injective ts (r + 1) xs ys xs' ys' a (omega arith) c (omega arith) t in
    (p, ap₂ (λ (z : ℕ) (zs : List ℕ). z ∷ zs) h q)
weave-injective (neither ∷ ts) r xs ys xs' ys' a b c d e =
    weave-injective ts r xs ys xs' ys' a b c d e

first_or_later : (i m : ℕ) → i ≤ m → (i ≡ m) ⊎ (i < m)
first_or_later i m h = elim (Bool-cases (i == m)) [
  | inl t ↦ inl (ground arith)
  | inr f ↦ inr (ground arith)
]

module _ {N : Type 0} (op : N → N → N) (k : ℕ) where
  pub hit_none :
      (f : ℕ → ℕ) (i n : ℕ) (p q : N)
      → ((m : ℕ) → i ≤ m → m < i + n → ¬ (f m ≡ k))
      → hit op k p (map f (count_up i n)) q ≡ q
  unfolding hit count_up
  hit_none f i zero p q avoid = refl
  hit_none f i (suc n) p q avoid =
      let miss : (f i == k) ≡ false = let h = avoid i (omega arith) (omega arith) in ground arith in
      rw (hit, miss) (hit_none f (i + 1) n p q (λ m a b. avoid m (omega arith) (omega arith)))

  pub hit_once :
      (f : ℕ → ℕ) (i n m₀ : ℕ) (p q : N)
      → i ≤ m₀
      → m₀ < i + n
      → f m₀ ≡ k
      → ((m : ℕ) → i ≤ m → m < i + n → f m ≡ k → m ≡ m₀)
      → hit op k p (map f (count_up i n)) q ≡ op p q
  unfolding hit count_up
  hit_once f i zero m₀ p q a b e only = absurd (omega arith)
  hit_once f i (suc n) m₀ p q a b e only = elim (first_or_later i m₀ a) [
    | inl same ↦
        let at : (f i == k) ≡ true = let h : f i ≡ k = ap f same ∙ e in ground arith in
        rw (hit, at)
          (hit_none f (i + 1) n p (op p q) (λ m c d g.
            absurd (let h = only m (omega arith) (omega arith) g in omega (arith, same, h, c))))
    | inr later ↦
        let miss : (f i == k) ≡ false = elim (Bool-cases (f i == k)) [
          | inl t ↦ absurd (
              let g : f i ≡ k = ground arith in
              let h = only i (omega arith) (omega arith) g in omega (arith, h, later))
          | inr u ↦ u
        ] in
        rw (hit, miss)
          (hit_once f (i + 1) n m₀ p q (omega arith) (omega arith) e
            (λ m c d g. only m (omega arith) (omega arith) g))
  ]

  hits_none :
      (g : ℕ → List ℕ) (i n : ℕ) (ps : List N) (q : N)
      → ((m : ℕ) → i ≤ m → m < i + n → (p q : N) → hit op k p (g m) q ≡ q)
      → hits op k ps (map g (count_up i n)) q ≡ q
  unfolding hits count_up
  hits_none g i n [] q miss = refl
  hits_none g i zero (p ∷ ps) q miss = refl
  hits_none g i (suc n) (p ∷ ps) q miss =
      rw (miss i (omega arith) (omega arith) p q)
        (hits_none g (i + 1) n ps q (λ m a b. miss m (omega arith) (omega arith)))

  pub hits_once :
      (g : ℕ → List ℕ) (i n j : ℕ) (ps : List N) (q d : N)
      → j < n
      → length ps ≡ n
      → ((m : ℕ) → m ≡ i + j → (p q : N) → hit op k p (g m) q ≡ op p q)
      → ((m : ℕ) → m < i + n → ¬ (m ≡ i + j) → (p q : N) → hit op k p (g m) q ≡ q)
      → hits op k ps (map g (count_up i n)) q ≡ op (get_or ps j d) q
  unfolding hits count_up
  hits_once g i zero j ps q d lt len one_hit miss = absurd (omega arith)
  hits_once g i (suc n) j [] q d lt len one_hit miss = absurd (omega arith)
  hits_once g i (suc n) zero (p ∷ ps) q d lt len one_hit miss =
      rw (one_hit i (omega arith) p q) (
        hits_none g (i + 1) n ps (op p q)
          (λ m a b. miss m (omega arith) (λ e. omega (arith, a, e))))
  hits_once g i (suc n) (suc j) (p ∷ ps) q d lt len one_hit miss =
      let shift : i + 1 + j ≡ i + suc j = omega arith in
      rw (miss i (omega arith) (λ e. omega arith) p q) (
        hits_once g (i + 1) n j ps q d (omega arith) (omega arith) (λ m e. one_hit m (e ∙ shift))
          (λ m b other. miss m (omega arith) (λ e. other (e ∙ sym shift))))

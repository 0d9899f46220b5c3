-- ===== src/JunctionTree/Collection/Covers.antt =====
-- Collections of elimination sets of which one covers the other.
use junction_box.Base.{
  ℕ, ◌<◌, true, false, List, ◌≡◌, sym, ap, ◌∙◌, arith, inl, inr, Bool-cases, ◌==◌, Option, some,
  length,
}
use junction_box.ElimSets.{ElimSet}
use junction_box.JunctionTree.Collection.Cliques.{slot, subset, subset_self, subset_trans, AllSets}
use junction_box.JunctionTree.Collection.Swaps.{
  swapped, slot-swapped, from_swapped, slot-swapped_at,
}

module _ (n : ℕ) where
  -- Each of the first sets is inside one of the second, and each of the second is one of the first.
  pub record Covers (es es' : List (Option ElimSet)) : Type 0 where
    pub inside :
        (k : ℕ) (c : ElimSet)
        → slot es k ≡ some c
        → (k' : ℕ) × (c' : ElimSet) × (slot es' k' ≡ some c') × (subset n c c' ≡ true)
    pub among : (k' : ℕ) (c : ElimSet) → slot es' k' ≡ some c → (k : ℕ) × (slot es k ≡ some c)

  pub Covers-self : (es : List (Option ElimSet)) → Covers es es
  Covers-self es = record {
    inside = λ k c at. (k, c, at, subset_self n c);
    among = λ k c at. (k, at);
  }

  pub Covers-swapped :
      (es₀ es : List (Option ElimSet)) (i j : ℕ) (c d : ElimSet)
      → i < j
      → j < length es
      → slot es i ≡ some c
      → slot es j ≡ some d
      → subset n c d ≡ true
      → Covers es₀ es
      → Covers es₀ (swapped es i j d)
  Covers-swapped es₀ es i j c d lt_i lt_j at at' sub h = record {
    inside = λ k e q.
        let (k', e', there, e_sub) = h.inside k e q in
        elim (Bool-cases (k' == j)) [
          | inl t ↦
              let same : e' ≡ d = let is : k' ≡ j = ground arith in let m = ap (slot es) is in cc in
              (i, d, slot-swapped_at es i j d lt_i lt_j, ap (subset n e) (sym same) ∙ e_sub)
          | inr f ↦ elim (Bool-cases (k' == i)) [
            | inl t ↦
                let same : e' ≡ c =
                  let is : k' ≡ i = ground arith in let m = ap (slot es) is in cc in
                (
                  i,
                  d,
                  slot-swapped_at es i j d lt_i lt_j,
                  subset_trans n e c d (ap (subset n e) (sym same) ∙ e_sub) sub,
                )
            | inr g ↦ (k', e', slot-swapped es i j d lt_i lt_j k' ∙ rw (f, g) there, e_sub)
          ]
        ];
    among = λ k e q. elim (from_swapped es i j d lt_i lt_j k e at' q) [
      | inl (is, same) ↦
          let (k₀, there) = h.among j d at' in (k₀, there ∙ ap (λ (x : ElimSet). some x) (sym same))
      | inr (ne, there) ↦ h.among k e there
    ];
  }

  pub AllSets-swapped :
      (es : List (Option ElimSet)) (i j : ℕ) (d : ElimSet)
      → i < j
      → j < length es
      → slot es j ≡ some d
      → AllSets n es
      → AllSets n (swapped es i j d)
  AllSets-swapped es i j d lt_i lt_j at' all k c q =
      elim (from_swapped es i j d lt_i lt_j k c at' q) [
        | inl (is, same) ↦ all j c (at' ∙ ap (λ (x : ElimSet). some x) (sym same))
        | inr (ne, there) ↦ all k c there
      ]

  -- Below an index no set is inside a later one.
  abbrev pub Apart : List (Option ElimSet) → ℕ → Type 0
  Apart es i =
      (a b : ℕ) (c d : ElimSet)
      → a < i
      → a < b
      → slot es a ≡ some c
      → slot es b ≡ some d
      → subset n c d ≡ false

  pub Apart-swapped :
      (es : List (Option ElimSet)) (i j : ℕ) (d : ElimSet)
      → i < j
      → j < length es
      → slot es j ≡ some d
      → Apart es i
      → Apart (swapped es i j d) i
  Apart-swapped es i j d lt_i lt_j at' apart a b c e lt less at_a at_b =
      elim (from_swapped es i j d lt_i lt_j a c at' at_a) [
        | inl (is, same) ↦ absurd (omega (arith, is, lt))
        | inr (ne, there) ↦ elim (from_swapped es i j d lt_i lt_j b e at' at_b) [
          | inl (is', same') ↦
              apart a j c e lt (omega arith) there (at' ∙ ap (λ (x : ElimSet). some x) (sym same'))
          | inr (ne', there') ↦ apart a b c e lt less there there'
        ]
      ]

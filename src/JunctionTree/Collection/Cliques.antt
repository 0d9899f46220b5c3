-- ===== src/JunctionTree/Collection/Cliques.antt =====
-- The sets of a collection, and the search of `RemoveNonCliques` for a later set that has all the
-- members of a given one.
use junction_box.Base.{
  ℕ, zero, suc, ◌+◌, ◌≤◌, ◌<◌, ◌⊎◌, Bool, true, false, not, ◌||◌, List, ◌≡◌, ◌↔◌, refl, sym, ap,
  ◌∙◌, arith, inl, inr, Bool-cases, Bool_ext, ◌==◌, Option, none, some, length, get_elem?,
  get_elem?_in, Outcome, ok,
}
use mathlib.Core.Path.{subst}
use junction_box.Base.Ranges.{all_from, all_from_sound, all_from_complete}
use junction_box.BitVector.Valid.{bit}
use junction_box.VariableSet.Members.{IsVariableSet}
use junction_box.ElimSets.{ElimSet, contains}
use junction_box.ElimSets.Laws.{contains-intersect}
use junction_box.JunctionTree.Collection.{ElimSetCollection, search_loop}

abbrev pub joined_slot : Option (Option ElimSet) → Option ElimSet
joined_slot none = none
joined_slot (some o) = o

-- The set at an index, when there is one.
abbrev pub slot : List (Option ElimSet) → ℕ → Option ElimSet
slot sets k = joined_slot (get_elem? sets k)

module _ (n : ℕ) where
  abbrev pub sub_bit : ElimSet → ElimSet → ℕ → Bool
  sub_bit c d k = not (bit c.bv k) || bit d.bv k

  -- Whether `d` has every member of `c`.
  abbrev pub subset : ElimSet → ElimSet → Bool
  subset c d = all_from (sub_bit c d) 0 n

  -- A well-formed set over `n` variables.
  abbrev pub IsSetOf : ElimSet → Type 0
  IsSetOf s = IsVariableSet s × (s.bv.size ≡ n)

  pub subset_iff :
      (c d : ElimSet)
      → (subset c d ≡ true) ↔ ((k : ℕ) → k < n → bit c.bv k ≡ true → bit d.bv k ≡ true)
  subset_iff c d = (
    λ h k lt on. ground (arith, all_from_sound (sub_bit c d) 0 n k h),
    λ h. all_from_complete (sub_bit c d) 0 n (λ k p q. ground (arith, h k)),
  )

  pub subset_self : (c : ElimSet) → subset c c ≡ true
  subset_self c = (subset_iff c c).1 (λ k lt on. on)

  pub subset_trans : (c d e : ElimSet) → subset c d ≡ true → subset d e ≡ true → subset c e ≡ true
  subset_trans c d e h h' =
      (subset_iff c e).1 (λ k lt on. (subset_iff d e).0 h' k lt ((subset_iff c d).0 h k lt on))

  contains-subset : (d c : ElimSet) → IsSetOf d → IsSetOf c → contains d c ≡ ok (subset c d)
  contains-subset d c h k =
      let (b, runs, means) = (contains-intersect d c h.0 k.0 (h.1 ∙ sym k.1)).0 in
      let same : b ≡ subset c d = Bool_ext b (subset c d) (
        λ t. (subset_iff c d).1 (λ i lt on. means.0 t i (rw k.1 lt) on),
        λ t. means.1 (λ i lt on. (subset_iff c d).0 t i (rw (← k.1) lt) on),
      ) in
      runs ∙ ap (λ (x : Bool). ok x) same

  abbrev pub AllSets : List (Option ElimSet) → Type 0
  AllSets es = (k : ℕ) (c : ElimSet) → slot es k ≡ some c → IsSetOf c

  -- What the inner loop finds.
  abbrev pub NoneFound : List (Option ElimSet) → ElimSet → ℕ → ℕ → Type 0
  NoneFound es c j end =
      (b : ℕ) (d : ElimSet) → j ≤ b → b < end → slot es b ≡ some d → subset c d ≡ false

  abbrev pub OneFound : List (Option ElimSet) → ElimSet → ℕ → ℕ → ℕ → ElimSet → Type 0
  OneFound es c j end b d = (j ≤ b) × (b < end) × (slot es b ≡ some d) × (subset c d ≡ true)

  NoneFound-suc :
      (es : List (Option ElimSet)) (c : ElimSet) (j end : ℕ)
      → ((d : ElimSet) → slot es j ≡ some d → subset c d ≡ false)
      → NoneFound es c (j + 1) end
      → NoneFound es c j end
  NoneFound-suc es c j end here rest b d le lt at = elim (Bool-cases (j == b)) [
    | inl t ↦ let is : b ≡ j = ground arith in here d (ap (slot es) (sym is) ∙ at)
    | inr f ↦ rest b d (ground arith) lt at
  ]

  abbrev pub Searched : ElimSetCollection → ElimSet → ℕ → ℕ → Outcome (Option ℕ) → Type 0
  Searched this c j end r =
      ((r ≡ ok none) × NoneFound this.elim_sets c j end)
      ⊎ ((b : ℕ) × (d : ElimSet) × (r ≡ ok (some b)) × OneFound this.elim_sets c j end b d)

  search_more :
      (this : ElimSetCollection) (c : ElimSet) (j end : ℕ) (r : Outcome (Option ℕ))
      → ((d : ElimSet) → slot this.elim_sets j ≡ some d → subset c d ≡ false)
      → Searched this c (j + 1) end r
      → Searched this c j end r
  search_more this c j end r here (inl (runs, clear)) =
      inl (runs, NoneFound-suc this.elim_sets c j end here clear)
  search_more this c j end r here (inr (b, d, runs, (le, lt, at, sub))) =
      inr (b, d, runs, (omega arith, lt, at, sub))

  -- One round, by what stands at the index.
  search_at :
      (c : ElimSet) (left j : ℕ) (this : ElimSetCollection) (o : Option ElimSet)
      → AllSets this.elim_sets
      → IsSetOf c
      → get_elem? this.elim_sets j ≡ some o
      → Searched this c (j + 1) (j + suc left) (search_loop c left (j + 1) this)
      → Searched this c j (j + suc left) (search_loop c (suc left) j this)
  unfolding search_loop
  search_at c left j this none all h at rest = subst (Searched this c j (j + suc left)) (rw at) (
      search_more this c j (j + suc left) (search_loop c left (j + 1) this)
        (λ d is. let q : slot this.elim_sets j ≡ none = rw at in cc) rest)
  search_at c left j this (some es) all h at rest =
      let is : slot this.elim_sets j ≡ some es = rw at in
      let runs = contains-subset es c (all j es is) h in
      elim (Bool-cases (subset c es)) [
        | inl t ↦ inr (j, es, rw (at, runs, t), (omega arith, omega arith, is, t))
        | inr f ↦ subst (Searched this c j (j + suc left)) (rw (at, runs, f)) (
            search_more this c j (j + suc left) (search_loop c left (j + 1) this)
              (λ d q. let same : es ≡ d = cc in ap (subset c) (sym same) ∙ f) rest)
      ]

  pub search_lem :
      (c : ElimSet) (left j : ℕ) (this : ElimSetCollection)
      → AllSets this.elim_sets
      → IsSetOf c
      → j + left ≤ length this.elim_sets
      → Searched this c j (j + left) (search_loop c left j this)
  unfolding search_loop
  search_lem c zero j this all h room = inl (refl, λ b d le lt at. absurd (omega arith))
  search_lem c (suc left) j this all h room =
      let (o, at) = get_elem?_in this.elim_sets j (omega arith) in
      let end : j + 1 + left ≡ j + suc left = omega arith in
      search_at c left j this o all h at (
        subst (λ (m : ℕ). Searched this c (j + 1) m (search_loop c left (j + 1) this)) end
          (search_lem c left (j + 1) this all h (omega arith)))

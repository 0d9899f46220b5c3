-- ===== src/JunctionTree/Collection/Swaps.antt =====
-- A set that moves to another place, as `ElimSetCollection_ReMap` does.
use junction_box.Base.{
  ℕ, zero, suc, ◌+◌, ◌≤◌, ◌<◌, ◌≢◌, ◌⊎◌, true, false, List, [], ◌∷◌, ◌≡◌, sym, ap, ◌∙◌, arith, inl,
  inr, Bool-cases, if◌then◌else◌, ◌==◌, Option, none, some, length, length-set, set,
}
use junction_box.LinkedList.Chain.{get_elem?-set_ne, get_elem?-set_same}
use junction_box.ElimSets.{ElimSet}
use junction_box.JunctionTree.Collection.Cliques.{slot, joined_slot}

pub slot-set :
    (es : List (Option ElimSet)) (a k : ℕ) (o : Option ElimSet)
    → a < length es
    → slot (set es a o) k ≡ (if k == a then o else slot es k)
slot-set es a k o lt = elim (Bool-cases (k == a)) [
  | inl t ↦
      let is : k ≡ a = ground arith in
      rw t (ap (slot (set es a o)) is ∙ ap joined_slot (get_elem?-set_same es a o lt))
  | inr f ↦
      let ne : k ≢ a = λ e. ground arith in rw f (ap joined_slot (get_elem?-set_ne es k a o ne))
]

pub slot-lt :
    (es : List (Option ElimSet)) (a : ℕ) (c : ElimSet) → slot es a ≡ some c → a < length es
slot-lt [] a c e = cc
slot-lt (o ∷ es) zero c e = omega arith
slot-lt (o ∷ es) (suc a) c e = let lt = slot-lt es a c e in omega arith

-- How many sets are there.
abbrev pub weight : Option ElimSet → ℕ
weight none = 0
weight (some c) = 1

pub filled : List (Option ElimSet) → ℕ
filled [] = 0
filled (o ∷ es) = weight o + filled es

pub filled-le : (es : List (Option ElimSet)) → filled es ≤ length es
unfolding filled
filled-le [] = omega arith
filled-le (none ∷ es) = omega (arith, filled-le es)
filled-le (some c ∷ es) = omega (arith, filled-le es)

pub filled-set :
    (es : List (Option ElimSet)) (a : ℕ) (o : Option ElimSet)
    → a < length es
    → filled (set es a o) + weight (slot es a) ≡ filled es + weight o
unfolding filled
filled-set [] a o lt = absurd (omega arith)
filled-set (q ∷ es) zero o lt = omega arith
filled-set (q ∷ es) (suc a) o lt = omega (arith, filled-set es a o (omega arith))

-- The swap: the containing set comes to the place of the contained one.
abbrev pub swapped : List (Option ElimSet) → ℕ → ℕ → ElimSet → List (Option ElimSet)
swapped es i j d = set (set es i (some d)) j none

module _ (es : List (Option ElimSet)) (i j : ℕ) (d : ElimSet) (lt_i : i < j)
    (lt_j : j < length es) where
  pub slot-swapped :
      (k : ℕ)
      → slot (swapped es i j d) k
        ≡ (if k == j then none else (if k == i then some d else slot es k))
  slot-swapped k =
      slot-set (set es i (some d)) j k none (omega (arith, length-set es i (some d)))
      ∙ ap (λ (o : Option ElimSet). if k == j then none else o)
          (slot-set es i k (some d) (omega arith))

  pub length-swapped : length (swapped es i j d) ≡ length es
  length-swapped = length-set (set es i (some d)) j none ∙ length-set es i (some d)

  pub filled-swapped :
      (c : ElimSet)
      → slot es i ≡ some c
      → slot es j ≡ some d
      → filled (swapped es i j d) + 1 ≡ filled es
  filled-swapped c at at' =
      let before : slot (set es i (some d)) j ≡ some d =
        slot-set es i j (some d) (omega arith)
        ∙ (let f : (j == i) ≡ false = ground arith in rw f at') in
      let one = filled-set es i (some d) (omega arith) in
      let two = filled-set (set es i (some d)) j none (omega (arith, length-set es i (some d))) in
      omega (arith, one, two, ap weight at, ap weight before)

  -- Each set of the result was there.
  pub from_swapped :
      (k : ℕ) (e : ElimSet)
      → slot es j ≡ some d
      → slot (swapped es i j d) k ≡ some e
      → ((k ≡ i) × (e ≡ d)) ⊎ ((k ≢ j) × (slot es k ≡ some e))
  from_swapped k e at at' = elim (Bool-cases (k == j)) [
    | inl t ↦ let gone : slot (swapped es i j d) k ≡ none = slot-swapped k ∙ rw t in cc
    | inr f ↦ elim (Bool-cases (k == i)) [
      | inl t ↦
          let here : slot (swapped es i j d) k ≡ some d = slot-swapped k ∙ rw (f, t) in
          inl (ground arith, cc)
      | inr g ↦
          let same : slot (swapped es i j d) k ≡ slot es k = slot-swapped k ∙ rw (f, g) in
          inr (λ q. ground arith, sym same ∙ at')
    ]
  ]

  pub slot-swapped_at : slot (swapped es i j d) i ≡ some d
  slot-swapped_at =
      let f : (i == j) ≡ false = ground arith in
      let t : (i == i) ≡ true = ground arith in slot-swapped i ∙ rw (f, t)

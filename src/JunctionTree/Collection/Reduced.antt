-- ===== src/JunctionTree/Collection/Reduced.antt =====
-- What `RemoveNonCliques` leaves of a collection. A set is only compared with those behind it.
use junction_box.Base.{
  ℕ, zero, suc, ◌+◌, ◌-◌, ◌*◌, ◌≤◌, ◌<◌, true, false, List, ◌≡◌, refl, sym, ap, ◌∙◌, arith, inl,
  inr, Bool-cases, ◌==◌, ltb, ltb→lt, Option, none, some, length, length-set, set, get_elem?,
  get_elem?_in, Outcome, ok,
}
use mathlib.Core.Path.{subst}
use junction_box.ElimSets.{ElimSet}
use junction_box.JunctionTree.Collection.{
  ElimSetCollection, remap_set, remove_loop, remove_non_cliques,
}
use junction_box.JunctionTree.Collection.Cliques.{slot, joined_slot, subset, AllSets, search_lem}
use junction_box.JunctionTree.Collection.Swaps.{
  slot-lt, filled, filled-le, swapped, length-swapped, filled-swapped,
}
use junction_box.JunctionTree.Collection.Covers.{
  Covers, Covers-self, Covers-swapped, AllSets-swapped, Apart, Apart-swapped,
}

module _ (n : ℕ) where
  -- What the loop makes of a collection.
  pub record IsReduced (es₀ : List (Option ElimSet)) (r : Outcome ElimSetCollection) : Type 0 where
    pub result : ElimSetCollection
    pub returns : r ≡ ok result
    pub sized : length result.elim_sets ≡ length es₀
    pub covers : Covers n es₀ result.elim_sets
    pub apart :
        (a b : ℕ) (c d : ElimSet)
        → a < b
        → slot result.elim_sets a ≡ some c
        → slot result.elim_sets b ≡ some d
        → subset n c d ≡ false
    pub valid : AllSets n result.elim_sets

  module _ (es₀ : List (Option ElimSet)) where
    -- The state of the loop at an index.
    record IsLoop (i : ℕ) (this : ElimSetCollection) : Type 0 where
      size : this.size ≡ length this.elim_sets
      same_length : length this.elim_sets ≡ length es₀
      all : AllSets n this.elim_sets
      apart : Apart n this.elim_sets i
      covers : Covers n es₀ this.elim_sets

    remap_set_lem :
        (this : ElimSetCollection) (i j : ℕ) (d : ElimSet)
        → i < j
        → j < length this.elim_sets
        → slot this.elim_sets j ≡ some d
        → remap_set this j i ≡ ok (record this { elim_sets = swapped this.elim_sets i j d })
    unfolding remap_set
    remap_set_lem this i j d lt_i lt_j at' =
        let es = this.elim_sets in
        let (o, at_j) = get_elem?_in es j lt_j in
        let (q, at_i) = get_elem?_in es i (omega arith) in
        let is : o ≡ some d = ap joined_slot (sym at_j) ∙ at' in
        let (r, at_s) = get_elem?_in (set es i o) j (omega (arith, length-set es i o)) in
        rw (at_j, at_i, at_s)
          (ap (λ (x : Option ElimSet). ok (record this { elim_sets = set (set es i x) j none })) is)

    IsLoop-swapped :
        (this : ElimSetCollection) (i j : ℕ) (c d : ElimSet)
        → i < j
        → j < length this.elim_sets
        → slot this.elim_sets i ≡ some c
        → slot this.elim_sets j ≡ some d
        → subset n c d ≡ true
        → IsLoop i this
        → IsLoop i (record this { elim_sets = swapped this.elim_sets i j d })
    IsLoop-swapped this i j c d lt_i lt_j at at' sub h = record {
      size = h.size ∙ sym (length-swapped this.elim_sets i j d lt_i lt_j);
      same_length = length-swapped this.elim_sets i j d lt_i lt_j ∙ h.same_length;
      all = AllSets-swapped n this.elim_sets i j d lt_i lt_j at' h.all;
      apart = Apart-swapped n this.elim_sets i j d lt_i lt_j at' h.apart;
      covers = Covers-swapped n es₀ this.elim_sets i j c d lt_i lt_j at at' sub h.covers;
    }

    IsLoop-suc :
        (this : ElimSetCollection) (i : ℕ)
        → ((b : ℕ) (c d : ElimSet)
            → i < b
            → slot this.elim_sets i ≡ some c
            → slot this.elim_sets b ≡ some d
            → subset n c d ≡ false)
        → IsLoop i this
        → IsLoop (i + 1) this
    IsLoop-suc this i here h = record {
      size = h.size;
      same_length = h.same_length;
      all = h.all;
      apart = λ a b c d lt less at_a at_b. elim (Bool-cases (a == i)) [
        | inl t ↦
            let is : a ≡ i = ground arith in
            here b c d (omega arith) (ap (slot this.elim_sets) (sym is) ∙ at_a) at_b
        | inr f ↦ h.apart a b c d (ground arith) less at_a at_b
      ];
      covers = h.covers;
    }

    IsLoop-end :
        (this : ElimSetCollection) (i : ℕ) → this.size ≤ i → IsLoop i this → IsReduced es₀ (ok this)
    IsLoop-end this i stop h = record {
      result = this;
      returns = refl;
      sized = h.same_length;
      covers = h.covers;
      apart = λ a b c d less at_a at_b.
          h.apart a b c d (let lt = slot-lt this.elim_sets a c at_a in omega (arith, lt, h.size))
            less at_a at_b;
      valid = h.all;
    }

    -- The call for the rest of the fuel.
    abbrev Continues : ℕ → Type 0
    Continues fuel =
        (i : ℕ) (this : ElimSetCollection)
        → IsLoop i this
        → (this.size - i) + filled this.elim_sets < fuel
        → IsReduced es₀ (remove_loop fuel i this)

    -- A round at an index where a set stands.
    round_lem :
        (fuel i : ℕ) (this : ElimSetCollection) (c : ElimSet)
        → Continues fuel
        → IsLoop i this
        → i < this.size
        → (this.size - i) + filled this.elim_sets < suc fuel
        → get_elem? this.elim_sets i ≡ some (some c)
        → IsReduced es₀ (remove_loop (suc fuel) i this)
    unfolding remove_loop
    round_lem fuel i this c ih h lt room at =
        let es = this.elim_sets in
        let below : ltb i this.size ≡ true = ground arith in
        let is : slot es i ≡ some c = rw at in
        let left = this.size - (i + 1) in
        elim (search_lem n c left (i + 1) this h.all (h.all i c is) (omega (arith, h.size))) [
          | inl (runs, clear) ↦ subst (IsReduced es₀) (rw (below, at, runs)) (
              ih (i + 1) this
                (IsLoop-suc this i
                  (λ b e d less at_i at_b.
                    let same : e ≡ c = cc in
                    ap (λ (x : ElimSet). subset n x d) same
                    ∙ clear b d (omega arith)
                        (let in_b = slot-lt es b d at_b in omega (arith, in_b, h.size)) at_b)
                  h)
                (omega (arith, room, lt)))
          | inr (j, d, runs, (le, lt_j, at_j, sub)) ↦
              let lt_i : i < j = omega arith in
              let inside : j < length es = omega (arith, lt_j, h.size, lt) in
              let less = filled-swapped es i j d lt_i inside c is at_j in
              let swaps = remap_set_lem this i j d lt_i inside at_j in
              subst (IsReduced es₀) (rw (below, at, runs, swaps)) (
                ih i (record this { elim_sets = swapped es i j d })
                  (IsLoop-swapped this i j c d lt_i inside is at_j sub h)
                  (omega (arith, room, less)))
        ]

    empty_round :
        (fuel i : ℕ) (this : ElimSetCollection)
        → Continues fuel
        → IsLoop i this
        → i < this.size
        → (this.size - i) + filled this.elim_sets < suc fuel
        → get_elem? this.elim_sets i ≡ some none
        → IsReduced es₀ (remove_loop (suc fuel) i this)
    unfolding remove_loop
    empty_round fuel i this ih h lt room at =
        let below : ltb i this.size ≡ true = ground arith in
        let gone : slot this.elim_sets i ≡ none = rw at in
        subst (IsReduced es₀) (rw (below, at)) (
          ih (i + 1) this (IsLoop-suc this i (λ b e d less at_i at_b. cc) h)
            (omega (arith, room, lt)))

    any_round :
        (fuel i : ℕ) (this : ElimSetCollection) (o : Option ElimSet)
        → Continues fuel
        → IsLoop i this
        → i < this.size
        → (this.size - i) + filled this.elim_sets < suc fuel
        → get_elem? this.elim_sets i ≡ some o
        → IsReduced es₀ (remove_loop (suc fuel) i this)
    any_round fuel i this none ih h lt room at = empty_round fuel i this ih h lt room at
    any_round fuel i this (some c) ih h lt room at = round_lem fuel i this c ih h lt room at

    remove_loop_lem : (fuel : ℕ) → Continues fuel
    unfolding remove_loop
    remove_loop_lem zero i this h room = absurd (omega arith)
    remove_loop_lem (suc fuel) i this h room = elim (Bool-cases (ltb i this.size)) [
      | inl t ↦
          let lt = ltb→lt i this.size t in
          let (o, at) = get_elem?_in this.elim_sets i (omega (arith, h.size, lt)) in
          any_round fuel i this o (remove_loop_lem fuel) h lt room at
      | inr f ↦ subst (IsReduced es₀) (rw f) (IsLoop-end this i (ground arith) h)
    ]

  -- `RemoveNonCliques` of a collection of well-formed sets over `n` variables ends, on twice its
  -- size and one more rounds. What it leaves are sets of the collection, every set of the
  -- collection is inside one of them, and none of them is inside one that stands behind it.
  pub remove_non_cliques_lem :
      (this : ElimSetCollection)
      → this.size ≡ length this.elim_sets
      → AllSets n this.elim_sets
      → IsReduced this.elim_sets (remove_non_cliques (2 * this.size + 1) this)
  unfolding remove_non_cliques
  remove_non_cliques_lem this size all =
      remove_loop_lem this.elim_sets (2 * this.size + 1) 0 this
        (record {
          size = size;
          same_length = refl;
          all = all;
          apart = λ a b c d lt. absurd (omega arith);
          covers = Covers-self n this.elim_sets;
        })
        (omega (arith, filled-le this.elim_sets, size))

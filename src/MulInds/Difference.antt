-- ===== src/MulInds/Difference.antt =====
-- The difference of two sets, and the run of the loop that both functions share.
use junction_box.Base.{
  ℕ, ◌<◌, ◌||◌, Bool, true, false, List, [], ◌≡◌, refl, sym, ap, ap₂, ◌∙◌, length, length-map, All,
  ok,
}
use mathlib.Core.Bool.{xor}
use junction_box.Radix.{product, decode}
use junction_box.BitVector
use junction_box.BitVector.{BitVector}
use junction_box.BitVector.Valid.{bit}
use junction_box.BitVector.Combine.{and_or_xor_lem}
use junction_box.Variables.{Variable, VariableOrdering}
use junction_box.VariableSet.{VariableSet, create_from_bv}
use junction_box.VariableSet.Members.{IsVariableSet, members}
use junction_box.Indices.Laws.{cards, count_up}
use junction_box.Indices.RoundTrip.{digits_rows, length-count_up}
use junction_box.MulInds.{table_loop}
use junction_box.MulInds.Table.{IsSplit, table_lem}
use junction_box.MulInds.Assignments.{combinations, full_table}

abbrev pub Contained : VariableSet → VariableSet → Type 0
Contained small large = (k : ℕ) → k < small.bv.size → bit small.bv k ≡ true → bit large.bv k ≡ true

-- What a bit of the difference says, when `s` implies `l`.
apart_bits : (s l : Bool) → (s ≡ true → l ≡ true) → s ≡ true → xor s l ≡ false
unfolding xor
apart_bits true l h e = rw (h refl)
apart_bits false l h e = cc

whole_bits : (s l : Bool) → (s ≡ true → l ≡ true) → l ≡ (s || xor s l)
unfolding xor
whole_bits true l h = h refl
whole_bits false true h = refl
whole_bits false false h = refl

pub xor_swap : (a b : Bool) → xor a b ≡ xor b a
unfolding xor
xor_swap true true = refl
xor_swap true false = refl
xor_swap false true = refl
xor_swap false false = refl

-- The difference of two sets, one of which contains the other, completes the smaller one.
pub difference-IsSplit :
    (small rest large : VariableSet)
    → IsVariableSet small
    → IsVariableSet rest
    → IsVariableSet large
    → small.o ≡ large.o
    → rest.o ≡ large.o
    → ((i : ℕ) → bit rest.bv i ≡ xor (bit small.bv i) (bit large.bv i))
    → Contained small large
    → IsSplit small rest large
difference-IsSplit small rest large hs hr hl so ro bits sub = record {
  first_set = hs;
  second_set = hr;
  over_set = hl;
  first_o = so;
  second_o = ro;
  disjoint = λ i lt on. bits i ∙ apart_bits (bit small.bv i) (bit large.bv i) (sub i lt) on;
  union = λ i lt. rw (bits i) (whole_bits (bit small.bv i) (bit large.bv i) (sub i lt));
}

pub length-combinations : (s : VariableSet) → length (combinations s) ≡ product (cards s)
length-combinations s =
    length-map (count_up 0 (product (cards s))) (decode (cards s))
    ∙ length-count_up 0 (product (cards s))

pub combinations_rows :
    (s : VariableSet) → All (λ (row : List ℕ). length row ≡ length (members s)) (combinations s)
combinations_rows s =
    rw (← length-map (members s) (λ (v : Variable). v.cardinality))
      (digits_rows (cards s) 0 (product (cards s)))

-- The loop, on the rows that `EnumerateValues` lists.
pub table_run :
    (fresh : ℕ → List ℕ) (first second over : VariableSet)
    → ((n : ℕ) → length (fresh n) ≡ n)
    → IsSplit first second over
    → 0 < length (members over)
    → table_loop fresh first
        (combinations first)
        second
        (combinations second)
        (product (cards second))
        over
        (product (cards first))
        0
      ≡ ok (full_table first second over)
table_run fresh first second over fits h some_member =
    ap₂
      (λ (m n : ℕ).
        table_loop fresh first (combinations first) second (combinations second) m over n 0)
      (sym (length-combinations second)) (sym (length-combinations first))
    ∙ table_lem first second over h fresh fits some_member (combinations second)
        (combinations_rows second) (combinations first) [] 0 (combinations_rows first) refl

-- The vector of the difference, of which both functions make a set.
pub record IsDifference (this target : VariableSet) : Type 0 where
  pub vector : BitVector
  pub returns : BitVector.xor_ this.bv target.bv 0 ≡ ok (this.bv, vector)
  pub valid : IsVariableSet (create_from_bv this.o vector)
  pub bits : (i : ℕ) → bit vector i ≡ xor (bit this.bv i) (bit target.bv i)

pub difference :
    (this target : VariableSet)
    → IsVariableSet this
    → IsVariableSet target
    → this.o ≡ target.o
    → IsDifference this target
difference this target h k o =
    let size : this.bv.size ≡ target.bv.size =
      h.width ∙ ap (λ (o : VariableOrdering). o.size) o ∙ sym k.width in
    let x = (and_or_xor_lem this.bv target.bv 0 h.vector k.vector size).2 in
    record {
      vector = x.result;
      returns = x.returns;
      valid = record {
        vector = x.valid;
        width = x.same_size ∙ h.width;
        ordering = h.ordering;
        discrete = h.discrete;
      };
      bits = x.bits;
    }

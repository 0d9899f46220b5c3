-- ===== src/Tests/Products.antt =====
-- Runs of the theorems on the products of potentials.
use junction_box.Base.{
  Option, ℕ, ◌<◌, ◌*◌, ◌⊎◌, List, [], ◌∷◌, ◌≡◌, refl, arith, length, get_or, some, ok, ◌>>=◌,
}
use junction_box.Base.Digits.{test_bit}
use junction_box.Radix.{product}
use junction_box.BitVector.Valid.{bit}
use junction_box.VariableSet.{VariableSet}
use junction_box.VariableSet.Members.{members}
use junction_box.MulInds.{MulInd, compute_marg_ind, compute_mul_ind}
use junction_box.MulInds.Table.{IsSplit}
use junction_box.MulInds.Assignments.{InRange, index_of}
use junction_box.Potentials.{Pot, product_tabular}
use junction_box.Potentials.Sizes.{IsPot}
use junction_box.Potentials.Absorbed.{product_marg-entries}
use junction_box.Potentials.Entries.{product_tabular-entries}
use junction_box.Tests.Data.{dirty_block, length-dirty_block, garden, set_of, set_of-IsVariableSet}
use junction_box.Tests.Tables.{garden_pot, garden_pot-IsPot, inside}

-- A potential over rain and grass.
abbrev pub weights : Pot ℕ
weights = record { label = []; vbls = set_of 5; tab_data = 2 ∷ 3 ∷ 5 ∷ 7 ∷ []; table_size = 4 }

pub weights-IsPot : IsPot weights
weights-IsPot = record {
  set = set_of-IsVariableSet 5 (omega arith);
  sized = unfold members bit test_bit product in refl;
  filled = refl;
}

product_tabular-entries_example :
    (rest : VariableSet) × IsSplit (set_of 5) rest (set_of 7)
    × ((q : Pot ℕ) × ((compute_mul_ind dirty_block (set_of 5) (set_of 7) >>= λ mi.
            product_tabular (λ a b. a * b) weights garden_pot (some mi))
          ≡ ok q)
        × IsPot q
        × (q.vbls ≡ set_of 7)
        × (((length (members rest) ≡ 0) × (q.tab_data ≡ garden_pot.tab_data))
            ⊎ ((0 < length (members rest))
                × ((a : List ℕ) (d : ℕ)
                    → InRange garden a
                    → get_or q.tab_data (index_of (set_of 7) a) d
                      ≡ get_or weights.tab_data (index_of (set_of 5) a) d
                        * get_or garden_pot.tab_data (index_of (set_of 7) a) d))))
product_tabular-entries_example =
    product_tabular-entries (λ a b. a * b) weights garden_pot dirty_block weights-IsPot
      garden_pot-IsPot length-dirty_block refl inside (unfold members bit test_bit in omega arith)

product_marg-entries_example :
    (mi : Option MulInd) × (compute_marg_ind dirty_block (set_of 7) (set_of 5) ≡ ok mi)
    × ((q : Pot ℕ) × (product_tabular (λ a b. a * b) weights garden_pot mi ≡ ok q)
        × IsPot q
        × (q.vbls ≡ set_of 7)
        × ((a : List ℕ) (d : ℕ)
            → InRange garden a
            → get_or q.tab_data (index_of (set_of 7) a) d
              ≡ get_or weights.tab_data (index_of (set_of 5) a) d
                * get_or garden_pot.tab_data (index_of (set_of 7) a) d))
product_marg-entries_example =
    product_marg-entries (λ a b. a * b) weights garden_pot dirty_block weights-IsPot
      garden_pot-IsPot length-dirty_block refl inside (unfold members bit test_bit in omega arith)

-- ===== src/Tests/Tables.antt =====
-- Runs of the theorems on index tables and potentials.
use junction_box.Base.{
  ℕ, zero, suc, ◌+◌, ◌<◌, ◌-◌, ◌*◌, ◌/◌, ◌⊎◌, Option, [], ◌∷◌, map, ◌≡◌, refl, sym, arith, ◌==◌,
  length, replicate, get_elem?, none, some, ok, ◌>>=◌,
}
use junction_box.Base.Digits.{test_bit}
use junction_box.Radix.{product, encode}
use junction_box.BitVector.Valid.{bit}
use junction_box.AssocMap
use junction_box.AssocMap.Laws.{create-IsMap, lookup}
use junction_box.AssocMap.Keys.{bits_keys}
use junction_box.AssocMap.BitVectorMap.{BitVectorMap}
use junction_box.VariableSet.{VariableSet}
use junction_box.VariableSet.Members.{members, select}
use junction_box.Indices.Laws.{cards}
use junction_box.Crossing.{index_cross}
use junction_box.Crossing.Tags.{weave}
use junction_box.Crossing.Sets.{Disjoint, tags, index_cross-weave}
use junction_box.MulInds.{MulInd, compute_marg_ind, compute_mul_ind, get_mul_ind, get_marg_ind}
use junction_box.MulInds.Table.{IsSplit}
use junction_box.MulInds.Assignments.{full_table}
use junction_box.MulInds.Difference.{Contained}
use junction_box.MulInds.Laws.{IsTable, compute_marg_ind_lem, compute_mul_ind_lem}
use junction_box.MulInds.Memos.{
  IsMulTable, IsMargTable, IsMulMemo, IsMargMemo, Holds, memo_tables_lem,
}
use junction_box.Potentials.{Numbers, Pot, evaluate_tabular, margin_values, sum_margin_tabular}
use junction_box.Potentials.Sizes.{IsPot, evaluate_tabular_lem}
use junction_box.Potentials.Margin.{gather, sum_margin_tabular_lem}
use junction_box.Tests.Data.{dirty_block, length-dirty_block, set_of, set_of-IsVariableSet}

-- Rain and grass on one side, the sprinkler on the other.
apart : Disjoint 3 (bit (set_of 5).bv) (bit (set_of 2).bv)
unfolding bit test_bit
apart zero h e = refl
apart (suc zero) h e = sym e
apart (suc (suc zero)) h e = refl
apart (suc (suc (suc k))) h e = absurd (omega arith)

pub inside : Contained (set_of 5) (set_of 7)
unfolding bit test_bit
inside zero h e = refl
inside (suc zero) h e = refl
inside (suc (suc zero)) h e = refl
inside (suc (suc (suc k))) h e = absurd (omega arith)

index_cross-weave_example :
    index_cross dirty_block (set_of 5) (1 ∷ 0 ∷ []) (set_of 2) ((2 ∷ []) ∷ (0 ∷ []) ∷ []) 2
    ≡ ok ((1 ∷ 2 ∷ 0 ∷ []) ∷ (1 ∷ 0 ∷ 0 ∷ []) ∷ [])
unfolding bit test_bit tags weave members select
index_cross-weave_example =
    index_cross-weave dirty_block (set_of 5) (set_of 2) (1 ∷ 0 ∷ []) ((2 ∷ []) ∷ (0 ∷ []) ∷ [])
      length-dirty_block (set_of-IsVariableSet 5 (omega arith))
      (set_of-IsVariableSet 2 (omega arith)) refl apart refl (refl, (refl, tt))

compute_marg_ind_lem_example :
    (rest : VariableSet) × IsSplit (set_of 5) rest (set_of 7)
    × (((length (members rest) ≡ 0)
          × (compute_marg_ind dirty_block (set_of 7) (set_of 5) ≡ ok none))
        ⊎ ((0 < length (members rest))
            × ((mi : MulInd) × (compute_marg_ind dirty_block (set_of 7) (set_of 5) ≡ ok (some mi))
                × (mi.vbls ≡ rest)
                × IsTable (set_of 5) rest (set_of 7) mi)))
compute_marg_ind_lem_example =
    compute_marg_ind_lem dirty_block (set_of 7) (set_of 5) length-dirty_block
      (set_of-IsVariableSet 7 (omega arith)) (set_of-IsVariableSet 5 (omega arith)) refl inside
      (unfold members bit test_bit in omega arith)

compute_mul_ind_lem_example :
    (rest : VariableSet) × IsSplit (set_of 5) rest (set_of 7)
    × ((mi : MulInd) × (compute_mul_ind dirty_block (set_of 5) (set_of 7) ≡ ok mi)
        × (mi.vbls ≡ set_of 5)
        × (((length (members rest) ≡ 0) × (mi.mul_size ≡ 0))
            ⊎ ((0 < length (members rest)) × IsTable (set_of 5) rest (set_of 7) mi)))
compute_mul_ind_lem_example =
    compute_mul_ind_lem dirty_block (set_of 5) (set_of 7) length-dirty_block
      (set_of-IsVariableSet 5 (omega arith)) (set_of-IsVariableSet 7 (omega arith)) refl inside
      (unfold members bit test_bit in omega arith)

inside_rain : Contained (set_of 1) (set_of 5)
unfolding bit test_bit
inside_rain zero h e = refl
inside_rain (suc zero) h e = e
inside_rain (suc (suc zero)) h e = refl
inside_rain (suc (suc (suc k))) h e = absurd (omega arith)

empty-IsMulMemo : IsMulMemo dirty_block (set_of 5) AssocMap.create
unfolding lookup
empty-IsMulMemo = record { map = create-IsMap (bits_keys 3); holds = λ id v at. cc }

empty-IsMargMemo : IsMargMemo dirty_block (set_of 5) AssocMap.create
unfolding lookup
empty-IsMargMemo = record { map = create-IsMap (bits_keys 3); holds = λ id v at. cc }

-- The memos of rain and grass when the tables in the whole garden, and for the rain, are looked for.
abbrev Found : BitVectorMap MulInd → BitVectorMap (Option MulInd) → Type 0
Found memo marg_memo =
    ((memo' : BitVectorMap MulInd) × (mi : MulInd) × (get_mul_ind dirty_block memo (set_of 5)
          (set_of 7)
        ≡ ok (memo', mi))
      × IsMulTable (set_of 5) (set_of 7) mi
      × IsMulMemo dirty_block (set_of 5) memo'
      × Holds dirty_block (set_of 5) (set_of 7) mi memo memo')
    × ((memo' : BitVectorMap (Option MulInd)) × (mi : Option MulInd) × (get_marg_ind dirty_block
            marg_memo (set_of 5) (set_of 1)
          ≡ ok (memo', mi))
        × IsMargTable (set_of 5) (set_of 1) mi
        × IsMargMemo dirty_block (set_of 5) memo'
        × Holds dirty_block (set_of 5) (set_of 1) mi marg_memo memo')

found_first : Found AssocMap.create AssocMap.create
found_first =
    memo_tables_lem dirty_block (set_of 5) (set_of 7) (set_of 1) AssocMap.create AssocMap.create
      length-dirty_block (set_of-IsVariableSet 5 (omega arith))
      (set_of-IsVariableSet 7 (omega arith)) (set_of-IsVariableSet 1 (omega arith)) refl refl inside
      (unfold members bit test_bit in omega arith) inside_rain
      (unfold members bit test_bit in omega arith) empty-IsMulMemo empty-IsMargMemo

-- And once more, when the memos have them.
memo_tables_lem_example : Found found_first.0.0 found_first.1.0
memo_tables_lem_example =
    memo_tables_lem dirty_block (set_of 5) (set_of 7) (set_of 1) found_first.0.0 found_first.1.0
      length-dirty_block (set_of-IsVariableSet 5 (omega arith))
      (set_of-IsVariableSet 7 (omega arith)) (set_of-IsVariableSet 1 (omega arith)) refl refl inside
      (unfold members bit test_bit in omega arith) inside_rain
      (unfold members bit test_bit in omega arith) found_first.0.4 found_first.1.4

-- Natural numbers in place of `double`.
abbrev pub naturals : Numbers ℕ
naturals = record {
  null = 0;
  unit = 1;
  plus = λ a b. a + b;
  minus = λ a b. a - b;
  times = λ a b. a * b;
  over = λ a b. a / b;
  is_null = λ a. a == 0;
  exp = λ a. 2 * a;
  log = λ a. a / 2;
}

-- A potential over rain, sprinkler and grass.
abbrev pub garden_pot : Pot ℕ
garden_pot = record {
  label = [];
  vbls = set_of 7;
  tab_data = 1 ∷ 2 ∷ 3 ∷ 4 ∷ 5 ∷ 6 ∷ 7 ∷ 8 ∷ 9 ∷ 10 ∷ 11 ∷ 12 ∷ [];
  table_size = 12;
}

pub garden_pot-IsPot : IsPot garden_pot
garden_pot-IsPot = record {
  set = set_of-IsVariableSet 7 (omega arith);
  sized = unfold members bit test_bit product in refl;
  filled = refl;
}

evaluate_tabular_lem_example :
    (v : ℕ) × (evaluate_tabular garden_pot (1 ∷ 2 ∷ 1 ∷ []) ≡ ok v)
    × (get_elem? garden_pot.tab_data (encode (cards (set_of 7)) (1 ∷ 2 ∷ 1 ∷ [])) ≡ some v)
evaluate_tabular_lem_example =
    evaluate_tabular_lem garden_pot (1 ∷ 2 ∷ 1 ∷ []) garden_pot-IsPot
      (unfold members bit test_bit in omega arith)
      (unfold members bit test_bit in (omega arith, (omega arith, (omega arith, tt))))

sum_margin_tabular_lem_example :
    (rest : VariableSet) × IsSplit (set_of 5) rest (set_of 7)
    × ((q : Pot ℕ) × ((compute_mul_ind dirty_block (set_of 5) (set_of 7) >>= λ mi.
            sum_margin_tabular naturals (margin_values naturals) dirty_block garden_pot mi)
          ≡ ok q)
        × IsPot q
        × (q.vbls ≡ set_of 5)
        × (((length (members rest) ≡ 0) × (q.tab_data ≡ replicate (product (cards (set_of 5))) 0))
            ⊎ ((0 < length (members rest))
                × (q.tab_data
                    ≡ map
                        (λ row. gather 0 (λ a b. a + b) garden_pot.tab_data row 0)
                        (full_table (set_of 5) rest (set_of 7))))))
sum_margin_tabular_lem_example =
    sum_margin_tabular_lem naturals garden_pot (set_of 5) garden_pot-IsPot dirty_block
      length-dirty_block ((omega arith, tt), ((omega arith, tt), ((omega arith, tt), tt)))
      (set_of-IsVariableSet 5 (omega arith)) refl inside
      (unfold members bit test_bit in omega arith)

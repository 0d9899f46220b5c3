-- ===== src/Tests/Sets.antt =====
-- Runs of the theorems on variables, sets of variables and indices.
use junction_box.Base.{ℕ, Bool, true, [], ◌∷◌, ◌≡◌, ◌↔◌, ◌<◌, refl, arith, if◌then◌else◌, ok, ◌>>=◌}
use junction_box.BitVector.Valid.{bit}
use junction_box.VariableSet.{
  VariableSet, add, contained_in, get_variable_list, get_num_vbls, get_vbl_cardinalities,
  get_cardinality,
}
use junction_box.VariableSet.Members.{IsVariableSet, members}
use junction_box.VariableSet.Ops.{set_views, add_lem, is_rank, rank_of, contained_in_lem}
use junction_box.Radix.{product, decode}
use junction_box.Indices.{enumerate_values, compute_index, compute_indices}
use junction_box.Indices.Laws.{count_up, enumerate_values_lem}
use junction_box.Indices.RoundTrip.{compute_indices-enumerate_values}
use junction_box.Indices.Bounds.{compute_index-lt}
use junction_box.Base.Digits.{test_bit}
use junction_box.Tests.Data.{
  rain, sprinkler, grass, garden, set_of, rain_sprinkler-IsVariableSet, everything-IsVariableSet,
}

set_views_example :
    (get_variable_list (set_of 3) ≡ ok (rain ∷ sprinkler ∷ []))
    × (get_num_vbls (set_of 3) ≡ ok 2)
    × (get_vbl_cardinalities (set_of 3) ≡ ok (2 ∷ 3 ∷ []))
    × (get_cardinality (set_of 3) ≡ ok 6)
unfolding members bit test_bit product
set_views_example = set_views (set_of 3) rain_sprinkler-IsVariableSet

add_lem_example :
    (s : VariableSet) × (add (set_of 3) grass ≡ ok s)
    × IsVariableSet s
    × (s.o ≡ garden)
    × ((k : ℕ)
        → bit s.bv k ≡ (if is_rank (rank_of (set_of 3) grass) k then true else bit (set_of 3).bv k))
add_lem_example = add_lem (set_of 3) grass rain_sprinkler-IsVariableSet

contained_in_lem_example :
    (b : Bool) × (contained_in (set_of 3) (set_of 7) ≡ ok b)
    × ((b ≡ true) ↔ ((k : ℕ) → k < 3 → bit (set_of 3).bv k ≡ true → bit (set_of 7).bv k ≡ true))
contained_in_lem_example =
    contained_in_lem (set_of 3) (set_of 7) rain_sprinkler-IsVariableSet everything-IsVariableSet
      refl

enumerate_values_lem_example :
    enumerate_values (set_of 3)
    ≡ ok (
      (0 ∷ 0 ∷ []) ∷ (0 ∷ 1 ∷ []) ∷ (0 ∷ 2 ∷ []) ∷ (1 ∷ 0 ∷ []) ∷ (1 ∷ 1 ∷ []) ∷ (1 ∷ 2 ∷ []) ∷ [],
      6,
    )
unfolding members bit test_bit product decode count_up
enumerate_values_lem_example =
    enumerate_values_lem (set_of 3) rain_sprinkler-IsVariableSet (omega arith)

compute_indices-enumerate_values_example :
    (enumerate_values (set_of 3) >>= λ (rows, count). compute_indices (set_of 3) rows count)
    ≡ ok (0 ∷ 1 ∷ 2 ∷ 3 ∷ 4 ∷ 5 ∷ [])
unfolding members bit test_bit product count_up
compute_indices-enumerate_values_example =
    compute_indices-enumerate_values (set_of 3) rain_sprinkler-IsVariableSet (omega arith)

compute_index-lt_example :
    (index : ℕ) × (compute_index (set_of 3) (1 ∷ 2 ∷ []) ≡ ok index)
    × ((index < 6) × (decode (2 ∷ 3 ∷ []) index ≡ 1 ∷ 2 ∷ []))
unfolding members bit test_bit product
compute_index-lt_example =
    compute_index-lt (set_of 3) (1 ∷ 2 ∷ []) rain_sprinkler-IsVariableSet (omega arith)
      (omega arith, (omega arith, tt))

-- ===== src/Tests/Lists.antt =====
-- Runs of the theorems on linked lists, tables and observations.
use junction_box.Base.{
  ℕ, ◌+◌, ◌<◌, ◌≤◌, ◌⊎◌, ◌==◌, if◌then◌else◌, [], ◌∷◌, ◌≡◌, refl, arith, get_elem?, Option, none,
  some, ok,
}
use junction_box.Base.Digits.{test_bit}
use junction_box.BitVector.Valid.{bit}
use junction_box.CString.Join.{joined}
use junction_box.LinkedList.{LinkedList, Heap, append, to_string}
use junction_box.LinkedList.Chain.{IsList}
use junction_box.LinkedList.Laws.{IsGrown, append_lem}
use junction_box.LinkedList.Print.{list_to_string_lem}
use junction_box.VariableSet.Members.{members, select}
use junction_box.Potentials.Sizes.{IsPot}
use junction_box.Model.{Observation, observation_create}
use junction_box.Model.Laws.{observation_create_lem}
use junction_box.Tests.Data.{
  dirty_block, length-dirty_block, sprinkler, set_of, set_of-IsVariableSet,
}

-- The list 7, 8; its second node was made first.
abbrev two_nodes : Heap ℕ
two_nodes = record { contents = 8; next = none } ∷ record { contents = 7; next = some 0 } ∷ []

abbrev two_list : LinkedList
two_list = record { size = 2; first = some 1; last = some 0 }

two_list-IsList : IsList two_nodes two_list ((1, 7) ∷ (0, 8) ∷ [])
two_list-IsList = record {
  chain = (refl, (some 0, refl, (refl, (none, refl, refl))));
  sized = refl;
  ends = refl;
  distinct = ((λ e. omega arith, tt), (tt, tt));
  inside = (omega arith, (omega arith, tt));
}

append_lem_example :
    IsGrown two_nodes
      ((1, 7) ∷ (0, 8) ∷ [])
      ((1, 7) ∷ (0, 8) ∷ (2, 9) ∷ [])
      (append two_nodes two_list 9)
append_lem_example = append_lem two_nodes 9 two_list ((1, 7) ∷ (0, 8) ∷ []) two_list-IsList

list_to_string_lem_example :
    to_string dirty_block (λ n. (65 + n) ∷ []) 2 two_nodes two_list ≡ ok (72 ∷ 73 ∷ 0 ∷ [])
unfolding joined
list_to_string_lem_example =
    list_to_string_lem dirty_block (λ n. (65 + n) ∷ []) 2 two_nodes two_list ((1, 7) ∷ (0, 8) ∷ [])
      length-dirty_block two_list-IsList (omega arith) ((omega arith, tt), ((omega arith, tt), tt))

-- The value 2 and no other.
abbrev one_hot : ℕ → Option ℕ
one_hot k = some (if k == 2 then 1 else 0)

observation_create_lem_example :
    (observation_create {N = ℕ} 1 0 dirty_block (set_of 2) none ≡ ok none)
    × (((3 < 2) × (observation_create {N = ℕ} 1 0 dirty_block (set_of 2) (some 2) ≡ ok none))
        ⊎ ((2 ≤ 3)
            × ((o : Observation ℕ) × (observation_create {N = ℕ} 1 0 dirty_block (set_of 2) (some 2)
                  ≡ ok (some o))
                × (o.v ≡ sprinkler)
                × IsPot o.pot
                × ((k : ℕ) → k < 3 → get_elem? o.pot.tab_data k ≡ one_hot k))))
observation_create_lem_example =
    observation_create_lem {N = ℕ} 1 0 dirty_block (set_of 2) sprinkler 2 length-dirty_block
      (set_of-IsVariableSet 2 (omega arith)) (unfold members select bit test_bit in refl)

-- ===== src/Tests/Cliques.antt =====
-- Runs of the theorems on elimination sets.
use junction_box.Base.{ℕ, ◌<◌, ◌&&◌, Bool, true, ◌≡◌, ◌↔◌, refl, arith, ok}
use junction_box.BitVector.Valid.{bit}
use junction_box.VariableSet.Members.{IsVariableSet}
use junction_box.ElimSets.{ElimSet, contains, intersect}
use junction_box.ElimSets.Laws.{contains-intersect}
use junction_box.Tests.Data.{garden, set_of, set_of-IsVariableSet}

contains-intersect_example :
    ((b : Bool) × (contains (set_of 3) (set_of 6) ≡ ok b)
      × ((b ≡ true) ↔ ((k : ℕ) → k < 3 → bit (set_of 6).bv k ≡ true → bit (set_of 3).bv k ≡ true)))
    × ((ret : ElimSet) × (intersect (set_of 3) (set_of 6) ≡ ok ret)
        × IsVariableSet ret
        × (ret.o ≡ garden)
        × ((k : ℕ) → bit ret.bv k ≡ (bit (set_of 3).bv k && bit (set_of 6).bv k)))
contains-intersect_example =
    contains-intersect (set_of 3) (set_of 6) (set_of-IsVariableSet 3 (omega arith))
      (set_of-IsVariableSet 6 (omega arith)) refl

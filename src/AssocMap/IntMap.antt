-- ===== src/AssocMap/IntMap.antt =====
-- src/components/JB_Util/IntMap.c: integers to integers.
use junction_box.Base.{ℕ, List, Outcome}
use junction_box.CString.{Text}
use junction_box.AssocMap
use junction_box.AssocMap.{Assoc}
use junction_box.AssocMap.Keys.{number_same}

abbrev pub IntMap : Type 0
IntMap = Assoc ℕ ℕ

abbrev pub create : IntMap
create = AssocMap.create

unfoldable pub get : IntMap → ℕ → Outcome (List (ℕ × ℕ))
unfolding AssocMap.get
get = AssocMap.get number_same

unfoldable pub add : IntMap → ℕ → ℕ → Outcome (IntMap)
unfolding AssocMap.add
add = AssocMap.add number_same

-- `IntMap_Size`
abbrev pub size : IntMap → ℕ
size this = this.size

unfoldable pub to_string : (ℕ → List ℕ) → (ℕ × ℕ → Text) → IntMap → Outcome (List ℕ)
unfolding AssocMap.to_string
to_string = AssocMap.to_string

-- ===== src/AssocMap/VoidpMap.antt =====
-- src/components/JB_Util/VoidpMap.c: pointers to pointers.
use junction_box.Base.{ℕ, List, Outcome}
use junction_box.CString.{Text}
use junction_box.AssocMap
use junction_box.AssocMap.{Assoc}
use junction_box.AssocMap.Keys.{number_same}

abbrev pub VoidpMap : Type 0 → Type 0
VoidpMap V = Assoc ℕ V

abbrev pub create : {V : Type 0} → VoidpMap V
create = AssocMap.create

unfoldable pub get : {V : Type 0} → VoidpMap V → ℕ → Outcome (List (ℕ × V))
unfolding AssocMap.get
get = AssocMap.get number_same

unfoldable pub add : {V : Type 0} → VoidpMap V → ℕ → V → Outcome (VoidpMap V)
unfolding AssocMap.add
add = AssocMap.add number_same

-- `VoidpMap_Size`
abbrev pub size : {V : Type 0} → VoidpMap V → ℕ
size this = this.size

unfoldable pub to_string :
    {V : Type 0} → (ℕ → List ℕ) → (ℕ × V → Text) → VoidpMap V → Outcome (List ℕ)
unfolding AssocMap.to_string
to_string = AssocMap.to_string

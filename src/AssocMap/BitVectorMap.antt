-- ===== src/AssocMap/BitVectorMap.antt =====
-- src/components/JB_Util/BitVectorMap.c: bit vectors to pointers.
use junction_box.Base.{ℕ, List, Outcome}
use junction_box.BitVector.{BitVector, equals}
use junction_box.CString.{Text}
use junction_box.AssocMap
use junction_box.AssocMap.{Assoc}

abbrev pub BitVectorMap : Type 0 → Type 0
BitVectorMap V = Assoc BitVector V

abbrev pub create : {V : Type 0} → BitVectorMap V
create = AssocMap.create

unfoldable pub get : {V : Type 0} → BitVectorMap V → BitVector → Outcome (List (BitVector × V))
unfolding AssocMap.get
get = AssocMap.get equals

unfoldable pub add : {V : Type 0} → BitVectorMap V → BitVector → V → Outcome (BitVectorMap V)
unfolding AssocMap.add
add = AssocMap.add equals

-- `BitVectorMap_Size`
abbrev pub size : {V : Type 0} → BitVectorMap V → ℕ
size this = this.size

unfoldable pub to_string :
    {V : Type 0} → (ℕ → List ℕ) → (BitVector × V → Text) → BitVectorMap V → Outcome (List ℕ)
unfolding AssocMap.to_string
to_string = AssocMap.to_string

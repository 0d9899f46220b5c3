-- ===== src/AssocMap/StringMap.antt =====
-- src/components/JB_Util/Map.c: texts to pointers. The C type is `Map`.
use junction_box.Base.{ℕ, List, Outcome}
use junction_box.CString.{Text}
use junction_box.AssocMap
use junction_box.AssocMap.{Assoc}
use junction_box.AssocMap.Keys.{text_same}

abbrev pub StringMap : Type 0 → Type 0
StringMap V = Assoc Text V

abbrev pub create : {V : Type 0} → StringMap V
create = AssocMap.create

unfoldable pub get : {V : Type 0} → StringMap V → Text → Outcome (List (Text × V))
unfolding AssocMap.get
get = AssocMap.get text_same

unfoldable pub add : {V : Type 0} → StringMap V → Text → V → Outcome (StringMap V)
unfolding AssocMap.add
add = AssocMap.add text_same

-- `Map_Size`
abbrev pub size : {V : Type 0} → StringMap V → ℕ
size this = this.size

unfoldable pub to_string :
    {V : Type 0} → (ℕ → List ℕ) → (Text × V → Text) → StringMap V → Outcome (List ℕ)
unfolding AssocMap.to_string
to_string = AssocMap.to_string

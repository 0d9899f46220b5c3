-- ===== src/Indices/Bounds.antt =====
-- The indices of `ComputeIndex` are places of the table, and each place has one combination.
use junction_box.Base.{ℕ, suc, ◌<◌, List, [], ◌∷◌, ◌≡◌, refl, ap, ◌∙◌, length, length-map, ok}
use junction_box.Radix.{product, encode, decode, Digits}
use junction_box.Radix.Laws.{encode-lt, decode-encode}
use junction_box.Variables.{Variable}
use junction_box.VariableSet.{VariableSet}
use junction_box.VariableSet.Members.{IsVariableSet, members}
use junction_box.Indices.{compute_index}
use junction_box.Indices.Laws.{cards, compute_index_lem}

pub length-Digits : (cs vs : List ℕ) → Digits cs vs → length vs ≡ length cs
length-Digits [] [] d = refl
length-Digits [] (v ∷ vs) d = absurd d
length-Digits (c ∷ cs) [] d = absurd d
length-Digits (c ∷ cs) (v ∷ vs) d = ap suc (length-Digits cs vs d.1)

-- For a set that is not empty and one value in range for each member, `ComputeIndex` returns an
-- index below the number of combinations, and the values are the digits of that index, so that no
-- other values in range have it.
pub compute_index-lt :
    (s : VariableSet) (values : List ℕ)
    → IsVariableSet s
    → 0 < length (members s)
    → Digits (cards s) values
    → (index : ℕ) × (compute_index s values ≡ ok index)
      × ((index < product (cards s)) × (decode (cards s) index ≡ values))
compute_index-lt s values h n d =
    let len = length-map (members s) (λ (v : Variable). v.cardinality) in
    (
      encode (cards s) values,
      compute_index_lem s values h n (length-Digits (cards s) values d ∙ len),
      (encode-lt (cards s) values d, decode-encode (cards s) values d),
    )

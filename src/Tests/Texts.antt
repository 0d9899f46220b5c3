-- ===== src/Tests/Texts.antt =====
-- Runs of the theorems on texts and maps.
use junction_box.Base.{ℕ, List, [], ◌∷◌, ◌≡◌, refl, arith, fault}
use junction_box.BitVector.{BitVector}
use junction_box.CString.Join.{total}
use junction_box.AssocMap
use junction_box.AssocMap.{Assoc}
use junction_box.AssocMap.Laws.{IsMap, IsAdded, lookup, add-IsAdded}
use junction_box.AssocMap.Keys.{bits_keys}
use junction_box.AssocMap.Print.{to_string-uncleared}
use junction_box.Tests.Data.{ten_bits, ten_bits-IsValid, other_bits, other_bits-IsValid}

-- A fresh block with a text of one character at its start.
abbrev dirty_text : ℕ → List ℕ
dirty_text n = 65 ∷ 0 ∷ 7 ∷ []

-- A map from sets of ten variables, with one element.
abbrev ten_bits_map : Assoc BitVector ℕ
ten_bits_map = record { first = (ten_bits, 7) ∷ []; size = 1 }

ten_bits_map-IsMap : IsMap (bits_keys 10) ten_bits_map
unfolding lookup
ten_bits_map-IsMap = record { sized = refl; distinct = ((ten_bits-IsValid, refl), refl, tt) }

add-IsAdded_example :
    IsAdded
      (bits_keys 10)
      ten_bits_map
      other_bits
      9
      (AssocMap.add (bits_keys 10).same ten_bits_map other_bits 9)
add-IsAdded_example =
    add-IsAdded (bits_keys 10) ten_bits_map other_bits 9 ten_bits_map-IsMap
      (other_bits-IsValid, refl)

to_string-uncleared_example :
    AssocMap.to_string dirty_text
      (λ (me : ℕ × ℕ). b'x' ∷ b'y' ∷ [])
      (record { first = (1, 2) ∷ []; size = 1 })
    ≡ fault
unfolding total
to_string-uncleared_example =
    to_string-uncleared (λ (me : ℕ × ℕ). b'x' ∷ b'y' ∷ []) (1, 2) [] 1 dirty_text (65 ∷ []) (7 ∷ [])
      ((omega arith, (omega arith, tt)), tt) (omega arith, tt) refl refl

-- ===== src/Tests/Data.antt =====
-- The test data: blocks of memory, bit vectors, and a small network of three variables.
use junction_box.Base.{ℕ, ◌<◌, List, [], ◌∷◌, ◌≡◌, refl, arith, length, length-replicate, replicate}
use junction_box.BitVector.{BitVector}
use junction_box.BitVector.Valid.{IsValid}
use junction_box.Variables.{Variable, VariableOrdering}
use junction_box.VariableSet.{VariableSet}
use junction_box.VariableSet.Members.{IsVariableSet}

-- A fresh block, filled with what was there before.
abbrev pub dirty_block : ℕ → List ℕ
dirty_block n = replicate n 65

pub length-dirty_block : (n : ℕ) → length (dirty_block n) ≡ n
length-dirty_block n = length-replicate n 65

-- Ten bits: 0, 2 and 9 are on.
abbrev pub ten_bits : BitVector
ten_bits = record { bits = 5 ∷ 2 ∷ []; size = 10; num_bytes = 2 }

pub ten_bits-IsValid : IsValid ten_bits
ten_bits-IsValid = record { bytes = refl; stored = refl; chars = (omega arith, (omega arith, tt)) }

-- Ten bits: 0 and 1 are on.
abbrev pub other_bits : BitVector
other_bits = record { bits = 3 ∷ 0 ∷ []; size = 10; num_bytes = 2 }

pub other_bits-IsValid : IsValid other_bits
other_bits-IsValid = record {
  bytes = refl;
  stored = refl;
  chars = (omega arith, (omega arith, tt));
}

abbrev pub rain : Variable
rain = record { address = 16; label = b'r' ∷ []; cardinality = 2 }

abbrev pub sprinkler : Variable
sprinkler = record { address = 32; label = b's' ∷ []; cardinality = 3 }

abbrev pub grass : Variable
grass = record { address = 48; label = b'g' ∷ []; cardinality = 2 }

abbrev pub garden : VariableOrdering
garden = record { size = 3; vbls = rain ∷ sprinkler ∷ grass ∷ [] }

-- The set with the given byte.
abbrev pub set_of : ℕ → VariableSet
set_of byte = record { bv = record { bits = byte ∷ []; size = 3; num_bytes = 1 }; o = garden }

pub set_of-IsVariableSet : (byte : ℕ) → byte < 256 → IsVariableSet (set_of byte)
set_of-IsVariableSet byte h = record {
  vector = record { bytes = refl; stored = refl; chars = (h, tt) };
  width = refl;
  ordering = refl;
  discrete = (omega arith, (omega arith, (omega arith, tt)));
}

pub rain_sprinkler-IsVariableSet : IsVariableSet (set_of 3)
rain_sprinkler-IsVariableSet = set_of-IsVariableSet 3 (omega arith)

pub everything-IsVariableSet : IsVariableSet (set_of 7)
everything-IsVariableSet = set_of-IsVariableSet 7 (omega arith)

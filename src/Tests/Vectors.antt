-- ===== src/Tests/Vectors.antt =====
-- Runs of the theorems on bit vectors.
use junction_box.Base.{
  ℕ, Bool, true, xor, ◌&&◌, ◌||◌, List, [], ◌∷◌, ◌≡◌, ◌↔◌, ◌<◌, refl, if◌then◌else◌, get_or, ok,
  fault,
}
use junction_box.BitVector.{and_, or_, xor_, to_string, equals, walk, char_step}
use junction_box.BitVector.Valid.{bit}
use junction_box.BitVector.Combine.{IsPointwise, and_or_xor_lem}
use junction_box.BitVector.Walk.{to_string_lem}
use junction_box.BitVector.Compare.{equals_lem}
use junction_box.Tests.Data.{
  ten_bits, ten_bits-IsValid, other_bits, other_bits-IsValid, dirty_block, length-dirty_block,
}

and_or_xor_lem_example :
    IsPointwise ◌&&◌ ten_bits other_bits 1 (and_ ten_bits other_bits 1)
    × IsPointwise ◌||◌ ten_bits other_bits 1 (or_ ten_bits other_bits 1)
    × IsPointwise xor ten_bits other_bits 1 (xor_ ten_bits other_bits 1)
and_or_xor_lem_example =
    and_or_xor_lem ten_bits other_bits 1 ten_bits-IsValid other_bits-IsValid refl

to_string_lem_example :
    (out : List ℕ) × (walk char_step 10 11 (5 ∷ 2 ∷ []) 0 (dirty_block 11) ≡ ok out)
    × ((k : ℕ) → k < 10 → get_or out k 0 ≡ (if bit ten_bits k then b'1' else b'0'))
    × (to_string ten_bits (dirty_block 11) ≡ fault)
to_string_lem_example =
    to_string_lem ten_bits (dirty_block 11) ten_bits-IsValid (length-dirty_block 11)

equals_lem_example :
    (b : Bool) × (equals ten_bits other_bits ≡ ok b)
    × ((b ≡ true) ↔ ((k : ℕ) → k < 10 → bit ten_bits k ≡ bit other_bits k))
equals_lem_example = equals_lem ten_bits other_bits ten_bits-IsValid other_bits-IsValid refl

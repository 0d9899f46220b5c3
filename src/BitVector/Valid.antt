-- ===== src/BitVector/Valid.antt =====
-- Well-formed vectors, the bits that they stand for, and fresh vectors.
use junction_box.Base.{
  ℕ, zero, suc, ◌/◌, ◌%◌, ◌<◌, Bool, not, ◌&&◌, ◌≡◌, refl, arith, inl, inr, ◌==◌, Bool-cases,
  length, get_or, All, length-replicate, get_or-replicate, All-replicate, All-get_or,
}
use junction_box.Base.Digits.{test_bit, test_bit-zero}
use junction_box.BitVector.{BitVector, create, bytes_for, has_flag, init_fill}

-- The sizes agree, and each byte is a `char`.
pub record IsValid (v : BitVector) : Type 0 where
  pub bytes : v.num_bytes ≡ bytes_for v.size
  pub stored : length v.bits ≡ v.num_bytes
  pub chars : All (λ c. c < 256) v.bits

-- The bit at an index: the abstract view of a vector.
unfoldable pub bit : BitVector → ℕ → Bool
bit v k = test_bit (get_or v.bits (k / 8) 0) (k % 8)

pub create-IsValid : (size flags : ℕ) → IsValid (create size flags)
unfolding create
create-IsValid size flags = record {
  bytes = refl;
  stored = length-replicate (bytes_for size) _;
  chars = All-replicate (λ c. c < 256) (bytes_for size) _ (ground arith);
}

-- The byte of an index in range is stored.
pub byte_in_range : (v : BitVector) (k : ℕ) → IsValid v → k < v.size → k / 8 < length v.bits
byte_in_range v k h lt = let e = h.stored in let f = h.bytes in omega arith

pub char_at-lt : (v : BitVector) (k : ℕ) → IsValid v → k < v.size → get_or v.bits (k / 8) 0 < 256
char_at-lt v k h lt = All-get_or (λ c. c < 256) v.bits (k / 8) 0 h.chars (byte_in_range v k h lt)

test_bit-schar_max : (j : ℕ) → j < 8 → test_bit 127 j ≡ not (j == 7)
unfolding test_bit
test_bit-schar_max zero h = refl
test_bit-schar_max (suc zero) h = refl
test_bit-schar_max (suc (suc zero)) h = refl
test_bit-schar_max (suc (suc (suc zero))) h = refl
test_bit-schar_max (suc (suc (suc (suc zero)))) h = refl
test_bit-schar_max (suc (suc (suc (suc (suc zero))))) h = refl
test_bit-schar_max (suc (suc (suc (suc (suc (suc zero)))))) h = refl
test_bit-schar_max (suc (suc (suc (suc (suc (suc (suc zero))))))) h = refl
test_bit-schar_max (suc (suc (suc (suc (suc (suc (suc (suc j)))))))) h = absurd (omega arith)

-- A fresh vector has every bit off; with `BV_INIT_FILL` the bits are on but for the last of each
-- byte, since the fill value is `SCHAR_MAX`.
pub bit-create :
    (size flags k : ℕ)
    → k < size
    → bit (create size flags) k ≡ (has_flag flags init_fill && not (k % 8 == 7))
unfolding create bit
bit-create size flags k h = elim (Bool-cases (has_flag flags init_fill)) [
  | inl fill ↦
      rw (fill, get_or-replicate {A = ℕ} (bytes_for size) (k / 8) 127 0 (omega arith))
        (test_bit-schar_max (k % 8) (omega arith))
  | inr clear ↦
      rw (clear, get_or-replicate {A = ℕ} (bytes_for size) (k / 8) 0 0 (omega arith))
        (test_bit-zero (k % 8))
]

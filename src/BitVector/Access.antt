-- ===== src/BitVector/Access.antt =====
-- Reading and writing single bits.
use junction_box.Base.{
  ℕ, ◌/◌, ◌%◌, ◌^◌, ◌≤◌, ◌<◌, Bool, true, false, ◌≡◌, refl, arith, ◌∙◌, inl, inr, ◌==◌, ==_iff,
  nonzero, if◌then◌else◌, Bool-cases, lt→ltb, le→ltb, get_or, set, length-set, get_or-set, All-set,
  get_elem?-eq-get_or, ok, abort, bit_and, bit_or,
}
use junction_box.Base.Digits.{
  test_bit, test_bit-and, test_bit-or, test_bit-shift, test_bit-complement, nonzero-shift,
  bit_or-lt, bit_and-lt, two_pow-lt,
}
use junction_box.BitVector.{BitVector, get_bit, set_bit_on, set_bit_off, complement}
use junction_box.BitVector.Valid.{IsValid, bit, byte_in_range, char_at-lt}

-- `BitVector_GetBit` asserts that the index is below the size, and then returns a value that is
-- non-zero exactly when the bit is on.
pub get_bit_lem :
    (v : BitVector) (k : ℕ)
    → IsValid v
    → k < v.size
    → (c : ℕ) × (get_bit v k ≡ ok c) × (nonzero c ≡ bit v k)
unfolding get_bit bit
get_bit_lem v k h lt = (
  bit_and (get_or v.bits (k / 8) 0) (2 ^ (k % 8)),
  rw (lt→ltb k v.size lt, get_elem?-eq-get_or v.bits (k / 8) 0 (byte_in_range v k h lt)),
  nonzero-shift (k % 8) (get_or v.bits (k / 8) 0),
)

-- Beyond the size all three functions fail their assertion.
pub beyond-abort :
    (v : BitVector) (k : ℕ)
    → v.size ≤ k
    → (get_bit v k ≡ abort) × (set_bit_on v k ≡ abort) × (set_bit_off v k ≡ abort)
unfolding get_bit set_bit_on set_bit_off
beyond-abort v k h = rw (le→ltb k v.size h) (refl, refl, refl)

-- What a setter does to the byte of an index, as an effect on the bits.
module _ (v : BitVector) (k c : ℕ) (h : IsValid v) (lt : k < v.size) (fits : c < 256) where
  pub stored_bits : BitVector
  stored_bits = record v { bits = set v.bits (k / 8) c }

  pub stored_bits-IsValid : IsValid stored_bits
  unfolding stored_bits
  stored_bits-IsValid = record {
    bytes = h.bytes;
    stored = rw length-set h.stored;
    chars = All-set (λ c. c < 256) v.bits (k / 8) c h.chars fits;
  }

  pub bit-stored_bits :
      (j : ℕ) → bit stored_bits j ≡ (if k / 8 == j / 8 then test_bit c (j % 8) else bit v j)
  unfolding stored_bits bit
  bit-stored_bits j =
      rw (get_or-set v.bits (k / 8) (j / 8) c 0 (byte_in_range v k h lt))
        (elim (Bool-cases (k / 8 == j / 8)) [ inl e ↦ rw e | inr n ↦ rw n ])

-- Two indices are equal when they have the same byte and the same place in it.
same_index : (k j : ℕ) → (k == j) ≡ (if k / 8 == j / 8 then k % 8 == j % 8 else false)
same_index k j = ground arith

mask-lt : (k : ℕ) → 2 ^ (k % 8) < 256
mask-lt k = two_pow-lt (k % 8) 8 (omega arith)

-- The byte of `k` after a change by `f`, read as bits: `g` is what `f` does to one bit.
module _ (v : BitVector) (k c : ℕ) (g : Bool → Bool) where
  bit-changed :
      ((i : ℕ)
        → i < 8
        → test_bit c i ≡ (
            if k % 8 == i
            then g (test_bit (get_or v.bits (k / 8) 0) i)
            else test_bit (get_or v.bits (k / 8) 0) i))
      → (j : ℕ)
      → (if k / 8 == j / 8 then test_bit c (j % 8) else bit v j)
        ≡ (if k == j then g (bit v j) else bit v j)
  unfolding bit
  bit-changed change j = elim (Bool-cases (k / 8 == j / 8)) [
    | inl e ↦
        let same = (==_iff (k / 8) (j / 8)).0 e in
        rw (same_index k j, e, change (j % 8) (omega arith), same)
    | inr n ↦ rw (same_index k j, n)
  ]

-- Turning a bit on keeps the vector well-formed and its size, and changes that bit only.
pub set_bit_on_lem :
    (v : BitVector) (k : ℕ)
    → IsValid v
    → k < v.size
    → (w : BitVector) × (set_bit_on v k ≡ ok w)
      × IsValid w
      × (w.size ≡ v.size)
      × ((j : ℕ) → bit w j ≡ (if k == j then true else bit v j))
unfolding set_bit_on stored_bits
set_bit_on_lem v k h lt =
    let old : ℕ = get_or v.bits (k / 8) 0 in
    let new : ℕ = bit_or old (2 ^ (k % 8)) in
    let fits : new < 256 = bit_or-lt 8 old (2 ^ (k % 8)) (char_at-lt v k h lt) (mask-lt k) in
    (
      stored_bits v k new h lt fits,
      rw (lt→ltb k v.size lt, get_elem?-eq-get_or v.bits (k / 8) 0 (byte_in_range v k h lt)),
      stored_bits-IsValid v k new h lt fits,
      refl,
      λ j.
          bit-stored_bits v k new h lt fits j
          ∙ bit-changed v k new (λ _. true)
              (λ i b. ground (arith, test_bit-or i old (2 ^ (k % 8)), test_bit-shift (k % 8) i)) j,
    )

-- So does turning a bit off.
pub set_bit_off_lem :
    (v : BitVector) (k : ℕ)
    → IsValid v
    → k < v.size
    → (w : BitVector) × (set_bit_off v k ≡ ok w)
      × IsValid w
      × (w.size ≡ v.size)
      × ((j : ℕ) → bit w j ≡ (if k == j then false else bit v j))
unfolding set_bit_off stored_bits
set_bit_off_lem v k h lt =
    let old : ℕ = get_or v.bits (k / 8) 0 in
    let mask : ℕ = 2 ^ (k % 8) in
    let new : ℕ = bit_and old (complement mask) in
    let fits : new < 256 = bit_and-lt 8 old (complement mask) (char_at-lt v k h lt) in
    (
      stored_bits v k new h lt fits,
      rw (lt→ltb k v.size lt, get_elem?-eq-get_or v.bits (k / 8) 0 (byte_in_range v k h lt)),
      stored_bits-IsValid v k new h lt fits,
      refl,
      λ j.
          bit-stored_bits v k new h lt fits j
          ∙ bit-changed v k new (λ _. false)
              (λ i b. ground (
                arith,
                test_bit-and i old (complement mask),
                test_bit-complement 8 i mask (mask-lt k) b,
                test_bit-shift (k % 8) i,
              ))
              j,
    )

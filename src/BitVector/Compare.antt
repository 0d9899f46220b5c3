-- ===== src/BitVector/Compare.antt =====
-- `check_vector` and `BitVector_Equals`.
use Prim.Native.Nat.{min}
use junction_box.Base.{
  ℕ, zero, suc, ◌+◌, ◌-◌, ◌*◌, ◌/◌, ◌%◌, ◌≤◌, ◌<◌, Bool, true, false, not, ◌&&◌, ◌≡◌, sym, ap,
  arith, ◌∙◌, ◌↔◌, inl, inr, ◌==◌, ltb, leb, Bool-cases, List, length, get_or, get_elem?-eq-get_or,
  ok,
}
use mathlib.Core.Bool.{xor}
use junction_box.Base.Digits.{nonzero-shift}
use junction_box.Base.Ranges.{all_from, all_from-append, all_from_sound, all_from_complete}
use junction_box.BitVector.{BitVector, check_byte, check_loop, check_vector, equals}
use junction_box.BitVector.Valid.{IsValid, bit}
use junction_box.BitVector.Walk.{masked, enough_bytes}
use junction_box.BitVector.Combine.{and_or_xor_lem}

module _ (size value : ℕ) (bits : List ℕ) where
  abbrev agrees : ℕ → Bool
  agrees k = masked bits k == value

  check_byte-all :
      (left i j : ℕ)
      → left + j ≡ 8
      → check_byte size value left (get_or bits i 0) i j
        ≡ all_from agrees (i * 8 + j) (min left (size - (i * 8 + j)))
  unfolding check_byte all_from
  check_byte-all zero i j e =
      let none_left : min 0 (size - (i * 8 + j)) ≡ 0 = omega arith in rw none_left
  check_byte-all (suc left) i j e = elim (Bool-cases (ltb (i * 8 + j) size)) [
    | inl t ↦
        let k : ℕ = i * 8 + j in
        let more : min (suc left) (size - k) ≡ suc (min left (size - (i * 8 + (j + 1)))) =
          ground arith in
        let next : i * 8 + j + 1 ≡ i * 8 + (j + 1) = omega arith in
        let place : k % 8 ≡ j = omega arith in
        let major : k / 8 ≡ i = omega arith in
        rw (t, more, place, major, next, check_byte-all left i (j + 1) (omega arith)) (ground arith)
    | inr n ↦
        let none_left : min (suc left) (size - (i * 8 + j)) ≡ 0 = ground arith in rw (n, none_left)
  ]

  split_byte :
      (i : ℕ)
      → all_from agrees (i * 8) (size - i * 8) ≡ (
          all_from agrees (i * 8) (min 8 (size - i * 8))
          && all_from agrees ((i + 1) * 8) (size - (i + 1) * 8))
  unfolding all_from
  split_byte i =
      let split : size - i * 8 ≡ min 8 (size - i * 8) + (size - (i + 1) * 8) = omega arith in
      ap (λ (n : ℕ). all_from agrees (i * 8) n) split
      ∙ all_from-append agrees (i * 8) (min 8 (size - i * 8)) (size - (i + 1) * 8)
      ∙ elim (Bool-cases (leb ((i + 1) * 8) size)) [
        | inl t ↦ let e : i * 8 + min 8 (size - i * 8) ≡ (i + 1) * 8 = ground arith in rw e
        | inr n ↦ let e : size - (i + 1) * 8 ≡ 0 = ground arith in rw e
      ]

  check_loop-all :
      (fuel i : ℕ)
      → size ≤ length bits * 8
      → i ≤ size
      → size < fuel + i
      → check_loop size value fuel bits i ≡ ok (all_from agrees (i * 8) (size - i * 8))
  unfolding check_loop all_from
  check_loop-all zero i h b f = absurd (omega arith)
  check_loop-all (suc fuel) i h b f = elim (Bool-cases (ltb (i * 8) size)) [
    | inl t ↦
        let here : i < length bits = ground arith in
        let start : i * 8 + 0 ≡ i * 8 = omega arith in
        rw
          (
            t,
            get_elem?-eq-get_or bits i 0 here,
            check_byte-all 8 i 0 (omega arith),
            start,
            split_byte i,
            check_loop-all fuel (i + 1) h (ground arith) (omega arith),
          )
          (ground arith)
    | inr n ↦ let done : size - i * 8 ≡ 0 = ground arith in rw (n, done)
  ]

zero-bit : (v : BitVector) (k : ℕ) → agrees v.size 0 v.bits k ≡ not (bit v k)
unfolding bit
zero-bit v k = ground (arith, nonzero-shift (k % 8) (get_or v.bits (k / 8) 0))

xor-false : (a b : Bool) → xor a b ≡ false → a ≡ b
unfolding xor
xor-false a b h = ground arith

xor_same : (a b : Bool) → a ≡ b → xor a b ≡ false
unfolding xor
xor_same a b h = ground arith

-- With the value 0, which is the only one that the program passes, `check_vector` says whether
-- every bit below the size is off.
check_vector-zero :
    (v : BitVector)
    → IsValid v
    → (b : Bool) × (check_vector v 0 ≡ ok b)
      × ((b ≡ true) ↔ ((k : ℕ) → k < v.size → bit v k ≡ false))
unfolding check_vector
check_vector-zero v h =
    let all : Bool = all_from (agrees v.size 0 v.bits) 0 v.size in
    let whole : v.size - 0 ≡ v.size = omega arith in
    (
      all,
      rw whole at (
          check_loop-all v.size 0 v.bits (v.size + 1) 0 (enough_bytes v h) (omega arith)
            (omega arith)),
      (
        λ t k lt.
            ground (arith, zero-bit v k, all_from_sound (agrees v.size 0 v.bits) 0 v.size k t),
        λ off.
            all_from_complete (agrees v.size 0 v.bits) 0 v.size
              (λ k a b. ground (arith, zero-bit v k, off k)),
      ),
    )

-- `BitVector_Equals` decides whether two vectors of one size have the same bits below it; what
-- the last byte holds above the size does not matter.
pub equals_lem :
    (v o : BitVector)
    → IsValid v
    → IsValid o
    → v.size ≡ o.size
    → (b : Bool) × (equals v o ≡ ok b) × ((b ≡ true) ↔ ((k : ℕ) → k < v.size → bit v k ≡ bit o k))
unfolding equals
equals_lem v o hv ho e =
    let x = (and_or_xor_lem v o 0 hv ho e).2 in
    let (b, runs, means) = check_vector-zero x.result x.valid in
    (
      b,
      rw (x.returns, runs),
      (
        λ t k lt. xor-false (bit v k) (bit o k) (sym (x.bits k) ∙ means.0 t k (rw x.same_size lt)),
        λ same.
            means.1
              λ k lt. x.bits k ∙ xor_same (bit v k) (bit o k) (same k (rw (← x.same_size) lt)),
      ),
    )

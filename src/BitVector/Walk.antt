-- ===== src/BitVector/Walk.antt =====
-- The loops that visit the bits of a vector in order: counting, printing and comparing.
use junction_box.Base.{
  ℕ, zero, suc, ◌+◌, ◌-◌, ◌*◌, ◌/◌, ◌%◌, ◌^◌, ◌≤◌, ◌<◌, Bool, ◌≡◌, refl, ap, fun_ext, arith, ◌∙◌,
  inl, inr, ltb, leb, nonzero, if◌then◌else◌, Bool-cases, List, length, get_or, get_elem?-eq-get_or,
  get_elem?_out, get_or-set, set, length-set, Outcome, ok, fault, ◌>>=◌, bind_ext, bit_and,
}
use Prim.Native.Nat.{min}
use native.Mathlib.Nat.{add_assoc}
use junction_box.Base.Digits.{nonzero-shift}
use junction_box.Base.Ranges.{count_from, fold_from, fold_from-append}
use junction_box.BitVector.{
  BitVector, walk_byte, walk, count_step, get_num_on_bits, to_string, char_step,
}
use junction_box.BitVector.Valid.{IsValid, bit}

-- What `data & mask` is for the bit at an index.
abbrev pub masked : List ℕ → ℕ → ℕ
masked bits k = bit_and (get_or bits (k / 8) 0) (2 ^ (k % 8))

module _ {S : Type 0} (step : S → ℕ → ℕ → Outcome S) (size : ℕ) (bits : List ℕ) where
  abbrev at_index : S → ℕ → Outcome S
  at_index s k = step s k (masked bits k)

  walk_byte-fold :
      (left i j : ℕ) (s : S)
      → left + j ≡ 8
      → walk_byte step size left (get_or bits i 0) i j s
        ≡ fold_from at_index (i * 8 + j) (min left (size - (i * 8 + j))) s
  unfolding walk_byte fold_from
  walk_byte-fold zero i j s e =
      let none_left : min 0 (size - (i * 8 + j)) ≡ 0 = omega arith in rw none_left
  walk_byte-fold (suc left) i j s e = elim (Bool-cases (ltb (i * 8 + j) size)) [
    | inl t ↦
        let k : ℕ = i * 8 + j in
        let more : min (suc left) (size - k) ≡ suc (min left (size - (i * 8 + (j + 1)))) =
          ground arith in
        let next : i * 8 + j + 1 ≡ i * 8 + (j + 1) = omega arith in
        let place : k % 8 ≡ j = omega arith in
        let major : k / 8 ≡ i = omega arith in
        rw (t, more, place, major, next)
          (bind_ext _ _ _ λ s'. walk_byte-fold left i (j + 1) s' (omega arith))
    | inr n ↦
        let none_left : min (suc left) (size - (i * 8 + j)) ≡ 0 = ground arith in rw (n, none_left)
  ]

  -- A run is the run over one byte and the run from the next byte on, if there is any.
  split_byte :
      (i : ℕ) (s : S)
      → fold_from at_index (i * 8) (size - i * 8) s ≡ (
          fold_from at_index (i * 8) (min 8 (size - i * 8)) s
          >>= fold_from at_index ((i + 1) * 8) (size - (i + 1) * 8))
  unfolding fold_from
  split_byte i s =
      let split : size - i * 8 ≡ min 8 (size - i * 8) + (size - (i + 1) * 8) = omega arith in
      ap (λ (n : ℕ). fold_from at_index (i * 8) n s) split
      ∙ fold_from-append at_index (i * 8) (min 8 (size - i * 8)) (size - (i + 1) * 8) s
      ∙ elim (Bool-cases (leb ((i + 1) * 8) size)) [
        | inl t ↦ let e : i * 8 + min 8 (size - i * 8) ≡ (i + 1) * 8 = ground arith in rw e
        | inr n ↦ let e : size - (i + 1) * 8 ≡ 0 = ground arith in rw e
      ]

  walk-fold :
      (fuel i : ℕ) (s : S)
      → size ≤ length bits * 8
      → i ≤ size
      → size < fuel + i
      → walk step size fuel bits i s ≡ fold_from at_index (i * 8) (size - i * 8) s
  unfolding walk fold_from
  walk-fold zero i s h b f = absurd (omega arith)
  walk-fold (suc fuel) i s h b f = elim (Bool-cases (ltb (i * 8) size)) [
    | inl t ↦
        let here : i < length bits = ground arith in
        let start : i * 8 + 0 ≡ i * 8 = omega arith in
        rw
          (
            t,
            get_elem?-eq-get_or bits i 0 here,
            walk_byte-fold 8 i 0 s (omega arith),
            start,
            split_byte i s,
          )
          (bind_ext _ _ _ λ s'. walk-fold fuel (i + 1) s' h (ground arith) (omega arith))
    | inr n ↦ let done : size - i * 8 ≡ 0 = ground arith in rw (n, done)
  ]

  -- The fuel is enough: the walk visits each index below the size once, in order.
  pub walk_all :
      (s : S)
      → size ≤ length bits * 8
      → walk step size (size + 1) bits 0 s ≡ fold_from at_index 0 size s
  walk_all s h =
      let whole : size - 0 ≡ size = omega arith in
      rw whole at (walk-fold (size + 1) 0 s h (omega arith) (omega arith))

-- A run of `count_step` counts the bits that are on.
count-fold :
    (bits : List ℕ) (k n s : ℕ)
    → fold_from (at_index count_step 0 bits) k n s
      ≡ ok (s + count_from (λ i. nonzero (masked bits i)) k n)
unfolding fold_from count_from
count-fold bits k zero s = ground arith
count-fold bits k (suc n) s =
    let one : ℕ = if nonzero (masked bits k) then 1 else 0 in
    count-fold bits (k + 1) n (s + one)
    ∙ ap (λ (m : ℕ). ok m) (add_assoc s one (count_from (λ i. nonzero (masked bits i)) (k + 1) n))

pub masked-bit : (v : BitVector) → (λ i. nonzero (masked v.bits i)) ≡ bit v
unfolding bit
masked-bit v = fun_ext (λ i. nonzero-shift (i % 8) (get_or v.bits (i / 8) 0))

pub enough_bytes : (v : BitVector) → IsValid v → v.size ≤ length v.bits * 8
enough_bytes v h = let e = h.stored in let f = h.bytes in omega arith

-- `BitVector_GetNumOnBits` returns the number of bits that are on among those below the size.
pub get_num_on_bits_lem :
    (v : BitVector) → IsValid v → get_num_on_bits v ≡ ok (count_from (bit v) 0 v.size)
unfolding get_num_on_bits
get_num_on_bits_lem v h =
    walk_all count_step v.size v.bits 0 (enough_bytes v h)
    ∙ count-fold v.bits 0 v.size 0
    ∙ ap (λ (p : ℕ → Bool). ok (0 + count_from p 0 v.size)) (masked-bit v)
    ∙ ap (λ (n : ℕ). ok n) (omega arith)

-- A run of `char_step` writes within the buffer and keeps its length.
chars-fold :
    (bits : List ℕ) (k n : ℕ) (ret : List ℕ)
    → k + n ≤ length ret
    → (out : List ℕ) × (fold_from (at_index char_step 0 bits) k n ret ≡ ok out)
      × (length out ≡ length ret)
      × ((j : ℕ) → j < k → get_or out j 0 ≡ get_or ret j 0)
      × ((j : ℕ)
          → k ≤ j
          → j < k + n
          → get_or out j 0 ≡ (if nonzero (masked bits j) then b'1' else b'0'))
unfolding fold_from
chars-fold bits k zero ret h = (ret, refl, refl, λ j a. refl, λ j a b. absurd (omega arith))
chars-fold bits k (suc n) ret h =
    let c : ℕ = if nonzero (masked bits k) then b'1' else b'0' in
    let room : k < length ret = omega arith in
    let (out, runs, kept, before, inside) =
      chars-fold bits (k + 1) n (set ret k c) (rw (length-set ret k c) (omega arith)) in
    (
      out,
      rw (get_elem?-eq-get_or ret k 0 room) runs,
      kept ∙ length-set ret k c,
      λ j a. ground (arith, before j, get_or-set ret k j c 0),
      λ j a b. ground (arith, inside j, before j, get_or-set ret k j c 0),
    )

-- `BitVector_ToString` writes a digit for each bit, in order, into the `size + 1` bytes that it
-- allocates. Its last write, the one that should end the text, is out of range.
pub to_string_lem :
    (v : BitVector) (fresh : List ℕ)
    → IsValid v
    → length fresh ≡ v.size + 1
    → (out : List ℕ) × (walk char_step v.size (v.size + 1) v.bits 0 fresh ≡ ok out)
      × ((k : ℕ) → k < v.size → get_or out k 0 ≡ (if bit v k then b'1' else b'0'))
      × (to_string v fresh ≡ fault)
unfolding to_string
to_string_lem v fresh h e =
    let (out, runs, kept, before, inside) = chars-fold v.bits 0 v.size fresh (omega arith) in
    let all = walk_all char_step v.size v.bits fresh (enough_bytes v h) ∙ runs in
    (
      out,
      all,
      λ k lt.
          inside k (omega arith) (omega arith)
          ∙ ap (λ (p : ℕ → Bool). if p k then b'1' else b'0') (masked-bit v),
      rw (all, get_elem?_out out (v.size + 1) (omega arith)),
    )

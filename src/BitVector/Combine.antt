-- ===== src/BitVector/Combine.antt =====
-- `&`, `|`, `^` and `~` of whole vectors, fresh or in place.
use junction_box.Base.{
  ℕ, ◌+◌, ◌/◌, ◌%◌, ◌<◌, Bool, true, false, not, ◌&&◌, ◌||◌, xor, ◌≡◌, refl, sym, ap, arith, ◌∙◌,
  inl, inr, ◌==◌, ◌≢◌, if◌then◌else◌, Bool-cases, List, [], ◌∷◌, ◌++◌, length, replicate, zip_with,
  length-zip_with, get_or-zip_with, get_or_default, All-zip_with, length-replicate, append_snoc,
  length_snoc, get_elem?-append_mid, set-append_mid, Outcome, ok, abort, bit_and, bit_or, bit_xor,
}
use junction_box.Base.Digits.{
  test_bit, test_bit-and, test_bit-or, test_bit-xor, test_bit-complement, bit_and-lt, bit_or-lt,
  bit_xor-lt,
}
use junction_box.BitVector.{
  BitVector, create, bytes_for, has_flag, op_in_place, combine_loop, combine, and_, or_, xor_, not_,
  complement,
}
use junction_box.BitVector.Valid.{IsValid, bit, byte_in_range, char_at-lt}

module _ (f : ℕ → ℕ → ℕ) where
  -- The loop after `i` rounds: `p`, `q` and `s` are the parts that it is done with.
  loop_fresh :
      (t o r p q s : List ℕ) (i : ℕ)
      → length p ≡ i
      → length q ≡ i
      → length s ≡ i
      → length o ≡ length t
      → length r ≡ length t
      → combine_loop f false (length t) i (p ++ t) (q ++ o) (s ++ r) ≡ ok (s ++ zip_with f t o)
  unfolding combine_loop
  loop_fresh [] [] [] p q s i hp hq hs ho hr = refl
  loop_fresh [] (b ∷ o) r p q s i hp hq hs ho hr = absurd (omega arith)
  loop_fresh [] [] (c ∷ r) p q s i hp hq hs ho hr = absurd (omega arith)
  loop_fresh (a ∷ t) [] r p q s i hp hq hs ho hr = absurd (omega arith)
  loop_fresh (a ∷ t) (b ∷ o) [] p q s i hp hq hs ho hr = absurd (omega arith)
  loop_fresh (a ∷ t) (b ∷ o) (c ∷ r) p q s i hp hq hs ho hr =
      rw
        (
          get_elem?-append_mid p a t i hp,
          get_elem?-append_mid q b o i hq,
          get_elem?-append_mid s c r i hs,
          set-append_mid s c r (f a b) i hs,
          ← append_snoc p a t,
          ← append_snoc q b o,
          ← append_snoc s (f a b) r,
          ← append_snoc s (f a b) (zip_with f t o),
        )
        (loop_fresh t o r (p ++ a ∷ []) (q ++ b ∷ []) (s ++ f a b ∷ []) (i + 1)
          (length_snoc p a i hp) (length_snoc q b i hq) (length_snoc s (f a b) i hs) (omega arith)
          (omega arith))

  loop_in_place :
      (t o q s u : List ℕ) (i : ℕ)
      → length q ≡ i
      → length s ≡ i
      → length o ≡ length t
      → combine_loop f true (length t) i u (q ++ o) (s ++ t) ≡ ok (s ++ zip_with f t o)
  unfolding combine_loop
  loop_in_place [] [] q s u i hq hs ho = refl
  loop_in_place [] (b ∷ o) q s u i hq hs ho = absurd (omega arith)
  loop_in_place (a ∷ t) [] q s u i hq hs ho = absurd (omega arith)
  loop_in_place (a ∷ t) (b ∷ o) q s u i hq hs ho =
      rw
        (
          get_elem?-append_mid s a t i hs,
          get_elem?-append_mid q b o i hq,
          set-append_mid s a t (f a b) i hs,
          ← append_snoc q b o,
          ← append_snoc s (f a b) t,
          ← append_snoc s (f a b) (zip_with f t o),
        )
        (loop_in_place t o (q ++ b ∷ []) (s ++ f a b ∷ []) u (i + 1) (length_snoc q b i hq)
          (length_snoc s (f a b) i hs) (omega arith))

-- The two vectors agree in size, so each byte of one has its partner in the other.
same_length :
    (v o : BitVector) → IsValid v → IsValid o → v.size ≡ o.size → length v.bits ≡ length o.bits
same_length v o hv ho e = hv.stored ∙ hv.bytes ∙ ap bytes_for e ∙ sym (ho.stored ∙ ho.bytes)

abbrev zipped : (ℕ → ℕ → ℕ) → BitVector → BitVector → BitVector
zipped f v o = record v { bits = zip_with f v.bits o.bits }

module _ (f : ℕ → ℕ → ℕ) (v o : BitVector) (hv : IsValid v) (ho : IsValid o)
    (e : v.size ≡ o.size) where
  pub zipped-IsValid : ((a b : ℕ) → a < 256 → b < 256 → f a b < 256) → IsValid (zipped f v o)
  zipped-IsValid fits = record {
    bytes = hv.bytes;
    stored = length-zip_with f v.bits o.bits (same_length v o hv ho e) ∙ hv.stored;
    chars =
        All-zip_with (λ c. c < 256) (λ c. c < 256) (λ c. c < 256) f fits v.bits o.bits hv.chars
          ho.chars;
  }

  -- The loop at its full run, in place and fresh.
  zip_in_place :
      combine_loop f true v.num_bytes 0 v.bits o.bits v.bits ≡ ok (zip_with f v.bits o.bits)
  zip_in_place =
      rw (sym hv.stored)
        (loop_in_place f v.bits o.bits [] [] v.bits 0 refl refl (sym (same_length v o hv ho e)))

  zip_fresh :
      combine_loop f false v.num_bytes 0 v.bits o.bits (replicate (bytes_for v.size) 0)
      ≡ ok (zip_with f v.bits o.bits)
  zip_fresh = rw (sym hv.stored) (
      loop_fresh f v.bits o.bits (replicate (bytes_for v.size) 0) [] [] [] 0 refl refl refl
        (sym (same_length v o hv ho e))
        (length-replicate (bytes_for v.size) 0 ∙ sym (hv.stored ∙ hv.bytes)))

  pub combine-zip :
      (flags : ℕ)
      → combine f v o flags
        ≡ ok (if has_flag flags op_in_place then zipped f v o else v, zipped f v o)
  unfolding combine create
  combine-zip flags =
      let sizes : (v.size == o.size) ≡ true = ground arith in
      elim (Bool-cases (has_flag flags op_in_place)) [
        | inl t ↦ rw (sizes, t, zip_in_place)
        | inr n ↦
            rw (sizes, n, zip_fresh)
              (ap
                (λ (m : ℕ).
                  ok (v, record { bits = zip_with f v.bits o.bits; size = v.size; num_bytes = m }))
                (sym hv.bytes))
      ]

-- `r` returns normally a well-formed vector of the size of `v` whose bit `k` is `g` of the bits of
-- `v` and `o`. In place that vector is `v` afterwards, and otherwise `v` is left alone.
pub record IsPointwise (g : Bool → Bool → Bool) (v o : BitVector) (flags : ℕ)
    (r : Outcome (BitVector × BitVector)) : Type 0 where
  pub result : BitVector
  pub returns : r ≡ ok (if has_flag flags op_in_place then result else v, result)
  pub valid : IsValid result
  pub same_size : result.size ≡ v.size
  pub bits : (k : ℕ) → bit result k ≡ g (bit v k) (bit o k)

-- An operation on bytes that acts digit by digit.
record IsDigitwise (g : Bool → Bool → Bool) (f : ℕ → ℕ → ℕ) : Type 0 where
  fits : (a b : ℕ) → a < 256 → b < 256 → f a b < 256
  zeros : f 0 0 ≡ 0
  digit : (j a b : ℕ) → test_bit (f a b) j ≡ g (test_bit a j) (test_bit b j)

combine-IsPointwise :
    (g : Bool → Bool → Bool) (f : ℕ → ℕ → ℕ)
    → IsDigitwise g f
    → (v o : BitVector) (flags : ℕ) → IsValid v
    → IsValid o
    → v.size ≡ o.size
    → IsPointwise g v o flags (combine f v o flags)
unfolding bit
combine-IsPointwise g f d v o flags hv ho e = record {
  result = zipped f v o;
  returns = combine-zip f v o hv ho e flags;
  valid = zipped-IsValid f v o hv ho e d.fits;
  same_size = refl;
  bits = λ k.
      let byte = get_or-zip_with f v.bits o.bits (k / 8) 0 0 (same_length v o hv ho e) in
      ap (λ (c : ℕ). test_bit c (k % 8)) (rw d.zeros at byte) ∙ d.digit (k % 8) _ _;
}

and-IsDigitwise : IsDigitwise ◌&&◌ bit_and
and-IsDigitwise = record {
  fits = λ a b p q. bit_and-lt 8 a b p;
  zeros = refl;
  digit = test_bit-and;
}

or-IsDigitwise : IsDigitwise ◌||◌ bit_or
or-IsDigitwise = record { fits = bit_or-lt 8; zeros = refl; digit = test_bit-or }

xor-IsDigitwise : IsDigitwise xor bit_xor
xor-IsDigitwise = record { fits = bit_xor-lt 8; zeros = refl; digit = test_bit-xor }

-- On well-formed vectors of one size `BitVector_And`, `BitVector_Or` and `BitVector_Xor` return
-- the vector of the conjunctions, disjunctions and differences of the bits, and they write to
-- `this` exactly when the flag asks for it.
pub and_or_xor_lem :
    (v o : BitVector) (flags : ℕ)
    → IsValid v
    → IsValid o
    → v.size ≡ o.size
    → IsPointwise ◌&&◌ v o flags (and_ v o flags)
      × IsPointwise ◌||◌ v o flags (or_ v o flags)
      × IsPointwise xor v o flags (xor_ v o flags)
unfolding and_ or_ xor_
and_or_xor_lem v o flags hv ho e = (
  combine-IsPointwise ◌&&◌ bit_and and-IsDigitwise v o flags hv ho e,
  combine-IsPointwise ◌||◌ bit_or or-IsDigitwise v o flags hv ho e,
  combine-IsPointwise xor bit_xor xor-IsDigitwise v o flags hv ho e,
)

-- Vectors of different sizes fail the assertion of all three operations.
pub sizes-abort :
    (v o : BitVector) (flags : ℕ)
    → v.size ≢ o.size
    → (and_ v o flags ≡ abort) × (or_ v o flags ≡ abort) × (xor_ v o flags ≡ abort)
unfolding and_ or_ xor_ combine
sizes-abort v o flags ne =
    let sizes : (v.size == o.size) ≡ false = ground arith in rw sizes (refl, refl, refl)

-- `BitVector_Not` returns the vector of the negated bits.
pub not_lem :
    (v : BitVector) (flags : ℕ)
    → IsValid v
    → (w : BitVector) × (not_ v flags ≡ ok (if has_flag flags op_in_place then w else v, w))
      × IsValid w
      × (w.size ≡ v.size)
      × ((k : ℕ) → k < v.size → bit w k ≡ not (bit v k))
unfolding not_ bit create
not_lem v flags h =
    let flip = λ (a b : ℕ). complement a in
    (
      zipped flip v v,
      elim (Bool-cases (has_flag flags op_in_place)) [
        | inl t ↦ rw (t, zip_in_place flip v v h h refl)
        | inr n ↦
            rw (n, zip_fresh flip v v h h refl)
              (ap
                (λ (m : ℕ).
                  ok (
                    v,
                    record { bits = zip_with flip v.bits v.bits; size = v.size; num_bytes = m },
                  ))
                (sym h.bytes))
      ],
      zipped-IsValid flip v v h h refl (λ a b p q. omega arith),
      refl,
      λ k lt.
          let stored : k / 8 < length (zip_with flip v.bits v.bits) =
            rw (length-zip_with flip v.bits v.bits refl) (byte_in_range v k h lt) in
          rw
            (
              get_or_default (zip_with flip v.bits v.bits) (k / 8) 0 (complement 0) stored,
              get_or-zip_with flip v.bits v.bits (k / 8) 0 0 refl,
            )
            (test_bit-complement 8 (k % 8) _ (char_at-lt v k h lt) (omega arith)),
    )

-- ===== src/AssocMap/Keys.antt =====
-- The four tests on keys: `==` of integers and of pointers, `strcmp` of texts, and
-- `BitVector_Equals` of vectors over one variable ordering.
use junction_box.Base.{
  ℕ, ◌<◌, Bool, true, not, ◌≡◌, ◌↔◌, refl, sym, ap, ◌∙◌, arith, ◌==◌, ==_refl, if◌then◌else◌,
  Bool_ext, Outcome, ok,
}
use junction_box.Base.Ranges.{all_from, all_from_sound, all_from_complete}
use junction_box.CString.{Text, text_eq}
use junction_box.CString.Laws.{text_eq_iff}
use junction_box.BitVector.{BitVector, equals}
use junction_box.BitVector.Valid.{IsValid, bit}
use junction_box.BitVector.Compare.{equals_lem}
use junction_box.AssocMap.Laws.{KeyTest}

-- `me->id == id`, in IntMap.c and VoidpMap.c
abbrev pub number_same : ℕ → ℕ → Outcome Bool
number_same a b = ok (a == b)

pub number_transitive : (a b c : ℕ) → (a == b) ≡ true → (b == c) ≡ true → (a == c) ≡ true
number_transitive a b c h k = ground arith

pub number_symmetric : (a b : ℕ) → (a == b) ≡ true → (b == a) ≡ true
number_symmetric a b h = ground arith

abbrev pub number_keys : KeyTest ℕ
number_keys = record {
  same = number_same;
  eq = λ a b. a == b;
  IsKey = λ _. Unit;
  runs = λ a b h k. refl;
  reflexive = ==_refl;
  symmetric = number_symmetric;
  transitive = number_transitive;
}

-- `strcmp(me->id, id) == 0`, in Map.c
abbrev pub text_same : Text → Text → Outcome Bool
text_same a b = ok (text_eq a b)

pub text_symmetric : (a b : Text) → text_eq a b ≡ true → text_eq b a ≡ true
text_symmetric a b h = (text_eq_iff b a).1 (sym ((text_eq_iff a b).0 h))

pub text_transitive : (a b c : Text) → text_eq a b ≡ true → text_eq b c ≡ true → text_eq a c ≡ true
text_transitive a b c h k = (text_eq_iff a c).1 ((text_eq_iff a b).0 h ∙ (text_eq_iff b c).0 k)

abbrev pub text_keys : KeyTest Text
text_keys = record {
  same = text_same;
  eq = text_eq;
  IsKey = λ _. Unit;
  runs = λ a b h k. refl;
  reflexive = λ a. (text_eq_iff a a).1 refl;
  symmetric = text_symmetric;
  transitive = text_transitive;
}

-- `BitVector_Equals(me->id, id, 0)`, in BitVectorMap.c
abbrev pub same_bit : BitVector → BitVector → ℕ → Bool
same_bit a b k = if bit a k then bit b k else not (bit b k)

module _ (n : ℕ) where
  abbrev pub bits_eq : BitVector → BitVector → Bool
  bits_eq a b = all_from (same_bit a b) 0 n

  pub bits_eq_iff : (a b : BitVector) → (bits_eq a b ≡ true) ↔ ((k : ℕ) → k < n → bit a k ≡ bit b k)
  bits_eq_iff a b = (
    λ h k lt. ground (arith, all_from_sound (same_bit a b) 0 n k h),
    λ h. all_from_complete (same_bit a b) 0 n (λ k p q. ground (arith, h k)),
  )

  pub bits_runs :
      (a b : BitVector)
      → IsValid a × (a.size ≡ n)
      → IsValid b × (b.size ≡ n)
      → equals a b ≡ ok (bits_eq a b)
  bits_runs a b h k =
      let (r, runs, means) = equals_lem a b h.0 k.0 (h.1 ∙ sym k.1) in
      let agree = Bool_ext r (bits_eq a b) (
        λ t. (bits_eq_iff a b).1 (λ i lt. means.0 t i (rw h.1 lt)),
        λ t. means.1 (λ i lt. (bits_eq_iff a b).0 t i (rw (← h.1) lt)),
      ) in
      runs ∙ ap (λ (x : Bool). ok x) agree

  abbrev pub bits_keys : KeyTest BitVector
  bits_keys = record {
    same = equals;
    eq = bits_eq;
    IsKey = λ v. IsValid v × (v.size ≡ n);
    runs = bits_runs;
    reflexive = λ a. (bits_eq_iff a a).1 (λ k lt. refl);
    symmetric = λ a b h. (bits_eq_iff b a).1 (λ k lt. sym ((bits_eq_iff a b).0 h k lt));
    transitive = λ a b c h k.
        (bits_eq_iff a c).1 (λ i lt. (bits_eq_iff a b).0 h i lt ∙ (bits_eq_iff b c).0 k i lt);
  }

-- ===== src/MulInds/Memo.antt =====
-- The memo of tables.
use junction_box.Base.{
  ℕ, true, List, [], ◌∷◌, ◌≡◌, sym, inl, inr, Bool-cases, if◌then◌else◌, ap, ◌∙◌, Option, none,
  some, Outcome, ok,
}
use junction_box.BitVector.{BitVector, equals}
use junction_box.BitVector.Valid.{IsValid}
use junction_box.VariableSet.{VariableSet}
use junction_box.AssocMap
use junction_box.AssocMap.Laws.{
  IsMap, lookup, contents_of, or_else, with_first, get-lookup, IsAdded, add-IsAdded,
}
use junction_box.AssocMap.Keys.{bits_eq, bits_keys}
use junction_box.AssocMap.BitVectorMap
use junction_box.AssocMap.BitVectorMap.{BitVectorMap}
use junction_box.MulInds.{memo_get}

module _ {V : Type 0} (n : ℕ) (compute : VariableSet → Outcome V) (Right : BitVector → V → Type 0)
    (respects : (a b : BitVector) (v : V) → bits_eq n a b ≡ true → Right a v → Right b v) where
  -- A memo over sets of `n` variables that holds what is right for each key.
  pub record IsSound (memo : BitVectorMap V) : Type 0 where
    pub map : IsMap (bits_keys n) memo
    pub holds : (id : BitVector) (v : V) → lookup (bits_keys n) id memo.first ≡ some v → Right id v

  kept :
      (memo : BitVectorMap V) (id : BitVector) (v : V) (r : Outcome (BitVectorMap V))
      → IsSound memo
      → lookup (bits_keys n) id memo.first ≡ none
      → Right id v
      → (h : IsAdded (bits_keys n) memo id v r) → IsSound h.result
  kept memo id v r s e right h = record {
    map = h.valid;
    holds = λ j w at. elim (Bool-cases (bits_eq n id j)) [
      | inl same ↦
          let new : some v ≡ some w = rw (← at, h.holds j, same, e) in
          let is : v ≡ w = cc in rw (← is) (respects id j v same right)
      | inr differs ↦ s.holds j w (rw (← at, h.holds j, differs))
    ];
  }

  -- What the memo gives for a target: what is right for it, and the memo has it from then on.
  pub record IsGot (memo : BitVectorMap V) (target : VariableSet) (r : Outcome (BitVectorMap V × V))
      : Type 0 where
    pub memo' : BitVectorMap V
    pub result : V
    pub returns : r ≡ ok (memo', result)
    pub right : Right target.bv result
    pub sound : IsSound memo'
    pub stored :
        (j : BitVector)
        → lookup (bits_keys n) j memo'.first
          ≡ (if bits_eq n target.bv j then some result else lookup (bits_keys n) j memo.first)

  -- A target that is there, and one that is not.
  on_found :
      (memo : BitVectorMap V) (target : VariableSet) (v : V) (chain : List (BitVector × V))
      → IsSound memo
      → compute target ≡ ok v
      → Right target.bv v
      → AssocMap.get equals memo target.bv ≡ ok chain
      → contents_of chain ≡ lookup (bits_keys n) target.bv memo.first
      → IsAdded (bits_keys n) memo target.bv v (AssocMap.add equals memo target.bv v)
      → IsGot memo target (memo_get compute memo target)
  unfolding memo_get BitVectorMap.get BitVectorMap.add
  on_found memo target v [] s c right g l a = record {
    memo' = a.result;
    result = v;
    returns = rw (g, c, a.returns);
    right = right;
    sound = kept memo target.bv v _ s (sym l) right a;
    stored = λ j.
        a.holds j
        ∙ ap
            (λ (q : Option V).
              if bits_eq n target.bv j
              then some (or_else q v)
              else lookup (bits_keys n) j memo.first)
            (sym l);
  }
  on_found memo target v ((bv, contents) ∷ next) s c right g l a =
      let same : a.result.first ≡ memo.first =
        a.chain ∙ ap (λ (q : Option V). with_first q target.bv v memo.first) (sym l) in
      record {
        memo' = memo;
        result = contents;
        returns = rw g;
        right = s.holds target.bv contents (sym l);
        sound = s;
        stored = λ j.
            ap (λ (m : List (BitVector × V)). lookup (bits_keys n) j m) (sym same)
            ∙ a.holds j
            ∙ ap
                (λ (q : Option V).
                  if bits_eq n target.bv j
                  then some (or_else q v)
                  else lookup (bits_keys n) j memo.first)
                (sym l);
      }

  -- Given that the computation returns what is right for the target, so does the memo.
  pub memo_get_lem :
      (memo : BitVectorMap V) (target : VariableSet) (v : V)
      → IsSound memo
      → IsValid target.bv
      → target.bv.size ≡ n
      → compute target ≡ ok v
      → Right target.bv v
      → IsGot memo target (memo_get compute memo target)
  memo_get_lem memo target v s h w c right =
      let (chain, gets, holds) = get-lookup (bits_keys n) memo target.bv s.map (h, w) in
      on_found memo target v chain s c right gets holds
        (add-IsAdded (bits_keys n) memo target.bv v s.map (h, w))

-- ===== src/AssocMap/Laws.antt =====
-- The laws of the maps, for every test on keys that decides an equivalence.
use junction_box.Base.{
  ℕ, ◌+◌, Bool, true, List, [], ◌∷◌, ◌≡◌, refl, sym, ◌∙◌, arith, inl, inr, if◌then◌else◌,
  Bool-cases, length, Option, none, some, Outcome, ok,
}
use junction_box.AssocMap.{Assoc, create, find, get, add}

-- What `…_Get` needs of the test on keys: on the keys that the program uses it returns, and it
-- decides an equivalence.
pub record KeyTest (K : Type 0) : Type 1 where
  pub same : K → K → Outcome Bool
  pub eq : K → K → Bool
  pub IsKey : K → Type 0
  pub runs : (a b : K) → IsKey a → IsKey b → same a b ≡ ok (eq a b)
  pub reflexive : (a : K) → eq a a ≡ true
  pub symmetric : (a b : K) → eq a b ≡ true → eq b a ≡ true
  pub transitive : (a b c : K) → eq a b ≡ true → eq b c ≡ true → eq a c ≡ true

-- The contents that a pointer to an element gives.
abbrev pub contents_of : {K V : Type 0} → List (K × V) → Option V
contents_of [] = none
contents_of ((k, v) ∷ next) = some v

abbrev pub or_else : {V : Type 0} → Option V → V → V
or_else none v = v
or_else (some w) v = w

abbrev pub absent : {V : Type 0} → Option V → ℕ
absent none = 1
absent (some w) = 0

-- The elements, and in front of them a new one when there was none with the key.
abbrev pub with_first : {K V : Type 0} → Option V → K → V → List (K × V) → List (K × V)
with_first none id v m = (id, v) ∷ m
with_first (some w) id v m = m

module _ {K : Type 0} (t : KeyTest K) where
  open t use {eq, symmetric, transitive}

  same_tests : (k a b : K) → eq a b ≡ true → eq k a ≡ eq k b
  same_tests k a b e = elim (Bool-cases (eq k a)) [
    | inl p ↦ p ∙ sym (transitive k a b p e)
    | inr n ↦ elim (Bool-cases (eq k b)) [
      | inl q ↦ cc (transitive k b a q (symmetric a b e))
      | inr q ↦ n ∙ sym q
    ]
  ]

module _ {K V : Type 0} (t : KeyTest K) where
  open t use {same, eq, IsKey, runs, reflexive, symmetric, transitive}

  -- The abstract map: the contents of the first element with the key.
  unfoldable pub lookup : K → List (K × V) → Option V
  lookup id [] = none
  lookup id ((k, v) ∷ m) = if eq k id then some v else lookup id m

  -- The size is right, and no key comes twice.
  abbrev pub Distinct : List (K × V) → Type 0
  Distinct [] = Unit
  Distinct ((k, v) ∷ m) = IsKey k × (lookup k m ≡ none) × Distinct m

  pub record IsMap (m : Assoc K V) : Type 0 where
    pub sized : m.size ≡ length m.first
    pub distinct : Distinct m.first

  pub create-IsMap : IsMap create
  create-IsMap = record { sized = refl; distinct = tt }

  find-lookup :
      (m : List (K × V)) (id : K)
      → Distinct m
      → IsKey id
      → (chain : List (K × V)) × (find same m id ≡ ok chain) × (contents_of chain ≡ lookup id m)
  unfolding find lookup
  find-lookup [] id d k = ([], refl, refl)
  find-lookup ((key, v) ∷ m) id d k = elim (Bool-cases (eq key id)) [
    | inl hit ↦ ((key, v) ∷ m, rw (runs key id d.0 k, hit), rw hit)
    | inr miss ↦
        let (chain, finds, holds) = find-lookup m id d.2 k in
        (chain, rw (runs key id d.0 k, miss) finds, rw miss holds)
  ]

  -- `…_Get` returns the element with the key, or NULL when there is none.
  pub get-lookup :
      (m : Assoc K V) (id : K)
      → IsMap m
      → IsKey id
      → (chain : List (K × V)) × (get same m id ≡ ok chain)
        × (contents_of chain ≡ lookup id m.first)
  unfolding get
  get-lookup m id h k = find-lookup m.first id h.distinct k

  -- Keys that the test takes for one have the same contents.
  pub lookup_same : (m : List (K × V)) (a b : K) → eq a b ≡ true → lookup a m ≡ lookup b m
  unfolding lookup
  lookup_same [] a b e = refl
  lookup_same ((k, v) ∷ m) a b e = rw (same_tests t k a b e, lookup_same m a b e)

  -- What `…_Add` makes of a map.
  pub record IsAdded (m : Assoc K V) (id : K) (v : V) (r : Outcome (Assoc K V)) : Type 0 where
    pub result : Assoc K V
    pub returns : r ≡ ok result
    pub chain : result.first ≡ with_first (lookup id m.first) id v m.first
    pub valid : IsMap result
    pub grows : result.size ≡ m.size + absent (lookup id m.first)
    pub holds :
        (j : K)
        → lookup j result.first
          ≡ (if eq id j then some (or_else (lookup id m.first) v) else lookup j m.first)

  add_present :
      (m : Assoc K V) (id : K) (v w : V)
      → IsMap m
      → lookup id m.first ≡ some w
      → (j : K)
      → lookup j m.first
        ≡ (if eq id j then some (or_else (lookup id m.first) v) else lookup j m.first)
  add_present m id v w h e j = elim (Bool-cases (eq id j)) [
    | inl same_key ↦ rw (same_key, e) (sym (lookup_same m.first id j same_key) ∙ e)
    | inr other ↦ rw other
  ]

  added :
      (m : Assoc K V) (id : K) (v : V) (chain : List (K × V))
      → IsMap m
      → IsKey id
      → get same m id ≡ ok chain
      → contents_of chain ≡ lookup id m.first
      → IsAdded m id v (add same m id v)
  unfolding add lookup
  added m id v [] h k g c = record {
    result = record { first = (id, v) ∷ m.first; size = m.size + 1 };
    returns = rw g;
    chain = rw (← c);
    valid = record { sized = omega (arith, h.sized); distinct = (k, sym c, h.distinct) };
    grows = rw (← c);
    holds = λ j. rw (← c);
  }
  added m id v ((key, w) ∷ chain) h k g c = record {
    result = m;
    returns = rw g;
    chain = rw (← c);
    valid = h;
    grows = rw (← c) (omega arith);
    holds = add_present m id v w h (sym c);
  }

  -- `…_Add` keeps the invariant, and does nothing for a key that is there; a new key is added in
  -- front with the new contents, and the size grows by one exactly then.
  pub add-IsAdded :
      (m : Assoc K V) (id : K) (v : V) → IsMap m → IsKey id → IsAdded m id v (add same m id v)
  add-IsAdded m id v h k =
      let (chain, gets, holds) = get-lookup m id h k in added m id v chain h k gets holds

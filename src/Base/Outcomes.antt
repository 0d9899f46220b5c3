-- ===== src/Base/Outcomes.antt =====
-- How a C function that asserts and reads arrays can end.
use Prim.Native.Nat.{ℕ, zero, suc}
use mathlib.Core.Path.{◌≡◌, refl, sym, ap}
use mathlib.Core.Bool.{Bool, true, false}
use mathlib.Core.List.{List, [], ◌∷◌, ◌++◌}
use mathlib.Core.Option.{Option, none, some}
use junction_box.Base.Lists.{
  get_elem?, set, length, append_snoc, get_elem?-append_mid, set-append_mid,
}

-- `abort` is a failed `assert`; `fault` is undefined behaviour, such as an access out of range.
pub data Outcome {ℓ} (A : Type ℓ) : Type ℓ where
  ok : A → Outcome A
  abort : Outcome A
  fault : Outcome A

infixl 5 ◌>>=◌ ◌>>◌
abbrev pub ◌>>=◌ {ℓ κ} : {A : Type ℓ} {B : Type κ} → Outcome A → (A → Outcome B) → Outcome B
ok a >>= f = f a
abort >>= f = abort
fault >>= f = fault

abbrev pub ◌>>◌ {ℓ} : {B : Type ℓ} → Outcome (Unit {0}) → Outcome B → Outcome B
m >> k = m >>= λ _. k

pub bind_ext {ℓ κ} :
    {A : Type ℓ} {B : Type κ} (m : Outcome A) (f g : A → Outcome B)
    → ((a : A) → f a ≡ g a)
    → (m >>= f) ≡ (m >>= g)
bind_ext (ok a) f g h = h a
bind_ext abort f g h = refl
bind_ext fault f g h = refl

pub bind_assoc {ℓ κ μ} :
    {A : Type ℓ} {B : Type κ} {C : Type μ} (m : Outcome A) (f : A → Outcome B) (g : B → Outcome C)
    → ((m >>= f) >>= g) ≡ (m >>= λ a. f a >>= g)
bind_assoc (ok a) f g = refl
bind_assoc abort f g = refl
bind_assoc fault f g = refl

pub bind_ok {ℓ} : {A : Type ℓ} (m : Outcome A) → (m >>= ok) ≡ m
bind_ok (ok a) = refl
bind_ok abort = refl
bind_ok fault = refl

-- `assert(b)`
abbrev pub assert : Bool → Outcome (Unit {0})
assert true = ok tt
assert false = abort

module _ {ℓ} {A : Type ℓ} where
  abbrev pub deref : Option A → Outcome A
  deref none = fault
  deref (some a) = ok a

  -- `xs[i]`
  abbrev pub read : List A → ℕ → Outcome A
  read xs i = deref (get_elem? xs i)

  -- `xs[i] = v`
  abbrev pub write : List A → ℕ → A → Outcome (List A)
  write xs i v = read xs i >>= λ _. ok (set xs i v)

  -- `xs[0]`, …, `xs[n - 1]`
  abbrev pub read_all : ℕ → List A → Outcome (List A)
  read_all zero xs = ok []
  read_all (suc n) [] = fault
  read_all (suc n) (x ∷ xs) = read_all n xs >>= λ rest. ok (x ∷ rest)

  pub read_all_lem : (xs : List A) → read_all (length xs) xs ≡ ok xs
  read_all_lem [] = refl
  read_all_lem (x ∷ xs) = rw (read_all_lem xs)

-- Access behind a part that is done.
pub read-append_mid :
    {A : Type 0} (done : List A) (x : A) (rest : List A) (i : ℕ)
    → length done ≡ i
    → read (done ++ x ∷ rest) i ≡ ok x
read-append_mid done x rest i e = rw (get_elem?-append_mid done x rest i e)

pub write-append_mid :
    {A : Type 0} (done : List A) (x v : A) (rest : List A) (i : ℕ)
    → length done ≡ i
    → write (done ++ x ∷ rest) i v ≡ ok ((done ++ v ∷ []) ++ rest)
write-append_mid {A = A} done x v rest i e =
    rw (get_elem?-append_mid done x rest i e, set-append_mid done x rest v i e)
      (ap (λ (l : List A). ok l) (sym (append_snoc done v rest)))

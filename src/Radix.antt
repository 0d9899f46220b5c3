-- ===== src/Radix.antt =====
-- Mixed radix numbers: the mathematics behind the indices of tabular potentials. The code is in
-- VariableSet.
pub mod Laws
use junction_box.Base.{ℕ, zero, suc, ◌+◌, ◌*◌, ◌/◌, ◌%◌, ◌<◌, List, [], ◌∷◌}

unfoldable pub product : List ℕ → ℕ
product [] = 1
product (c ∷ cs) = c * product cs

-- The number that the digits `vs` stand for, where the digit at a place is below the radix there
-- and the last place counts ones.
unfoldable pub encode : List ℕ → List ℕ → ℕ
encode [] vs = 0
encode (c ∷ cs) [] = 0
encode (c ∷ cs) (v ∷ vs) = v * product cs + encode cs vs

unfoldable pub decode : List ℕ → ℕ → List ℕ
decode [] n = []
decode (c ∷ cs) n = (n / product cs) ∷ decode cs (n % product cs)

-- `vs` has a digit for each radix, and each is in range.
abbrev pub Digits : List ℕ → List ℕ → Type 0
Digits [] [] = Unit
Digits [] (v ∷ vs) = ⊥
Digits (c ∷ cs) [] = ⊥
Digits (c ∷ cs) (v ∷ vs) = (v < c) × Digits cs vs

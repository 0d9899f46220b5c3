-- ===== src/Radix/Laws.antt =====
-- Encoding and decoding are inverse, and the codes are the numbers below the product.
use junction_box.Base.{ℕ, ◌+◌, ◌*◌, ◌/◌, ◌%◌, ◌<◌, List, [], ◌∷◌, ◌≡◌, refl, arith, All}
use junction_box.Radix.{product, encode, decode, Digits}

pub product-pos : (cs : List ℕ) → All (λ c. 0 < c) cs → 0 < product cs
unfolding product
product-pos [] h = omega arith
product-pos (c ∷ cs) h = let p = product-pos cs h.1 in let q = h.0 in grind arith

pub encode-lt : (cs vs : List ℕ) → Digits cs vs → encode cs vs < product cs
unfolding encode product
encode-lt [] [] d = omega arith
encode-lt [] (v ∷ vs) d = absurd d
encode-lt (c ∷ cs) [] d = absurd d
encode-lt (c ∷ cs) (v ∷ vs) d = let e = encode-lt cs vs d.1 in let q = d.0 in grind arith

div_of_sum : (v p e : ℕ) → e < p → (v * p + e) / p ≡ v
div_of_sum v p e h = grind arith

mod_of_sum : (v p e : ℕ) → e < p → (v * p + e) % p ≡ e
mod_of_sum v p e h = grind arith

pub encode-decode :
    (cs : List ℕ) (n : ℕ) → All (λ c. 0 < c) cs → n < product cs → encode cs (decode cs n) ≡ n
unfolding encode decode product
encode-decode [] n h lt = omega arith
encode-decode (c ∷ cs) n h lt =
    let p = product-pos cs h.1 in
    let ih = encode-decode cs (n % product cs) h.1 (grind arith) in rw ih (grind arith)

pub decode-Digits :
    (cs : List ℕ) (n : ℕ) → All (λ c. 0 < c) cs → n < product cs → Digits cs (decode cs n)
unfolding decode product
decode-Digits [] n h lt = tt
decode-Digits (c ∷ cs) n h lt =
    let p = product-pos cs h.1 in (grind arith, decode-Digits cs (n % product cs) h.1 (grind arith))

pub decode-encode : (cs vs : List ℕ) → Digits cs vs → decode cs (encode cs vs) ≡ vs
unfolding encode decode
decode-encode [] [] d = refl
decode-encode [] (v ∷ vs) d = absurd d
decode-encode (c ∷ cs) [] d = absurd d
decode-encode (c ∷ cs) (v ∷ vs) d =
    let e = encode-lt cs vs d.1 in
    rw (
      div_of_sum v (product cs) (encode cs vs) e,
      mod_of_sum v (product cs) (encode cs vs) e,
      decode-encode cs vs d.1,
    )

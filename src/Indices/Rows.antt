-- ===== src/Indices/Rows.antt =====
-- The loops over one row of values.
use native.Mathlib.Nat.{add_assoc}
use junction_box.Base.{
  ℕ, suc, ◌+◌, ◌-◌, ◌*◌, ◌/◌, ◌%◌, ◌≤◌, ◌<◌, false, List, [], ◌∷◌, ◌++◌, ◌≡◌, sym, ap, ap₂, ◌∙◌,
  arith, ◌==◌, lt→ltb, length, length-append, length_snoc, append_snoc, get_elem?-append_mid, All,
  ok,
}
use junction_box.Radix.{product, encode, decode}
use junction_box.Radix.Laws.{product-pos}
use junction_box.Indices.{divide, row_loop, index_loop}

divide_lem : (a b : ℕ) → 0 < b → divide a b ≡ ok (a / b)
divide_lem a b h = let e : (b == 0) ≡ false = ground arith in rw e

cancel : (c p : ℕ) → 0 < c → c * p / c ≡ p
cancel c p h = grind arith

code_left : (n p : ℕ) → n - n / p * p ≡ n % p
code_left n p = grind arith

-- With the radices `c ∷ cs` still to come and `code` below their product, the loop appends the
-- digits of the code.
pub row_loop-decode :
    (cs : List ℕ) (c room : ℕ) (done : List ℕ) (j code : ℕ) (row : List ℕ)
    → All (λ c. 0 < c) (c ∷ cs)
    → length done ≡ j
    → code < product (c ∷ cs)
    → length row + suc (length cs) ≤ room
    → row_loop room (done ++ c ∷ cs) (length cs) j code (product (c ∷ cs)) row
      ≡ ok (row ++ decode (c ∷ cs) code)
unfolding row_loop decode product
row_loop-decode [] c room done j code row pos e lt fits =
    rw (lt→ltb (length row) room (omega arith)) (ap (λ (n : ℕ). ok (row ++ n ∷ [])) (omega arith))
row_loop-decode (d ∷ cs) c room done j code row pos e lt fits =
    let p = product-pos (d ∷ cs) pos.1 in
    rw
      (
        get_elem?-append_mid done c (d ∷ cs) j e,
        divide_lem (c * product (d ∷ cs)) c pos.0,
        cancel c (product (d ∷ cs)) pos.0,
        divide_lem code (product (d ∷ cs)) p,
        lt→ltb (length row) room (omega arith),
        code_left code (product (d ∷ cs)),
      )
      (ap
          (λ (card : List ℕ).
            row_loop room card (length cs) (j + 1) (code % product (d ∷ cs)) (product (d ∷ cs))
              (row ++ code / product (d ∷ cs) ∷ []))
          (sym (append_snoc done c (d ∷ cs)))
        ∙ (row_loop-decode cs d room (done ++ c ∷ []) (j + 1) (code % product (d ∷ cs))
            (row ++ code / product (d ∷ cs) ∷ []) pos.1 (length_snoc done c j e) (grind arith)
            (omega (arith, length-append row (code / product (d ∷ cs) ∷ []))))
        ∙ ap (λ (t : List ℕ). ok t)
            (append_snoc row (code / product (d ∷ cs)) (decode (d ∷ cs) (code % product (d ∷ cs)))))

-- The other way: the loop adds up what the digits stand for.
pub index_loop-encode :
    (cs : List ℕ) (c : ℕ) (done vs seen : List ℕ) (v i ret : ℕ)
    → All (λ c. 0 < c) (c ∷ cs)
    → length done ≡ i
    → length seen ≡ i
    → length vs ≡ length cs
    → index_loop (done ++ c ∷ cs) (seen ++ v ∷ vs) (length cs) i (product (c ∷ cs)) ret
      ≡ ok (ret + encode (c ∷ cs) (v ∷ vs))
unfolding index_loop encode product
index_loop-encode [] c done vs seen v i ret pos e f l =
    rw (get_elem?-append_mid seen v vs i f) (ap (λ (n : ℕ). ok n) (omega arith))
index_loop-encode (d ∷ cs) c done [] seen v i ret pos e f l = absurd (omega arith)
index_loop-encode (d ∷ cs) c done (w ∷ vs) seen v i ret pos e f l =
    rw
      (
        get_elem?-append_mid done c (d ∷ cs) i e,
        divide_lem (c * product (d ∷ cs)) c pos.0,
        cancel c (product (d ∷ cs)) pos.0,
        get_elem?-append_mid seen v (w ∷ vs) i f,
      )
      (ap₂
          (λ (card values : List ℕ).
            index_loop card values (length cs) (i + 1) (product (d ∷ cs))
              (ret + v * product (d ∷ cs)))
          (sym (append_snoc done c (d ∷ cs))) (sym (append_snoc seen v (w ∷ vs)))
        ∙ (index_loop-encode cs d (done ++ c ∷ []) vs (seen ++ v ∷ []) w (i + 1)
            (ret + v * product (d ∷ cs)) pos.1 (length_snoc done c i e) (length_snoc seen v i f)
            (omega arith))
        ∙ ap (λ (n : ℕ). ok n) (add_assoc ret (v * product (d ∷ cs)) (encode (d ∷ cs) (w ∷ vs))))

-- ===== src/Crossing/Rows.antt =====
-- `IndexCross` puts the values of the two sets together, row by row.
use junction_box.Base.{
  ℕ, suc, ◌+◌, List, [], ◌∷◌, ◌++◌, map, ◌≡◌, refl, sym, ap, ◌∙◌, arith, length, length_snoc,
  append_snoc, set-append_mid, get_elem?-append_mid, All, Outcome, ok, ◌>>=◌,
}
use junction_box.Crossing.{scatter, cross_row, cross_loop}
use junction_box.Crossing.Tags.{Tag, one, two, neither, flip, ranks, weave, union}

-- What `scatter` makes of the part `rest` of a row, with the values `xs` for the first set.
unfoldable fill : List Tag → List ℕ → List ℕ → List ℕ
fill [] rest xs = []
fill (one ∷ ts) [] xs = []
fill (one ∷ ts) (x ∷ rest) [] = []
fill (one ∷ ts) (x ∷ rest) (v ∷ xs) = v ∷ fill ts rest xs
fill (two ∷ ts) [] xs = []
fill (two ∷ ts) (x ∷ rest) xs = x ∷ fill ts rest xs
fill (neither ∷ ts) rest xs = fill ts rest xs

-- The number of positions that have a set.
unfoldable pub count : List Tag → ℕ
count [] = 0
count (one ∷ ts) = suc (count ts)
count (two ∷ ts) = suc (count ts)
count (neither ∷ ts) = count ts

scatter-fill :
    (ts : List Tag) (r j : ℕ) (seen vals done rest xs : List ℕ)
    → length seen ≡ j
    → length vals ≡ j
    → length done ≡ r
    → length rest ≡ count ts
    → length xs ≡ length (ranks ts r)
    → scatter (length xs) j (seen ++ ranks ts r) (vals ++ xs) (done ++ rest)
      ≡ ok (done ++ fill ts rest xs)
unfolding scatter fill ranks count
scatter-fill [] r j seen vals done [] [] a b c d e = refl
scatter-fill [] r j seen vals done [] (v ∷ xs) a b c d e = absurd (omega arith)
scatter-fill [] r j seen vals done (x ∷ rest) xs a b c d e = absurd (omega arith)
scatter-fill (one ∷ ts) r j seen vals done [] xs a b c d e = absurd (omega arith)
scatter-fill (one ∷ ts) r j seen vals done (x ∷ rest) [] a b c d e = absurd (omega arith)
scatter-fill (one ∷ ts) r j seen vals done (x ∷ rest) (v ∷ xs) a b c d e =
    rw
      (
        get_elem?-append_mid seen r (ranks ts (r + 1)) j a,
        get_elem?-append_mid vals v xs j b,
        get_elem?-append_mid done x rest r c,
        set-append_mid done x rest v r c,
      )
      (rw
        (
          ← append_snoc seen r (ranks ts (r + 1)),
          ← append_snoc vals v xs,
          ← append_snoc done v rest,
        )
        (scatter-fill ts (r + 1) (j + 1) (seen ++ r ∷ []) (vals ++ v ∷ []) (done ++ v ∷ []) rest xs
            (length_snoc seen r j a) (length_snoc vals v j b) (length_snoc done v r c) (omega arith)
            (omega arith)
          ∙ ap (λ (l : List ℕ). ok l) (append_snoc done v (fill ts rest xs))))
scatter-fill (two ∷ ts) r j seen vals done [] xs a b c d e = absurd (omega arith)
scatter-fill (two ∷ ts) r j seen vals done (x ∷ rest) xs a b c d e =
    ap (λ (row : List ℕ). scatter (length xs) j (seen ++ ranks ts (r + 1)) (vals ++ xs) row)
      (sym (append_snoc done x rest))
    ∙ scatter-fill ts (r + 1) j seen vals (done ++ x ∷ []) rest xs a b (length_snoc done x r c)
        (omega arith) e
    ∙ ap (λ (l : List ℕ). ok l) (append_snoc done x (fill ts rest xs))
scatter-fill (neither ∷ ts) r j seen vals done rest xs a b c d e =
    scatter-fill ts r j seen vals done rest xs a b c d e

length-fill :
    (ts : List Tag) (r : ℕ) (rest xs : List ℕ)
    → length rest ≡ count ts
    → length xs ≡ length (ranks ts r)
    → length (fill ts rest xs) ≡ count ts
unfolding fill count ranks
length-fill [] r rest xs d e = refl
length-fill (one ∷ ts) r [] xs d e = absurd (omega arith)
length-fill (one ∷ ts) r (x ∷ rest) [] d e = absurd (omega arith)
length-fill (one ∷ ts) r (x ∷ rest) (v ∷ xs) d e =
    ap suc (length-fill ts (r + 1) rest xs (omega arith) (omega arith))
length-fill (two ∷ ts) r [] xs d e = absurd (omega arith)
length-fill (two ∷ ts) r (x ∷ rest) xs d e = ap suc (length-fill ts (r + 1) rest xs (omega arith) e)
length-fill (neither ∷ ts) r rest xs d e = length-fill ts r rest xs d e

fill-fill :
    (ts : List Tag) (r : ℕ) (rest xs ys : List ℕ)
    → length rest ≡ count ts
    → length xs ≡ length (ranks ts r)
    → length ys ≡ length (ranks (flip ts) r)
    → fill (flip ts) (fill ts rest xs) ys ≡ weave ts xs ys
unfolding fill count ranks weave flip
fill-fill [] r rest xs ys d e f = refl
fill-fill (one ∷ ts) r [] xs ys d e f = absurd (omega arith)
fill-fill (one ∷ ts) r (x ∷ rest) [] ys d e f = absurd (omega arith)
fill-fill (one ∷ ts) r (x ∷ rest) (v ∷ xs) ys d e f =
    ap (λ (l : List ℕ). v ∷ l) (fill-fill ts (r + 1) rest xs ys (omega arith) (omega arith) f)
fill-fill (two ∷ ts) r [] xs ys d e f = absurd (omega arith)
fill-fill (two ∷ ts) r (x ∷ rest) xs [] d e f = absurd (omega arith)
fill-fill (two ∷ ts) r (x ∷ rest) xs (v ∷ ys) d e f =
    ap (λ (l : List ℕ). v ∷ l) (fill-fill ts (r + 1) rest xs ys (omega arith) e (omega arith))
fill-fill (neither ∷ ts) r rest xs ys d e f = fill-fill ts r rest xs ys d e f

count-flip : (ts : List Tag) → count (flip ts) ≡ count ts
unfolding count flip
count-flip [] = refl
count-flip (one ∷ ts) = ap suc (count-flip ts)
count-flip (two ∷ ts) = ap suc (count-flip ts)
count-flip (neither ∷ ts) = count-flip ts

pub count-ranks :
    (ts : List Tag) (r : ℕ) → count ts ≡ length (ranks ts r) + length (ranks (flip ts) r)
unfolding count flip ranks
count-ranks [] r = omega arith
count-ranks (one ∷ ts) r = omega (arith, count-ranks ts (r + 1))
count-ranks (two ∷ ts) r = omega (arith, count-ranks ts (r + 1))
count-ranks (neither ∷ ts) r = count-ranks ts r

pub length-weave :
    (ts : List Tag) (r : ℕ) (xs ys : List ℕ)
    → length xs ≡ length (ranks ts r)
    → length ys ≡ length (ranks (flip ts) r)
    → length (weave ts xs ys) ≡ count ts
unfolding count flip ranks weave
length-weave [] r xs ys e f = refl
length-weave (one ∷ ts) r [] ys e f = absurd (omega arith)
length-weave (one ∷ ts) r (x ∷ xs) ys e f = ap suc (length-weave ts (r + 1) xs ys (omega arith) f)
length-weave (two ∷ ts) r xs [] e f = absurd (omega arith)
length-weave (two ∷ ts) r xs (y ∷ ys) e f = ap suc (length-weave ts (r + 1) xs ys e (omega arith))
length-weave (neither ∷ ts) r xs ys e f = length-weave ts r xs ys e f

pub length-union :
    {A : Type 0} (ts : List Tag) (xs : List A)
    → length xs ≡ length ts
    → length (union ts xs) ≡ count ts
unfolding count union
length-union [] xs e = refl
length-union (t ∷ ts) [] e = absurd (omega arith)
length-union (one ∷ ts) (x ∷ xs) e = ap suc (length-union ts xs (omega arith))
length-union (two ∷ ts) (x ∷ xs) e = ap suc (length-union ts xs (omega arith))
length-union (neither ∷ ts) (x ∷ xs) e = length-union ts xs (omega arith)

module _ (fresh : ℕ → List ℕ) (fits : (n : ℕ) → length (fresh n) ≡ n) (ts : List Tag) (xs : List ℕ)
    (firsts : length xs ≡ length (ranks ts 0)) where
  cross_row-weave :
      (ys : List ℕ)
      → length ys ≡ length (ranks (flip ts) 0)
      → cross_row fresh (ranks ts 0) (ranks (flip ts) 0) xs ys (length xs) (length ys)
        ≡ ok (weave ts xs ys)
  unfolding cross_row
  cross_row-weave ys seconds =
      let n = length xs + length ys in
      let whole = count-ranks ts 0 in
      let room : length (fresh n) ≡ count ts = fits n ∙ omega arith in
      rw (scatter-fill ts 0 0 [] [] [] (fresh n) xs refl refl refl room firsts) (
        scatter-fill (flip ts) 0 0 [] [] [] (fill ts (fresh n) xs) ys refl refl refl
          (length-fill ts 0 (fresh n) xs room firsts ∙ sym (count-flip ts)) seconds
        ∙ ap (λ (l : List ℕ). ok l) (fill-fill ts 0 (fresh n) xs ys room firsts seconds))

  pub cross_loop-weave :
      (num_fst num_scnd i : ℕ) (seen rows : List (List ℕ))
      → num_fst ≡ length xs
      → num_scnd ≡ length (ranks (flip ts) 0)
      → All (λ (row : List ℕ). length row ≡ num_scnd) rows
      → length seen ≡ i
      → cross_loop fresh
          (ranks ts 0)
          (ranks (flip ts) 0)
          xs
          (seen ++ rows)
          num_fst
          num_scnd
          (length rows)
          i
        ≡ ok (map (weave ts xs) rows)
  unfolding cross_loop
  cross_loop-weave nf ns i seen [] ef es l e = refl
  cross_loop-weave nf ns i seen (ys ∷ rows) ef es l e =
      let row = cross_row-weave ys (l.0 ∙ es) in
      rw (get_elem?-append_mid seen ys rows i e, ef, ← l.0, row)
        (ap
            (λ (all : List (List ℕ)).
              cross_loop fresh (ranks ts 0) (ranks (flip ts) 0) xs all nf ns (length rows) (i + 1)
              >>= λ rest. ok (weave ts xs ys ∷ rest))
            (sym (append_snoc seen ys rows))
          ∙ ap (λ (o : Outcome (List (List ℕ))). o >>= λ rest. ok (weave ts xs ys ∷ rest))
              (cross_loop-weave nf ns (i + 1) (seen ++ ys ∷ []) rows ef es l.1
                (length_snoc seen ys i e)))

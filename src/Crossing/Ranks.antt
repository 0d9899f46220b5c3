-- ===== src/Crossing/Ranks.antt =====
-- `fix_vbls_indices` replaces positions by ranks.
use junction_box.Base.{
  ℕ, zero, suc, ◌+◌, ◌-◌, ◌≤◌, ◌<◌, true, false, List, [], ◌∷◌, ◌++◌, ◌≡◌, refl, sym, ap, ◌∙◌,
  arith, leb, lt→ltb, le→ltb, length, length-append, length_snoc, append_snoc, read-append_mid,
  write-append_mid, set-append_mid, ok,
}
use junction_box.Indices.Laws.{count_up}
use junction_box.Crossing.{check_vbl_indx_bnds, tail_loop, fix_loop, fix_vbls_indices}
use junction_box.Crossing.Tags.{Tag, one, two, neither, flip, ones, ranks, flip-flip, ones-first}

tail_lem :
    (rest done : List ℕ) (off i left : ℕ)
    → length done ≡ off
    → left ≡ length rest
    → tail_loop left off i (done ++ rest) ≡ ok (done ++ count_up i (length rest))
unfolding tail_loop count_up
tail_lem [] done off i zero e l = refl
tail_lem [] done off i (suc left) e l = absurd (omega arith)
tail_lem (x ∷ rest) done off i zero e l = absurd (omega arith)
tail_lem (x ∷ rest) done off i (suc left) e l = rw (write-append_mid done x i rest off e) (
    tail_lem rest (done ++ i ∷ []) (off + 1) (i + 1) left (length_snoc done i off e) (omega arith)
    ∙ ap (λ (l : List ℕ). ok l) (append_snoc done i (count_up (i + 1) (length rest))))

-- Without members of the second set the ranks of the first are consecutive.
ranks_alone :
    (ts : List Tag) (i r : ℕ)
    → ones (flip ts) i ≡ []
    → (ranks ts r ≡ count_up r (length (ones ts i))) × (ranks (flip ts) r ≡ [])
unfolding ranks ones flip count_up
ranks_alone [] i r e = (refl, refl)
ranks_alone (one ∷ ts) i r e =
    let ih = ranks_alone ts (i + 1) (r + 1) e in (ap (λ (l : List ℕ). r ∷ l) ih.0, ih.1)
ranks_alone (two ∷ ts) i r e = cc
ranks_alone (neither ∷ ts) i r e = ranks_alone ts (i + 1) r e

-- What is left of the run when one of the sets is used up.
module _ (done_f done_s : List ℕ) (r num_fst num_scnd : ℕ)
    (at : length done_f + length done_s ≡ r) where
  scnd_done :
      (fuel : ℕ) (f : List ℕ)
      → num_fst ≡ length done_f + length f
      → num_scnd ≡ length done_s
      → fix_loop
          (suc fuel)
          num_fst
          num_scnd
          r
          (length done_f)
          (length done_s)
          (done_f ++ f)
          (done_s ++ [])
        ≡ ok (done_f ++ count_up r (length f), done_s ++ [])
  unfolding fix_loop count_up
  scnd_done fuel [] nf ns =
      let stop : check_vbl_indx_bnds r (length done_f) (length done_s) num_fst num_scnd ≡ false =
        ground arith in
      let full : leb (num_fst + num_scnd) r ≡ true = ground arith in rw (stop, full)
  scnd_done fuel (x ∷ f) nf ns =
      let stop : check_vbl_indx_bnds r (length done_f) (length done_s) num_fst num_scnd ≡ false =
        ground arith in
      let more : leb (num_fst + num_scnd) r ≡ false = ground arith in
      let some_fst : leb num_fst (length done_f) ≡ false = ground arith in
      let rest =
        tail_lem (x ∷ f) done_f (length done_f) r (num_fst - length done_f) refl (omega arith) in
      rw (stop, more, some_fst, rest)

  fst_done :
      (fuel : ℕ) (s : List ℕ)
      → num_fst ≡ length done_f
      → num_scnd ≡ length done_s + length s
      → fix_loop
          (suc fuel)
          num_fst
          num_scnd
          r
          (length done_f)
          (length done_s)
          (done_f ++ [])
          (done_s ++ s)
        ≡ ok (done_f ++ [], done_s ++ count_up r (length s))
  unfolding fix_loop count_up
  fst_done fuel [] nf ns =
      let stop : check_vbl_indx_bnds r (length done_f) (length done_s) num_fst num_scnd ≡ false =
        ground arith in
      let full : leb (num_fst + num_scnd) r ≡ true = ground arith in rw (stop, full)
  fst_done fuel (y ∷ s) nf ns =
      let stop : check_vbl_indx_bnds r (length done_f) (length done_s) num_fst num_scnd ≡ false =
        ground arith in
      let more : leb (num_fst + num_scnd) r ≡ false = ground arith in
      let no_fst : leb num_fst (length done_f) ≡ true = ground arith in
      let rest =
        tail_lem (y ∷ s) done_s (length done_s) r (num_scnd - length done_s) refl (omega arith) in
      rw (stop, more, no_fst, rest)

-- One round writes the rank `r` into the array with the smaller position.
module _ (done_f done_s : List ℕ) (x y : ℕ) (f s : List ℕ) (r fuel num_fst num_scnd : ℕ)
    (at : length done_f + length done_s ≡ r) (nf : num_fst ≡ length done_f + suc (length f))
    (ns : num_scnd ≡ length done_s + suc (length s)) where
  going_on : check_vbl_indx_bnds r (length done_f) (length done_s) num_fst num_scnd ≡ true
  going_on = ground arith

  next_fst :
      x < y
      → fix_loop
          (suc fuel)
          num_fst
          num_scnd
          r
          (length done_f)
          (length done_s)
          (done_f ++ x ∷ f)
          (done_s ++ y ∷ s)
        ≡ fix_loop fuel num_fst num_scnd
            (r + 1)
            (length done_f + 1)
            (length done_s)
            ((done_f ++ r ∷ []) ++ f)
            (done_s ++ y ∷ s)
  unfolding fix_loop
  next_fst lt = rw (
    going_on,
    read-append_mid done_f x f (length done_f) refl,
    read-append_mid done_s y s (length done_s) refl,
    lt→ltb x y lt,
    set-append_mid done_f x f r (length done_f) refl,
    append_snoc done_f r f,
  )

  next_scnd :
      y ≤ x
      → fix_loop
          (suc fuel)
          num_fst
          num_scnd
          r
          (length done_f)
          (length done_s)
          (done_f ++ x ∷ f)
          (done_s ++ y ∷ s)
        ≡ fix_loop fuel num_fst num_scnd
            (r + 1)
            (length done_f)
            (length done_s + 1)
            (done_f ++ x ∷ f)
            ((done_s ++ r ∷ []) ++ s)
  unfolding fix_loop
  next_scnd le = rw (
    going_on,
    read-append_mid done_f x f (length done_f) refl,
    read-append_mid done_s y s (length done_s) refl,
    le→ltb x y le,
    set-append_mid done_s y s r (length done_s) refl,
    append_snoc done_s r s,
  )

-- The whole loop, with fuel for every position.
fix_lem :
    (ts : List Tag) (i r fuel num_fst num_scnd : ℕ) (done_f done_s f s : List ℕ)
    → ones ts i ≡ f
    → ones (flip ts) i ≡ s
    → length done_f + length done_s ≡ r
    → num_fst ≡ length done_f + length f
    → num_scnd ≡ length done_s + length s
    → length f + length s < fuel
    → fix_loop fuel num_fst num_scnd r (length done_f) (length done_s) (done_f ++ f) (done_s ++ s)
      ≡ ok (done_f ++ ranks ts r, done_s ++ ranks (flip ts) r)
unfolding ones flip ranks
fix_lem ts i r zero nf ns df ds f s ef es at hf hs fl = absurd (omega arith)
fix_lem ts i r (suc fuel) nf ns df ds f [] ef es at hf hs fl =
    let (p, q) = ranks_alone ts i r es in
    scnd_done df ds r nf ns at fuel f hf (omega arith) ∙ rw (p, q, ef)
fix_lem ts i r (suc fuel) nf ns df ds [] (y ∷ s) ef es at hf hs fl =
    let (p, q) = ranks_alone (flip ts) i r (rw flip-flip ef) in
    let none_fst : ranks ts r ≡ [] = rw flip-flip at q in
    fst_done df ds r nf ns at fuel (y ∷ s) (omega arith) hs ∙ rw (none_fst, p, es)
fix_lem [] i r (suc fuel) nf ns df ds (x ∷ f) (y ∷ s) ef es at hf hs fl = absurd cc
fix_lem (neither ∷ ts) i r (suc fuel) nf ns df ds (x ∷ f) (y ∷ s) ef es at hf hs fl =
    fix_lem ts (i + 1) r (suc fuel) nf ns df ds (x ∷ f) (y ∷ s) ef es at hf hs fl
fix_lem (one ∷ ts) i r (suc fuel) nf ns df ds (x ∷ f) (y ∷ s) ef es at hf hs fl =
    let here : i ≡ x = cc in
    let after = ones-first (flip ts) (i + 1) y s es in
    let ih =
      fix_lem ts (i + 1) (r + 1) fuel nf ns (df ++ r ∷ []) ds f (y ∷ s) (cc) es
        (omega (arith, length-append df (r ∷ []))) (omega (arith, length-append df (r ∷ []))) hs
        (omega arith) in
    next_fst df ds x y f s r fuel nf ns at hf hs (omega arith)
    ∙ ap
        (λ (off : ℕ).
          fix_loop fuel nf ns (r + 1) off (length ds) ((df ++ r ∷ []) ++ f) (ds ++ y ∷ s))
        (sym (length_snoc df r (length df) refl))
    ∙ ih
    ∙ ap (λ (l : List ℕ). ok (l, ds ++ ranks (flip ts) (r + 1)))
        (append_snoc df r (ranks ts (r + 1)))
fix_lem (two ∷ ts) i r (suc fuel) nf ns df ds (x ∷ f) (y ∷ s) ef es at hf hs fl =
    let here : i ≡ y = cc in
    let after = ones-first ts (i + 1) x f ef in
    let ih =
      fix_lem ts (i + 1) (r + 1) fuel nf ns df (ds ++ r ∷ []) (x ∷ f) s ef (cc)
        (omega (arith, length-append ds (r ∷ []))) hf (omega (arith, length-append ds (r ∷ [])))
        (omega arith) in
    next_scnd df ds x y f s r fuel nf ns at hf hs (omega arith)
    ∙ ap
        (λ (off : ℕ).
          fix_loop fuel nf ns (r + 1) (length df) off (df ++ x ∷ f) ((ds ++ r ∷ []) ++ s))
        (sym (length_snoc ds r (length ds) refl))
    ∙ ih
    ∙ ap (λ (l : List ℕ). ok (df ++ ranks ts (r + 1), l))
        (append_snoc ds r (ranks (flip ts) (r + 1)))

-- For the sorted positions of two disjoint sets and their numbers, `fix_vbls_indices` replaces
-- every position by its rank among the positions of both sets.
pub fix_vbls_indices_lem :
    (ts : List Tag) (num_fst num_scnd : ℕ) (f s : List ℕ)
    → ones ts 0 ≡ f
    → ones (flip ts) 0 ≡ s
    → num_fst ≡ length f
    → num_scnd ≡ length s
    → fix_vbls_indices num_fst num_scnd f s ≡ ok (ranks ts 0, ranks (flip ts) 0)
unfolding fix_vbls_indices
fix_vbls_indices_lem ts nf ns f s ef es hf hs =
    fix_lem ts 0 0 (nf + ns + 1) nf ns [] [] f s ef es refl (omega arith) (omega arith)
      (omega arith)

-- ===== src/Potentials/Pointwise.antt =====
-- The product of two potentials over tables of one size.
use junction_box.Base.{
  ℕ, ◌+◌, List, [], ◌∷◌, ◌++◌, ◌≡◌, refl, sym, ap, ap₂, ◌∙◌, arith, none, length, length_snoc,
  append_snoc, get_elem?-append_mid, set-append_mid, zip_with, length-zip_with, ok,
}
use junction_box.Potentials.{Pot, pointwise_loop, product_tabular}
use junction_box.Potentials.Sizes.{IsPot}

module _ {N : Type 0} (op : N → N → N) where
  pointwise_lem :
      (ps qs done_p done : List N) (i : ℕ)
      → length done_p ≡ i
      → length done ≡ i
      → length ps ≡ length qs
      → pointwise_loop op (done_p ++ ps) (length ps) i (done ++ qs) ≡ ok (done ++ zip_with op ps qs)
  unfolding pointwise_loop
  pointwise_lem [] [] dp done i a b e = refl
  pointwise_lem [] (q ∷ qs) dp done i a b e = absurd (omega arith)
  pointwise_lem (p ∷ ps) [] dp done i a b e = absurd (omega arith)
  pointwise_lem (p ∷ ps) (q ∷ qs) dp done i a b e =
      rw
        (
          get_elem?-append_mid dp p ps i a,
          get_elem?-append_mid done q qs i b,
          set-append_mid done q qs (op p q) i b,
        )
        (ap₂ (λ (all_p all_q : List N). pointwise_loop op all_p (length ps) (i + 1) all_q)
            (sym (append_snoc dp p ps)) (sym (append_snoc done (op p q) qs))
          ∙ pointwise_lem ps qs (dp ++ p ∷ []) (done ++ op p q ∷ []) (i + 1) (length_snoc dp p i a)
              (length_snoc done (op p q) i b) (omega arith)
          ∙ ap (λ (l : List N). ok l) (append_snoc done (op p q) (zip_with op ps qs)))

  -- A product of well-formed potentials over tables of one size, without an index table, is a
  -- well-formed potential over the variables of `q` whose table has at each place the operation
  -- applied to the two values.
  pub product_pointwise_lem :
      (p q : Pot N)
      → IsPot p
      → IsPot q
      → p.table_size ≡ q.table_size
      → (q' : Pot N) × (product_tabular op p q none ≡ ok q')
        × IsPot q'
        × (q'.vbls ≡ q.vbls)
        × (q'.tab_data ≡ zip_with op p.tab_data q.tab_data)
  unfolding product_tabular
  product_pointwise_lem p q h k e =
      let same : length p.tab_data ≡ length q.tab_data = h.filled ∙ e ∙ sym k.filled in
      let run =
        ap (λ (n : ℕ). pointwise_loop op p.tab_data n 0 q.tab_data) (sym h.filled)
        ∙ pointwise_lem p.tab_data q.tab_data [] [] 0 refl refl same in
      (
        record q { tab_data = zip_with op p.tab_data q.tab_data },
        rw run,
        record {
          set = k.set;
          sized = k.sized;
          filled = length-zip_with op p.tab_data q.tab_data same ∙ h.filled ∙ e;
        },
        refl,
        refl,
      )

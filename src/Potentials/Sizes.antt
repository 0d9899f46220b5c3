-- ===== src/Potentials/Sizes.antt =====
-- The constructors, the evaluation and the update ratio of tabular potentials.
use native.Mathlib.Nat.{mul_assoc}
use junction_box.Base.{
  ℕ, ◌+◌, ◌*◌, ◌<◌, List, [], ◌∷◌, ◌++◌, zip_with, ◌≡◌, refl, sym, ap, ap₂, ◌∙◌, arith, some,
  length, length-map, length_snoc, append_snoc, get_elem?, get_elem?-append_mid, set-append_mid,
  get_elem?_in, length-zip_with, length-replicate, replicate, ok,
}
use junction_box.Radix.{product, encode, Digits}
use junction_box.Radix.Laws.{encode-lt}
use junction_box.Variables.{Variable}
use junction_box.VariableSet.{VariableSet}
use junction_box.VariableSet.Members.{IsVariableSet, members}
use junction_box.VariableSet.Ops.{set_views}
use junction_box.Indices.Laws.{cards, compute_index_lem}
use junction_box.Indices.Bounds.{length-Digits}
use junction_box.Potentials.{
  Pot, size_loop, table_size_of, create_tabular, create_tabular_unity, create_tabular_un_init,
  evaluate_tabular, ratio_loop, update_ratio_tabular,
}

size_lem :
    (cs done : List ℕ) (i p : ℕ)
    → length done ≡ i
    → size_loop (length cs) i (done ++ cs) p ≡ ok (p * product cs)
unfolding size_loop product
size_lem [] done i p e = ap (λ (n : ℕ). ok n) (omega arith)
size_lem (c ∷ cs) done i p e =
    rw (get_elem?-append_mid done c cs i e, ← append_snoc done c cs)
      (size_lem cs (done ++ c ∷ []) (i + 1) (p * c) (length_snoc done c i e)
        ∙ ap (λ (n : ℕ). ok n) (mul_assoc p c (product cs)))

pub table_size_of_lem :
    (s : VariableSet) → IsVariableSet s → table_size_of s ≡ ok (product (cards s))
unfolding table_size_of
table_size_of_lem s h =
    rw
      (
        (set_views s h).1,
        (set_views s h).2,
        ← length-map (members s) (λ (v : Variable). v.cardinality),
      )
      (size_lem (cards s) [] 0 1 refl ∙ ap (λ (n : ℕ). ok n) (omega arith))

-- A potential whose table has the size that its variables ask for.
pub record IsPot {N : Type 0} (p : Pot N) : Type 0 where
  pub set : IsVariableSet p.vbls
  pub sized : p.table_size ≡ product (cards p.vbls)
  pub filled : length p.tab_data ≡ p.table_size

module _ {N : Type 0} where
  -- The constructors: the unit potential is well-formed and every value is the given one;
  -- `CreateTabular` keeps the given table, whose size must be that of the variables.
  pub create_pot_lem :
      (value : N) (label : List ℕ) (vbls : VariableSet) (value_data : List N)
      → IsVariableSet vbls
      → length value_data ≡ product (cards vbls)
      → ((p : Pot N) × (create_tabular_unity value label vbls ≡ ok p)
          × IsPot p
          × (p.tab_data ≡ replicate (product (cards vbls)) value))
        × ((p : Pot N) × (create_tabular label vbls value_data ≡ ok p)
            × IsPot p
            × (p.tab_data ≡ value_data))
  unfolding create_tabular_unity create_tabular
  create_pot_lem value label vbls value_data h e = (
    (
      record {
        label = label;
        vbls = vbls;
        tab_data = replicate (product (cards vbls)) value;
        table_size = product (cards vbls);
      },
      rw (table_size_of_lem vbls h),
      record { set = h; sized = refl; filled = length-replicate (product (cards vbls)) value },
      refl,
    ),
    (
      record {
        label = label;
        vbls = vbls;
        tab_data = value_data;
        table_size = product (cards vbls);
      },
      rw (table_size_of_lem vbls h),
      record { set = h; sized = refl; filled = e },
      refl,
    ),
  )

  -- For a well-formed potential over at least one variable and one value in range for each of its
  -- variables, `Pot_EvaluateTabular` returns the entry of the table at the number that the values
  -- stand for.
  pub evaluate_tabular_lem :
      (p : Pot N) (values : List ℕ)
      → IsPot p
      → 0 < length (members p.vbls)
      → Digits (cards p.vbls) values
      → (v : N) × (evaluate_tabular p values ≡ ok v)
        × (get_elem? p.tab_data (encode (cards p.vbls) values) ≡ some v)
  unfolding evaluate_tabular
  evaluate_tabular_lem p values h n d =
      let len = length-map (members p.vbls) (λ (v : Variable). v.cardinality) in
      let inside : encode (cards p.vbls) values < length p.tab_data =
        omega (arith, encode-lt (cards p.vbls) values d, h.sized, h.filled) in
      let (v, at) = get_elem?_in p.tab_data (encode (cards p.vbls) values) inside in
      (
        v,
        rw (
          compute_index_lem p.vbls values h.set n (length-Digits (cards p.vbls) values d ∙ len),
          at,
        ),
        at,
      )

  ratio_lem :
      (op : N → N → N) (news olds rest done_n done_o done : List N) (i : ℕ)
      → length done_n ≡ i
      → length done_o ≡ i
      → length done ≡ i
      → length news ≡ length rest
      → length olds ≡ length rest
      → ratio_loop op (done_n ++ news) (done_o ++ olds) (length rest) i (done ++ rest)
        ≡ ok (done ++ zip_with op news olds)
  unfolding ratio_loop
  ratio_lem op [] olds [] dn dd d i a b c e f = refl
  ratio_lem op [] olds (x ∷ rest) dn dd d i a b c e f = absurd (omega arith)
  ratio_lem op (n ∷ news) olds [] dn dd d i a b c e f = absurd (omega arith)
  ratio_lem op (n ∷ news) [] (x ∷ rest) dn dd d i a b c e f = absurd (omega arith)
  ratio_lem op (n ∷ news) (o ∷ olds) (x ∷ rest) dn dd d i a b c e f =
      rw
        (
          get_elem?-append_mid dd o olds i b,
          get_elem?-append_mid dn n news i a,
          get_elem?-append_mid d x rest i c,
          set-append_mid d x rest (op n o) i c,
        )
        (ap₂ (λ (ns os : List N). ratio_loop op ns os (length rest) (i + 1) (d ++ op n o ∷ rest))
            (sym (append_snoc dn n news)) (sym (append_snoc dd o olds))
          ∙ ap
              (λ (r : List N).
                ratio_loop op ((dn ++ n ∷ []) ++ news) ((dd ++ o ∷ []) ++ olds) (length rest)
                  (i + 1) r)
              (sym (append_snoc d (op n o) rest))
          ∙ ratio_lem op news olds rest (dn ++ n ∷ []) (dd ++ o ∷ []) (d ++ op n o ∷ []) (i + 1)
              (length_snoc dn n i a) (length_snoc dd o i b) (length_snoc d (op n o) i c)
              (omega arith) (omega arith)
          ∙ ap (λ (l : List N). ok l) (append_snoc d (op n o) (zip_with op news olds)))

  pub update_ratio_tabular_lem :
      (op : N → N → N) (fresh : ℕ → List N) (new_sep old_sep : Pot N)
      → ((n : ℕ) → length (fresh n) ≡ n)
      → IsPot new_sep
      → IsPot old_sep
      → old_sep.table_size ≡ new_sep.table_size
      → (ret : Pot N) × (update_ratio_tabular op fresh new_sep old_sep ≡ ok ret)
        × IsPot ret
        × (ret.label ≡ new_sep.label)
        × (ret.vbls ≡ new_sep.vbls)
        × (ret.tab_data ≡ zip_with op new_sep.tab_data old_sep.tab_data)
  unfolding update_ratio_tabular create_tabular_un_init
  update_ratio_tabular_lem op fresh new old fits h k e =
      let size = product (cards new.vbls) in
      let block = fits size in
      let run =
        ratio_lem op new.tab_data old.tab_data (fresh size) [] [] [] 0 refl refl refl
          (h.filled ∙ h.sized ∙ sym block) (k.filled ∙ e ∙ h.sized ∙ sym block) in
      let count : new.table_size ≡ length (fresh size) = h.sized ∙ sym block in
      (
        record {
          label = new.label;
          vbls = new.vbls;
          tab_data = zip_with op new.tab_data old.tab_data;
          table_size = size;
        },
        rw (table_size_of_lem new.vbls h.set, count, run),
        record {
          set = h.set;
          sized = refl;
          filled =
              length-zip_with op new.tab_data old.tab_data (h.filled ∙ sym e ∙ sym k.filled)
              ∙ h.filled
              ∙ h.sized;
        },
        refl,
        refl,
        refl,
      )

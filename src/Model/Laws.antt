-- ===== src/Model/Laws.antt =====
-- What the tables and the observations hold.
use junction_box.Base.{
  ℕ, zero, suc, ◌+◌, ◌≤◌, ◌<◌, ◌⊎◌, inl, inr, List, [], ◌∷◌, ◌++◌, ◌≡◌, refl, sym, ap, ap₂, ◌∙◌,
  arith, if◌then◌else◌, ◌==◌, ltb, Bool-cases, none, some, length, length_snoc, length-map,
  append_snoc, get_elem?, get_elem?-append_mid, set-append_mid, ok,
}
use junction_box.Radix.{product}
use junction_box.CString.Laws.{string_create_lem}
use junction_box.LinkedList.{LinkedList, Heap, walk}
use junction_box.LinkedList.Chain.{IsList, contents_of}
use junction_box.LinkedList.Print.{run, walk-run}
use junction_box.Variables.{Variable}
use junction_box.VariableSet.{VariableSet, get_fst_vbl}
use junction_box.VariableSet.Members.{IsVariableSet, members}
use junction_box.VariableSet.Ops.{get_fst_vbl_lem, first_of, cardinalities}
use junction_box.Indices.Laws.{cards}
use junction_box.Potentials.{Pot, create_tabular}
use junction_box.Potentials.Sizes.{IsPot, table_size_of_lem}
use junction_box.Model.{
  Observation, fill_step, cpt_create, cpt_create_parent_list, values_loop, observation_create,
}

module _ {C : Type 0} where
  -- A run that fills an array stores the contents in order.
  pub fill_run :
      (vs done rest : List C) (i : ℕ)
      → length done ≡ i
      → length rest ≡ length vs
      → run fill_step vs (done ++ rest, i) ≡ ok (done ++ vs, i + length vs)
  unfolding run
  fill_run [] done [] i e f = ap (λ (n : ℕ). ok (done ++ [], n)) (omega arith)
  fill_run [] done (x ∷ rest) i e f = absurd (omega arith)
  fill_run (v ∷ vs) done [] i e f = absurd (omega arith)
  fill_run (v ∷ vs) done (x ∷ rest) i e f =
      rw (get_elem?-append_mid done x rest i e, set-append_mid done x rest v i e)
        (ap (λ (l : List C). run fill_step vs (l, i + 1)) (sym (append_snoc done v rest))
          ∙ fill_run vs (done ++ v ∷ []) rest (i + 1) (length_snoc done v i e) (omega arith)
          ∙ ap₂ (λ (l : List C) (n : ℕ). ok (l, n)) (append_snoc done v vs) (omega arith))

  -- The loop over a list in the heap fills a new array with its contents.
  pub fill_walk :
      (fresh : ℕ → List C) (fuel : ℕ) (h : Heap C) (l : LinkedList) (nodes : List (ℕ × C))
      → ((n : ℕ) → length (fresh n) ≡ n)
      → IsList h l nodes
      → length nodes ≤ fuel
      → walk fill_step fuel h l.first (fresh l.size, 0) ≡ ok (contents_of nodes, length nodes)
  fill_walk fresh fuel h l nodes fits i f =
      let count : length (contents_of nodes) ≡ length nodes =
        length-map nodes (λ (m : ℕ × C). m.1) in
      walk-run fill_step h nodes l.first fuel (fresh l.size, 0) i.chain f
      ∙ fill_run (contents_of nodes) [] (fresh l.size) 0 refl (fits l.size ∙ i.sized ∙ sym count)
      ∙ ap (λ (n : ℕ). ok (contents_of nodes, n)) (omega (arith, count))

module _ {N : Type 0} where
  -- For a list in the heap, `CPT_Create_ParentList` stores its contents as the parents, in order.
  pub cpt_create_parent_list_lem :
      (fresh : ℕ → List Variable) (junk : List Variable × ℕ) (fuel : ℕ) (h : Heap Variable)
      (l : LinkedList) (nodes : List (ℕ × Variable)) (table_for : Variable) (pot : Pot N)
      → ((n : ℕ) → length (fresh n) ≡ n)
      → IsList h l nodes
      → length nodes ≤ fuel
      → cpt_create_parent_list fresh junk fuel h (some l) table_for pot
        ≡ ok (cpt_create (contents_of nodes) (length nodes) table_for pot)
  unfolding cpt_create_parent_list
  cpt_create_parent_list_lem fresh junk fuel h l nodes table_for pot fits i f =
      rw (fill_walk fresh fuel h l nodes fits i f, i.sized) refl

  length-values_loop : (hit miss : N) (value n i : ℕ) → length (values_loop hit miss value n i) ≡ n
  unfolding values_loop
  length-values_loop hit miss value zero i = refl
  length-values_loop hit miss value (suc n) i = ap suc (length-values_loop hit miss value n (i + 1))

  get_elem?-values_loop :
      (hit miss : N) (value n i k : ℕ)
      → k < n
      → get_elem? (values_loop hit miss value n i) k ≡ some (if i + k == value then hit else miss)
  unfolding values_loop
  get_elem?-values_loop hit miss value zero i k h = absurd (omega arith)
  get_elem?-values_loop hit miss value (suc n) i zero h =
      let z : i + 0 ≡ i = omega arith in
      ap (λ (m : ℕ). some (if m == value then hit else miss)) (sym z)
  get_elem?-values_loop hit miss value (suc n) i (suc k) h =
      let z : i + 1 + k ≡ i + suc k = omega arith in
      get_elem?-values_loop hit miss value n (i + 1) k (omega arith)
      ∙ ap (λ (m : ℕ). some (if m == value then hit else miss)) z

  -- For a set of one variable, `Observation_Create` returns NULL when the value is negative or above
  -- the cardinality. Else it returns an observation of the variable whose potential is well-formed and
  -- has `hit` at the value and `miss` at every other value of the variable; a value that is equal
  -- to the cardinality is so accepted, with `miss` everywhere.
  pub observation_create_lem :
      (hit miss : N) (fresh : ℕ → List ℕ) (vset : VariableSet) (v : Variable) (value : ℕ)
      → ((n : ℕ) → length (fresh n) ≡ n)
      → IsVariableSet vset
      → members vset ≡ v ∷ []
      → (observation_create hit miss fresh vset none ≡ ok none)
        × (((v.cardinality < value)
              × (observation_create hit miss fresh vset (some value) ≡ ok none))
            ⊎ ((value ≤ v.cardinality)
                × ((o : Observation N) × (observation_create hit miss fresh vset (some value)
                      ≡ ok (some o))
                    × (o.v ≡ v)
                    × IsPot o.pot
                    × ((k : ℕ)
                        → k < v.cardinality
                        → get_elem? o.pot.tab_data k ≡ some (if k == value then hit else miss)))))
  unfolding observation_create create_tabular product
  observation_create_lem hit miss fresh vset v value fits h one =
      let first : get_fst_vbl vset ≡ ok (some v) =
        get_fst_vbl_lem vset h ∙ ap (λ (l : List Variable). ok (first_of l)) one in
      let size : product (cards vset) ≡ v.cardinality =
        ap (λ (l : List Variable). product (cardinalities l)) one ∙ omega arith in
      let negative : observation_create hit miss fresh vset none ≡ ok none = rw first in
      (
        negative,
        elim (Bool-cases (ltb v.cardinality value)) [
          | inl big ↦ inl (ground arith, rw (first, big))
          | inr small ↦ inr (
            ground arith,
            (
              record {
                v = v;
                pot = record {
                  label = v.label ++ 0 ∷ [];
                  vbls = vset;
                  tab_data = values_loop hit miss value v.cardinality 0;
                  table_size = product (cards vset);
                };
                value = some value;
              },
              rw (first, small, string_create_lem fresh v.label fits, table_size_of_lem vset h),
              refl,
              record {
                set = h;
                sized = refl;
                filled = length-values_loop hit miss value v.cardinality 0 ∙ sym size;
              },
              λ k lt.
                  get_elem?-values_loop hit miss value v.cardinality 0 k lt
                  ∙ ap (λ (m : ℕ). some (if m == value then hit else miss)) (omega arith),
            ),
          )
        ],
      )

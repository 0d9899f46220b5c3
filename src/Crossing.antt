-- ===== src/Crossing.antt =====
-- src/components/JB_Pot/JB_Pot.c, lines 201 to 303: the values of two disjoint sets of variables,
-- put together into rows of values of their union.
--
-- `fresh n` is the content of a block of `n` integers that `jballoc` returns. The loop of
-- `fix_vbls_indices` runs on fuel; without fuel it faults.
pub mod Tags
pub mod Ranks
pub mod Rows
pub mod Sets
use junction_box.Base.{
  ℕ, zero, suc, ◌+◌, ◌-◌, Bool, true, false, List, [], ◌∷◌, if◌then◌else◌, ltb, leb, Outcome, ok,
  fault, ◌>>=◌, read, write,
}
use junction_box.VariableSet.{VariableSet, scan_loop, push, get_size, get_num_vbls}

abbrev pub check_vbl_indx_bnds : ℕ → ℕ → ℕ → ℕ → ℕ → Bool
check_vbl_indx_bnds i fst_off scnd_off num_fst num_scnd =
    if leb num_fst fst_off
    then false
    else if leb num_scnd scnd_off
    then false
    else if leb (num_fst + num_scnd) i
    then false
    else true

-- `while (off < num) vbls[off++] = i++` with `left` rounds left.
pub tail_loop : ℕ → ℕ → ℕ → List ℕ → Outcome (List ℕ)
tail_loop zero off i vbls = ok vbls
tail_loop (suc left) off i vbls = write vbls off i >>= tail_loop left (off + 1) (i + 1)

-- What follows the loop of `fix_vbls_indices`.
abbrev pub finish : ℕ → ℕ → ℕ → ℕ → ℕ → List ℕ → List ℕ → Outcome (List ℕ × List ℕ)
finish num_fst num_scnd i fst_off scnd_off fst scnd =
    if leb (num_fst + num_scnd) i
    then ok (fst, scnd)
    else if leb num_fst fst_off
    then (tail_loop (num_scnd - scnd_off) scnd_off i scnd >>= λ scnd'. ok (fst, scnd'))
    else (tail_loop (num_fst - fst_off) fst_off i fst >>= λ fst'. ok (fst', scnd))

-- The loop of `fix_vbls_indices`, and what follows it.
pub fix_loop : ℕ → ℕ → ℕ → ℕ → ℕ → ℕ → List ℕ → List ℕ → Outcome (List ℕ × List ℕ)
fix_loop zero num_fst num_scnd i fst_off scnd_off fst scnd = fault
fix_loop (suc fuel) num_fst num_scnd i fst_off scnd_off fst scnd =
    let round = (do
      a ← read fst fst_off
      b ← read scnd scnd_off
      let of_fst =
          (write fst fst_off i >>= λ fst'.
          fix_loop fuel num_fst num_scnd (i + 1) (fst_off + 1) scnd_off fst' scnd)
      let of_scnd =
          (write scnd scnd_off i >>= λ scnd'.
          fix_loop fuel num_fst num_scnd (i + 1) fst_off (scnd_off + 1) fst scnd')
      if ltb a b then of_fst else of_scnd) in
    if check_vbl_indx_bnds i fst_off scnd_off num_fst num_scnd
    then round
    else finish num_fst num_scnd i fst_off scnd_off fst scnd

-- The two arrays, changed in place.
unfoldable pub fix_vbls_indices : ℕ → ℕ → List ℕ → List ℕ → Outcome (List ℕ × List ℕ)
unfolding fix_loop tail_loop
fix_vbls_indices num_fst num_scnd fst scnd =
    fix_loop (num_fst + num_scnd + 1) num_fst num_scnd 0 0 0 fst scnd

-- `for (j = 0; j < num; j++) row[indices[j]] = values[j]` with `left` rounds left.
pub scatter : ℕ → ℕ → List ℕ → List ℕ → List ℕ → Outcome (List ℕ)
scatter zero j indices values row = ok row
scatter (suc left) j indices values row = do
  r ← read indices j
  v ← read values j
  row' ← write row r v
  scatter left (j + 1) indices values row'

-- The ranks of the members of a set in the ordering, in an array of `room` cells.
unfoldable pub places : ℕ → ℕ → VariableSet → Outcome (List ℕ)
places room size vbls = scan_loop (λ l i. push room l i) size 0 vbls.bv []

module _ (fresh : ℕ → List ℕ) where
  -- One row of the result.
  unfoldable pub cross_row : List ℕ → List ℕ → List ℕ → List ℕ → ℕ → ℕ → Outcome (List ℕ)
  unfolding scatter
  cross_row fst scnd first_indices second_indices num_fst num_scnd = do
    row ← scatter num_fst 0 fst first_indices (fresh (num_fst + num_scnd))
    scatter num_scnd 0 scnd second_indices row

  pub cross_loop :
      List ℕ → List ℕ → List ℕ → List (List ℕ) → ℕ → ℕ → ℕ → ℕ → Outcome (List (List ℕ))
  unfolding cross_row
  cross_loop fst scnd first_indices seconds num_fst num_scnd zero i = ok []
  cross_loop fst scnd first_indices seconds num_fst num_scnd (suc left) i = do
    second_indices ← read seconds i
    row ← cross_row fst scnd first_indices second_indices num_fst num_scnd
    rest ← cross_loop fst scnd first_indices seconds num_fst num_scnd left (i + 1)
    ok (row ∷ rest)

  -- `IndexCross`
  unfoldable pub index_cross :
      VariableSet → List ℕ → VariableSet → List (List ℕ) → ℕ → Outcome (List (List ℕ))
  index_cross first first_indices second seconds second_sample_card = do
    num_fst ← get_num_vbls first
    num_scnd ← get_num_vbls second
    fst ← places num_fst (get_size first) first
    scnd ← places num_scnd (get_size first) second
    (fst', scnd') ← fix_vbls_indices num_fst num_scnd fst scnd
    cross_loop fst' scnd' first_indices seconds num_fst num_scnd second_sample_card 0

-- ===== src/JunctionTree/Collection.antt =====
-- src/components/JB_JunctionTree/JB_JunctionTree.c: collections of elimination sets.
--
-- `elim_sets` is an array of `size` pointers, NULL is `none`.
pub mod Cliques
pub mod Swaps
pub mod Covers
pub mod Reduced
use junction_box.Base.{
  ℕ, zero, suc, ◌+◌, ◌-◌, ◌*◌, Bool, true, false, List, [], ◌∷◌, ◌++◌, ltb, if◌then◌else◌, Option,
  none, some, Outcome, ok, fault, ◌>>=◌, read, read_all, write,
}
use junction_box.CString.{Text, strcat_all}
use junction_box.CString.Join.{total}
use junction_box.AssocMap
use junction_box.AssocMap.{Assoc}
use junction_box.AssocMap.Keys.{number_same}
use junction_box.ElimSets.{ElimSet, contains, elim_set_get_label}

-- `remap` is an IntMap; its values may be negative, which is `none`.
pub record ElimSetCollection : Type 0 where
  pub size : ℕ
  pub elim_sets : List (Option ElimSet)
  pub remap : Assoc ℕ (Option ℕ)

-- `ElimSetCollection_Create`; `fresh` is the content of a new array.
abbrev pub create : (ℕ → List (Option ElimSet)) → ℕ → ElimSetCollection
create fresh size = record { size = size; elim_sets = fresh size; remap = AssocMap.create }

-- `ElimSetCollection_Get`
abbrev pub get : ElimSetCollection → ℕ → Outcome (Option ElimSet)
get this indx = read this.elim_sets indx

-- `IntMap_Get(this->remap, indx)->contents`
abbrev pub remapped : ElimSetCollection → ℕ → Outcome (Option ℕ)
remapped this indx = AssocMap.get number_same this.remap indx >>= λ me. elim me [
  | [] ↦ fault
  | (_, contents) ∷ _ ↦ ok contents
]

-- `ElimSetCollection_Get_W_ReMap`, with fuel for its calls of itself.
unfoldable pub get_w_remap : ℕ → ElimSetCollection → ℕ → Outcome (Option ElimSet)
get_w_remap zero this indx = fault
get_w_remap (suc fuel) this indx = do
  ret ← get this indx
  elim ret [
    | some es ↦ ok (some es)
    | none ↦ (do
      new_indx ← remapped this indx
      elim new_indx [
        | none ↦ ok none
        | some i ↦ (do
          again ← get this i
          elim again [ some es ↦ ok (some es) | none ↦ get_w_remap fuel this i ])
      ])
  ]

-- `ElimSetCollection_ReMap`; the ordering that it takes is not used.
unfoldable pub remap_set : ElimSetCollection → ℕ → ℕ → Outcome ElimSetCollection
remap_set this old_indx new_indx = do
  es ← read this.elim_sets old_indx
  elim_sets ← write this.elim_sets new_indx es
  elim_sets' ← write elim_sets old_indx none
  ok (record this { elim_sets = elim_sets' })

-- `ElimSetCollection_Add`
unfoldable pub add : ElimSetCollection → ElimSet → ℕ → Outcome ElimSetCollection
add this eset indx = write this.elim_sets indx (some eset) >>= λ elim_sets.
    ok (record this { elim_sets = elim_sets })

-- The text in a block.
unfoldable pub text_of : List ℕ → Text
text_of [] = []
text_of (zero ∷ block) = []
text_of (suc c ∷ block) = suc c ∷ text_of block

unfoldable pub strings_of : (ℕ → List ℕ) → List (Option ElimSet) → Outcome (List Text)
unfolding text_of
strings_of fresh [] = ok []
strings_of fresh (none ∷ sets) = strings_of fresh sets
strings_of fresh (some es ∷ sets) = do
  string ← elim_set_get_label fresh es
  rest ← strings_of fresh sets
  ok (text_of string ∷ rest)

-- Each text and a line end.
abbrev pub lines : List Text → List Text
lines [] = []
lines (s ∷ ss) = s ∷ (10 ∷ []) ∷ lines ss

-- `ElimSetCollection_ToString`
unfoldable pub to_string : (ℕ → List ℕ) → ElimSetCollection → Outcome (List ℕ)
unfolding strings_of
to_string fresh this = do
  sets ← read_all this.size this.elim_sets
  strings ← strings_of fresh sets
  ret ← write (fresh (total (lines strings) + 1)) 0 0
  strcat_all ret (lines strings)

-- The inner loop of `RemoveNonCliques`: the first set from `j` on that contains the given one.
unfoldable pub search_loop : ElimSet → ℕ → ℕ → ElimSetCollection → Outcome (Option ℕ)
search_loop possibly_contained zero j this = ok none
search_loop possibly_contained (suc left) j this = do
  let next = search_loop possibly_contained left (j + 1) this
  possibly_contains ← get this j
  elim possibly_contains [
    | none ↦ next
    | some es ↦ (contains es possibly_contained >>= λ b. if b then ok (some j) else next)
  ]

-- The outer loop, with fuel. After a swap the same index is looked at again.
unfoldable pub remove_loop : ℕ → ℕ → ElimSetCollection → Outcome ElimSetCollection
unfolding search_loop
remove_loop zero i this = fault
remove_loop (suc fuel) i this =
    let next = remove_loop fuel (i + 1) this in
    let round = (do
      possibly_contained ← get this i
      elim possibly_contained [
        | none ↦ next
        | some es ↦ (do
          found ← search_loop es (this.size - (i + 1)) (i + 1) this
          elim found [
            | none ↦ next
            | some j ↦ remap_set this j i >>= λ this'. remove_loop fuel i this'
          ])
      ]) in
    if ltb i this.size then round else ok this

-- `ElimSetCollection_RemoveNonCliques`
unfoldable pub remove_non_cliques : ℕ → ElimSetCollection → Outcome ElimSetCollection
unfolding remove_loop
remove_non_cliques fuel this = remove_loop fuel 0 this

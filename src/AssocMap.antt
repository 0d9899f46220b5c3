-- ===== src/AssocMap.antt =====
-- The association lists of JB_Util: src/components/JB_Util/Map.c (keys are texts), IntMap.c,
-- VoidpMap.c and BitVectorMap.c, four copies of one program that differ in the test on keys.
--
-- A chain of `…_Element` structs is the list of its keys and contents, and a pointer to an element
-- is the chain from that element on, `[]` for NULL. Pointers are numbers.
pub mod Laws
pub mod Keys
pub mod StringMap
pub mod IntMap
pub mod VoidpMap
pub mod BitVectorMap
pub mod Print
use junction_box.Base.{
  ℕ, ◌+◌, Bool, true, false, List, [], ◌∷◌, ◌++◌, map, ◌==◌, if◌then◌else◌, Outcome, ok, abort,
  fault, ◌>>=◌, ◌>>◌, write,
}
use junction_box.CString.{Text, text_eq, strcat_all}
use junction_box.CString.Join.{total}
use junction_box.BitVector.{BitVector, equals}

pub record Assoc (K V : Type 0) : Type 0 where
  pub first : List (K × V)
  pub size : ℕ

module _ {K V : Type 0} where
  -- `Map_Create` and its copies
  abbrev pub create : Assoc K V
  create = record { first = []; size = 0 }

  -- `…_GetFirst_Element`
  abbrev pub get_first_element : Assoc K V → List (K × V)
  get_first_element this = this.first

  -- `…_Element_GetNext_Element`
  abbrev pub get_next_element : List (K × V) → Outcome (List (K × V))
  get_next_element [] = fault
  get_next_element (me ∷ next) = ok next

  module _ (same : K → K → Outcome Bool) where
    -- The loop of `…_Get`.
    unfoldable pub find : List (K × V) → K → Outcome (List (K × V))
    find [] id = ok []
    find ((key, contents) ∷ next) id = do
      hit ← same key id
      if hit then ok ((key, contents) ∷ next) else find next id

    unfoldable pub get : Assoc K V → K → Outcome (List (K × V))
    unfolding find
    get this id = find this.first id

    -- `…_Add`: a key that is there keeps its contents.
    unfoldable pub add : Assoc K V → K → V → Outcome (Assoc K V)
    unfolding get
    add this id contents = do
      already ← get this id
      elim already [
        | [] ↦ ok (record { first = (id, contents) ∷ this.first; size = this.size + 1 })
        | _ ∷ _ ↦ ok this
      ]

  -- `…_ToString`: the block is used as `jballoc` returns it.
  unfoldable pub to_string : (ℕ → List ℕ) → (K × V → Text) → Assoc K V → Outcome (List ℕ)
  unfolding total
  to_string fresh printer this =
      let strings = map printer this.first in strcat_all (fresh (total strings + 1)) strings

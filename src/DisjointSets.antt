-- ===== src/DisjointSets.antt =====
-- src/components/JB_Util/DSetForest.c: disjoint sets as trees, with path compression and union by
-- rank.
--
-- The nodes live in a heap, a list of nodes in which the address of a node is its position. A
-- chain of parents can be cyclic in a heap that no operation makes, so `find_set` has fuel, and
-- faults without it.
pub mod Roots
pub mod Laws
pub mod Union
pub mod Added
use junction_box.Base.{
  ℕ, zero, suc, ◌+◌, List, [], ◌∷◌, ◌++◌, if◌then◌else◌, ◌==◌, ltb, length, Outcome, ok, fault,
  ◌>>=◌, read, write,
}
use junction_box.AssocMap.VoidpMap
use junction_box.AssocMap.VoidpMap.{VoidpMap}

pub record DSetNode : Type 0 where
  pub parent : ℕ
  pub rank : ℕ
  pub contents : ℕ

pub record DSetForest : Type 0 where
  pub lookup : VoidpMap ℕ
  pub nodes : List DSetNode

-- `DSetForest_Create`
abbrev pub create : DSetForest
create = record { lookup = VoidpMap.create; nodes = [] }

-- `DSetNode_Create`: the heap with a node that is its own parent.
abbrev pub node_create : List DSetNode → ℕ → List DSetNode
node_create nodes contents =
    nodes ++ record { parent = length nodes; rank = 0; contents = contents } ∷ []

unfoldable pub make_set : DSetForest → ℕ → Outcome (DSetForest × ℕ)
make_set this element = do
  already ← VoidpMap.get this.lookup element
  elim already [
    | [] ↦ (do
      lookup ← VoidpMap.add this.lookup element (length this.nodes)
      ok (record { lookup = lookup; nodes = node_create this.nodes element }, length this.nodes))
    | (key, set) ∷ _ ↦ ok (this, set)
  ]

-- `x->parent = parent`
abbrev pub set_parent : List DSetNode → ℕ → ℕ → Outcome (List DSetNode)
set_parent nodes x parent = read nodes x >>= λ n. write nodes x (record n { parent = parent })

-- `DSetForest_FindSet`: the nodes, and the parent that is returned.
pub find_set : ℕ → List DSetNode → ℕ → Outcome (List DSetNode × ℕ)
find_set zero nodes x = fault
find_set (suc fuel) nodes x = do
  n ← read nodes x
  let up = (find_set fuel nodes n.parent >>= λ (nodes', r). set_parent nodes' x r)
  nodes' ← (if x == n.parent then ok nodes else up)
  n' ← read nodes' x
  ok (nodes', n'.parent)

-- `DSetForest_GetRepresentative`, whose body is that of `FindSet` for the element's node. NULL is
-- dereferenced for an element that was not added.
unfoldable pub get_representative : ℕ → DSetForest → ℕ → Outcome (DSetForest × ℕ)
unfolding find_set
get_representative fuel this element = do
  me ← VoidpMap.get this.lookup element
  elim me [
    | [] ↦ fault
    | (key, x) ∷ _ ↦
        find_set fuel this.nodes x >>= λ (nodes, r). ok (record this { nodes = nodes }, r)
  ]

-- `DSetForest_Link`
unfoldable pub link : List DSetNode → ℕ → ℕ → Outcome (List DSetNode)
link nodes x y = do
  a ← read nodes x
  b ← read nodes y
  let under_y = (do
    nodes' ← set_parent nodes x y
    a' ← read nodes' x
    b' ← read nodes' y
    if a'.rank == b'.rank then write nodes' y (record b' { rank = b'.rank + 1 }) else ok nodes')
  if ltb b.rank a.rank then set_parent nodes y x else under_y

-- `DSetForest_Union`; the representative of the first element is looked for first.
unfoldable pub union : ℕ → DSetForest → ℕ → ℕ → Outcome DSetForest
unfolding get_representative link
union fuel this element1 element2 = do
  (this1, x) ← get_representative fuel this element1
  (this2, y) ← get_representative fuel this1 element2
  nodes ← link this2.nodes x y
  ok (record this2 { nodes = nodes })

-- ===== src/LinkedList.antt =====
-- src/components/JB_Util/LinkedList.c: singly linked lists with a pointer to the last node.
--
-- The nodes live in a heap, a list of nodes in which the address of a node is its position; a new
-- node comes at the end, and nothing is freed. NULL is `none`. A run along the `next` pointers has
-- fuel, as a chain of nodes can be cyclic, and faults without it.
pub mod Chain
pub mod Laws
pub mod Print
use junction_box.Base.{
  ℕ, zero, suc, ◌+◌, List, [], ◌∷◌, ◌++◌, if◌then◌else◌, ◌==◌, Option, none, some, length, Outcome,
  ok, fault, ◌>>=◌, read, write,
}
use junction_box.CString.{Text, strlen, strcat}

pub record ListNode (C : Type 0) : Type 0 where
  pub contents : C
  pub next : Option ℕ

-- `struct list`; the library's `List` is the type of finite lists.
pub record LinkedList : Type 0 where
  pub size : ℕ
  pub first : Option ℕ
  pub last : Option ℕ

abbrev pub Heap : Type 0 → Type 0
Heap C = List (ListNode C)

-- `List_Create`
abbrev pub create : LinkedList
create = record { size = 0; first = none; last = none }

module _ {C : Type 0} where
  -- `ListNode_Create`: the heap with the new node, and its address.
  abbrev pub node_create : Heap C → C → Heap C × ℕ
  node_create h c = (h ++ record { contents = c; next = none } ∷ [], length h)

  -- `p->next = next`
  abbrev pub link : Heap C → Option ℕ → Option ℕ → Outcome (Heap C)
  link h none next = fault
  link h (some a) next = read h a >>= λ n. write h a (record n { next = next })

  unfoldable pub append : Heap C → LinkedList → C → Outcome (Heap C × LinkedList)
  append h l c =
      let (h', new) = node_create h c in
      let grown =
        (link h' l.last (some new) >>= λ h''.
        ok (h'', record l { last = some new; size = l.size + 1 })) in
      if l.size == 0
      then ok (h', record { size = l.size + 1; first = some new; last = some new })
      else grown

  unfoldable pub prepend : Heap C → LinkedList → C → Outcome (Heap C × LinkedList)
  prepend h l c =
      let (h', new) = node_create h c in
      let grown =
        (link h' (some new) l.first >>= λ h''.
        ok (h'', record l { first = some new; size = l.size + 1 })) in
      if l.size == 0
      then ok (h', record { size = l.size + 1; first = some new; last = some new })
      else grown

module _ {C : Type 0} where
  -- `for (itr = first; itr != NULL; itr = itr->next) …`
  pub walk : {S : Type 0} → (S → C → Outcome S) → ℕ → Heap C → Option ℕ → S → Outcome S
  walk step fuel h none s = ok s
  walk step zero h (some a) s = fault
  walk step (suc fuel) h (some a) s = do
    n ← read h a
    s' ← step s n.contents
    walk step fuel h n.next s'

module _ {C : Type 0} where
  -- `List_ToString`: the texts are collected in a second list.
  unfoldable pub to_string : (ℕ → List ℕ) → (C → Text) → ℕ → Heap C → LinkedList → Outcome (List ℕ)
  to_string fresh printer fuel h this = do
    (texts, strings) ←
        walk (λ (texts, strings) c. append texts strings (printer c)) fuel h this.first ([], create)
    string_length ← walk (λ n t. ok (n + strlen t)) fuel texts strings.first 0
    ret ← write (fresh (string_length + 1)) 0 0
    walk strcat fuel texts strings.first ret

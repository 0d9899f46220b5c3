-- ===== src/LinkedList/Laws.antt =====
-- `List_Append` and `List_Prepend` refine the operations on finite lists.
use junction_box.Base.{
  ℕ, ◌+◌, ◌<◌, ◌≢◌, true, false, List, [], ◌∷◌, ◌++◌, ◌≡◌, refl, sym, arith, ◌==◌, none, some,
  length, length-append, length-set, set, get_elem?_in, All, Outcome, ok,
}
use junction_box.LinkedList.{ListNode, LinkedList, Heap, create, append, prepend}
use junction_box.LinkedList.Chain.{
  Distinct, last_of, IsList, get_elem?-append_new, get_elem?-set_same, Chain-grows, Chain-apart,
  Chain-linked, inside_grows, inside_set, new_apart,
}

pub create-IsList : {C : Type 0} (h : Heap C) → IsList h create []
create-IsList h = record { chain = refl; sized = refl; ends = refl; distinct = tt; inside = tt }

All-snoc :
    {A : Type 0} (P : A → Type 0) (xs : List A) (x : A) → All P xs → P x → All P (xs ++ x ∷ [])
All-snoc P [] x h p = (p, tt)
All-snoc P (y ∷ xs) x h p = (h.0, All-snoc P xs x h.1 p)

module _ {C : Type 0} where
  last_snoc : (nodes : List (ℕ × C)) (m : ℕ × C) → last_of (nodes ++ m ∷ []) ≡ some m.0
  last_snoc [] m = refl
  last_snoc (k ∷ []) m = refl
  last_snoc (k ∷ k' ∷ nodes) m = last_snoc (k' ∷ nodes) m

  Distinct-snoc :
      (nodes : List (ℕ × C)) (m : ℕ × C)
      → Distinct nodes
      → All (λ (k : ℕ × C). k.0 ≢ m.0) nodes
      → Distinct (nodes ++ m ∷ [])
  Distinct-snoc [] m d a = (tt, tt)
  Distinct-snoc (k ∷ nodes) m d a = (
    All-snoc (λ (i : ℕ × C). i.0 ≢ k.0) nodes m d.0 (λ e. a.0 (sym e)),
    Distinct-snoc nodes m d.1 a.1,
  )

  some_last : (m : ℕ × C) (nodes : List (ℕ × C)) → (a : ℕ) × (last_of (m ∷ nodes) ≡ some a)
  some_last m [] = (m.0, refl)
  some_last m (k ∷ nodes) = some_last k nodes

  last_inside :
      (P : ℕ → Type 0) (nodes : List (ℕ × C)) (a : ℕ)
      → All (λ (m : ℕ × C). P m.0) nodes
      → last_of nodes ≡ some a
      → P a
  last_inside P [] a i e = let no : ◌≡◌ {A = ℕ} 0 1 = cc in absurd (omega arith)
  last_inside P (m ∷ []) a i e = let h : m.0 ≡ a = cc in rw (← h) i.0
  last_inside P (m ∷ k ∷ nodes) a i e = last_inside P (k ∷ nodes) a i.1 e

-- Lists without a common node.
abbrev pub Apart : {C : Type 0} → List (ℕ × C) → List (ℕ × C) → Type 0
Apart {C = C} nodes others = All (λ (k : ℕ × C). All (λ (m : ℕ × C). m.0 ≢ k.0) others) nodes

-- What an operation that adds one node does: the list has the new nodes, and every list without a
-- common node keeps its own.
pub record IsGrown {C : Type 0} (h : Heap C) (nodes result : List (ℕ × C))
    (r : Outcome (Heap C × LinkedList)) : Type 0 where
  pub heap : Heap C
  pub list : LinkedList
  pub returns : r ≡ ok (heap, list)
  pub holds : IsList heap list result
  pub frame :
      (l : LinkedList) (others : List (ℕ × C))
      → IsList h l others
      → Apart nodes others
      → IsList heap l others

module _ {C : Type 0} (h : Heap C) (c : C) where
  grown_frame :
      (l : LinkedList) (others : List (ℕ × C))
      → IsList h l others
      → IsList (h ++ record { contents = c; next = none } ∷ []) l others
  grown_frame l others i = record {
    chain = Chain-grows h _ l.first others i.inside i.chain;
    sized = i.sized;
    ends = i.ends;
    distinct = i.distinct;
    inside = inside_grows h _ others i.inside;
  }

  written :
      (k : Heap C) (a : ℕ) (x : ListNode C) (l : LinkedList) (others : List (ℕ × C))
      → IsList k l others
      → All (λ (o : ℕ × C). o.0 ≢ a) others
      → IsList (set k a x) l others
  written k a x l others i apart = record {
    chain = Chain-apart k a x l.first others apart i.chain;
    sized = i.sized;
    ends = i.ends;
    distinct = i.distinct;
    inside = inside_set k a x others i.inside;
  }

  -- `List_Append` adds a node with the contents at the end of a list, and leaves every list without
  -- a common node as it was.
  pub append_lem :
      (l : LinkedList) (nodes : List (ℕ × C))
      → IsList h l nodes
      → IsGrown h nodes (nodes ++ (length h, c) ∷ []) (append h l c)
  unfolding append
  append_lem l [] i =
      let test : (l.size == 0) ≡ true = ground (arith, i.sized) in
      record {
        heap = h ++ record { contents = c; next = none } ∷ [];
        list = record { size = l.size + 1; first = some (length h); last = some (length h) };
        returns = rw test;
        holds = record {
          chain = (refl, (none, get_elem?-append_new h _, refl));
          sized = omega (arith, i.sized);
          ends = refl;
          distinct = (tt, tt);
          inside = (omega (arith, length-append h (record { contents = c; next = none } ∷ [])), tt);
        };
        frame = λ l' others j _. grown_frame l' others j;
      }
  append_lem l (m ∷ nodes) i =
      let (a, is_last) = some_last m nodes in
      let new : ListNode C = record { contents = c; next = none } in
      let h' : Heap C = h ++ new ∷ [] in
      let more = length-append h (new ∷ []) in
      let lt : a < length h = last_inside (λ k. k < length h) (m ∷ nodes) a i.inside is_last in
      let (n, at) = get_elem?_in h' a (omega arith) in
      let test : (l.size == 0) ≡ false = ground (arith, i.sized) in
      record {
        heap = set h' a (record n { next = some (length h) });
        list = record l { last = some (length h); size = l.size + 1 };
        returns = rw (test, i.ends, is_last, at);
        holds = record {
          chain =
              Chain-linked h' l.first (m ∷ nodes) a (length h) n c
                (Chain-grows h _ l.first (m ∷ nodes) i.inside i.chain) i.distinct is_last at
                (omega arith) (λ e. absurd (omega arith)) (get_elem?-append_new h new);
          sized = omega (arith, i.sized, length-append (m ∷ nodes) ((length h, c) ∷ []));
          ends = sym (last_snoc (m ∷ nodes) (length h, c));
          distinct =
              Distinct-snoc (m ∷ nodes) (length h, c) i.distinct (new_apart h (m ∷ nodes) i.inside);
          inside = inside_set h' a _ ((m ∷ nodes) ++ (length h, c) ∷ []) (
              All-snoc (λ (k : ℕ × C). k.0 < length h') (m ∷ nodes) (length h, c)
                (inside_grows h (new ∷ []) (m ∷ nodes) i.inside) (omega arith));
        };
        frame = λ l' others j apart.
            written h' a _ l' others (grown_frame l' others j)
              (last_inside (λ k. All (λ (o : ℕ × C). o.0 ≢ k) others) (m ∷ nodes) a apart is_last);
      }

  -- `List_Prepend` adds a node with the contents in front of a list, and leaves every list without
  -- a common node as it was.
  pub prepend_lem :
      (l : LinkedList) (nodes : List (ℕ × C))
      → IsList h l nodes
      → IsGrown h nodes ((length h, c) ∷ nodes) (prepend h l c)
  unfolding prepend
  prepend_lem l [] i =
      let test : (l.size == 0) ≡ true = ground (arith, i.sized) in
      record {
        heap = h ++ record { contents = c; next = none } ∷ [];
        list = record { size = l.size + 1; first = some (length h); last = some (length h) };
        returns = rw test;
        holds = record {
          chain = (refl, (none, get_elem?-append_new h _, refl));
          sized = omega (arith, i.sized);
          ends = refl;
          distinct = (tt, tt);
          inside = (omega (arith, length-append h (record { contents = c; next = none } ∷ [])), tt);
        };
        frame = λ l' others j _. grown_frame l' others j;
      }
  prepend_lem l (m ∷ nodes) i =
      let new : ListNode C = record { contents = c; next = none } in
      let h' : Heap C = h ++ new ∷ [] in
      let more = length-append h (new ∷ []) in
      let test : (l.size == 0) ≡ false = ground (arith, i.sized) in
      let old = grown_frame l (m ∷ nodes) i in
      let fresh = new_apart h (m ∷ nodes) i.inside in
      let kept =
        written h' (length h) (record { contents = c; next = l.first }) l (m ∷ nodes) old fresh in
      record {
        heap = set h' (length h) (record { contents = c; next = l.first });
        list = record l { first = some (length h); size = l.size + 1 };
        returns = rw (test, get_elem?-append_new h new);
        holds = record {
          chain = (refl, (l.first, get_elem?-set_same h' (length h) _ (omega arith), kept.chain));
          sized = omega (arith, i.sized);
          ends = i.ends;
          distinct = (fresh, i.distinct);
          inside = (
            omega (arith, length-set h' (length h) (record { contents = c; next = l.first })),
            kept.inside,
          );
        };
        frame = λ l' others j apart.
            written h' (length h) _ l' others (grown_frame l' others j)
              (new_apart h others j.inside);
      }

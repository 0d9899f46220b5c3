-- ===== src/LinkedList/Print.antt =====
-- Runs along a list, and `List_ToString`.
use mathlib.Core.List.{append-nil}
use junction_box.Base.{
  ℕ, zero, suc, ◌+◌, ◌≤◌, List, [], ◌∷◌, ◌++◌, map, ◌≡◌, refl, sym, ap, ◌∙◌, arith, Option, length,
  length-map, append_snoc, All, Outcome, ok, ◌>>=◌, bind_ext, write,
}
use junction_box.CString.{Text, strlen, strcat, strcat_all}
use junction_box.CString.Laws.{IsText}
use junction_box.CString.Join.{joined, total, join_lem}
use junction_box.LinkedList.{LinkedList, Heap, create, append, walk, to_string}
use junction_box.LinkedList.Chain.{Chain, contents_of, IsList}
use junction_box.LinkedList.Laws.{create-IsList, append_lem}

-- A run over a finite list with a body that can fail.
unfoldable pub run : {S C : Type 0} → (S → C → Outcome S) → List C → S → Outcome S
run step [] s = ok s
run step (c ∷ cs) s = step s c >>= run step cs

-- With fuel for its nodes, a run along the `next` pointers is a run over the contents.
pub walk-run :
    {S C : Type 0} (step : S → C → Outcome S) (h : Heap C) (nodes : List (ℕ × C)) (p : Option ℕ)
    (fuel : ℕ) (s : S)
    → Chain h p nodes
    → length nodes ≤ fuel
    → walk step fuel h p s ≡ run step (contents_of nodes) s
unfolding walk run
walk-run step h [] p fuel s e f = rw e
walk-run step h ((a, c) ∷ nodes) p zero s (e, (n, at, ch)) f = absurd (omega arith)
walk-run step h ((a, c) ∷ nodes) p (suc fuel) s (e, (n, at, ch)) f =
    rw (e, at) (bind_ext (step s c) _ _ (λ s'. walk-run step h nodes n fuel s' ch (omega arith)))

map_snoc :
    {C D : Type 0} (f : C → D) (xs : List C) (x : C) → map f (xs ++ x ∷ []) ≡ map f xs ++ f x ∷ []
map_snoc f [] x = refl
map_snoc {D = D} f (y ∷ xs) x = ap (λ (l : List D). f y ∷ l) (map_snoc f xs x)

module _ {C : Type 0} (printer : C → Text) where
  collected :
      (cs : List C) (texts : Heap Text) (strings : LinkedList) (nodes : List (ℕ × Text))
      → IsList texts strings nodes
      → (texts' : Heap Text) × (strings' : LinkedList) × (nodes' : List (ℕ × Text)) × (run
            (λ (t, s) c. append t s (printer c))
            cs
            (texts, strings)
          ≡ ok (texts', strings'))
        × IsList texts' strings' nodes'
        × (contents_of nodes' ≡ contents_of nodes ++ map printer cs)
  unfolding run
  collected [] texts strings nodes i = (texts, strings, nodes, refl, i, sym (append-nil _))
  collected (c ∷ cs) texts strings nodes i =
      let g = append_lem texts (printer c) strings nodes i in
      let (texts', strings', nodes', runs, is, holds) =
        collected cs g.heap g.list (nodes ++ (length texts, printer c) ∷ []) g.holds in
      (
        texts',
        strings',
        nodes',
        rw g.returns runs,
        is,
        holds
            ∙ ap (λ (l : List Text). l ++ map printer cs)
                (map_snoc (λ (m : ℕ × Text). m.1) nodes (length texts, printer c))
            ∙ append_snoc (contents_of nodes) (printer c) (map printer cs),
      )

lengths : (ts : List Text) (n : ℕ) → run (λ n t. ok (n + strlen t)) ts n ≡ ok (n + total ts)
unfolding run total
lengths [] n = ap (λ (m : ℕ). ok m) (omega arith)
lengths (t ∷ ts) n = lengths ts (n + strlen t) ∙ ap (λ (m : ℕ). ok m) (omega arith)

cats : (ts : List Text) (buf : List ℕ) → run strcat ts buf ≡ strcat_all buf ts
unfolding run strcat_all
cats [] buf = refl
cats (t ∷ ts) buf = bind_ext (strcat buf t) _ _ (cats ts)

-- For a list in the heap and fuel for its nodes, `List_ToString` returns the printed contents one
-- after the other; it ends its runs and writes within the block that it allocates.
pub list_to_string_lem :
    {C : Type 0} (fresh : ℕ → List ℕ) (printer : C → Text) (fuel : ℕ) (h : Heap C)
    (this : LinkedList) (nodes : List (ℕ × C))
    → ((n : ℕ) → length (fresh n) ≡ n)
    → IsList h this nodes
    → length nodes ≤ fuel
    → All IsText (map printer (contents_of nodes))
    → to_string fresh printer fuel h this ≡ ok (joined (map printer (contents_of nodes)) ++ 0 ∷ [])
unfolding to_string
list_to_string_lem {C = C} fresh printer fuel h this nodes fits i f texts_ok =
    let (texts, strings, copies, runs, is, holds) =
      collected printer (contents_of nodes) [] create [] (create-IsList []) in
    let all : List Text = map printer (contents_of nodes) in
    let many : length copies ≤ fuel = omega (
      arith,
      length-map copies (λ (m : ℕ × Text). m.1),
      ap (λ (l : List Text). length l) holds,
      length-map (contents_of nodes) printer,
      length-map nodes (λ (m : ℕ × C). m.1),
    ) in
    let walks = walk-run _ h nodes this.first fuel ([], create) i.chain f ∙ runs in
    let counts =
      walk-run (λ n t. ok (n + strlen t)) texts copies strings.first fuel 0 is.chain many
      ∙ ap (λ (l : List Text). run (λ n t. ok (n + strlen t)) l 0) holds
      ∙ lengths all 0 in
    let size : ℕ = 0 + total all + 1 in
    rw (walks, counts)
      (bind_ext (write (fresh size) 0 0) _ _ (λ ret.
          walk-run strcat texts copies strings.first fuel ret is.chain many
          ∙ ap (λ (l : List Text). run strcat l ret) holds
          ∙ cats all ret)
        ∙ join_lem all (fresh size) texts_ok (fits size ∙ omega arith))

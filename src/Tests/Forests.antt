-- ===== src/Tests/Forests.antt =====
-- Runs of the theorems on disjoint sets.
use junction_box.Base.{
  ℕ, ◌⊎◌, List, [], ◌∷◌, ◌≡◌, refl, sym, ◌∙◌, ◌≤◌, arith, ok, inl, inr, Bool-cases, ◌==◌, some,
}
use junction_box.AssocMap.Laws.{lookup}
use junction_box.AssocMap.Keys.{number_keys}
use junction_box.DisjointSets.{DSetNode, DSetForest, make_set, union}
use junction_box.DisjointSets.Roots.{Root, top, up}
use junction_box.DisjointSets.Laws.{merged, Merges}
use junction_box.DisjointSets.Union.{HasNode, InSet, IsForest, union_lem}
use junction_box.DisjointSets.Added.{IsMade, make_set_lem}

-- A chain 2, 1, 0 and a node on its own.
abbrev four_nodes : List DSetNode
four_nodes =
    record { parent = 0; rank = 2; contents = 10 }
    ∷ record { parent = 0; rank = 1; contents = 11 }
    ∷ record { parent = 1; rank = 0; contents = 12 }
    ∷ record { parent = 3; rank = 0; contents = 13 }
    ∷ []

first-Root : Root four_nodes 0 0 0
first-Root = top 0 (record { parent = 0; rank = 2; contents = 10 }) refl refl

-- The elements at the ends of the chain, and the one on its own.
abbrev three_elements : DSetForest
three_elements = record {
  lookup = record { first = (12, 2) ∷ (10, 0) ∷ (13, 3) ∷ []; size = 3 };
  nodes = four_nodes;
}

last-Root : Root four_nodes 2 2 0
last-Root =
    up 1 2 0 (record { parent = 1; rank = 0; contents = 12 }) refl (λ e. omega arith)
      (up 0 1 0 (record { parent = 0; rank = 1; contents = 11 }) refl (λ e. omega arith) first-Root)

alone-Root : Root four_nodes 0 3 3
alone-Root = top 3 (record { parent = 3; rank = 0; contents = 13 }) refl refl

first_or_rest :
    (c v element x : ℕ) (rest : List (ℕ × ℕ))
    → lookup number_keys element ((c, v) ∷ rest) ≡ some x
    → (v ≡ x) ⊎ (lookup number_keys element rest ≡ some x)
unfolding lookup
first_or_rest c v element x rest e = elim (Bool-cases (c == element)) [
  | inl hit ↦ let same : some v ≡ some x = sym (rw hit) ∙ e in inl cc
  | inr miss ↦ inr (sym (rw miss) ∙ e)
]

-- Every element that the lookup finds is one of the three.
three_elements-rooted :
    (element x : ℕ)
    → HasNode three_elements element x
    → (d : ℕ) × (r : ℕ) × (d ≤ 2) × Root four_nodes d x r
unfolding lookup
three_elements-rooted element x has =
    elim (first_or_rest 12 2 element x ((10, 0) ∷ (13, 3) ∷ []) has) [
      | inl is ↦ (2, 0, omega arith, rw (← is) last-Root)
      | inr e ↦ elim (first_or_rest 10 0 element x ((13, 3) ∷ []) e) [
        | inl is ↦ (0, 0, omega arith, rw (← is) first-Root)
        | inr f ↦ elim (first_or_rest 13 3 element x [] f) [
          | inl is ↦ (0, 3, omega arith, rw (← is) alone-Root)
          | inr g ↦ cc
        ]
      ]
    ]

three_elements-IsForest : IsForest 2 three_elements
unfolding lookup
three_elements-IsForest = record {
  elements = record { sized = refl; distinct = (tt, refl, (tt, refl, (tt, refl, tt))) };
  rooted = three_elements-rooted;
}

union_lem_example :
    (this' : DSetForest) × (r : ℕ) × (s : ℕ) × (w : ℕ) × (union 3 three_elements 12 13 ≡ ok this')
    × IsForest 3 this'
    × InSet three_elements 12 r
    × InSet three_elements 13 s
    × ((w ≡ r) ⊎ (w ≡ s))
    × ((element q : ℕ) → InSet three_elements element q → InSet this' element (merged r s w q))
    × (this'.lookup ≡ three_elements.lookup)
    × Merges four_nodes this'.nodes r s w
unfolding lookup
union_lem_example =
    union_lem 2 3 three_elements 12 13 2 3 three_elements-IsForest refl refl (omega arith)

make_set_lem_example :
    (this' : DSetForest) × (x : ℕ) × (make_set three_elements 14 ≡ ok (this', x))
    × IsMade 2 three_elements 14 this' x
make_set_lem_example = make_set_lem 2 three_elements 14 three_elements-IsForest

-- ===== src/Graph/Edges.antt =====
-- What `Graph_AddEdge` does.
use junction_box.Base.{
  ℕ, zero, suc, ◌<◌, ◌≢◌, ◌⊎◌, Bool, true, false, List, [], ◌∷◌, ◌≡◌, refl, sym, ap, ◌∙◌, arith,
  inl, inr, Bool-cases, if◌then◌else◌, ◌==◌, Option, none, some, length, set, get_elem?, ok,
}
use junction_box.CString.{Text, text_eq}
use junction_box.LinkedList.Chain.{get_elem?-set_ne, get_elem?-set_same}
use junction_box.AssocMap.StringMap.{StringMap}
use junction_box.AssocMap.Laws.{IsMap, or_else, lookup_same}
use junction_box.AssocMap.Keys.{text_keys}
use junction_box.Graph.{Graph, Vertex, Edge, key, get_edge}
use junction_box.Graph.Valid.{find, map_get_lem, restrict, Agree, Joins, IsGraph}
use junction_box.Graph.Grown.{get_elem?-lt}

-- An edge more in a map of a vertex and in the map of the graph.
module _ (p p' : ℕ → Bool) (edges m : StringMap ℕ) (k : Text) (e : ℕ)
    (absent_key : find k edges ≡ none)
    (found : (j : Text) → find j m ≡ (if text_eq k j then some e else find j edges))
    (old : (j : Text) (c : ℕ) → find j edges ≡ some c → p' c ≡ p c) where
  restrict_old : (j : Text) (o : Option ℕ) → find j edges ≡ o → restrict p o ≡ restrict p' o
  restrict_old j none f = refl
  restrict_old j (some c) f = rw (old j c f)

  pub Agree-apart : (here : StringMap ℕ) → p' e ≡ false → Agree p edges here → Agree p' m here
  Agree-apart here fails (map, same) = (
    map,
    λ j. same j ∙ restrict_old j (find j edges) refl ∙ elim (Bool-cases (text_eq k j)) [
      | inl hit ↦
          let nothing : find j edges ≡ none =
            sym (lookup_same text_keys edges.first k j hit) ∙ absent_key in
          let new : find j m ≡ some e = found j ∙ rw hit in rw (nothing, new, fails)
      | inr miss ↦ ap (restrict p') (sym (found j ∙ rw miss))
    ],
  )

  pub Agree-added :
      (here grown : StringMap ℕ)
      → p' e ≡ true
      → Agree p edges here
      → IsMap text_keys grown
      → ((j : Text)
          → find j grown ≡ (if text_eq k j then some (or_else (find k here) e) else find j here))
      → Agree p' m grown
  Agree-added here grown holds (map, same) valid adds = (
    valid,
    λ j. elim (Bool-cases (text_eq k j)) [
      | inl hit ↦
          let nothing : find k here ≡ none = same k ∙ ap (restrict p) absent_key in
          let new : find j m ≡ some e = found j ∙ rw hit in adds j ∙ rw (hit, nothing, new, holds)
      | inr miss ↦
          adds j
          ∙ rw miss (
              same j
              ∙ restrict_old j (find j edges) refl
              ∙ ap (restrict p') (sym (found j ∙ rw miss)))
    ],
  )

pub set_cases :
    {C : Type 0} (h : List C) (a b : ℕ) (x y : C)
    → a < length h
    → get_elem? (set h a x) b ≡ some y
    → ((b ≡ a) × (y ≡ x)) ⊎ ((b ≢ a) × (get_elem? h b ≡ some y))
set_cases [] a b x y lt e = absurd (omega arith)
set_cases (z ∷ h) zero zero x y lt e = inl (refl, cc)
set_cases (z ∷ h) zero (suc b) x y lt e = inr (λ q. omega arith, e)
set_cases (z ∷ h) (suc a) zero x y lt e = inr (λ q. omega arith, e)
set_cases (z ∷ h) (suc a) (suc b) x y lt e = elim (set_cases h a b x y (omega arith) e) [
  | inl (p, q) ↦ inl (ap suc p, q)
  | inr (ne, q) ↦ inr (λ p. ne (omega arith), q)
]

-- Two stores have the same vertices, but for their edges.
pub record SameLabels {A : Type 0} (store store' : List (Vertex A)) : Type 0 where
  pub forth :
      (v : ℕ) (x : Vertex A)
      → get_elem? store v ≡ some x
      → (x' : Vertex A) × (get_elem? store' v ≡ some x')
        × (x'.label ≡ x.label)
        × (x'.annotation ≡ x.annotation)
  pub back :
      (v : ℕ) (x' : Vertex A)
      → get_elem? store' v ≡ some x'
      → (x : Vertex A) × (get_elem? store v ≡ some x) × (x'.label ≡ x.label)

module _ {A : Type 0} where
  pub SameLabels-self : (store : List (Vertex A)) → SameLabels store store
  SameLabels-self store = record {
    forth = λ v x e. (x, e, refl, refl);
    back = λ v x e. (x, e, refl);
  }

  pub SameLabels-trans :
      (s t u : List (Vertex A)) → SameLabels s t → SameLabels t u → SameLabels s u
  SameLabels-trans s t u h k = record {
    forth = λ v x e.
        let (y, at, l, n) = h.forth v x e in
        let (z, at', l', n') = k.forth v y at in (z, at', l' ∙ l, n' ∙ n);
    back = λ v z e.
        let (y, at, l) = k.back v z e in let (x, at', l') = h.back v y at in (x, at', l ∙ l');
  }

  pub SameLabels-set :
      (store : List (Vertex A)) (a : ℕ) (x x' : Vertex A)
      → get_elem? store a ≡ some x
      → x'.label ≡ x.label
      → x'.annotation ≡ x.annotation
      → SameLabels store (set store a x')
  SameLabels-set store a x x' at l n =
      let lt = get_elem?-lt store a x at in
      record {
        forth = λ v y e. elim (Bool-cases (v == a)) [
          | inl here ↦
              let is : v ≡ a = ground arith in
              let same : y ≡ x = cc in
              (
                x',
                ap (λ (i : ℕ). get_elem? (set store a x') i) is ∙ get_elem?-set_same store a x' lt,
                l ∙ ap (λ (z : Vertex A). z.label) (sym same),
                n ∙ ap (λ (z : Vertex A). z.annotation) (sym same),
              )
          | inr apart ↦
              let ne : v ≢ a = λ q. ground arith in
              (y, get_elem?-set_ne store v a x' ne ∙ e, refl, refl)
        ];
        back = λ v y e. elim (set_cases store a v x' y lt e) [
          | inl (is, same) ↦ (
            x,
            ap (λ (i : ℕ). get_elem? store i) is ∙ at,
            ap (λ (z : Vertex A). z.label) same ∙ l,
          )
          | inr (ne, there) ↦ (y, there, refl)
        ];
      }

module _ {A B : Type 0} where
  pub Joins-same : (s t : List (Vertex A)) (d : Edge B) → SameLabels s t → Joins s d → Joins t d
  Joins-same s t d h j =
      let (x, at, l, n) = h.forth d.src j.tail j.tail_at in
      let (y, at', l', n') = h.forth d.sink j.head j.head_at in
      record { tail = x; head = y; tail_at = at; head_at = at'; labelled = j.labelled ∙ rw (l, l') }

  pub get_edge_lem :
      (g : Graph A B) (src sink : ℕ) (x y : Vertex A)
      → IsGraph g
      → get_elem? g.vertex_store src ≡ some x
      → get_elem? g.vertex_store sink ≡ some y
      → get_edge g src sink ≡ ok (find (key x.label y.label) g.edges)
  unfolding get_edge
  get_edge_lem g src sink x y h at at' =
      rw (at, at') (map_get_lem g.edges (key x.label y.label) h.edge_map)

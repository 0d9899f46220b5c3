-- ===== src/Inference/Marks.antt =====
-- A `VertexSet` is a set of vertices of its ordering.
use junction_box.Base.{
  ℕ, suc, ◌+◌, ◌-◌, ◌≤◌, ◌<◌, ◌&&◌, Bool, true, false, Bool-cases, inl, inr, List, [], ◌∷◌, ◌++◌,
  ◌≡◌, refl, sym, ap, ◌∙◌, arith, ◌==◌, if◌then◌else◌, Option, none, some, length, length_snoc,
  append_snoc, get_elem?, get_elem?-append_mid, ok,
}
use junction_box.BitVector.{BitVector}
use junction_box.BitVector.Valid.{IsValid, bit}
use junction_box.BitVector.Access.{get_bit_lem, set_bit_on_lem}
use junction_box.Graph.Valid.{is_some}
use junction_box.JunctionTree.{rank_loop, get_vertex_rank}
use junction_box.Inference.VertexSets
use junction_box.Inference.VertexSets.{VertexSet, contains_vertex}

-- The first place of a vertex, counted from `i`.
unfoldable pub place : ℕ → ℕ → List ℕ → Option ℕ
place v i [] = none
place v i (w ∷ ws) = if w == v then some i else place v (i + 1) ws

rank_place :
    (v : ℕ) (ws done : List ℕ) (i : ℕ)
    → length done ≡ i
    → rank_loop (λ w. ok (w == v)) (length ws) i (done ++ ws) ≡ ok (place v i ws)
unfolding rank_loop place
rank_place v [] done i e = refl
rank_place v (w ∷ ws) done i e =
    rw
      (
        get_elem?-append_mid done w ws i e,
        ← append_snoc done w ws,
        rank_place v ws (done ++ w ∷ []) (i + 1) (length_snoc done w i e),
      )
      (ground arith)

place_at :
    (v : ℕ) (ws : List ℕ) (i r : ℕ)
    → place v i ws ≡ some r
    → (i ≤ r) × (r < i + length ws) × (get_elem? ws (r - i) ≡ some v)
unfolding place
place_at v [] i r e = cc
place_at v (w ∷ ws) i r e = elim (Bool-cases (w == v)) [
  | inl hit ↦
      let same : some i ≡ some r = sym (rw hit) ∙ e in
      let is : i ≡ r = cc in
      let here : r - i ≡ 0 = omega arith in
      let equal : w ≡ v = ground arith in
      (omega arith, omega arith, rw here (ap (λ (u : ℕ). some u) equal))
  | inr miss ↦
      let (low, high, at) = place_at v ws (i + 1) r (sym (rw miss) ∙ e) in
      let off : r - i ≡ suc (r - (i + 1)) = omega arith in (omega arith, omega arith, rw off at)
]

-- A set of vertices: one bit for each vertex of the ordering.
pub record IsVertexSet (s : VertexSet) : Type 0 where
  pub vector : IsValid s.bv
  pub width : s.bv.size ≡ s.o.size
  pub ordering : s.o.size ≡ length s.o.vertices

rank_of :
    (s : VertexSet) (v : ℕ) → IsVertexSet s → get_vertex_rank s.o v ≡ ok (place v 0 s.o.vertices)
unfolding get_vertex_rank
rank_of s v h =
    ap (λ (n : ℕ). rank_loop (λ w. ok (w == v)) n 0 s.o.vertices) h.ordering
    ∙ rank_place v s.o.vertices [] 0 refl

abbrev pub on : BitVector → Option ℕ → Bool
on bv none = false
on bv (some i) = bit bv i

-- Whether a set has a vertex, and whether its ordering has it.
abbrev pub holds : VertexSet → ℕ → Bool
holds s w = on s.bv (place w 0 s.o.vertices)

abbrev pub ordered : VertexSet → ℕ → Bool
ordered s v = is_some (place v 0 s.o.vertices)

contains_at :
    (s : VertexSet) (w : ℕ) (p : Option ℕ)
    → IsVertexSet s
    → place w 0 s.o.vertices ≡ p
    → contains_vertex s w ≡ ok (on s.bv p)
unfolding contains_vertex
contains_at s w none h e = rw (rank_of s w h, e)
contains_at s w (some i) h e =
    let (_, lt, _) = place_at w s.o.vertices 0 i e in
    let (c, gets, means) = get_bit_lem s.bv i h.vector (omega (arith, lt, h.width, h.ordering)) in
    rw (rank_of s w h, e, gets, means)

-- Equal places are those of equal vertices.
same_place :
    (v w : ℕ) (ws : List ℕ) (i : ℕ) (p : Option ℕ)
    → place v 0 ws ≡ some i
    → place w 0 ws ≡ p
    → (b : BitVector) (c : BitVector) → ((j : ℕ) → bit c j ≡ (if i == j then true else bit b j))
    → on c p ≡ (if w == v then true else on b p)
same_place v w ws i none e f b c bits = elim (Bool-cases (w == v)) [
  | inl t ↦ let is : w ≡ v = ground arith in let again = ap (λ (u : ℕ). place u 0 ws) is in cc
  | inr u ↦ rw u
]
same_place v w ws i (some j) e f b c bits =
    let (_, _, at) = place_at v ws 0 i e in
    let (_, _, at') = place_at w ws 0 j f in
    bits j ∙ elim (Bool-cases (w == v)) [
      | inl t ↦
          let is : w ≡ v = ground arith in
          let equal : some i ≡ some j = sym e ∙ ap (λ (u : ℕ). place u 0 ws) (sym is) ∙ f in
          let same : i ≡ j = cc in let hit : (i == j) ≡ true = ground arith in rw (hit, t)
      | inr u ↦
          let miss : (i == j) ≡ false = elim (Bool-cases (i == j)) [
            | inl t ↦
                let same : i ≡ j = ground arith in
                let equal : some v ≡ some w =
                  sym at ∙ ap (λ (k : ℕ). get_elem? ws (k - 0)) same ∙ at' in
                let is : v ≡ w = cc in absurd (ground arith)
            | inr m ↦ m
          ] in
          rw (miss, u)
    ]

add_at :
    (s : VertexSet) (v : ℕ) (p : Option ℕ)
    → IsVertexSet s
    → place v 0 s.o.vertices ≡ p
    → (s' : VertexSet) × (VertexSets.add s v ≡ ok s')
      × IsVertexSet s'
      × (s'.o ≡ s.o)
      × ((w : ℕ) → holds s' w ≡ (if w == v && is_some p then true else holds s w))
unfolding VertexSets.add
add_at s v none h e = (s, rw (rank_of s v h, e), h, refl, λ w. ground arith)
add_at s v (some i) h e =
    let (_, lt, _) = place_at v s.o.vertices 0 i e in
    let (bv, sets, valid, size, bits) =
      set_bit_on_lem s.bv i h.vector (omega (arith, lt, h.width, h.ordering)) in
    (
      record s { bv = bv },
      rw (rank_of s v h, e, sets),
      record { vector = valid; width = size ∙ h.width; ordering = h.ordering },
      refl,
      λ w.
          same_place v w s.o.vertices i (place w 0 s.o.vertices) e refl s.bv bv bits
          ∙ elim (Bool-cases (w == v)) [ inl t ↦ rw t | inr u ↦ rw u ],
    )

-- `VertexSet_Add` and `VertexSet_ContainsVertex` are those of a set: a vertex of the ordering that
-- is added is found from then on, any other vertex is found exactly when it was found before, and a
-- vertex that the ordering does not have is never found.
pub add-contains_vertex :
    (s : VertexSet) (v : ℕ)
    → IsVertexSet s
    → (s' : VertexSet) × (VertexSets.add s v ≡ ok s')
      × IsVertexSet s'
      × (s'.o ≡ s.o)
      × ((w : ℕ)
          → (contains_vertex s w ≡ ok (holds s w))
            × (contains_vertex s' w ≡ ok (if w == v && ordered s v then true else holds s w)))
add-contains_vertex s v h =
    let (s', adds, k, o, has) = add_at s v (place v 0 s.o.vertices) h refl in
    (
      s',
      adds,
      k,
      o,
      λ w. (
        contains_at s w (place w 0 s.o.vertices) h refl,
        contains_at s' w (place w 0 s'.o.vertices) k refl ∙ ap (λ (b : Bool). ok b) (has w),
      ),
    )

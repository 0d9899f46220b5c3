-- ===== src/Tests/Messages.antt =====
-- Runs of the theorems on messages.
use junction_box.Base.{
  ◌==◌, ◌&&◌, if◌then◌else◌, true, Option, ℕ, zero, suc, ◌+◌, ◌*◌, true, false, List, [], ◌∷◌, map,
  ◌≡◌, refl, arith, get_or, some, ok, ◌>>=◌,
}
use junction_box.Base.Digits.{test_bit}
use junction_box.Base.Ranges.{all_from}
use junction_box.Radix.{product}
use junction_box.BitVector.Valid.{bit}
use junction_box.AssocMap.BitVectorMap
use junction_box.AssocMap.BitVectorMap.{BitVectorMap}
use junction_box.AssocMap.StringMap
use junction_box.AssocMap.StringMap.{StringMap}
use junction_box.VariableSet.{VariableSet}
use junction_box.VariableSet.Members.{members}
use junction_box.MulInds.{MulInd}
use junction_box.MulInds.Table.{IsSplit}
use junction_box.MulInds.Assignments.{InRange, index_of, full_table}
use junction_box.MulInds.Difference.{Contained}
use junction_box.Potentials.{Pot, ratio}
use junction_box.Potentials.Sizes.{IsPot}
use junction_box.Potentials.Margin.{gather}
use junction_box.Graph.{Vertex, Edge}
use junction_box.Inference.{Clique, Separator, ElimTree, plain_mode, message_pass}
use junction_box.Inference.Beside.{IsBeside}
use junction_box.Inference.Message.{passed, message_pass_lem}
use junction_box.Inference.Initialize.{first_clique}
use junction_box.Inference.FirstClique.{absorbed, first_clique_lem}
use junction_box.Inference.VertexSets
use junction_box.Inference.VertexSets.{VertexSet, contains_vertex}
use junction_box.Inference.Marks.{IsVertexSet, holds, ordered, add-contains_vertex}
use junction_box.Inference.Evidence.{distribute}
use junction_box.Inference.Distribute.{pass_over, distribute_lem}
use junction_box.Tests.Data.{dirty_block, length-dirty_block, garden, set_of, set_of-IsVariableSet}
use junction_box.Tests.Tables.{naturals}
use junction_box.Tests.Products.{weights, weights-IsPot}

-- The old potential of the rain between the two cliques.
abbrev rain_pot : Pot ℕ
rain_pot = record { label = []; vbls = set_of 1; tab_data = 1 ∷ 1 ∷ []; table_size = 2 }

rain_pot-IsPot : IsPot rain_pot
rain_pot-IsPot = record {
  set = set_of-IsVariableSet 1 (omega arith);
  sized = unfold members bit test_bit product in refl;
  filled = refl;
}

-- The potential of the rain and the sprinkler.
abbrev caller_pot : Pot ℕ
caller_pot = record {
  label = [];
  vbls = set_of 3;
  tab_data = 1 ∷ 2 ∷ 3 ∷ 4 ∷ 5 ∷ 6 ∷ [];
  table_size = 6;
}

caller_pot-IsPot : IsPot caller_pot
caller_pot-IsPot = record {
  set = set_of-IsVariableSet 3 (omega arith);
  sized = unfold members bit test_bit product in refl;
  filled = refl;
}

inside_caller : Contained (set_of 1) (set_of 3)
unfolding bit test_bit
inside_caller zero h e = refl
inside_caller (suc zero) h e = refl
inside_caller (suc (suc zero)) h e = e
inside_caller (suc (suc (suc k))) h e = absurd (omega arith)

inside_weights : Contained (set_of 1) (set_of 5)
unfolding bit test_bit
inside_weights zero h e = refl
inside_weights (suc zero) h e = e
inside_weights (suc (suc zero)) h e = refl
inside_weights (suc (suc (suc k))) h e = absurd (omega arith)

IsBeside-caller : IsBeside (set_of 1) (set_of 3)
IsBeside-caller = record {
  one_ordering = refl;
  within = inside_caller;
  strictly = unfold members bit test_bit in omega arith;
}

IsBeside-weights : IsBeside (set_of 1) (set_of 5)
IsBeside-weights = record {
  one_ordering = refl;
  within = inside_weights;
  strictly = unfold members bit test_bit in omega arith;
}

-- The tree of the two cliques.
abbrev clique_of : Pot ℕ → Clique ℕ
clique_of p = record { elim_set = some p.vbls; pot = some p; marg_memo = BitVectorMap.create }

abbrev link : StringMap ℕ
link = record { first = (b'c' ∷ 32 ∷ b'w' ∷ [], 0) ∷ []; size = 1 }

abbrev fst_clique : Vertex (Clique ℕ)
fst_clique = record {
  label = b'c' ∷ [];
  outedges = link;
  inedges = StringMap.create;
  annotation = clique_of caller_pot;
}

abbrev second_clique : Vertex (Clique ℕ)
second_clique = record {
  label = b'w' ∷ [];
  outedges = StringMap.create;
  inedges = link;
  annotation = clique_of weights;
}

abbrev rain_separator : Edge (Separator ℕ)
rain_separator = record {
  src_sink = b'c' ∷ 32 ∷ b'w' ∷ [];
  src = 0;
  sink = 1;
  annotation = record {
    elim_set = some (set_of 1);
    pot = some rain_pot;
    mul_memo = BitVectorMap.create;
  };
}

abbrev two_cliques : ElimTree ℕ
two_cliques = record {
  graph_dirty = true;
  directed = false;
  name = [];
  vertices = record { first = (b'w' ∷ [], 1) ∷ (b'c' ∷ [], 0) ∷ []; size = 2 };
  edges = link;
  vertex_store = fst_clique ∷ second_clique ∷ [];
  edge_store = rain_separator ∷ [];
}

message_pass_lem_example :
    (receiver' : Pot ℕ) × (marg : Pot ℕ) × (memo : BitVectorMap MulInd) × (message_pass
        (plain_mode naturals)
        dirty_block
        dirty_block
        two_cliques
        1
        0
        0
      ≡ ok (passed two_cliques 1 second_clique receiver' 0 rain_separator marg memo))
    × IsPot receiver'
    × IsPot marg
    × (receiver'.vbls ≡ set_of 5)
    × (marg.vbls ≡ set_of 1)
    × ((rest : VariableSet) × IsSplit (set_of 1) rest (set_of 3)
        × (marg.tab_data
            ≡ map
                (λ row. gather 0 (λ a b. a + b) caller_pot.tab_data row 0)
                (full_table (set_of 1) rest (set_of 3))))
    × ((a : List ℕ) (d : ℕ)
        → InRange garden a
        → get_or receiver'.tab_data (index_of (set_of 5) a) d
          ≡ ratio naturals
              (get_or marg.tab_data (index_of (set_of 1) a) d)
              (get_or rain_pot.tab_data (index_of (set_of 1) a) d)
            * get_or weights.tab_data (index_of (set_of 5) a) d)
message_pass_lem_example =
    message_pass_lem naturals dirty_block dirty_block two_cliques 1 0 0 second_clique fst_clique
      rain_separator rain_pot caller_pot weights length-dirty_block length-dirty_block refl refl
      refl refl refl refl refl ((omega arith, tt), ((omega arith, tt), ((omega arith, tt), tt)))
      rain_pot-IsPot caller_pot-IsPot weights-IsPot IsBeside-caller IsBeside-weights
      (unfold members bit test_bit in omega arith) (unfold all_from bit test_bit in refl)

abbrev no_marks : VertexSet
no_marks = record {
  bv = record { bits = 0 ∷ []; size = 2; num_bytes = 1 };
  o = record { size = 2; vertices = 0 ∷ 1 ∷ [] };
}

distribute_lem_example :
    distribute (plain_mode naturals) dirty_block dirty_block 3 (two_cliques, no_marks) 0 ≡ (
      VertexSets.add no_marks 0 >>= λ marks.
      pass_over (plain_mode naturals) dirty_block dirty_block 0 marks ((false, 0) ∷ []) two_cliques
      >>= λ tree. ok (tree, marks))
distribute_lem_example =
    distribute_lem (plain_mode naturals) dirty_block dirty_block 2 two_cliques no_marks 0 fst_clique
      refl (omega arith)

-- A table for the grass alone, which the first clique lacks.
abbrev grass_pot : Pot ℕ
grass_pot = record { label = []; vbls = set_of 4; tab_data = 0 ∷ 1 ∷ []; table_size = 2 }

grass_pot-IsPot : IsPot grass_pot
grass_pot-IsPot = record {
  set = set_of-IsVariableSet 4 (omega arith);
  sized = unfold members bit test_bit product in refl;
  filled = refl;
}

inside_second : Contained (set_of 4) (set_of 5)
unfolding bit test_bit
inside_second zero h e = refl
inside_second (suc zero) h e = e
inside_second (suc (suc zero)) h e = refl
inside_second (suc (suc (suc k))) h e = absurd (omega arith)

outside_first : ¬ Contained (set_of 4) (set_of 3)
unfolding bit test_bit
outside_first sub = let on : false ≡ true = sub 2 (omega arith) refl in cc

first_clique_lem_example :
    (q : Pot ℕ) × (memo : BitVectorMap (Option MulInd)) × (first_clique
        (plain_mode naturals)
        dirty_block
        grass_pot
        (0 ∷ 1 ∷ [])
        2
        0
        two_cliques
      ≡ ok (absorbed two_cliques 1 second_clique q memo))
    × IsPot q
    × (q.vbls ≡ set_of 5)
    × ((a : List ℕ) (d : ℕ)
        → InRange garden a
        → get_or q.tab_data (index_of (set_of 5) a) d
          ≡ get_or grass_pot.tab_data (index_of (set_of 4) a) d
            * get_or weights.tab_data (index_of (set_of 5) a) d)
first_clique_lem_example =
    first_clique_lem (plain_mode naturals) dirty_block grass_pot weights two_cliques 1 second_clique
      (0 ∷ []) [] length-dirty_block grass_pot-IsPot weights-IsPot refl inside_second
      (unfold members bit test_bit in omega arith) refl refl refl
      ((_, caller_pot, refl, refl, set_of-IsVariableSet 3 (omega arith), refl, outside_first), tt)

add-contains_vertex_example :
    (s : VertexSet) × (VertexSets.add no_marks 1 ≡ ok s)
    × IsVertexSet s
    × (s.o ≡ no_marks.o)
    × ((w : ℕ)
        → (contains_vertex no_marks w ≡ ok (holds no_marks w))
          × (contains_vertex s w
              ≡ ok (if w == 1 && ordered no_marks 1 then true else holds no_marks w)))
add-contains_vertex_example = add-contains_vertex no_marks 1 (record {
  vector = record { bytes = refl; stored = refl; chars = (omega arith, tt) };
  width = refl;
  ordering = refl;
})

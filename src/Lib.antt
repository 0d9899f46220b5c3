-- ===== src/Lib.antt =====
-- Verification of junction-box, a C library for exact inference in Bayesian networks.
--
-- The program. JB_Util has the containers: bit vectors, association lists, texts, variables and
-- their orderings. JB_Pot represents a set of variables as a bit vector over a variable ordering,
-- and a potential as a table with one value for each combination of values of such a set. The
-- functions on indices say where in a table a combination stands, and which places of one table
-- belong to a place of another: these index tables are what the message passing of JB_Inference
-- multiplies and sums by, and they are memoised by the bit vector of the set.
--
-- The files, bottom up. All paths are from the root of the repository.
-- - Base: lists and Boolean tests over the native numbers, and `Outcome`, how a C function that
--   asserts and reads arrays can end: `abort` is a failed assert, `fault` is undefined behaviour.
--   Base.Digits has the binary digits of bytes, Base.Ranges the runs over ranges of indices.
-- - BitVector: src/components/JB_Util/BitVector.c. The bits are a list of bytes, with the size and
--   the number of bytes; one function per `BitVector_…`. `bit` (BitVector.Valid) is the abstract
--   view of a vector as a function from indices to Booleans.
-- - CString: src/components/JB_Util/JB_String.c, over buffers whose first content is a parameter.
-- - AssocMap: src/components/JB_Util/Map.c, IntMap.c, VoidpMap.c and BitVectorMap.c, which are one
--   association list with four tests on keys; `KeyTest` is the interface that the tests fill.
-- - Variables: src/components/JB_Util/Variable.c and VariableOrdering.c.
-- - VariableSet: src/components/JB_Pot/JB_Pot.c, `VariableSet_…` up to GetVblCardinalities.
--   `members` (VariableSet.Members) is the abstract view of a set as a list of variables.
-- - Radix: mixed radix numbers, the mathematics of the indices.
-- - Indices: JB_Pot.c, EnumerateValues, ComputeIndex and ComputeIndices.
-- - Crossing: JB_Pot.c, fix_vbls_indices and IndexCross. Crossing.Tags describes two disjoint sets
--   by one tag for each position of the ordering.
-- - MulInds: JB_Pot.c, CreateIdentity, ComputeMargInd, ComputeMulInd and MulMemo. The abstract
--   view is MulInds.Assignments: an index table is right when for every assignment of values to
--   all variables it leads from the indices of two disjoint sets to that of their union.
-- - Potentials: JB_Pot.c, `Pot_…`. Potentials.Margin has the margins, Potentials.Product and
--   Pointwise the two loops of the products, and Potentials.Entries and Absorbed a product as a
--   function of assignments, for the two kinds of indices.
-- - LinkedList: src/components/JB_Util/LinkedList.c, over a heap of nodes.
-- - DisjointSets: src/components/JB_Util/DSetForest.c, over a heap of nodes; `Root`
--   (DisjointSets.Roots) is the relation of a node to its root, and `InSet` (DisjointSets.Union)
--   the abstract view of a forest, the sets of the elements by their roots.
-- - Graph: src/components/JB_Graph/JB_Graph.c. A graph owns stores of vertices and edges, and a
--   pointer is a place in a store. Graph.Walks has the iterators, the walks and `Graph_Copy`,
--   Graph.Printers the printers.
--   `IsGraph` (Graph.Valid) is the invariant that ties the maps of a graph to those of its vertices;
--   Graph.Grown, Vertices, Edges, Woven and Connect are about adding to a graph, Graph.Chains and
--   Incident about the walks and iterators, Graph.Parts, CopiedEdges and Copies about the copy.
-- - ElimSets and JunctionTree: src/components/JB_JunctionTree/JB_JunctionTree.c. ElimSets has the
--   elimination sets and the candidates for edges, JunctionTree the orderings of vertices,
--   JunctionTree.Collection the collections of sets with `RemoveNonCliques`, Moral the moral graph
--   (with theorems in Married and Moralized), Gather the elimination sets of an ordering (with
--   theorems in Gather.Lower), Tree the spanning tree of the cliques.
-- - Model: src/components/JB_Model/JB_Model.c, conditional probability tables and observations;
--   Model.Network the constructors of a network, Model.Build the graph that they make, Model.Lists
--   the networks from lists.
-- - Inference: src/components/JB_Inference/JB_Inference.c and VertexSet.c. `Mode` is the arithmetic
--   in which a function and its copy for logarithms differ. Inference has the messages, Evidence
--   the runs that collect and distribute them, SswOrdering the weighted ordering, Phases the
--   elimination tree, Initialize its first potentials. Beside and
--   Message, Marks, Exhausted, Distribute and FirstClique are the theorems.
-- - Tests: runs of the theorems at concrete inputs.
--
-- Conventions. An `int` that is never negative in the program is a natural number. A `for` loop
-- is a recursion on the rounds that are left, beside the loop's own variables. The one loop
-- whose rounds are not known before, that of `fix_vbls_indices`, has fuel for one round more
-- than both arrays have elements. The runs along pointers, of lists and of parents, take their
-- fuel as an argument, and the theorems say which is enough. `fresh n` is what a new block of
-- `n` cells holds. `malloc` succeeds. The arithmetic of `double`, with `exp` and `log`, is the
-- parameter `Numbers`; no law of it is used. `qsort` is a parameter. What other parts hang on a
-- vertex or an edge, as `void *` fields, is the type of its `annotation`.
--
-- Not modelled: what is freed; the wrappers of malloc and exit in JB_Mem.c and JB_Error.c; the
-- unused value functions of variables; `Map_SortBy`; cdttest.c, which is a sample of another
-- library; the generated Java bindings; the tests; the printers of JB_Inference, which format numbers
-- with `sprintf`; and its sample networks.
pub mod AssocMap
pub mod Base
pub mod BitVector
pub mod CString
pub mod Crossing
pub mod DisjointSets
pub mod ElimSets
pub mod Graph
pub mod Indices
pub mod Inference
pub mod JunctionTree
pub mod LinkedList
pub mod Model
pub mod MulInds
pub mod Potentials
pub mod Radix
pub mod Tests
pub mod VariableSet
pub mod Variables

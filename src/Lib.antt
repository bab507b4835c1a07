-- ===== src/Lib.antt =====
-- RangeLH_CPlusPlus: a linear hash table, a Bloom filter over key prefixes, the ordered index that
-- joins them, and a B+ tree that it is compared with.
--
-- LinearHashing.antt models Implement/linearHashing.{h,cpp}. The record LinearHashing has the
-- fields of the class; the vector of buckets is a list of chains, a chain a list of entries, since
-- no entry is shared. A worker is its address (Ptr, where none is the null pointer). Each method is
-- a function from the table to a Run of the new table: get_bucket_index is getBucketIndex,
-- check_and_split is checkAndSplit, add_entry the part of insert before it, relink the loop of
-- split, advance its last lines, batch_insert is batchInsert. All of it is 32-bit arithmetic that
-- wraps (Base/Words.antt). Under LinearHashing/, Hash.antt has the bucket index, Chain.antt one
-- chain, Valid.antt the invariant, Rounding.antt the constructor, Moved.antt, Split.antt,
-- Insert.antt, Remove.antt and Batch.antt the methods, and Writes.antt what insertion and removal
-- share.
--
-- BloomRf.antt models Implement/bloomRF.{h,cpp} in the same way: the record BloomRf, the hash, the
-- vector of 64-bit words and the loops over the levels. Under BloomRf/, Hashing.antt has the hash,
-- BitVector.antt single bits, Members.antt insertion and the checks, Fresh.antt the constructor and
-- Overflow.antt the inputs on which the code is undefined.
--
-- RangeLh.antt models Implement/rangeLH.{h,cpp}, on the workers of Workers.antt (Implement/worker.h
-- and Implement/data.h). The index has a LinearHashing and a BloomRf and a chain through the heap
-- of workers, a list in which an address is an index. insert_impl looks the key up in the table;
-- for a new key it searches the filter's tree for the worker before it (get_left_adjacent_worker),
-- links the new worker behind that one (connect, the part of insert_impl that sets the pointers),
-- and inserts into the table and the filter. search is the loop of both adjacent-worker searches,
-- which differ in the children that they push (RangeLh/ChildLists.antt); range_lookup_impl starts
-- from the right one and follows the chain. RangeLh/Keys.antt has the overloads for strings (lists
-- of bytes) and doubles, pattern_lookup, get_sum_keys and the constructor; RangeLh/StringKeys.antt
-- the order of the strings' keys. The proofs: Nodes.antt has the keys below a node of the search
-- tree, Search.antt the loop over an invariant of its stack, Left.antt, LeftChildren.antt,
-- Right.antt and RightChildren.antt the two invariants, Adjacent.antt the searches. Cells.antt is
-- the abstract view, a list of cells sorted by id, Chain.antt the chain that it describes,
-- Connect.antt and Update.antt what writes to the heap make of it, and Valid.antt the invariant
-- that ties chain, table and filter to one list of cells. Insert.antt, Lookup.antt, Reinsert.antt,
-- Range.antt, Ends.antt and Fresh.antt have the operations. The counter of active workers is an int
-- (Base/Ints.antt) whose overflow is undefined.
--
-- Storage.antt models Implement/storage.{h,cpp}: the pool of data, which only grows, and the
-- aggregates over the index. Under Storage/, Records.antt has insert and get, Aggregates.antt the
-- range sums.
--
-- BPlusTree.antt models BPlusTree/bPlusTree.{h,cpp}, a second ordered index that shares no code
-- with the others: the nodes, search, and the walks down the chain of leaves that rangeSearch,
-- getAllKeysInOrder and getAllDataInOrder make. A tree is indexed by its height above the leaves;
-- the leaves keep their address and their next pointer, and the list of leaves is the heap in which
-- that pointer leads on. BPlusTree/Insertion.antt has splitLeaf, splitInternal, insertIntoParent
-- and insert, BPlusTree/Removal.antt the borrows, the merges, handleUnderflow and remove. Both
-- climb by returning: focus is the way down to a child with what stands before and behind it,
-- unfocus the way back. The proofs under BPlusTree/: Children.antt has the children between their
-- separators, Ascent.antt ordered lists, Records.antt the loops over one leaf, Node.antt the
-- invariant of a node, Chain.antt the chain of leaves and Valid.antt the invariant of the tree;
-- Splitting.antt, Growth.antt and Insert.antt have insertion, LeafSiblings.antt,
-- InternalSiblings.antt, Siblings.antt, Parent.antt, Underflow.antt, Removing.antt and Remove.antt
-- removal, Search.antt, Walk.antt and Range.antt the queries, Refinement.antt, Roundtrip.antt,
-- Emptying.antt and Reachable.antt sequences of calls, Height.antt the height, and Repeated.antt
-- equal keys. The walks run on as many rounds as there are leaves. Agreement.antt sets the tree
-- beside the index: int_key is the conversion of a `uint64_t` to the `int` that the tree takes.
--
-- The searches run on fuel, the number `visits` of nodes that a tree with one more child per node
-- than 2^delta has; the walks down the chain on as many rounds as there are workers. The theorems
-- show that both are enough.
--
-- Base.antt passes on the names that all share; under Base/ stand the Boolean tests, lists and
-- their writes, the digits of numbers under `&`, `|` and shifts, and machine words. Examples.antt
-- has runs and the theorems at concrete inputs.
--
-- Run (Base/Run.antt) is the outcome of code that may fail: a value, std::out_of_range, undefined
-- behaviour (an index outside a vector, a shift by the width or more, a division by zero, an int
-- that overflows), or a loop of the model that met the end of its fuel. `double` and the functions
-- of <cmath> are the interface Float (Base/Float.antt), whose conversion to `size_t` may be
-- undefined and on which no law is assumed; where a theorem needs one it is a hypothesis. The other
-- loops are recursions on the list or on the rounds left.
--
-- Not modelled: printStats, print_configs, print_worker_chain and the destructors, which print or
-- free; printTree and printLeafData, which print, and the prev pointers of the B+ tree's leaves,
-- which no code reads; the tests and the benchmark.
pub mod Base
pub mod LinearHashing
pub mod BloomRf
pub mod Workers
pub mod RangeLh
pub mod Storage
pub mod BPlusTree
pub mod Agreement
pub mod Examples

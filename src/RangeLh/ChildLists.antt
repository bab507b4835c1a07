-- ===== src/RangeLh/ChildLists.antt =====
-- Implement/rangeLH.cpp: the children that the two searches for an adjacent worker push.
use range_lh_cplus_plus.Base.{
  ℕ, zero, suc, ◌+◌, ◌-◌, ◌*◌, ◌^◌, List, [], ◌∷◌, ◌++◌, ◌&&◌, ltb, leb, if◌then◌else◌,
}
use range_lh_cplus_plus.Base.Words.{u64_mod, add64, sub64, mul64, shift_left}
use range_lh_cplus_plus.Base.Run.{Run, ok, ◌>>=◌}
use Prim.Native.Nat.{bit_and}

-- An entry of the search stack: the lowest key of a subtree, and its level.
abbrev pub Node : Type 0
Node = ℕ × ℕ

-- the pushes of a list of children, in order
unfoldable pub push_all : List Node → List Node → List Node
push_all [] stack = stack
push_all (child ∷ children) stack = push_all children (child ∷ stack)

-- `~x` on a `uint64_t`
unfoldable pub not64 : ℕ → ℕ
not64 x = u64_mod - 1 - x

-- The loop of `get_left_children_list` from `j` on; `level` is the children's.
unfoldable pub left_children : (key level worker_key step : ℕ) → (rounds j : ℕ) → List Node
left_children key level worker_key step zero j = []
left_children key level worker_key step (suc rounds) j =
    let child_key = add64 key (mul64 j step) in
    let rest = left_children key level worker_key step rounds (suc j) in
    if ltb child_key worker_key then (child_key, level) ∷ rest else rest

-- The loop of `get_right_children_list` from `rounds - 1` down to 0.
unfoldable pub right_children : (key level worker_key step : ℕ) → (rounds : ℕ) → List Node
right_children key level worker_key step zero = []
right_children key level worker_key step (suc j) =
    let child_key = add64 key (mul64 j step) in
    let rest = right_children key level worker_key step j in
    if ltb worker_key child_key then (child_key, level) ∷ rest else rest

-- The last child of both lists: the one that `worker_key` belongs to, if it is in the interval.
unfoldable pub aligned_child : (key level worker_key step num_children : ℕ) → List Node
aligned_child key level worker_key step num_children =
    if leb key worker_key && ltb worker_key (add64 key (mul64 num_children step))
    then (bit_and worker_key (not64 (sub64 step 1)), level) ∷ []
    else []

unfoldable pub get_left_children_list :
    (delta : ℕ) → (cur_key cur_level worker_key : ℕ) → Run (List Node)
get_left_children_list delta key zero worker_key = ok []
get_left_children_list delta key (suc level) worker_key = do
  step ← shift_left 1 (level * delta)
  num_children ← shift_left 1 delta
  ok (
      left_children key level worker_key step num_children 0
      ++ aligned_child key level worker_key step num_children)

unfoldable pub get_right_children_list :
    (delta : ℕ) → (cur_key cur_level worker_key : ℕ) → Run (List Node)
get_right_children_list delta key zero worker_key = ok []
get_right_children_list delta key (suc level) worker_key = do
  step ← shift_left 1 (level * delta)
  num_children ← shift_left 1 delta
  ok (
      right_children key level worker_key step num_children
      ++ aligned_child key level worker_key step num_children)

-- The rounds that a search below a node of a level takes at most.
unfoldable pub visits : (delta level : ℕ) → ℕ
visits delta zero = 1
visits delta (suc level) = suc ((2 ^ delta + 1) * visits delta level)

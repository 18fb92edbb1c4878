-- ===== src/Huffman/Build.antt =====
-- src/huffman_tree.cpp: `BuildHuffman` and `GenerateCoding`.
use data_backup.Base.{
  ℕ, zero, suc, ◌+◌, ◌%◌, ◌^◌, Bool, true, false, List, [], ◌∷◌, ◌++◌, Option, none, some, length,
  ltb, if◌then◌else◌,
}
use data_backup.Huffman.Node.{TreeNode, leaf, node, weight_of, PriorityQueue}

-- `counts`: for each byte its node, or a null pointer.
abbrev pub Counts : Type 0
Counts = List (Option TreeNode)

-- How many bytes have a node.
unfoldable pub present : Counts → ℕ
present [] = 0
present (none ∷ counts) = present counts
present (some t ∷ counts) = suc (present counts)

-- Every leaf below `root` gets its code: `code` is what stands in the string at the call. (After
-- each child the last character is popped, so a caller finds its string unchanged.)
unfoldable pub generate_coding : TreeNode → List Bool → TreeNode
generate_coding (leaf ch weight old) code = leaf ch weight code
generate_coding (node left right weight) code =
    node (generate_coding left (code ++ false ∷ [])) (generate_coding right (code ++ true ∷ []))
      weight

-- The sum of two `uint64_t` weights wraps.
abbrev pub join : TreeNode → TreeNode → TreeNode
join left right = node left right ((weight_of left + weight_of right) % 2 ^ 64)

module _ (pq : PriorityQueue) where
  open pq use {Queue, empty, push, pop, items}

  unfoldable pub push_all : Counts → Queue → Queue
  push_all [] heap = heap
  push_all (none ∷ counts) heap = push_all counts heap
  push_all (some t ∷ counts) heap = push_all counts (push t heap)

  abbrev pub size : Queue → ℕ
  size heap = length (items heap)

  -- One round: the two least nodes become the children of a new node. `none` is `top` of an empty
  -- queue.
  unfoldable pub merge_least : Queue → Option Queue
  merge_least heap = elim (pop heap) [
    | none ↦ none
    | some (left, heap1) ↦ elim (pop heap1) [
      | none ↦ none
      | some (right, heap2) ↦ some (push (join left right) heap2)
    ]
  ]

  abbrev pub go_on : (Queue → Option Queue) → Option Queue → Option Queue
  go_on again none = none
  go_on again (some heap) = again heap

  -- `while(my_heap.size()>1)`, with fuel; `none` is also a loop that is not at its end without fuel.
  unfoldable pub merge_loop : ℕ → Queue → Option Queue
  unfolding merge_least
  merge_loop zero heap = if ltb 1 (size heap) then none else some heap
  merge_loop (suc fuel) heap =
      let rest = go_on (merge_loop fuel) (merge_least heap) in
      if ltb 1 (size heap) then rest else some heap

  abbrev pub top_coded : Option (TreeNode × Queue) → Option (Option TreeNode)
  top_coded none = none
  top_coded (some (root, heap)) = some (some (generate_coding root []))

  abbrev pub top_of : Option Queue → Option (Option TreeNode)
  top_of none = none
  top_of (some heap) = top_coded (pop heap)

  -- Each round takes one node off, so as many rounds as there are nodes are enough.
  abbrev pub merge_all : Queue → Option (Option TreeNode)
  merge_all heap = top_of (merge_loop (size heap) heap)

  -- `some none` is a null pointer, `none` a loop that is not at its end or `top` of an empty queue.
  unfoldable pub build_huffman : Counts → Option (Option TreeNode)
  unfolding push_all merge_loop generate_coding
  build_huffman counts =
      let heap = push_all counts empty in if ltb 1 (size heap) then merge_all heap else some none

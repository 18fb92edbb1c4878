-- ===== src/Huffman/Node.antt =====
-- inc/huffman_tree.h: the nodes, and the `std::priority_queue` that `BuildHuffman` works on.
use data_backup.Base.{ℕ, suc, ◌≤◌, ◌≡◌, ◌⊎◌, Bool, List, [], ◌∷◌, Option, none, some, length}

-- A node has two children or none. A code is a string of '0' and '1', here `false` and `true`.
-- Nobody reads `ch_` and `code_` of a node with children.
pub data TreeNode : Type 0 where
  leaf : (ch weight : ℕ) (code : List Bool) → TreeNode
  node : (left right : TreeNode) (weight : ℕ) → TreeNode

abbrev pub weight_of : TreeNode → ℕ
weight_of (leaf ch weight code) = weight
weight_of (node left right weight) = weight

-- `y` is one of the listed nodes.
abbrev pub In : TreeNode → List TreeNode → Type 0
In y [] = ⊥
In y (x ∷ xs) = (y ≡ x) ⊎ In y xs

-- `std::priority_queue<TreeNode *, ..., Cmp>`. The standard leaves open which of several nodes of
-- least weight `top` gives, so the queue is a parameter; `pop` gives `top` and the queue without it.
pub record PriorityQueue : Type 1 where
  pub Queue : Type 0
  pub empty : Queue
  pub push : TreeNode → Queue → Queue
  pub pop : Queue → Option (TreeNode × Queue)
  pub items : Queue → List TreeNode

-- What the standard says of it.
pub record IsLawful (pq : PriorityQueue) : Type 0 where
  pub items-empty : pq.items pq.empty ≡ []
  pub length-push :
      (t : TreeNode) (q : pq.Queue) → length (pq.items (pq.push t q)) ≡ suc (length (pq.items q))
  pub push-new : (t : TreeNode) (q : pq.Queue) → In t (pq.items (pq.push t q))
  pub push-old :
      (t : TreeNode) (q : pq.Queue) (y : TreeNode)
      → In y (pq.items q)
      → In y (pq.items (pq.push t q))
  pub push-from :
      (t : TreeNode) (q : pq.Queue) (y : TreeNode)
      → In y (pq.items (pq.push t q))
      → (y ≡ t) ⊎ In y (pq.items q)
  pub pop-none : (q : pq.Queue) → pq.pop q ≡ none → pq.items q ≡ []
  pub length-pop :
      (q : pq.Queue) (t : TreeNode) (q' : pq.Queue)
      → pq.pop q ≡ some (t, q')
      → length (pq.items q) ≡ suc (length (pq.items q'))
  pub pop-covers :
      (q : pq.Queue) (t : TreeNode) (q' : pq.Queue) (y : TreeNode)
      → pq.pop q ≡ some (t, q')
      → In y (pq.items q)
      → (y ≡ t) ⊎ In y (pq.items q')
  pub pop-from :
      (q : pq.Queue) (t : TreeNode) (q' : pq.Queue) (y : TreeNode)
      → pq.pop q ≡ some (t, q')
      → (y ≡ t) ⊎ In y (pq.items q')
      → In y (pq.items q)
  pub pop-least :
      (q : pq.Queue) (t : TreeNode) (q' : pq.Queue) (y : TreeNode)
      → pq.pop q ≡ some (t, q')
      → In y (pq.items q)
      → weight_of t ≤ weight_of y

-- ===== src/Decompress/Walk.antt =====
-- Decoding as a function: the bytes that a row of bits gives, walking the tree from the root.
use data_backup.Base.{
  ℕ, ◌≡◌, refl, ap, ◌∙◌, Bool, true, false, List, [], ◌∷◌, ◌++◌, append_assoc, All,
}
use data_backup.Huffman.{TreeNode, leaf, node}
use data_backup.Huffman.Codes.{IsCode}
use data_backup.Huffman.Laws.{IsNode}
use data_backup.Compress.{CodingTable}
use data_backup.Compress.Total.{encode}

abbrev pub pick : Bool → TreeNode → TreeNode
pick b (leaf ch weight code) = leaf ch weight code
pick false (node left right weight) = left
pick true (node left right weight) = right

-- At a leaf its byte comes out and the walk is at the root again.
abbrev pub settle : TreeNode → TreeNode → List ℕ × TreeNode
settle root (leaf ch weight code) = (ch ∷ [], root)
settle root (node left right weight) = ([], node left right weight)

unfoldable pub walk : TreeNode → TreeNode → List Bool → List ℕ × TreeNode
walk root at [] = ([], at)
walk root at (b ∷ bs) =
    let s = settle root (pick b at) in let r = walk root s.1 bs in (s.0 ++ r.0, r.1)

pub walk-append :
    (root at : TreeNode) (xs ys : List Bool)
    → walk root at (xs ++ ys) ≡ (
      (walk root at xs).0 ++ (walk root (walk root at xs).1 ys).0,
      (walk root (walk root at xs).1 ys).1,
    )
unfolding walk
walk-append root at [] ys = refl
walk-append root at (b ∷ xs) ys =
    rw (walk-append root (settle root (pick b at)).1 xs ys, append_assoc) refl

pub settle-IsNode : (root t : TreeNode) → IsNode root → IsNode (settle root t).1
settle-IsNode root (leaf ch weight code) h = h
settle-IsNode root (node left right weight) h = tt

-- A code leads from a node with children to its byte and back to the root.
pub walk-code :
    (root t : TreeNode) (code : List Bool) (c : ℕ)
    → IsNode t
    → IsCode t code c
    → walk root t code ≡ (c ∷ [], root)
unfolding walk
walk-code root (leaf ch weight code) bits c n h = absurd n
walk-code root (node left right weight) [] c n h = absurd h
walk-code root (node (leaf ch w k) right weight) (false ∷ []) c n h = ap (λ d. (d ∷ [], root)) h
walk-code root (node (leaf ch w k) right weight) (false ∷ b ∷ bs) c n h = absurd h
walk-code root (node (node l r w) right weight) (false ∷ bs) c n h =
    rw (walk-code root (node l r w) bs c tt h) refl
walk-code root (node left (leaf ch w k) weight) (true ∷ []) c n h = ap (λ d. (d ∷ [], root)) h
walk-code root (node left (leaf ch w k) weight) (true ∷ b ∷ bs) c n h = absurd h
walk-code root (node left (node l r w) weight) (true ∷ bs) c n h =
    rw (walk-code root (node l r w) bs c tt h) refl

-- The codes of a row of bytes, one after the other, give the bytes back.
pub walk-encode :
    (root : TreeNode) (table : CodingTable) (xs : List ℕ)
    → IsNode root
    → All (λ c. IsCode root (table c) c) xs
    → walk root root (encode table xs) ≡ (xs, root)
unfolding encode
walk-encode root table [] n h = unfold walk in refl
walk-encode root table (x ∷ xs) n (hx, h) =
    walk-append root root (table x) (encode table xs)
    ∙ rw (walk-code root root (table x) x n hx) (rw (walk-encode root table xs n h) refl)

-- ===== src/Huffman/Codes.antt =====
-- What a code is: the way from the root to a leaf.
use data_backup.Base.{
  ℕ, ◌≡◌, refl, sym, ◌∙◌, ◌⊎◌, inl, inr, Bool, true, false, List, [], ◌∷◌, ◌++◌, append_assoc,
  append-nil, All, All-append,
}
use data_backup.Huffman.Node.{TreeNode, leaf, node}
use data_backup.Huffman.Build.{generate_coding}

-- From the root of the tree the bits lead to a leaf for `c`.
abbrev pub IsCode : TreeNode → List Bool → ℕ → Type 0
IsCode (leaf ch weight code) [] c = ch ≡ c
IsCode (leaf ch weight code) (b ∷ bs) c = ⊥
IsCode (node left right weight) [] c = ⊥
IsCode (node left right weight) (false ∷ bs) c = IsCode left bs c
IsCode (node left right weight) (true ∷ bs) c = IsCode right bs c

-- The tree has a leaf for `c`.
abbrev pub HasLeaf : ℕ → TreeNode → Type 0
HasLeaf c (leaf ch weight code) = ch ≡ c
HasLeaf c (node left right weight) = HasLeaf c left ⊎ HasLeaf c right

-- In every tree: where the way to a leaf continues the way to a leaf, nothing is added, and the two
-- leaves hold the same byte.
pub IsCode-prefix :
    (t : TreeNode) (p q : List Bool) (c d : ℕ)
    → IsCode t p c
    → IsCode t (p ++ q) d
    → (q ≡ []) × (c ≡ d)
IsCode-prefix (leaf ch weight code) [] [] c d h k = (refl, sym h ∙ k)
IsCode-prefix (leaf ch weight code) [] (b ∷ q) c d h k = absurd k
IsCode-prefix (leaf ch weight code) (b ∷ p) q c d h k = absurd h
IsCode-prefix (node left right weight) [] q c d h k = absurd h
IsCode-prefix (node left right weight) (false ∷ p) q c d h k = IsCode-prefix left p q c d h k
IsCode-prefix (node left right weight) (true ∷ p) q c d h k = IsCode-prefix right p q c d h k

-- The leaves from left to right, with their codes.
unfoldable pub leaves : TreeNode → List (ℕ × List Bool)
leaves (leaf ch weight code) = (ch, code) ∷ []
leaves (node left right weight) = leaves left ++ leaves right

-- Where `generate_coding` starts in a string `pre`, it gives each leaf `pre` and the way to it.
abbrev Coded : TreeNode → List Bool → ℕ × List Bool → Type 0
Coded t pre l = (p : List Bool) × (l.1 ≡ pre ++ p) × IsCode t p l.0

All-map :
    (P Q : ℕ × List Bool → Type 0) (ls : List (ℕ × List Bool))
    → ((l : ℕ × List Bool) → P l → Q l)
    → All P ls
    → All Q ls
All-map P Q [] f h = tt
All-map P Q (l ∷ ls) f (hl, h) = (f l hl, All-map P Q ls f h)

generate_coding-Coded :
    (t : TreeNode) (pre : List Bool) → All (Coded t pre) (leaves (generate_coding t pre))
unfolding generate_coding leaves
generate_coding-Coded (leaf ch weight old) pre = (([], sym (append-nil pre), refl), tt)
generate_coding-Coded (node left right weight) pre =
    All-append (Coded (node left right weight) pre) _ _
      (All-map _ _ _ (λ l (p, e, h). (false ∷ p, e ∙ append_assoc pre (false ∷ []) p, h))
        (generate_coding-Coded left (pre ++ false ∷ [])))
      (All-map _ _ _ (λ l (p, e, h). (true ∷ p, e ∙ append_assoc pre (true ∷ []) p, h))
        (generate_coding-Coded right (pre ++ true ∷ [])))

-- The codes that are set do not matter for the way to a leaf.
pub IsCode-generate_coding :
    (t : TreeNode) (pre p : List Bool) (c : ℕ) → IsCode t p c → IsCode (generate_coding t pre) p c
unfolding generate_coding
IsCode-generate_coding (leaf ch weight old) pre [] c h = h
IsCode-generate_coding (leaf ch weight old) pre (b ∷ p) c h = h
IsCode-generate_coding (node left right weight) pre [] c h = h
IsCode-generate_coding (node left right weight) pre (false ∷ p) c h =
    IsCode-generate_coding left (pre ++ false ∷ []) p c h
IsCode-generate_coding (node left right weight) pre (true ∷ p) c h =
    IsCode-generate_coding right (pre ++ true ∷ []) p c h

pub HasLeaf-generate_coding :
    (t : TreeNode) (pre : List Bool) (c : ℕ) → HasLeaf c t → HasLeaf c (generate_coding t pre)
unfolding generate_coding
HasLeaf-generate_coding (leaf ch weight old) pre c h = h
HasLeaf-generate_coding (node left right weight) pre c (inl h) =
    inl (HasLeaf-generate_coding left (pre ++ false ∷ []) c h)
HasLeaf-generate_coding (node left right weight) pre c (inr h) =
    inr (HasLeaf-generate_coding right (pre ++ true ∷ []) c h)

-- In the coded tree the string at each leaf is the way to it.
pub leaves-IsCode :
    (t : TreeNode)
    → All (λ l. IsCode (generate_coding t []) l.1 l.0) (leaves (generate_coding t []))
leaves-IsCode t =
    All-map _ _ _ (λ l (p, e, h). rw e (IsCode-generate_coding t [] p l.0 h))
      (generate_coding-Coded t [])

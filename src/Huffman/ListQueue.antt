-- ===== src/Huffman/ListQueue.antt =====
-- A priority queue that meets the assumptions: a list, from which `pop` takes the first node of
-- least weight.
use data_backup.Base.{
  suc, ◌≤◌, ◌≡◌, refl, ◌⊎◌, inl, inr, List, [], ◌∷◌, Option, none, some, length, leb, if◌then◌else◌,
  arith,
}
use data_backup.Huffman.Node.{TreeNode, weight_of, In, PriorityQueue, IsLawful}

-- The first node of least weight of `t ∷ xs`, and the others.
unfoldable pub extract : TreeNode → List TreeNode → TreeNode × List TreeNode
extract t [] = (t, [])
extract t (x ∷ xs) =
    let rest = extract x xs in
    if leb (weight_of t) (weight_of rest.0) then (t, x ∷ xs) else (rest.0, t ∷ rest.1)

abbrev pub pop_least : List TreeNode → Option (TreeNode × List TreeNode)
pop_least [] = none
pop_least (t ∷ xs) = some (extract t xs)

abbrev pub list_queue : PriorityQueue
list_queue = record {
  Queue = List TreeNode;
  empty = [];
  push = λ t q. t ∷ q;
  pop = pop_least;
  items = λ q. q;
}

length-extract :
    (t : TreeNode) (xs : List TreeNode) → suc (length xs) ≡ suc (length (extract t xs).1)
unfolding extract
length-extract t [] = refl
length-extract t (x ∷ xs) = ground (arith, length-extract x xs)

extract-covers :
    (t : TreeNode) (xs : List TreeNode) (y : TreeNode)
    → In y (t ∷ xs)
    → (y ≡ (extract t xs).0) ⊎ In y (extract t xs).1
unfolding extract
extract-covers t [] y h = h
extract-covers t (x ∷ xs) y h = ground (arith, extract-covers x xs y)

extract-from :
    (t : TreeNode) (xs : List TreeNode) (y : TreeNode)
    → (y ≡ (extract t xs).0) ⊎ In y (extract t xs).1
    → In y (t ∷ xs)
unfolding extract
extract-from t [] y h = h
extract-from t (x ∷ xs) y h = ground (arith, extract-from x xs y)

extract-least :
    (t : TreeNode) (xs : List TreeNode) (y : TreeNode)
    → In y (t ∷ xs)
    → weight_of (extract t xs).0 ≤ weight_of y
unfolding extract
extract-least t [] y (inl e) = rw e (omega arith)
extract-least t [] y (inr h) = absurd h
extract-least t (x ∷ xs) y (inl e) = rw e (ground arith)
extract-least t (x ∷ xs) y (inr h) = ground (arith, extract-least x xs y h)

pop_least-none : (q : List TreeNode) → pop_least q ≡ none → q ≡ []
pop_least-none [] e = refl
pop_least-none (t ∷ xs) e = cc

length-pop_least :
    (q : List TreeNode) (t : TreeNode) (q' : List TreeNode)
    → pop_least q ≡ some (t, q')
    → length q ≡ suc (length q')
length-pop_least [] t q' e = cc
length-pop_least (x ∷ xs) t q' e = ground (arith, length-extract x xs)

pop_least-covers :
    (q : List TreeNode) (t : TreeNode) (q' : List TreeNode) (y : TreeNode)
    → pop_least q ≡ some (t, q')
    → In y q
    → (y ≡ t) ⊎ In y q'
pop_least-covers [] t q' y e h = absurd h
pop_least-covers (x ∷ xs) t q' y e h = ground (arith, extract-covers x xs y h)

pop_least-from :
    (q : List TreeNode) (t : TreeNode) (q' : List TreeNode) (y : TreeNode)
    → pop_least q ≡ some (t, q')
    → (y ≡ t) ⊎ In y q'
    → In y q
pop_least-from [] t q' y e h = cc
pop_least-from (x ∷ xs) t q' y e h = ground (arith, extract-from x xs y)

pop_least-least :
    (q : List TreeNode) (t : TreeNode) (q' : List TreeNode) (y : TreeNode)
    → pop_least q ≡ some (t, q')
    → In y q
    → weight_of t ≤ weight_of y
pop_least-least [] t q' y e h = absurd h
pop_least-least (x ∷ xs) t q' y e h = ground (arith, extract-least x xs y h)

pub list_queue-IsLawful : IsLawful list_queue
list_queue-IsLawful = record {
  items-empty = refl;
  length-push = λ t q. refl;
  push-new = λ t q. inl refl;
  push-old = λ t q y h. inr h;
  push-from = λ t q y h. h;
  pop-none = pop_least-none;
  length-pop = length-pop_least;
  pop-covers = pop_least-covers;
  pop-from = pop_least-from;
  pop-least = pop_least-least;
}

-- ===== src/Huffman/Laws.antt =====
-- What `build_huffman` returns, over any queue that does what the standard says.
use data_backup.Base.{
  ℕ, zero, suc, ◌+◌, ◌≤◌, ◌<◌, ◌≡◌, refl, ap, sym, ◌∙◌, ◌⊎◌, inl, inr, Bool, false, List, [], ◌∷◌,
  none, some, Option-cases, length, ltb, ltb→lt, lt→ltb, Bool-cases, arith,
}
use data_backup.Huffman.Node.{TreeNode, leaf, node, In, PriorityQueue, IsLawful}
use data_backup.Huffman.Build.{
  Counts, generate_coding, push_all, size, join, merge_least, merge_loop, merge_all, build_huffman,
  present,
}
use data_backup.Huffman.Codes.{HasLeaf}

abbrev pub IsNode : TreeNode → Type 0
IsNode (leaf ch weight code) = ⊥
IsNode (node left right weight) = Unit {0}

pub IsNode-generate_coding :
    (t : TreeNode) (pre : List Bool) → IsNode t → IsNode (generate_coding t pre)
unfolding generate_coding
IsNode-generate_coding (leaf ch weight code) pre h = h
IsNode-generate_coding (node left right weight) pre h = tt

-- One of the nodes is, or is above, a leaf for `c`.
abbrev pub HasEntry : ℕ → Counts → Type 0
HasEntry c [] = ⊥
HasEntry c (none ∷ counts) = HasEntry c counts
HasEntry c (some t ∷ counts) = HasLeaf c t ⊎ HasEntry c counts

module _ (pq : PriorityQueue) (L : IsLawful pq) where
  open pq use {Queue, empty, push, pop, items}

  -- Some node of the queue has the property.
  abbrev Some : (TreeNode → Type 0) → Queue → Type 0
  Some P q = (y : TreeNode) × In y (items q) × P y

  pop_some :
      (q : Queue)
      → 0 < size pq q
      → (t : TreeNode) × (q' : Queue) × (pop q ≡ some (t, q')) × (size pq q ≡ suc (size pq q'))
  pop_some q h = elim (Option-cases (pop q)) [
    | inl e ↦ absurd (omega (arith, ap length (L.pop-none q e)))
    | inr ((t, q'), e) ↦ (t, q', e, L.length-pop q t q' e)
  ]

  -- One round on a queue of two nodes at least.
  record Merged (q : Queue) : Type 0 where
    l : TreeNode
    r : TreeNode
    q1 : Queue
    q2 : Queue
    first : pop q ≡ some (l, q1)
    second : pop q1 ≡ some (r, q2)
    result : merge_least pq q ≡ some (push (join l r) q2)
    smaller : size pq q ≡ suc (suc (size pq q2))

  merged : (q : Queue) → 1 < size pq q → Merged q
  unfolding merge_least
  merged q h =
      let (l, q1, e1, s1) = pop_some q (omega arith) in
      let (r, q2, e2, s2) = pop_some q1 (omega arith) in
      record {
        l = l;
        r = r;
        q1 = q1;
        q2 = q2;
        first = e1;
        second = e2;
        result = rw (e1, merge_least) (rw e2 refl);
        smaller = s1 ∙ ap suc s2;
      }

  -- The queue behind a round.
  abbrev next : (q : Queue) → Merged q → Queue
  next q m = push (join m.l m.r) m.q2

  size-next : (q : Queue) (m : Merged q) → size pq q ≡ suc (size pq (next q m))
  size-next q m = m.smaller ∙ ap suc (sym (L.length-push (join m.l m.r) m.q2))

  next-HasLeaf :
      (q : Queue) (c : ℕ) (m : Merged q) → Some (HasLeaf c) q → Some (HasLeaf c) (next q m)
  next-HasLeaf q c m (y, inq, has) = elim (L.pop-covers q m.l m.q1 y m.first inq) [
    | inl e ↦ (join m.l m.r, L.push-new _ m.q2, inl (rw e at has))
    | inr inq1 ↦ elim (L.pop-covers m.q1 m.r m.q2 y m.second inq1) [
      | inl e ↦ (join m.l m.r, L.push-new _ m.q2, inr (rw e at has))
      | inr inq2 ↦ (y, L.push-old _ m.q2 y inq2, has)
    ]
  ]

  next-IsNode : (q : Queue) (m : Merged q) → Some IsNode (next q m)
  next-IsNode q m = (join m.l m.r, L.push-new _ m.q2, tt)

  IsNode-of : (q : Queue) → size pq q ≤ 1 → (1 < size pq q) ⊎ Some IsNode q → Some IsNode q
  IsNode-of q le (inl lt) = absurd (omega arith)
  IsNode-of q le (inr n) = n

  -- The loop ends with one node, in which every leaf is found again.
  merge_loop_lem :
      (fuel : ℕ) (q : Queue)
      → size pq q ≤ suc fuel
      → 0 < size pq q
      → (1 < size pq q) ⊎ Some IsNode q
      → (q' : Queue) × (merge_loop pq fuel q ≡ some q')
        × (size pq q' ≡ 1)
        × Some IsNode q'
        × ((c : ℕ) → Some (HasLeaf c) q → Some (HasLeaf c) q')
  unfolding merge_loop
  merge_loop_lem zero q le pos n =
      let one : ltb 1 (size pq q) ≡ false = ground (arith, le) in
      (q, rw one refl, omega arith, IsNode-of q (omega arith) n, λ c h. h)
  merge_loop_lem (suc fuel) q le pos n = elim (Bool-cases (ltb 1 (size pq q))) [
    | inr one ↦ (q, rw one refl, ground arith, IsNode-of q (ground arith) n, λ c h. h)
    | inl more ↦
        let two : 1 < size pq q = ltb→lt 1 _ more in
        let m = merged q two in
        let (q', e, s, n', keep) =
          merge_loop_lem fuel (next q m) (omega (arith, size-next q m))
            (omega (arith, size-next q m)) (inr (next-IsNode q m)) in
        (q', rw more (rw m.result e), s, n', λ c h. keep c (next-HasLeaf q c m h))
  ]

  -- The only node of a queue of one.
  top_of_one :
      (P : TreeNode → Type 0) (q : Queue) (t : TreeNode) (q' : Queue)
      → size pq q ≡ 1
      → pop q ≡ some (t, q')
      → Some P q
      → P t
  top_of_one P q t q' one e (y, inq, py) = elim (L.pop-covers q t q' y e inq) [
    | inl eq ↦ rw eq at py
    | inr inq' ↦ absurd (no_items (items q') (omega (arith, L.length-pop q t q' e)) inq')
  ]
    where
      no_items : (xs : List TreeNode) → length xs ≡ 0 → In y xs → ⊥
      no_items [] h k = k
      no_items (x ∷ xs) h k = omega arith

  merge_all_lem :
      (q : Queue)
      → 1 < size pq q
      → (root : TreeNode) × (merge_all pq q ≡ some (some (generate_coding root [])))
        × IsNode root
        × ((c : ℕ) → Some (HasLeaf c) q → HasLeaf c root)
  merge_all_lem q two =
      let (last, run, one, n, keep) =
        merge_loop_lem (size pq q) q (omega arith) (omega arith) (inl two) in
      let (root, q', e, _) = pop_some last (omega (arith, one)) in
      (
        root,
        rw run (rw e refl),
        top_of_one IsNode _ root q' one e n,
        λ c h. top_of_one (HasLeaf c) _ root q' one e (keep c h),
      )

  size-push_all :
      (counts : Counts) (q : Queue) → size pq (push_all pq counts q) ≡ present counts + size pq q
  unfolding push_all present
  size-push_all [] q = omega arith
  size-push_all (none ∷ counts) q = size-push_all counts q
  size-push_all (some t ∷ counts) q =
      omega (arith, size-push_all counts (push t q), L.length-push t q)

  push_all-HasLeaf :
      (counts : Counts) (q : Queue) (c : ℕ)
      → HasEntry c counts ⊎ Some (HasLeaf c) q
      → Some (HasLeaf c) (push_all pq counts q)
  unfolding push_all
  push_all-HasLeaf [] q c (inl h) = absurd h
  push_all-HasLeaf [] q c (inr h) = h
  push_all-HasLeaf (none ∷ counts) q c h = push_all-HasLeaf counts q c h
  push_all-HasLeaf (some t ∷ counts) q c (inl (inl h)) =
      push_all-HasLeaf counts (push t q) c (inr (t, L.push-new t q, h))
  push_all-HasLeaf (some t ∷ counts) q c (inl (inr h)) =
      push_all-HasLeaf counts (push t q) c (inl h)
  push_all-HasLeaf (some t ∷ counts) q c (inr (y, inq, h)) =
      push_all-HasLeaf counts (push t q) c (inr (y, L.push-old t q y inq, h))

  size-heap : (counts : Counts) → size pq (push_all pq counts empty) ≡ present counts
  size-heap counts = omega (arith, size-push_all counts empty, ap length L.items-empty)

  -- With two nodes at least `BuildHuffman` returns a tree: its root has children, its codes are
  -- set, and it has a leaf for every byte that has a node.
  pub build_huffman-some :
      (counts : Counts)
      → 1 < present counts
      → (root : TreeNode) × (build_huffman pq counts ≡ some (some (generate_coding root [])))
        × IsNode root
        × ((c : ℕ) → HasEntry c counts → HasLeaf c root)
  unfolding build_huffman
  build_huffman-some counts h =
      let heap = push_all pq counts empty in
      let two : 1 < size pq heap = omega (arith, size-heap counts) in
      let (root, e, n, keep) = merge_all_lem heap two in
      (
        root,
        rw (lt→ltb 1 (size pq heap) two) e,
        n,
        λ c k. keep c (push_all-HasLeaf counts empty c (inl k)),
      )

  -- With one node or none it returns a null pointer.
  pub build_huffman-none :
      (counts : Counts) → present counts ≤ 1 → build_huffman pq counts ≡ some none
  unfolding build_huffman
  build_huffman-none counts h = ground (arith, size-heap counts)

-- ===== src/Compress/Table.antt =====
-- `GenerateCodingTable`: the code of every byte of the file is the way to a leaf for it.
use data_backup.Base.{
  ℕ, zero, suc, ◌+◌, ◌≤◌, ◌≡◌, ◌≢◌, true, false, refl, ap, sym, ◌∙◌, ◌⊎◌, inl, inr, Bool,
  Bool-cases, List, [], ◌∷◌, ◌++◌, some, All, append_assoc, append-nil, ◌<◌, ◌==◌, ==_iff, arith,
}
use data_backup.Huffman.{
  TreeNode, leaf, node, PriorityQueue, IsLawful, Counts, present, generate_coding, build_huffman,
}
use data_backup.Huffman.Codes.{
  IsCode, IsCode-prefix, HasLeaf, leaves, leaves-IsCode, HasLeaf-generate_coding,
}
use data_backup.Huffman.Laws.{IsNode, HasEntry, build_huffman-some, IsNode-generate_coding}
use data_backup.Io.{ok, streams}
use data_backup.Compress.{
  CodingTable, empty_table, insert, collect_codes, node_count, generate_coding_table,
}

abbrev insert_all : List (ℕ × List Bool) → CodingTable → CodingTable
insert_all [] table = table
insert_all (l ∷ ls) table = insert_all ls (insert l.0 l.1 table)

insert_all-append :
    (ls ms : List (ℕ × List Bool)) (table : CodingTable)
    → insert_all (ls ++ ms) table ≡ insert_all ms (insert_all ls table)
insert_all-append [] ms table = refl
insert_all-append (l ∷ ls) ms table = insert_all-append ls ms (insert l.0 l.1 table)

abbrev all_leaves : List TreeNode → List (ℕ × List Bool)
all_leaves [] = []
all_leaves (t ∷ ts) = leaves t ++ all_leaves ts

abbrev node_counts : List TreeNode → ℕ
node_counts [] = 0
node_counts (t ∷ ts) = node_count t + node_counts ts

-- The stack visits the leaves from left to right, and one unit of fuel for each node is enough.
collect_codes-leaves :
    (fuel : ℕ) (help : List TreeNode) (table : CodingTable)
    → node_counts help ≤ fuel
    → collect_codes fuel help table ≡ some (insert_all (all_leaves help) table)
unfolding collect_codes node_count leaves
collect_codes-leaves zero [] table h = refl
collect_codes-leaves zero (leaf ch weight code ∷ help) table h = absurd (omega arith)
collect_codes-leaves zero (node left right weight ∷ help) table h = absurd (omega arith)
collect_codes-leaves (suc fuel) [] table h = refl
collect_codes-leaves (suc fuel) (leaf ch weight code ∷ help) table h =
    collect_codes-leaves fuel help (insert ch code table) (omega arith)
collect_codes-leaves (suc fuel) (node left right weight ∷ help) table h =
    collect_codes-leaves fuel (left ∷ right ∷ help) table (omega arith)
    ∙ ap (λ ls. some (insert_all ls table))
        (sym (append_assoc (leaves left) (leaves right) (all_leaves help)))

abbrev HasKey : ℕ → List (ℕ × List Bool) → Type 0
HasKey c [] = ⊥
HasKey c (l ∷ ls) = (l.0 ≡ c) ⊎ HasKey c ls

HasKey-append :
    (c : ℕ) (ls ms : List (ℕ × List Bool)) → HasKey c ls ⊎ HasKey c ms → HasKey c (ls ++ ms)
HasKey-append c [] ms (inl h) = absurd h
HasKey-append c [] ms (inr h) = h
HasKey-append c (l ∷ ls) ms (inl (inl h)) = inl h
HasKey-append c (l ∷ ls) ms (inl (inr h)) = inr (HasKey-append c ls ms (inl h))
HasKey-append c (l ∷ ls) ms (inr h) = inr (HasKey-append c ls ms (inr h))

leaves-HasKey : (c : ℕ) (t : TreeNode) → HasLeaf c t → HasKey c (leaves t)
unfolding leaves
leaves-HasKey c (leaf ch weight code) h = inl h
leaves-HasKey c (node left right weight) (inl h) =
    HasKey-append c (leaves left) (leaves right) (inl (leaves-HasKey c left h))
leaves-HasKey c (node left right weight) (inr h) =
    HasKey-append c (leaves left) (leaves right) (inr (leaves-HasKey c right h))

-- What holds of each entry holds of whatever is found under a key.
insert_all-lookup :
    (P : ℕ → List Bool → Type 0) (ls : List (ℕ × List Bool)) (table : CodingTable) (c : ℕ)
    → All (λ l. P l.0 l.1) ls
    → HasKey c ls ⊎ P c (table c)
    → P c (insert_all ls table c)
insert_all-lookup P [] table c h (inl k) = absurd k
insert_all-lookup P [] table c h (inr k) = k
insert_all-lookup P (l ∷ ls) table c (hl, h) k = elim (Bool-cases (c == l.0)) [
  | inl same ↦
      insert_all-lookup P ls (insert l.0 l.1 table) c h
        (inr (rw same (rw ((==_iff c l.0).0 same) hl)))
  | inr other ↦ insert_all-lookup P ls (insert l.0 l.1 table) c h (elim k [
    | inl (inl e) ↦ cc (other, (==_iff c l.0).1 (sym e))
    | inl (inr k') ↦ inl k'
    | inr p ↦ inr (rw other p)
  ])
]

-- The code found for a byte with a leaf is the way to a leaf for it.
table-IsCode :
    (t : TreeNode) (c : ℕ)
    → HasLeaf c t
    → let root = generate_coding t [] in IsCode root (insert_all (leaves root) empty_table c) c
table-IsCode t c h =
    let root = generate_coding t [] in
    insert_all-lookup (λ c code. IsCode root code c) (leaves root) empty_table c (leaves-IsCode t)
      (inl (leaves-HasKey c root (HasLeaf-generate_coding t [] c h)))

pub collect_codes-root :
    (root : TreeNode)
    → collect_codes (node_count root) (root ∷ []) empty_table
      ≡ some (insert_all (leaves root) empty_table)
collect_codes-root root =
    collect_codes-leaves (node_count root) (root ∷ []) empty_table (omega arith)
    ∙ ap (λ ls. some (insert_all ls empty_table)) (append-nil (leaves root))

module _ (pq : PriorityQueue) (L : IsLawful pq) (src_file dst_file : List ℕ) where
  -- With two nodes at least the table is made, with no failing call or change of the files: the
  -- tree has children at its root, and every byte with a node has for its code the way to a leaf.
  pub generate_coding_table_lem :
      (counts : Counts)
      → 1 < present counts
      → (root : TreeNode) × (table : CodingTable) × (build_huffman pq counts ≡ some (some root))
        × IsNode root
        × ((c : ℕ) → HasEntry c counts → IsCode root (table c) c)
        × ((rest whole out : List ℕ) (pos : ℕ)
            → generate_coding_table pq src_file dst_file counts (streams rest whole out pos)
              ≡ ok table (streams rest whole out pos))
  unfolding generate_coding_table
  generate_coding_table_lem counts two =
      let (t, e, n, has) = build_huffman-some pq L counts two in
      let root = generate_coding t [] in
      let table = insert_all (leaves root) empty_table in
      (
        root,
        table,
        e,
        IsNode-generate_coding t [] n,
        λ c k. table-IsCode t c (has c k),
        λ rest whole out pos. rw e (rw (collect_codes-root root) refl),
      )

-- Whether the second list of bits starts with the first.
abbrev pub is_prefix : List Bool → List Bool → Bool
is_prefix [] r = true
is_prefix (a ∷ p) [] = false
is_prefix (true ∷ p) (true ∷ r) = is_prefix p r
is_prefix (true ∷ p) (false ∷ r) = false
is_prefix (false ∷ p) (true ∷ r) = false
is_prefix (false ∷ p) (false ∷ r) = is_prefix p r

is_prefix→append : (p r : List Bool) → is_prefix p r ≡ true → (q : List Bool) × (r ≡ p ++ q)
is_prefix→append [] r h = (r, refl)
is_prefix→append (a ∷ p) [] h = absurd (grind (arith, h))
is_prefix→append (true ∷ p) (true ∷ r) h =
    let (q, e) = is_prefix→append p r h in (q, ap (λ bits. true ∷ bits) e)
is_prefix→append (true ∷ p) (false ∷ r) h = absurd (grind (arith, h))
is_prefix→append (false ∷ p) (true ∷ r) h = absurd (grind (arith, h))
is_prefix→append (false ∷ p) (false ∷ r) h =
    let (q, e) = is_prefix→append p r h in (q, ap (λ bits. false ∷ bits) e)

-- For every lawful priority queue, counts of two nodes at least, and two different bytes that have
-- nodes: `GenerateCodingTable` makes a table, and calls nothing, in which the code of the one is no
-- prefix of the code of the other.
pub generate_coding_table_prefix_free :
    (pq : PriorityQueue) (L : IsLawful pq) (src_file dst_file : List ℕ) (counts : Counts)
    → 1 < present counts
    → (c d : ℕ) → c ≢ d
    → HasEntry c counts
    → HasEntry d counts
    → (rest whole out : List ℕ) (pos : ℕ)
    → (table : CodingTable) × (generate_coding_table pq src_file dst_file counts
          (streams rest whole out pos)
        ≡ ok table (streams rest whole out pos))
      × (is_prefix (table c) (table d) ≡ false)
generate_coding_table_prefix_free pq L src_file dst_file counts two c d differ hc hd rest whole out
      pos =
    let (root, table, built, n, leads, made) =
      generate_coding_table_lem pq L src_file dst_file counts two in
    (
      table,
      made rest whole out pos,
      elim (Bool-cases (is_prefix (table c) (table d))) [
        | inr apart ↦ apart
        | inl starts ↦
            let (q, e) = is_prefix→append (table c) (table d) starts in
            absurd
              (differ (IsCode-prefix root (table c) q c d (leads c hc) (rw e at (leads d hd))).1)
      ],
    )

-- ===== src/Archive/Forest.antt =====
-- src/packer.cpp: `Pack` on a directory with what stands below it, at any depth.
pub mod Packed
pub mod Placed
pub mod Unpacked
pub mod RoundTrip
use data_backup.Base.{
  ℕ, zero, suc, ◌+◌, ◌<◌, ◌≤◌, ◌≡◌, refl, ap, ◌∙◌, sym, Bool, true, false, List, [], ◌∷◌, ◌++◌,
  Option, All, ◌≢◌, none, some, length, append_assoc, append-nil, take, str_eq, ◌||◌, ltb, arith,
  replicate,
}
use data_backup.Io.{Io, Outcome, Streams, ok, streams, codes, bind, close_or_throw, close}
use data_backup.Archive.Header.{Header, c_string}
use data_backup.Archive.Written.{IsSerializable, header_bytes}
use data_backup.Archive.Pack.{
  my_block_size, SourceTree, Stat, is_dir, is_reg, is_fifo, is_lnk, parse_header, pack_entries,
  pack_dir, pack_link, pack_stat, pack, path_max, restore_access_time,
}
use data_backup.Archive.Regular.{HasBlocks, block_bytes, write_header_lem, pack_regular_lem}
use data_backup.Archive.Single.{reg→not_dir, parse_header-HasBlocks}

-- A file that is no directory, with what it holds.
pub data Leaf : Type 0 where
  regular_file : Stat → List ℕ → Leaf
  fifo_file : Stat → Leaf
  link_file : Stat → List ℕ → Leaf

-- The names of a directory in a row, each with what it names; "." and ".." are passed over.
pub data Forest : Type 0 where
  done : Forest
  passed : List ℕ → Forest → Forest
  leaf : List ℕ → Leaf → Forest → Forest
  sub : List ℕ → Stat → Forest → Forest → Forest

abbrev pub names_of : Forest → List (List ℕ)
names_of done = []
names_of (passed name f) = name ∷ names_of f
names_of (leaf name l f) = name ∷ names_of f
names_of (sub name st g f) = name ∷ names_of f

-- What an archive holds for one file: a header, and the bytes of a regular file.
pub record Item : Type 0 where
  pub header : Header
  pub body : List ℕ

abbrev pub item_bytes : Item → List ℕ
item_bytes i = header_bytes i.header ++ block_bytes i.header i.body

abbrev pub all_bytes : List Item → List ℕ
all_bytes [] = []
all_bytes (i ∷ is) = item_bytes i ++ all_bytes is

pub all_bytes-append : (is js : List Item) → all_bytes (is ++ js) ≡ all_bytes is ++ all_bytes js
all_bytes-append [] js = refl
all_bytes-append (i ∷ is) js =
    ap (λ t. item_bytes i ++ t) (all_bytes-append is js)
    ∙ sym (append_assoc (item_bytes i) (all_bytes is) (all_bytes js))

abbrev pub child_path : List ℕ → List ℕ → List ℕ
child_path dir name = dir ++ codes "/" ++ name

abbrev pub is_hidden : List ℕ → Bool
is_hidden name = str_eq name (codes ".") || str_eq name (codes "..")

module _ (parent : List ℕ) where
  abbrev pub link_header : List ℕ → Stat → List ℕ → Header
  link_header path st target =
      let ln_path = c_string (take path_max target) in
      record (parse_header parent path st) { ln_path = ln_path; ln_path_len = length ln_path }

  abbrev pub leaf_item : List ℕ → Leaf → Item
  leaf_item path (regular_file st xs) = record { header = parse_header parent path st; body = xs }
  leaf_item path (fifo_file st) = record { header = parse_header parent path st; body = [] }
  leaf_item path (link_file st target) = record { header = link_header path st target; body = [] }

  abbrev pub dir_item : List ℕ → Stat → Item
  dir_item path st = record { header = parse_header parent path st; body = [] }

  -- A directory comes before what stands below it.
  abbrev pub items : List ℕ → Forest → List Item
  items dir done = []
  items dir (passed name f) = items dir f
  items dir (leaf name l f) = leaf_item (child_path dir name) l ∷ items dir f
  items dir (sub name st g f) =
      dir_item (child_path dir name) st ∷ (items (child_path dir name) g ++ items dir f)

  module _ (tree : SourceTree) where
    -- A regular file has one link.
    abbrev pub IsLeaf : List ℕ → Leaf → Type 0
    IsLeaf path (regular_file st xs) =
        (tree.lstat path ≡ some st)
        × (tree.contents path ≡ some xs)
        × (is_reg st.st_mode ≡ true)
        × (st.st_nlink ≤ 1)
        × (st.st_size ≡ length xs)
        × IsSerializable (parse_header parent path st)
    IsLeaf path (fifo_file st) =
        (tree.lstat path ≡ some st)
        × (is_fifo st.st_mode ≡ true)
        × IsSerializable (parse_header parent path st)
    IsLeaf path (link_file st target) =
        (tree.lstat path ≡ some st)
        × (is_lnk st.st_mode ≡ true)
        × (tree.target path ≡ some target)
        × (length target ≤ path_max)
        × All (λ b. b ≢ 0) target
        × IsSerializable (link_header path st target)

    -- A directory whose names are those of a forest.
    abbrev pub IsDir : List ℕ → Stat → Forest → Type 0
    IsDir path st g =
        (tree.lstat path ≡ some st)
        × (is_dir st.st_mode ≡ true)
        × (tree.names path ≡ some (names_of g))
        × IsSerializable (parse_header parent path st)

    -- What the file system holds below a directory, in less than so many levels.
    abbrev pub IsForest : ℕ → List ℕ → Forest → Type 0
    IsForest n dir done = Unit {0}
    IsForest n dir (passed name f) = (is_hidden name ≡ true) × IsForest n dir f
    IsForest zero dir (leaf name l f) = ⊥
    IsForest (suc n) dir (leaf name l f) =
        (is_hidden name ≡ false) × IsLeaf (child_path dir name) l × IsForest (suc n) dir f
    IsForest zero dir (sub name st g f) = ⊥
    IsForest (suc n) dir (sub name st g f) =
        (is_hidden name ≡ false)
        × IsDir (child_path dir name) st g
        × IsForest n (child_path dir name) g
        × IsForest (suc n) dir f

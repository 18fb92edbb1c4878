-- ===== src/Archive/Forest/Packed.antt =====
-- src/packer.cpp: the archive that `Pack` writes for a directory.
use data_backup.Base.{
  ℕ, zero, suc, ◌≡◌, refl, ap, ◌∙◌, sym, true, false, List, [], ◌∷◌, ◌++◌, length, replicate,
  append_assoc, append-nil, ltb, arith,
}
use data_backup.Io.{Io, Streams, ok, streams, close_or_throw, close}
use data_backup.Archive.Header.{Header}
use data_backup.Archive.Written.{header_bytes}
use data_backup.Archive.Pack.{
  my_block_size, SourceTree, Stat, is_dir, is_reg, is_fifo, is_lnk, parse_header, pack_entries,
  pack_dir, pack_link, pack_stat, pack, restore_access_time,
}
use data_backup.Archive.Regular.{block_bytes, write_header_lem, pack_regular_lem}
use data_backup.Archive.Single.{reg→not_dir, parse_header-HasBlocks}
use data_backup.Archive.Forest.{
  Leaf, regular_file, fifo_file, link_file, Forest, done, passed, leaf, sub, names_of, item_bytes,
  all_bytes, all_bytes-append, child_path, is_hidden, link_header, leaf_item, dir_item, items,
  IsLeaf, IsDir, IsForest,
}

-- Bytes are added to the archive, no link is remembered, and the source that was read last is open.
abbrev pub Appends : Io Streams (List ℕ) → List ℕ → Type 0
Appends m bytes =
    (rest whole out : List ℕ)
    → (rest' whole' : List ℕ) × (m (streams rest whole out (length out))
        ≡ ok [] (streams rest' whole' (out ++ bytes) (length (out ++ bytes))))

pub fifo→not_reg : (mode : ℕ) → is_fifo mode ≡ true → (is_dir mode ≡ false) × (is_reg mode ≡ false)
fifo→not_reg mode h = (ground arith, ground arith)

pub lnk→others :
    (mode : ℕ)
    → is_lnk mode ≡ true
    → (is_dir mode ≡ false) × (is_reg mode ≡ false) × (is_fifo mode ≡ false)
lnk→others mode h = (ground arith, ground arith, ground arith)

pub dir→not_reg : (mode : ℕ) → is_dir mode ≡ true → is_reg mode ≡ false
dir→not_reg mode h = ground arith

-- A header that is not that of a regular file has no blocks.
pub no_padding :
    (parent path : List ℕ) (st : Stat)
    → is_reg st.st_mode ≡ false
    → (parse_header parent path st).padding ≡ 0
unfolding parse_header
no_padding parent path st h = rw h refl

bare :
    (h : Header) (out : List ℕ)
    → h.padding ≡ 0
    → out ++ header_bytes h ≡ out ++ (header_bytes h ++ block_bytes h [])
bare h out e =
    ap (λ bytes. out ++ bytes) (sym (append-nil (header_bytes h)))
    ∙ ap (λ k. out ++ (header_bytes h ++ ([] ++ replicate k 0))) (sym e)

module _ (parent : List ℕ) (tree : SourceTree) (uninit : List ℕ) (fd : ℕ)
    (lu : length uninit ≡ my_block_size) where
  pack_leaf :
      (n : ℕ) (path : List ℕ) (l : Leaf)
      → IsLeaf parent tree path l
      → Appends (pack tree parent uninit fd (suc n) path []) (item_bytes (leaf_item parent path l))
  unfolding pack pack_stat pack_link
  pack_leaf n path (regular_file st xs) (e, c, kind, one, size, v) rest whole out =
      let few : ltb 1 st.st_nlink ≡ false = ground (arith, one) in
      (
        [],
        xs,
        rw e (
            rw (reg→not_dir st.st_mode kind, kind)
              (pack_regular_lem tree parent uninit fd path xs st (parse_header parent path st) []
                rest whole out few c v (parse_header-HasBlocks parent path st xs kind size) lu)),
      )
  pack_leaf n path (fifo_file st) (e, kind, v) rest whole out =
      let (d, r) = fifo→not_reg st.st_mode kind in
      let h = parse_header parent path st in
      (
        rest,
        whole,
        rw e (
            rw (d, r, kind)
              (rw (write_header_lem tree parent uninit fd path h rest whole out v) (
                ap (λ bytes. ok [] (streams rest whole bytes (length bytes)))
                  (bare h out (no_padding parent path st r))))),
      )
  pack_leaf n path (link_file st target) (e, kind, t, short, text, v) rest whole out =
      let (d, r, p) = lnk→others st.st_mode kind in
      let h = link_header parent path st target in
      (
        rest,
        whole,
        rw e (
            rw (d, r, p, kind)
              (rw t (
                rw (write_header_lem tree parent uninit fd path h rest whole out v) (
                  ap (λ bytes. ok [] (streams rest whole bytes (length bytes)))
                    (bare h out (no_padding parent path st r)))))),
      )

  -- `PackDir` around the entries.
  pub pack_sub :
      (n : ℕ) (path : List ℕ) (st : Stat) (g : Forest)
      → IsDir parent tree path st g
      → Appends
          (pack_entries tree parent uninit fd (pack tree parent uninit fd n) path (names_of g) [])
          (all_bytes (items parent path g))
      → Appends
          (pack tree parent uninit fd (suc n) path [])
          (all_bytes (dir_item parent path st ∷ items parent path g))
  unfolding pack pack_stat pack_dir close_or_throw close restore_access_time
  pack_sub n path st g (e, kind, names, v) entries rest whole out =
      let h = parse_header parent path st in
      let (rest', whole', e') = entries rest whole (out ++ header_bytes h) in
      (
        rest',
        whole',
        rw e (
            rw kind (
              rw (write_header_lem tree parent uninit fd path h rest whole out v) (
                rw names (
                  rw e' (
                    ap (λ bytes. ok [] (streams rest' whole' bytes (length bytes)))
                      (ap (λ bytes. bytes ++ all_bytes (items parent path g))
                          (bare h out (no_padding parent path st (dir→not_reg st.st_mode kind)))
                        ∙ append_assoc out (item_bytes (dir_item parent path st))
                            (all_bytes (items parent path g)))))))),
      )

  -- One file, and the names behind it.
  pack_then :
      (child : List ℕ → List ℕ → Io Streams (List ℕ)) (dir name : List ℕ) (f : Forest)
      (bytes more : List ℕ)
      → is_hidden name ≡ false
      → Appends (child (child_path dir name) []) bytes
      → Appends (pack_entries tree parent uninit fd child dir (names_of f) []) more
      → Appends
          (pack_entries tree parent uninit fd child dir (name ∷ names_of f) [])
          (bytes ++ more)
  unfolding pack_entries
  pack_then child dir name f bytes more shown first others rest whole out =
      let (rest1, whole1, e1) = first rest whole out in
      let (rest2, whole2, e2) = others rest1 whole1 (out ++ bytes) in
      (
        rest2,
        whole2,
        rw shown (
            rw e1 (
              e2
              ∙ ap (λ bs. ok [] (streams rest2 whole2 bs (length bs)))
                  (append_assoc out bytes more))),
      )

  pub pack_forest :
      (n : ℕ) (dir : List ℕ) (f : Forest)
      → IsForest parent tree n dir f
      → Appends
          (pack_entries tree parent uninit fd (pack tree parent uninit fd n) dir (names_of f) [])
          (all_bytes (items parent dir f))
  unfolding pack_entries
  pack_forest n dir done h = λ rest whole out. (
    rest,
    whole,
    ap (λ bytes. ok [] (streams rest whole bytes (length bytes))) (sym (append-nil out)),
  )
  pack_forest n dir (passed name f) (hidden, h) = λ rest whole out.
      let (rest', whole', e) = pack_forest n dir f h rest whole out in (rest', whole', rw hidden e)
  pack_forest zero dir (leaf name l f) h = absurd h
  pack_forest (suc n) dir (leaf name l f) (shown, is, h) =
      pack_then (pack tree parent uninit fd (suc n)) dir name f
        (item_bytes (leaf_item parent (child_path dir name) l)) (all_bytes (items parent dir f))
        shown (pack_leaf n (child_path dir name) l is) (pack_forest (suc n) dir f h)
  pack_forest zero dir (sub name st g f) h = absurd h
  pack_forest (suc n) dir (sub name st g f) (shown, is, below, h) =
      let path = child_path dir name in
      let first = all_bytes (dir_item parent path st ∷ items parent path g) in
      rw (all_bytes-append (dir_item parent path st ∷ items parent path g) (items parent dir f)) (
        pack_then (pack tree parent uninit fd (suc n)) dir name f first
          (all_bytes (items parent dir f)) shown
          (pack_sub n path st g is (pack_forest n path g below)) (pack_forest (suc n) dir f h))

-- ===== src/Archive/Both.antt =====
-- src/packer.cpp and src/unpack.cpp on two names of one regular file in a directory.
use data_backup.Base.{
  ℕ, suc, ◌≡◌, refl, ap, sym, ◌∙◌, false, List, [], ◌∷◌, ◌++◌, some, length, replicate,
  append_assoc, ==_iff, lt→ltb, arith,
}
use data_backup.Io.{ok, streams}
use data_backup.Archive.Header.{Header}
use data_backup.Archive.Written.{header_bytes}
use data_backup.Archive.Pack.{
  my_block_size, SourceTree, Stat, parse_header, pack_regular, pack_stat, pack, pack_entries,
}
use data_backup.World.Files.{regular, Target, can_create}
use data_backup.Archive.Tree.{UnpackState}
use data_backup.Archive.Unpack.{extract}
use data_backup.Archive.Regular.{
  started, HasBlocks, block_bytes, write_header_lem, pack_contents_lem,
}
use data_backup.Archive.Single.{reg→not_dir, parse_header-HasBlocks}
use data_backup.Archive.Links.{AreFree}
use data_backup.Archive.Linked.{ShareCount, extract_both}
use data_backup.Archive.Forest.{child_path, is_hidden}
use data_backup.Archive.Forest.RoundTrip.{name_is, child_is}

-- Two names of a directory, of which `lstat` says that they are one regular file with these bytes.
pub record AreLinked (tree : SourceTree) (parent dir a b : List ℕ) (st st2 : Stat) (xs : List ℕ)
    : Type 0 where
  pub shown : is_hidden a ≡ false
  pub shown2 : is_hidden b ≡ false
  pub stat_is : tree.lstat (child_path dir a) ≡ some st
  pub stat_is2 : tree.lstat (child_path dir b) ≡ some st2
  pub share : ShareCount tree parent (child_path dir a) (child_path dir b) st st2 xs
  pub inode : st2.st_ino ≡ st.st_ino

module _ (tree : SourceTree) (parent dir a b : List ℕ) (st st2 : Stat) (xs : List ℕ)
    (l : AreLinked tree parent dir a b st st2 xs) where
  abbrev path : List ℕ
  path = child_path dir a

  abbrev path2 : List ℕ
  path2 = child_path dir b

  abbrev h : Header
  h = parse_header parent path st

  abbrev h2 : Header
  h2 = parse_header parent path2 st2

  abbrev blocks : HasBlocks h xs
  blocks = parse_header-HasBlocks parent path st xs l.share.kind l.share.size

  -- The bytes of the file stand in the archive once.
  pack_entries_lem :
      (uninit : List ℕ) (fd n : ℕ)
      → length uninit ≡ my_block_size
      → let bytes = header_bytes h ++ (block_bytes h xs ++ header_bytes h2) in
        pack_entries tree parent uninit fd
          (pack tree parent uninit fd (suc n))
          dir
          (a ∷ b ∷ [])
          []
          (streams [] [] [] 0)
        ≡ ok (st.st_nlink ∷ []) (streams [] xs bytes (length bytes))
  unfolding pack_entries pack pack_stat pack_regular
  pack_entries_lem uninit fd n lu =
      rw (l.shown, l.shown2, l.stat_is)
        (rw (reg→not_dir st.st_mode l.share.kind, l.share.kind, lt→ltb 1 st.st_nlink l.share.links)
          (rw (write_header_lem tree parent uninit fd path h [] [] [] l.share.fits) (
            rw
              (pack_contents_lem tree parent uninit fd path xs h [] [] (header_bytes h)
                l.share.bytes_are blocks lu)
              (rw l.stat_is2 (
                rw
                  (
                    reg→not_dir st2.st_mode l.share.kind2,
                    l.share.kind2,
                    lt→ltb 1 st2.st_nlink (omega (arith, l.share.links, l.share.links2)),
                    (==_iff st2.st_nlink st.st_nlink).1 l.share.links2,
                  )
                  (rw
                    (write_header_lem tree parent uninit fd path2 h2 [] xs
                      (header_bytes h ++ block_bytes h xs) l.share.fits2)
                    (rw (append_assoc (header_bytes h)) refl)))))))

-- What is free under two names is free under the same names spelled otherwise.
AreFree-at : (t : Target) (p p' q q' : List ℕ) → p' ≡ p → q' ≡ q → AreFree t p q → AreFree t p' q'
AreFree-at t p p' q q' e e' f = record {
  free = ap t.entry e ∙ f.free;
  may = ap (can_create t) e ∙ f.may;
  may2 = ap (can_create t) e' ∙ f.may2;
  differ = λ same. f.differ (sym e' ∙ same ∙ e);
}

-- For every two names of a directory that name one regular file with link count above 1, whose headers
-- fit their words, and every target where the two names, behind that of the directory below the parent,
-- are free, differ and stand in directories: with no failing call the loop of `PackDir` over the two
-- writes the header of the first, the bytes of the file, filled up with zeros, and the header of the
-- second and nothing more, and the unpacker, given these bytes, ends without an error, and both names
-- are the same new inode, which holds the bytes of the file.
pub extract-pack_entries :
    (tree : SourceTree) (parent base a b : List ℕ) (st st2 : Stat) (xs : List ℕ)
    → AreLinked tree parent (parent ++ base) a b st st2 xs
    → (uninit buf to out : List ℕ) (fd fd' n o : ℕ) (t : Target) → length uninit ≡ my_block_size
    → let dir = parent ++ base in
      let dst = to ++ child_path base a in
      let dst2 = to ++ child_path base b in
      AreFree t dst dst2
      → let h = parse_header parent (child_path dir a) st in
        let h2 = parse_header parent (child_path dir b) st2 in
        let bytes = header_bytes h ++ ((xs ++ replicate h.padding 0) ++ header_bytes h2) in
        (pack_entries tree parent uninit fd
            (pack tree parent uninit fd (suc n))
            dir
            (a ∷ b ∷ [])
            []
            (streams [] [] [] 0)
          ≡ ok (st.st_nlink ∷ []) (streams [] xs bytes (length bytes)))
        × (s' : UnpackState) × (extract buf fd' to (started (streams bytes bytes out o) t)
            ≡ ok tt s')
        × (s'.errs ≡ [])
        × (s'.target.entry dst ≡ some (regular t.next_ino))
        × (s'.target.entry dst2 ≡ some (regular t.next_ino))
        × (s'.target.contents t.next_ino ≡ xs)
extract-pack_entries tree parent base a b st st2 xs l uninit buf to out fd fd' n o t lu f =
    let dir = parent ++ base in
    let e : (parse_header parent (child_path dir a) st).file_path ≡ child_path base a =
      name_is parent tree (child_path dir a) (child_path base a) st
        (child_is parent tree dir base a refl) in
    let e2 : (parse_header parent (child_path dir b) st2).file_path ≡ child_path base b =
      name_is parent tree (child_path dir b) (child_path base b) st2
        (child_is parent tree dir base b refl) in
    let at = ap (λ name. to ++ name) e in
    let at2 = ap (λ name. to ++ name) e2 in
    let (s', run, none_kept, first, second, held) =
      extract_both tree parent uninit fd (child_path dir a) (child_path dir b) st st2 xs l.share
        l.inode buf to out fd' o t (AreFree-at t _ _ _ _ at at2 f) in
    (
      pack_entries_lem tree parent dir a b st st2 xs l uninit fd n lu,
      s',
      run,
      none_kept,
      ap s'.target.entry (sym at) ∙ first,
      ap s'.target.entry (sym at2) ∙ second,
      held,
    )

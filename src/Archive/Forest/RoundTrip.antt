-- ===== src/Archive/Forest/RoundTrip.antt =====
-- src/packer.cpp and src/unpack.cpp on a directory with all that stands below it.
use data_backup.Base.{
  ℕ, zero, suc, ◌≡◌, refl, ap, sym, ◌∙◌, Bool, true, false, ◌==◌, List, [], ◌∷◌, ◌++◌, All,
  append_assoc, drop, drop-append_exact, take_all, length, arith,
}
use data_backup.Io.{ok, streams, codes, fsync, close_or_throw, close}
use data_backup.Archive.Written.{c_string-NoNul}
use data_backup.Archive.Header.{c_string}
use data_backup.Archive.Pack.{
  my_block_size, path_max, SourceTree, Stat, is_dir, is_reg, is_fifo, is_lnk, parse_header,
  parent_path, slash_or, pack_into,
}
use data_backup.World.Files.{Target}
use data_backup.Archive.Unpack.{extract}
use data_backup.Archive.Regular.{started}
use data_backup.Archive.Single.{parse_header-HasBlocks}
use data_backup.Archive.Forest.{
  Leaf, regular_file, fifo_file, link_file, Forest, done, passed, leaf, sub, all_bytes, child_path,
  leaf_item, dir_item, items, IsLeaf, IsDir, IsForest,
}
use data_backup.Archive.Forest.Packed.{
  dir→not_reg, fifo→not_reg, lnk→others, no_padding, pack_sub, pack_forest,
}
use data_backup.Archive.Forest.Placed.{
  folder, Wanted, content_of, wanted, placed_all, AreCreatable, HasWanted, placed_all-HasWanted,
}
use data_backup.Archive.Forest.Unpacked.{TellsOf, AllTell, AllTell-append, extract_each}

-- A path goes on behind the path of its parent.
parent_path-prefix : (path : List ℕ) → (rest : List ℕ) × (path ≡ parent_path path ++ rest)
parent_path-prefix [] = ([], refl)
parent_path-prefix (c ∷ cs) =
    let (rest, e) = parent_path-prefix cs in kept (c == 47) (parent_path cs) rest e
  where
    kept :
        (slash : Bool) (p rest : List ℕ)
        → cs ≡ p ++ rest
        → (rest' : List ℕ) × (c ∷ cs ≡ slash_or slash c p ++ rest')
    kept true p rest e = (rest, ap (λ bs. c ∷ bs) e)
    kept false [] rest e = (c ∷ cs, refl)
    kept false (d ∷ ds) rest e = (rest, ap (λ bs. c ∷ bs) e)

-- The name of a path below its parent.
abbrev pub name_below : List ℕ → List ℕ
name_below path = drop (length (parent_path path)) path

name_below-joins : (path : List ℕ) → path ≡ parent_path path ++ name_below path
name_below-joins path =
    let (rest, e) = parent_path-prefix path in
    let p = parent_path path in
    e ∙ ap (λ n. p ++ n) (sym (ap (drop (length p)) e ∙ drop-append_exact (length p) p rest refl))

module _ (parent : List ℕ) (tree : SourceTree) where
  mode_is : (path : List ℕ) (st : Stat) → (parse_header parent path st).st_mode ≡ st.st_mode
  unfolding parse_header
  mode_is path st = refl

  nlink_is : (path : List ℕ) (st : Stat) → (parse_header parent path st).st_nlink ≡ st.st_nlink
  unfolding parse_header
  nlink_is path st = refl

  -- The name in the archive of a path behind the parent.
  pub name_is :
      (path name : List ℕ) (st : Stat)
      → path ≡ parent ++ name
      → (parse_header parent path st).file_path ≡ name
  unfolding parse_header
  name_is path name st e =
      ap (drop (length parent)) e ∙ drop-append_exact (length parent) parent name refl

  leaf-TellsOf :
      (path name : List ℕ) (l : Leaf)
      → path ≡ parent ++ name
      → IsLeaf parent tree path l
      → TellsOf (leaf_item parent path l) (record { name = name; content = content_of l })
  leaf-TellsOf path name (regular_file st xs) p (e, c, kind, one, size, v) = (
    v,
    name_is path name st p,
    (
      ap is_reg (mode_is path st) ∙ kind,
      omega (arith, one, nlink_is path st),
      parse_header-HasBlocks parent path st xs kind size,
      refl,
    ),
  )
  leaf-TellsOf path name (fifo_file st) p (e, kind, v) =
      let (d, r) = fifo→not_reg st.st_mode kind in
      (
        v,
        name_is path name st p,
        (ap is_fifo (mode_is path st) ∙ kind, no_padding parent path st r, refl),
      )
  leaf-TellsOf path name (link_file st target) p (e, kind, t, short, text, v) =
      let (d, r, f) = lnk→others st.st_mode kind in
      (
        v,
        name_is path name st p,
        (
          ap is_lnk (mode_is path st) ∙ kind,
          no_padding parent path st r,
          refl,
          ap c_string (take_all path_max target short) ∙ c_string-NoNul target text,
        ),
      )

  dir-TellsOf :
      (path name : List ℕ) (st : Stat) (g : Forest)
      → path ≡ parent ++ name
      → IsDir parent tree path st g
      → TellsOf (dir_item parent path st) (record { name = name; content = folder })
  dir-TellsOf path name st g p (e, kind, names, v) = (
    v,
    name_is path name st p,
    (
      ap is_dir (mode_is path st) ∙ kind,
      no_padding parent path st (dir→not_reg st.st_mode kind),
      refl,
    ),
  )

  pub child_is :
      (dir base name : List ℕ)
      → dir ≡ parent ++ base
      → child_path dir name ≡ parent ++ child_path base name
  child_is dir base name e =
      ap (λ d. child_path d name) e
      ∙ ap (λ d. d ++ name) (append_assoc parent base (codes "/"))
      ∙ append_assoc parent (base ++ codes "/") name

  forest-AllTell :
      (n : ℕ) (dir base : List ℕ) (f : Forest)
      → dir ≡ parent ++ base
      → IsForest parent tree n dir f
      → AllTell (items parent dir f) (wanted base f)
  forest-AllTell n dir base done e h = tt
  forest-AllTell n dir base (passed name f) e (hidden, h) = forest-AllTell n dir base f e h
  forest-AllTell zero dir base (leaf name l f) e h = absurd h
  forest-AllTell (suc n) dir base (leaf name l f) e (shown, is, h) = (
    leaf-TellsOf (child_path dir name) (child_path base name) l (child_is dir base name e) is,
    forest-AllTell (suc n) dir base f e h,
  )
  forest-AllTell zero dir base (sub name st g f) e h = absurd h
  forest-AllTell (suc n) dir base (sub name st g f) e (shown, is, below, h) =
      let path = child_path dir name in
      let name' = child_path base name in
      let e' = child_is dir base name e in
      (
        dir-TellsOf path name' st g e' is,
        AllTell-append (items parent path g) (items parent dir f) (wanted name' g) (wanted base f)
            (forest-AllTell n path name' g e' below) (forest-AllTell (suc n) dir base f e h),
      )

-- What stands below the target in the end: the directory under its name, and all that is below it.
abbrev pub all_wanted : List ℕ → Forest → List Wanted
all_wanted src g = record { name = name_below src; content = folder } ∷ wanted (name_below src) g

-- For every directory below which stand regular files of one link, FIFOs, symbolic links to paths of at
-- most 4096 bytes and directories, nested less deep than the fuel, whose headers fit their words, and
-- every target where the name of each, behind the name of the directory, is free in a directory when
-- its turn comes: with no failing call the packer makes an archive of the directory, and the unpacker,
-- given that archive, ends without an error, and then each of these names names a directory, a FIFO, a
-- link to the same path, or a regular file with the same bytes, as its source does.
pub extract-pack_tree :
    (tree : SourceTree) (src : List ℕ) (st : Stat) (g : Forest) (n : ℕ)
    → IsDir (parent_path src) tree src st g
    → IsForest (parent_path src) tree n src g
    → (uninit uninit' dir out : List ℕ) (fd fd' o : ℕ) (t : Target) → length uninit ≡ my_block_size
    → AreCreatable dir (all_wanted src g) t
    → (archive rest whole : List ℕ) × (pack_into tree uninit fd (suc n) src (streams [] [] [] 0)
        ≡ ok tt (streams rest whole archive (length archive)))
      × (t' : Target) × (out' : List ℕ) × (o' : ℕ) × (extract uninit' fd' dir
            (started (streams archive archive out o) t)
          ≡ ok tt (started (streams [] archive out' o') t'))
      × All (HasWanted dir t') (all_wanted src g)
unfolding pack_into fsync close_or_throw close
extract-pack_tree tree src st g n d f uninit uninit' dir out fd fd' o t lu h =
    let parent = parent_path src in
    let is = dir_item parent src st ∷ items parent src g in
    let ws = all_wanted src g in
    let joins = name_below-joins src in
    let (rest, whole, e) =
      pack_sub parent tree uninit fd lu n src st g d
        (pack_forest parent tree uninit fd lu n src g f) [] [] [] in
    let (out', o', e') =
      extract_each uninit' dir out fd' o is ws t
        (
          dir-TellsOf parent tree src (name_below src) st g joins d,
          forest-AllTell parent tree n src (name_below src) g joins f,
        )
        h in
    (
      all_bytes is,
      rest,
      whole,
      rw e refl,
      placed_all dir ws t,
      out',
      o',
      e',
      placed_all-HasWanted dir ws t h,
    )

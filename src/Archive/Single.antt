-- ===== src/Archive/Single.antt =====
-- An archive of one regular file is made and taken apart.
use data_backup.Base.{
  ℕ, zero, suc, ◌+◌, ◌*◌, ◌%◌, ◌≤◌, ◌<◌, ◌≡◌, refl, ap, ◌∙◌, true, false, List, [], drop,
  str_eq_refl, ◌++◌, some, none, length, length-append, replicate, append-nil, ◌==◌, ==_iff,
  Bool-cases, inl, inr, ltb, arith,
}
use data_backup.Io.{ok, streams, close_or_throw, fsync, close}
use data_backup.Archive.Header.{Header}
use data_backup.Archive.Written.{IsSerializable, header_bytes, header-nonempty}
use data_backup.Archive.ReadBack.{deserialize_lem, deserialize_end}
use data_backup.Archive.Pack.{
  my_block_size, round_padding, round_block_num, SourceTree, Stat, is_dir, is_reg, parse_header,
  parent_path, pack_stat, pack, pack_into,
}
use data_backup.World.Files.{regular, Target, can_create}
use data_backup.Archive.Tree.{UnpackState}
use data_backup.Archive.Unpack.{unpack_reg, unpack_one, extract_round, extract_fuel, extract}
use data_backup.Archive.Regular.{
  started, HasBlocks, block_bytes, pack_regular_lem, made, make_regular_lem,
}

pub extract_end :
    (uninit dir : List ℕ) (fd fuel : ℕ)
    → 0 < fuel
    → (whole out : List ℕ) (o : ℕ) (t : Target)
    → extract_fuel uninit fuel fd dir (started (streams [] whole out o) t)
      ≡ ok tt (started (streams [] whole out o) t)
unfolding extract_fuel extract_round
extract_end uninit dir fd zero lt whole out o t = absurd (omega arith)
extract_end uninit dir fd (suc fuel) lt whole out o t = rw (deserialize_end fd whole out o) refl

-- The path names a regular file of one link, with these bytes, that `ParseHeader` can describe.
pub record IsRegularFile (tree : SourceTree) (src : List ℕ) (st : Stat) (xs : List ℕ) : Type 0 where
  pub stat_is : tree.lstat src ≡ some st
  pub bytes_are : tree.contents src ≡ some xs
  pub kind : is_reg st.st_mode ≡ true
  pub one_link : st.st_nlink ≤ 1
  pub size : st.st_size ≡ length xs
  pub fits : IsSerializable (parse_header (parent_path src) src st)

pub reg→not_dir : (mode : ℕ) → is_reg mode ≡ true → is_dir mode ≡ false
reg→not_dir mode h = ground arith

blocks_cover :
    (n : ℕ)
    → (n + round_padding n ≡ round_block_num n * my_block_size) × (round_padding n < my_block_size)
blocks_cover n = elim (Bool-cases (n % my_block_size == 0)) [
  | inl whole ↦ rw whole (ground arith, omega arith)
  | inr partial ↦ rw partial (omega arith, ground arith)
]

pub parse_header-HasBlocks :
    (parent src : List ℕ) (st : Stat) (xs : List ℕ)
    → is_reg st.st_mode ≡ true
    → st.st_size ≡ length xs
    → HasBlocks (parse_header parent src st) xs
unfolding parse_header
parse_header-HasBlocks parent src st xs kind size =
    let (a, b) = blocks_cover (length xs) in rw (kind, size) (record { filled = a; partial = b })

module _ (tree : SourceTree) (src : List ℕ) (st : Stat) (xs : List ℕ)
    (f : IsRegularFile tree src st xs) where
  abbrev h : Header
  h = parse_header (parent_path src) src st

  abbrev blocks : HasBlocks h xs
  blocks = parse_header-HasBlocks (parent_path src) src st xs f.kind f.size

  abbrev pub archive : List ℕ
  archive = header_bytes h ++ block_bytes h xs

  pub pack_into_lem :
      (uninit : List ℕ) (fd fuel : ℕ)
      → length uninit ≡ my_block_size
      → pack_into tree uninit fd (suc fuel) src (streams [] [] [] 0)
        ≡ ok tt (streams [] xs archive (length archive))
  unfolding pack_into pack pack_stat fsync close_or_throw close
  pack_into_lem uninit fd fuel lu =
      let one : ltb 1 st.st_nlink ≡ false = ground (arith, f.one_link) in
      rw f.stat_is (
        rw (reg→not_dir st.st_mode f.kind, f.kind)
          (rw
            (pack_regular_lem tree (parent_path src) uninit fd src xs st h [] [] [] [] one
              f.bytes_are f.fits blocks lu)
            refl))

  abbrev loaded : List ℕ → ℕ → Target → UnpackState
  loaded out o t = started (streams archive archive out o) (t)

  mode_is : h.st_mode ≡ st.st_mode
  unfolding parse_header
  mode_is = refl

  nlink_is : h.st_nlink ≡ st.st_nlink
  unfolding parse_header
  nlink_is = refl

  pub archive-nonempty : 0 < length archive
  archive-nonempty =
      omega (arith, length-append (header_bytes h) (block_bytes h xs), header-nonempty h [])

  unpack_one_lem :
      (uninit dir out : List ℕ) (o : ℕ) (t : Target)
      → t.entry (dir ++ h.file_path) ≡ none
      → can_create t (dir ++ h.file_path) ≡ true
      → unpack_one uninit dir h (started (streams (block_bytes h xs) archive out o) (t))
        ≡ ok tt
            (started (streams [] archive xs (length xs)) (made uninit (dir ++ h.file_path) xs t))
  unfolding unpack_one unpack_reg
  unpack_one_lem uninit dir out o t free may =
      let one : ltb 1 h.st_nlink ≡ false = ground (arith, f.one_link, nlink_is) in
      let reg : is_reg h.st_mode ≡ true = ap is_reg mode_is ∙ f.kind in
      rw (reg→not_dir h.st_mode reg, reg, one)
        (rw (append-nil (replicate {A = ℕ} h.padding 0)) at (
          make_regular_lem uninit h (dir ++ h.file_path) xs [] archive out o t [] [] free may
            blocks))

  pub extract_lem :
      (uninit dir out : List ℕ) (fd o : ℕ) (t : Target)
      → let dst_file = dir ++ h.file_path in
        t.entry dst_file ≡ none
        → can_create t dst_file ≡ true
        → extract uninit fd dir (loaded out o t)
          ≡ ok tt (started (streams [] archive xs (length xs)) (made uninit dst_file xs t))
  unfolding extract extract_fuel extract_round
  extract_lem uninit dir out fd o t free may =
      rw (deserialize_lem h fd [] (block_bytes h xs) out o f.fits) (
        rw (unpack_one_lem uninit dir out o t free may) (
          extract_end uninit dir fd (length archive) (archive-nonempty) archive xs (length xs)
            (made uninit (dir ++ h.file_path) xs t)))

-- For every regular file of one link whose header fits its words, and every target where the name of
-- the file is free in a directory: with no failing call the packer makes an archive of the file, and
-- the unpacker, given that archive, ends without an error and has made a new inode under that name
-- which holds the bytes of the file.
pub extract-pack_into :
    (tree : SourceTree) (src : List ℕ) (st : Stat) (xs : List ℕ)
    → IsRegularFile tree src st xs
    → (uninit uninit' dir out : List ℕ) (fd fd' fuel o : ℕ) (t : Target)
    → length uninit ≡ my_block_size
    → let dst_file = dir ++ drop (length (parent_path src)) src in
      t.entry dst_file ≡ none
      → can_create t dst_file ≡ true
      → (archive : List ℕ) × (pack_into tree uninit fd (suc fuel) src (streams [] [] [] 0)
          ≡ ok tt (streams [] xs archive (length archive)))
        × (t' : Target) × (extract uninit' fd' dir (started (streams archive archive out o) t)
            ≡ ok tt (started (streams [] archive xs (length xs)) t'))
        × (t'.entry dst_file ≡ some (regular t.next_ino))
        × (t'.contents t.next_ino ≡ xs)
        × (t'.next_ino ≡ t.next_ino + 1)
unfolding parse_header
extract-pack_into tree src st xs f uninit uninit' dir out fd fd' fuel o t lu free may =
    let dst_file = dir ++ drop (length (parent_path src)) src in
    (
      archive tree src st xs f,
      pack_into_lem tree src st xs f uninit fd fuel lu,
      made uninit' dst_file xs t,
      extract_lem tree src st xs f uninit' dir out fd' o t free may,
      rw (str_eq_refl dst_file) refl,
      rw ((==_iff t.next_ino t.next_ino).1 refl) refl,
      omega arith,
    )

-- ===== src/Archive/Unpack.antt =====
-- src/unpack.cpp: the files of an archive are made below a directory, one header after another.
pub mod Kept
pub mod Gives
pub mod Taken
pub mod Within
pub mod Rounds
pub mod Ends
use data_backup.Base.{
  ℕ, zero, suc, false, List, [], ◌∷◌, ◌++◌, Option, none, some, length, pos, ltb, ◌==◌,
  if◌then◌else◌,
}
use data_backup.Io.{
  Io, Outcome, ok, throw, throw_value, undefined, stuck, bind, codes, ◌>>=◌, ◌>>◌, raise, throw_if,
  fsync, close,
}
use data_backup.Archive.Header.{Header, Parsed, parsed, at_end, failed, deserialize}
use data_backup.Archive.Pack.{is_dir, is_reg, is_fifo, is_lnk}
use data_backup.Utils.Copy.{copy}
use data_backup.World.Files.{directory, fifo, symbolic, add_entry, entry_or, can_link, set_contents}
use data_backup.Archive.Tree.{UnpackState, error, on_backup, target_call, create, open_regular}

unfoldable pub unpack_dir : List ℕ → Io UnpackState (Unit {0})
unfolding create
unpack_dir dst_file = do
  refused ← create dst_file directory
  throw_if refused (error dst_file (codes "Fail to create directory"))

unfoldable pub unpack_fifo : List ℕ → Io UnpackState (Unit {0})
unfolding create
unpack_fifo dst_file = do
  refused ← create dst_file fifo
  throw_if refused (error dst_file (codes "Fail to create FIFO file"))

unfoldable pub unpack_slnk : Header → List ℕ → Io UnpackState (Unit {0})
unfolding create
unpack_slnk h dst_file = do
  refused ← create dst_file (symbolic h.ln_path)
  throw_if refused (error dst_file (codes "Fail to create symbolic file"))

-- What has been written is what the inode holds.
abbrev pub keep : ℕ → Io UnpackState (Unit {0})
keep ino s = ok tt (record s { target = set_contents ino s.backup.out s.target })

module _ (uninit : List ℕ) where
  -- `fd_dst`, once it is open; `uninit` is what the buffer of `Copy` holds at first.
  unfoldable pub fill_regular : Header → List ℕ → Option ℕ → Io UnpackState (Unit {0})
  fill_regular h dst_file none = raise (error dst_file (codes "Fail to create regular file"))
  fill_regular h dst_file (some ino) = do
    on_backup (copy h false uninit)
    keep ino
    on_backup fsync
    refused ← on_backup close
    throw_if refused (error dst_file (codes "Fail to close regular file"))

  unfoldable pub make_regular : Header → List ℕ → Io UnpackState (Unit {0})
  make_regular h dst_file = do fd_dst ← open_regular dst_file; fill_regular h dst_file fd_dst

  abbrev pub lookup : ℕ → List (ℕ × List ℕ) → Option (List ℕ)
  lookup ino [] = none
  lookup ino ((i, path) ∷ links) = if i == ino then some path else lookup ino links

  -- A file with more than one link: the first is remembered and written, the others are linked.
  unfoldable pub link_regular : Header → List ℕ → Option (List ℕ) → Io UnpackState (Unit {0})
  link_regular h dst_file none s =
      make_regular h dst_file (record s { hard_lk_map = (h.st_ino, dst_file) ∷ s.hard_lk_map })
  link_regular h dst_file (some old) s =
      bind
        (target_call (λ t. can_link t old dst_file)
          (λ t. add_entry dst_file (entry_or (t.entry old)) t) s)
        (λ refused. throw_if refused (error dst_file (codes "Fail to create hard link")))

  unfoldable pub unpack_reg : Header → List ℕ → Io UnpackState (Unit {0})
  unpack_reg h dst_file s =
      if ltb 1 h.st_nlink
      then link_regular h dst_file (lookup h.st_ino s.hard_lk_map) s
      else make_regular h dst_file s

  -- The body of the inner `try`.
  unfoldable pub unpack_one : List ℕ → Header → Io UnpackState (Unit {0})
  unpack_one abs_parent_path h =
      let dst_file = abs_parent_path ++ h.file_path in
      if is_dir h.st_mode
      then unpack_dir dst_file
      else if is_reg h.st_mode
      then unpack_reg h dst_file
      else if is_fifo h.st_mode
      then unpack_fifo dst_file
      else if is_lnk h.st_mode
      then unpack_slnk h dst_file
      else raise (error dst_file (codes "Undefined file type"))

  -- `catch(BaseException *err)`: the error is kept, and the loop goes on.
  abbrev pub caught : Outcome UnpackState (Unit {0}) → Outcome UnpackState (Unit {0})
  caught (ok a s) = ok a s
  caught (throw e s) = ok tt (record s { errs = s.errs ++ e ∷ [] })
  caught (throw_value e s) = throw_value e s
  caught undefined = undefined
  caught stuck = stuck

  unfoldable pub extract_round :
      List ℕ → Io UnpackState (Unit {0}) → Parsed → Io UnpackState (Unit {0})
  extract_round abs_parent_path again (parsed h) s =
      bind (caught (unpack_one abs_parent_path h s)) (λ _. again)
  extract_round abs_parent_path again at_end s = ok tt s
  extract_round abs_parent_path again failed s = ok tt s

  -- The loop of `Extract`; the archive is `fd_backup`.
  unfoldable pub extract_fuel : ℕ → ℕ → List ℕ → Io UnpackState (Unit {0})
  extract_fuel zero fd_backup abs_parent_path = λ _. stuck
  extract_fuel (suc fuel) fd_backup abs_parent_path = do
    r ← on_backup (deserialize (pos fd_backup))
    extract_round abs_parent_path (extract_fuel fuel fd_backup abs_parent_path) r

  -- Each header takes a byte at least.
  unfoldable pub extract : ℕ → List ℕ → Io UnpackState (Unit {0})
  unfolding extract_fuel
  extract fd_backup abs_parent_path s =
      extract_fuel (suc (length s.backup.input)) fd_backup abs_parent_path s

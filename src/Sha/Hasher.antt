-- ===== src/Sha/Hasher.antt =====
-- src/sha_hash.cpp: `Sha256Hasher`.
use data_backup.Base.{
  ℕ, zero, suc, true, false, List, [], ◌∷◌, ◌++◌, Option, none, some, ℤ, pos, length, take, str_eq,
  ◌||◌, not, if◌then◌else◌,
}
use data_backup.Io.{
  Io, Outcome, Streams, ok, throw, throw_value, undefined, stuck, ◌>>=◌, ◌>>◌, pure, codes,
  system_call, write, differs, close,
}
use data_backup.World.Files.{Entry, directory, regular, fifo, symbolic, can_create, fresh_file}
use data_backup.World.Calls.{World, file_call}
use data_backup.Handler.Chain.{Job, on_world, on_sink, modify, new_job}
use data_backup.Archive.Pack.{
  SourceTree, Stat, is_dir, is_reg, is_fifo, is_lnk, path_max, bytes_or_nil,
}
use data_backup.Utils.Paths.{after_last, slash}
use data_backup.Sha.Digest.{Sha256, raise_sha, sha_unless, is_some, sha256_string, sha256_file}

abbrev whole_or : List ℕ → Option (List ℕ) → List ℕ
whole_or path none = path
whole_or path (some name) = name

-- `basename` of the GNU library: what follows the last slash.
unfoldable pub basename : List ℕ → List ℕ
basename path = whole_or path (after_last slash path)

abbrev pub line_of : List ℕ → List ℕ → List ℕ
line_of src text = basename src ++ b' ' ∷ (text ++ b'\n' ∷ [])

unfoldable pub write_line : List ℕ → Io Streams (Unit {0})
write_line line_write = do
  n ← write line_write
  sha_unless (not (differs n (length line_write))) (codes "write failed on dst file")

unfoldable pub restore_access_time : List ℕ → Io Streams (Unit {0})
restore_access_time src_file = do
  failed ← system_call true (λ s. false) (λ s. s)
  sha_unless (not failed) (codes "utimenstat failed on " ++ src_file)

module _ (tree : SourceTree) (sha : Sha256) (uninit : List ℕ) where
  unfoldable pub hash_reg : List ℕ → Io Streams (Unit {0})
  hash_reg src = do
    hash_val ← sha256_file sha uninit src (tree.contents src)
    write_line (line_of src hash_val)
    restore_access_time src

  unfoldable pub hash_fifo : List ℕ → Io Streams (Unit {0})
  hash_fifo src = write_line (line_of src (codes "FIFO"))

  unfoldable pub hash_link : List ℕ → Io Streams (Unit {0})
  hash_link src = do
    target ← system_call none (λ s. tree.target src) (λ s. s)
    sha_unless (is_some target) (codes "readlink failed on " ++ src)
    hash_val ← sha256_string sha uninit (take path_max (bytes_or_nil target))
    write_line (line_of src hash_val)
    restore_access_time src

  -- The rounds of `for(;;)`; each starts with `readdir`, also the last.
  unfoldable pub hash_entries :
      (List ℕ → Io Streams (Unit {0})) → List ℕ → List (List ℕ) → Io Streams (Unit {0})
  hash_entries hash_child src [] = do
    failed ← system_call true (λ s. false) (λ s. s)
    sha_unless (not failed) (codes "readdir failed on " ++ src)
  hash_entries hash_child src (d_name ∷ names) = do
    failed ← system_call true (λ s. false) (λ s. s)
    sha_unless (not failed) (codes "readdir failed on " ++ src)
    (if str_eq d_name (codes ".") || str_eq d_name (codes "..")
        then pure tt
        else hash_child (src ++ codes "/" ++ d_name))
    hash_entries hash_child src names

  unfoldable pub hash_opened :
      (List ℕ → Io Streams (Unit {0})) → List ℕ → Option (List (List ℕ)) → Io Streams (Unit {0})
  hash_opened hash_child src none = raise_sha (codes "opendir failed on " ++ src)
  hash_opened hash_child src (some names) = do
    hash_entries hash_child src names
    failed ← close
    sha_unless (not failed) (codes "closedir failed on " ++ src)
    restore_access_time src

  unfoldable pub hash_dir : (List ℕ → Io Streams (Unit {0})) → List ℕ → Io Streams (Unit {0})
  hash_dir hash_child src = do
    write_line (line_of src (codes "DIR"))
    names ← system_call none (λ s. tree.names src) (λ s. s)
    hash_opened hash_child src names

  -- `Hash` behind its `lstat`. Other kinds of file are passed over.
  unfoldable pub hash_stat :
      (List ℕ → Io Streams (Unit {0})) → List ℕ → Option Stat → Io Streams (Unit {0})
  hash_stat hash_child src none = raise_sha (codes "lstat failed on " ++ src)
  hash_stat hash_child src (some st) =
      if is_dir st.st_mode
      then hash_dir hash_child src
      else if is_reg st.st_mode
      then hash_reg src
      else if is_fifo st.st_mode
      then hash_fifo src
      else if is_lnk st.st_mode
      then hash_link src
      else pure tt

  -- `Hash`, with a unit of fuel for each level of directories.
  unfoldable pub hash : ℕ → List ℕ → Io Streams (Unit {0})
  hash zero src = λ s. stuck
  hash (suc fuel) src = do
    st ← system_call none (λ s. tree.lstat src) (λ s. s)
    hash_stat (hash fuel) src st

  unfoldable pub clear : Io Streams (Unit {0})
  clear = do failed ← close; sha_unless (not failed) (codes "failed to close dst file")

  -- `open(dst, O_WRONLY | O_CREAT, 0777)`: what the file holds stays. Other kinds of file than regular
  -- ones are outside the model.
  unfoldable pub create_entry : List ℕ → Option Entry → Io World (Option ℕ)
  create_entry path none =
      file_call none (λ t. if can_create t path then some t.next_ino else none)
        (λ t. if can_create t path then fresh_file path t else t)
  create_entry path (some directory) = file_call none (λ t. none) (λ t. t)
  create_entry path (some (regular ino)) = file_call none (λ t. some ino) (λ t. t)
  create_entry path (some fifo) = λ w. stuck
  create_entry path (some (symbolic to)) = λ w. stuck

  unfoldable pub open_created : List ℕ → Io World (Option ℕ)
  open_created path w = create_entry path (w.target.entry path) w

  -- `Init` has left this descriptor.
  unfoldable pub hash_into : ℕ → List ℕ → Option ℕ → Io Job (Unit {0})
  hash_into fuel src none = on_sink (raise_sha (codes "open failed on dst file"))
  hash_into fuel src (some sink) = do
    modify (λ j. record j { sink = sink })
    on_sink (do hash fuel src; clear)

  -- `catch(const BaseException &err)`: the errors are kept, and 0 is returned all the same.
  abbrev pub hashed : Outcome Job (Unit {0}) → Outcome World ℤ
  hashed (ok a j) = ok (pos 0) j.world
  hashed (throw e j) = throw e j.world
  hashed (throw_value e j) = ok (pos 0) j.world
  hashed undefined = undefined
  hashed stuck = stuck

  unfoldable pub sha_handle : ℕ → List ℕ → List ℕ → Io World ℤ
  sha_handle fuel src dst w =
      hashed ((do dst_fd ← on_world (open_created dst); hash_into fuel src dst_fd) (new_job w))

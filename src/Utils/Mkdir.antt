-- ===== src/Utils/Mkdir.antt =====
-- src/utils.cpp, `RegPath` and `RecurMkdir`: paths that end with a slash, and a directory with all the
-- directories before it.
pub mod Kept
pub mod Ends
use data_backup.Base.{
  ℕ, zero, suc, ◌+◌, Bool, true, false, List, [], ◌∷◌, ◌++◌, Option, none, some, length, take, drop,
  leb, ◌==◌, not, if◌then◌else◌,
}
use data_backup.Io.{
  Io, BaseException, copy as copy_class, codes, undefined, stuck, ◌>>=◌, ◌>>◌, pure, raise,
  throw_if,
}
use data_backup.World.Files.{
  Entry, directory, regular, fifo, symbolic, can_create, add_entry, is_directory,
}
use data_backup.World.Calls.{World, file_call}

abbrev slash : ℕ
slash = b'/'

abbrev pub last_or : ℕ → List ℕ → ℕ
last_or c [] = c
last_or c (x ∷ xs) = last_or x xs

-- `if ('/' != path.back()) path.push_back('/')`. The source has no test for an empty path and reads
-- outside of it; that case is not in the model: the working directory is never empty, and an empty
-- path names no directory to unpack into.
unfoldable pub reg_path : List ℕ → List ℕ
reg_path path = if last_or 0 path == slash then path else path ++ slash ∷ []

-- How many bytes stand before the first `c`, as `find(...) - iter` counts them.
unfoldable pub index_of : ℕ → List ℕ → ℕ
index_of c [] = 0
index_of c (x ∷ xs) = let rest = index_of c xs in if x == c then 0 else rest + 1

abbrev error : List ℕ → List ℕ → BaseException
error file_nm msg = record { class_of = copy_class; file_nm = file_nm; msg = msg }

abbrev pub wrong_format : List ℕ → BaseException
wrong_format dst = error dst (codes "Wrong format destination")

abbrev pub not_created : List ℕ → BaseException
not_created dst = error dst (codes "Fail to create directory")

-- `0 == access(path, F_OK)`. A symbolic link is outside the model.
unfoldable pub access_entry : Option Entry → Io World Bool
access_entry none = file_call false (λ t. false) (λ t. t)
access_entry (some directory) = file_call false (λ t. true) (λ t. t)
access_entry (some (regular ino)) = file_call false (λ t. true) (λ t. t)
access_entry (some fifo) = file_call false (λ t. true) (λ t. t)
access_entry (some (symbolic to)) = λ w. stuck

unfoldable pub access : List ℕ → Io World Bool
access path w = access_entry (w.target.entry path) w

-- `stat(path, &st_buf)`, unchecked, and `S_ISDIR`: if the call fails, `uninit` is what `st_buf` says.
unfoldable pub stat_is_dir : Bool → List ℕ → Io World Bool
stat_is_dir uninit path = file_call uninit (λ t. is_directory (t.entry path)) (λ t. t)

-- `-1 == mkdir(path, 00775)`
unfoldable pub mkdir : List ℕ → Io World Bool
mkdir path =
    file_call true (λ t. not (can_create t path))
      (λ t. if can_create t path then add_entry path directory t else t)

-- One round: `token` is there and a directory, or is made.
unfoldable pub ensure_dir : Bool → List ℕ → List ℕ → Io World (Unit {0})
ensure_dir uninit dst token = do
  there ← access token
  (if there
      then (do is_dir ← stat_is_dir uninit token; throw_if (not is_dir) (wrong_format dst))
      else (do refused ← mkdir token; throw_if refused (not_created dst)))

-- The loop: `rest` are the bytes from `iter` on. Each round takes one of them at least.
unfoldable pub mkdir_loop : ℕ → Bool → List ℕ → List ℕ → ℕ → Io World (Unit {0})
mkdir_loop zero uninit dst rest global_offset = λ w. stuck
mkdir_loop (suc fuel) uninit dst [] global_offset = pure tt
mkdir_loop (suc fuel) uninit dst (c ∷ cs) global_offset =
    let local_offset = index_of slash (c ∷ cs) in
    let next_offset = global_offset + (local_offset + 1) in
    let again = mkdir_loop fuel uninit dst (drop (local_offset + 1) (c ∷ cs)) next_offset in
    if local_offset == 0 then raise (wrong_format dst) else (do
      ensure_dir uninit dst (take next_offset dst)
      if leb (length dst) next_offset then pure tt else again)

-- The iterator of an empty path cannot be moved.
unfoldable pub recur_mkdir : Bool → List ℕ → Io World (Unit {0})
recur_mkdir uninit [] = λ w. undefined
recur_mkdir uninit (c ∷ cs) = mkdir_loop (suc (length cs)) uninit (c ∷ cs) cs 0

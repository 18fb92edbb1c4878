-- ===== src/Archive/Pack.antt =====
-- src/packer.cpp: a header for each file below a path, and the blocks of the regular ones.
use data_backup.Base.{
  ℕ, zero, suc, ◌+◌, ◌-◌, ◌/◌, ◌%◌, ℤ, pos, negsuc, Bool, true, false, List, [], ◌∷◌, ◌++◌, Option,
  none, some, length, take, drop, replicate, str_eq, ◌||◌, ◌&&◌, pos, ltb, ◌==◌, not, if◌then◌else◌,
}
use data_backup.Io.{
  Io, Streams, BaseException, pack as pack_class, new_exception, codes, ◌>>=◌, ◌>>◌, pure, raise,
  throw_if, system_call, read, write_exactly, close_or_throw, fsync, stuck, is_failure,
}
use data_backup.Archive.Header.{Timespec, Header, serialize, c_string}

abbrev pub my_block_size : ℕ
my_block_size = 512

-- The members of `struct stat` that the code reads.
pub record Stat : Type 0 where
  pub st_ino : ℕ
  pub st_mode : ℕ
  pub st_nlink : ℕ
  pub st_uid : ℕ
  pub st_gid : ℕ
  pub st_size : ℕ
  pub st_atim : Timespec
  pub st_mtim : Timespec

-- The macros `S_ISDIR` and so on: bits 12 to 15 of the mode.
abbrev pub is_dir : ℕ → Bool
is_dir mode = mode / 4096 % 16 == 4

abbrev pub is_reg : ℕ → Bool
is_reg mode = mode / 4096 % 16 == 8

abbrev pub is_fifo : ℕ → Bool
is_fifo mode = mode / 4096 % 16 == 1

abbrev pub is_lnk : ℕ → Bool
is_lnk mode = mode / 4096 % 16 == 10

-- The file system below the source, which does not change during a run. `none` is a failing call:
-- `lstat`, `open`, `readlink`, and `opendir` with the names that `readdir` gives, `.` and `..` among
-- them.
pub record SourceTree : Type 0 where
  pub lstat : List ℕ → Option Stat
  pub contents : List ℕ → Option (List ℕ)
  pub target : List ℕ → Option (List ℕ)
  pub names : List ℕ → Option (List (List ℕ))

abbrev pub error : List ℕ → BaseException
error msg = new_exception pack_class msg

abbrev pub round_block_num : ℕ → ℕ
round_block_num st_size =
    if st_size % my_block_size == 0 then st_size / my_block_size else st_size / my_block_size + 1

abbrev pub round_padding : ℕ → ℕ
round_padding st_size =
    if st_size % my_block_size == 0 then 0 else my_block_size - st_size % my_block_size

-- `ParseHeader`, for a path that starts with `abs_parent_path_`.
unfoldable pub parse_header : List ℕ → List ℕ → Stat → Header
parse_header abs_parent_path src_file st =
    let file_path = drop (length abs_parent_path) src_file in
    record {
      file_path = file_path;
      ln_path = [];
      file_path_len = length file_path;
      ln_path_len = 0;
      st_ino = st.st_ino;
      st_mode = st.st_mode;
      st_nlink = st.st_nlink;
      st_uid = st.st_uid;
      st_gid = st.st_gid;
      st_atime = st.st_atim;
      st_mtime = st.st_mtim;
      block_num = if is_reg st.st_mode then round_block_num st.st_size else 0;
      padding = if is_reg st.st_mode then round_padding st.st_size else 0;
    }

-- Bytes written over the start of a buffer.
abbrev pub overlay : List ℕ → List ℕ → List ℕ
overlay bytes buf = bytes ++ drop (length bytes) buf

-- What a round does with the result of its `read`; `again` are the rounds behind it. The last block
-- is filled up with zeros, any other keeps what the buffer held.
unfoldable pub block_round :
    List ℕ
    → Bool
    → (List ℕ → Io Streams (Unit {0}))
    → List ℕ
    → Option (List ℕ)
    → Io Streams (Unit {0})
block_round src_file is_last again buf none = raise (error (codes "read failed on " ++ src_file))
block_round src_file is_last again buf (some []) =
    raise (error (codes "read failed on " ++ src_file))
block_round src_file is_last again buf (some (b ∷ bs)) =
    let filled =
      if is_last then overlay (b ∷ bs) (replicate my_block_size 0) else overlay (b ∷ bs) buf in
    write_exactly filled (error (codes "write failed: " ++ src_file)) >> again filled

-- The loop over `data_block_buf`, whose first contents are whatever the stack held.
unfoldable pub pack_blocks : List ℕ → ℕ → List ℕ → Io Streams (Unit {0})
pack_blocks src_file zero buf = pure tt
pack_blocks src_file (suc n) buf = do
  bytes ← read my_block_size
  block_round src_file (n == 0) (pack_blocks src_file n) buf bytes

abbrev pub bytes_or_nil : Option (List ℕ) → List ℕ
bytes_or_nil none = []
bytes_or_nil (some xs) = xs

abbrev pub is_minus_one : ℤ → Bool
is_minus_one (pos n) = false
is_minus_one (negsuc n) = n == 0

abbrev pub path_max : ℕ
path_max = 4096

abbrev pub member : ℕ → List ℕ → Bool
member n [] = false
member n (x ∷ xs) = n == x || member n xs

module _ (tree : SourceTree) (abs_parent_path uninit : List ℕ) (dst_fd : ℕ) where
  unfoldable pub write_header : List ℕ → Header → Io Streams (Unit {0})
  write_header src_file header = do
    r ← serialize header (pos dst_fd)
    throw_if (is_minus_one r) (error (codes "write header failed: " ++ src_file))

  unfoldable pub restore_access_time : List ℕ → Io Streams (Unit {0})
  restore_access_time src_file = do
    failed ← system_call true (λ s. false) (λ s. s)
    throw_if failed (error (codes "utimenstat failed on " ++ src_file))

  -- `open` puts the source at the start of the file.
  abbrev pub opened : Option (List ℕ) → Streams → Streams
  opened none s = s
  opened (some xs) s = record s { input = xs; whole = xs }

  unfoldable pub pack_contents : List ℕ → Header → Io Streams (Unit {0})
  pack_contents src_file header = do
    contents ← system_call none (λ s. tree.contents src_file) (opened (tree.contents src_file))
    throw_if (is_failure contents) (error (codes "open failed on " ++ src_file))
    pack_blocks src_file header.block_num uninit
    close_or_throw (error (codes "close failed on " ++ src_file))
    restore_access_time src_file

  -- `hard_link_set_` holds link counts.
  unfoldable pub pack_regular : List ℕ → Stat → Header → List ℕ → Io Streams (List ℕ)
  pack_regular src_file st header hard_link_set =
      let linked = ltb 1 st.st_nlink in
      let is_hard_link = linked && member st.st_nlink hard_link_set in
      let hard_link_set' =
        if linked && not is_hard_link then st.st_nlink ∷ hard_link_set else hard_link_set in
      (do
        write_header src_file header
        if is_hard_link then pure tt else pack_contents src_file header
        pure hard_link_set')

  unfoldable pub pack_link : List ℕ → Header → Io Streams (Unit {0})
  pack_link src_file header = do
    target ← system_call none (λ s. tree.target src_file) (λ s. s)
    throw_if (is_failure target) (error (codes "readlink failed on " ++ src_file))
    let ln_path = c_string (take path_max (bytes_or_nil target))
    write_header src_file (record header { ln_path = ln_path; ln_path_len = length ln_path })

  -- The rounds of `for(;;)`; each starts with `readdir`, also the last.
  unfoldable pub pack_entries :
      (List ℕ → List ℕ → Io Streams (List ℕ))
      → List ℕ
      → List (List ℕ)
      → List ℕ
      → Io Streams (List ℕ)
  pack_entries pack_child src_file [] hard_link_set = do
    failed ← system_call true (λ s. false) (λ s. s)
    throw_if failed (error (codes "readdir failed on " ++ src_file))
    pure hard_link_set
  pack_entries pack_child src_file (d_name ∷ names) hard_link_set = do
    failed ← system_call true (λ s. false) (λ s. s)
    throw_if failed (error (codes "readdir failed on " ++ src_file))
    hard_link_set' ←
        (if str_eq d_name (codes ".") || str_eq d_name (codes "..")
          then pure hard_link_set
          else pack_child (src_file ++ codes "/" ++ d_name) hard_link_set)
    pack_entries pack_child src_file names hard_link_set'

  abbrev pub names_or_nil : Option (List (List ℕ)) → List (List ℕ)
  names_or_nil none = []
  names_or_nil (some names) = names

  unfoldable pub pack_dir :
      (List ℕ → List ℕ → Io Streams (List ℕ)) → List ℕ → Header → List ℕ → Io Streams (List ℕ)
  pack_dir pack_child src_file header hard_link_set = do
    write_header src_file header
    names ← system_call none (λ s. tree.names src_file) (λ s. s)
    throw_if (is_failure names) (error (codes "opendir failed on " ++ src_file))
    hard_link_set' ← pack_entries pack_child src_file (names_or_nil names) hard_link_set
    close_or_throw (error (codes "closedir failed on " ++ src_file))
    restore_access_time src_file
    pure hard_link_set'

  -- `Pack` behind its `lstat`. Other kinds of file are passed over.
  unfoldable pub pack_stat :
      (List ℕ → List ℕ → Io Streams (List ℕ)) → List ℕ → List ℕ → Option Stat → Io Streams (List ℕ)
  pack_stat pack_child src_file hard_link_set none =
      raise (error (codes "lstat failed on " ++ src_file))
  pack_stat pack_child src_file hard_link_set (some st) =
      let header = parse_header abs_parent_path src_file st in
      if is_dir st.st_mode
      then pack_dir pack_child src_file header hard_link_set
      else if is_reg st.st_mode
      then pack_regular src_file st header hard_link_set
      else if is_fifo st.st_mode
      then (write_header src_file header >> pure hard_link_set)
      else if is_lnk st.st_mode
      then (pack_link src_file header >> pure hard_link_set)
      else pure hard_link_set

  -- `Pack`, with a unit of fuel for each level of directories.
  unfoldable pub pack : ℕ → List ℕ → List ℕ → Io Streams (List ℕ)
  pack zero src_file hard_link_set = λ _. stuck
  pack (suc fuel) src_file hard_link_set = do
    st ← system_call none (λ s. tree.lstat src_file) (λ s. s)
    pack_stat (pack fuel) src_file hard_link_set st

abbrev pub slash_or : Bool → ℕ → List ℕ → List ℕ
slash_or true c cs = c ∷ cs
slash_or false c [] = []
slash_or false c (d ∷ ds) = c ∷ d ∷ ds

-- A path up to its last slash.
abbrev pub parent_path : List ℕ → List ℕ
parent_path [] = []
parent_path (c ∷ cs) = slash_or (c == 47) c (parent_path cs)

-- Steps 2 and 3 in the `try` block of `Handle`; `hard_link_set_` has been cleared.
unfoldable pub pack_into : SourceTree → List ℕ → ℕ → ℕ → List ℕ → Io Streams (Unit {0})
pack_into tree uninit dst_fd fuel src = do
  links ← pack tree (parent_path src) uninit dst_fd fuel src []
  fsync
  close_or_throw (error (codes "failed to close dst_fd"))

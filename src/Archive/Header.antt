-- ===== src/Archive/Header.antt =====
-- src/header.cpp: the header of one file in the archive. The getters and setters are the fields.
use data_backup.Base.{
  ℕ, zero, suc, ◌+◌, ◌/◌, ◌%◌, Bool, true, false, List, [], ◌∷◌, ◌++◌, Option, none, some, length,
  take, drop, of_le_bytes, ◌&&◌, ℤ, pos, negsuc, minus_one, le_bytes, leb, ◌==◌, if◌then◌else◌,
}
use data_backup.Io.{Io, Streams, ok, undefined, bind, write, differs}
use data_backup.Archive.Reader.{Reads, ◌>>=◌, give, take_bytes, word, tell, seek_end, seek_set}

pub record Timespec : Type 0 where
  pub tv_sec : ℕ
  pub tv_nsec : ℕ

-- `class Header`; an integer is the bit pattern of its machine word.
pub record Header : Type 0 where
  pub file_path : List ℕ
  pub ln_path : List ℕ
  pub file_path_len : ℕ
  pub ln_path_len : ℕ
  pub st_ino : ℕ
  pub st_mode : ℕ
  pub st_nlink : ℕ
  pub st_uid : ℕ
  pub st_gid : ℕ
  pub st_atime : Timespec
  pub st_mtime : Timespec
  pub block_num : ℕ
  pub padding : ℕ

abbrev pub max_nm_lth : ℕ
max_nm_lth = 256

-- What each `write` of `Serialize` is given before the two paths.
abbrev pub fixed_fields : Header → List (List ℕ)
fixed_fields h =
    le_bytes 8 h.file_path_len
    ∷ le_bytes 8 h.ln_path_len
    ∷ le_bytes 8 h.st_ino
    ∷ le_bytes 4 h.st_mode
    ∷ le_bytes 8 h.st_nlink
    ∷ le_bytes 4 h.st_uid
    ∷ le_bytes 4 h.st_gid
    ∷ (le_bytes 8 h.st_atime.tv_sec ++ le_bytes 8 h.st_atime.tv_nsec)
    ∷ (le_bytes 8 h.st_mtime.tv_sec ++ le_bytes 8 h.st_mtime.tv_nsec)
    ∷ le_bytes 8 h.block_num
    ∷ le_bytes 4 h.padding
    ∷ []

-- The first `n` bytes at `s.c_str()`, of which there are one more than characters.
abbrev pub c_bytes : List ℕ → ℕ → List ℕ
c_bytes s n = take n (s ++ 0 ∷ [])

-- `write(f1) != size1 || write(f2) != size2 || ...`: the first that fails ends the row.
unfoldable pub write_fields : List (List ℕ) → Io Streams ℤ
write_fields [] s = ok (pos 0) s
write_fields (f ∷ fs) s =
    bind (write f s)
      (λ n. if differs n (length f) then (λ s'. ok minus_one s') else write_fields fs)

-- A length beyond the string's end reads foreign memory.
unfoldable pub serialize : Header → ℤ → Io Streams ℤ
serialize h (negsuc fd) s = ok minus_one s
serialize h (pos fd) s =
    if leb h.file_path_len (length h.file_path + 1) && leb h.ln_path_len (length h.ln_path + 1)
    then write_fields
        (fixed_fields h
          ++ c_bytes h.file_path h.file_path_len ∷ c_bytes h.ln_path h.ln_path_len ∷ [])
        s
    else undefined

-- A C string up to its first '\0', as `append(buf)` takes it.
abbrev pub c_string : List ℕ → List ℕ
c_string [] = []
c_string (b ∷ bs) = if b == 0 then [] else b ∷ c_string bs

-- The loop over the whole buffers of a path.
unfoldable pub read_pieces : ℕ → List ℕ → Reads (List ℕ)
read_pieces zero path = give path
read_pieces (suc n) path = do buf ← take_bytes max_nm_lth; read_pieces n (path ++ c_string buf)

-- A path of `len` bytes, in pieces of `MAX_NM_LTH`.
unfoldable pub read_path : ℕ → Reads (List ℕ)
read_path len = do
  path ← read_pieces (len / max_nm_lth) []
  buf ← take_bytes (len % max_nm_lth)
  give (path ++ c_string buf)

unfoldable pub read_timespec : Reads Timespec
read_timespec = do
  bytes ← take_bytes 16
  give (record { tv_sec = of_le_bytes (take 8 bytes); tv_nsec = of_le_bytes (drop 8 bytes) })

unfoldable pub read_header : Reads Header
read_header = do
  file_path_len ← word 8
  ln_path_len ← word 8
  st_ino ← word 8
  st_mode ← word 4
  st_nlink ← word 8
  st_uid ← word 4
  st_gid ← word 4
  st_atime ← read_timespec
  st_mtime ← read_timespec
  block_num ← word 8
  padding ← word 4
  file_path ← read_path file_path_len
  ln_path ← read_path ln_path_len
  give (record {
    file_path = file_path;
    ln_path = ln_path;
    file_path_len = file_path_len;
    ln_path_len = ln_path_len;
    st_ino = st_ino;
    st_mode = st_mode;
    st_nlink = st_nlink;
    st_uid = st_uid;
    st_gid = st_gid;
    st_atime = st_atime;
    st_mtime = st_mtime;
    block_num = block_num;
    padding = padding;
  })

-- What `DeSerialize` returns: 0 with the header set, 1 at the end of the archive, -1 on an error.
pub data Parsed : Type 0 where
  parsed : Header → Parsed
  at_end : Parsed
  failed : Parsed

abbrev pub parsed_or_failed : Option Header → Parsed
parsed_or_failed none = failed
parsed_or_failed (some h) = parsed h

-- The two offsets are compared as numbers, so two failed `lseek`s count as the end.
abbrev pub same_offset : Option ℕ → Option ℕ → Bool
same_offset none none = true
same_offset none (some b) = false
same_offset (some a) none = false
same_offset (some a) (some b) = a == b

unfoldable pub deserialize : ℤ → Io Streams Parsed
deserialize (negsuc fd) s = ok failed s
deserialize (pos fd) s = bind (tell s) λ old_pos s1. bind (seek_end s1) λ end_pos s2.
    if same_offset old_pos end_pos
    then ok at_end s2
    else bind (seek_set old_pos s2) λ _ s3. bind (read_header s3) λ h s4. ok (parsed_or_failed h) s4

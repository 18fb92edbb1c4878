-- ===== src/Utils/Copy.antt =====
-- src/utils.cpp, `Copy`: the data blocks of one file, out of the archive or into it.
use data_backup.Base.{
  ℕ, zero, suc, ◌+◌, ◌-◌, Bool, true, false, List, ◌++◌, Option, none, some, length, take, drop,
  replicate, leb, ◌==◌, if◌then◌else◌,
}
use data_backup.Io.{
  Io, Streams, copy as copy_class, codes, throw_value, undefined, ◌>>=◌, ◌>>◌, pure, system_call,
  read, write, differs,
}
use data_backup.Archive.Header.{Header}

abbrev pub cp_block_size : ℕ
cp_block_size = 512

-- `throw CopyException(...)`: by value, not as a pointer.
abbrev pub throw_copy : {A : Type 0} → Header → List ℕ → Io Streams A
throw_copy h msg s =
    throw_value (record { class_of = copy_class; file_nm = h.file_path; msg = msg }) s

abbrev pub error_writing : {A : Type 0} → Header → Io Streams A
error_writing h = throw_copy h (codes "Error writing when Copying")

unfoldable pub write_block : Header → List ℕ → Io Streams (Unit {0})
unfolding write
write_block h bytes = do
  n ← write bytes
  if differs n (length bytes) then error_writing h else pure tt

-- A negative `buf_lth`: `write` returns -1, which differs from any `buf_lth` but -1.
unfoldable pub write_negative : Header → ℕ → Io Streams (Unit {0})
write_negative h k = do
  system_call tt (λ s. tt) (λ s. s)
  if k == 1 then pure tt else error_writing h

-- The bytes of `buf` in front of `buf_lth`, when `bytes` have just been read into it: the last block
-- is filled up, or its padding is cut off. `memset` must stay inside the 515 bytes of `buf`.
unfoldable pub copy_block : Header → Bool → Bool → List ℕ → List ℕ → Io Streams (Unit {0})
unfolding write_block write_negative
copy_block h padding_on false bytes buf = write_block h bytes
copy_block h false true bytes buf =
    if leb h.padding (length bytes)
    then write_block h (take (length bytes - h.padding) bytes)
    else write_negative h (h.padding - length bytes)
copy_block h true true bytes buf =
    let filled = bytes ++ replicate h.padding 0 in
    if leb (length filled) (cp_block_size + 3)
    then write_block h (take cp_block_size (filled ++ drop (length filled) buf))
    else λ _. undefined

unfoldable pub copy_round :
    Header
    → Bool
    → Bool
    → (List ℕ → Io Streams (Unit {0}))
    → List ℕ
    → Option (List ℕ)
    → Io Streams (Unit {0})
unfolding copy_block
copy_round h padding_on is_last again buf none = throw_copy h (codes "Error reading when Copying")
copy_round h padding_on is_last again buf (some bytes) =
    copy_block h padding_on is_last bytes buf >> again (bytes ++ drop (length bytes) buf)

-- The loop over `buf`, with `n` blocks still to come; `buf` first holds whatever the stack held.
unfoldable pub copy_blocks : Header → Bool → ℕ → List ℕ → Io Streams (Unit {0})
unfolding copy_round
copy_blocks h padding_on zero buf = pure tt
copy_blocks h padding_on (suc n) buf = do
  bytes ← read cp_block_size
  copy_round h padding_on (n == 0) (copy_blocks h padding_on n) buf bytes

unfoldable pub copy : Header → Bool → List ℕ → Io Streams (Unit {0})
copy h padding_on uninit = copy_blocks h padding_on h.block_num uninit

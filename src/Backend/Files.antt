-- ===== src/Backend/Files.antt =====
-- src/backend.cpp: the byte at the end of a backup file says which steps made it.
pub mod Kept
pub mod Flag
use data_backup.Base.{
  ℕ, zero, suc, ◌-◌, Bool, true, false, List, [], ◌∷◌, ◌++◌, Option, none, some, length, take,
  replicate, if◌then◌else◌,
}
use data_backup.Io.{Io, pure, ◌>>=◌, ◌>>◌}
use data_backup.World.Files.{Target, set_contents, Entry, regular}
use data_backup.World.Calls.{World, file_call, open_existing, close_file}

abbrev pub last_byte : List ℕ → Option ℕ
last_byte [] = none
last_byte (b ∷ []) = some b
last_byte (b ∷ c ∷ bs) = last_byte (c ∷ bs)

abbrev pub first_byte : List ℕ → Option ℕ
first_byte [] = none
first_byte (b ∷ bs) = some b

abbrev pub byte_or : ℕ → Option ℕ → ℕ
byte_or d none = d
byte_or d (some b) = b

-- `lseek(fd_src, -1, SEEK_END)`: `true` if the offset is now at the last byte. Before the start of an
-- empty file there is no offset.
abbrev pub is_some : {A : Type 0} → Option A → Bool
is_some none = false
is_some (some a) = true

unfoldable pub seek_last : ℕ → Io World Bool
seek_last ino = file_call false (λ t. is_some (last_byte (t.contents ino))) (λ t. t)

-- `read(fd_src, &flag, 1)` from there, or else from the start; `none` if it does not give a byte.
unfoldable pub read_byte : ℕ → Bool → Io World (Option ℕ)
read_byte ino at_last =
    file_call none
      (λ t. if at_last then last_byte (t.contents ino) else first_byte (t.contents ino)) (λ t. t)

-- `if(sizeof(flag)!=read(...)) if(-1 == close(fd_src)) {}`: closed only if the byte is not there.
unfoldable pub close_unread : Option ℕ → Io World (Unit {0})
close_unread none = do failed ← close_file; pure tt
close_unread (some flag) = pure tt

-- Calls on the descriptor -1 do nothing.
unfoldable pub read_open_flag : Option ℕ → Io World ℕ
read_open_flag none = pure 0
read_open_flag (some ino) = do
  at_last ← seek_last ino
  flag ← read_byte ino at_last
  close_unread flag
  pure (byte_or 0 flag)

-- Step 1 of `HandleDecode`: `flag`, which is 0 unless it is read.
unfoldable pub read_flag : List ℕ → Io World ℕ
read_flag src = do fd_src ← open_existing src; read_open_flag fd_src

abbrev pub size_of : Target → Option Entry → Option ℕ
size_of t none = none
size_of t (some (regular ino)) = some (length (t.contents ino))
size_of t (some e) = some 0

-- A file cut off, or extended by zeros.
abbrev pub resized : ℕ → List ℕ → List ℕ
resized n bytes = take n (bytes ++ replicate (n - length bytes) 0)

abbrev pub resize_entry : Option Entry → ℕ → Target → Target
resize_entry none n t = t
resize_entry (some (regular ino)) n t = set_contents ino (resized n (t.contents ino)) t
resize_entry (some e) n t = t

-- `truncate(src, size - 1)`: a negative size is refused.
unfoldable pub truncate : List ℕ → ℕ → Io World (Unit {0})
truncate src zero = file_call tt (λ t. tt) (λ t. t)
truncate src (suc n) = file_call tt (λ t. tt) (λ t. resize_entry (t.entry src) n t)

-- Step 2: if `stat` fails, `uninit_size` is what `st_buf` says.
unfoldable pub drop_flag : ℕ → List ℕ → Io World (Unit {0})
drop_flag uninit_size src = do
  size ← file_call none (λ t. size_of t (t.entry src)) (λ t. t)
  truncate src (byte_or uninit_size size)

unfoldable pub append_byte : ℕ → Option ℕ → Io World (Unit {0})
append_byte flag none = pure tt
append_byte flag (some ino) = do
  file_call tt (λ t. tt) (λ t. set_contents ino (t.contents ino ++ flag ∷ []) t)
  failed ← close_file
  pure tt

-- `open(path, O_WRONLY | O_APPEND)`, a `write` of the flag and `close`, all unchecked.
unfoldable pub append_flag : List ℕ → ℕ → Io World (Unit {0})
append_flag path flag = do fd_dst ← open_existing path; append_byte flag fd_dst

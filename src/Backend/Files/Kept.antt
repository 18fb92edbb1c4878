-- ===== src/Backend/Files/Kept.antt =====
-- src/backend.cpp, the byte at the end of a backup file: the file system stays sound.
use data_backup.Base.{ℕ, zero, suc, List, Option, none, some}
use data_backup.World.Files.{Entry, directory, regular, fifo, symbolic, Target}
use data_backup.World.Calls.{open_existing, close_file}
use data_backup.World.Safe.{IsSafe, set_contents-IsSafe}
use data_backup.World.Runs.{Preserves, bind-Preserves, then-Preserves}
use data_backup.World.Kept.{
  IsSound, file_call-Leaves, query-Preserves, open_existing-Preserves, close_file-Preserves,
}
use data_backup.Backend.Files.{
  seek_last, read_byte, close_unread, read_open_flag, read_flag, resize_entry, truncate, drop_flag,
  append_byte, append_flag, size_of, byte_or,
}

module _ (t0 : Target) where
  close_unread-Preserves : (flag : Option ℕ) → Preserves (IsSound t0) (close_unread flag)
  unfolding close_unread
  close_unread-Preserves none =
      bind-Preserves (IsSound t0) close_file _ (close_file-Preserves t0) (λ failed w h. h)
  close_unread-Preserves (some flag) = λ w h. h

  read_open_flag-Preserves : (fd : Option ℕ) → Preserves (IsSound t0) (read_open_flag fd)
  unfolding read_open_flag seek_last read_byte
  read_open_flag-Preserves none = λ w h. h
  read_open_flag-Preserves (some ino) =
      bind-Preserves (IsSound t0) (seek_last ino) _ (query-Preserves t0 _ _) λ at_last.
        bind-Preserves (IsSound t0) (read_byte ino at_last) _ (query-Preserves t0 _ _) λ flag.
          then-Preserves (IsSound t0) (close_unread flag) _ (close_unread-Preserves flag) (λ w h. h)

  pub read_flag-Preserves : (src : List ℕ) → Preserves (IsSound t0) (read_flag src)
  unfolding read_flag
  read_flag-Preserves src =
      bind-Preserves (IsSound t0) (open_existing src) _ (open_existing-Preserves t0 src)
        read_open_flag-Preserves

  resize_entry-IsSafe :
      (o : Option Entry) (n : ℕ) (t : Target) → IsSafe t0 t → IsSafe t0 (resize_entry o n t)
  resize_entry-IsSafe none n t h = h
  resize_entry-IsSafe (some directory) n t h = h
  resize_entry-IsSafe (some (regular ino)) n t h = (set_contents-IsSafe t0) ino _ t h
  resize_entry-IsSafe (some fifo) n t h = h
  resize_entry-IsSafe (some (symbolic to)) n t h = h

  truncate-Preserves : (src : List ℕ) (n : ℕ) → Preserves (IsSound t0) (truncate src n)
  unfolding truncate
  truncate-Preserves src zero = (query-Preserves t0) _ _
  truncate-Preserves src (suc n) =
      λ w h. file_call-Leaves t0 _ _ _ w h (resize_entry-IsSafe (w.target.entry src) n w.target h)

  pub drop_flag-Preserves :
      (uninit : ℕ) (src : List ℕ) → Preserves (IsSound t0) (drop_flag uninit src)
  unfolding drop_flag
  drop_flag-Preserves uninit src =
      bind-Preserves (IsSound t0) _ _ (query-Preserves t0 _ (λ t. size_of t (t.entry src)))
        λ size. truncate-Preserves src (byte_or uninit size)

  append_byte-Preserves : (flag : ℕ) (fd : Option ℕ) → Preserves (IsSound t0) (append_byte flag fd)
  unfolding append_byte
  append_byte-Preserves flag none = λ w h. h
  append_byte-Preserves flag (some ino) =
      then-Preserves (IsSound t0) _ _
        (λ w h. file_call-Leaves t0 _ _ _ w h (set_contents-IsSafe t0 ino _ w.target h))
        (bind-Preserves (IsSound t0) close_file _ (close_file-Preserves t0) (λ failed w h. h))

  pub append_flag-Preserves :
      (path : List ℕ) (flag : ℕ) → Preserves (IsSound t0) (append_flag path flag)
  unfolding append_flag
  append_flag-Preserves path flag =
      bind-Preserves (IsSound t0) (open_existing path) _ (open_existing-Preserves t0 path)
        (append_byte-Preserves flag)

-- ===== src/Io/Descriptors.antt =====
-- What the operating system keeps for a handler between `open` and `close`: the source file behind
-- `src_fd_`, the destination file behind `dst_fd_`, and which of the coming system calls fail.
-- A regular file is read in full: `read` returns fewer bytes than asked only at its end.
use data_backup.Base.{
  ℕ, ◌+◌, ◌-◌, Bool, true, false, List, [], ◌∷◌, ◌++◌, Option, none, some, length, take, drop,
  replicate, ◌==◌, not, if◌then◌else◌,
}
use data_backup.Io.Exceptions.{BaseException, ok, Io, ◌>>=◌, throw_if, pure, raise}

pub record Streams : Type 0 where
  -- The source from the file offset on, and the whole source.
  pub input : List ℕ
  pub whole : List ℕ
  -- The bytes of the destination, and its file offset.
  pub out : List ℕ
  pub pos : ℕ
  -- One entry for each coming system call: `true` if it returns -1. The calls behind the end succeed.
  pub faults : List Bool

-- A system call: `failure` is what it returns if it fails, and it then changes nothing.
abbrev pub call_with :
    {A : Type 0} → List Bool → A → (Streams → A) → (Streams → Streams) → Io Streams A
call_with [] failure result effect s = ok (result s) (effect s)
call_with (true ∷ later) failure result effect s = ok failure (record s { faults = later })
call_with (false ∷ later) failure result effect s =
    ok (result s) (record (effect s) { faults = later })

abbrev pub system_call : {A : Type 0} → A → (Streams → A) → (Streams → Streams) → Io Streams A
system_call failure result effect s = call_with s.faults failure result effect s

-- `read(src_fd_, buf, n)`; `none` is -1.
unfoldable pub read : ℕ → Io Streams (Option (List ℕ))
read n = system_call none (λ s. some (take n s.input)) (λ s. record s { input = drop n s.input })

-- The bytes of a file after `bytes` has been written at offset `pos`: a gap is filled with zeros,
-- and a write of nothing does not extend the file.
unfoldable pub write_at : List ℕ → ℕ → List ℕ → List ℕ
write_at out pos [] = out
write_at out pos (b ∷ bs) =
    take pos (out ++ replicate (pos - length out) 0)
    ++ ((b ∷ bs) ++ drop (pos + length (b ∷ bs)) out)

-- `write(dst_fd_, buf, n)` of the `n` bytes of `bytes`; `none` is -1.
unfoldable pub write : List ℕ → Io Streams (Option ℕ)
write bytes =
    system_call none (λ s. some (length bytes))
      (λ s. record s { out = write_at s.out s.pos bytes; pos = s.pos + length bytes })

-- `pwrite(dst_fd_, buf, n, offset)`: the file offset stays.
unfoldable pub pwrite : List ℕ → ℕ → Io Streams (Option ℕ)
pwrite bytes offset =
    system_call none (λ s. some (length bytes))
      (λ s. record s { out = write_at s.out offset bytes })

-- `lseek(src_fd_, 0, SEEK_SET)`
unfoldable pub rewind : Io Streams (Option ℕ)
rewind = system_call none (λ s. some 0) (λ s. record s { input = s.whole })

-- `lseek(dst_fd_, k, SEEK_CUR)`
unfoldable pub seek_cur : ℕ → Io Streams (Option ℕ)
seek_cur k = system_call none (λ s. some (s.pos + k)) (λ s. record s { pos = s.pos + k })

-- `close(fd)`, with `true` for -1.
unfoldable pub close : Io Streams Bool
close = system_call true (λ s. false) (λ s. s)

-- `fsync(fd)`, whose result the code drops.
unfoldable pub fsync : Io Streams (Unit {0})
fsync = system_call tt (λ s. tt) (λ s. s)

-- Whether the `n` bytes asked for were not all transferred.
abbrev pub differs : Option ℕ → ℕ → Bool
differs none n = true
differs (some k) n = not (k == n)

abbrev pub is_failure : {A : Type 0} → Option A → Bool
is_failure none = true
is_failure (some a) = false

-- `if(n != write(dst_fd_, bytes, n)) throw new E`
unfoldable pub write_exactly : List ℕ → BaseException → Io Streams (Unit {0})
unfolding write
write_exactly bytes e = do n ← write bytes; throw_if (differs n (length bytes)) e

-- `if(-1 == close(fd)) throw new E`
unfoldable pub close_or_throw : BaseException → Io Streams (Unit {0})
unfolding close
close_or_throw e = do failed ← close; throw_if failed e

abbrev pub exactly : ℕ → BaseException → Option (List ℕ) → Io Streams (List ℕ)
exactly n e none = raise e
exactly n e (some bytes) = if length bytes == n then pure bytes else raise e

-- `if(n != read(src_fd_, buf, n)) throw new E`
unfoldable pub read_exactly : ℕ → BaseException → Io Streams (List ℕ)
unfolding read
read_exactly n e = do bytes ← read n; exactly n e bytes

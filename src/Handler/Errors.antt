-- ===== src/Handler/Errors.antt =====
-- The handlers of files on a path that names no regular file.
use data_backup.Base.{
  ℕ, ◌≡◌, refl, Bool, true, false, List, Option, none, some, minus_one, or_code, arith,
}
use data_backup.Io.{Io, BaseException, ok, throw, ◌>>◌}
use data_backup.Huffman.{PriorityQueue}
use data_backup.World.Files.{Entry, directory, regular, fifo, symbolic, Target}
use data_backup.World.Calls.{lstat, is_regular}
use data_backup.World.Store.{calm}
use data_backup.Handler.Chain.{
  Job, InitErrors, open_files, handle_alone, handle_in_chain, new_job, is_empty, forward, show_errs,
}
use data_backup.Compress.Handle as CompressHandle
use data_backup.Decompress.Handle as DecompressHandle
use data_backup.Crypt.Openssl.{Openssl}
use data_backup.Crypt.Handle.{
  encrypt_init, encrypt_work, encrypt_handle, decrypt_init, decrypt_work, decrypt_handle,
}

abbrev pub names_file : Option Entry → Bool
names_file none = false
names_file (some e) = is_regular e

module _ (t : Target) (src : List ℕ) (no_file : names_file (t.entry src) ≡ false) where
  -- Nothing has been opened.
  Refused : Io Job (Unit {0}) → Type 0
  Refused m = (e : BaseException) × (m (new_job (calm t)) ≡ throw e (new_job (calm t)))

  open_files-Refused : (e : InitErrors) (name : Option (List ℕ)) → Refused (open_files e src name)
  unfolding open_files lstat Refused
  open_files-Refused e name = by_path (is_empty src) refl
    where
      by_path : (b : Bool) → is_empty src ≡ b → Refused (open_files e src name)
      by_path true eq = (e.bad_path, rw eq refl)
      by_path false eq = by_entry (t.entry src) refl no_file
        where
          by_entry :
              (o : Option Entry)
              → t.entry src ≡ o
              → names_file o ≡ false
              → Refused (open_files e src name)
          by_entry none e' h = (e.missing, rw eq (rw e' refl))
          by_entry (some directory) e' h = (e.not_regular, rw eq (rw e' refl))
          by_entry (some (regular ino)) e' h = absurd (grind (arith, h))
          by_entry (some fifo) e' h = (e.not_regular, rw eq (rw e' refl))
          by_entry (some (symbolic to)) e' h = (e.not_regular, rw eq (rw e' refl))

  then-Refused : (m : Io Job (Unit {0})) (n : Io Job (Unit {0})) → Refused m → Refused (m >> n)
  unfolding Refused
  then-Refused m n (e, run) = (e, rw run refl)

  handle_alone-Refused :
      (m : Io Job (Unit {0})) → Refused m → handle_alone m (calm t) ≡ ok minus_one (calm t)
  unfolding Refused handle_alone show_errs
  handle_alone-Refused m (e, run) = rw run refl

  handle_last-Refused :
      (m : Io Job (Unit {0})) (dst : List ℕ)
      → Refused m
      → handle_in_chain m none dst (calm t) ≡ ok minus_one (calm t)
  unfolding Refused handle_in_chain forward show_errs or_code
  handle_last-Refused m dst (e, run) = rw run refl

-- For every path that names nothing, or something else than a regular file: with no failing call the
-- compressor and the encryptor at the end of a chain, the decompressor and the decryptor all return -1
-- and leave the files as they are.
pub names_file-minus_one :
    (pq : PriorityQueue) (o : Openssl) (uninit : ℕ) (t : Target) (src dst pwd : List ℕ)
    → names_file (t.entry src) ≡ false
    → (CompressHandle.handle pq none src dst (calm t) ≡ ok minus_one (calm t))
      × (DecompressHandle.handle pq uninit src dst (calm t) ≡ ok minus_one (calm t))
      × (encrypt_handle o pwd none src dst (calm t) ≡ ok minus_one (calm t))
      × (decrypt_handle o pwd src dst (calm t) ≡ ok minus_one (calm t))
unfolding CompressHandle.handle CompressHandle.work CompressHandle.init DecompressHandle.handle
    DecompressHandle.work DecompressHandle.init encrypt_handle encrypt_work encrypt_init
    decrypt_handle decrypt_work decrypt_init
names_file-minus_one pq o uninit t src dst pwd h = (
  handle_last-Refused t src h _ dst (then-Refused t src h _ _ (open_files-Refused t src h _ _)),
  handle_alone-Refused t src h _ (then-Refused t src h _ _ (open_files-Refused t src h _ _)),
  handle_last-Refused t src h _ dst
      (then-Refused t src h _ _ (then-Refused t src h _ _ (open_files-Refused t src h _ _))),
  handle_alone-Refused t src h _
      (then-Refused t src h _ _ (then-Refused t src h _ _ (open_files-Refused t src h _ _))),
)

-- ===== src/Handler/Kept.antt =====
-- inc/handler.h and the four handlers of files: the file system stays sound.
use data_backup.Base.{ℕ, List, [], Option, none, some, ◌≡◌, refl, ap, sym, arith, if◌then◌else◌}
use data_backup.Io.{Io, Streams, pure, ◌>>◌}
use data_backup.Huffman.{PriorityQueue}
use data_backup.World.Files.{Target}
use data_backup.World.Calls.{remove}
use data_backup.World.Safe.{is_temporary}
use data_backup.World.Runs.{Preserves, bind-Preserves, then-Preserves, throw_if-Preserves}
use data_backup.World.Kept.{IsSound, remove-Preserves}
use data_backup.Handler.Chain.{
  Job, Next, InitErrors, on_streams, new_job, handle_alone, handle_in_chain, forward, open_files,
  current_dst, is_end, is_empty, place,
}
use data_backup.Compress.Handle as CompressHandle
use data_backup.Decompress.Handle as DecompressHandle
use data_backup.Crypt.Openssl.{Openssl}
use data_backup.Crypt.Handle.{
  encrypt_init, encrypt_work, encrypt_handle, decrypt_init, decrypt_work, decrypt_handle,
}
use data_backup.Utils.Paths.{rename_base}
use data_backup.Handler.Jobs.{
  Removable, IsSoundJob, on_streams-Preserves, open_files-Preserves, after_tried,
}

abbrev name_or : List ℕ → Option (List ℕ) → List ℕ
name_or d none = d
name_or d (some name) = name

module _ (t0 : Target) where
  pub handle_alone-Preserves :
      (work : Io Job (Unit {0}))
      → Preserves (IsSoundJob t0 none) work
      → Preserves (IsSound t0) (handle_alone work)
  unfolding handle_alone
  handle_alone-Preserves work h w p =
      after_tried t0 none (work (new_job w)) _ (h (new_job w) (p, tt)) (λ dst_file errs r w q. q)

  -- The handlers behind one keep the file system sound.
  abbrev pub IsSoundNext : Next → Type 0
  IsSoundNext none = Unit {0}
  IsSoundNext (some handle) = (src dst : List ℕ) → Preserves (IsSound t0) (handle src dst)

  forward-Preserves :
      (next : Next) (src dst : List ℕ)
      → IsSoundNext next
      → Preserves (IsSound t0) (forward next src dst)
  unfolding forward
  forward-Preserves none src dst n = λ w h. h
  forward-Preserves (some handle) src dst n = n src dst

  pub handle_in_chain-Preserves :
      (work : Io Job (Unit {0})) (next : Next) (dst : List ℕ)
      → Preserves (IsSoundJob t0 next) work
      → IsSoundNext next
      → Preserves (IsSound t0) (handle_in_chain work next dst)
  unfolding handle_in_chain
  handle_in_chain-Preserves work next dst h n w p =
      after_tried t0 next (work (new_job w)) _ (h (new_job w) (p, new_removable next))
        λ dst_file errs r.
          bind-Preserves (IsSound t0) (forward next dst_file dst) _
            (forward-Preserves next dst_file dst n)
            λ err_code.
              then-Preserves (IsSound t0) (if is_end next then pure tt else remove dst_file) _
                (cleared next dst_file r) (λ w q. q)
    where
      new_removable : (next : Next) → Removable next []
      new_removable none = tt
      new_removable (some handle) = refl

      cleared :
          (next : Next) (dst_file : List ℕ)
          → Removable next dst_file
          → Preserves (IsSound t0) (if is_end next then pure tt else remove dst_file)
      cleared none dst_file r = λ w q. q
      cleared (some handle) dst_file r = (remove-Preserves t0) dst_file r

  pub place-Removable :
      (next : Next) (dst : List ℕ) (name : Option (List ℕ)) (dst_file : List ℕ)
      → place next dst name ≡ some dst_file
      → Removable next dst_file
  place-Removable none dst name dst_file e = tt
  place-Removable (some handle) dst none dst_file e = absurd (grind (arith, e))
  place-Removable (some handle) dst (some name) dst_file e =
      ap is_temporary (sym (ap (name_or []) e))

  -- A handler that opens two files and works on them.
  work-Preserves :
      (next : Next) (e : InitErrors) (src : List ℕ) (name : Option (List ℕ))
      (m : Io Streams (Unit {0}))
      → ((dst_file : List ℕ) → name ≡ some dst_file → Removable next dst_file)
      → Preserves (IsSoundJob t0 next) (open_files e src name >> on_streams m)
  work-Preserves next e src name m r =
      then-Preserves (IsSoundJob t0 next) _ _ (open_files-Preserves t0 next e src name r)
        (on_streams-Preserves t0 next m)

  pub compress_handle-Preserves :
      (pq : PriorityQueue) (next : Next)
      → IsSoundNext next
      → (src dst : List ℕ) → Preserves (IsSound t0) (CompressHandle.handle pq next src dst)
  unfolding CompressHandle.handle CompressHandle.work CompressHandle.init
  compress_handle-Preserves pq next n src dst =
      handle_in_chain-Preserves _ next dst
        (then-Preserves (IsSoundJob t0 next) _ _
          (open_files-Preserves t0 next _ src _ (place-Removable next dst (rename_base src _)))
          (bind-Preserves (IsSoundJob t0 next) current_dst _ (λ j p. p)
            (λ dst_file. on_streams-Preserves t0 next _)))
        n

  pub decompress_handle-Preserves :
      (pq : PriorityQueue) (uninit : ℕ) (src dst : List ℕ)
      → Preserves (IsSound t0) (DecompressHandle.handle pq uninit src dst)
  unfolding DecompressHandle.handle DecompressHandle.work DecompressHandle.init
  decompress_handle-Preserves pq uninit src dst =
      handle_alone-Preserves _ (work-Preserves none _ src _ _ (λ dst_file e. tt))

  pub encrypt_handle-Preserves :
      (o : Openssl) (pwd : List ℕ) (next : Next)
      → IsSoundNext next
      → (src dst : List ℕ) → Preserves (IsSound t0) (encrypt_handle o pwd next src dst)
  unfolding encrypt_handle encrypt_work encrypt_init
  encrypt_handle-Preserves o pwd next n src dst =
      handle_in_chain-Preserves _ next dst
        (then-Preserves (IsSoundJob t0 next) _ _
          (then-Preserves (IsSoundJob t0 next) _ _
            (open_files-Preserves t0 next _ src _ (place-Removable next dst (rename_base src _)))
            (throw_if-Preserves (IsSoundJob t0 next) (is_empty pwd) _))
          (λ j p. (on_streams-Preserves t0) next _ j p))
        n

  pub decrypt_handle-Preserves :
      (o : Openssl) (pwd src dst : List ℕ) → Preserves (IsSound t0) (decrypt_handle o pwd src dst)
  unfolding decrypt_handle decrypt_work decrypt_init
  decrypt_handle-Preserves o pwd src dst = handle_alone-Preserves _ (
      then-Preserves (IsSoundJob t0 none) _ _
        (then-Preserves (IsSoundJob t0 none) _ _
          (open_files-Preserves t0 none _ src _ (λ dst_file e. tt))
          (throw_if-Preserves (IsSoundJob t0 none) (is_empty pwd) _))
        (on_streams-Preserves t0 none _))

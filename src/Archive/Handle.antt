-- ===== src/Archive/Handle.antt =====
-- src/packer.cpp and src/unpack.cpp: `Init`, `Clear` and `Handle`.
use data_backup.Base.{ℕ, Bool, List, [], ◌∷◌, ◌++◌, ℤ, Option, none, some, not, if◌then◌else◌}
use data_backup.Io.{
  Io, Outcome, BaseException, codes, ok, throw, throw_value, undefined, stuck, bind, ◌>>=◌, ◌>>◌,
  pure, raise, throw_if, close,
}
use data_backup.Utils.Paths.{base_name}
use data_backup.Utils.Mkdir.{access, stat_is_dir, recur_mkdir, reg_path}
use data_backup.World.Calls.{World, open_existing, open_truncated}
use data_backup.Handler.Chain.{
  Job, Next, on_world, on_sink, handle_in_chain, place, defined, modify, or_raise, show_errs,
}
use data_backup.Archive.Pack.{SourceTree, pack_into, error as pack_error}
use data_backup.Archive.Tree.{UnpackState, error as unpack_error, on_backup}
use data_backup.Archive.Unpack.{extract}

abbrev pub with_suffix : List ℕ → Option (List ℕ) → Option (List ℕ)
with_suffix suffix none = none
with_suffix suffix (some name) = some (name ++ suffix)

-- The body of the `try` block of the packer. `tree` is the file system below the source.
unfoldable pub pack_work : SourceTree → List ℕ → ℕ → Next → List ℕ → List ℕ → Io Job (Unit {0})
pack_work tree uninit fuel next src dst = do
  dst_file ← defined (place next dst (with_suffix (codes ".pak") (base_name src)))
  modify (λ j. record j { dst_file = dst_file })
  dst_fd ← on_world (open_truncated dst_file)
  sink ← or_raise dst_fd (pack_error (codes "failed to open backup file"))
  modify (λ j. record j { sink = sink })
  on_sink (pack_into tree uninit sink fuel src)

unfoldable pub pack_handle : SourceTree → List ℕ → ℕ → Next → List ℕ → List ℕ → Io World ℤ
pack_handle tree uninit fuel next src dst =
    handle_in_chain (pack_work tree uninit fuel next src dst) next dst

abbrev pub found_or_raise : Option ℕ → BaseException → Io World ℕ
found_or_raise none e = raise e
found_or_raise (some ino) e = pure ino

-- `Init` of the unpacker: `fd_backup_`, as an inode.
unfoldable pub unpack_init : Bool → List ℕ → List ℕ → Io World ℕ
unpack_init uninit_stat src dst = do
  there ← access dst
  (if there
      then (do
        is_dir ← stat_is_dir uninit_stat dst
        throw_if (not is_dir) (unpack_error dst (codes "Target path is not a directory")))
      else recur_mkdir uninit_stat dst)
  fd_backup ← open_existing src
  found_or_raise fd_backup (unpack_error src (codes "Fail to open source backup file"))

-- The unpacker with its archive open. It is not read again from the file, so an archive that is
-- unpacked over itself is outside the model.
abbrev pub unpacking : ℕ → World → UnpackState
unpacking ino w = record {
  backup = record {
    input = w.target.contents ino;
    whole = w.target.contents ino;
    out = [];
    pos = 0;
    faults = w.faults;
  };
  target = w.target;
  hard_lk_map = [];
  errs = [];
}

abbrev pub world_of : UnpackState → World
world_of s = record { target = s.target; faults = s.backup.faults }

unfoldable pub clear : List ℕ → Io UnpackState (Unit {0})
clear src = do
  failed ← on_backup close
  throw_if failed (unpack_error src (codes "Fail to close source backup file"))

-- `catch(BaseException *err)` around the loop: `errs_`.
abbrev pub unpacked : Outcome UnpackState (Unit {0}) → Outcome World (List BaseException)
unpacked (ok a s) = ok s.errs (world_of s)
unpacked (throw e s) = ok (s.errs ++ e ∷ []) (world_of s)
unpacked (throw_value e s) = throw_value e (world_of s)
unpacked undefined = undefined
unpacked stuck = stuck

-- `Extract` and `Clear`.
unfoldable pub unpack_open : List ℕ → List ℕ → List ℕ → ℕ → Io World (List BaseException)
unpack_open buf src dst ino w =
    unpacked ((do extract buf ino (reg_path dst); clear src) (unpacking ino w))

-- What `Init` throws is all there is.
abbrev pub init_caught : Outcome World (List BaseException) → Outcome World (List BaseException)
init_caught (ok errs w) = ok errs w
init_caught (throw e w) = ok (e ∷ []) w
init_caught (throw_value e w) = throw_value e w
init_caught undefined = undefined
init_caught stuck = stuck

unfoldable pub unpack_handle : Bool → List ℕ → List ℕ → List ℕ → Io World ℤ
unpack_handle uninit_stat buf src dst w =
    bind (init_caught ((do ino ← unpack_init uninit_stat src dst; unpack_open buf src dst ino) w))
      (λ errs. pure (show_errs errs))

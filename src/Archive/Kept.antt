-- ===== src/Archive/Kept.antt =====
-- src/packer.cpp and src/unpack.cpp: the file system stays sound, whatever the archive holds.
use data_backup.Base.{ℕ, Bool, List, Option, none, some, not}
use data_backup.Io.{Outcome, BaseException, ok, throw, throw_value, undefined, stuck, codes, close}
use data_backup.Archive.Pack.{SourceTree, pack_into}
use data_backup.Archive.Tree.{UnpackState}
use data_backup.Archive.Unpack.{extract}
use data_backup.Archive.Handle.{
  pack_work, pack_handle, unpack_init, unpack_open, unpack_handle, unpacked, init_caught, clear,
  found_or_raise, unpacking, with_suffix,
}
use data_backup.Utils.Paths.{base_name}
use data_backup.Utils.Mkdir.{access, stat_is_dir, reg_path}
use data_backup.Utils.Mkdir.Kept.{access-Preserves, stat_is_dir-Preserves, recur_mkdir-Preserves}
use data_backup.World.Files.{Target}
use data_backup.World.Calls.{World, open_existing, open_truncated}
use data_backup.World.Runs.{
  Leaves, Preserves, bind-Leaves, bind-Preserves, then-Preserves, throw_if-Preserves, if-Preserves,
}
use data_backup.World.Kept.{IsSound, open_existing-Preserves, open_truncated-Preserves}
use data_backup.Handler.Chain.{Next, on_world, modify, place}
use data_backup.Handler.Jobs.{
  IsSoundJob, on_world-Preserves, on_sink-Preserves, or_raise-Preserves, defined-Preserves,
  named-Preserves,
}
use data_backup.Handler.Kept.{IsSoundNext, place-Removable, handle_in_chain-Preserves}
use data_backup.Archive.Unpack.Kept.{IsSoundState, on_backup-Preserves, extract-Preserves}

module _ (t0 : Target) where
  pub pack_handle-Preserves :
      (tree : SourceTree) (uninit : List ℕ) (fuel : ℕ) (next : Next)
      → (IsSoundNext t0) next
      → (src dst : List ℕ) → Preserves (IsSound t0) (pack_handle tree uninit fuel next src dst)
  unfolding pack_handle pack_work
  pack_handle-Preserves tree uninit fuel next n src dst =
      handle_in_chain-Preserves t0 _ next dst
        (defined-Preserves t0 next (place next dst (with_suffix (codes ".pak") (base_name src))) _
          λ dst_file eq.
            then-Preserves (IsSoundJob t0 next) (modify (λ j. record j { dst_file = dst_file })) _
              (named-Preserves t0 next dst_file (place-Removable t0 next dst _ dst_file eq))
              (bind-Preserves (IsSoundJob t0 next) (on_world (open_truncated dst_file)) _
                (on_world-Preserves t0 next (open_truncated dst_file)
                  (open_truncated-Preserves t0 dst_file))
                λ dst_fd.
                  bind-Preserves (IsSoundJob t0 next) _ _ (or_raise-Preserves t0 next dst_fd _)
                    λ sink.
                      then-Preserves (IsSoundJob t0 next) (modify (λ j. record j { sink = sink })) _
                        (λ j p. p)
                        (on_sink-Preserves t0 next (pack_into tree uninit sink fuel src))))
        n

  unpacked-Leaves :
      (o : Outcome UnpackState (Unit {0}))
      → Leaves (IsSoundState t0) o
      → Leaves (IsSound t0) (unpacked o)
  unpacked-Leaves (ok a s) h = h
  unpacked-Leaves (throw e s) h = h
  unpacked-Leaves (throw_value e s) h = h
  unpacked-Leaves undefined h = tt
  unpacked-Leaves stuck h = tt

  unpack_open-Preserves :
      (buf src dst : List ℕ) (ino : ℕ) → Preserves (IsSound t0) (unpack_open buf src dst ino)
  unfolding unpack_open clear
  unpack_open-Preserves buf src dst ino w p = unpacked-Leaves _ (
      then-Preserves (IsSoundState t0) (extract buf ino (reg_path dst)) (clear src)
        (extract-Preserves t0 buf ino (reg_path dst))
        (bind-Preserves (IsSoundState t0) _ _ (on_backup-Preserves t0 close)
          (λ refused. throw_if-Preserves (IsSoundState t0) refused _))
        (unpacking ino w) p)

  unpack_init-Preserves :
      (uninit : Bool) (src dst : List ℕ) → Preserves (IsSound t0) (unpack_init uninit src dst)
  unfolding unpack_init
  unpack_init-Preserves uninit src dst =
      bind-Preserves (IsSound t0) (access dst) _ (access-Preserves t0 dst) λ there.
        then-Preserves (IsSound t0) _ _
          (if-Preserves (IsSound t0) there _ _
            (bind-Preserves (IsSound t0) (stat_is_dir uninit dst) _
              (stat_is_dir-Preserves t0 uninit dst)
              (λ is_dir. throw_if-Preserves (IsSound t0) (not is_dir) _))
            (recur_mkdir-Preserves t0 uninit dst))
          (bind-Preserves (IsSound t0) (open_existing src) _ (open_existing-Preserves t0 src)
            (λ fd. given fd _))
    where
      given : (fd : Option ℕ) (e : BaseException) → Preserves (IsSound t0) (found_or_raise fd e)
      given none e w p = p
      given (some ino) e w p = p

  init_caught-Leaves :
      (o : Outcome World (List BaseException))
      → Leaves (IsSound t0) o
      → Leaves (IsSound t0) (init_caught o)
  init_caught-Leaves (ok errs w) h = h
  init_caught-Leaves (throw e w) h = h
  init_caught-Leaves (throw_value e w) h = h
  init_caught-Leaves undefined h = tt
  init_caught-Leaves stuck h = tt

  pub unpack_handle-Preserves :
      (uninit : Bool) (buf src dst : List ℕ)
      → Preserves (IsSound t0) (unpack_handle uninit buf src dst)
  unfolding unpack_handle
  unpack_handle-Preserves uninit buf src dst w p =
      bind-Leaves (IsSound t0) _ _
        (init_caught-Leaves _ (
          bind-Preserves (IsSound t0) (unpack_init uninit src dst) _
            (unpack_init-Preserves uninit src dst) (λ ino. unpack_open-Preserves buf src dst ino) w
            p))
        (λ errs w q. q)

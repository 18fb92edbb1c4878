-- ===== src/Archive/Handles.antt =====
-- src/packer.cpp and src/unpack.cpp: the handlers on one regular file while no system call fails.
use data_backup.Base.{ℕ, suc, ◌≡◌, refl, ap, Bool, true, List, [], ◌++◌, some, pos, length, drop}
use data_backup.Io.{ok, codes, streams, close}
use data_backup.Utils.Paths.{base_name}
use data_backup.World.Files.{Target, can_create, directory, is_directory}
use data_backup.World.Calls.{open_truncated, truncate_entry, open_existing, open_entry}
use data_backup.World.Invariant.{can_create-cases, not_parent}
use data_backup.World.Store.{store, calm, HasFile, same}
use data_backup.Handler.Chain.{Next, place, new_job, on_sink, show_errs}
use data_backup.Handler.Runs.{done}
use data_backup.Utils.Mkdir.{access, access_entry, stat_is_dir, reg_path}
use data_backup.Archive.Pack.{SourceTree, Stat, my_block_size, parent_path, parse_header}
use data_backup.Archive.Regular.{started}
use data_backup.Archive.Single.{IsRegularFile, archive, pack_into_lem, extract_lem}
use data_backup.Archive.Unpack.{extract}
use data_backup.Archive.Handle.{
  with_suffix, pack_work, unpack_init, clear, unpack_open, unpack_handle,
}

-- An archive of one regular file: below every directory where its name is free, the file is made.
abbrev pub IsArchive : List ℕ → List ℕ → List ℕ → Type 0
IsArchive pak name xs =
    (buf dir : List ℕ) (fd : ℕ) (t : Target)
    → can_create t (dir ++ name) ≡ true
    → extract buf fd dir (started (streams pak pak [] 0) t)
      ≡ ok tt (started (streams [] pak xs (length xs)) (store (dir ++ name) xs t))

module _ (tree : SourceTree) (src : List ℕ) (st : Stat) (xs : List ℕ)
    (f : IsRegularFile tree src st xs) where
  abbrev pub file_name : List ℕ
  file_name = drop (length (parent_path src)) src

  pub archive-IsArchive : IsArchive (archive tree src st xs f) file_name xs
  unfolding parse_header
  archive-IsArchive buf dir fd t may =
      extract_lem tree src st xs f buf dir [] fd 0 t (can_create-cases t (dir ++ file_name) may).0
        may

  pub pack_work_lem :
      (uninit : List ℕ) (fuel : ℕ) (next : Next) (dst dst_file : List ℕ) (t : Target)
      → length uninit ≡ my_block_size
      → place next dst (with_suffix (codes ".pak") (base_name src)) ≡ some dst_file
      → can_create t dst_file ≡ true
      → pack_work tree uninit (suc fuel) next src dst (new_job (calm t))
        ≡ ok tt (done 0 dst_file (archive tree src st xs f) t)
  unfolding pack_work open_truncated truncate_entry on_sink
  pack_work_lem uninit fuel next dst dst_file t lu name may =
      let (free, _) = can_create-cases t dst_file may in
      rw name (
        rw free (
          rw may (
            rw (same t.next_ino)
              (rw (pack_into_lem tree src st xs f uninit t.next_ino fuel lu) refl))))

-- The unpacker, on an archive that a path names and a directory that is there.
pub unpack_handle_lem :
    (uninit : Bool) (buf src dst pak name xs : List ℕ) (t : Target)
    → HasFile t src pak
    → IsArchive pak name xs
    → t.entry dst ≡ some directory
    → can_create t (reg_path dst ++ name) ≡ true
    → unpack_handle uninit buf src dst (calm t)
      ≡ ok (pos 0) (calm (store (reg_path dst ++ name) xs t))
unfolding unpack_handle unpack_init unpack_open clear access access_entry stat_is_dir open_existing
    open_entry close show_errs
unpack_handle_lem uninit buf src dst pak name xs t f back dir may =
    rw dir (rw dir (rw f.named (rw f.holds (rw (back buf (reg_path dst) f.ino t may) refl))))

pub directory-store :
    (path bytes dir : List ℕ) (t : Target)
    → can_create t path ≡ true
    → t.entry dir ≡ some directory
    → (store path bytes t).entry dir ≡ some directory
directory-store path bytes dir t may is_dir =
    let (free, _) = can_create-cases t path may in
    rw (not_parent t path dir free (ap is_directory is_dir)) is_dir

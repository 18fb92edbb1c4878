-- ===== src/Backend/Copy.antt =====
-- src/backend.cpp, `HandleCopy`: a regular file is copied, by way of an archive in /tmp.
use data_backup.Base.{
  ℕ, suc, ◌≡◌, refl, ap, true, false, List, ◌++◌, none, some, pos, or_code, length, str_eq,
  str_eq_refl, str_eq-sym,
}
use data_backup.Io.{ok, codes}
use data_backup.Utils.Paths.{base_name}
use data_backup.Utils.Mkdir.{reg_path}
use data_backup.World.Files.{Target, can_create, directory}
use data_backup.World.Calls.{remove_entry}
use data_backup.World.Store.{
  store, calm, HasFile, store-HasFile, HasFile-store, HasFile-remove_entry, can_create-store,
}
use data_backup.Handler.Chain.{place}
use data_backup.Handler.Runs.{handle_last_lem, remove_lem}
use data_backup.Archive.Pack.{Stat, my_block_size}
use data_backup.Archive.Single.{IsRegularFile, archive}
use data_backup.Archive.Handle.{pack_handle, with_suffix}
use data_backup.Archive.Handles.{
  file_name, archive-IsArchive, pack_work_lem, unpack_handle_lem, directory-store,
}
use data_backup.Backend.Json.{encode_entries}
use data_backup.Backend.Requests.{Setting, BackEnd, run_packer, handle_copy}

module _ (s : Setting) (t : Target) (b : BackEnd) (st : Stat) (name xs : List ℕ) (fuel : ℕ) where
  abbrev src : List ℕ
  src = b.js_parser.src

  abbrev cp_dst : List ℕ
  cp_dst = b.abs_path ++ b.js_parser.dst

  abbrev pk_dst : List ℕ
  pk_dst = codes "/tmp/" ++ name ++ codes ".pak"

  -- For every setting with fuel and a block buffer of 512 bytes, every request to copy a regular file of
  -- one link whose header fits its words, a target directory that is there, and free names for the copy
  -- and for the archive in /tmp, which differ: with no failing call `HandleCopy` ends with the error
  -- code 0, the copy is below the target directory with the bytes of the file, and the archive has no
  -- name.
  pub handle_copy_lem :
      (f : IsRegularFile s.tree src st xs)
      → s.fuel ≡ suc fuel
      → length s.block_buf ≡ my_block_size
      → base_name src ≡ some name
      → let new = reg_path cp_dst ++ file_name s.tree src st xs f in
        can_create t pk_dst ≡ true
        → t.entry cp_dst ≡ some directory
        → can_create t new ≡ true
        → str_eq new pk_dst ≡ false
        → (b' : BackEnd) × (t' : Target) × (handle_copy s b (calm t) ≡ ok b' (calm t'))
          × (b'.err_code ≡ pos 0)
          × HasFile t' new xs
          × (t'.entry pk_dst ≡ none)
  unfolding handle_copy run_packer pack_handle or_code
  handle_copy_lem f enough lu named may is_dir may' apart =
      let pak = archive s.tree src st xs f in
      let name' = file_name s.tree src st xs f in
      let new = reg_path cp_dst ++ name' in
      let t1 = store pk_dst pak t in
      let t2 = store new xs t1 in
      let kept : HasFile t2 pk_dst pak =
        HasFile-store new xs pk_dst pak t1 (str_eq-sym new pk_dst apart)
          (store-HasFile pk_dst pak t) in
      (
        record b {
          err_code = pos 0;
          js_parser = encode_entries s.json b.js_parser (pos 0) b.dir_entries;
        },
        remove_entry pk_dst t2,
        rw enough (
            rw
              (handle_last_lem t 0 _ (codes "/tmp") pk_dst pak (
                pack_work_lem s.tree src st xs f s.block_buf fuel none (codes "/tmp") pk_dst t lu
                  (ap (λ n. place none (codes "/tmp") (with_suffix (codes ".pak") n)) named) may))
              (rw named (
                rw
                  (unpack_handle_lem s.uninit_is_dir s.copy_buf pk_dst cp_dst pak name' xs t1
                    (store-HasFile pk_dst pak t) (archive-IsArchive s.tree src st xs f)
                    (directory-store pk_dst pak cp_dst t may is_dir)
                    (can_create-store pk_dst pak new t apart may may'))
                  (rw (remove_lem t2 pk_dst pak refl kept) refl)))),
        refl,
        HasFile-remove_entry pk_dst new xs t2 apart (store-HasFile new xs t1),
        rw (str_eq_refl pk_dst) refl,
      )

-- ===== src/Backend/RoundTrip.antt =====
-- src/backend.cpp: `HandleEncode`, and `HandleDecode` of what it made.
use data_backup.Base.{
  ℕ, suc, ◌≡◌, ap, true, false, List, [], ◌∷◌, ◌++◌, some, pos, length, str_eq, str_eq-sym, All,
  IsByte,
}
use data_backup.Io.{ok, codes}
use data_backup.Huffman.{IsLawful}
use data_backup.Utils.Paths.{base_name}
use data_backup.Utils.Mkdir.{recur_mkdir, reg_path}
use data_backup.World.Files.{Target, can_create, directory, is_directory}
use data_backup.World.Invariant.{can_create-cases, not_parent}
use data_backup.World.Store.{
  store, calm, HasFile, store-HasFile, HasFile-store, can_create-store, can_create-remove_entry,
}
use data_backup.Archive.Pack.{Stat, my_block_size}
use data_backup.Archive.Single.{IsRegularFile, archive}
use data_backup.Archive.Handles.{file_name, archive-IsArchive}
use data_backup.Backend.Requests.{Setting, BackEnd, handle_encode, handle_decode}
use data_backup.Backend.Decode.{packed_and_compressed, handle_decode_lem}
use data_backup.Backend.Encode.{encoded, suffixed, handle_encode_run}

module _ (pak_file cmp_file pak cmp : List ℕ) (ino : ℕ) (t : Target)
    (may : can_create t pak_file ≡ true) (may' : can_create t cmp_file ≡ true)
    (apart : str_eq cmp_file pak_file ≡ false) where
  -- What is free, and is neither of the two files, stays free.
  can_create-encoded :
      (other : List ℕ)
      → can_create t other ≡ true
      → str_eq other pak_file ≡ false
      → str_eq other cmp_file ≡ false
      → can_create (encoded pak_file cmp_file pak cmp ino t) other ≡ true
  can_create-encoded other free no_pak no_cmp =
      let t1 = store pak_file pak t in
      can_create-remove_entry pak_file pak other (store cmp_file cmp t1) no_pak
        (HasFile-store cmp_file cmp pak_file pak t1 (str_eq-sym cmp_file pak_file apart)
          (store-HasFile pak_file pak t))
        (can_create-store cmp_file cmp other t1 no_cmp
          (can_create-store pak_file pak cmp_file t apart may may')
          (can_create-store pak_file pak other t no_pak may free))

  directory-encoded :
      (dir : List ℕ)
      → t.entry dir ≡ some directory
      → (encoded pak_file cmp_file pak cmp ino t).entry dir ≡ some directory
  directory-encoded dir is_dir =
      let (free, _) = can_create-cases t pak_file may in
      let (free', _) = can_create-cases t cmp_file may' in
      let stands : is_directory (t.entry dir) ≡ true = ap is_directory is_dir in
      rw (not_parent t pak_file dir free stands)
        (rw (not_parent t cmp_file dir free' stands) is_dir)

-- For every setting with a lawful priority queue, fuel and a block buffer of 512 bytes, every request
-- whose method begins with "c" on a regular file of one link and of bytes, whose header fits its words
-- and whose target `RecurMkdir` finds or makes, and every later request, with no error yet, that
-- decodes the backup file below a directory that is there, with free names for all files that are made,
-- which differ: with no failing call `HandleEncode` and then `HandleDecode` end with the error code 0,
-- the file is below that directory with its bytes, and the backup file holds what `HandleEncode` left
-- in it.
pub handle_decode-handle_encode :
    (s : Setting) (L : IsLawful s.pq) (b b2 : BackEnd) (t0 t : Target) (st : Stat)
    (method name name2 xs : List ℕ) (fuel : ℕ)
    → let src = b.js_parser.src in
      let dst = b.abs_path ++ b.js_parser.dst in
      let dst2 = b2.abs_path ++ b2.js_parser.dst in
      let pak_file = codes "/tmp/" ++ name ++ codes ".pak" in
      let cmp_file = dst ++ codes "/" ++ name ++ codes ".cmp" in
      let t_dst = codes "/tmp/" ++ name2 ++ codes ".dcmp" in
      (f : IsRegularFile s.tree src st xs)
      → let new = reg_path dst2 ++ file_name s.tree src st xs f in
        s.fuel ≡ suc fuel
        → length s.block_buf ≡ my_block_size
        → b.js_parser.method ≡ b'c' ∷ method
        → All IsByte src
        → All IsByte xs
        → base_name src ≡ some name
        → recur_mkdir s.uninit_is_dir dst (calm t0) ≡ ok tt (calm t)
        → can_create t pak_file ≡ true
        → can_create t cmp_file ≡ true
        → str_eq cmp_file pak_file ≡ false
        → b2.js_parser.src ≡ cmp_file
        → b2.err_code ≡ pos 0
        → base_name cmp_file ≡ some name2
        → t.entry dst2 ≡ some directory
        → can_create t new ≡ true
        → str_eq new pak_file ≡ false
        → str_eq new cmp_file ≡ false
        → can_create t t_dst ≡ true
        → str_eq t_dst pak_file ≡ false
        → str_eq t_dst cmp_file ≡ false
        → str_eq new t_dst ≡ false
        → (b' b'' : BackEnd) × (t' t'' : Target) × (bytes : List ℕ) × (handle_encode s b (calm t0)
            ≡ ok b' (calm t'))
          × (b'.err_code ≡ pos 0)
          × HasFile t' cmp_file bytes
          × (handle_decode s b2 (calm t') ≡ ok b'' (calm t''))
          × (b''.err_code ≡ pos 0)
          × HasFile t'' new xs
          × HasFile t'' cmp_file bytes
handle_decode-handle_encode s L b b2 t0 t st method name name2 xs fuel f enough lu is_c hs hx named
      made may may' apart again no_err named2 dir free no_pak no_cmp free2 no_pak2 no_cmp2 apart2 =
    let src = b.js_parser.src in
    let file = file_name s.tree src st xs f in
    let pak_file = codes "/tmp/" ++ name ++ codes ".pak" in
    let cmp_file = b.abs_path ++ b.js_parser.dst ++ codes "/" ++ name ++ codes ".cmp" in
    let dst2 = b2.abs_path ++ b2.js_parser.dst in
    let t_dst = codes "/tmp/" ++ name2 ++ codes ".dcmp" in
    let new = reg_path dst2 ++ file in
    let pak = archive s.tree src st xs f in
    let (b', cmp, ino, run, ok', last, g, back) =
      handle_encode_run s L b t0 t st method name xs fuel f enough lu is_c hs hx named made may may'
        apart in
    let t' = encoded pak_file cmp_file pak cmp ino t in
    let kept = can_create-encoded pak_file cmp_file pak cmp ino t may may' apart in
    let (b'', t'', run2, ok'', restored, still, gone) =
      handle_decode_lem s b2 t' name2 file cmp pak xs (rw again g) back
        (archive-IsArchive s.tree src st xs f) no_err (rw again (suffixed _)) (rw again named2)
        (directory-encoded pak_file cmp_file pak cmp ino t may may' apart dst2 dir)
        (kept new free no_pak no_cmp) (kept t_dst free2 no_pak2 no_cmp2) apart2 in
    (
      b',
      b'',
      t',
      t'',
      cmp ++ packed_and_compressed ∷ [],
      run,
      ok',
      g,
      run2,
      ok'',
      restored,
      rw again at still,
    )

-- ===== src/Backend/Encode.antt =====
-- src/backend.cpp, `HandleEncode` of a regular file that is to be packed and compressed.
use data_backup.Base.{
  ℕ, suc, ◌<◌, ◌≡◌, refl, ap, ◌∙◌, sym, true, false, List, [], ◌∷◌, ◌++◌, append_assoc, none, some,
  pos, str_eq, str_eq_refl, str_eq-sym, arith, All, IsByte, length,
}
use data_backup.Io.{ok, codes}
use data_backup.Huffman.{IsLawful}
use data_backup.Utils.Paths.{base_name}
use data_backup.Utils.Names.{chain_names}
use data_backup.Utils.Bits.{set_bit}
use data_backup.Utils.Mkdir.{recur_mkdir}
use data_backup.World.Files.{Target, can_create, set_contents}
use data_backup.World.Calls.{remove_entry, lstat}
use data_backup.World.Store.{
  store, calm, HasFile, store-HasFile, HasFile-store, HasFile-remove_entry, can_create-store,
}
use data_backup.Handler.Chain.{Next, is_empty, new_job, place}
use data_backup.Handler.Runs.{done, handle_last_lem, handle_before_lem}
use data_backup.Handler.RoundTrip.{IsCompressed, compress_work_lem}
use data_backup.Compress.Handle as CompressHandle
use data_backup.Archive.Pack.{Stat, my_block_size}
use data_backup.Archive.Single.{IsRegularFile, archive, archive-nonempty}
use data_backup.Archive.Handle.{pack_work, pack_handle, with_suffix}
use data_backup.Archive.Handles.{IsArchive, file_name, archive-IsArchive, pack_work_lem}
use data_backup.Archive.Bytes.{archive-IsByte}
use data_backup.Backend.Json.{encode_entries}
use data_backup.Backend.Files.Flag.{append_flag_lem, set_contents-HasFile}
use data_backup.Backend.Decode.{packed_and_compressed}
use data_backup.Backend.Requests.{
  Setting, BackEnd, pack_index, cmp_index, run_packer, handle_compress, encode_switch, add_flag,
  handle_encode,
}

-- The compressor in a chain, on a file that is not empty.
compress_last_lem :
    (s : Setting) (L : IsLawful s.pq) (t : Target) (src dst name pak : List ℕ)
    → HasFile t (codes "/tmp/" ++ name ++ codes ".pak") pak
    → 0 < length pak
    → All IsByte pak
    → base_name src ≡ some name
    → let file = dst ++ codes "/" ++ (name ++ codes ".cmp") in
      can_create t file ≡ true
      → (cmp : List ℕ) × IsCompressed s.pq cmp pak
        × (CompressHandle.handle s.pq none (codes "/tmp/" ++ name ++ codes ".pak") dst (calm t)
            ≡ ok (pos 0) (calm (store file cmp t)))
unfolding CompressHandle.handle
compress_last_lem s L t src dst name [] f lt bytes named may = absurd (omega (arith, lt))
compress_last_lem s L t src dst name (x ∷ xs) f lt bytes named may =
    let file = dst ++ codes "/" ++ (name ++ codes ".cmp") in
    let (cmp, run, back) =
      compress_work_lem s.pq L t none (codes "/tmp/" ++ name ++ codes ".pak") dst file x xs f bytes
        refl (ap (place none dst) (chain_names src name (codes "cmp") named)) may in
    (cmp, back, handle_last_lem t f.ino _ dst file cmp run)

module _ (s : Setting) (L : IsLawful s.pq) (t : Target) (src dst name xs : List ℕ) (st : Stat)
    (fuel : ℕ) (f : IsRegularFile s.tree src st xs) where
  abbrev pub pak_file : List ℕ
  pak_file = codes "/tmp/" ++ name ++ codes ".pak"

  abbrev pub cmp_file : List ℕ
  cmp_file = dst ++ codes "/" ++ name ++ codes ".cmp"

  abbrev pub pak : List ℕ
  pak = archive s.tree src st xs f

  packed_lem :
      (next : Next)
      → s.fuel ≡ suc fuel
      → length s.block_buf ≡ my_block_size
      → base_name src ≡ some name
      → (place next dst (some (name ++ codes ".pak")) ≡ some pak_file)
      → can_create t pak_file ≡ true
      → pack_work s.tree s.block_buf s.fuel next src dst (new_job (calm t))
        ≡ ok tt (done 0 pak_file pak t)
  packed_lem next enough lu named placed may =
      ap (λ k. pack_work s.tree s.block_buf k next src dst (new_job (calm t))) enough
      ∙ pack_work_lem s.tree src st xs f s.block_buf fuel next dst pak_file t lu
          (ap (λ n. place next dst (with_suffix (codes ".pak") n)) named ∙ placed) may

  -- The backup file is there, and the temporary archive is gone.
  handle_compress_lem :
      s.fuel ≡ suc fuel
      → length s.block_buf ≡ my_block_size
      → All IsByte src
      → All IsByte xs
      → base_name src ≡ some name
      → can_create t pak_file ≡ true
      → can_create t cmp_file ≡ true
      → str_eq cmp_file pak_file ≡ false
      → (cmp : List ℕ) × IsCompressed s.pq cmp pak
        × (handle_compress s src dst (calm t)
            ≡ ok
                (pos 0, cmp_file)
                (calm (remove_entry pak_file (store cmp_file cmp (store pak_file pak t)))))
  unfolding handle_compress run_packer pack_handle
  handle_compress_lem enough lu bytes bytes' named may may' apart =
      let t1 = store pak_file pak t in
      let same_name : dst ++ codes "/" ++ (name ++ codes ".cmp") ≡ cmp_file =
        sym (append_assoc (dst ++ codes "/") name (codes ".cmp")) in
      let may1 = can_create-store pak_file pak cmp_file t apart may may' in
      let (cmp, back, run) =
        compress_last_lem s L t1 src dst name pak (store-HasFile pak_file pak t)
          (archive-nonempty s.tree src st xs f) (archive-IsByte s.tree src st xs f bytes bytes')
          named (rw same_name may1) in
      let run' : CompressHandle.handle s.pq none pak_file dst (calm t1)
          ≡ ok (pos 0) (calm (store cmp_file cmp t1)) =
        rw same_name at run in
      let t2 = store cmp_file cmp t1 in
      let kept =
        HasFile-store cmp_file cmp pak_file pak t1 (str_eq-sym cmp_file pak_file apart)
          (store-HasFile pak_file pak t) in
      (
        cmp,
        back,
        rw
            (handle_before_lem t 0 _ (CompressHandle.handle s.pq none) dst pak_file pak pak t2
              (packed_lem (some (CompressHandle.handle s.pq none)) enough lu named refl may) run'
              refl kept)
            (rw named refl),
      )

add_flag_lem :
    (s : Setting) (t : Target) (path ys : List ℕ) (flag : ℕ) (g : HasFile t path ys)
    → is_empty path ≡ false
    → add_flag s path flag (calm t) ≡ ok tt (calm (set_contents g.ino (ys ++ flag ∷ []) t))
unfolding add_flag lstat
add_flag_lem s t [] ys flag g some_path = absurd (grind (arith, some_path))
add_flag_lem s t (c ∷ cs) ys flag g some_path = append_flag_lem t (c ∷ cs) ys flag g

flag_lem : set_bit (set_bit 0 pack_index 1) cmp_index 1 ≡ packed_and_compressed
unfolding set_bit
flag_lem = refl

-- The case of the `switch` for "c".
switched :
    (s : Setting) (method cs key src dst file : List ℕ) (t t' : Target)
    → method ≡ b'c' ∷ cs
    → handle_compress s src dst (calm t) ≡ ok (pos 0, file) (calm t')
    → encode_switch s method key src dst (calm t)
      ≡ ok (packed_and_compressed, (pos 0, file)) (calm t')
unfolding encode_switch
switched s method cs key src dst file t t' is_c run = rw is_c (rw run (rw flag_lem refl))

pub suffixed : (xs : List ℕ) → is_empty (xs ++ codes ".cmp") ≡ false
suffixed [] = refl
suffixed (x ∷ xs) = refl

-- The files after `HandleEncode`: the archive has come and gone.
abbrev pub encoded : List ℕ → List ℕ → List ℕ → List ℕ → ℕ → Target → Target
encoded pak_file cmp_file pak cmp ino t =
    set_contents ino (cmp ++ packed_and_compressed ∷ [])
      (remove_entry pak_file (store cmp_file cmp (store pak_file pak t)))

pub handle_encode_run :
    (s : Setting) (L : IsLawful s.pq) (b : BackEnd) (t0 t : Target) (st : Stat)
    (method name xs : List ℕ) (fuel : ℕ)
    → let src = b.js_parser.src in
      let dst = b.abs_path ++ b.js_parser.dst in
      let pak_file = codes "/tmp/" ++ name ++ codes ".pak" in
      let cmp_file = dst ++ codes "/" ++ name ++ codes ".cmp" in
      (f : IsRegularFile s.tree src st xs)
      → s.fuel ≡ suc fuel
      → length s.block_buf ≡ my_block_size
      → b.js_parser.method ≡ b'c' ∷ method
      → All IsByte src
      → All IsByte xs
      → base_name src ≡ some name
      → recur_mkdir s.uninit_is_dir dst (calm t0) ≡ ok tt (calm t)
      → can_create t pak_file ≡ true
      → can_create t cmp_file ≡ true
      → str_eq cmp_file pak_file ≡ false
      → let pak = archive s.tree src st xs f in
        (b' : BackEnd) × (cmp : List ℕ) × (ino : ℕ) × (handle_encode s b (calm t0)
          ≡ ok b' (calm (encoded pak_file cmp_file pak cmp ino t)))
        × (b'.err_code ≡ pos 0)
        × (b'.final_dst ≡ cmp_file)
        × HasFile
            (encoded pak_file cmp_file pak cmp ino t)
            cmp_file
            (cmp ++ packed_and_compressed ∷ [])
        × IsCompressed s.pq cmp pak
unfolding handle_encode
handle_encode_run s L b t0 t st method name xs fuel f enough lu is_c bytes bytes' named made may
      may' apart =
    let src = b.js_parser.src in
    let dst = b.abs_path ++ b.js_parser.dst in
    let pak_file = codes "/tmp/" ++ name ++ codes ".pak" in
    let cmp_file = dst ++ codes "/" ++ name ++ codes ".cmp" in
    let pak = archive s.tree src st xs f in
    let (cmp, back, run) =
      handle_compress_lem s L t src dst name xs st fuel f enough lu bytes bytes' named may may'
        apart in
    let t3 = remove_entry pak_file (store cmp_file cmp (store pak_file pak t)) in
    let g =
      HasFile-remove_entry pak_file cmp_file cmp (store cmp_file cmp (store pak_file pak t)) apart
        (store-HasFile cmp_file cmp (store pak_file pak t)) in
    (
      record b {
        src = src;
        dst = dst;
        final_dst = cmp_file;
        err_code = pos 0;
        js_parser = encode_entries s.json b.js_parser (pos 0) b.dir_entries;
      },
      cmp,
      g.ino,
      rw made (
          rw (switched s b.js_parser.method method b.js_parser.key src dst cmp_file t t3 is_c run) (
            rw
              (add_flag_lem s t3 cmp_file cmp packed_and_compressed g
                (suffixed (dst ++ codes "/" ++ name)))
              refl)),
      refl,
      refl,
      set_contents-HasFile t3 cmp_file cmp (cmp ++ packed_and_compressed ∷ []) g,
      back,
    )

-- For every setting with a lawful priority queue, fuel and a block buffer of 512 bytes, every request
-- whose method begins with "c", every
-- regular file of bytes whose header fits its words, and free names for the archive and the backup
-- file once `RecurMkdir` has succeeded: with no failing call `HandleEncode` ends with the error code 0,
-- the backup file is a compressed archive of the file with the flag of these steps behind it, and the
-- archive in /tmp has no name.
pub handle_encode_lem :
    (s : Setting) (L : IsLawful s.pq) (b : BackEnd) (t0 t : Target) (st : Stat)
    (method name xs : List ℕ) (fuel : ℕ)
    → let src = b.js_parser.src in
      let dst = b.abs_path ++ b.js_parser.dst in
      let pak_file = codes "/tmp/" ++ name ++ codes ".pak" in
      let cmp_file = dst ++ codes "/" ++ name ++ codes ".cmp" in
      (f : IsRegularFile s.tree src st xs)
      → s.fuel ≡ suc fuel
      → length s.block_buf ≡ my_block_size
      → b.js_parser.method ≡ b'c' ∷ method
      → All IsByte src
      → All IsByte xs
      → base_name src ≡ some name
      → recur_mkdir s.uninit_is_dir dst (calm t0) ≡ ok tt (calm t)
      → can_create t pak_file ≡ true
      → can_create t cmp_file ≡ true
      → str_eq cmp_file pak_file ≡ false
      → (b' : BackEnd) × (t' : Target) × (cmp pak : List ℕ) × (handle_encode s b (calm t0)
          ≡ ok b' (calm t'))
        × (b'.err_code ≡ pos 0)
        × (b'.final_dst ≡ cmp_file)
        × HasFile t' cmp_file (cmp ++ packed_and_compressed ∷ [])
        × IsCompressed s.pq cmp pak
        × IsArchive pak (file_name s.tree src st xs f) xs
        × (t'.entry pak_file ≡ none)
handle_encode_lem s L b t0 t st method name xs fuel f enough lu is_c bytes bytes' named made may
      may' apart =
    let src = b.js_parser.src in
    let pak_file = codes "/tmp/" ++ name ++ codes ".pak" in
    let cmp_file = b.abs_path ++ b.js_parser.dst ++ codes "/" ++ name ++ codes ".cmp" in
    let pak = archive s.tree src st xs f in
    let (b', cmp, ino, run, no_err, last, g, back) =
      handle_encode_run s L b t0 t st method name xs fuel f enough lu is_c bytes bytes' named made
        may may' apart in
    (
      b',
      encoded pak_file cmp_file pak cmp ino t,
      cmp,
      pak,
      run,
      no_err,
      last,
      g,
      back,
      archive-IsArchive s.tree src st xs f,
      rw (str_eq_refl pak_file) refl,
    )

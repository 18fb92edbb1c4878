-- ===== src/Backend/Decode.antt =====
-- src/backend.cpp, `HandleDecode` on a file that was packed and compressed.
use data_backup.Base.{
  ℕ, ◌≡◌, refl, ap, ◌∙◌, sym, true, false, inl, inr, List, [], ◌∷◌, ◌++◌, Option, none, some, pos,
  or_code, str_eq, str_eq_refl, str_eq-sym, str_eq→≡, Bool-cases, ◌==◌, ◌<◌, arith,
}
use data_backup.Io.{ok, codes}
use data_backup.Utils.Paths.{base_name}
use data_backup.Utils.Bits.{get_bit}
use data_backup.Utils.Mkdir.{reg_path}
use data_backup.World.Files.{
  Entry, directory, regular, fifo, symbolic, Target, can_create, set_contents,
}
use data_backup.World.Calls.{remove_entry}
use data_backup.World.Invariant.{can_create-cases}
use data_backup.World.Store.{
  store, calm, HasFile, store-HasFile, HasFile-store, HasFile-remove_entry, can_create-store, same,
}
use data_backup.Handler.Chain.{is_empty}
use data_backup.Handler.Runs.{remove_lem}
use data_backup.Handler.RoundTrip.{IsCompressed, decompress_handle_lem}
use data_backup.Archive.Handles.{IsArchive, unpack_handle_lem, directory-store}
use data_backup.Backend.Json.{encode_entries}
use data_backup.Backend.Files.Flag.{
  read_flag_lem, drop_flag_lem, append_flag_lem, set_contents-HasFile,
}
use data_backup.Backend.Requests.{
  Setting, BackEnd, has_bit, cmp_index, decrypt_step, decompress_step, unpack_step, remove_unless,
  handle_decode,
}

-- A name that is free is not that of a file.
pub free-apart :
    (t : Target) (path other ys : List ℕ)
    → can_create t path ≡ true
    → HasFile t other ys
    → str_eq other path ≡ false
free-apart t path other ys may f = elim (Bool-cases (str_eq other path)) [
  | inl e ↦
      let (free, _) = can_create-cases t path may in
      absurd (grind (arith, sym f.named ∙ ap t.entry (str_eq→≡ other path e) ∙ free))
  | inr e ↦ e
]

-- What `SetBit` makes of a flag of no steps, for packing and compressing.
abbrev pub packed_and_compressed : ℕ
packed_and_compressed = 0b11000000

module _ (s : Setting) (b : BackEnd) (t : Target) (src name file cmp pak xs : List ℕ) where
  abbrev t_dst : List ℕ
  t_dst = codes "/tmp/" ++ name ++ codes ".dcmp"

  decrypt_step_lem :
      (key : List ℕ)
      → decrypt_step s packed_and_compressed key src (calm t) ≡ ok (src, pos 0) (calm t)
  unfolding decrypt_step get_bit
  decrypt_step_lem key = refl

  compressed_bit : has_bit packed_and_compressed cmp_index ≡ true
  unfolding get_bit
  compressed_bit = refl

  decompress_step_lem :
      HasFile t src cmp
      → IsCompressed s.pq cmp pak
      → is_empty src ≡ false
      → base_name src ≡ some name
      → can_create t t_dst ≡ true
      → decompress_step s packed_and_compressed src (src, pos 0) (calm t)
        ≡ ok (t_dst, pos 0) (calm (store t_dst pak t))
  unfolding decompress_step remove_unless or_code
  decompress_step_lem f back some_src named may = rw compressed_bit (
      rw named (
        rw (decompress_handle_lem s.pq s.uninit_byte t src t_dst cmp pak f back some_src may)
          (rw (str_eq_refl src) refl)))

  unpack_step_lem :
      (dst : List ℕ)
      → HasFile t t_dst pak
      → IsArchive pak file xs
      → t.entry dst ≡ some directory
      → can_create t (reg_path dst ++ file) ≡ true
      → str_eq t_dst src ≡ false
      → unpack_step s src dst (t_dst, pos 0) (calm t)
        ≡ ok (pos 0) (calm (remove_entry t_dst (store (reg_path dst ++ file) xs t)))
  unfolding unpack_step remove_unless or_code
  unpack_step_lem dst f back dir may apart =
      let new = reg_path dst ++ file in
      let kept : HasFile (store new xs t) t_dst pak =
        HasFile-store new xs t_dst pak t (free-apart t new t_dst pak may f) f in
      rw (unpack_handle_lem s.uninit_is_dir s.copy_buf t_dst dst pak file xs t f back dir may)
        (rw apart (rw (remove_lem (store new xs t) t_dst pak refl kept) refl))

-- The new file, once the temporary one is gone and the backup file is as it was.
restored-HasFile :
    (t : Target) (new t_dst xs ys : List ℕ) (i : ℕ)
    → i < t.next_ino
    → str_eq new t_dst ≡ false
    → HasFile (set_contents i ys (remove_entry t_dst (store new xs t))) new xs
restored-HasFile t new t_dst xs ys i lt apart =
    let other : (t.next_ino == i) ≡ false = ground arith in
    record {
      ino = t.next_ino;
      named = rw apart (rw (str_eq_refl new) refl);
      holds = rw other (rw (same t.next_ino) refl);
      known = omega arith;
    }

abbrev ino_or : Option Entry → ℕ
ino_or none = 0
ino_or (some directory) = 0
ino_or (some (regular ino)) = ino
ino_or (some fifo) = 0
ino_or (some (symbolic to)) = 0

-- For every setting, every backup file that is a compressed archive of a regular file followed by the
-- flag of these two steps, a target directory that is there, and free names for the file and for the
-- temporary file: with no failing call `HandleDecode` ends with the error code 0, and then the file is
-- below the target directory with its bytes, the backup file holds what it held, and the temporary
-- file has no name.
pub handle_decode_lem :
    (s : Setting) (b : BackEnd) (t : Target) (name file cmp pak xs : List ℕ)
    → let src = b.js_parser.src in
      let dst = b.abs_path ++ b.js_parser.dst in
      let new = reg_path dst ++ file in
      let t_dst = codes "/tmp/" ++ name ++ codes ".dcmp" in
      HasFile t src (cmp ++ packed_and_compressed ∷ [])
      → IsCompressed s.pq cmp pak
      → IsArchive pak file xs
      → b.err_code ≡ pos 0
      → is_empty src ≡ false
      → base_name src ≡ some name
      → t.entry dst ≡ some directory
      → can_create t new ≡ true
      → can_create t t_dst ≡ true
      → str_eq new t_dst ≡ false
      → (b' : BackEnd) × (t' : Target) × (handle_decode s b (calm t) ≡ ok b' (calm t'))
        × (b'.err_code ≡ pos 0)
        × HasFile t' new xs
        × HasFile t' src (cmp ++ packed_and_compressed ∷ [])
        × (t'.entry t_dst ≡ none)
unfolding handle_decode or_code
handle_decode_lem s b t name file cmp pak xs f back unpacks no_err some_src named dir may may'
      apart =
    let src = b.js_parser.src in
    let dst = b.abs_path ++ b.js_parser.dst in
    let new = reg_path dst ++ file in
    let t_dst = codes "/tmp/" ++ name ++ codes ".dcmp" in
    let t1 = set_contents f.ino cmp t in
    let f1 = set_contents-HasFile t src (cmp ++ packed_and_compressed ∷ []) cmp f in
    let t2 = store t_dst pak t1 in
    let beside = free-apart t t_dst src _ may' f in
    let f2 = HasFile-store t_dst pak src cmp t1 beside f1 in
    let t3 = store new xs t2 in
    let may2 = can_create-store t_dst pak new t1 apart may' may in
    let new_beside = free-apart t2 new src cmp may2 f2 in
    let f3 = HasFile-store new xs src cmp t2 new_beside f2 in
    let t4 = remove_entry t_dst t3 in
    let f4 = HasFile-remove_entry t_dst src cmp t3 beside f3 in
    let still : t4.entry src ≡ some (regular f.ino) = rw beside (rw new_beside f.named) in
    let same_ino : f4.ino ≡ f.ino = ap ino_or (sym f4.named ∙ still) in
    (
      record b {
        src = src;
        dst = dst;
        err_code = pos 0;
        js_parser = encode_entries s.json b.js_parser (pos 0) b.dir_entries;
      },
      set_contents f4.ino (cmp ++ packed_and_compressed ∷ []) t4,
      rw (read_flag_lem t src cmp packed_and_compressed f) (
          rw (drop_flag_lem s.uninit_size t src cmp packed_and_compressed f) (
            rw (decrypt_step_lem s b t1 src name file cmp pak xs b.js_parser.key) (
              rw no_err (
                rw (decompress_step_lem s b t1 src name file cmp pak xs f1 back some_src named may')
                  (rw
                    (unpack_step_lem s b t2 src name file cmp pak xs dst
                      (store-HasFile t_dst pak t1) unpacks
                      (directory-store t_dst pak dst t1 may' dir) may2
                      (str_eq-sym src t_dst beside))
                    (rw (append_flag_lem t4 src cmp packed_and_compressed f4) refl)))))),
      refl,
      restored-HasFile t2 new t_dst xs (cmp ++ packed_and_compressed ∷ []) f4.ino
          (omega (arith, same_ino, f.known)) apart,
      set_contents-HasFile t4 src cmp (cmp ++ packed_and_compressed ∷ []) f4,
      rw (str_eq_refl t_dst) refl,
    )

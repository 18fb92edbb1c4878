-- ===== src/Backend/Requests.antt =====
-- src/backend.cpp: what each request does.
pub mod Kept
use data_backup.Base.{
  ℕ, Bool, false, List, [], ◌∷◌, ◌++◌, Option, none, some, ℤ, pos, negsuc, minus_one, or_code,
  str_eq, ◌==◌, ◌&&◌, not, if◌then◌else◌,
}
use data_backup.Io.{Io, ok, undefined, codes, pure, ◌>>=◌, ◌>>◌}
use data_backup.Huffman.{PriorityQueue}
use data_backup.Utils.Bits.{set_bit, get_bit}
use data_backup.Utils.Paths.{base_name}
use data_backup.Utils.Mkdir.{recur_mkdir}
use data_backup.World.Calls.{World, lstat, remove}
use data_backup.Handler.Chain.{Next}
use data_backup.Archive.Pack.{SourceTree, Stat}
use data_backup.Archive.Handle.{pack_handle, unpack_handle}
use data_backup.Compress.Handle.{handle as compress_handle}
use data_backup.Decompress.Handle.{handle as decompress_handle}
use data_backup.Crypt.Openssl.{Openssl}
use data_backup.Crypt.Handle.{encrypt_handle, decrypt_handle}
use data_backup.Backend.Json.{Jsoncpp, JsonParser, DirEntry, encode_entries}
use data_backup.Backend.Files.{read_flag, drop_flag, append_flag}

-- What is not in the repository, the file system below the sources, and what the memory of local
-- variables first holds.
pub record Setting : Type 1 where
  pub pq : PriorityQueue
  pub openssl : Openssl
  pub json : Jsoncpp
  pub tree : SourceTree
  -- Enough for the depth of the source.
  pub fuel : ℕ
  pub block_buf : List ℕ
  pub copy_buf : List ℕ
  pub uninit_byte : ℕ
  pub uninit_is_dir : Bool
  pub uninit_size : ℕ
  pub uninit_stat : Stat
  pub uninit_seq : ℕ

pub record BackEnd : Type 0 where
  pub err_code : ℤ
  pub js_parser : JsonParser
  pub abs_path : List ℕ
  pub final_dst : List ℕ
  pub src : List ℕ
  pub dst : List ℕ
  pub dir_entries : List DirEntry

abbrev pub new_backend : List ℕ → JsonParser → BackEnd
new_backend abs_cur_path p = record {
  err_code = pos 0;
  js_parser = p;
  abs_path = abs_cur_path;
  final_dst = [];
  src = [];
  dst = [];
  dir_entries = [];
}

abbrev pub pack_index : ℕ
pack_index = 0

abbrev pub cmp_index : ℕ
cmp_index = 1

abbrev pub enc_index : ℕ
enc_index = 2

-- A sum with the pointer that `BaseName` gives.
abbrev pub need : Option (List ℕ) → Io World (List ℕ)
need none w = undefined
need (some name) w = ok name w

-- `!err_code_`
abbrev pub is_zero : ℤ → Bool
is_zero (pos n) = n == 0
is_zero (negsuc n) = false

-- `GetBit` as a condition.
abbrev pub has_bit : ℕ → ℕ → Bool
has_bit flag index = not (is_zero (get_bit flag index))

module _ (s : Setting) where
  open s use {
    pq, openssl, json, tree, fuel, block_buf, copy_buf, uninit_byte, uninit_is_dir, uninit_size,
    uninit_stat, uninit_seq,
  }

  unfoldable pub run_packer : Next → List ℕ → List ℕ → Io World ℤ
  run_packer = pack_handle tree block_buf fuel

  -- `HandlePack`, `HandleCompress` and `HandleEncrypt`: `err_code_` and `final_dst_`.
  unfoldable pub handle_pack : List ℕ → List ℕ → Io World (ℤ × List ℕ)
  handle_pack src dst = do
    err_code ← run_packer none src dst
    name ← need (base_name src)
    pure (err_code, dst ++ codes "/" ++ name ++ codes ".pak")

  unfoldable pub handle_compress : List ℕ → List ℕ → Io World (ℤ × List ℕ)
  handle_compress src dst = do
    err_code ← run_packer (some (compress_handle pq none)) src dst
    name ← need (base_name src)
    pure (err_code, dst ++ codes "/" ++ name ++ codes ".cmp")

  unfoldable pub handle_encrypt : List ℕ → List ℕ → List ℕ → Io World (ℤ × List ℕ)
  handle_encrypt key src dst = do
    err_code ←
        run_packer (some (compress_handle pq (some (encrypt_handle openssl key none)))) src dst
    name ← need (base_name src)
    pure (err_code, dst ++ codes "/" ++ name ++ codes ".enc")

  -- The `switch` over the first character: the flag, `err_code_` and `final_dst_`.
  unfoldable pub encode_switch : List ℕ → List ℕ → List ℕ → List ℕ → Io World (ℕ × (ℤ × List ℕ))
  encode_switch [] key src dst = pure (0, (minus_one, []))
  encode_switch (c ∷ cs) key src dst =
      if c == b'p'
      then (do r ← handle_pack src dst; pure (set_bit 0 pack_index 1, r))
      else if c == b'c'
      then (do r ← handle_compress src dst; pure (set_bit (set_bit 0 pack_index 1) cmp_index 1, r))
      else if c == b'e'
      then (do
        r ← handle_encrypt key src dst
        pure (set_bit (set_bit (set_bit 0 pack_index 1) cmp_index 1) enc_index 1, r))
      else pure (0, (minus_one, []))

  -- The flag goes behind the file, if a handler has been run.
  unfoldable pub add_flag : List ℕ → ℕ → Io World (Unit {0})
  add_flag [] flag = pure tt
  add_flag (c ∷ cs) flag = do st ← lstat (c ∷ cs); append_flag (c ∷ cs) flag

  unfoldable pub handle_encode : BackEnd → Io World BackEnd
  handle_encode b = do
    let src = b.js_parser.src
    let dst = b.abs_path ++ b.js_parser.dst
    recur_mkdir uninit_is_dir dst
    r ← encode_switch b.js_parser.method b.js_parser.key src dst
    add_flag r.1.1 r.0
    pure (record b {
      src = src;
      dst = dst;
      final_dst = r.1.1;
      err_code = r.1.0;
      js_parser = encode_entries json b.js_parser r.1.0 b.dir_entries;
    })

  -- `if (t_src != src_) remove(t_src)`
  unfoldable pub remove_unless : List ℕ → List ℕ → Io World (Unit {0})
  remove_unless src t_src = if str_eq t_src src then pure tt else remove t_src

  -- The three steps of `HandleDecode`: each gives `t_src` and `err_code_`.
  unfoldable pub decrypt_step : ℕ → List ℕ → List ℕ → Io World (List ℕ × ℤ)
  decrypt_step flag key src =
      if has_bit flag enc_index
      then (do
        name ← need (base_name src)
        let t_dst = codes "/tmp/" ++ name ++ codes ".dec"
        err ← decrypt_handle openssl key src t_dst
        pure (t_dst, err))
      else pure (src, pos 0)

  unfoldable pub decompress_step : ℕ → List ℕ → List ℕ × ℤ → Io World (List ℕ × ℤ)
  decompress_step flag src (t_src, err_code) =
      if is_zero err_code && has_bit flag cmp_index
      then (do
        name ← need (base_name t_src)
        let t_dst = codes "/tmp/" ++ name ++ codes ".dcmp"
        err ← decompress_handle pq uninit_byte t_src t_dst
        remove_unless src t_src
        pure (t_dst, or_code err_code err))
      else pure (t_src, err_code)

  unfoldable pub unpack_step : List ℕ → List ℕ → List ℕ × ℤ → Io World ℤ
  unpack_step src dst (t_src, err_code) =
      if is_zero err_code
      then (do
        err ← unpack_handle uninit_is_dir copy_buf t_src dst
        remove_unless src t_src
        pure (or_code err_code err))
      else pure err_code

  unfoldable pub handle_decode : BackEnd → Io World BackEnd
  handle_decode b = do
    let src = b.js_parser.src
    let dst = b.abs_path ++ b.js_parser.dst
    flag ← read_flag src
    drop_flag uninit_size src
    r1 ← decrypt_step flag b.js_parser.key src
    r2 ← decompress_step flag src (r1.0, or_code b.err_code r1.1)
    err_code ← unpack_step src dst r2
    append_flag src flag
    pure (record b {
      src = src;
      dst = dst;
      err_code = err_code;
      js_parser = encode_entries json b.js_parser err_code b.dir_entries;
    })

  unfoldable pub handle_copy : BackEnd → Io World BackEnd
  handle_copy b = do
    let pk_src = b.js_parser.src
    err ← run_packer none pk_src (codes "/tmp")
    name ← need (base_name pk_src)
    let pk_dst = codes "/tmp" ++ codes "/" ++ name ++ codes ".pak"
    err' ← unpack_handle uninit_is_dir copy_buf pk_dst (b.abs_path ++ b.js_parser.dst)
    remove pk_dst
    let err_code = or_code err err'
    pure (record b {
      err_code = err_code;
      js_parser = encode_entries json b.js_parser err_code b.dir_entries;
    })

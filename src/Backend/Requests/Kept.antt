-- ===== src/Backend/Requests/Kept.antt =====
-- src/backend.cpp, the requests that run handlers: the file system stays sound.
use data_backup.Base.{
  ℕ, true, List, [], ◌∷◌, ◌++◌, Option, none, some, ℤ, pos, or_code, str_eq, ◌==◌, ◌≡◌, refl, ◌⊎◌,
  inl, inr, str_eq_refl,
}
use data_backup.Io.{codes, pure, ◌>>=◌}
use data_backup.World.Files.{Target}
use data_backup.World.Calls.{lstat, remove}
use data_backup.World.Runs.{
  Yields, bind-Yields, if-Yields, Yields-Preserves, Preserves, bind-Preserves, then-Preserves,
  if-Preserves,
}
use data_backup.World.Safe.{is_temporary}
use data_backup.World.Kept.{IsSound, lstat-Preserves, remove-Preserves}
use data_backup.Utils.Paths.{base_name}
use data_backup.Utils.Mkdir.{recur_mkdir}
use data_backup.Utils.Mkdir.Kept.{recur_mkdir-Preserves}
use data_backup.Archive.Handle.{unpack_handle}
use data_backup.Archive.Kept.{pack_handle-Preserves, unpack_handle-Preserves}
use data_backup.Decompress.Handle.{handle as decompress_handle}
use data_backup.Crypt.Handle.{decrypt_handle}
use data_backup.Handler.Chain.{Next}
use data_backup.Handler.Kept.{
  IsSoundNext, compress_handle-Preserves, decompress_handle-Preserves, encrypt_handle-Preserves,
  decrypt_handle-Preserves,
}
use data_backup.Backend.Files.{read_flag, drop_flag, append_flag}
use data_backup.Backend.Files.Kept.{read_flag-Preserves, drop_flag-Preserves, append_flag-Preserves}
use data_backup.Backend.Requests.{
  Setting, BackEnd, need, run_packer, handle_pack, handle_compress, handle_encrypt, encode_switch,
  add_flag, handle_encode, remove_unless, decrypt_step, decompress_step, unpack_step, handle_decode,
  handle_copy, is_zero,
}

module _ (t0 : Target) where
  need-Preserves : (o : Option (List ℕ)) → Preserves (IsSound t0) (need o)
  need-Preserves none w h = tt
  need-Preserves (some name) w h = h

  module _ (s : Setting) where
    open s use {
      pq, openssl, json, tree, fuel, block_buf, copy_buf, uninit_byte, uninit_is_dir, uninit_size,
      uninit_stat, uninit_seq,
    }

    run_packer-Preserves :
        (next : Next)
        → (IsSoundNext t0) next
        → (src dst : List ℕ) → Preserves (IsSound t0) (run_packer s next src dst)
    unfolding run_packer
    run_packer-Preserves next n src dst =
        (pack_handle-Preserves t0) tree block_buf fuel next n src dst

    -- A chain of handlers, and the name of the last file.
    chain-Preserves :
        (next : Next)
        → (IsSoundNext t0) next
        → (src dst : List ℕ) (f : ℤ → List ℕ → ℤ × List ℕ)
        → Preserves (IsSound t0) (
            run_packer s next src dst
            >>= (λ err. need (base_name src) >>= (λ name. pure (f err name))))
    chain-Preserves next n src dst f =
        bind-Preserves (IsSound t0) (run_packer s next src dst) _
          (run_packer-Preserves next n src dst)
          λ err.
            bind-Preserves (IsSound t0) (need (base_name src)) _ (need-Preserves (base_name src))
              (λ name w h. h)

    encode_switch-Preserves :
        (method key src dst : List ℕ) → Preserves (IsSound t0) (encode_switch s method key src dst)
    unfolding encode_switch handle_pack handle_compress handle_encrypt
    encode_switch-Preserves [] key src dst = λ w h. h
    encode_switch-Preserves (c ∷ cs) key src dst =
        if-Preserves (IsSound t0) (c == b'p') _ _
          (bind-Preserves (IsSound t0) (handle_pack s src dst) _
            (chain-Preserves none tt src dst
              (λ err name. (err, dst ++ codes "/" ++ name ++ codes ".pak")))
            (λ r w h. h))
          (if-Preserves (IsSound t0) (c == b'c') _ _
            (bind-Preserves (IsSound t0) (handle_compress s src dst) _
              (chain-Preserves _ (compress_handle-Preserves t0 pq none tt) src dst
                (λ err name. (err, dst ++ codes "/" ++ name ++ codes ".cmp")))
              (λ r w h. h))
            (if-Preserves (IsSound t0) (c == b'e') _ _
              (bind-Preserves (IsSound t0) (handle_encrypt s key src dst) _
                (chain-Preserves _
                  (compress_handle-Preserves t0 pq _
                    (encrypt_handle-Preserves t0 openssl key none tt))
                  src dst (λ err name. (err, dst ++ codes "/" ++ name ++ codes ".enc")))
                (λ r w h. h))
              (λ w h. h)))

    add_flag-Preserves : (dst : List ℕ) (flag : ℕ) → Preserves (IsSound t0) (add_flag s dst flag)
    unfolding add_flag
    add_flag-Preserves [] flag = λ w h. h
    add_flag-Preserves (c ∷ cs) flag =
        bind-Preserves (IsSound t0) (lstat (c ∷ cs)) _ (lstat-Preserves t0 (c ∷ cs))
          (λ st. append_flag-Preserves t0 (c ∷ cs) flag)

    pub handle_encode-Preserves : (b : BackEnd) → Preserves (IsSound t0) (handle_encode s b)
    unfolding handle_encode
    handle_encode-Preserves b =
        let src = b.js_parser.src in
        let dst = b.abs_path ++ b.js_parser.dst in
        let method = b.js_parser.method in
        let key = b.js_parser.key in
        then-Preserves (IsSound t0) (recur_mkdir uninit_is_dir dst) _
          (recur_mkdir-Preserves t0 uninit_is_dir dst)
          (bind-Preserves (IsSound t0) (encode_switch s method key src dst) _
            (encode_switch-Preserves method key src dst)
            λ r.
              then-Preserves (IsSound t0) (add_flag s r.1.1 r.0) _ (add_flag-Preserves r.1.1 r.0)
                (λ w h. h))

    -- The source itself, or a temporary file made of it.
    abbrev IsOwn : List ℕ → List ℕ → Type 0
    IsOwn src t_src = (str_eq t_src src ≡ true) ⊎ (is_temporary t_src ≡ true)

    abbrev HasOwn : List ℕ → List ℕ × ℤ → Type 0
    HasOwn src r = IsOwn src r.0

    remove_unless-Preserves :
        (src t_src : List ℕ) → IsOwn src t_src → Preserves (IsSound t0) (remove_unless s src t_src)
    unfolding remove_unless
    remove_unless-Preserves src t_src (inl same) = rw same (λ w h. h)
    remove_unless-Preserves src t_src (inr temporary) =
        if-Preserves (IsSound t0) (str_eq t_src src) _ _ (λ w h. h)
          (remove-Preserves t0 t_src temporary)

    decrypt_step-Yields :
        (flag : ℕ) (key src : List ℕ)
        → Yields (HasOwn src) (IsSound t0) (decrypt_step s flag key src)
    unfolding decrypt_step
    decrypt_step-Yields flag key src =
        if-Yields (HasOwn src) (IsSound t0) _ _ (pure (src, pos 0))
          (bind-Yields (HasOwn src) (IsSound t0) (need (base_name src)) _
            (need-Preserves (base_name src))
            λ name.
              bind-Yields (HasOwn src) (IsSound t0) (decrypt_handle openssl key src _) _
                (decrypt_handle-Preserves t0 openssl key src _) (λ err w h. (inr refl, h)))
          (λ w h. (inl (str_eq_refl src), h))

    decompress_step-Yields :
        (flag : ℕ) (src : List ℕ) (r : List ℕ × ℤ)
        → HasOwn src r
        → Yields (HasOwn src) (IsSound t0) (decompress_step s flag src r)
    unfolding decompress_step
    decompress_step-Yields flag src (t_src, err_code) own =
        if-Yields (HasOwn src) (IsSound t0) _ _ (pure (t_src, err_code))
          (bind-Yields (HasOwn src) (IsSound t0) (need (base_name t_src)) _
            (need-Preserves (base_name t_src))
            λ name.
              bind-Yields (HasOwn src) (IsSound t0) (decompress_handle pq uninit_byte t_src _) _
                (decompress_handle-Preserves t0 pq uninit_byte t_src _)
                λ err.
                  bind-Yields (HasOwn src) (IsSound t0) (remove_unless s src t_src) (λ _. pure _)
                    (remove_unless-Preserves src t_src own) (λ _ w h. (inr refl, h)))
          (λ w h. (own, h))

    unpack_step-Preserves :
        (src dst : List ℕ) (r : List ℕ × ℤ)
        → HasOwn src r
        → Preserves (IsSound t0) (unpack_step s src dst r)
    unfolding unpack_step
    unpack_step-Preserves src dst (t_src, err_code) own =
        if-Preserves (IsSound t0) (is_zero err_code) _ (pure err_code)
          (bind-Preserves (IsSound t0) (unpack_handle uninit_is_dir copy_buf t_src dst) _
            (unpack_handle-Preserves t0 uninit_is_dir copy_buf t_src dst)
            λ err.
              then-Preserves (IsSound t0) (remove_unless s src t_src) _
                (remove_unless-Preserves src t_src own) (λ w h. h))
          (λ w h. h)

    pub handle_decode-Preserves : (b : BackEnd) → Preserves (IsSound t0) (handle_decode s b)
    unfolding handle_decode
    handle_decode-Preserves b =
        let src = b.js_parser.src in
        let dst = b.abs_path ++ b.js_parser.dst in
        bind-Preserves (IsSound t0) (read_flag src) _ (read_flag-Preserves t0 src) λ flag.
          then-Preserves (IsSound t0) (drop_flag uninit_size src) _
            (drop_flag-Preserves t0 uninit_size src)
            (Yields-Preserves (HasOwn src) (IsSound t0) (decrypt_step s flag b.js_parser.key src) _
              (decrypt_step-Yields flag b.js_parser.key src)
              λ r1 own.
                Yields-Preserves (HasOwn src) (IsSound t0)
                  (decompress_step s flag src (r1.0, or_code b.err_code r1.1)) _
                  (decompress_step-Yields flag src _ own)
                  λ r2 own'.
                    bind-Preserves (IsSound t0) (unpack_step s src dst r2) _
                      (unpack_step-Preserves src dst r2 own')
                      λ err_code.
                        then-Preserves (IsSound t0) (append_flag src flag) _
                          (append_flag-Preserves t0 src flag) (λ w h. h))

    pub handle_copy-Preserves : (b : BackEnd) → Preserves (IsSound t0) (handle_copy s b)
    unfolding handle_copy
    handle_copy-Preserves b =
        let src = b.js_parser.src in
        bind-Preserves (IsSound t0) (run_packer s none src (codes "/tmp")) _
          (run_packer-Preserves none tt src (codes "/tmp"))
          λ err.
            bind-Preserves (IsSound t0) (need (base_name src)) _ (need-Preserves (base_name src))
              λ name.
                let pk_dst = codes "/tmp" ++ codes "/" ++ name ++ codes ".pak" in
                bind-Preserves (IsSound t0)
                  (unpack_handle uninit_is_dir copy_buf pk_dst (b.abs_path ++ b.js_parser.dst)) _
                  (unpack_handle-Preserves t0 uninit_is_dir copy_buf pk_dst _)
                  λ err'.
                    then-Preserves (IsSound t0) (remove pk_dst) _ (remove-Preserves t0 pk_dst refl)
                      (λ w h. h)

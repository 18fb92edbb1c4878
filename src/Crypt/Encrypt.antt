-- ===== src/Crypt/Encrypt.antt =====
-- src/encrypt.cpp: digest, size, and the file in AES-CBC, a buffer at a time.
use data_backup.Base.{
  ℕ, zero, suc, ◌%◌, List, [], ◌∷◌, ◌++◌, length, ltb, ◌==◌, ==_iff, ◌-◌, ◌≤◌, ◌≡◌, refl, ap, sym,
  true, Bool-cases, inl, inr, length-append, arith, if◌then◌else◌, Option, none, some, le_bytes,
  take, replicate,
}
use data_backup.Io.{
  Io, Streams, BaseException, encrypt as encrypt_class, new_exception, codes, ◌>>=◌, ◌>>◌, pure,
  raise, ok, stuck, undefined, fsync, max_buf_size, write_exactly, close_or_throw, read_loop,
}
use data_backup.Crypt.Openssl.{Openssl, pwd_padding, aes_block_size, pad, pad_whole}

module _ (o : Openssl) (src_file : List ℕ) where
  open o use {Key, md5, set_encrypt_key, cbc_encrypt}

  abbrev pub error : List ℕ → BaseException
  error msg = new_exception encrypt_class msg

  unfoldable pub generate_digest : List ℕ → Io Streams (Unit {0})
  generate_digest pwd = write_exactly (take 16 (md5 pwd)) (error (codes "failed to write dst_fd"))

  abbrev pub key_of : Option Key → Io Streams Key
  key_of none = raise (error (codes "failed to generate AES key"))
  key_of (some key) = pure key

  -- `while(0 != buf_num % AES_BLOCK_SIZE) read_buf[buf_num++] = '\0'`, with fuel; `read_buf` has
  -- `MAX_BUF_SIZE` bytes.
  unfoldable pub pad_loop : ℕ → List ℕ → Io Streams (List ℕ)
  pad_loop zero buf = if length buf % aes_block_size == 0 then pure buf else λ _. stuck
  pad_loop (suc fuel) buf =
      let rest = pad_loop fuel (buf ++ 0 ∷ []) in
      if length buf % aes_block_size == 0
      then pure buf
      else if ltb (length buf) max_buf_size
      then rest
      else λ _. undefined

  -- One buffer: the last one is filled up with zeros.
  unfoldable pub encrypt_buffer : Key → List ℕ → List ℕ → Io Streams (List ℕ)
  encrypt_buffer key read_buf iv = do
    padded ← pad_loop 15 read_buf
    let coded = cbc_encrypt key iv padded
    write_exactly coded.0 (error (codes "failed to write dst file"))
    pure coded.1

  -- `src_file_size_` is an `off_t` of eight bytes.
  unfoldable pub encrypt : List ℕ → ℕ → Io Streams (Unit {0})
  encrypt pwd src_file_size = do
    write_exactly (le_bytes 8 src_file_size) (error (codes "failed to write dst_fd"))
    key ← key_of (set_encrypt_key (pwd_padding pwd))
    iv ←
        read_loop (error (codes "read failed on " ++ src_file)) (encrypt_buffer key)
          (replicate 16 0)
    pure tt

  unfoldable pub clear : Io Streams (Unit {0})
  clear = do
    close_or_throw (error (codes "failed to close src_fd"))
    fsync
    close_or_throw (error (codes "failed to close dst_fd"))

  -- The body of the `try` block in `Handle`, behind `Init`.
  unfoldable pub encrypt_file : List ℕ → ℕ → Io Streams (Unit {0})
  encrypt_file pwd src_file_size = do generate_digest pwd; encrypt pwd src_file_size; clear

  -- On at most a buffer the loop ends within 15 rounds, and stays within the buffer.
  pub pad_loop_lem :
      (fuel : ℕ) (buf : List ℕ) (s : Streams)
      → (16 - length buf % 16) % 16 ≤ fuel
      → length buf ≤ max_buf_size
      → pad_loop fuel buf s ≡ ok (pad fuel buf) s
  unfolding pad_loop pad
  pad_loop_lem zero buf s h le =
      let done : (length buf % aes_block_size == 0) ≡ true = ground (arith, h) in rw done refl
  pad_loop_lem (suc fuel) buf s h le = elim (Bool-cases (length buf % aes_block_size == 0)) [
    | inl done ↦ rw done (ap (λ b. ok b s) (sym (pad_whole fuel buf ((==_iff _ _).0 done))))
    | inr more ↦
        let room : ltb (length buf) max_buf_size ≡ true = ground (arith, le, more) in
        rw more (
          rw room (
            pad_loop_lem fuel (buf ++ 0 ∷ []) s
              (ground (arith, h, more, length-append buf (0 ∷ [])))
              (ground (arith, le, more, length-append buf (0 ∷ [])))))
  ]

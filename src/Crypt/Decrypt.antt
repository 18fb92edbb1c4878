-- ===== src/Crypt/Decrypt.antt =====
-- src/decrypt.cpp: checks the digest of the password, then decrypts buffer by buffer.
use data_backup.Base.{
  ℕ, zero, suc, ◌+◌, ◌-◌, ◌≤◌, ◌<◌, ◌≡◌, refl, ap, sym, true, Bool-cases, inl, inr, arith, ◌/◌, ◌%◌,
  ◌^◌, List, [], ◌∷◌, ◌++◌, Option, none, some, of_le_bytes, take, replicate, length, str_eq, leb,
  ◌==◌, if◌then◌else◌,
}
use data_backup.Io.{
  Io, Streams, BaseException, decrypt as decrypt_class, new_exception, codes, ◌>>=◌, ◌>>◌, pure,
  raise, ok, stuck, system_call, fsync, read, read_exactly, write_exactly, close_or_throw,
  max_buf_size,
}
use data_backup.Crypt.Openssl.{Openssl, pwd_padding, aes_block_size, round_up}

module _ (o : Openssl) (src_file : List ℕ) where
  open o use {Key, md5, set_decrypt_key, cbc_decrypt}

  abbrev pub error : List ℕ → BaseException
  error msg = new_exception decrypt_class msg

  abbrev pub read_failed : BaseException
  read_failed = error (codes "read failed on " ++ src_file)

  -- The loop over the 16 bytes of the digest throws at the first that differs.
  unfoldable pub check_digest : List ℕ → Io Streams (Unit {0})
  check_digest pwd = do
    digest ← read_exactly 16 (error (codes "failed to read " ++ src_file))
    if str_eq digest (take 16 (md5 pwd)) then pure tt else raise (error (codes "wrong password"))

  abbrev pub key_of : Option Key → Io Streams Key
  key_of none = raise (error (codes "failed to generate AES key"))
  key_of (some key) = pure key

  -- A whole buffer: the vector that decryption leaves.
  unfoldable pub decrypt_buffer : Key → List ℕ → List ℕ → Io Streams (List ℕ)
  decrypt_buffer key iv read_buf = do
    let plain = cbc_decrypt key iv read_buf
    write_exactly plain.0 (error (codes "failed to write dst file"))
    pure plain.1

  -- What a round does with its buffer: at the end of the file the loop breaks.
  unfoldable pub full_round :
      Key → (List ℕ → Io Streams (List ℕ)) → List ℕ → Option (List ℕ) → Io Streams (List ℕ)
  full_round key again iv none = raise read_failed
  full_round key again iv (some []) = pure iv
  full_round key again iv (some (b ∷ bs)) =
      if length (b ∷ bs) == max_buf_size
      then (decrypt_buffer key iv (b ∷ bs) >>= again)
      else raise read_failed

  -- `for(i=0; i<full_block_num; i++)`
  unfoldable pub full_buffers : Key → ℕ → List ℕ → Io Streams (List ℕ)
  full_buffers key zero iv = pure iv
  full_buffers key (suc n) iv = do
    read_buf ← read max_buf_size
    full_round key (full_buffers key n) iv read_buf

  abbrev pub size_wrong : BaseException
  size_wrong = error (codes "something is wrong with src file size")

  -- `while(0 != last_block_encrypted % AES_BLOCK_SIZE) last_block_encrypted++` on a `size_t`, with
  -- fuel.
  unfoldable pub round_loop : ℕ → ℕ → Io Streams ℕ
  round_loop zero n = if n % aes_block_size == 0 then pure n else λ _. stuck
  round_loop (suc fuel) n =
      let rest = round_loop fuel ((n + 1) % 2 ^ 64) in
      if n % aes_block_size == 0 then pure n else rest

  -- A failed read is -1 as a `size_t`, which is no whole number of blocks.
  unfoldable pub last_round : Key → ℕ → ℕ → List ℕ → Option (List ℕ) → Io Streams (Unit {0})
  last_round key last_block_bytenum last_block_encrypted iv none = raise size_wrong
  last_round key last_block_bytenum last_block_encrypted iv (some read_buf) =
      if length read_buf == last_block_encrypted
      then write_exactly (take last_block_bytenum (cbc_decrypt key iv read_buf).0)
          (error (codes "failed to write dst file"))
      else raise size_wrong

  unfoldable pub last_buffer : Key → ℕ → List ℕ → Io Streams (Unit {0})
  last_buffer key last_block_bytenum iv = if last_block_bytenum == 0 then pure tt else (do
    last_block_encrypted ← round_loop 15 last_block_bytenum
    read_buf ← read max_buf_size
    last_round key last_block_bytenum last_block_encrypted iv read_buf)

  -- The last buffer where `last_block_bytenum` is -k: AES has nothing to do on an empty read, and
  -- `write` of so many bytes returns -1, which is what was asked for if k is 1.
  unfoldable pub negative_round : ℕ → ℕ → Option (List ℕ) → Io Streams (Unit {0})
  negative_round k last_block_encrypted none = raise size_wrong
  negative_round k last_block_encrypted (some read_buf) =
      if length read_buf == last_block_encrypted
      then (do
        system_call tt (λ s. tt) (λ s. s)
        if k == 1 then pure tt else raise (error (codes "failed to write dst file")))
      else raise size_wrong

  -- A size with the sign bit set: no whole buffers, and a remainder of the same sign.
  unfoldable pub negative_size : ℕ → Io Streams (Unit {0})
  negative_size size =
      let k = (2 ^ 64 - size) % max_buf_size in
      if k == 0 then pure tt else (do
        last_block_encrypted ← round_loop 15 (2 ^ 64 - k)
        read_buf ← read max_buf_size
        negative_round k last_block_encrypted read_buf)

  unfoldable pub decrypt : List ℕ → Io Streams (Unit {0})
  decrypt pwd = do
    size_bytes ← read_exactly 8 (error (codes "failed to read " ++ src_file))
    let size = of_le_bytes size_bytes
    key ← key_of (set_decrypt_key (pwd_padding pwd))
    if leb (2 ^ 63) size then negative_size size else (do
      iv ← full_buffers key (size / max_buf_size) (replicate 16 0)
      last_buffer key (size % max_buf_size) iv)

  unfoldable pub clear : Io Streams (Unit {0})
  clear = do
    close_or_throw (error (codes "failed to close src_fd"))
    fsync
    close_or_throw (error (codes "failed to close dst_fd"))

  -- The body of the `try` block in `Handle`, behind `Init`.
  unfoldable pub decrypt_file : List ℕ → Io Streams (Unit {0})
  decrypt_file pwd = do check_digest pwd; decrypt pwd; clear

  -- The loop ends within 15 rounds, also where the number wraps.
  pub round_loop_ends :
      (fuel n : ℕ) (s : Streams)
      → (16 - n % 16) % 16 ≤ fuel
      → (m : ℕ) × (round_loop fuel n s ≡ ok m s)
  unfolding round_loop
  round_loop_ends zero n s h =
      let done : (n % aes_block_size == 0) ≡ true = ground (arith, h) in (n, rw done refl)
  round_loop_ends (suc fuel) n s h = elim (Bool-cases (n % aes_block_size == 0)) [
    | inl done ↦ (n, rw done refl)
    | inr more ↦
        let (m, e) = round_loop_ends fuel ((n + 1) % 2 ^ 64) s (ground (arith, h, more)) in
        (m, rw more e)
  ]

  pub round_loop_lem :
      (fuel n : ℕ) (s : Streams)
      → (16 - n % 16) % 16 ≤ fuel
      → n + fuel < 2 ^ 64
      → round_loop fuel n s ≡ ok (round_up fuel n) s
  unfolding round_loop round_up
  round_loop_lem zero n s h small =
      let done : (n % aes_block_size == 0) ≡ true = ground (arith, h) in rw done refl
  round_loop_lem (suc fuel) n s h small = elim (Bool-cases (n % aes_block_size == 0)) [
    | inl done ↦ rw done (ap (λ m. ok m s) (sym (round_up_whole fuel n done)))
    | inr more ↦
        let next : (n + 1) % 2 ^ 64 ≡ n + 1 = omega (arith, small) in
        rw (more, next)
          (round_loop_lem fuel (n + 1) s (ground (arith, h, more)) (omega (arith, small)))
  ]
    where
      round_up_whole : (fuel n : ℕ) → (n % aes_block_size == 0) ≡ true → round_up fuel n ≡ n
      round_up_whole zero n done = refl
      round_up_whole (suc fuel) n done = rw done (round_up_whole fuel n done)

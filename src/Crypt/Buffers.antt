-- ===== src/Crypt/Buffers.antt =====
-- The decryptor's loops on what the encryptor's loop wrote.
use data_backup.Base.{
  not_zero, ℕ, zero, suc, ◌+◌, ◌*◌, ◌%◌, ◌≤◌, ◌<◌, ◌≡◌, refl, ap, sym, ◌∙◌, List, [], ◌∷◌, ◌++◌,
  some, length, length-take, length-drop, take, drop, append_assoc, append-nil, take_all, drop_all,
  take-append_exact, drop-append_exact, take-append-drop, ==_iff, arith,
}
use data_backup.Io.{
  Io, Streams, BaseException, ok, bind, streams, ◌>>=◌, read, append_exactly_lem, max_buf_size,
  codes,
}
use data_backup.Crypt.Openssl.{
  Openssl, KeyPair, pad, pad_whole, round_up, length-pad, pad_extends, round_up_lem,
}
use data_backup.Crypt.Cipher.{cipher, cipher-nil, cipher-append, cipher_last}
use data_backup.Crypt.Decrypt.{
  decrypt_buffer, full_round, full_buffers, last_round, last_buffer, round_loop_lem, error,
}

module _ (o : Openssl) (src_file bytes : List ℕ) (k : KeyPair o bytes) where
  abbrev ek : o.Key
  ek = k.encrypt_key

  abbrev dk : o.Key
  dk = k.decrypt_key

  abbrev e : BaseException
  e = error o src_file (codes "failed to write dst file")

  read_lem :
      (c rest whole out : List ℕ) (pos : ℕ)
      → length c ≡ max_buf_size
      → read max_buf_size (streams (c ++ rest) whole out pos)
        ≡ ok (some c) (streams rest whole out pos)
  unfolding read
  read_lem c rest whole out pos h =
      rw (take-append_exact max_buf_size c rest h, drop-append_exact max_buf_size c rest h) refl

  read_last :
      (c whole out : List ℕ) (pos : ℕ)
      → length c ≤ max_buf_size
      → read max_buf_size (streams c whole out pos) ≡ ok (some c) (streams [] whole out pos)
  unfolding read
  read_last c whole out pos h = rw (take_all max_buf_size c h, drop_all max_buf_size c h) refl

  full_round_lem :
      (again : List ℕ → Io Streams (List ℕ)) (iv c : List ℕ)
      → length c ≡ max_buf_size
      → full_round o src_file dk again iv (some c) ≡ (decrypt_buffer o src_file dk iv c >>= again)
  unfolding full_round
  full_round_lem again iv [] h = absurd (omega (arith, h))
  full_round_lem again iv (x ∷ xs) h = rw ((==_iff _ _).1 h) refl

  -- The last buffer: the padding is cut off.
  last_buffer_lem :
      (fuel : ℕ) (iv xs whole out : List ℕ)
      → length xs < max_buf_size
      → length xs < fuel
      → last_buffer o src_file dk
          (length xs)
          iv
          (streams (cipher o ek fuel iv xs) whole out (length out))
        ≡ ok tt (streams [] whole (out ++ xs) (length (out ++ xs)))
  unfolding last_buffer last_round
  last_buffer_lem zero iv xs whole out h lt = absurd (omega arith)
  last_buffer_lem (suc fuel) iv [] whole out h lt =
      rw (cipher-nil o ek (suc fuel) iv, append-nil) refl
  last_buffer_lem (suc fuel) iv (x ∷ xs) whole out h lt =
      let padded : List ℕ = pad 15 (x ∷ xs) in
      let (whole_blocks, above, below) = round_up_lem 15 (length (x ∷ xs)) (omega arith) in
      let (z, ez) = pad_extends 15 (x ∷ xs) in
      let el = length-pad 15 (x ∷ xs) in
      let aligned : length padded % 16 ≡ 0 = omega (arith, el, whole_blocks) in
      let c : List ℕ = (o.cbc_encrypt ek iv padded).0 in
      let ec : length c ≡ round_up 15 (length (x ∷ xs)) =
        k.length-cbc_encrypt iv padded aligned ∙ el in
      rw (cipher_last o ek fuel iv x xs (omega arith), not_zero (length xs))
        (rw
          (round_loop_lem o src_file 15 (length (x ∷ xs)) (streams c whole out (length out))
            (omega arith) (omega arith))
          (rw (read_last c whole out (length out) (omega (arith, ec, below))) (
            rw ((==_iff _ _).1 ec) (
              rw (k.decrypt-encrypt iv padded aligned) (
                rw (ez) (
                  rw (take-append_exact (length (x ∷ xs)) (x ∷ xs) z refl)
                    (append_exactly_lem (x ∷ xs) e [] whole out)))))))

  -- All buffers, where `n` of them are full.
  pub buffers_lem :
      (n r fuel : ℕ) (iv xs whole out : List ℕ)
      → length xs ≡ n * max_buf_size + r
      → r < max_buf_size
      → length xs < fuel
      → bind
          (full_buffers o src_file dk n iv
            (streams (cipher o ek fuel iv xs) whole out (length out)))
          (last_buffer o src_file dk r)
        ≡ ok tt (streams [] whole (out ++ xs) (length (out ++ xs)))
  unfolding full_buffers decrypt_buffer
  buffers_lem n r zero iv xs whole out el lr lt = absurd (omega arith)
  buffers_lem zero r (suc fuel) iv xs whole out el lr lt =
      let er : r ≡ length xs = omega (arith, el) in
      rw er (last_buffer_lem (suc fuel) iv xs whole out (omega arith) lt)
  buffers_lem (suc n) r (suc fuel) iv xs whole out el lr lt =
      let c : List ℕ = take 4096 xs in
      let rest : List ℕ = drop 4096 xs in
      let lc : length c ≡ 4096 = omega (arith, length-take 4096 xs) in
      let padded : pad 15 c ≡ c = pad_whole 15 c (omega (arith, lc)) in
      let aligned : length c % 16 ≡ 0 = omega (arith, lc) in
      let coded : List ℕ × List ℕ = o.cbc_encrypt ek iv c in
      let lcoded : length coded.0 ≡ 4096 = k.length-cbc_encrypt iv c aligned ∙ lc in
      let split : cipher o ek (suc fuel) iv xs ≡ coded.0 ++ cipher o ek fuel coded.1 rest =
        ap (cipher o ek (suc fuel) iv) (sym (take-append-drop 4096 xs))
        ∙ cipher-append o ek fuel iv c rest lc
        ∙ rw padded refl in
      rw split (
        rw (read_lem coded.0 (cipher o ek fuel coded.1 rest) whole out (length out) lcoded) (
          rw (full_round_lem (full_buffers o src_file dk n) iv coded.0 lcoded) (
            rw (k.decrypt-encrypt iv c aligned) (
              rw (append_exactly_lem c e (cipher o ek fuel coded.1 rest) whole out) (
                buffers_lem n r fuel coded.1 rest whole (out ++ c)
                  (omega (arith, length-drop 4096 xs)) lr (omega (arith, length-drop 4096 xs))
                ∙ rw (append_assoc, take-append-drop 4096 xs) refl)))))

-- ===== src/Crypt/RoundTrip.antt =====
-- Decrypting what the encryptor wrote.
use data_backup.Base.{
  ℕ, suc, ◌-◌, ◌/◌, ◌%◌, ◌^◌, ◌<◌, ◌≤◌, ◌≡◌, ◌≢◌, refl, List, [], ◌++◌, length, length-append,
  length-take, take, drop, replicate, append_assoc, drop-append_exact, str_eq, false, Bool-cases,
  inl, inr, arith, le_bytes, length-le_bytes, length-replicate, str_eq_refl, str_eq→≡,
  of_le_bytes-le_bytes, leb,
}
use data_backup.Io.{
  ok, throw, streams, read_loop, append_exactly_lem, max_buf_size, codes, read_exactly_lem, fsync,
  close_or_throw,
}
use data_backup.Crypt.Openssl.{Openssl, KeyPair, IsLawful, loop_times, pwd_padding}
use data_backup.Crypt.Cipher.{cipher, read_loop-cipher}
use data_backup.Crypt.Decrypt.{error, check_digest, decrypt, decrypt_file, clear as decrypt_clear}
use data_backup.Crypt.Encrypt.{
  encrypt_file, generate_digest, encrypt, clear, error as encrypt_error,
}
use data_backup.Crypt.Buffers.{buffers_lem}

loop_times_lem : (size : ℕ) → (loop_times size ≤ 16) × (loop_times size ≤ size)
loop_times_lem size = (ground arith, ground arith)

length-pwd_padding : (pwd : List ℕ) → length (pwd_padding pwd) ≡ 16
unfolding pwd_padding
length-pwd_padding pwd =
    let n = loop_times (length pwd) in
    let (few, short) = loop_times_lem (length pwd) in
    omega (
      arith,
      few,
      short,
      length-append (take n pwd) (replicate (16 - n) 0),
      length-take n pwd,
      length-replicate {A = ℕ} (16 - n) 0,
    )

module _ (o : Openssl) (L : IsLawful o) where
  abbrev digest_of : List ℕ → List ℕ
  digest_of pwd = take 16 (o.md5 pwd)

  length-digest_of : (pwd : List ℕ) → length (digest_of pwd) ≡ 16
  length-digest_of pwd = omega (arith, length-take 16 (o.md5 pwd), L.length-md5 pwd)

  pub keys_of : (pwd : List ℕ) → KeyPair o (pwd_padding pwd)
  keys_of pwd = L.keys (pwd_padding pwd) (length-pwd_padding pwd)

  abbrev body_of : List ℕ → List ℕ → List ℕ
  body_of pwd xs = cipher o (keys_of pwd).encrypt_key (suc (length xs)) (replicate 16 0) xs

  -- The encrypted file.
  abbrev pub file_of : List ℕ → List ℕ → List ℕ
  file_of pwd xs = digest_of pwd ++ (le_bytes 8 (length xs) ++ body_of pwd xs)

  pub encrypt_file_lem :
      (src_file pwd xs : List ℕ)
      → encrypt_file o src_file pwd (length xs) (streams xs xs [] 0)
        ≡ ok tt (streams [] xs (file_of pwd xs) (length (file_of pwd xs)))
  unfolding encrypt_file generate_digest encrypt clear close_or_throw fsync read_loop
  encrypt_file_lem src_file pwd xs =
      let k = keys_of pwd in
      let write_failed = encrypt_error o src_file (codes "failed to write dst_fd") in
      let front : List ℕ = digest_of pwd ++ le_bytes 8 (length xs) in
      let (iv, run) =
        read_loop-cipher o k.encrypt_key src_file
          (encrypt_error o src_file (codes "read failed on " ++ src_file)) (suc (length xs)) xs
          (replicate 16 0) xs front (omega arith) in
      rw (append_exactly_lem (digest_of pwd) write_failed xs xs []) (
        rw (append_exactly_lem (le_bytes 8 (length xs)) write_failed xs xs (digest_of pwd))
          (rw (k.encrypt_key_is) (rw run (rw append_assoc refl))))

  pub decrypt_file_lem :
      (src_file pwd xs : List ℕ)
      → length xs < 2 ^ 63
      → decrypt_file o src_file pwd (streams (file_of pwd xs) (file_of pwd xs) [] 0)
        ≡ ok tt (streams [] (file_of pwd xs) xs (length xs))
  unfolding decrypt_file check_digest decrypt decrypt_clear close_or_throw fsync
  decrypt_file_lem src_file pwd xs small =
      let k = keys_of pwd in
      let whole = file_of pwd xs in
      let read_failed = error o src_file (codes "failed to read " ++ src_file) in
      let n : ℕ = length xs / max_buf_size in
      let r : ℕ = length xs % max_buf_size in
      let not_negative : leb (2 ^ 63) (length xs) ≡ false = ground arith in
      rw
        (read_exactly_lem 16 (digest_of pwd) read_failed (le_bytes 8 (length xs) ++ body_of pwd xs)
          whole [] 0 (length-digest_of pwd))
        (rw (str_eq_refl (digest_of pwd)) (
          rw
            (read_exactly_lem 8 (le_bytes 8 (length xs)) read_failed (body_of pwd xs) whole [] 0
              (length-le_bytes 8 (length xs)))
            (rw (of_le_bytes-le_bytes 8 (length xs) (omega arith)) (
              rw (k.decrypt_key_is) (
                rw not_negative (
                  rw
                    (buffers_lem o src_file (pwd_padding pwd) k n r (suc (length xs))
                      (replicate 16 0) xs whole [] (omega arith) (omega arith) (omega arith))
                    refl))))))

-- For every lawful OpenSSL, every password and every file below 2^63 bytes: with no failing call
-- the encryptor succeeds, and the decryptor, given what it wrote and the same password, succeeds
-- with the bytes of the file.
pub decrypt_file-encrypt_file :
    (o : Openssl) (L : IsLawful o) (src_file src_file' pwd xs : List ℕ)
    → length xs < 2 ^ 63
    → (enc : List ℕ) × (encrypt_file o src_file pwd (length xs) (streams xs xs [] 0)
        ≡ ok tt (streams [] xs enc (length enc)))
      × (decrypt_file o src_file' pwd (streams enc enc [] 0)
          ≡ ok tt (streams [] enc xs (length xs)))
decrypt_file-encrypt_file o L src_file src_file' pwd xs small = (
  file_of o L pwd xs,
  encrypt_file_lem o L src_file pwd xs,
  decrypt_file_lem o L src_file' pwd xs small,
)

-- For every lawful OpenSSL, every file and two passwords whose digests differ in the first 16
-- bytes: with no failing call the encryptor succeeds with the one, and the decryptor, given what it
-- wrote and the other, throws "wrong password" and has written nothing.
pub wrong_password-encrypt_file :
    (o : Openssl) (L : IsLawful o) (src_file src_file' pwd pwd' xs : List ℕ)
    → take 16 (o.md5 pwd) ≢ take 16 (o.md5 pwd')
    → (enc : List ℕ) × (encrypt_file o src_file pwd (length xs) (streams xs xs [] 0)
        ≡ ok tt (streams [] xs enc (length enc)))
      × (decrypt_file o src_file' pwd' (streams enc enc [] 0)
          ≡ throw (error o src_file' (codes "wrong password")) (streams (drop 16 enc) enc [] 0))
unfolding decrypt_file check_digest
wrong_password-encrypt_file o L src_file src_file' pwd pwd' xs differ =
    let enc = file_of o L pwd xs in
    let rest = le_bytes 8 (length xs) ++ body_of o L pwd xs in
    let len = length-digest_of o L pwd in
    (
      enc,
      encrypt_file_lem o L src_file pwd xs,
      elim (Bool-cases (str_eq (digest_of o L pwd) (digest_of o L pwd'))) [
        | inl same ↦ absurd (differ (str_eq→≡ _ _ same))
        | inr other ↦ rw (drop-append_exact 16 (digest_of o L pwd) rest len) (
            rw
              (read_exactly_lem 16 (digest_of o L pwd)
                (error o src_file' (codes "failed to read " ++ src_file')) rest enc [] 0 len)
              (rw other refl))
      ],
    )

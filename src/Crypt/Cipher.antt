-- ===== src/Crypt/Cipher.antt =====
-- The bytes that the encryptor writes behind the size, one buffer after another.
use data_backup.Base.{
  ℕ, zero, suc, ◌≤◌, ◌<◌, ◌≡◌, refl, ◌∙◌, List, [], ◌∷◌, ◌++◌, length, length-drop, length-take,
  take, drop, append_assoc, append-nil, take_all, drop_all, take-append_exact, drop-append_exact,
  arith,
}
use data_backup.Io.{
  BaseException, ok, streams, read, read_loop_fuel, append_exactly_lem, max_buf_size, codes,
}
use data_backup.Crypt.Openssl.{Openssl, pad}
use data_backup.Crypt.Encrypt.{encrypt_buffer, pad_loop_lem, error}

module _ (o : Openssl) (key : o.Key) where
  -- With one unit of fuel for each buffer.
  unfoldable pub cipher : ℕ → List ℕ → List ℕ → List ℕ
  cipher zero iv xs = []
  cipher (suc fuel) iv [] = []
  cipher (suc fuel) iv (x ∷ xs) =
      let coded = o.cbc_encrypt key iv (pad 15 (x ∷ take 4095 xs)) in
      coded.0 ++ cipher fuel coded.1 (drop 4095 xs)

  pub cipher-nil : (fuel : ℕ) (iv : List ℕ) → cipher fuel iv [] ≡ []
  unfolding cipher
  cipher-nil zero iv = refl
  cipher-nil (suc fuel) iv = refl

  -- A whole buffer in front.
  pub cipher-append :
      (fuel : ℕ) (iv c xs : List ℕ)
      → length c ≡ max_buf_size
      → let coded = o.cbc_encrypt key iv (pad 15 c) in
        cipher (suc fuel) iv (c ++ xs) ≡ coded.0 ++ cipher fuel coded.1 xs
  unfolding cipher
  cipher-append fuel iv [] xs h = absurd (omega arith)
  cipher-append fuel iv (x ∷ c) xs h =
      rw
        (
          take-append_exact 4095 c xs (omega (arith, h)),
          drop-append_exact 4095 c xs (omega (arith, h)),
        )
        refl

  -- The last buffer, which is not full.
  pub cipher_last :
      (fuel : ℕ) (iv : List ℕ) (x : ℕ) (xs : List ℕ)
      → length (x ∷ xs) ≤ max_buf_size
      → cipher (suc fuel) iv (x ∷ xs) ≡ (o.cbc_encrypt key iv (pad 15 (x ∷ xs))).0
  unfolding cipher
  cipher_last fuel iv x xs h =
      rw (take_all 4095 xs (omega arith), drop_all 4095 xs (omega arith))
        (rw (cipher-nil fuel, append-nil) refl)

  -- The loop of the encryptor appends these bytes.
  pub read_loop-cipher :
      (src_file : List ℕ) (e : BaseException) (fuel : ℕ) (rest iv whole out : List ℕ)
      → length rest < fuel
      → (iv' : List ℕ) × (read_loop_fuel fuel e
            (encrypt_buffer o src_file key)
            iv
            (streams rest whole out (length out))
          ≡ ok iv'
              (streams [] whole (out ++ cipher fuel iv rest) (length (out ++ cipher fuel iv rest))))
  unfolding cipher read_loop_fuel read encrypt_buffer
  read_loop-cipher src_file e zero rest iv whole out lt = absurd (omega arith)
  read_loop-cipher src_file e (suc fuel) [] iv whole out lt = (iv, rw append-nil refl)
  read_loop-cipher src_file e (suc fuel) (x ∷ xs) iv whole out lt =
      let coded = o.cbc_encrypt key iv (pad 15 (x ∷ take 4095 xs)) in
      let (iv', run) =
        read_loop-cipher src_file e fuel (drop 4095 xs) coded.1 whole (out ++ coded.0)
          (omega (arith, length-drop 4095 xs)) in
      (
        iv',
        rw
            (pad_loop_lem o src_file 15 (x ∷ take 4095 xs)
              (streams (drop 4095 xs) whole out (length out)) (omega arith)
              (omega (arith, length-take 4095 xs)))
            (rw
              (append_exactly_lem coded.0 (error o src_file (codes "failed to write dst file"))
                (drop 4095 xs) whole out)
              (run ∙ rw (append_assoc out) refl)),
      )

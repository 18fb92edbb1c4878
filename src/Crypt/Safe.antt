-- ===== src/Crypt/Safe.antt =====
-- Encryptor and decryptor on any source, with any failing calls.
use data_backup.Base.{
  ℕ, zero, suc, drop, ◌++◌, if◌then◌else◌, Bool, true, false, ◌≤◌, refl, str_eq→≡, arith, ◌-◌, ◌^◌,
  ◌%◌, ◌≡◌, ◌⊎◌, inl, inr, Bool-cases, List, [], ◌∷◌, Option, none, some, length, take, str_eq, leb,
  of_le_bytes, ◌==◌,
}
use data_backup.Io.{
  Io, Streams, BaseException, ok, throw, write_exactly, read, read_exactly, exactly, bind, pure,
  raise, codes, ◌>>◌, max_buf_size,
}
use data_backup.Io.Safe.{
  Holds, Stays, Anything, Taken, Keeps, bind-Holds, write_exactly-Holds, close_or_throw-Holds,
  fsync-Holds, read-Holds, read_exactly-Holds, read_loop-Holds, Holds-cases, weaken, then-Holds,
  system_call-Holds,
}
use data_backup.Crypt.Openssl.{Openssl, pwd_padding}
use data_backup.Crypt.Encrypt.{
  generate_digest, pad_loop_lem, encrypt_buffer, encrypt, encrypt_file, clear, key_of,
}
use data_backup.Crypt.Decrypt.{
  error, check_digest, decrypt_buffer, full_round, full_buffers, last_round, last_buffer,
  round_loop_ends, negative_round, negative_size, decrypt, decrypt_file, clear as decrypt_clear,
  key_of as decrypt_key_of,
}

abbrev Whatever : {S : Type 0} → S → Type 0
Whatever s = Unit {0}

write-Holds :
    (bytes : List ℕ) (e : BaseException) (s : Streams) → Holds Anything (write_exactly bytes e s)
write-Holds bytes e s = weaken (Stays s) _ (write_exactly-Holds bytes e s)

module _ (o : Openssl) (src_file : List ℕ) where
  encrypt_buffer-Holds :
      (key : o.Key) (buf iv : List ℕ) (s : Streams)
      → length buf ≤ max_buf_size
      → Holds (Keeps Whatever s) (encrypt_buffer o src_file key buf iv s)
  unfolding encrypt_buffer
  encrypt_buffer-Holds key buf iv s le =
      rw (pad_loop_lem o src_file 15 buf s (omega arith) le) (
        bind-Holds (Stays s) (Keeps Whatever s) _ _ (write_exactly-Holds _ _ s) (λ _ s' e. (tt, e)))

  key_of-Holds : (k : Option o.Key) (s : Streams) → Holds Anything (key_of o src_file k s)
  key_of-Holds none s = tt
  key_of-Holds (some key) s = tt

  encrypt_file-Holds :
      (pwd : List ℕ) (size : ℕ) (s : Streams) → Holds Anything (encrypt_file o src_file pwd size s)
  unfolding encrypt_file generate_digest encrypt clear
  encrypt_file-Holds pwd size s = then-Holds _ _ (write-Holds _ _ s) λ _ s1.
      then-Holds _ _
        (then-Holds _ _ (write-Holds _ _ s1) λ _ s2.
          then-Holds (key_of o src_file (o.set_encrypt_key (pwd_padding pwd)) s2) _
            (key_of-Holds _ s2)
            λ key s3.
              then-Holds _ _
                (read_loop-Holds Whatever _ _ (λ c iv s' le _. encrypt_buffer-Holds key c iv s' le)
                  _ s3 tt)
                λ _ s4. tt)
        λ _ s5. then-Holds _ _ (weaken (Stays s5) _ (close_or_throw-Holds _ s5)) λ _ s6.
          then-Holds _ _ (weaken (Stays s6) _ (fsync-Holds s6))
            λ _ s7. weaken (Stays s7) _ (close_or_throw-Holds _ s7)

  decrypt_buffer-Holds :
      (key : o.Key) (iv buf : List ℕ) (s : Streams)
      → Holds Anything (decrypt_buffer o src_file key iv buf s)
  unfolding decrypt_buffer
  decrypt_buffer-Holds key iv buf s = then-Holds _ _ (write-Holds _ _ s) λ _ s1. tt

  full_round-Holds :
      (key : o.Key) (again : List ℕ → Io Streams (List ℕ))
      → ((iv : List ℕ) (s : Streams) → Holds Anything (again iv s))
      → (iv : List ℕ) (buf : Option (List ℕ)) (s : Streams)
      → Holds Anything (full_round o src_file key again iv buf s)
  unfolding full_round
  full_round-Holds key again h iv none s = tt
  full_round-Holds key again h iv (some []) s = tt
  full_round-Holds key again h iv (some (b ∷ bs)) s =
      elim (Bool-cases (length (b ∷ bs) == max_buf_size)) [
        | inl full ↦
            rw full (then-Holds _ _ (decrypt_buffer-Holds key iv (b ∷ bs) s) λ iv' s1. h iv' s1)
        | inr short ↦ rw short tt
      ]

  read-Anything : (s : Streams) → Holds Anything (read max_buf_size s)
  read-Anything s = weaken (Taken max_buf_size s) _ (read-Holds max_buf_size s)

  full_buffers-Holds :
      (key : o.Key) (n : ℕ) (iv : List ℕ) (s : Streams)
      → Holds Anything (full_buffers o src_file key n iv s)
  unfolding full_buffers
  full_buffers-Holds key zero iv s = tt
  full_buffers-Holds key (suc n) iv s = then-Holds _ _ (read-Anything s) λ buf s1.
      full_round-Holds key (full_buffers o src_file key n)
        (λ iv' s2. full_buffers-Holds key n iv' s2) iv buf s1

  last_round-Holds :
      (key : o.Key) (n m : ℕ) (iv : List ℕ) (buf : Option (List ℕ)) (s : Streams)
      → Holds Anything (last_round o src_file key n m iv buf s)
  unfolding last_round
  last_round-Holds key n m iv none s = tt
  last_round-Holds key n m iv (some buf) s = elim (Bool-cases (length buf == m)) [
    | inl full ↦ rw full (write-Holds _ _ s)
    | inr short ↦ rw short tt
  ]

  last_buffer-Holds :
      (key : o.Key) (n : ℕ) (iv : List ℕ) (s : Streams)
      → Holds Anything (last_buffer o src_file key n iv s)
  unfolding last_buffer
  last_buffer-Holds key n iv s = elim (Bool-cases (n == 0)) [
    | inl nothing ↦ rw nothing tt
    | inr partial ↦
        let (m, e) = round_loop_ends o src_file 15 n s (omega arith) in
        rw partial
          (rw e (then-Holds _ _ (read-Anything s) λ buf s1. last_round-Holds key n m iv buf s1))
  ]

  negative_round-Holds :
      (k m : ℕ) (buf : Option (List ℕ)) (s : Streams)
      → Holds Anything (negative_round o src_file k m buf s)
  unfolding negative_round
  negative_round-Holds k m none s = tt
  negative_round-Holds k m (some buf) s = elim (Bool-cases (length buf == m)) [
    | inr other ↦ rw other tt
    | inl nothing ↦ rw nothing (
        then-Holds _ _ (system_call-Holds tt (λ s. tt) (λ s. s) s)
          λ _ s1. elim (Bool-cases (k == 1)) [ inl one ↦ rw one tt | inr more ↦ rw more tt ])
  ]

  negative_size-Holds : (n : ℕ) (s : Streams) → Holds Anything (negative_size o src_file n s)
  unfolding negative_size
  negative_size-Holds n s = elim (Bool-cases ((2 ^ 64 - n) % max_buf_size == 0)) [
    | inl nothing ↦ rw nothing tt
    | inr partial ↦
        let k = (2 ^ 64 - n) % max_buf_size in
        let (m, e) = round_loop_ends o src_file 15 (2 ^ 64 - k) s (omega arith) in
        rw partial
          (rw e (then-Holds _ _ (read-Anything s) λ buf s1. negative_round-Holds k m buf s1))
  ]

  check_digest-Holds : (pwd : List ℕ) (s : Streams) → Holds Anything (check_digest o src_file pwd s)
  unfolding check_digest
  check_digest-Holds pwd s = then-Holds _ _ (read_exactly-Holds 16 _ s) λ digest s1.
      elim (Bool-cases (str_eq digest (take 16 (o.md5 pwd)))) [
        | inl same ↦ rw same tt
        | inr other ↦ rw other tt
      ]

  decrypt_key_of-Holds :
      (k : Option o.Key) (s : Streams) → Holds Anything (decrypt_key_of o src_file k s)
  decrypt_key_of-Holds none s = tt
  decrypt_key_of-Holds (some key) s = tt

  decrypt-Holds : (pwd : List ℕ) (s : Streams) → Holds Anything (decrypt o src_file pwd s)
  unfolding decrypt
  decrypt-Holds pwd s = then-Holds _ _ (read_exactly-Holds 8 _ s) λ size_bytes s1.
      then-Holds (decrypt_key_of o src_file (o.set_decrypt_key (pwd_padding pwd)) s1) _
        (decrypt_key_of-Holds _ s1)
        λ key s2. elim (Bool-cases (leb (2 ^ 63) (of_le_bytes size_bytes))) [
          | inl negative ↦ rw negative (negative_size-Holds (of_le_bytes size_bytes) s2)
          | inr size ↦ rw size (
              then-Holds _ _ (full_buffers-Holds key _ _ s2) λ iv s3. last_buffer-Holds key _ iv s3)
        ]

  decrypt_file-Holds : (pwd : List ℕ) (s : Streams) → Holds Anything (decrypt_file o src_file pwd s)
  unfolding decrypt_file decrypt_clear
  decrypt_file-Holds pwd s = then-Holds _ _ (check_digest-Holds pwd s) λ _ s1.
      then-Holds _ _ (decrypt-Holds pwd s1) λ _ s2.
        then-Holds _ _ (weaken (Stays s2) _ (close_or_throw-Holds _ s2)) λ _ s3.
          then-Holds _ _ (weaken (Stays s3) _ (fsync-Holds s3))
            λ _ s4. weaken (Stays s4) _ (close_or_throw-Holds _ s4)

-- For every OpenSSL, every password, every recorded size, every source and every row of failing
-- calls: the encryptor ends, and either succeeds or throws an exception that its handler catches: the
-- padding ends, and stays within the buffer.
pub encrypt_file_ends :
    (o : Openssl) (src_file pwd : List ℕ) (size : ℕ) (s : Streams)
    → ((s' : Streams) × (encrypt_file o src_file pwd size s ≡ ok tt s'))
      ⊎ ((e : BaseException) × (s' : Streams) × (encrypt_file o src_file pwd size s ≡ throw e s'))
encrypt_file_ends o src_file pwd size s =
    Holds-cases (encrypt_file o src_file pwd size s) (encrypt_file-Holds o src_file pwd size s)

-- Another digest than that of the password: an exception, and nothing has been written.
wrong_digest-throws :
    (o : Openssl) (src_file pwd : List ℕ) (s : Streams)
    → str_eq (take 16 s.input) (take 16 (o.md5 pwd)) ≡ false
    → (e : BaseException) × (s' : Streams) × (decrypt_file o src_file pwd s ≡ throw e s')
      × (s'.out ≡ s.out)
unfolding decrypt_file check_digest read_exactly read
wrong_digest-throws o src_file pwd s other = by_faults s.faults
  where
    no_digest : BaseException
    no_digest = error o src_file (codes "failed to read " ++ src_file)

    -- Behind a read that did not fail.
    compared :
        (later : List Bool)
        → (e : BaseException) × (s' : Streams) × (bind
              (bind
                (exactly 16 no_digest
                  (some (take 16 s.input))
                  (record s { faults = later; input = drop 16 s.input }))
                (λ digest.
                  if str_eq digest (take 16 (o.md5 pwd))
                  then pure tt
                  else raise (error o src_file (codes "wrong password"))))
              (λ _. decrypt o src_file pwd >> decrypt_clear o src_file)
            ≡ throw e s')
          × (s'.out ≡ s.out)
    compared later =
        let taken : Streams = record s { faults = later; input = drop 16 s.input } in
        elim (Bool-cases (length (take 16 s.input) == 16)) [
          | inl whole ↦
              (error o src_file (codes "wrong password"), taken, rw whole (rw other refl), refl)
          | inr short ↦ (no_digest, taken, rw short refl, refl)
        ]

    by_faults :
        (faults : List Bool)
        → (e : BaseException) × (s' : Streams) × (decrypt_file o src_file pwd
              (record s { faults = faults })
            ≡ throw e s')
          × (s'.out ≡ s.out)
    by_faults (true ∷ later) = (no_digest, record s { faults = later }, refl, refl)
    by_faults [] = compared []
    by_faults (false ∷ later) = compared later

-- For every OpenSSL, every password, every source, also one that no encryptor wrote, and every row of
-- failing calls: the decryptor ends. Either it succeeds, and the source starts with the digest of the
-- password, or it throws an exception that its handler catches, and then the source starts with that
-- digest or nothing has been written.
pub decrypt_file_ends :
    (o : Openssl) (src_file pwd : List ℕ) (s : Streams)
    → ((s' : Streams) × (decrypt_file o src_file pwd s ≡ ok tt s')
        × (take 16 s.input ≡ take 16 (o.md5 pwd)))
      ⊎ ((e : BaseException) × (s' : Streams) × (decrypt_file o src_file pwd s ≡ throw e s')
          × ((take 16 s.input ≡ take 16 (o.md5 pwd)) ⊎ (s'.out ≡ s.out)))
decrypt_file_ends o src_file pwd s =
    elim (Bool-cases (str_eq (take 16 s.input) (take 16 (o.md5 pwd)))) [
      | inr other ↦
          let (e, s', run, kept) = wrong_digest-throws o src_file pwd s other in
          inr (e, s', run, inr kept)
      | inl same ↦
          let digest = str_eq→≡ (take 16 s.input) (take 16 (o.md5 pwd)) same in
          elim (Holds-cases (decrypt_file o src_file pwd s) (decrypt_file-Holds o src_file pwd s)) [
            | inl (s', run) ↦ inl (s', run, digest)
            | inr (e, s', run) ↦ inr (e, s', run, inl digest)
          ]
    ]

-- ===== src/Crypt/Openssl.antt =====
-- The functions of OpenSSL that encryptor and decryptor call, and what the code relies on.
use data_backup.Base.{
  ℕ, zero, suc, ◌+◌, ◌-◌, ◌%◌, ◌^◌, ltb, ◌≤◌, ◌≡◌, refl, ap, sym, ◌∙◌, List, [], ◌∷◌, ◌++◌, Option,
  some, length, length-append, take, replicate, append_assoc, append-nil, ◌==◌, ==_iff,
  if◌then◌else◌, arith, inl, inr, Bool-cases,
}

pub record Openssl : Type 1 where
  pub Key : Type 0
  -- `MD5(d, n, out)`: the 16 bytes written.
  pub md5 : List ℕ → List ℕ
  -- `AES_set_encrypt_key(key, 128, &k)` and `AES_set_decrypt_key`: `none` is a negative result.
  pub set_encrypt_key : List ℕ → Option Key
  pub set_decrypt_key : List ℕ → Option Key
  -- `AES_cbc_encrypt(in, out, n, &k, iv, enc)`: the output, and the bytes that it leaves in `iv`.
  pub cbc_encrypt : Key → List ℕ → List ℕ → List ℕ × List ℕ
  pub cbc_decrypt : Key → List ℕ → List ℕ → List ℕ × List ℕ

abbrev pub aes_block_size : ℕ
aes_block_size = 16

-- The two keys made from 16 bytes, and that on whole blocks decryption undoes encryption and leaves
-- the same vector behind.
pub record KeyPair (o : Openssl) (bytes : List ℕ) : Type 0 where
  pub encrypt_key : o.Key
  pub decrypt_key : o.Key
  pub encrypt_key_is : o.set_encrypt_key bytes ≡ some encrypt_key
  pub decrypt_key_is : o.set_decrypt_key bytes ≡ some decrypt_key
  pub length-cbc_encrypt :
      (iv plain : List ℕ)
      → length plain % aes_block_size ≡ 0
      → length (o.cbc_encrypt encrypt_key iv plain).0 ≡ length plain
  pub decrypt-encrypt :
      (iv plain : List ℕ)
      → length plain % aes_block_size ≡ 0
      → o.cbc_decrypt decrypt_key iv (o.cbc_encrypt encrypt_key iv plain).0
        ≡ (plain, (o.cbc_encrypt encrypt_key iv plain).1)

pub record IsLawful (o : Openssl) : Type 0 where
  pub length-md5 : (d : List ℕ) → length (o.md5 d) ≡ 16
  pub keys : (bytes : List ℕ) → length bytes ≡ 16 → KeyPair o bytes

-- `min(16, (int)pwd_.size())`, as the number of rounds: the cast takes the lower 32 bits, and a
-- negative number gives no round.
abbrev pub loop_times : ℕ → ℕ
loop_times size =
    let low = size % 2 ^ 32 in if ltb low (2 ^ 31) then (if ltb low 16 then low else 16) else 0

-- `pwd_padding`: the first 16 bytes of the password, and zeros behind a shorter one.
unfoldable pub pwd_padding : List ℕ → List ℕ
pwd_padding pwd = let n = loop_times (length pwd) in take n pwd ++ replicate (16 - n) 0

-- The next whole number of blocks, in steps of one.
unfoldable pub round_up : ℕ → ℕ → ℕ
round_up zero n = n
round_up (suc fuel) n = round_up fuel (if n % aes_block_size == 0 then n else n + 1)

-- A buffer with a zero more in each step.
unfoldable pub pad : ℕ → List ℕ → List ℕ
pad zero buf = buf
pad (suc fuel) buf = pad fuel (if length buf % aes_block_size == 0 then buf else buf ++ 0 ∷ [])

pub length-pad : (fuel : ℕ) (buf : List ℕ) → length (pad fuel buf) ≡ round_up fuel (length buf)
unfolding pad round_up
length-pad zero buf = refl
length-pad (suc fuel) buf = elim (Bool-cases (length buf % aes_block_size == 0)) [
  | inl done ↦ rw done (length-pad fuel buf)
  | inr more ↦
      rw more (length-pad fuel (buf ++ 0 ∷ []) ∙ ap (round_up fuel) (length-append buf (0 ∷ [])))
]

-- Only zeros are added behind the buffer.
pub pad_extends : (fuel : ℕ) (buf : List ℕ) → (z : List ℕ) × (pad fuel buf ≡ buf ++ z)
unfolding pad
pad_extends zero buf = ([], sym (append-nil buf))
pad_extends (suc fuel) buf = elim (Bool-cases (length buf % aes_block_size == 0)) [
  | inl done ↦ rw done (pad_extends fuel buf)
  | inr more ↦
      let (z, e) = pad_extends fuel (buf ++ 0 ∷ []) in
      rw more (0 ∷ z, e ∙ append_assoc buf (0 ∷ []) z)
]

-- With enough fuel the result is a whole number of blocks; a whole number stays as it is.
pub round_up_lem :
    (fuel n : ℕ)
    → (16 - n % 16) % 16 ≤ fuel
    → (round_up fuel n % aes_block_size ≡ 0)
      × (n ≤ round_up fuel n)
      × (round_up fuel n ≤ n + (16 - n % 16) % 16)
unfolding round_up
round_up_lem zero n h = (omega arith, omega arith, omega arith)
round_up_lem (suc fuel) n h = elim (Bool-cases (n % aes_block_size == 0)) [
  | inl done ↦ rw done (round_up_lem fuel n (ground arith))
  | inr more ↦
      let (a, b, c) = round_up_lem fuel (n + 1) (ground arith) in
      rw more (a, omega arith, ground arith)
]

-- Whole blocks stay as they are.
pub pad_whole : (fuel : ℕ) (buf : List ℕ) → length buf % aes_block_size ≡ 0 → pad fuel buf ≡ buf
unfolding pad
pad_whole zero buf h = refl
pad_whole (suc fuel) buf h = rw ((==_iff _ _).1 h) (pad_whole fuel buf h)

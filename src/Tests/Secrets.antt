-- ===== src/Tests/Secrets.antt =====
-- Runs of encryptor and decryptor with a cipher that adds one to each byte.
use data_backup.Base.{
  ℕ, suc, ◌-◌, ◌≡◌, ◌≢◌, ◌⊎◌, true, false, refl, ap, List, [], ◌∷◌, ◌++◌, some, map, length, take,
  drop, replicate, length-append, length-take, length-replicate, arith,
}
use data_backup.Io.{Streams, BaseException, ok, throw, streams, codes}
use data_backup.Crypt.Openssl.{Openssl, IsLawful}
use data_backup.Crypt.Encrypt.{encrypt_file}
use data_backup.Crypt.Decrypt.{decrypt_file, error}
use data_backup.Crypt.Safe.{encrypt_file_ends, decrypt_file_ends}
use data_backup.Crypt.RoundTrip.{decrypt_file-encrypt_file, wrong_password-encrypt_file}

abbrev pub add_one : Openssl
add_one = record {
  Key = Unit {0};
  md5 = λ d. take 16 (d ++ replicate 16 0);
  set_encrypt_key = λ bytes. some tt;
  set_decrypt_key = λ bytes. some tt;
  cbc_encrypt = λ key iv plain. (map suc plain, iv);
  cbc_decrypt = λ key iv coded. (map (λ b. b - 1) coded, iv);
}

length-map-suc : (xs : List ℕ) → length (map suc xs) ≡ length xs
length-map-suc [] = refl
length-map-suc (x ∷ xs) = ap suc (length-map-suc xs)

subtract_one_lem : (xs : List ℕ) → map (λ b. b - 1) (map suc xs) ≡ xs
subtract_one_lem [] = refl
subtract_one_lem (x ∷ xs) = let e : suc x - 1 ≡ x = omega arith in cc (e, subtract_one_lem xs)

pub add_one-IsLawful : IsLawful add_one
add_one-IsLawful = record {
  length-md5 = λ d. omega (
    arith,
    length-take 16 (d ++ replicate 16 0),
    length-append d (replicate 16 0),
    length-replicate {A = ℕ} 16 0,
  );
  keys = λ bytes h. record {
    encrypt_key = tt;
    decrypt_key = tt;
    encrypt_key_is = refl;
    decrypt_key_is = refl;
    length-cbc_encrypt = λ iv plain aligned. length-map-suc plain;
    decrypt-encrypt = λ iv plain aligned. ap (λ xs. (xs, iv)) (subtract_one_lem plain);
  };
}

abbrev pub abc : List ℕ
abc = codes "abc"

decrypt_file-encrypt_file_example :
    (enc : List ℕ) × (encrypt_file add_one [] (codes "key") 3 (streams abc abc [] 0)
      ≡ ok tt (streams [] abc enc (length enc)))
    × (decrypt_file add_one [] (codes "key") (streams enc enc [] 0) ≡ ok tt (streams [] enc abc 3))
decrypt_file-encrypt_file_example =
    decrypt_file-encrypt_file add_one add_one-IsLawful [] [] (codes "key") abc (omega arith)

key_ne_kez : take 16 (add_one.md5 (codes "key")) ≢ take 16 (add_one.md5 (codes "kez"))
key_ne_kez h = grind (arith, h)

wrong_password-encrypt_file_example :
    (enc : List ℕ) × (encrypt_file add_one [] (codes "key") 3 (streams abc abc [] 0)
      ≡ ok tt (streams [] abc enc (length enc)))
    × (decrypt_file add_one [] (codes "kez") (streams enc enc [] 0)
        ≡ throw (error add_one [] (codes "wrong password")) (streams (drop 16 enc) enc [] 0))
wrong_password-encrypt_file_example =
    wrong_password-encrypt_file add_one add_one-IsLawful [] [] (codes "key") (codes "kez") abc
      key_ne_kez

-- Three bytes, and the third call fails.
abbrev failing : Streams
failing = record { input = abc; whole = abc; out = []; pos = 0; faults = false ∷ false ∷ true ∷ [] }

encrypt_file_ends_example :
    ((s' : Streams) × (encrypt_file add_one [] (codes "key") 3 failing ≡ ok tt s'))
    ⊎ ((e : BaseException) × (s' : Streams) × (encrypt_file add_one [] (codes "key") 3 failing
          ≡ throw e s'))
encrypt_file_ends_example = encrypt_file_ends add_one [] (codes "key") 3 failing

decrypt_file_ends_example :
    ((s' : Streams) × (decrypt_file add_one [] (codes "key") failing ≡ ok tt s')
      × (take 16 abc ≡ take 16 (add_one.md5 (codes "key"))))
    ⊎ ((e : BaseException) × (s' : Streams) × (decrypt_file add_one [] (codes "key") failing
          ≡ throw e s')
        × ((take 16 abc ≡ take 16 (add_one.md5 (codes "key"))) ⊎ (s'.out ≡ [])))
decrypt_file_ends_example = decrypt_file_ends add_one [] (codes "key") failing

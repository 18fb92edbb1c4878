-- ===== src/Handler/RoundTrip.antt =====
-- One handler after the other, over files: what is undone is the file again.
use data_backup.Base.{
  ℕ, ◌<◌, ◌^◌, ◌≡◌, refl, false, true, List, [], ◌∷◌, ◌++◌, none, ap, ◌∙◌, some, All, IsByte,
  length, str_eq, pos,
}
use data_backup.Io.{Streams, ok, codes, streams}
use data_backup.Huffman.{PriorityQueue, IsLawful}
use data_backup.Utils.Paths.{rename_base}
use data_backup.World.Files.{Target, can_create}
use data_backup.World.Store.{store, calm, HasFile, store-HasFile, can_create-store}
use data_backup.Handler.Chain.{Next, place, is_empty, new_job, on_streams}
use data_backup.Handler.Runs.{
  done, opened, streams_lem, open_files_lem, on_streams_lem, work_lem, handle_alone_lem,
  handle_last_lem,
}
use data_backup.Compress.Handle as CompressHandle
use data_backup.Decompress.{decompress}
use data_backup.Decompress.Handle as DecompressHandle
use data_backup.Decompress.RoundTrip.{file_bytes, decompress_lem}
use data_backup.Crypt.Openssl.{Openssl, IsLawful as OpensslLaws}
use data_backup.Crypt.Encrypt.{encrypt_file}
use data_backup.Crypt.Decrypt.{decrypt_file}
use data_backup.Crypt.RoundTrip.{file_of, encrypt_file_lem, decrypt_file_lem}
use data_backup.Crypt.Handle.{
  encrypt_init, encrypt_work, encrypt_handle, decrypt_init, decrypt_work, decrypt_handle,
}
use data_backup.Compress.Whole.{compress_lem}

pub not_empty : (dst name : List ℕ) → is_empty (dst ++ codes "/" ++ name) ≡ false
not_empty [] name = refl
not_empty (c ∷ cs) name = refl

-- A file of these bytes is the compressed form of `xs`.
abbrev pub IsCompressed : PriorityQueue → List ℕ → List ℕ → Type 0
IsCompressed pq cmp xs =
    (src dst : List ℕ) (uninit : ℕ)
    → decompress pq src dst uninit (streams cmp cmp [] 0) ≡ ok tt (streams [] cmp xs (length xs))

module _ (pq : PriorityQueue) (L : IsLawful pq) (t : Target) where
  pub compress_work_lem :
      (next : Next) (src dst dst_file : List ℕ) (x : ℕ) (xs : List ℕ) (f : HasFile t src (x ∷ xs))
      → All IsByte (x ∷ xs)
      → is_empty src ≡ false
      → place next dst (rename_base src (codes "cmp")) ≡ some dst_file
      → can_create t dst_file ≡ true
      → (cmp : List ℕ) × (CompressHandle.work pq next src dst (new_job (calm t))
          ≡ ok tt (done f.ino dst_file cmp t))
        × IsCompressed pq cmp (x ∷ xs)
  unfolding CompressHandle.work CompressHandle.init
  compress_work_lem next src dst dst_file x xs f bytes some_src name may =
      let c = compress_lem pq L src dst_file x xs bytes in
      let cmp = file_bytes pq [] [] 0 src dst_file (x ∷ xs) c in
      (
        cmp,
        rw name (
            rw (open_files_lem t src (x ∷ xs) dst_file f some_src may _)
              (on_streams_lem t src (x ∷ xs) dst_file f some_src may _ _ _ cmp c.offset c.run)),
        λ s d uninit. decompress_lem pq s d uninit src dst_file (x ∷ xs) c,
      )

pub decompress_handle_lem :
    (pq : PriorityQueue) (uninit : ℕ) (t : Target) (src dst cmp xs : List ℕ)
    → HasFile t src cmp
    → IsCompressed pq cmp xs
    → is_empty src ≡ false
    → can_create t dst ≡ true
    → DecompressHandle.handle pq uninit src dst (calm t) ≡ ok (pos 0) (calm (store dst xs t))
unfolding DecompressHandle.handle DecompressHandle.work DecompressHandle.init
decompress_handle_lem pq uninit t src dst cmp xs f back some_src may =
    handle_alone_lem t src cmp dst f some_src may _ xs
      (work_lem t src cmp dst f some_src may _ _ _ _ xs (length xs) (back src dst uninit))

-- For every lawful priority queue, every path with a dot in its last component that names a file of
-- bytes that is not empty, and every target directory where the new name, and then another, is free:
-- with no failing call the compressor at the end of a chain and then the decompressor return 0 and do
-- no more than store one new file each, the second with the bytes of the source.
pub decompress_handle-compress_handle :
    (pq : PriorityQueue) (L : IsLawful pq) (uninit : ℕ) (t : Target) (src dst dst' name : List ℕ)
    (x : ℕ) (xs : List ℕ)
    → HasFile t src (x ∷ xs)
    → All IsByte (x ∷ xs)
    → is_empty src ≡ false
    → rename_base src (codes "cmp") ≡ some name
    → let dst_file = dst ++ codes "/" ++ name in
      can_create t dst_file ≡ true
      → can_create t dst' ≡ true
      → str_eq dst' dst_file ≡ false
      → (cmp : List ℕ) × (CompressHandle.handle pq none src dst (calm t)
          ≡ ok (pos 0) (calm (store dst_file cmp t)))
        × (DecompressHandle.handle pq uninit dst_file dst' (calm (store dst_file cmp t))
            ≡ ok (pos 0) (calm (store dst' (x ∷ xs) (store dst_file cmp t))))
unfolding CompressHandle.handle
decompress_handle-compress_handle pq L uninit t src dst dst' name x xs f bytes some_src named may
      may' apart =
    let dst_file = dst ++ codes "/" ++ name in
    let (cmp, run, back) =
      compress_work_lem pq L t none src dst dst_file x xs f bytes some_src
        (ap (place none dst) named) may in
    (
      cmp,
      handle_last_lem t f.ino _ dst dst_file cmp run,
      decompress_handle_lem pq uninit (store dst_file cmp t) dst_file dst' cmp (x ∷ xs)
          (store-HasFile dst_file cmp t) back (not_empty dst name)
          (can_create-store dst_file cmp dst' t apart may may'),
    )

-- A file of these bytes is the encrypted form of `xs` under `pwd`.
abbrev pub IsEncrypted : Openssl → List ℕ → List ℕ → List ℕ → Type 0
IsEncrypted o pwd enc xs =
    (src : List ℕ)
    → decrypt_file o src pwd (streams enc enc [] 0) ≡ ok tt (streams [] enc xs (length xs))

module _ (o : Openssl) (L : OpensslLaws o) (t : Target) where
  pub encrypt_work_lem :
      (next : Next) (pwd src dst dst_file xs : List ℕ) (f : HasFile t src xs)
      → length xs < 2 ^ 63
      → is_empty pwd ≡ false
      → is_empty src ≡ false
      → place next dst (rename_base src (codes "enc")) ≡ some dst_file
      → can_create t dst_file ≡ true
      → (enc : List ℕ) × (encrypt_work o pwd next src dst (new_job (calm t))
          ≡ ok tt (done f.ino dst_file enc t))
        × IsEncrypted o pwd enc xs
  unfolding encrypt_work encrypt_init
  encrypt_work_lem next pwd src dst dst_file xs f small some_pwd some_src name may =
      let enc = file_of o L pwd xs in
      (
        enc,
        rw name (
            rw (open_files_lem t src xs dst_file f some_src may _) (
              rw some_pwd (
                ap (λ bs. on_streams (encrypt_file o src pwd (length bs)) (opened f.ino dst_file t))
                  (ap (λ (s : Streams). s.input) (streams_lem t src xs dst_file f some_src may))
                ∙ on_streams_lem t src xs dst_file f some_src may _ [] xs enc (length enc)
                    (encrypt_file_lem o L src pwd xs)))),
        λ s. decrypt_file_lem o L s pwd xs small,
      )

pub decrypt_handle_lem :
    (o : Openssl) (t : Target) (pwd src dst enc xs : List ℕ)
    → HasFile t src enc
    → IsEncrypted o pwd enc xs
    → is_empty pwd ≡ false
    → is_empty src ≡ false
    → can_create t dst ≡ true
    → decrypt_handle o pwd src dst (calm t) ≡ ok (pos 0) (calm (store dst xs t))
unfolding decrypt_handle decrypt_work decrypt_init
decrypt_handle_lem o t pwd src dst enc xs f back some_pwd some_src may =
    handle_alone_lem t src enc dst f some_src may _ xs (
      rw (open_files_lem t src enc dst f some_src may _) (
        rw some_pwd
          (on_streams_lem t src enc dst f some_src may _ [] enc xs (length xs) (back src))))

-- For every lawful OpenSSL, every password that is not empty, every path with a dot in its last
-- component that names a file below 2^63 bytes, and every target directory where the new name, and
-- then another, is free: with no failing call the encryptor at the end of a chain and then the
-- decryptor with the same password return 0 and do no more than store one new file each, the second
-- with the bytes of the source.
pub decrypt_handle-encrypt_handle :
    (o : Openssl) (L : OpensslLaws o) (t : Target) (pwd src dst dst' name xs : List ℕ)
    → HasFile t src xs
    → length xs < 2 ^ 63
    → is_empty pwd ≡ false
    → is_empty src ≡ false
    → rename_base src (codes "enc") ≡ some name
    → let dst_file = dst ++ codes "/" ++ name in
      can_create t dst_file ≡ true
      → can_create t dst' ≡ true
      → str_eq dst' dst_file ≡ false
      → (enc : List ℕ) × (encrypt_handle o pwd none src dst (calm t)
          ≡ ok (pos 0) (calm (store dst_file enc t)))
        × (decrypt_handle o pwd dst_file dst' (calm (store dst_file enc t))
            ≡ ok (pos 0) (calm (store dst' xs (store dst_file enc t))))
unfolding encrypt_handle
decrypt_handle-encrypt_handle o L t pwd src dst dst' name xs f small some_pwd some_src named may
      may' apart =
    let dst_file = dst ++ codes "/" ++ name in
    let (enc, run, back) =
      encrypt_work_lem o L t none pwd src dst dst_file xs f small some_pwd some_src
        (ap (place none dst) named) may in
    (
      enc,
      handle_last_lem t f.ino _ dst dst_file enc run,
      decrypt_handle_lem o (store dst_file enc t) pwd dst_file dst' enc xs
          (store-HasFile dst_file enc t) back some_pwd (not_empty dst name)
          (can_create-store dst_file enc dst' t apart may may'),
    )

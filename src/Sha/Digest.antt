-- ===== src/Sha/Digest.antt =====
-- src/sha_hash.cpp: digests, and their digits in a buffer of 65 bytes. SHA-256 is a parameter.
use data_backup.Base.{
  ℕ, zero, suc, ◌+◌, ◌*◌, ◌/◌, ◌%◌, Bool, true, false, List, [], ◌∷◌, ◌++◌, Option, none, some,
  length, take, drop, set, ltb, leb, not, if◌then◌else◌,
}
use data_backup.Io.{
  Io, Streams, sha as sha_class, new_exception, codes, ok, throw_value, undefined, stuck, ◌>>=◌,
  ◌>>◌, pure, read, system_call,
}
use data_backup.Archive.Header.{c_string}

-- `SHA256_Init`, `SHA256_Update` and `SHA256_Final`: whether they return 1, and the digest of all bytes
-- that have been given.
pub record Sha256 : Type 0 where
  pub init_ok : Bool
  pub update_ok : Bool
  pub final_ok : Bool
  pub digest : List ℕ → List ℕ

-- `throw ShaException("", msg)`: by value.
abbrev pub raise_sha : {A : Type 0} → List ℕ → Io Streams A
raise_sha msg s = throw_value (new_exception sha_class msg) s

abbrev pub sha_unless : Bool → List ℕ → Io Streams (Unit {0})
sha_unless true msg = pure tt
sha_unless false msg = raise_sha msg

abbrev pub hex_digit : ℕ → ℕ
hex_digit n = if ltb n 10 then 48 + n else 87 + n

-- `sprintf("%02x", c)` for a `char` that holds the byte `b`: it is signed, and promoted to `int`.
unfoldable pub hex_text : ℕ → List ℕ
hex_text b =
    if ltb b 128
    then hex_digit (b / 16) ∷ hex_digit (b % 16) ∷ []
    else codes "ffffff" ++ hex_digit (b / 16) ∷ hex_digit (b % 16) ∷ []

-- What `sprintf` leaves of the buffer, with the zero at its end; `none` beyond the 65 bytes.
unfoldable pub print_at : ℕ → List ℕ → List ℕ → Option (List ℕ)
print_at i text buf =
    if leb (i + length text + 1) 65
    then some (take i buf ++ (text ++ 0 ∷ drop (i + length text + 1) buf))
    else none

abbrev pub and_then : Option (List ℕ) → (List ℕ → Option (List ℕ)) → Option (List ℕ)
and_then none f = none
and_then (some buf) f = f buf

-- The loop over the bytes of the digest, from the `i`th on.
unfoldable pub print_hash : ℕ → List ℕ → List ℕ → Option (List ℕ)
print_hash i [] buf = some buf
print_hash i (b ∷ hash) buf = and_then (print_at (i * 2) (hex_text b) buf) (print_hash (suc i) hash)

-- `outputBuffer[64] = 0`, and the string in the buffer.
abbrev finished : Option (List ℕ) → Option (List ℕ)
finished none = none
finished (some buf) = some (c_string (set buf 64 0))

-- `sha256_hash_string`, and `string(hash_val)`: `none` if the buffer is overrun. `uninit` is what it
-- first holds.
unfoldable pub hash_string : List ℕ → List ℕ → Option (List ℕ)
hash_string uninit hash = finished (print_hash 0 hash uninit)

abbrev pub printed : Option (List ℕ) → Io Streams (List ℕ)
printed none s = undefined
printed (some text) s = ok text s

abbrev pub is_some : Option (List ℕ) → Bool
is_some none = false
is_some (some xs) = true

module _ (sha : Sha256) (uninit : List ℕ) where
  -- `sha256_string`, of the bytes before the first zero.
  unfoldable pub sha256_string : List ℕ → Io Streams (List ℕ)
  sha256_string str = do
    sha_unless sha.init_ok (codes "SHA256_Init failed")
    sha_unless sha.update_ok (codes "SHA256_Init failed")
    sha_unless sha.final_ok (codes "SHA256_Init failed")
    printed (hash_string uninit (sha.digest (c_string str)))

  abbrev pub buf_size : ℕ
  buf_size = 32768

  -- A round: `fread` gives 0 at the end of the file and if it fails; `done` has been hashed.
  unfoldable pub fread_round :
      (List ℕ → Io Streams (List ℕ)) → List ℕ → Option (List ℕ) → Io Streams (List ℕ)
  fread_round again done none = pure done
  fread_round again done (some []) = pure done
  fread_round again done (some (b ∷ bs)) = do
    sha_unless sha.update_ok (codes "SHA256_Update failed")
    again (done ++ b ∷ bs)

  -- The bytes that have been hashed. Each round takes one of them at least.
  unfoldable pub fread_loop : ℕ → List ℕ → Io Streams (List ℕ)
  fread_loop zero done = λ s. stuck
  fread_loop (suc fuel) done = do bytes ← read buf_size; fread_round (fread_loop fuel) done bytes

  unfoldable pub hash_rest : List ℕ → Io Streams (List ℕ)
  hash_rest done s = fread_loop (suc (length s.input)) done s

  abbrev opened : Option (List ℕ) → Streams → Streams
  opened none s = s
  opened (some xs) s = record s { input = xs; whole = xs }

  -- `sha256_file`, of a file with these contents.
  unfoldable pub sha256_file : List ℕ → Option (List ℕ) → Io Streams (List ℕ)
  sha256_file path contents = do
    file ← system_call none (λ s. contents) (opened contents)
    sha_unless (is_some file) (codes "fopen failed on " ++ path)
    sha_unless sha.init_ok (codes "SHA256_Init failed")
    no_buffer ← system_call true (λ s. false) (λ s. s)
    sha_unless (not no_buffer) (codes "malloc failed")
    done ← hash_rest []
    sha_unless sha.final_ok (codes "SHA256_Final failed")
    text ← printed (hash_string uninit (sha.digest done))
    failed ← system_call true (λ s. false) (λ s. s)
    sha_unless (not failed) (codes "fclose failed on " ++ path)
    pure text

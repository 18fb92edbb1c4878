-- ===== src/Crypt/Handle.antt =====
-- src/encrypt.cpp and src/decrypt.cpp: `Init` and `Handle`.
use data_backup.Base.{ℕ, List, ◌++◌, ℤ, some, length}
use data_backup.Io.{Io, codes, ◌>>=◌, ◌>>◌, ok, throw_if}
use data_backup.Utils.Paths.{rename_base}
use data_backup.World.Calls.{World}
use data_backup.Handler.Chain.{
  Job, Next, InitErrors, open_files, on_streams, handle_alone, handle_in_chain, place, is_empty,
}
use data_backup.Crypt.Openssl.{Openssl}
use data_backup.Crypt.Encrypt.{encrypt_file, error as encrypt_error}
use data_backup.Crypt.Decrypt.{decrypt_file, error as decrypt_error}

module _ (o : Openssl) where
  abbrev pub encrypt_errors : List ℕ → InitErrors
  encrypt_errors src = record {
    bad_path = encrypt_error o src (codes "bad path");
    missing = encrypt_error o src (codes "lstat failed on " ++ src);
    no_stat = encrypt_error o src (codes "lstat failed on " ++ src);
    not_regular = encrypt_error o src (codes "not a regular file: " ++ src);
    no_source = encrypt_error o src (codes "open failed on " ++ src);
    no_sink = λ dst_file. encrypt_error o src (codes "failed to open dst file");
  }

  unfoldable pub encrypt_init : List ℕ → Next → List ℕ → List ℕ → Io Job (Unit {0})
  encrypt_init pwd next src dst = do
    open_files (encrypt_errors src) src (place next dst (rename_base src (codes "enc")))
    throw_if (is_empty pwd) (encrypt_error o src (codes "bad password"))

  -- `src_file_size_`, as `lstat` gives it.
  abbrev pub source_size : Io Job ℕ
  source_size j = ok (length (j.world.target.contents j.source)) j

  -- The body of the `try` block; `encrypt_file` is what follows `Init`.
  unfoldable pub encrypt_work : List ℕ → Next → List ℕ → List ℕ → Io Job (Unit {0})
  encrypt_work pwd next src dst = do
    encrypt_init pwd next src dst
    src_file_size ← source_size
    on_streams (encrypt_file o src pwd src_file_size)

  unfoldable pub encrypt_handle : List ℕ → Next → List ℕ → List ℕ → Io World ℤ
  encrypt_handle pwd next src dst = handle_in_chain (encrypt_work pwd next src dst) next dst

  abbrev pub decrypt_errors : List ℕ → InitErrors
  decrypt_errors src = record {
    bad_path = decrypt_error o src (codes "bad path");
    missing = decrypt_error o src (codes "lstat failed on " ++ src);
    no_stat = decrypt_error o src (codes "lstat failed on " ++ src);
    not_regular = decrypt_error o src (codes "not a regular file: " ++ src);
    no_source = decrypt_error o src (codes "open failed on " ++ src);
    no_sink = λ dst_file. decrypt_error o src (codes "open failed on dst file");
  }

  unfoldable pub decrypt_init : List ℕ → List ℕ → List ℕ → Io Job (Unit {0})
  decrypt_init pwd src dst = do
    open_files (decrypt_errors src) src (some dst)
    throw_if (is_empty pwd) (decrypt_error o src (codes "bad password"))

  unfoldable pub decrypt_work : List ℕ → List ℕ → List ℕ → Io Job (Unit {0})
  decrypt_work pwd src dst = do decrypt_init pwd src dst; on_streams (decrypt_file o src pwd)

  unfoldable pub decrypt_handle : List ℕ → List ℕ → List ℕ → Io World ℤ
  decrypt_handle pwd src dst = handle_alone (decrypt_work pwd src dst)

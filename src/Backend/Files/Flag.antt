-- ===== src/Backend/Files/Flag.antt =====
-- src/backend.cpp, the byte at the end of a backup file: what is appended is read and dropped again.
use data_backup.Base.{
  ℕ, suc, ◌≡◌, refl, ap, ◌∙◌, false, List, [], ◌∷◌, ◌++◌, some, length, length-append, take,
  take-append_exact, append_assoc, ◌==◌, arith,
}
use data_backup.Io.{ok}
use data_backup.World.Files.{Target, set_contents}
use data_backup.World.Calls.{open_existing, open_entry, close_file}
use data_backup.World.Store.{calm, HasFile, same}
use data_backup.Backend.Files.{
  last_byte, seek_last, read_byte, close_unread, read_open_flag, read_flag, resized, truncate,
  drop_flag, append_byte, append_flag,
}

last_byte-append : (xs : List ℕ) (b : ℕ) → last_byte (xs ++ b ∷ []) ≡ some b
last_byte-append [] b = refl
last_byte-append (x ∷ []) b = refl
last_byte-append (x ∷ y ∷ ys) b = last_byte-append (y ∷ ys) b

resized-append : (xs : List ℕ) (b : ℕ) → resized (length xs) (xs ++ b ∷ []) ≡ xs
resized-append xs b =
    ap (take (length xs)) (append_assoc xs (b ∷ []) _) ∙ take-append_exact (length xs) xs _ refl

-- A file whose contents are replaced, and other files.
pub set_contents-HasFile :
    (t : Target) (path ys zs : List ℕ) (f : HasFile t path ys)
    → HasFile (set_contents f.ino zs t) path zs
set_contents-HasFile t path ys zs f = record {
  ino = f.ino;
  named = f.named;
  holds = rw (same f.ino) refl;
  known = f.known;
}

pub HasFile-set_contents :
    (t : Target) (path ys zs : List ℕ) (i : ℕ) (f : HasFile t path ys)
    → (f.ino == i) ≡ false
    → HasFile (set_contents i zs t) path ys
HasFile-set_contents t path ys zs i f other = record {
  ino = f.ino;
  named = f.named;
  holds = rw other f.holds;
  known = f.known;
}

pub append_flag_lem :
    (t : Target) (path xs : List ℕ) (flag : ℕ) (f : HasFile t path xs)
    → append_flag path flag (calm t) ≡ ok tt (calm (set_contents f.ino (xs ++ flag ∷ []) t))
unfolding append_flag append_byte open_existing open_entry close_file
append_flag_lem t path xs flag f = rw f.named (rw f.holds refl)

pub read_flag_lem :
    (t : Target) (path xs : List ℕ) (flag : ℕ) (f : HasFile t path (xs ++ flag ∷ []))
    → read_flag path (calm t) ≡ ok flag (calm t)
unfolding read_flag read_open_flag seek_last read_byte close_unread open_existing open_entry
read_flag_lem t path xs flag f = rw f.named (rw f.holds (rw (last_byte-append xs flag) refl))

pub drop_flag_lem :
    (uninit : ℕ) (t : Target) (path xs : List ℕ) (flag : ℕ) (f : HasFile t path (xs ++ flag ∷ []))
    → drop_flag uninit path (calm t) ≡ ok tt (calm (set_contents f.ino xs t))
unfolding drop_flag truncate
drop_flag_lem uninit t path xs flag f =
    let size : length (xs ++ flag ∷ []) ≡ suc (length xs) =
      omega (arith, length-append xs (flag ∷ [])) in
    rw f.named (rw f.holds (rw size (rw f.named (rw f.holds (rw (resized-append xs flag) refl)))))

-- ===== src/Archive/Written.antt =====
-- The bytes of a header in the archive, as `Serialize` writes them.
use data_backup.Base.{
  ℕ, ◌+◌, ◌^◌, ◌<◌, ◌≡◌, ◌≢◌, refl, ap, ◌∙◌, true, List, [], ◌∷◌, ◌++◌, length, length-append,
  take-append_exact, append_assoc, append-nil, All, pos, le_bytes, length-le_bytes, leb, ◌==◌,
  ==_iff, arith,
}
use data_backup.Io.{ok, streams, write, write_at-end}
use data_backup.Archive.Header.{Timespec, Header, fixed_fields, write_fields, serialize, c_string}

abbrev pub NoNul : List ℕ → Type 0
NoNul = All (λ b. b ≢ 0)

abbrev pub IsTime : Timespec → Type 0
IsTime t = (t.tv_sec < 2 ^ 64) × (t.tv_nsec < 2 ^ 64)

-- What `ParseHeader` and `PackLink` make: lengths that are those of the paths, paths as C strings,
-- and words that fit their types.
pub record IsSerializable (h : Header) : Type 0 where
  pub path_len : h.file_path_len ≡ length h.file_path
  pub ln_len : h.ln_path_len ≡ length h.ln_path
  pub path_text : All (λ b. b ≢ 0) h.file_path
  pub ln_text : All (λ b. b ≢ 0) h.ln_path
  pub path_fits : length h.file_path < 2 ^ 64
  pub ln_fits : length h.ln_path < 2 ^ 64
  pub ino_fits : h.st_ino < 2 ^ 64
  pub mode_fits : h.st_mode < 2 ^ 32
  pub nlink_fits : h.st_nlink < 2 ^ 64
  pub uid_fits : h.st_uid < 2 ^ 32
  pub gid_fits : h.st_gid < 2 ^ 32
  pub atime_fits : IsTime h.st_atime
  pub mtime_fits : IsTime h.st_mtime
  pub blocks_fit : h.block_num < 2 ^ 64
  pub padding_fits : h.padding < 2 ^ 32

-- The fields in a row, and what follows them.
abbrev pub then_fields : List (List ℕ) → List ℕ → List ℕ
then_fields [] rest = rest
then_fields (f ∷ fs) rest = f ++ then_fields fs rest

then_fields-append :
    (fs : List (List ℕ)) (more rest : List ℕ)
    → then_fields fs more ++ rest ≡ then_fields fs (more ++ rest)
then_fields-append [] more rest = refl
then_fields-append (f ∷ fs) more rest =
    append_assoc f (then_fields fs more) rest ∙ ap (λ t. f ++ t) (then_fields-append fs more rest)

-- The header in the archive.
abbrev pub header_then : Header → List ℕ → List ℕ
header_then h rest = then_fields (fixed_fields h) (h.file_path ++ (h.ln_path ++ rest))

abbrev pub header_bytes : Header → List ℕ
header_bytes h = header_then h []

pub header_bytes-append : (h : Header) (rest : List ℕ) → header_bytes h ++ rest ≡ header_then h rest
header_bytes-append h rest =
    then_fields-append (fixed_fields h) (h.file_path ++ (h.ln_path ++ [])) rest
    ∙ ap (then_fields (fixed_fields h)) (
        append_assoc h.file_path (h.ln_path ++ []) rest
        ∙ ap (λ t. h.file_path ++ t) (append_assoc h.ln_path [] rest))

beq_refl : (n : ℕ) → (n == n) ≡ true
beq_refl n = (==_iff n n).1 refl

leb-suc : (n : ℕ) → leb n (n + 1) ≡ true
leb-suc n = ground arith

write_fields_lem :
    (fs : List (List ℕ)) (rest whole out : List ℕ)
    → write_fields fs (streams rest whole out (length out))
      ≡ ok
          (pos 0)
          (streams rest whole (out ++ then_fields fs []) (length (out ++ then_fields fs [])))
unfolding write_fields write
write_fields_lem [] rest whole out = rw (append-nil out) refl
write_fields_lem (f ∷ fs) rest whole out = rw (beq_refl (length f)) (
    rw (write_at-end out f (length out) refl) (
      rw (← length-append out f) (
        rw (write_fields_lem fs rest whole (out ++ f))
          (rw (append_assoc out f (then_fields fs [])) refl))))

-- `Serialize` appends the header.
pub serialize_lem :
    (h : Header) (fd : ℕ) (rest whole out : List ℕ)
    → IsSerializable h
    → serialize h (pos fd) (streams rest whole out (length out))
      ≡ ok (pos 0) (streams rest whole (out ++ header_bytes h) (length (out ++ header_bytes h)))
unfolding serialize
serialize_lem h fd rest whole out v =
    rw (v.path_len, v.ln_len)
      (rw (leb-suc (length h.file_path), leb-suc (length h.ln_path))
        (rw (write_fields_lem _ rest whole out) (
          rw
            (
              take-append_exact (length h.file_path) h.file_path (0 ∷ []) refl,
              take-append_exact (length h.ln_path) h.ln_path (0 ∷ []) refl,
            )
            refl)))

pub c_string-NoNul : (bs : List ℕ) → NoNul bs → c_string bs ≡ bs
c_string-NoNul [] h = refl
c_string-NoNul (b ∷ bs) (hb, h) = rw (c_string-NoNul bs h) (ground arith)

pub header-nonempty : (h : Header) (rest : List ℕ) → 0 < length (header_then h rest)
header-nonempty h rest =
    omega (arith, length-append (le_bytes 8 h.file_path_len) _, length-le_bytes 8 h.file_path_len)

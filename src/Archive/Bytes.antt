-- ===== src/Archive/Bytes.antt =====
-- An archive of bytes consists of bytes.
use data_backup.Base.{
  ℕ, zero, suc, List, [], ◌∷◌, ◌++◌, All, All-append, All-drop, IsByte, le_bytes, le_bytes-IsByte,
  replicate, length, arith,
}
use data_backup.Archive.Header.{Header, Timespec, fixed_fields}
use data_backup.Archive.Written.{header_bytes, then_fields}
use data_backup.Archive.Regular.{block_bytes}
use data_backup.Archive.Pack.{SourceTree, Stat, parse_header, parent_path}
use data_backup.Archive.Single.{IsRegularFile, archive}

replicate-IsByte : (n : ℕ) → All IsByte (replicate n 0)
replicate-IsByte zero = tt
replicate-IsByte (suc n) = (omega arith, replicate-IsByte n)

then_fields-IsByte :
    (fs : List (List ℕ)) (rest : List ℕ)
    → All (λ f. All IsByte f) fs
    → All IsByte rest
    → All IsByte (then_fields fs rest)
then_fields-IsByte [] rest hs h = h
then_fields-IsByte (f ∷ fs) rest (hf, hs) h =
    All-append IsByte f (then_fields fs rest) hf (then_fields-IsByte fs rest hs h)

fixed_fields-IsByte : (h : Header) → All (λ f. All IsByte f) (fixed_fields h)
fixed_fields-IsByte h =
    let word = λ (k n : ℕ). le_bytes-IsByte k n in
    let time = λ (t : Timespec).
      All-append IsByte (le_bytes 8 t.tv_sec) (le_bytes 8 t.tv_nsec) (word 8 t.tv_sec)
        (word 8 t.tv_nsec) in
    (
      word 8 _,
      (
        word 8 _,
        (
          word 8 _,
          (
            word 4 _,
            (
              word 8 _,
              (
                word 4 _,
                (word 4 _, (time h.st_atime, (time h.st_mtime, (word 8 _, (word 4 _, tt))))),
              ),
            ),
          ),
        ),
      ),
    )

pub archive-IsByte :
    (tree : SourceTree) (src : List ℕ) (st : Stat) (xs : List ℕ) (f : IsRegularFile tree src st xs)
    → All IsByte src
    → All IsByte xs
    → All IsByte (archive tree src st xs f)
unfolding parse_header
archive-IsByte tree src st xs f hs hx =
    let h = parse_header (parent_path src) src st in
    All-append IsByte (header_bytes h) (block_bytes h xs)
      (then_fields-IsByte (fixed_fields h) (h.file_path ++ (h.ln_path ++ []))
        (fixed_fields-IsByte h)
        (All-append IsByte h.file_path (h.ln_path ++ [])
          (All-drop IsByte (length (parent_path src)) src hs) tt))
      (All-append IsByte xs (replicate h.padding 0) hx (replicate-IsByte h.padding))

-- ===== src/Archive/PackEnds.antt =====
-- The packer at one file that is no directory, with any failing calls.
use data_backup.Base.{
  ℕ, zero, suc, ◌+◌, ◌≡◌, refl, Bool, true, false, inl, inr, Bool-cases, List, [], ◌∷◌, ◌++◌,
  Option, none, some, pos, length, leb, ltb, ◌&&◌, ◌==◌, arith,
}
use data_backup.Io.{
  Io, Streams, throw_if, system_call, read, write, close_or_throw, is_failure, differs, codes,
}
use data_backup.Io.Safe.{
  Holds, Stays, Anything, Taken, write_exactly-Holds, close_or_throw-Holds, read-Holds, weaken,
  then-Holds, system_call-Holds, throw_if-Anything,
}
use data_backup.Archive.Header.{Header, write_fields, serialize}
use data_backup.Archive.Pack.{
  my_block_size, SourceTree, Stat, parse_header, pack_blocks, block_round, write_header,
  restore_access_time, pack_contents, pack_regular, pack_link, error, member,
}

write_fields-Holds : (fs : List (List ℕ)) (s : Streams) → Holds Anything (write_fields fs s)
unfolding write_fields write
write_fields-Holds [] s = tt
write_fields-Holds (f ∷ fs) s = then-Holds (write f s) _ (system_call-Holds _ _ _ s) λ n s1.
    elim (Bool-cases (differs n (length f))) [
      | inl short ↦ rw short tt
      | inr written ↦ rw written (write_fields-Holds fs s1)
    ]

leb-suc : (n : ℕ) → leb n (n + 1) ≡ true
leb-suc n = ground arith

-- A header whose lengths are those of its paths is written without reading beyond them.
serialize-Holds :
    (h : Header) (fd : ℕ) (s : Streams)
    → h.file_path_len ≡ length h.file_path
    → h.ln_path_len ≡ length h.ln_path
    → Holds Anything (serialize h (pos fd) s)
unfolding serialize
serialize-Holds h fd s ep el =
    rw (ep, el)
      (rw (leb-suc (length h.file_path), leb-suc (length h.ln_path)) (write_fields-Holds _ s))

block_round-Holds :
    (src_file : List ℕ) (is_last : Bool) (again : List ℕ → Io Streams (Unit {0}))
    → ((b : List ℕ) (s : Streams) → Holds Anything (again b s))
    → (buf : List ℕ) (bytes : Option (List ℕ)) (s : Streams)
    → Holds Anything (block_round src_file is_last again buf bytes s)
unfolding block_round
block_round-Holds src_file is_last again h buf none s = tt
block_round-Holds src_file is_last again h buf (some []) s = tt
block_round-Holds src_file is_last again h buf (some (b ∷ bs)) s =
    then-Holds _ _ (weaken (Stays s) _ (write_exactly-Holds _ _ s)) λ _ s1. h _ s1

pack_blocks-Holds :
    (src_file : List ℕ) (n : ℕ) (buf : List ℕ) (s : Streams)
    → Holds Anything (pack_blocks src_file n buf s)
unfolding pack_blocks
pack_blocks-Holds src_file zero buf s = tt
pack_blocks-Holds src_file (suc n) buf s =
    then-Holds (read my_block_size s) _
      (weaken (Taken my_block_size s) _ (read-Holds my_block_size s))
      λ bytes s1.
        block_round-Holds src_file (n == 0) (pack_blocks src_file n)
          (λ b s2. pack_blocks-Holds src_file n b s2) buf bytes s1

module _ (tree : SourceTree) (parent uninit : List ℕ) (dst_fd : ℕ) where
  pub write_header-Holds :
      (src_file : List ℕ) (h : Header) (s : Streams)
      → h.file_path_len ≡ length h.file_path
      → h.ln_path_len ≡ length h.ln_path
      → Holds Anything (write_header tree parent uninit dst_fd src_file h s)
  unfolding write_header
  write_header-Holds src_file h s ep el =
      then-Holds (serialize h (pos dst_fd) s) _ (serialize-Holds h dst_fd s ep el)
        λ r s1. throw_if-Anything _ _ s1

  pub restore-Holds :
      (src_file : List ℕ) (s : Streams)
      → Holds Anything (restore_access_time tree parent uninit dst_fd src_file s)
  unfolding restore_access_time
  restore-Holds src_file s =
      then-Holds (system_call true (λ s. false) (λ s. s) s) _ (system_call-Holds _ _ _ s)
        λ b s1. throw_if-Anything b _ s1

  pack_contents-Holds :
      (src_file : List ℕ) (h : Header) (s : Streams)
      → Holds Anything (pack_contents tree parent uninit dst_fd src_file h s)
  unfolding pack_contents
  pack_contents-Holds src_file h s = then-Holds _ _ (system_call-Holds _ _ _ s) λ contents s1.
      then-Holds (throw_if (is_failure contents) (error (codes "open failed on " ++ src_file)) s1) _
        (throw_if-Anything _ _ s1)
        λ _ s2.
          then-Holds (pack_blocks src_file h.block_num uninit s2) _
            (pack_blocks-Holds src_file h.block_num uninit s2)
            λ _ s3.
              then-Holds (close_or_throw (error (codes "close failed on " ++ src_file)) s3) _
                (weaken (Stays s3) _ (close_or_throw-Holds _ s3)) λ _ s4. restore-Holds src_file s4

  abbrev header_of : List ℕ → Stat → Header
  header_of src_file st = parse_header parent src_file st

  pub pack_regular-Holds :
      (src_file : List ℕ) (st : Stat) (set : List ℕ) (s : Streams)
      → Holds Anything
          (pack_regular tree parent uninit dst_fd src_file st (header_of src_file st) set s)
  unfolding pack_regular parse_header
  pack_regular-Holds src_file st set s =
      then-Holds _ _ (write_header-Holds src_file (header_of src_file st) s refl refl) λ _ s1.
        elim (Bool-cases (ltb 1 st.st_nlink && member st.st_nlink set)) [
          | inl linked ↦ rw linked tt
          | inr first ↦
              rw first (
                then-Holds _ _ (pack_contents-Holds src_file (header_of src_file st) s1) λ _ s2. tt)
        ]

  pub pack_link-Holds :
      (src_file : List ℕ) (st : Stat) (s : Streams)
      → Holds Anything (pack_link tree parent uninit dst_fd src_file (header_of src_file st) s)
  unfolding pack_link parse_header
  pack_link-Holds src_file st s = then-Holds _ _ (system_call-Holds _ _ _ s) λ target s1.
      then-Holds (throw_if (is_failure target) (error (codes "readlink failed on " ++ src_file)) s1)
        _ (throw_if-Anything _ _ s1) λ _ s2. write_header-Holds src_file _ s2 refl refl

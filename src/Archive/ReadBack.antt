-- ===== src/Archive/ReadBack.antt =====
-- The bytes of a header in the archive, as `DeSerialize` reads them.
use data_backup.Base.{
  ℕ, zero, suc, ◌-◌, ◌*◌, ◌/◌, ◌%◌, ◌≡◌, ◌≢◌, refl, ap, sym, ◌∙◌, false, List, [], ◌∷◌, ◌++◌, some,
  length, length-append, take, drop, take-append_exact, drop-append_exact, take-append-drop,
  length-take, length-drop, append_assoc, append-nil, All-take, All-drop, pos, le_bytes,
  length-le_bytes, of_le_bytes-le_bytes, ◌==◌, ==_iff, arith,
}
use data_backup.Io.{ok, streams}
use data_backup.Archive.Reader.{take_bytes_lem, word_lem, tell, seek_end, seek_set}
use data_backup.Archive.Header.{
  Timespec, Header, max_nm_lth, read_pieces, read_path, read_timespec, read_header, parsed, at_end,
  deserialize,
}
use data_backup.Archive.Written.{
  NoNul, IsTime, IsSerializable, header_then, header_bytes, header_bytes-append, header-nonempty,
  c_string-NoNul,
}

read_pieces_lem :
    (n : ℕ) (p acc rest whole out : List ℕ) (offset : ℕ)
    → length p ≡ n * max_nm_lth
    → NoNul p
    → read_pieces n acc (streams (p ++ rest) whole out offset)
      ≡ ok (some (acc ++ p)) (streams rest whole out offset)
unfolding read_pieces
read_pieces_lem zero [] acc rest whole out offset e h = rw (append-nil acc) refl
read_pieces_lem zero (b ∷ bs) acc rest whole out offset e h = absurd (omega arith)
read_pieces_lem (suc n) p acc rest whole out offset e h =
    let buf = take max_nm_lth p in
    let more = drop max_nm_lth p in
    let whole_piece : length buf ≡ max_nm_lth = omega (arith, length-take max_nm_lth p) in
    let split : p ++ rest ≡ buf ++ (more ++ rest) =
      ap (λ t. t ++ rest) (sym (take-append-drop max_nm_lth p)) ∙ append_assoc buf more rest in
    rw split (
      rw (take_bytes_lem max_nm_lth buf (more ++ rest) whole out offset whole_piece) (
        rw (c_string-NoNul buf (All-take (λ b. b ≢ 0) max_nm_lth p h)) (
          read_pieces_lem n more (acc ++ buf) rest whole out offset
            (omega (arith, length-drop max_nm_lth p)) (All-drop (λ b. b ≢ 0) max_nm_lth p h)
          ∙ rw (append_assoc acc buf more, take-append-drop max_nm_lth p) refl)))

-- A path of any length, in pieces of 256 bytes and a shorter one.
read_path_lem :
    (p rest whole out : List ℕ) (offset : ℕ)
    → NoNul p
    → read_path (length p) (streams (p ++ rest) whole out offset)
      ≡ ok (some p) (streams rest whole out offset)
unfolding read_path
read_path_lem p rest whole out offset h =
    let n = length p / max_nm_lth in
    let front = take (n * max_nm_lth) p in
    let back = drop (n * max_nm_lth) p in
    let split : p ++ rest ≡ front ++ (back ++ rest) =
      ap (λ t. t ++ rest) (sym (take-append-drop (n * max_nm_lth) p))
      ∙ append_assoc front back rest in
    rw split (
      rw
        (read_pieces_lem n front [] (back ++ rest) whole out offset
          (omega (arith, length-take (n * max_nm_lth) p))
          (All-take (λ b. b ≢ 0) (n * max_nm_lth) p h))
        (rw
          (take_bytes_lem (length p % max_nm_lth) back rest whole out offset
            (omega (arith, length-drop (n * max_nm_lth) p)))
          (rw (c_string-NoNul back (All-drop (λ b. b ≢ 0) (n * max_nm_lth) p h))
            (rw (take-append-drop (n * max_nm_lth) p) refl))))

read_path_at :
    (len : ℕ) (p rest whole out : List ℕ) (offset : ℕ)
    → len ≡ length p
    → NoNul p
    → read_path len (streams (p ++ rest) whole out offset)
      ≡ ok (some p) (streams rest whole out offset)
read_path_at len p rest whole out offset e h = rw e (read_path_lem p rest whole out offset h)

read_timespec_lem :
    (t : Timespec) (rest whole out : List ℕ) (offset : ℕ)
    → IsTime t
    → read_timespec
        (streams ((le_bytes 8 t.tv_sec ++ le_bytes 8 t.tv_nsec) ++ rest) whole out offset)
      ≡ ok (some t) (streams rest whole out offset)
unfolding read_timespec
read_timespec_lem t rest whole out offset (hs, hn) =
    let sec = le_bytes 8 t.tv_sec in
    let nsec = le_bytes 8 t.tv_nsec in
    rw
      (take_bytes_lem 16 (sec ++ nsec) rest whole out offset (
        omega
          (arith, length-append sec nsec, length-le_bytes 8 t.tv_sec, length-le_bytes 8 t.tv_nsec)))
      (rw
        (
          take-append_exact 8 sec nsec (length-le_bytes 8 t.tv_sec),
          drop-append_exact 8 sec nsec (length-le_bytes 8 t.tv_sec),
        )
        (rw
          (
            of_le_bytes-le_bytes 8 t.tv_sec (omega arith),
            of_le_bytes-le_bytes 8 t.tv_nsec (omega arith),
          )
          refl))

read_header_lem :
    (h : Header) (rest whole out : List ℕ) (o : ℕ)
    → IsSerializable h
    → read_header (streams (header_then h rest) whole out o)
      ≡ ok (some h) (streams rest whole out o)
unfolding read_header
read_header_lem h rest whole out o v =
    rw (word_lem 8 h.file_path_len _ whole out o (omega (arith, v.path_len, v.path_fits))) (
      rw (word_lem 8 h.ln_path_len _ whole out o (omega (arith, v.ln_len, v.ln_fits))) (
        rw (word_lem 8 h.st_ino _ whole out o (omega (arith, v.ino_fits))) (
          rw (word_lem 4 h.st_mode _ whole out o (omega (arith, v.mode_fits))) (
            rw (word_lem 8 h.st_nlink _ whole out o (omega (arith, v.nlink_fits))) (
              rw (word_lem 4 h.st_uid _ whole out o (omega (arith, v.uid_fits))) (
                rw (word_lem 4 h.st_gid _ whole out o (omega (arith, v.gid_fits))) (
                  rw (read_timespec_lem h.st_atime _ whole out o v.atime_fits) (
                    rw (read_timespec_lem h.st_mtime _ whole out o v.mtime_fits) (
                      rw (word_lem 8 h.block_num _ whole out o (omega (arith, v.blocks_fit))) (
                        rw (word_lem 4 h.padding _ whole out o (omega (arith, v.padding_fits))) (
                          rw
                            (read_path_at h.file_path_len h.file_path (h.ln_path ++ rest) whole out
                              o v.path_len v.path_text)
                            (rw
                              (read_path_at h.ln_path_len h.ln_path rest whole out o v.ln_len
                                v.ln_text)
                              refl))))))))))))

pub deserialize_lem :
    (h : Header) (fd : ℕ) (before after out : List ℕ) (o : ℕ)
    → IsSerializable h
    → deserialize
        (pos fd)
        (streams (header_bytes h ++ after) (before ++ (header_bytes h ++ after)) out o)
      ≡ ok (parsed h) (streams after (before ++ (header_bytes h ++ after)) out o)
unfolding deserialize tell seek_end seek_set
deserialize_lem h fd before after out o v =
    let whole = before ++ (header_bytes h ++ after) in
    let here : length whole - length (header_bytes h ++ after) ≡ length before =
      omega (arith, length-append before (header_bytes h ++ after)) in
    let open_end : (length before == length whole) ≡ false = ground (
      arith,
      length-append before (header_bytes h ++ after),
      header-nonempty h [],
      length-append (header_bytes h) after,
    ) in
    rw here (
      rw open_end (
        rw (drop-append_exact (length before) before (header_bytes h ++ after) refl)
          (rw (header_bytes-append h after) (rw (read_header_lem h after _ out o v) refl))))

-- Behind the last header.
pub deserialize_end :
    (fd : ℕ) (whole out : List ℕ) (o : ℕ)
    → deserialize (pos fd) (streams [] whole out o) ≡ ok at_end (streams [] whole out o)
unfolding deserialize tell seek_end
deserialize_end fd whole out o =
    let here : length whole - 0 ≡ length whole = omega arith in
    rw here (rw ((==_iff (length whole) (length whole)).1 refl) refl)

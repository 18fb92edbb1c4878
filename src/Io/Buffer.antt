-- ===== src/Io/Buffer.antt =====
-- The write buffer of compresser and decompresser: `write_buf[write_buf_index] = b;
-- write_buf_index = (write_buf_index+1)%MAX_BUF_SIZE; if(0 == write_buf_index) write it out`.
use data_backup.Base.{
  ℕ, ◌+◌, ◌-◌, ◌<◌, ◌≡◌, refl, ap, sym, ◌∙◌, true, List, [], ◌∷◌, ◌++◌, length, drop, replicate,
  length-append, append-nil, append_assoc, take_all, drop_all, take-append_exact, drop-append_exact,
  ◌==◌, if◌then◌else◌, Bool-cases, ==_iff, inl, inr, arith,
}
use data_backup.Io.Exceptions.{BaseException, ok, Io, ◌>>◌, pure}
use data_backup.Io.Descriptors.{Streams, write_at, write_exactly, read_exactly}
use data_backup.Io.Loops.{max_buf_size, streams}

-- `buf` holds the bytes of `write_buf` below `write_buf_index`.
unfoldable pub put_byte : BaseException → ℕ → List ℕ → Io Streams (List ℕ)
unfolding write_exactly
put_byte e b buf =
    if length (buf ++ b ∷ []) == max_buf_size
    then (write_exactly (buf ++ b ∷ []) e >> pure [])
    else pure (buf ++ b ∷ [])

-- A destination that grows by appending: `file d` are its bytes when `d` has been written from
-- offset `base` on.
pub record IsAppendable (file : List ℕ → List ℕ) (base : ℕ) : Type 0 where
  pub append : (d more : List ℕ) → write_at (file d) (base + length d) more ≡ file (d ++ more)

-- The bytes `d` have been put: all but those in the buffer have reached the file.
pub record Buffered (file : List ℕ → List ℕ) (base : ℕ) (d buf out : List ℕ) (pos : ℕ)
    : Type 0 where
  pub flushed : List ℕ
  pub parts : d ≡ flushed ++ buf
  pub bytes : out ≡ file flushed
  pub offset : pos ≡ base + length flushed
  pub room : length buf < max_buf_size

pub write_at-end : (out more : List ℕ) (n : ℕ) → n ≡ length out → write_at out n more ≡ out ++ more
unfolding write_at
write_at-end out [] n e = sym (append-nil out)
write_at-end out (b ∷ bs) n e =
    rw (take-append_exact n out (replicate (n - length out) 0) (sym e))
      (rw (drop_all (n + length (b ∷ bs)) out (omega arith)) (rw append-nil))

-- One byte behind the end leaves a zero.
pub write_at-gap :
    (out : List ℕ) (b : ℕ) (bs : List ℕ) (n : ℕ)
    → n ≡ length out + 1
    → write_at out n (b ∷ bs) ≡ out ++ 0 ∷ b ∷ bs
unfolding write_at
write_at-gap out b bs n e =
    let one : n - length out ≡ 1 = omega arith in
    rw one (
      rw (take_all n (out ++ 0 ∷ []) (omega (arith, length-append out (0 ∷ []))))
        (rw (drop_all (n + length (b ∷ bs)) out (omega arith)) (rw (append-nil, append_assoc))))

-- One byte is overwritten in place.
pub write_at-inside :
    (front : List ℕ) (x : ℕ) (back : List ℕ) (b : ℕ)
    → write_at (front ++ x ∷ back) (length front) (b ∷ []) ≡ front ++ b ∷ back
unfolding write_at
write_at-inside front x back b =
    let none_missing : length front - length (front ++ x ∷ back) ≡ 0 =
      omega (arith, length-append front (x ∷ back)) in
    rw none_missing (
      rw (append_assoc, take-append_exact (length front) front ((x ∷ back) ++ []) refl)
        (ap (λ t. front ++ b ∷ t) (drop_past front)))
  where
    drop_past : (front : List ℕ) → drop (length front + 1) (front ++ x ∷ back) ≡ back
    drop_past front =
        let e : length front + 1 ≡ length (front ++ x ∷ []) =
          omega (arith, length-append front (x ∷ [])) in
        rw e (
          rw (← append_assoc front (x ∷ []) back) (drop-append_exact _ (front ++ x ∷ []) back refl))

-- A plain file, written from its start on.
pub plain-IsAppendable : IsAppendable (λ d. d) 0
plain-IsAppendable = record { append = λ d more. write_at-end d more (0 + length d) (omega arith) }

-- The file of a header, then one byte that is skipped and so far 0, then data. The skipped byte is
-- there only once data follows it.
abbrev pub skipped : List ℕ → List ℕ → List ℕ
skipped header [] = header
skipped header (b ∷ bs) = header ++ 0 ∷ b ∷ bs

pub skipped-IsAppendable : (header : List ℕ) → IsAppendable (skipped header) (length header + 1)
skipped-IsAppendable header = record { append = grow }
  where
    grow :
        (d more : List ℕ)
        → write_at (skipped header d) (length header + 1 + length d) more
          ≡ skipped header (d ++ more)
    grow [] [] = unfold write_at in refl
    grow [] (b ∷ bs) = write_at-gap header b bs _ (omega arith)
    grow (x ∷ xs) more =
        write_at-end (header ++ 0 ∷ x ∷ xs) more _
          (omega (arith, length-append header (0 ∷ x ∷ xs)))
        ∙ append_assoc header (0 ∷ x ∷ xs) more

beq_refl : (n : ℕ) → (n == n) ≡ true
beq_refl n = (==_iff n n).1 refl

-- A write that does not fail.
pub write_exactly_lem :
    (bytes : List ℕ) (e : BaseException) (rest whole out : List ℕ) (pos : ℕ)
    → write_exactly bytes e (streams rest whole out pos)
      ≡ ok tt (streams rest whole (write_at out pos bytes) (pos + length bytes))
unfolding write_exactly
write_exactly_lem bytes e rest whole out pos = rw (beq_refl (length bytes)) refl

module _ (file : List ℕ → List ℕ) (base : ℕ) (grows : IsAppendable file base) (whole : List ℕ) where
  -- A write of the buffer, with `extra` at its end.
  written :
      (d buf out extra : List ℕ) (pos : ℕ)
      → Buffered file base d buf out pos
      → (write_at out pos (buf ++ extra) ≡ file (d ++ extra))
        × (pos + length (buf ++ extra) ≡ base + length (d ++ extra))
  written d buf out extra pos h = (
    rw (h.bytes, h.offset)
        (grows.append h.flushed (buf ++ extra)
          ∙ ap file (sym (append_assoc h.flushed buf extra) ∙ ap (λ t. t ++ extra) (sym h.parts))),
    omega (
      arith,
      h.offset,
      ap length h.parts,
      length-append h.flushed buf,
      length-append buf extra,
      length-append d extra,
    ),
  )

  -- With no failing call, `put_byte` puts one byte more.
  pub put_byte_lem :
      (e : BaseException) (b : ℕ) (d buf out : List ℕ) (pos : ℕ)
      → Buffered file base d buf out pos
      → (buf' : List ℕ) × (out' : List ℕ) × (pos' : ℕ) × Buffered file base
          (d ++ b ∷ [])
          buf'
          out'
          pos'
        × ((rest : List ℕ)
            → put_byte e b buf (streams rest whole out pos)
              ≡ ok buf' (streams rest whole out' pos'))
  unfolding put_byte
  put_byte_lem e b d buf out pos h = elim (Bool-cases (length (buf ++ b ∷ []) == max_buf_size)) [
    | inl full ↦
        let (bytes, offset) = written d buf out (b ∷ []) pos h in
        (
          [],
          file (d ++ b ∷ []),
          base + length (d ++ b ∷ []),
          record {
            flushed = d ++ b ∷ [];
            parts = sym (append-nil (d ++ b ∷ []));
            bytes = refl;
            offset = refl;
            room = omega arith;
          },
          λ rest.
              rw full
                (rw (write_exactly_lem (buf ++ b ∷ []) e rest whole out pos) (rw (bytes, offset))),
        )
    | inr space ↦ (
      buf ++ b ∷ [],
      out,
      pos,
      record {
        flushed = h.flushed;
        parts = ap (λ t. t ++ b ∷ []) h.parts ∙ append_assoc h.flushed buf (b ∷ []);
        bytes = h.bytes;
        offset = h.offset;
        room = ground (arith, length-append buf (b ∷ []), h.room);
      },
      λ rest. rw space refl,
    )
  ]

  -- The last write empties the buffer.
  pub flush_lem :
      (e : BaseException) (d buf out : List ℕ) (pos : ℕ)
      → Buffered file base d buf out pos
      → (rest : List ℕ)
      → write_exactly buf e (streams rest whole out pos)
        ≡ ok tt (streams rest whole (file d) (base + length d))
  flush_lem e d buf out pos h rest =
      let (bytes, offset) = written d buf out [] pos h in
      let bytes' = rw (append-nil buf, append-nil d) at bytes in
      let offset' = rw (append-nil buf, append-nil d) at offset in
      write_exactly_lem buf e rest whole out pos ∙ rw (bytes', offset')

-- A write at the end of the destination appends.
pub append_exactly_lem :
    (bytes : List ℕ) (e : BaseException) (rest whole out : List ℕ)
    → write_exactly bytes e (streams rest whole out (length out))
      ≡ ok tt (streams rest whole (out ++ bytes) (length (out ++ bytes)))
append_exactly_lem bytes e rest whole out =
    write_exactly_lem bytes e rest whole out (length out)
    ∙ rw (write_at-end out bytes (length out) refl) (rw (length-append out bytes))

-- A read of exactly as many bytes as stand in front.
pub read_exactly_lem :
    (n : ℕ) (bytes : List ℕ) (e : BaseException) (rest whole out : List ℕ) (pos : ℕ)
    → length bytes ≡ n
    → read_exactly n e (streams (bytes ++ rest) whole out pos)
      ≡ ok bytes (streams rest whole out pos)
unfolding read_exactly
read_exactly_lem n bytes e rest whole out pos h =
    rw (take-append_exact n bytes rest h, drop-append_exact n bytes rest h)
      (rw h (rw (beq_refl n) refl))

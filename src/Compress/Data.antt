-- ===== src/Compress/Data.antt =====
-- `WriteData` from its start to its end: the partial byte first, then the whole bytes.
use data_backup.Base.{
  ℕ, suc, ◌+◌, ◌%◌, ◌<◌, ◌≡◌, ◌≢◌, refl, ap, sym, Bool, false, List, [], ◌∷◌, ◌++◌, length,
  length-append, All, IsByte, ◌==◌, arith,
}
use native.Mathlib.Nat.{add-zero}
use data_backup.Io.{
  ok, streams, write_at, write_at-inside, write_at-end, Buffered, skipped, skipped-IsAppendable,
  flush_lem,
}
use data_backup.Huffman.{PriorityQueue}
use data_backup.Utils.Packing.{
  packed, bits_of, bits_from, bits_from-packed, length-bits_of, set_bits,
}
use data_backup.Compress.{CodingTable, write_failed, write_data, write_last_byte}
use data_backup.Compress.Total.{encode}
use data_backup.Compress.Bits.{codes_loop}

-- What stands behind the header: the partial byte, of which the first `last` bits count, and the
-- whole bytes. The bits of the whole bytes come first.
pub record HasBits (last first : ℕ) (data_bytes : List ℕ) (bits : List Bool) : Type 0 where
  pub order : bits_of data_bytes ++ bits_from 0 last first ≡ bits
  pub valid : All IsByte (first ∷ data_bytes)

written_nothing :
    (header : List ℕ)
    → Buffered (skipped header) (length header + 1) [] [] header (length header + 1)
written_nothing header = record {
  flushed = [];
  parts = refl;
  bytes = refl;
  offset = omega arith;
  room = omega arith;
}

-- The byte goes to the place that was skipped.
fill_skipped :
    (header d : List ℕ) (b : ℕ)
    → write_at (skipped header d) (length header) (b ∷ []) ≡ header ++ b ∷ d
fill_skipped header [] b = write_at-end header (b ∷ []) (length header) refl
fill_skipped header (x ∷ xs) b = write_at-inside header 0 (x ∷ xs) b

bits_of-nil : (bits : List Bool) → bits_of [] ++ [] ≡ bits → bits ≡ []
unfolding bits_of
bits_of-nil bits e = sym e

-- The first `last` bits of the byte in which a row was packed.
HasBits-packed :
    (last : ℕ) (d : List ℕ) (cur bits : List Bool)
    → last ≡ length cur
    → length cur < 8
    → bits_of d ++ cur ≡ bits
    → All IsByte d
    → HasBits last (packed cur) d bits
HasBits-packed last d cur bits el short split valid =
    let (byte, row) = bits_from-packed cur (omega arith) in
    record { order = rw el (rw row split); valid = (byte, valid) }

packed-nil : packed [] ≡ 0
unfolding set_bits
packed-nil = refl

suc-ne-zero : (n : ℕ) → (suc n == 0) ≡ false
suc-ne-zero n = ground arith

module _ (pq : PriorityQueue) (src_file dst_file header whole : List ℕ) where
  -- The last step: with no bits in the partial byte it stays 0, otherwise it is written.
  write_last_byte_lem :
      (last byte_buf : ℕ) (d : List ℕ) (cur : List Bool) (bits : List Bool) (pos : ℕ)
      → last ≡ length cur
      → byte_buf ≡ packed cur
      → bits_of d ++ cur ≡ bits
      → bits ≢ []
      → write_last_byte pq src_file dst_file last byte_buf
          (length header)
          (streams [] whole (skipped header d) pos)
        ≡ ok tt (streams [] whole (header ++ packed cur ∷ d) pos)
  unfolding write_last_byte
  write_last_byte_lem last byte_buf [] [] bits pos el eb split some_bits =
      absurd (some_bits (bits_of-nil bits split))
  write_last_byte_lem last byte_buf (x ∷ xs) [] bits pos el eb split some_bits =
      rw (el, packed-nil) refl
  write_last_byte_lem last byte_buf d (c ∷ cs) bits pos el eb split some_bits =
      rw el (rw (suc-ne-zero (length cs)) (rw (fill_skipped header d byte_buf) (rw eb refl)))

  -- With no failing call, `WriteData` appends to the header a byte and bytes that hold the codes.
  pub write_data_lem :
      (table : CodingTable) (last : ℕ) (rest : List ℕ)
      → All IsByte whole
      → last ≡ length (encode table whole) % 8
      → encode table whole ≢ []
      → (first : ℕ) × (d : List ℕ) × (pos : ℕ) × HasBits last first d (encode table whole)
        × (write_data pq src_file dst_file table last (streams rest whole header (length header))
            ≡ ok tt (streams [] whole (header ++ first ∷ d) pos))
  unfolding write_data
  write_data_lem table last rest valid el some_bits =
      let (st, out, pos, w, run) =
        codes_loop pq src_file dst_file header whole table whole
          (record { write_buf = []; byte_buf = 0; bit_index = 0 }) header (length header + 1) valid
          (record {
            d = [];
            cur = [];
            split = unfold bits_of in refl;
            byte_is = sym packed-nil;
            index_is = refl;
            short = omega arith;
            valid = tt;
            buffered = written_nothing header;
          }) in
      let el' : last ≡ length w.cur = omega (
        arith,
        el,
        w.short,
        ap length w.split,
        length-append (bits_of w.d) w.cur,
        length-bits_of w.d,
      ) in
      (
        packed w.cur,
        w.d,
        length header + 1 + length w.d,
        HasBits-packed last w.d w.cur _ el' w.short w.split w.valid,
        rw (add-zero (length header)) (
            rw run (
              rw
                (flush_lem (skipped header) (length header + 1) (skipped-IsAppendable header) whole
                  (write_failed pq src_file dst_file) w.d st.write_buf out pos w.buffered [])
                (write_last_byte_lem last st.byte_buf w.d w.cur _ _ el' w.byte_is w.split
                  some_bits))),
      )

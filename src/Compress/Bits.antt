-- ===== src/Compress/Bits.antt =====
-- `WriteData`: what the bytes behind the header stand for.
use data_backup.Base.{
  ℕ, ◌+◌, ◌%◌, ◌<◌, ◌≡◌, refl, ap, sym, ◌∙◌, inl, inr, Bool, Bool-cases, List, [], ◌∷◌, ◌++◌,
  length, length-append, append_assoc, append-nil, All, All-append, IsByte, ◌==◌, arith,
}
use data_backup.Io.{
  Io, Streams, ok, bind, streams, Buffered, skipped, skipped-IsAppendable, put_byte_lem,
  for_each_inv, read_loop_inv, for_each, read_loop,
}
use data_backup.Huffman.{PriorityQueue}
use data_backup.Utils.Bits.{set_bit}
use data_backup.Utils.Packing.{
  bit_value, packed, set_bits, set_bits-append, bits_of, bits_of-append, byte_bits,
  bits_from-packed,
}
use data_backup.Compress.{CodingTable, WriteState, write_bit, write_code, write_failed, read_failed}
use data_backup.Compress.Total.{encode}

-- After the `bits` of some codes: whole bytes `d`, put behind the header, and the row `cur` of bits
-- in `byte_buf`.
pub record Written (header : List ℕ) (bits : List Bool) (st : WriteState) (out : List ℕ) (pos : ℕ)
    : Type 0 where
  pub d : List ℕ
  pub cur : List Bool
  pub split : bits_of d ++ cur ≡ bits
  pub byte_is : st.byte_buf ≡ packed cur
  pub index_is : st.bit_index ≡ length cur
  pub short : length cur < 8
  pub valid : All IsByte d
  pub buffered : Buffered (skipped header) (length header + 1) d st.write_buf out pos

-- A byte that has been filled holds its eight bits.
byte_bits-packed : (row : List Bool) → length row ≡ 8 → byte_bits (packed row) ≡ row
byte_bits-packed row e = rw e at ((bits_from-packed row (omega arith)).1)

bits_of-packed : (row : List Bool) → length row ≡ 8 → bits_of (packed row ∷ []) ≡ row
unfolding bits_of
bits_of-packed row e = append-nil (byte_bits (packed row)) ∙ byte_bits-packed row e

packed-nil : packed [] ≡ 0
unfolding set_bits
packed-nil = refl

module _ (pq : PriorityQueue) (src_file dst_file : List ℕ) (header whole : List ℕ) where
  -- A run that writes more bits, from any state of the source.
  abbrev Writes :
      (WriteState → Io Streams WriteState) → List Bool → WriteState → List ℕ → ℕ → Type 0
  Writes m bits st out pos =
      (st' : WriteState) × (out' : List ℕ) × (pos' : ℕ) × Written header bits st' out' pos'
      × ((rest : List ℕ)
          → m st (streams rest whole out pos) ≡ ok st' (streams rest whole out' pos'))

  write_bit_lem :
      (c : Bool) (bits : List Bool) (st : WriteState) (out : List ℕ) (pos : ℕ)
      → Written header bits st out pos
      → Writes (write_bit pq src_file dst_file c) (bits ++ c ∷ []) st out pos
  unfolding write_bit
  write_bit_lem c bits st out pos w =
      let row = w.cur ++ c ∷ [] in
      let filled : set_bit st.byte_buf st.bit_index (bit_value c) ≡ packed row =
        rw (w.byte_is, w.index_is)
          (ap (λ i. set_bit (packed w.cur) i (bit_value c)) (omega arith)
            ∙ sym (set_bits-append 0 w.cur c 0)) in
      let joined : bits_of w.d ++ row ≡ bits ++ c ∷ [] =
        sym (append_assoc (bits_of w.d) w.cur (c ∷ [])) ∙ ap (λ t. t ++ c ∷ []) w.split in
      elim (Bool-cases ((st.bit_index + 1) % 8 == 0)) [
        | inl full ↦
            let (buf, out', pos', b, run) =
              put_byte_lem (skipped header) (length header + 1) (skipped-IsAppendable header) whole
                (write_failed pq src_file dst_file) (packed row) w.d st.write_buf out pos
                w.buffered in
            let eight : length row ≡ 8 =
              ground (arith, w.index_is, w.short, length-append w.cur (c ∷ [])) in
            (
              record { write_buf = buf; byte_buf = 0; bit_index = 0 },
              out',
              pos',
              record {
                d = w.d ++ packed row ∷ [];
                cur = [];
                split =
                    append-nil _
                    ∙ bits_of-append w.d (packed row ∷ [])
                    ∙ ap (λ t. bits_of w.d ++ t) (bits_of-packed row eight)
                    ∙ joined;
                byte_is = sym packed-nil;
                index_is = refl;
                short = omega arith;
                valid =
                    All-append IsByte w.d (packed row ∷ []) w.valid
                      ((bits_from-packed row (omega arith)).0, tt);
                buffered = b;
              },
              λ rest. rw full (rw filled (rw (run rest) refl)),
            )
        | inr more ↦ (
          record st { byte_buf = packed row; bit_index = (st.bit_index + 1) % 8 },
          out,
          pos,
          record {
            d = w.d;
            cur = row;
            split = joined;
            byte_is = refl;
            index_is = ground (arith, w.index_is, w.short, length-append w.cur (c ∷ []));
            short = ground (arith, w.index_is, w.short, length-append w.cur (c ∷ []));
            valid = w.valid;
            buffered = w.buffered;
          },
          λ rest. rw more (rw filled refl),
        )
      ]

  write_code_lem :
      (code bits : List Bool) (st : WriteState) (out : List ℕ) (pos : ℕ)
      → Written header bits st out pos
      → Writes (write_code pq src_file dst_file code) (bits ++ code) st out pos
  unfolding write_code
  write_code_lem [] bits st out pos w = (st, out, pos, rw append-nil w, λ rest. refl)
  write_code_lem (c ∷ code) bits st out pos w =
      let (st1, out1, pos1, w1, run1) = write_bit_lem c bits st out pos w in
      let (st2, out2, pos2, w2, run2) = write_code_lem code (bits ++ c ∷ []) st1 out1 pos1 w1 in
      (
        st2,
        out2,
        pos2,
        rw append_assoc at w2,
        λ rest. ap (λ o. bind o (write_code pq src_file dst_file code)) (run1 rest) ∙ run2 rest,
      )

  module _ (table : CodingTable) where
    encode-append : (xs ys : List ℕ) → encode table (xs ++ ys) ≡ encode table xs ++ encode table ys
    unfolding encode
    encode-append [] ys = refl
    encode-append (x ∷ xs) ys = rw (encode-append xs ys, append_assoc)

    encode-single : (x : ℕ) → encode table (x ∷ []) ≡ table x
    unfolding encode
    encode-single x = append-nil (table x)

    -- The loop over the file writes the codes of its bytes.
    pub codes_loop :
        (xs : List ℕ) (st : WriteState) (out : List ℕ) (pos : ℕ)
        → All IsByte xs
        → Written header [] st out pos
        → (st' : WriteState) × (out' : List ℕ) × (pos' : ℕ) × Written header
            (encode table xs)
            st'
            out'
            pos'
          × (read_loop
                (read_failed pq src_file dst_file)
                (for_each (λ b. write_code pq src_file dst_file (table b)))
                st
                (streams xs whole out pos)
              ≡ ok st' (streams [] whole out' pos'))
    unfolding encode
    codes_loop xs st out pos hx w =
        read_loop_inv IsByte (λ done. Written header (encode table done)) whole _ _
          (λ done c s o p hc aligned le inv.
            for_each_inv IsByte (λ done. Written header (encode table done)) whole _
              (λ done b s o p hb inv.
                rw (encode-append done (b ∷ []), encode-single b)
                  (write_code_lem (table b) (encode table done) s o p inv))
              c done s o p hc inv)
          xs st out pos hx w

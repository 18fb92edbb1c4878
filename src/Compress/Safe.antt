-- ===== src/Compress/Safe.antt =====
-- The compressor on any source, with any failing calls.
use data_backup.Base.{
  ℕ, ◌+◌, ◌%◌, ◌≡◌, refl, ◌∙◌, Bool, true, false, ◌⊎◌, inl, inr, Bool-cases, List, [], ◌∷◌, none,
  some, ◌==◌, ltb, ltb→lt, arith, if◌then◌else◌,
}
use data_backup.Io.{
  Streams, BaseException, ok, throw, pure, ◌>>=◌, throw_if, write_exactly, put_byte, for_each,
  read_loop, rewind, seek_cur, pwrite, is_failure,
}
use data_backup.Io.Safe.{
  Holds, Stays, Anything, Keeps, bind-Holds, Holds-map, write_exactly-Holds, close_or_throw-Holds,
  fsync-Holds, put_byte-Holds, for_each-Holds, read_loop-Holds, Holds-cases, weaken, then-Holds,
  system_call-Holds, throw_if-Anything,
}
use data_backup.Huffman.{PriorityQueue, IsLawful, Counts, present, generate_coding}
use data_backup.Huffman.Laws.{build_huffman-some, build_huffman-none}
use data_backup.Compress.Table.{collect_codes-root}
use data_backup.Utils.Bits.{set_bit}
use data_backup.Utils.Packing.{bit_value}
use data_backup.Compress.{
  CodingTable, WriteState, word_freq_count, generate_coding_table, write_entries, write_header,
  write_bit, write_code, write_last_byte, write_data, clear, compress, read_failed, write_failed,
  seek_failed,
}

-- The loops of the compressor have no invariant but the length of the source.
abbrev Whatever : {S : Type 0} → S → Type 0
Whatever s = Unit {0}

module _ (pq : PriorityQueue) (src_file dst_file : List ℕ) where
  abbrev sf : BaseException
  sf = seek_failed pq src_file dst_file

  abbrev wf : BaseException
  wf = write_failed pq src_file dst_file

  write-Holds : (bytes : List ℕ) (s : Streams) → Holds Anything (write_exactly bytes wf s)
  write-Holds bytes s = weaken (Stays s) _ (write_exactly-Holds bytes wf s)

  word_freq_count-Holds : (s : Streams) → Holds Anything (word_freq_count pq src_file dst_file s)
  unfolding word_freq_count
  word_freq_count-Holds s =
      then-Holds _ _
        (read_loop-Holds Whatever _ _
          (λ c a s' _ _. for_each-Holds Whatever _ (λ b a' s'' _. (tt, refl)) c a s' tt) _ s tt)
        (λ counts s'. tt)

  -- A tree, if there is one, is passed through.
  generate_coding_table-Holds :
      IsLawful pq
      → (counts : Counts) (s : Streams)
      → Holds Anything (generate_coding_table pq src_file dst_file counts s)
  unfolding generate_coding_table
  generate_coding_table-Holds L counts s = elim (Bool-cases (ltb 1 (present counts))) [
    | inl two ↦
        let (t, e, n, _) = build_huffman-some pq L counts (ltb→lt 1 (present counts) two) in
        rw e (rw (collect_codes-root (generate_coding t [])) tt)
    | inr few ↦ rw (build_huffman-none pq L counts (ground arith)) tt
  ]

  write_entries-Holds :
      (counts : Counts) (s : Streams) → Holds Anything (write_entries pq src_file dst_file counts s)
  unfolding write_entries
  write_entries-Holds [] s = tt
  write_entries-Holds (none ∷ counts) s = write_entries-Holds counts s
  write_entries-Holds (some t ∷ counts) s =
      then-Holds _ _ (write-Holds _ s)
        λ _ s1. then-Holds _ _ (write-Holds _ s1) λ _ s2. write_entries-Holds counts s2

  write_header-Holds :
      (counts : Counts) (table : CodingTable) (s : Streams)
      → Holds Anything (write_header pq src_file dst_file counts table s)
  unfolding write_header
  write_header-Holds counts table s = then-Holds _ _ (write-Holds _ s) λ _ s1.
      then-Holds _ _ (write-Holds _ s1)
        λ _ s2. then-Holds _ _ (write_entries-Holds counts s2) λ _ s3. tt

  write_bit-Holds :
      (c : Bool) (st : WriteState) (s : Streams)
      → Holds (Keeps Whatever s) (write_bit pq src_file dst_file c st s)
  unfolding write_bit
  write_bit-Holds c st s = by_index ((st.bit_index + 1) % 8 == 0)
    where
      by_index :
          (full : Bool)
          → Holds (Keeps Whatever s) (
              (if full
                  then (do
                    buf ← put_byte wf (set_bit st.byte_buf st.bit_index (bit_value c)) st.write_buf
                    pure (record { write_buf = buf; byte_buf = 0; bit_index = 0 }))
                  else pure (record st {
                    byte_buf = set_bit st.byte_buf st.bit_index (bit_value c);
                    bit_index = (st.bit_index + 1) % 8;
                  }))
                s)
      by_index true =
          bind-Holds (Stays s) (Keeps Whatever s) _ _ (put_byte-Holds wf _ st.write_buf s)
            (λ buf s' e. (tt, e))
      by_index false = (tt, refl)

  write_code-Holds :
      (code : List Bool) (st : WriteState) (s : Streams)
      → Holds (Keeps Whatever s) (write_code pq src_file dst_file code st s)
  unfolding write_code
  write_code-Holds [] st s = (tt, refl)
  write_code-Holds (c ∷ code) st s =
      bind-Holds (Keeps Whatever s) (Keeps Whatever s) _ _ (write_bit-Holds c st s) λ st' s' (_, e).
        Holds-map (Keeps Whatever s') (Keeps Whatever s) _ (λ _ _ (k, e'). (k, e' ∙ e))
          (write_code-Holds code st' s')

  write_last_byte-Holds :
      (last byte_buf last_byte_pos : ℕ) (s : Streams)
      → Holds Anything (write_last_byte pq src_file dst_file last byte_buf last_byte_pos s)
  unfolding write_last_byte pwrite
  write_last_byte-Holds last byte_buf last_byte_pos s = elim (Bool-cases (last == 0)) [
    | inl whole ↦ rw whole tt
    | inr partial ↦
        rw partial (then-Holds _ _ (system_call-Holds _ _ _ s) λ n s1. throw_if-Anything _ _ s1)
  ]

  write_data-Holds :
      (table : CodingTable) (last : ℕ) (s : Streams)
      → Holds Anything (write_data pq src_file dst_file table last s)
  unfolding write_data rewind seek_cur
  write_data-Holds table last s = then-Holds (rewind s) _ (system_call-Holds _ _ _ s) λ start s1.
      then-Holds (throw_if (is_failure start) sf s1) _ (throw_if-Anything _ sf s1) λ _ s2.
        then-Holds (seek_cur 0 s2) _ (system_call-Holds _ _ _ s2) λ place s3.
          then-Holds (throw_if (is_failure place) sf s3) _ (throw_if-Anything _ sf s3) λ _ s4.
            then-Holds (seek_cur 1 s4) _ (system_call-Holds _ _ _ s4) λ skip s5.
              then-Holds (throw_if (is_failure skip) sf s5) _ (throw_if-Anything _ sf s5) λ _ s6.
                then-Holds _ _ (coding_loop s6) λ st s7.
                  then-Holds (write_exactly st.write_buf wf s7) _ (write-Holds _ s7)
                    λ _ s8. write_last_byte-Holds last st.byte_buf _ s8
    where
      coding_loop :
          (s : Streams)
          → Holds Anything (
              read_loop
                (read_failed pq src_file dst_file)
                (for_each (λ b. write_code pq src_file dst_file (table b)))
                (record { write_buf = []; byte_buf = 0; bit_index = 0 })
                s)
      coding_loop s =
          read_loop-Holds Whatever _ _
            (λ c a s' _ _.
              for_each-Holds Whatever _ (λ b a' s'' _. write_code-Holds (table b) a' s'') c a s' tt)
            _ s tt

  clear-Holds : (s : Streams) → Holds Anything (clear pq src_file dst_file s)
  unfolding clear
  clear-Holds s = then-Holds _ _ (weaken (Stays s) _ (close_or_throw-Holds _ s)) λ _ s1.
      then-Holds _ _ (weaken (Stays s1) _ (fsync-Holds s1))
        λ _ s2. weaken (Stays s2) _ (close_or_throw-Holds _ s2)

  compress-Holds : IsLawful pq → (s : Streams) → Holds Anything (compress pq src_file dst_file s)
  unfolding compress
  compress-Holds L s = then-Holds _ _ (word_freq_count-Holds s) λ counts s1.
      then-Holds _ _ (generate_coding_table-Holds L counts s1) λ table s2.
        then-Holds _ _ (write_header-Holds counts table s2)
          λ last s3. then-Holds _ _ (write_data-Holds table last s3) λ _ s4. clear-Holds s4

-- For every lawful priority queue, every source and every row of failing calls: the compressor ends,
-- and either succeeds or throws an exception that its handler catches; no loop runs out of fuel.
pub compress_ends :
    (pq : PriorityQueue) (L : IsLawful pq) (src_file dst_file : List ℕ) (s : Streams)
    → ((s' : Streams) × (compress pq src_file dst_file s ≡ ok tt s'))
      ⊎ ((e : BaseException) × (s' : Streams) × (compress pq src_file dst_file s ≡ throw e s'))
compress_ends pq L src_file dst_file s =
    Holds-cases (compress pq src_file dst_file s) (compress-Holds pq src_file dst_file L s)

-- ===== src/Tests/Codec.antt =====
-- Runs of compresser and decompresser.
use data_backup.Base.{
  some, none, inl, inr, le_bytes, of_le_bytes, take, drop, ℕ, ◌<◌, ◌≡◌, refl, true, false, ◌⊎◌,
  List, [], ◌∷◌, arith,
}
use data_backup.Io.{
  Outcome, BaseException, throw, Streams, ok, streams, codes, read, write_at, read_loop, for_each,
  write_exactly, put_byte, close_or_throw, fsync, read_exactly,
}
use data_backup.Huffman.{Counts, build_huffman, present, leaf}
use data_backup.Compress.Table.{is_prefix, generate_coding_table_prefix_free}
use data_backup.Huffman.ListQueue.{list_queue, extract, list_queue-IsLawful}
use data_backup.Utils.Bits.{set_bit, get_bit, get_bit-set_bit}
use data_backup.Compress.Safe.{compress_ends}
use data_backup.Decompress.Safe.{decompress_ends}
use data_backup.Decompress.RoundTrip.{decompress-compress}
use data_backup.Compress.{
  compress, word_freq_count, generate_coding_table, add_second, count_byte, write_header,
  write_entries, write_data, write_code, collect_codes, node_count, write_bit, write_last_byte,
  clear, last_byte_effective, CodingTable,
}
use data_backup.Decompress.{
  decompress, clear as dclear, read_header, read_entries, read_data, read_last, read_bits, arrive,
}

abbrev abac : List ℕ
abac = codes "abac"

-- word_count 3, 6 bits in the partial byte, the three weights, then the partial byte 101100|00.
abbrev abac_cmp : List ℕ
abac_cmp =
    3 ∷ 0 ∷ 0 ∷ 0 ∷ 6 ∷ 0 ∷ 0 ∷ 0 ∷ 97 ∷ 2 ∷ 0 ∷ 0 ∷ 0 ∷ 0 ∷ 0 ∷ 0 ∷ 0 ∷ 98 ∷ 1 ∷ 0 ∷ 0 ∷ 0 ∷ 0 ∷ 0
    ∷ 0 ∷ 0 ∷ 99 ∷ 1 ∷ 0 ∷ 0 ∷ 0 ∷ 0 ∷ 0 ∷ 0 ∷ 0 ∷ 0b10110000 ∷ []

run_compress : List ℕ → Outcome Streams (Unit {0})
unfolding compress extract word_freq_count read_loop for_each read generate_coding_table
    build_huffman add_second count_byte write_header write_exactly le_bytes write_entries write_data
    write_code collect_codes node_count write_bit write_last_byte clear last_byte_effective write_at
    put_byte close_or_throw fsync present set_bit
run_compress xs = compress list_queue [] [] (streams xs xs [] 0)

run_decompress : List ℕ → Outcome Streams (Unit {0})
unfolding decompress extract write_at read_header read_exactly read_entries of_le_bytes read_data
    read_last build_huffman read_loop for_each read_bits arrive get_bit put_byte write_exactly
    dclear close_or_throw fsync
run_decompress xs = decompress list_queue [] [] 0 (streams xs xs [] 0)

compress_run : run_compress abac ≡ ok tt (streams [] abac abac_cmp 36)
unfolding run_compress
compress_run = refl

decompress_run : run_decompress abac_cmp ≡ ok tt (streams [] abac_cmp abac 4)
unfolding run_decompress
decompress_run = refl

decompress-compress_example :
    (cmp : List ℕ) × (offset : ℕ) × (compress list_queue [] [] (streams abac abac [] 0)
      ≡ ok tt (streams [] abac cmp offset))
    × (decompress list_queue [] [] 0 (streams cmp cmp [] 0) ≡ ok tt (streams [] cmp abac 4))
decompress-compress_example =
    decompress-compress list_queue list_queue-IsLawful [] [] [] [] 0 97 (98 ∷ 97 ∷ 99 ∷ [])
      (omega arith)

abbrev two_counts : Counts
two_counts = some (leaf 97 2 []) ∷ none ∷ some (leaf 98 1 []) ∷ []

generate_coding_table_prefix_free_example :
    (table : CodingTable) × (generate_coding_table list_queue [] [] two_counts
        (streams [] abac [] 0)
      ≡ ok table (streams [] abac [] 0))
    × (is_prefix (table 97) (table 98) ≡ false)
unfolding present
generate_coding_table_prefix_free_example =
    generate_coding_table_prefix_free list_queue list_queue-IsLawful [] [] two_counts (omega arith)
      97 98 (omega arith) (inl refl) (inr (inl refl)) [] abac [] 0

get_bit-set_bit_example : (set_bit 0 2 1 < 256) × (get_bit (set_bit 0 2 1) 3 ≡ get_bit 0 3)
get_bit-set_bit_example =
    get_bit-set_bit 0 2 1 3 (omega arith) (omega arith) (omega arith) (omega arith)

-- A compressed file, and the fourth read fails.
abbrev broken : Streams
broken = record {
  input = abac_cmp;
  whole = abac_cmp;
  out = [];
  pos = 0;
  faults = false ∷ false ∷ false ∷ true ∷ [];
}

second_word_of_broken : of_le_bytes (take 4 (drop 4 abac_cmp)) ≡ 6
unfolding of_le_bytes
second_word_of_broken = refl

decompress_ends_example :
    ((s' : Streams) × (decompress list_queue [] [] 0 broken ≡ ok tt s'))
    ⊎ ((e : BaseException) × (s' : Streams) × (decompress list_queue [] [] 0 broken ≡ throw e s'))
decompress_ends_example =
    decompress_ends list_queue list_queue-IsLawful [] [] 0 broken
      (rw second_word_of_broken (omega arith))

compress_ends_example :
    ((s' : Streams) × (compress list_queue [] [] broken ≡ ok tt s'))
    ⊎ ((e : BaseException) × (s' : Streams) × (compress list_queue [] [] broken ≡ throw e s'))
compress_ends_example = compress_ends list_queue list_queue-IsLawful [] [] broken

-- ===== src/Compress/Whole.antt =====
-- The compressor on a whole file.
use data_backup.Base.{
  ℕ, ◌%◌, ◌≡◌, ◌≢◌, refl, Bool, List, [], ◌∷◌, ◌++◌, none, some, length, append_assoc, append-nil,
  All, IsByte, le_bytes,
}
use data_backup.Io.{
  Io, Streams, for_each, close_or_throw, fsync, ok, pure, streams, append_exactly_lem, for_each_inv,
  read_loop_inv, close_or_throw, fsync,
}
use data_backup.Huffman.{
  TreeNode, leaf, node, PriorityQueue, IsLawful, Counts, present, weight_of, build_huffman,
}
use data_backup.Huffman.Codes.{IsCode}
use data_backup.Huffman.Laws.{IsNode, HasEntry}
use data_backup.Compress.{
  CodingTable, no_counts, count_byte, ch_of, add_second, last_byte_effective, read_failed,
  write_failed, word_freq_count, write_entries, write_header, clear, compress,
}
use data_backup.Compress.Counted.{
  counted, counted-append, IsCounted, counted-IsCounted, no_counts-IsCounted, counted-HasEntry,
}
use data_backup.Compress.Second.{add_second-HasEntry, present-add_second}
use data_backup.Compress.Total.{encode, last_byte_effective-encode}
use data_backup.Compress.Table.{generate_coding_table_lem}
use data_backup.Compress.Data.{HasBits, write_data_lem}

-- The counts of a file.
abbrev pub file_counts : List ℕ → Counts
file_counts xs = add_second (counted no_counts xs)

-- The header in bytes.
unfoldable pub entry_bytes : Counts → List ℕ
entry_bytes [] = []
entry_bytes (none ∷ counts) = entry_bytes counts
entry_bytes (some t ∷ counts) = ch_of t ∷ (le_bytes 8 (weight_of t) ++ entry_bytes counts)

abbrev pub header_bytes : Counts → ℕ → List ℕ
header_bytes counts last = le_bytes 4 (present counts) ++ (le_bytes 4 last ++ entry_bytes counts)

module _ (pq : PriorityQueue) (src_file dst_file : List ℕ) where
  -- One round of the counting loop.
  abbrev count_round : ℕ → Counts → Io Streams Counts
  count_round b counts = pure (count_byte b counts)

  word_freq_count_lem :
      (xs out : List ℕ) (pos : ℕ)
      → All IsByte xs
      → word_freq_count pq src_file dst_file (streams xs xs out pos)
        ≡ ok (file_counts xs) (streams [] xs out pos)
  unfolding word_freq_count counted
  word_freq_count_lem xs out pos hx =
      let (counts, out', pos', (ec, eo, ep), run) =
        read_loop_inv IsByte Counting xs (for_each count_round) (read_failed pq src_file dst_file)
          (λ done c s o p hc aligned le inv.
            for_each_inv IsByte Counting xs count_round
              (λ done b s o p hb (es, eo, ep).
                (count_byte b s, o, p, (rw (counted-append, es) refl, eo, ep), λ rest. refl))
              c done s o p hc inv)
          xs no_counts out pos hx (refl, refl, refl) in
      rw run (rw (ec, eo, ep) refl)
    where
      Counting : List ℕ → Counts → List ℕ → ℕ → Type 0
      Counting done s o p = (s ≡ counted no_counts done) × (o ≡ out) × (p ≡ pos)

  write_entries_lem :
      (counts : Counts) (rest whole out : List ℕ)
      → write_entries pq src_file dst_file counts (streams rest whole out (length out))
        ≡ ok tt
            (streams rest whole (out ++ entry_bytes counts) (length (out ++ entry_bytes counts)))
  unfolding write_entries entry_bytes
  write_entries_lem [] rest whole out = rw append-nil
  write_entries_lem (none ∷ counts) rest whole out = write_entries_lem counts rest whole out
  write_entries_lem (some t ∷ counts) rest whole out =
      rw (append_exactly_lem (ch_of t ∷ []) (write_failed pq src_file dst_file) rest whole out) (
        rw
          (append_exactly_lem (le_bytes 8 (weight_of t)) (write_failed pq src_file dst_file) rest
            whole (out ++ ch_of t ∷ []))
          (rw
            (write_entries_lem counts rest whole
              ((out ++ ch_of t ∷ []) ++ le_bytes 8 (weight_of t)))
            (rw (append_assoc out (ch_of t ∷ []) (le_bytes 8 (weight_of t)))
              (rw append_assoc refl))))

  write_header_lem :
      (counts : Counts) (table : CodingTable) (rest whole : List ℕ)
      → let last = last_byte_effective counts table 0 in
        let header = header_bytes counts last in
        write_header pq src_file dst_file counts table (streams rest whole [] 0)
        ≡ ok last (streams rest whole header (length header))
  unfolding write_header
  write_header_lem counts table rest whole =
      let last = last_byte_effective counts table 0 in
      let e = write_failed pq src_file dst_file in
      rw (append_exactly_lem (le_bytes 4 (present counts)) e rest whole []) (
        rw (append_exactly_lem (le_bytes 4 last) e rest whole (le_bytes 4 (present counts))) (
          rw (write_entries_lem counts rest whole (le_bytes 4 (present counts) ++ le_bytes 4 last))
            (rw append_assoc refl)))

  clear_lem :
      (rest whole out : List ℕ) (pos : ℕ)
      → clear pq src_file dst_file (streams rest whole out pos) ≡ ok tt (streams rest whole out pos)
  unfolding clear close_or_throw fsync
  clear_lem rest whole out pos = refl

  encode-ne-nil :
      (root : TreeNode) (table : CodingTable) (x : ℕ) (xs : List ℕ)
      → IsNode root
      → IsCode root (table x) x
      → encode table (x ∷ xs) ≢ []
  unfolding encode
  encode-ne-nil (leaf ch weight code) table x xs n h e = n
  encode-ne-nil (node left right weight) table x xs n h e = no_code (table x) refl h
    where
      no_code : (code : List Bool) → table x ≡ code → IsCode (node left right weight) code x → ⊥
      no_code [] ec h = h
      no_code (b ∷ bs) ec h = cc (ec, e)

-- What the compressor leaves of a file.
pub record Compressed (pq : PriorityQueue) (src_file dst_file xs : List ℕ) : Type 0 where
  pub root : TreeNode
  pub table : CodingTable
  pub last : ℕ
  pub first : ℕ
  pub data_bytes : List ℕ
  pub offset : ℕ
  pub built : build_huffman pq (file_counts xs) ≡ some (some root)
  pub branches : IsNode root
  pub codes_lead : All (λ c. IsCode root (table c) c) xs
  pub last_is : last ≡ length (encode table xs) % 8
  pub holds : HasBits last first data_bytes (encode table xs)
  pub run :
      compress pq src_file dst_file (streams xs xs [] 0)
      ≡ ok tt (streams [] xs (header_bytes (file_counts xs) last ++ first ∷ data_bytes) offset)

module _ (pq : PriorityQueue) (L : IsLawful pq) (src_file dst_file : List ℕ) where
  All-IsCode :
      (root : TreeNode) (table : CodingTable) (counts : Counts) (xs : List ℕ)
      → ((c : ℕ) → HasEntry c counts → IsCode root (table c) c)
      → All (λ c. HasEntry c counts) xs
      → All (λ c. IsCode root (table c) c) xs
  All-IsCode root table counts [] f h = tt
  All-IsCode root table counts (x ∷ xs) f (hx, h) = (f x hx, All-IsCode root table counts xs f h)

  All-add_second :
      (counts : Counts) (xs : List ℕ)
      → IsCounted counts
      → All (λ c. HasEntry c counts) xs
      → All (λ c. HasEntry c (add_second counts)) xs
  All-add_second counts [] i h = tt
  All-add_second counts (x ∷ xs) i (hx, h) =
      (add_second-HasEntry x counts i hx, All-add_second counts xs i h)

  -- With no failing call the compressor succeeds on every file that is not empty.
  pub compress_lem :
      (x : ℕ) (xs : List ℕ) → All IsByte (x ∷ xs) → Compressed pq src_file dst_file (x ∷ xs)
  unfolding compress
  compress_lem x xs hx =
      let counts = counted no_counts (x ∷ xs) in
      let i = counted-IsCounted (x ∷ xs) no_counts no_counts-IsCounted in
      let has = counted-HasEntry (x ∷ xs) no_counts hx no_counts-IsCounted in
      let (root, table, built, n, leads, made) =
        generate_coding_table_lem pq L src_file dst_file (add_second counts)
          (present-add_second x counts i has.0) in
      let codes =
        All-IsCode root table (add_second counts) (x ∷ xs) leads
          (All-add_second counts (x ∷ xs) i has) in
      let last = last_byte_effective (add_second counts) table 0 in
      let header = header_bytes (add_second counts) last in
      let el = last_byte_effective-encode table (x ∷ xs) hx in
      let (first, d, offset, holds, wrote) =
        write_data_lem pq src_file dst_file header (x ∷ xs) table last [] hx el
          (encode-ne-nil pq src_file dst_file root table x xs n codes.0) in
      record {
        root = root;
        table = table;
        last = last;
        first = first;
        data_bytes = d;
        offset = offset;
        built = built;
        branches = n;
        codes_lead = codes;
        last_is = el;
        holds = holds;
        run = rw (word_freq_count_lem pq src_file dst_file (x ∷ xs) [] 0 hx) (
            rw (made [] (x ∷ xs) [] 0) (
              rw (write_header_lem pq src_file dst_file (add_second counts) table [] (x ∷ xs)) (
                rw wrote
                  (clear_lem pq src_file dst_file [] (x ∷ xs) (header ++ first ∷ d) offset))));
      }

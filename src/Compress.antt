-- ===== src/Compress.antt =====
-- src/compresser.cpp: the Huffman compressor. A method takes the members that it reads and returns
-- those that it sets; `io` is the source and the destination.
pub mod Counted
pub mod Second
pub mod Total
pub mod Table
pub mod Bits
pub mod Data
pub mod Whole
pub mod Safe
pub mod Handle
use data_backup.Base.{
  ℕ, zero, suc, ◌+◌, ◌*◌, ◌%◌, ◌^◌, Bool, List, [], ◌∷◌, ◌++◌, Option, none, some, length, get_or,
  set, replicate, ltb, ◌==◌, not, if◌then◌else◌, le_bytes,
}
use data_backup.Io.{
  Io, Streams, BaseException, stuck, compresse, new_exception, codes, ◌>>=◌, ◌>>◌, pure, raise,
  throw_if, is_failure, rewind, seek_cur, pwrite, fsync, write_exactly, close_or_throw, for_each,
  read_loop, put_byte,
}
use data_backup.Huffman.{
  TreeNode, leaf, node, weight_of, PriorityQueue, Counts, present, build_huffman,
}
use data_backup.Utils.Bits.{set_bit}
use data_backup.Utils.Packing.{bit_value}

-- `coding_table_`; a byte that has no entry reads as the empty string.
abbrev pub CodingTable : Type 0
CodingTable = ℕ → List Bool

abbrev pub empty_table : CodingTable
empty_table = λ _. []

abbrev pub insert : ℕ → List Bool → CodingTable → CodingTable
insert ch code table = λ c. if c == ch then code else table c

-- `counts_ = vector<TreeNode *>(256, nullptr)`
abbrev pub no_counts : Counts
no_counts = replicate 256 none

-- `counts_[c]->weight_++` on a `uint64_t`.
abbrev pub increment : TreeNode → TreeNode
increment (leaf ch weight code) = leaf ch ((weight + 1) % 2 ^ 64) code
increment (node left right weight) = node left right ((weight + 1) % 2 ^ 64)

abbrev pub node_or_new : Option TreeNode → ℕ → TreeNode
node_or_new none b = leaf b 0 []
node_or_new (some t) b = t

unfoldable pub count_byte : ℕ → Counts → Counts
count_byte b counts = set counts b (some (increment (node_or_new (get_or counts b none) b)))

abbrev pub ch_of : TreeNode → ℕ
ch_of (leaf ch weight code) = ch
ch_of (node left right weight) = 0

-- The loop over `counts_` that stops at the second node: the `ch_` of the last node seen, and how
-- many nodes were seen.
unfoldable pub scan_nodes : Counts → ℕ → ℕ → ℕ × ℕ
scan_nodes [] ch word_count = (ch, word_count)
scan_nodes (none ∷ counts) ch word_count = scan_nodes counts ch word_count
scan_nodes (some t ∷ counts) ch word_count =
    let more = scan_nodes counts (ch_of t) (word_count + 1) in
    if ltb 1 (word_count + 1) then (ch_of t, word_count + 1) else more

-- A file of one byte value gets a second node, of weight 0.
unfoldable pub add_second : Counts → Counts
unfolding scan_nodes
add_second counts =
    let (ch, word_count) = scan_nodes counts 0 0 in
    let new_ch = (ch + 1) % 256 in
    if word_count == 1 then set counts new_ch (some (leaf new_ch 0 [])) else counts

-- The loop over the stack `help`, with fuel: one unit for each node of the tree. `none` is a loop
-- that is not at its end without fuel.
unfoldable pub collect_codes : ℕ → List TreeNode → CodingTable → Option CodingTable
collect_codes zero [] table = some table
collect_codes zero (t ∷ help) table = none
collect_codes (suc fuel) [] table = some table
collect_codes (suc fuel) (leaf ch weight code ∷ help) table =
    collect_codes fuel help (insert ch code table)
collect_codes (suc fuel) (node left right weight ∷ help) table =
    collect_codes fuel (left ∷ right ∷ help) table

unfoldable pub node_count : TreeNode → ℕ
node_count (leaf ch weight code) = 1
node_count (node left right weight) = suc (node_count left + node_count right)

-- The sum of the bits of all bytes, modulo 8.
unfoldable pub last_byte_effective : Counts → CodingTable → ℕ → ℕ
last_byte_effective [] table acc = acc
last_byte_effective (none ∷ counts) table acc = last_byte_effective counts table acc
last_byte_effective (some t ∷ counts) table acc =
    last_byte_effective counts table
      ((acc + weight_of t % 8 * length (table (ch_of t)) % 8 % 8) % 8)

-- What `WriteData` keeps: `write_buf` up to `write_buf_index`, `byte_buf`, `bit_index`.
pub record WriteState : Type 0 where
  pub write_buf : List ℕ
  pub byte_buf : ℕ
  pub bit_index : ℕ

module _ (pq : PriorityQueue) (src_file dst_file : List ℕ) where
  abbrev pub read_failed : BaseException
  read_failed = new_exception compresse (codes "read failed on " ++ src_file)

  abbrev pub write_failed : BaseException
  write_failed = new_exception compresse (codes "write failed on " ++ dst_file)

  unfoldable pub word_freq_count : Io Streams Counts
  word_freq_count = do
    counts ← read_loop read_failed (for_each (λ b counts. pure (count_byte b counts))) no_counts
    pure (add_second counts)

  abbrev pub collected : Option CodingTable → Io Streams CodingTable
  collected none = λ _. stuck
  collected (some table) = pure table

  abbrev pub table_of : Option (Option TreeNode) → Io Streams CodingTable
  table_of none = λ _. stuck
  table_of (some none) = raise (new_exception compresse (codes "failed to build huffman tree"))
  table_of (some (some root)) = collected (collect_codes (node_count root) (root ∷ []) empty_table)

  unfoldable pub generate_coding_table : Counts → Io Streams CodingTable
  generate_coding_table counts = table_of (build_huffman pq counts)

  unfoldable pub write_entries : Counts → Io Streams (Unit {0})
  write_entries [] = pure tt
  write_entries (none ∷ counts) = write_entries counts
  write_entries (some t ∷ counts) = do
    write_exactly (ch_of t ∷ []) write_failed
    write_exactly (le_bytes 8 (weight_of t)) write_failed
    write_entries counts

  -- Returns `last_byte_effective_`.
  unfoldable pub write_header : Counts → CodingTable → Io Streams ℕ
  write_header counts table = do
    write_exactly (le_bytes 4 (present counts)) write_failed
    let last = last_byte_effective counts table 0
    write_exactly (le_bytes 4 last) write_failed
    write_entries counts
    pure last

  -- One character of a code.
  unfoldable pub write_bit : Bool → WriteState → Io Streams WriteState
  write_bit c st =
      let byte = set_bit st.byte_buf st.bit_index (bit_value c) in
      let next = (st.bit_index + 1) % 8 in
      if next == 0
      then (do
        buf ← put_byte write_failed byte st.write_buf
        pure (record { write_buf = buf; byte_buf = 0; bit_index = 0 }))
      else pure (record st { byte_buf = byte; bit_index = next })

  unfoldable pub write_code : List Bool → WriteState → Io Streams WriteState
  write_code [] st = pure st
  write_code (c ∷ code) st = do st' ← write_bit c st; write_code code st'

  abbrev pub seek_failed : BaseException
  seek_failed = new_exception compresse (codes "failed to lseek src_fd")

  abbrev pub offset_or : Option ℕ → ℕ
  offset_or none = 0
  offset_or (some n) = n

  -- The last, partial byte goes before the others, to the place that was skipped.
  unfoldable pub write_last_byte : ℕ → ℕ → ℕ → Io Streams (Unit {0})
  unfolding pwrite
  write_last_byte last byte_buf last_byte_pos = if last == 0 then pure tt else (do
    n ← pwrite (byte_buf ∷ []) last_byte_pos
    throw_if (not (offset_or n == 1))
        (new_exception compresse (codes "pwrite failed on " ++ dst_file)))

  unfoldable pub write_data : CodingTable → ℕ → Io Streams (Unit {0})
  unfolding rewind seek_cur
  write_data table last = do
    start ← rewind
    throw_if (is_failure start) seek_failed
    last_byte_pos ← seek_cur 0
    throw_if (is_failure last_byte_pos) seek_failed
    skip ← seek_cur 1
    throw_if (is_failure skip) seek_failed
    st ←
        read_loop read_failed (for_each (λ b. write_code (table b)))
          (record { write_buf = []; byte_buf = 0; bit_index = 0 })
    write_exactly st.write_buf write_failed
    write_last_byte last st.byte_buf (offset_or last_byte_pos)

  unfoldable pub clear : Io Streams (Unit {0})
  clear = do
    close_or_throw (new_exception compresse (codes "failed to close src_fd"))
    fsync
    close_or_throw (new_exception compresse (codes "failed to close dst_fd"))

  -- The body of the `try` block in `Handle`, behind `Init`.
  unfoldable pub compress : Io Streams (Unit {0})
  compress = do
    counts ← word_freq_count
    table ← generate_coding_table counts
    last ← write_header counts table
    write_data table last
    clear

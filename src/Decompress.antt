-- ===== src/Decompress.antt =====
-- src/decompresser.cpp: reads the counts, builds the same tree, and walks it along the bits.
pub mod Walk
pub mod Bits
pub mod Header
pub mod RoundTrip
pub mod Safe
pub mod Handle
use data_backup.Base.{
  ℕ, zero, suc, ◌+◌, ◌^◌, ltb, ℤ, is_int, List, [], ◌++◌, ◌∷◌, Option, none, some, set, of_le_bytes,
  if◌then◌else◌,
}
use data_backup.Io.{
  Io, Streams, BaseException, decompresse, new_exception, codes, undefined, stuck, ◌>>=◌, ◌>>◌,
  pure, raise, read, read_exactly, fsync, write_exactly, close_or_throw, for_each, read_loop,
  put_byte,
}
use data_backup.Huffman.{TreeNode, leaf, node, PriorityQueue, Counts, build_huffman}
use data_backup.Utils.Bits.{get_bit}
use data_backup.Compress.{no_counts}

-- What `ReadHeader` sets.
pub record HuffHeader : Type 0 where
  pub counts : Counts
  pub last_byte_effective : ℕ

-- What the loops of `ReadData` keep: `write_buf` up to `write_buf_index`, and the node reached.
pub record ReadState : Type 0 where
  pub write_buf : List ℕ
  pub at : TreeNode

-- `node` after a bit: `none` is a null pointer. Any other bit than 0 and 1 leaves the node.
abbrev pub child : ℤ → TreeNode → Option TreeNode
child b (leaf ch weight code) =
    if is_int 0 b then none else (if is_int 1 b then none else some (leaf ch weight code))
child b (node left right weight) =
    if is_int 0 b
    then some left
    else (if is_int 1 b then some right else some (node left right weight))

-- `uninit` is what an uninitialised `unsigned char` holds.
module _ (pq : PriorityQueue) (src_file dst_file : List ℕ) (uninit : ℕ) where
  abbrev pub read_failed : BaseException
  read_failed = new_exception decompresse (codes "read failed on " ++ src_file)

  abbrev pub write_failed : BaseException
  write_failed = new_exception decompresse (codes "write failed on " ++ dst_file)

  unfoldable pub read_entries : ℕ → Counts → Io Streams Counts
  read_entries zero counts = pure counts
  read_entries (suc n) counts = do
    char_buf ← read_exactly 1 read_failed
    weight_buf ← read_exactly 8 read_failed
    let ch = of_le_bytes char_buf
    read_entries n (set counts ch (some (leaf ch (of_le_bytes weight_buf) [])))

  unfoldable pub read_header : Io Streams HuffHeader
  read_header = do
    word_count ← read_exactly 4 read_failed
    last ← read_exactly 4 read_failed
    counts ← read_entries (of_le_bytes word_count) no_counts
    pure (record { counts = counts; last_byte_effective = of_le_bytes last })

  -- A leaf gives its byte, and the walk goes on at the root.
  unfoldable pub arrive : TreeNode → Option TreeNode → List ℕ → Io Streams ReadState
  arrive root none buf = λ _. undefined
  arrive root (some (leaf ch weight code)) buf = do
    buf' ← put_byte write_failed ch buf
    pure (record { write_buf = buf'; at = root })
  arrive root (some (node left right weight)) buf =
      pure (record { write_buf = buf; at = node left right weight })

  -- The bits `j`, `j` + 1, … of a byte, `n` of them.
  unfoldable pub read_bits : TreeNode → ℕ → ℕ → ℕ → ReadState → Io Streams ReadState
  read_bits root byte_buf j zero st = pure st
  read_bits root byte_buf j (suc n) st = do
    st' ← arrive root (child (get_bit byte_buf j) st.at) st.write_buf
    read_bits root byte_buf (j + 1) n st'

  abbrev pub first_or : List ℕ → ℕ
  first_or [] = uninit
  first_or (b ∷ bs) = b

  abbrev pub last_byte_of : Option (List ℕ) → Io Streams ℕ
  last_byte_of none = raise read_failed
  last_byte_of (some bytes) = pure (first_or bytes)

  abbrev pub root_of : Option (Option TreeNode) → Io Streams TreeNode
  root_of none = λ _. stuck
  root_of (some none) = raise (new_exception decompresse (codes "failed to build huffman tree"))
  root_of (some (some root)) = pure root

  -- The loop over the last byte; `j` is an `int` and must not overflow.
  unfoldable pub read_last : TreeNode → ℕ → ℕ → ReadState → Io Streams ReadState
  read_last root last_byte last_byte_effective st =
      if ltb last_byte_effective (2 ^ 31)
      then read_bits root last_byte 0 last_byte_effective st
      else (read_bits root last_byte 0 (2 ^ 31) st >>= λ st'. λ _. undefined)

  unfoldable pub read_data : HuffHeader → Io Streams (Unit {0})
  unfolding read
  read_data header = do
    root ← root_of (build_huffman pq header.counts)
    bytes ← read 1
    last_byte ← last_byte_of bytes
    st ←
        read_loop read_failed (for_each (λ byte_buf. read_bits root byte_buf 0 8))
          (record { write_buf = []; at = root })
    st' ← read_last root last_byte header.last_byte_effective st
    write_exactly st'.write_buf write_failed

  unfoldable pub clear : Io Streams (Unit {0})
  clear = do
    close_or_throw (new_exception decompresse (codes "failed to close src_fd"))
    fsync
    close_or_throw (new_exception decompresse (codes "failed to close dst_fd"))

  -- The body of the `try` block in `Handle`, behind `Init`.
  unfoldable pub decompress : Io Streams (Unit {0})
  decompress = do header ← read_header; read_data header; clear

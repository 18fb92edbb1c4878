-- ===== src/Decompress/Safe.antt =====
-- The decompressor on any source, with any failing calls.
use data_backup.Base.{
  ℕ, zero, suc, ◌+◌, ◌^◌, ◌<◌, of_le_bytes, take, drop, lt→ltb, if◌then◌else◌, ◌≡◌, refl, ap, ◌∙◌,
  true, false, ℤ, is_int, Bool, ◌⊎◌, inl, inr, List, [], Option, none, some, arith, ltb, ltb→lt,
  Bool-cases,
}
use data_backup.Io.{
  Streams, BaseException, ok, throw, read_exactly, read, close_or_throw, fsync, put_byte,
}
use data_backup.Io.Safe.{
  Holds, Stays, Anything, Taken, Keeps, bind-Holds, Holds-map, write_exactly-Holds,
  close_or_throw-Holds, fsync-Holds, put_byte-Holds, read-Holds, read_exactly-Holds, GotAll,
  read_exactly-GotAll, for_each-Holds, read_loop-Holds, Holds-cases,
}
use data_backup.Huffman.{
  TreeNode, leaf, node, PriorityQueue, IsLawful, Counts, present, generate_coding,
}
use data_backup.Huffman.Laws.{
  IsNode, IsNode-generate_coding, build_huffman-some, build_huffman-none,
}
use data_backup.Utils.Bits.{get_bit}
use data_backup.Decompress.{
  HuffHeader, ReadState, child, read_entries, read_header, arrive, read_bits, read_last,
  last_byte_of, read_data, clear, decompress, read_failed, write_failed,
}

-- The walk stands at a node with children.
abbrev AtNode : ReadState → Type 0
AtNode st = IsNode st.at

child-IsNode : (b : ℤ) (t : TreeNode) → IsNode t → (t' : TreeNode) × (child b t ≡ some t')
child-IsNode b (leaf ch weight code) h = absurd h
child-IsNode b (node left right weight) h = by_bit (is_int 0 b) (is_int 1 b)
  where
    by_bit :
        (p q : Bool)
        → (t' : TreeNode) × ((if p
              then some left
              else (if q then some right else some (node left right weight)))
            ≡ some t')
    by_bit true q = (left, refl)
    by_bit false true = (right, refl)
    by_bit false false = (node left right weight, refl)

module _ (pq : PriorityQueue) (src_file dst_file : List ℕ) (uninit : ℕ) where
  arrive-Holds :
      (root t : TreeNode) (buf : List ℕ) (s : Streams)
      → IsNode root
      → Holds (Keeps AtNode s) (arrive pq src_file dst_file uninit root (some t) buf s)
  unfolding arrive
  arrive-Holds root (leaf ch weight code) buf s h =
      bind-Holds (Stays s) (Keeps AtNode s)
        (put_byte (write_failed pq src_file dst_file uninit) ch buf s) _
        (put_byte-Holds (write_failed pq src_file dst_file uninit) ch buf s) (λ buf' s' e. (h, e))
  arrive-Holds root (node left right weight) buf s h = (tt, refl)

  read_bits-Holds :
      (root : TreeNode) (byte_buf n j : ℕ) (st : ReadState) (s : Streams)
      → IsNode root
      → AtNode st
      → Holds (Keeps AtNode s) (read_bits pq src_file dst_file uninit root byte_buf j n st s)
  unfolding read_bits
  read_bits-Holds root byte_buf zero j st s hr h = (h, refl)
  read_bits-Holds root byte_buf (suc n) j st s hr h =
      let (t, e) = child-IsNode (get_bit byte_buf j) st.at h in
      rw e (
        bind-Holds (Keeps AtNode s) (Keeps AtNode s)
          (arrive pq src_file dst_file uninit root (some t) st.write_buf s) _
          (arrive-Holds root t st.write_buf s hr)
          λ st' s' (h', e').
            Holds-map (Keeps AtNode s') (Keeps AtNode s) _ (λ a s'' (k, e''). (k, e'' ∙ e'))
              (read_bits-Holds root byte_buf n (j + 1) st' s' hr h'))

  read_entries-Holds :
      (n : ℕ) (counts : Counts) (s : Streams)
      → Holds Anything (read_entries pq src_file dst_file uninit n counts s)
  unfolding read_entries
  read_entries-Holds zero counts s = tt
  read_entries-Holds (suc n) counts s =
      let e = read_failed pq src_file dst_file uninit in
      bind-Holds Anything Anything (read_exactly 1 e s) _ (read_exactly-Holds 1 e s) λ c s1 _.
        bind-Holds Anything Anything (read_exactly 8 e s1) _ (read_exactly-Holds 8 e s1)
          λ w s2 _. read_entries-Holds n _ s2

  -- The second word of a source.
  abbrev pub second_word : List ℕ → ℕ
  second_word input = of_le_bytes (take 4 (drop 4 input))

  abbrev HasLast : Streams → HuffHeader → Streams → Type 0
  HasLast s header s' = header.last_byte_effective ≡ second_word s.input

  read_header-Holds : (s : Streams) → Holds (HasLast s) (read_header pq src_file dst_file uninit s)
  unfolding read_header
  read_header-Holds s =
      let e = read_failed pq src_file dst_file uninit in
      bind-Holds (GotAll 4 s) (HasLast s) (read_exactly 4 e s) _ (read_exactly-GotAll 4 e s)
        λ n s1 (en, rest).
          bind-Holds (GotAll 4 s1) (HasLast s) (read_exactly 4 e s1) _ (read_exactly-GotAll 4 e s1)
            λ l s2 (el, rest').
              bind-Holds Anything (HasLast s) (read_entries pq src_file dst_file uninit _ _ s2) _
                (read_entries-Holds _ _ s2)
                (λ counts s3 _. ap of_le_bytes el ∙ ap (λ bytes. of_le_bytes (take 4 bytes)) rest)

  -- Fewer than 2^31 bits in the last byte.
  read_last-Holds :
      (root : TreeNode) (last_byte last : ℕ) (st : ReadState) (s : Streams)
      → last < 2 ^ 31
      → IsNode root
      → AtNode st
      → Holds (Keeps AtNode s) (read_last pq src_file dst_file uninit root last_byte last st s)
  unfolding read_last
  read_last-Holds root last_byte last st s small n h =
      let fits : ltb last (2 ^ 31) ≡ true = lt→ltb last (2 ^ 31) small in
      rw fits (read_bits-Holds root last_byte last 0 st s n h)

  last_byte_of-Holds :
      (bytes : Option (List ℕ)) (s : Streams)
      → Holds Anything (last_byte_of pq src_file dst_file uninit bytes s)
  last_byte_of-Holds none s = tt
  last_byte_of-Holds (some bytes) s = tt

  -- `ReadData` behind the building of the tree.
  read_data-Holds :
      IsLawful pq
      → (header : HuffHeader) (s : Streams) → header.last_byte_effective < 2 ^ 31
      → Holds Anything (read_data pq src_file dst_file uninit header s)
  unfolding read_data
  read_data-Holds L header s small = elim (Bool-cases (ltb 1 (present header.counts))) [
    | inr few ↦ rw (build_huffman-none pq L header.counts (ground arith)) tt
    | inl two ↦
        let (t, built, branches, _) =
          build_huffman-some pq L header.counts (ltb→lt 1 (present header.counts) two) in
        let root = generate_coding t [] in
        let n = IsNode-generate_coding t [] branches in
        let e = read_failed pq src_file dst_file uninit in
        let start : ReadState = record { write_buf = []; at = root } in
        rw built (
          bind-Holds (Taken 1 s) Anything (read 1 s) _ (read-Holds 1 s) λ bytes s1 _.
            bind-Holds Anything Anything (last_byte_of pq src_file dst_file uninit bytes s1) _
              (last_byte_of-Holds bytes s1)
              λ last_byte s2 _.
                bind-Holds _ Anything _ _
                  (read_loop-Holds AtNode e _
                    (λ c a s _ h.
                      for_each-Holds AtNode _ (λ b a s h. read_bits-Holds root b 8 0 a s n h) c a s
                        h)
                    start s2 n)
                  λ st s3 h.
                    bind-Holds (Keeps AtNode s3) Anything
                      (read_last pq src_file dst_file uninit root last_byte
                        header.last_byte_effective st s3)
                      _ (read_last-Holds root last_byte header.last_byte_effective st s3 small n h)
                      λ st' s4 _.
                        Holds-map (Stays s4) Anything _ (λ _ _ _. tt)
                          (write_exactly-Holds st'.write_buf
                            (write_failed pq src_file dst_file uninit) s4))
  ]

  clear-Holds : (s : Streams) → Holds Anything (clear pq src_file dst_file uninit s)
  unfolding clear
  clear-Holds s =
      bind-Holds (Stays s) Anything (close_or_throw _ s) _ (close_or_throw-Holds _ s) λ _ s1 _.
        bind-Holds (Stays s1) Anything (fsync s1) _ (fsync-Holds s1)
          λ _ s2 _. Holds-map (Stays s2) Anything _ (λ _ _ _. tt) (close_or_throw-Holds _ s2)

  decompress-Holds :
      IsLawful pq
      → (s : Streams) → second_word s.input < 2 ^ 31
      → Holds Anything (decompress pq src_file dst_file uninit s)
  unfolding decompress
  decompress-Holds L s small =
      bind-Holds (HasLast s) Anything (read_header pq src_file dst_file uninit s) _
        (read_header-Holds s)
        λ header s1 last.
          bind-Holds Anything Anything (read_data pq src_file dst_file uninit header s1) _
            (read_data-Holds L header s1 (omega (arith, last, small))) λ _ s2 _. clear-Holds s2

-- For every lawful priority queue, every source whose second word of four bytes, the number of bits in
-- the last byte, is below 2^31, also one that no compressor wrote, and every row of failing calls: the
-- decompressor ends, and either succeeds or throws an exception that its handler catches: no run is
-- undefined or out of fuel.
pub decompress_ends :
    (pq : PriorityQueue) (L : IsLawful pq) (src_file dst_file : List ℕ) (uninit : ℕ) (s : Streams)
    → of_le_bytes (take 4 (drop 4 s.input)) < 2 ^ 31
    → ((s' : Streams) × (decompress pq src_file dst_file uninit s ≡ ok tt s'))
      ⊎ ((e : BaseException) × (s' : Streams) × (decompress pq src_file dst_file uninit s
            ≡ throw e s'))
decompress_ends pq L src_file dst_file uninit s small =
    Holds-cases (decompress pq src_file dst_file uninit s)
      (decompress-Holds pq src_file dst_file uninit L s small)

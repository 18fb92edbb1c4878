-- ===== src/Decompress/RoundTrip.antt =====
-- Decompressing what the compressor wrote.
use data_backup.Base.{
  ℕ, ◌^◌, ltb, true, ◌≡◌, refl, ap, sym, ◌∙◌, List, [], ◌∷◌, ◌++◌, length, All, IsByte, arith,
}
use data_backup.Io.{ok, streams, Buffered, plain-IsAppendable, flush_lem, close_or_throw, fsync}
use data_backup.Huffman.{TreeNode, PriorityQueue, IsLawful}
use data_backup.Utils.Packing.{bits_of, bits_from}
use data_backup.Compress.{compress}
use data_backup.Compress.Counted.{counted-IsCounted, no_counts-IsCounted}
use data_backup.Compress.Second.{add_second-IsCounted}
use data_backup.Compress.Whole.{Compressed, compress_lem, file_counts, header_bytes}
use data_backup.Decompress.{
  HuffHeader, ReadState, read_last, read_data, clear, decompress, write_failed,
}
use data_backup.Decompress.Walk.{walk, walk-encode}
use data_backup.Decompress.Bits.{Reached, bytes_loop, read_bits_lem}
use data_backup.Decompress.Header.{read_header_lem}

plain_start : Buffered (λ d. d) 0 [] [] [] 0
plain_start = record { flushed = []; parts = refl; bytes = refl; offset = refl; room = omega arith }

module _ (pq : PriorityQueue) (src_file dst_file : List ℕ) (uninit : ℕ) (s_file d_file xs : List ℕ)
    (c : Compressed pq s_file d_file xs) where
  abbrev header : HuffHeader
  header = record { counts = file_counts xs; last_byte_effective = c.last }

  start : Reached c.root [] (record { write_buf = []; at = c.root }) [] 0
  unfolding walk
  start = record { d = []; walked = refl; inner = c.branches; buffered = plain_start }

  -- Where the walk has passed all bits, all bytes of the file have been put.
  finish :
      (st : ReadState) (out whole : List ℕ) (offset : ℕ)
      → Reached c.root (bits_of c.data_bytes ++ bits_from 0 c.last c.first) st out offset
      → Buffered (λ d. d) 0 xs st.write_buf out offset
  finish st out whole offset r =
      let e =
        sym r.walked
        ∙ ap (walk c.root c.root) c.holds.order
        ∙ walk-encode c.root c.table xs c.branches c.codes_lead in
      rw (ap (λ (p : List ℕ × TreeNode). p.0) e) at r.buffered

  read_data_lem :
      (whole : List ℕ)
      → read_data pq src_file dst_file uninit header (streams (c.first ∷ c.data_bytes) whole [] 0)
        ≡ ok tt (streams [] whole xs (length xs))
  unfolding read_data read_last
  read_data_lem whole =
      let small : ltb c.last (2 ^ 31) ≡ true = ground (arith, c.last_is) in
      let (st, out, offset, r, run) =
        bytes_loop pq src_file dst_file uninit whole c.root c.branches c.data_bytes _ [] 0 start in
      let (st', out', offset', r', run') =
        read_bits_lem pq src_file dst_file uninit whole c.root c.branches c.first c.last 0 _ st out
          offset (omega (arith, c.last_is)) r in
      let e = write_failed pq src_file dst_file uninit in
      rw c.built (
        rw run (
          rw small (
            rw (run' []) (
              flush_lem (λ d. d) 0 plain-IsAppendable whole e xs st'.write_buf out' offset'
                (finish st' out' whole offset' r') []
              ∙ ap (λ n. ok tt (streams [] whole xs n)) (omega arith)))))

  clear_lem :
      (rest whole out : List ℕ) (pos : ℕ)
      → clear pq src_file dst_file uninit (streams rest whole out pos)
        ≡ ok tt (streams rest whole out pos)
  unfolding clear close_or_throw fsync
  clear_lem rest whole out pos = refl

  abbrev pub file_bytes : List ℕ
  file_bytes = header_bytes (file_counts xs) c.last ++ c.first ∷ c.data_bytes

  pub decompress_lem :
      decompress pq src_file dst_file uninit (streams file_bytes file_bytes [] 0)
      ≡ ok tt (streams [] file_bytes xs (length xs))
  unfolding decompress
  decompress_lem =
      let i = add_second-IsCounted _ (counted-IsCounted xs _ no_counts-IsCounted) in
      rw
        (read_header_lem pq src_file dst_file uninit (file_counts xs) c.last
          (c.first ∷ c.data_bytes) file_bytes [] 0 i (omega (arith, c.last_is)))
        (rw (read_data_lem file_bytes) (clear_lem [] file_bytes xs (length xs)))

-- For every lawful priority queue and every file of bytes that is not empty: with no failing call
-- the compressor succeeds, and the decompressor, given what it wrote, succeeds with the bytes of
-- the file.
pub decompress-compress :
    (pq : PriorityQueue) (L : IsLawful pq) (src dst src' dst' : List ℕ) (uninit x : ℕ) (xs : List ℕ)
    → All IsByte (x ∷ xs)
    → (cmp : List ℕ) × (offset : ℕ) × (compress pq src dst (streams (x ∷ xs) (x ∷ xs) [] 0)
        ≡ ok tt (streams [] (x ∷ xs) cmp offset))
      × (decompress pq src' dst' uninit (streams cmp cmp [] 0)
          ≡ ok tt (streams [] cmp (x ∷ xs) (length (x ∷ xs))))
decompress-compress pq L src dst src' dst' uninit x xs h =
    let c = compress_lem pq L src dst x xs h in
    (
      file_bytes pq src' dst' uninit src dst (x ∷ xs) c,
      c.offset,
      c.run,
      decompress_lem pq src' dst' uninit src dst (x ∷ xs) c,
    )

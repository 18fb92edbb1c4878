-- ===== src/Decompress/Header.antt =====
-- `ReadHeader` reads back the counts that `WriteHeader` wrote.
use data_backup.Base.{
  ℕ, suc, ◌^◌, ◌≤◌, ◌<◌, ◌≡◌, refl, ◌∙◌, List, [], ◌∷◌, ◌++◌, none, some, length, length-append,
  append_assoc, replicate, set, set-middle, le_bytes, of_le_bytes, length-le_bytes,
  of_le_bytes-le_bytes, arith,
}
use data_backup.Io.{ok, streams, read_exactly_lem}
use data_backup.Huffman.{TreeNode, leaf, PriorityQueue, Counts, present}
use data_backup.Compress.{no_counts}
use data_backup.Compress.Counted.{Indexed, IsCounted}
use data_backup.Compress.Whole.{entry_bytes, header_bytes}
use data_backup.Decompress.{read_entries, read_header, read_failed}

present-le-length : (counts : Counts) → present counts ≤ length counts
unfolding present
present-le-length [] = omega arith
present-le-length (none ∷ counts) = omega (arith, present-le-length counts)
present-le-length (some t ∷ counts) = omega (arith, present-le-length counts)

of_le_bytes-single : (b : ℕ) → of_le_bytes (b ∷ []) ≡ b
unfolding of_le_bytes
of_le_bytes-single b = omega arith

module _ (pq : PriorityQueue) (src_file dst_file : List ℕ) (uninit : ℕ) where
  -- One entry of the header.
  read_entry :
      (k b w : ℕ) (counts : Counts) (rest whole out : List ℕ) (pos : ℕ)
      → w < 2 ^ 64
      → read_entries pq src_file dst_file uninit
          (suc k)
          counts
          (streams (b ∷ (le_bytes 8 w ++ rest)) whole out pos)
        ≡ read_entries pq src_file dst_file uninit k
            (set counts b (some (leaf b w [])))
            (streams rest whole out pos)
  unfolding read_entries
  read_entry k b w counts rest whole out pos h =
      let e = read_failed pq src_file dst_file uninit in
      rw (read_exactly_lem 1 (b ∷ []) e (le_bytes 8 w ++ rest) whole out pos refl) (
        rw (read_exactly_lem 8 (le_bytes 8 w) e rest whole out pos (length-le_bytes 8 w))
          (rw (of_le_bytes-single b, of_le_bytes-le_bytes 8 w (omega arith)) refl))

  read_entries_lem :
      (suf pre : Counts) (rest whole out : List ℕ) (pos : ℕ)
      → Indexed (length pre) suf
      → read_entries pq src_file dst_file uninit
          (present suf)
          (pre ++ replicate (length suf) none)
          (streams (entry_bytes suf ++ rest) whole out pos)
        ≡ ok (pre ++ suf) (streams rest whole out pos)
  unfolding present entry_bytes
  read_entries_lem [] pre rest whole out pos h = unfold read_entries in refl
  read_entries_lem (none ∷ suf) pre rest whole out pos h =
      let one : suc (length pre) ≡ length (pre ++ none ∷ []) =
        omega (arith, length-append pre (none ∷ [])) in
      let ih = read_entries_lem suf (pre ++ none ∷ []) rest whole out pos (rw (← one) h) in
      rw
        (
          append_assoc pre (none ∷ []) (replicate (length suf) none),
          append_assoc pre (none ∷ []) suf,
        )
        at ih
  read_entries_lem (some t ∷ suf) pre rest whole out pos ((w, e, fits), h) =
      let here : TreeNode = leaf (length pre) w [] in
      let one : suc (length pre) ≡ length (pre ++ some here ∷ []) =
        omega (arith, length-append pre (some here ∷ [])) in
      let ih = read_entries_lem suf (pre ++ some here ∷ []) rest whole out pos (rw (← one) h) in
      let ih' =
        rw
          (
            append_assoc pre (some here ∷ []) (replicate (length suf) none),
            append_assoc pre (some here ∷ []) suf,
          )
          at ih in
      rw e (
        rw (append_assoc (le_bytes 8 w) (entry_bytes suf) rest) (
          read_entry (present suf) (length pre) w (pre ++ none ∷ replicate (length suf) none)
            (entry_bytes suf ++ rest) whole out pos fits
          ∙ rw (set-middle (length pre) pre (replicate (length suf) none) none (some here) refl)
              ih'))

  -- The header of the compressor is read back.
  pub read_header_lem :
      (counts : Counts) (last : ℕ) (rest whole out : List ℕ) (pos : ℕ)
      → IsCounted counts
      → last < 2 ^ 32
      → read_header pq src_file dst_file uninit
          (streams (header_bytes counts last ++ rest) whole out pos)
        ≡ ok (record { counts = counts; last_byte_effective = last }) (streams rest whole out pos)
  unfolding read_header
  read_header_lem counts last rest whole out pos h fits =
      let e = read_failed pq src_file dst_file uninit in
      let n = present counts in
      let room : n < 256 ^ 4 = omega (arith, present-le-length counts, h.full) in
      let same : no_counts ≡ replicate (length counts) none = rw h.full refl in
      rw
        (
          append_assoc (le_bytes 4 n) (le_bytes 4 last ++ entry_bytes counts) rest,
          append_assoc (le_bytes 4 last) (entry_bytes counts) rest,
        )
        (rw (read_exactly_lem 4 (le_bytes 4 n) e _ whole out pos (length-le_bytes 4 n)) (
          rw (read_exactly_lem 4 (le_bytes 4 last) e _ whole out pos (length-le_bytes 4 last)) (
            rw (of_le_bytes-le_bytes 4 n room, of_le_bytes-le_bytes 4 last (omega arith))
              (rw same (rw (read_entries_lem counts [] rest whole out pos h.indexed) refl)))))

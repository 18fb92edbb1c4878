-- ===== src/Decompress/Bits.antt =====
-- `ReadData`: the loops over bytes and bits give what the walk gives.
use data_backup.Base.{
  ℕ, zero, suc, ◌+◌, ◌≤◌, ◌<◌, ◌≡◌, refl, ap, ◌∙◌, ◌⊎◌, inl, inr, Bool, List, [], ◌∷◌, ◌++◌,
  append_assoc, append-nil, some, All, pos, is_int, arith,
}
use data_backup.Io.{
  Io, Streams, ok, bind, streams, Buffered, plain-IsAppendable, put_byte_lem, for_each_inv,
  read_loop_inv, for_each, read_loop,
}
use data_backup.Huffman.{TreeNode, leaf, node, PriorityQueue}
use data_backup.Huffman.Laws.{IsNode}
use data_backup.Utils.Bits.{get_bit}
use data_backup.Utils.Packing.{bits_from, byte_bits, bits_of, bits_of-append}
use data_backup.Decompress.{ReadState, child, arrive, read_bits, read_failed, write_failed}
use data_backup.Decompress.Walk.{pick, settle, walk, walk-append, settle-IsNode}

-- The bits so far gave the bytes `d`, all of them put, and lead to the node of the state.
pub record Reached (root : TreeNode) (bits : List Bool) (st : ReadState) (out : List ℕ) (offset : ℕ)
    : Type 0 where
  pub d : List ℕ
  pub walked : walk root root bits ≡ (d, st.at)
  pub inner : IsNode st.at
  pub buffered : Buffered (λ d. d) 0 d st.write_buf out offset

get_bit_cases : (b j : ℕ) → j < 8 → (get_bit b j ≡ pos 0) ⊎ (get_bit b j ≡ pos 1)
unfolding get_bit
get_bit_cases b j h = ground arith

-- From a node with children a bit leads to a child.
child-pick :
    (b j : ℕ) (t : TreeNode)
    → j < 8
    → IsNode t
    → child (get_bit b j) t ≡ some (pick (is_int 1 (get_bit b j)) t)
child-pick b j (leaf ch weight code) h n = absurd n
child-pick b j (node left right weight) h n = elim (get_bit_cases b j h) [
  | inl e ↦ rw e refl
  | inr e ↦ rw e refl
]

walk-bit :
    (root at : TreeNode) (b : Bool)
    → walk root at (b ∷ []) ≡ ((settle root (pick b at)).0, (settle root (pick b at)).1)
unfolding walk
walk-bit root at b = rw append-nil refl

module _ (pq : PriorityQueue) (src_file dst_file : List ℕ) (uninit : ℕ) (whole : List ℕ)
    (root : TreeNode) (branches : IsNode root) where
  abbrev Reads : (ReadState → Io Streams ReadState) → List Bool → ReadState → List ℕ → ℕ → Type 0
  Reads m bits st out offset =
      (st' : ReadState) × (out' : List ℕ) × (offset' : ℕ) × Reached root bits st' out' offset'
      × ((rest : List ℕ)
          → m st (streams rest whole out offset) ≡ ok st' (streams rest whole out' offset'))

  -- Arriving at a node.
  arrive_lem :
      (t : TreeNode) (d buf out : List ℕ) (offset : ℕ)
      → Buffered (λ d. d) 0 d buf out offset
      → (st' : ReadState) × (out' : List ℕ) × (offset' : ℕ) × (st'.at ≡ (settle root t).1)
        × Buffered (λ d. d) 0 (d ++ (settle root t).0) st'.write_buf out' offset'
        × ((rest : List ℕ)
            → arrive pq src_file dst_file uninit root (some t) buf (streams rest whole out offset)
              ≡ ok st' (streams rest whole out' offset'))
  unfolding arrive
  arrive_lem (leaf ch weight code) d buf out offset b =
      let (buf', out', offset', b', run) =
        put_byte_lem (λ d. d) 0 plain-IsAppendable whole (write_failed pq src_file dst_file uninit)
          ch d buf out offset b in
      (record { write_buf = buf'; at = root }, out', offset', refl, b', λ rest. rw (run rest) refl)
  arrive_lem (node left right weight) d buf out offset b = (
    record { write_buf = buf; at = node left right weight },
    out,
    offset,
    refl,
    rw append-nil b,
    λ rest. refl,
  )

  pub read_bits_lem :
      (byte_buf n j : ℕ) (bits : List Bool) (st : ReadState) (out : List ℕ) (offset : ℕ)
      → j + n ≤ 8
      → Reached root bits st out offset
      → Reads
          (read_bits pq src_file dst_file uninit root byte_buf j n)
          (bits ++ bits_from j n byte_buf)
          st
          out
          offset
  unfolding read_bits bits_from
  read_bits_lem byte_buf zero j bits st out offset le r =
      (st, out, offset, rw append-nil r, λ rest. refl)
  read_bits_lem byte_buf (suc n) j bits st out offset le r =
      let bit = is_int 1 (get_bit byte_buf j) in
      let t = pick bit st.at in
      let (st1, out1, offset1, at1, b1, run1) =
        arrive_lem t r.d st.write_buf out offset r.buffered in
      let r1 : Reached root (bits ++ bit ∷ []) st1 out1 offset1 = record {
        d = r.d ++ (settle root t).0;
        walked =
            walk-append root root bits (bit ∷ [])
            ∙ rw r.walked (rw (walk-bit root st.at bit) (rw at1 refl));
        inner = rw at1 (settle-IsNode root t branches);
        buffered = b1;
      } in
      let (st2, out2, offset2, r2, run2) =
        read_bits_lem byte_buf n (j + 1) (bits ++ bit ∷ []) st1 out1 offset1 (omega arith) r1 in
      (
        st2,
        out2,
        offset2,
        rw append_assoc at r2,
        λ rest. rw (child-pick byte_buf j st.at (omega arith) r.inner) (
            ap (λ o. bind o (read_bits pq src_file dst_file uninit root byte_buf (j + 1) n))
              (run1 rest)
            ∙ run2 rest),
      )

  bits_of-single : (b : ℕ) → bits_of (b ∷ []) ≡ byte_bits b
  unfolding bits_of
  bits_of-single b = append-nil (byte_bits b)

  -- The loop over the bytes of the source, whatever bytes they are.
  pub bytes_loop :
      (xs : List ℕ) (st : ReadState) (out : List ℕ) (offset : ℕ)
      → Reached root [] st out offset
      → (st' : ReadState) × (out' : List ℕ) × (offset' : ℕ) × Reached root
          (bits_of xs)
          st'
          out'
          offset'
        × (read_loop
              (read_failed pq src_file dst_file uninit)
              (for_each (λ byte_buf. read_bits pq src_file dst_file uninit root byte_buf 0 8))
              st
              (streams xs whole out offset)
            ≡ ok st' (streams [] whole out' offset'))
  unfolding bits_of
  bytes_loop xs st out offset r =
      read_loop_inv AnyByte (λ done. Reached root (bits_of done)) whole _ _
        (λ done c s o p hc aligned le inv.
          for_each_inv AnyByte (λ done. Reached root (bits_of done)) whole _
            (λ done b s o p hb inv.
              rw (bits_of-append done (b ∷ []), bits_of-single b)
                (read_bits_lem b 8 0 (bits_of done) s o p (omega arith) inv))
            c done s o p hc inv)
        xs st out offset (any xs) r
    where
      AnyByte : ℕ → Type 0
      AnyByte b = Unit {0}

      any : (xs : List ℕ) → All AnyByte xs
      any [] = tt
      any (x ∷ xs) = (tt, any xs)

-- ===== src/Archive/Blocks.antt =====
-- The data blocks of a regular file: what `PackRegular` writes, and `Copy` reads back.
use data_backup.Base.{
  not_zero, ℕ, zero, suc, ◌+◌, ◌-◌, ◌*◌, ◌≤◌, ◌<◌, ◌≡◌, refl, ap, sym, ◌∙◌, true, false, List, [],
  ◌∷◌, ◌++◌, length, length-append, take, drop, length-take, length-drop, replicate,
  length-replicate, append_assoc, append-nil, take_all, drop_all, take-append_exact,
  drop-append_exact, take-append-drop, ==_iff, leb, arith,
}
use data_backup.Io.{ok, streams, read, write, write_at-end, append_exactly_lem, codes}
use data_backup.Archive.Header.{Header}
use data_backup.Archive.Pack.{my_block_size, overlay, pack_blocks, block_round, error}
use data_backup.Utils.Copy.{write_block, copy_block, copy_round, copy_blocks}

drop-replicate : (n k : ℕ) → n ≤ k → drop {A = ℕ} n (replicate k 0) ≡ replicate (k - n) 0
drop-replicate zero k h = ap (λ m. replicate m 0) (omega arith)
drop-replicate (suc n) zero h = absurd (omega arith)
drop-replicate (suc n) (suc k) h =
    drop-replicate n k (omega arith) ∙ ap (λ m. replicate m 0) (omega arith)

write_block_lem :
    (h : Header) (bytes rest whole out : List ℕ)
    → write_block h bytes (streams rest whole out (length out))
      ≡ ok tt (streams rest whole (out ++ bytes) (length (out ++ bytes)))
unfolding write_block write
write_block_lem h bytes rest whole out =
    rw ((==_iff (length bytes) (length bytes)).1 refl)
      (rw (write_at-end out bytes (length out) refl) (rw (length-append out bytes) refl))

last_block :
    (bytes : List ℕ) (p : ℕ)
    → length bytes + p ≡ my_block_size
    → overlay bytes (replicate my_block_size 0) ≡ bytes ++ replicate p 0
last_block bytes p e =
    let left : my_block_size - length bytes ≡ p = omega arith in
    ap (λ t. bytes ++ t)
      (drop-replicate (length bytes) my_block_size (omega arith) ∙ ap (λ k. replicate k 0) left)

-- `n` blocks for a rest `xs` that leaves `p` bytes of the last one free.
pub pack_blocks_lem :
    (src_file : List ℕ) (n p : ℕ) (xs buf whole out : List ℕ)
    → length xs + p ≡ n * my_block_size
    → p < my_block_size
    → length buf ≡ my_block_size
    → pack_blocks src_file n buf (streams xs whole out (length out))
      ≡ ok tt
          (streams [] whole (out ++ (xs ++ replicate p 0)) (length (out ++ (xs ++ replicate p 0))))
unfolding pack_blocks block_round read
pack_blocks_lem src_file zero p [] buf whole out e lp lb =
    let none_free : p ≡ 0 = omega arith in rw none_free (rw append-nil refl)
pack_blocks_lem src_file zero p (x ∷ xs) buf whole out e lp lb = absurd (omega arith)
pack_blocks_lem src_file (suc n) p [] buf whole out e lp lb = absurd (omega arith)
pack_blocks_lem src_file (suc zero) p (x ∷ xs) buf whole out e lp lb =
    rw (take_all 511 xs (omega arith), drop_all 511 xs (omega arith))
      (rw (last_block (x ∷ xs) p (omega arith)) (
        rw
          (append_exactly_lem (x ∷ xs ++ replicate p 0) (error (codes "write failed: " ++ src_file))
            [] whole out)
          refl))
pack_blocks_lem src_file (suc (suc n)) p (x ∷ xs) buf whole out e lp lb =
    let c : List ℕ = x ∷ take 511 xs in
    let rest : List ℕ = drop 511 xs in
    let lc : length c ≡ my_block_size = omega (arith, length-take 511 xs) in
    let filled : overlay c buf ≡ c =
      ap (λ t. c ++ t) (drop_all (length c) buf (omega (arith, lc))) ∙ append-nil c in
    rw (not_zero n) (
      rw filled (
        rw (append_exactly_lem c (error (codes "write failed: " ++ src_file)) rest whole out) (
          pack_blocks_lem src_file (suc n) p rest c whole (out ++ c)
            (omega (arith, length-drop 511 xs)) lp lc
          ∙ rw (append_assoc out c, ← append_assoc c rest, take-append-drop 511 xs) refl)))

pub copy_blocks_lem :
    (h : Header) (n p : ℕ) (xs after buf whole out : List ℕ)
    → length xs + p ≡ n * my_block_size
    → p < my_block_size
    → h.padding ≡ p
    → copy_blocks h false n buf (streams (xs ++ (replicate p 0 ++ after)) whole out (length out))
      ≡ ok tt (streams after whole (out ++ xs) (length (out ++ xs)))
unfolding copy_blocks copy_round copy_block read
copy_blocks_lem h zero p [] after buf whole out e lp ep =
    let none_free : p ≡ 0 = omega arith in rw none_free (rw append-nil refl)
copy_blocks_lem h zero p (x ∷ xs) after buf whole out e lp ep = absurd (omega arith)
copy_blocks_lem h (suc zero) p xs after buf whole out e lp ep =
    let zs : List ℕ = replicate p 0 in
    let block : List ℕ = xs ++ zs in
    let lblock : length block ≡ my_block_size =
      omega (arith, length-append xs zs, length-replicate {A = ℕ} p 0) in
    let fits : leb p my_block_size ≡ true = ground arith in
    let kept : my_block_size - p ≡ length xs = omega arith in
    rw (← append_assoc xs zs after) (
      rw
        (
          take-append_exact my_block_size block after lblock,
          drop-append_exact my_block_size block after lblock,
        )
        (rw (ep, lblock)
          (rw (fits, kept)
            (rw (take-append_exact (length xs) xs zs refl)
              (rw (write_block_lem h xs after whole out) refl)))))
copy_blocks_lem h (suc (suc n)) p xs after buf whole out e lp ep =
    let c : List ℕ = take my_block_size xs in
    let rest : List ℕ = drop my_block_size xs in
    let more : List ℕ = rest ++ (replicate p 0 ++ after) in
    let lc : length c ≡ my_block_size = omega (arith, length-take my_block_size xs) in
    let split : xs ++ (replicate p 0 ++ after) ≡ c ++ more =
      ap (λ t. t ++ (replicate p 0 ++ after)) (sym (take-append-drop my_block_size xs))
      ∙ append_assoc c rest (replicate p 0 ++ after) in
    rw (split, not_zero n)
      (rw (take-append_exact my_block_size c more lc, drop-append_exact my_block_size c more lc)
        (rw (write_block_lem h c more whole out) (
          copy_blocks_lem h (suc n) p rest after _ whole (out ++ c)
            (omega (arith, length-drop my_block_size xs)) lp ep
          ∙ rw (append_assoc out c, take-append-drop my_block_size xs) refl)))

-- ===== src/Compress/Total.antt =====
-- `last_byte_effective_` from the weights is the number of code bits modulo 8, whatever the table,
-- also where a weight has wrapped around.
use data_backup.Base.{
  ℕ, zero, suc, ◌+◌, ◌*◌, ◌%◌, ◌^◌, ◌<◌, ◌≡◌, refl, ap, ◌∙◌, inl, inr, Bool, List, [], ◌∷◌, ◌++◌,
  none, some, length, length-append, get_or, set, All, IsByte, arith,
}
use native.Mathlib.Nat.{div-add-mod}
use data_backup.Huffman.{TreeNode, leaf, weight_of, Counts}
use data_backup.Compress.{
  CodingTable, no_counts, count_byte, ch_of, add_second, last_byte_effective,
}
use data_backup.Compress.Counted.{
  Indexed, IsCounted, counted, counted_at, count_byte-IsCounted, counted-IsCounted,
  no_counts-IsCounted,
}
use data_backup.Compress.Second.{add_second_cases}

-- The codes of all bytes, one after the other.
unfoldable pub encode : CodingTable → List ℕ → List Bool
encode table [] = []
encode table (x ∷ xs) = table x ++ encode table xs

module _ (table : CodingTable) where
  -- The number of code bits that the weights stand for.
  total : Counts → ℕ
  total [] = 0
  total (none ∷ counts) = total counts
  total (some t ∷ counts) = weight_of t * length (table (ch_of t)) + total counts

  mod_product : (w l : ℕ) → w * l % 8 ≡ w % 8 * l % 8
  mod_product w l = omega (arith, ap (λ (t : ℕ). t * l) (div-add-mod w 8))

  last_byte_effective-total :
      (counts : Counts) (acc : ℕ)
      → acc < 8
      → last_byte_effective counts table acc ≡ (acc + total counts) % 8
  unfolding last_byte_effective total
  last_byte_effective-total [] acc h = omega arith
  last_byte_effective-total (none ∷ counts) acc h = last_byte_effective-total counts acc h
  last_byte_effective-total (some t ∷ counts) acc h =
      last_byte_effective-total counts _ (omega arith)
      ∙ omega (arith, mod_product (weight_of t) (length (table (ch_of t))))

  -- One more byte: its code is added, modulo 8.
  step_weight : (w l : ℕ) → w < 2 ^ 64 → (w + 1) % 2 ^ 64 * l % 8 ≡ (w * l + l) % 8
  step_weight w l h =
      omega
        (arith, mod_product ((w + 1) % 2 ^ 64) l, mod_product (w + 1) l, ap (λ (t : ℕ). t * l) wrap)
    where
      wrap : (w + 1) % 2 ^ 64 % 8 ≡ (w + 1) % 8
      wrap = omega arith

  total-counted_at :
      (n i b : ℕ) (counts : Counts)
      → b ≡ n + i
      → i < length counts
      → Indexed n counts
      → total (counted_at i b counts) % 8 ≡ (total counts + length (table b)) % 8
  unfolding total
  total-counted_at n i b [] e lt h = absurd (omega arith)
  total-counted_at n zero b (none ∷ counts) e lt h = omega arith
  total-counted_at n zero b (some t ∷ counts) e lt ((w, et, fits), h) =
      let eb : n ≡ b = omega arith in
      rw (et, eb) (omega (arith, step_weight w (length (table b)) fits))
  total-counted_at n (suc i) b (none ∷ counts) e lt h =
      total-counted_at (suc n) i b counts (omega arith) (omega arith) h
  total-counted_at n (suc i) b (some t ∷ counts) e lt (ht, h) =
      omega (arith, total-counted_at (suc n) i b counts (omega arith) (omega arith) h)

  total-counted :
      (xs : List ℕ) (counts : Counts)
      → All IsByte xs
      → IsCounted counts
      → total (counted counts xs) % 8 ≡ (total counts + length (encode table xs)) % 8
  unfolding counted encode
  total-counted [] counts hx h = omega arith
  total-counted (x ∷ xs) counts (hx, hxs) h = omega (
    arith,
    total-counted xs (count_byte x counts) hxs (count_byte-IsCounted x counts h),
    byte x counts hx h,
    length-append (table x) (encode table xs),
  )
    where
      byte :
          (x : ℕ) (counts : Counts)
          → x < 256
          → IsCounted counts
          → total (count_byte x counts) % 8 ≡ (total counts + length (table x)) % 8
      byte x counts hx h =
          unfold count_byte in
          total-counted_at 0 x x counts (omega arith) (omega (arith, h.full)) h.indexed

  total-set :
      (j : ℕ) (counts : Counts) (t : TreeNode)
      → get_or counts j none ≡ none
      → weight_of t ≡ 0
      → total (set counts j (some t)) ≡ total counts
  unfolding total
  total-set j [] t free e = refl
  total-set zero (none ∷ counts) t free e = rw e (omega arith)
  total-set zero (some u ∷ counts) t free e = cc
  total-set (suc j) (none ∷ counts) t free e = total-set j counts t free e
  total-set (suc j) (some u ∷ counts) t free e = omega (arith, total-set j counts t free e)

  total-add_second : (counts : Counts) → IsCounted counts → total (add_second counts) ≡ total counts
  total-add_second counts h = elim (add_second_cases counts h) [
    | inl (_, e) ↦ ap total e
    | inr (j, _, free, _, e) ↦ ap total e ∙ total-set j counts (leaf j 0 []) free refl
  ]

  -- The code bits of the whole file, modulo 8.
  pub last_byte_effective-encode :
      (xs : List ℕ)
      → All IsByte xs
      → last_byte_effective (add_second (counted no_counts xs)) table 0
        ≡ length (encode table xs) % 8
  unfolding total
  last_byte_effective-encode xs h =
      let c = counted-IsCounted xs no_counts no_counts-IsCounted in
      last_byte_effective-total (add_second (counted no_counts xs)) 0 (omega arith)
      ∙ omega (
        arith,
        total-add_second (counted no_counts xs) c,
        total-counted xs no_counts h no_counts-IsCounted,
      )

-- ===== src/Compress/Counted.antt =====
-- The counts: which nodes `WordFreqCount` leaves in `counts_`.
use data_backup.Base.{
  ℕ, zero, suc, ◌+◌, ◌%◌, ◌^◌, ◌<◌, ◌≡◌, refl, ap, ◌∙◌, inl, inr, List, [], ◌∷◌, ◌++◌, none, some,
  length, length-set, get_or, set, replicate, All, IsByte, arith,
}
use data_backup.Huffman.{TreeNode, leaf, node, Counts}
use data_backup.Huffman.Codes.{HasLeaf}
use data_backup.Huffman.Laws.{HasEntry}
use data_backup.Compress.{no_counts, increment, node_or_new, count_byte}

-- From index `n` on, each node is a leaf for its index, with a weight that fits `uint64_t`.
abbrev pub Indexed : ℕ → Counts → Type 0
Indexed n [] = Unit {0}
Indexed n (none ∷ counts) = Indexed (suc n) counts
Indexed n (some t ∷ counts) = ((w : ℕ) × (t ≡ leaf n w []) × (w < 2 ^ 64)) × Indexed (suc n) counts

-- The counts after the bytes `xs`.
unfoldable pub counted : Counts → List ℕ → Counts
counted counts [] = counts
counted counts (x ∷ xs) = counted (count_byte x counts) xs

pub counted-append :
    (counts : Counts) (xs ys : List ℕ) → counted counts (xs ++ ys) ≡ counted (counted counts xs) ys
unfolding counted
counted-append counts [] ys = refl
counted-append counts (x ∷ xs) ys = counted-append (count_byte x counts) xs ys

-- `count_byte` of a byte `b` whose place in the row is `i`.
abbrev pub counted_at : ℕ → ℕ → Counts → Counts
counted_at i b counts = set counts i (some (increment (node_or_new (get_or counts i none) b)))

counted_at-Indexed :
    (n i b : ℕ) (counts : Counts) → b ≡ n + i → Indexed n counts → Indexed n (counted_at i b counts)
counted_at-Indexed n i b [] e h = tt
counted_at-Indexed n zero b (none ∷ counts) e h =
    ((1, ap (λ k. leaf k 1 []) (omega arith), omega arith), h)
counted_at-Indexed n zero b (some t ∷ counts) e ((w, et, lt), h) =
    (((w + 1) % 2 ^ 64, ap increment et, omega arith), h)
counted_at-Indexed n (suc i) b (none ∷ counts) e h =
    counted_at-Indexed (suc n) i b counts (omega arith) h
counted_at-Indexed n (suc i) b (some t ∷ counts) e (ht, h) =
    (ht, counted_at-Indexed (suc n) i b counts (omega arith) h)

HasLeaf-increment : (c : ℕ) (t : TreeNode) → HasLeaf c t → HasLeaf c (increment t)
HasLeaf-increment c (leaf ch weight code) h = h
HasLeaf-increment c (node left right weight) h = h

-- Bytes that have a node keep it.
counted_at-HasEntry :
    (i b c : ℕ) (counts : Counts) → HasEntry c counts → HasEntry c (counted_at i b counts)
counted_at-HasEntry i b c [] h = h
counted_at-HasEntry zero b c (none ∷ counts) h = inr h
counted_at-HasEntry zero b c (some t ∷ counts) (inl h) = inl (HasLeaf-increment c t h)
counted_at-HasEntry zero b c (some t ∷ counts) (inr h) = inr h
counted_at-HasEntry (suc i) b c (none ∷ counts) h = counted_at-HasEntry i b c counts h
counted_at-HasEntry (suc i) b c (some t ∷ counts) (inl h) = inl h
counted_at-HasEntry (suc i) b c (some t ∷ counts) (inr h) = inr (counted_at-HasEntry i b c counts h)

counted_at-new :
    (n i b : ℕ) (counts : Counts)
    → b ≡ n + i
    → Indexed n counts
    → i < length counts
    → HasEntry b (counted_at i b counts)
counted_at-new n i b [] e h lt = absurd (omega arith)
counted_at-new n zero b (none ∷ counts) e h lt = inl refl
counted_at-new n zero b (some t ∷ counts) e ((w, et, _), h) lt = inl (rw et (omega arith))
counted_at-new n (suc i) b (none ∷ counts) e h lt =
    counted_at-new (suc n) i b counts (omega arith) h (omega arith)
counted_at-new n (suc i) b (some t ∷ counts) e (ht, h) lt =
    inr (counted_at-new (suc n) i b counts (omega arith) h (omega arith))

-- What holds of `counts_` while the bytes are counted.
pub record IsCounted (counts : Counts) : Type 0 where
  pub indexed : Indexed 0 counts
  pub full : length counts ≡ 256

Indexed-replicate : (k n : ℕ) → Indexed n (replicate k none)
Indexed-replicate zero n = tt
Indexed-replicate (suc k) n = Indexed-replicate k (suc n)

pub no_counts-IsCounted : IsCounted no_counts
no_counts-IsCounted = record { indexed = Indexed-replicate 256 0; full = refl }

pub count_byte-IsCounted :
    (b : ℕ) (counts : Counts) → IsCounted counts → IsCounted (count_byte b counts)
unfolding count_byte
count_byte-IsCounted b counts h = record {
  indexed = counted_at-Indexed 0 b b counts (omega arith) h.indexed;
  full = length-set counts b _ ∙ h.full;
}

pub counted-IsCounted :
    (xs : List ℕ) (counts : Counts) → IsCounted counts → IsCounted (counted counts xs)
unfolding counted
counted-IsCounted [] counts h = h
counted-IsCounted (x ∷ xs) counts h =
    counted-IsCounted xs (count_byte x counts) (count_byte-IsCounted x counts h)

counted-HasEntry_old :
    (c : ℕ) (xs : List ℕ) (counts : Counts) → HasEntry c counts → HasEntry c (counted counts xs)
unfolding counted count_byte
counted-HasEntry_old c [] counts h = h
counted-HasEntry_old c (x ∷ xs) counts h =
    counted-HasEntry_old c xs (count_byte x counts) (counted_at-HasEntry x x c counts h)

All-imp : (P Q : ℕ → Type 0) (xs : List ℕ) → ((x : ℕ) → P x → Q x) → All P xs → All Q xs
All-imp P Q [] f h = tt
All-imp P Q (x ∷ xs) f (hx, h) = (f x hx, All-imp P Q xs f h)

-- Every byte of the file has a node.
pub counted-HasEntry :
    (xs : List ℕ) (counts : Counts)
    → All IsByte xs
    → IsCounted counts
    → All (λ c. HasEntry c (counted counts xs)) xs
unfolding counted count_byte
counted-HasEntry [] counts hx h = tt
counted-HasEntry (x ∷ xs) counts (hx, hxs) h = (
  counted-HasEntry_old x xs (count_byte x counts)
      (counted_at-new 0 x x counts (omega arith) h.indexed (omega (arith, h.full))),
  counted-HasEntry xs (count_byte x counts) hxs (count_byte-IsCounted x counts h),
)

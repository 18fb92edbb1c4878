-- ===== src/Compress/Second.antt =====
-- The second node of `WordFreqCount`: a file that is not empty ends with two nodes at least.
use data_backup.Base.{
  ℕ, zero, suc, ◌+◌, ◌%◌, ◌≤◌, ◌<◌, ◌≡◌, ◌≢◌, refl, ap, ◌∙◌, ◌⊎◌, inl, inr, Bool-cases, [], ◌∷◌,
  none, some, length, length-set, get_or, set, ltb, arith,
}
use native.Mathlib.Decide.{ℕ_discrete}
use data_backup.Huffman.{TreeNode, leaf, Counts, present}
use data_backup.Huffman.Laws.{HasEntry}
use data_backup.Compress.{ch_of, scan_nodes, add_second}
use data_backup.Compress.Counted.{Indexed, IsCounted}

present-pos : (c : ℕ) (counts : Counts) → HasEntry c counts → 0 < present counts
unfolding present
present-pos c [] h = absurd h
present-pos c (none ∷ counts) h = present-pos c counts h
present-pos c (some t ∷ counts) h = omega arith

-- A row with no node.
scan_nodes-empty :
    (counts : Counts) (ch k : ℕ) → present counts ≡ 0 → scan_nodes counts ch k ≡ (ch, k)
unfolding scan_nodes present
scan_nodes-empty [] ch k e = refl
scan_nodes-empty (none ∷ counts) ch k e = scan_nodes-empty counts ch k e
scan_nodes-empty (some t ∷ counts) ch k e = absurd (omega arith)

get_or-empty : (counts : Counts) (j : ℕ) → present counts ≡ 0 → get_or counts j none ≡ none
unfolding present
get_or-empty [] j e = refl
get_or-empty (none ∷ counts) zero e = refl
get_or-empty (none ∷ counts) (suc j) e = get_or-empty counts j e
get_or-empty (some t ∷ counts) j e = absurd (omega arith)

-- A row with one node: the scan finds its byte, and every other place is empty.
scan_nodes-lone :
    (n : ℕ) (counts : Counts) (ch : ℕ)
    → Indexed n counts
    → present counts ≡ 1
    → (i : ℕ) × (scan_nodes counts ch 0 ≡ (n + i, 1))
      × ((j : ℕ) → j ≢ i → get_or counts j none ≡ none)
unfolding scan_nodes present
scan_nodes-lone n [] ch h e = absurd (omega arith)
scan_nodes-lone n (none ∷ counts) ch h e =
    let (i, s, others) = scan_nodes-lone (suc n) counts ch h e in
    (suc i, s ∙ ap (λ k. (k, 1)) (omega arith), skip i others)
  where
    skip :
        (i : ℕ)
        → ((j : ℕ) → j ≢ i → get_or counts j none ≡ none)
        → (j : ℕ) → j ≢ suc i
        → get_or (none ∷ counts) j none ≡ none
    skip i others zero ne = refl
    skip i others (suc j) ne = others j (λ k. ne (ap suc k))
scan_nodes-lone n (some t ∷ counts) ch ((w, et, lt), h) e = (
  0,
  scan_nodes-empty counts (ch_of t) 1 (omega arith) ∙ rw et (ap (λ k. (k, 1)) (omega arith)),
  rest,
)
  where
    rest : (j : ℕ) → j ≢ 0 → get_or (some t ∷ counts) j none ≡ none
    rest zero ne = absurd (ne refl)
    rest (suc j) ne = get_or-empty counts j (omega arith)

-- With two nodes or more, or none, the scan does not count one.
scan_nodes-many :
    (counts : Counts) (ch k : ℕ) → k + present counts ≢ 1 → k ≤ 1 → (scan_nodes counts ch k).1 ≢ 1
unfolding scan_nodes present
scan_nodes-many [] ch k ne le = ground arith
scan_nodes-many (none ∷ counts) ch k ne le = scan_nodes-many counts ch k ne le
scan_nodes-many (some t ∷ counts) ch k ne le = elim (Bool-cases (ltb 1 (k + 1))) [
  | inl stop ↦ rw stop (ground arith)
  | inr on ↦ rw on (scan_nodes-many counts (ch_of t) (k + 1) (omega arith) (ground arith))
]

-- A new node in an empty place.
present-set :
    (counts : Counts) (j : ℕ) (t : TreeNode)
    → get_or counts j none ≡ none
    → j < length counts
    → present (set counts j (some t)) ≡ suc (present counts)
unfolding present
present-set [] j t e lt = absurd (omega arith)
present-set (none ∷ counts) zero t e lt = refl
present-set (some u ∷ counts) zero t e lt = cc
present-set (none ∷ counts) (suc j) t e lt = present-set counts j t e (omega arith)
present-set (some u ∷ counts) (suc j) t e lt = ap suc (present-set counts j t e (omega arith))

HasEntry-set :
    (c : ℕ) (counts : Counts) (j : ℕ) (t : TreeNode)
    → get_or counts j none ≡ none
    → HasEntry c counts
    → HasEntry c (set counts j (some t))
HasEntry-set c [] j t e h = h
HasEntry-set c (none ∷ counts) zero t e h = inr h
HasEntry-set c (some u ∷ counts) zero t e h = cc
HasEntry-set c (none ∷ counts) (suc j) t e h = HasEntry-set c counts j t e h
HasEntry-set c (some u ∷ counts) (suc j) t e (inl h) = inl h
HasEntry-set c (some u ∷ counts) (suc j) t e (inr h) = inr (HasEntry-set c counts j t e h)

Indexed-set :
    (n i b : ℕ) (counts : Counts)
    → b ≡ n + i
    → Indexed n counts
    → Indexed n (set counts i (some (leaf b 0 [])))
Indexed-set n i b [] e h = tt
Indexed-set n zero b (none ∷ counts) e h =
    ((0, ap (λ k. leaf k 0 []) (omega arith), omega arith), h)
Indexed-set n zero b (some t ∷ counts) e (ht, h) =
    ((0, ap (λ k. leaf k 0 []) (omega arith), omega arith), h)
Indexed-set n (suc i) b (none ∷ counts) e h = Indexed-set (suc n) i b counts (omega arith) h
Indexed-set n (suc i) b (some t ∷ counts) e (ht, h) =
    (ht, Indexed-set (suc n) i b counts (omega arith) h)

-- `add_second` either changes nothing, and then the row has not exactly one node, or it puts a node
-- of weight 0 in an empty place.
pub add_second_cases :
    (counts : Counts)
    → IsCounted counts
    → ((present counts ≢ 1) × (add_second counts ≡ counts))
      ⊎ ((j : ℕ) × (j < 256)
          × (get_or counts j none ≡ none)
          × (present counts ≡ 1)
          × (add_second counts ≡ set counts j (some (leaf j 0 []))))
unfolding add_second
add_second_cases counts h = elim (ℕ_discrete (present counts) 1) [
  | no many ↦
      inl (many, ground (arith, scan_nodes-many counts 0 0 (λ e. many (omega arith)) (omega arith)))
  | yes one ↦
      let (i, s, others) = scan_nodes-lone 0 counts 0 h.indexed one in
      inr ((0 + i + 1) % 256, omega arith, others _ (omega arith), one, rw s refl)
]

pub add_second-IsCounted : (counts : Counts) → IsCounted counts → IsCounted (add_second counts)
add_second-IsCounted counts h = elim (add_second_cases counts h) [
  | inl (_, e) ↦ rw e h
  | inr (j, _, _, _, e) ↦ rw e (record {
    indexed = Indexed-set 0 j j counts (omega arith) h.indexed;
    full = length-set counts j _ ∙ h.full;
  })
]

pub add_second-HasEntry :
    (c : ℕ) (counts : Counts)
    → IsCounted counts
    → HasEntry c counts
    → HasEntry c (add_second counts)
add_second-HasEntry c counts h k = elim (add_second_cases counts h) [
  | inl (_, e) ↦ rw e k
  | inr (j, _, free, _, e) ↦ rw e (HasEntry-set c counts j _ free k)
]

-- Once a byte has been counted, there are two nodes at least.
pub present-add_second :
    (c : ℕ) (counts : Counts)
    → IsCounted counts
    → HasEntry c counts
    → 1 < present (add_second counts)
present-add_second c counts h k = elim (add_second_cases counts h) [
  | inl (many, e) ↦ rw e (omega (arith, present-pos c counts k))
  | inr (j, lt, free, one, e) ↦
      rw e (omega (arith, present-set counts j (leaf j 0 []) free (omega (arith, h.full))))
]

-- ===== src/Utils/Packing.antt =====
-- A byte as the row of its bits: what filling a byte with `SetBit` and reading it with `GetBit` do.
use data_backup.Base.{
  ℕ, zero, suc, ◌+◌, ◌*◌, ◌≤◌, ◌≡◌, refl, ap, ◌∙◌, Bool, true, false, ◌&&◌, List, [], ◌∷◌, ◌++◌,
  length, append_assoc, ltb, if◌then◌else◌, arith, is_int, IsByte,
}
use data_backup.Utils.Bits.{set_bit, get_bit}

-- The bit that the code writes for a character of a code: '1' is `true`.
abbrev pub bit_value : Bool → ℕ
bit_value b = if b then 1 else 0

-- `uc` after the bits have been set from index `i` on.
unfoldable pub set_bits : ℕ → List Bool → ℕ → ℕ
set_bits i [] uc = uc
set_bits i (b ∷ bs) uc = set_bits (i + 1) bs (set_bit uc i (bit_value b))

-- A byte that was 0 and has been filled from the left.
abbrev pub packed : List Bool → ℕ
packed bs = set_bits 0 bs 0

-- The `n` bits from index `i` on.
unfoldable pub bits_from : ℕ → ℕ → ℕ → List Bool
bits_from i zero uc = []
bits_from i (suc n) uc = is_int 1 (get_bit uc i) ∷ bits_from (i + 1) n uc

abbrev pub byte_bits : ℕ → List Bool
byte_bits = bits_from 0 8

-- The bits of a row of bytes.
unfoldable pub bits_of : List ℕ → List Bool
unfolding bits_from
bits_of [] = []
bits_of (b ∷ bs) = byte_bits b ++ bits_of bs

pub bits_of-append : (xs ys : List ℕ) → bits_of (xs ++ ys) ≡ bits_of xs ++ bits_of ys
unfolding bits_of
bits_of-append [] ys = refl
bits_of-append (x ∷ xs) ys = rw (bits_of-append xs ys, append_assoc)

pub length-bits_of : (xs : List ℕ) → length (bits_of xs) ≡ 8 * length xs
unfolding bits_of bits_from
length-bits_of [] = refl
length-bits_of (x ∷ xs) = omega (arith, length-bits_of xs)

pub set_bits-append :
    (i : ℕ) (bs : List Bool) (b : Bool) (uc : ℕ)
    → set_bits i (bs ++ b ∷ []) uc ≡ set_bit (set_bits i bs uc) (i + length bs) (bit_value b)
unfolding set_bits
set_bits-append i [] b uc = ap (λ j. set_bit uc j (bit_value b)) (omega arith)
set_bits-append i (a ∷ bs) b uc =
    set_bits-append (i + 1) bs b (set_bit uc i (bit_value a))
    ∙ ap (λ j. set_bit (set_bits (i + 1) bs (set_bit uc i (bit_value a))) j (bit_value b))
        (omega arith)

-- A test of every row of at most `n` bits.
all_rows : ℕ → (List Bool → Bool) → Bool
all_rows zero p = p []
all_rows (suc n) p = p [] && (all_rows n (λ bs. p (false ∷ bs)) && all_rows n (λ bs. p (true ∷ bs)))

all_rows_sound :
    (n : ℕ) (p : List Bool → Bool) (bs : List Bool)
    → all_rows n p ≡ true
    → length bs ≤ n
    → p bs ≡ true
unfolding all_rows
all_rows_sound zero p [] h le = h
all_rows_sound zero p (b ∷ bs) h le = absurd (omega arith)
all_rows_sound (suc n) p [] h le = ground arith
all_rows_sound (suc n) p (false ∷ bs) h le =
    ground (arith, all_rows_sound n (λ r. p (false ∷ r)) bs)
all_rows_sound (suc n) p (true ∷ bs) h le = ground (arith, all_rows_sound n (λ r. p (true ∷ r)) bs)

abbrev row_eq : List Bool → List Bool → Bool
row_eq [] [] = true
row_eq [] (y ∷ ys) = false
row_eq (x ∷ xs) [] = false
row_eq (true ∷ xs) (true ∷ ys) = row_eq xs ys
row_eq (true ∷ xs) (false ∷ ys) = false
row_eq (false ∷ xs) (true ∷ ys) = false
row_eq (false ∷ xs) (false ∷ ys) = row_eq xs ys

row_eq→eq : (xs ys : List Bool) → row_eq xs ys ≡ true → xs ≡ ys
row_eq→eq [] [] h = refl
row_eq→eq [] (y ∷ ys) h = cc
row_eq→eq (x ∷ xs) [] h = ground arith
row_eq→eq (true ∷ xs) (true ∷ ys) h = ap (λ t. true ∷ t) (row_eq→eq xs ys h)
row_eq→eq (true ∷ xs) (false ∷ ys) h = cc
row_eq→eq (false ∷ xs) (true ∷ ys) h = cc
row_eq→eq (false ∷ xs) (false ∷ ys) h = ap (λ t. false ∷ t) (row_eq→eq xs ys h)

abbrev round_trips : List Bool → Bool
round_trips bs = ltb (packed bs) 256 && row_eq (bits_from 0 (length bs) (packed bs)) bs

rows : all_rows 8 round_trips ≡ true
unfolding all_rows set_bits bits_from set_bit get_bit
rows = refl

-- A row of at most eight bits that is packed into a byte is read back from it.
pub bits_from-packed :
    (bs : List Bool)
    → length bs ≤ 8
    → IsByte (packed bs) × (bits_from 0 (length bs) (packed bs) ≡ bs)
bits_from-packed bs h =
    let e = all_rows_sound 8 round_trips bs rows h in (ground arith, row_eq→eq _ bs (ground arith))

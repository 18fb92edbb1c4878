-- ===== src/Utils/Bits.antt =====
-- src/utils.cpp: `SetBit` and `GetBit`. Bit 0 is the highest bit of a byte. No caller passes a
-- negative index, so an index is a natural number.
use Prim.Native.Nat.{bit_and, bit_or}
use data_backup.Base.{
  ℕ, zero, suc, ◌-◌, ◌^◌, ◌<◌, ◌≡◌, refl, Bool, true, false, ◌&&◌, ltb, ◌==◌, if◌then◌else◌, arith,
  ℤ, pos, minus_one, negsuc,
}

-- A nonzero `bit` sets the bit, 0 clears it; an index above 7 gives '\0'.
unfoldable pub set_bit : ℕ → ℕ → ℕ → ℕ
set_bit uc bit_index bit =
    if ltb 7 bit_index
    then 0
    else (if bit == 0
        then bit_and uc (255 - 2 ^ (7 - bit_index))
        else bit_or uc (2 ^ (7 - bit_index)))

-- -1 for an index above 7.
unfoldable pub get_bit : ℕ → ℕ → ℤ
get_bit uc bit_index =
    if ltb 7 bit_index
    then minus_one
    else pos (if bit_and uc (2 ^ (7 - bit_index)) == 0 then 0 else 1)

abbrev same : ℤ → ℤ → Bool
same (pos a) (pos b) = a == b
same (pos a) (negsuc b) = false
same (negsuc a) (pos b) = false
same (negsuc a) (negsuc b) = a == b

same→eq : (a b : ℤ) → same a b ≡ true → a ≡ b
same→eq (pos a) (pos b) h = ground arith
same→eq (pos a) (negsuc b) h = ground arith
same→eq (negsuc a) (pos b) h = ground arith
same→eq (negsuc a) (negsuc b) h = ground arith

-- A test of every number below a bound.
unfoldable pub all_below : ℕ → (ℕ → Bool) → Bool
all_below zero p = true
all_below (suc n) p = p n && all_below n p

pub all_below_sound : (n : ℕ) (p : ℕ → Bool) (i : ℕ) → all_below n p ≡ true → i < n → p i ≡ true
unfolding all_below
all_below_sound zero p i h lt = absurd (omega arith)
all_below_sound (suc n) p i h lt = ground (arith, all_below_sound n p i)

-- The law below at one byte, index, bit and second index.
abbrev law : ℕ → ℕ → ℕ → ℕ → Bool
law uc i v j =
    ltb (set_bit uc i v) 256
    && same (get_bit (set_bit uc i v) j) (if i == j then pos v else get_bit uc j)

abbrev laws_of : ℕ → Bool
laws_of uc = all_below 8 (λ i. all_below 2 (λ v. all_below 8 (λ j. law uc i v j)))

table : all_below 256 laws_of ≡ true
unfolding all_below set_bit get_bit
table = refl

law_holds : (uc i v j : ℕ) → uc < 256 → i < 8 → v < 2 → j < 8 → law uc i v j ≡ true
law_holds uc i v j hu hi hv hj =
    all_below_sound 8 _ j
      (all_below_sound 2 _ v (all_below_sound 8 _ i (all_below_sound 256 laws_of uc table hu) hi)
        hv)
      hj

-- On bytes, `SetBit` gives a byte in which bit `i` is the bit written and every other bit is as it
-- was, for the indices 0 to 7.
pub get_bit-set_bit :
    (uc i v j : ℕ)
    → uc < 256
    → i < 8
    → v < 2
    → j < 8
    → (set_bit uc i v < 256)
      × (get_bit (set_bit uc i v) j ≡ (if i == j then pos v else get_bit uc j))
get_bit-set_bit uc i v j hu hi hv hj =
    let h = law_holds uc i v j hu hi hv hj in (ground arith, same→eq _ _ (ground arith))

-- ===== src/Sha/Digits.antt =====
-- src/sha_hash.cpp, `sha256_hash_string`: what is printed of a digest, and when it fits the buffer.
use data_backup.Base.{
  ℕ, suc, ◌+◌, ◌*◌, ◌-◌, ◌/◌, ◌%◌, ◌≤◌, ◌<◌, ◌≡◌, refl, ap, ◌∙◌, sym, Bool, true, false, inl, inr,
  ◌⊎◌, List, [], ◌∷◌, ◌++◌, Option, none, some, All, length, length-append, length-take,
  length-drop, take, drop, set, append_assoc, append-nil, take-append_exact, take-append-drop,
  set-middle, All-append, ◌≢◌, ltb, leb, Bool-cases, Option-cases, if◌then◌else◌, arith, ltb→lt,
}
use data_backup.Archive.Header.{c_string}
use data_backup.Sha.Digest.{hex_digit, hex_text, print_at, print_hash, hash_string}

-- What stays of the digits of a byte once those of the next are printed over their rest: two digits,
-- or "ff" for a byte that is negative as a `char`.
abbrev pub shown : ℕ → List ℕ
shown b = if ltb b 128 then hex_digit (b / 16) ∷ hex_digit (b % 16) ∷ [] else b'f' ∷ b'f' ∷ []

abbrev pub listed : List ℕ → List ℕ
listed [] = []
listed (b ∷ bs) = shown b ++ listed bs

-- The buffer after a byte: as long as before, and with two more digits in front.
Printed : ℕ → List ℕ → List ℕ → Option (List ℕ) → Type 0
Printed j two buf o =
    (buf' : List ℕ) × (o ≡ some buf') × (length buf' ≡ 65) × (take (j + 2) buf' ≡ take j buf ++ two)

print_at_lem :
    (j c d : ℕ) (more buf : List ℕ)
    → length buf ≡ 65
    → j + length (c ∷ d ∷ more) + 1 ≤ 65
    → Printed j (c ∷ d ∷ []) buf (print_at j (c ∷ d ∷ more) buf)
unfolding print_at Printed
print_at_lem j c d more buf l room =
    let n = j + length (c ∷ d ∷ more) + 1 in
    let after = drop n buf in
    let fits : leb n 65 ≡ true = ground arith in
    (
      take j buf ++ (c ∷ d ∷ (more ++ 0 ∷ after)),
      rw fits refl,
      omega (
        arith,
        l,
        length-append (take j buf) (c ∷ d ∷ (more ++ 0 ∷ after)),
        length-take j buf,
        length-append more (0 ∷ after),
        length-drop n buf,
      ),
      rw (sym (append_assoc (take j buf) (c ∷ d ∷ []) (more ++ 0 ∷ after))) (
          take-append_exact (j + 2) (take j buf ++ (c ∷ d ∷ [])) (more ++ 0 ∷ after)
            (omega (arith, l, length-append (take j buf) (c ∷ d ∷ []), length-take j buf))),
    )

-- The next byte: it fits unless it is negative and one of the last three.
Fits : ℕ → ℕ → Type 0
Fits i b = (i < 29) ⊎ ((i < 32) × (b < 128))

print_byte_lem :
    (i b : ℕ) (buf : List ℕ)
    → length buf ≡ 65
    → Fits i b
    → Printed (i * 2) (shown b) buf (print_at (i * 2) (hex_text b) buf)
unfolding hex_text Fits
print_byte_lem i b buf l fits = elim (Bool-cases (ltb b 128)) [
  | inl small ↦ rw small (print_at_lem (i * 2) _ _ [] buf l (room fits))
  | inr large ↦ rw large (print_at_lem (i * 2) b'f' b'f' _ buf l (room' large fits))
]
  where
    room : Fits i b → i * 2 + 2 + 1 ≤ 65
    room (inl h) = omega arith
    room (inr (h, h')) = omega arith

    room' : ltb b 128 ≡ false → Fits i b → i * 2 + 8 + 1 ≤ 65
    room' large (inl h) = omega arith
    room' large (inr (h, h')) = absurd (ground (arith, large, h'))

-- The bytes from the `i`th on fit.
FitsFrom : ℕ → List ℕ → Type 0
FitsFrom i [] = Unit {0}
FitsFrom i (b ∷ bs) = Fits i b × FitsFrom (suc i) bs

print_hash_lem :
    (i : ℕ) (hash buf : List ℕ)
    → length buf ≡ 65
    → FitsFrom i hash
    → (buf' : List ℕ) × (print_hash i hash buf ≡ some buf')
      × (length buf' ≡ 65)
      × (take ((i + length hash) * 2) buf' ≡ take (i * 2) buf ++ listed hash)
unfolding print_hash FitsFrom Printed
print_hash_lem i [] buf l fits =
    let same : (i + 0) * 2 ≡ i * 2 = omega arith in
    (buf, refl, l, ap (λ n. take n buf) same ∙ sym (append-nil (take (i * 2) buf)))
print_hash_lem i (b ∷ bs) buf l (here, fits) =
    let (buf1, e1, l1, t1) = print_byte_lem i b buf l here in
    let (buf', e, l', t) = print_hash_lem (suc i) bs buf1 l1 fits in
    let same : (i + length (b ∷ bs)) * 2 ≡ (suc i + length bs) * 2 = omega arith in
    let next : suc i * 2 ≡ i * 2 + 2 = omega arith in
    (
      buf',
      rw e1 e,
      l',
      ap (λ n. take n buf') same
          ∙ t
          ∙ ap (λ xs. xs ++ listed bs) (ap (λ n. take n buf1) next ∙ t1)
          ∙ append_assoc (take (i * 2) buf) (shown b) (listed bs),
    )

print_at-overrun :
    (i b : ℕ) (buf : List ℕ) → 29 ≤ i → 128 ≤ b → print_at (i * 2) (hex_text b) buf ≡ none
unfolding print_at hex_text
print_at-overrun i b buf late negative =
    let large : ltb b 128 ≡ false = ground arith in
    let beyond : leb (i * 2 + 8 + 1) 65 ≡ false = ground arith in rw large (rw beyond refl)

print_hash-overrun :
    (i : ℕ) (hash : List ℕ) (b : ℕ) (rest buf : List ℕ)
    → i + length hash < 32
    → 29 ≤ i + length hash
    → 128 ≤ b
    → print_hash i (hash ++ b ∷ rest) buf ≡ none
unfolding print_hash
print_hash-overrun i [] b rest buf lt le neg = rw (print_at-overrun i b buf (omega arith) neg) refl
print_hash-overrun i (x ∷ xs) b rest buf lt le neg =
    elim (Option-cases (print_at (i * 2) (hex_text x) buf)) [
      | inl e ↦ rw e refl
      | inr (buf1, e) ↦
          rw e (print_hash-overrun (suc i) xs b rest buf1 (omega arith) (omega arith) neg)
    ]

FitsFrom_lem :
    (i : ℕ) (hash : List ℕ)
    → i + length hash ≤ 32
    → All (λ b. b < 128) (drop (29 - i) hash)
    → FitsFrom i hash
unfolding FitsFrom Fits
FitsFrom_lem i [] le h = tt
FitsFrom_lem i (b ∷ bs) le h = elim (Bool-cases (ltb i 29)) [
  | inl early ↦
      let next : 29 - i ≡ suc (29 - suc i) = omega (arith, ltb→lt i 29 early) in
      (inl (ltb→lt i 29 early), FitsFrom_lem (suc i) bs (omega arith) (rw next at h))
  | inr late ↦
      let none_left : 29 - i ≡ 0 = ground (arith, late) in
      let none_left' : 29 - suc i ≡ 0 = omega (arith, none_left) in
      let (hb, hbs) = rw none_left at h in
      (inr (omega arith, hb), FitsFrom_lem (suc i) bs (omega arith) (rw none_left' hbs))
]

digit-positive : (n : ℕ) → hex_digit n ≢ 0
digit-positive n = ground arith

listed-NoNul : (hash : List ℕ) → All (λ b. b ≢ 0) (listed hash)
listed-NoNul [] = tt
listed-NoNul (b ∷ bs) =
    All-append (λ b. b ≢ 0) (shown b) (listed bs) (shown-NoNul (ltb b 128)) (listed-NoNul bs)
  where
    shown-NoNul :
        (small : Bool)
        → All
            (λ b. b ≢ 0)
            (if small then hex_digit (b / 16) ∷ hex_digit (b % 16) ∷ [] else b'f' ∷ b'f' ∷ [])
    shown-NoNul true = (digit-positive (b / 16), (digit-positive (b % 16), tt))
    shown-NoNul false = ((λ e. omega (arith, e)), ((λ e. omega (arith, e)), tt))

c_string-zero : (bs rest : List ℕ) → All (λ b. b ≢ 0) bs → c_string (bs ++ 0 ∷ rest) ≡ bs
c_string-zero [] rest h = refl
c_string-zero (b ∷ bs) rest (hb, h) = rw (c_string-zero bs rest h) (ground arith)

-- A string that the last byte of the buffer ends.
ended :
    (buf text : List ℕ)
    → length buf ≡ 65
    → take 64 buf ≡ text
    → All (λ b. b ≢ 0) text
    → c_string (set buf 64 0) ≡ text
ended buf text l t h =
    one_left (drop 64 buf) (take-append-drop 64 buf) (omega (arith, l, length-drop 64 buf))
  where
    one_left :
        (rest : List ℕ)
        → take 64 buf ++ rest ≡ buf
        → length rest ≡ 1
        → c_string (set buf 64 0) ≡ text
    one_left [] e n = absurd (omega arith)
    one_left (x ∷ y ∷ ys) e n = absurd (omega arith)
    one_left (x ∷ []) e n =
        ap (λ z. c_string (set z 64 0)) (sym e ∙ ap (λ z. z ++ x ∷ []) t)
        ∙ ap c_string
            (set-middle 64 text [] x 0 (omega (arith, l, ap length t, length-take 64 buf)))
        ∙ c_string-zero text [] h

-- For every digest of 32 bytes whose last three are below 128, whatever the 65 bytes of the buffer
-- first held: `sha256_hash_string` gives two digits for each byte, in order, but "ff" for each byte of
-- 128 or more.
pub hash_string-listed :
    (uninit hash : List ℕ)
    → length uninit ≡ 65
    → length hash ≡ 32
    → All (λ b. b < 128) (drop 29 hash)
    → hash_string uninit hash ≡ some (listed hash)
unfolding hash_string
hash_string-listed uninit hash lu lh h =
    let (buf, e, l, t) =
      print_hash_lem 0 hash uninit lu (FitsFrom_lem 0 hash (omega (arith, lh)) h) in
    let all : (0 + length hash) * 2 ≡ 64 = omega (arith, lh) in
    rw e
      (ap some (ended buf (listed hash) l (ap (λ n. take n buf) (sym all) ∙ t) (listed-NoNul hash)))

-- For every digest of 32 bytes in which one of the last three is 128 or more: `sha256_hash_string`
-- prints beyond the 65 bytes of its buffer.
pub hash_string-overrun :
    (uninit before after : List ℕ) (b : ℕ)
    → length (before ++ b ∷ after) ≡ 32
    → 29 ≤ length before
    → 128 ≤ b
    → hash_string uninit (before ++ b ∷ after) ≡ none
unfolding hash_string
hash_string-overrun uninit before after b lh late negative =
    rw
      (print_hash-overrun 0 before b after uninit
        (omega (arith, lh, length-append before (b ∷ after))) (omega arith) negative)
      refl

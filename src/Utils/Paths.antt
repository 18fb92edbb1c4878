-- ===== src/Utils/Paths.antt =====
-- src/utils.cpp, `BaseName` and `ReNameBase`: the names of the files that the handlers make.
use data_backup.Base.{
  ℕ, Bool, true, false, ◌≡◌, ◌≢◌, refl, List, [], ◌∷◌, ◌++◌, Option, none, some, All, ◌==◌, ==_iff,
  arith,
}
use data_backup.Archive.Header.{c_string}
use data_backup.Archive.Written.{c_string-NoNul}

abbrev pub slash : ℕ
slash = 47

abbrev pub dot : ℕ
dot = 46

-- What follows the last `c`, and what stands before it; `none` if there is no `c`.
abbrev pub later_or : Option (List ℕ) → Bool → List ℕ → Option (List ℕ)
later_or (some found) here xs = some found
later_or none true xs = some xs
later_or none false xs = none

unfoldable pub after_last : ℕ → List ℕ → Option (List ℕ)
after_last c [] = none
after_last c (x ∷ xs) = later_or (after_last c xs) (x == c) xs

abbrev front_or : ℕ → Option (List ℕ) → Bool → Option (List ℕ)
front_or x (some found) here = some (x ∷ found)
front_or x none true = some []
front_or x none false = none

unfoldable pub before_last : ℕ → List ℕ → Option (List ℕ)
before_last c [] = none
before_last c (x ∷ xs) = front_or x (before_last c xs) (x == c)

-- `strrchr(file_path.c_str(), '/') + 1`: `none` is the sum of a null pointer and 1.
unfoldable pub base_name : List ℕ → Option (List ℕ)
base_name file_path = after_last slash (c_string file_path)

abbrev with_surfix : List ℕ → Option (List ℕ) → Option (List ℕ)
with_surfix surfix none = none
with_surfix surfix (some stem) = some (stem ++ dot ∷ surfix)

abbrev renamed : List ℕ → Option (List ℕ) → Option (List ℕ)
renamed surfix none = none
renamed surfix (some name) = with_surfix surfix (before_last dot name)

-- `none` is also a name without a dot: `find_last_of` gives `npos`, which is no iterator of it.
unfoldable pub rename_base : List ℕ → List ℕ → Option (List ℕ)
rename_base file_path surfix = renamed surfix (base_name file_path)

differs : (x c : ℕ) → x ≢ c → (x == c) ≡ false
differs x c h = ground arith

after_last-none : (c : ℕ) (ys : List ℕ) → All (λ y. y ≢ c) ys → after_last c ys ≡ none
unfolding after_last
after_last-none c [] h = refl
after_last-none c (y ∷ ys) (hy, h) = rw (after_last-none c ys h, differs y c hy) refl

after_last-append :
    (c : ℕ) (xs ys : List ℕ) → All (λ y. y ≢ c) ys → after_last c (xs ++ c ∷ ys) ≡ some ys
unfolding after_last
after_last-append c [] ys h = rw (after_last-none c ys h, (==_iff c c).1 refl) refl
after_last-append c (x ∷ xs) ys h = rw (after_last-append c xs ys h) refl

before_last-none : (c : ℕ) (ys : List ℕ) → All (λ y. y ≢ c) ys → before_last c ys ≡ none
unfolding before_last
before_last-none c [] h = refl
before_last-none c (y ∷ ys) (hy, h) = rw (before_last-none c ys h, differs y c hy) refl

before_last-append :
    (c : ℕ) (xs ys : List ℕ) → All (λ y. y ≢ c) ys → before_last c (xs ++ c ∷ ys) ≡ some xs
unfolding before_last
before_last-append c [] ys h = rw (before_last-none c ys h, (==_iff c c).1 refl) refl
before_last-append c (x ∷ xs) ys h = rw (before_last-append c xs ys h) refl

-- For every path without a zero byte, whose last component has no slash and whose part behind the last
-- dot has no dot: `BaseName` is the last component, and `ReNameBase` is that with the part behind its
-- last dot replaced.
pub rename_base-append :
    (parent stem ext surfix : List ℕ)
    → All (λ b. b ≢ 0) (parent ++ (slash ∷ (stem ++ dot ∷ ext)))
    → All (λ b. b ≢ slash) (stem ++ dot ∷ ext)
    → All (λ b. b ≢ dot) ext
    → (base_name (parent ++ (slash ∷ (stem ++ dot ∷ ext))) ≡ some (stem ++ dot ∷ ext))
      × (rename_base (parent ++ (slash ∷ (stem ++ dot ∷ ext))) surfix ≡ some (stem ++ dot ∷ surfix))
unfolding rename_base base_name
rename_base-append parent stem ext surfix no_nul no_slash no_dot =
    let path = parent ++ (slash ∷ (stem ++ dot ∷ ext)) in
    let e = after_last-append slash parent (stem ++ dot ∷ ext) no_slash in
    rw (c_string-NoNul path no_nul) (rw e (refl, rw (before_last-append dot stem ext no_dot) refl))

-- ===== src/Utils/Names.antt =====
-- src/utils.cpp, `BaseName`: a name has no slash and no zero byte, and what follows for the names of the
-- temporary files.
use data_backup.Base.{
  ℕ, ◌≡◌, ◌≢◌, refl, ap, ◌∙◌, Bool, true, false, List, [], ◌∷◌, ◌++◌, Option, none, some, All,
  All-append, ◌==◌, ==_iff, if◌then◌else◌, arith,
}
use data_backup.Io.{codes}
use data_backup.Archive.Header.{c_string}
use data_backup.Utils.Paths.{
  slash, dot, later_or, after_last, base_name, rename_base, rename_base-append,
}

abbrev name_or : List ℕ → Option (List ℕ) → List ℕ
name_or d none = d
name_or d (some name) = name

-- What follows the last `c` has no `c`, and nothing that the whole has not.
after_last-All :
    (P : ℕ → Type 0) (c : ℕ) (xs ys : List ℕ) → All P xs → after_last c xs ≡ some ys → All P ys
unfolding after_last
after_last-All P c [] ys h e = absurd (grind (arith, e))
after_last-All P c (x ∷ xs) ys (hx, h) e =
    later (λ e'. after_last-All P c xs ys h e') (after_last c xs) refl (x == c) e
  where
    later :
        (after_last c xs ≡ some ys → All P ys)
        → (o : Option (List ℕ)) → after_last c xs ≡ o
        → (b : Bool) → later_or o b xs ≡ some ys
        → All P ys
    later more (some zs) e' b e'' = more (e' ∙ e'')
    later more none e' true e'' = rw (← ap (name_or []) e'') h
    later more none e' false e'' = absurd (grind (arith, e''))

none_in : (c : ℕ) (xs : List ℕ) → after_last c xs ≡ none → All (λ y. y ≢ c) xs
unfolding after_last
none_in c [] e = tt
none_in c (x ∷ xs) e = later (none_in c xs) (after_last c xs) refl (x == c) refl e
  where
    later :
        (after_last c xs ≡ none → All (λ y. y ≢ c) xs)
        → (o : Option (List ℕ)) → after_last c xs ≡ o
        → (b : Bool) → (x == c) ≡ b
        → later_or o b xs ≡ none
        → All (λ y. y ≢ c) (x ∷ xs)
    later more (some zs) e' b eb e'' = absurd (grind (arith, e''))
    later more none e' true eb e'' = absurd (grind (arith, e''))
    later more none e' false eb e'' = (λ h. absurd (grind (arith, (==_iff x c).1 h, eb)), more e')

after_last-NoMore : (c : ℕ) (xs ys : List ℕ) → after_last c xs ≡ some ys → All (λ y. y ≢ c) ys
unfolding after_last
after_last-NoMore c [] ys e = absurd (grind (arith, e))
after_last-NoMore c (x ∷ xs) ys e =
    later (after_last-NoMore c xs ys) (after_last c xs) refl (x == c) e
  where
    later :
        (after_last c xs ≡ some ys → All (λ y. y ≢ c) ys)
        → (o : Option (List ℕ)) → after_last c xs ≡ o
        → (b : Bool) → later_or o b xs ≡ some ys
        → All (λ y. y ≢ c) ys
    later more (some zs) e' b e'' = more (e' ∙ e'')
    later more none e' true e'' = rw (← ap (name_or []) e'') (none_in c xs e')
    later more none e' false e'' = absurd (grind (arith, e''))

c_string-NoZero : (xs : List ℕ) → All (λ b. b ≢ 0) (c_string xs)
c_string-NoZero [] = tt
c_string-NoZero (x ∷ xs) = by_zero (c_string-NoZero xs) (x == 0) refl
  where
    by_zero :
        All (λ b. b ≢ 0) (c_string xs)
        → (b : Bool) → (x == 0) ≡ b
        → All (λ b. b ≢ 0) (if b then [] else x ∷ c_string xs)
    by_zero more true e = tt
    by_zero more false e = (λ h. absurd (grind (arith, (==_iff x 0).1 h, e)), more)

pub base_name-All :
    (path name : List ℕ)
    → base_name path ≡ some name
    → All (λ b. b ≢ 0) name × All (λ b. b ≢ slash) name
unfolding base_name
base_name-All path name e = (
  after_last-All (λ b. b ≢ 0) slash (c_string path) name (c_string-NoZero path) e,
  after_last-NoMore slash (c_string path) name e,
)

-- The names in a chain: a temporary file, and the file that a handler makes of it.
pub chain_names :
    (path name surfix : List ℕ)
    → base_name path ≡ some name
    → rename_base (codes "/tmp/" ++ (name ++ codes ".pak")) surfix ≡ some (name ++ dot ∷ surfix)
chain_names path name surfix e =
    let (no_nul, no_slash) = base_name-All path name e in
    let tail_nul : All (λ b. b ≢ 0) (codes ".pak") = omega arith in
    let tail_slash : All (λ b. b ≢ slash) (codes ".pak") = omega arith in
    let front_nul : All (λ b. b ≢ 0) (codes "/tmp/") = omega arith in
    (rename_base-append (codes "/tmp") name (codes "pak") surfix
      (All-append (λ b. b ≢ 0) (codes "/tmp/") (name ++ codes ".pak") front_nul
        (All-append (λ b. b ≢ 0) name (codes ".pak") no_nul tail_nul))
      (All-append (λ b. b ≢ slash) name (codes ".pak") no_slash tail_slash) (omega arith)).1

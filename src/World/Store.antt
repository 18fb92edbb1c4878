-- ===== src/World/Store.antt =====
-- What the handlers do to the files, in the abstract: a path is given a new file, or loses its name.
use data_backup.Base.{
  ℕ, ◌<◌, ◌≡◌, refl, ap, ◌∙◌, sym, true, false, inl, inr, List, [], some, str_eq, str_eq_refl,
  str_eq→≡, ◌==◌, ==_iff, Bool-cases, arith,
}
use data_backup.World.Files.{regular, Target, is_directory, can_create, set_contents, fresh_file}
use data_backup.World.Calls.{World, remove_entry}
use data_backup.World.Invariant.{parent_of, can_create-cases, not_parent}

-- A new file with these bytes.
abbrev pub store : List ℕ → List ℕ → Target → Target
store path bytes t = set_contents t.next_ino bytes (fresh_file path t)

-- No system call fails.
abbrev pub calm : Target → World
calm t = record { target = t; faults = [] }

-- The path names a regular file with these bytes.
pub record HasFile (t : Target) (path bytes : List ℕ) : Type 0 where
  pub ino : ℕ
  pub named : t.entry path ≡ some (regular ino)
  pub holds : t.contents ino ≡ bytes
  pub known : ino < t.next_ino

pub same : (n : ℕ) → (n == n) ≡ true
same n = (==_iff n n).1 refl

pub lt→other : (i n : ℕ) → i < n → (i == n) ≡ false
lt→other i n h = ground arith

pub store-HasFile : (path bytes : List ℕ) (t : Target) → HasFile (store path bytes t) path bytes
store-HasFile path bytes t = record {
  ino = t.next_ino;
  named = rw (str_eq_refl path) refl;
  holds = rw (same t.next_ino) refl;
  known = omega arith;
}

-- Other files stay.
pub HasFile-store :
    (path bytes other ys : List ℕ) (t : Target)
    → str_eq other path ≡ false
    → HasFile t other ys
    → HasFile (store path bytes t) other ys
HasFile-store path bytes other ys t apart f = record {
  ino = f.ino;
  named = rw apart f.named;
  holds = rw (lt→other f.ino t.next_ino f.known) f.holds;
  known = omega (arith, f.known);
}

pub HasFile-remove_entry :
    (path other ys : List ℕ) (t : Target)
    → str_eq other path ≡ false
    → HasFile t other ys
    → HasFile (remove_entry path t) other ys
HasFile-remove_entry path other ys t apart f = record {
  ino = f.ino;
  named = rw apart f.named;
  holds = f.holds;
  known = f.known;
}

-- Other free names stay free.
pub can_create-store :
    (path bytes other : List ℕ) (t : Target)
    → str_eq other path ≡ false
    → can_create t path ≡ true
    → can_create t other ≡ true
    → can_create (store path bytes t) other ≡ true
can_create-store path bytes other t apart may may' =
    let (free, _) = can_create-cases t path may in
    let (free', dir) = can_create-cases t other may' in
    rw apart (rw (not_parent t path (parent_of other) free dir) may')

is_file : (t : Target) (path ys : List ℕ) → HasFile t path ys → is_directory (t.entry path) ≡ false
is_file t path ys f = ap is_directory f.named

-- A name that is removed is no directory, so it was no parent.
pub can_create-remove_entry :
    (path ys other : List ℕ) (t : Target)
    → str_eq other path ≡ false
    → HasFile t path ys
    → can_create t other ≡ true
    → can_create (remove_entry path t) other ≡ true
can_create-remove_entry path ys other t apart f may =
    let (free, dir) = can_create-cases t other may in rw (apart, beside dir) may
  where
    beside : is_directory (t.entry (parent_of other)) ≡ true → str_eq (parent_of other) path ≡ false
    beside dir = elim (Bool-cases (str_eq (parent_of other) path)) [
      | inl e ↦
          let above : is_directory (t.entry path) ≡ true =
            ap (λ p. is_directory (t.entry p)) (sym (str_eq→≡ (parent_of other) path e)) ∙ dir in
          absurd (grind (arith, above, is_file t path ys f))
      | inr e ↦ e
    ]

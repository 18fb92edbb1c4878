-- ===== src/Backend/Listed.antt =====
-- src/backend.cpp, `HandleGetList`: what a listing shows.
use data_backup.Base.{
  ℕ, ◌≡◌, Bool, List, [], ◌∷◌, ◌++◌, Option, none, some, All, str_eq, ◌||◌, ◌==◌, ◌/◌, ◌%◌,
  if◌then◌else◌,
}
use data_backup.Io.{codes}
use data_backup.Archive.Pack.{Stat}
use data_backup.Backend.Json.{DirEntry}
use data_backup.Backend.Requests.{Setting}

abbrev is_hidden : List ℕ → Bool
is_hidden name = str_eq name (codes ".") || str_eq name (codes "..")

-- The names but "." and "..".
abbrev pub visible : List (List ℕ) → List (List ℕ)
visible [] = []
visible (name ∷ names) = let rest = visible names in if is_hidden name then rest else name ∷ rest

-- The kinds of file that are shown, by bits 12 to 15 of the mode.
abbrev kinds : List (ℕ × List ℕ)
kinds = (4, codes "dir") ∷ (8, codes "reg") ∷ (1, codes "fifo") ∷ (10, codes "symlink") ∷ []

abbrev kind_in : ℕ → List (ℕ × List ℕ) → Option (List ℕ)
kind_in format [] = none
kind_in format ((n, kind) ∷ more) = if format == n then some kind else kind_in format more

abbrev shown_as : List ℕ → Stat → Option (List ℕ) → List DirEntry
shown_as name st none = []
shown_as name st (some kind) =
    record { m_filename = name; m_filetype = kind; m_inode = st.st_ino; m_size = st.st_size } ∷ []

abbrev described_by : List ℕ → Option Stat → List DirEntry
described_by name none = []
described_by name (some st) = shown_as name st (kind_in (st.st_mode / 4096 % 16) kinds)

-- Each name with what `lstat` says of it, in order; other kinds of file than the four are left out.
abbrev pub described : Setting → List ℕ → List (List ℕ) → List DirEntry
described s dir [] = []
described s dir (name ∷ names) =
    described_by name (s.tree.lstat (dir ++ name)) ++ described s dir names

-- `lstat` succeeds on each of the names.
abbrev pub HasStats : Setting → List ℕ → List (List ℕ) → Type 0
HasStats s dir names = All (λ name. (st : Stat) × (s.tree.lstat (dir ++ name) ≡ some st)) names

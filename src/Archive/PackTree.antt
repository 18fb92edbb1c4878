-- ===== src/Archive/PackTree.antt =====
-- The packer on any source tree of bounded depth, with any failing calls.
use data_backup.Base.{
  ℕ, zero, suc, ◌≡◌, refl, sym, ◌∙◌, true, false, ◌⊎◌, ◌||◌, inl, inr, Bool-cases, List, [], ◌∷◌,
  ◌++◌, Option, none, some, str_eq, arith,
}
use data_backup.Io.{
  Io, Streams, BaseException, ok, throw, pure, ◌>>=◌, ◌>>◌, throw_if, system_call, close_or_throw,
  is_failure, codes,
}
use data_backup.Io.Safe.{
  Holds, bind-Holds, call_with-Holds, Stays, Anything, close_or_throw-Holds, fsync-Holds,
  Holds-cases, weaken, then-Holds, system_call-Holds, throw_if-Anything,
}
use data_backup.Archive.Header.{Header}
use data_backup.Archive.Pack.{
  SourceTree, Stat, is_dir, is_reg, is_fifo, is_lnk, parse_header, parent_path, write_header,
  restore_access_time, pack_entries, pack_dir, pack_stat, pack, pack_into, error, names_or_nil,
}
use data_backup.Archive.PackEnds.{
  write_header-Holds, restore-Holds, pack_regular-Holds, pack_link-Holds,
}

-- Each name but `.` and `..` has the property, as a child of the directory.
abbrev pub EachChild : (List ℕ → Type 0) → List ℕ → List (List ℕ) → Type 0
EachChild P src_file [] = Unit {0}
EachChild P src_file (d_name ∷ names) =
    ((str_eq d_name (codes ".") || str_eq d_name (codes "..")) ≡ false
      → P (src_file ++ codes "/" ++ d_name))
    × EachChild P src_file names

-- Directories are nested less than `n` deep below the path, which counts as one.
unfoldable pub HasDepth : SourceTree → ℕ → List ℕ → Type 0
HasDepth tree zero src_file = ⊥
HasDepth tree (suc n) src_file =
    (names : List (List ℕ))
    → tree.names src_file ≡ some names
    → EachChild (HasDepth tree n) src_file names

module _ (tree : SourceTree) (parent uninit : List ℕ) (dst_fd : ℕ) where
  abbrev header_of : List ℕ → Stat → Header
  header_of src_file st = parse_header parent src_file st

  -- What a recursive call must give.
  abbrev Ends : (List ℕ → List ℕ → Io Streams (List ℕ)) → List ℕ → Type 0
  Ends pack_child child = (set : List ℕ) (s : Streams) → Holds Anything (pack_child child set s)

  abbrev readdir_failed : List ℕ → BaseException
  readdir_failed src_file = error (codes "readdir failed on " ++ src_file)

  pack_entries-Holds :
      (pack_child : List ℕ → List ℕ → Io Streams (List ℕ)) (src_file : List ℕ)
      (names : List (List ℕ)) (set : List ℕ) (s : Streams)
      → EachChild (Ends pack_child) src_file names
      → Holds Anything (pack_entries tree parent uninit dst_fd pack_child src_file names set s)
  unfolding pack_entries
  pack_entries-Holds pack_child src_file [] set s h =
      then-Holds (system_call true (λ s. false) (λ s. s) s) _ (system_call-Holds _ _ _ s) λ b s1.
        then-Holds (throw_if b (readdir_failed src_file) s1) _ (throw_if-Anything _ _ s1) λ _ s2. tt
  pack_entries-Holds pack_child src_file (d_name ∷ names) set s (hd, h) =
      then-Holds (system_call true (λ s. false) (λ s. s) s) _ (system_call-Holds _ _ _ s) λ b s1.
        then-Holds (throw_if b (readdir_failed src_file) s1) _ (throw_if-Anything _ _ s1) λ _ s2.
          elim (Bool-cases (str_eq d_name (codes ".") || str_eq d_name (codes ".."))) [
            | inl dots ↦ rw dots (pack_entries-Holds pack_child src_file names set s2 h)
            | inr child ↦ rw child (
                then-Holds (pack_child (src_file ++ codes "/" ++ d_name) set s2) _ (hd child set s2)
                  λ set' s3. pack_entries-Holds pack_child src_file names set' s3 h)
          ]

  -- `PackDir` behind `opendir`.
  listed-Holds :
      (pack_child : List ℕ → List ℕ → Io Streams (List ℕ)) (src_file set : List ℕ)
      (names : Option (List (List ℕ))) (s : Streams)
      → ((ns : List (List ℕ)) → names ≡ some ns → EachChild (Ends pack_child) src_file ns)
      → Holds Anything (
          (do
            throw_if (is_failure names) (error (codes "opendir failed on " ++ src_file))
            set' ←
                pack_entries tree parent uninit dst_fd pack_child src_file
                  (names_or_nil tree parent uninit dst_fd names)
                  set
            close_or_throw (error (codes "closedir failed on " ++ src_file))
            restore_access_time tree parent uninit dst_fd src_file
            pure set')
            s)
  listed-Holds pack_child src_file set none s h = tt
  listed-Holds pack_child src_file set (some ns) s h =
      then-Holds (pack_entries tree parent uninit dst_fd pack_child src_file ns set s) _
        (pack_entries-Holds pack_child src_file ns set s (h ns refl))
        λ set' s1.
          then-Holds (close_or_throw (error (codes "closedir failed on " ++ src_file)) s1) _
            (weaken (Stays s1) _ (close_or_throw-Holds _ s1))
            λ _ s2. then-Holds _ _ (restore-Holds tree parent uninit dst_fd src_file s2) λ _ s3. tt

  -- `opendir` fails, or gives the names.
  abbrev Opened : List ℕ → Option (List (List ℕ)) → Streams → Type 0
  Opened src_file o s = (o ≡ none) ⊎ (o ≡ tree.names src_file)

  pack_dir-Holds :
      (pack_child : List ℕ → List ℕ → Io Streams (List ℕ)) (src_file : List ℕ) (st : Stat)
      (set : List ℕ) (s : Streams)
      → ((names : List (List ℕ))
          → tree.names src_file ≡ some names
          → EachChild (Ends pack_child) src_file names)
      → Holds Anything
          (pack_dir tree parent uninit dst_fd pack_child src_file (header_of src_file st) set s)
  unfolding pack_dir parse_header
  pack_dir-Holds pack_child src_file st set s h =
      then-Holds _ _
        (write_header-Holds tree parent uninit dst_fd src_file (header_of src_file st) s refl refl)
        λ _ s1.
          bind-Holds (Opened src_file) Anything _ _
            (call_with-Holds (Opened src_file) s1.faults none (λ s. tree.names src_file) (λ s. s) s1
              (λ _. inl refl) (λ _. inr refl) (inr refl))
            λ names s2 o. listed-Holds pack_child src_file set names s2 (known names o)
    where
      known :
          (names : Option (List (List ℕ)))
          → (names ≡ none) ⊎ (names ≡ tree.names src_file)
          → (ns : List (List ℕ)) → names ≡ some ns
          → EachChild (Ends pack_child) src_file ns
      known names (inl failed) ns e = absurd (grind (arith, sym failed ∙ e))
      known names (inr all) ns e = h ns (sym all ∙ e)

  EachChild-map :
      (P Q : List ℕ → Type 0) (src_file : List ℕ) (names : List (List ℕ))
      → ((child : List ℕ) → P child → Q child)
      → EachChild P src_file names
      → EachChild Q src_file names
  EachChild-map P Q src_file [] f h = tt
  EachChild-map P Q src_file (n ∷ names) f (hn, h) =
      (λ e. f _ (hn e), EachChild-map P Q src_file names f h)

  plain_header-Holds :
      (src_file : List ℕ) (st : Stat) (s : Streams)
      → Holds Anything (write_header tree parent uninit dst_fd src_file (header_of src_file st) s)
  unfolding parse_header
  plain_header-Holds src_file st s =
      write_header-Holds tree parent uninit dst_fd src_file (header_of src_file st) s refl refl

  pack_stat-Holds :
      (pack_child : List ℕ → List ℕ → Io Streams (List ℕ)) (src_file : List ℕ) (st : Option Stat)
      → ((names : List (List ℕ))
          → tree.names src_file ≡ some names
          → EachChild (Ends pack_child) src_file names)
      → (set : List ℕ) (s : Streams)
      → Holds Anything (pack_stat tree parent uninit dst_fd pack_child src_file set st s)
  unfolding pack_stat
  pack_stat-Holds pack_child src_file none h set s = tt
  pack_stat-Holds pack_child src_file (some st) h set s = elim (Bool-cases (is_dir st.st_mode)) [
    | inl dir ↦ rw dir (pack_dir-Holds pack_child src_file st set s h)
    | inr e1 ↦ rw e1 (elim (Bool-cases (is_reg st.st_mode)) [
      | inl reg ↦ rw reg (pack_regular-Holds tree parent uninit dst_fd src_file st set s)
      | inr e2 ↦ rw e2 (elim (Bool-cases (is_fifo st.st_mode)) [
        | inl fifo ↦ rw fifo (then-Holds _ _ (plain_header-Holds src_file st s) λ _ s1. tt)
        | inr e3 ↦ rw e3 (elim (Bool-cases (is_lnk st.st_mode)) [
          | inl lnk ↦
              rw lnk (
                then-Holds _ _ (pack_link-Holds tree parent uninit dst_fd src_file st s) λ _ s1. tt)
          | inr e4 ↦ rw e4 tt
        ])
      ])
    ])
  ]

  pack-Holds :
      (fuel : ℕ) (src_file : List ℕ)
      → HasDepth tree fuel src_file
      → (set : List ℕ) (s : Streams)
      → Holds Anything (pack tree parent uninit dst_fd fuel src_file set s)
  unfolding pack HasDepth
  pack-Holds zero src_file d set s = absurd d
  pack-Holds (suc fuel) src_file d set s = then-Holds _ _ (system_call-Holds _ _ _ s) λ st s1.
      pack_stat-Holds (pack tree parent uninit dst_fd fuel) src_file st
        (λ names e.
          EachChild-map (HasDepth tree fuel) (Ends (pack tree parent uninit dst_fd fuel)) src_file
            names (λ child k. pack-Holds fuel child k) (d names e))
        set s1

-- For every source tree, every path below which directories are nested less deep than the fuel, and
-- every row of failing calls: the packer ends, and either succeeds or throws an exception that its
-- handler catches: no run is undefined or out of fuel.
pub pack_into_ends :
    (tree : SourceTree) (uninit : List ℕ) (dst_fd fuel : ℕ) (src : List ℕ) (s : Streams)
    → HasDepth tree fuel src
    → ((s' : Streams) × (pack_into tree uninit dst_fd fuel src s ≡ ok tt s'))
      ⊎ ((e : BaseException) × (s' : Streams) × (pack_into tree uninit dst_fd fuel src s
            ≡ throw e s'))
unfolding pack_into
pack_into_ends tree uninit dst_fd fuel src s d =
    Holds-cases (pack_into tree uninit dst_fd fuel src s) (
      then-Holds _ _ (pack-Holds tree (parent_path src) uninit dst_fd fuel src d [] s) λ _ s1.
        then-Holds _ _ (weaken (Stays s1) _ (fsync-Holds s1))
          λ _ s2. weaken (Stays s2) _ (close_or_throw-Holds _ s2))

-- ===== src/World/Invariant.antt =====
-- Files by path: the inodes that names have, and the directories that names stand in.
use data_backup.Base.{
  ℕ, suc, ◌<◌, ◌≡◌, refl, ap, ◌∙◌, true, false, inl, inr, List, Option, none, some, str_eq,
  str_eq→≡, ◌&&◌, not, Bool-cases, arith,
}
use data_backup.Io.{is_failure}
use data_backup.Archive.Pack.{parent_path}
use data_backup.World.Files.{
  Entry, directory, regular, fifo, symbolic, Target, without_last, is_directory, can_create,
  can_link, add_entry, entry_or, set_contents, fresh_file,
}
use data_backup.World.Calls.{remove_entry}

abbrev pub parent_of : List ℕ → List ℕ
parent_of p = without_last (parent_path p)

-- Every inode that a name has has been given out, and every name stands in a directory.
pub record IsFileSystem (t : Target) : Type 0 where
  pub ino_known : (p : List ℕ) (ino : ℕ) → t.entry p ≡ some (regular ino) → ino < t.next_ino
  pub in_directory :
      (p : List ℕ) (e : Entry) → t.entry p ≡ some e → is_directory (t.entry (parent_of p)) ≡ true

pub can_create-cases :
    (t : Target) (p : List ℕ)
    → can_create t p ≡ true
    → (t.entry p ≡ none) × (is_directory (t.entry (parent_of p)) ≡ true)
can_create-cases t p h = both (t.entry p) h
  where
    both :
        (o : Option Entry)
        → (is_failure o && is_directory (t.entry (parent_of p))) ≡ true
        → (o ≡ none) × (is_directory (t.entry (parent_of p)) ≡ true)
    both none h = (refl, h)
    both (some e) h = absurd (grind (arith, h))

the_entry : (o : Option Entry) (e : Entry) → o ≡ some e → entry_or o ≡ e
the_entry o e h = ap entry_or h

not_free : {o : Option Entry} → o ≡ none → is_directory o ≡ true → ⊥
not_free free dir = absurd (grind (arith, ap is_directory free, dir))

-- A name that is free is not the parent of another.
pub not_parent :
    (t : Target) (p q : List ℕ)
    → t.entry p ≡ none
    → is_directory (t.entry q) ≡ true
    → str_eq q p ≡ false
not_parent t p q free dir = elim (Bool-cases (str_eq q p)) [
  | inl same ↦ absurd (not_free (ap t.entry (str_eq→≡ q p same) ∙ free) dir)
  | inr other ↦ other
]

pub add_entry-IsFileSystem :
    (p : List ℕ) (e : Entry) (t : Target)
    → IsFileSystem t
    → can_create t p ≡ true
    → ((ino : ℕ) → e ≡ regular ino → ino < t.next_ino)
    → IsFileSystem (add_entry p e t)
add_entry-IsFileSystem p e t i may known = record {
  ino_known = λ q ino h. elim (Bool-cases (str_eq q p)) [
    | inl same ↦ known ino (ap entry_or (rw same at h))
    | inr other ↦ i.ino_known q ino (rw other at h)
  ];
  in_directory = λ q e' h.
      let (free, dir) = can_create-cases t p may in
      let stands : is_directory (t.entry (parent_of q)) ≡ true = elim (Bool-cases (str_eq q p)) [
        | inl same ↦ rw (str_eq→≡ q p same) dir
        | inr other ↦ i.in_directory q e' (rw other at h)
      ] in
      rw (not_parent t p (parent_of q) free stands) stands;
}

pub set_contents-IsFileSystem :
    (ino : ℕ) (bytes : List ℕ) (t : Target)
    → IsFileSystem t
    → IsFileSystem (set_contents ino bytes t)
set_contents-IsFileSystem ino bytes t i = record {
  ino_known = i.ino_known;
  in_directory = i.in_directory;
}

ino_of : ℕ → Entry → ℕ
ino_of d directory = d
ino_of d (regular ino) = ino
ino_of d fifo = d
ino_of d (symbolic path) = d

-- A new inode is given out with its name.
pub fresh_file-IsFileSystem :
    (p : List ℕ) (t : Target)
    → IsFileSystem t
    → can_create t p ≡ true
    → IsFileSystem (fresh_file p t)
unfolding ino_of
fresh_file-IsFileSystem p t i may =
    let more : IsFileSystem (record t { next_ino = suc t.next_ino }) = record {
      ino_known = λ q ino h. omega (arith, i.ino_known q ino h);
      in_directory = i.in_directory;
    } in
    let added =
      add_entry-IsFileSystem p (regular t.next_ino) (record t { next_ino = suc t.next_ino }) more
        may (λ ino e. omega (arith, ap (ino_of 0) e)) in
    record { ino_known = added.ino_known; in_directory = added.in_directory }

-- What is no directory is removed.
pub remove_entry-IsFileSystem :
    (p : List ℕ) (t : Target)
    → IsFileSystem t
    → is_directory (t.entry p) ≡ false
    → IsFileSystem (remove_entry p t)
remove_entry-IsFileSystem p t i no_dir = record {
  ino_known = λ q ino h. elim (Bool-cases (str_eq q p)) [
    | inl same ↦ absurd (not_there (rw same at h))
    | inr other ↦ i.ino_known q ino (rw other at h)
  ];
  in_directory = λ q e h. elim (Bool-cases (str_eq q p)) [
    | inl same ↦ absurd (not_there (rw same at h))
    | inr other ↦
        let stands = i.in_directory q e (rw other at h) in
        elim (Bool-cases (str_eq (parent_of q) p)) [
          | inl above ↦ absurd (differs (ap t.entry (str_eq→≡ (parent_of q) p above)) stands no_dir)
          | inr beside ↦ rw beside stands
        ]
  ];
}
  where
    not_there : {e : Entry} → none ≡ some e → ⊥
    not_there h = absurd (grind (arith, h))

    differs : {o o' : Option Entry} → o ≡ o' → is_directory o ≡ true → is_directory o' ≡ false → ⊥
    differs e h h' = absurd (grind (arith, ap is_directory e, h, h'))

-- A name that may be linked has an entry, and what it names keeps its inode.
pub can_link-cases :
    (t : Target) (old new : List ℕ)
    → can_link t old new ≡ true
    → (can_create t new ≡ true)
      × ((ino : ℕ) → entry_or (t.entry old) ≡ regular ino → t.entry old ≡ some (regular ino))
can_link-cases t old new h = both (t.entry old) h
  where
    both :
        (o : Option Entry)
        → (not (is_failure o) && not (is_directory o) && can_create t new) ≡ true
        → (can_create t new ≡ true)
          × ((ino : ℕ) → entry_or o ≡ regular ino → o ≡ some (regular ino))
    both none h = absurd (grind (arith, h))
    both (some directory) h = absurd (grind (arith, h))
    both (some (regular i)) h = (h, λ ino e. ap some e)
    both (some fifo) h = (h, λ ino e. ap some e)
    both (some (symbolic to)) h = (h, λ ino e. ap some e)

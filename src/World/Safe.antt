-- ===== src/World/Safe.antt =====
-- Changes of a file system that leave every name in place that is not below /tmp.
use data_backup.Base.{
  ℕ, ◌<◌, ◌≡◌, ap, ◌∙◌, sym, Bool, true, false, inl, inr, List, [], ◌∷◌, none, some, str_eq,
  str_eq→≡, take, Bool-cases, arith,
}
use data_backup.Io.{codes}
use data_backup.World.Files.{
  Entry, regular, Target, can_create, can_link, add_entry, entry_or, set_contents, fresh_file,
  is_directory,
}
use data_backup.World.Calls.{remove_entry}
use data_backup.World.Invariant.{
  IsFileSystem, can_create-cases, add_entry-IsFileSystem, set_contents-IsFileSystem,
  fresh_file-IsFileSystem, remove_entry-IsFileSystem, can_link-cases,
}

-- The paths of temporary files: they begin with "/tmp/". The empty path names no file.
abbrev pub is_temporary : List ℕ → Bool
is_temporary [] = true
is_temporary (c ∷ cs) = str_eq (take 5 (c ∷ cs)) (codes "/tmp/")

-- The files `t` are a file system in which every name of `t0` that is not temporary names what it did.
pub record IsSafe (t0 t : Target) : Type 0 where
  pub sound : IsFileSystem t
  pub stays :
      (p : List ℕ) (e : Entry) → is_temporary p ≡ false → t0.entry p ≡ some e → t.entry p ≡ some e

module _ (t0 : Target) where
  added :
      (q : List ℕ) (e' : Entry) (t : Target)
      → t.entry q ≡ none
      → IsSafe t0 t
      → (p : List ℕ) (e : Entry) → is_temporary p ≡ false
      → t0.entry p ≡ some e
      → (add_entry q e' t).entry p ≡ some e
  added q e' t free i p e user was = elim (Bool-cases (str_eq p q)) [
    | inl same ↦
        absurd (grind (arith, sym (ap t.entry (str_eq→≡ p q same) ∙ free) ∙ i.stays p e user was))
    | inr other ↦ rw other (i.stays p e user was)
  ]

  pub add_entry-IsSafe :
      (p : List ℕ) (e : Entry) (t : Target)
      → IsSafe t0 t
      → can_create t p ≡ true
      → ((ino : ℕ) → e ≡ regular ino → ino < t.next_ino)
      → IsSafe t0 (add_entry p e t)
  add_entry-IsSafe p e t i may known = record {
    sound = add_entry-IsFileSystem p e t i.sound may known;
    stays = added p e t (can_create-cases t p may).0 i;
  }

  pub set_contents-IsSafe :
      (ino : ℕ) (bytes : List ℕ) (t : Target) → IsSafe t0 t → IsSafe t0 (set_contents ino bytes t)
  set_contents-IsSafe ino bytes t i = record {
    sound = set_contents-IsFileSystem ino bytes t i.sound;
    stays = i.stays;
  }

  pub fresh_file-IsSafe :
      (p : List ℕ) (t : Target) → IsSafe t0 t → can_create t p ≡ true → IsSafe t0 (fresh_file p t)
  fresh_file-IsSafe p t i may = record {
    sound = fresh_file-IsFileSystem p t i.sound may;
    stays = added p (regular t.next_ino) t (can_create-cases t p may).0 i;
  }

  pub link-IsSafe :
      (old new : List ℕ) (t : Target)
      → IsSafe t0 t
      → can_link t old new ≡ true
      → IsSafe t0 (add_entry new (entry_or (t.entry old)) t)
  link-IsSafe old new t i may =
      let (free, named) = can_link-cases t old new may in
      add_entry-IsSafe new (entry_or (t.entry old)) t i free
        (λ ino e. i.sound.ino_known old ino (named ino e))

  pub remove_entry-IsSafe :
      (p : List ℕ) (t : Target)
      → IsSafe t0 t
      → is_temporary p ≡ true
      → is_directory (t.entry p) ≡ false
      → IsSafe t0 (remove_entry p t)
  remove_entry-IsSafe p t i temporary no_dir = record {
    sound = remove_entry-IsFileSystem p t i.sound no_dir;
    stays = λ q e user was. elim (Bool-cases (str_eq q p)) [
      | inl same ↦
          absurd (grind (arith, sym user ∙ ap is_temporary (str_eq→≡ q p same) ∙ temporary))
      | inr other ↦ rw other (i.stays q e user was)
    ];
  }

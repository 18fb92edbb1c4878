-- ===== src/World/Files.antt =====
-- Files by path: what the handlers and the unpacker write to, and what one system call does to it.
use data_backup.Base.{
  ℕ, suc, Bool, true, false, List, [], ◌∷◌, Option, none, some, str_eq, ◌==◌, ◌&&◌, not,
  if◌then◌else◌,
}
use data_backup.Io.{is_failure}
use data_backup.Archive.Pack.{parent_path}

-- What a path names; a regular file is known by its inode.
pub data Entry : Type 0 where
  directory : Entry
  regular : ℕ → Entry
  fifo : Entry
  symbolic : List ℕ → Entry

-- The file system below the target. Directories have no slash at their end.
pub record Target : Type 0 where
  pub entry : List ℕ → Option Entry
  pub contents : ℕ → List ℕ
  pub next_ino : ℕ

abbrev pub without_last : List ℕ → List ℕ
without_last [] = []
without_last (x ∷ []) = []
without_last (x ∷ y ∷ ys) = x ∷ without_last (y ∷ ys)

abbrev pub is_directory : Option Entry → Bool
is_directory none = false
is_directory (some directory) = true
is_directory (some (regular ino)) = false
is_directory (some fifo) = false
is_directory (some (symbolic path)) = false

-- Whether a new entry can be made: the name is free, and the path before it is a directory.
abbrev pub can_create : Target → List ℕ → Bool
can_create t path =
    is_failure (t.entry path) && is_directory (t.entry (without_last (parent_path path)))

abbrev pub add_entry : List ℕ → Entry → Target → Target
add_entry path e t = record t { entry = λ p. if str_eq p path then some e else t.entry p }

abbrev pub entry_or : Option Entry → Entry
entry_or none = directory
entry_or (some e) = e

-- `link(old, new)` gives the entry a second name, but not that of a directory.
abbrev pub can_link : Target → List ℕ → List ℕ → Bool
can_link t old new =
    not (is_failure (t.entry old)) && not (is_directory (t.entry old)) && can_create t new

abbrev pub set_contents : ℕ → List ℕ → Target → Target
set_contents ino bytes t = record t { contents = λ i. if i == ino then bytes else t.contents i }

abbrev pub fresh_file : List ℕ → Target → Target
fresh_file path t = record (set_contents t.next_ino [] (add_entry path (regular t.next_ino) t)) {
  next_ino = suc t.next_ino;
}

abbrev pub ino_unless : ℕ → Bool → Option ℕ
ino_unless ino true = none
ino_unless ino false = some ino

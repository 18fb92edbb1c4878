-- ===== src/Tests/Handlers.antt =====
-- Runs of the handlers over files, and of a request.
use data_backup.Base.{
  ℕ, ◌≡◌, ◌<◌, refl, ap, true, false, inl, inr, List, [], ◌∷◌, ◌++◌, Option, none, some, pos,
  minus_one, str_eq, str_eq→≡, Bool-cases, replicate, arith, if◌then◌else◌,
}
use data_backup.Io.{ok, codes}
use data_backup.Huffman.ListQueue.{list_queue, list_queue-IsLawful}
use data_backup.Utils.Paths.{rename_base, rename_base-append}
use data_backup.World.Files.{Entry, Target, directory, regular, is_directory}
use data_backup.World.Calls.{World}
use data_backup.World.Invariant.{IsFileSystem, parent_of}
use data_backup.World.Safe.{IsSafe}
use data_backup.World.Runs.{Leaves}
use data_backup.World.Store.{store, calm, HasFile}
use data_backup.Compress.Handle as CompressHandle
use data_backup.Decompress.Handle as DecompressHandle
use data_backup.Crypt.Handle.{encrypt_handle, decrypt_handle}
use data_backup.Handler.RoundTrip.{decompress_handle-compress_handle, decrypt_handle-encrypt_handle}
use data_backup.Handler.Errors.{names_file-minus_one}
use data_backup.Backend.Json.{Jsoncpp}
use data_backup.Backend.Requests.{Setting}
use data_backup.Backend.Listing.{handle}
use data_backup.Backend.Kept.{handle-IsSafe}
use data_backup.Sha.Digest.{hash_string}
use data_backup.Sha.Digits.{listed, hash_string-listed, hash_string-overrun}
use data_backup.Tests.Archives.{note_tree, note_stat}
use data_backup.Tests.Secrets.{add_one, add_one-IsLawful}

-- "/t" is a directory, "/a.x" holds three bytes.
abbrev disk : Target
disk = record {
  entry = λ p.
      if str_eq p (codes "/t")
      then some directory
      else if str_eq p (codes "/a.x")
      then some (regular 0)
      else none;
  contents = λ ino. codes "abc";
  next_ino = 1;
}

note-HasFile : HasFile disk (codes "/a.x") (codes "abc")
note-HasFile = record { ino = 0; named = refl; holds = refl; known = omega arith }

renamed : (surfix : List ℕ) → rename_base (codes "/a.x") surfix ≡ some (codes "a." ++ surfix)
renamed surfix =
    (rename_base-append [] (codes "a") (codes "x") surfix (omega arith) (omega arith)
      (omega arith)).1

decompress_handle-compress_handle_example :
    (cmp : List ℕ) × (CompressHandle.handle list_queue none (codes "/a.x") (codes "/t") (calm disk)
      ≡ ok (pos 0) (calm (store (codes "/t/a.cmp") cmp disk)))
    × (DecompressHandle.handle list_queue 0
          (codes "/t/a.cmp")
          (codes "/t/b")
          (calm (store (codes "/t/a.cmp") cmp disk))
        ≡ ok
            (pos 0)
            (calm (store (codes "/t/b") (codes "abc") (store (codes "/t/a.cmp") cmp disk))))
decompress_handle-compress_handle_example =
    decompress_handle-compress_handle list_queue list_queue-IsLawful 0 disk (codes "/a.x")
      (codes "/t") (codes "/t/b") (codes "a.cmp") b'a' (codes "bc") note-HasFile (omega arith) refl
      (renamed (codes "cmp")) refl refl refl

decrypt_handle-encrypt_handle_example :
    (enc : List ℕ) × (encrypt_handle add_one
        (codes "key")
        none
        (codes "/a.x")
        (codes "/t")
        (calm disk)
      ≡ ok (pos 0) (calm (store (codes "/t/a.enc") enc disk)))
    × (decrypt_handle add_one
          (codes "key")
          (codes "/t/a.enc")
          (codes "/t/b")
          (calm (store (codes "/t/a.enc") enc disk))
        ≡ ok
            (pos 0)
            (calm (store (codes "/t/b") (codes "abc") (store (codes "/t/a.enc") enc disk))))
decrypt_handle-encrypt_handle_example =
    decrypt_handle-encrypt_handle add_one add_one-IsLawful disk (codes "key") (codes "/a.x")
      (codes "/t") (codes "/t/b") (codes "a.enc") (codes "abc") note-HasFile (omega arith) refl refl
      (renamed (codes "enc")) refl refl refl

-- A library that takes the whole payload for every member.
abbrev pub echo : Jsoncpp
echo = record {
  Value = List ℕ;
  parse = λ text. text;
  access = λ v key. some v;
  is_member = λ v key. some true;
  as_uint64 = λ v. some 0;
  as_string = λ v. some v;
  uint64 = λ n. [];
  int = λ n. [];
  string = λ text. text;
  array = λ vs. [];
  object = λ members. [];
  write = λ v. v;
}

abbrev pub setting : Setting
setting = record {
  pq = list_queue;
  openssl = add_one;
  json = echo;
  tree = note_tree;
  fuel = 3;
  block_buf = replicate 512 7;
  copy_buf = replicate 512 7;
  uninit_byte = 7;
  uninit_is_dir = false;
  uninit_size = 7;
  uninit_stat = note_stat;
  uninit_seq = 7;
}

-- A backup file of two bytes beside the root, and the second call fails.
abbrev backup_entry : List ℕ → Option Entry
backup_entry p =
    if str_eq p []
    then some directory
    else if str_eq p (codes "unpack")
    then some (regular 0)
    else none

abbrev backup_world : World
backup_world = record {
  target = record { entry = backup_entry; contents = λ ino. 9 ∷ 1 ∷ []; next_ino = 1 };
  faults = false ∷ true ∷ [];
}

abbrev ino_or : Option Entry → ℕ
ino_or none = 0
ino_or (some directory) = 0
ino_or (some (regular ino)) = ino
ino_or (some Entry.fifo) = 0
ino_or (some (Entry.symbolic to)) = 0

backup_world-IsFileSystem : IsFileSystem backup_world.target
backup_world-IsFileSystem = record { ino_known = known; in_directory = stands }
  where
    known : (p : List ℕ) (ino : ℕ) → backup_entry p ≡ some (regular ino) → ino < 1
    known p ino e = elim (Bool-cases (str_eq p [])) [
      | inl root ↦ omega (arith, ap ino_or (rw root at e))
      | inr other ↦ elim (Bool-cases (str_eq p (codes "unpack"))) [
        | inl file ↦ omega (arith, ap ino_or (rw file at (rw other at e)))
        | inr no_file ↦ omega (arith, ap ino_or (rw no_file at (rw other at e)))
      ]
    ]

    stands :
        (p : List ℕ) (e : Entry)
        → backup_entry p ≡ some e
        → is_directory (backup_entry (parent_of p)) ≡ true
    stands p e h = elim (Bool-cases (str_eq p [])) [
      | inl root ↦ rw (str_eq→≡ p [] root) refl
      | inr other ↦ elim (Bool-cases (str_eq p (codes "unpack"))) [
        | inl file ↦ rw (str_eq→≡ p (codes "unpack") file) refl
        | inr no_file ↦ absurd (grind (arith, rw no_file at (rw other at h)))
      ]
    ]

handle-IsSafe_example :
    Leaves
      (λ w'. IsSafe backup_world.target w'.target)
      (handle setting (codes "/w") (codes "unpack") backup_world)
handle-IsSafe_example =
    handle-IsSafe setting (codes "/w") (codes "unpack") backup_world backup_world-IsFileSystem

-- A digest with a negative byte in front, and one in which the last byte is negative.
abbrev early : List ℕ
early = 200 ∷ replicate 31 18

hash_string-listed_example : hash_string (replicate 65 7) early ≡ some (listed early)
hash_string-listed_example =
    hash_string-listed (replicate 65 7) early refl refl
      ((omega arith, (omega arith, (omega arith, tt))))

hash_string-overrun_example : hash_string (replicate 65 7) (replicate 31 18 ++ 200 ∷ []) ≡ none
hash_string-overrun_example =
    hash_string-overrun (replicate 65 7) (replicate 31 18) [] 200 refl (omega arith) (omega arith)

names_file-minus_one_example :
    (CompressHandle.handle list_queue none (codes "/t") (codes "/t") (calm disk)
      ≡ ok minus_one (calm disk))
    × (DecompressHandle.handle list_queue 7 (codes "/t") (codes "/t") (calm disk)
        ≡ ok minus_one (calm disk))
    × (encrypt_handle add_one (codes "key") none (codes "/t") (codes "/t") (calm disk)
        ≡ ok minus_one (calm disk))
    × (decrypt_handle add_one (codes "key") (codes "/t") (codes "/t") (calm disk)
        ≡ ok minus_one (calm disk))
names_file-minus_one_example =
    names_file-minus_one list_queue add_one 7 disk (codes "/t") (codes "/t") (codes "key") refl

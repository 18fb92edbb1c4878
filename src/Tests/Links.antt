-- ===== src/Tests/Links.antt =====
-- Two files of one link count in packer and unpacker.
use data_backup.Base.{
  ℕ, ◌≡◌, ◌≢◌, ◌<◌, ◌^◌, refl, List, [], ◌∷◌, ◌++◌, some, none, length, replicate, str_eq,
  if◌then◌else◌, arith,
}
use data_backup.Io.{ok, streams, codes}
use data_backup.Archive.Header.{Header}
use data_backup.Archive.Written.{IsSerializable, header_bytes}
use data_backup.Archive.Pack.{SourceTree, Stat, parse_header, pack, pack_entries}
use data_backup.Archive.Links.{AreFree}
use data_backup.Archive.Linked.{ShareCount, pack_both, pack_both_forgets}
use data_backup.Archive.Both.{AreLinked, extract-pack_entries}
use data_backup.Archive.Forest.{child_path}
use data_backup.World.Files.{regular, directory, Target}
use data_backup.Archive.Tree.{UnpackState}
use data_backup.Archive.Unpack.{extract}
use data_backup.Archive.Regular.{started}
use data_backup.Tests.Archives.{note_stat, note_path, note_tree, note_header, only_t}

-- Two names of one inode.
abbrev pair_stat : Stat
pair_stat = record note_stat { st_nlink = 2 }

abbrev pair_header : Header
pair_header = record note_header { st_nlink = 2 }

abbrev pair_header2 : Header
pair_header2 = record note_header { st_nlink = 2; file_path = codes "b" }

abbrev pair_tree : SourceTree
pair_tree = record note_tree {
  contents = λ p. if str_eq p note_path then some (codes "abc") else none;
}

-- Changing the link count, the name of one letter, the inode number and the padding keeps a header in
-- order.
pair_header-IsSerializable :
    (c ino padding : ℕ)
    → c ≢ 0
    → ino < 2 ^ 64
    → padding < 2 ^ 32
    → IsSerializable
        (record note_header { st_nlink = 2; file_path = c ∷ []; st_ino = ino; padding = padding })
pair_header-IsSerializable c ino padding h hi hp = record {
  path_len = refl;
  ln_len = refl;
  path_text = (h, tt);
  ln_text = tt;
  path_fits = omega arith;
  ln_fits = omega arith;
  ino_fits = hi;
  mode_fits = omega arith;
  nlink_fits = omega arith;
  uid_fits = omega arith;
  gid_fits = omega arith;
  atime_fits = omega arith;
  mtime_fits = omega arith;
  blocks_fit = omega arith;
  padding_fits = hp;
}

pair_run : parse_header (codes "/") note_path pair_stat ≡ pair_header
unfolding parse_header
pair_run = refl

pair_run2 : parse_header (codes "/") (codes "/b") pair_stat ≡ pair_header2
unfolding parse_header
pair_run2 = refl

pair_ShareCount :
    ShareCount pair_tree (codes "/") note_path (codes "/b") pair_stat pair_stat (codes "abc")
pair_ShareCount = record {
  bytes_are = refl;
  kind = refl;
  kind2 = refl;
  links = omega arith;
  links2 = refl;
  size = refl;
  fits =
      rw pair_run (pair_header-IsSerializable 97 7 509 (omega arith) (omega arith) (omega arith));
  fits2 =
      rw pair_run2 (pair_header-IsSerializable 98 7 509 (omega arith) (omega arith) (omega arith));
}

-- The same two names in a directory "/d".
abbrev linked_tree : SourceTree
linked_tree = record {
  lstat = λ p. some pair_stat;
  contents = λ p. some (codes "abc");
  target = λ p. none;
  names = λ p. none;
}

abbrev linked_header : ℕ → Header
linked_header c = record note_header {
  st_nlink = 2;
  file_path = codes "d/" ++ c ∷ [];
  file_path_len = 3;
}

linked_header-IsSerializable : (c : ℕ) → c ≢ 0 → IsSerializable (linked_header c)
linked_header-IsSerializable c h = record {
  path_len = refl;
  ln_len = refl;
  path_text = (omega arith, (omega arith, (h, tt)));
  ln_text = tt;
  path_fits = omega arith;
  ln_fits = omega arith;
  ino_fits = omega arith;
  mode_fits = omega arith;
  nlink_fits = omega arith;
  uid_fits = omega arith;
  gid_fits = omega arith;
  atime_fits = omega arith;
  mtime_fits = omega arith;
  blocks_fit = omega arith;
  padding_fits = omega arith;
}

linked_run :
    (c : ℕ)
    → parse_header (codes "/") (child_path (codes "/d") (c ∷ [])) pair_stat ≡ linked_header c
unfolding parse_header
linked_run c = refl

linked-AreLinked :
    AreLinked linked_tree
      (codes "/")
      (codes "/d")
      (codes "a")
      (codes "b")
      pair_stat
      pair_stat
      (codes "abc")
linked-AreLinked = record {
  shown = refl;
  shown2 = refl;
  stat_is = refl;
  stat_is2 = refl;
  inode = refl;
  share = record {
    bytes_are = refl;
    kind = refl;
    kind2 = refl;
    links = omega arith;
    links2 = refl;
    size = refl;
    fits = rw (linked_run 97) (linked_header-IsSerializable 97 (omega arith));
    fits2 = rw (linked_run 98) (linked_header-IsSerializable 98 (omega arith));
  };
}

abbrev with_d : Target
with_d = record only_t { entry = λ p. if str_eq p (codes "/t/d") then some directory else none }

with_d-AreFree : AreFree with_d (codes "/t/d/a") (codes "/t/d/b")
with_d-AreFree = record { free = refl; may = refl; may2 = refl; differ = λ h. grind (arith, h) }

abbrev linked_bytes : List ℕ
linked_bytes =
    header_bytes (linked_header 97)
    ++ ((codes "abc" ++ replicate 509 0) ++ header_bytes (linked_header 98))

extract-pack_entries_example :
    (pack_entries linked_tree
        (codes "/")
        (replicate 512 7)
        3
        (pack linked_tree (codes "/") (replicate 512 7) 3 1)
        (codes "/d")
        (codes "a" ∷ codes "b" ∷ [])
        []
        (streams [] [] [] 0)
      ≡ ok (2 ∷ []) (streams [] (codes "abc") linked_bytes (length linked_bytes)))
    × (s' : UnpackState) × (extract [] 4
          (codes "/t/")
          (started (streams linked_bytes linked_bytes [] 0) with_d)
        ≡ ok tt s')
    × (s'.errs ≡ [])
    × (s'.target.entry (codes "/t/d/a") ≡ some (regular 1))
    × (s'.target.entry (codes "/t/d/b") ≡ some (regular 1))
    × (s'.target.contents 1 ≡ codes "abc")
unfolding parse_header
extract-pack_entries_example =
    extract-pack_entries linked_tree (codes "/") (codes "d") (codes "a") (codes "b") pair_stat
      pair_stat (codes "abc") linked-AreLinked (replicate 512 7) [] (codes "/t/") [] 3 4 0 0 with_d
      refl with_d-AreFree

-- Another file of two links, with nothing in it and then with five bytes.
abbrev other_stat : Stat
other_stat = record pair_stat { st_ino = 8; st_size = 5 }

abbrev other_tree : SourceTree
other_tree = record pair_tree {
  contents = λ p. if str_eq p note_path then some (codes "abc") else some (codes "other");
}

abbrev other_header : Header
other_header = record pair_header2 { st_ino = 8; padding = 507 }

other_run : parse_header (codes "/") (codes "/b") other_stat ≡ other_header
unfolding parse_header
other_run = refl

other_ShareCount :
    ShareCount pair_tree (codes "/") note_path (codes "/b") pair_stat other_stat (codes "abc")
other_ShareCount = record {
  bytes_are = refl;
  kind = refl;
  kind2 = refl;
  links = omega arith;
  links2 = refl;
  size = refl;
  fits =
      rw pair_run (pair_header-IsSerializable 97 7 509 (omega arith) (omega arith) (omega arith));
  fits2 =
      rw other_run (pair_header-IsSerializable 98 8 507 (omega arith) (omega arith) (omega arith));
}

pack_both_forgets_example :
    (archive : List ℕ) × (pack_both pair_tree
        (codes "/")
        (replicate 512 7)
        3
        note_path
        (codes "/b")
        pair_stat
        other_stat
        (streams [] [] [] 0)
      ≡ ok (2 ∷ []) (streams [] (codes "abc") archive (length archive)))
    × (pack_both other_tree
          (codes "/")
          (replicate 512 7)
          3
          note_path
          (codes "/b")
          pair_stat
          other_stat
          (streams [] [] [] 0)
        ≡ ok (2 ∷ []) (streams [] (codes "abc") archive (length archive)))
pack_both_forgets_example =
    pack_both_forgets pair_tree other_tree (codes "/") (replicate 512 7) 3 note_path (codes "/b")
      pair_stat other_stat (codes "abc") other_ShareCount refl refl

-- ===== src/Tests/Archives.antt =====
-- Runs of packer and unpacker.
use data_backup.Base.{
  ℕ, Option, ◌≡◌, ap, refl, ◌⊎◌, true, false, List, [], ◌∷◌, ◌++◌, some, none, length, replicate,
  str_eq, if◌then◌else◌, arith, pos,
}
use data_backup.Io.{Streams, BaseException, ok, throw, streams, codes}
use data_backup.Archive.Tree.{UnpackState}
use data_backup.Archive.Header.{Timespec, Header, serialize, deserialize, parsed}
use data_backup.Archive.Written.{IsSerializable, header_bytes}
use data_backup.Archive.RoundTrip.{deserialize-serialize}
use data_backup.Archive.Pack.{SourceTree, Stat, parse_header, pack_into}
use data_backup.World.Files.{Target, directory, regular}
use data_backup.Archive.Unpack.{extract}
use data_backup.Archive.Regular.{started}
use data_backup.Archive.PackTree.{HasDepth, pack_into_ends}
use data_backup.Archive.Single.{IsRegularFile, extract-pack_into}

abbrev pub noon : Timespec
noon = record { tv_sec = 43200; tv_nsec = 5 }

-- A regular file of three bytes.
abbrev pub note_stat : Stat
note_stat = record {
  st_ino = 7;
  st_mode = 0b1000000110100100;
  st_nlink = 1;
  st_uid = 1000;
  st_gid = 100;
  st_size = 3;
  st_atim = noon;
  st_mtim = noon;
}

abbrev pub note_path : List ℕ
note_path = codes "/a"

abbrev pub note_tree : SourceTree
note_tree = record {
  lstat = λ p. if str_eq p note_path then some note_stat else none;
  contents = λ p. if str_eq p note_path then some (codes "abc") else none;
  target = λ p. none;
  names = λ p. none;
}

abbrev pub note_header : Header
note_header = record {
  file_path = codes "a";
  ln_path = [];
  file_path_len = 1;
  ln_path_len = 0;
  st_ino = 7;
  st_mode = 0b1000000110100100;
  st_nlink = 1;
  st_uid = 1000;
  st_gid = 100;
  st_atime = noon;
  st_mtime = noon;
  block_num = 1;
  padding = 509;
}

note_header-IsSerializable : IsSerializable note_header
note_header-IsSerializable = record {
  path_len = refl;
  ln_len = refl;
  path_text = omega arith;
  ln_text = tt;
  path_fits = omega arith;
  ln_fits = omega arith;
  ino_fits = omega arith;
  mode_fits = omega arith;
  nlink_fits = omega arith;
  uid_fits = omega arith;
  gid_fits = omega arith;
  atime_fits = omega arith;
  mtime_fits = omega arith;
  blocks_fit = omega arith;
  padding_fits = omega arith;
}

parse_header_run : parse_header (codes "/") note_path note_stat ≡ note_header
unfolding parse_header
parse_header_run = refl

pub note_IsRegularFile : IsRegularFile note_tree note_path note_stat (codes "abc")
note_IsRegularFile = record {
  stat_is = refl;
  bytes_are = refl;
  kind = refl;
  one_link = omega arith;
  size = refl;
  fits = rw parse_header_run note_header-IsSerializable;
}

abbrev pub only_t : Target
only_t = record {
  entry = λ p. if str_eq p (codes "/t") then some directory else none;
  contents = λ ino. [];
  next_ino = 1;
}

deserialize-serialize_example :
    (bytes : List ℕ) × ((rest whole : List ℕ)
      → serialize note_header (pos 3) (streams rest whole (9 ∷ []) 1)
        ≡ ok (pos 0) (streams rest whole ((9 ∷ []) ++ bytes) (length ((9 ∷ []) ++ bytes))))
    × (deserialize (pos 4) (streams (bytes ++ 8 ∷ []) (9 ∷ bytes ++ 8 ∷ []) [] 0)
        ≡ ok (parsed note_header) (streams (8 ∷ []) (9 ∷ bytes ++ 8 ∷ []) [] 0))
deserialize-serialize_example =
    deserialize-serialize note_header 3 4 (9 ∷ []) (8 ∷ []) [] 0 note_header-IsSerializable

extract-pack_into_example :
    (archive : List ℕ) × (pack_into note_tree (replicate 512 7) 3 1 note_path (streams [] [] [] 0)
      ≡ ok tt (streams [] (codes "abc") archive (length archive)))
    × (t' : Target) × (extract [] 4 (codes "/t/") (started (streams archive archive [] 0) only_t)
        ≡ ok tt (started (streams [] archive (codes "abc") 3) t'))
    × (t'.entry (codes "/t/a") ≡ some (regular 1))
    × (t'.contents 1 ≡ codes "abc")
    × (t'.next_ino ≡ 2)
extract-pack_into_example =
    extract-pack_into note_tree note_path note_stat (codes "abc") note_IsRegularFile
      (replicate 512 7) [] (codes "/t/") [] 3 4 0 0 only_t refl refl refl

-- A directory with one file.
abbrev dir_tree : SourceTree
dir_tree = record {
  lstat = λ p. some (
      if str_eq p (codes "/d")
      then record note_stat { st_mode = 0b100000111101101; st_nlink = 2 }
      else note_stat);
  contents = λ p. some (codes "abc");
  target = λ p. none;
  names = λ p. if str_eq p (codes "/d") then some (codes "." ∷ codes "a" ∷ []) else none;
}

-- The fourth call fails.
abbrev failing : Streams
failing = record {
  input = [];
  whole = [];
  out = [];
  pos = 0;
  faults = false ∷ false ∷ false ∷ true ∷ [];
}

abbrev names_in : Option (List (List ℕ)) → List (List ℕ)
names_in none = []
names_in (some names) = names

dir_tree-HasDepth : HasDepth dir_tree 2 (codes "/d")
unfolding HasDepth
dir_tree-HasDepth names e =
    let e' : codes "." ∷ codes "a" ∷ [] ≡ names = ap names_in e in
    rw (← e') (
      (λ h. absurd (grind (arith, h))),
      ((λ h names' none_there. absurd (grind (arith, none_there))), tt),
    )

pack_into_ends_example :
    ((s' : Streams) × (pack_into dir_tree (replicate 512 7) 3 2 (codes "/d") failing ≡ ok tt s'))
    ⊎ ((e : BaseException) × (s' : Streams) × (pack_into dir_tree
            (replicate 512 7)
            3
            2
            (codes "/d")
            failing
          ≡ throw e s'))
pack_into_ends_example =
    pack_into_ends dir_tree (replicate 512 7) 3 2 (codes "/d") failing dir_tree-HasDepth

-- An archive that ends in the middle of its second header, and the fifth call fails.
abbrev cut_off : UnpackState
cut_off =
    let bytes = header_bytes note_header ++ (codes "abc" ++ (replicate 509 0 ++ replicate 20 0)) in
    started (record (streams bytes bytes [] 0) { faults = replicate 4 false ++ true ∷ [] }) only_t

-- ===== src/Tests/Trees.antt =====
-- A directory is packed and unpacked.
use data_backup.Base.{
  ℕ, ◌^◌, ◌<◌, ◌≡◌, ◌≢◌, refl, List, [], ◌∷◌, some, none, All, length, drop, replicate, str_eq,
  if◌then◌else◌, Bool-cases, inl, inr, arith,
}
use data_backup.Io.{ok, streams, codes}
use data_backup.Archive.Written.{IsSerializable}
use data_backup.Archive.Pack.{SourceTree, Stat, is_reg, parse_header, pack_into}
use data_backup.World.Files.{Target}
use data_backup.Archive.Unpack.{extract}
use data_backup.Archive.Regular.{started}
use data_backup.Archive.Forest.{
  Forest, done, passed, leaf, sub, regular_file, fifo_file, IsDir, IsForest,
}
use data_backup.Archive.Forest.Placed.{HasWanted, AreCreatable}
use data_backup.Archive.Forest.RoundTrip.{all_wanted, extract-pack_tree}
use data_backup.Tests.Archives.{note_stat, only_t}

abbrev with_mode : ℕ → Stat
with_mode mode = record note_stat { st_mode = mode }

abbrev dir_mode : ℕ
dir_mode = 0b100000111101101

abbrev fifo_mode : ℕ
fifo_mode = 0b1000110100100

with_mode-IsSerializable :
    (path : List ℕ) (mode : ℕ)
    → All (λ b. b ≢ 0) (drop 1 path)
    → length (drop 1 path) < 2 ^ 64
    → mode < 2 ^ 32
    → IsSerializable (parse_header (codes "/") path (with_mode mode))
unfolding parse_header
with_mode-IsSerializable path mode text short fits = record {
  path_len = refl;
  ln_len = refl;
  path_text = text;
  ln_text = tt;
  path_fits = short;
  ln_fits = omega arith;
  ino_fits = omega arith;
  mode_fits = fits;
  nlink_fits = omega arith;
  uid_fits = omega arith;
  gid_fits = omega arith;
  atime_fits = omega arith;
  mtime_fits = omega arith;
  blocks_fit = elim (Bool-cases (is_reg mode)) [
    | inl reg ↦ rw reg (omega arith)
    | inr other ↦ rw other (omega arith)
  ];
  padding_fits = elim (Bool-cases (is_reg mode)) [
    | inl reg ↦ rw reg (omega arith)
    | inr other ↦ rw other (omega arith)
  ];
}

-- "/d" holds a file "a" and a directory "s" with a FIFO "p".
abbrev source : SourceTree
source = record {
  lstat = λ p. some (
      if str_eq p (codes "/d")
      then with_mode dir_mode
      else if str_eq p (codes "/d/s")
      then with_mode dir_mode
      else if str_eq p (codes "/d/s/p")
      then with_mode fifo_mode
      else note_stat);
  contents = λ p. some (codes "abc");
  target = λ p. none;
  names = λ p.
      if str_eq p (codes "/d")
      then some (codes "." ∷ codes "a" ∷ codes "s" ∷ [])
      else some (codes "p" ∷ []);
}

abbrev in_s : Forest
in_s = leaf (codes "p") (fifo_file (with_mode fifo_mode)) done

abbrev in_d : Forest
in_d = passed (codes ".") (
    leaf (codes "a") (regular_file note_stat (codes "abc"))
      (sub (codes "s") (with_mode dir_mode) in_s done))

in_d-IsDir : IsDir (codes "/") source (codes "/d") (with_mode dir_mode) in_d
in_d-IsDir = (
  refl,
  refl,
  refl,
  with_mode-IsSerializable (codes "/d") dir_mode (omega arith, tt) (omega arith) (omega arith),
)

in_d-IsForest : IsForest (codes "/") source 2 (codes "/d") in_d
in_d-IsForest = (
  refl,
  (
    refl,
    (
      refl,
      refl,
      refl,
      omega arith,
      refl,
      with_mode-IsSerializable (codes "/d/a") note_stat.st_mode
          (omega arith, (omega arith, (omega arith, tt))) (omega arith) (omega arith),
    ),
    (
      refl,
      (
        refl,
        refl,
        refl,
        with_mode-IsSerializable (codes "/d/s") dir_mode
            (omega arith, (omega arith, (omega arith, tt))) (omega arith) (omega arith),
      ),
      (
        refl,
        (
          refl,
          refl,
          with_mode-IsSerializable (codes "/d/s/p") fifo_mode
              (omega arith, (omega arith, (omega arith, (omega arith, (omega arith, tt)))))
              (omega arith) (omega arith),
        ),
        tt,
      ),
      tt,
    ),
  ),
)

may : AreCreatable (codes "/t/") (all_wanted (codes "/d") in_d) only_t
may = (refl, (refl, (refl, (refl, tt))))

extract-pack_tree_example :
    (archive rest whole : List ℕ) × (pack_into source
        (replicate 512 7)
        3
        3
        (codes "/d")
        (streams [] [] [] 0)
      ≡ ok tt (streams rest whole archive (length archive)))
    × (t' : Target) × (out' : List ℕ) × (o' : ℕ) × (extract [] 4
          (codes "/t/")
          (started (streams archive archive [] 0) only_t)
        ≡ ok tt (started (streams [] archive out' o') t'))
    × All (HasWanted (codes "/t/") t') (all_wanted (codes "/d") in_d)
extract-pack_tree_example =
    extract-pack_tree source (codes "/d") (with_mode dir_mode) in_d 2 in_d-IsDir in_d-IsForest
      (replicate 512 7) [] (codes "/t/") [] 3 4 0 only_t refl may

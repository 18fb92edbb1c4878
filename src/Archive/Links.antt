-- ===== src/Archive/Links.antt =====
-- The unpacker at a regular file and at a second link to it.
use data_backup.Base.{
  ℕ, ◌<◌, ◌≡◌, ◌≢◌, refl, true, List, [], ◌∷◌, ◌++◌, none, length, replicate, ==_iff, lt→ltb,
  str_eq, str_eq_refl, str_eq→≡, Bool-cases, inl, inr, arith,
}
use data_backup.Io.{Streams, ok, streams}
use data_backup.Archive.Header.{Header}
use data_backup.Archive.Pack.{parent_path}
use data_backup.World.Files.{regular, Target, can_create, without_last, add_entry}
use data_backup.Archive.Tree.{UnpackState, target_call}
use data_backup.Archive.Unpack.{link_regular, unpack_reg}
use data_backup.Archive.Regular.{HasBlocks, made, make_regular_lem}

-- The names that the two files get.
pub record AreFree (t : Target) (dst dst2 : List ℕ) : Type 0 where
  pub free : t.entry dst ≡ none
  pub may : can_create t dst ≡ true
  pub may2 : can_create t dst2 ≡ true
  pub differ : dst2 ≢ dst

module _ (uninit : List ℕ) (t : Target) (dst dst2 xs : List ℕ) (f : AreFree t dst dst2) where
  abbrev pub first : Target
  first = made uninit dst xs t

  -- The new file is no directory, so it stands in no one's way.
  can_create-made : can_create first dst2 ≡ true
  can_create-made = elim (Bool-cases (str_eq dst2 dst)) [
    | inl same ↦ absurd (f.differ (str_eq→≡ dst2 dst same))
    | inr other ↦ rw other (elim (Bool-cases (str_eq (without_last (parent_path dst2)) dst)) [
      | inl below ↦
          let e = str_eq→≡ (without_last (parent_path dst2)) dst below in
          let h = rw (e, f.free) at f.may2 in absurd (grind (arith, h))
      | inr beside ↦ rw beside f.may2
    ])
  ]

  abbrev pub state : Streams → Header → UnpackState
  state b h = record { backup = b; target = first; hard_lk_map = (h.st_ino, dst) ∷ []; errs = [] }

  -- The first is written, and remembered.
  pub unpack_first :
      (h : Header) (after whole out : List ℕ) (o : ℕ)
      → 1 < h.st_nlink
      → HasBlocks h xs
      → unpack_reg uninit h dst (record {
        backup = streams (xs ++ (replicate h.padding 0 ++ after)) whole out o;
        target = t;
        hard_lk_map = [];
        errs = [];
      })
        ≡ ok tt (state (streams after whole xs (length xs)) h)
  unfolding unpack_reg link_regular
  unpack_first h after whole out o lt b = rw (lt→ltb 1 h.st_nlink lt) (
      make_regular_lem uninit h dst xs after whole out o t ((h.st_ino, dst) ∷ []) [] f.free f.may b)

  abbrev pub linked : Target
  linked = add_entry dst2 (regular t.next_ino) first

  -- The second is linked, and the archive is not read.
  pub unpack_second :
      (h h2 : Header) (b : List ℕ) (whole out : List ℕ) (o : ℕ)
      → 1 < h2.st_nlink
      → h2.st_ino ≡ h.st_ino
      → unpack_reg uninit h2 dst2 (state (streams b whole out o) h)
        ≡ ok tt (record (state (streams b whole out o) h) { target = linked })
  unfolding unpack_reg link_regular target_call
  unpack_second h h2 b whole out o lt e =
      rw (lt→ltb 1 h2.st_nlink lt, e)
        (rw ((==_iff h.st_ino h.st_ino).1 refl) (rw (str_eq_refl dst) (rw can_create-made refl)))

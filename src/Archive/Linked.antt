-- ===== src/Archive/Linked.antt =====
-- A regular file and a second link to it go into the archive and come out again.
use data_backup.Base.{
  ℕ, zero, suc, ◌<◌, ◌≡◌, refl, ap, ◌∙◌, true, List, [], ◌∷◌, ◌++◌, some, length, length-append,
  replicate, append_assoc, append-nil, ==_iff, lt→ltb, str_eq, str_eq_refl, Bool-cases, inl, inr,
  arith, pos,
}
use data_backup.Io.{Io, Streams, ok, streams, ◌>>=◌}
use data_backup.Archive.Header.{Header, parsed, deserialize}
use data_backup.Archive.Written.{IsSerializable, header_bytes, header-nonempty}
use data_backup.Archive.ReadBack.{deserialize_lem, deserialize_end}
use data_backup.Archive.Pack.{my_block_size, SourceTree, Stat, is_reg, parse_header, pack_regular}
use data_backup.World.Files.{regular, Target}
use data_backup.Archive.Tree.{UnpackState}
use data_backup.Archive.Unpack.{unpack_one, extract_round, extract_fuel, extract}
use data_backup.Archive.Regular.{
  started, HasBlocks, block_bytes, write_header_lem, pack_contents_lem,
}
use data_backup.Archive.Single.{reg→not_dir, parse_header-HasBlocks}
use data_backup.Archive.Links.{AreFree, state, linked, unpack_first, unpack_second}

-- Two regular files of one link count above 1, the first with these bytes, that `ParseHeader` can
-- describe.
pub record ShareCount (tree : SourceTree) (parent src src2 : List ℕ) (st st2 : Stat) (xs : List ℕ)
    : Type 0 where
  pub bytes_are : tree.contents src ≡ some xs
  pub kind : is_reg st.st_mode ≡ true
  pub kind2 : is_reg st2.st_mode ≡ true
  pub links : 1 < st.st_nlink
  pub links2 : st2.st_nlink ≡ st.st_nlink
  pub size : st.st_size ≡ length xs
  pub fits : IsSerializable (parse_header parent src st)
  pub fits2 : IsSerializable (parse_header parent src2 st2)

-- `Pack` at the one and then at the other, with the members that it keeps.
abbrev pub pack_both :
    SourceTree → List ℕ → List ℕ → ℕ → List ℕ → List ℕ → Stat → Stat → Io Streams (List ℕ)
pack_both tree parent uninit dst_fd src src2 st st2 = do
  hard_link_set ← pack_regular tree parent uninit dst_fd src st (parse_header parent src st) []
  pack_regular tree parent uninit dst_fd src2 st2 (parse_header parent src2 st2) hard_link_set

module _ (tree : SourceTree) (parent uninit : List ℕ) (dst_fd : ℕ) (src src2 : List ℕ)
    (st st2 : Stat) (xs : List ℕ) (a : ShareCount tree parent src src2 st st2 xs) where
  abbrev h : Header
  h = parse_header parent src st

  abbrev h2 : Header
  h2 = parse_header parent src2 st2

  abbrev blocks : HasBlocks h xs
  blocks = parse_header-HasBlocks parent src st xs a.kind a.size

  abbrev pub archive : List ℕ
  archive = header_bytes h ++ (block_bytes h xs ++ header_bytes h2)

  pack_both_lem :
      length uninit ≡ my_block_size
      → pack_both tree parent uninit dst_fd src src2 st st2 (streams [] [] [] 0)
        ≡ ok (st.st_nlink ∷ []) (streams [] xs archive (length archive))
  unfolding pack_regular
  pack_both_lem lu = rw (lt→ltb 1 st.st_nlink a.links) (
      rw (write_header_lem tree parent uninit dst_fd src h [] [] [] a.fits) (
        rw
          (pack_contents_lem tree parent uninit dst_fd src xs h [] [] (header_bytes h) a.bytes_are
            blocks lu)
          (rw
            (
              lt→ltb 1 st2.st_nlink (omega (arith, a.links, a.links2)),
              (==_iff st2.st_nlink st.st_nlink).1 a.links2,
            )
            (rw
              (write_header_lem tree parent uninit dst_fd src2 h2 [] xs
                (header_bytes h ++ block_bytes h xs) a.fits2)
              (rw (append_assoc (header_bytes h)) refl)))))

  mode_is : (st : Stat) (src : List ℕ) → (parse_header parent src st).st_mode ≡ st.st_mode
  unfolding parse_header
  mode_is st src = refl

  nlink_is : (st : Stat) (src : List ℕ) → (parse_header parent src st).st_nlink ≡ st.st_nlink
  unfolding parse_header
  nlink_is st src = refl

  module _ (ino2 : st2.st_ino ≡ st.st_ino) (buf dir : List ℕ) (fd : ℕ) (t : Target)
      (f : AreFree t (dir ++ h.file_path) (dir ++ h2.file_path)) where
    ino_is : h2.st_ino ≡ h.st_ino
    unfolding parse_header
    ino_is = ino2

    after_first : List ℕ → ℕ → UnpackState
    after_first b o =
        state buf t (dir ++ h.file_path) (dir ++ h2.file_path) xs f (streams b archive xs o) h

    abbrev final : UnpackState
    final =
        record (state buf t (dir ++ h.file_path) (dir ++ h2.file_path) xs f
          (streams [] archive xs (length xs)) h) {
            target = linked buf t (dir ++ h.file_path) (dir ++ h2.file_path) xs f;
          }

    unpack_one_first :
        (out : List ℕ) (o : ℕ)
        → unpack_one buf dir h
            (started (streams (block_bytes h xs ++ header_bytes h2) archive out o) t)
          ≡ ok tt (after_first (header_bytes h2) (length xs))
    unfolding unpack_one after_first
    unpack_one_first out o =
        let reg : is_reg h.st_mode ≡ true = ap is_reg (mode_is st src) ∙ a.kind in
        let lt : 1 < h.st_nlink = omega (arith, nlink_is st src, a.links) in
        rw (reg→not_dir h.st_mode reg, reg)
          (rw (← append_assoc xs (replicate {A = ℕ} h.padding 0) (header_bytes h2)) at (
            unpack_first buf t (dir ++ h.file_path) (dir ++ h2.file_path) xs f h (header_bytes h2)
              archive out o lt blocks))

    unpack_one_second : unpack_one buf dir h2 (after_first [] (length xs)) ≡ ok tt final
    unfolding unpack_one after_first
    unpack_one_second =
        let reg : is_reg h2.st_mode ≡ true = ap is_reg (mode_is st2 src2) ∙ a.kind2 in
        let lt : 1 < h2.st_nlink = omega (arith, nlink_is st2 src2, a.links, a.links2) in
        rw (reg→not_dir h2.st_mode reg, reg)
          (unpack_second buf t (dir ++ h.file_path) (dir ++ h2.file_path) xs f h h2 [] archive xs
            (length xs) lt ino_is)

    deserialize_second :
        deserialize (pos fd) (streams (header_bytes h2) archive xs (length xs))
        ≡ ok (parsed h2) (streams [] archive xs (length xs))
    deserialize_second =
        let front = header_bytes h ++ block_bytes h xs in
        let e : front ++ (header_bytes h2 ++ []) ≡ archive =
          append_assoc (header_bytes h) (block_bytes h xs) (header_bytes h2 ++ [])
          ∙ ap (λ b. header_bytes h ++ (block_bytes h xs ++ b)) (append-nil (header_bytes h2)) in
        rw (e, append-nil (header_bytes h2)) at
          (deserialize_lem h2 fd front [] xs (length xs) a.fits2)

    last_rounds :
        (fuel : ℕ)
        → 1 < fuel
        → extract_fuel buf fuel fd dir (after_first (header_bytes h2) (length xs)) ≡ ok tt final
    unfolding extract_fuel extract_round after_first
    last_rounds zero lt = absurd (omega arith)
    last_rounds (suc zero) lt = absurd (omega arith)
    last_rounds (suc (suc fuel)) lt =
        rw deserialize_second
          (rw unpack_one_second (rw (deserialize_end fd archive xs (length xs)) refl))

    extract_both_lem :
        (out : List ℕ) (o : ℕ)
        → extract buf fd dir (started (streams archive archive out o) t) ≡ ok tt final
    unfolding extract extract_fuel extract_round
    extract_both_lem out o =
        rw (deserialize_lem h fd [] (block_bytes h xs ++ header_bytes h2) out o a.fits) (
          rw (unpack_one_first out o) (
            last_rounds (length archive) (
              omega (
                arith,
                length-append (header_bytes h) (block_bytes h xs ++ header_bytes h2),
                length-append (block_bytes h xs) (header_bytes h2),
                header-nonempty h [],
                header-nonempty h2 [],
              ))))

-- The unpacker on the archive of the two.
pub extract_both :
    (tree : SourceTree) (parent uninit : List ℕ) (dst_fd : ℕ) (src src2 : List ℕ) (st st2 : Stat)
    (xs : List ℕ) (a : ShareCount tree parent src src2 st st2 xs)
    → st2.st_ino ≡ st.st_ino
    → (buf dir out : List ℕ) (fd o : ℕ) (t : Target)
    → let dst = dir ++ (parse_header parent src st).file_path in
      let dst2 = dir ++ (parse_header parent src2 st2).file_path in
      AreFree t dst dst2
      → let bytes = archive tree parent uninit dst_fd src src2 st st2 xs a in
        (s' : UnpackState) × (extract buf fd dir (started (streams bytes bytes out o) t) ≡ ok tt s')
        × (s'.errs ≡ [])
        × (s'.target.entry dst ≡ some (regular t.next_ino))
        × (s'.target.entry dst2 ≡ some (regular t.next_ino))
        × (s'.target.contents t.next_ino ≡ xs)
extract_both tree parent uninit dst_fd src src2 st st2 xs a ino2 buf dir out fd o t f =
    let dst = dir ++ (parse_header parent src st).file_path in
    let dst2 = dir ++ (parse_header parent src2 st2).file_path in
    (
      final tree parent uninit dst_fd src src2 st st2 xs a ino2 buf dir fd t f,
      extract_both_lem tree parent uninit dst_fd src src2 st st2 xs a ino2 buf dir fd t f out o,
      refl,
      elim (Bool-cases (str_eq dst dst2)) [
        | inl same ↦ rw same refl
        | inr other ↦ rw (other, str_eq_refl dst) refl
      ],
      rw (str_eq_refl dst2) refl,
      rw ((==_iff t.next_ino t.next_ino).1 refl) refl,
    )

-- For two regular files of one link count above 1, of one inode or of two, whose headers fit their
-- words, and two source trees in which the first file holds the same: with no failing call the packer
-- packs the one and then the other, and it writes the same for both trees, whatever the second file
-- holds in them.
pub pack_both_forgets :
    (tree tree' : SourceTree) (parent uninit : List ℕ) (dst_fd : ℕ) (src src2 : List ℕ)
    (st st2 : Stat) (xs : List ℕ)
    → ShareCount tree parent src src2 st st2 xs
    → tree'.contents src ≡ tree.contents src
    → length uninit ≡ my_block_size
    → (archive : List ℕ) × (pack_both tree parent uninit dst_fd src src2 st st2 (streams [] [] [] 0)
        ≡ ok (st.st_nlink ∷ []) (streams [] xs archive (length archive)))
      × (pack_both tree' parent uninit dst_fd src src2 st st2 (streams [] [] [] 0)
          ≡ ok (st.st_nlink ∷ []) (streams [] xs archive (length archive)))
pack_both_forgets tree tree' parent uninit dst_fd src src2 st st2 xs a same lu =
    let a' : ShareCount tree' parent src src2 st st2 xs = record {
      bytes_are = same ∙ a.bytes_are;
      kind = a.kind;
      kind2 = a.kind2;
      links = a.links;
      links2 = a.links2;
      size = a.size;
      fits = a.fits;
      fits2 = a.fits2;
    } in
    (
      archive tree parent uninit dst_fd src src2 st st2 xs a,
      pack_both_lem tree parent uninit dst_fd src src2 st st2 xs a lu,
      pack_both_lem tree' parent uninit dst_fd src src2 st st2 xs a' lu,
    )

-- ===== src/Archive/Unpack/Rounds.antt =====
-- src/unpack.cpp, `Extract`: the rounds of its loop, on any archive and with any failing calls.
use data_backup.Base.{
  ℕ, ◌≤◌, ◌≡◌, refl, Bool, true, false, List, [], ◌∷◌, ◌++◌, Option, none, some, ltb, if◌then◌else◌,
}
use data_backup.Io.{bind, pure, raise, codes, throw_if}
use data_backup.Archive.Header.{Header}
use data_backup.Archive.Pack.{is_dir, is_reg, is_fifo, is_lnk}
use data_backup.World.Files.{
  Entry, directory, regular, fifo, symbolic, can_link, entry_or, add_entry, can_create, fresh_file,
  set_contents, ino_unless, Target,
}
use data_backup.Archive.Tree.{
  UnpackState, open_entry, open_regular, rewound, error, target_call, create,
}
use data_backup.Archive.Unpack.{
  unpack_dir, unpack_fifo, unpack_slnk, make_regular, lookup, link_regular, unpack_reg, unpack_one,
}
use data_backup.Archive.Unpack.Within.{
  archive_left, Unpacks, bind-Within, create-Unpacks, checked-Unpacks, target_call-Unpacks,
  fill_regular-Unpacks,
}

-- A FIFO or a symbolic link, which `open` would follow.
abbrev pub is_special : Option Entry → Bool
is_special none = false
is_special (some directory) = false
is_special (some (regular ino)) = false
is_special (some fifo) = true
is_special (some (symbolic to)) = true

module _ (uninit : List ℕ) (n : ℕ) where
  called-Unpacks :
      {A : Type 0} (W : Type 0) (allowed : Target → Bool) (effect : Target → Target) (k : Bool → A)
      (s : UnpackState)
      → archive_left s ≤ n
      → Unpacks W n (bind (target_call allowed effect s) (λ refused. pure (k refused)))
  called-Unpacks W allowed effect k s le =
      bind-Within archive_left W n (target_call allowed effect s) (λ refused. pure (k refused))
        (target_call-Unpacks W n allowed effect s le) (λ refused s' le'. le')

  open_entry-Unpacks :
      (path : List ℕ) (o : Option Entry) (s : UnpackState)
      → archive_left s ≤ n
      → Unpacks (is_special o ≡ true) n (open_entry path o s)
  unfolding open_entry
  open_entry-Unpacks path none s le =
      called-Unpacks (is_special none ≡ true) (λ t. can_create t path) (fresh_file path)
        (ino_unless s.target.next_ino) (rewound s) le
  open_entry-Unpacks path (some directory) s le =
      called-Unpacks (is_special (some directory) ≡ true) (λ t. false) (λ t. t) (λ refused. none) s
        le
  open_entry-Unpacks path (some (regular ino)) s le =
      called-Unpacks (is_special (some (regular ino)) ≡ true) (λ t. true) (set_contents ino [])
        (ino_unless ino) (rewound s) le
  open_entry-Unpacks path (some fifo) s le = refl
  open_entry-Unpacks path (some (symbolic to)) s le = refl

  module _ (h : Header) (path : List ℕ) where
    abbrev pub IsOpened : UnpackState → Type 0
    IsOpened s = is_special (s.target.entry path) ≡ true

    make_regular-Unpacks :
        (s : UnpackState)
        → archive_left s ≤ n
        → Unpacks (IsOpened s) n (make_regular uninit h path s)
    unfolding make_regular open_regular
    make_regular-Unpacks s le =
        bind-Within archive_left (IsOpened s) n (open_regular path s) _
          (open_entry-Unpacks path (s.target.entry path) s le)
          (λ fd s' le'. fill_regular-Unpacks (IsOpened s) n uninit h path fd s' le')

    link_regular-Unpacks :
        (o : Option (List ℕ)) (s : UnpackState)
        → archive_left s ≤ n
        → Unpacks (IsOpened s) n (link_regular uninit h path o s)
    unfolding link_regular
    link_regular-Unpacks none s le =
        make_regular-Unpacks (record s { hard_lk_map = (h.st_ino, path) ∷ s.hard_lk_map }) le
    link_regular-Unpacks (some old) s le =
        checked-Unpacks (IsOpened s) n (target_call allowed effect s) _
          (target_call-Unpacks (IsOpened s) n allowed effect s le)
      where
        allowed : Target → Bool
        allowed t = can_link t old path

        effect : Target → Target
        effect t = add_entry path (entry_or (t.entry old)) t

    unpack_reg-Unpacks :
        (s : UnpackState) → archive_left s ≤ n → Unpacks (IsOpened s) n (unpack_reg uninit h path s)
    unfolding unpack_reg
    unpack_reg-Unpacks s le = linked (ltb 1 h.st_nlink)
      where
        linked :
            (b : Bool)
            → Unpacks (IsOpened s) n (
                if b
                then link_regular uninit h path (lookup uninit h.st_ino s.hard_lk_map) s
                else make_regular uninit h path s)
        linked true = link_regular-Unpacks _ s le
        linked false = make_regular-Unpacks s le

  -- A header by its kind: only a regular file is opened.
  pub unpack_one-Unpacks :
      (dir : List ℕ) (h : Header) (s : UnpackState)
      → archive_left s ≤ n
      → Unpacks (IsOpened h (dir ++ h.file_path) s) n (unpack_one uninit dir h s)
  unfolding unpack_one unpack_dir unpack_fifo unpack_slnk
  unpack_one-Unpacks dir h s le =
      by_kind (is_dir h.st_mode) (is_reg h.st_mode) (is_fifo h.st_mode) (is_lnk h.st_mode)
    where
      made :
          (e : Entry) (msg : List ℕ)
          → let dst_file = dir ++ h.file_path in
            Unpacks
              (IsOpened h dst_file s)
              n
              (bind (create dst_file e s) (λ refused. throw_if refused (error dst_file msg)))
      made e msg =
          checked-Unpacks (IsOpened h (dir ++ h.file_path) s) n (create (dir ++ h.file_path) e s) _
            (create-Unpacks (IsOpened h (dir ++ h.file_path) s) n (dir ++ h.file_path) e s le)

      by_kind :
          (d r f l : Bool)
          → let dst_file = dir ++ h.file_path in
            Unpacks (IsOpened h dst_file s) n (
              (if d
                  then unpack_dir dst_file
                  else if r
                  then unpack_reg uninit h dst_file
                  else if f
                  then unpack_fifo dst_file
                  else if l
                  then unpack_slnk h dst_file
                  else raise (error dst_file (codes "Undefined file type")))
                s)
      by_kind true r f l = made directory (codes "Fail to create directory")
      by_kind false true f l = unpack_reg-Unpacks h (dir ++ h.file_path) s le
      by_kind false false true l = made fifo (codes "Fail to create FIFO file")
      by_kind false false false true =
          made (symbolic h.ln_path) (codes "Fail to create symbolic file")
      by_kind false false false false = le

-- ===== src/Archive/Unpack/Kept.antt =====
-- src/unpack.cpp, `Extract`: every name stays in place, whatever the archive holds.
use data_backup.Base.{
  ℕ, zero, suc, ◌≡◌, ap, refl, Bool, true, false, List, [], ◌∷◌, ◌++◌, Option, none, some, length,
  pos, ltb, arith,
}
use data_backup.Io.{
  Io, Outcome, Streams, BaseException, ok, throw, throw_value, undefined, stuck, throw_if, bind,
  ◌>>=◌, pure, fsync, close,
}
use data_backup.Archive.Header.{Header, Parsed, parsed, at_end, failed, deserialize}
use data_backup.Archive.Pack.{is_dir, is_reg, is_fifo, is_lnk}
use data_backup.Archive.Tree.{
  UnpackState, on_backup, with_backup, answer, target_call, create, open_entry, open_regular,
  rewound,
}
use data_backup.Archive.Unpack.{
  unpack_dir, unpack_fifo, unpack_slnk, keep, fill_regular, make_regular, link_regular, unpack_reg,
  unpack_one, caught, extract_round, extract_fuel, extract,
}
use data_backup.Utils.Copy.{copy}
use data_backup.World.Files.{
  Entry, directory, regular, fifo, symbolic, Target, can_create, can_link, add_entry, entry_or,
  fresh_file, set_contents, ino_unless,
}
use data_backup.World.Safe.{
  IsSafe, add_entry-IsSafe, fresh_file-IsSafe, set_contents-IsSafe, link-IsSafe,
}
use data_backup.World.Runs.{
  Leaves, Preserves, bind-Leaves, bind-Preserves, then-Preserves, throw_if-Preserves, if-Preserves,
  if-Leaves,
}

module _ (t0 : Target) where
  -- The unpacker at work keeps the files below it a file system.
  abbrev pub IsSoundState : UnpackState → Type 0
  IsSoundState s = IsSafe t0 s.target

  pub on_backup-Preserves : {A : Type 0} (m : Io Streams A) → Preserves IsSoundState (on_backup m)
  on_backup-Preserves m s p = whatever (m s.backup)
    where
      whatever : {A : Type 0} (o : Outcome Streams A) → Leaves IsSoundState (with_backup s o)
      whatever (ok a b) = p
      whatever (throw e b) = p
      whatever (throw_value e b) = p
      whatever undefined = tt
      whatever stuck = tt

  -- A call that is allowed has its effect.
  answer-Leaves :
      (faults : List Bool) (allowed : Bool) (effect : Target → Target) (s : UnpackState)
      → IsSoundState s
      → (allowed ≡ true → IsSafe t0 (effect s.target))
      → Leaves IsSoundState (answer faults allowed effect s)
  answer-Leaves [] true effect s p k = k refl
  answer-Leaves [] false effect s p k = p
  answer-Leaves (true ∷ later) true effect s p k = p
  answer-Leaves (true ∷ later) false effect s p k = p
  answer-Leaves (false ∷ later) true effect s p k = k refl
  answer-Leaves (false ∷ later) false effect s p k = p

  target_call-Leaves :
      (allowed : Target → Bool) (effect : Target → Target) (s : UnpackState)
      → IsSoundState s
      → (allowed s.target ≡ true → IsSafe t0 (effect s.target))
      → Leaves IsSoundState (target_call allowed effect s)
  unfolding target_call
  target_call-Leaves allowed effect s p k =
      answer-Leaves s.backup.faults (allowed s.target) effect s p k

  abbrev has_inode : Entry → Bool
  has_inode directory = false
  has_inode (regular ino) = true
  has_inode fifo = false
  has_inode (symbolic path) = false

  create-Preserves :
      (path : List ℕ) (e : Entry) → has_inode e ≡ false → Preserves IsSoundState (create path e)
  unfolding create
  create-Preserves path e plain s p = target_call-Leaves _ _ s p (λ may.
      add_entry-IsSafe t0 path e s.target p may
        (λ ino e'. absurd (grind (arith, plain, ap has_inode e'))))

  refused-Preserves :
      (path : List ℕ) (e : Entry) (err : BaseException)
      → has_inode e ≡ false
      → Preserves IsSoundState (create path e >>= (λ refused. throw_if refused err))
  refused-Preserves path e err plain =
      bind-Preserves IsSoundState _ _ (create-Preserves path e plain)
        (λ refused. throw_if-Preserves IsSoundState refused err)

  opened-Leaves :
      (allowed : Target → Bool) (effect : Target → Target) (s : UnpackState) (ino : ℕ)
      → IsSoundState s
      → (allowed s.target ≡ true → IsSafe t0 (effect s.target))
      → Leaves IsSoundState
          (bind (target_call allowed effect s) (λ refused. pure (ino_unless ino refused)))
  opened-Leaves allowed effect s ino p k =
      bind-Leaves IsSoundState (target_call allowed effect s)
        (λ refused. pure (ino_unless ino refused)) (target_call-Leaves allowed effect s p k)
        (λ refused s q. q)

  open_entry-Leaves :
      (path : List ℕ) (o : Option Entry) → Preserves IsSoundState (open_entry path o)
  unfolding open_entry
  open_entry-Leaves path none s p =
      opened-Leaves (λ t. can_create t path) (fresh_file path) (rewound s) s.target.next_ino p
        (λ may. fresh_file-IsSafe t0 path s.target p may)
  open_entry-Leaves path (some directory) s p =
      bind-Leaves IsSoundState (target_call (λ t. false) (λ t. t) s) (λ refused. pure none)
        (target_call-Leaves (λ t. false) (λ t. t) s p (λ _. p)) (λ refused s q. q)
  open_entry-Leaves path (some (regular ino)) s p =
      opened-Leaves (λ t. true) (set_contents ino []) (rewound s) ino p
        (λ _. set_contents-IsSafe t0 ino [] s.target p)
  open_entry-Leaves path (some fifo) s p = tt
  open_entry-Leaves path (some (symbolic to)) s p = tt

  keep-Preserves : (ino : ℕ) → Preserves IsSoundState (keep ino)
  keep-Preserves ino s p = (set_contents-IsSafe t0) ino s.backup.out s.target p

  module _ (uninit : List ℕ) where
    fill_regular-Preserves :
        (h : Header) (dst_file : List ℕ) (fd : Option ℕ)
        → Preserves IsSoundState (fill_regular uninit h dst_file fd)
    unfolding fill_regular
    fill_regular-Preserves h dst_file none = λ s p. p
    fill_regular-Preserves h dst_file (some ino) =
        then-Preserves IsSoundState _ _ (on_backup-Preserves (copy h false uninit)) (
          then-Preserves IsSoundState (keep ino) _ (keep-Preserves ino) (
            then-Preserves IsSoundState _ _ (on_backup-Preserves fsync) (
              bind-Preserves IsSoundState _ _ (on_backup-Preserves close)
                (λ refused. throw_if-Preserves IsSoundState refused _))))

    make_regular-Preserves :
        (h : Header) (dst_file : List ℕ) → Preserves IsSoundState (make_regular uninit h dst_file)
    unfolding make_regular open_regular
    make_regular-Preserves h dst_file =
        bind-Preserves IsSoundState (open_regular dst_file) _
          (λ s p. open_entry-Leaves dst_file (s.target.entry dst_file) s p)
          (λ fd. fill_regular-Preserves h dst_file fd)

    -- A second name of an inode that has one.
    link_regular-Preserves :
        (h : Header) (dst_file : List ℕ) (o : Option (List ℕ))
        → Preserves IsSoundState (link_regular uninit h dst_file o)
    unfolding link_regular
    link_regular-Preserves h dst_file none s p = make_regular-Preserves h dst_file _ p
    link_regular-Preserves h dst_file (some old) s p =
        bind-Leaves IsSoundState
          (target_call (λ t. can_link t old dst_file)
            (λ t. add_entry dst_file (entry_or (t.entry old)) t) s)
          _ (target_call-Leaves _ _ s p (link-IsSafe t0 old dst_file s.target p))
          (λ refused. throw_if-Preserves IsSoundState refused _)

    unpack_reg-Preserves :
        (h : Header) (dst_file : List ℕ) → Preserves IsSoundState (unpack_reg uninit h dst_file)
    unfolding unpack_reg
    unpack_reg-Preserves h dst_file s p =
        if-Leaves IsSoundState (ltb 1 h.st_nlink) _ _ (link_regular-Preserves h dst_file _ s p)
          (make_regular-Preserves h dst_file s p)

    unpack_one-Preserves :
        (dir : List ℕ) (h : Header) → Preserves IsSoundState (unpack_one uninit dir h)
    unfolding unpack_one unpack_dir unpack_fifo unpack_slnk
    unpack_one-Preserves dir h =
        let dst_file = dir ++ h.file_path in
        if-Preserves IsSoundState (is_dir h.st_mode) _ _
          (refused-Preserves dst_file directory _ refl)
          (if-Preserves IsSoundState (is_reg h.st_mode) _ _ (unpack_reg-Preserves h dst_file) (
            if-Preserves IsSoundState (is_fifo h.st_mode) _ _
              (refused-Preserves dst_file fifo _ refl)
              (if-Preserves IsSoundState (is_lnk h.st_mode) _ _
                (refused-Preserves dst_file (symbolic h.ln_path) _ refl) (λ s p. p))))

    caught-Leaves :
        (o : Outcome UnpackState (Unit {0}))
        → Leaves IsSoundState o
        → Leaves IsSoundState (caught uninit o)
    caught-Leaves (ok a s) h = h
    caught-Leaves (throw e s) h = h
    caught-Leaves (throw_value e s) h = h
    caught-Leaves undefined h = tt
    caught-Leaves stuck h = tt

    extract_round-Preserves :
        (dir : List ℕ) (again : Io UnpackState (Unit {0})) (r : Parsed)
        → Preserves IsSoundState again
        → Preserves IsSoundState (extract_round uninit dir again r)
    unfolding extract_round
    extract_round-Preserves dir again (parsed h) k s p =
        bind-Leaves IsSoundState _ _ (caught-Leaves _ (unpack_one-Preserves dir h s p)) (λ _. k)
    extract_round-Preserves dir again at_end k s p = p
    extract_round-Preserves dir again failed k s p = p

    extract_fuel-Preserves :
        (fuel fd : ℕ) (dir : List ℕ) → Preserves IsSoundState (extract_fuel uninit fuel fd dir)
    unfolding extract_fuel
    extract_fuel-Preserves zero fd dir = λ s p. tt
    extract_fuel-Preserves (suc fuel) fd dir =
        bind-Preserves IsSoundState _ _ (on_backup-Preserves (deserialize (pos fd)))
          (λ r. extract_round-Preserves dir _ r (extract_fuel-Preserves fuel fd dir))

    pub extract-Preserves : (fd : ℕ) (dir : List ℕ) → Preserves IsSoundState (extract uninit fd dir)
    unfolding extract
    extract-Preserves fd dir s p = extract_fuel-Preserves (suc (length s.backup.input)) fd dir s p

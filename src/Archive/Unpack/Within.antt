-- ===== src/Archive/Unpack/Within.antt =====
-- src/unpack.cpp, `UnpackDir`, `UnpackReg`, `UnpackFifo` and `UnpackSlnk`: what they leave of the archive, and how
-- they end, with any failing calls.
use data_backup.Base.{
  ℕ, zero, suc, ◌-◌, ◌≤◌, Bool, true, false, List, [], ◌∷◌, Option, none, some, ◌==◌, leb, length,
  length-drop, take, arith, if◌then◌else◌,
}
use data_backup.Io.{
  Io, Outcome, Streams, BaseException, ok, throw, throw_value, undefined, stuck, bind, throw_if,
  pure, call_with, read, write, system_call, fsync, close, differs,
}
use data_backup.Archive.Header.{Header}
use data_backup.Utils.Copy.{
  write_block, write_negative, copy_block, copy_round, copy_blocks, copy, cp_block_size,
  error_writing,
}
use data_backup.World.Files.{Entry, Target, set_contents}
use data_backup.Archive.Tree.{UnpackState, with_backup, on_backup, answer, target_call, create}
use data_backup.Archive.Unpack.{fill_regular}

-- At most `n` of the archive is left, or a `CopyException` flies; it is stuck only for the reason `W`.
module _ {S : Type 0} (left : S → ℕ) (W : Type 0) (n : ℕ) where
  abbrev pub Within : {A : Type 0} → Outcome S A → Type 0
  Within (ok a s) = left s ≤ n
  Within (throw e s) = left s ≤ n
  Within (throw_value e s) = Unit {0}
  Within undefined = ⊥
  Within stuck = W

  pub bind-Within :
      {A B : Type 0} (m : Outcome S A) (f : A → Io S B)
      → Within m
      → ((a : A) (s : S) → left s ≤ n → Within (f a s))
      → Within (bind m f)
  bind-Within (ok a s) f h k = k a s h
  bind-Within (throw e s) f h k = h
  bind-Within (throw_value e s) f h k = tt
  bind-Within undefined f h k = absurd h
  bind-Within stuck f h k = h

  throw_if-Within : (b : Bool) (e : BaseException) (s : S) → left s ≤ n → Within (throw_if b e s)
  throw_if-Within true e s h = h
  throw_if-Within false e s h = h

abbrev input_left : Streams → ℕ
input_left s = length s.input

abbrev pub archive_left : UnpackState → ℕ
archive_left s = length s.backup.input

module _ (W : Type 0) (n : ℕ) where
  abbrev Reads : {A : Type 0} → Outcome Streams A → Type 0
  Reads = Within input_left W n

  abbrev pub Unpacks : {A : Type 0} → Outcome UnpackState A → Type 0
  Unpacks = Within archive_left W n

  call_with-Reads :
      {A : Type 0} (faults : List Bool) (failure : A) (result : Streams → A)
      (effect : Streams → Streams) (s : Streams)
      → length s.input ≤ n
      → length (effect s).input ≤ n
      → Reads (call_with faults failure result effect s)
  call_with-Reads [] failure result effect s h k = k
  call_with-Reads (true ∷ later) failure result effect s h k = h
  call_with-Reads (false ∷ later) failure result effect s h k = k

  -- A call that does not read.
  system_call-Reads :
      {A : Type 0} (failure : A) (result : Streams → A) (effect : Streams → Streams) (s : Streams)
      → length s.input ≤ n
      → length (effect s).input ≤ n
      → Reads (system_call failure result effect s)
  system_call-Reads failure result effect s = call_with-Reads s.faults failure result effect s

  with_backup-Unpacks :
      {A : Type 0} (s : UnpackState) (m : Outcome Streams A) → Reads m → Unpacks (with_backup s m)
  with_backup-Unpacks s (ok a b) h = h
  with_backup-Unpacks s (throw e b) h = h
  with_backup-Unpacks s (throw_value e b) h = h
  with_backup-Unpacks s undefined h = h
  with_backup-Unpacks s stuck h = h

  write_block-Reads :
      (h : Header) (bytes : List ℕ) (s : Streams)
      → length s.input ≤ n
      → Reads (write_block h bytes s)
  unfolding write_block write
  write_block-Reads h bytes s le =
      bind-Within input_left W n (write bytes s) _ (system_call-Reads _ _ _ s le le)
        λ k s' le'. written (differs k (length bytes)) s' le'
    where
      written :
          (b : Bool) (s' : Streams)
          → length s'.input ≤ n
          → Reads ((if b then error_writing h else pure tt) s')
      written true s' le' = tt
      written false s' le' = le'

  write_negative-Reads :
      (h : Header) (k : ℕ) (s : Streams) → length s.input ≤ n → Reads (write_negative h k s)
  unfolding write_negative
  write_negative-Reads h k s le =
      bind-Within input_left W n (system_call tt (λ s. tt) (λ s. s) s) _
        (system_call-Reads _ _ _ s le le) λ _ s' le'. written (k == 1) s' le'
    where
      written :
          (b : Bool) (s' : Streams)
          → length s'.input ≤ n
          → Reads ((if b then pure tt else error_writing h) s')
      written true s' le' = le'
      written false s' le' = tt

  -- Out of the archive.
  copy_block-Reads :
      (h : Header) (is_last : Bool) (bytes buf : List ℕ) (s : Streams)
      → length s.input ≤ n
      → Reads (copy_block h false is_last bytes buf s)
  unfolding copy_block
  copy_block-Reads h false bytes buf s le = write_block-Reads h bytes s le
  copy_block-Reads h true bytes buf s le = cut (leb h.padding (length bytes))
    where
      cut :
          (b : Bool)
          → Reads (
              (if b
                  then write_block h (take (length bytes - h.padding) bytes)
                  else write_negative h (h.padding - length bytes))
                s)
      cut true = write_block-Reads h _ s le
      cut false = write_negative-Reads h _ s le

  copy_round-Reads :
      (h : Header) (is_last : Bool) (again : List ℕ → Io Streams (Unit {0})) (buf : List ℕ)
      (o : Option (List ℕ)) (s : Streams)
      → ((buf : List ℕ) (s : Streams) → length s.input ≤ n → Reads (again buf s))
      → length s.input ≤ n
      → Reads (copy_round h false is_last again buf o s)
  unfolding copy_round
  copy_round-Reads h is_last again buf none s more le = tt
  copy_round-Reads h is_last again buf (some bytes) s more le =
      bind-Within input_left W n (copy_block h false is_last bytes buf s) _
        (copy_block-Reads h is_last bytes buf s le) (λ _ s' le'. more _ s' le')

  copy_blocks-Reads :
      (h : Header) (k : ℕ) (buf : List ℕ) (s : Streams)
      → length s.input ≤ n
      → Reads (copy_blocks h false k buf s)
  unfolding copy_blocks read
  copy_blocks-Reads h zero buf s le = le
  copy_blocks-Reads h (suc k) buf s le =
      bind-Within input_left W n (read cp_block_size s) _
        (system_call-Reads _ _ _ s le (omega (arith, le, length-drop cp_block_size s.input)))
        (λ bytes s' le'. copy_round-Reads h (k == 0) _ buf bytes s' (copy_blocks-Reads h k) le')

  copy-Unpacks :
      (h : Header) (uninit : List ℕ) (s : UnpackState)
      → archive_left s ≤ n
      → Unpacks (on_backup (copy h false uninit) s)
  unfolding copy
  copy-Unpacks h uninit s le =
      with_backup-Unpacks s (copy_blocks h false h.block_num uninit s.backup)
        (copy_blocks-Reads h h.block_num uninit s.backup le)

  pub target_call-Unpacks :
      (allowed : Target → Bool) (effect : Target → Target) (s : UnpackState)
      → archive_left s ≤ n
      → Unpacks (target_call allowed effect s)
  unfolding target_call
  target_call-Unpacks allowed effect s le = answered s.backup.faults (allowed s.target)
    where
      answered : (faults : List Bool) (b : Bool) → Unpacks (answer faults b effect s)
      answered [] true = le
      answered [] false = le
      answered (true ∷ later) b = le
      answered (false ∷ later) true = le
      answered (false ∷ later) false = le

  pub create-Unpacks :
      (path : List ℕ) (e : Entry) (s : UnpackState) → archive_left s ≤ n → Unpacks (create path e s)
  unfolding create
  create-Unpacks path e s = target_call-Unpacks _ _ s

  pub checked-Unpacks :
      (m : Outcome UnpackState Bool) (e : BaseException)
      → Unpacks m
      → Unpacks (bind m (λ refused. throw_if refused e))
  checked-Unpacks m e h =
      bind-Within archive_left W n m _ h
        (λ refused s le. throw_if-Within archive_left W n refused e s le)

  pub fill_regular-Unpacks :
      (uninit : List ℕ) (h : Header) (path : List ℕ) (fd : Option ℕ) (s : UnpackState)
      → archive_left s ≤ n
      → Unpacks (fill_regular uninit h path fd s)
  unfolding fill_regular fsync close
  fill_regular-Unpacks uninit h path none s le = le
  fill_regular-Unpacks uninit h path (some ino) s le =
      bind-Within archive_left W n (on_backup (copy h false uninit) s) _
        (copy-Unpacks h uninit s le)
        λ _ s1 le1.
          bind-Within archive_left W n (on_backup fsync (kept s1)) _
            (with_backup-Unpacks (kept s1) (fsync s1.backup)
              (system_call-Reads _ _ _ s1.backup le1 le1))
            λ _ s2 le2.
              checked-Unpacks (on_backup close s2) _ (
                with_backup-Unpacks s2 (close s2.backup)
                  (system_call-Reads _ _ _ s2.backup le2 le2))
    where
      kept : UnpackState → UnpackState
      kept s1 = record s1 { target = set_contents ino s1.backup.out s1.target }

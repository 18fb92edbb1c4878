-- ===== src/Archive/Unpack/Ends.antt =====
-- src/unpack.cpp, `Extract`: the runs of its loop as a relation.
use data_backup.Base.{ℕ, ◌≡◌, true, List, ◌++◌, pos}
use data_backup.Io.{Outcome, BaseException, ok, throw_value, stuck}
use data_backup.Archive.Header.{Header, Parsed, parsed, at_end, failed, deserialize}
use data_backup.Archive.Tree.{UnpackState, on_backup}
use data_backup.Archive.Unpack.{unpack_one, caught}
use data_backup.Archive.Unpack.Gives.{Gives}
use data_backup.Archive.Unpack.Rounds.{is_special}

module _ (uninit : List ℕ) (fd : ℕ) (dir : List ℕ) where
  abbrev next_header : UnpackState → Outcome UnpackState Parsed
  next_header = on_backup (deserialize (pos fd))

  -- The ways in which a run of the loop goes, without fuel.
  pub data Extracts : UnpackState → Outcome UnpackState (Unit {0}) → Type 0 where
    reaches_end : (s s1 : UnpackState) → next_header s ≡ ok at_end s1 → Extracts s (ok tt s1)
    meets_unreadable : (s s1 : UnpackState) → next_header s ≡ ok failed s1 → Extracts s (ok tt s1)
    -- A file is made, or the exception is kept.
    goes_on :
        (s s1 s2 : UnpackState) (h : Header) (o : Outcome UnpackState (Unit {0}))
        → next_header s ≡ ok (parsed h) s1
        → caught uninit (unpack_one uninit dir h s1) ≡ ok tt s2
        → Extracts s2 o
        → Extracts s o
    -- The exception of `Copy`.
    breaks_off :
        (s s1 s2 : UnpackState) (h : Header) (e : BaseException)
        → next_header s ≡ ok (parsed h) s1
        → unpack_one uninit dir h s1 ≡ throw_value e s2
        → Extracts s (throw_value e s2)
    -- A regular file is to be opened where a FIFO or a link stands.
    meets_special :
        (s s1 : UnpackState) (h : Header)
        → next_header s ≡ ok (parsed h) s1
        → unpack_one uninit dir h s1 ≡ stuck
        → is_special (s1.target.entry (dir ++ h.file_path)) ≡ true
        → Extracts s stuck

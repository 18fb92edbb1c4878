-- ===== src/Archive/Tree.antt =====
-- The file system that src/unpack.cpp writes to, and its system calls.
use data_backup.Base.{
  ℕ, Bool, true, false, List, [], ◌∷◌, Option, none, some, ◌&&◌, not, if◌then◌else◌,
}
use data_backup.Io.{
  Io, Outcome, Streams, BaseException, ok, throw, throw_value, undefined, stuck, bind,
  unpack as unpack_class, pure,
}
use data_backup.World.Files.{
  Entry, directory, regular, fifo, symbolic, Target, can_create, add_entry, set_contents,
  fresh_file, ino_unless,
}

-- `backup` is the archive, and the regular file that is open; its `faults` serve all system calls.
pub record UnpackState : Type 0 where
  pub backup : Streams
  pub target : Target
  pub hard_lk_map : List (ℕ × List ℕ)
  pub errs : List BaseException

abbrev pub error : List ℕ → List ℕ → BaseException
error file_nm msg = record { class_of = unpack_class; file_nm = file_nm; msg = msg }

abbrev pub with_backup : {A : Type 0} → UnpackState → Outcome Streams A → Outcome UnpackState A
with_backup s (ok a b) = ok a (record s { backup = b })
with_backup s (throw e b) = throw e (record s { backup = b })
with_backup s (throw_value e b) = throw_value e (record s { backup = b })
with_backup s undefined = undefined
with_backup s stuck = stuck

abbrev pub on_backup : {A : Type 0} → Io Streams A → Io UnpackState A
on_backup m s = with_backup s (m s.backup)

-- A system call on the target: it returns -1, `true`, if it is not allowed or the next fault says so.
abbrev pub answer : List Bool → Bool → (Target → Target) → Io UnpackState Bool
answer [] allowed effect s =
    if allowed then ok false (record s { target = effect s.target }) else ok true s
answer (fault ∷ later) allowed effect s =
    let s' = record s { backup = record s.backup { faults = later } } in
    if not fault && allowed then ok false (record s' { target = effect s.target }) else ok true s'

unfoldable pub target_call : (Target → Bool) → (Target → Target) → Io UnpackState Bool
target_call allowed effect s = answer s.backup.faults (allowed s.target) effect s

unfoldable pub create : List ℕ → Entry → Io UnpackState Bool
create path e = target_call (λ t. can_create t path) (add_entry path e)

-- The open file starts empty.
abbrev pub rewound : UnpackState → UnpackState
rewound s = record s { backup = record s.backup { out = []; pos = 0 } }

-- `open(..., O_RDWR | O_CREAT | O_TRUNC, ...)`: the inode, or `none` for -1. A FIFO or a symbolic link
-- of that name is outside the model.
unfoldable pub open_entry : List ℕ → Option Entry → Io UnpackState (Option ℕ)
unfolding target_call
open_entry path none s =
    bind (target_call (λ t. can_create t path) (fresh_file path) (rewound s))
      (λ refused. pure (ino_unless s.target.next_ino refused))
open_entry path (some directory) s =
    bind (target_call (λ t. false) (λ t. t) s) (λ refused. pure none)
open_entry path (some (regular ino)) s =
    bind (target_call (λ t. true) (set_contents ino []) (rewound s))
      (λ refused. pure (ino_unless ino refused))
open_entry path (some fifo) s = stuck
open_entry path (some (symbolic to)) s = stuck

unfoldable pub open_regular : List ℕ → Io UnpackState (Option ℕ)
open_regular path s = open_entry path (s.target.entry path) s

-- ===== src/World/Calls.antt =====
-- System calls on files by path. A call fails if the next fault says so, and then changes nothing.
use data_backup.Base.{
  ℕ, Bool, true, false, List, [], ◌∷◌, Option, none, some, str_eq, if◌then◌else◌,
}
use data_backup.Io.{Io, Outcome, ok, throw, throw_value, undefined, stuck}
use data_backup.World.Files.{
  Entry, directory, regular, fifo, symbolic, Target, can_create, set_contents, fresh_file,
}

pub record World : Type 0 where
  pub target : Target
  -- One entry for each coming system call, as in `Streams`.
  pub faults : List Bool

-- A run on a part of the state, and the state that it leaves behind.
abbrev pub map_state : {S T A : Type 0} → (T → S) → Outcome T A → Outcome S A
map_state f (ok a t) = ok a (f t)
map_state f (throw e t) = throw e (f t)
map_state f (throw_value e t) = throw_value e (f t)
map_state f undefined = undefined
map_state f stuck = stuck

abbrev pub answer_with :
    {A : Type 0} → List Bool → A → (Target → A) → (Target → Target) → Io World A
answer_with [] failure result effect w =
    ok (result w.target) (record w { target = effect w.target })
answer_with (true ∷ later) failure result effect w = ok failure (record w { faults = later })
answer_with (false ∷ later) failure result effect w =
    ok (result w.target) (record { target = effect w.target; faults = later })

-- `failure` is what the call returns if the next fault says so.
abbrev pub file_call : {A : Type 0} → A → (Target → A) → (Target → Target) → Io World A
file_call failure result effect w = answer_with w.faults failure result effect w

-- `lstat`: the errors ENOENT and others, or what the path names.
pub data Lstat : Type 0 where
  no_entry : Lstat
  lstat_failed : Lstat
  found : Entry → Lstat

abbrev pub lstat_of : Option Entry → Lstat
lstat_of none = no_entry
lstat_of (some e) = found e

unfoldable pub lstat : List ℕ → Io World Lstat
lstat path = file_call lstat_failed (λ t. lstat_of (t.entry path)) (λ t. t)

abbrev pub is_regular : Entry → Bool
is_regular directory = false
is_regular (regular ino) = true
is_regular fifo = false
is_regular (symbolic path) = false

-- `open(path, O_RDONLY)` and `open(path, O_WRONLY | O_APPEND)`: the inode, or `none` for -1. Opening a
-- directory, a FIFO or a symbolic link is outside the model.
unfoldable pub open_entry : Option Entry → Io World (Option ℕ)
open_entry none = file_call none (λ t. none) (λ t. t)
open_entry (some directory) = λ w. stuck
open_entry (some (regular ino)) = file_call none (λ t. some ino) (λ t. t)
open_entry (some fifo) = λ w. stuck
open_entry (some (symbolic path)) = λ w. stuck

unfoldable pub open_existing : List ℕ → Io World (Option ℕ)
open_existing path w = open_entry (w.target.entry path) w

-- `open(path, O_WRONLY | O_CREAT | O_TRUNC)`
unfoldable pub truncate_entry : List ℕ → Option Entry → Io World (Option ℕ)
truncate_entry path none =
    file_call none (λ t. if can_create t path then some t.next_ino else none)
      (λ t. if can_create t path then fresh_file path t else t)
truncate_entry path (some directory) = file_call none (λ t. none) (λ t. t)
truncate_entry path (some (regular ino)) = file_call none (λ t. some ino) (set_contents ino [])
truncate_entry path (some fifo) = λ w. stuck
truncate_entry path (some (symbolic to)) = λ w. stuck

unfoldable pub open_truncated : List ℕ → Io World (Option ℕ)
open_truncated path w = truncate_entry path (w.target.entry path) w

abbrev pub remove_entry : List ℕ → Target → Target
remove_entry path t = record t { entry = λ p. if str_eq p path then none else t.entry p }

-- `remove(path)`, whose result the code drops. Removing a directory is outside the model.
unfoldable pub remove_found : List ℕ → Option Entry → Io World (Unit {0})
remove_found path none = file_call tt (λ t. tt) (λ t. t)
remove_found path (some directory) = λ w. stuck
remove_found path (some (regular ino)) = file_call tt (λ t. tt) (remove_entry path)
remove_found path (some fifo) = file_call tt (λ t. tt) (remove_entry path)
remove_found path (some (symbolic to)) = file_call tt (λ t. tt) (remove_entry path)

-- The empty path names nothing.
unfoldable pub remove : List ℕ → Io World (Unit {0})
remove [] w = file_call tt (λ t. tt) (λ t. t) w
remove (c ∷ cs) w = remove_found (c ∷ cs) (w.target.entry (c ∷ cs)) w

-- `close`, with `true` for -1.
unfoldable pub close_file : Io World Bool
close_file = file_call true (λ t. false) (λ t. t)

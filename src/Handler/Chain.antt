-- ===== src/Handler/Chain.antt =====
-- inc/handler.h: `SetNext`, `IsEnd`, the forwarding `Handle`; the `try` block that each handler has
-- around its work, and `ShowErrs`.
use data_backup.Base.{
  ◌++◌, ℕ, Bool, true, false, List, [], ◌∷◌, Option, none, some, ℤ, pos, minus_one, or_code, ◌==◌,
  if◌then◌else◌,
}
use data_backup.Io.{
  Io, Outcome, Streams, BaseException, ok, throw, throw_value, undefined, stuck, bind, ◌>>=◌, ◌>>◌,
  pure, raise, throw_if, codes,
}
use data_backup.World.Files.{set_contents}
use data_backup.World.Calls.{
  World, map_state, Lstat, no_entry, lstat_failed, found, lstat, is_regular, open_existing,
  open_truncated, remove,
}

-- The members of a handler at work: its two descriptors, as inodes, and `dst_file_`.
pub record Job : Type 0 where
  pub world : World
  pub source : ℕ
  pub sink : ℕ
  pub dst_file : List ℕ

abbrev pub on_world : {A : Type 0} → Io World A → Io Job A
on_world m j = map_state (λ w. record j { world = w }) (m j.world)

abbrev pub streams_of : Job → Streams
streams_of j = record {
  input = j.world.target.contents j.source;
  whole = j.world.target.contents j.source;
  out = j.world.target.contents j.sink;
  pos = 0;
  faults = j.world.faults;
}

-- What has been written is what the file holds.
abbrev pub after_streams : Job → Streams → Job
after_streams j s = record j {
  world = record { target = set_contents j.sink s.out j.world.target; faults = s.faults };
}

-- Work on the two open files. One file for both is outside the model.
unfoldable pub on_streams : {A : Type 0} → Io Streams A → Io Job A
on_streams m j =
    if j.source == j.sink then stuck else map_state (after_streams j) (m (streams_of j))

-- The handlers behind one: `next_handler_`, or `none` for a null pointer.
abbrev pub Next : Type 0
Next = Option (List ℕ → List ℕ → Io World ℤ)

-- `BaseHandler::Handle`; what it prints is left out.
unfoldable pub forward : Next → List ℕ → List ℕ → Io World ℤ
forward none src dst = pure (pos 0)
forward (some handle) src dst = handle src dst

abbrev pub is_end : Next → Bool
is_end none = true
is_end (some handle) = false

-- `ShowErrs`; what it prints is left out.
unfoldable pub show_errs : List BaseException → ℤ
show_errs [] = pos 0
show_errs (err ∷ errs) = minus_one

-- A handler that has just been made.
abbrev pub new_job : World → Job
new_job w = record { world = w; source = 0; sink = 0; dst_file = [] }

-- `catch(BaseException *err)`: `dst_file_`, and `errs_`.
abbrev pub tried : Outcome Job (Unit {0}) → Outcome World (List ℕ × List BaseException)
tried (ok a j) = ok (j.dst_file, []) j.world
tried (throw e j) = ok (j.dst_file, e ∷ []) j.world
tried (throw_value e j) = throw_value e j.world
tried undefined = undefined
tried stuck = stuck

-- `Handle` of a handler that only shows its errors.
unfoldable pub handle_alone : Io Job (Unit {0}) → Io World ℤ
handle_alone work w = bind (tried (work (new_job w))) (λ r. pure (show_errs r.1))

-- `Handle` of a handler in a chain, with its file removed behind all but the last.
unfoldable pub handle_in_chain : Io Job (Unit {0}) → Next → List ℕ → Io World ℤ
unfolding forward show_errs
handle_in_chain work next dst w = bind (tried (work (new_job w))) λ r. (do
  err_code ← forward next r.0 dst
  if is_end next then pure tt else remove r.0
  pure (or_code err_code (show_errs r.1)))

-- The exceptions of one handler's `Init`.
pub record InitErrors : Type 0 where
  pub bad_path : BaseException
  pub missing : BaseException
  pub no_stat : BaseException
  pub not_regular : BaseException
  pub no_source : BaseException
  pub no_sink : List ℕ → BaseException

abbrev pub is_empty : List ℕ → Bool
is_empty [] = true
is_empty (c ∷ cs) = false

abbrev pub check_regular : InitErrors → Lstat → Io Job (Unit {0})
check_regular e no_entry = raise e.missing
check_regular e lstat_failed = raise e.no_stat
check_regular e (found entry) = if is_regular entry then pure tt else raise e.not_regular

abbrev pub or_raise : Option ℕ → BaseException → Io Job ℕ
or_raise none e = raise e
or_raise (some ino) e = pure ino

abbrev pub defined : Option (List ℕ) → Io Job (List ℕ)
defined none j = undefined
defined (some name) j = ok name j

abbrev pub modify : (Job → Job) → Io Job (Unit {0})
modify f j = ok tt (f j)

abbrev pub current_dst : Io Job (List ℕ)
current_dst j = ok j.dst_file j

-- What the four `Init` methods have in common: `name` is the name of the new file.
unfoldable pub open_files : InitErrors → List ℕ → Option (List ℕ) → Io Job (Unit {0})
open_files e src name = do
  throw_if (is_empty src) e.bad_path
  st ← on_world (lstat src)
  check_regular e st
  src_fd ← on_world (open_existing src)
  source ← or_raise src_fd e.no_source
  modify (λ j. record j { source = source })
  dst_file ← defined name
  modify (λ j. record j { dst_file = dst_file })
  dst_fd ← on_world (open_truncated dst_file)
  sink ← or_raise dst_fd (e.no_sink dst_file)
  modify (λ j. record j { sink = sink })

-- A handler that has no source: the packer, which opens the files itself.
unfoldable pub on_sink : {A : Type 0} → Io Streams A → Io Job A
on_sink m j = map_state (after_streams j) (m (record (streams_of j) { input = []; whole = [] }))

-- The file goes to `dst` at the end of the chain, and else to /tmp.
abbrev pub place : Next → List ℕ → Option (List ℕ) → Option (List ℕ)
place next dst none = none
place none dst (some name) = some (dst ++ codes "/" ++ name)
place (some handle) dst (some name) = some (codes "/tmp/" ++ name)

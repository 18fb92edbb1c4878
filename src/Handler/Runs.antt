-- ===== src/Handler/Runs.antt =====
-- The handlers of files at work while no system call fails: each stores one new file.
use data_backup.Base.{
  ℕ, ◌≡◌, refl, ap, ◌∙◌, true, false, List, [], ◌∷◌, none, some, pos, or_code, if◌then◌else◌, arith,
  ℤ,
}
use data_backup.Io.{Io, Streams, ok, stuck, streams, ◌>>◌}
use data_backup.World.Files.{Target, can_create, fresh_file}
use data_backup.World.Calls.{
  World, lstat, open_existing, open_entry, open_truncated, truncate_entry, remove, remove_found,
  remove_entry, map_state,
}
use data_backup.World.Invariant.{can_create-cases}
use data_backup.World.Store.{store, calm, HasFile, lt→other, same}
use data_backup.Handler.Chain.{
  Job, InitErrors, open_files, on_streams, handle_alone, handle_in_chain, new_job, is_empty,
  forward, show_errs, streams_of, after_streams,
}

-- The job once its files are open.
abbrev pub opened : ℕ → List ℕ → Target → Job
opened source dst_file t = record {
  world = calm (fresh_file dst_file t);
  source = source;
  sink = t.next_ino;
  dst_file = dst_file;
}

abbrev pub done : ℕ → List ℕ → List ℕ → Target → Job
done source dst_file bytes t = record {
  world = calm (store dst_file bytes t);
  source = source;
  sink = t.next_ino;
  dst_file = dst_file;
}

module _ (t : Target) (src xs dst_file : List ℕ) (f : HasFile t src xs)
    (some_src : is_empty src ≡ false) (may : can_create t dst_file ≡ true) where
  pub open_files_lem :
      (e : InitErrors)
      → open_files e src (some dst_file) (new_job (calm t)) ≡ ok tt (opened f.ino dst_file t)
  unfolding open_files lstat open_existing open_entry open_truncated truncate_entry
  open_files_lem e =
      let (free, _) = can_create-cases t dst_file may in
      rw some_src (rw f.named (rw f.named (rw free (rw may refl))))

  pub streams_lem : streams_of (opened f.ino dst_file t) ≡ streams xs xs [] 0
  streams_lem = rw (lt→other f.ino t.next_ino f.known) (rw (same t.next_ino) (rw f.holds refl))

  pub on_streams_lem :
      (m : Io Streams (Unit {0})) (rest whole bytes : List ℕ) (offset : ℕ)
      → m (streams xs xs [] 0) ≡ ok tt (streams rest whole bytes offset)
      → on_streams m (opened f.ino dst_file t) ≡ ok tt (done f.ino dst_file bytes t)
  unfolding on_streams
  on_streams_lem m rest whole bytes offset run =
      let j = opened f.ino dst_file t in
      let apart = lt→other f.ino t.next_ino f.known in
      ap (λ b. if b then stuck else map_state (after_streams j) (m (streams_of j))) apart
      ∙ ap (λ s. map_state (after_streams j) (m s)) streams_lem
      ∙ ap (map_state (after_streams j)) run

  -- The work between `Init` and the end of the `try` block.
  pub work_lem :
      (e : InitErrors) (m : Io Streams (Unit {0})) (rest whole bytes : List ℕ) (offset : ℕ)
      → m (streams xs xs [] 0) ≡ ok tt (streams rest whole bytes offset)
      → (open_files e src (some dst_file) >> on_streams m) (new_job (calm t))
        ≡ ok tt (done f.ino dst_file bytes t)
  work_lem e m rest whole bytes offset run =
      rw (open_files_lem e) (on_streams_lem m rest whole bytes offset run)

  pub handle_alone_lem :
      (work : Io Job (Unit {0})) (bytes : List ℕ)
      → work (new_job (calm t)) ≡ ok tt (done f.ino dst_file bytes t)
      → handle_alone work (calm t) ≡ ok (pos 0) (calm (store dst_file bytes t))
  unfolding handle_alone show_errs
  handle_alone_lem work bytes run = rw run refl

-- The last handler of a chain.
pub handle_last_lem :
    (t : Target) (source : ℕ) (work : Io Job (Unit {0})) (dst dst_file bytes : List ℕ)
    → work (new_job (calm t)) ≡ ok tt (done source dst_file bytes t)
    → handle_in_chain work none dst (calm t) ≡ ok (pos 0) (calm (store dst_file bytes t))
unfolding handle_in_chain forward show_errs or_code
handle_last_lem t source work dst dst_file bytes run = rw run refl

-- `remove` of a regular file.
pub remove_lem :
    (t : Target) (path ys : List ℕ)
    → is_empty path ≡ false
    → HasFile t path ys
    → remove path (calm t) ≡ ok tt (calm (remove_entry path t))
unfolding remove remove_found
remove_lem t [] ys some_path f = absurd (grind (arith, some_path))
remove_lem t (c ∷ cs) ys some_path f = rw f.named refl

-- A handler in front of another: that takes over its file, which is then removed.
pub handle_before_lem :
    (t : Target) (source : ℕ) (work : Io Job (Unit {0})) (handle : List ℕ → List ℕ → Io World ℤ)
    (dst dst_file bytes ys : List ℕ) (t' : Target)
    → work (new_job (calm t)) ≡ ok tt (done source dst_file bytes t)
    → handle dst_file dst (calm (store dst_file bytes t)) ≡ ok (pos 0) (calm t')
    → is_empty dst_file ≡ false
    → HasFile t' dst_file ys
    → handle_in_chain work (some handle) dst (calm t) ≡ ok (pos 0) (calm (remove_entry dst_file t'))
unfolding handle_in_chain forward show_errs or_code
handle_before_lem t source work handle dst dst_file bytes ys t' run next some_path f =
    rw run (rw next (rw (remove_lem t' dst_file ys some_path f) refl))

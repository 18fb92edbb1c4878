-- ===== src/Handler/Jobs.antt =====
-- inc/handler.h and the `Init` of the handlers of files: every name stays in place.
use data_backup.Base.{
  ℕ, Bool, true, false, List, [], ◌∷◌, Option, none, some, ◌==◌, ◌≡◌, refl, if◌then◌else◌,
}
use data_backup.Io.{
  Io, Outcome, Streams, BaseException, ok, throw, throw_value, undefined, stuck, raise, pure, ◌>>=◌,
  bind,
}
use data_backup.World.Files.{Target}
use data_backup.World.Calls.{
  World, map_state, Lstat, no_entry, lstat_failed, found, is_regular, lstat, open_existing,
  open_truncated,
}
use data_backup.World.Safe.{is_temporary, IsSafe, set_contents-IsSafe}
use data_backup.World.Runs.{
  Leaves, Preserves, bind-Preserves, then-Preserves, throw_if-Preserves, if-Preserves,
  map_state-Leaves, any-Leaves,
}
use data_backup.World.Kept.{
  IsSound, lstat-Preserves, open_existing-Preserves, open_truncated-Preserves,
}
use data_backup.Handler.Chain.{
  Job, Next, InitErrors, on_world, on_streams, on_sink, after_streams, streams_of, tried,
  check_regular, or_raise, defined, open_files, modify, is_empty,
}

-- A handler that is not the last removes its file, which is a temporary one.
abbrev pub Removable : Next → List ℕ → Type 0
Removable none dst_file = Unit {0}
Removable (some handle) dst_file = is_temporary dst_file ≡ true

module _ (t0 : Target) where
  module _ (next : Next) where
    -- A handler at work: the files are safe, and so is the removal of its own file.
    abbrev pub IsSoundJob : Job → Type 0
    IsSoundJob j = IsSafe t0 j.world.target × Removable next j.dst_file

    pub on_world-Preserves :
        {A : Type 0} (m : Io World A) → Preserves (IsSound t0) m → Preserves IsSoundJob (on_world m)
    on_world-Preserves m h j p =
        map_state-Leaves IsSoundJob (IsSound t0) (λ w. record j { world = w }) (m j.world)
          (λ w q. (q, p.1)) (h j.world p.0)

    -- Whatever is written to a file that is open.
    pub after_streams-Leaves :
        {A : Type 0} (j : Job) (o : Outcome Streams A)
        → IsSoundJob j
        → Leaves IsSoundJob (map_state (after_streams j) o)
    after_streams-Leaves j o p =
        map_state-Leaves IsSoundJob (λ s. Unit {0}) (after_streams j) o
          (λ s _. (set_contents-IsSafe t0 j.sink s.out j.world.target p.0, p.1)) (any-Leaves o)

    pub on_streams-Preserves : {A : Type 0} (m : Io Streams A) → Preserves IsSoundJob (on_streams m)
    unfolding on_streams
    on_streams-Preserves m j p = by_file (j.source == j.sink)
      where
        by_file :
            (same : Bool)
            → Leaves IsSoundJob
                ((if same then stuck else map_state (after_streams j) (m (streams_of j))))
        by_file true = tt
        by_file false = after_streams-Leaves j (m (streams_of j)) p

    pub on_sink-Preserves : {A : Type 0} (m : Io Streams A) → Preserves IsSoundJob (on_sink m)
    unfolding on_sink
    on_sink-Preserves m j p =
        after_streams-Leaves j (m (record (streams_of j) { input = []; whole = [] })) p

    pub check_regular-Preserves :
        (e : InitErrors) (st : Lstat) → Preserves IsSoundJob (check_regular e st)
    check_regular-Preserves e no_entry j p = p
    check_regular-Preserves e lstat_failed j p = p
    check_regular-Preserves e (found entry) j p =
        if-Preserves IsSoundJob (is_regular entry) (pure tt) (raise e.not_regular) (λ j p. p)
          (λ j p. p) j p

    pub or_raise-Preserves :
        (o : Option ℕ) (e : BaseException) → Preserves IsSoundJob (or_raise o e)
    or_raise-Preserves none e j p = p
    or_raise-Preserves (some ino) e j p = p

    pub defined-Preserves :
        {A : Type 0} (o : Option (List ℕ)) (f : List ℕ → Io Job A)
        → ((name : List ℕ) → o ≡ some name → Preserves IsSoundJob (f name))
        → Preserves IsSoundJob (defined o >>= f)
    defined-Preserves none f k = λ j p. tt
    defined-Preserves (some name) f k = k name refl

    pub named-Preserves :
        (dst_file : List ℕ)
        → Removable next dst_file
        → Preserves IsSoundJob (modify (λ j. record j { dst_file = dst_file }))
    named-Preserves dst_file r j p = (p.0, r)

    pub open_files-Preserves :
        (e : InitErrors) (src : List ℕ) (name : Option (List ℕ))
        → ((dst_file : List ℕ) → name ≡ some dst_file → Removable next dst_file)
        → Preserves IsSoundJob (open_files e src name)
    unfolding open_files
    open_files-Preserves e src name removable =
        then-Preserves IsSoundJob _ _ (throw_if-Preserves IsSoundJob (is_empty src) e.bad_path) (
          bind-Preserves IsSoundJob (on_world (lstat src)) _
            (on_world-Preserves (lstat src) (lstat-Preserves t0 src))
            λ st. then-Preserves IsSoundJob _ _ (check_regular-Preserves e st) (
              bind-Preserves IsSoundJob (on_world (open_existing src)) _
                (on_world-Preserves (open_existing src) (open_existing-Preserves t0 src))
                λ src_fd.
                  bind-Preserves IsSoundJob _ _ (or_raise-Preserves src_fd e.no_source) λ source.
                    then-Preserves IsSoundJob (modify (λ j. record j { source = source })) _
                      (λ j p. p)
                      (defined-Preserves name _ λ dst_file eq.
                        then-Preserves IsSoundJob (modify (λ j. record j { dst_file = dst_file })) _
                          (named-Preserves dst_file (removable dst_file eq))
                          (bind-Preserves IsSoundJob (on_world (open_truncated dst_file)) _
                            (on_world-Preserves (open_truncated dst_file)
                              (open_truncated-Preserves t0 dst_file))
                            λ dst_fd.
                              bind-Preserves IsSoundJob _ _
                                (or_raise-Preserves dst_fd (e.no_sink dst_file))
                                (λ sink. sunk sink)))))
      where
        sunk : (sink : ℕ) → Preserves IsSoundJob (modify (λ j. record j { sink = sink }))
        sunk sink j p = p

    pub after_tried :
        {A : Type 0} (o : Outcome Job (Unit {0})) (f : List ℕ × List BaseException → Io World A)
        → Leaves IsSoundJob o
        → ((dst_file : List ℕ) (errs : List BaseException)
            → Removable next dst_file
            → Preserves (IsSound t0) (f (dst_file, errs)))
        → Leaves (IsSound t0) (bind (tried o) f)
    after_tried (ok a j) f h k = k j.dst_file [] h.1 j.world h.0
    after_tried (throw e j) f h k = k j.dst_file (e ∷ []) h.1 j.world h.0
    after_tried (throw_value e j) f h k = h.0
    after_tried undefined f h k = tt
    after_tried stuck f h k = tt

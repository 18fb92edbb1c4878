-- ===== src/Utils/Mkdir/Kept.antt =====
-- src/utils.cpp, `RecurMkdir`: the file system stays sound.
use data_backup.Base.{
  ℕ, zero, suc, ◌+◌, ◌≡◌, Bool, List, [], ◌∷◌, Option, none, some, ◌==◌, length, drop, leb, arith,
}
use data_backup.Io.{pure}
use data_backup.World.Files.{Entry, directory, regular, fifo, symbolic, can_create, add_entry}
use data_backup.World.Safe.{add_entry-IsSafe}
use data_backup.World.Runs.{
  Preserves, bind-Preserves, then-Preserves, throw_if-Preserves, if-Preserves,
}
use data_backup.World.Kept.{IsSound, file_call-Leaves, query-Preserves, if_created}
use data_backup.Utils.Mkdir.{
  slash, index_of, access_entry, access, stat_is_dir, mkdir, ensure_dir, mkdir_loop, recur_mkdir,
}
use data_backup.World.Files.{Target}

module _ (t0 : Target) where
  access_entry-Preserves : (o : Option Entry) → Preserves (IsSound t0) (access_entry o)
  unfolding access_entry
  access_entry-Preserves none w h = (query-Preserves t0) _ _ w h
  access_entry-Preserves (some directory) w h = (query-Preserves t0) _ _ w h
  access_entry-Preserves (some (regular ino)) w h = (query-Preserves t0) _ _ w h
  access_entry-Preserves (some fifo) w h = (query-Preserves t0) _ _ w h
  access_entry-Preserves (some (symbolic to)) w h = tt

  pub access-Preserves : (path : List ℕ) → Preserves (IsSound t0) (access path)
  unfolding access
  access-Preserves path w = access_entry-Preserves (w.target.entry path) w

  pub stat_is_dir-Preserves :
      (uninit : Bool) (path : List ℕ) → Preserves (IsSound t0) (stat_is_dir uninit path)
  unfolding stat_is_dir
  stat_is_dir-Preserves uninit path = (query-Preserves t0) _ _

  no_inode : (ino : ℕ) → directory ≡ regular ino → ⊥
  no_inode ino h = absurd (grind (arith, h))

  mkdir-Preserves : (path : List ℕ) → Preserves (IsSound t0) (mkdir path)
  unfolding mkdir
  mkdir-Preserves path w h = file_call-Leaves t0 _ _ _ w h (
      if_created t0 path w.target (add_entry path directory w.target) (can_create w.target path) h
        (λ may.
          add_entry-IsSafe t0 path directory w.target h may (λ ino e. absurd (no_inode ino e))))

  ensure_dir-Preserves :
      (uninit : Bool) (dst token : List ℕ) → Preserves (IsSound t0) (ensure_dir uninit dst token)
  unfolding ensure_dir
  ensure_dir-Preserves uninit dst token =
      bind-Preserves (IsSound t0) (access token) _ (access-Preserves token) λ there.
        if-Preserves (IsSound t0) there _ _
          (bind-Preserves (IsSound t0) (stat_is_dir uninit token) _
            (stat_is_dir-Preserves uninit token) (λ is_dir. throw_if-Preserves (IsSound t0) _ _))
          (bind-Preserves (IsSound t0) (mkdir token) _ (mkdir-Preserves token)
            (λ refused. throw_if-Preserves (IsSound t0) _ _))

  mkdir_loop-Preserves :
      (fuel : ℕ) (uninit : Bool) (dst rest : List ℕ) (offset : ℕ)
      → Preserves (IsSound t0) (mkdir_loop fuel uninit dst rest offset)
  unfolding mkdir_loop
  mkdir_loop-Preserves zero uninit dst rest offset = λ w h. tt
  mkdir_loop-Preserves (suc fuel) uninit dst [] offset = λ w h. h
  mkdir_loop-Preserves (suc fuel) uninit dst (c ∷ cs) offset =
      let local = index_of slash (c ∷ cs) in
      if-Preserves (IsSound t0) (local == 0) _ _ (λ w h. h)
        (then-Preserves (IsSound t0) (ensure_dir uninit dst _) _ (ensure_dir-Preserves uninit dst _)
          (if-Preserves (IsSound t0) (leb (length dst) (offset + (local + 1))) (pure tt) _
            (λ w h. h)
            (mkdir_loop-Preserves fuel uninit dst (drop (local + 1) (c ∷ cs))
              (offset + (local + 1)))))

  pub recur_mkdir-Preserves :
      (uninit : Bool) (dst : List ℕ) → Preserves (IsSound t0) (recur_mkdir uninit dst)
  unfolding recur_mkdir
  recur_mkdir-Preserves uninit [] = λ w h. tt
  recur_mkdir-Preserves uninit (c ∷ cs) =
      mkdir_loop-Preserves (suc (length cs)) uninit (c ∷ cs) cs 0

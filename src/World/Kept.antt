-- ===== src/World/Kept.antt =====
-- The calls of World/Calls leave every name in place that is not temporary, however they end.
use data_backup.Base.{
  ℕ, Bool, true, false, ◌≡◌, refl, ap, List, [], ◌∷◌, Option, none, some, if◌then◌else◌,
}
use data_backup.World.Files.{
  Entry, directory, regular, fifo, symbolic, Target, can_create, fresh_file, is_directory,
}
use data_backup.World.Calls.{
  World, file_call, answer_with, open_entry, open_existing, truncate_entry, open_truncated,
  remove_found, remove, lstat, close_file,
}
use data_backup.World.Safe.{
  IsSafe, is_temporary, set_contents-IsSafe, fresh_file-IsSafe, remove_entry-IsSafe,
}
use data_backup.World.Runs.{Leaves, Preserves}

module _ (t0 : Target) where
  -- The files are a file system, and every name of `t0` that is not temporary is in place.
  abbrev pub IsSound : World → Type 0
  IsSound w = IsSafe t0 w.target

  pub answer_with-Leaves :
      {A : Type 0} (faults : List Bool) (failure : A) (result : Target → A)
      (effect : Target → Target) (w : World)
      → IsSound w
      → IsSafe t0 (effect w.target)
      → Leaves IsSound (answer_with faults failure result effect w)
  answer_with-Leaves [] failure result effect w h k = k
  answer_with-Leaves (true ∷ later) failure result effect w h k = h
  answer_with-Leaves (false ∷ later) failure result effect w h k = k

  pub file_call-Leaves :
      {A : Type 0} (failure : A) (result : Target → A) (effect : Target → Target) (w : World)
      → IsSound w
      → IsSafe t0 (effect w.target)
      → Leaves IsSound (file_call failure result effect w)
  file_call-Leaves failure result effect w h k =
      answer_with-Leaves w.faults failure result effect w h k

  -- A call that changes nothing.
  pub query-Preserves :
      {A : Type 0} (failure : A) (result : Target → A)
      → Preserves IsSound (file_call failure result (λ t. t))
  query-Preserves failure result w h = file_call-Leaves failure result (λ t. t) w h h

  pub lstat-Preserves : (path : List ℕ) → Preserves IsSound (lstat path)
  unfolding lstat
  lstat-Preserves path = query-Preserves _ _

  pub close_file-Preserves : Preserves IsSound close_file
  unfolding close_file
  close_file-Preserves = query-Preserves _ _

  open_entry-Preserves : (o : Option Entry) → Preserves IsSound (open_entry o)
  unfolding open_entry
  open_entry-Preserves none w h = query-Preserves _ _ w h
  open_entry-Preserves (some directory) w h = tt
  open_entry-Preserves (some (regular ino)) w h = query-Preserves _ _ w h
  open_entry-Preserves (some fifo) w h = tt
  open_entry-Preserves (some (symbolic to)) w h = tt

  pub open_existing-Preserves : (path : List ℕ) → Preserves IsSound (open_existing path)
  unfolding open_existing
  open_existing-Preserves path w = open_entry-Preserves (w.target.entry path) w

  -- What may be made is made.
  pub if_created :
      (path : List ℕ) (t t' : Target) (b : Bool)
      → IsSafe t0 t
      → (b ≡ true → IsSafe t0 t')
      → IsSafe t0 (if b then t' else t)
  if_created path t t' true h k = k refl
  if_created path t t' false h k = h

  truncate_entry-Preserves :
      (path : List ℕ) (o : Option Entry) → Preserves IsSound (truncate_entry path o)
  unfolding truncate_entry
  truncate_entry-Preserves path none w h = file_call-Leaves _ _ _ w h (
      if_created path w.target (fresh_file path w.target) (can_create w.target path) h
        (fresh_file-IsSafe t0 path w.target h))
  truncate_entry-Preserves path (some directory) w h = query-Preserves _ _ w h
  truncate_entry-Preserves path (some (regular ino)) w h =
      file_call-Leaves _ _ _ w h (set_contents-IsSafe t0 ino [] w.target h)
  truncate_entry-Preserves path (some fifo) w h = tt
  truncate_entry-Preserves path (some (symbolic to)) w h = tt

  pub open_truncated-Preserves : (path : List ℕ) → Preserves IsSound (open_truncated path)
  unfolding open_truncated
  open_truncated-Preserves path w = truncate_entry-Preserves path (w.target.entry path) w

  remove_found-Leaves :
      (path : List ℕ) (o : Option Entry) (w : World)
      → is_temporary path ≡ true
      → w.target.entry path ≡ o
      → IsSound w
      → Leaves IsSound (remove_found path o w)
  unfolding remove_found
  remove_found-Leaves path none w temporary e h = query-Preserves _ _ w h
  remove_found-Leaves path (some directory) w temporary e h = tt
  remove_found-Leaves path (some (regular ino)) w temporary e h =
      file_call-Leaves _ _ _ w h
        (remove_entry-IsSafe t0 path w.target h temporary (ap is_directory e))
  remove_found-Leaves path (some fifo) w temporary e h =
      file_call-Leaves _ _ _ w h
        (remove_entry-IsSafe t0 path w.target h temporary (ap is_directory e))
  remove_found-Leaves path (some (symbolic to)) w temporary e h =
      file_call-Leaves _ _ _ w h
        (remove_entry-IsSafe t0 path w.target h temporary (ap is_directory e))

  pub remove-Preserves :
      (path : List ℕ) → is_temporary path ≡ true → Preserves IsSound (remove path)
  unfolding remove
  remove-Preserves [] temporary = query-Preserves _ _
  remove-Preserves (c ∷ cs) temporary =
      λ w. remove_found-Leaves (c ∷ cs) (w.target.entry (c ∷ cs)) w temporary refl

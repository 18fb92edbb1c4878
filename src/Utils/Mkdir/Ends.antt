-- ===== src/Utils/Mkdir/Ends.antt =====
-- src/utils.cpp, `RecurMkdir`: the ways in which it ends.
use data_backup.Base.{ℕ, ◌≡◌, Bool, true, false, List, Option, none, some, take}
use data_backup.Io.{Io, Outcome, ok, throw, throw_value, undefined, stuck}
use data_backup.World.Files.{Entry, directory, regular, fifo, symbolic}
use data_backup.World.Calls.{World}

abbrev pub is_link : Option Entry → Bool
is_link none = false
is_link (some directory) = false
is_link (some (regular ino)) = false
is_link (some fifo) = false
is_link (some (symbolic to)) = true

module _ (dst : List ℕ) where
  -- No front part of the path names a symbolic link.
  abbrev pub HasNoLinks : World → Type 0
  HasNoLinks w = (n : ℕ) → is_link (w.target.entry (take n dst)) ≡ false

  -- A value, with no links yet, or an exception.
  abbrev Ends : {A : Type 0} → Outcome World A → Type 0
  Ends (ok a w) = HasNoLinks w
  Ends (throw e w) = Unit {0}
  Ends (throw_value e w) = ⊥
  Ends undefined = ⊥
  Ends stuck = ⊥

-- ===== src/Tests/Listings.antt =====
-- A listing of a directory, and the making of a directory with a failing call.
use data_backup.Base.{List, true, false, [], ◌∷◌, some, none, str_eq, if◌then◌else◌}
use data_backup.Io.{codes}
use data_backup.World.Files.{Target, directory}
use data_backup.World.Calls.{World}
use data_backup.Backend.Json.{DirEntry}
use data_backup.Backend.Requests.{Setting, BackEnd}
use data_backup.Tests.Archives.{note_tree, note_stat}
use data_backup.Tests.Handlers.{setting}
use data_backup.Tests.Backups.{request}

abbrev two_dirs : Target
two_dirs = record {
  entry = λ p.
      if str_eq p []
      then some directory
      else if str_eq p (codes "/w")
      then some directory
      else none;
  contents = λ ino. [];
  next_ino = 0;
}

-- The second call fails.
abbrev failing : World
failing = record { target = two_dirs; faults = false ∷ true ∷ [] }

-- A directory with one file.
abbrev listing : Setting
listing = record setting {
  tree = record note_tree {
    lstat = λ p. if str_eq p (codes "/d/a") then some note_stat else none;
    names = λ p. if str_eq p (codes "/d/") then some (codes "." ∷ codes "a" ∷ []) else none;
  };
}

abbrev list_it : BackEnd
list_it = request (codes "getList") [] []

abbrev shown : List DirEntry
shown = record { m_filename = codes "a"; m_filetype = codes "reg"; m_inode = 7; m_size = 3 } ∷ []

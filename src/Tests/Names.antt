-- ===== src/Tests/Names.antt =====
-- Names of the files that the handlers make.
use data_backup.Base.{◌≡◌, some, arith}
use data_backup.Io.{codes}
use data_backup.Utils.Paths.{base_name, rename_base, rename_base-append}

rename_base-append_example :
    (base_name (codes "/d.x/ab.pak") ≡ some (codes "ab.pak"))
    × (rename_base (codes "/d.x/ab.pak") (codes "cmp") ≡ some (codes "ab.cmp"))
rename_base-append_example =
    rename_base-append (codes "/d.x") (codes "ab") (codes "pak") (codes "cmp") (omega arith)
      (omega arith) (omega arith)

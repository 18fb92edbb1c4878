-- ===== src/Decompress/Handle.antt =====
-- src/decompresser.cpp: `Init` and `Handle`.
use data_backup.Base.{ℕ, List, ◌++◌, ℤ, some}
use data_backup.Io.{Io, BaseException, decompresse, new_exception, codes, ◌>>◌}
use data_backup.Huffman.{PriorityQueue}
use data_backup.World.Calls.{World}
use data_backup.Handler.Chain.{Job, InitErrors, open_files, on_streams, handle_alone}
use data_backup.Decompress.{decompress}

abbrev error : List ℕ → BaseException
error msg = new_exception decompresse msg

abbrev pub init_errors : List ℕ → InitErrors
init_errors src = record {
  bad_path = error (codes "bad path");
  missing = error (codes "no such file or directory: " ++ src);
  no_stat = error (codes "lstat failed on " ++ src);
  not_regular = error (codes "not a regular file: " ++ src);
  no_source = error (codes "open failed on " ++ src);
  no_sink = λ dst_file. error (codes "open failed on " ++ dst_file);
}

unfoldable pub init : List ℕ → List ℕ → Io Job (Unit {0})
init src dst = open_files (init_errors src) src (some dst)

-- The body of the `try` block; `decompress` is what follows `Init`.
unfoldable pub work : PriorityQueue → ℕ → List ℕ → List ℕ → Io Job (Unit {0})
work pq uninit src dst = do init src dst; on_streams (decompress pq src dst uninit)

unfoldable pub handle : PriorityQueue → ℕ → List ℕ → List ℕ → Io World ℤ
handle pq uninit src dst = handle_alone (work pq uninit src dst)

-- ===== src/Compress/Handle.antt =====
-- src/compresser.cpp: `Init` and `Handle`.
use data_backup.Base.{ℕ, List, ◌++◌, ℤ}
use data_backup.Io.{Io, BaseException, compresse, new_exception, codes, ◌>>=◌, ◌>>◌}
use data_backup.Huffman.{PriorityQueue}
use data_backup.Utils.Paths.{rename_base}
use data_backup.World.Calls.{World}
use data_backup.Handler.Chain.{
  Job, Next, InitErrors, open_files, on_streams, current_dst, handle_in_chain, place,
}
use data_backup.Compress.{compress}

abbrev error : List ℕ → BaseException
error msg = new_exception compresse msg

abbrev pub init_errors : List ℕ → InitErrors
init_errors src_file = record {
  bad_path = error (codes "bad path");
  missing = error (codes "no such file or directory: " ++ src_file);
  no_stat = error (codes "lstat failed on " ++ src_file);
  not_regular = error (codes "not a regular file: " ++ src_file);
  no_source = error (codes "open failed on " ++ src_file);
  no_sink = λ dst_file. error (codes "open failed on " ++ dst_file);
}

unfoldable pub init : Next → List ℕ → List ℕ → Io Job (Unit {0})
init next src_file dst =
    open_files (init_errors src_file) src_file (place next dst (rename_base src_file (codes "cmp")))

-- The body of the `try` block; `compress` is what follows `Init`.
unfoldable pub work : PriorityQueue → Next → List ℕ → List ℕ → Io Job (Unit {0})
work pq next src dst = do
  init next src dst
  dst_file ← current_dst
  on_streams (compress pq src dst_file)

unfoldable pub handle : PriorityQueue → Next → List ℕ → List ℕ → Io World ℤ
handle pq next src dst = handle_in_chain (work pq next src dst) next dst

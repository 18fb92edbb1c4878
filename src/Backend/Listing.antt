-- ===== src/Backend/Listing.antt =====
-- src/backend.cpp: the requests that only answer, and the choice of a request.
use data_backup.Base.{
  ℕ, ◌-◌, Bool, true, false, List, [], ◌∷◌, ◌++◌, Option, none, some, pos, length, take, str_eq,
  ◌||◌, if◌then◌else◌,
}
use data_backup.Io.{Io, undefined, codes, pure, ◌>>=◌}
use data_backup.Utils.Mkdir.{reg_path}
use data_backup.World.Calls.{World, file_call, close_file}
use data_backup.Archive.Pack.{Stat, is_dir, is_reg, is_fifo, is_lnk}
use data_backup.Backend.Json.{DirEntry, encode_entries, encode_path, decode, new_parser}
use data_backup.Backend.Requests.{
  Setting, BackEnd, new_backend, handle_encode, handle_decode, handle_copy,
}

-- What `st_buf` holds after `lstat`: if the call fails, what it held before.
abbrev pub stat_or : Stat → Option Stat → Stat
stat_or st none = st
stat_or st (some st') = st'

-- Other kinds of file are left out.
unfoldable pub file_type : Stat → Option (List ℕ)
file_type st =
    if is_dir st.st_mode
    then some (codes "dir")
    else if is_reg st.st_mode
    then some (codes "reg")
    else if is_fifo st.st_mode
    then some (codes "fifo")
    else if is_lnk st.st_mode
    then some (codes "symlink")
    else none

unfoldable pub entries_of : List ℕ → Stat → Option (List ℕ) → List DirEntry
entries_of d_name st none = []
entries_of d_name st (some m_filetype) =
    record {
      m_filename = d_name;
      m_filetype = m_filetype;
      m_inode = st.st_ino;
      m_size = st.st_size;
    }
    ∷ []

module _ (s : Setting) where
  open s use {json, tree, uninit_stat, uninit_seq}

  -- The rounds of `for(;;)`. A failing `readdir` ends them as the end of the directory does.
  unfoldable pub list_entries : List ℕ → List (List ℕ) → Stat → Io World (List DirEntry)
  list_entries abs_path [] st_buf = do failed ← file_call true (λ t. false) (λ t. t); pure []
  list_entries abs_path (d_name ∷ names) st_buf = do
    failed ← file_call true (λ t. false) (λ t. t)
    (if failed
        then pure []
        else if str_eq d_name (codes ".") || str_eq d_name (codes "..")
        then list_entries abs_path names st_buf
        else (do
          st ← file_call none (λ t. tree.lstat (abs_path ++ d_name)) (λ t. t)
          let st' = stat_or st_buf st
          rest ← list_entries abs_path names st'
          pure (entries_of d_name st' (file_type st') ++ rest)))

  unfoldable pub list_opened : BackEnd → Option (List (List ℕ)) → Io World BackEnd
  list_opened b none = pure (record b {
    err_code = pos 1;
    js_parser = encode_entries json b.js_parser (pos 1) b.dir_entries;
  })
  list_opened b (some names) = do
    found ← list_entries b.abs_path names uninit_stat
    failed ← close_file
    let dir_entries = b.dir_entries ++ found
    pure (record b {
      dir_entries = dir_entries;
      js_parser = encode_entries json b.js_parser b.err_code dir_entries;
    })

  -- `back()` of an empty path is not defined.
  unfoldable pub handle_get_list : BackEnd → List ℕ → Io World BackEnd
  handle_get_list b [] w = undefined
  handle_get_list b (c ∷ cs) w =
      let abs_path = reg_path (c ∷ cs) in
      (do
        names ← file_call none (λ t. tree.names abs_path) (λ t. t)
        list_opened (record b { abs_path = abs_path }) names)
        w

  unfoldable pub handle_get_pwd : BackEnd → BackEnd
  handle_get_pwd b = record b {
    js_parser = encode_path json b.js_parser b.err_code (take (length b.abs_path - 1) b.abs_path);
  }

  unfoldable pub is_decode : List ℕ → Bool
  is_decode method =
      str_eq method (codes "decrypt")
      || str_eq method (codes "uncompress")
      || str_eq method (codes "unpack")

  unfoldable pub dispatch : List ℕ → BackEnd → Io World BackEnd
  dispatch method b =
      if is_decode method
      then handle_decode s b
      else if str_eq method (codes "copy")
      then handle_copy s b
      else if str_eq method (codes "getList")
      then handle_get_list b b.js_parser.path
      else if str_eq method (codes "getPWD")
      then pure (handle_get_pwd b)
      else handle_encode s b

  -- `BackEnd::Handle`: the text that is sent back. `cwd` is what `getcwd` gives.
  unfoldable pub handle : List ℕ → List ℕ → Io World (List ℕ)
  handle cwd payload = do
    let parser = decode json (new_parser uninit_seq) payload
    b ← dispatch parser.method (new_backend (reg_path cwd) parser)
    pure b.js_parser.json_str

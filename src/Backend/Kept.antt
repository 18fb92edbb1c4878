-- ===== src/Backend/Kept.antt =====
-- src/backend.cpp: whatever a request asks for, and whatever fails, the file system stays sound.
use data_backup.Base.{ℕ, true, false, List, [], ◌∷◌, ◌++◌, Option, none, some, str_eq}
use data_backup.Io.{codes, pure}
use data_backup.World.Files.{Target}
use data_backup.World.Calls.{World, close_file}
use data_backup.World.Safe.{IsSafe}
use data_backup.World.Runs.{Leaves, Preserves, bind-Preserves, if-Preserves}
use data_backup.World.Invariant.{IsFileSystem}
use data_backup.World.Kept.{IsSound, query-Preserves, close_file-Preserves}
use data_backup.Utils.Mkdir.{reg_path}
use data_backup.Archive.Pack.{Stat}
use data_backup.Backend.Json.{decode, new_parser}
use data_backup.Backend.Requests.{Setting, BackEnd, new_backend}
use data_backup.Backend.Requests.Kept.{
  handle_encode-Preserves, handle_decode-Preserves, handle_copy-Preserves,
}
use data_backup.Backend.Listing.{
  stat_or, list_entries, list_opened, handle_get_list, is_decode, dispatch, handle,
}

module _ (t0 : Target) where
  module _ (s : Setting) where
    open s use {json, tree, uninit_stat, uninit_seq}

    list_entries-Preserves :
        (abs_path : List ℕ) (names : List (List ℕ)) (st : Stat)
        → Preserves (IsSound t0) (list_entries s abs_path names st)
    unfolding list_entries
    list_entries-Preserves abs_path [] st =
        bind-Preserves (IsSound t0) _ (λ failed. pure []) (query-Preserves t0 true (λ t. false))
          (λ failed w h. h)
    list_entries-Preserves abs_path (d_name ∷ names) st =
        bind-Preserves (IsSound t0) _ _ (query-Preserves t0 true (λ t. false)) λ failed.
          if-Preserves (IsSound t0) failed _ _ (λ w h. h)
            (if-Preserves (IsSound t0) _ _ _ (list_entries-Preserves abs_path names st) (
              bind-Preserves (IsSound t0) _ _
                (query-Preserves t0 none (λ t. tree.lstat (abs_path ++ d_name)))
                λ st'.
                  bind-Preserves (IsSound t0) (list_entries s abs_path names (stat_or st st')) _
                    (list_entries-Preserves abs_path names (stat_or st st')) (λ rest w h. h)))

    list_opened-Preserves :
        (b : BackEnd) (names : Option (List (List ℕ)))
        → Preserves (IsSound t0) (list_opened s b names)
    unfolding list_opened
    list_opened-Preserves b none = λ w h. h
    list_opened-Preserves b (some names) =
        bind-Preserves (IsSound t0) (list_entries s b.abs_path names uninit_stat) _
          (list_entries-Preserves b.abs_path names uninit_stat)
          λ found.
            bind-Preserves (IsSound t0) close_file _ (close_file-Preserves t0) (λ failed w h. h)

    handle_get_list-Preserves :
        (b : BackEnd) (path : List ℕ) → Preserves (IsSound t0) (handle_get_list s b path)
    unfolding handle_get_list
    handle_get_list-Preserves b [] w h = tt
    handle_get_list-Preserves b (c ∷ cs) w h =
        bind-Preserves (IsSound t0) _ _
          (query-Preserves t0 none (λ t. tree.names (reg_path (c ∷ cs))))
          (λ names. list_opened-Preserves _ names) w h

    dispatch-Preserves :
        (method : List ℕ) (b : BackEnd) → Preserves (IsSound t0) (dispatch s method b)
    unfolding dispatch
    dispatch-Preserves method b =
        if-Preserves (IsSound t0) (is_decode s method) _ _ (handle_decode-Preserves t0 s b) (
          if-Preserves (IsSound t0) (str_eq method (codes "copy")) _ _
            (handle_copy-Preserves t0 s b)
            (if-Preserves (IsSound t0) (str_eq method (codes "getList")) _ _
              (handle_get_list-Preserves b b.js_parser.path)
              (if-Preserves (IsSound t0) (str_eq method (codes "getPWD")) _ _ (λ w h. h)
                (handle_encode-Preserves t0 s b))))

-- For every setting, every payload, every file system and every row of failing calls: however
-- `BackEnd::Handle` ends, by an answer or by an exception, what it leaves is a file system again
-- (every inode that a name has has been given out, and every name stands in a directory), and every
-- name that does not begin with "/tmp/" and was there names the same file, directory, FIFO or link.
pub handle-IsSafe :
    (s : Setting) (cwd payload : List ℕ) (w : World)
    → IsFileSystem w.target
    → Leaves (λ w'. IsSafe w.target w'.target) (handle s cwd payload w)
unfolding handle
handle-IsSafe s cwd payload w sound =
    let parser = decode s.json (new_parser s.uninit_seq) payload in
    let b = new_backend (reg_path cwd) parser in
    bind-Preserves (IsSound w.target) (dispatch s parser.method b) _
      (dispatch-Preserves w.target s parser.method b) (λ b' w' h. h) w
      (record { sound = sound; stays = λ p e user was. was })

-- ===== src/Tests/Backups.antt =====
-- A backup of a file and its restoration, and a copy.
use data_backup.Base.{
  ℕ, ◌≡◌, refl, true, false, List, [], ◌++◌, some, none, pos, str_eq, arith, if◌then◌else◌,
}
use data_backup.Io.{ok, codes}
use data_backup.Huffman.ListQueue.{list_queue-IsLawful}
use data_backup.Utils.Paths.{base_name, after_last}
use data_backup.Utils.Mkdir.{
  reg_path, recur_mkdir, mkdir_loop, index_of, ensure_dir, access, access_entry, stat_is_dir, mkdir,
}
use data_backup.World.Files.{Target, directory, can_create}
use data_backup.World.Store.{calm, HasFile}
use data_backup.Backend.Requests.{BackEnd, new_backend, handle_encode, handle_decode, handle_copy}
use data_backup.Backend.RoundTrip.{handle_decode-handle_encode}
use data_backup.Backend.Copy.{handle_copy_lem}
use data_backup.Tests.Archives.{note_path, note_stat, note_IsRegularFile}
use data_backup.Tests.Handlers.{setting}

-- Three directories.
abbrev disk : Target
disk = record {
  entry = λ p.
      if str_eq p (codes "/tmp")
      then some directory
      else if str_eq p (codes "/w")
      then some directory
      else if str_eq p (codes "/r")
      then some directory
      else none;
  contents = λ ino. [];
  next_ino = 1;
}

abbrev pub request : List ℕ → List ℕ → List ℕ → BackEnd
request method src dst =
    new_backend (codes "/") (record {
      method = method;
      src = src;
      dst = dst;
      json_str = [];
      path = [];
      key = [];
      seq = 5;
    })

there : recur_mkdir false (codes "/w") (calm disk) ≡ ok tt (calm disk)
unfolding recur_mkdir mkdir_loop index_of ensure_dir access access_entry stat_is_dir mkdir
there = refl

in_r : reg_path (codes "/r") ≡ codes "/r/"
unfolding reg_path
in_r = refl

free : can_create disk (reg_path (codes "/r") ++ codes "a") ≡ true
free = rw in_r refl

apart :
    (p : List ℕ)
    → str_eq (codes "/r/a") p ≡ false
    → str_eq (reg_path (codes "/r") ++ codes "a") p ≡ false
apart p h = rw in_r h

name_a : base_name (codes "/a") ≡ some (codes "a")
unfolding base_name after_last
name_a = refl

name_cmp : base_name (codes "/w/a.cmp") ≡ some (codes "a.cmp")
unfolding base_name after_last
name_cmp = refl

abbrev encode_it : BackEnd
encode_it = request (codes "compress") note_path (codes "w")

abbrev decode_it : BackEnd
decode_it = request (codes "uncompress") (codes "/w/a.cmp") (codes "r")

handle_decode-handle_encode_example :
    (b' b'' : BackEnd) × (t' t'' : Target) × (bytes : List ℕ) × (handle_encode setting encode_it
        (calm disk)
      ≡ ok b' (calm t'))
    × (b'.err_code ≡ pos 0)
    × HasFile t' (codes "/w/a.cmp") bytes
    × (handle_decode setting decode_it (calm t') ≡ ok b'' (calm t''))
    × (b''.err_code ≡ pos 0)
    × HasFile t'' (reg_path (codes "/r") ++ codes "a") (codes "abc")
    × HasFile t'' (codes "/w/a.cmp") bytes
handle_decode-handle_encode_example =
    handle_decode-handle_encode setting list_queue-IsLawful encode_it decode_it disk disk note_stat
      (codes "ompress") (codes "a") (codes "a.cmp") (codes "abc") 2 note_IsRegularFile refl refl
      refl (omega arith) (omega arith) name_a there refl refl refl refl refl name_cmp refl free
      (apart (codes "/tmp/a.pak") refl) (apart (codes "/w/a.cmp") refl) refl refl refl
      (apart (codes "/tmp/a.cmp.dcmp") refl)

abbrev copy_it : BackEnd
copy_it = request (codes "copy") note_path (codes "r")

handle_copy_lem_example :
    (b' : BackEnd) × (t' : Target) × (handle_copy setting copy_it (calm disk) ≡ ok b' (calm t'))
    × (b'.err_code ≡ pos 0)
    × HasFile t' (reg_path (codes "/r") ++ codes "a") (codes "abc")
    × (t'.entry (codes "/tmp/a.pak") ≡ none)
handle_copy_lem_example =
    handle_copy_lem setting disk copy_it note_stat (codes "a") (codes "abc") 2 note_IsRegularFile
      refl refl name_a refl refl free (apart (codes "/tmp/a.pak") refl)

-- ===== src/Archive/Regular.antt =====
-- A regular file goes into the archive and comes out again.
use data_backup.Base.{
  ℕ, ◌+◌, ◌*◌, ◌<◌, ◌≡◌, refl, true, false, List, [], ◌++◌, some, none, length, replicate,
  append_assoc, ltb,
}
use data_backup.Io.{Streams, ok, streams, close_or_throw, fsync, close, BaseException}
use data_backup.Archive.Header.{Header}
use data_backup.Archive.Written.{IsSerializable, header_bytes, serialize_lem}
use data_backup.Archive.Pack.{
  my_block_size, SourceTree, Stat, write_header, restore_access_time, pack_contents, pack_regular,
}
use data_backup.Archive.Blocks.{pack_blocks_lem, copy_blocks_lem}
use data_backup.World.Files.{Target, can_create, fresh_file, set_contents}
use data_backup.Archive.Tree.{UnpackState, target_call, open_entry, open_regular}
use data_backup.Archive.Unpack.{fill_regular, make_regular}
use data_backup.Utils.Copy.{copy}

-- No links and no errors so far.
abbrev pub started : Streams → Target → UnpackState
started b t = record { backup = b; target = t; hard_lk_map = []; errs = [] }

-- The blocks of the header are those of the file.
pub record HasBlocks (h : Header) (xs : List ℕ) : Type 0 where
  pub filled : length xs + h.padding ≡ h.block_num * my_block_size
  pub partial : h.padding < my_block_size

abbrev pub block_bytes : Header → List ℕ → List ℕ
block_bytes h xs = xs ++ replicate h.padding 0

module _ (tree : SourceTree) (parent uninit : List ℕ) (dst_fd : ℕ) where
  pub write_header_lem :
      (src_file : List ℕ) (h : Header) (rest whole out : List ℕ)
      → IsSerializable h
      → write_header tree parent uninit dst_fd src_file h (streams rest whole out (length out))
        ≡ ok tt (streams rest whole (out ++ header_bytes h) (length (out ++ header_bytes h)))
  unfolding write_header
  write_header_lem src_file h rest whole out v = rw (serialize_lem h dst_fd rest whole out v) refl

  pub pack_contents_lem :
      (src_file xs : List ℕ) (h : Header) (rest whole out : List ℕ)
      → tree.contents src_file ≡ some xs
      → HasBlocks h xs
      → length uninit ≡ my_block_size
      → pack_contents tree parent uninit dst_fd src_file h (streams rest whole out (length out))
        ≡ ok tt (streams [] xs (out ++ block_bytes h xs) (length (out ++ block_bytes h xs)))
  unfolding pack_contents close_or_throw close restore_access_time
  pack_contents_lem src_file xs h rest whole out e b lu = rw e (
      rw (pack_blocks_lem src_file h.block_num h.padding xs uninit xs out b.filled b.partial lu)
        refl)

  -- A file with one link, or with a link count that has not been met.
  pub pack_regular_lem :
      (src_file xs : List ℕ) (st : Stat) (h : Header) (set rest whole out : List ℕ)
      → ltb 1 st.st_nlink ≡ false
      → tree.contents src_file ≡ some xs
      → IsSerializable h
      → HasBlocks h xs
      → length uninit ≡ my_block_size
      → let out' = out ++ (header_bytes h ++ block_bytes h xs) in
        pack_regular tree parent uninit dst_fd src_file st h set
          (streams rest whole out (length out))
        ≡ ok set (streams [] xs out' (length out'))
  unfolding pack_regular
  pack_regular_lem src_file xs st h set rest whole out one e v b lu = rw one (
      rw (write_header_lem src_file h rest whole out v) (
        rw (pack_contents_lem src_file xs h rest whole (out ++ header_bytes h) e b lu)
          (rw (append_assoc out) refl)))

module _ (uninit : List ℕ) where
  abbrev pub made : List ℕ → List ℕ → Target → Target
  made dst_file xs t = set_contents t.next_ino xs (fresh_file dst_file t)

  pub make_regular_lem :
      (h : Header) (dst_file xs after whole out : List ℕ) (o : ℕ) (t : Target)
      (links : List (ℕ × List ℕ)) (errs : List BaseException)
      → t.entry dst_file ≡ none
      → can_create t dst_file ≡ true
      → HasBlocks h xs
      → make_regular uninit h dst_file (record {
        backup = streams (xs ++ (replicate h.padding 0 ++ after)) whole out o;
        target = t;
        hard_lk_map = links;
        errs = errs;
      })
        ≡ ok tt (record {
          backup = streams after whole xs (length xs);
          target = made dst_file xs t;
          hard_lk_map = links;
          errs = errs;
        })
  unfolding make_regular open_regular open_entry target_call fill_regular copy fsync close
  make_regular_lem h dst_file xs after whole out o t links errs free may b = rw free (
      rw may (
        rw
          (copy_blocks_lem h h.block_num h.padding xs after uninit whole [] b.filled b.partial refl)
          refl))

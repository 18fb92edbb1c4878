-- ===== src/Lib.antt =====
-- DataBackup packs a file or a directory into one archive, compresses it with a Huffman code,
-- encrypts it with AES-CBC under a password, and undoes the three steps. Each step is a handler that
-- reads one file and writes another; the handlers of a backup form a chain.
--
-- Which module models which part:
--   Base         lists, tests and machine words that all parts share: an integer of w bits is a
--                number with its wrap-around written out, and its bytes are little-endian
--   Io           inc/exception_interface.h, the system calls on two open files, the read loops and
--                write buffers of the handlers
--   World        files by path, with directories, links and inodes, and the system calls on them
--   Utils        src/utils.cpp: SetBit, GetBit (Bits), Copy (Copy), BaseName, ReNameBase (Paths),
--                RegPath, RecurMkdir (Mkdir)
--   Huffman      src/huffman_tree.cpp: TreeNode, BuildHuffman, GenerateCoding
--   Compress     src/compresser.cpp: WordFreqCount to Clear; Init, Handle (Handle)
--   Decompress   src/decompresser.cpp: ReadHeader to Clear; Init, Handle (Handle)
--   Archive      src/header.cpp (Header, Reader), src/packer.cpp (Pack), src/unpack.cpp (Tree, Unpack);
--                the Init, Clear and Handle of packer and unpacker (Handle); the loop of Extract as
--                a relation (Unpack.Ends), directories with all below them (Forest)
--   Crypt        src/encrypt.cpp (Encrypt), src/decrypt.cpp (Decrypt); Init, Handle (Handle)
--   Handler      inc/handler.h and ShowErrs: the chain, and the try block of each handler (Chain)
--   Backend      src/json_parser.cpp (Json), src/backend.cpp: the flag byte at the end of a backup file
--                (Files), HandleEncode, HandleDecode, HandleCopy (Requests), HandleGetList,
--                HandleGetPWD and the choice of a request (Listing)
--   Sha          src/sha_hash.cpp: digests and their digits (Digest), the listing (Hasher)
-- A method of the code is the function of its name in snake case. It takes the members that it reads
-- and returns those that it sets. Work on two open files, one read and one written, is in the monad
-- `Io` over the state `Streams`; work on files by path is in the same monad over `World`. Both states
-- hold a list that says which of the coming system calls fail. `Job` is a handler at work: its world,
-- and the inodes behind its two descriptors. A result is a value, an exception thrown as a pointer, one
-- thrown by value (which no handler catches), undefined behaviour, or `stuck`.
--
-- `stuck` is a loop of the model that has run out of fuel. A read loop has a unit of fuel for each byte
-- of its source and one more, and each of its rounds but the last takes a byte. The packer and the
-- hasher have a unit for each level of directories, and the loops over an archive and over a path one
-- for each byte. The Huffman loops have a unit for each node of the heap and of the tree, and filling a
-- buffer up to whole blocks of AES, like rounding its size up, has 15. A regular file is read and
-- written in full unless the call fails. `stuck` also stands
-- for what the model leaves out: opening a directory, a FIFO or a symbolic link where a regular file is
-- read, opening a FIFO or a symbolic link as a target, removing a directory, and a handler whose source
-- is its own target. Paths are compared as texts, so that a doubled slash, or one behind the name of a
-- directory, names nothing. No path that `RegPath` or the unpacker completes with a slash is empty: the
-- source reads outside of an empty one.
--
-- Parameters stand for what is not in the repository: the priority queue of the C++ library (its
-- order among equal weights is open, `Huffman.PriorityQueue`), OpenSSL (`Crypt.Openssl`, `Sha.Digest`),
-- jsoncpp (`Backend.Json`), the file system below the sources of packer and hasher, which does not
-- change while they run (`Archive.Pack`), and what a local variable first holds.
--
-- Not modelled: src/m_server.cpp with src/main.cpp, which start the server of websocketpp, and
-- websocketpp itself, a copy of another project. What handlers print is left out, and so are access
-- rights and owners: the unpacker does not set them.
pub mod Base
pub mod Io
pub mod Utils
pub mod Huffman
pub mod Compress
pub mod Decompress
pub mod Archive
pub mod Crypt
pub mod World
pub mod Handler
pub mod Backend
pub mod Sha
mod Tests

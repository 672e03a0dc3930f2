-- ===== src/Files.antt =====
-- The file system as the program sees it, and the code that reads it: the `readsome` loops,
-- `DirConfig` and `enum_items` of src/httpservice.cpp. What the system answers is a parameter.
pub mod Config
pub mod Lines
pub mod Listing
pub mod Sorting
use simurga.Base.{Bytes, List, [], ◌∷◌, ◌++◌, Option}

-- dirent's d_type, as far as the program tells the types apart
pub data FileType : Type 0 where
  regular directory other : FileType

pub record Dirent : Type 0 where
  pub d_name : Bytes
  pub d_type : FileType

-- The answers of the operating system.
pub record System : Type 0 where
  -- the bytes of a file, if an ifstream on it is good
  pub file : Bytes → Option Bytes
  -- what the calls of readsome on that stream hand out, up to the end of the stream
  pub blocks : Bytes → List Bytes
  -- the entries of a directory in the order of readdir, if it can be opened
  pub dir : Bytes → Option (List Dirent)

-- The loop that appends blocks until one is empty or the stream is at its end.
unfoldable pub read_all : List Bytes → Bytes
read_all [] = []
read_all ([] ∷ bs) = []
read_all ((c ∷ b) ∷ bs) = (c ∷ b) ++ read_all bs

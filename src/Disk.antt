-- ===== src/Disk.antt =====
-- The files of a peer, as paths with contents, and the file operations of
-- src/shardnet/client/core/download_store.py and share_store.py. Directories are not modelled: the code
-- creates the ones it needs.
pub mod Slices
pub mod Whole
use shard_net.Base.{
  ℕ, zero, suc, String, Bool, true, false, not, Option, none, some, List, [], ◌∷◌, ◌++◌, ◌≡◌, refl,
  ◌+◌, ◌-◌, ◌==◌, text_eq, if◌then◌else◌, length, take, drop, replicate, arith, eq_iff, ◌≢◌,
}
use shard_net.Platform.{Bytes}

abbrev pub Disk : Type 0
Disk = List (String × Bytes)

unfoldable pub read_file : String → Disk → Option Bytes
read_file path [] = none
read_file path ((name, content) ∷ disk) = if name == path then some content else read_file path disk

unfoldable pub write_file : String → Bytes → Disk → Disk
write_file path content [] = (path, content) ∷ []
write_file path content ((name, old) ∷ disk) =
    if name == path then (path, content) ∷ disk else (name, old) ∷ write_file path content disk

unfoldable pub remove_file : String → Disk → Disk
remove_file path [] = []
remove_file path ((name, content) ∷ disk) =
    let rest = remove_file path disk in if name == path then rest else (name, content) ∷ rest

pub read_file-write_file :
    (path other : String) (content : Bytes) (disk : Disk)
    → read_file other (write_file path content disk)
      ≡ (if path == other then some content else read_file other disk)
unfolding read_file write_file
read_file-write_file path other content [] = refl
read_file-write_file path other content ((name, old) ∷ disk) = ground (
  arith,
  eq_iff path other,
  eq_iff name path,
  eq_iff name other,
  read_file-write_file path other content disk,
)

pub read_file-remove_file :
    (path other : String) (disk : Disk)
    → read_file other (remove_file path disk)
      ≡ (if path == other then none else read_file other disk)
unfolding read_file remove_file
read_file-remove_file path other [] = ground arith
read_file-remove_file path other ((name, content) ∷ disk) = ground (
  arith,
  eq_iff path other,
  eq_iff name path,
  eq_iff name other,
  read_file-remove_file path other disk,
)

-- `truncate(size)`: cut, or filled up with zero bytes.
unfoldable pub truncate : ℕ → Bytes → Bytes
truncate size content = take size content ++ replicate (size - length content) 0

-- `seek(offset)` and `write(data)`: a gap behind the end is filled with zero bytes.
unfoldable pub write_at : ℕ → Bytes → Bytes → Bytes
write_at offset chunk content =
    take offset content
    ++ (replicate (offset - length content) 0 ++ (chunk ++ drop (offset + length chunk) content))

-- What is in a file, nothing if it is missing.
abbrev pub or_empty : Option Bytes → Bytes
or_empty none = []
or_empty (some content) = content

-- `open("a+b")` creates a missing file.
unfoldable pub ensure_partial_file : String → ℕ → Disk → Disk
unfolding truncate
ensure_partial_file temp_path file_size_bytes disk =
    write_file temp_path (truncate file_size_bytes (or_empty (read_file temp_path disk))) disk

-- `shutil.move` between files.
unfoldable pub move_file : String → String → Bytes → Disk → Disk
move_file from to content disk = write_file to content (remove_file from disk)

-- ===== src/Rfs/Commands.antt =====
-- hw1-fs/main.c: the commands. What a command prints is its result.
pub mod Cat
pub mod Write
pub mod Tests
use mipt_kis_linux.Prelude.{
  text_of, ℕ, zero, suc, ◌+◌, ◌-◌, ◌*◌, List, [], ◌∷◌, ◌++◌, map, ◌==◌, ltb, leb, if◌then◌else◌,
  length, take, drop, replicate,
}
use mipt_kis_linux.Rfs.Machine.{
  Cmd, out_of_fuel, pure, ◌>>=◌, ◌>>◌, die_fatal, too_long_name, sub_size, add_size,
}
use mipt_kis_linux.Rfs.Layout.{FsDescriptors, file_name_length}
use mipt_kis_linux.Rfs.Table.{blocks_count}
use mipt_kis_linux.Rfs.Blocks.{init_new_file, get_blocks_required}
use mipt_kis_linux.Rfs.Files.{read_file, write_file}
use mipt_kis_linux.Rfs.Directory.{
  DirectoryItem, read_directory, append_directory, remove_from_directory, purge_file, get_file_size,
  trace_file_blocks,
}
use mipt_kis_linux.Rfs.Paths.{FsPath, split_path, part_at, locate_path}

-- `--path.count` before the walk to the directory: the path without its last part.
abbrev pub parent : FsPath → FsPath
parent path = record path { count = sub_size path.count 1 }

-- `struct DirectoryItem item = {.inode = …}` is zero but for the bytes that are copied into it.
abbrev pub new_item : ℕ → List ℕ → DirectoryItem
new_item inode name = record {
  inode = inode;
  name = name ++ replicate (file_name_length - length name) 0;
}

unfoldable pub make_item : FsDescriptors → List ℕ → (flags : ℕ) → Cmd (Unit {0})
make_item fs s_path flags = do
  path ← split_path s_path
  dir_inode ← locate_path fs (parent path)
  name ← part_at path (parent path).count
  if leb file_name_length (length name) then die_fatal too_long_name else pure tt
  file_inode ← init_new_file fs flags
  append_directory fs dir_inode (new_item file_inode name)

abbrev pub buf_size : ℕ
buf_size = 1024 * 1024 * 2

-- One number is printed for each zero byte of the buffer.
unfoldable pub zero_lines : ℕ → List ℕ → List ℕ
zero_lines read_bytes [] = []
zero_lines read_bytes (b ∷ bs) =
    if b == 0 then read_bytes ∷ zero_lines read_bytes bs else zero_lines read_bytes bs

-- `while (!feof(stdin))`: a read that is short of `size` meets the end of the input.
unfoldable pub write_chunks :
    (fuel size : ℕ) → FsDescriptors → (inode offset : ℕ) → (input : List ℕ) → Cmd (List ℕ)
write_chunks zero size fs inode offset input = λ m. out_of_fuel
write_chunks (suc n) size fs inode offset input = do
  let buffer = take size input
  write_file fs inode offset buffer
  more ←
      (if ltb (length buffer) size
        then pure []
        else write_chunks n size fs inode (add_size offset (length buffer)) (drop size input))
  pure (zero_lines (length buffer) buffer ++ more)

unfoldable pub perform_write : FsDescriptors → List ℕ → (offset : ℕ) → List ℕ → Cmd (List ℕ)
perform_write fs s_path offset input = do
  path ← split_path s_path
  inode ← locate_path fs path
  write_chunks (length input + 1) buf_size fs inode offset input

-- `while (read_bytes = read_file(…))`.
unfoldable pub cat_loop : (fuel size : ℕ) → FsDescriptors → (inode total : ℕ) → Cmd (List ℕ)
cat_loop zero size fs inode total = λ m. out_of_fuel
cat_loop (suc n) size fs inode total = do
  (read_bytes, buffer) ← read_file fs inode total size
  if read_bytes == 0
      then pure []
      else (do more ← cat_loop n size fs inode (total + read_bytes); pure (buffer ++ more))

-- Each round but the last reads a byte at least, so the size of the file bounds the rounds.
unfoldable pub cat : FsDescriptors → List ℕ → Cmd (List ℕ)
cat fs s_path = do
  path ← split_path s_path
  inode ← locate_path fs path
  size ← get_file_size fs inode
  cat_loop (size + 1) buf_size fs inode 0

unfoldable pub ls : FsDescriptors → List ℕ → Cmd (List (ℕ × List ℕ))
ls fs s_path = do
  path ← split_path s_path
  dir_inode ← locate_path fs path
  content ← read_directory fs dir_inode
  pure (map (λ (item : DirectoryItem). (item.inode, text_of item.name)) content)

-- What `remove_from_directory` returns is taken for the inode of the file.
unfoldable pub rm : FsDescriptors → List ℕ → Cmd (Unit {0})
rm fs s_path = do
  path ← split_path s_path
  dir_inode ← locate_path fs (parent path)
  name ← part_at path (parent path).count
  file_inode ← remove_from_directory fs dir_inode name
  λ m. purge_file (blocks_count fs m) fs file_inode m

-- The size, the number of blocks, and the blocks.
unfoldable pub stat : FsDescriptors → List ℕ → Cmd (ℕ × ℕ × List ℕ)
stat fs s_path = do
  path ← split_path s_path
  inode ← locate_path fs path
  size ← get_file_size fs inode
  blocks ← get_blocks_required fs size
  trace ← trace_file_blocks fs inode
  pure (size, blocks, take blocks trace.entries)

-- ===== src/Rfs/Files.antt =====
-- hw1-fs/manage.c: reading and writing the bytes of a file through its chain of blocks.
pub mod Content
pub mod Cells
pub mod Place
pub mod Disjoint
pub mod Kept
pub mod Seek
pub mod Read
pub mod Write
pub mod Splice
pub mod Update
pub mod Tests
use mipt_kis_linux.Prelude.{
  ℕ, zero, suc, ◌+◌, ◌-◌, min, List, [], ◌++◌, Option, ◌==◌, ltb, if◌then◌else◌, length, take, drop,
  bit_and,
}
use mipt_kis_linux.Rfs.Machine.{
  Mem, Cmd, done, out_of_fuel, pure, ◌>>=◌, ◌>>◌, die_fatal, invalid_position, not_file, add_size,
  sub_size, get_size, load8, load_bytes, store_bytes,
}
use mipt_kis_linux.Rfs.Layout.{FsDescriptors}
use mipt_kis_linux.Rfs.Table.{block_size}
use mipt_kis_linux.Rfs.Blocks.{
  block_address, deref, get_inode, continuation_inode, get_next_inode, first_block_size,
  common_block_size, truncate_file, flg_file,
}

-- The local variables of `read_file` and `write_file_unchecked`: where in the chain they stand.
pub record Cursor : Type 0 where
  pub block_index : ℕ
  pub current_inode : Option ℕ
  pub block_inode_offset : ℕ
  pub offset : ℕ

-- `block_index = current_inode->continuation_inode; current_inode = get_next_inode(…)`.
unfoldable pub advance : FsDescriptors → (offset : ℕ) → Cursor → Cmd Cursor
advance fs offset c = do
  next_index ← continuation_inode c.current_inode
  next ← get_next_inode fs c.current_inode
  pure (record {
    block_index = next_index;
    current_inode = next;
    block_inode_offset = fs.sizeof_inode;
    offset = offset;
  })

-- `if (offset > first_block_size) …`.
unfoldable pub skip_first : FsDescriptors → Cursor → Cmd Cursor
skip_first fs c m =
    if ltb (first_block_size fs m) c.offset
    then advance fs (c.offset - first_block_size fs m) c m
    else done c m

-- `while (offset > common_block_size) …`, on fuel.
unfoldable pub skip_common : (fuel : ℕ) → FsDescriptors → Cursor → Cmd Cursor
skip_common zero fs c m = out_of_fuel
skip_common (suc n) fs c m =
    let again = (advance fs (c.offset - common_block_size fs m) c >>= skip_common n fs) m in
    if ltb (common_block_size fs m) c.offset then again else done c m

-- Each round takes at least one byte off the offset, so `offset + 1` rounds are enough.
unfoldable pub seek : FsDescriptors → ℕ → Option ℕ → ℕ → Cmd Cursor
seek fs block_index inode offset = do
  c ← skip_first fs (record {
    block_index = block_index;
    current_inode = inode;
    block_inode_offset = fs.sizeof_inode_main;
    offset = offset;
  })
  skip_common (offset + 1) fs c

abbrev pub available_len : FsDescriptors → Cursor → Mem → ℕ
available_len fs c m = sub_size (sub_size (block_size fs m) c.block_inode_offset) c.offset

abbrev pub data_address : FsDescriptors → Cursor → Mem → ℕ
data_address fs c m = block_address fs c.block_index m + c.offset + c.block_inode_offset

-- `while (len) …`: what is appended to the buffer. Only the first round can copy nothing.
unfoldable pub read_loop : (fuel : ℕ) → FsDescriptors → Cursor → (len : ℕ) → Cmd (List ℕ)
read_loop zero fs c len m = out_of_fuel
read_loop (suc n) fs c len m =
    let copy_len = min (available_len fs c m) len in
    let copied = load_bytes copy_len m (data_address fs c m) in
    let rest =
      (do c' ← advance fs 0 c; more ← read_loop n fs c' (len - copy_len); pure (copied ++ more))
        m in
    if len == 0 then done [] m else if len - copy_len == 0 then done copied m else rest

-- The part of `read_file` behind its checks.
unfoldable pub read_part : FsDescriptors → ℕ → Option ℕ → (offset len : ℕ) → Cmd (ℕ × List ℕ)
read_part fs block_index inode offset len = do
  c ← seek fs block_index inode offset
  buffer ← read_loop (len + 2) fs c len
  pure (len, buffer)

-- The number of bytes read, and the bytes.
unfoldable pub read_file : FsDescriptors → (block_index offset len : ℕ) → Cmd (ℕ × List ℕ)
read_file fs block_index offset len = if len == 0 then pure (0, []) else do
  inode ← get_inode fs block_index
  a ← deref inode
  size ← get_size (a + fs.offset_size)
  if offset == size
      then pure (0, [])
      else if ltb size offset
      then die_fatal invalid_position
      else read_part fs block_index inode offset
          (if ltb size (add_size offset len) then size - offset else len)

unfoldable pub read_entire_file : FsDescriptors → ℕ → Cmd (ℕ × List ℕ)
read_entire_file fs block_index = do
  inode ← get_inode fs block_index
  a ← deref inode
  size ← get_size (a + fs.offset_size)
  read_file fs block_index 0 size

-- `while (length) …`: the buffer is what is left to write.
unfoldable pub write_loop : (fuel : ℕ) → FsDescriptors → Cursor → (buffer : List ℕ) → Cmd (Unit {0})
write_loop zero fs c buffer m = out_of_fuel
write_loop (suc n) fs c buffer m =
    let copy_len = min (available_len fs c m) (length buffer) in
    let m' = store_bytes m (data_address fs c m) (take copy_len buffer) in
    let rest = (do c' ← advance fs 0 c; write_loop n fs c' (drop copy_len buffer)) m' in
    if length buffer == 0
    then done tt m
    else if length buffer - copy_len == 0
    then done tt m'
    else rest

unfoldable pub write_file_unchecked :
    FsDescriptors → (block_index offset : ℕ) → List ℕ → Cmd (Unit {0})
write_file_unchecked fs block_index offset buffer = if length buffer == 0 then pure tt else do
  inode ← get_inode fs block_index
  a ← deref inode
  size ← get_size (a + fs.offset_size)
  if ltb size offset then die_fatal invalid_position else pure tt
  if ltb size (add_size (length buffer) offset)
      then truncate_file fs block_index (add_size (length buffer) offset)
      else pure tt
  c ← seek fs block_index inode offset
  write_loop (length buffer + 2) fs c buffer

-- `inode->flags & flag`, as a number.
abbrev pub get_flag : FsDescriptors → ℕ → ℕ → Cmd ℕ
get_flag fs a flag m = done (bit_and (load8 m (a + fs.offset_flags)) flag) m

unfoldable pub write_file : FsDescriptors → (block_index offset : ℕ) → List ℕ → Cmd (Unit {0})
write_file fs block_index offset buffer = do
  inode ← get_inode fs block_index
  a ← deref inode
  is_file ← get_flag fs a flg_file
  if is_file == 0 then die_fatal not_file else write_file_unchecked fs block_index offset buffer

unfoldable pub append_file_unchecked : FsDescriptors → ℕ → List ℕ → Cmd (Unit {0})
append_file_unchecked fs block_index buffer = do
  inode ← get_inode fs block_index
  a ← deref inode
  size ← get_size (a + fs.offset_size)
  write_file_unchecked fs block_index size buffer

unfoldable pub append_file : FsDescriptors → ℕ → List ℕ → Cmd (Unit {0})
append_file fs block_index buffer = do
  inode ← get_inode fs block_index
  a ← deref inode
  size ← get_size (a + fs.offset_size)
  write_file fs block_index size buffer

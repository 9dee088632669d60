-- ===== src/Rfs/Blocks.antt =====
-- hw1-fs/manage.c: inodes, the chains of blocks that they begin, and their growth and shrinkage.
pub mod Count
pub mod Chain
pub mod Purge
mod Tests
use mipt_kis_linux.Prelude.{
  ℕ, zero, suc, ◌+◌, ◌-◌, ◌*◌, ◌/◌, Bool, true, false, Option, none, some, ◌==◌, ltb, leb,
  if◌then◌else◌,
}
use mipt_kis_linux.Rfs.Machine.{
  Mem, Cmd, done, fault, out_of_fuel, pure, ◌>>=◌, ◌>>◌, die_fatal, internal_error, add_size,
  sub_size, get_size, put_size, store_le, store8,
}
use mipt_kis_linux.Rfs.Layout.{FsDescriptors}
use mipt_kis_linux.Rfs.Table.{
  block_size, blocks_count, mark_block_in_lookup_table, get_next_free_block_index,
}

abbrev pub flg_directory : ℕ
flg_directory = 1

abbrev pub flg_file : ℕ
flg_file = 2

-- `fs.container + block_index * fs.superblock->block_size`.
abbrev pub block_address : FsDescriptors → ℕ → Mem → ℕ
block_address fs block_index m = fs.container + block_index * block_size fs m

-- A use of a pointer, which faults at `NULL`.
abbrev pub deref : Option ℕ → Cmd ℕ
deref none m = fault m
deref (some a) m = done a m

unfoldable pub get_inode : FsDescriptors → ℕ → Cmd (Option ℕ)
get_inode fs block_index m =
    if block_index == 0
    then done none m
    else if leb (blocks_count fs m) block_index
    then die_fatal internal_error m
    else done (some (block_address fs block_index m)) m

-- `inode->continuation_inode`.
abbrev pub continuation_inode : Option ℕ → Cmd ℕ
continuation_inode inode = do a ← deref inode; get_size a

unfoldable pub get_next_inode : FsDescriptors → Option ℕ → Cmd (Option ℕ)
get_next_inode fs inode = do c ← continuation_inode inode; get_inode fs c

unfoldable pub init_new_file : FsDescriptors → ℕ → Cmd ℕ
init_new_file fs flags = do
  block_index ← get_next_free_block_index fs
  mark_block_in_lookup_table fs block_index true
  inode ← λ m. done (block_address fs block_index m) m
  put_size (inode + fs.offset_size) 0
  put_size inode 0
  λ m. done tt (store_le 4 m (inode + fs.offset_links_count) 0)
  put_size (inode + fs.offset_last_inode) block_index
  λ m. done tt (store8 m (inode + fs.offset_flags) flags)
  pure block_index

-- `while (inode) …`.
unfoldable pub purge_loop : (fuel : ℕ) → FsDescriptors → ℕ → Option ℕ → Cmd (Unit {0})
purge_loop zero fs block_index inode = λ m. out_of_fuel
purge_loop (suc n) fs block_index none = pure tt
purge_loop (suc n) fs block_index (some a) = do
  mark_block_in_lookup_table fs block_index false
  next_index ← continuation_inode (some a)
  next ← get_next_inode fs (some a)
  purge_loop n fs next_index next

-- A chain without a cycle has fewer blocks than the container, so the fuel is not what ends it.
unfoldable pub purge_blocks : FsDescriptors → ℕ → Cmd (Unit {0})
purge_blocks fs block_index = do
  inode ← get_inode fs block_index
  λ m. purge_loop (blocks_count fs m + 1) fs block_index inode m

abbrev pub first_block_size : FsDescriptors → Mem → ℕ
first_block_size fs m = sub_size (block_size fs m) fs.sizeof_inode_main

abbrev pub common_block_size : FsDescriptors → Mem → ℕ
common_block_size fs m = sub_size (block_size fs m) fs.sizeof_inode

-- A division by zero is a fault.
unfoldable pub get_blocks_required : FsDescriptors → ℕ → Cmd ℕ
get_blocks_required fs size m =
    let first = first_block_size fs m in
    let common = common_block_size fs m in
    if leb size first
    then done 1 m
    else if common == 0
    then fault m
    else done (add_size (sub_size (add_size (sub_size size first) common) 1 / common) 1) m

-- The loop of the extension, with the rounds that are left.
unfoldable pub extend_loop : (rounds : ℕ) → FsDescriptors → ℕ → Cmd ℕ
extend_loop zero fs block_index = pure block_index
extend_loop (suc n) fs block_index = do
  next_block ← get_next_free_block_index fs
  mark_block_in_lookup_table fs next_block true
  current_inode ← get_inode fs block_index
  a ← deref current_inode
  put_size a next_block
  extend_loop n fs next_block

-- The walk to the last block that stays.
unfoldable pub shrink_loop : (rounds : ℕ) → FsDescriptors → ℕ → Option ℕ → Cmd (ℕ × Option ℕ)
shrink_loop zero fs block_index current_inode = pure (block_index, current_inode)
shrink_loop (suc n) fs block_index current_inode = do
  next_index ← continuation_inode current_inode
  next ← get_next_inode fs current_inode
  shrink_loop n fs next_index next

-- The two branches of `truncate_file`; `a` is the address of the first inode.
unfoldable pub extend_file : FsDescriptors → (a rounds : ℕ) → Cmd (Unit {0})
extend_file fs a rounds = do
  block_index ← get_size (a + fs.offset_last_inode)
  last ← extend_loop rounds fs block_index
  put_size (a + fs.offset_last_inode) last

unfoldable pub shrink_file :
    FsDescriptors → (a block_index : ℕ) → Option ℕ → (new_blocks_required : ℕ) → Cmd (Unit {0})
shrink_file fs a block_index inode new_blocks_required = do
  (last, current_inode) ← shrink_loop (new_blocks_required - 1) fs block_index inode
  rest ← continuation_inode current_inode
  purge_blocks fs rest
  put_size (a + fs.offset_last_inode) last

unfoldable pub truncate_file : FsDescriptors → ℕ → ℕ → Cmd (Unit {0})
truncate_file fs block_index new_size = do
  inode ← get_inode fs block_index
  a ← deref inode
  old_size ← get_size (a + fs.offset_size)
  old_blocks_required ← get_blocks_required fs old_size
  new_blocks_required ← get_blocks_required fs new_size
  put_size (a + fs.offset_size) new_size
  if ltb old_blocks_required new_blocks_required
      then extend_file fs a (new_blocks_required - old_blocks_required)
      else if ltb new_blocks_required old_blocks_required
      then shrink_file fs a block_index inode new_blocks_required
      else pure tt

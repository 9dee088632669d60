-- ===== src/Rfs/Volume.antt =====
-- hw1-fs/manage.c: making a container and opening one. `open_and_map` is the operating system's:
-- the memory that a command gets is the mapped file, and addresses are offsets in it.
use mipt_kis_linux.Prelude.{ℕ, zero, suc, ◌+◌, ◌/◌, Bool, true, false, ◌==◌, ltb, if◌then◌else◌}
use mipt_kis_linux.Rfs.Machine.{
  Mem, Cmd, done, fault, pure, ◌>>=◌, ◌>>◌, die_fatal, incompatible, internal_error, add_size,
  sub_size, get_size, put_size, load_le, store_le, clear_bytes,
}
use mipt_kis_linux.Rfs.Layout.{
  Layout, FsDescriptors, PortabilityControlValues, get_platform_values, is_platform_compatible,
}
use mipt_kis_linux.Rfs.Table.{mark_block_in_lookup_table}
use mipt_kis_linux.Rfs.Blocks.{init_new_file, flg_directory}

-- The five 32-bit numbers behind `block_size` and `blocks_count`.
unfoldable pub load_portability : ℕ → Mem → PortabilityControlValues
load_portability superblock m = record {
  size_type_size = load_le 4 m (superblock + 16);
  superblock_type_size = load_le 4 m (superblock + 20);
  inode_type_size = load_le 4 m (superblock + 24);
  inodemain_type_size = load_le 4 m (superblock + 28);
  directoryitem_type_size = load_le 4 m (superblock + 32);
}

unfoldable pub store_portability : ℕ → PortabilityControlValues → Mem → Mem
store_portability superblock vals m =
    let m1 = store_le 4 m (superblock + 16) vals.size_type_size in
    let m2 = store_le 4 m1 (superblock + 20) vals.superblock_type_size in
    let m3 = store_le 4 m2 (superblock + 24) vals.inode_type_size in
    let m4 = store_le 4 m3 (superblock + 28) vals.inodemain_type_size in
    store_le 4 m4 (superblock + 32) vals.directoryitem_type_size

-- `for (i = 0; i < metadata_pages_count; ++i)`, from `i` on, with the rounds that are left.
unfoldable pub mark_metadata : (rounds i : ℕ) → FsDescriptors → Cmd (Unit {0})
mark_metadata zero i fs = pure tt
mark_metadata (suc n) i fs = do mark_block_in_lookup_table fs i true; mark_metadata n (i + 1) fs

abbrev pub lookup_table_size : ℕ → ℕ
lookup_table_size blocks = add_size blocks 7 / 8

unfoldable pub prepare_descriptors : Layout → (clean_lookup_table : Bool) → Cmd FsDescriptors
prepare_descriptors l clean_lookup_table = do
  compatible ← λ m. done (is_platform_compatible l (load_portability 0 m)) m
  if compatible then pure tt else die_fatal incompatible
  size ← get_size 0
  blocks ← get_size 8
  let metadata_size = add_size l.sizeof_superblock (lookup_table_size blocks)
  metadata_pages_count ←
      λ m. if size == 0 then fault m else done (sub_size (add_size metadata_size size) 1 / size) m
  let res : FsDescriptors = record {
    layout = l;
    container = 0;
    superblock = 0;
    lookup_table = l.sizeof_superblock;
    root_inode = metadata_pages_count;
  }
  if clean_lookup_table
      then (do
        λ m. done tt (clear_bytes (lookup_table_size blocks) m res.lookup_table)
        mark_metadata metadata_pages_count 0 res)
      else pure tt
  pure res

-- The number of pages that a volume of a size takes.
abbrev pub pages_for : Layout → (page_size size : ℕ) → ℕ
pages_for l page_size size =
    let size' = if ltb size l.sizeof_superblock then l.sizeof_superblock else size in
    sub_size (add_size size' page_size) 1 / page_size

unfoldable pub init_fs : Layout → (page_size size : ℕ) → Cmd FsDescriptors
init_fs l page_size size = do
  put_size 0 page_size
  put_size 8 (pages_for l page_size size)
  λ m. done tt (store_portability 0 (get_platform_values l) m)
  fs ← prepare_descriptors l true
  root_inode ← init_new_file fs flg_directory
  if root_inode == fs.root_inode then pure fs else die_fatal internal_error

unfoldable pub open_fs : Layout → Cmd FsDescriptors
open_fs l = prepare_descriptors l false

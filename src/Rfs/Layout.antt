-- ===== src/Rfs/Layout.antt =====
-- hw1-fs/fs.h and fs.c: the structures of the container, and the check that it was made by a
-- platform with the same ones. A layout gives the sizes and offsets that the compiler chooses.
use mipt_kis_linux.Prelude.{ℕ, ◌+◌, ◌≤◌, ◌≡◌, Bool, ◌==◌, ◌&&◌}

pub record Layout : Type 0 where
  pub sizeof_size_t : ℕ
  pub sizeof_superblock : ℕ
  pub sizeof_inode : ℕ
  pub sizeof_inode_main : ℕ
  pub sizeof_directory_item : ℕ
  pub offset_size : ℕ
  pub offset_links_count : ℕ
  pub offset_flags : ℕ
  pub offset_last_inode : ℕ

-- What every compiler keeps: fields in order, inside the structure, and not overlapping.
pub record IsLayout (l : Layout) : Type 0 where
  pub superblock : 36 ≤ l.sizeof_superblock
  pub inode : l.sizeof_inode ≡ 8
  pub size : 8 ≤ l.offset_size
  pub links_count : l.offset_size + 8 ≤ l.offset_links_count
  pub flags : l.offset_links_count + 4 ≤ l.offset_flags
  pub last_inode : l.offset_flags + 1 ≤ l.offset_last_inode
  pub inode_main : l.offset_last_inode + 8 ≤ l.sizeof_inode_main
  pub directory_item : 264 ≤ l.sizeof_directory_item

-- x86-64 with natural alignment.
abbrev pub aligned : Layout
aligned = record {
  sizeof_size_t = 8;
  sizeof_superblock = 40;
  sizeof_inode = 8;
  sizeof_inode_main = 32;
  sizeof_directory_item = 264;
  offset_size = 8;
  offset_links_count = 16;
  offset_flags = 20;
  offset_last_inode = 24;
}

abbrev pub file_name_length : ℕ
file_name_length = 256

pub record PortabilityControlValues : Type 0 where
  pub size_type_size : ℕ
  pub superblock_type_size : ℕ
  pub inode_type_size : ℕ
  pub inodemain_type_size : ℕ
  pub directoryitem_type_size : ℕ

unfoldable pub get_platform_values : Layout → PortabilityControlValues
get_platform_values l = record {
  size_type_size = l.sizeof_size_t;
  superblock_type_size = l.sizeof_superblock;
  inode_type_size = l.sizeof_inode;
  inodemain_type_size = l.sizeof_inode_main;
  directoryitem_type_size = l.sizeof_directory_item;
}

unfoldable pub is_platform_compatible : Layout → PortabilityControlValues → Bool
is_platform_compatible l vals =
    let mine = get_platform_values l in
    (mine.size_type_size == vals.size_type_size)
    && (mine.superblock_type_size == vals.superblock_type_size)
    && (mine.inode_type_size == vals.inode_type_size)
    && (mine.inodemain_type_size == vals.inodemain_type_size)
    && (mine.directoryitem_type_size == vals.directoryitem_type_size)

-- `FsDescriptors` of manage.h. Pointers into the mapping are addresses in the container.
pub record FsDescriptors : Type 0 where
  pub layout : Layout
  pub open layout use *
  pub container : ℕ
  pub superblock : ℕ
  pub lookup_table : ℕ
  pub root_inode : ℕ

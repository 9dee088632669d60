-- ===== src/Rfs/Directory.antt =====
-- hw1-fs/manage.c: directories as files of fixed-size items, and what is done through them.
pub mod Search
pub mod Overflow
use mipt_kis_linux.Prelude.{
  text_of, text_eq, le_value, le_bytes, ℕ, zero, suc, ◌+◌, ◌-◌, ◌*◌, ◌/◌, ◌%◌, Bool, true, false,
  List, [], ◌∷◌, ◌++◌, Option, none, some, ◌==◌, if◌then◌else◌, take, drop, replicate, get_elem?,
  ◌&&◌,
}
use mipt_kis_linux.Rfs.Machine.{
  Cmd, done, fault, out_of_fuel, pure, ◌>>=◌, ◌>>◌, die_fatal, not_directory, internal_error,
  no_such_file, get_size,
}
use mipt_kis_linux.Rfs.Layout.{FsDescriptors, file_name_length}
use mipt_kis_linux.Rfs.Blocks.{
  deref, get_inode, continuation_inode, get_next_inode, get_blocks_required, purge_blocks,
  truncate_file, flg_directory,
}
use mipt_kis_linux.Rfs.Files.{get_flag, read_file, append_file_unchecked}

-- `char name[FILE_NAME_LENGTH]` is the list of its bytes.
pub record DirectoryItem : Type 0 where
  pub inode : ℕ
  pub name : List ℕ

-- `(DirectoryItem*) buffer`, and a `DirectoryItem` as the bytes that are copied.
unfoldable pub decode_item : List ℕ → DirectoryItem
decode_item bytes = record {
  inode = le_value (take 8 bytes);
  name = take file_name_length (drop 8 bytes);
}

unfoldable pub encode_item : FsDescriptors → DirectoryItem → List ℕ
encode_item fs item =
    le_bytes 8 item.inode ++ (item.name ++ replicate (fs.sizeof_directory_item - 264) 0)

unfoldable pub decode_items : (count item_size : ℕ) → List ℕ → List DirectoryItem
decode_items zero item_size bytes = []
decode_items (suc n) item_size bytes =
    decode_item (take item_size bytes) ∷ decode_items n item_size (drop item_size bytes)

-- `items_count` of `DirectoryContent` is the length of the list.
unfoldable pub read_directory : FsDescriptors → ℕ → Cmd (List DirectoryItem)
read_directory fs dir_block_index = do
  inode ← get_inode fs dir_block_index
  a ← deref inode
  is_directory ← get_flag fs a flg_directory
  if is_directory == 0 then die_fatal not_directory else pure tt
  cur_dir_size ← get_size (a + fs.offset_size)
  if cur_dir_size % fs.sizeof_directory_item == 0 then pure tt else die_fatal internal_error
  (read, buffer) ← read_file fs dir_block_index 0 cur_dir_size
  pure (decode_items (cur_dir_size / fs.sizeof_directory_item) fs.sizeof_directory_item buffer)

unfoldable pub append_directory : FsDescriptors → ℕ → DirectoryItem → Cmd (Unit {0})
append_directory fs dir_block_index item = do
  inode ← get_inode fs dir_block_index
  a ← deref inode
  is_directory ← get_flag fs a flg_directory
  if is_directory == 0 then die_fatal not_directory else pure tt
  append_file_unchecked fs dir_block_index (encode_item fs item)

-- The loop of `find_directory_item`, from item `i` on; `name` is a text.
unfoldable pub find_item_from : (i : ℕ) → List DirectoryItem → List ℕ → Option ℕ
find_item_from i [] name = none
find_item_from i (item ∷ items) name =
    let rest = find_item_from (i + 1) items name in
    if text_eq name (text_of item.name) then some i else rest

unfoldable pub find_directory_item : List DirectoryItem → List ℕ → Cmd ℕ
find_directory_item content name = elim (find_item_from 0 content name) [
  | some i ↦ pure i
  | none ↦ die_fatal no_such_file
]

-- `content.items[i]`, a fault out of range.
abbrev pub item_at : List DirectoryItem → ℕ → Cmd DirectoryItem
item_at items i m = elim (get_elem? items i) [ some item ↦ done item m | none ↦ fault m ]

-- `append_directory` of every item but the one at `skip`; `i` is the index of the first.
unfoldable pub append_others :
    FsDescriptors → ℕ → (skip i : ℕ) → List DirectoryItem → Cmd (Unit {0})
append_others fs dir_block_index skip i [] = pure tt
append_others fs dir_block_index skip i (item ∷ items) = do
  if i == skip then pure tt else append_directory fs dir_block_index item
  append_others fs dir_block_index skip (i + 1) items

-- Returns the index of the item in the directory.
unfoldable pub remove_from_directory : FsDescriptors → ℕ → List ℕ → Cmd ℕ
remove_from_directory fs dir_block_index name = do
  root ← read_directory fs dir_block_index
  item_index ← find_directory_item root name
  truncate_file fs dir_block_index 0
  append_others fs dir_block_index item_index 0 root
  pure item_index

-- `purge_file` calls itself for each item of a directory: `purge` is that call.
unfoldable pub purge_items : (ℕ → Cmd (Unit {0})) → List DirectoryItem → Cmd (Unit {0})
purge_items purge [] = pure tt
purge_items purge (item ∷ items) = do purge item.inode; purge_items purge items

-- The depth of the directories is bounded by the fuel.
unfoldable pub purge_file : (fuel : ℕ) → FsDescriptors → ℕ → Cmd (Unit {0})
purge_file zero fs block_index = λ m. out_of_fuel
purge_file (suc n) fs block_index = do
  inode ← get_inode fs block_index
  a ← deref inode
  is_directory ← get_flag fs a flg_directory
  if is_directory == 0
      then pure tt
      else (read_directory fs block_index >>= λ content. purge_items (purge_file n fs) content)
  purge_blocks fs block_index

unfoldable pub get_file_size : FsDescriptors → ℕ → Cmd ℕ
get_file_size fs block_index = do
  inode ← get_inode fs block_index
  a ← deref inode
  get_size (a + fs.offset_size)

-- An array of `capacity` elements and what is written to it, one element after the other.
pub record Trace : Type 0 where
  pub capacity : ℕ
  pub entries : List ℕ

-- `do … while (--count)`, with one round at least.
unfoldable pub trace_loop : (count : ℕ) → FsDescriptors → Option ℕ → Cmd (List ℕ)
trace_loop zero fs inode = pure []
trace_loop (suc n) fs inode = do
  c ← continuation_inode inode
  next ← get_next_inode fs inode
  rest ← trace_loop n fs next
  pure (c ∷ rest)

unfoldable pub trace_file_blocks : FsDescriptors → ℕ → Cmd Trace
trace_file_blocks fs block_index = do
  inode ← get_inode fs block_index
  a ← deref inode
  size ← get_size (a + fs.offset_size)
  count ← get_blocks_required fs size
  rest ← trace_loop count fs inode
  pure (record { capacity = count; entries = block_index ∷ rest })

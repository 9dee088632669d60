-- ===== src/Rfs/Examples.antt =====
-- A small container of hw1-fs, and what its operations do on it.
use mipt_kis_linux.Prelude.{
  le_value, le_bytes, text_of, text_eq, ℕ, ◌≡◌, refl, List, [], ◌∷◌, some, false,
}
use mipt_kis_linux.Rfs.Machine.{
  add_size, Mem, Outcome, done, died, fault, out_of_fuel, Message, store8, load_le, store_le,
  load_bytes, store_bytes, clear_bytes,
}
use mipt_kis_linux.Rfs.Table.{
  mark_bit, mark_block_in_lookup_table, first_clear_bit, complement_is_zero, next_free_from,
  get_next_free_block_index,
}
use mipt_kis_linux.Rfs.Layout.{aligned, get_platform_values, is_platform_compatible}
use mipt_kis_linux.Rfs.Blocks.{
  get_inode, get_next_inode, init_new_file, purge_loop, purge_blocks, get_blocks_required,
  extend_loop, shrink_loop, extend_file, shrink_file, truncate_file,
}
use mipt_kis_linux.Rfs.Files.{
  advance, skip_first, skip_common, seek, read_loop, read_part, read_file, read_entire_file,
  write_loop, write_file_unchecked, write_file, append_file_unchecked, append_file,
}
use mipt_kis_linux.Rfs.Directory.{
  decode_item, encode_item, decode_items, read_directory, append_directory, find_item_from,
  find_directory_item, append_others, remove_from_directory, purge_items, purge_file, get_file_size,
  trace_loop, trace_file_blocks,
}
use mipt_kis_linux.Rfs.Paths.{
  measure_path, fill_path, split_path, text_in, part_at, locate_from, locate_path,
}
use mipt_kis_linux.Rfs.Volume.{
  load_portability, store_portability, mark_metadata, prepare_descriptors, init_fs, open_fs,
}
use mipt_kis_linux.Rfs.Commands.{
  make_item, zero_lines, write_chunks, perform_write, cat_loop, cat, ls, rm, stat,
}
use mipt_kis_linux.Prelude.{◌*◌, ◌/◌, ◌≤◌, ◌==◌, ltb, if◌then◌else◌, arith, length, drop, get_elem?}
use mipt_kis_linux.Rfs.Layout.{FsDescriptors}
use mipt_kis_linux.Rfs.Table.{block_size, blocks_count}
use mipt_kis_linux.Rfs.Table.Mark.{is_occupied}
use mipt_kis_linux.Rfs.Table.Search.{FirstFree, get_next_free_block_index-FirstFree}
use mipt_kis_linux.Rfs.Table.Alloc.{take_block, Taken, take_block-Taken}
use mipt_kis_linux.Rfs.Blocks.{block_address}
use mipt_kis_linux.Rfs.Blocks.Count.{IsLeastCount, get_blocks_required-least}
use mipt_kis_linux.Rfs.Files.Content.{
  IsGeometry, Linked, file_bytes, file_size, file_contents, IsFile, tail_bytes,
}
use mipt_kis_linux.Rfs.Files.Seek.{Seeks, seek-Seeks}
use mipt_kis_linux.Rfs.Files.Read.{part_of, read_file-contents}
use mipt_kis_linux.Rfs.Directory.{DirectoryItem}
use mipt_kis_linux.Rfs.Directory.Search.{SearchResult, find_directory_item-SearchResult}
use mipt_kis_linux.Rfs.Directory.Overflow.{Ensures, OneTooMany, trace_file_blocks-Overflows}
use mipt_kis_linux.Rfs.Paths.{FsPath}
use mipt_kis_linux.Rfs.Paths.Split.{path_of, count, split_path-path_of}
use Prim.Native.Char.{code}
use Prim.Native.String.{String}

abbrev codes : String → List ℕ
codes String.[] = []
codes (String.◌∷◌ c s) = code c ∷ codes s

data Answer (A : Type 0) : Type 0 where
  value : A → Answer A
  stopped : Message → Answer A
  faulted stuck : Answer A

answer : {A : Type 0} → Outcome A → Answer A
answer (done a m) = value a
answer (died e m) = stopped e
answer (fault m) = faulted
answer out_of_fuel = stuck

-- Four blocks of 40 bytes. The file at block 1 has 12 bytes, eight of them in block 2.
abbrev pub tiny : Mem
tiny a =
    if a == 0
    then 40
    else if a == 8
    then 4
    else if a == 36
    then 7
    else if a == 40
    then 2
    else if a == 48
    then 12
    else if a == 60
    then 2
    else if a == 64
    then 2
    else if ltb a 72
    then 0
    else if ltb a 80
    then a
    else if ltb a 88
    then 0
    else a

abbrev pub tiny_fs : FsDescriptors
tiny_fs = record {
  layout = aligned;
  container = 0;
  superblock = 0;
  lookup_table = 36;
  root_inode = 1;
}

pub tiny-IsGeometry : IsGeometry tiny_fs tiny
unfolding load_le
tiny-IsGeometry = record {
  layout = record {
    superblock = omega arith;
    inode = refl;
    size = omega arith;
    links_count = omega arith;
    flags = omega arith;
    last_inode = omega arith;
    inode_main = omega arith;
    directory_item = omega arith;
  };
  room = let e : block_size tiny_fs tiny ≡ 40 = refl in omega arith;
  size = let e : block_size tiny_fs tiny ≡ 40 = refl in omega arith;
}

tiny-blocks : blocks_count tiny_fs tiny ≡ 4
unfolding load_le
tiny-blocks = refl

tiny-Linked : Linked tiny_fs tiny 1 (2 ∷ [])
unfolding load_le
tiny-Linked = (refl, (omega arith, omega (arith, tiny-blocks)), tt)

tiny-length : length (file_bytes tiny_fs tiny 1 (2 ∷ [])) ≡ 40
unfolding load_le load_bytes tail_bytes
tiny-length = refl

pub tiny-size : file_size tiny_fs tiny 1 ≡ 12
unfolding load_le
tiny-size = refl

pub tiny-IsFile : IsFile tiny_fs tiny 1 (2 ∷ [])
tiny-IsFile = record {
  block = (omega arith, omega (arith, tiny-blocks));
  linked = tiny-Linked;
  room = omega (arith, tiny-length, tiny-size);
}

read_file-contents_example :
    read_file tiny_fs 1 6 100 tiny
    ≡ done (part_of 6 100 (file_contents tiny_fs tiny 1 (2 ∷ []))) tiny
read_file-contents_example =
    read_file-contents tiny-IsGeometry 1 6 100 (2 ∷ []) tiny-IsFile (omega (arith, tiny-size))
      (omega arith)

seek-Seeks_example :
    Seeks tiny_fs tiny
      (1 ∷ 2 ∷ [])
      (drop 9 (file_bytes tiny_fs tiny 1 (2 ∷ [])))
      (seek tiny_fs 1 (some (block_address tiny_fs 1 tiny)) 9 tiny)
seek-Seeks_example =
    seek-Seeks tiny-IsGeometry 1 9 (2 ∷ []) tiny-Linked (omega (arith, tiny-length))

get_blocks_required-least_example :
    (n : ℕ) × (get_blocks_required tiny_fs 12 tiny ≡ done n tiny) × IsLeastCount tiny_fs tiny 12 n
unfolding load_le
get_blocks_required-least_example =
    get_blocks_required-least tiny-IsGeometry 12 (omega (arith, tiny-IsGeometry.size))

tiny-free : is_occupied tiny_fs tiny 3 ≡ false
tiny-free = refl

take_block-Taken_example :
    (block : ℕ) × (m' : Mem) × (take_block tiny_fs tiny ≡ done block m')
    × (block ≤ 3)
    × Taken tiny_fs tiny block m'
take_block-Taken_example =
    take_block-Taken tiny_fs tiny 3 (omega (arith, tiny-blocks)) (omega (arith, tiny-blocks))
      tiny-free

get_next_free_block_index-FirstFree_example :
    FirstFree tiny_fs tiny 0
      (add_size (blocks_count tiny_fs tiny) 7 / 8 * 8)
      (get_next_free_block_index tiny_fs tiny)
get_next_free_block_index-FirstFree_example = get_next_free_block_index-FirstFree tiny_fs tiny

abbrev items : List DirectoryItem
items = record { inode = 3; name = 97 ∷ 0 ∷ [] } ∷ record { inode = 4; name = 98 ∷ 0 ∷ [] } ∷ []

find_directory_item-SearchResult_example :
    SearchResult (98 ∷ []) items tiny (find_directory_item items (98 ∷ []) tiny)
find_directory_item-SearchResult_example = find_directory_item-SearchResult (98 ∷ []) items tiny

trace_file_blocks-Overflows_example : Ensures OneTooMany (trace_file_blocks tiny_fs 1 tiny)
trace_file_blocks-Overflows_example = trace_file_blocks-Overflows tiny_fs 1 tiny

-- The trace of the file: two elements of room, three entries.
traced :
    answer (trace_file_blocks tiny_fs 1 tiny)
    ≡ value (record { capacity = 2; entries = 1 ∷ 2 ∷ 0 ∷ [] })
unfolding store8 load_le store_le load_bytes store_bytes clear_bytes mark_bit
    mark_block_in_lookup_table first_clear_bit complement_is_zero next_free_from
    get_next_free_block_index get_platform_values is_platform_compatible get_inode get_next_inode
    init_new_file purge_loop purge_blocks get_blocks_required extend_loop shrink_loop extend_file
    shrink_file truncate_file advance skip_first skip_common seek read_loop read_part read_file
    read_entire_file write_loop write_file_unchecked write_file append_file_unchecked append_file
    decode_item encode_item decode_items read_directory append_directory find_item_from
    find_directory_item append_others remove_from_directory purge_items purge_file get_file_size
    trace_loop trace_file_blocks measure_path fill_path split_path text_in part_at locate_from
    locate_path load_portability store_portability mark_metadata prepare_descriptors init_fs open_fs
    make_item zero_lines write_chunks perform_write cat_loop cat ls rm stat le_value le_bytes
    text_of text_eq answer
traced = refl

abbrev names : List (List ℕ)
names = codes "bc" ∷ []

split_path-path_of_example :
    (path : FsPath) × (split_path (path_of (codes "a" ∷ names)) tiny ≡ done path tiny)
    × (path.count ≡ count (codes "a" ∷ names))
    × ((i : ℕ) (name : List ℕ)
        → get_elem? (codes "a" ∷ names) i ≡ some name
        → part_at path i tiny ≡ done name tiny)
split_path-path_of_example =
    split_path-path_of (codes "a") names tiny
      (((refl, refl), tt), ((((refl, refl), ((refl, refl), tt))), tt))

-- ===== src/Rfs/Tests.antt =====
-- Runs of the file system of hw1-fs on small volumes.
use mipt_kis_linux.Prelude.{le_value, le_bytes, text_of, text_eq, ℕ, ◌≡◌, refl, List, [], ◌∷◌}
use mipt_kis_linux.Rfs.Machine.{
  Mem, Cmd, Outcome, done, died, fault, out_of_fuel, Message, ◌>>=◌, ◌>>◌, store8, load_le,
  store_le, load_bytes, store_bytes, clear_bytes,
}
use mipt_kis_linux.Rfs.Table.{
  mark_bit, mark_block_in_lookup_table, first_clear_bit, complement_is_zero, next_free_from,
  get_next_free_block_index,
}
use mipt_kis_linux.Rfs.Layout.{aligned, get_platform_values, is_platform_compatible}
use mipt_kis_linux.Rfs.Blocks.{
  get_inode, get_next_inode, init_new_file, purge_loop, purge_blocks, get_blocks_required,
  extend_loop, shrink_loop, extend_file, shrink_file, truncate_file,
}
use mipt_kis_linux.Rfs.Files.{
  advance, skip_first, skip_common, seek, read_loop, read_part, read_file, read_entire_file,
  write_loop, write_file_unchecked, write_file, append_file_unchecked, append_file,
}
use mipt_kis_linux.Rfs.Directory.{
  decode_item, encode_item, decode_items, read_directory, append_directory, find_item_from,
  find_directory_item, append_others, remove_from_directory, purge_items, purge_file, get_file_size,
  trace_loop, trace_file_blocks,
}
use mipt_kis_linux.Rfs.Paths.{
  measure_path, fill_path, split_path, text_in, part_at, locate_from, locate_path,
}
use mipt_kis_linux.Rfs.Volume.{
  load_portability, store_portability, mark_metadata, prepare_descriptors, init_fs, open_fs,
}
use mipt_kis_linux.Rfs.Commands.{
  make_item, zero_lines, write_chunks, perform_write, cat_loop, cat, ls, rm, stat,
}
use Prim.Native.Char.{code}
use Prim.Native.String.{String}

abbrev codes : String → List ℕ
codes String.[] = []
codes (String.◌∷◌ c s) = code c ∷ codes s

abbrev blank : Mem
blank a = 0

data Answer (A : Type 0) : Type 0 where
  value : A → Answer A
  stopped : Message → Answer A
  faulted stuck : Answer A

answer : {A : Type 0} → Outcome A → Answer A
answer (done a m) = value a
answer (died e m) = stopped e
answer (fault m) = faulted
answer out_of_fuel = stuck

-- A volume of 16 pages of 512 bytes with a file that holds three bytes.
session : Cmd (List ℕ)
session = do
  fs ← init_fs aligned 512 8192
  make_item fs (codes "/a") 2
  perform_write fs (codes "/a") 0 (7 ∷ 8 ∷ 9 ∷ [])
  cat fs (codes "/a")

answer-session : answer (session blank) ≡ value (7 ∷ 8 ∷ 9 ∷ [])
unfolding session answer store8 load_le store_le load_bytes store_bytes clear_bytes mark_bit
    mark_block_in_lookup_table first_clear_bit complement_is_zero next_free_from
    get_next_free_block_index get_platform_values is_platform_compatible get_inode get_next_inode
    init_new_file purge_loop purge_blocks get_blocks_required extend_loop shrink_loop extend_file
    shrink_file truncate_file advance skip_first skip_common seek read_loop read_part read_file
    read_entire_file write_loop write_file_unchecked write_file append_file_unchecked append_file
    decode_item encode_item decode_items read_directory append_directory find_item_from
    find_directory_item append_others remove_from_directory purge_items purge_file get_file_size
    trace_loop trace_file_blocks measure_path fill_path split_path text_in part_at locate_from
    locate_path load_portability store_portability mark_metadata prepare_descriptors init_fs open_fs
    make_item zero_lines write_chunks perform_write cat_loop cat ls rm stat le_value le_bytes
    text_of text_eq
answer-session = refl

listing : Cmd (List (ℕ × List ℕ))
listing = do
  fs ← init_fs aligned 512 8192
  make_item fs (codes "/a") 2
  make_item fs (codes "/d") 1
  make_item fs (codes "/d/b") 2
  ls fs (codes "/d")

answer-listing : answer (listing blank) ≡ value ((5, codes "b") ∷ [])
unfolding listing answer store8 load_le store_le load_bytes store_bytes clear_bytes mark_bit
    mark_block_in_lookup_table first_clear_bit complement_is_zero next_free_from
    get_next_free_block_index get_platform_values is_platform_compatible get_inode get_next_inode
    init_new_file purge_loop purge_blocks get_blocks_required extend_loop shrink_loop extend_file
    shrink_file truncate_file advance skip_first skip_common seek read_loop read_part read_file
    read_entire_file write_loop write_file_unchecked write_file append_file_unchecked append_file
    decode_item encode_item decode_items read_directory append_directory find_item_from
    find_directory_item append_others remove_from_directory purge_items purge_file get_file_size
    trace_loop trace_file_blocks measure_path fill_path split_path text_in part_at locate_from
    locate_path load_portability store_portability mark_metadata prepare_descriptors init_fs open_fs
    make_item zero_lines write_chunks perform_write cat_loop cat ls rm stat le_value le_bytes
    text_of text_eq
answer-listing = refl

-- Removing `/c`, the second item of the root, frees the blocks of the file at block 1, the root.
removal : Cmd (List (ℕ × List ℕ))
removal = do
  fs ← init_fs aligned 1024 8192
  make_item fs (codes "/a") 2
  make_item fs (codes "/c") 2
  rm fs (codes "/c")
  make_item fs (codes "/x") 1
  ls fs (codes "/")

answer-removal : answer (removal blank) ≡ value ((1, codes "x") ∷ [])
unfolding removal answer store8 load_le store_le load_bytes store_bytes clear_bytes mark_bit
    mark_block_in_lookup_table first_clear_bit complement_is_zero next_free_from
    get_next_free_block_index get_platform_values is_platform_compatible get_inode get_next_inode
    init_new_file purge_loop purge_blocks get_blocks_required extend_loop shrink_loop extend_file
    shrink_file truncate_file advance skip_first skip_common seek read_loop read_part read_file
    read_entire_file write_loop write_file_unchecked write_file append_file_unchecked append_file
    decode_item encode_item decode_items read_directory append_directory find_item_from
    find_directory_item append_others remove_from_directory purge_items purge_file get_file_size
    trace_loop trace_file_blocks measure_path fill_path split_path text_in part_at locate_from
    locate_path load_portability store_portability mark_metadata prepare_descriptors init_fs open_fs
    make_item zero_lines write_chunks perform_write cat_loop cat ls rm stat le_value le_bytes
    text_of text_eq
answer-removal = refl

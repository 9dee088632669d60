-- ===== src/Netfs/Server.antt =====
-- hw2-netfs/src/backend_operations_impl.c and net_backend.c: the operations of the server on the
-- container, and one request of a client. The core of hw2-netfs has the functions of hw1-fs/manage.c,
-- with packed structures. `malloc` says for which sizes the buffer of a read can be allocated; the
-- other allocations succeed, and what is sent arrives.
pub mod Answers
use mipt_kis_linux.Prelude.{
  ℕ, Bool, zero, suc, ◌+◌, ◌-◌, List, [], ◌∷◌, ◌++◌, Option, none, some, ◌==◌, leb, true, false,
  if◌then◌else◌, length, take, le_bytes,
}
use mipt_kis_linux.Rfs.Machine.{
  Mem, Cmd, Outcome, Message, done, died, fault, out_of_fuel, pure, ◌>>=◌, ◌>>◌, die_fatal,
  too_long_name, allocation_failed,
}
use mipt_kis_linux.Rfs.Layout.{Layout, FsDescriptors, file_name_length}
use mipt_kis_linux.Rfs.Table.{blocks_count}
use mipt_kis_linux.Rfs.Blocks.{init_new_file, get_blocks_required}
use mipt_kis_linux.Rfs.Files.{read_file, write_file}
use mipt_kis_linux.Rfs.Directory.{
  DirectoryItem, Trace, encode_item, read_directory, append_directory, remove_from_directory,
  purge_file, get_file_size, trace_file_blocks,
}
use mipt_kis_linux.Rfs.Paths.{FsPath, split_path, text_in, part_at, locate_path}
use mipt_kis_linux.Rfs.Commands.{parent, new_item}
use mipt_kis_linux.Netfs.Socket.{Socket}
use mipt_kis_linux.Netfs.Protocol.{
  NetFsOperation, Unread, read, write, create, remove, stat, read_dir, Received, complete,
  incomplete, unknown, slz_NetFsOperation_read, string_fields, write_array,
}

-- The structures of include/rfscore/fs.h under `#pragma pack(push, 1)`.
abbrev pub packed : Layout
packed = record {
  sizeof_size_t = 8;
  sizeof_superblock = 36;
  sizeof_inode = 8;
  sizeof_inode_main = 29;
  sizeof_directory_item = 264;
  offset_size = 8;
  offset_links_count = 16;
  offset_flags = 20;
  offset_last_inode = 21;
}

-- `args->path.string` as a text: a fault where it is null or does not end.
unfoldable pub path_text : List ℕ → Cmd (List ℕ)
path_text path m = elim (text_in path) [ none ↦ fault m | some text ↦ done text m ]

-- `slz_String_write`.
unfoldable pub slz_String_write : (pointer : ℕ) → List ℕ → List ℕ
slz_String_write pointer text = string_fields pointer text ++ write_array text

-- `to_string("")` has the zero of its text.
unfoldable pub write_empty_error : (pointer : ℕ) → List ℕ
write_empty_error pointer = slz_String_write pointer (0 ∷ [])

-- A request: the thread goes on with the next one, ends as the stream ends, or ends with the
-- error that it sends. The last two are accesses outside the memory and an unknown end.
pub data Served : Type 0 where
  goes_on : (sent : List ℕ) → Mem → Socket → Served
  closed : Mem → Served
  thread_exit : (sent : List ℕ) → Mem → Socket → Served
  crashed : Mem → Served
  unended : Served

-- The elements of an array of `size_t`.
unfoldable pub words : List ℕ → List ℕ
words [] = []
words (w ∷ ws) = le_bytes 8 w ++ words ws

-- What `serve_client` does behind a request: the next one, when the last was carried out.
unfoldable pub after_request : Served → (Socket → Mem → List ℕ × Served) → List ℕ × Served
after_request (goes_on sent m s) next = let (more, end) = next s m in (sent ++ more, end)
after_request (thread_exit sent m s) next = (sent, thread_exit sent m s)
after_request (closed m) next = ([], closed m)
after_request (crashed m) next = ([], crashed m)
after_request unended next = ([], unended)

module _ (pointer : ℕ) (fds : FsDescriptors) (malloc : ℕ → Bool) where
  unfoldable pub fsop_read : (path : List ℕ) → (offset length : ℕ) → Cmd (List ℕ)
  fsop_read path offset length = do
    text ← path_text path
    p ← split_path text
    inode ← locate_path fds p
    if malloc length then pure tt else die_fatal allocation_failed
    (count, data_bytes) ← read_file fds inode offset length
    pure (write_empty_error pointer ++ slz_String_write pointer data_bytes)

  unfoldable pub fsop_write : (path : List ℕ) → (offset : ℕ) → List ℕ → Cmd (List ℕ)
  fsop_write path offset data_bytes = do
    text ← path_text path
    p ← split_path text
    inode ← locate_path fds p
    write_file fds inode offset data_bytes
    pure (write_empty_error pointer)

  unfoldable pub fsop_create : (path : List ℕ) → (flags : ℕ) → Cmd (List ℕ)
  fsop_create path flags = do
    text ← path_text path
    p ← split_path text
    dir_inode ← locate_path fds (parent p)
    name ← part_at p (parent p).count
    if leb file_name_length (length name) then die_fatal too_long_name else pure tt
    file_inode ← init_new_file fds flags
    append_directory fds dir_inode (new_item file_inode name)
    pure (write_empty_error pointer)

  unfoldable pub fsop_remove : (path : List ℕ) → Cmd (List ℕ)
  fsop_remove path = do
    text ← path_text path
    p ← split_path text
    dir_inode ← locate_path fds (parent p)
    name ← part_at p (parent p).count
    file_inode ← remove_from_directory fds dir_inode name
    λ m. purge_file (blocks_count fds m) fds file_inode m
    pure (write_empty_error pointer)

  -- `FsOpStat_response`, then the array of the blocks.
  unfoldable pub stat_response : (size count : ℕ) → List ℕ → List ℕ
  stat_response size count blocks =
      le_bytes 8 size
      ++ (le_bytes 8 count ++ (le_bytes 8 pointer ++ (le_bytes 8 count ++ words blocks)))

  unfoldable pub fsop_stat : (path : List ℕ) → Cmd (List ℕ)
  fsop_stat path = do
    text ← path_text path
    p ← split_path text
    inode ← locate_path fds p
    size ← get_file_size fds inode
    blocks ← get_blocks_required fds size
    trace ← trace_file_blocks fds inode
    pure (write_empty_error pointer ++ stat_response size blocks (take blocks trace.entries))

  unfoldable pub item_bytes : List DirectoryItem → List ℕ
  item_bytes [] = []
  item_bytes (item ∷ items) = encode_item fds item ++ item_bytes items

  -- `DirectoryContent`, then the array of the items.
  unfoldable pub fsop_read_dir : (path : List ℕ) → Cmd (List ℕ)
  fsop_read_dir path = do
    text ← path_text path
    p ← split_path text
    dir_inode ← locate_path fds p
    content ← read_directory fds dir_inode
    let count = le_bytes 8 (length content)
    pure (
        write_empty_error pointer
        ++ (count ++ (le_bytes 8 pointer ++ (count ++ item_bytes content))))

  -- `_FSOP_calls`.
  unfoldable pub process_operation : NetFsOperation → Cmd (List ℕ)
  process_operation (read path offset length) = fsop_read path offset length
  process_operation (write path offset data_bytes) = fsop_write path offset data_bytes
  process_operation (create path flags) = fsop_create path flags
  process_operation (remove path) = fsop_remove path
  process_operation (stat path) = fsop_stat path
  process_operation (read_dir path) = fsop_read_dir path

  -- `fsop_error`, which is the interceptor of errors while an operation runs, sends the message.
  unfoldable pub answer_to : (text : Message → List ℕ) → Outcome (List ℕ) → Socket → Served
  answer_to text (done sent m) s = goes_on sent m s
  answer_to text (died e m) s = thread_exit (slz_String_write pointer (text e ++ 0 ∷ [])) m s
  answer_to text (fault m) s = crashed m
  answer_to text out_of_fuel s = unended

  -- `text` gives the texts of the messages.
  unfoldable pub serve_next_operation : Unread → (text : Message → List ℕ) → Socket → Mem → Served
  serve_next_operation unread text s m =
      let (op, s') = slz_NetFsOperation_read unread s in
      elim op [
        | none ↦ closed m
        | some unknown ↦ goes_on [] m s'
        | some (incomplete operation) ↦ answer_to text (operation m) s'
        | some (complete op) ↦ answer_to text (process_operation op m) s'
      ]

  -- All that is sent, and the end of the last request, for a number of requests at most, while no
  -- other client stores anything.
  unfoldable pub serve_client :
      (requests : ℕ) → Unread → (text : Message → List ℕ) → Socket → Mem → List ℕ × Served
  serve_client zero unread text s m = ([], goes_on [] m s)
  serve_client (suc n) unread text s m =
      after_request (serve_next_operation unread text s m) (serve_client n unread text)

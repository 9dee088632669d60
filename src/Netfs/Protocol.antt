-- ===== src/Netfs/Protocol.antt =====
-- hw2-netfs: the operations of include/rfsnet/net.h on the wire, by the serializers of
-- include/serialization.h and src/serializers.c. A packed structure is sent as its bytes, pointers
-- included, and an array behind it as its count and its elements.
use mipt_kis_linux.Rfs.Machine.{Cmd}
use mipt_kis_linux.Prelude.{
  ℕ, zero, suc, ◌+◌, List, [], ◌∷◌, ◌++◌, Option, none, some, ◌==◌, if◌then◌else◌, length, take,
  drop, le_bytes, le_value,
}
use mipt_kis_linux.Netfs.Socket.{Socket, safe_read}

-- `NetFsOperation`, with the arguments of each type. A `String` is the list of its bytes.
pub data NetFsOperation : Type 0 where
  read : (path : List ℕ) (offset length : ℕ) → NetFsOperation
  write : (path : List ℕ) (offset : ℕ) (data_bytes : List ℕ) → NetFsOperation
  create : (path : List ℕ) (flags : ℕ) → NetFsOperation
  remove stat read_dir : (path : List ℕ) → NetFsOperation

-- What memory holds where nothing was read: the bytes of a new buffer, and what an operation does
-- whose path or numbers are not there.
pub record Unread : Type 0 where
  pub buffer : (index : ℕ) → ℕ
  pub operation : Cmd (List ℕ)

-- What `slz_NetFsOperation_read` leaves: the result of the reader of the arguments is dropped, so
-- the arguments may be missing, and a type may be unknown.
pub data Received : Type 0 where
  complete : NetFsOperation → Received
  incomplete : (operation : Cmd (List ℕ)) → Received
  unknown : Received

abbrev pub Reader : Type 0 → Type 0
Reader A = Socket → Option A × Socket

module _ {A B : Type 0} where
  abbrev pub then_read : Option A × Socket → (A → Reader B) → Option B × Socket
  then_read (none, s) k = (none, s)
  then_read (some a, s) k = k a s

  infixl 5 ◌>>=◌
  abbrev pub ◌>>=◌ : Reader A → (A → Reader B) → Reader B
  c >>= k = λ s. then_read (c s) k

abbrev pub got_all : {A : Type 0} → A → Reader A
got_all a s = (some a, s)

-- `_SLZ_ARRAY_READER_IMPL` and `_SLZ_ARRAY_WRITER_IMPL` for bytes.
unfoldable pub read_array : Reader (List ℕ)
read_array = do
  count ← safe_read 8
  if le_value count == 0 then got_all [] else safe_read (le_value count)

unfoldable pub write_array : List ℕ → List ℕ
write_array field = le_bytes 8 (length field) ++ field

-- The number of `size` bytes at an offset of a structure.
abbrev pub field_at : (offset size : ℕ) → List ℕ → ℕ
field_at offset size bytes = le_value (take size (drop offset bytes))

unfoldable pub slz_FsOpRead_read : Reader NetFsOperation
slz_FsOpRead_read = do
  value ← safe_read 32
  path ← read_array
  got_all (read path (field_at 16 8 value) (field_at 24 8 value))

unfoldable pub slz_FsOpWrite_read : Reader NetFsOperation
slz_FsOpWrite_read = do
  value ← safe_read 40
  path ← read_array
  data_bytes ← read_array
  got_all (write path (field_at 16 8 value) data_bytes)

unfoldable pub slz_FsOpCreate_read : Reader NetFsOperation
slz_FsOpCreate_read = do
  value ← safe_read 17
  path ← read_array
  got_all (create path (field_at 16 1 value))

-- The three operations that have a path only.
unfoldable pub slz_path_read : (List ℕ → NetFsOperation) → Reader NetFsOperation
slz_path_read op = do value ← safe_read 16; path ← read_array; got_all (op path)

-- `_FSOP_readers`, by the numbers of `enum FsOpType`.
unfoldable pub read_args : (type : ℕ) → Option (Reader NetFsOperation)
read_args type =
    if type == 0
    then some slz_FsOpRead_read
    else if type == 1
    then some slz_FsOpWrite_read
    else if type == 2
    then some slz_FsOpCreate_read
    else if type == 3
    then some (slz_path_read remove)
    else if type == 4
    then some (slz_path_read stat)
    else if type == 5
    then some (slz_path_read read_dir)
    else none

-- A write whose data are cut off: the rest of the structure is read, and its buffer is allocated.
unfoldable pub buffer_bytes : (buffer : ℕ → ℕ) → (index count : ℕ) → List ℕ
buffer_bytes buffer index zero = []
buffer_bytes buffer index (suc n) = buffer index ∷ buffer_bytes buffer (index + 1) n

unfoldable pub cut_off_write : (buffer : ℕ → ℕ) → Reader NetFsOperation
cut_off_write buffer = do
  value ← safe_read 40
  path ← read_array
  count ← safe_read 8
  got_all (write path (field_at 16 8 value) (buffer_bytes buffer 0 (le_value count)))

abbrev pub held : Unread → Option NetFsOperation → Received
held unread none = incomplete unread.operation
held unread (some op) = complete op

-- What the arguments hold when their reader, which began at a socket, failed.
unfoldable pub unread_args : Unread → (type : ℕ) → Socket → Received
unread_args unread type begun =
    if type == 1
    then held unread (cut_off_write unread.buffer begun).0
    else incomplete unread.operation

abbrev pub received :
    Unread
    → (type : ℕ) → (begun : Socket) → Option NetFsOperation × Socket
    → Option Received × Socket
received unread type begun (none, s) = (some (unread_args unread type begun), s)
received unread type begun (some op, s) = (some (complete op), s)

unfoldable pub slz_NetFsOperation_read : Unread → Reader Received
slz_NetFsOperation_read unread = do
  type ← safe_read 4
  elim (read_args (le_value type)) [
    | none ↦ got_all unknown
    | some reader ↦ λ s. received unread (le_value type) s (reader s)
  ]

-- A `String` inside a structure: its length and its pointer.
abbrev pub string_fields : (pointer : ℕ) → List ℕ → List ℕ
string_fields pointer text = le_bytes 8 (length text) ++ le_bytes 8 pointer

-- The bytes of an operation; the pointers are those of the sender.
unfoldable pub slz_NetFsOperation_write : (pointer data_pointer : ℕ) → NetFsOperation → List ℕ
slz_NetFsOperation_write pointer data_pointer (read path offset len) =
    le_bytes 4 0
    ++ ((string_fields pointer path ++ (le_bytes 8 offset ++ le_bytes 8 len)) ++ write_array path)
slz_NetFsOperation_write pointer data_pointer (write path offset data_bytes) =
    le_bytes 4 1
    ++ ((string_fields pointer path
          ++ (le_bytes 8 offset ++ (le_bytes 8 (length data_bytes) ++ le_bytes 8 data_pointer)))
        ++ (write_array path ++ write_array data_bytes))
slz_NetFsOperation_write pointer data_pointer (create path flags) =
    le_bytes 4 2 ++ ((string_fields pointer path ++ le_bytes 1 flags) ++ write_array path)
slz_NetFsOperation_write pointer data_pointer (remove path) =
    le_bytes 4 3 ++ (string_fields pointer path ++ write_array path)
slz_NetFsOperation_write pointer data_pointer (stat path) =
    le_bytes 4 4 ++ (string_fields pointer path ++ write_array path)
slz_NetFsOperation_write pointer data_pointer (read_dir path) =
    le_bytes 4 5 ++ (string_fields pointer path ++ write_array path)

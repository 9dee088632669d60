-- ===== src/Netfs/Server/Answers.antt =====
-- hw2-netfs/src/net_backend.c: what the server sends for a request to read.
use mipt_kis_linux.Prelude.{
  ℕ, ◌+◌, ◌<◌, ◌≤◌, ◌≡◌, refl, Bool, true, false, List, [], ◌∷◌, ◌++◌, arith, ◌==◌, lt→ltb, take,
  drop,
}
use mipt_kis_linux.Rfs.Machine.{Mem, Message, done, died, invalid_position, size_mod}
use mipt_kis_linux.Rfs.Layout.{FsDescriptors}
use mipt_kis_linux.Rfs.Files.{read_file}
use mipt_kis_linux.Rfs.Files.Content.{IsGeometry, IsFile, file_size, file_contents, get_inode_lem}
use mipt_kis_linux.Rfs.Files.Read.{read_file-contents}
use mipt_kis_linux.Rfs.Paths.{FsPath, split_path, locate_path}
use mipt_kis_linux.Netfs.Socket.{Socket}
use mipt_kis_linux.Netfs.Socket.Pieces.{Delivers}
use mipt_kis_linux.Netfs.Protocol.{Unread, read, slz_NetFsOperation_write}
use mipt_kis_linux.Netfs.Roundtrip.{IsOperation, slz_NetFsOperation_read-slz_NetFsOperation_write}
use mipt_kis_linux.Netfs.Server.{
  goes_on, thread_exit, path_text, slz_String_write, write_empty_error, fsop_read,
  process_operation, answer_to, serve_next_operation,
}

-- The path of a request leads to a block.
pub record Leads (fds : FsDescriptors) (m : Mem) (path : List ℕ) (b : ℕ) : Type 0 where
  pub text : List ℕ
  pub parts : FsPath
  pub read_text : path_text path m ≡ done text m
  pub split : split_path text m ≡ done parts m
  pub located : locate_path fds parts m ≡ done b m

module _ (fds : FsDescriptors) (malloc : ℕ → Bool) (m : Mem) (path : List ℕ) (b : ℕ)
    (leads : Leads fds m path b) where
  fsop_read-Leads :
      (pointer offset len : ℕ) (count : ℕ) (bytes : List ℕ)
      → malloc len ≡ true
      → read_file fds b offset len m ≡ done (count, bytes) m
      → fsop_read pointer fds malloc path offset len m
        ≡ done (write_empty_error pointer ++ slz_String_write pointer bytes) m
  unfolding fsop_read
  fsop_read-Leads pointer offset len count bytes allocated e =
      rw (leads.read_text, leads.split, leads.located, allocated, e) refl

  fsop_read-died :
      (pointer offset len : ℕ) (e : Message)
      → malloc len ≡ true
      → read_file fds b offset len m ≡ died e m
      → fsop_read pointer fds malloc path offset len m ≡ died e m
  unfolding fsop_read
  fsop_read-died pointer offset len e allocated died_here =
      rw (leads.read_text, leads.split, leads.located, allocated, died_here) refl

read_file-past :
    (fds : FsDescriptors) (m : Mem) (b offset len : ℕ) (cs : List ℕ)
    → IsFile fds m b cs
    → 0 < len
    → file_size fds m b < offset
    → read_file fds b offset len m ≡ died invalid_position m
unfolding read_file
read_file-past fds m b offset len cs file some_asked past =
    let some_left : (len == 0) ≡ false = ground arith in
    let miss : (offset == file_size fds m b) ≡ false = ground arith in
    rw (some_left, get_inode_lem fds m b file.block, miss, lt→ltb _ _ past) refl

module _ (unread : Unread) (fds : FsDescriptors) (malloc : ℕ → Bool) (m : Mem)
    (geo : IsGeometry fds m) (path : List ℕ) (b : ℕ) (cs : List ℕ) (leads : Leads fds m path b)
    (file : IsFile fds m b cs) (pointer pointer' data_pointer : ℕ) (text : Message → List ℕ)
    (offset len : ℕ) (op : IsOperation (read path offset len)) (rest : List ℕ) (s : Socket)
    (allocated : malloc len ≡ true)
    (sent : Delivers
      (slz_NetFsOperation_write pointer' data_pointer (read path offset len) ++ rest)
      s) where
  -- When a complete request to read arrives, its path leads to a file whose chain has room for its
  -- size, its numbers fit in their fields, the offset is not behind the end and offset and length
  -- do not wrap, the server sends the empty error and the part of the file's contents that was
  -- asked for, cut to its end, stores nothing, and goes on with what comes behind the request.
  pub serve_next_operation-contents :
      offset ≤ file_size fds m b
      → offset + len < size_mod
      → (s' : Socket) × (serve_next_operation pointer fds malloc unread text s m
          ≡ goes_on
              (write_empty_error pointer
                ++ slz_String_write pointer (take len (drop offset (file_contents fds m b cs))))
              m
              s')
        × Delivers rest s'
  unfolding serve_next_operation answer_to process_operation
  serve_next_operation-contents inside no_wrap =
      let (s', e, d) =
        slz_NetFsOperation_read-slz_NetFsOperation_write unread (read path offset len) pointer'
          data_pointer rest s op sent in
      let answered =
        fsop_read-Leads fds malloc m path b leads pointer offset len _ _ allocated
          (read_file-contents geo b offset len cs file inside no_wrap) in
      (s', rw (serve_next_operation, e, answered, e) refl, d)

  -- When a complete request to read one byte or more arrives, its path leads to a file whose chain
  -- has room for its size, its numbers fit in their fields, and the offset is behind the end, the
  -- server sends the message of an invalid position, stores nothing, and ends the thread.
  pub serve_next_operation-past :
      0 < len
      → file_size fds m b < offset
      → (s' : Socket) × (serve_next_operation pointer fds malloc unread text s m
          ≡ thread_exit (slz_String_write pointer (text invalid_position ++ 0 ∷ [])) m s')
        × Delivers rest s'
  unfolding serve_next_operation answer_to process_operation
  serve_next_operation-past some_asked past =
      let (s', e, d) =
        slz_NetFsOperation_read-slz_NetFsOperation_write unread (read path offset len) pointer'
          data_pointer rest s op sent in
      let answered =
        fsop_read-died fds malloc m path b leads pointer offset len invalid_position allocated
          (read_file-past fds m b offset len cs file some_asked past) in
      (s', rw (serve_next_operation, e, answered, e) refl, d)

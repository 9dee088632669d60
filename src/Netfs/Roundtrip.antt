-- ===== src/Netfs/Roundtrip.antt =====
-- hw2-netfs: an operation that is written and read by the serializers of src/serializers.c.
use mipt_kis_linux.Prelude.{
  ℕ, ◌<◌, ◌≡◌, refl, ap, subst, ◌∙◌, List, [], ◌++◌, append_assoc, append-nil, some, arith, length,
  length-append, le_bytes, length-le_bytes, le_value-le_bytes,
}
use mipt_kis_linux.Netfs.Socket.{Socket, safe_read}
use mipt_kis_linux.Netfs.Socket.Pieces.{Delivers}
use mipt_kis_linux.Netfs.Protocol.{
  NetFsOperation, Unread, read, write, create, remove, stat, read_dir, complete, Reader, read_array,
  write_array, field_at, slz_FsOpRead_read, slz_FsOpWrite_read, slz_FsOpCreate_read, slz_path_read,
  read_args, slz_NetFsOperation_read, string_fields, slz_NetFsOperation_write,
}
use mipt_kis_linux.Netfs.Fields.{
  Yields, Yields-then, safe_read-Yields, IsWord, read_array-Yields, field_at-number,
  length-string_fields,
}

-- The bytes of a type, then a structure, then arrays.
module _ (unread : Unread) (rest : List ℕ) (type : ℕ) (value arrays : List ℕ) (op : NetFsOperation)
    (s : Socket) (reader : Reader NetFsOperation) (small : type < 256) where
  typed-Yields :
      read_args type ≡ some reader
      → ((s' : Socket) → Delivers (value ++ (arrays ++ rest)) s' → Yields reader op rest s')
      → Delivers ((le_bytes 4 type ++ (value ++ arrays)) ++ rest) s
      → Yields (slz_NetFsOperation_read unread) (complete op) rest s
  unfolding slz_NetFsOperation_read
  typed-Yields known args d =
      Yields-then (safe_read 4) _ (le_bytes 4 type) (complete op) (value ++ (arrays ++ rest)) rest s
        (safe_read-Yields 4 (le_bytes 4 type) (value ++ (arrays ++ rest)) s (length-le_bytes 4 type)
          (subst (λ bytes. Delivers bytes s)
            (append_assoc (le_bytes 4 type) (value ++ arrays) rest
              ∙ ap (λ r. le_bytes 4 type ++ r) (append_assoc value arrays rest))
            d))
        (λ s' d'.
          let (s2, e, d2) = args s' d' in
          rw (le_value-le_bytes 4 type (omega arith), known) (s2, rw e refl, d2))

module _ (rest : List ℕ) (pointer : ℕ) (path : List ℕ) (fits : IsWord (length path)) where
  -- The readers of the arguments, one for each structure.
  path-Yields :
      (op : List ℕ → NetFsOperation) (s : Socket)
      → Delivers (string_fields pointer path ++ (write_array path ++ rest)) s
      → Yields (slz_path_read op) (op path) rest s
  unfolding slz_path_read
  path-Yields op s d =
      Yields-then (safe_read 16) _ (string_fields pointer path) (op path) (write_array path ++ rest)
        rest s
        (safe_read-Yields 16 (string_fields pointer path) (write_array path ++ rest) s
          (length-string_fields pointer path) d)
        (λ s1 d1.
          Yields-then read_array _ path (op path) rest rest s1
            (read_array-Yields path rest s1 fits d1) (λ s2 d2. (s2, refl, d2)))

  create-Yields :
      (flags : ℕ) (s : Socket)
      → flags < 256
      → Delivers ((string_fields pointer path ++ le_bytes 1 flags) ++ (write_array path ++ rest)) s
      → Yields slz_FsOpCreate_read (create path flags) rest s
  unfolding slz_FsOpCreate_read
  create-Yields flags s small d =
      let value = string_fields pointer path ++ le_bytes 1 flags in
      let size : length value ≡ 17 = omega (
        arith,
        length-append (string_fields pointer path) (le_bytes 1 flags),
        length-string_fields pointer path,
        length-le_bytes 1 flags,
      ) in
      let flags' : field_at 16 1 value ≡ flags =
        rw (length-string_fields pointer path, append-nil) at
          (field_at-number (string_fields pointer path) 1 flags [] (omega arith)) in
      Yields-then (safe_read 17) _ value (create path flags) (write_array path ++ rest) rest s
        (safe_read-Yields 17 value (write_array path ++ rest) s size d)
        (λ s1 d1.
          Yields-then read_array _ path (create path flags) rest rest s1
            (read_array-Yields path rest s1 fits d1) (λ s2 d2. (s2, rw flags' refl, d2)))

  read-Yields :
      (offset len : ℕ) (s : Socket)
      → IsWord offset
      → IsWord len
      → Delivers
          ((string_fields pointer path ++ (le_bytes 8 offset ++ le_bytes 8 len))
            ++ (write_array path ++ rest))
          s
      → Yields slz_FsOpRead_read (read path offset len) rest s
  unfolding slz_FsOpRead_read
  read-Yields offset len s small small' d =
      let strings = string_fields pointer path in
      let value = strings ++ (le_bytes 8 offset ++ le_bytes 8 len) in
      let front : length (strings ++ le_bytes 8 offset) ≡ 24 = omega (
        arith,
        length-append strings (le_bytes 8 offset),
        length-string_fields pointer path,
        length-le_bytes 8 offset,
      ) in
      let size : length value ≡ 32 = omega (
        arith,
        length-append strings (le_bytes 8 offset ++ le_bytes 8 len),
        length-append (le_bytes 8 offset) (le_bytes 8 len),
        length-string_fields pointer path,
        length-le_bytes 8 offset,
        length-le_bytes 8 len,
      ) in
      let offset' : field_at 16 8 value ≡ offset =
        rw (length-string_fields pointer path) at
          (field_at-number strings 8 offset (le_bytes 8 len) (omega arith)) in
      let len' : field_at 24 8 value ≡ len =
        rw (front, append-nil, append_assoc strings (le_bytes 8 offset) (le_bytes 8 len)) at
          (field_at-number (strings ++ le_bytes 8 offset) 8 len [] (omega arith)) in
      Yields-then (safe_read 32) _ value (read path offset len) (write_array path ++ rest) rest s
        (safe_read-Yields 32 value (write_array path ++ rest) s size d)
        (λ s1 d1.
          Yields-then read_array _ path (read path offset len) rest rest s1
            (read_array-Yields path rest s1 fits d1) (λ s2 d2. (s2, rw (offset', len') refl, d2)))

  write-Yields :
      (offset data_pointer : ℕ) (data_bytes : List ℕ) (s : Socket)
      → IsWord offset
      → IsWord (length data_bytes)
      → Delivers
          ((string_fields pointer path
              ++ (le_bytes 8 offset ++ (le_bytes 8 (length data_bytes) ++ le_bytes 8 data_pointer)))
            ++ ((write_array path ++ write_array data_bytes) ++ rest))
          s
      → Yields slz_FsOpWrite_read (write path offset data_bytes) rest s
  unfolding slz_FsOpWrite_read
  write-Yields offset data_pointer data_bytes s small small' d =
      let strings = string_fields pointer path in
      let tail = le_bytes 8 (length data_bytes) ++ le_bytes 8 data_pointer in
      let value = strings ++ (le_bytes 8 offset ++ tail) in
      let arrays = write_array path ++ write_array data_bytes in
      let size : length value ≡ 40 = omega (
        arith,
        length-append strings (le_bytes 8 offset ++ tail),
        length-append (le_bytes 8 offset) tail,
        length-append (le_bytes 8 (length data_bytes)) (le_bytes 8 data_pointer),
        length-string_fields pointer path,
        length-le_bytes 8 offset,
        length-le_bytes 8 (length data_bytes),
        length-le_bytes 8 data_pointer,
      ) in
      let offset' : field_at 16 8 value ≡ offset =
        rw (length-string_fields pointer path) at
          (field_at-number strings 8 offset tail (omega arith)) in
      let op = write path offset data_bytes in
      Yields-then (safe_read 40) _ value op (arrays ++ rest) rest s
        (safe_read-Yields 40 value (arrays ++ rest) s size d)
        (λ s1 d1.
          Yields-then read_array _ path op (write_array data_bytes ++ rest) rest s1
            (read_array-Yields path (write_array data_bytes ++ rest) s1 fits (
              subst (λ bytes. Delivers bytes s1)
                (append_assoc (write_array path) (write_array data_bytes) rest) d1))
            (λ s2 d2.
              Yields-then read_array _ data_bytes op rest rest s2
                (read_array-Yields data_bytes rest s2 small' d2)
                (λ s3 d3. (s3, rw offset' refl, d3))))

-- The numbers of an operation fit in their fields.
abbrev pub IsOperation : NetFsOperation → Type 0
IsOperation (read path offset len) = IsWord (length path) × IsWord offset × IsWord len
IsOperation (write path offset data_bytes) =
    IsWord (length path) × IsWord offset × IsWord (length data_bytes)
IsOperation (create path flags) = IsWord (length path) × (flags < 256)
IsOperation (remove path) = IsWord (length path)
IsOperation (stat path) = IsWord (length path)
IsOperation (read_dir path) = IsWord (length path)

-- An operation whose numbers fit in their fields is read back from the bytes that are written for
-- it, whatever the pointers are, the pieces in which they arrive, and the bytes behind it, and
-- these are what comes next.
pub slz_NetFsOperation_read-slz_NetFsOperation_write :
    (unread : Unread) (op : NetFsOperation) (pointer data_pointer : ℕ) (rest : List ℕ) (s : Socket)
    → IsOperation op
    → Delivers (slz_NetFsOperation_write pointer data_pointer op ++ rest) s
    → Yields (slz_NetFsOperation_read unread) (complete op) rest s
unfolding slz_NetFsOperation_write read_args
slz_NetFsOperation_read-slz_NetFsOperation_write unread (read path offset len) pointer _ rest s h
      d =
    typed-Yields unread rest 0 _ (write_array path) _ s slz_FsOpRead_read (omega arith) refl
      (λ s' d'. read-Yields rest pointer path h.0 offset len s' h.1 h.2 d') d
slz_NetFsOperation_read-slz_NetFsOperation_write unread (write path offset data_bytes) pointer
      data_pointer rest s h d =
    typed-Yields unread rest 1 _ (write_array path ++ write_array data_bytes) _ s slz_FsOpWrite_read
      (omega arith) refl
      (λ s' d'. write-Yields rest pointer path h.0 offset data_pointer data_bytes s' h.1 h.2 d') d
slz_NetFsOperation_read-slz_NetFsOperation_write unread (create path flags) pointer _ rest s h d =
    typed-Yields unread rest 2 _ (write_array path) _ s slz_FsOpCreate_read (omega arith) refl
      (λ s' d'. create-Yields rest pointer path h.0 flags s' h.1 d') d
slz_NetFsOperation_read-slz_NetFsOperation_write unread (remove path) pointer _ rest s h d =
    typed-Yields unread rest 3 _ (write_array path) _ s (slz_path_read remove) (omega arith) refl
      (λ s' d'. path-Yields rest pointer path h remove s' d') d
slz_NetFsOperation_read-slz_NetFsOperation_write unread (stat path) pointer _ rest s h d =
    typed-Yields unread rest 4 _ (write_array path) _ s (slz_path_read stat) (omega arith) refl
      (λ s' d'. path-Yields rest pointer path h stat s' d') d
slz_NetFsOperation_read-slz_NetFsOperation_write unread (read_dir path) pointer _ rest s h d =
    typed-Yields unread rest 5 _ (write_array path) _ s (slz_path_read read_dir) (omega arith) refl
      (λ s' d'. path-Yields rest pointer path h read_dir s' d') d

-- ===== src/Phonedir/Record.antt =====
-- hw3-kernel/kernel/phonedir.h: the record, the operations' codes, and errors.
pub mod Bytes
use mipt_kis_linux.Prelude.{ℕ, ◌+◌, ◌^◌, List, ◌++◌, take, drop, le_value, le_bytes}

abbrev pub phonedir_name_len : ℕ
phonedir_name_len = 128

abbrev pub phonedir_email_len : ℕ
phonedir_email_len = 64

abbrev pub phonedir_phone_len : ℕ
phonedir_phone_len = 64

-- Each `char` array is the list of its bytes.
pub record PhonedirRecord : Type 0 where
  pub surname : List ℕ
  pub name : List ℕ
  pub email : List ℕ
  pub phone : List ℕ
  pub age : ℕ

-- `sizeof(struct phonedir_record)`.
abbrev pub rec_size : ℕ
rec_size = 388

-- The bytes of a record, in the order of its fields, and a record read from bytes.
unfoldable pub record_bytes : PhonedirRecord → List ℕ
record_bytes r = r.surname ++ (r.name ++ (r.email ++ (r.phone ++ le_bytes 4 r.age)))

unfoldable pub record_of : List ℕ → PhonedirRecord
record_of bytes = record {
  surname = take 128 bytes;
  name = take 128 (drop 128 bytes);
  email = take 64 (drop 256 bytes);
  phone = take 64 (drop 320 bytes);
  age = le_value (take 4 (drop 384 bytes));
}

-- `enum phonedir_op_type`.
abbrev pub phonedir_add_op : ℕ
phonedir_add_op = 1

abbrev pub phonedir_delete_op : ℕ
phonedir_delete_op = 2

abbrev pub phonedir_find_op : ℕ
phonedir_find_op = 3

-- The errors that the module returns, each as a negative number.
pub data Errno : Type 0 where
  enomem eintr efault einval enospc enosys : Errno

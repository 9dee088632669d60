-- ===== src/Netfs/Client.antt =====
-- hw2-netfs/src/main_cli.c: what the client sends and how it reads the answers.
pub mod Reads
pub mod Cat
pub mod Tests
use mipt_kis_linux.Prelude.{
  ℕ, zero, suc, ◌-◌, List, [], ◌∷◌, ◌++◌, Option, none, some, ◌==◌, true, false, if◌then◌else◌,
  length,
}
use mipt_kis_linux.Rfs.Machine.{add_size}
use mipt_kis_linux.Netfs.Socket.{Socket, safe_read}
use mipt_kis_linux.Netfs.Protocol.{
  Reader, ◌>>=◌, then_read, got_all, read_array, NetFsOperation, read, create, remove, stat,
  read_dir, slz_NetFsOperation_write,
}

-- `slz_String_read`: the structure, then its bytes.
unfoldable pub slz_String_read : Reader (List ℕ)
slz_String_read = do value ← safe_read 16; text ← read_array; got_all text

-- How a command ends: with a value, with the message of the server, or without a connection.
pub data Answered (A : Type 0) : Type 0 where
  value : A → Answered A
  refused : (message : List ℕ) → Answered A
  lost : Answered A

-- The empty error is a text of one byte.
abbrev pub accept : Option (List ℕ) × Socket → Answered (Unit {0}) × Socket
accept (none, s) = (lost, s)
accept (some text, s) = if length text == 1 then (value tt, s) else (refused text, s)

unfoldable pub read_error : Socket → Answered (Unit {0}) × Socket
read_error s = accept (slz_String_read s)

-- What follows `read_error` in `perform_read`.
abbrev pub read_response : Option (List ℕ) × Socket → Answered (List ℕ) × Socket
read_response (none, s) = (lost, s)
read_response (some response, s) = (value response, s)

abbrev pub after_error : Answered (Unit {0}) × Socket → Answered (List ℕ) × Socket
after_error (value _, s) = read_response (slz_String_read s)
after_error (refused message, s) = (refused message, s)
after_error (lost, s) = (lost, s)

unfoldable pub receive_read : Socket → Answered (List ℕ) × Socket
receive_read s = after_error (read_error s)

-- `to_string(path)`.
unfoldable pub path_string : List ℕ → List ℕ
path_string path = path ++ 0 ∷ []

-- The bytes that `perform_read`, `make_item`, and the commands `rm`, `ls` and `stat` send.
module _ (pointer data_pointer : ℕ) (path : List ℕ) where
  unfoldable pub send_read : (offset length : ℕ) → List ℕ
  send_read offset length =
      slz_NetFsOperation_write pointer data_pointer (read (path_string path) offset length)

  unfoldable pub send_create : (flags : ℕ) → List ℕ
  send_create flags =
      slz_NetFsOperation_write pointer data_pointer (create (path_string path) flags)

  unfoldable pub send_remove : List ℕ
  send_remove = slz_NetFsOperation_write pointer data_pointer (remove (path_string path))

  unfoldable pub send_read_dir : List ℕ
  send_read_dir = slz_NetFsOperation_write pointer data_pointer (read_dir (path_string path))

  unfoldable pub send_stat : List ℕ
  send_stat = slz_NetFsOperation_write pointer data_pointer (stat (path_string path))

-- What the command `cat` sends and prints, and how it ends: `none` where the rounds run out.
pub record CatRun : Type 0 where
  pub sent : List ℕ
  pub output : List ℕ
  pub ending : Option (Answered (Unit {0}))

abbrev pub cat_ends : Answered (Unit {0}) → CatRun
cat_ends end = record { sent = []; output = []; ending = some end }

abbrev pub cat_goes_on : List ℕ → CatRun → CatRun
cat_goes_on bytes more = record more { output = bytes ++ more.output }

-- `while (read_bytes = perform_read(…))`.
abbrev pub after_read : Answered (List ℕ) × Socket → (List ℕ → Socket → CatRun) → CatRun
after_read (value bytes, s) next = elim (length bytes == 0) [
  | true ↦ cat_ends (value tt)
  | false ↦ cat_goes_on bytes (next bytes s)
]
after_read (refused message, s) next = cat_ends (refused message)
after_read (lost, s) next = cat_ends lost

-- The rounds of `cat` from an offset on, with a buffer of `size` bytes. The socket holds what the
-- server sends.
unfoldable pub cat_rounds :
    (pointer data_pointer : ℕ) (path : List ℕ) (fuel size total : ℕ) → Socket → CatRun
cat_rounds pointer data_pointer path zero size total s = record {
  sent = [];
  output = [];
  ending = none;
}
cat_rounds pointer data_pointer path (suc n) size total s =
    let run = after_read (receive_read s) (λ bytes s'.
      cat_rounds pointer data_pointer path n size (add_size total (length bytes)) s') in
    record run { sent = send_read pointer data_pointer path total size ++ run.sent }

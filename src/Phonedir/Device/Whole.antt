-- ===== src/Phonedir/Device/Whole.antt =====
-- hw3-kernel/kernel/kmodule.c: a write of one addition to an idle handle.
use mipt_kis_linux.Prelude.{
  ℕ, ◌^◌, ◌<◌, ◌≡◌, refl, false, List, [], ◌∷◌, ◌++◌, some, arith, length, drop, take_all,
  length-append, length-drop,
}
use mipt_kis_linux.Phonedir.Record.{PhonedirRecord, record_bytes}
use mipt_kis_linux.Phonedir.Record.Bytes.{
  IsRecord, length-record_bytes, take_front, record_of-record_bytes,
}
use mipt_kis_linux.Phonedir.Directory.{phonedir_add_record, phonedir_add, terminated, kmalloc}
use mipt_kis_linux.Phonedir.Device.{
  UserHandle, Kernel, ok, bytes, process_operation, process_add, input_loop, finish_input,
  handle_process_input_buffers, handle_process_buffers, handle_process_output_buffers, copy_input,
  after_write, dev_write,
}
use mipt_kis_linux.Phonedir.Device.Output.{IsOutput, unread, handle_process_output_buffers-unread}
use mipt_kis_linux.Phonedir.Syscalls.{sys_add, add_locked}

-- A kernel with memory at hand and a handle that waits for no input.
abbrev pub idle :
    (directory pending : List PhonedirRecord) (input_buf output_buf : List ℕ) (output_offset : ℕ)
    → Kernel
idle directory pending input_buf output_buf output_offset = record {
  directory = directory;
  allocs = [];
  handle = record {
    pending_output = pending;
    input_buf = input_buf;
    input_offset = 0;
    output_buf = output_buf;
    output_offset = output_offset;
  };
}

-- What a call leaves: a directory, memory at hand, no input, and a stream of output.
pub record Leaves (list : List PhonedirRecord) (output : List ℕ) (k : Kernel) : Type 0 where
  pub directory : k.directory ≡ list
  pub allocs : k.allocs ≡ []
  pub input : k.handle.input_offset ≡ 0
  pub size : length k.handle.input_buf ≡ 1024
  pub valid : IsOutput k.handle
  pub stream : unread k.handle ≡ output

-- The last step of a call fills the output buffer.
pub filled-Leaves :
    (list : List PhonedirRecord) (h : UserHandle)
    → h.input_offset ≡ 0
    → length h.input_buf ≡ 1024
    → IsOutput h
    → Leaves list
        (unread h)
        (record { directory = list; allocs = []; handle = handle_process_output_buffers h })
filled-Leaves list h none_left size valid =
    let (valid', stream, _) = handle_process_output_buffers-unread h valid in
    record {
      directory = refl;
      allocs = refl;
      input = unfold handle_process_output_buffers in none_left;
      size = unfold handle_process_output_buffers in size;
      valid = valid';
      stream = stream;
    }

module _ (directory pending : List PhonedirRecord) (buf out : List ℕ) (offset : ℕ) where
  before : Kernel
  before = idle directory pending buf out offset

  after_add : PhonedirRecord → Kernel
  after_add r = record {
    directory = terminated r ∷ directory;
    allocs = [];
    handle = handle_process_output_buffers (record {
      pending_output = pending;
      input_buf = 1 ∷ (record_bytes r ++ drop 389 buf);
      input_offset = 0;
      output_buf = out;
      output_offset = offset;
    });
  }

  dev_write_add :
      (r : PhonedirRecord)
      → IsRecord r
      → r.age < 2 ^ 32
      → dev_write false false 389
          (some (1 ∷ record_bytes r))
          (idle directory pending buf out offset)
        ≡ ok (bytes 389) (after_add r)
  unfolding dev_write after_write copy_input handle_process_buffers handle_process_input_buffers
      input_loop process_operation process_add finish_input phonedir_add_record phonedir_add kmalloc
      after_add
  dev_write_add r h small =
      let whole = take_all 388 (record_bytes r) (omega (arith, length-record_bytes r h)) in
      let front = take_front 388 (record_bytes r) (drop 389 buf) (length-record_bytes r h) in
      rw whole (rw (front, record_of-record_bytes r h small))

  pub dev_write_add-Leaves :
      (r : PhonedirRecord)
      → IsRecord r
      → r.age < 2 ^ 32
      → length buf ≡ 1024
      → IsOutput (idle directory pending buf out offset).handle
      → (k : Kernel) × (dev_write false false 389
            (some (1 ∷ record_bytes r))
            (idle directory pending buf out offset)
          ≡ ok (bytes 389) k)
        × Leaves
            (terminated r ∷ directory)
            (unread (idle directory pending buf out offset).handle)
            k
  unfolding after_add
  dev_write_add-Leaves r h small size valid =
      let count : length (1 ∷ (record_bytes r ++ drop 389 buf)) ≡ 1024 = omega (
        arith,
        length-append (record_bytes r) (drop 389 buf),
        length-record_bytes r h,
        length-drop 389 buf,
      ) in
      (
        after_add r,
        dev_write_add r h small,
        filled-Leaves (terminated r ∷ directory) _ refl count
            (record { offset = valid.offset; size = valid.size; records = valid.records }),
      )

  -- When a handle waits for no input, memory is at hand and the call is not interrupted, a write
  -- of the add operation with the bytes of a whole record to the device takes all its bytes and
  -- leaves the directory that `sys_add` leaves for the same bytes, no input, a valid output and
  -- the same unread output.
  pub dev_write-sys_add :
      (r : PhonedirRecord)
      → IsRecord r
      → r.age < 2 ^ 32
      → length buf ≡ 1024
      → IsOutput (idle directory pending buf out offset).handle
      → (k : Kernel) × (dev_write false false 389
            (some (1 ∷ record_bytes r))
            (idle directory pending buf out offset)
          ≡ ok (bytes 389) k)
        × Leaves
            (sys_add false
              (some (record_bytes r))
              (record { directory = directory; allocs = [] })).1.directory
            (unread (idle directory pending buf out offset).handle)
            k
  unfolding sys_add add_locked kmalloc phonedir_add_record phonedir_add
  dev_write-sys_add r h small size valid =
      rw (record_of-record_bytes r h small) (dev_write_add-Leaves r h small size valid)

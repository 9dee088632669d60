-- ===== src/Phonedir/Device/Named.antt =====
-- hw3-kernel/kernel/kmodule.c: writes of one deletion or search to an idle handle.
use mathlib.Core.List.{reverse}
use mipt_kis_linux.Prelude.{
  ℕ, ◌<◌, ◌≡◌, refl, ap, true, false, List, [], ◌∷◌, ◌++◌, some, arith, length, take, drop, set,
  take_all, length-append, length-drop, set-append, IsText, append_assoc,
}
use mipt_kis_linux.Phonedir.Record.{PhonedirRecord}
use mipt_kis_linux.Phonedir.Record.Bytes.{take_front}
use mipt_kis_linux.Phonedir.Directory.{kmalloc, phonedir_find, phonedir_del}
use mipt_kis_linux.Phonedir.Directory.Valid.{AllEntries}
use mipt_kis_linux.Phonedir.Directory.Find.{select, phonedir_find-select}
use mipt_kis_linux.Phonedir.Device.{
  Kernel, ok, bytes, process_operation, process_surname, input_loop, finish_input,
  handle_process_input_buffers, handle_process_buffers, handle_process_output_buffers, copy_input,
  after_write, dev_write,
}
use mipt_kis_linux.Phonedir.Device.Output.{
  AllRecords-append, stream_of, stream_of-append, IsOutput, unread,
}
use mipt_kis_linux.Phonedir.Device.Whole.{idle, Leaves, filled-Leaves}
use mipt_kis_linux.Phonedir.Syscalls.{sys_del, sys_find, first_found}
use mipt_kis_linux.Phonedir.Device.Names.{
  padded, length-padded, set-padded, text_of-padded, reverse-AllRecords, select-AllRecords,
  sys_del_lem, sys_find_lem,
}

module _ (directory pending : List PhonedirRecord) (buf out : List ℕ) (offset : ℕ) where
  after_delete : List ℕ → Kernel
  after_delete s = record {
    directory = phonedir_del directory s;
    allocs = [];
    handle = handle_process_output_buffers (record {
      pending_output = pending;
      input_buf = 2 ∷ (padded s ++ drop 129 buf);
      input_offset = 0;
      output_buf = out;
      output_offset = offset;
    });
  }

  dev_write_delete :
      (s : List ℕ)
      → length s < 128
      → IsText s
      → dev_write false false 129 (some (2 ∷ padded s)) (idle directory pending buf out offset)
        ≡ ok (bytes 129) (after_delete s)
  unfolding dev_write after_write copy_input handle_process_buffers handle_process_input_buffers
      input_loop process_operation process_surname finish_input phonedir_find kmalloc after_delete
  dev_write_delete s h text =
      let size = length-padded s h in
      let whole = take_all 128 (padded s) (omega arith) in
      let same : set (padded s ++ drop 129 buf) 127 0 ≡ padded s ++ drop 129 buf =
        rw (set-append (padded s) (drop 129 buf) 127 0 (omega arith), set-padded s h) in
      let front = take_front 128 (padded s) (drop 129 buf) size in
      rw whole (rw same (rw (front, text_of-padded s h text)))

  after_find : List ℕ → Kernel
  after_find s = record {
    directory = directory;
    allocs = [];
    handle = handle_process_output_buffers (record {
      pending_output = pending ++ select s (reverse directory);
      input_buf = 3 ∷ (padded s ++ drop 129 buf);
      input_offset = 0;
      output_buf = out;
      output_offset = offset;
    });
  }

  process_surname_find :
      (at_end : ℕ) (s : List ℕ)
      → length s < 128
      → IsText s
      → process_surname 3 1 (record {
        directory = directory;
        allocs = [];
        handle = record {
          pending_output = pending;
          input_buf = 3 ∷ (padded s ++ drop 129 buf);
          input_offset = at_end;
          output_buf = out;
          output_offset = offset;
        };
      })
        ≡ ok (bytes 129) (record {
          directory = directory;
          allocs = [];
          handle = record {
            pending_output = pending ++ select s (reverse directory);
            input_buf = 3 ∷ (padded s ++ drop 129 buf);
            input_offset = at_end;
            output_buf = out;
            output_offset = offset;
          };
        })
  unfolding process_surname
  process_surname_find at_end s h text =
      let size = length-padded s h in
      let same : set (padded s ++ drop 129 buf) 127 0 ≡ padded s ++ drop 129 buf =
        rw (set-append (padded s) (drop 129 buf) 127 0 (omega arith), set-padded s h) in
      let front = take_front 128 (padded s) (drop 129 buf) size in
      rw (
        same,
        front,
        text_of-padded s h text,
        phonedir_find-select directory s,
        same,
        front,
        text_of-padded s h text,
        phonedir_find-select directory s,
      )

  dev_write_find :
      (s : List ℕ)
      → length s < 128
      → IsText s
      → dev_write false false 129 (some (3 ∷ padded s)) (idle directory pending buf out offset)
        ≡ ok (bytes 129) (after_find s)
  unfolding dev_write after_write copy_input handle_process_buffers handle_process_input_buffers
      input_loop process_operation finish_input after_find
  dev_write_find s h text =
      rw (take_all 128 (padded s) (omega (arith, length-padded s h)))
        (rw (process_surname_find 129 s h text))

  size_after :
      (op : ℕ) (s : List ℕ)
      → length s < 128
      → length buf ≡ 1024
      → length (op ∷ (padded s ++ drop 129 buf)) ≡ 1024
  size_after op s h size =
      omega (arith, length-append (padded s) (drop 129 buf), length-padded s h, length-drop 129 buf)

  pub dev_write_delete-Leaves :
      (s : List ℕ)
      → length s < 128
      → IsText s
      → length buf ≡ 1024
      → IsOutput (idle directory pending buf out offset).handle
      → (k : Kernel) × (dev_write false false 129
            (some (2 ∷ padded s))
            (idle directory pending buf out offset)
          ≡ ok (bytes 129) k)
        × Leaves
            (phonedir_del directory s)
            (unread (idle directory pending buf out offset).handle)
            k
  unfolding after_delete
  dev_write_delete-Leaves s h text size valid = (
    after_delete s,
    dev_write_delete s h text,
    filled-Leaves (phonedir_del directory s) _ refl (size_after 2 s h size)
        (record { offset = valid.offset; size = valid.size; records = valid.records }),
  )

  -- When a handle waits for no input, memory is at hand and the call is not interrupted, a write
  -- of the delete operation with a padded surname of 1 to 127 bytes takes all its bytes and leaves
  -- the directory that `sys_del` leaves for the same surname, no input, a valid output and the
  -- same unread output.
  pub dev_write-sys_del :
      (s : List ℕ)
      → 0 < length s
      → length s < 128
      → IsText s
      → length buf ≡ 1024
      → IsOutput (idle directory pending buf out offset).handle
      → (k : Kernel) × (dev_write false false 129
            (some (2 ∷ padded s))
            (idle directory pending buf out offset)
          ≡ ok (bytes 129) k)
        × Leaves
            (sys_del false
              (some s)
              (length s)
              (record { directory = directory; allocs = [] })).1.directory
            (unread (idle directory pending buf out offset).handle)
            k
  dev_write-sys_del s pos h text size valid =
      rw (sys_del_lem directory s pos h text) (dev_write_delete-Leaves s h text size valid)

  pub dev_write_find-Leaves :
      (s : List ℕ)
      → length s < 128
      → IsText s
      → length buf ≡ 1024
      → IsOutput (idle directory pending buf out offset).handle
      → AllEntries directory
      → (k : Kernel) × (dev_write false false 129
            (some (3 ∷ padded s))
            (idle directory pending buf out offset)
          ≡ ok (bytes 129) k)
        × Leaves directory
            (unread (idle directory pending buf out offset).handle
              ++ stream_of (select s (reverse directory)))
            k
  unfolding after_find
  dev_write_find-Leaves s h text size valid entries =
      let found = select-AllRecords s (reverse directory) (reverse-AllRecords directory entries) in
      let valid' : IsOutput (record {
        pending_output = pending ++ select s (reverse directory);
        input_buf = 3 ∷ (padded s ++ drop 129 buf);
        input_offset = 0;
        output_buf = out;
        output_offset = offset;
      }) =
        record {
          offset = valid.offset;
          size = valid.size;
          records = AllRecords-append pending (select s (reverse directory)) valid.records found;
        } in
      let stream : take offset out ++ stream_of (pending ++ select s (reverse directory))
          ≡ take offset out ++ stream_of pending ++ stream_of (select s (reverse directory)) =
        rw (
          stream_of-append pending (select s (reverse directory)),
          append_assoc (take offset out) (stream_of pending)
              (stream_of (select s (reverse directory))),
        ) in
      (
        after_find s,
        dev_write_find s h text,
        rw stream at (filled-Leaves directory _ refl (size_after 3 s h size) valid'),
      )

  -- When a handle waits for no input, memory is at hand, the call is not interrupted and the
  -- entries of the directory are valid, a write of the search operation with a padded surname of 1
  -- to 127 bytes takes all its bytes, leaves the directory, and puts every match, in the order of
  -- addition, behind the unread output; `sys_find` answers the first of these matches.
  pub dev_write-sys_find :
      (s : List ℕ)
      → 0 < length s
      → length s < 128
      → IsText s
      → length buf ≡ 1024
      → IsOutput (idle directory pending buf out offset).handle
      → AllEntries directory
      → (k : Kernel) × (dev_write false false 129
            (some (3 ∷ padded s))
            (idle directory pending buf out offset)
          ≡ ok (bytes 129) k)
        × Leaves directory
            (unread (idle directory pending buf out offset).handle
              ++ stream_of (select s (reverse directory)))
            k
        × ((sys_find false
              (some s)
              (length s)
              true
              (record { directory = directory; allocs = [] })).0
            ≡ first_found true (some (select s (reverse directory))))
  dev_write-sys_find s pos h text size valid entries =
      let (k, written, left) = dev_write_find-Leaves s h text size valid entries in
      (k, written, left, ap (λ r. r.0) (sys_find_lem directory s pos h text))

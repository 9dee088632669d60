-- ===== src/Phonedir/Lltest/Fresh.antt =====
-- hw3-kernel/kernel/kmodule.c: the device just after it was opened, and its release.
use mipt_kis_linux.Prelude.{ℕ, ◌≡◌, refl, Bool, true, false, List, [], none, some, arith, replicate}
use mipt_kis_linux.Phonedir.Record.{PhonedirRecord}
use mipt_kis_linux.Phonedir.Directory.{kmalloc}
use mipt_kis_linux.Phonedir.Device.{
  Kernel, Step, handle_alloc, handle_process_buffers, handle_process_input_buffers, input_loop,
  finish_input,
}
use mipt_kis_linux.Phonedir.Device.Output.{IsOutput, stream_of}
use mipt_kis_linux.Phonedir.Device.Whole.{idle, Leaves}
use mipt_kis_linux.Phonedir.Syscalls.{Store}
use mipt_kis_linux.Phonedir.Lifetime.{dev_open, dev_release, handle_free}

abbrev pub room : List ℕ
room = replicate 1024 0

-- The device as it is just after it was opened.
abbrev pub fresh : List PhonedirRecord → Kernel
fresh list = idle list [] room room 0

abbrev pub stored : List PhonedirRecord → Store
stored list = record { directory = list; allocs = [] }

pub fresh-IsOutput : (list : List PhonedirRecord) → IsOutput (fresh list).handle
fresh-IsOutput list = record { offset = omega arith; size = refl; records = tt }

pub dev_open-fresh :
    (list : List PhonedirRecord) → dev_open (stored list) ≡ Step.ok none (fresh list)
unfolding dev_open kmalloc handle_alloc
dev_open-fresh list = refl

pub fresh-Leaves : (list : List PhonedirRecord) → Leaves list [] (fresh list)
unfolding stream_of
fresh-Leaves list = record {
  directory = refl;
  allocs = refl;
  input = refl;
  size = refl;
  valid = fresh-IsOutput list;
  stream = refl;
}

-- A handle without input leaves nothing to do when it is released.
pub dev_release-Leaves :
    (interrupted : Bool) (list : List PhonedirRecord) (output : List ℕ) (k : Kernel)
    → Leaves list output k
    → dev_release interrupted k ≡ some (stored list)
unfolding dev_release handle_free handle_process_buffers handle_process_input_buffers input_loop
    finish_input
dev_release-Leaves true list output k left = rw (left.directory, left.allocs) refl
dev_release-Leaves false list output k left = rw (left.input, left.directory, left.allocs) refl

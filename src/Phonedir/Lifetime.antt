-- ===== src/Phonedir/Lifetime.antt =====
-- hw3-kernel/kernel/kmodule.c: opening and release of the device, and the module's start and end.
use mipt_kis_linux.Prelude.{ℕ, ◌⊎◌, inl, inr, Bool, List, Option, none, some}
use mipt_kis_linux.Phonedir.Record.{Errno}
use mipt_kis_linux.Phonedir.Directory.{kmalloc, phonedir_free}
use mipt_kis_linux.Phonedir.Device.{Kernel, Step, ok, fault, handle_alloc, handle_process_buffers}
use mipt_kis_linux.Phonedir.Syscalls.{
  Store, Published, sys_ops, module_sys_publish, module_sys_retract,
}

-- `handle_alloc` writes to the memory before its result is tested for null, so an allocation that
-- fails is a fault there.
unfoldable pub dev_open : Store → Step (Option Errno)
dev_open s =
    let (allocated, more) = kmalloc s.allocs in
    elim (handle_alloc allocated) [
      | none ↦ fault
      | some handle ↦ ok none (record { directory = s.directory; allocs = more; handle = handle })
    ]

-- What is left without the handle; `none` is a fault.
abbrev pub without_handle : {A : Type 0} → Step A → Option Store
without_handle (ok a k) = some (record { directory = k.directory; allocs = k.allocs })
without_handle fault = none

-- The input that still waits is processed, and the output that was not read is lost.
unfoldable pub handle_free : (interrupted : Bool) → Kernel → Option Store
handle_free interrupted k = without_handle (handle_process_buffers interrupted k)

unfoldable pub dev_release : (interrupted : Bool) → Kernel → Option Store
dev_release interrupted k = handle_free interrupted k

-- The module with `dev_major_num`, which is an error of `register_chrdev` where it is negative.
pub record Module : Type 0 where
  pub dev_major_num : Option (Errno ⊎ ℕ)
  pub published : Published
  pub store : Store

unfoldable pub first_module_init :
    (registered : Errno ⊎ ℕ) → (mod_name : List ℕ) → Module → Option Errno × Module
first_module_init (inl e) mod_name m = (some e, record m { dev_major_num = some (inl e) })
first_module_init (inr major) mod_name m = (
  none,
  record m {
    dev_major_num = some (inr major);
    published = module_sys_publish (sys_ops mod_name) m.published;
  },
)

unfoldable pub first_module_exit : Module → Module
first_module_exit m = record m {
  published = module_sys_retract m.published;
  store = record m.store { directory = phonedir_free m.store.directory };
}

-- ===== src/Phonedir/Tests.antt =====
-- The device and the system calls of hw3-kernel on a directory of one record.
use mathlib.Core.List.{reverse}
use mipt_kis_linux.Prelude.{
  ℕ, ◌+◌, ◌-◌, ◌<◌, ◌≡◌, refl, true, false, List, [], ◌∷◌, ◌++◌, Option, none, some, arith, length,
  replicate, if◌then◌else◌, text_of, text_eq, ◌⊎◌,
}
use mipt_kis_linux.Phonedir.Record.{PhonedirRecord, record_bytes, enosys}
use mipt_kis_linux.Phonedir.Record.Bytes.{IsRecord}
use mipt_kis_linux.Phonedir.Directory.{
  phonedir_add_record, phonedir_find, phonedir_del, phonedir_add, kmalloc, find_loop,
}
use mipt_kis_linux.Phonedir.Directory.Find.{
  select, specify, perform, add, delete, find-perform, find-del,
}
use mipt_kis_linux.Phonedir.Directory.Valid.{AllEntries, add_record-AllEntries}
use mipt_kis_linux.Phonedir.Device.{
  Kernel, ok, bytes, dev_write, copy_output, handle_process_output_buffers,
}
use mipt_kis_linux.Phonedir.Device.Output.{
  IsOutput, unread, stream_of, handle_process_output_buffers-unread, Reads, copy_output-Reads,
}
use mipt_kis_linux.Phonedir.Device.Input.{StaysStuck, dev_write-StaysStuck}
use mipt_kis_linux.Phonedir.Device.Whole.{idle, Leaves, dev_write-sys_add}
use mipt_kis_linux.Phonedir.Device.Names.{padded}
use mipt_kis_linux.Phonedir.Device.Named.{dev_write-sys_del, dev_write-sys_find}
use mipt_kis_linux.Phonedir.Syscalls.{
  Store, Long, value, error, surname_from_user, sys_add, sys_del, sys_find, first_found, Published,
  ModuleSysDescriptor, dispatch, sys_ops, module_sys_publish,
}
use mipt_kis_linux.Phonedir.Syscalls.Laws.{dispatch-balanced}
use mipt_kis_linux.Phonedir.Client.{ok, add_payload}
use mipt_kis_linux.Phonedir.Client.Laws.{add_payload-Holds}
use mipt_kis_linux.Phonedir.Systest.{returned, preform_search}
use mipt_kis_linux.Phonedir.Systest.Search.{first, preform_search-first}

abbrev surname : List ℕ
surname = b'D' ∷ b'u' ∷ []

abbrev padded_to : ℕ → List ℕ → List ℕ
padded_to n s = s ++ replicate (n - length s) 0

abbrev sample : PhonedirRecord
sample = record {
  surname = padded_to 128 surname;
  name = padded_to 128 (b'A' ∷ []);
  email = padded_to 64 [];
  phone = padded_to 64 (b'1' ∷ []);
  age = 30;
}

sample-IsRecord : IsRecord sample
sample-IsRecord = record { surname = refl; name = refl; email = refl; phone = refl }

sample-AllEntries : AllEntries (sample ∷ [])
sample-AllEntries = (
  record { sizes = sample-IsRecord; surname = refl; name = refl; email = refl; phone = refl },
  tt,
)

abbrev room : List ℕ
room = replicate 1024 0

abbrev kernel : Kernel
kernel = idle (sample ∷ []) (sample ∷ []) room room 0

abbrev store : Store
store = record { directory = sample ∷ []; allocs = [] }

kernel-IsOutput : IsOutput kernel.handle
kernel-IsOutput = record { offset = omega arith; size = refl; records = (sample-IsRecord, tt) }

-- A search for the surname of the sample hands it out, and one for another finds nothing.
answers :
    ((sys_find false (some surname) 2 true store).0 ≡ (value 1, some sample))
    × ((sys_find false (some (b'x' ∷ [])) 1 true store).0 ≡ (value 0, none))
unfolding sys_find surname_from_user kmalloc phonedir_find find_loop phonedir_add first_found
    text_of text_eq
answers = (refl, refl)

dev_write-sys_add_example :
    (k : Kernel) × (dev_write false false 389 (some (1 ∷ record_bytes sample)) kernel
      ≡ ok (bytes 389) k)
    × Leaves (sys_add false (some (record_bytes sample)) store).1.directory (unread kernel.handle) k
dev_write-sys_add_example =
    dev_write-sys_add (sample ∷ []) (sample ∷ []) room room 0 sample sample-IsRecord (omega arith)
      refl kernel-IsOutput

dev_write-sys_del_example :
    (k : Kernel) × (dev_write false false 129 (some (2 ∷ padded surname)) kernel ≡ ok (bytes 129) k)
    × Leaves
        (sys_del false (some surname) (length surname) store).1.directory
        (unread kernel.handle)
        k
dev_write-sys_del_example =
    dev_write-sys_del (sample ∷ []) (sample ∷ []) room room 0 surname (omega arith) (omega arith)
      (refl, (refl, tt)) refl kernel-IsOutput

dev_write-sys_find_example :
    (k : Kernel) × (dev_write false false 129 (some (3 ∷ padded surname)) kernel ≡ ok (bytes 129) k)
    × Leaves
        (sample ∷ [])
        (unread kernel.handle ++ stream_of (select surname (reverse (sample ∷ []))))
        k
    × ((sys_find false (some surname) (length surname) true store).0
        ≡ first_found true (some (select surname (reverse (sample ∷ [])))))
dev_write-sys_find_example =
    dev_write-sys_find (sample ∷ []) (sample ∷ []) room room 0 surname (omega arith) (omega arith)
      (refl, (refl, tt)) refl kernel-IsOutput sample-AllEntries

find-perform_example :
    phonedir_find [] (perform [] (add sample ∷ delete (b'x' ∷ []) ∷ [])) surname
    ≡ (some (select surname (specify (reverse []) (add sample ∷ delete (b'x' ∷ []) ∷ []))), [])
find-perform_example = find-perform [] (add sample ∷ delete (b'x' ∷ []) ∷ []) surname

find-del_example : phonedir_find [] (phonedir_del (sample ∷ []) (b'x' ∷ [])) surname ≡ (
  some (if text_eq (b'x' ∷ []) surname then [] else select surname (reverse (sample ∷ []))),
  [],
)
find-del_example = find-del (sample ∷ []) (b'x' ∷ []) surname

add_record-AllEntries_example : AllEntries (phonedir_add_record (false ∷ []) (sample ∷ []) sample).0
add_record-AllEntries_example =
    add_record-AllEntries (false ∷ []) (sample ∷ []) sample sample-IsRecord sample-AllEntries

handle_process_output_buffers-unread_example :
    IsOutput (handle_process_output_buffers kernel.handle)
    × (unread (handle_process_output_buffers kernel.handle) ≡ unread kernel.handle)
    × (((handle_process_output_buffers kernel.handle).pending_output ≡ [])
        ⊎ (1024 < (handle_process_output_buffers kernel.handle).output_offset + 388))
handle_process_output_buffers-unread_example =
    handle_process_output_buffers-unread kernel.handle kernel-IsOutput

abbrev filled : Kernel
filled = idle [] [] room room 388

copy_output-Reads_example : Reads 100 filled (copy_output 100 true filled)
copy_output-Reads_example =
    copy_output-Reads 100 filled (record { offset = omega arith; size = refl; records = tt })

-- Two searches that were written at once.
abbrev two_searches : Kernel
two_searches = record kernel {
  handle = record kernel.handle { input_buf = 3 ∷ replicate 1023 0; input_offset = 258 };
}

dev_write-StaysStuck_example :
    StaysStuck two_searches (dev_write false false 2 (some (3 ∷ 0 ∷ [])) two_searches)
dev_write-StaysStuck_example =
    dev_write-StaysStuck false false 2 (some (3 ∷ 0 ∷ [])) two_searches (omega arith)
      (record { size = refl; more = omega arith; bound = omega arith })

abbrev published : Published
published = module_sys_publish (sys_ops (b'm' ∷ [])) (record { descriptor = none; references = 0 })

abbrev add_nothing : ModuleSysDescriptor → Option (Store → Long × Store)
add_nothing d = elim d.sys_ptr [ none ↦ none | some call ↦ some (call false (some [])) ]

abbrev retracts : Long
retracts = error enosys

dispatch-balanced_example :
    (dispatch (λ n. true) add_nothing retracts published store).1 ≡ published
dispatch-balanced_example = dispatch-balanced (λ n. true) add_nothing retracts published store

add_payload-Holds_example :
    (r : PhonedirRecord) × (add_payload surname (b'A' ∷ []) [] [] 30 ≡ ok (1 ∷ record_bytes r))
    × IsRecord r
    × (text_of r.surname ≡ surname)
    × (text_of r.name ≡ b'A' ∷ [])
    × (text_of r.phone ≡ [])
    × (text_of r.email ≡ [])
    × (r.age ≡ 30)
add_payload-Holds_example =
    add_payload-Holds surname (b'A' ∷ []) [] [] 30 (refl, (refl, tt)) (refl, tt) tt tt (omega arith)
      (omega arith) (omega arith) (omega arith)

abbrev nothing_published : Published
nothing_published = record { descriptor = none; references = 0 }

preform_search-first_example :
    preform_search
      (λ n. true)
      false
      surname
      (module_sys_publish (sys_ops (b'm' ∷ [])) nothing_published)
      store
    ≡ (
      returned (first (select surname (reverse (sample ∷ [])))),
      module_sys_publish (sys_ops (b'm' ∷ [])) nothing_published,
      store,
    )
preform_search-first_example =
    preform_search-first (λ n. true) (b'm' ∷ []) nothing_published (sample ∷ []) refl surname
      (omega arith) (omega arith) (refl, (refl, tt)) false

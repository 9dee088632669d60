-- ===== src/Phonedir/Device.antt =====
-- hw3-kernel/kernel/kmodule.c: the character device. Each open file has a handle with an input and
-- an output buffer; the directory is shared.
pub mod Output
pub mod Input
pub mod Whole
pub mod Names
pub mod Named
pub mod Reading
use mipt_kis_linux.Prelude.{
  ℕ, zero, suc, ◌+◌, ◌-◌, ◌%◌, ◌^◌, min, Bool, true, false, List, [], ◌∷◌, ◌++◌, Option, none, some,
  ◌==◌, ltb, leb, ◌||◌, if◌then◌else◌, length, get_or, set, take, drop, replicate, text_of,
}
use mipt_kis_linux.Phonedir.Record.{
  PhonedirRecord, record_of, record_bytes, rec_size, phonedir_name_len, phonedir_add_op,
  phonedir_delete_op, phonedir_find_op, Errno, enomem, eintr, efault, enospc,
}
use mipt_kis_linux.Phonedir.Directory.{
  Allocs, kmalloc, phonedir_add_record, phonedir_find, phonedir_del,
}

abbrev pub user_buf_cap : ℕ
user_buf_cap = 1024

abbrev pub word_mod : ℕ
word_mod = 2 ^ 64

-- `loff_t` is a signed 64-bit number; an offset is its bit pattern.
pub record UserHandle : Type 0 where
  pub pending_output : List PhonedirRecord
  pub input_buf : List ℕ
  pub input_offset : ℕ
  pub output_buf : List ℕ
  pub output_offset : ℕ

-- What a call of the device works on.
pub record Kernel : Type 0 where
  pub directory : List PhonedirRecord
  pub allocs : Allocs
  pub handle : UserHandle

-- A fault is an access outside a buffer, or through a null pointer.
pub data Step (A : Type 0) : Type 0 where
  ok : A → Kernel → Step A
  fault : Step A

module _ {A B : Type 0} where
  abbrev pub and_then : Step A → (A → Kernel → Step B) → Step B
  and_then (ok a k) f = f a k
  and_then fault f = fault

  infixl 5 ◌>>=◌
  abbrev pub ◌>>=◌ : (Kernel → Step A) → (A → Kernel → Step B) → Kernel → Step B
  c >>= f = λ k. and_then (c k) f

-- `ssize_t`: a number of bytes, or an error.
pub data Ssize : Type 0 where
  bytes : ℕ → Ssize
  failed : Errno → Ssize

unfoldable pub handle_alloc : Bool → Option UserHandle
handle_alloc allocated =
    if allocated
    then some (record {
      pending_output = [];
      input_buf = replicate user_buf_cap 0;
      input_offset = 0;
      output_buf = replicate user_buf_cap 0;
      output_offset = 0;
    })
    else none

abbrev pub with_input : UserHandle → List ℕ → ℕ → UserHandle
with_input h buf offset = record h { input_buf = buf; input_offset = offset }

-- The operation `PHONEDIR_ADD` on the record at `at`.
unfoldable pub process_add : (at : ℕ) → Kernel → Step Ssize
process_add at k =
    if leb (at + rec_size) user_buf_cap
    then (let (directory, error, allocs) =
          phonedir_add_record k.allocs k.directory
            (record_of (take rec_size (drop at k.handle.input_buf))) in
        ok (elim error [ none ↦ bytes (rec_size + 1) | some e ↦ failed e ])
          (record k { directory = directory; allocs = allocs }))
    else fault

-- The operations `PHONEDIR_DELETE` and `PHONEDIR_FIND` on the surname at `at`, which gets a zero at
-- its end.
unfoldable pub process_surname : (op at : ℕ) → Kernel → Step Ssize
process_surname op at k =
    if leb (at + phonedir_name_len) user_buf_cap
    then (let buf = set k.handle.input_buf (at + 127) 0 in
        let surname = text_of (take phonedir_name_len (drop at buf)) in
        let handle = record k.handle { input_buf = buf } in
        let (found, allocs) = phonedir_find k.allocs k.directory surname in
        if op == phonedir_delete_op
        then ok (bytes (phonedir_name_len + 1))
            (record k { directory = phonedir_del k.directory surname; handle = handle })
        else elim found [
          | none ↦ ok (failed enomem) (record k { allocs = allocs; handle = handle })
          | some list ↦ ok (bytes (phonedir_name_len + 1)) (record k {
            allocs = allocs;
            handle = record handle { pending_output = handle.pending_output ++ list };
          })
        ])
    else fault

-- `process_operation(input_buf + l_index, len, handle)`.
unfoldable pub process_operation : (l_index len : ℕ) → Kernel → Step Ssize
process_operation l_index len k =
    let op = get_or k.handle.input_buf l_index 0 in
    let need_bytes = if op == phonedir_add_op then rec_size else phonedir_name_len in
    if ltb (need_bytes + 1) len
    then ok (bytes 0) k
    else if op == phonedir_add_op
    then process_add (l_index + 1) k
    else if (op == phonedir_delete_op) || (op == phonedir_find_op)
    then process_surname op (l_index + 1) k
    else ok (bytes (need_bytes + 1)) k

-- `while (l_index < r_index) …`; every round but the last moves `l_index`, so `r_index` rounds are
-- enough. The result is `l_index` and `retval`.
unfoldable pub input_loop : (fuel l_index r_index : ℕ) → Kernel → Step (ℕ × Option Errno)
input_loop zero l_index r_index k = ok (l_index, none) k
input_loop (suc n) l_index r_index k =
    let again = and_then (process_operation l_index (r_index - l_index) k) (λ n_processed k'.
      elim n_processed [
        | failed e ↦ ok (l_index, some e) k'
        | bytes count ↦ elim (count == 0) [
          | true ↦ ok (l_index, none) k'
          | false ↦ input_loop n (l_index + count) r_index k'
        ]
      ]) in
    if ltb l_index r_index then again else ok (l_index, none) k

-- `memmove(buf, buf + from, count)`.
abbrev pub move_down : (from count : ℕ) → List ℕ → List ℕ
move_down from count buf = take count (drop from buf) ++ drop count buf

-- What follows the loop.
unfoldable pub finish_input : (r_index : ℕ) → ℕ × Option Errno → Kernel → Step (Option Errno)
finish_input r_index (l_index, retval) k =
    let rest = r_index - l_index in
    let offset = (r_index + word_mod - l_index) % word_mod in
    if ltb l_index r_index
    then (if leb r_index user_buf_cap
        then ok retval (record k {
          handle = with_input k.handle (move_down l_index rest k.handle.input_buf) offset;
        })
        else fault)
    else ok retval (record k { handle = with_input k.handle k.handle.input_buf offset })

unfoldable pub handle_process_input_buffers : Kernel → Step (Option Errno)
handle_process_input_buffers k =
    let r_index = k.handle.input_offset in
    and_then (input_loop r_index 0 r_index k) (finish_input r_index)

-- The loop over the pending records; `memcpy(output_buf + i, …)`.
unfoldable pub output_loop :
    (i : ℕ) → (buf : List ℕ) → List PhonedirRecord → ℕ × List ℕ × List PhonedirRecord
output_loop i buf [] = (i, buf, [])
output_loop i buf (cursor ∷ pending) =
    let rest =
      output_loop (i + rec_size) (take i buf ++ (record_bytes cursor ++ drop (i + rec_size) buf))
        pending in
    if ltb ((user_buf_cap + word_mod - i) % word_mod) rec_size
    then (i, buf, cursor ∷ pending)
    else rest

unfoldable pub handle_process_output_buffers : UserHandle → UserHandle
handle_process_output_buffers h =
    let (i, buf, pending) = output_loop h.output_offset h.output_buf h.pending_output in
    record h { output_offset = i; output_buf = buf; pending_output = pending }

-- `down_interruptible` may be interrupted, and then nothing is done.
unfoldable pub handle_process_buffers : (interrupted : Bool) → Kernel → Step (Option Errno)
handle_process_buffers interrupted k =
    if interrupted
    then ok (some eintr) k
    else and_then (handle_process_input_buffers k)
        (λ ret_in k'. ok ret_in (record k' { handle = handle_process_output_buffers k'.handle }))

-- The bytes that reach the user, with the result of the call.
unfoldable pub copy_output : (len : ℕ) → (user_ok : Bool) → Kernel → Step (Ssize × List ℕ)
copy_output len user_ok k =
    let h = k.handle in
    let data_remaining = h.output_offset in
    let copied = min len data_remaining in
    if data_remaining == 0
    then ok (bytes 0, []) k
    else if user_ok
    then ok (bytes copied, take copied h.output_buf)
        (record k {
          handle = record h {
            output_offset = data_remaining - copied;
            output_buf =
                if copied == data_remaining
                then h.output_buf
                else move_down copied (data_remaining - copied) h.output_buf;
          };
        })
    else ok (failed efault, []) k

unfoldable pub dev_read :
    (interrupted : Bool) → (len : ℕ) → (user_ok : Bool) → Kernel → Step (Ssize × List ℕ)
dev_read interrupted len user_ok k =
    and_then (handle_process_buffers interrupted k) (λ _. copy_output len user_ok)

abbrev pub space_remaining : Kernel → ℕ
space_remaining k = (user_buf_cap + word_mod - k.handle.input_offset) % word_mod

-- `copy_from_user` to the input buffer; `none` is a pointer that the user may not read. The kernel
-- clears the bytes that it could not copy.
unfoldable pub copy_input : (len : ℕ) → (user : Option (List ℕ)) → Kernel → Step Ssize
copy_input len user k =
    let h = k.handle in
    let offset = h.input_offset in
    let copied = min len (space_remaining k) in
    if copied == 0
    then ok (bytes 0) k
    else if leb (offset + copied) user_buf_cap
    then elim user [
      | none ↦ ok (failed efault) (record k {
        handle =
            with_input h
              (take offset h.input_buf
                ++ (replicate copied 0 ++ drop (offset + copied) h.input_buf))
              offset;
      })
      | some source ↦ ok (bytes copied) (record k {
        handle =
            with_input h
              (take offset h.input_buf
                ++ (take copied source ++ drop (offset + copied) h.input_buf))
              ((offset + copied) % word_mod);
      })
    ]
    else fault

-- After a write that took bytes the buffers are processed once more, and its result is dropped.
unfoldable pub after_write : (interrupted : Bool) → Ssize → Kernel → Step Ssize
after_write interrupted (failed e) k = ok (failed e) k
after_write interrupted (bytes n) k =
    if n == 0
    then ok (bytes n) k
    else and_then (handle_process_buffers interrupted k) (λ _ k'. ok (bytes n) k')

unfoldable pub dev_write :
    (interrupted interrupted' : Bool) → (len : ℕ) → (user : Option (List ℕ)) → Kernel → Step Ssize
dev_write interrupted interrupted' len user k =
    if space_remaining k == 0
    then and_then (handle_process_buffers interrupted k) (λ _ k'.
      if space_remaining k' == 0
      then ok (failed enospc) k'
      else and_then (copy_input len user k') (after_write interrupted'))
    else and_then (copy_input len user k) (after_write interrupted')

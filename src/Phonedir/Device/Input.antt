-- ===== src/Phonedir/Device/Input.antt =====
-- hw3-kernel/kernel/kmodule.c: a handle whose input holds more than one operation.
use mipt_kis_linux.Prelude.{
  Bool-cases, ℕ, zero, suc, ◌+◌, ◌-◌, ◌%◌, ◌≤◌, ◌<◌, ◌≡◌, refl, ap, ◌∙◌, inl, inr, Bool, true,
  false, List, [], ◌∷◌, ◌++◌, min, arith, length, take, drop, get_or, length-append, length-take,
  replicate, length-replicate, length-drop, take-append-drop, leb, lt→ltb, dec_le, if◌then◌else◌,
  ◌==◌, Option, none, some,
}
use mipt_kis_linux.Phonedir.Record.{Errno, eintr, enospc, efault}
use mipt_kis_linux.Phonedir.Device.{
  UserHandle, Kernel, Step, Ssize, ok, bytes, failed, word_mod, space_remaining, and_then,
  process_operation, input_loop, finish_input, handle_process_input_buffers, handle_process_buffers,
  handle_process_output_buffers, copy_input, after_write, dev_write, with_input,
}

-- The bytes that the operation at the front of the buffer takes, its code included.
abbrev pub front_size : UserHandle → ℕ
front_size h = (if get_or h.input_buf 0 0 == 1 then 388 else 128) + 1

-- A handle whose buffer holds more than the operation at its front.
pub record IsStuck (h : UserHandle) : Type 0 where
  pub size : length h.input_buf ≡ 1024
  pub more : front_size h < h.input_offset
  pub bound : h.input_offset ≤ 1024

process_operation_stuck :
    (k : Kernel)
    → IsStuck k.handle
    → process_operation 0 (k.handle.input_offset - 0) k ≡ ok (bytes 0) k
unfolding process_operation
process_operation_stuck k stuck =
    let wait =
      lt→ltb (front_size k.handle) (k.handle.input_offset - 0) (omega (arith, stuck.more)) in
    rw wait

input_loop_stuck :
    (n : ℕ) (k : Kernel)
    → IsStuck k.handle
    → input_loop n 0 k.handle.input_offset k ≡ ok (0, none) k
unfolding input_loop
input_loop_stuck zero k stuck = refl
input_loop_stuck (suc n) k stuck =
    let some_left = lt→ltb 0 k.handle.input_offset (omega (arith, stuck.more)) in
    rw (some_left, process_operation_stuck k stuck)

-- Nothing of the input is processed, and nothing changes.
process_input_stuck : (k : Kernel) → IsStuck k.handle → handle_process_input_buffers k ≡ ok none k
unfolding handle_process_input_buffers finish_input
process_input_stuck k stuck =
    let r = k.handle.input_offset in
    let some_left = lt→ltb 0 r (omega (arith, stuck.more)) in
    let fits : leb r 1024 ≡ true = ground (arith, stuck.bound) in
    let offset : (r + word_mod - 0) % word_mod ≡ r = omega (arith, stuck.bound) in
    rw (
      input_loop_stuck r k stuck,
      some_left,
      fits,
      offset,
      take-append-drop (r - 0) k.handle.input_buf,
    )

-- The output may move on; the directory and the input stay.
record SameInput (k k' : Kernel) : Type 0 where
  directory : k'.directory ≡ k.directory
  buf : k'.handle.input_buf ≡ k.handle.input_buf
  offset : k'.handle.input_offset ≡ k.handle.input_offset

process_buffers_stuck :
    (interrupted : Bool) (k : Kernel)
    → IsStuck k.handle
    → (e : Option Errno) × (k' : Kernel) × (handle_process_buffers interrupted k ≡ ok e k')
      × SameInput k k'
unfolding handle_process_buffers handle_process_output_buffers
process_buffers_stuck true k stuck =
    (some eintr, k, refl, record { directory = refl; buf = refl; offset = refl })
process_buffers_stuck false k stuck = (
  none,
  record k { handle = handle_process_output_buffers k.handle },
  rw (process_input_stuck k stuck),
  record { directory = refl; buf = refl; offset = refl },
)

SameInput-IsStuck : (k k' : Kernel) → SameInput k k' → IsStuck k.handle → IsStuck k'.handle
SameInput-IsStuck k k' same stuck = record {
  size = ap length same.buf ∙ stuck.size;
  more = rw (same.buf, same.offset) stuck.more;
  bound = rw same.offset stuck.bound;
}

-- What the user hands over: a pointer that may not be read, or as many bytes as the call says.
abbrev pub Supplies : ℕ → Option (List ℕ) → Type 0
Supplies len none = Unit
Supplies len (some source) = length source ≡ len

first_kept :
    (n : ℕ) (buf rest : List ℕ)
    → 0 < n
    → 0 < length buf
    → get_or (take n buf ++ rest) 0 0 ≡ get_or buf 0 0
first_kept zero buf rest h k = absurd (omega arith)
first_kept (suc n) [] rest h k = absurd (omega arith)
first_kept (suc n) (x ∷ buf) rest h k = refl

-- What a call leaves of a stuck handle and of the directory.
abbrev pub StaysStuck : Kernel → Step Ssize → Type 0
StaysStuck k r =
    (s : Ssize) × (k' : Kernel) × (r ≡ ok s k') × (k'.directory ≡ k.directory) × IsStuck k'.handle

-- Bytes behind the input that waits, and an input that is no shorter.
grown-IsStuck :
    (h : UserHandle) (part : List ℕ) (count offset : ℕ)
    → IsStuck h
    → h.input_offset + count ≤ 1024
    → length part ≡ count
    → h.input_offset ≤ offset
    → offset ≤ 1024
    → IsStuck (
        with_input h
          (take h.input_offset h.input_buf ++ (part ++ drop (h.input_offset + count) h.input_buf))
          offset)
grown-IsStuck h part count offset stuck fits whole longer bound =
    let r = h.input_offset in
    let buf = h.input_buf in
    let size = stuck.size in
    let more = stuck.more in
    let rest = part ++ drop (r + count) buf in
    record {
      size = omega (
        arith,
        length-append (take r buf) rest,
        length-append part (drop (r + count) buf),
        length-take r buf,
        length-drop (r + count) buf,
      );
      more = rw (first_kept r buf rest (omega arith) (omega arith)) (omega arith);
      bound = bound;
    }

copy_input_stuck :
    (len : ℕ) (user : Option (List ℕ)) (k : Kernel)
    → Supplies len user
    → IsStuck k.handle
    → StaysStuck k (copy_input len user k)
unfolding copy_input
copy_input_stuck len user k supplied stuck = elim (dec_le (min len (space_remaining k)) 0) [
  | yes nothing ↦
      let none_left : (min len (space_remaining k) == 0) ≡ true = ground arith in
      (bytes 0, k, rw none_left, refl, stuck)
  | no some_left ↦
      let more : (min len (space_remaining k) == 0) ≡ false = ground arith in
      let room : k.handle.input_offset + min len (space_remaining k) ≤ 1024 =
        omega (arith, stuck.bound) in
      let fits : leb (k.handle.input_offset + min len (space_remaining k)) 1024 ≡ true =
        ground arith in
      rw (more, fits) (copied user supplied room)
]
  where
    copied :
        (user : Option (List ℕ))
        → Supplies len user
        → k.handle.input_offset + min len (space_remaining k) ≤ 1024
        → StaysStuck k (elim user [
          | none ↦ ok (failed efault) (record k {
            handle =
                with_input k.handle
                  (take k.handle.input_offset k.handle.input_buf
                    ++ (replicate (min len (space_remaining k)) 0
                        ++ drop
                            (k.handle.input_offset + min len (space_remaining k))
                            k.handle.input_buf))
                  k.handle.input_offset;
          })
          | some source ↦ ok (bytes (min len (space_remaining k))) (record k {
            handle =
                with_input k.handle
                  (take k.handle.input_offset k.handle.input_buf
                    ++ (take (min len (space_remaining k)) source
                        ++ drop
                            (k.handle.input_offset + min len (space_remaining k))
                            k.handle.input_buf))
                  ((k.handle.input_offset + min len (space_remaining k)) % word_mod);
          })
        ])
    copied none supplied room =
        let count = min len (space_remaining k) in
        (
          _,
          _,
          refl,
          refl,
          grown-IsStuck k.handle (replicate count 0) count k.handle.input_offset stuck room
              (length-replicate {A = ℕ} count 0) (omega arith) (omega arith),
        )
    copied (some source) supplied room =
        let count = min len (space_remaining k) in
        (
          _,
          _,
          refl,
          refl,
          grown-IsStuck k.handle (take count source) count
              ((k.handle.input_offset + count) % word_mod) stuck room
              (omega (arith, length-take count source)) (omega arith) (omega arith),
        )

after_write_stuck :
    (interrupted : Bool) (s : Ssize) (k : Kernel)
    → IsStuck k.handle
    → StaysStuck k (after_write interrupted s k)
unfolding after_write
after_write_stuck interrupted (failed e) k stuck = (failed e, k, refl, refl, stuck)
after_write_stuck interrupted (bytes n) k stuck =
    let (e, k', eq, same) = process_buffers_stuck interrupted k stuck in
    elim (Bool-cases (n == 0)) [
      | inl none_left ↦ (bytes n, k, rw none_left, refl, stuck)
      | inr more ↦ (bytes n, k', rw (more, eq), same.directory, SameInput-IsStuck k k' same stuck)
    ]

then_after :
    (interrupted : Bool) (k : Kernel) (r : Step Ssize)
    → StaysStuck k r
    → StaysStuck k (and_then r (after_write interrupted))
then_after interrupted k r (s, k', eq, same, stuck) =
    let (s', k'', eq', same', stuck') = after_write_stuck interrupted s k' stuck in
    (s', k'', rw (eq, eq'), same' ∙ same, stuck')

-- When the input buffer of a handle holds more than the operation at its front, every write,
-- interrupted or not, ends, leaves the directory as it is, and leaves a handle that holds more
-- than the operation at its front.
pub dev_write-StaysStuck :
    (interrupted interrupted' : Bool) (len : ℕ) (user : Option (List ℕ)) (k : Kernel)
    → Supplies len user
    → IsStuck k.handle
    → StaysStuck k (dev_write interrupted interrupted' len user k)
unfolding dev_write
dev_write-StaysStuck interrupted interrupted' len user k supplied stuck =
    elim (Bool-cases (space_remaining k == 0)) [
      | inr room ↦
          rw room (then_after interrupted' k _ (copy_input_stuck len user k supplied stuck))
      | inl full ↦
          let (e, k', eq, same) = process_buffers_stuck interrupted k stuck in
          let full' : (space_remaining k' == 0) ≡ true = rw same.offset full in
          (
            failed enospc,
            k',
            rw (full, eq, full'),
            same.directory,
            SameInput-IsStuck k k' same stuck,
          )
    ]

-- ===== src/Phonedir/Device/Output.antt =====
-- hw3-kernel/kernel/kmodule.c: the output of a handle as a stream of bytes.
use mipt_kis_linux.Prelude.{
  ℕ, ◌+◌, ◌-◌, ◌%◌, ◌≤◌, ◌<◌, ◌≡◌, refl, ap, ◌∙◌, ◌⊎◌, inl, inr, true, false, List, [], ◌∷◌, ◌++◌,
  append_assoc, min, arith, length, take, drop, length-append, length-take, length-drop,
  take-append_le, take-append_ge, take_all, take-take, drop-take, drop-append_le, ℕ_discrete, ltb,
  lt→ltb, ge→ltb, dec_le, if◌then◌else◌, ◌==◌,
}
use mipt_kis_linux.Phonedir.Record.{PhonedirRecord, record_bytes}
use mipt_kis_linux.Phonedir.Record.Bytes.{IsRecord, length-record_bytes}
use mipt_kis_linux.Phonedir.Device.{
  UserHandle, Kernel, Step, Ssize, ok, bytes, word_mod, output_loop, handle_process_output_buffers,
  copy_output, move_down,
}

abbrev pub AllRecords : List PhonedirRecord → Type 0
AllRecords [] = Unit
AllRecords (r ∷ list) = IsRecord r × AllRecords list

-- The bytes of pending records, one record after the other.
unfoldable pub stream_of : List PhonedirRecord → List ℕ
stream_of [] = []
stream_of (r ∷ list) = record_bytes r ++ stream_of list

pub stream_of-append :
    (xs ys : List PhonedirRecord) → stream_of (xs ++ ys) ≡ stream_of xs ++ stream_of ys
unfolding stream_of
stream_of-append [] ys = refl
stream_of-append (r ∷ xs) ys =
    rw (stream_of-append xs ys, append_assoc (record_bytes r) (stream_of xs) (stream_of ys))

pub AllRecords-append :
    (xs ys : List PhonedirRecord) → AllRecords xs → AllRecords ys → AllRecords (xs ++ ys)
AllRecords-append [] ys h k = k
AllRecords-append (r ∷ xs) ys h k = (h.0, AllRecords-append xs ys h.1 k)

-- The output buffer with what is still to be copied into it.
pub record IsOutput (h : UserHandle) : Type 0 where
  pub offset : h.output_offset ≤ 1024
  pub size : length h.output_buf ≡ 1024
  pub records : AllRecords h.pending_output

-- All that a handle has for its reader.
abbrev pub unread : UserHandle → List ℕ
unread h = take h.output_offset h.output_buf ++ stream_of h.pending_output

abbrev Filled :
    (i : ℕ) (buf : List ℕ) → List PhonedirRecord → ℕ × List ℕ × List PhonedirRecord → Type 0
Filled i buf pending (i', buf', rest) =
    (i' ≤ 1024)
    × (length buf' ≡ 1024)
    × AllRecords rest
    × (take i' buf' ++ stream_of rest ≡ take i buf ++ stream_of pending)
    × ((rest ≡ []) ⊎ (1024 < i' + 388))

-- One record more in the buffer.
module _ (i : ℕ) (buf item : List ℕ) (fits : i + 388 ≤ 1024) (size : length buf ≡ 1024)
    (count : length item ≡ 388) where
  fill_size : length (take i buf ++ (item ++ drop (i + 388) buf)) ≡ 1024
  fill_size = omega (
    arith,
    length-append (take i buf) (item ++ drop (i + 388) buf),
    length-append item (drop (i + 388) buf),
    length-take i buf,
    length-drop (i + 388) buf,
  )

  fill_front : take (i + 388) (take i buf ++ (item ++ drop (i + 388) buf)) ≡ take i buf ++ item
  fill_front =
      let front : length (take i buf) ≡ i = omega (arith, length-take i buf) in
      let left : i + 388 - i ≡ 388 = omega arith in
      rw
        (
          take-append_ge (i + 388) (take i buf) (item ++ drop (i + 388) buf) (omega arith),
          front,
          left,
        )
        (rw (
          take-append_le 388 item (drop (i + 388) buf) (omega arith),
          take_all 388 item (omega arith),
        ))

output_loop-Filled :
    (pending : List PhonedirRecord) (i : ℕ) (buf : List ℕ)
    → i ≤ 1024
    → length buf ≡ 1024
    → AllRecords pending
    → Filled i buf pending (output_loop i buf pending)
unfolding output_loop stream_of
output_loop-Filled [] i buf h size all = (h, size, tt, refl, inl refl)
output_loop-Filled (r ∷ pending) i buf h size all = elim (dec_le (i + 388) 1024) [
  | no full ↦
      let stop : ltb ((1024 + word_mod - i) % word_mod) 388 ≡ true = lt→ltb _ _ (omega arith) in
      rw stop (h, size, all, refl, inr (omega arith))
  | yes fits ↦
      let go : ltb ((1024 + word_mod - i) % word_mod) 388 ≡ false = ge→ltb _ _ (omega arith) in
      let item = length-record_bytes r all.0 in
      let buf' = take i buf ++ (record_bytes r ++ drop (i + 388) buf) in
      let rest =
        output_loop-Filled pending (i + 388) buf' fits
          (fill_size i buf (record_bytes r) fits size item) all.1 in
      let stream =
        rest.3
        ∙ ap (λ t. t ++ stream_of pending) (fill_front i buf (record_bytes r) fits size item)
        ∙ append_assoc (take i buf) (record_bytes r) (stream_of pending) in
      rw go (rest.0, rest.1, rest.2, stream, rest.4)
]

-- Processing a valid output keeps it valid and keeps its unread bytes, and stops only where no
-- record is pending or the buffer has no room for one more.
pub handle_process_output_buffers-unread :
    (h : UserHandle)
    → IsOutput h
    → IsOutput (handle_process_output_buffers h)
      × (unread (handle_process_output_buffers h) ≡ unread h)
      × (((handle_process_output_buffers h).pending_output ≡ [])
          ⊎ (1024 < (handle_process_output_buffers h).output_offset + 388))
unfolding handle_process_output_buffers
handle_process_output_buffers-unread h out =
    let filled =
      output_loop-Filled h.pending_output h.output_offset h.output_buf out.offset out.size
        out.records in
    (record { offset = filled.0; size = filled.1; records = filled.2 }, filled.3, filled.4)

-- What a read of `c` bytes leaves in the buffer.
abbrev left_over : (c d : ℕ) → List ℕ → List ℕ
left_over c d buf = if c == d then buf else move_down c (d - c) buf

take-left_over :
    (c d : ℕ) (buf : List ℕ)
    → c ≤ d
    → d ≤ length buf
    → take (d - c) (left_over c d buf) ≡ drop c (take d buf)
take-left_over c d buf h k = elim (ℕ_discrete c d) [
  | yes e ↦ let none_left : d - c ≡ 0 = omega arith in rw (drop-take c d buf, none_left) refl
  | no ne ↦
      let some_left : (c == d) ≡ false = ground arith in
      let front = length-take (d - c) (drop c buf) in
      let size = length-drop c buf in
      rw (some_left, drop-take c d buf)
        (rw (take-append_le (d - c) (take (d - c) (drop c buf)) (drop (d - c) buf) (omega arith))
          (take_all (d - c) (take (d - c) (drop c buf)) (omega arith)))
]

length-left_over :
    (c d : ℕ) (buf : List ℕ) → c ≤ d → d ≤ length buf → length (left_over c d buf) ≡ length buf
length-left_over c d buf h k = elim (ℕ_discrete c d) [
  | yes e ↦ let all : (c == d) ≡ true = ground arith in rw all refl
  | no ne ↦
      let some_left : (c == d) ≡ false = ground arith in
      rw some_left (
        omega (
          arith,
          length-append (take (d - c) (drop c buf)) (drop (d - c) buf),
          length-take (d - c) (drop c buf),
          length-drop c buf,
          length-drop (d - c) buf,
        ))
]

-- A read takes the front of the stream, as much as is asked for and lies in the buffer.
abbrev pub Reads : (len : ℕ) → Kernel → Step (Ssize × List ℕ) → Type 0
Reads len k r =
    let count = min len k.handle.output_offset in
    (k' : Kernel) × (r ≡ ok (bytes count, take count (unread k.handle)) k')
    × IsOutput k'.handle
    × (unread k'.handle ≡ drop count (unread k.handle))
    × (k'.directory ≡ k.directory)
    × (k'.handle.input_offset ≡ k.handle.input_offset)
    × (k'.handle.input_buf ≡ k.handle.input_buf)
    × (k'.allocs ≡ k.allocs)

-- A read from a valid output to a buffer that the user may write hands out the front of the unread
-- bytes, as many as are asked for and lie in the output buffer, leaves a valid output with the
-- rest unread, and leaves the directory, the input and what the next allocations answer.
pub copy_output-Reads :
    (len : ℕ) (k : Kernel) → IsOutput k.handle → Reads len k (copy_output len true k)
unfolding copy_output
copy_output-Reads len k out = elim (dec_le k.handle.output_offset 0) [
  | yes empty ↦
      let none_left : (k.handle.output_offset == 0) ≡ true = ground arith in
      let nothing : min len k.handle.output_offset ≡ 0 = omega arith in
      (k, rw (none_left, nothing), out, rw nothing, refl, refl, refl, refl)
  | no some_left ↦
      let d = k.handle.output_offset in
      let buf = k.handle.output_buf in
      let more : (d == 0) ≡ false = ground arith in
      let count : min len d ≤ d = omega arith in
      let bound = out.offset in
      let size = out.size in
      let front = length-take d buf in
      (
        record k {
          handle = record k.handle {
            output_offset = d - min len d;
            output_buf = left_over (min len d) d buf;
          };
        },
        rw
            (
              more,
              take-append_le (min len d) (take d buf) (stream_of k.handle.pending_output)
                  (omega arith),
              take-take (min len d) d buf,
            )
            (let same : min (min len d) d ≡ min len d = omega arith in rw same refl),
        record {
          offset = omega arith;
          size = length-left_over (min len d) d buf count (omega arith) ∙ size;
          records = out.records;
        },
        rw (
          take-left_over (min len d) d buf count (omega arith),
          drop-append_le (min len d) (take d buf) (stream_of k.handle.pending_output) (omega arith),
        ),
        refl,
        refl,
        refl,
        refl,
      )
]

-- ===== src/Phonedir/Device/Reading.antt =====
-- hw3-kernel/kernel/kmodule.c: reads of one record from a handle without input.
use mipt_kis_linux.Prelude.{
  ℕ, ◌≤◌, ◌<◌, ◌≡◌, refl, ap, ◌∙◌, sym, subst, ◌⊎◌, inl, inr, true, false, List, [], ◌++◌, min,
  arith, length, take, drop, length-append, length-take, append-nil,
}
use mipt_kis_linux.Phonedir.Record.{PhonedirRecord, record_bytes}
use mipt_kis_linux.Phonedir.Record.Bytes.{IsRecord, length-record_bytes, take_front, drop_front}
use mipt_kis_linux.Phonedir.Device.{
  UserHandle, Kernel, Step, bytes, copy_output, dev_read, input_loop, finish_input,
  handle_process_input_buffers, handle_process_buffers, handle_process_output_buffers,
}
use mipt_kis_linux.Phonedir.Device.Output.{
  IsOutput, unread, stream_of, handle_process_output_buffers-unread, copy_output-Reads,
}
use mipt_kis_linux.Phonedir.Device.Whole.{Leaves}

-- Without input, a read moves pending records to the buffer and copies from it.
abbrev settled : Kernel → Kernel
settled k = record k { handle = handle_process_output_buffers k.handle }

dev_read-settled :
    (len : ℕ) (k : Kernel)
    → k.handle.input_offset ≡ 0
    → dev_read false len true k ≡ copy_output len true (settled k)
unfolding dev_read handle_process_buffers handle_process_input_buffers input_loop finish_input
dev_read-settled len k none_left = rw none_left refl

-- The output moves and the input stays.
settled_input :
    (h : UserHandle)
    → ((handle_process_output_buffers h).input_offset ≡ h.input_offset)
      × ((handle_process_output_buffers h).input_buf ≡ h.input_buf)
unfolding handle_process_output_buffers
settled_input h = (refl, refl)

-- The buffer holds the front of the unread bytes, and all of them when nothing is pending.
buffered :
    (h : UserHandle)
    → IsOutput h
    → (h.output_offset ≤ length (unread h))
      × ((h.pending_output ≡ []) → h.output_offset ≡ length (unread h))
unfolding stream_of
buffered h valid =
    let bound = valid.offset in
    let size = valid.size in
    let front = length-take h.output_offset h.output_buf in
    (
      omega (arith, length-append (take h.output_offset h.output_buf) (stream_of h.pending_output)),
      λ none_left. rw (none_left, append-nil) (omega arith),
    )

-- What a read answers of a handle without input: the front of its stream, which ends early only
-- where the stream ends or the buffer has no room for one record more.
abbrev pub Serves : (len : ℕ) → List PhonedirRecord → (output : List ℕ) → Kernel → Type 0
Serves len list output k =
    (d : ℕ) × (k' : Kernel) × (dev_read false len true k
      ≡ Step.ok (bytes (min len d), take (min len d) output) k')
    × Leaves list (drop (min len d) output) k'
    × (d ≤ length output)
    × ((d ≡ length output) ⊎ (636 < d))

pub dev_read-Serves :
    (len : ℕ) (list : List PhonedirRecord) (output : List ℕ) (k : Kernel)
    → Leaves list output k
    → Serves len list output k
dev_read-Serves len list output k left =
    let (valid, same, last) = handle_process_output_buffers-unread k.handle left.valid in
    let (k', read, valid', rest, kept, none_left, buf, memory) =
      copy_output-Reads len (settled k) valid in
    let d = (handle_process_output_buffers k.handle).output_offset in
    let (none_left', buf') = settled_input k.handle in
    let stream : unread (handle_process_output_buffers k.handle) ≡ output = same ∙ left.stream in
    let (front, whole) = buffered (handle_process_output_buffers k.handle) valid in
    (
      d,
      k',
      dev_read-settled len k left.input
          ∙ read
          ∙ ap (λ t. Step.ok (bytes (min len d), take (min len d) t) k') stream,
      record {
        directory = kept ∙ left.directory;
        allocs = memory ∙ left.allocs;
        input = none_left ∙ none_left' ∙ left.input;
        size = ap length (buf ∙ buf') ∙ left.size;
        valid = valid';
        stream = rest ∙ ap (drop (min len d)) stream;
      },
      rw (sym stream) front,
      elim last [
        | inl empty ↦ inl (whole empty ∙ ap length stream)
        | inr full ↦ inr (omega (arith, full))
      ],
    )

-- A read for a record answers the first one.
pub read_record :
    (list : List PhonedirRecord) (r : PhonedirRecord) (rest : List ℕ) (k : Kernel)
    → IsRecord r
    → Leaves list (record_bytes r ++ rest) k
    → (k' : Kernel) × (dev_read false 388 true k ≡ Step.ok (bytes 388, record_bytes r) k')
      × Leaves list rest k'
read_record list r rest k whole left =
    let (d, k', read, left', most, least) =
      dev_read-Serves 388 list (record_bytes r ++ rest) k left in
    let size = length-record_bytes r whole in
    let total = length-append (record_bytes r) rest in
    let all : min 388 d ≡ 388 = elim least [
      | inl e ↦ omega (arith, e)
      | inr e ↦ omega (arith, e)
    ] in
    let front = take_front 388 (record_bytes r) rest size in
    let behind = drop_front 388 388 (record_bytes r) rest size (omega arith) in
    (
      k',
      read
          ∙ ap (λ n. Step.ok (bytes n, take n (record_bytes r ++ rest)) k') all
          ∙ ap (λ t. Step.ok (bytes 388, t) k') front,
      subst (λ t. Leaves list t k') (ap (λ n. drop n (record_bytes r ++ rest)) all ∙ behind) left',
    )

-- And the end of the output when there is none.
pub read_end :
    (list : List PhonedirRecord) (k : Kernel)
    → Leaves list [] k
    → (k' : Kernel) × (dev_read false 388 true k ≡ Step.ok (bytes 0, []) k') × Leaves list [] k'
read_end list k left =
    let (d, k', read, left', most, least) = dev_read-Serves 388 list [] k left in
    let none_left : min 388 d ≡ 0 = omega (arith, most) in
    (
      k',
      read ∙ ap (λ n. Step.ok (bytes n, take {A = ℕ} n []) k') none_left,
      subst (λ n. Leaves list (drop n []) k') none_left left',
    )

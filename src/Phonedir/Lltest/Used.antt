-- ===== src/Phonedir/Lltest/Used.antt =====
-- hw3-kernel/kernel/kmodule.c: writes to a device whose earlier operations are done and read.
use mathlib.Core.List.{reverse}
use mipt_kis_linux.Prelude.{
  ℕ, ◌∙◌, ◌<◌, ◌^◌, ◌≡◌, sym, ap, subst, false, List, [], ◌∷◌, ◌++◌, length, some, IsText,
}
use mipt_kis_linux.Phonedir.Record.{PhonedirRecord, record_bytes}
use mipt_kis_linux.Phonedir.Record.Bytes.{IsRecord}
use mipt_kis_linux.Phonedir.Directory.{Allocs, terminated, phonedir_del}
use mipt_kis_linux.Phonedir.Directory.Find.{select}
use mipt_kis_linux.Phonedir.Directory.Valid.{AllEntries}
use mipt_kis_linux.Phonedir.Device.{Kernel, Step, bytes, dev_write}
use mipt_kis_linux.Phonedir.Device.Output.{IsOutput, stream_of}
use mipt_kis_linux.Phonedir.Device.Whole.{idle, Leaves, dev_write_add-Leaves}
use mipt_kis_linux.Phonedir.Device.Names.{padded}
use mipt_kis_linux.Phonedir.Device.Named.{dev_write_delete-Leaves, dev_write_find-Leaves}

module _ (list : List PhonedirRecord) (k : Kernel) (left : Leaves list [] k) where
  -- The device as one that waits for no input.
  as_idle : Kernel
  as_idle =
      idle list k.handle.pending_output k.handle.input_buf k.handle.output_buf
        k.handle.output_offset

  same : as_idle ≡ k
  unfolding as_idle
  same =
      ap (λ d. at d [] 0) (sym left.directory)
      ∙ ap (λ a. at k.directory a 0) (sym left.allocs)
      ∙ ap (λ o. at k.directory k.allocs o) (sym left.input)
    where
      at : List PhonedirRecord → Allocs → ℕ → Kernel
      at d a o = record {
        directory = d;
        allocs = a;
        handle = record {
          pending_output = k.handle.pending_output;
          input_buf = k.handle.input_buf;
          input_offset = o;
          output_buf = k.handle.output_buf;
          output_offset = k.handle.output_offset;
        };
      }

  valid : IsOutput as_idle.handle
  unfolding as_idle
  valid = record {
    offset = left.valid.offset;
    size = left.valid.size;
    records = left.valid.records;
  }

  -- A write that takes all its bytes and leaves some directory and output.
  abbrev Takes : (n : ℕ) (payload : List ℕ) → List PhonedirRecord → List ℕ → Type 0
  Takes n payload list' output =
      (k' : Kernel) × (dev_write false false n (some payload) k ≡ Step.ok (bytes n) k')
      × Leaves list' output k'

  from_idle :
      (n : ℕ) (payload : List ℕ) (list' : List PhonedirRecord) (output output' : List ℕ)
      → output ≡ output'
      → (k' : Kernel) × (dev_write false false n (some payload) as_idle ≡ Step.ok (bytes n) k')
        × Leaves list' output k'
      → Takes n payload list' output'
  from_idle n payload list' output output' e (k', written, left') = (
    k',
    subst (λ j. dev_write false false n (some payload) j ≡ Step.ok (bytes n) k') same written,
    subst (λ o. Leaves list' o k') e left',
  )

  pub write_add :
      (r : PhonedirRecord)
      → IsRecord r
      → r.age < 2 ^ 32
      → Takes 389 (1 ∷ record_bytes r) (terminated r ∷ list) []
  unfolding as_idle
  write_add r whole small =
      from_idle 389 (1 ∷ record_bytes r) (terminated r ∷ list) _ [] left.stream
        (dev_write_add-Leaves list _ _ _ _ r whole small left.size valid)

  pub write_delete :
      (s : List ℕ) → length s < 128 → IsText s → Takes 129 (2 ∷ padded s) (phonedir_del list s) []
  unfolding as_idle
  write_delete s short text =
      from_idle 129 (2 ∷ padded s) (phonedir_del list s) _ [] left.stream
        (dev_write_delete-Leaves list _ _ _ _ s short text left.size valid)

  pub write_find :
      (s : List ℕ)
      → length s < 128
      → IsText s
      → AllEntries list
      → Takes 129 (3 ∷ padded s) list (stream_of (select s (reverse list)))
  unfolding as_idle
  write_find s short text entries =
      from_idle 129 (3 ∷ padded s) list _ _
        (ap (λ o. o ++ stream_of (select s (reverse list))) left.stream)
        (dev_write_find-Leaves list _ _ _ _ s short text left.size valid entries)

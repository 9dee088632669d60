-- ===== src/Phonedir/Lltest/Session.antt =====
-- hw3-kernel/client/lltest.cpp: a search through the device prints what it finds.
use mipt_kis_linux.Prelude.{
  ℕ, zero, suc, ◌-◌, ◌^◌, ◌<◌, ◌≡◌, refl, ap, ◌∙◌, sym, subst, true, false, List, [], ◌∷◌, ◌++◌,
  some, ◌==◌, arith, length, take, take_all, append_assoc, append-nil,
}
use mipt_kis_linux.Phonedir.Record.{PhonedirRecord, record_bytes}
use mipt_kis_linux.Phonedir.Record.Bytes.{IsRecord, record_of-record_bytes}
use mipt_kis_linux.Phonedir.Device.{Kernel, Step, bytes, dev_write}
use mipt_kis_linux.Phonedir.Device.Output.{AllRecords, stream_of}
use mipt_kis_linux.Phonedir.Device.Whole.{Leaves}
use mipt_kis_linux.Phonedir.Client.{ok}
use mipt_kis_linux.Phonedir.Lltest.{
  File, answered, finished, left_of, write_all, send, read_quant, print_records, Opened, device,
}
use mipt_kis_linux.Phonedir.Device.Reading.{read_record, read_end}

-- A whole record takes one round, and one more to see that it is whole.
read_quant_whole :
    {S : Type 0} (fd : File S) (n : ℕ) (item : List ℕ) (s s' : S)
    → fd.read 388 s ≡ some ((bytes 388, item), s')
    → read_quant fd (suc (suc n)) [] 388 false s ≡ finished (ok (true, item)) s'
unfolding read_quant
read_quant_whole fd n item s s' read = rw (read_quant, read) refl

read_quant_none :
    {S : Type 0} (fd : File S) (n : ℕ) (s s' : S)
    → fd.read 388 s ≡ some ((bytes 0, []), s')
    → read_quant fd (suc n) [] 388 false s ≡ finished (ok (false, [])) s'
unfolding read_quant
read_quant_none fd n s s' read = rw (read_quant, read) refl

-- No signal arrives.
abbrev pub session : Kernel → Opened
session k = record { signals = []; kernel = k }

read_quant_record :
    (list : List PhonedirRecord) (r : PhonedirRecord) (rest : List ℕ) (k : Kernel)
    → IsRecord r
    → Leaves list (record_bytes r ++ rest) k
    → (k' : Kernel) × (read_quant device 389 [] 388 false (session k)
        ≡ finished (ok (true, record_bytes r)) (session k'))
      × Leaves list rest k'
read_quant_record list r rest k whole left =
    let (k', read, left') = read_record list r rest k whole left in
    (
      k',
      read_quant_whole device 387 (record_bytes r) (session k) (session k') (ap (answered []) read),
      left',
    )

read_quant_end :
    (list : List PhonedirRecord) (k : Kernel)
    → Leaves list [] k
    → (k' : Kernel) × (read_quant device 389 [] 388 false (session k)
        ≡ finished (ok (false, [])) (session k'))
      × Leaves list [] k'
read_quant_end list k left =
    let (k', read, left') = read_end list k left in
    (k', read_quant_none device 388 (session k) (session k') (ap (answered []) read), left')

-- The ages are unsigned 32-bit numbers.
abbrev pub AllSmall : List PhonedirRecord → Type 0
AllSmall [] = Unit
AllSmall (r ∷ list) = (r.age < 2 ^ 32) × AllSmall list

-- With enough rounds, all that is unread is printed, and the loop ends.
pub print_records_all :
    (n : ℕ) (list pending printed : List PhonedirRecord) (k : Kernel)
    → length pending < n
    → AllRecords pending
    → AllSmall pending
    → Leaves list (stream_of pending) k
    → (k' : Kernel) × (print_records device n printed (session k)
        ≡ finished (ok tt) (session k', printed ++ pending))
      × Leaves list [] k'
unfolding print_records stream_of
print_records_all zero list pending printed k enough all small left = absurd (omega arith)
print_records_all (suc n) list [] printed k enough all small left =
    let (k', read, left') = read_quant_end list k left in
    (k', rw (print_records, read, append-nil) refl, left')
print_records_all (suc n) list (r ∷ pending) printed k enough all small left =
    let (k', read, left') = read_quant_record list r (stream_of pending) k all.0 left in
    let (k'', rest, left'') =
      print_records_all n list pending (printed ++ r ∷ []) k' (omega arith) all.1 small.1 left' in
    let back = record_of-record_bytes r all.0 small.0 in
    (
      k'',
      rw (print_records, read, back)
          (rest
            ∙ ap (λ l. finished (ok tt) (session k'', l)) (append_assoc printed (r ∷ []) pending)),
      left'',
    )

-- A payload that the device takes at once takes one round.
write_all_whole :
    {S : Type 0} (fd : File S) (n : ℕ) (payload : List ℕ) (s s' : S)
    → 0 < length payload
    → length payload < 2 ^ 64
    → fd.write (length payload) payload s ≡ some (bytes (length payload), s')
    → write_all fd (suc (suc n)) payload (length payload) s ≡ finished (ok tt) s'
unfolding write_all
write_all_whole fd n payload s s' pos small written =
    let more : (length payload == 0) ≡ false = ground arith in
    let all : left_of (length payload) (length payload) ≡ 0 = omega arith in
    rw (write_all, more, written, all) refl

pub send_whole :
    (payload : List ℕ) (n : ℕ) (k k' : Kernel)
    → length payload ≡ n
    → 1 < n
    → n < 2 ^ 64
    → dev_write false false n (some payload) k ≡ Step.ok (bytes n) k'
    → send device payload (session k) ≡ finished (ok tt) (session k')
send_whole payload n k k' size long small written =
    let e : length payload ≡ suc (length payload - 1) = omega arith in
    let taken : take (length payload) payload ≡ payload = take_all _ _ (omega arith) in
    let written' =
      subst (λ m. dev_write false false m (some payload) k ≡ Step.ok (bytes m) k') (sym size)
        written in
    ap (λ m. write_all device (suc m) payload (length payload) (session k)) e
    ∙ write_all_whole device (length payload - 1) payload (session k) (session k') (omega arith)
        (omega arith)
        (ap (λ p. answered [] (dev_write false false (length payload) (some p) k)) taken
          ∙ ap (answered []) written')

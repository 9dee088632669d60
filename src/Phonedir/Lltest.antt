-- ===== src/Phonedir/Lltest.antt =====
-- hw3-kernel/client/lltest.cpp: the client of the device, with its loops over `read` and `write`.
pub mod Ends
pub mod Session
pub mod Made
pub mod Entries
pub mod Fresh
pub mod Used
pub mod Main
pub mod Runs
mod Tests
use mipt_kis_linux.Prelude.{
  ℕ, zero, suc, ◌+◌, ◌-◌, ◌%◌, ◌≡◌, Bool, true, false, List, [], ◌∷◌, ◌++◌, Option, none, some,
  ◌==◌, ltb, ◌&&◌, if◌then◌else◌, length, take, drop,
}
use mipt_kis_linux.Phonedir.Record.{PhonedirRecord, record_of, rec_size}
use mipt_kis_linux.Phonedir.Device.{
  Kernel, Step, Ssize, bytes, failed, word_mod, dev_read, dev_write,
}
use mipt_kis_linux.Phonedir.Client.{
  ClientError, Result, ok, err, write_failed, read_failed, partial_quant, add_payload,
  search_payload, delete_payload,
}

-- What the client needs of an open file: its `write` and its `read`, with the bytes that the latter
-- stores. A call that crashes the kernel has no answer.
pub record File (S : Type 0) : Type 0 where
  pub write : (len : ℕ) → List ℕ → S → Option (Ssize × S)
  pub read : (len : ℕ) → S → Option ((Ssize × List ℕ) × S)

-- A function of the client comes back or throws, or a call of it crashes the kernel, or the rounds
-- are not enough.
pub data Run (S A : Type 0) : Type 0 where
  finished : Result A → S → Run S A
  crashed unfinished : Run S A

-- `len -= done` on a `size_t`.
abbrev pub left_of : (len done : ℕ) → ℕ
left_of len done = (len + word_mod - done) % word_mod

module _ {S : Type 0} (fd : File S) where
  -- The loop of `write_all` with what follows it; a round that writes nothing repeats itself.
  unfoldable pub write_all : (fuel : ℕ) → (buf : List ℕ) → (len : ℕ) → S → Run S (Unit {0})
  write_all zero buf len s = unfinished
  write_all (suc n) buf len s = elim (len == 0) [
    | true ↦ finished (ok tt) s
    | false ↦ elim (fd.write len buf s) [
      | none ↦ crashed
      | some (failed e, s') ↦ finished (err write_failed) s'
      | some (bytes done, s') ↦ write_all n (drop done buf) (left_of len done) s'
    ]
  ]

  -- The loop of `read_quant` with what follows it; `buf` is what was read before. The result has
  -- the bytes of the buffer.
  unfoldable pub read_quant :
      (fuel : ℕ) → (buf : List ℕ) → (len : ℕ) → (iterated : Bool) → S → Run S (Bool × List ℕ)
  read_quant zero buf len iterated s = unfinished
  read_quant (suc n) buf len iterated s = elim (len == 0) [
    | true ↦ finished (ok (true, buf)) s
    | false ↦ elim (fd.read len s) [
      | none ↦ crashed
      | some ((failed e, data_read), s') ↦ finished (err read_failed) s'
      | some ((bytes done, data_read), s') ↦ elim (done == 0) [
        | true ↦ finished (if iterated then err partial_quant else ok (false, buf)) s'
        | false ↦ read_quant n (buf ++ data_read) (left_of len done) true s'
      ]
    ]
  ]

  abbrev pub send : List ℕ → S → Run S (Unit {0})
  send payload = write_all (suc (length payload)) payload (length payload)

  abbrev pub send_all : Result (List ℕ) → S → Run S (Unit {0})
  send_all (err e) s = finished (err e) s
  send_all (ok payload) s = send payload s

  unfoldable pub preform_add :
      (surname name phone email : List ℕ) → (age : ℕ) → S → Run S (Unit {0})
  preform_add surname name phone email age = send_all (add_payload surname name phone email age)

  unfoldable pub perform_delete : (surname : List ℕ) → S → Run S (Unit {0})
  perform_delete surname = send_all (delete_payload surname)

  -- The loop of `preform_search`; the records that are printed stand in the state.
  unfoldable pub print_records :
      (fuel : ℕ) → (printed : List PhonedirRecord) → S → Run (S × List PhonedirRecord) (Unit {0})
  print_records zero printed s = unfinished
  print_records (suc n) printed s = elim (read_quant (suc rec_size) [] rec_size false s) [
    | crashed ↦ crashed
    | unfinished ↦ unfinished
    | finished (err e) s' ↦ finished (err e) (s', printed)
    | finished (ok (false, data_read)) s' ↦ finished (ok tt) (s', printed)
    | finished (ok (true, data_read)) s' ↦ print_records n (printed ++ record_of data_read ∷ []) s'
  ]

  abbrev pub then_print : (fuel : ℕ) → Run S (Unit {0}) → Run (S × List PhonedirRecord) (Unit {0})
  then_print fuel crashed = crashed
  then_print fuel unfinished = unfinished
  then_print fuel (finished (err e) s) = finished (err e) (s, [])
  then_print fuel (finished (ok u) s) = print_records fuel [] s

  unfoldable pub preform_search :
      (fuel : ℕ) → (surname : List ℕ) → S → Run (S × List PhonedirRecord) (Unit {0})
  preform_search fuel surname s = then_print fuel (send_all (search_payload surname) s)

-- The device as it is seen by the one client that has it open. A signal may arrive whenever a call
-- waits for the lock; the list says at which waits, and none arrives after its end.
pub record Opened : Type 0 where
  pub signals : List Bool
  pub kernel : Kernel

abbrev pub signal : List Bool → Bool × List Bool
signal [] = (false, [])
signal (b ∷ signals) = (b, signals)

module _ {A : Type 0} where
  abbrev pub answered : List Bool → Step A → Option (A × Opened)
  answered signals (Step.ok a k) = some (a, record { signals = signals; kernel = k })
  answered signals Step.fault = none

-- The file operations of kmodule.c. A write waits for the lock at most twice.
abbrev pub device : File Opened
device = record {
  write = λ len buf s.
      let (first, rest) = signal s.signals in
      let (second, rest') = signal rest in
      answered rest' (dev_write first second len (some (take len buf)) s.kernel);
  read = λ len s.
      let (interrupted, rest) = signal s.signals in
      answered rest (dev_read interrupted len true s.kernel);
}

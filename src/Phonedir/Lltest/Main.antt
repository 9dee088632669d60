-- ===== src/Phonedir/Lltest/Main.antt =====
-- hw3-kernel/client/lltest.cpp: whole runs of the client, each with the device opened once, and
-- what they are to do.
use mipt_kis_linux.Prelude.{
  ℕ, ◌+◌, Bool, List, [], ◌∷◌, ◌++◌, Option, none, some, length, ltb, if◌then◌else◌,
}
use mipt_kis_linux.Phonedir.Record.{PhonedirRecord}
use mipt_kis_linux.Phonedir.Directory.{terminated}
use mipt_kis_linux.Phonedir.Directory.Find.{select, reject}
use mipt_kis_linux.Phonedir.Device.{Step}
use mipt_kis_linux.Phonedir.Syscalls.{Store}
use mipt_kis_linux.Phonedir.Lifetime.{dev_open, dev_release}
use mipt_kis_linux.Phonedir.Client.{Result, ok, err, open_failed, surname_too_long, make_record}
use mipt_kis_linux.Phonedir.Lltest.{
  Run, finished, crashed, unfinished, Opened, device, signal, preform_add, perform_delete,
  preform_search,
}

-- The variables that the options set, and the subcommands. The parse of a command line by CLI11 is
-- an argument: what it leaves in the variables, which the subcommands share, and the subcommands
-- whose callbacks it calls, in their order.
pub record Variables : Type 0 where
  pub surname : List ℕ
  pub name : List ℕ
  pub phone : List ℕ
  pub email : List ℕ
  pub age : ℕ

pub data Subcommand : Type 0 where
  add_sbc del_sbc find_sbc : Subcommand

pub record Invocation : Type 0 where
  pub variables : Variables
  pub called : List Subcommand

abbrev pub silent : Run Opened (Unit {0}) → Run (Opened × List PhonedirRecord) (Unit {0})
silent (finished r o) = finished r (o, [])
silent crashed = crashed
silent unfinished = unfinished

-- The callback of a subcommand.
unfoldable pub callback :
    (fuel : ℕ) → Variables → Subcommand → Opened → Run (Opened × List PhonedirRecord) (Unit {0})
callback fuel v add_sbc o = silent (preform_add device v.surname v.name v.phone v.email v.age o)
callback fuel v del_sbc o = silent (perform_delete device v.surname o)
callback fuel v find_sbc o = preform_search device fuel v.surname o

abbrev pub printed_before :
    List PhonedirRecord
    → Run (Opened × List PhonedirRecord) (Unit {0})
    → Run (Opened × List PhonedirRecord) (Unit {0})
printed_before first (finished r (o, printed)) = finished r (o, first ++ printed)
printed_before first crashed = crashed
printed_before first unfinished = unfinished

-- The callbacks one after the other; an exception leaves out those behind it.
abbrev pub then_callbacks :
    Run (Opened × List PhonedirRecord) (Unit {0})
    → (Opened → Run (Opened × List PhonedirRecord) (Unit {0}))
    → Run (Opened × List PhonedirRecord) (Unit {0})
then_callbacks (finished (ok u) (o, printed)) next = printed_before printed (next o)
then_callbacks (finished (err e) last) next = finished (err e) last
then_callbacks crashed next = crashed
then_callbacks unfinished next = unfinished

unfoldable pub callbacks :
    (fuel : ℕ)
    → Variables
    → List Subcommand
    → Opened
    → Run (Opened × List PhonedirRecord) (Unit {0})
callbacks fuel v [] o = finished (ok tt) (o, [])
callbacks fuel v (c ∷ called) o = then_callbacks (callback fuel v c o) (callbacks fuel v called)

-- The end of the process closes the device, also after an exception.
unfoldable pub exited :
    Run (Opened × List PhonedirRecord) (Unit {0}) → Run (Store × List PhonedirRecord) (Unit {0})
exited crashed = crashed
exited unfinished = unfinished
exited (finished r (o, printed)) = elim (dev_release (signal o.signals).0 o.kernel) [
  | none ↦ crashed
  | some store ↦ finished r (store, printed)
]

-- `main`: `open`, and the callbacks of the subcommands.
unfoldable pub main :
    (fuel : ℕ)
    → (signals : List Bool) → Invocation
    → Store
    → Run (Store × List PhonedirRecord) (Unit {0})
main fuel signals invoked store = elim (dev_open store) [
  | Step.fault ↦ crashed
  | Step.ok (some e) k ↦ finished (err open_failed) (store, [])
  | Step.ok none k ↦
      exited
        (callbacks fuel invoked.variables invoked.called (record { signals = signals; kernel = k }))
]

-- What an addition is to do with the record that was made.
unfoldable pub added :
    Result PhonedirRecord
    → (entries : List PhonedirRecord)
    → Result (Unit {0}) × List PhonedirRecord × List PhonedirRecord
added (err e) entries = (err e, [], entries)
added (ok r) entries = (ok tt, [], entries ++ terminated r ∷ [])

-- What a subcommand is to do: its result, what it prints, and the entries afterwards, each list
-- with the oldest entry first.
unfoldable pub specified :
    Variables
    → Subcommand
    → (entries : List PhonedirRecord)
    → Result (Unit {0}) × List PhonedirRecord × List PhonedirRecord
specified v add_sbc entries = added (make_record v.surname v.name v.phone v.email v.age) entries
specified v del_sbc entries =
    if ltb 128 (length v.surname + 1)
    then (err surname_too_long, [], entries)
    else (ok tt, [], reject v.surname entries)
specified v find_sbc entries =
    if ltb 128 (length v.surname + 1)
    then (err surname_too_long, [], entries)
    else (ok tt, select v.surname entries, entries)

-- What a run is to do: one subcommand after the other, until one is refused.
abbrev pub then_specified :
    Result (Unit {0}) × List PhonedirRecord × List PhonedirRecord
    → (List PhonedirRecord → Result (Unit {0}) × List PhonedirRecord × List PhonedirRecord)
    → Result (Unit {0}) × List PhonedirRecord × List PhonedirRecord
then_specified (err e, printed, entries) next = (err e, printed, entries)
then_specified (ok u, printed, entries) next =
    let (r, more, entries') = next entries in (r, printed ++ more, entries')

unfoldable pub specify :
    Variables
    → List Subcommand
    → (entries : List PhonedirRecord)
    → Result (Unit {0}) × List PhonedirRecord × List PhonedirRecord
specify v [] entries = (ok tt, [], entries)
specify v (c ∷ called) entries = then_specified (specified v c entries) (specify v called)

-- Runs one after the other, each by a process of its own to which no signal comes: the results with
-- what was printed, and the directory that is left.
unfoldable pub run_all :
    (fuel : ℕ)
    → List Invocation
    → Store
    → Option (List (Result (Unit {0}) × List PhonedirRecord) × Store)
run_all fuel [] store = some ([], store)
run_all fuel (invoked ∷ later) store = elim (main fuel [] invoked store) [
  | crashed ↦ none
  | unfinished ↦ none
  | finished r (store', printed) ↦ elim (run_all fuel later store') [
    | none ↦ none
    | some (results, last) ↦ some ((r, printed) ∷ results, last)
  ]
]

unfoldable pub specify_all :
    List Invocation
    → (entries : List PhonedirRecord)
    → List (Result (Unit {0}) × List PhonedirRecord) × List PhonedirRecord
specify_all [] entries = ([], entries)
specify_all (invoked ∷ later) entries =
    let (r, printed, entries') = specify invoked.variables invoked.called entries in
    let (results, last) = specify_all later entries' in ((r, printed) ∷ results, last)

-- ===== src/Phonedir/Lltest/Runs.antt =====
-- hw3-kernel/client/lltest.cpp: runs of the client do what is specified.
use mathlib.Core.List.{reverse, reverse-cons}
use mipt_kis_linux.Prelude.{
  ℕ, suc, ◌+◌, ◌≤◌, ◌++◌, ◌<◌, ◌^◌, ◌≡◌, refl, ap, ◌∙◌, inl, inr, Bool-cases, false, List, [], ◌∷◌,
  some, arith, length, ltb, IsText,
}
use mipt_kis_linux.Phonedir.Record.{PhonedirRecord, record_bytes}
use mipt_kis_linux.Phonedir.Record.Bytes.{length-record_bytes}
use mipt_kis_linux.Phonedir.Directory.{terminated, phonedir_del}
use mipt_kis_linux.Phonedir.Directory.Find.{select, reverse-del}
use mipt_kis_linux.Phonedir.Directory.Valid.{AllEntries, terminated-IsEntry, del-AllEntries}
use mipt_kis_linux.Phonedir.Device.{Kernel}
use mipt_kis_linux.Phonedir.Device.Whole.{Leaves}
use mipt_kis_linux.Phonedir.Device.Names.{
  padded, length-padded, reverse-AllRecords, select-AllRecords,
}
use mipt_kis_linux.Phonedir.Client.{
  Result, ok, err, surname_too_long, ◌>>=◌, make_record, add_payload,
}
use mipt_kis_linux.Phonedir.Client.Laws.{payload_lem}
use mipt_kis_linux.Phonedir.Lltest.{
  Run, Opened, finished, device, send_all, then_print, preform_add, perform_delete, preform_search,
}
use mipt_kis_linux.Phonedir.Lltest.Session.{AllSmall, session, send_whole, print_records_all}
use mipt_kis_linux.Phonedir.Lltest.Main.{
  Variables, Subcommand, Invocation, silent, add_sbc, del_sbc, find_sbc, callback, printed_before,
  then_callbacks, callbacks, exited, main, specified, then_specified, specify, added, run_all,
  specify_all,
}
use mipt_kis_linux.Phonedir.Lltest.Used.{write_add, write_delete, write_find}
use mipt_kis_linux.Phonedir.Lltest.Made.{IsMade, make_record-IsMade}
use mipt_kis_linux.Phonedir.Lltest.Entries.{
  del-AllSmall, reverse-AllSmall, select-AllSmall, length-select, length-del, length-reverse,
}
use mipt_kis_linux.Phonedir.Lltest.Fresh.{
  fresh, stored, dev_open-fresh, fresh-Leaves, dev_release-Leaves,
}

-- What the variables hold: a surname without a zero, and an unsigned age.
abbrev pub IsArgs : Variables → Type 0
IsArgs v = (v.age < 2 ^ 32) × IsText v.surname

-- A directory whose entries the device can hand out.
abbrev pub AllStored : List PhonedirRecord → Type 0
AllStored list = AllEntries list × AllSmall list

-- A run on the device with nothing to read or to carry out ends as specified, and so does it leave
-- the device.
abbrev Does :
    (calls : ℕ)
    → Run (Opened × List PhonedirRecord) (Unit {0})
    → (list : List PhonedirRecord) → Result (Unit {0}) × List PhonedirRecord × List PhonedirRecord
    → Type 0
Does calls run list (r, printed, entries) =
    (k : Kernel) × (list' : List PhonedirRecord) × (run ≡ finished r (session k, printed))
    × Leaves list' [] k
    × (reverse list' ≡ entries)
    × AllStored list'
    × (length list' ≤ calls + length list)

module _ (fuel : ℕ) (list : List PhonedirRecord) (all : AllStored list) (k : Kernel)
    (left : Leaves list [] k) where
  -- A callback that throws before it calls the device.
  thrown-Does :
      (run : Run (Opened × List PhonedirRecord) (Unit {0})) (r : Result (Unit {0}))
      → run ≡ finished r (session k, [])
      → Does 1 run list (r, [], reverse list)
  thrown-Does run r e = (k, list, e, left, refl, all, omega arith)

  del_sbc-Does :
      (v : Variables)
      → IsText v.surname
      → Does 1 (callback fuel v del_sbc (session k)) list (specified v del_sbc (reverse list))
  unfolding specified callback perform_delete
  del_sbc-Does v text = elim (Bool-cases (ltb 128 (length v.surname + 1))) [
    | inl e ↦
        let refused = ((payload_lem v.surname).1 (ground (arith, e))).1 in
        rw e (
          thrown-Does _ (err surname_too_long)
            (ap (λ p. silent (send_all device p (session k))) refused))
    | inr e ↦
        let s = v.surname in
        let short : length s < 128 = ground (arith, e) in
        let (k', written, left') = write_delete list k left s short text in
        let size : length (2 ∷ padded s) ≡ 129 = omega (arith, length-padded s short) in
        let sent = send_whole (2 ∷ padded s) 129 k k' size (omega arith) (omega arith) written in
        rw e (
          k',
          phonedir_del list s,
          ap (λ p. silent (send_all device p (session k))) ((payload_lem s).0 short).1
              ∙ ap silent sent,
          left',
          reverse-del list s,
          (del-AllEntries list s all.0, del-AllSmall list s all.1),
          omega (arith, length-del list s),
        )
  ]

  find_sbc-Does :
      (v : Variables)
      → IsText v.surname
      → length list < fuel
      → Does 1 (callback fuel v find_sbc (session k)) list (specified v find_sbc (reverse list))
  unfolding specified callback preform_search
  find_sbc-Does v text enough = elim (Bool-cases (ltb 128 (length v.surname + 1))) [
    | inl e ↦
        let refused = ((payload_lem v.surname).1 (ground (arith, e))).0 in
        rw e (
          thrown-Does _ (err surname_too_long)
            (ap (λ p. then_print device fuel (send_all device p (session k))) refused))
    | inr e ↦
        let s = v.surname in
        let short : length s < 128 = ground (arith, e) in
        let (k', written, left') = write_find list k left s short text all.0 in
        let size : length (3 ∷ padded s) ≡ 129 = omega (arith, length-padded s short) in
        let sent = send_whole (3 ∷ padded s) 129 k k' size (omega arith) (omega arith) written in
        let found = select s (reverse list) in
        let records = select-AllRecords s (reverse list) (reverse-AllRecords list all.0) in
        let ages = select-AllSmall s (reverse list) (reverse-AllSmall list all.1) in
        let bound = length-select s (reverse list) in
        let count = length-reverse list in
        let (k'', printed, left'') =
          print_records_all fuel list found [] k' (omega arith) records ages left' in
        rw e (
          k'',
          list,
          ap (λ p. then_print device fuel (send_all device p (session k)))
                ((payload_lem s).0 short).0
              ∙ ap (then_print device fuel) sent
              ∙ printed,
          left'',
          refl,
          all,
          omega arith,
        )
  ]

  added-Does :
      (m : Result PhonedirRecord)
      → IsMade m
      → Does 1
          (silent (send_all device (m >>= (λ r. ok (1 ∷ record_bytes r))) (session k)))
          list
          (added m (reverse list))
  unfolding added terminated
  added-Does (err e) made = thrown-Does _ (err e) refl
  added-Does (ok r) (whole, small) =
      let (k', written, left') = write_add list k left r whole small in
      let size : length (1 ∷ record_bytes r) ≡ 389 = omega (arith, length-record_bytes r whole) in
      let sent =
        send_whole (1 ∷ record_bytes r) 389 k k' size (omega arith) (omega arith) written in
      (
        k',
        terminated r ∷ list,
        ap silent sent,
        left',
        reverse-cons (terminated r) list,
        ((terminated-IsEntry r whole, all.0), (small, all.1)),
        omega arith,
      )

  callback-Does :
      (v : Variables) (c : Subcommand)
      → IsArgs v
      → length list < fuel
      → Does 1 (callback fuel v c (session k)) list (specified v c (reverse list))
  unfolding callback specified preform_add add_payload
  callback-Does v add_sbc args enough =
      added-Does (make_record v.surname v.name v.phone v.email v.age)
        (make_record-IsMade v.surname v.name v.phone v.email v.age args.0)
  callback-Does v del_sbc args enough = del_sbc-Does v args.1
  callback-Does v find_sbc args enough = find_sbc-Does v args.1 enough

-- What follows a callback, when it does what is specified on what the callback leaves.
then_callbacks-Does :
    (n : ℕ) (list : List PhonedirRecord) (run : Run (Opened × List PhonedirRecord) (Unit {0}))
    (spec : Result (Unit {0}) × List PhonedirRecord × List PhonedirRecord)
    (next : Opened → Run (Opened × List PhonedirRecord) (Unit {0}))
    (later : List PhonedirRecord → Result (Unit {0}) × List PhonedirRecord × List PhonedirRecord)
    → Does 1 run list spec
    → ((list' : List PhonedirRecord) (k' : Kernel)
        → AllStored list'
        → Leaves list' [] k'
        → length list' ≤ 1 + length list
        → Does n (next (session k')) list' (later (reverse list')))
    → Does (suc n) (then_callbacks run next) list (then_specified spec later)
then_callbacks-Does n list run (err e, printed, entries) next later
      (k, list', ran, left, same, all, size) rest =
    (k, list', rw ran refl, left, same, all, omega arith)
then_callbacks-Does n list run (ok u, printed, entries) next later
      (k, list', ran, left, same, all, size) rest =
    let (k', list'', ran', left', same', all', size') = rest list' k all left size in
    (
      k',
      list'',
      ap (λ r. then_callbacks r next) ran
          ∙ ap (printed_before printed) ran'
          ∙ ap (λ l. finished (later l).0 (session k', printed ++ (later l).1)) same,
      left',
      same' ∙ ap (λ l. (later l).2) same,
      all',
      omega arith,
    )

-- The callbacks of a run, one after the other.
callbacks-Does :
    (fuel : ℕ) (v : Variables) (called : List Subcommand) (list : List PhonedirRecord) (k : Kernel)
    → IsArgs v
    → AllStored list
    → Leaves list [] k
    → length list + length called < fuel
    → Does
        (length called)
        (callbacks fuel v called (session k))
        list
        (specify v called (reverse list))
unfolding callbacks specify
callbacks-Does fuel v [] list k args all left enough = (k, list, refl, left, refl, all, omega arith)
callbacks-Does fuel v (c ∷ called) list k args all left enough =
    then_callbacks-Does (length called) list (callback fuel v c (session k))
      (specified v c (reverse list)) (callbacks fuel v called) (specify v called)
      (callback-Does fuel list all k left v c args (omega arith))
      (λ list' k' all' left' size.
        callbacks-Does fuel v called list' k' args all' left' (omega arith))

-- A whole run from the opening to the release.
main-specified :
    (fuel : ℕ) (list : List PhonedirRecord) (invoked : Invocation)
    → AllStored list
    → IsArgs invoked.variables
    → length list + length invoked.called < fuel
    → (list' : List PhonedirRecord) × (main fuel [] invoked (stored list)
        ≡ finished
            (specify invoked.variables invoked.called (reverse list)).0
            (stored list', (specify invoked.variables invoked.called (reverse list)).1))
      × (reverse list' ≡ (specify invoked.variables invoked.called (reverse list)).2)
      × AllStored list'
      × (length list' ≤ length invoked.called + length list)
unfolding main exited
main-specified fuel list invoked all args enough =
    let (k, list', ran, left, entries, all', size) =
      callbacks-Does fuel invoked.variables invoked.called list (fresh list) args all
        (fresh-Leaves list) enough in
    (
      list',
      rw (main, dev_open-fresh list, ran, exited, dev_release-Leaves false list' [] k left) refl,
      entries,
      all',
      size,
    )

abbrev pub AllArgs : List Invocation → Type 0
AllArgs [] = Unit
AllArgs (invoked ∷ later) = IsArgs invoked.variables × AllArgs later

-- The number of all subcommands.
abbrev pub calls : List Invocation → ℕ
calls [] = 0
calls (invoked ∷ later) = length invoked.called + calls later

-- When memory is at hand, no signal arrives, the entries of the directory are valid with unsigned
-- 32-bit ages, in every run the surname has no zero byte and the age fits 32 bits, and the rounds
-- of the printing loop exceed the entries and the subcommands of all runs, every sequence of runs
-- of the device client, each with any subcommands on one opened device and variables that they
-- share, comes to its end with the specified results: an addition appends the record that is made,
-- a deletion filters, a search prints every match in the order of addition and ends, and an
-- argument that is too long is refused, changes nothing and ends its run; the directory that is
-- left is the specified one, backwards.
pub run_all-specify_all :
    (fuel : ℕ) (runs : List Invocation) (list : List PhonedirRecord)
    → AllArgs runs
    → AllStored list
    → length list + calls runs < fuel
    → (list' : List PhonedirRecord) × (run_all fuel runs (stored list)
        ≡ some ((specify_all runs (reverse list)).0, stored list'))
      × (reverse list' ≡ (specify_all runs (reverse list)).1)
unfolding run_all specify_all
run_all-specify_all fuel [] list args all enough = (list, refl, refl)
run_all-specify_all fuel (invoked ∷ later) list args all enough =
    let (list', ran, entries, all', size) =
      main-specified fuel list invoked all args.0 (omega arith) in
    let (last, rest, entries') = run_all-specify_all fuel later list' args.1 all' (omega arith) in
    (
      last,
      rw (run_all, ran) (rw rest (rw entries refl)),
      entries' ∙ ap (λ l. (specify_all later l).1) entries,
    )

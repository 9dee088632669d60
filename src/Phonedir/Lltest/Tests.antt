-- ===== src/Phonedir/Lltest/Tests.antt =====
-- hw3-kernel/client/lltest.cpp: runs of the client on small directories.
use mathlib.Core.List.{reverse}
use mipt_kis_linux.Prelude.{
  ℕ, zero, suc, ◌≡◌, refl, Bool, true, List, [], ◌∷◌, some, arith, replicate, IsText,
}
use mipt_kis_linux.Phonedir.Device.Whole.{idle}
use mipt_kis_linux.Phonedir.Lltest.{Opened, device, write_all, read_quant}
use mipt_kis_linux.Phonedir.Lltest.Ends.{Ends, device-Ends}
use mipt_kis_linux.Phonedir.Lltest.Fresh.{stored}
use mipt_kis_linux.Phonedir.Lltest.Main.{
  Subcommand, Invocation, add_sbc, del_sbc, find_sbc, run_all, specify_all,
}
use mipt_kis_linux.Phonedir.Lltest.Runs.{run_all-specify_all}
use mipt_kis_linux.Phonedir.Record.{PhonedirRecord}

abbrev person : List ℕ → List Subcommand → Invocation
person surname called = record {
  variables = record { surname = surname; name = 3 ∷ []; phone = []; email = []; age = 30 };
  called = called;
}

-- Two additions, each with a search, a search and a deletion, a search, and a surname that is too
-- long.
abbrev runs : List Invocation
runs =
    person (1 ∷ 2 ∷ []) (add_sbc ∷ find_sbc ∷ [])
    ∷ person (5 ∷ []) (add_sbc ∷ find_sbc ∷ [])
    ∷ person (5 ∷ []) (find_sbc ∷ del_sbc ∷ [])
    ∷ person (5 ∷ []) (find_sbc ∷ [])
    ∷ person (replicate 200 7) (find_sbc ∷ add_sbc ∷ [])
    ∷ []

replicate-IsText : (n : ℕ) → IsText (replicate n 7)
replicate-IsText zero = tt
replicate-IsText (suc n) = (refl, replicate-IsText n)

run_all-specify_all_example :
    (list' : List PhonedirRecord) × (run_all 10 runs (stored [])
      ≡ some ((specify_all runs (reverse [])).0, stored list'))
    × (reverse list' ≡ (specify_all runs (reverse [])).1)
run_all-specify_all_example =
    run_all-specify_all 10 runs []
      (
        (omega arith, (refl, (refl, tt))),
        (
          (omega arith, (refl, tt)),
          (
            (omega arith, (refl, tt)),
            ((omega arith, (refl, tt)), ((omega arith, replicate-IsText 200), tt)),
          ),
        ),
      )
      (tt, tt) (omega arith)

abbrev opened : Opened
opened = record { signals = true ∷ []; kernel = idle [] [] (replicate 1024 0) (replicate 1024 0) 0 }

device-Ends_example :
    Ends (write_all device (suc 3) (3 ∷ 0 ∷ 0 ∷ []) 3 opened)
    × ((iterated : Bool) → Ends (read_quant device (suc 3) (3 ∷ 0 ∷ 0 ∷ []) 3 iterated opened))
device-Ends_example = device-Ends opened (3 ∷ 0 ∷ 0 ∷ []) 3 (omega arith)

-- ===== src/Keystats/Tests.antt =====
-- Runs of the module of hw4-keystats with a few events.
use mipt_kis_linux.Prelude.{ℕ, ◌+◌, ◌*◌, ◌%◌, ◌^◌, ◌≤◌, ◌≡◌, refl, true, false, [], ◌∷◌, arith, inl}
use mipt_kis_linux.Keystats.{
  Keystats, keyboard_irq_handler, collect_stats, reschedule, stop_counter, long_mod, time_after,
}
use mipt_kis_linux.Keystats.Timer.{reschedule-NotBefore}
use mipt_kis_linux.Keystats.Runs.{
  running, freed, stopped, Run, start, more, irq, timer, free, stop, total, Run-total,
  stopped-Silent,
}

abbrev started : Keystats
started = record { counter = 0; expires = 6000; pending = true; requested = true; log = [] }

abbrev pressed : Keystats
pressed = keyboard_irq_handler started

abbrev reported : Keystats
reported = collect_stats 100 6000 pressed

abbrev released : Keystats
released = record started { requested = false }

abbrev halted : Keystats
halted = stop_counter released

one_key : Run 100 started 1 running pressed
one_key = more 0 1 running started running pressed start (irq running started refl)

halting : Run 100 started 0 stopped halted
halting =
    more 0 0 freed released stopped halted
      (more 0 0 running started freed released start (free started)) (stop released)

queued : halted.pending ≡ true
unfolding stop_counter
queued = refl

-- The report of one key press, and when the next is to come.
reported_log : (reported.log ≡ 1 ∷ []) × (reported.expires ≡ 12000)
unfolding collect_stats keyboard_irq_handler reschedule
reported_log = (refl, refl)

Run-total_example : total pressed ≡ total started + 1
Run-total_example = Run-total 100 started 1 pressed (inl one_key) (omega arith)

stopped-Silent_example :
    ((collect_stats 100 6000 halted).log ≡ halted.log)
    × ((collect_stats 100 6000 halted).pending ≡ false)
stopped-Silent_example =
    stopped-Silent 100 started 0 0 halted stopped (collect_stats 100 6000 halted) halting
      (timer stopped halted 6000 queued)

reschedule-NotBefore_example :
    (ahead : ℕ) × (ahead ≤ 2 ^ 63)
    × (reschedule 100 6000 60 6000 ≡ (6000 + 100 + ahead) % long_mod)
    × (time_after ((6000 + 60 * 100) % long_mod) (reschedule 100 6000 60 6000) ≡ false)
reschedule-NotBefore_example = reschedule-NotBefore 100 6000 60 6000

-- ===== src/Keystats/Runs.antt =====
-- hw4-keystats/kernel/kmodule.c: interrupts, calls of the timer and the steps of unloading, in any
-- order that the kernel allows.
use mipt_kis_linux.Prelude.{
  ℕ, ◌+◌, ◌^◌, ◌<◌, ◌≤◌, ◌≡◌, refl, true, false, List, [], ◌∷◌, arith, inl, inr, leb, ◌⊎◌,
}
use mipt_kis_linux.Keystats.{
  Keystats, keyboard_irq_handler, collect_stats, stop_counter, stopped_value,
}

-- How far `first_module_exit` is.
pub data Phase : Type 0 where
  running freed stopped exited : Phase

-- An interrupt comes only while the handler is registered, and the timer only while it is queued.
-- The first index is the number of interrupts that the event is. Between the calls of
-- `first_module_exit` anything may come; of the kernel's `free_irq` and `del_timer_sync` only what
-- they promise is taken, that the handler is no longer registered and the timer no longer queued.
-- Calls of the timer are whole, so that the latter also waits for a call does not show.
pub data Event (hz : ℕ) : ℕ → Phase → Keystats → Phase → Keystats → Type 0 where
  irq : (p : Phase) (s : Keystats) → s.requested ≡ true → Event hz 1 p s p (keyboard_irq_handler s)
  timer :
      (p : Phase) (s : Keystats) (jiffies : ℕ)
      → s.pending ≡ true
      → Event hz 0 p s p (collect_stats hz jiffies s)
  free : (s : Keystats) → Event hz 0 running s freed (record s { requested = false })
  stop : (s : Keystats) → Event hz 0 freed s stopped (stop_counter s)
  delete : (s : Keystats) → Event hz 0 stopped s exited (record s { pending = false })

-- Any number of events, with the number of interrupts among them.
pub data Run (hz : ℕ) (s0 : Keystats) : ℕ → Phase → Keystats → Type 0 where
  start : Run hz s0 0 running s0
  more :
      (n k : ℕ) (p : Phase) (s : Keystats) (p' : Phase) (s' : Keystats)
      → Run hz s0 n p s
      → Event hz k p s p' s'
      → Run hz s0 (n + k) p' s'

abbrev pub sum : List ℕ → ℕ
sum [] = 0
sum (x ∷ xs) = x + sum xs

-- The interrupts that were printed and those that wait.
abbrev pub total : Keystats → ℕ
total s = s.counter + sum s.log

abbrev Counted : (base n : ℕ) → Phase → Keystats → Type 0
Counted base n running s = (total s ≡ base + n) × (s.counter ≤ base + n)
Counted base n freed s = (total s ≡ base + n) × (s.counter ≤ base + n)
Counted base n stopped s = Unit
Counted base n exited s = Unit

irq-counted :
    (base n : ℕ) (s : Keystats)
    → base + (n + 1) < 2 ^ 31
    → (total s ≡ base + n) × (s.counter ≤ base + n)
    → (total (keyboard_irq_handler s) ≡ base + (n + 1))
      × ((keyboard_irq_handler s).counter ≤ base + (n + 1))
unfolding keyboard_irq_handler
irq-counted base n s small (t, c) = (omega arith, omega arith)

timer-counted :
    (hz jiffies base n : ℕ) (s : Keystats)
    → base + n < 2 ^ 31
    → (total s ≡ base + n) × (s.counter ≤ base + n)
    → (total (collect_stats hz jiffies s) ≡ base + n)
      × ((collect_stats hz jiffies s).counter ≤ base + n)
unfolding collect_stats
timer-counted hz jiffies base n s small (t, c) =
    let e : leb (2 ^ 31) s.counter ≡ false = ground arith in rw e (omega arith, omega arith)

Event-Counted :
    (hz base n k : ℕ) (p : Phase) (s : Keystats) (p' : Phase) (s' : Keystats)
    → Event hz k p s p' s'
    → base + (n + k) < 2 ^ 31
    → Counted base n p s
    → Counted base (n + k) p' s'
Event-Counted hz base n _ running s _ _ (irq _ _ on) small h = irq-counted base n s small h
Event-Counted hz base n _ freed s _ _ (irq _ _ on) small h = irq-counted base n s small h
Event-Counted hz base n _ stopped s _ _ (irq _ _ on) small h = tt
Event-Counted hz base n _ exited s _ _ (irq _ _ on) small h = tt
Event-Counted hz base n _ running s _ _ (timer _ _ jiffies on) small h =
    timer-counted hz jiffies base (n + 0) s small (omega arith, omega arith)
Event-Counted hz base n _ freed s _ _ (timer _ _ jiffies on) small h =
    timer-counted hz jiffies base (n + 0) s small (omega arith, omega arith)
Event-Counted hz base n _ stopped s _ _ (timer _ _ jiffies on) small h = tt
Event-Counted hz base n _ exited s _ _ (timer _ _ jiffies on) small h = tt
Event-Counted hz base n _ _ s _ _ (free _) small h = (omega arith, omega arith)
Event-Counted hz base n _ _ s _ _ (stop _) small h = tt
Event-Counted hz base n _ _ s _ _ (delete _) small h = tt

Run-Counted :
    (hz : ℕ) (s0 : Keystats) (n : ℕ) (p : Phase) (s : Keystats)
    → Run hz s0 n p s
    → total s0 + n < 2 ^ 31
    → Counted (total s0) n p s
Run-Counted hz s0 _ _ _ start small = (omega arith, omega arith)
Run-Counted hz s0 _ _ _ (more n k p s p' s' before event) small =
    Event-Counted hz (total s0) n k p s p' s' event small
      (Run-Counted hz s0 n p s before (omega arith))

-- In every run that has not stopped the counter, the numbers printed and the counter add up to
-- those at the start plus the interrupts that came, when this sum is less than 2^31.
pub Run-total :
    (hz : ℕ) (s0 : Keystats) (n : ℕ) (s : Keystats)
    → Run hz s0 n running s ⊎ Run hz s0 n freed s
    → total s0 + n < 2 ^ 31
    → total s ≡ total s0 + n
Run-total hz s0 n s (inl run) small = (Run-Counted hz s0 n running s run small).0
Run-total hz s0 n s (inr run) small = (Run-Counted hz s0 n freed s run small).0

-- What holds in each phase of the exit.
abbrev Quiet : Phase → Keystats → Type 0
Quiet running s = Unit
Quiet freed s = s.requested ≡ false
Quiet stopped s = (s.requested ≡ false) × ((s.counter ≡ stopped_value) ⊎ (s.pending ≡ false))
Quiet exited s = (s.requested ≡ false) × (s.pending ≡ false)

Event-Quiet :
    (hz k : ℕ) (p : Phase) (s : Keystats) (p' : Phase) (s' : Keystats)
    → Event hz k p s p' s'
    → Quiet p s
    → Quiet p' s'
unfolding keyboard_irq_handler collect_stats stop_counter
Event-Quiet hz _ running s _ _ (irq _ _ on) h = tt
Event-Quiet hz _ freed s _ _ (irq _ _ on) h = h
Event-Quiet hz _ stopped s _ _ (irq _ _ on) h = cc (on, h.0)
Event-Quiet hz _ exited s _ _ (irq _ _ on) h = h
Event-Quiet hz _ running s _ _ (timer _ _ jiffies on) h = tt
Event-Quiet hz _ freed s _ _ (timer _ _ jiffies on) h = ground (arith, h)
Event-Quiet hz _ stopped s _ _ (timer _ _ jiffies on) (off, inl e) = rw e (off, inr refl)
Event-Quiet hz _ stopped s _ _ (timer _ _ jiffies on) (off, inr e) = cc (on, e)
Event-Quiet hz _ exited s _ _ (timer _ _ jiffies on) h = cc (on, h.1)
Event-Quiet hz _ _ s _ _ (free _) h = refl
Event-Quiet hz _ _ s _ _ (stop _) h = (h, inl refl)
Event-Quiet hz _ _ s _ _ (delete _) h = (h.0, refl)

Run-Quiet :
    (hz : ℕ) (s0 : Keystats) (n : ℕ) (p : Phase) (s : Keystats) → Run hz s0 n p s → Quiet p s
Run-Quiet hz s0 _ _ _ start = tt
Run-Quiet hz s0 _ _ _ (more n k p s p' s' before event) =
    Event-Quiet hz k p s p' s' event (Run-Quiet hz s0 n p s before)

-- After `first_module_exit` has stopped the counter, whatever event comes next prints nothing and
-- leaves the timer off the queue.
pub stopped-Silent :
    (hz : ℕ) (s0 : Keystats) (n k : ℕ) (s : Keystats) (p' : Phase) (s' : Keystats)
    → Run hz s0 n stopped s
    → Event hz k stopped s p' s'
    → (s'.log ≡ s.log) × (s'.pending ≡ false)
unfolding collect_stats
stopped-Silent hz s0 n _ s _ _ run (irq _ _ on) = cc (on, (Run-Quiet hz s0 n stopped s run).0)
stopped-Silent hz s0 n _ s _ _ run (timer _ _ jiffies on) =
    elim (Run-Quiet hz s0 n stopped s run).1 [ inl e ↦ rw e (refl, refl) | inr e ↦ cc (on, e) ]
stopped-Silent hz s0 n _ s _ _ run (delete _) = (refl, refl)

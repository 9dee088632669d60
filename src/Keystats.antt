-- ===== src/Keystats.antt =====
-- hw4-keystats/kernel/kmodule.c: a counter of keyboard interrupts and the timer that reports it.
pub mod Timer
pub mod Runs
mod Tests
use mipt_kis_linux.Prelude.{
  ℕ, ◌+◌, ◌-◌, ◌*◌, ◌/◌, ◌%◌, ◌^◌, Bool, true, false, List, [], ◌∷◌, Option, none, some, leb, ltb,
  if◌then◌else◌,
}

-- `unsigned long` is 64 bits wide, `int` is 32 bits wide; an `int` is its bit pattern.
abbrev pub long_mod : ℕ
long_mod = 2 ^ 64

abbrev pub int_mod : ℕ
int_mod = 2 ^ 32

-- `-(1<<20)`.
abbrev pub stopped_value : ℕ
stopped_value = int_mod - 2 ^ 20

abbrev pub minute : ℕ
minute = 60

-- The kernel's `time_after(a, b)`, which is `(long)(b - a) < 0`.
abbrev pub time_after : ℕ → ℕ → Bool
time_after a b = leb (2 ^ 63) ((b + long_mod - a) % long_mod)

-- `pending` is set while the timer is queued, `requested` while the handler is registered. `log`
-- holds the numbers of interrupts that were printed, the last one first.
pub record Keystats : Type 0 where
  pub counter : ℕ
  pub expires : ℕ
  pub pending : Bool
  pub requested : Bool
  pub log : List ℕ

unfoldable pub keyboard_irq_handler : Keystats → Keystats
keyboard_irq_handler s = record s { counter = (s.counter + 1) % int_mod }

-- `hz` is the kernel's `HZ`.
unfoldable pub reschedule : (hz jiffies delay_sec expires : ℕ) → ℕ
reschedule hz jiffies delay_sec expires =
    let j1 = (expires + delay_sec * hz) % long_mod in
    let j2 = (jiffies + hz) % long_mod in if time_after j1 j2 then j1 else j2

-- The timer is off the queue when its function is called; `value < 0` is the sign bit.
unfoldable pub collect_stats : (hz jiffies : ℕ) → Keystats → Keystats
collect_stats hz jiffies s =
    let value = s.counter in
    let off = record s { counter = 0; pending = false } in
    if leb (2 ^ 31) value then off else record off {
      log = value ∷ s.log;
      expires = reschedule hz jiffies minute s.expires;
      pending = true;
    }

-- `irq_error` is what `request_irq` answers, `none` for zero.
unfoldable pub first_module_init :
    {E : Type 0} → (hz jiffies : ℕ) → (irq_error : Option E) → Keystats → Option E × Keystats
first_module_init hz jiffies (some e) s = (some e, s)
first_module_init hz jiffies none s = (
  none,
  record s { requested = true; expires = reschedule hz jiffies minute jiffies; pending = true },
)

-- `atomic_set(&counter, -(1<<20))` of `first_module_exit`.
unfoldable pub stop_counter : Keystats → Keystats
stop_counter s = record s { counter = stopped_value }

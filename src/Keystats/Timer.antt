-- ===== src/Keystats/Timer.antt =====
-- hw4-keystats/kernel/kmodule.c: when the timer is set to expire.
use mipt_kis_linux.Prelude.{
  ℕ, ◌+◌, ◌-◌, ◌*◌, ◌%◌, ◌^◌, ◌≤◌, ◌≡◌, refl, false, arith, Bool-cases, inl, inr, if◌then◌else◌,
}
use mipt_kis_linux.Keystats.{reschedule, time_after, long_mod}

-- In the wrapping order of the kernel, the time that `reschedule` sets is one second after the
-- present or later, and is not before the old time with the delay added.
pub reschedule-NotBefore :
    (hz jiffies delay_sec expires : ℕ)
    → (ahead : ℕ) × (ahead ≤ 2 ^ 63)
      × (reschedule hz jiffies delay_sec expires ≡ (jiffies + hz + ahead) % long_mod)
      × (time_after
            ((expires + delay_sec * hz) % long_mod)
            (reschedule hz jiffies delay_sec expires)
          ≡ false)
unfolding reschedule
reschedule-NotBefore hz jiffies delay_sec expires = choose _ _ _ _ refl refl
  where
    choose :
        (first second j1 j2 : ℕ)
        → j1 ≡ first % long_mod
        → j2 ≡ second % long_mod
        → (ahead : ℕ) × (ahead ≤ 2 ^ 63)
          × ((if time_after j1 j2 then j1 else j2) ≡ (second + ahead) % long_mod)
          × (time_after j1 (if time_after j1 j2 then j1 else j2) ≡ false)
    choose first second j1 j2 e1 e2 = elim (Bool-cases (time_after j1 j2)) [
      | inl e ↦
          let same : time_after j1 j1 ≡ false = ground arith in
          rw e ((j1 + long_mod - j2) % long_mod, ground arith, omega arith, same)
      | inr e ↦ rw (e, e) (0, omega arith, omega arith, refl)
    ]

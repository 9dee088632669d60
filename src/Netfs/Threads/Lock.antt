-- ===== src/Netfs/Threads/Lock.antt =====
-- hw2-netfs/src/net_backend.c: the lock is held by one thread at most, and what it works on is its
-- own.
use Prim.Native.Nat.{ℕ}
use mipt_kis_linux.Prelude.{
  Bool, true, false, ◌≡◌, refl, ◌∙◌, sym, ℕ_discrete, arith, inl, inr, Bool-cases,
}
use mipt_kis_linux.Rfs.Machine.{Mem}
use mipt_kis_linux.Rfs.Layout.{FsDescriptors}
use mipt_kis_linux.Netfs.Socket.{Socket}
use mipt_kis_linux.Netfs.Threads.{
  Shared, Phase, reading, waiting, entered, cleared, running, returned, uncaught, failing, answered,
  faulted, ended, Move, receive, hang_up, mutex_lock, clear_error, intercept_errors, finish,
  die_fatal, segv, uncatch, mutex_unlock, fsop_error, exit_error, System, update, initial,
}

-- The places between the lock and its release.
abbrev pub critical : Phase → Bool
critical reading = false
critical (waiting op) = false
critical ended = false
critical (entered op) = true
critical (cleared op) = true
critical (running op found) = true
critical returned = true
critical uncaught = true
critical (failing e) = true
critical answered = true
critical faulted = true

-- What a place says about what is shared: the container is as the operation found it, an error
-- would be caught, and its message would be sent; and a fault has killed the process.
abbrev FreshIn : Mem → (intercepted interceptor killed : Bool) → Phase → Type 0
FreshIn m intercepted interceptor killed (cleared op) = intercepted ≡ false
FreshIn m intercepted interceptor killed (running op found) =
    (m ≡ found) × (interceptor ≡ true) × (intercepted ≡ false)
FreshIn m intercepted interceptor killed (failing e) = intercepted ≡ false
FreshIn m intercepted interceptor killed faulted = killed ≡ true
FreshIn m intercepted interceptor killed _ = Unit

abbrev pub IsFresh : Shared → Phase → Type 0
IsFresh s = FreshIn s.mem s.error_intercepted s.interceptor s.killed

-- Some thread has the lock.
abbrev pub Held : (ℕ → Phase) → Type 0
Held phase = (i : ℕ) × (critical (phase i) ≡ true)

pub record Inv (s : System) : Type 0 where
  pub exclusive : (i j : ℕ) → critical (s.phase i) ≡ true → critical (s.phase j) ≡ true → i ≡ j
  pub locked : (i : ℕ) → critical (s.phase i) ≡ true → s.shared.locked ≡ true
  pub held : s.shared.locked ≡ true → Held s.phase
  pub fresh : (i : ℕ) → IsFresh s.shared (s.phase i)

-- What a step does to the lock.
data Effect (s : Shared) (p : Phase) (s' : Shared) (p' : Phase) : Type 0 where
  keeps : critical p' ≡ critical p → s'.locked ≡ s.locked → Effect s p s' p'
  acquires :
      critical p ≡ false
      → critical p' ≡ true
      → s.locked ≡ false
      → s'.locked ≡ true
      → Effect s p s' p'
  releases : critical p ≡ true → critical p' ≡ false → s'.locked ≡ false → Effect s p s' p'

module _ {pointer : ℕ} {fds : FsDescriptors} {malloc : ℕ → Bool} where
  Move-Effect :
      {s s' : Shared} {p p' : Phase} {k k' : Socket}
      → Move pointer fds malloc s p k s' p' k'
      → Effect s p s' p'
  Move-Effect (receive u e) = keeps refl refl
  Move-Effect (hang_up u e) = keeps refl refl
  Move-Effect (mutex_lock e) = acquires refl refl e refl
  Move-Effect clear_error = keeps refl refl
  Move-Effect intercept_errors = keeps refl refl
  Move-Effect (finish e) = keeps refl refl
  Move-Effect (die_fatal e c) = keeps refl refl
  Move-Effect (segv e) = keeps refl refl
  Move-Effect uncatch = keeps refl refl
  Move-Effect mutex_unlock = releases refl refl refl
  Move-Effect fsop_error = keeps refl refl
  Move-Effect exit_error = releases refl refl refl

  -- The mover's own place, and what a mover without the lock leaves alone.
  Move-IsFresh :
      {s s' : Shared} {p p' : Phase} {k k' : Socket}
      → Move pointer fds malloc s p k s' p' k'
      → IsFresh s p
      → IsFresh s' p'
  Move-IsFresh (receive u e) own = tt
  Move-IsFresh (hang_up u e) own = tt
  Move-IsFresh (mutex_lock e) own = tt
  Move-IsFresh clear_error own = refl
  Move-IsFresh intercept_errors own = (refl, refl, own)
  Move-IsFresh (finish e) own = tt
  Move-IsFresh (die_fatal e c) own = own.2
  Move-IsFresh (segv e) own = refl
  Move-IsFresh uncatch own = tt
  Move-IsFresh mutex_unlock own = tt
  Move-IsFresh fsop_error own = tt
  Move-IsFresh exit_error own = tt

  outside-IsFresh :
      {s s' : Shared} {p p' : Phase} {k k' : Socket} (q : Phase)
      → Move pointer fds malloc s p k s' p' k'
      → critical p ≡ false
      → IsFresh s q
      → IsFresh s' q
  outside-IsFresh q (receive u e) out old = old
  outside-IsFresh q (hang_up u e) out old = old
  outside-IsFresh q (mutex_lock e) out old = old
  outside-IsFresh q clear_error out old = cc
  outside-IsFresh q intercept_errors out old = cc
  outside-IsFresh q (finish e) out old = cc
  outside-IsFresh q (die_fatal e c) out old = cc
  outside-IsFresh q (segv e) out old = cc
  outside-IsFresh q uncatch out old = cc
  outside-IsFresh q mutex_unlock out old = cc
  outside-IsFresh q fsop_error out old = cc
  outside-IsFresh q exit_error out old = cc

free-IsFresh : (s : Shared) (q : Phase) → critical q ≡ false → IsFresh s q
free-IsFresh s reading e = tt
free-IsFresh s (waiting op) e = tt
free-IsFresh s ended e = tt
free-IsFresh s (entered op) e = tt
free-IsFresh s (cleared op) e = cc
free-IsFresh s (running op found) e = cc
free-IsFresh s returned e = tt
free-IsFresh s uncaught e = tt
free-IsFresh s (failing err) e = cc
free-IsFresh s answered e = tt
free-IsFresh s faulted e = cc

module _ {pointer : ℕ} {fds : FsDescriptors} {malloc : ℕ → Bool} {sys : System} (inv : Inv sys)
    (i : ℕ) where
  module _ {s' : Shared} {p' : Phase} {k' : Socket}
      (mv : Move pointer fds malloc sys.shared (sys.phase i) (sys.sock i) s' p' k') where
    Move-exclusive :
        (a b : ℕ)
        → critical (update sys.phase i p' a) ≡ true
        → critical (update sys.phase i p' b) ≡ true
        → a ≡ b
    Move-exclusive a b ha hb = elim (Move-Effect mv) [
      | keeps e l ↦ ground (
        arith,
        inv.exclusive a b,
        inv.exclusive i a,
        inv.exclusive i b,
        inv.exclusive a i,
        inv.exclusive b i,
      )
      | acquires e e' l l' ↦ ground (arith, inv.locked a, inv.locked b)
      | releases e e' l ↦ ground (arith, inv.exclusive a b)
    ]

    Move-locked : (a : ℕ) → critical (update sys.phase i p' a) ≡ true → s'.locked ≡ true
    Move-locked a ha = elim (Move-Effect mv) [
      | keeps e l ↦ ground (arith, inv.locked a, inv.locked i)
      | acquires e e' l l' ↦ l'
      | releases e e' l ↦ ground (arith, inv.exclusive a i)
    ]

    Move-Held : s'.locked ≡ true → Held (update sys.phase i p')
    Move-Held h = elim (Move-Effect mv) [
      | keeps e l ↦ let (j, c) = inv.held (sym l ∙ h) in (j, ground arith)
      | acquires e e' l l' ↦ (i, ground arith)
      | releases e e' l ↦ cc
    ]

    Move-fresh : (a : ℕ) → IsFresh s' (update sys.phase i p' a)
    Move-fresh a = elim (ℕ_discrete i a) [
      | yes same ↦
          let here : update sys.phase i p' a ≡ p' = ground arith in
          rw here (Move-IsFresh mv (inv.fresh i))
      | no other ↦
          let there : update sys.phase i p' a ≡ sys.phase a = ground arith in
          rw there (elim (Bool-cases (critical (sys.phase i))) [
            | inl c ↦ free-IsFresh s' (sys.phase a) (ground (arith, inv.exclusive i a))
            | inr out ↦ outside-IsFresh (sys.phase a) mv out (inv.fresh a)
          ])
    ]

  pub Move-Inv :
      {s' : Shared} {p' : Phase} {k' : Socket}
      → Move pointer fds malloc sys.shared (sys.phase i) (sys.sock i) s' p' k'
      → Inv (record { shared = s'; phase = update sys.phase i p'; sock = update sys.sock i k' })
  Move-Inv mv = record {
    exclusive = Move-exclusive mv;
    locked = Move-locked mv;
    held = Move-Held mv;
    fresh = Move-fresh mv;
  }

pub initial-Inv : (m : Mem) (clients : ℕ → Socket) → Inv (initial m clients)
initial-Inv m clients = record {
  exclusive = λ i j h k. cc;
  locked = λ i h. cc;
  held = λ h. cc;
  fresh = λ i. tt;
}

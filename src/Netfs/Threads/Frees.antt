-- ===== src/Netfs/Threads/Frees.antt =====
-- hw2-netfs/src/net_backend.c: a thread that has the lock gives it back.
use Prim.Native.Nat.{ℕ, suc}
use mipt_kis_linux.Prelude.{
  Bool, true, false, List, ◌≡◌, refl, ap, ◌∙◌, sym, subst, arith, ◌⊎◌, inl, inr,
}
use mipt_kis_linux.Rfs.Machine.{Mem, Message, Outcome, done, died, fault, out_of_fuel}
use mipt_kis_linux.Rfs.Layout.{FsDescriptors}
use mipt_kis_linux.Netfs.Socket.{Socket}
use mipt_kis_linux.Netfs.Protocol.{Received}
use mipt_kis_linux.Netfs.Threads.{
  Shared, Phase, reading, waiting, entered, cleared, running, returned, uncaught, failing, answered,
  faulted, ended, perform, Move, clear_error, intercept_errors, finish, die_fatal, segv, uncatch,
  mutex_unlock, fsop_error, exit_error, System, update, Step, thread, Reach,
}
use mipt_kis_linux.Netfs.Threads.Lock.{critical, IsFresh}
use mipt_kis_linux.Netfs.Threads.Serial.{Reach-Inv}

module _ (pointer : ℕ) (fds : FsDescriptors) (malloc : ℕ → Bool) (i : ℕ) where
  -- The lock is free, or a fault has killed the process, after at most `n` steps of the thread.
  pub data Frees : (n : ℕ) → System → Type 0 where
    free : {n : ℕ} {s : System} → s.shared.locked ≡ false → Frees n s
    dead : {n : ℕ} {s : System} → s.shared.killed ≡ true → Frees n s
    step : {n : ℕ} {s t : System} → Step pointer fds malloc s i t → Frees n t → Frees (suc n) s

-- The operation of a thread ends on the container that it works on.
abbrev pub Ends : (pointer : ℕ) → FsDescriptors → (malloc : ℕ → Bool) → Mem → Phase → Type 0
Ends pointer fds malloc m (entered op) = ¬ (perform pointer fds malloc op m ≡ out_of_fuel)
Ends pointer fds malloc m (cleared op) = ¬ (perform pointer fds malloc op m ≡ out_of_fuel)
Ends pointer fds malloc m (running op found) = ¬ (perform pointer fds malloc op found ≡ out_of_fuel)
Ends pointer fds malloc m _ = Unit

Outcome-cases :
    {A : Type 0} (o : Outcome A)
    → ¬ (o ≡ out_of_fuel)
    → ((a : A) × (m : Mem) × (o ≡ done a m))
      ⊎ (((e : Message) × (m : Mem) × (o ≡ died e m)) ⊎ ((m : Mem) × (o ≡ fault m)))
Outcome-cases (done a m) ends = inl (a, m, refl)
Outcome-cases (died e m) ends = inr (inl (e, m, refl))
Outcome-cases (fault m) ends = inr (inr (m, refl))
Outcome-cases out_of_fuel ends = absurd (ends refl)

module _ {pointer : ℕ} {fds : FsDescriptors} {malloc : ℕ → Bool} (i : ℕ) where
  -- A step of the thread, which stands at `p`, in a process that lives.
  moves :
      {n : ℕ} (s : System) (p : Phase) {s' : Shared} {p' : Phase}
      → s.phase i ≡ p
      → s.shared.killed ≡ false
      → Move pointer fds malloc s.shared p (s.sock i) s' p' (s.sock i)
      → ((t : System) → t.phase i ≡ p' → t.shared ≡ s' → Frees pointer fds malloc i n t)
      → Frees pointer fds malloc i (suc n) s
  moves s p {s'} {p'} here alive mv rest =
      let t : System = record {
        shared = s';
        phase = update s.phase i p';
        sock = update s.sock i (s.sock i);
      } in
      let at : t.phase i ≡ p' = ground arith in
      let mv' =
        subst (λ q. Move pointer fds malloc s.shared q (s.sock i) s' p' (s.sock i)) (sym here) mv in
      step (thread i alive mv') (rest t at refl)

  unlocks :
      {n : ℕ} (s : System) (p : Phase) {s' : Shared} {p' : Phase}
      → s.phase i ≡ p
      → s.shared.killed ≡ false
      → s'.locked ≡ false
      → Move pointer fds malloc s.shared p (s.sock i) s' p' (s.sock i)
      → Frees pointer fds malloc i (suc n) s
  unlocks s p here alive freed mv =
      moves s p here alive mv (λ t e same. free (ap (λ x. x.locked) same ∙ freed))

  returned-Frees :
      {n : ℕ} (s : System)
      → s.phase i ≡ returned
      → s.shared.killed ≡ false
      → Frees pointer fds malloc i (suc (suc n)) s
  returned-Frees s here alive =
      moves s returned here alive uncatch
        (λ t e same. unlocks t uncaught e (ap (λ x. x.killed) same ∙ alive) refl mutex_unlock)

  failing-Frees :
      {n : ℕ} (s : System) (err : Message)
      → s.phase i ≡ failing err
      → s.shared.killed ≡ false
      → Frees pointer fds malloc i (suc (suc n)) s
  failing-Frees s err here alive =
      moves s (failing err) here alive fsop_error
        (λ t e same. unlocks t answered e (ap (λ x. x.killed) same ∙ alive) refl exit_error)

  running-Frees :
      {n : ℕ} (s : System) (op : Received) (found : Mem)
      → s.phase i ≡ running op found
      → s.shared.killed ≡ false
      → s.shared.interceptor ≡ true
      → ¬ (perform pointer fds malloc op found ≡ out_of_fuel)
      → Frees pointer fds malloc i (suc (suc (suc n))) s
  running-Frees s op found here alive caught ends =
      elim (Outcome-cases (perform pointer fds malloc op found) ends) [
        | inl (sent, m, e) ↦
            moves s (running op found) here alive (finish e)
              (λ t at same. returned-Frees t at (ap (λ x. x.killed) same ∙ alive))
        | inr (inl (err, m, e)) ↦
            moves s (running op found) here alive (die_fatal e caught)
              (λ t at same. failing-Frees t err at (ap (λ x. x.killed) same ∙ alive))
        | inr (inr (m, e)) ↦
            moves s (running op found) here alive (segv e)
              (λ t at same. dead (ap (λ x. x.killed) same))
      ]

  cleared-Frees :
      {n : ℕ} (s : System) (op : Received)
      → s.phase i ≡ cleared op
      → s.shared.killed ≡ false
      → ¬ (perform pointer fds malloc op s.shared.mem ≡ out_of_fuel)
      → Frees pointer fds malloc i (suc (suc (suc (suc n)))) s
  cleared-Frees s op here alive ends = moves s (cleared op) here alive intercept_errors (λ t e same.
      running-Frees t op s.shared.mem e (ap (λ x. x.killed) same ∙ alive)
        (ap (λ x. x.interceptor) same) ends)

  -- Wherever the thread stands between the lock and its release.
  critical-Frees :
      (s : System) (p : Phase)
      → s.phase i ≡ p
      → s.shared.killed ≡ false
      → critical p ≡ true
      → IsFresh s.shared p
      → Ends pointer fds malloc s.shared.mem p
      → Frees pointer fds malloc i 5 s
  critical-Frees s reading here alive c fresh ends = cc
  critical-Frees s (waiting op) here alive c fresh ends = cc
  critical-Frees s ended here alive c fresh ends = cc
  critical-Frees s (entered op) here alive c fresh ends =
      moves s (entered op) here alive clear_error (λ t e same.
        cleared-Frees t op e (ap (λ x. x.killed) same ∙ alive) (rw (ap (λ x. x.mem) same) ends))
  critical-Frees s (cleared op) here alive c fresh ends = cleared-Frees s op here alive ends
  critical-Frees s (running op found) here alive c fresh ends =
      running-Frees s op found here alive fresh.1 ends
  critical-Frees s returned here alive c fresh ends = returned-Frees s here alive
  critical-Frees s uncaught here alive c fresh ends =
      unlocks s uncaught here alive refl mutex_unlock
  critical-Frees s (failing err) here alive c fresh ends = failing-Frees s err here alive
  critical-Frees s answered here alive c fresh ends = unlocks s answered here alive refl exit_error
  critical-Frees s faulted here alive c fresh ends = cc (alive, fresh)

-- In every state that the threads of the server reach from its start where the process lives, the
-- mutex is locked, and no operation of a thread between the lock and its release runs for ever,
-- some thread frees the mutex by at most five steps of its own, on the path of errors too, or a
-- fault kills the process in one of them.
pub Reach-Frees :
    {pointer : ℕ} {fds : FsDescriptors} {malloc : ℕ → Bool} {m : Mem} {clients : ℕ → Socket}
    {log : List Received} {s : System}
    → Reach pointer fds malloc m clients log s
    → s.shared.locked ≡ true
    → s.shared.killed ≡ false
    → ((i : ℕ) → Ends pointer fds malloc s.shared.mem (s.phase i))
    → (i : ℕ) × Frees pointer fds malloc i 5 s
Reach-Frees {s} r taken alive ends =
    let inv = Reach-Inv r in
    let (i, c) = inv.held taken in
    (i, critical-Frees i s (s.phase i) refl alive c (inv.fresh i) (ends i))

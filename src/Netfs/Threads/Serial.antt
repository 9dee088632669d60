-- ===== src/Netfs/Threads/Serial.antt =====
-- hw2-netfs/src/net_backend.c: the container is what the operations leave one after the other, and
-- the lock is always given back.
use Prim.Native.Nat.{ℕ}
use mipt_kis_linux.Prelude.{Bool, some, List, ◌≡◌, refl, sym}
use mipt_kis_linux.Rfs.Machine.{Mem, Message}
use mipt_kis_linux.Rfs.Layout.{FsDescriptors}
use mipt_kis_linux.Netfs.Socket.{Socket}
use mipt_kis_linux.Netfs.Protocol.{
  Received, complete, incomplete, unknown, Unread, slz_NetFsOperation_read,
}
use mipt_kis_linux.Netfs.Server.{serve_next_operation, answer_to}
use mipt_kis_linux.Netfs.Threads.{
  Shared, Phase, perform, Move, receive, hang_up, mutex_lock, clear_error, intercept_errors, finish,
  die_fatal, segv, uncatch, mutex_unlock, fsop_error, exit_error, System, Step, thread, logged,
  Reach, start, later, serial,
}
use mipt_kis_linux.Netfs.Threads.Lock.{IsFresh, Inv, Move-Inv, initial-Inv}

module _ {pointer : ℕ} {fds : FsDescriptors} {malloc : ℕ → Bool} where
  Move-serial :
      (m : Mem) {s s' : Shared} {p p' : Phase} {k k' : Socket} (log : List Received)
      → Move pointer fds malloc s p k s' p' k'
      → IsFresh s p
      → s.mem ≡ serial pointer fds malloc log m
      → s'.mem ≡ serial pointer fds malloc (logged p log) m
  unfolding serial
  Move-serial m log (receive u e) own old = old
  Move-serial m log (hang_up u e) own old = old
  Move-serial m log (mutex_lock e) own old = old
  Move-serial m log clear_error own old = old
  Move-serial m log intercept_errors own old = old
  Move-serial m log (finish e) own old = rw (sym old, own.0, e) refl
  Move-serial m log (die_fatal e c) own old = rw (sym old, own.0, e) refl
  Move-serial m log (segv e) own old = rw (sym old, own.0, e) refl
  Move-serial m log uncatch own old = old
  Move-serial m log mutex_unlock own old = old
  Move-serial m log fsop_error own old = old
  Move-serial m log exit_error own old = old

  Step-Inv : {s : System} {i : ℕ} {t : System} → Step pointer fds malloc s i t → Inv s → Inv t
  Step-Inv (thread i alive mv) inv = Move-Inv inv i mv

  Step-serial :
      (m : Mem) {s : System} {i : ℕ} {t : System} (log : List Received)
      → Step pointer fds malloc s i t
      → Inv s
      → s.shared.mem ≡ serial pointer fds malloc log m
      → t.shared.mem ≡ serial pointer fds malloc (logged (s.phase i) log) m
  Step-serial m log (thread i alive mv) inv old = Move-serial m log mv (inv.fresh i) old

module _ {pointer : ℕ} {fds : FsDescriptors} {malloc : ℕ → Bool} {m : Mem}
    {clients : ℕ → Socket} where
  pub Reach-Inv :
      {log : List Received} {s : System} → Reach pointer fds malloc m clients log s → Inv s
  Reach-Inv start = initial-Inv m clients
  Reach-Inv (later r step) = Step-Inv step (Reach-Inv r)

  -- In whatever order the threads of the server take their steps, the container is what the
  -- operations that have ended leave when they are performed one after the other in the order of
  -- their ends, those included that were refused or that faulted.
  pub Reach-serial :
      {log : List Received} {s : System}
      → Reach pointer fds malloc m clients log s
      → s.shared.mem ≡ serial pointer fds malloc log m
  unfolding serial
  Reach-serial start = refl
  Reach-serial (later {log = before} r step) =
      Step-serial m before step (Reach-Inv r) (Reach-serial r)

-- A request that is served alone is performed in the same way.
pub serve_next_operation-perform :
    (pointer : ℕ) (fds : FsDescriptors) (malloc : ℕ → Bool) (unread : Unread)
    (text : Message → List ℕ) (op : Received) (sock sock' : Socket) (m : Mem)
    → slz_NetFsOperation_read unread sock ≡ (some op, sock')
    → serve_next_operation pointer fds malloc unread text sock m
      ≡ answer_to pointer fds malloc text (perform pointer fds malloc op m) sock'
unfolding serve_next_operation perform answer_to
serve_next_operation-perform pointer fds malloc unread text (complete op) sock sock' m e =
    rw (serve_next_operation, e, e) refl
serve_next_operation-perform pointer fds malloc unread text (incomplete operation) sock sock' m e =
    rw (serve_next_operation, e, e) refl
serve_next_operation-perform pointer fds malloc unread text unknown sock sock' m e =
    rw (serve_next_operation, e, e) refl

-- ===== src/Netfs/Threads.antt =====
-- hw2-netfs/src/net_backend.c: the threads of the server, one for each connection, with the lock
-- that they share. `server_listen_connections` starts threads at any time, so a thread is a number
-- whose socket holds what its client sends. `setup_sigsegv_catcher` hands no new action to `sigaction`,
-- so `sighandler` is never installed, and a fault kills the whole process. What `_FSOP_clear` frees
-- behind an operation whose arguments were not read is not modelled.
pub mod Lock
pub mod Serial
pub mod Frees
mod Tests
use Prim.Native.Nat.{ℕ}
use mathlib.Core.Logic.{ite}
use mipt_kis_linux.Prelude.{
  Bool, true, false, List, [], ◌∷◌, Option, none, some, ◌≡◌, ℕ_discrete, if◌then◌else◌,
}
use mipt_kis_linux.Rfs.Machine.{Mem, Cmd, Outcome, Message, done, died, fault, out_of_fuel}
use mipt_kis_linux.Rfs.Layout.{FsDescriptors}
use mipt_kis_linux.Netfs.Socket.{Socket}
use mipt_kis_linux.Netfs.Protocol.{
  Received, complete, incomplete, unknown, Unread, slz_NetFsOperation_read,
}
use mipt_kis_linux.Netfs.Server.{process_operation}

-- What all threads share: the container, whether the mutex is locked, the two globals, and whether
-- a signal has killed the process. The container is a shared mapping that outlives it.
pub record Shared : Type 0 where
  pub mem : Mem
  pub locked : Bool
  pub error_intercepted : Bool
  pub interceptor : Bool
  pub killed : Bool

-- Where a thread stands in `serve_client`: in the reader of the next operation, at each statement
-- of `serve_next_operation` behind it, in `fsop_error`, at a fault, or behind its end. A thread in an operation has the container as it found it.
pub data Phase : Type 0 where
  reading : Phase
  waiting entered cleared : (op : Received) → Phase
  running : (op : Received) → (found : Mem) → Phase
  returned uncaught : Phase
  failing : (e : Message) → Phase
  answered faulted ended : Phase

-- `process_operation` on what was read.
unfoldable pub perform :
    (pointer : ℕ) → FsDescriptors → (malloc : ℕ → Bool) → Received → Cmd (List ℕ)
perform pointer fds malloc (complete op) = process_operation pointer fds malloc op
perform pointer fds malloc (incomplete operation) = operation
perform pointer fds malloc unknown = done []

module _ (pointer : ℕ) (fds : FsDescriptors) (malloc : ℕ → Bool) where
  -- A step of one thread, on what is shared, its place, and its socket. An operation begins with
  -- the container that it finds, and what it stores is there when it ends.
  pub data Move (s : Shared) : Phase → Socket → Shared → Phase → Socket → Type 0 where
    receive :
        (unread : Unread) {op : Received} {sock sock' : Socket}
        → slz_NetFsOperation_read unread sock ≡ (some op, sock')
        → Move s reading sock s (waiting op) sock'
    hang_up :
        (unread : Unread) {sock sock' : Socket}
        → slz_NetFsOperation_read unread sock ≡ (none, sock')
        → Move s reading sock s ended sock'
    mutex_lock :
        {op : Received} {sock : Socket}
        → s.locked ≡ false
        → Move s (waiting op) sock (record s { locked = true }) (entered op) sock
    clear_error :
        {op : Received} {sock : Socket}
        → Move s (entered op) sock (record s { error_intercepted = false }) (cleared op) sock
    intercept_errors :
        {op : Received} {sock : Socket}
        → Move s (cleared op) sock (record s { interceptor = true }) (running op s.mem) sock
    finish :
        {op : Received} {found m : Mem} {sent : List ℕ} {sock : Socket}
        → perform pointer fds malloc op found ≡ done sent m
        → Move s (running op found) sock (record s { mem = m }) returned sock
    die_fatal :
        {op : Received} {found m : Mem} {e : Message} {sock : Socket}
        → perform pointer fds malloc op found ≡ died e m
        → s.interceptor ≡ true
        → Move s (running op found) sock (record s { mem = m }) (failing e) sock
    segv :
        {op : Received} {found m : Mem} {sock : Socket}
        → perform pointer fds malloc op found ≡ fault m
        → Move s (running op found) sock (record s { mem = m; killed = true }) faulted sock
    uncatch :
        {sock : Socket} → Move s returned sock (record s { interceptor = false }) uncaught sock
    mutex_unlock : {sock : Socket} → Move s uncaught sock (record s { locked = false }) reading sock
    fsop_error :
        {e : Message} {sock : Socket}
        → Move s (failing e) sock (record s { error_intercepted = true }) answered sock
    exit_error : {sock : Socket} → Move s answered sock (record s { locked = false }) ended sock

-- All threads.
pub record System : Type 0 where
  pub shared : Shared
  pub phase : ℕ → Phase
  pub sock : ℕ → Socket

abbrev pub update : {A : Type 0} → (ℕ → A) → ℕ → A → ℕ → A
update f i a j = ite (ℕ_discrete i j) a (f j)

module _ (pointer : ℕ) (fds : FsDescriptors) (malloc : ℕ → Bool) where
  -- A step of the server is a step of one thread, while the process lives.
  pub data Step (s : System) : (i : ℕ) → System → Type 0 where
    thread :
        (i : ℕ) {shared' : Shared} {p : Phase} {sock' : Socket}
        → s.shared.killed ≡ false
        → Move pointer fds malloc s.shared (s.phase i) (s.sock i) shared' p sock'
        → Step s i
            (record { shared = shared'; phase = update s.phase i p; sock = update s.sock i sock' })

-- The server just after it began to listen, with what the clients will send.
abbrev pub initial : Mem → (ℕ → Socket) → System
initial m clients = record {
  shared = record {
    mem = m;
    locked = false;
    error_intercepted = false;
    interceptor = false;
    killed = false;
  };
  phase = λ i. reading;
  sock = clients;
}

-- The container after an operation, whichever way it ends.
abbrev pub left : Outcome (List ℕ) → Mem → Mem
left (done sent m) found = m
left (died e m) found = m
left (fault m) found = m
left out_of_fuel found = found

-- The operations that have ended, the last one first.
abbrev pub logged : Phase → List Received → List Received
logged (running op found) log = op ∷ log
logged _ log = log

module _ (pointer : ℕ) (fds : FsDescriptors) (malloc : ℕ → Bool) where
  -- The systems that are reached from the start, with the operations that have ended.
  pub data Reach (m : Mem) (clients : ℕ → Socket) : List Received → System → Type 0 where
    start : Reach m clients [] (initial m clients)
    later :
        {log : List Received} {s t : System} {i : ℕ}
        → Reach m clients log s
        → Step pointer fds malloc s i t
        → Reach m clients (logged (s.phase i) log) t

  -- The same operations one after the other.
  unfoldable pub serial : List Received → Mem → Mem
  serial [] m = m
  serial (op ∷ older) m = left (perform pointer fds malloc op (serial older m)) (serial older m)

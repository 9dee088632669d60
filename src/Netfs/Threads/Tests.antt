-- ===== src/Netfs/Threads/Tests.antt =====
-- hw2-netfs/src/net_backend.c: two clients whose threads take turns; the request of the first is
-- refused in the middle of its operation.
use Prim.Native.Nat.{ℕ}
use mipt_kis_linux.Prelude.{
  ℕ_discrete, arith, ◌≡◌, refl, true, false, List, [], ◌∷◌, some, le_bytes, le_value,
}
use mipt_kis_linux.Rfs.Machine.{Mem, died, fault, invalid_path}
use mipt_kis_linux.Rfs.Examples.{tiny, tiny_fs}
use mipt_kis_linux.Rfs.Paths.{split_path, text_in}
use mipt_kis_linux.Netfs.Socket.{Socket, got, safe_read, read_rounds, read_some}
use mipt_kis_linux.Netfs.Protocol.{
  NetFsOperation, Unread, Received, remove, complete, slz_NetFsOperation_read,
  slz_NetFsOperation_write, write_array, read_args, slz_path_read, read_array,
}
use mipt_kis_linux.Netfs.Server.{process_operation, fsop_remove, path_text}
use mipt_kis_linux.Netfs.Threads.{
  System, Reach, start, later, thread, receive, mutex_lock, clear_error, intercept_errors,
  die_fatal, perform, serial, reading, waiting, entered, cleared, running, update,
}
use mipt_kis_linux.Netfs.Threads.Serial.{Reach-serial}
use mipt_kis_linux.Netfs.Threads.Frees.{Ends, Frees, Reach-Frees}

-- A fault where nothing was read.
abbrev unread : Unread
unread = record { buffer = λ i. 0; operation = fault }

-- A path that does not begin with a slash.
abbrev request : NetFsOperation
request = remove (b'x' ∷ 0 ∷ [])

abbrev clients : ℕ → Socket
clients i = got (slz_NetFsOperation_write 7 8 request) ∷ []

request-received : slz_NetFsOperation_read unread (clients 0) ≡ (some (complete request), [])
unfolding slz_NetFsOperation_read slz_NetFsOperation_write write_array le_bytes le_value safe_read
    read_rounds read_some read_args slz_path_read read_array
request-received = refl

request-refused :
    (found : Mem) → perform 9 tiny_fs (λ n. true) (complete request) found ≡ died invalid_path found
unfolding perform process_operation fsop_remove path_text text_in split_path
request-refused found = refl

-- Both have sent, the first has the lock, and its operation runs.
abbrev in_operation : System
in_operation = record {
  shared = record {
    mem = tiny;
    locked = true;
    error_intercepted = false;
    interceptor = true;
    killed = false;
  };
  phase =
      update
        (update
          (update
            (update (update (λ i. reading) 0 (waiting (complete request))) 1
              (waiting (complete request)))
            0 (entered (complete request)))
          0 (cleared (complete request)))
        0 (running (complete request) tiny);
  sock = update (update (update (update (update clients 0 []) 1 []) 0 []) 0 []) 0 [];
}

in_operation-Reach : Reach 9 tiny_fs (λ n. true) tiny clients [] in_operation
unfolding ℕ_discrete
in_operation-Reach =
    later
      (later
        (later
          (later (later start (thread 0 refl (receive unread request-received)))
            (thread 1 refl (receive unread request-received)))
          (thread 0 refl (mutex_lock refl)))
        (thread 0 refl clear_error))
      (thread 0 refl intercept_errors)

-- The error has been raised and not been sent.
abbrev refused_log : List Received
refused_log = complete request ∷ []

refused-Reach : (s : System) × Reach 9 tiny_fs (λ n. true) tiny clients refused_log s
unfolding ℕ_discrete
refused-Reach =
    (_, later in_operation-Reach (thread 0 refl (die_fatal (request-refused tiny) refl)))

in_operation-Ends : (i : ℕ) → Ends 9 tiny_fs (λ n. true) tiny (in_operation.phase i)
in_operation-Ends i = elim (ℕ_discrete 0 i) [
  | yes first ↦
      let at : in_operation.phase i ≡ running (complete request) tiny = ground arith in
      rw at (λ e. let refused = request-refused tiny in cc)
  | no other ↦ elim (ℕ_discrete 1 i) [
    | yes second ↦
        let at : in_operation.phase i ≡ waiting (complete request) = ground arith in rw at tt
    | no last ↦ let at : in_operation.phase i ≡ reading = ground arith in rw at tt
  ]
]

Reach-serial_example : refused-Reach.0.shared.mem ≡ serial 9 tiny_fs (λ n. true) refused_log tiny
Reach-serial_example = Reach-serial refused-Reach.1

Reach-Frees_example : (i : ℕ) × Frees 9 tiny_fs (λ n. true) i 5 in_operation
Reach-Frees_example = Reach-Frees in_operation-Reach refl refl in_operation-Ends

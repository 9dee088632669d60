-- ===== src/Phonedir/Lltest/Ends.antt =====
-- hw3-kernel/client/lltest.cpp: the loops of the client on the device come to an end.
use mipt_kis_linux.Prelude.{
  ℕ, zero, suc, ◌+◌, ◌^◌, ◌≤◌, ◌<◌, ◌≡◌, inl, inr, Bool, true, false, List, ◌++◌, Option, none,
  some, ◌==◌, min, arith, take, drop, Bool-cases, leb, if◌then◌else◌,
}
use mipt_kis_linux.Phonedir.Record.{Errno}
use mipt_kis_linux.Phonedir.Device.{
  Kernel, Step, Ssize, bytes, failed, word_mod, space_remaining, and_then, copy_input, copy_output,
  after_write, handle_process_buffers, dev_read, dev_write,
}
use mipt_kis_linux.Phonedir.Client.{ok, err, write_failed, read_failed, partial_quant}
use mipt_kis_linux.Phonedir.Lltest.{
  File, Run, finished, crashed, unfinished, left_of, write_all, read_quant, Opened, device, signal,
  answered,
}

-- The rounds were enough.
abbrev pub Ends : {S A : Type 0} → Run S A → Type 0
Ends (finished r s) = Unit
Ends crashed = Unit
Ends unfinished = ⊥

-- A call that reports a number of bytes reports no more than were asked for.
abbrev AtMost : {S : Type 0} → (len : ℕ) → Option ((Ssize × List ℕ) × S) → Type 0
AtMost len none = Unit
AtMost len (some ((failed e, data_read), s)) = Unit
AtMost len (some ((bytes n, data_read), s)) = n ≤ len

-- And at least one.
abbrev SomeOf : {S : Type 0} → (len : ℕ) → Option (Ssize × S) → Type 0
SomeOf len none = Unit
SomeOf len (some (failed e, s)) = Unit
SomeOf len (some (bytes n, s)) = (0 < n) × (n ≤ len)

-- What the loops rely on.
record IsFile {S : Type 0} (fd : File S) : Type 0 where
  reads : (len : ℕ) (s : S) → AtMost len (fd.read len s)
  writes : (len : ℕ) (buf : List ℕ) (s : S) → 0 < len → SomeOf len (fd.write len buf s)

module _ {S : Type 0} (fd : File S) (law : IsFile fd) where
  write_all-Ends :
      (n : ℕ) (buf : List ℕ) (len : ℕ) (s : S)
      → len < n
      → len < word_mod
      → Ends (write_all fd n buf len s)
  unfolding write_all
  write_all-Ends zero buf len s h small = absurd (omega arith)
  write_all-Ends (suc n) buf len s h small = elim (Bool-cases (len == 0)) [
    | inl e ↦ rw (write_all, e) tt
    | inr e ↦
        rw (write_all, e)
          (round (write_all-Ends n) (fd.write len buf s) (law.writes len buf s (ground (arith, e))))
  ]
    where
      round :
          ((buf' : List ℕ) (len' : ℕ) (s' : S)
            → len' < n
            → len' < word_mod
            → Ends (write_all fd n buf' len' s'))
          → (r : Option (Ssize × S)) → SomeOf len r
          → Ends {S = S} {A = Unit {0}} (elim r [
            | none ↦ crashed
            | some (failed e, s') ↦ finished (err write_failed) s'
            | some (bytes done, s') ↦ write_all fd n (drop done buf) (left_of len done) s'
          ])
      round again none k = tt
      round again (some (failed e, s')) k = tt
      round again (some (bytes done, s')) k = again _ _ s' (omega (arith, k.0, k.1)) (omega arith)

  read_quant-Ends :
      (n : ℕ) (buf : List ℕ) (len : ℕ) (iterated : Bool) (s : S)
      → len < n
      → len < word_mod
      → Ends (read_quant fd n buf len iterated s)
  unfolding read_quant
  read_quant-Ends zero buf len iterated s h small = absurd (omega arith)
  read_quant-Ends (suc n) buf len iterated s h small = elim (Bool-cases (len == 0)) [
    | inl e ↦ rw (read_quant, e) tt
    | inr e ↦
        rw (read_quant, e)
          (round (λ buf'. read_quant-Ends n buf') (fd.read len s) (law.reads len s))
  ]
    where
      round :
          ((buf' : List ℕ) (len' : ℕ) (iterated' : Bool) (s' : S)
            → len' < n
            → len' < word_mod
            → Ends (read_quant fd n buf' len' iterated' s'))
          → (r : Option ((Ssize × List ℕ) × S)) → AtMost len r
          → Ends {S = S} {A = Bool × List ℕ} (elim r [
            | none ↦ crashed
            | some ((failed e, data_read), s') ↦ finished (err read_failed) s'
            | some ((bytes done, data_read), s') ↦ elim (done == 0) [
              | true ↦ finished (if iterated then err partial_quant else ok (false, buf)) s'
              | false ↦ read_quant fd n (buf ++ data_read) (left_of len done) true s'
            ]
          ])
      round again none k = tt
      round again (some ((failed e, data_read), s')) k = tt
      round again (some ((bytes done, data_read), s')) k = elim (Bool-cases (done == 0)) [
        | inl none_read ↦ rw none_read tt
        | inr more ↦ rw more (again _ _ true s' (ground (arith, more, k)) (omega arith))
      ]

-- What a call of the device answers.
abbrev Reported : {A : Type 0} → (A → Type 0) → Step A → Type 0
Reported P (Step.ok a k) = P a
Reported P Step.fault = Unit

abbrev SomeBytes : (len : ℕ) → Ssize → Type 0
SomeBytes len (failed e) = Unit
SomeBytes len (bytes n) = (0 < n) × (n ≤ len)

abbrev FewBytes : (len : ℕ) → Ssize × List ℕ → Type 0
FewBytes len (failed e, data_read) = Unit
FewBytes len (bytes n, data_read) = n ≤ len

Reported-and_then :
    {A B : Type 0} (P : B → Type 0) (r : Step A) (f : A → Kernel → Step B)
    → ((a : A) (k : Kernel) → Reported P (f a k))
    → Reported P (and_then r f)
Reported-and_then P (Step.ok a k) f h = h a k
Reported-and_then P Step.fault f h = tt

copy_output-FewBytes :
    (len : ℕ) (user_ok : Bool) (k : Kernel) → Reported (FewBytes len) (copy_output len user_ok k)
unfolding copy_output
copy_output-FewBytes len user_ok k = elim (Bool-cases (k.handle.output_offset == 0)) [
  | inl e ↦ rw e (omega arith)
  | inr e ↦ elim (Bool-cases user_ok) [
    | inl readable ↦ rw (e, readable) (omega arith)
    | inr hidden ↦ rw (e, hidden) tt
  ]
]

after_write-SomeBytes :
    (len : ℕ) (interrupted : Bool) (r : Ssize) (k : Kernel)
    → SomeBytes len r
    → Reported (SomeBytes len) (after_write interrupted r k)
unfolding after_write
after_write-SomeBytes len interrupted (failed e) k h = tt
after_write-SomeBytes len interrupted (bytes n) k h =
    let more : (n == 0) ≡ false = ground (arith, h.0) in
    rw more (
      Reported-and_then {A = Option Errno} (SomeBytes len) (handle_process_buffers interrupted k)
        (λ a k'. Step.ok (bytes n) k') (λ a k'. h))

-- With room in the input buffer, what is copied is processed and is at least one byte.
copied-SomeBytes :
    (interrupted : Bool) (len : ℕ) (user : List ℕ) (k : Kernel)
    → 0 < len
    → (space_remaining k == 0) ≡ false
    → Reported (SomeBytes len) (and_then (copy_input len (some user) k) (after_write interrupted))
unfolding copy_input
copied-SomeBytes interrupted len user k pos room =
    let more : (min len (space_remaining k) == 0) ≡ false = ground arith in
    elim (Bool-cases (leb (k.handle.input_offset + min len (space_remaining k)) 1024)) [
      | inl fits ↦
          rw (more, fits) (after_write-SomeBytes len interrupted _ _ (ground arith, omega arith))
      | inr outside ↦ rw (more, outside) tt
    ]

dev_write-SomeBytes :
    (first second : Bool) (len : ℕ) (user : List ℕ) (k : Kernel)
    → 0 < len
    → Reported (SomeBytes len) (dev_write first second len (some user) k)
unfolding dev_write
dev_write-SomeBytes first second len user k pos = elim (Bool-cases (space_remaining k == 0)) [
  | inr room ↦ rw room (copied-SomeBytes second len user k pos room)
  | inl full ↦ rw full (
      Reported-and_then {A = Option Errno} (SomeBytes len) (handle_process_buffers first k) _
        (λ a k'. elim (Bool-cases (space_remaining k' == 0)) [
          | inl full' ↦ rw full' tt
          | inr room ↦ rw room (copied-SomeBytes second len user k' pos room)
        ]))
]

device-IsFile : IsFile device
unfolding dev_read
device-IsFile = record {
  reads = λ len s.
      let (interrupted, rest) = signal s.signals in
      read len rest (dev_read interrupted len true s.kernel) (
        Reported-and_then {A = Option Errno} (FewBytes len)
          (handle_process_buffers interrupted s.kernel) (λ a. copy_output len true)
          (λ a k. copy_output-FewBytes len true k));
  writes = λ len buf s pos.
      let (first, rest) = signal s.signals in
      let (second, rest') = signal rest in
      written len rest' (dev_write first second len (some (take len buf)) s.kernel)
        (dev_write-SomeBytes first second len (take len buf) s.kernel pos);
}
  where
    read :
        (len : ℕ) (signals : List Bool) (r : Step (Ssize × List ℕ))
        → Reported (FewBytes len) r
        → AtMost len (answered signals r)
    read len signals (Step.ok (failed e, data_read) k) h = tt
    read len signals (Step.ok (bytes n, data_read) k) h = h
    read len signals Step.fault h = tt

    written :
        (len : ℕ) (signals : List Bool) (r : Step Ssize)
        → Reported (SomeBytes len) r
        → SomeOf len (answered signals r)
    written len signals (Step.ok (failed e) k) h = tt
    written len signals (Step.ok (bytes n) k) h = h
    written len signals Step.fault h = tt

-- On the device, in whatever state the kernel, the handle and the arriving signals are, the loop
-- of `write_all` and the loop of `read_quant` come to an end within one round more than the bytes
-- that are asked for, when these are fewer than 2^64: they finish, throw, or a call crashes the
-- kernel.
pub device-Ends :
    (s : Opened) (buf : List ℕ) (len : ℕ)
    → len < 2 ^ 64
    → Ends (write_all device (suc len) buf len s)
      × ((iterated : Bool) → Ends (read_quant device (suc len) buf len iterated s))
device-Ends s buf len small = (
  write_all-Ends device device-IsFile (suc len) buf len s (omega arith) (omega arith),
  λ iterated.
      read_quant-Ends device device-IsFile (suc len) buf len iterated s (omega arith) (omega arith),
)

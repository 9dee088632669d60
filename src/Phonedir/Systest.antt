-- ===== src/Phonedir/Systest.antt =====
-- hw3-kernel/client/systest.cpp and calls.c: the client of the system calls. An exception is an
-- error value.
pub mod Search
use mipt_kis_linux.Prelude.{
  ℕ, ◌%◌, ◌^◌, true, false, List, [], ◌∷◌, Bool, Option, none, some, ◌==◌, if◌then◌else◌, length,
}
use mipt_kis_linux.Phonedir.Record.{PhonedirRecord, record_bytes, Errno}
use mipt_kis_linux.Phonedir.Syscalls.{
  Store, Long, value, error, Published, extspecified_ptr, extspecified_ptr_uint,
  extspecified_ptr_uint_ptr,
}
use mipt_kis_linux.Phonedir.Client.{ClientError, Result, ok, err, make_record}

pub data SysError : Type 0 where
  client : ClientError → SysError
  add_failed search_failed delete_failed : SysError

pub data Ended (A : Type 0) : Type 0 where
  returned : A → Ended A
  thrown : SysError → Ended A

-- `if (call) throw CError(…)`.
unfoldable pub throw_unless_zero : SysError → Long → Ended (Unit {0})
throw_unless_zero e (value n) = if n == 0 then returned tt else thrown e
throw_unless_zero e (error errno) = thrown e

-- `size()` is handed over as an `unsigned int`.
abbrev pub uint_size : List ℕ → ℕ
uint_size s = length s % 2 ^ 32

-- Whether the module can be taken, and whether a signal interrupts the wait of the call.
module _ (alive : List ℕ → Bool) (interrupted : Bool) where
  unfoldable pub preform_add :
      (surname name phone email : List ℕ)
      → (age : ℕ) → Published
      → Store
      → Ended (Unit {0}) × Published × Store
  preform_add surname name phone email age p s = elim (make_record surname name phone email age) [
    | err e ↦ (thrown (client e), p, s)
    | ok r ↦
        let (ret, p', s') = extspecified_ptr alive interrupted (some (record_bytes r)) p s in
        (throw_unless_zero add_failed ret, p', s')
  ]

  -- The record that is printed, if there is one.
  unfoldable pub printed : Long × Option PhonedirRecord → Ended (Option PhonedirRecord)
  printed (error errno, found) = thrown search_failed
  printed (value res, found) = if res == 0 then returned none else returned found

  unfoldable pub preform_search :
      (surname : List ℕ) → Published → Store → Ended (Option PhonedirRecord) × Published × Store
  preform_search surname p s =
      let (ret, p', s') =
        extspecified_ptr_uint_ptr alive interrupted (some surname) (uint_size surname) true p s in
      (printed ret, p', s')

  unfoldable pub perform_delete :
      (surname : List ℕ) → Published → Store → Ended (Unit {0}) × Published × Store
  perform_delete surname p s =
      let (ret, p', s') =
        extspecified_ptr_uint alive interrupted (some surname) (uint_size surname) p s in
      (throw_unless_zero delete_failed ret, p', s')

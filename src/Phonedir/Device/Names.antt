-- ===== src/Phonedir/Device/Names.antt =====
-- hw3-kernel/kernel/kmodule.c: surnames in messages and in system calls.
use mathlib.Core.List.{reverse, reverse-cons}
use mipt_kis_linux.Prelude.{
  ℕ, suc, ◌+◌, ◌-◌, ◌<◌, ◌≡◌, ap, ◌∙◌, true, false, List, [], ◌∷◌, ◌++◌, none, some, arith, length,
  set, replicate, length-append, length-replicate, set-append_past, set-replicate, IsText, text_of,
  text_of-text, leb, ◌==◌, ◌||◌, Bool-cases, inl, inr,
}
use mipt_kis_linux.Phonedir.Record.{eintr, PhonedirRecord}
use mipt_kis_linux.Phonedir.Directory.{kmalloc, has_surname, phonedir_del}
use mipt_kis_linux.Phonedir.Directory.Valid.{AllEntries}
use mipt_kis_linux.Phonedir.Directory.Find.{select, phonedir_find-select}
use mipt_kis_linux.Phonedir.Device.Output.{AllRecords, AllRecords-append}
use mipt_kis_linux.Phonedir.Syscalls.{
  error, value, sys_del, sys_find, first_found, surname_from_user,
}

-- The array of a name in a message of the client: the text and zeros.
abbrev pub padded : List ℕ → List ℕ
padded s = s ++ replicate (128 - length s) 0

pub length-padded : (s : List ℕ) → length s < 128 → length (padded s) ≡ 128
length-padded s h = omega (
  arith,
  length-append s (replicate (128 - length s) 0),
  length-replicate {A = ℕ} (128 - length s) 0,
)

-- The zero that the kernel puts at the end was there.
pub set-padded : (s : List ℕ) → length s < 128 → set (padded s) 127 0 ≡ padded s
set-padded s h =
    let e : 127 ≡ length s + (127 - length s) = omega arith in
    ap (λ i. set (padded s) i 0) e
    ∙ set-append_past s (replicate (128 - length s) 0) (127 - length s) 0
    ∙ ap (λ r. s ++ r) (set-replicate (128 - length s) (127 - length s) 0)

pub text_of-padded : (s : List ℕ) → length s < 128 → IsText s → text_of (padded s) ≡ s
text_of-padded s h text =
    let e : 128 - length s ≡ suc (127 - length s) = omega arith in
    ap (λ n. text_of (s ++ replicate n 0)) e ∙ text_of-text s (replicate (127 - length s) 0) text

-- The entries of a directory are whole records, and so are those that a search selects.
pub reverse-AllRecords : (list : List PhonedirRecord) → AllEntries list → AllRecords (reverse list)
reverse-AllRecords [] all = tt
reverse-AllRecords (r ∷ list) all =
    rw reverse-cons
      (AllRecords-append (reverse list) (r ∷ []) (reverse-AllRecords list all.1) (all.0.sizes, tt))

pub select-AllRecords :
    (s : List ℕ) (list : List PhonedirRecord) → AllRecords list → AllRecords (select s list)
unfolding select
select-AllRecords s [] all = tt
select-AllRecords s (r ∷ list) all = elim (Bool-cases (has_surname s r)) [
  | inl e ↦ rw e (all.0, select-AllRecords s list all.1)
  | inr e ↦ rw e (select-AllRecords s list all.1)
]

-- The system calls read back the text that they are given.
pub surname_from_user_lem :
    (s : List ℕ)
    → 0 < length s
    → length s < 128
    → IsText s
    → surname_from_user (some s) (length s) [] ≡ (inr s, [])
unfolding surname_from_user kmalloc
surname_from_user_lem s pos h text =
    let short : (leb 128 (length s) || length s == 0) ≡ false = ground arith in
    rw (short, text_of-text s [] text)

pub sys_del_lem :
    (list : List PhonedirRecord) (s : List ℕ)
    → 0 < length s
    → length s < 128
    → IsText s
    → sys_del false (some s) (length s) (record { directory = list; allocs = [] })
      ≡ (value 0, record { directory = phonedir_del list s; allocs = [] })
unfolding sys_del
sys_del_lem list s pos h text =
    let read = surname_from_user_lem s pos h text in rw (sys_del, read, read)

pub sys_find_lem :
    (list : List PhonedirRecord) (s : List ℕ)
    → 0 < length s
    → length s < 128
    → IsText s
    → sys_find false (some s) (length s) true (record { directory = list; allocs = [] }) ≡ (
      first_found true (some (select s (reverse list))),
      record { directory = list; allocs = [] },
    )
unfolding sys_find
sys_find_lem list s pos h text =
    let read = surname_from_user_lem s pos h text in
    let found = phonedir_find-select list s in rw (sys_find, read, read, found)

pub sys_find_interrupted :
    (list : List PhonedirRecord) (s : List ℕ)
    → 0 < length s
    → length s < 128
    → IsText s
    → sys_find true (some s) (length s) true (record { directory = list; allocs = [] })
      ≡ ((error eintr, none), record { directory = list; allocs = [] })
unfolding sys_find
sys_find_interrupted list s pos h text =
    let read = surname_from_user_lem s pos h text in rw (sys_find, read, read)

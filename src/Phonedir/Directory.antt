-- ===== src/Phonedir/Directory.antt =====
-- hw3-kernel/kernel/directory.c: the list of records. A `list_head` is the list of the records
-- behind it, first to last; `kmalloc` may fail, so a call takes the outcomes of its allocations.
pub mod Find
pub mod Valid
use mipt_kis_linux.Prelude.{
  ℕ, ◌-◌, Bool, true, false, List, [], ◌∷◌, Option, none, some, if◌then◌else◌, set, text_of,
  text_eq,
}
use mipt_kis_linux.Phonedir.Record.{PhonedirRecord, Errno, enomem}

-- What the next calls of `kmalloc` answer; behind the end of the list they succeed.
abbrev pub Allocs : Type 0
Allocs = List Bool

unfoldable pub kmalloc : Allocs → Bool × Allocs
kmalloc [] = (true, [])
kmalloc (ok ∷ more) = (ok, more)

-- `list_add`: the new entry stands first.
unfoldable pub phonedir_add : List PhonedirRecord → PhonedirRecord → List PhonedirRecord
phonedir_add list new_entry = new_entry ∷ list

-- "ensure strings null terminated".
unfoldable pub terminated : PhonedirRecord → PhonedirRecord
terminated r = record r {
  surname = set r.surname 127 0;
  name = set r.name 127 0;
  phone = set r.phone 63 0;
  email = set r.email 63 0;
}

-- The list after the call, and the error if there is one.
unfoldable pub phonedir_add_record :
    Allocs → List PhonedirRecord → PhonedirRecord → List PhonedirRecord × Option Errno × Allocs
phonedir_add_record allocs list new_record =
    let (ok, more) = kmalloc allocs in
    if ok
    then (phonedir_add list (terminated new_record), none, more)
    else (list, some enomem, more)

-- `strcmp(surname, cursor->record.surname) == 0`; `surname` is a text.
abbrev pub has_surname : List ℕ → PhonedirRecord → Bool
has_surname surname r = text_eq surname (text_of r.surname)

-- The loop over the entries: a copy of each match is put in front of the result, and a match for
-- which there is no memory is passed over.
unfoldable pub find_loop :
    Allocs → (result list : List PhonedirRecord) → List ℕ → List PhonedirRecord × Allocs
find_loop allocs result [] surname = (result, allocs)
find_loop allocs result (r ∷ list) surname =
    let (ok, more) = kmalloc allocs in
    let matches = has_surname surname r in
    find_loop (if matches then more else allocs)
      (if matches then (if ok then phonedir_add result r else result) else result) list surname

-- `none` is the null pointer: no memory for the head of the result.
unfoldable pub phonedir_find :
    Allocs → List PhonedirRecord → List ℕ → Option (List PhonedirRecord) × Allocs
phonedir_find allocs list surname =
    let (ok, more) = kmalloc allocs in
    let (found, rest) = find_loop more [] list surname in
    if ok then (some found, rest) else (none, more)

unfoldable pub phonedir_del : List PhonedirRecord → List ℕ → List PhonedirRecord
phonedir_del [] surname = []
phonedir_del (r ∷ list) surname =
    let rest = phonedir_del list surname in if has_surname surname r then rest else r ∷ rest

unfoldable pub phonedir_free : List PhonedirRecord → List PhonedirRecord
phonedir_free list = []

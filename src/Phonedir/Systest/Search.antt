-- ===== src/Phonedir/Systest/Search.antt =====
-- hw3-kernel/client/systest.cpp: searches and deletions by the system calls of the published module.
use mathlib.Core.List.{reverse}
use mipt_kis_linux.Prelude.{
  ℕ, ◌<◌, ◌≡◌, refl, ap, ◌∙◌, true, false, if◌then◌else◌, List, [], ◌∷◌, Bool, Option, none, some,
  length, arith, IsText,
}
use mipt_kis_linux.Phonedir.Record.{PhonedirRecord, eintr}
use mipt_kis_linux.Phonedir.Directory.{phonedir_del}
use mipt_kis_linux.Phonedir.Directory.Find.{select}
use mipt_kis_linux.Phonedir.Device.Names.{sys_del_lem, sys_find_lem, sys_find_interrupted}
use mipt_kis_linux.Phonedir.Syscalls.{
  Store, Published, Long, error, first_found, sys_find, sys_ops, module_sys_publish,
  extspecified_ptr_uint, extspecified_ptr_uint_ptr,
}
use mipt_kis_linux.Phonedir.Syscalls.Laws.{sys_ops-Served}
use mipt_kis_linux.Phonedir.Systest.{
  Ended, returned, thrown, search_failed, uint_size, printed, preform_search, perform_delete,
  throw_unless_zero, delete_failed,
}

-- The first of some records.
abbrev pub first : List PhonedirRecord → Option PhonedirRecord
first [] = none
first (r ∷ list) = some r

printed-first_found :
    (alive : List ℕ → Bool) (interrupted : Bool) (list : List PhonedirRecord)
    → printed alive interrupted (first_found true (some list)) ≡ returned (first list)
unfolding printed first_found
printed-first_found alive interrupted [] = refl
printed-first_found alive interrupted (r ∷ list) = refl

-- What `preform_search` makes of the result of the call.
abbrev shown :
    (List ℕ → Bool)
    → (interrupted : Bool) → (Long × Option PhonedirRecord) × Published × Store
    → Ended (Option PhonedirRecord) × Published × Store
shown alive interrupted (ret, p, s) = (printed alive interrupted ret, p, s)

-- What `perform_delete` makes of the result of the call.
abbrev ended : Long × Published × Store → Ended (Unit {0}) × Published × Store
ended (ret, p, s) = (throw_unless_zero delete_failed ret, p, s)

module _ (alive : List ℕ → Bool) (mod_name : List ℕ) (p : Published) (list : List PhonedirRecord)
    (live : alive mod_name ≡ true) (s : List ℕ) (pos : 0 < length s) (short : length s < 128)
    (text : IsText s) where
  same_size : uint_size s ≡ length s
  same_size = omega arith

  -- What the client makes of what the module's call answers.
  preform_search-sys_find :
      (interrupted : Bool) (answer : Long × Option PhonedirRecord)
      → sys_find interrupted (some s) (length s) true (record { directory = list; allocs = [] })
        ≡ (answer, record { directory = list; allocs = [] })
      → preform_search alive interrupted s
          (module_sys_publish (sys_ops mod_name) p)
          (record { directory = list; allocs = [] })
        ≡ (
          printed alive interrupted answer,
          module_sys_publish (sys_ops mod_name) p,
          record { directory = list; allocs = [] },
        )
  unfolding preform_search
  preform_search-sys_find interrupted answer called =
      let store : Store = record { directory = list; allocs = [] } in
      let served =
        (sys_ops-Served alive interrupted mod_name p store live).2 (some s) (length s) true
        ∙ ap (λ r. (r.0, module_sys_publish (sys_ops mod_name) p, r.1)) called in
      ap
        (λ n. shown alive interrupted (
          extspecified_ptr_uint_ptr alive interrupted (some s) n true
            (module_sys_publish (sys_ops mod_name) p) store))
        same_size
      ∙ ap (shown alive interrupted) served

  -- With the module published and alive and memory at hand, a client that searches by the system
  -- calls for a surname of 1 to 127 bytes without a zero leaves the directory; it prints the first
  -- entry with the surname, in the order of addition, or nothing when there is none, and when a
  -- signal interrupts the call, it throws that the search failed.
  pub preform_search-first :
      (interrupted : Bool)
      → preform_search alive interrupted s
          (module_sys_publish (sys_ops mod_name) p)
          (record { directory = list; allocs = [] })
        ≡ (
          (if interrupted
              then thrown search_failed
              else returned (first (select s (reverse list)))),
          module_sys_publish (sys_ops mod_name) p,
          record { directory = list; allocs = [] },
        )
  unfolding printed
  preform_search-first true =
      preform_search-sys_find true (error eintr, none) (sys_find_interrupted list s pos short text)
  preform_search-first false =
      preform_search-sys_find false (first_found true (some (select s (reverse list))))
        (sys_find_lem list s pos short text)
      ∙ ap
          (λ r.
            (r, module_sys_publish (sys_ops mod_name) p, record { directory = list; allocs = [] }))
          (printed-first_found alive false (select s (reverse list)))

  -- With the module published and alive, memory at hand, and no signal, a client that deletes by
  -- the system calls a surname of 1 to 127 bytes ends without an error and leaves the directory that
  -- `phonedir_del` leaves.
  pub perform_delete-phonedir_del :
      perform_delete alive false s
        (module_sys_publish (sys_ops mod_name) p)
        (record { directory = list; allocs = [] })
      ≡ (
        returned tt,
        module_sys_publish (sys_ops mod_name) p,
        record { directory = phonedir_del list s; allocs = [] },
      )
  unfolding perform_delete throw_unless_zero
  perform_delete-phonedir_del =
      let store : Store = record { directory = list; allocs = [] } in
      let served =
        (sys_ops-Served alive false mod_name p store live).1 (some s) (length s)
        ∙ ap (λ r. (r.0, module_sys_publish (sys_ops mod_name) p, r.1))
            (sys_del_lem list s pos short text) in
      ap
        (λ n. ended (
          extspecified_ptr_uint alive false (some s) n (module_sys_publish (sys_ops mod_name) p)
            store))
        same_size
      ∙ ap ended served

-- ===== src/Phonedir/Syscalls.antt =====
-- hw3-kernel/kernel/kmodule.c: the system calls of the module, and the dispatch to the published
-- module in linux-5.5.y/kernel/sys.c.
pub mod Laws
use mipt_kis_linux.Prelude.{
  ◌⊎◌, inl, inr, ℕ, ◌+◌, ◌-◌, Bool, true, false, List, [], ◌∷◌, ◌++◌, Option, none, some, ◌==◌, leb,
  ◌||◌, if◌then◌else◌, text_of,
}
use mipt_kis_linux.Phonedir.Record.{
  PhonedirRecord, record_of, phonedir_name_len, Errno, enomem, eintr, efault, einval, enosys,
}
use mipt_kis_linux.Phonedir.Directory.{
  Allocs, kmalloc, phonedir_add_record, phonedir_find, phonedir_del,
}

-- The directory, and what the next allocations answer.
pub record Store : Type 0 where
  pub directory : List PhonedirRecord
  pub allocs : Allocs

-- A `long` that is a result or an error.
pub data Long : Type 0 where
  value : ℕ → Long
  error : Errno → Long

-- A buffer of the user: `none` is a pointer that may not be read.
abbrev pub UserBytes : Type 0
UserBytes = Option (List ℕ)

-- The text that is read, or the error in `retval`.
unfoldable pub surname_from_user : UserBytes → (len : ℕ) → Allocs → (Errno ⊎ List ℕ) × Allocs
surname_from_user user len allocs =
    let (ok, more) = kmalloc allocs in
    if leb phonedir_name_len len || len == 0
    then (inl einval, allocs)
    else if ok
    then (elim user [ none ↦ inl efault | some source ↦ inr (text_of (source ++ 0 ∷ [])) ], more)
    else (inl enomem, more)

-- `phonedir_add_record` under the lock, with the record of the user.
unfoldable pub add_locked : Allocs → Store → List ℕ → Long × Store
add_locked allocs s source =
    let (directory, err, rest) = phonedir_add_record allocs s.directory (record_of source) in
    (
      elim err [ none ↦ value 0 | some e ↦ error e ],
      record { directory = directory; allocs = rest },
    )

unfoldable pub sys_add : (interrupted : Bool) → UserBytes → Store → Long × Store
sys_add interrupted user s =
    let (ok, more) = kmalloc s.allocs in
    let unchanged = record s { allocs = more } in
    if ok
    then (elim user [
      | none ↦ (error efault, unchanged)
      | some source ↦ if interrupted then (error eintr, unchanged) else add_locked more s source
    ])
    else (error enomem, unchanged)

unfoldable pub sys_del : (interrupted : Bool) → UserBytes → (len : ℕ) → Store → Long × Store
sys_del interrupted user len s =
    let (surname, more) = surname_from_user user len s.allocs in
    elim surname [
      | inl e ↦ (error e, record s { allocs = more })
      | inr text ↦
          if interrupted
          then (error eintr, record s { allocs = more })
          else (value 0, record { directory = phonedir_del s.directory text; allocs = more })
    ]

-- The answer for what was found, and the record that is copied to the user.
unfoldable pub first_found :
    (user_ok : Bool) → Option (List PhonedirRecord) → Long × Option PhonedirRecord
first_found user_ok none = (error enomem, none)
first_found user_ok (some []) = (value 0, none)
first_found user_ok (some (r ∷ found)) = if user_ok then (value 1, some r) else (error efault, none)

unfoldable pub sys_find :
    (interrupted : Bool)
    → UserBytes
    → (len : ℕ) → (user_ok : Bool) → Store
    → (Long × Option PhonedirRecord) × Store
sys_find interrupted user len user_ok s =
    let (surname, more) = surname_from_user user len s.allocs in
    elim surname [
      | inl e ↦ ((error e, none), record s { allocs = more })
      | inr text ↦
          let (found, rest) = phonedir_find more s.directory text in
          if interrupted
          then ((error eintr, none), record s { allocs = more })
          else (first_found user_ok found, record s { allocs = rest })
    ]

-- `struct module_sys_descritor`: which calls the published module serves. Each is told whether a
-- signal interrupts its wait for a lock.
pub record ModuleSysDescriptor : Type 0 where
  pub mod_name : List ℕ
  pub sys_ptr : Option (Bool → UserBytes → Store → Long × Store)
  pub sys_ptr_uint : Option (Bool → UserBytes → ℕ → Store → Long × Store)
  pub sys_ptr_uint_ptr :
      Option (Bool → UserBytes → ℕ → Bool → Store → (Long × Option PhonedirRecord) × Store)

-- `module_sys_descritor`, and the references to modules that are held.
pub record Published : Type 0 where
  pub descriptor : Option ModuleSysDescriptor
  pub references : ℕ

unfoldable pub module_sys_publish : ModuleSysDescriptor → Published → Published
module_sys_publish dsc p = record p { descriptor = some dsc }

unfoldable pub module_sys_retract : Published → Published
module_sys_retract p = record p { descriptor = none }

-- `find_module` and `try_module_get`: `alive` says for a name whether the module can be taken.
unfoldable pub module_get_by_name : (alive : List ℕ → Bool) → List ℕ → Published → Bool × Published
module_get_by_name alive name p =
    if alive name then (true, record p { references = p.references + 1 }) else (false, p)

unfoldable pub module_put : Published → Published
module_put p = record p { references = p.references - 1 }

-- The common part of the three calls: `pick` takes the function from the descriptor.
unfoldable pub dispatch :
    {A : Type 0}
    → (alive : List ℕ → Bool) → (ModuleSysDescriptor → Option (Store → A × Store))
    → A
    → Published
    → Store
    → A × Published × Store
dispatch alive pick missing p s = elim p.descriptor [
  | none ↦ (missing, p, s)
  | some dsc ↦ elim (pick dsc) [
    | none ↦ (missing, p, s)
    | some call ↦
        let (held, p') = module_get_by_name alive dsc.mod_name p in
        let (ret, s') = call s in if held then (ret, module_put p', s') else (missing, p, s)
  ]
]

unfoldable pub extspecified_ptr :
    (alive : List ℕ → Bool)
    → (interrupted : Bool) → UserBytes
    → Published
    → Store
    → Long × Published × Store
extspecified_ptr alive interrupted ptr =
    dispatch alive
      (λ dsc. elim dsc.sys_ptr [ none ↦ none | some call ↦ some (call interrupted ptr) ])
      (error enosys)

unfoldable pub extspecified_ptr_uint :
    (alive : List ℕ → Bool)
    → (interrupted : Bool) → UserBytes
    → ℕ
    → Published
    → Store
    → Long × Published × Store
extspecified_ptr_uint alive interrupted ptr val =
    dispatch alive
      (λ dsc. elim dsc.sys_ptr_uint [ none ↦ none | some call ↦ some (call interrupted ptr val) ])
      (error enosys)

unfoldable pub extspecified_ptr_uint_ptr :
    (alive : List ℕ → Bool)
    → (interrupted : Bool) → UserBytes
    → ℕ
    → (user_ok : Bool) → Published
    → Store
    → (Long × Option PhonedirRecord) × Published × Store
extspecified_ptr_uint_ptr alive interrupted ptr0 val user_ok =
    dispatch alive
      (λ dsc. elim dsc.sys_ptr_uint_ptr [
        | none ↦ none
        | some call ↦ some (call interrupted ptr0 val user_ok)
      ])
      (error enosys, none)

-- `sys_ops` of the module, which `first_module_init` publishes.
unfoldable pub sys_ops : (mod_name : List ℕ) → ModuleSysDescriptor
sys_ops mod_name = record {
  mod_name = mod_name;
  sys_ptr = some sys_add;
  sys_ptr_uint = some sys_del;
  sys_ptr_uint_ptr = some sys_find;
}

-- ===== src/Phonedir/Syscalls/Laws.antt =====
-- linux-5.5.y/kernel/sys.c of hw3-kernel: the dispatch to the published module.
use mipt_kis_linux.Prelude.{
  ℕ, ◌+◌, ◌-◌, ◌≡◌, refl, ap, Bool, true, List, Option, none, some, arith, Bool-cases, Option-cases,
  inl, inr,
}
use mipt_kis_linux.Phonedir.Syscalls.{
  Store, UserBytes, ModuleSysDescriptor, Published, module_sys_publish, module_sys_retract,
  module_get_by_name, module_put, dispatch, extspecified_ptr, extspecified_ptr_uint,
  extspecified_ptr_uint_ptr, sys_ops, sys_add, sys_del, sys_find,
}

module _ {A : Type 0} (alive : List ℕ → Bool)
    (pick : ModuleSysDescriptor → Option (Store → A × Store)) (missing : A) where
  -- On every branch, a system call that dispatches to the published module gives back each
  -- reference to the module that it takes, and does not change what is published.
  pub dispatch-balanced : (p : Published) (s : Store) → (dispatch alive pick missing p s).1 ≡ p
  unfolding dispatch module_get_by_name module_put
  dispatch-balanced p s = balanced p.descriptor p.references
    where
      balanced :
          (d : Option ModuleSysDescriptor) (n : ℕ)
          → (dispatch alive pick missing (record { descriptor = d; references = n }) s).1
            ≡ record { descriptor = d; references = n }
      balanced none n = refl
      balanced (some dsc) n = elim (Option-cases (pick dsc)) [
        | inl e ↦ rw (dispatch, e) refl
        | inr (call, e) ↦ elim (Bool-cases (alive dsc.mod_name)) [
          | inl live ↦
              let same : n + 1 - 1 ≡ n = omega arith in
              rw (dispatch, e, live)
                (ap (λ k. record { descriptor = some dsc; references = k }) same)
          | inr dead ↦ rw (dispatch, e, dead) refl
        ]
      ]

  -- Once the module is retracted, the calls answer that they are missing and leave the directory.
  pub dispatch-retracted :
      (p : Published) (s : Store)
      → dispatch alive pick missing (module_sys_retract p) s ≡ (missing, module_sys_retract p, s)
  unfolding dispatch module_sys_retract
  dispatch-retracted p s = refl

-- With the module published and alive, each of the three system calls of the kernel answers what
-- the module's call answers, leaves the directory as that call leaves it, and holds no reference
-- afterwards.
pub sys_ops-Served :
    (alive : List ℕ → Bool) (interrupted : Bool) (mod_name : List ℕ) (p : Published) (s : Store)
    → alive mod_name ≡ true
    → ((ptr : UserBytes)
        → extspecified_ptr alive interrupted ptr (module_sys_publish (sys_ops mod_name) p) s ≡ (
          (sys_add interrupted ptr s).0,
          module_sys_publish (sys_ops mod_name) p,
          (sys_add interrupted ptr s).1,
        ))
      × ((ptr : UserBytes) (len : ℕ)
          → extspecified_ptr_uint alive interrupted ptr len
              (module_sys_publish (sys_ops mod_name) p)
              s
            ≡ (
              (sys_del interrupted ptr len s).0,
              module_sys_publish (sys_ops mod_name) p,
              (sys_del interrupted ptr len s).1,
            ))
      × ((ptr : UserBytes) (len : ℕ) (user_ok : Bool)
          → extspecified_ptr_uint_ptr alive interrupted ptr len user_ok
              (module_sys_publish (sys_ops mod_name) p)
              s
            ≡ (
              (sys_find interrupted ptr len user_ok s).0,
              module_sys_publish (sys_ops mod_name) p,
              (sys_find interrupted ptr len user_ok s).1,
            ))
unfolding extspecified_ptr extspecified_ptr_uint extspecified_ptr_uint_ptr dispatch
    module_get_by_name module_put module_sys_publish sys_ops
sys_ops-Served alive interrupted mod_name p s live =
    let same : p.references + 1 - 1 ≡ p.references = omega arith in
    (
      λ ptr. rw (live, same) refl,
      λ ptr len. rw (live, same) refl,
      λ ptr len user_ok. rw (live, same) refl,
    )

-- ===== src/Phonedir/Directory/Valid.antt =====
-- hw3-kernel/kernel/directory.c: entries that end their texts inside their arrays.
use mipt_kis_linux.Prelude.{
  ℕ, ◌≡◌, List, [], ◌∷◌, some, arith, length, get_elem?, length-set, get_elem?-set_self, drop,
  length-take, length-drop, true, Bool-cases, inl, inr,
}
use mipt_kis_linux.Phonedir.Record.{PhonedirRecord, record_of}
use mipt_kis_linux.Phonedir.Record.Bytes.{IsRecord}
use mipt_kis_linux.Phonedir.Directory.{
  Allocs, kmalloc, phonedir_add, terminated, phonedir_add_record, has_surname, find_loop,
  phonedir_del,
}

-- A record whose arrays end in a zero.
pub record IsEntry (r : PhonedirRecord) : Type 0 where
  pub sizes : IsRecord r
  pub surname : get_elem? r.surname 127 ≡ some 0
  pub name : get_elem? r.name 127 ≡ some 0
  pub email : get_elem? r.email 63 ≡ some 0
  pub phone : get_elem? r.phone 63 ≡ some 0

abbrev pub AllEntries : List PhonedirRecord → Type 0
AllEntries [] = Unit
AllEntries (r ∷ list) = IsEntry r × AllEntries list

pub record_of-IsRecord : (bytes : List ℕ) → length bytes ≡ 388 → IsRecord (record_of bytes)
unfolding record_of
record_of-IsRecord bytes h = record {
  surname = omega (arith, length-take 128 bytes);
  name = omega (arith, length-take 128 (drop 128 bytes), length-drop 128 bytes);
  email = omega (arith, length-take 64 (drop 256 bytes), length-drop 256 bytes);
  phone = omega (arith, length-take 64 (drop 320 bytes), length-drop 320 bytes);
}

pub terminated-IsEntry : (r : PhonedirRecord) → IsRecord r → IsEntry (terminated r)
unfolding terminated
terminated-IsEntry r h =
    let sizes = h.surname in
    let sizes' = h.name in
    let sizes'' = h.email in
    let sizes''' = h.phone in
    record {
      sizes = record {
        surname = omega (arith, length-set r.surname 127 0);
        name = omega (arith, length-set r.name 127 0);
        email = omega (arith, length-set r.email 63 0);
        phone = omega (arith, length-set r.phone 63 0);
      };
      surname = get_elem?-set_self r.surname 127 0 (omega arith);
      name = get_elem?-set_self r.name 127 0 (omega arith);
      email = get_elem?-set_self r.email 63 0 (omega arith);
      phone = get_elem?-set_self r.phone 63 0 (omega arith);
    }

-- When every entry of the directory is a record whose four texts end inside their arrays, an
-- addition of any record with arrays of the right sizes keeps this, whatever the allocation
-- answers.
pub add_record-AllEntries :
    (allocs : Allocs) (list : List PhonedirRecord) (r : PhonedirRecord)
    → IsRecord r
    → AllEntries list
    → AllEntries (phonedir_add_record allocs list r).0
unfolding phonedir_add_record phonedir_add
add_record-AllEntries allocs list r h all = elim (Bool-cases (kmalloc allocs).0) [
  | inl ok ↦ rw ok (terminated-IsEntry r h, all)
  | inr failed ↦ rw failed all
]

pub del-AllEntries :
    (list : List PhonedirRecord) (s : List ℕ) → AllEntries list → AllEntries (phonedir_del list s)
unfolding phonedir_del
del-AllEntries [] s all = tt
del-AllEntries (r ∷ list) s all = elim (Bool-cases (has_surname s r)) [
  | inl e ↦ rw e (del-AllEntries list s all.1)
  | inr e ↦ rw e (all.0, del-AllEntries list s all.1)
]

-- The result of a search holds only matches, each a valid entry, also where memory runs out.
abbrev pub AllMatches : List ℕ → List PhonedirRecord → Type 0
AllMatches s [] = Unit
AllMatches s (r ∷ list) = IsEntry r × (has_surname s r ≡ true) × AllMatches s list

find_loop-AllMatches :
    (list : List PhonedirRecord) (allocs : Allocs) (result : List PhonedirRecord) (s : List ℕ)
    → AllEntries list
    → AllMatches s result
    → AllMatches s (find_loop allocs result list s).0
unfolding find_loop phonedir_add
find_loop-AllMatches [] allocs result s all found = found
find_loop-AllMatches (r ∷ list) allocs result s all found = elim (Bool-cases (has_surname s r)) [
  | inr miss ↦ rw (miss, AllMatches) (find_loop-AllMatches list allocs result s all.1 found)
  | inl hit ↦
      rw (hit, AllMatches)
        (elim (Bool-cases (kmalloc allocs).0) [
          | inl ok ↦
              rw (ok, AllMatches)
                (find_loop-AllMatches list (kmalloc allocs).1 (r ∷ result) s all.1
                  (all.0, hit, found))
          | inr failed ↦
              rw (failed, AllMatches)
                (find_loop-AllMatches list (kmalloc allocs).1 result s all.1 found)
        ])
]

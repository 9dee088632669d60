-- ===== src/Phonedir/Lltest/Entries.antt =====
-- hw3-kernel/client/lltest.cpp: ages and numbers of the entries that a run meets.
use mathlib.Core.List.{reverse, reverse-cons}
use mipt_kis_linux.Prelude.{
  ℕ, ◌≤◌, ◌≡◌, refl, inl, inr, Bool-cases, List, [], ◌∷◌, ◌++◌, arith, length, length-append,
}
use mipt_kis_linux.Phonedir.Record.{PhonedirRecord}
use mipt_kis_linux.Phonedir.Directory.{has_surname, phonedir_del}
use mipt_kis_linux.Phonedir.Directory.Find.{select}
use mipt_kis_linux.Phonedir.Lltest.Session.{AllSmall}

-- The ages of what is added, deleted and selected.
pub del-AllSmall :
    (list : List PhonedirRecord) (s : List ℕ) → AllSmall list → AllSmall (phonedir_del list s)
unfolding phonedir_del
del-AllSmall [] s all = tt
del-AllSmall (r ∷ list) s all = elim (Bool-cases (has_surname s r)) [
  | inl e ↦ rw e (del-AllSmall list s all.1)
  | inr e ↦ rw e (all.0, del-AllSmall list s all.1)
]

append-AllSmall : (xs ys : List PhonedirRecord) → AllSmall xs → AllSmall ys → AllSmall (xs ++ ys)
append-AllSmall [] ys h k = k
append-AllSmall (r ∷ xs) ys h k = (h.0, append-AllSmall xs ys h.1 k)

pub reverse-AllSmall : (list : List PhonedirRecord) → AllSmall list → AllSmall (reverse list)
reverse-AllSmall [] all = tt
reverse-AllSmall (r ∷ list) all =
    rw reverse-cons
      (append-AllSmall (reverse list) (r ∷ []) (reverse-AllSmall list all.1) (all.0, tt))

pub select-AllSmall :
    (s : List ℕ) (list : List PhonedirRecord) → AllSmall list → AllSmall (select s list)
unfolding select
select-AllSmall s [] all = tt
select-AllSmall s (r ∷ list) all = elim (Bool-cases (has_surname s r)) [
  | inl e ↦ rw e (all.0, select-AllSmall s list all.1)
  | inr e ↦ rw e (select-AllSmall s list all.1)
]

pub length-select : (s : List ℕ) (list : List PhonedirRecord) → length (select s list) ≤ length list
unfolding select
length-select s [] = omega arith
length-select s (r ∷ list) =
    let rest = length-select s list in
    elim (Bool-cases (has_surname s r)) [ inl e ↦ rw e (omega arith) | inr e ↦ rw e (omega arith) ]

pub length-del :
    (list : List PhonedirRecord) (s : List ℕ) → length (phonedir_del list s) ≤ length list
unfolding phonedir_del
length-del [] s = omega arith
length-del (r ∷ list) s =
    let rest = length-del list s in
    elim (Bool-cases (has_surname s r)) [ inl e ↦ rw e (omega arith) | inr e ↦ rw e (omega arith) ]

pub length-reverse : (list : List PhonedirRecord) → length (reverse list) ≡ length list
length-reverse [] = refl
length-reverse (r ∷ list) =
    rw reverse-cons (omega (arith, length-append (reverse list) (r ∷ []), length-reverse list))

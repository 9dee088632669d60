-- ===== src/Phonedir/Directory/Find.antt =====
-- hw3-kernel/kernel/directory.c: searches, additions and deletions, and their specification.
use mathlib.Core.List.{reverse, reverse-cons}
use mipt_kis_linux.Prelude.{
  ℕ, ◌≡◌, refl, ◌∙◌, List, [], ◌∷◌, ◌++◌, append-nil, append_assoc, some, if◌then◌else◌, arith,
  text_of, text_eq, text_eq_iff, Bool-cases, inl, inr,
}
use mipt_kis_linux.Phonedir.Record.{PhonedirRecord}
use mipt_kis_linux.Phonedir.Directory.{
  kmalloc, phonedir_add, terminated, phonedir_add_record, has_surname, find_loop, phonedir_find,
  phonedir_del,
}

-- The specification: the entries in the order of their addition. A search selects, a deletion
-- rejects.
unfoldable pub select : List ℕ → List PhonedirRecord → List PhonedirRecord
select s [] = []
select s (r ∷ entries) = if has_surname s r then r ∷ select s entries else select s entries

unfoldable pub reject : List ℕ → List PhonedirRecord → List PhonedirRecord
reject s [] = []
reject s (r ∷ entries) = if has_surname s r then reject s entries else r ∷ reject s entries

pub data Change : Type 0 where
  add : PhonedirRecord → Change
  delete : List ℕ → Change

unfoldable pub specify : List PhonedirRecord → List Change → List PhonedirRecord
specify entries [] = entries
specify entries (add r ∷ changes) = specify (entries ++ terminated r ∷ []) changes
specify entries (delete s ∷ changes) = specify (reject s entries) changes

-- The same changes by the calls of directory.c, with memory at hand.
unfoldable pub perform : List PhonedirRecord → List Change → List PhonedirRecord
perform list [] = list
perform list (add r ∷ changes) = perform (phonedir_add_record [] list r).0 changes
perform list (delete s ∷ changes) = perform (phonedir_del list s) changes

select-append :
    (s : List ℕ) (xs ys : List PhonedirRecord) → select s (xs ++ ys) ≡ select s xs ++ select s ys
unfolding select
select-append s [] ys = refl
select-append s (r ∷ xs) ys = ground (arith, select-append s xs ys)

reject-append :
    (s : List ℕ) (xs ys : List PhonedirRecord) → reject s (xs ++ ys) ≡ reject s xs ++ reject s ys
unfolding reject
reject-append s [] ys = refl
reject-append s (r ∷ xs) ys = ground (arith, reject-append s xs ys)

find_loop-select :
    (list result : List PhonedirRecord) (s : List ℕ)
    → find_loop [] result list s ≡ (select s (reverse list) ++ result, [])
unfolding find_loop kmalloc phonedir_add select
find_loop-select [] result s = refl
find_loop-select (r ∷ list) result s = elim (Bool-cases (has_surname s r)) [
  | inl e ↦
      rw (e, find_loop-select list (r ∷ result) s, reverse-cons, select-append s (reverse list), e)
        (rw append_assoc)
  | inr e ↦ rw (
    e,
    find_loop-select list result s,
    reverse-cons,
    select-append s (reverse list),
    e,
    append-nil,
  )
]

-- With memory at hand a search finds every match, the oldest first.
pub phonedir_find-select :
    (list : List PhonedirRecord) (s : List ℕ)
    → phonedir_find [] list s ≡ (some (select s (reverse list)), [])
unfolding phonedir_find kmalloc
phonedir_find-select list s = rw (find_loop-select list [] s, append-nil)

pub reverse-del :
    (list : List PhonedirRecord) (s : List ℕ)
    → reverse (phonedir_del list s) ≡ reject s (reverse list)
unfolding phonedir_del reject
reverse-del [] s = refl
reverse-del (r ∷ list) s = elim (Bool-cases (has_surname s r)) [
  | inl e ↦ rw (e, reverse-cons, reject-append s (reverse list), e, append-nil) (reverse-del list s)
  | inr e ↦
      rw (e, reverse-cons, reverse-cons, reject-append s (reverse list), e, reverse-del list s)
]

reverse-perform :
    (list : List PhonedirRecord) (changes : List Change)
    → reverse (perform list changes) ≡ specify (reverse list) changes
unfolding perform specify phonedir_add_record kmalloc phonedir_add
reverse-perform list [] = refl
reverse-perform list (add r ∷ changes) =
    reverse-perform (terminated r ∷ list) changes ∙ rw reverse-cons
reverse-perform list (delete s ∷ changes) =
    reverse-perform (phonedir_del list s) changes ∙ rw (reverse-del list s)

-- With memory at hand, after any sequence of additions and deletions a search answers the entries
-- with the surname, in the order of addition, that the same sequence leaves in the specification,
-- where an addition appends and a deletion filters.
pub find-perform :
    (list : List PhonedirRecord) (changes : List Change) (s : List ℕ)
    → phonedir_find [] (perform list changes) s
      ≡ (some (select s (specify (reverse list) changes)), [])
find-perform list changes s =
    rw (phonedir_find-select (perform list changes) s, reverse-perform list changes)

select-reject :
    (s t : List ℕ) (entries : List PhonedirRecord)
    → select t (reject s entries) ≡ (if text_eq s t then [] else select t entries)
unfolding select reject
select-reject s t [] = ground arith
select-reject s t (r ∷ entries) = ground (
  arith,
  select-reject s t entries,
  text_eq_iff s t,
  text_eq_iff s (text_of r.surname),
  text_eq_iff t (text_of r.surname),
)

-- With memory at hand, after a deletion a search for the same surname finds nothing, and a search
-- for any other surname finds what it found before.
pub find-del :
    (list : List PhonedirRecord) (s t : List ℕ)
    → phonedir_find [] (phonedir_del list s) t
      ≡ (some (if text_eq s t then [] else select t (reverse list)), [])
find-del list s t = rw (
  phonedir_find-select (phonedir_del list s) t,
  reverse-del list s,
  select-reject s t (reverse list),
)

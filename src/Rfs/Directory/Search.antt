-- ===== src/Rfs/Directory/Search.antt =====
-- hw1-fs/manage.c: what `find_directory_item` answers.
use mipt_kis_linux.Prelude.{
  ℕ, suc, ◌+◌, ◌≡◌, Bool-cases, inl, inr, List, [], ◌∷◌, Option, none, some, arith, sym, ◌≢◌,
  text_of, text_eq, text_eq_iff,
}
use mipt_kis_linux.Rfs.Machine.{Mem, Outcome, done, died, no_such_file}
use mipt_kis_linux.Rfs.Directory.{DirectoryItem, find_item_from, find_directory_item}

-- No item has a name, by the comparison of texts.
abbrev pub NotNamed : List ℕ → List DirectoryItem → Type 0
NotNamed name [] = Unit
NotNamed name (item ∷ items) = (text_of item.name ≢ name) × NotNamed name items

-- The item at an index is the first that has a name.
pub data FirstNamed (name : List ℕ) : List DirectoryItem → ℕ → Type 0 where
  here :
      (item : DirectoryItem) (items : List DirectoryItem)
      → text_of item.name ≡ name
      → FirstNamed name (item ∷ items) 0
  there :
      (item : DirectoryItem) (items : List DirectoryItem) (i : ℕ)
      → (text_of item.name ≢ name)
      → FirstNamed name items i
      → FirstNamed name (item ∷ items) (suc i)

abbrev Found : List ℕ → List DirectoryItem → ℕ → Option ℕ → Type 0
Found name items from none = NotNamed name items
Found name items from (some i) = (j : ℕ) × (i ≡ from + j) × FirstNamed name items j

find_item_from-Found :
    (name : List ℕ) (items : List DirectoryItem) (from : ℕ)
    → Found name items from (find_item_from from items name)
unfolding find_item_from
find_item_from-Found name [] from = tt
find_item_from-Found name (item ∷ items) from =
    elim (Bool-cases (text_eq name (text_of item.name))) [
      | inl e ↦
          rw (e, Found)
            (0, omega arith, here item items (sym ((text_eq_iff name (text_of item.name)).0 e)))
      | inr e ↦
          let other : text_of item.name ≢ name =
            λ h. cc ((text_eq_iff name (text_of item.name)).1 (sym h)) in
          rw (e, Found)
            (later other (find_item_from (from + 1) items name)
              (find_item_from-Found name items (from + 1)))
    ]
  where
    later :
        (text_of item.name ≢ name)
        → (r : Option ℕ) → Found name items (from + 1) r
        → Found name (item ∷ items) from r
    later other none rest = (other, rest)
    later other (some i) (j, e, first) = (suc j, omega arith, there item items j other first)

-- What a search of a directory answers.
pub data SearchResult (name : List ℕ) (items : List DirectoryItem) (m : Mem)
    : Outcome ℕ → Type 0 where
  found : (i : ℕ) → FirstNamed name items i → SearchResult name items m (done i m)
  missing : NotNamed name items → SearchResult name items m (died no_such_file m)

-- The search of a directory answers the index of the first item with the name, or stops the
-- process when no item has it, and stores nothing.
pub find_directory_item-SearchResult :
    (name : List ℕ) (items : List DirectoryItem) (m : Mem)
    → SearchResult name items m (find_directory_item items name m)
unfolding find_directory_item
find_directory_item-SearchResult name items m =
    answer (find_item_from 0 items name) (find_item_from-Found name items 0)
  where
    answer :
        (r : Option ℕ)
        → Found name items 0 r
        → SearchResult name items m
            ((elim r as (λ _. Mem → Outcome ℕ) [ some i ↦ done i | none ↦ died no_such_file ]) m)
    answer none h = missing h
    answer (some i) (j, e, first) = let same : i ≡ j = omega arith in rw same (found j first)

-- ===== src/Rfs/Files/Splice.antt =====
-- hw1-fs/manage.c: bytes of a file that are replaced, as a list and in the cells.
use mipt_kis_linux.Prelude.{
  ℕ, zero, suc, ◌+◌, ◌-◌, ◌≤◌, ◌≡◌, refl, ap, ◌∙◌, sym, subst, true, false, List, [], ◌∷◌, ◌++◌,
  arith, length, take, drop, min, member, Distinct, length-take, length-drop, take-append_ge,
  take-append-drop, drop-append_ge, length-append, append_assoc, take-append, take-take, drop-take,
}
use mipt_kis_linux.Rfs.Machine.{Mem, load8}
use mipt_kis_linux.Rfs.Machine.Bytes.{AllBytes}
use mipt_kis_linux.Rfs.Files.Cells.{
  load_cells, store_cells, load_cells-append, load_cells-drop, store_cells_other, load_cells_other,
  load_cells-store_cells,
}

-- A list with the values in place of its own from an offset on.
abbrev pub splice : (offset : ℕ) → (values old : List ℕ) → List ℕ
splice offset values old = take offset old ++ (values ++ drop (offset + length values) old)

pub take-splice :
    (size offset : ℕ) (values old : List ℕ)
    → offset + length values ≤ size
    → size ≤ length old
    → take size (splice offset values old) ≡ splice offset values (take size old)
take-splice size offset values old inside room =
    let front : length (take offset old) ≡ offset = omega (arith, length-take offset old) in
    let start : min offset size ≡ offset = omega arith in
    let rest : size - offset - length values ≡ size - (offset + length values) = omega arith in
    rw
      (
        take-append_ge size (take offset old) (values ++ drop (offset + length values) old)
            (omega arith),
        front,
        take-append_ge (size - offset) values (drop (offset + length values) old) (omega arith),
        rest,
        take-take offset size old,
        start,
        drop-take (offset + length values) size old,
      )
      refl

pub take-drop-splice :
    (offset : ℕ) (values old : List ℕ)
    → offset ≤ length old
    → take (length values) (drop offset (splice offset values old)) ≡ values
take-drop-splice offset values old fits =
    let rest = values ++ drop (offset + length values) old in
    let front : length (take offset old) ≡ offset = omega (arith, length-take offset old) in
    let none_left : offset - length (take offset old) ≡ 0 = omega arith in
    ap (take (length values))
      (drop-append_ge offset (take offset old) rest (omega arith) ∙ ap (λ n. drop n rest) none_left)
    ∙ take-append values (drop (offset + length values) old)

drop-nil : {A : Type 0} (n : ℕ) → drop {A = A} n [] ≡ []
drop-nil zero = refl
drop-nil (suc n) = refl

drop-drop : {A : Type 0} (n k j : ℕ) (xs : List A) → k + n ≡ j → drop n (drop k xs) ≡ drop j xs
drop-drop n zero j xs h = let e : n ≡ j = omega arith in rw e refl
drop-drop n (suc k) j [] h = rw (drop-nil n, drop-nil j) refl
drop-drop n (suc k) zero (x ∷ xs) h = absurd (omega arith)
drop-drop n (suc k) (suc j) (x ∷ xs) h = drop-drop n k j xs (omega arith)

pub member-append_right : (z : ℕ) (xs ys : List ℕ) → member z ys ≡ true → member z (xs ++ ys) ≡ true
member-append_right z [] ys h = h
member-append_right z (x ∷ xs) ys h = ground (arith, member-append_right z xs ys h)

-- A list of different numbers in two parts.
parts-Distinct :
    (xs ys : List ℕ)
    → Distinct (xs ++ ys)
    → Distinct ys × ((x : ℕ) → member x xs ≡ true → member x ys ≡ false)
parts-Distinct [] ys h = (h, λ x k. cc)
parts-Distinct (x ∷ xs) ys h =
    let (apart, others) = parts-Distinct xs ys h.1 in
    (apart, λ z k. ground (arith, others z, member-append_right z xs ys, h.0))

load_cells-take :
    (n : ℕ) (m : Mem) (xs : List ℕ) → load_cells m (take n xs) ≡ take n (load_cells m xs)
unfolding load_cells
load_cells-take zero m xs = refl
load_cells-take (suc n) m [] = refl
load_cells-take (suc n) m (x ∷ xs) = ap (λ bs. load8 m x ∷ bs) (load_cells-take n m xs)

-- Stores in the cells from an offset on replace the bytes from this offset on.
pub load_cells-splice :
    (m : Mem) (offset : ℕ) (cells values : List ℕ)
    → Distinct cells
    → AllBytes values
    → offset + length values ≤ length cells
    → load_cells (store_cells m (drop offset cells) values) cells
      ≡ splice offset values (load_cells m cells)
load_cells-splice m offset cells values apart small fits =
    let front = take offset cells in
    let behind = drop offset cells in
    let whole = take-append-drop offset cells in
    let m' = store_cells m behind values in
    let (apart', others) = parts-Distinct front behind (subst Distinct (sym whole) apart) in
    let kept : load_cells m' front ≡ take offset (load_cells m cells) =
      load_cells_other m m' front (λ x k. store_cells_other m behind values x (others x k))
      ∙ load_cells-take offset m cells in
    let stored : load_cells m' behind
        ≡ values ++ drop (offset + length values) (load_cells m cells) =
      load_cells-store_cells m behind values apart' small (omega (arith, length-drop offset cells))
      ∙ ap (λ t. values ++ drop (length values) t) (load_cells-drop offset m cells)
      ∙ ap (λ t. values ++ t)
          (drop-drop (length values) offset (offset + length values) (load_cells m cells) refl) in
    ap (load_cells m') (sym whole) ∙ load_cells-append m' front behind ∙ rw (kept, stored) refl

-- Values and the values behind them replace what both replace together.
pub splice-splice :
    (offset : ℕ) (xs ys old : List ℕ)
    → offset + length xs + length ys ≤ length old
    → splice (offset + length xs) ys (splice offset xs old) ≡ splice offset (xs ++ ys) old
splice-splice offset xs ys old fits =
    let front = take offset old in
    let rest = drop (offset + length xs) old in
    let size : length front ≡ offset = omega (arith, length-take offset old) in
    let step : offset + length xs - length front ≡ length xs = omega arith in
    let both : offset + length (xs ++ ys) ≡ length ys + (offset + length xs) =
      omega (arith, length-append xs ys) in
    let step' : offset + length xs + length ys - length front ≡ length xs + length ys =
      omega arith in
    let step'' : length xs + length ys - length xs ≡ length ys = omega arith in
    let taken : take (offset + length xs) (front ++ (xs ++ rest)) ≡ front ++ xs =
      rw (take-append_ge (offset + length xs) front (xs ++ rest) (omega arith), step)
        (ap (λ l. front ++ l) (take-append xs rest)) in
    let dropped : drop (offset + length xs + length ys) (front ++ (xs ++ rest))
        ≡ drop (length ys + (offset + length xs)) old =
      rw
        (
          drop-append_ge (offset + length xs + length ys) front (xs ++ rest) (omega arith),
          step',
          drop-append_ge (length xs + length ys) xs rest (omega arith),
          step'',
        )
        (drop-drop (length ys) (offset + length xs) (length ys + (offset + length xs)) old
          (omega arith)) in
    rw (taken, dropped, both, append_assoc front xs, append_assoc xs ys) refl

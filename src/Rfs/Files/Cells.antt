-- ===== src/Rfs/Files/Cells.antt =====
-- The addresses of the bytes of a file of hw1-fs/manage.c, in the order of the file.
use mipt_kis_linux.Prelude.{
  ℕ, zero, suc, ◌+◌, ◌-◌, ◌*◌, ◌%◌, ◌≤◌, ◌<◌, ◌≡◌, refl, ap, ◌∙◌, true, false, List, [], ◌∷◌, ◌++◌,
  arith, length, take, drop, member, Distinct,
}
use mipt_kis_linux.Rfs.Machine.{Mem, load8, store8, load_bytes, store_bytes}
use mipt_kis_linux.Rfs.Machine.Bytes.{AllBytes, store8_other, store8_self}
use mipt_kis_linux.Rfs.Layout.{FsDescriptors}

unfoldable pub range : (a n : ℕ) → List ℕ
range a zero = []
range a (suc n) = a ∷ range (a + 1) n

-- What cells hold, and what they hold after values are stored in them, one in each.
unfoldable pub load_cells : Mem → List ℕ → List ℕ
load_cells m [] = []
load_cells m (a ∷ cells) = load8 m a ∷ load_cells m cells

unfoldable pub store_cells : Mem → List ℕ → List ℕ → Mem
store_cells m [] values = m
store_cells m (a ∷ cells) [] = m
store_cells m (a ∷ cells) (v ∷ values) = store_cells (store8 m a v) cells values

pub length-range : (a n : ℕ) → length (range a n) ≡ n
unfolding range
length-range a zero = refl
length-range a (suc n) = ap suc (length-range (a + 1) n)

pub member-range : (x a n : ℕ) → member x (range a n) ≡ true → (a ≤ x) × (x < a + n)
unfolding range
member-range x a zero h = cc
member-range x a (suc n) h = let rest = member-range x (a + 1) n in ground (arith, rest)

pub load_bytes-range : (n : ℕ) (m : Mem) (a : ℕ) → load_bytes n m a ≡ load_cells m (range a n)
unfolding load_bytes load_cells range
load_bytes-range zero m a = refl
load_bytes-range (suc n) m a = ap (λ bs. load8 m a ∷ bs) (load_bytes-range n m (a + 1))

pub load_cells-append :
    (m : Mem) (xs ys : List ℕ) → load_cells m (xs ++ ys) ≡ load_cells m xs ++ load_cells m ys
unfolding load_cells
load_cells-append m [] ys = refl
load_cells-append m (x ∷ xs) ys = ap (λ bs. load8 m x ∷ bs) (load_cells-append m xs ys)

pub length-load_cells : (m : Mem) (xs : List ℕ) → length (load_cells m xs) ≡ length xs
unfolding load_cells
length-load_cells m [] = refl
length-load_cells m (x ∷ xs) = ap suc (length-load_cells m xs)

pub load_cells-drop :
    (n : ℕ) (m : Mem) (xs : List ℕ) → load_cells m (drop n xs) ≡ drop n (load_cells m xs)
unfolding load_cells
load_cells-drop zero m xs = refl
load_cells-drop (suc n) m [] = refl
load_cells-drop (suc n) m (x ∷ xs) = load_cells-drop n m xs

pub drop-range : (f n a b k : ℕ) → a + f ≡ b → f + k ≡ n → drop f (range a n) ≡ range b k
unfolding range
drop-range zero n a b k e e' =
    let start : a ≡ b = omega arith in let count : n ≡ k = omega arith in rw (start, count) refl
drop-range (suc f) zero a b k e e' = absurd (omega arith)
drop-range (suc f) (suc n) a b k e e' = drop-range f n (a + 1) b k (omega arith) (omega arith)

pub store_cells-append :
    (m : Mem) (xs ys values : List ℕ)
    → store_cells m (xs ++ ys) values
      ≡ store_cells (store_cells m xs (take (length xs) values)) ys (drop (length xs) values)
unfolding store_cells
store_cells-append m [] ys values = refl
store_cells-append m (x ∷ xs) [] [] = refl
store_cells-append m (x ∷ xs) (y ∷ ys) [] = refl
store_cells-append m (x ∷ xs) ys (v ∷ values) = store_cells-append (store8 m x v) xs ys values

pub store_bytes-range :
    (m : Mem) (a n : ℕ) (values : List ℕ)
    → length values ≤ n
    → store_bytes m a values ≡ store_cells m (range a n) values
unfolding store_cells store_bytes range
store_bytes-range m a zero [] h = refl
store_bytes-range m a (suc n) [] h = refl
store_bytes-range m a zero (v ∷ values) h = absurd (omega arith)
store_bytes-range m a (suc n) (v ∷ values) h =
    store_bytes-range (store8 m a v) (a + 1) n values (omega arith)

-- Cells that do not occur keep what they hold.
pub store_cells_other :
    (m : Mem) (cells values : List ℕ) (x : ℕ)
    → member x cells ≡ false
    → store_cells m cells values x ≡ m x
unfolding store_cells
store_cells_other m [] values x h = refl
store_cells_other m (a ∷ cells) [] x h = refl
store_cells_other m (a ∷ cells) (v ∷ values) x h =
    store_cells_other (store8 m a v) cells values x (ground arith)
    ∙ store8_other m a v x (ground arith)

pub load_cells_other :
    (m m' : Mem) (xs : List ℕ)
    → ((x : ℕ) → member x xs ≡ true → m' x ≡ m x)
    → load_cells m' xs ≡ load_cells m xs
unfolding load_cells
load_cells_other m m' [] h = refl
load_cells_other m m' (x ∷ xs) h =
    let here : m' x ≡ m x = h x (ground arith) in
    rw (here, load_cells_other m m' xs (λ y k. h y (ground arith)))

-- Different cells hold the values, and behind the values what they held before.
pub load_cells-store_cells :
    (m : Mem) (cells values : List ℕ)
    → Distinct cells
    → AllBytes values
    → length values ≤ length cells
    → load_cells (store_cells m cells values) cells
      ≡ values ++ drop (length values) (load_cells m cells)
unfolding load_cells store_cells
load_cells-store_cells m [] [] apart small fits = refl
load_cells-store_cells m [] (v ∷ values) apart small fits = absurd (omega arith)
load_cells-store_cells m (a ∷ cells) [] apart small fits = refl
load_cells-store_cells m (a ∷ cells) (v ∷ values) apart small fits =
    let kept : store_cells (store8 m a v) cells values a ≡ v =
      store_cells_other (store8 m a v) cells values a apart.0 ∙ store8_self m a v in
    let byte : v % 256 ≡ v = omega (arith, small.0) in
    let rest = load_cells-store_cells (store8 m a v) cells values apart.1 small.1 (omega arith) in
    let before =
      load_cells_other m (store8 m a v) cells
        (λ x k. store8_other m a v x (ground (arith, apart.0))) in
    rw (kept, byte, rest, before)

-- The cells of the data of a chain, with blocks of `size` bytes.
abbrev pub block_cells : FsDescriptors → (size b o : ℕ) → List ℕ
block_cells fs size b o = range (fs.container + b * size + o) (size - o)

unfoldable pub tail_cells : FsDescriptors → (size : ℕ) → List ℕ → List ℕ
tail_cells fs size [] = []
tail_cells fs size (c ∷ cs) = block_cells fs size c fs.sizeof_inode ++ tail_cells fs size cs

abbrev pub file_cells : FsDescriptors → (size b : ℕ) → List ℕ → List ℕ
file_cells fs size b cs = block_cells fs size b fs.sizeof_inode_main ++ tail_cells fs size cs

-- From byte `f` of the data that begin at `o` on.
abbrev pub cells_from : FsDescriptors → (size b o f : ℕ) → List ℕ → List ℕ
cells_from fs size b o f cs =
    range (fs.container + b * size + f + o) (size - o - f) ++ tail_cells fs size cs

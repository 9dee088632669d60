-- ===== src/Rfs/Files/Disjoint.antt =====
-- The cells of the files of hw1-fs/manage.c lie in their blocks, and blocks do not meet.
use native.Mathlib.Nat.{mul-le-mul_right, suc-mul}
use mipt_kis_linux.Prelude.{
  ℕ, zero, suc, ◌+◌, ◌-◌, ◌*◌, ◌≤◌, ◌<◌, ◌≡◌, true, false, ◌⊎◌, inl, inr, List, [], ◌∷◌, ◌++◌,
  arith, member, Distinct, Bool-cases, dec_lt,
}
use mipt_kis_linux.Rfs.Layout.{FsDescriptors}
use mipt_kis_linux.Rfs.Files.Cells.{
  range, member-range, block_cells, tail_cells, file_cells, cells_from,
}

next_block : (b c size : ℕ) → b < c → b * size + size ≤ c * size
next_block b c size h = omega (arith, mul-le-mul_right {m = suc b} {n = c} size h, suc-mul b size)

-- An address in a block.
abbrev pub In : FsDescriptors → (size b x : ℕ) → Type 0
In fs size b x = (fs.container + b * size ≤ x) × (x < fs.container + b * size + size)

pub In-same : (fs : FsDescriptors) (size b c x : ℕ) → In fs size b x → In fs size c x → b ≡ c
In-same fs size b c x h k = elim (dec_lt b c) [
  | yes lt ↦ absurd (omega (arith, next_block b c size lt))
  | no ge ↦ elim (dec_lt c b) [
    | yes gt ↦ absurd (omega (arith, next_block c b size gt))
    | no le ↦ omega arith
  ]
]

member-append :
    (x : ℕ) (xs ys : List ℕ)
    → member x (xs ++ ys) ≡ true
    → (member x xs ≡ true) ⊎ (member x ys ≡ true)
member-append x [] ys h = inr h
member-append x (y ∷ xs) ys h = ground (arith, member-append x xs ys)

-- An address behind the inode of one of some blocks.
abbrev pub Behind : FsDescriptors → (size : ℕ) → (blocks : List ℕ) → ℕ → Type 0
Behind fs size blocks x =
    (c : ℕ) × (member c blocks ≡ true)
    × (fs.container + c * size + fs.sizeof_inode ≤ x)
    × (x < fs.container + c * size + size)

-- The cells from a place on in some block `b`, when the data begin behind the inode.
module _ (fs : FsDescriptors) (size : ℕ) where
  tail_cells-Behind :
      (x : ℕ) (cs : List ℕ) → member x (tail_cells fs size cs) ≡ true → Behind fs size cs x
  unfolding tail_cells
  tail_cells-Behind x [] h = cc
  tail_cells-Behind x (c ∷ cs) h =
      elim (member-append x (block_cells fs size c fs.sizeof_inode) (tail_cells fs size cs) h) [
        | inl here ↦
            let (lo, hi) = member-range x _ _ here in (c, ground arith, omega arith, omega arith)
        | inr there ↦
            let (d, among, lo, hi) = tail_cells-Behind x cs there in (d, ground arith, lo, hi)
      ]

  pub cells_from-Behind :
      (b o f x : ℕ) (cs : List ℕ)
      → fs.sizeof_inode ≤ o
      → member x (cells_from fs size b o f cs) ≡ true
      → Behind fs size (b ∷ cs) x
  cells_from-Behind b o f x cs low h =
      elim (member-append x (range (fs.container + b * size + f + o) (size - o - f))
        (tail_cells fs size cs) h) [
          | inl here ↦
              let (lo, hi) = member-range x _ _ here in (b, ground arith, omega arith, omega arith)
          | inr there ↦
              let (d, among, lo, hi) = tail_cells-Behind x cs there in (d, ground arith, lo, hi)
        ]

range-Distinct : (a n : ℕ) → Distinct (range a n)
unfolding range
range-Distinct a zero = tt
range-Distinct a (suc n) = (first, range-Distinct (a + 1) n)
  where
    first : member a (range (a + 1) n) ≡ false
    first = elim (Bool-cases (member a (range (a + 1) n))) [
      | inl e ↦ let (lo, hi) = member-range a (a + 1) n e in absurd (omega arith)
      | inr e ↦ e
    ]

append-Distinct :
    (xs ys : List ℕ)
    → Distinct xs
    → Distinct ys
    → ((x : ℕ) → member x xs ≡ true → member x ys ≡ false)
    → Distinct (xs ++ ys)
append-Distinct [] ys h k apart = k
append-Distinct (x ∷ xs) ys h k apart = (
  elim (Bool-cases (member x (xs ++ ys))) [
    | inr e ↦ e
    | inl e ↦ ground (arith, member-append x xs ys e, h.0, apart x)
  ],
  append-Distinct xs ys h.1 k (λ z e. apart z (ground arith)),
)

module _ (fs : FsDescriptors) (size : ℕ) where
  -- The part of a block, and the cells of other blocks.
  block_first :
      (b o n : ℕ) (cs : List ℕ)
      → Distinct (b ∷ cs)
      → fs.container + b * size ≤ o
      → o + n ≤ fs.container + b * size + size
      → Distinct (tail_cells fs size cs)
      → Distinct (range o n ++ tail_cells fs size cs)
  block_first b o n cs apart low high rest =
      append-Distinct (range o n) (tail_cells fs size cs) (range-Distinct o n) rest (λ x here.
        elim (Bool-cases (member x (tail_cells fs size cs))) [
          | inr e ↦ e
          | inl e ↦
              let (lo, hi) = member-range x o n here in
              let (c, among, lo', hi') = tail_cells-Behind fs size x cs e in
              let same : b ≡ c =
                In-same fs size b c x (omega arith, omega arith) (omega arith, omega arith) in
              ground (arith, apart.0)
        ])

  tail_cells-Distinct :
      (cs : List ℕ) → fs.sizeof_inode ≤ size → Distinct cs → Distinct (tail_cells fs size cs)
  unfolding tail_cells
  tail_cells-Distinct [] fits apart = tt
  tail_cells-Distinct (c ∷ cs) fits apart =
      block_first c _ _ cs apart (omega arith) (omega arith) (tail_cells-Distinct cs fits apart.1)

  pub file_cells-Distinct :
      (b : ℕ) (cs : List ℕ)
      → fs.sizeof_inode ≤ size
      → fs.sizeof_inode_main ≤ size
      → Distinct (b ∷ cs)
      → Distinct (file_cells fs size b cs)
  file_cells-Distinct b cs fits fits' apart =
      block_first b _ _ cs apart (omega arith) (omega arith) (tail_cells-Distinct cs fits apart.1)

  pub file_cells-Behind :
      (b x : ℕ) (cs : List ℕ)
      → fs.sizeof_inode ≤ fs.sizeof_inode_main
      → member x (file_cells fs size b cs) ≡ true
      → Behind fs size (b ∷ cs) x
  file_cells-Behind b x cs low h =
      elim (member-append x (block_cells fs size b fs.sizeof_inode_main) (tail_cells fs size cs)
        h) [
          | inl here ↦
              let (lo, hi) = member-range x _ _ here in (b, ground arith, omega arith, omega arith)
          | inr there ↦
              let (d, among, lo, hi) = tail_cells-Behind fs size x cs there in
              (d, ground arith, lo, hi)
        ]

  -- The inode of the file is not among its cells.
  pub file_cells_apart :
      (b x : ℕ) (cs : List ℕ)
      → Distinct (b ∷ cs)
      → fs.sizeof_inode_main ≤ size
      → fs.container + b * size ≤ x
      → x < fs.container + b * size + fs.sizeof_inode_main
      → member x (file_cells fs size b cs) ≡ false
  file_cells_apart b x cs apart fits low high =
      elim (Bool-cases (member x (file_cells fs size b cs))) [
        | inr e ↦ e
        | inl e ↦
            elim (member-append x (block_cells fs size b fs.sizeof_inode_main)
              (tail_cells fs size cs) e) [
                | inl here ↦ let (lo, hi) = member-range x _ _ here in absurd (omega arith)
                | inr there ↦
                    let (c, among, lo, hi) = tail_cells-Behind fs size x cs there in
                    let same : b ≡ c =
                      In-same fs size b c x (omega arith, omega arith) (omega arith, omega arith) in
                    ground (arith, apart.0)
              ]
      ]

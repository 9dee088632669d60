-- ===== src/Rfs/Files/Write.antt =====
-- hw1-fs/manage.c: a write inside a file, and the contents of the file behind it.
use mipt_kis_linux.Prelude.{
  ℕ, zero, suc, ◌+◌, ◌-◌, ◌*◌, ◌≤◌, ◌<◌, ◌≡◌, refl, ap, ◌∙◌, sym, subst, some, true, false, inl,
  inr, List, [], ◌∷◌, ◌++◌, arith, length, take, drop, min, member, ◌==◌, length-append,
  length-take, take_all, length-drop, dec_le, Bool-cases,
}
use mipt_kis_linux.Rfs.Machine.{Mem, done, store_bytes}
use mipt_kis_linux.Rfs.Layout.{FsDescriptors}
use mipt_kis_linux.Rfs.Table.{block_size}
use mipt_kis_linux.Rfs.Blocks.{block_address}
use mipt_kis_linux.Rfs.Files.{advance, write_loop}
use mipt_kis_linux.Rfs.Files.Content.{
  cursor_at, advance_lem, available_len_lem, common_pos, IsGeometry,
}
use mipt_kis_linux.Rfs.Files.Cells.{
  range, length-range, store_cells, store_cells-append, store_cells_other, store_bytes-range,
  tail_cells, cells_from,
}
use mipt_kis_linux.Rfs.Files.Disjoint.{cells_from-Behind}
use mipt_kis_linux.Rfs.Files.Kept.{IsPlaced, Keeps, kept_size, kept-IsPlaced}

pub store_cells-nil : (m : Mem) (cells : List ℕ) → store_cells m cells [] ≡ m
unfolding store_cells
store_cells-nil m [] = refl
store_cells-nil m (a ∷ cells) = refl

drop_all : {A : Type 0} (n : ℕ) (xs : List A) → length xs ≤ n → drop n xs ≡ []
drop_all zero [] h = refl
drop_all zero (x ∷ xs) h = absurd (omega arith)
drop_all (suc n) [] h = refl
drop_all (suc n) (x ∷ xs) h = drop_all n xs (omega arith)

-- Values that fit the first part of the cells, and values that do not.
store_cells_first :
    (m : Mem) (a n : ℕ) (rest values : List ℕ)
    → length values ≤ n
    → store_cells m (range a n ++ rest) values ≡ store_bytes m a values
store_cells_first m a n rest values fits =
    let size = length-range a n in
    let front : take (length (range a n)) values ≡ values = take_all _ values (omega arith) in
    let behind : drop (length (range a n)) values ≡ [] = drop_all _ values (omega arith) in
    store_cells-append m (range a n) rest values
    ∙ rw (front, behind, store_cells-nil) (sym (store_bytes-range m a n values fits))

store_cells_past :
    (m : Mem) (a n : ℕ) (rest values : List ℕ)
    → n ≤ length values
    → store_cells m (range a n ++ rest) values
      ≡ store_cells (store_bytes m a (take n values)) rest (drop n values)
store_cells_past m a n rest values over =
    let size = length-range a n in
    let count : length (take n values) ≤ n = omega (arith, length-take n values) in
    store_cells-append m (range a n) rest values
    ∙ rw size (
        ap (λ t. store_cells t rest (drop n values))
          (sym (store_bytes-range m a n (take n values) count)))

-- Stores in the cells of a chain keep the chain.
store_cells-Keeps :
    (fs : FsDescriptors) (m : Mem) (b o f : ℕ) (cs values : List ℕ)
    → fs.sizeof_inode ≤ o
    → Keeps fs m (b ∷ cs) (store_cells m (cells_from fs (block_size fs m) b o f cs) values)
store_cells-Keeps fs m b o f cs values low x outside =
    store_cells_other m (cells_from fs (block_size fs m) b o f cs) values x
      (elim (Bool-cases (member x (cells_from fs (block_size fs m) b o f cs))) [
        | inr e ↦ e
        | inl e ↦ absurd (outside (cells_from-Behind fs (block_size fs m) b o f x cs low e))
      ])

-- Stores in the front of the cells of a chain keep the chain, too.
store_bytes-Keeps :
    (fs : FsDescriptors) (m : Mem) (b o f : ℕ) (cs values : List ℕ)
    → fs.sizeof_inode ≤ o
    → length values ≤ block_size fs m - o - f
    → Keeps fs m (b ∷ cs) (store_bytes m (block_address fs b m + f + o) values)
store_bytes-Keeps fs m b o f cs values low fits =
    subst (Keeps fs m (b ∷ cs))
      (store_cells_first m (block_address fs b m + f + o) (block_size fs m - o - f)
        (tail_cells fs (block_size fs m) cs) values fits)
      (store_cells-Keeps fs m b o f cs values low)

-- The last round: what is left to write fits this block.
write_loop_inside :
    (n : ℕ) (fs : FsDescriptors) (m : Mem) (b o f v : ℕ) (values cells : List ℕ)
    → IsGeometry fs m
    → o + f ≤ block_size fs m
    → length (v ∷ values) ≤ block_size fs m - o - f
    → write_loop (suc n) fs (cursor_at fs m b o f) (v ∷ values) m
      ≡ done tt (
          store_cells m
            (range (block_address fs b m + f + o) (block_size fs m - o - f) ++ cells)
            (v ∷ values))
unfolding write_loop
write_loop_inside n fs m b o f v values cells geo fits inside =
    let all : min (block_size fs m - o - f) (suc (length values)) ≡ suc (length values) =
      omega arith in
    let more : (suc (length values) == 0) ≡ false = ground arith in
    let last : (suc (length values) - suc (length values) == 0) ≡ true = ground arith in
    let whole : take (suc (length values)) (v ∷ values) ≡ v ∷ values =
      take_all (suc (length values)) (v ∷ values) (omega arith) in
    rw
      (
        available_len_lem geo (cursor_at fs m b o f) fits,
        all,
        more,
        last,
        whole,
        store_cells_first m (block_address fs b m + f + o) (block_size fs m - o - f) cells
            (v ∷ values) inside,
      )
      refl

-- The cells that are left are those of the blocks behind.
next_cells :
    (fs : FsDescriptors) (size c : ℕ) (cs : List ℕ)
    → cells_from fs size c fs.sizeof_inode 0 cs ≡ tail_cells fs size (c ∷ cs)
unfolding tail_cells
next_cells fs size c cs =
    let start : fs.container + c * size + 0 + fs.sizeof_inode
        ≡ fs.container + c * size + fs.sizeof_inode =
      omega arith in
    let count : size - fs.sizeof_inode - 0 ≡ size - fs.sizeof_inode = omega arith in
    rw (start, count) refl

-- A round that fills its block goes on in the next block of the chain.
module _ (n : ℕ) (fs : FsDescriptors) (m : Mem) (b o f c : ℕ) (cs values : List ℕ)
    (placed : IsPlaced fs m b (c ∷ cs)) (low : fs.sizeof_inode ≤ o) (fits : o + f ≤ block_size fs m)
    (over : block_size fs m - o - f < length values) where
  filled : Mem
  filled = store_bytes m (block_address fs b m + f + o) (take (block_size fs m - o - f) values)

  filled-Keeps : Keeps fs m (b ∷ c ∷ cs) filled
  unfolding filled
  filled-Keeps =
      store_bytes-Keeps fs m b o f (c ∷ cs) (take (block_size fs m - o - f) values) low
        (omega (arith, length-take (block_size fs m - o - f) values))

  filled-IsPlaced : IsPlaced fs filled b (c ∷ cs)
  filled-IsPlaced = kept-IsPlaced placed filled filled-Keeps

  advance-filled :
      advance fs 0 (cursor_at fs m b o f) filled
      ≡ done (cursor_at fs filled c fs.sizeof_inode 0) filled
  advance-filled =
      subst
        (λ s.
          advance fs 0
            (record {
              block_index = b;
              current_inode = some (fs.container + b * s);
              block_inode_offset = o;
              offset = f;
            })
            filled
          ≡ done (cursor_at fs filled c fs.sizeof_inode 0) filled)
        (kept_size placed filled filled-Keeps)
        (advance_lem fs filled 0 b c o f cs filled-IsPlaced.linked)

  write_loop_next :
      write_loop (suc n) fs (cursor_at fs m b o f) values m
      ≡ write_loop n fs
          (cursor_at fs filled c fs.sizeof_inode 0)
          (drop (block_size fs m - o - f) values)
          filled
  unfolding write_loop filled
  write_loop_next =
      let av = block_size fs m - o - f in
      let part : min av (length values) ≡ av = omega arith in
      let more : (length values == 0) ≡ false = ground arith in
      let left : (length values - av == 0) ≡ false = ground arith in
      rw
        (available_len_lem placed.geo (cursor_at fs m b o f) fits, part, more, left, advance-filled)
        refl

  filled_size : block_size fs filled ≡ block_size fs m
  filled_size = kept_size placed filled filled-Keeps

  next-IsPlaced : IsPlaced fs filled c cs
  next-IsPlaced = record {
    geo = filled-IsPlaced.geo;
    first = filled-IsPlaced.first;
    block = filled-IsPlaced.linked.1;
    linked = filled-IsPlaced.linked.2;
    apart = filled-IsPlaced.apart.1;
  }

  -- The cells of the next blocks in the new memory.
  next_cells_filled :
      cells_from fs (block_size fs filled) c fs.sizeof_inode 0 cs
      ≡ tail_cells fs (block_size fs m) (c ∷ cs)
  next_cells_filled =
      ap (λ s. cells_from fs s c fs.sizeof_inode 0 cs) filled_size
      ∙ next_cells fs (block_size fs m) c cs

  -- What the rounds behind leave is what the whole loop is to leave.
  write_loop-filled :
      write_loop n fs
          (cursor_at fs filled c fs.sizeof_inode 0)
          (drop (block_size fs m - o - f) values)
          filled
        ≡ done tt (
            store_cells filled
              (cells_from fs (block_size fs filled) c fs.sizeof_inode 0 cs)
              (drop (block_size fs m - o - f) values))
      → write_loop (suc n) fs (cursor_at fs m b o f) values m
        ≡ done tt (store_cells m (cells_from fs (block_size fs m) b o f (c ∷ cs)) values)
  unfolding filled
  write_loop-filled rest =
      write_loop_next
      ∙ rest
      ∙ ap (λ cells. done tt (store_cells filled cells (drop (block_size fs m - o - f) values)))
          next_cells_filled
      ∙ ap (done tt) (
          sym (
            store_cells_past m (block_address fs b m + f + o) (block_size fs m - o - f)
              (tail_cells fs (block_size fs m) (c ∷ cs)) values (omega arith)))

  next_room :
      length values ≤ length (cells_from fs (block_size fs m) b o f (c ∷ cs))
      → length (drop (block_size fs m - o - f) values)
        ≤ length (cells_from fs (block_size fs filled) c fs.sizeof_inode 0 cs)
  next_room room =
      let av = block_size fs m - o - f in
      let here = block_address fs b m + f + o in
      let size = length-range here av in
      let parts = length-append (range here av) (tail_cells fs (block_size fs m) (c ∷ cs)) in
      rw next_cells_filled (omega (arith, length-drop av values))

-- From a cursor the loop stores the values in the cells that follow.
pub write_loop-store_cells :
    (n : ℕ) (fs : FsDescriptors) (m : Mem) (b o f : ℕ) (cs values : List ℕ)
    → IsPlaced fs m b cs
    → fs.sizeof_inode ≤ o
    → o + f ≤ block_size fs m
    → length values ≤ length (cells_from fs (block_size fs m) b o f cs)
    → 0 < n
    → length values < n + (block_size fs m - o - f)
    → write_loop n fs (cursor_at fs m b o f) values m
      ≡ done tt (store_cells m (cells_from fs (block_size fs m) b o f cs) values)
unfolding write_loop tail_cells
write_loop-store_cells zero fs m b o f cs values placed low fits room pos fuel =
    absurd (omega arith)
write_loop-store_cells (suc n) fs m b o f cs [] placed low fits room pos fuel =
    rw (store_cells-nil m (cells_from fs (block_size fs m) b o f cs)) refl
write_loop-store_cells (suc n) fs m b o f [] (v ∷ values) placed low fits room pos fuel =
    let here = block_address fs b m + f + o in
    let size = length-range here (block_size fs m - o - f) in
    let parts = length-append (range here (block_size fs m - o - f)) [] in
    write_loop_inside n fs m b o f v values [] placed.geo fits (omega arith)
write_loop-store_cells (suc n) fs m b o f (c ∷ cs) (v ∷ values) placed low fits room pos fuel =
    elim (dec_le (suc (length values)) (block_size fs m - o - f)) [
      | yes inside ↦ write_loop_inside n fs m b o f v values _ placed.geo fits inside
      | no over ↦
          let av = block_size fs m - o - f in
          let over' : av < length (v ∷ values) = omega arith in
          let m1 = filled n fs m b o f c cs (v ∷ values) placed low fits over' in
          let same = filled_size n fs m b o f c cs (v ∷ values) placed low fits over' in
          let positive = common_pos placed.geo in
          let left = length-drop av (v ∷ values) in
          write_loop-filled n fs m b o f c cs (v ∷ values) placed low fits over' (
            write_loop-store_cells n fs m1 c fs.sizeof_inode 0 cs (drop av (v ∷ values))
              (next-IsPlaced n fs m b o f c cs (v ∷ values) placed low fits over') (omega arith)
              (omega arith) (next_room n fs m b o f c cs (v ∷ values) placed low fits over' room)
              (omega arith) (omega arith))
    ]

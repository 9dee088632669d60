-- ===== src/Rfs/Files/Place.antt =====
-- hw1-fs/manage.c: the walk of `read_file` and `write_file_unchecked` to an offset, and the cells that
-- lie behind it.
use mipt_kis_linux.Prelude.{
  ℕ, zero, suc, ◌+◌, ◌-◌, ◌≤◌, ◌<◌, ◌≡◌, refl, ◌∙◌, some, List, [], ◌∷◌, ◌++◌, arith, length, drop,
  length-append, drop-append_le, drop-append_ge, lt→ltb, ge→ltb, dec_le,
}
use mipt_kis_linux.Rfs.Machine.{Mem, Outcome, done}
use mipt_kis_linux.Rfs.Layout.{FsDescriptors}
use mipt_kis_linux.Rfs.Table.{block_size}
use mipt_kis_linux.Rfs.Blocks.{block_address}
use mipt_kis_linux.Rfs.Files.{Cursor, skip_first, skip_common, seek}
use mipt_kis_linux.Rfs.Files.Cells.{
  length-range, drop-range, block_cells, tail_cells, file_cells, cells_from,
}
use mipt_kis_linux.Rfs.Files.Content.{
  IsGeometry, Linked, cursor_at, advance_lem, first_block_size_lem, common_block_size_lem,
  common_pos, inode_fits,
}

-- The end of a list.
pub data IsSuffix (ys : List ℕ) : List ℕ → Type 0 where
  whole : IsSuffix ys ys
  beyond : (x : ℕ) {xs : List ℕ} → IsSuffix ys xs → IsSuffix ys (x ∷ xs)

-- An outcome that leaves a cursor in one of some blocks, from which on the rest of the chain has
-- these cells.
pub data Places (fs : FsDescriptors) (m : Mem) (blocks cells : List ℕ)
    : Outcome Cursor → Type 0 where
  places :
      (b o f : ℕ) (cs : List ℕ)
      → IsSuffix (b ∷ cs) blocks
      → Linked fs m b cs
      → fs.sizeof_inode ≤ o
      → o + f ≤ block_size fs m
      → cells_from fs (block_size fs m) b o f cs ≡ cells
      → Places fs m blocks cells (done (cursor_at fs m b o f) m)

Places-past :
    (fs : FsDescriptors) (m : Mem) (blocks cells : List ℕ) (x : ℕ) (r : Outcome Cursor)
    → Places fs m blocks cells r
    → Places fs m (x ∷ blocks) cells r
Places-past fs m blocks cells x _ (places b o f cs end link low fits e) =
    places b o f cs (beyond x end) link low fits e

length-from :
    (fs : FsDescriptors) (m : Mem) (b o : ℕ) (cs : List ℕ)
    → length (block_cells fs (block_size fs m) b o ++ tail_cells fs (block_size fs m) cs)
      ≡ (block_size fs m - o) + length (tail_cells fs (block_size fs m) cs)
length-from fs m b o cs = omega (
  arith,
  length-append (block_cells fs (block_size fs m) b o) (tail_cells fs (block_size fs m) cs),
  length-range (block_address fs b m + o) (block_size fs m - o),
)

-- Inside the block that the cursor stands in.
drop_inside :
    (fs : FsDescriptors) (m : Mem) (b o f : ℕ) (cs : List ℕ)
    → o + f ≤ block_size fs m
    → cells_from fs (block_size fs m) b o f cs
      ≡ drop f (block_cells fs (block_size fs m) b o ++ tail_cells fs (block_size fs m) cs)
drop_inside fs m b o f cs h =
    let size = length-range (block_address fs b m + o) (block_size fs m - o) in
    let front =
      drop-range f (block_size fs m - o) (block_address fs b m + o) (block_address fs b m + f + o)
        (block_size fs m - o - f) (omega arith) (omega arith) in
    rw (
      drop-append_le f (block_cells fs (block_size fs m) b o) (tail_cells fs (block_size fs m) cs)
          (omega arith),
      front,
    )

-- Past that block.
drop_past :
    (fs : FsDescriptors) (m : Mem) (b o f : ℕ) (cs : List ℕ)
    → block_size fs m - o ≤ f
    → drop f (block_cells fs (block_size fs m) b o ++ tail_cells fs (block_size fs m) cs)
      ≡ drop (f - (block_size fs m - o)) (tail_cells fs (block_size fs m) cs)
drop_past fs m b o f cs h =
    let size = length-range (block_address fs b m + o) (block_size fs m - o) in
    drop-append_ge f (block_cells fs (block_size fs m) b o) (tail_cells fs (block_size fs m) cs)
      (omega arith)
    ∙ rw size refl

module _ {fs : FsDescriptors} {m : Mem} (geo : IsGeometry fs m) where
  stop_here :
      (b o f : ℕ) (cs : List ℕ)
      → Linked fs m b cs
      → fs.sizeof_inode ≤ o
      → o ≤ block_size fs m
      → f ≤ block_size fs m - o
      → Places fs m
          (b ∷ cs)
          (drop f (block_cells fs (block_size fs m) b o ++ tail_cells fs (block_size fs m) cs))
          (done (cursor_at fs m b o f) m)
  stop_here b o f cs link low h k =
      places b o f cs whole link low (omega arith) (drop_inside fs m b o f cs (omega arith))

  skip_common-Places :
      (n b f : ℕ) (cs : List ℕ)
      → Linked fs m b cs
      → f
        ≤ length (
            block_cells fs (block_size fs m) b fs.sizeof_inode
            ++ tail_cells fs (block_size fs m) cs)
      → f < n
      → Places fs m
          (b ∷ cs)
          (drop f (
            block_cells fs (block_size fs m) b fs.sizeof_inode
            ++ tail_cells fs (block_size fs m) cs))
          (skip_common n fs (cursor_at fs m b fs.sizeof_inode f) m)
  unfolding skip_common tail_cells
  skip_common-Places zero b f cs link room fuel = absurd (omega arith)
  skip_common-Places (suc n) b f [] link room fuel =
      let inside : f ≤ block_size fs m - fs.sizeof_inode =
        omega (arith, length-from fs m b fs.sizeof_inode []) in
      rw (common_block_size_lem geo, ge→ltb _ _ inside)
        (stop_here b fs.sizeof_inode f [] link (omega arith) (omega (arith, common_pos geo)) inside)
  skip_common-Places (suc n) b f (c ∷ cs) link room fuel =
      let common = common_block_size_lem geo in
      let positive = common_pos geo in
      elim (dec_le f (block_size fs m - fs.sizeof_inode)) [
        | yes inside ↦
            rw (common, ge→ltb _ _ inside)
              (stop_here b fs.sizeof_inode f (c ∷ cs) link (omega arith) (omega arith) inside)
        | no past ↦
            let rest =
              skip_common-Places n c (f - (block_size fs m - fs.sizeof_inode)) cs link.2
                (omega (arith, length-from fs m b fs.sizeof_inode (c ∷ cs))) (omega arith) in
            rw
              (
                common,
                lt→ltb (block_size fs m - fs.sizeof_inode) f (omega arith),
                advance_lem fs m (f - (block_size fs m - fs.sizeof_inode)) b c fs.sizeof_inode f cs
                    link,
              )
              (rw (drop_past fs m b fs.sizeof_inode f (c ∷ cs) (omega arith))
                (Places-past fs m (c ∷ cs) _ b _ rest))
      ]

  skip_common_stays :
      (n : ℕ) (c : Cursor)
      → 0 < n
      → c.offset ≤ block_size fs m - fs.sizeof_inode
      → skip_common n fs c m ≡ done c m
  unfolding skip_common
  skip_common_stays zero c h k = absurd (omega arith)
  skip_common_stays (suc n) c h k = rw (common_block_size_lem geo, ge→ltb _ _ k) refl

  seek_past :
      (b f : ℕ) (cs : List ℕ)
      → Linked fs m b cs
      → f ≤ length (file_cells fs (block_size fs m) b cs)
      → block_size fs m - fs.sizeof_inode_main < f
      → Places fs m
          (b ∷ cs)
          (drop f (file_cells fs (block_size fs m) b cs))
          (seek fs b (some (block_address fs b m)) f m)
  unfolding seek skip_first tail_cells
  seek_past b f [] link room past =
      absurd (omega (arith, length-from fs m b fs.sizeof_inode_main []))
  seek_past b f (c ∷ cs) link room past =
      let f' = f - (block_size fs m - fs.sizeof_inode_main) in
      let rest =
        skip_common-Places (f + 1) c f' cs link.2
          (omega (arith, length-from fs m b fs.sizeof_inode_main (c ∷ cs))) (omega arith) in
      rw
        (
          first_block_size_lem geo,
          lt→ltb _ _ past,
          advance_lem fs m f' b c fs.sizeof_inode_main f cs link,
          drop_past fs m b fs.sizeof_inode_main f (c ∷ cs) (omega arith),
        )
        (Places-past fs m (c ∷ cs) _ b _ rest)

  pub seek-Places :
      (b f : ℕ) (cs : List ℕ)
      → Linked fs m b cs
      → f ≤ length (file_cells fs (block_size fs m) b cs)
      → Places fs m
          (b ∷ cs)
          (drop f (file_cells fs (block_size fs m) b cs))
          (seek fs b (some (block_address fs b m)) f m)
  unfolding seek skip_first tail_cells
  seek-Places b f cs link room = elim (dec_le f (block_size fs m - fs.sizeof_inode_main)) [
    | yes inside ↦
        rw
          (
            first_block_size_lem geo,
            ge→ltb _ _ inside,
            skip_common_stays (f + 1) (cursor_at fs m b fs.sizeof_inode_main f) (omega arith)
                (omega (arith, inode_fits geo)),
          )
          (stop_here b fs.sizeof_inode_main f cs link (omega (arith, inode_fits geo))
            (omega (arith, geo.room)) inside)
    | no past ↦ seek_past b f cs link room (omega arith)
  ]

-- ===== src/Rfs/Files/Seek.antt =====
-- hw1-fs/manage.c: the walk of `read_file` and `write_file_unchecked` to an offset.
use mipt_kis_linux.Prelude.{
  ℕ, ◌+◌, ◌-◌, ◌≤◌, ◌≡◌, refl, sym, ap, subst, ◌∙◌, some, List, [], ◌∷◌, length, drop,
}
use mipt_kis_linux.Rfs.Machine.{Mem, Outcome, done}
use mipt_kis_linux.Rfs.Layout.{FsDescriptors}
use mipt_kis_linux.Rfs.Table.{block_size}
use mipt_kis_linux.Rfs.Blocks.{block_address}
use mipt_kis_linux.Rfs.Files.{Cursor, seek}
use mipt_kis_linux.Rfs.Files.Cells.{
  load_cells, load_bytes-range, load_cells-append, length-load_cells, load_cells-drop, tail_cells,
  file_cells, cells_from,
}
use mipt_kis_linux.Rfs.Files.Place.{IsSuffix, Places, places, seek-Places}
use mipt_kis_linux.Rfs.Files.Content.{
  IsGeometry, Linked, tail_bytes, file_bytes, cursor_at, bytes_from,
}

-- An outcome that leaves a cursor in one of some blocks, from which the rest of a chain reads `bytes`.
pub data Seeks (fs : FsDescriptors) (m : Mem) (blocks bytes : List ℕ)
    : Outcome Cursor → Type 0 where
  seeks :
      (b o f : ℕ) (cs : List ℕ)
      → IsSuffix (b ∷ cs) blocks
      → Linked fs m b cs
      → o + f ≤ block_size fs m
      → bytes_from fs m b o f cs ≡ bytes
      → Seeks fs m blocks bytes (done (cursor_at fs m b o f) m)

-- The bytes are what the cells hold.
tail_bytes-cells :
    (fs : FsDescriptors) (m : Mem) (cs : List ℕ)
    → tail_bytes fs m cs ≡ load_cells m (tail_cells fs (block_size fs m) cs)
unfolding tail_bytes tail_cells load_cells
tail_bytes-cells fs m [] = refl
tail_bytes-cells fs m (c ∷ cs) = rw (
  load_bytes-range (block_size fs m - fs.sizeof_inode) m (block_address fs c m + fs.sizeof_inode),
  tail_bytes-cells fs m cs,
  load_cells-append m,
)

pub file_bytes-cells :
    (fs : FsDescriptors) (m : Mem) (b : ℕ) (cs : List ℕ)
    → file_bytes fs m b cs ≡ load_cells m (file_cells fs (block_size fs m) b cs)
file_bytes-cells fs m b cs = rw (
  load_bytes-range (block_size fs m - fs.sizeof_inode_main) m
      (block_address fs b m + fs.sizeof_inode_main),
  tail_bytes-cells fs m cs,
  load_cells-append m,
)

bytes_from-cells :
    (fs : FsDescriptors) (m : Mem) (b o f : ℕ) (cs : List ℕ)
    → bytes_from fs m b o f cs ≡ load_cells m (cells_from fs (block_size fs m) b o f cs)
bytes_from-cells fs m b o f cs = rw (
  load_bytes-range (block_size fs m - o - f) m (block_address fs b m + f + o),
  tail_bytes-cells fs m cs,
  load_cells-append m,
)

Places-Seeks :
    (fs : FsDescriptors) (m : Mem) (blocks cells : List ℕ) (r : Outcome Cursor)
    → Places fs m blocks cells r
    → Seeks fs m blocks (load_cells m cells) r
Places-Seeks fs m blocks cells _ (places b o f cs end link low fits e) =
    seeks b o f cs end link fits (bytes_from-cells fs m b o f cs ∙ ap (load_cells m) e)

module _ {fs : FsDescriptors} {m : Mem} (geo : IsGeometry fs m) where
  -- When the chain of a file has room for an offset, the walk to the offset ends, stores nothing,
  -- and its cursor stands in a block of the chain where the bytes from the offset on begin.
  pub seek-Seeks :
      (b f : ℕ) (cs : List ℕ)
      → Linked fs m b cs
      → f ≤ length (file_bytes fs m b cs)
      → Seeks fs m
          (b ∷ cs)
          (drop f (file_bytes fs m b cs))
          (seek fs b (some (block_address fs b m)) f m)
  seek-Seeks b f cs link room =
      let cells = file_cells fs (block_size fs m) b cs in
      let same = file_bytes-cells fs m b cs in
      let room' : f ≤ length cells =
        subst (λ n. f ≤ n) (ap length same ∙ length-load_cells m cells) room in
      let bytes : load_cells m (drop f cells) ≡ drop f (file_bytes fs m b cs) =
        load_cells-drop f m cells ∙ ap (drop f) (sym same) in
      subst (λ t. Seeks fs m (b ∷ cs) t (seek fs b (some (block_address fs b m)) f m)) bytes
        (Places-Seeks fs m (b ∷ cs) (drop f cells) _ (seek-Places geo b f cs link room'))

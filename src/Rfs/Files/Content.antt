-- ===== src/Rfs/Files/Content.antt =====
-- What a chain of blocks of hw1-fs/manage.c stands for: the bytes of its data parts, one after the
-- other.
use mipt_kis_linux.Prelude.{
  ℕ, ◌+◌, ◌-◌, ◌≤◌, ◌<◌, ◌≡◌, ◌≢◌, some, List, [], ◌∷◌, ◌++◌, arith, length, take,
}
use mipt_kis_linux.Rfs.Machine.{Mem, done, load_le, load_bytes, size_mod, sub_size}
use mipt_kis_linux.Rfs.Layout.{FsDescriptors, IsLayout}
use mipt_kis_linux.Rfs.Table.{block_size, blocks_count}
use mipt_kis_linux.Rfs.Blocks.{
  get_next_inode, block_address, get_inode, first_block_size, common_block_size,
}
use mipt_kis_linux.Rfs.Files.{Cursor, advance, available_len}

-- A block has room for the larger inode and a byte of data.
pub record IsGeometry (fs : FsDescriptors) (m : Mem) : Type 0 where
  pub layout : IsLayout fs.layout
  pub room : fs.sizeof_inode_main < block_size fs m
  pub size : block_size fs m < size_mod

-- A block of the container other than the first.
abbrev pub IsBlock : FsDescriptors → Mem → ℕ → Type 0
IsBlock fs m b = (b ≢ 0) × (b < blocks_count fs m)

-- From block `b` the continuations lead through `cs`. Where the last one leads is left open.
abbrev pub Linked : FsDescriptors → Mem → ℕ → List ℕ → Type 0
Linked fs m b [] = Unit
Linked fs m b (c ∷ cs) =
    (load_le 8 m (block_address fs b m) ≡ c) × IsBlock fs m c × Linked fs m c cs

-- The bytes of block `b` from `o` on.
abbrev pub block_bytes : FsDescriptors → Mem → (b o : ℕ) → List ℕ
block_bytes fs m b o = load_bytes (block_size fs m - o) m (block_address fs b m + o)

unfoldable pub tail_bytes : FsDescriptors → Mem → List ℕ → List ℕ
tail_bytes fs m [] = []
tail_bytes fs m (c ∷ cs) = block_bytes fs m c fs.sizeof_inode ++ tail_bytes fs m cs

-- All the bytes that the chain `b ∷ cs` has room for.
abbrev pub file_bytes : FsDescriptors → Mem → ℕ → List ℕ → List ℕ
file_bytes fs m b cs = block_bytes fs m b fs.sizeof_inode_main ++ tail_bytes fs m cs

abbrev pub file_size : FsDescriptors → Mem → ℕ → ℕ
file_size fs m b = load_le 8 m (block_address fs b m + fs.offset_size)

-- The contents of a file are the bytes up to its size.
abbrev pub file_contents : FsDescriptors → Mem → ℕ → List ℕ → List ℕ
file_contents fs m b cs = take (file_size fs m b) (file_bytes fs m b cs)

-- A file whose chain has room for its size.
pub record IsFile (fs : FsDescriptors) (m : Mem) (b : ℕ) (cs : List ℕ) : Type 0 where
  pub block : IsBlock fs m b
  pub linked : Linked fs m b cs
  pub room : file_size fs m b ≤ length (file_bytes fs m b cs)

pub sub_size_lem : (a b : ℕ) → b ≤ a → a < size_mod → sub_size a b ≡ a - b
sub_size_lem a b h k = omega arith

module _ {fs : FsDescriptors} {m : Mem} (geo : IsGeometry fs m) where
  pub first_block_size_lem : first_block_size fs m ≡ block_size fs m - fs.sizeof_inode_main
  first_block_size_lem = sub_size_lem _ _ (omega (arith, geo.room)) geo.size

  pub inode_fits : fs.sizeof_inode < fs.sizeof_inode_main
  inode_fits = ground (arith, geo.layout)

  pub common_block_size_lem : common_block_size fs m ≡ block_size fs m - fs.sizeof_inode
  common_block_size_lem = sub_size_lem _ _ (omega (arith, geo.room, inode_fits)) geo.size

  pub common_pos : fs.sizeof_inode < block_size fs m
  common_pos = omega (arith, geo.room, inode_fits)

  pub available_len_lem :
      (c : Cursor)
      → c.block_inode_offset + c.offset ≤ block_size fs m
      → available_len fs c m ≡ block_size fs m - c.block_inode_offset - c.offset
  available_len_lem c h =
      let outer = sub_size_lem (block_size fs m) c.block_inode_offset (omega arith) geo.size in
      rw outer (sub_size_lem _ c.offset (omega arith) (omega (arith, geo.size)))

pub get_inode_lem :
    (fs : FsDescriptors) (m : Mem) (b : ℕ)
    → IsBlock fs m b
    → get_inode fs b m ≡ done (some (block_address fs b m)) m
unfolding get_inode
get_inode_lem fs m b h = ground (arith, h.0, h.1)

-- The cursor in block `b` at byte `f` of the data that begin at `o`.
abbrev pub cursor_at : FsDescriptors → Mem → (b o f : ℕ) → Cursor
cursor_at fs m b o f = record {
  block_index = b;
  current_inode = some (block_address fs b m);
  block_inode_offset = o;
  offset = f;
}

-- The bytes from a cursor on to the end of the chain.
abbrev pub bytes_from : FsDescriptors → Mem → (b o f : ℕ) → List ℕ → List ℕ
bytes_from fs m b o f cs =
    load_bytes (block_size fs m - o - f) m (block_address fs b m + f + o) ++ tail_bytes fs m cs

-- The step to the next block of a chain.
pub advance_lem :
    (fs : FsDescriptors) (m : Mem) (offset : ℕ) (b c o f : ℕ) (cs : List ℕ)
    → Linked fs m b (c ∷ cs)
    → advance fs offset (cursor_at fs m b o f) m ≡ done (cursor_at fs m c fs.sizeof_inode offset) m
unfolding advance get_next_inode
advance_lem fs m offset b c o f cs h = rw (h.0, get_inode_lem fs m c h.1)

-- ===== src/Rfs/Files/Kept.antt =====
-- hw1-fs/manage.c: stores behind the inodes of a chain leave the chain and the superblock.
use mipt_kis_linux.Prelude.{
  ℕ, ◌+◌, ◌*◌, ◌≤◌, ◌<◌, ◌≡◌, ◌≢◌, ap, ◌∙◌, sym, true, List, [], ◌∷◌, arith, member, Distinct,
}
use mipt_kis_linux.Rfs.Machine.{Mem, load_le}
use mipt_kis_linux.Rfs.Machine.Bytes.{load_le-Agree}
use mipt_kis_linux.Rfs.Layout.{FsDescriptors}
use mipt_kis_linux.Rfs.Table.{block_size, blocks_count}
use mipt_kis_linux.Rfs.Blocks.{block_address}
use mipt_kis_linux.Rfs.Files.Content.{IsGeometry, IsBlock, Linked, inode_fits}
use mipt_kis_linux.Rfs.Files.Disjoint.{In-same, Behind}

-- The superblock lies in the first block.
abbrev pub InFirst : FsDescriptors → Mem → Type 0
InFirst fs m =
    (fs.container ≤ fs.superblock) × (fs.superblock + 16 ≤ fs.container + block_size fs m)

-- A chain whose blocks are different, in a container with the superblock in its first block.
pub record IsPlaced (fs : FsDescriptors) (m : Mem) (b : ℕ) (cs : List ℕ) : Type 0 where
  pub geo : IsGeometry fs m
  pub first : InFirst fs m
  pub block : IsBlock fs m b
  pub linked : Linked fs m b cs
  pub apart : Distinct (b ∷ cs)

-- Nothing but cells behind the inodes of some blocks is stored.
abbrev pub Keeps : FsDescriptors → Mem → (blocks : List ℕ) → Mem → Type 0
Keeps fs m blocks m' = (x : ℕ) → ¬ Behind fs (block_size fs m) blocks x → m' x ≡ m x

-- The blocks of a chain are not the first one.
Linked-pos :
    (fs : FsDescriptors) (m : Mem) (b : ℕ) (cs : List ℕ)
    → Linked fs m b cs
    → (c : ℕ) → member c cs ≡ true
    → c ≢ 0
Linked-pos fs m b [] h c k = cc
Linked-pos fs m b (d ∷ cs) h c k = ground (arith, h.1.0, Linked-pos fs m d cs h.2 c)

module _ {fs : FsDescriptors} {m : Mem} {b : ℕ} {cs : List ℕ} (placed : IsPlaced fs m b cs)
    (m' : Mem) (kept : Keeps fs m (b ∷ cs) m') where
  positive : (c : ℕ) → member c (b ∷ cs) ≡ true → c ≢ 0
  positive c h = ground (arith, placed.block.0, Linked-pos fs m b cs placed.linked c)

  -- A number in the first block.
  kept_first :
      (a : ℕ)
      → fs.container ≤ a
      → a + 8 ≤ fs.container + block_size fs m
      → load_le 8 m' a ≡ load_le 8 m a
  kept_first a low high = load_le-Agree 8 m' m a (λ x lo hi. kept x (outside x lo hi))
    where
      outside : (x : ℕ) → a ≤ x → x < a + 8 → ¬ Behind fs (block_size fs m) (b ∷ cs) x
      outside x lo hi (c, among, lo', hi') =
          let same =
            In-same fs (block_size fs m) 0 c x (omega arith, omega arith)
              (omega arith, omega arith) in
          positive c among (sym same)

  pub kept_size : block_size fs m' ≡ block_size fs m
  kept_size = kept_first fs.superblock placed.first.0 (omega (arith, placed.first.1))

  pub kept_count : blocks_count fs m' ≡ blocks_count fs m
  kept_count =
      kept_first (fs.superblock + 8) (omega (arith, placed.first.0)) (omega (arith, placed.first.1))

  -- The continuation of a block.
  kept_head : (c : ℕ) → load_le 8 m' (block_address fs c m') ≡ load_le 8 m (block_address fs c m)
  kept_head c =
      ap (λ s. load_le 8 m' (fs.container + c * s)) kept_size
      ∙ load_le-Agree 8 m' m (block_address fs c m) (λ x lo hi. kept x (outside x lo hi))
    where
      outside :
          (x : ℕ)
          → block_address fs c m ≤ x
          → x < block_address fs c m + 8
          → ¬ Behind fs (block_size fs m) (b ∷ cs) x
      outside x lo hi (d, among, lo', hi') =
          let eight = placed.geo.layout.inode in
          let room = placed.geo.room in
          let fits = inode_fits placed.geo in
          let same : c ≡ d =
            In-same fs (block_size fs m) c d x (omega arith, omega arith)
              (omega arith, omega arith) in
          let lo'' : fs.container + c * block_size fs m + fs.sizeof_inode ≤ x = rw same lo' in
          absurd (omega arith)

  kept-Linked : (c : ℕ) (ds : List ℕ) → Linked fs m c ds → Linked fs m' c ds
  kept-Linked c [] h = tt
  kept-Linked c (d ∷ ds) h = (kept_head c ∙ h.0, (h.1.0, rw kept_count h.1.1), kept-Linked d ds h.2)

  pub kept-IsPlaced : IsPlaced fs m' b cs
  kept-IsPlaced = record {
    geo = record {
      layout = placed.geo.layout;
      room = rw kept_size placed.geo.room;
      size = rw kept_size placed.geo.size;
    };
    first = (placed.first.0, rw kept_size placed.first.1);
    block = (placed.block.0, rw kept_count placed.block.1);
    linked = kept-Linked b cs placed.linked;
    apart = placed.apart;
  }

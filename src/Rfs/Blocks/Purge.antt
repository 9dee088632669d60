-- ===== src/Rfs/Blocks/Purge.antt =====
-- hw1-fs/manage.c: `purge_blocks` gives back the blocks of a chain.
use mipt_kis_linux.Prelude.{
  ℕ, zero, suc, ◌+◌, ◌*◌, ◌<◌, ◌≤◌, ◌≡◌, refl, ap, ◌∙◌, ◌⊎◌, Bool, false, List, [], ◌∷◌, none, some,
  ◌==◌, ◌||◌, if◌then◌else◌, arith, length, member,
}
use mipt_kis_linux.Rfs.Machine.{Mem, done, load_le}
use mipt_kis_linux.Rfs.Machine.Bytes.{Apart, load_le-Agree}
use mipt_kis_linux.Rfs.Layout.{FsDescriptors}
use mipt_kis_linux.Rfs.Table.{block_size, blocks_count}
use mipt_kis_linux.Rfs.Table.Mark.{
  is_occupied, is_occupied-marked, marked, marked_other, mark_block_lem,
}
use mipt_kis_linux.Rfs.Blocks.Chain.{table_size, IsApart, EndsAfter, IsChain, IsChain-few}
use mipt_kis_linux.Rfs.Blocks.{block_address, get_inode, get_next_inode, purge_loop, purge_blocks}

-- The bits of some blocks are cleared, and nothing else changes.
pub record Purged (fs : FsDescriptors) (m : Mem) (blocks : List ℕ) (m' : Mem) : Type 0 where
  pub bits : (c : ℕ) → is_occupied fs m' c ≡ (if member c blocks then false else is_occupied fs m c)
  pub others :
      (x : ℕ) → (x < fs.lookup_table) ⊎ (fs.lookup_table + table_size fs m ≤ x) → m' x ≡ m x

module _ (fs : FsDescriptors) (m : Mem) (b : ℕ) (inside : b < blocks_count fs m) where
  abbrev after : Mem
  after = marked fs b false m

  outside_table :
      (x : ℕ) → (x < fs.lookup_table) ⊎ (fs.lookup_table + table_size fs m ≤ x) → after x ≡ m x
  outside_table x h = marked_other fs m b false x (omega (arith, inside))

  same_number :
      (n a : ℕ) → Apart fs.lookup_table (table_size fs m) a n → load_le n after a ≡ load_le n m a
  same_number n a apart = load_le-Agree n after m a (λ x lo hi. outside_table x (omega arith))

  module _ (clear : Apart fs.lookup_table (table_size fs m) fs.superblock 16) where
    same_count : blocks_count fs after ≡ blocks_count fs m
    same_count = same_number 8 (fs.superblock + 8) (omega arith)

    same_size : block_size fs after ≡ block_size fs m
    same_size = same_number 8 fs.superblock (omega arith)

    after-IsApart : (c : ℕ) → IsApart fs m c → IsApart fs after c
    after-IsApart c h = rw (same_count, same_size) h

    after-EndsAfter :
        (c : ℕ) (cs : List ℕ) → IsApart fs m c → EndsAfter fs m c cs → EndsAfter fs after c cs
    after-EndsAfter c [] h e =
        ap (λ s. load_le 8 after (fs.container + c * s)) same_size
        ∙ same_number 8 (block_address fs c m) h.2
        ∙ e
    after-EndsAfter c (d ∷ cs) h e = (
      ap (λ s. load_le 8 after (fs.container + c * s)) same_size
          ∙ same_number 8 (block_address fs c m) h.2
          ∙ e.0,
      after-IsApart d e.1,
      after-EndsAfter d cs e.1 e.2,
    )

    marked-Purged : Purged fs m (b ∷ []) after
    marked-Purged = record {
      bits = λ c. is_occupied-marked fs m b false c ∙ one (c == b) _;
      others = outside_table;
    }
      where
        one : (e : Bool) (v : Bool) → (if e then false else v) ≡ (if e || false then false else v)
        one e v = ground arith

    after-Purged : (bs : List ℕ) (m' : Mem) → Purged fs after bs m' → Purged fs m (b ∷ bs) m'
    after-Purged bs m' purged = record {
      bits = λ c.
          purged.bits c
          ∙ ap (λ v. if member c bs then false else v) (is_occupied-marked fs m b false c)
          ∙ both (c == b) (member c bs) _;
      others = λ x h. purged.others x (rw same_count h) ∙ outside_table x h;
    }
      where
        both :
            (e f v : Bool)
            → (if f then false else if e then false else v) ≡ (if e || f then false else v)
        both e f v = ground arith

get_inode-zero : (fs : FsDescriptors) (m : Mem) → get_inode fs 0 m ≡ done none m
unfolding get_inode
get_inode-zero fs m = refl

get_inode_apart :
    (fs : FsDescriptors) (m : Mem) (c : ℕ)
    → IsApart fs m c
    → get_inode fs c m ≡ done (some (block_address fs c m)) m
unfolding get_inode
get_inode_apart fs m c h = ground (arith, h.0, h.1)

purge_loop-Purged :
    (n : ℕ) (fs : FsDescriptors) (m : Mem) (b : ℕ) (cs : List ℕ)
    → length cs + 1 < n
    → IsChain fs m b cs
    → (m' : Mem) × (purge_loop n fs b (some (block_address fs b m)) m ≡ done tt m')
      × Purged fs m (b ∷ cs) m'
unfolding purge_loop get_next_inode
purge_loop-Purged zero fs m b cs enough chain = absurd (omega arith)
purge_loop-Purged (suc zero) fs m b cs enough chain = absurd (omega arith)
purge_loop-Purged (suc (suc n)) fs m b [] enough chain =
    let m1 = after fs m b chain.block.1 in
    let last : load_le 8 m1 (block_address fs b m) ≡ 0 =
      same_number fs m b chain.block.1 8 (block_address fs b m) chain.block.2 ∙ chain.ends in
    (
      m1,
      rw (purge_loop, mark_block_lem fs m b false chain.block.1, last, get_inode-zero fs m1) refl,
      marked-Purged fs m b chain.block.1 chain.superblock,
    )
purge_loop-Purged (suc (suc n)) fs m b (c ∷ cs) enough chain =
    let inside = chain.block.1 in
    let m1 = after fs m b inside in
    let next : load_le 8 m1 (block_address fs b m) ≡ c =
      same_number fs m b inside 8 (block_address fs b m) chain.block.2 ∙ chain.ends.0 in
    let block = after-IsApart fs m b inside chain.superblock c chain.ends.1 in
    let (m', ran, purged) = purge_loop-Purged (suc n) fs m1 c cs (omega arith) (record {
      superblock = rw (same_count fs m b inside chain.superblock) chain.superblock;
      block = block;
      ends = after-EndsAfter fs m b inside chain.superblock c cs chain.ends.1 chain.ends.2;
    }) in
    (
      m',
      rw (purge_loop, mark_block_lem fs m b false inside, next, get_inode_apart fs m1 c block, next)
          ran,
      after-Purged fs m b inside chain.superblock (c ∷ cs) m' purged,
    )

-- When the continuations from a block lead through blocks of the container to an end, and neither
-- their inodes nor the superblock lie in the lookup table, `purge_blocks` ends within its fuel,
-- the bit of every block of the chain is clear afterwards, the bit of every other block is as it
-- was, and nothing outside the lookup table changes.
pub purge_blocks-Purged :
    (fs : FsDescriptors) (m : Mem) (b : ℕ) (cs : List ℕ)
    → IsChain fs m b cs
    → (m' : Mem) × (purge_blocks fs b m ≡ done tt m') × Purged fs m (b ∷ cs) m'
unfolding purge_blocks
purge_blocks-Purged fs m b cs chain =
    let few = IsChain-few fs m b cs chain in
    let (m', ran, purged) =
      purge_loop-Purged (blocks_count fs m + 1) fs m b cs (omega arith) chain in
    (m', rw (get_inode_apart fs m b chain.block) ran, purged)

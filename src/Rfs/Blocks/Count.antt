-- ===== src/Rfs/Blocks/Count.antt =====
-- hw1-fs/manage.c: `get_blocks_required`.
use native.Mathlib.Nat.{div-le_self}
use mipt_kis_linux.Prelude.{
  ℕ, ◌+◌, ◌-◌, ◌*◌, ◌/◌, ◌%◌, ◌≤◌, ◌<◌, ◌≡◌, arith, leb, false, true, ◌==◌, dec_le,
}
use mipt_kis_linux.Rfs.Machine.{Mem, done, size_mod}
use mipt_kis_linux.Rfs.Layout.{FsDescriptors}
use mipt_kis_linux.Rfs.Table.{block_size}
use mipt_kis_linux.Rfs.Blocks.{get_blocks_required}
use mipt_kis_linux.Rfs.Files.Content.{
  IsGeometry, first_block_size_lem, common_block_size_lem, common_pos,
}

-- The bytes of data that `n` blocks have room for, where `n` is 1 or more.
abbrev pub capacity : FsDescriptors → Mem → ℕ → ℕ
capacity fs m n =
    (block_size fs m - fs.sizeof_inode_main) + (n - 1) * (block_size fs m - fs.sizeof_inode)

ceiling : ℕ → ℕ → ℕ
ceiling x c = (x + c - 1) / c

ceiling-ge : (x c : ℕ) → 0 < c → x ≤ ceiling x c * c
unfolding ceiling
ceiling-ge x c h = grind arith

ceiling-least : (x c k : ℕ) → 0 < c → x ≤ k * c → ceiling x c ≤ k
unfolding ceiling
ceiling-least x c k h p = grind arith

-- The count of a size: it has room, and no smaller count has.
abbrev pub IsLeastCount : FsDescriptors → Mem → (size n : ℕ) → Type 0
IsLeastCount fs m size n =
    (1 ≤ n) × (size ≤ capacity fs m n) × ((k : ℕ) → 1 ≤ k → size ≤ capacity fs m k → n ≤ k)

module _ {fs : FsDescriptors} {m : Mem} (geo : IsGeometry fs m) where
  required : ℕ → ℕ
  required size =
      ceiling (size - (block_size fs m - fs.sizeof_inode_main)) (block_size fs m - fs.sizeof_inode)
      + 1

  get_blocks_required_past :
      (size : ℕ)
      → size + block_size fs m < size_mod
      → block_size fs m - fs.sizeof_inode_main < size
      → get_blocks_required fs size m ≡ done (required size) m
  unfolding get_blocks_required ceiling required
  get_blocks_required_past size small past =
      let first = block_size fs m - fs.sizeof_inode_main in
      let common = block_size fs m - fs.sizeof_inode in
      let positive = common_pos geo in
      let not_first : leb size first ≡ false = ground arith in
      let not_zero : (common == 0) ≡ false = ground arith in
      let minus : (size + size_mod - first) % size_mod ≡ size - first = omega arith in
      let plus : (size - first + common) % size_mod ≡ size - first + common = omega arith in
      let less : (size - first + common + size_mod - 1) % size_mod ≡ size - first + common - 1 =
        omega arith in
      let count = div-le_self (size - first + common - 1) common in
      let one : ((size - first + common - 1) / common + 1) % size_mod
          ≡ (size - first + common - 1) / common + 1 =
        omega arith in
      rw (
        first_block_size_lem geo,
        common_block_size_lem geo,
        not_first,
        not_zero,
        minus,
        plus,
        less,
        one,
      )

  required-least :
      (size : ℕ)
      → block_size fs m - fs.sizeof_inode_main < size
      → IsLeastCount fs m size (required size)
  unfolding required
  required-least size past =
      let first = block_size fs m - fs.sizeof_inode_main in
      let common = block_size fs m - fs.sizeof_inode in
      let positive : 0 < common = omega (arith, common_pos geo) in
      let covers = ceiling-ge (size - first) common positive in
      let one : ceiling (size - first) common + 1 - 1 ≡ ceiling (size - first) common =
        omega arith in
      (
        omega arith,
        rw one (omega arith),
        λ k p q. omega (arith, ceiling-least (size - first) common (k - 1) positive (omega arith)),
      )

  -- For a size that does not wrap when a block is added, `get_blocks_required` ends and answers
  -- the least number of blocks, one at least, whose data parts have room for the size.
  pub get_blocks_required-least :
      (size : ℕ)
      → size + block_size fs m < size_mod
      → (n : ℕ) × (get_blocks_required fs size m ≡ done n m) × IsLeastCount fs m size n
  unfolding get_blocks_required required
  get_blocks_required-least size small =
      elim (dec_le size (block_size fs m - fs.sizeof_inode_main)) [
        | yes inside ↦
            let within : leb size (block_size fs m - fs.sizeof_inode_main) ≡ true = ground arith in
            (1, rw (first_block_size_lem geo, within), (omega arith, omega arith, λ k p q. p))
        | no past ↦ (
          required size,
          get_blocks_required_past size small (omega arith),
          required-least size (omega arith),
        )
      ]

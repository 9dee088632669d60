-- ===== src/Rfs/Table/Alloc.antt =====
-- hw1-fs/manage.c: the two calls with which a block is taken.
use mipt_kis_linux.Prelude.{
  ℕ, ◌+◌, ◌*◌, ◌/◌, ◌<◌, ◌≤◌, ◌≡◌, ◌≢◌, refl, ◌∙◌, true, false, arith, ◌==◌, ==_refl, dec_le,
}
use mipt_kis_linux.Rfs.Machine.{Mem, Cmd, Outcome, done, ◌>>=◌, ◌>>◌, pure, add_size, size_mod}
use mipt_kis_linux.Rfs.Layout.{FsDescriptors}
use mipt_kis_linux.Rfs.Table.{blocks_count, mark_block_in_lookup_table, get_next_free_block_index}
use mipt_kis_linux.Rfs.Table.Mark.{is_occupied, is_occupied-marked, marked, mark_block_lem}
use mipt_kis_linux.Rfs.Table.Search.{FirstFree, found, full, get_next_free_block_index-FirstFree}

-- The two calls with which `init_new_file` and `truncate_file` take a block.
abbrev pub take_block : FsDescriptors → Cmd ℕ
take_block fs = do
  block ← get_next_free_block_index fs
  mark_block_in_lookup_table fs block true
  pure block

-- A block is taken, and nothing else is: the bit of every other block stays.
pub record Taken (fs : FsDescriptors) (m : Mem) (block : ℕ) (m' : Mem) : Type 0 where
  pub was_free : is_occupied fs m block ≡ false
  pub occupied : is_occupied fs m' block ≡ true
  pub others : (b : ℕ) → b ≢ block → is_occupied fs m' b ≡ is_occupied fs m b
  pub first : (b : ℕ) → b < block → is_occupied fs m b ≡ true

module _ (fs : FsDescriptors) (m : Mem) where
  marked-Taken :
      (block : ℕ)
      → is_occupied fs m block ≡ false
      → ((b : ℕ) → b < block → is_occupied fs m b ≡ true)
      → Taken fs m block (marked fs block true m)
  marked-Taken block free before = record {
    was_free = free;
    occupied = is_occupied-marked fs m block true block ∙ rw (==_refl block) refl;
    others = λ b h.
        let other : (b == block) ≡ false = ground arith in
        is_occupied-marked fs m block true b ∙ rw other refl;
    first = before;
  }

  -- While a block of the container is free and the count of its blocks plus seven does not wrap,
  -- searching the table and marking what is found ends and answers a block: the first that was
  -- free, which is occupied afterwards, while the bit of every other block stays.
  pub take_block-Taken :
      (b : ℕ)
      → b < blocks_count fs m
      → blocks_count fs m + 7 < size_mod
      → is_occupied fs m b ≡ false
      → (block : ℕ) × (m' : Mem) × (take_block fs m ≡ done block m')
        × (block ≤ b)
        × Taken fs m block m'
  take_block-Taken b inside no_wrap free =
      pick (get_next_free_block_index fs m) refl (get_next_free_block_index-FirstFree fs m)
    where
      pick :
          (r : Outcome ℕ)
          → get_next_free_block_index fs m ≡ r
          → FirstFree fs m 0 (add_size (blocks_count fs m) 7 / 8 * 8) r
          → (block : ℕ) × (m' : Mem) × (take_block fs m ≡ done block m')
            × (block ≤ b)
            × Taken fs m block m'
      pick _ e (found i lo hi clear before) = elim (dec_le i b) [
        | yes low ↦ (
          i,
          marked fs i true m,
          rw (e, mark_block_lem fs m i true (omega arith)) refl,
          low,
          marked-Taken i clear (λ j h. before j (omega arith) h),
        )
        | no high ↦ cc (before b (omega arith) (omega arith))
      ]
      pick _ e (full all) = cc (all b (omega arith) (omega arith))

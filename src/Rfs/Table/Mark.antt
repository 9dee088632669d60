-- ===== src/Rfs/Table/Mark.antt =====
-- hw1-fs/manage.c: `mark_block_in_lookup_table`, bit by bit.
use mipt_kis_linux.Prelude.{
  ℕ, ◌+◌, ◌/◌, ◌%◌, ◌<◌, ◌≤◌, ◌≡◌, ◌≢◌, Bool, ◌==◌, if◌then◌else◌, arith, ap, ◌∙◌, lt→ltb, ge→ltb,
  ℕ_discrete,
}
use mipt_kis_linux.Rfs.Machine.{Mem, done, died, internal_error, load8, store8}
use mipt_kis_linux.Rfs.Machine.Bytes.{store8_other, store8_self}
use mipt_kis_linux.Rfs.Layout.{FsDescriptors}
use mipt_kis_linux.Rfs.Table.{blocks_count, mark_bit, mark_block_in_lookup_table}
use mipt_kis_linux.Rfs.Table.Bits.{bit_set, mark_bit-bit_set, mark_bit-lt}

-- The bit of a block, as `get_next_free_block_index` tests it.
abbrev pub is_occupied : FsDescriptors → Mem → ℕ → Bool
is_occupied fs m b = bit_set (load8 m (fs.lookup_table + b / 8)) (b % 8)

abbrev pub marked : FsDescriptors → ℕ → Bool → Mem → Mem
marked fs block occupied m =
    store8 m (fs.lookup_table + block / 8)
      (mark_bit occupied (load8 m (fs.lookup_table + block / 8)) (block % 8))

module _ (fs : FsDescriptors) (m : Mem) (block : ℕ) (occupied : Bool) where
  pub mark_block_lem :
      block < blocks_count fs m
      → mark_block_in_lookup_table fs block occupied m ≡ done tt (marked fs block occupied m)
  unfolding mark_block_in_lookup_table
  mark_block_lem h = rw (lt→ltb _ _ h)

  pub mark_block_out_of_range :
      blocks_count fs m ≤ block
      → mark_block_in_lookup_table fs block occupied m ≡ died internal_error m
  unfolding mark_block_in_lookup_table
  mark_block_out_of_range h = rw (ge→ltb _ _ h)

  marked_byte :
      load8 (marked fs block occupied m) (fs.lookup_table + block / 8)
      ≡ mark_bit occupied (load8 m (fs.lookup_table + block / 8)) (block % 8)
  marked_byte =
      let byte = load8 m (fs.lookup_table + block / 8) in
      ap (λ v. v % 256) (store8_self m _ _)
      ∙ omega (arith, mark_bit-lt byte (block % 8) occupied (omega arith) (omega arith))

  pub marked_other : (x : ℕ) → x ≢ fs.lookup_table + block / 8 → marked fs block occupied m x ≡ m x
  marked_other x h = store8_other m _ _ x (omega arith)

  pub is_occupied-marked :
      (b : ℕ)
      → is_occupied fs (marked fs block occupied m) b
        ≡ (if b == block then occupied else is_occupied fs m b)
  is_occupied-marked b = elim (ℕ_discrete (b / 8) (block / 8)) [
    | yes e ↦
        rw (e, marked_byte)
          (mark_bit-bit_set (load8 m (fs.lookup_table + block / 8)) (block % 8) (b % 8) occupied
              (omega arith) (omega arith) (omega arith)
            ∙ same_bit e _)
    | no n ↦ rw (marked_other (fs.lookup_table + b / 8) (omega arith)) (ground arith)
  ]
    where
      same_bit :
          b / 8 ≡ block / 8
          → (v : Bool)
          → (if b % 8 == block % 8 then occupied else v) ≡ (if b == block then occupied else v)
      same_bit e v = ground arith

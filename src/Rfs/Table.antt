-- ===== src/Rfs/Table.antt =====
-- hw1-fs/manage.c: the lookup table, one bit for each block of the container.
pub mod Bits
pub mod Mark
pub mod Search
pub mod Alloc
use mipt_kis_linux.Prelude.{
  ℕ, zero, suc, ◌+◌, ◌-◌, ◌*◌, ◌/◌, ◌%◌, ◌^◌, Bool, true, false, Option, none, some, ◌==◌, ltb,
  if◌then◌else◌, not, bit_and, bit_or,
}
use mipt_kis_linux.Rfs.Machine.{
  Mem, Cmd, done, pure, ◌>>=◌, ◌>>◌, die_fatal, internal_error, no_space, load8, store8, load_le,
  add_size,
}
use mipt_kis_linux.Rfs.Layout.{FsDescriptors}

-- The fields of the superblock, read from the mapping.
abbrev pub block_size : FsDescriptors → Mem → ℕ
block_size fs m = load_le 8 m fs.superblock

abbrev pub blocks_count : FsDescriptors → Mem → ℕ
blocks_count fs m = load_le 8 m (fs.superblock + 8)

-- `byte |= 1 << bit` and `byte &= ~(1 << bit)` on an `unsigned char`.
unfoldable pub mark_bit : Bool → ℕ → ℕ → ℕ
mark_bit occupied byte bit =
    if occupied then bit_or byte (2 ^ bit) else bit_and byte (255 - 2 ^ bit)

unfoldable pub mark_block_in_lookup_table : FsDescriptors → ℕ → Bool → Cmd (Unit {0})
mark_block_in_lookup_table fs block_index occupied m =
    let byte_index = block_index / 8 in
    let bit_index = block_index % 8 in
    if ltb block_index (blocks_count fs m)
    then (let address = fs.lookup_table + byte_index in
        done tt (store8 m address (mark_bit occupied (load8 m address) bit_index)))
    else die_fatal internal_error m

-- `for (k = 0; k < 8; ++k)`, with the rounds that are left.
unfoldable pub first_clear_bit : (rounds k cur_byte : ℕ) → Option ℕ
first_clear_bit zero k cur_byte = none
first_clear_bit (suc n) k cur_byte =
    let rest = first_clear_bit n (k + 1) cur_byte in
    if bit_and cur_byte (2 ^ k) == 0 then some k else rest

-- `~cur_byte == 0`: the byte is promoted to a 32-bit `int` before it is complemented.
unfoldable pub complement_is_zero : ℕ → Bool
complement_is_zero cur_byte = 2 ^ 32 - 1 - cur_byte == 0

-- The loop over the bytes of the table, from byte `i` on.
unfoldable pub next_free_from : (rounds i : ℕ) → FsDescriptors → Cmd ℕ
next_free_from zero i fs m = die_fatal no_space m
next_free_from (suc n) i fs m =
    let cur_byte = load8 m (fs.lookup_table + i) in
    let rest = next_free_from n (i + 1) fs m in
    if complement_is_zero cur_byte
    then rest
    else elim (first_clear_bit 8 0 cur_byte) [ some k ↦ done (i * 8 + k) m | none ↦ rest ]

unfoldable pub get_next_free_block_index : FsDescriptors → Cmd ℕ
get_next_free_block_index fs m =
    let lookup_table_size = add_size (blocks_count fs m) 7 / 8 in
    next_free_from lookup_table_size 0 fs m

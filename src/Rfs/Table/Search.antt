-- ===== src/Rfs/Table/Search.antt =====
-- hw1-fs/manage.c: `get_next_free_block_index`.
use mipt_kis_linux.Prelude.{
  ℕ, zero, suc, ◌+◌, ◌*◌, ◌/◌, ◌%◌, ◌<◌, ◌≤◌, ◌≡◌, refl, ◌⊎◌, inl, inr, Bool, true, false, Option,
  none, some, ◌==◌, arith, Bool-cases, bit_and, ◌^◌, ◌-◌, ◌∙◌, dec_le,
}
use mipt_kis_linux.Rfs.Machine.{Mem, Outcome, done, died, no_space, load8, add_size}
use mipt_kis_linux.Rfs.Layout.{FsDescriptors}
use mipt_kis_linux.Rfs.Table.{
  blocks_count, first_clear_bit, complement_is_zero, next_free_from, get_next_free_block_index,
}
use mipt_kis_linux.Rfs.Table.Bits.{bit_set}
use mipt_kis_linux.Rfs.Table.Mark.{is_occupied}

-- The answer `r` of a search of the bits `k .. k + n` of a byte.
abbrev Clear : (n k byte : ℕ) → Option ℕ → Type 0
Clear n k byte r =
    ((r ≡ none) × ((j : ℕ) → k ≤ j → j < k + n → bit_set byte j ≡ true))
    ⊎ ((i : ℕ) × (r ≡ some i)
        × (k ≤ i)
        × (i < k + n)
        × (bit_set byte i ≡ false)
        × ((j : ℕ) → k ≤ j → j < i → bit_set byte j ≡ true))

-- A test that holds at `k` and from `k + 1` on holds from `k` on.
from_next :
    (p : ℕ → Bool) (k u : ℕ)
    → p k ≡ true
    → ((j : ℕ) → k + 1 ≤ j → j < u → p j ≡ true)
    → (j : ℕ) → k ≤ j
    → j < u
    → p j ≡ true
from_next p k u here rest j lo hi = elim (dec_le (k + 1) j) [
  | yes above ↦ rest j above hi
  | no below ↦ let e : j ≡ k = omega arith in rw e here
]

first_clear_bit-Clear : (n k byte : ℕ) → Clear n k byte (first_clear_bit n k byte)
unfolding first_clear_bit
first_clear_bit-Clear zero k byte = inl (refl, λ j p q. absurd (omega arith))
first_clear_bit-Clear (suc n) k byte = elim (Bool-cases (bit_and byte (2 ^ k) == 0)) [
  | inl e ↦ rw e (inr (k, refl, omega arith, omega arith, rw e refl, λ j p q. absurd (omega arith)))
  | inr e ↦ rw e (later (rw e refl) (first_clear_bit-Clear n (k + 1) byte))
]
  where
    later :
        bit_set byte k ≡ true
        → Clear n (k + 1) byte (first_clear_bit n (k + 1) byte)
        → Clear (suc n) k byte (first_clear_bit n (k + 1) byte)
    later here (inl (r, all)) =
        inl (r, from_next (bit_set byte) k _ here λ j p q. all j p (omega arith))
    later here (inr (i, r, lo, hi, clear, before)) =
        inr (i, r, omega arith, omega arith, clear, from_next (bit_set byte) k i here before)

-- The answer of a search of the blocks `from .. until`.
pub data FirstFree (fs : FsDescriptors) (m : Mem) (from until : ℕ) : Outcome ℕ → Type 0 where
  found :
      (i : ℕ)
      → from ≤ i
      → i < until
      → is_occupied fs m i ≡ false
      → ((j : ℕ) → from ≤ j → j < i → is_occupied fs m j ≡ true)
      → FirstFree fs m from until (done i m)
  full :
      ((j : ℕ) → from ≤ j → j < until → is_occupied fs m j ≡ true)
      → FirstFree fs m from until (died no_space m)

-- The bits of byte `i` are the blocks `i * 8 .. i * 8 + 8`.
block_bit :
    (fs : FsDescriptors) (m : Mem) (i j : ℕ)
    → i * 8 ≤ j
    → j < i * 8 + 8
    → is_occupied fs m j ≡ bit_set (load8 m (fs.lookup_table + i)) (j - i * 8)
block_bit fs m i j lo hi =
    let byte : j / 8 ≡ i = omega arith in
    let bit : j % 8 ≡ j - i * 8 = omega arith in rw (byte, bit)

complement_is_zero_lem : (byte : ℕ) → byte < 256 → complement_is_zero byte ≡ false
unfolding complement_is_zero
complement_is_zero_lem byte h = ground arith

module _ (fs : FsDescriptors) (m : Mem) where
  extend :
      (i until : ℕ) {r : Outcome ℕ}
      → i * 8 + 8 ≤ until
      → ((j : ℕ) → i * 8 ≤ j → j < i * 8 + 8 → is_occupied fs m j ≡ true)
      → FirstFree fs m (i * 8 + 8) until r
      → FirstFree fs m (i * 8) until r
  extend i until fits head (found k lo hi free before) = found k (omega arith) hi free λ j p q.
      elim (dec_le (i * 8 + 8) j) [
        | yes above ↦ before j above q
        | no below ↦ head j p (omega arith)
      ]
  extend i until fits head (full all) = full λ j p q. elim (dec_le (i * 8 + 8) j) [
    | yes above ↦ all j above q
    | no below ↦ head j p (omega arith)
  ]

  byte-FirstFree :
      (i until : ℕ) (r : Option ℕ) (later : Outcome ℕ)
      → i * 8 + 8 ≤ until
      → Clear 8 0 (load8 m (fs.lookup_table + i)) r
      → FirstFree fs m (i * 8 + 8) until later
      → FirstFree fs m (i * 8) until (elim r [ some k ↦ done (i * 8 + k) m | none ↦ later ])
  byte-FirstFree i until none later fits (inl (r, all)) rest =
      extend i until fits
        (λ j p q. block_bit fs m i j p q ∙ all (j - i * 8) (omega arith) (omega arith)) rest
  byte-FirstFree i until none later fits (inr (k, r, lo, hi, clear, before)) rest = cc
  byte-FirstFree i until (some k) later fits (inl (r, all)) rest = cc
  byte-FirstFree i until (some k) later fits (inr (k', r, lo, hi, clear, before)) rest =
      let same : k' ≡ k = cc in
      let bit : i * 8 + k - i * 8 ≡ k' = omega arith in
      found (i * 8 + k) (omega arith) (omega arith)
        (block_bit fs m i (i * 8 + k) (omega arith) (omega arith) ∙ rw bit clear)
        (λ j p q.
          block_bit fs m i j p (omega arith) ∙ before (j - i * 8) (omega arith) (omega arith))

  next_free_from-FirstFree :
      (n i until : ℕ) → until ≡ (i + n) * 8 → FirstFree fs m (i * 8) until (next_free_from n i fs m)
  unfolding next_free_from
  next_free_from-FirstFree zero i until e = full λ j p q. absurd (omega arith)
  next_free_from-FirstFree (suc n) i until e =
      let next : (i + 1) * 8 ≡ i * 8 + 8 = omega arith in
      let rest = next_free_from-FirstFree n (i + 1) until (omega arith) in
      rw (complement_is_zero_lem (load8 m (fs.lookup_table + i)) (omega arith))
        (byte-FirstFree i until _ _ (omega arith) (first_clear_bit-Clear 8 0 _) (rw next at rest))

  -- The search of the lookup table, whose number of bytes is the count of the blocks plus seven,
  -- on a `size_t` that wraps, divided by eight, answers the first block whose bit in these bytes
  -- is clear, or stops the process when none is, and stores nothing.
  pub get_next_free_block_index-FirstFree :
      FirstFree fs m 0 (add_size (blocks_count fs m) 7 / 8 * 8) (get_next_free_block_index fs m)
  unfolding get_next_free_block_index
  get_next_free_block_index-FirstFree = next_free_from-FirstFree _ 0 _ (omega arith)

-- ===== src/Rfs/Directory/Overflow.antt =====
-- hw1-fs/manage.c: how many entries `trace_file_blocks` writes.
use mipt_kis_linux.Prelude.{ℕ, zero, suc, ◌+◌, ◌≡◌, refl, ◌∷◌, Option, arith, length}
use mipt_kis_linux.Rfs.Machine.{
  Mem, Outcome, done, died, fault, out_of_fuel, Cmd, and_then, get_size,
}
use mipt_kis_linux.Rfs.Layout.{FsDescriptors}
use mipt_kis_linux.Rfs.Blocks.{
  continuation_inode, get_next_inode, get_inode, deref, get_blocks_required,
}
use mipt_kis_linux.Rfs.Directory.{Trace, trace_loop, trace_file_blocks}

-- A property of the result of a call that ends.
abbrev pub Ensures : {A : Type 0} → (A → Type 0) → Outcome A → Type 0
Ensures P (done a m) = P a
Ensures P (died e m) = Unit
Ensures P (fault m) = Unit
Ensures P out_of_fuel = Unit

Ensures-and_then :
    {A B : Type 0} (P : B → Type 0) (c : Outcome A) (k : A → Cmd B)
    → ((a : A) (m : Mem) → Ensures P (k a m))
    → Ensures P (and_then c k)
Ensures-and_then P (done a m) k h = h a m
Ensures-and_then P (died e m) k h = tt
Ensures-and_then P (fault m) k h = tt
Ensures-and_then P out_of_fuel k h = tt

Ensures-after :
    {A B : Type 0} (Q : A → Type 0) (P : B → Type 0) (c : Outcome A) (k : A → Cmd B)
    → Ensures Q c
    → ((a : A) (m : Mem) → Q a → Ensures P (k a m))
    → Ensures P (and_then c k)
Ensures-after Q P (done a m) k q h = h a m q
Ensures-after Q P (died e m) k q h = tt
Ensures-after Q P (fault m) k q h = tt
Ensures-after Q P out_of_fuel k q h = tt

abbrev pub OneTooMany : Trace → Type 0
OneTooMany t = length t.entries ≡ t.capacity + 1

module _ (fs : FsDescriptors) where
  length-trace_loop :
      (count : ℕ) (inode : Option ℕ) (m : Mem)
      → Ensures (λ entries. length entries ≡ count) (trace_loop count fs inode m)
  unfolding trace_loop
  length-trace_loop zero inode m = refl
  length-trace_loop (suc n) inode m = Ensures-and_then _ (continuation_inode inode m) _ λ c m1.
      Ensures-and_then _ (get_next_inode fs inode m1) _ λ next m2.
        Ensures-after (λ entries. length entries ≡ n) _ (trace_loop n fs next m2) _
          (length-trace_loop n next m2) (λ rest m3 h. omega arith)

  -- Whenever `trace_file_blocks` ends with a result, it has written one entry more than its array
  -- has room for.
  pub trace_file_blocks-Overflows :
      (block_index : ℕ) (m : Mem) → Ensures OneTooMany (trace_file_blocks fs block_index m)
  unfolding trace_file_blocks
  trace_file_blocks-Overflows block_index m =
      Ensures-and_then OneTooMany (get_inode fs block_index m) _ λ inode m1.
        Ensures-and_then OneTooMany (deref inode m1) _ λ a m2.
          Ensures-and_then OneTooMany (get_size (a + fs.offset_size) m2) _ λ size m3.
            Ensures-and_then OneTooMany (get_blocks_required fs size m3) _ λ count m4.
              Ensures-after (λ entries. length entries ≡ count) OneTooMany
                (trace_loop count fs inode m4)
                (λ rest. done (record { capacity = count; entries = block_index ∷ rest }))
                (length-trace_loop count inode m4) (λ rest m5 h. omega arith)

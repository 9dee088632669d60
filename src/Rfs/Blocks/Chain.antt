-- ===== src/Rfs/Blocks/Chain.antt =====
-- hw1-fs/manage.c: chains of blocks that end. Such a chain meets no block twice.
use mipt_kis_linux.Prelude.{
  ℕ, suc, ◌+◌, ◌/◌, ◌<◌, ◌≤◌, ◌≡◌, ◌≢◌, refl, ap, ◌∙◌, sym, subst, inl, inr, true, false, List, [],
  ◌∷◌, arith, length, Bool-cases, member, Distinct, Distinct-le, ℕ_discrete,
}
use mipt_kis_linux.Rfs.Machine.{Mem, load_le}
use mipt_kis_linux.Rfs.Machine.Bytes.{Apart}
use mipt_kis_linux.Rfs.Layout.{FsDescriptors}
use mipt_kis_linux.Rfs.Table.{blocks_count}
use mipt_kis_linux.Rfs.Blocks.{block_address}

-- The bytes of the lookup table.
abbrev pub table_size : FsDescriptors → Mem → ℕ
table_size fs m = (blocks_count fs m + 7) / 8

-- A block of the container other than the first, whose inode does not lie in the table.
abbrev pub IsApart : FsDescriptors → Mem → ℕ → Type 0
IsApart fs m b =
    (b ≢ 0)
    × (b < blocks_count fs m)
    × Apart fs.lookup_table (table_size fs m) (block_address fs b m) 8

-- From block `b` the continuations lead through `cs` and end.
abbrev pub EndsAfter : FsDescriptors → Mem → ℕ → List ℕ → Type 0
EndsAfter fs m b [] = load_le 8 m (block_address fs b m) ≡ 0
EndsAfter fs m b (c ∷ cs) =
    (load_le 8 m (block_address fs b m) ≡ c) × IsApart fs m c × EndsAfter fs m c cs

-- A chain that ends, in a container whose superblock does not lie in the table.
pub record IsChain (fs : FsDescriptors) (m : Mem) (b : ℕ) (cs : List ℕ) : Type 0 where
  pub superblock : Apart fs.lookup_table (table_size fs m) fs.superblock 16
  pub block : IsApart fs m b
  pub ends : EndsAfter fs m b cs

module _ (fs : FsDescriptors) (m : Mem) where
  -- A block has one chain only.
  same_length :
      (b : ℕ) (cs ds : List ℕ) → EndsAfter fs m b cs → EndsAfter fs m b ds → length cs ≡ length ds
  same_length b [] [] h k = refl
  same_length b [] (d ∷ ds) h k = absurd (k.1.0 (sym k.0 ∙ h))
  same_length b (c ∷ cs) [] h k = absurd (h.1.0 (sym h.0 ∙ k))
  same_length b (c ∷ cs) (d ∷ ds) h k =
      let e : c ≡ d = sym h.0 ∙ k.0 in
      ap suc (same_length c cs ds h.2 (subst (λ x. EndsAfter fs m x ds) (sym e) k.2))

  -- Each block of a chain has a shorter one.
  suffix :
      (x b : ℕ) (cs : List ℕ)
      → EndsAfter fs m b cs
      → member x cs ≡ true
      → (ds : List ℕ) × EndsAfter fs m x ds × (length ds < length cs)
  suffix x b [] h k = cc
  suffix x b (c ∷ cs) h k = elim (ℕ_discrete x c) [
    | yes e ↦ (cs, subst (λ y. EndsAfter fs m y cs) (sym e) h.2, omega arith)
    | no other ↦
        let (ds, ends, shorter) = suffix x c cs h.2 (ground (arith, k)) in (ds, ends, omega arith)
  ]

  not_again : (b : ℕ) (cs : List ℕ) → EndsAfter fs m b cs → member b cs ≡ false
  not_again b cs h = elim (Bool-cases (member b cs)) [
    | inr e ↦ e
    | inl e ↦
        let (ds, ends, shorter) = suffix b b cs h e in
        absurd (omega (arith, same_length b cs ds h ends))
  ]

  EndsAfter-Distinct : (b : ℕ) (cs : List ℕ) → EndsAfter fs m b cs → Distinct (b ∷ cs)
  EndsAfter-Distinct b [] h = (refl, tt)
  EndsAfter-Distinct b (c ∷ cs) h = (not_again b (c ∷ cs) h, EndsAfter-Distinct c cs h.2)

  EndsAfter-below :
      (b : ℕ) (cs : List ℕ)
      → EndsAfter fs m b cs
      → (x : ℕ) → member x cs ≡ true
      → x < blocks_count fs m
  EndsAfter-below b [] h x k = cc
  EndsAfter-below b (c ∷ cs) h x k = ground (arith, h.1.1, EndsAfter-below c cs h.2 x)

  -- So it is no longer than the container.
  pub IsChain-few : (b : ℕ) (cs : List ℕ) → IsChain fs m b cs → length (b ∷ cs) ≤ blocks_count fs m
  IsChain-few b cs chain =
      Distinct-le (blocks_count fs m) (b ∷ cs) (EndsAfter-Distinct b cs chain.ends)
        (λ x k. ground (arith, chain.block.1, EndsAfter-below b cs chain.ends x, k))

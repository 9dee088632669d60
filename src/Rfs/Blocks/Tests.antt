-- ===== src/Rfs/Blocks/Tests.antt =====
-- hw1-fs/manage.c: the chain of the small container is purged.
use mipt_kis_linux.Prelude.{◌≡◌, refl, inl, inr, [], ◌∷◌, arith}
use mipt_kis_linux.Rfs.Machine.{Mem, done, load_le}
use mipt_kis_linux.Rfs.Table.{blocks_count}
use mipt_kis_linux.Rfs.Blocks.{purge_blocks}
use mipt_kis_linux.Rfs.Blocks.Chain.{IsChain}
use mipt_kis_linux.Rfs.Blocks.Purge.{Purged, purge_blocks-Purged}
use mipt_kis_linux.Rfs.Examples.{tiny, tiny_fs}

tiny-blocks : blocks_count tiny_fs tiny ≡ 4
unfolding load_le
tiny-blocks = refl

tiny-IsChain : IsChain tiny_fs tiny 1 (2 ∷ [])
unfolding load_le
tiny-IsChain = record {
  superblock = inr (omega arith);
  block = (omega arith, omega (arith, tiny-blocks), inl (omega arith));
  ends = (refl, (omega arith, omega (arith, tiny-blocks), inl (omega arith)), refl);
}

purge_blocks-Purged_example :
    (m' : Mem) × (purge_blocks tiny_fs 1 tiny ≡ done tt m') × Purged tiny_fs tiny (1 ∷ 2 ∷ []) m'
purge_blocks-Purged_example = purge_blocks-Purged tiny_fs tiny 1 (2 ∷ []) tiny-IsChain

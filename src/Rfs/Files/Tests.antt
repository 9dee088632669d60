-- ===== src/Rfs/Files/Tests.antt =====
-- hw1-fs/manage.c: four bytes are written over the border of two blocks and read back.
use mipt_kis_linux.Prelude.{ℕ, ◌+◌, ◌≡◌, refl, false, List, [], ◌∷◌, arith, ◌==◌, bit_and}
use mipt_kis_linux.Rfs.Machine.{Mem, done, load8, load_le}
use mipt_kis_linux.Rfs.Machine.Bytes.{AllBytes}
use mipt_kis_linux.Rfs.Table.{block_size}
use mipt_kis_linux.Rfs.Blocks.{block_address, flg_file}
use mipt_kis_linux.Rfs.Files.{write_file}
use mipt_kis_linux.Rfs.Files.Kept.{IsPlaced}
use mipt_kis_linux.Rfs.Files.Update.{Rewrites, write_file-Rewrites}
use mipt_kis_linux.Rfs.Examples.{tiny, tiny_fs, tiny-IsGeometry, tiny-IsFile, tiny-size}

abbrev pub values : List ℕ
values = 1 ∷ 2 ∷ 3 ∷ 4 ∷ []

pub tiny-IsPlaced : IsPlaced tiny_fs tiny 1 (2 ∷ [])
unfolding load_le
tiny-IsPlaced = record {
  geo = tiny-IsGeometry;
  first = let e : block_size tiny_fs tiny ≡ 40 = refl in (omega arith, omega (arith, e));
  block = tiny-IsFile.block;
  linked = tiny-IsFile.linked;
  apart = (refl, (refl, tt));
}

pub tiny-flag : (bit_and (load8 tiny (block_address tiny_fs 1 tiny + 20)) flg_file == 0) ≡ false
unfolding load_le
tiny-flag = refl

pub values-AllBytes : AllBytes values
values-AllBytes = (omega arith, (omega arith, (omega arith, (omega arith, tt))))

write_file-Rewrites_example :
    (m' : Mem) × (write_file tiny_fs 1 6 values tiny ≡ done tt m')
    × Rewrites tiny_fs tiny 1 (2 ∷ []) 6 values m'
write_file-Rewrites_example =
    write_file-Rewrites tiny_fs tiny 1 6 (2 ∷ []) values tiny-IsPlaced tiny-IsFile tiny-flag
      values-AllBytes (omega (arith, tiny-size)) (omega arith)

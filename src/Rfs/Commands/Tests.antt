-- ===== src/Rfs/Commands/Tests.antt =====
-- hw1-fs/main.c: `cat` and `write` of a file of twelve bytes of a small container.
use mipt_kis_linux.Prelude.{◌≡◌, refl, [], ◌∷◌, arith}
use mipt_kis_linux.Rfs.Machine.{Mem, ◌>>◌, done}
use mipt_kis_linux.Rfs.Files.Content.{file_contents}
use mipt_kis_linux.Rfs.Files.Splice.{splice}
use mipt_kis_linux.Rfs.Files.Tests.{values, values-AllBytes, tiny-IsPlaced, tiny-flag}
use mipt_kis_linux.Rfs.Paths.{split_path, measure_path, fill_path, locate_path, locate_from}
use mipt_kis_linux.Rfs.Examples.{tiny, tiny_fs, tiny-IsGeometry, tiny-IsFile, tiny-size}
use mipt_kis_linux.Rfs.Commands.{cat, perform_write}
use mipt_kis_linux.Rfs.Commands.Cat.{LeadsTo, cat-contents}
use mipt_kis_linux.Rfs.Commands.Write.{perform_write-cat}

slash-LeadsTo : (m : Mem) → LeadsTo tiny_fs m (b'/' ∷ []) 1
unfolding split_path measure_path fill_path locate_path locate_from
slash-LeadsTo m = record {
  parts = record { line = []; parts = 0 ∷ []; count = 0 };
  split = refl;
  located = refl;
}

cat-contents_example :
    cat tiny_fs (b'/' ∷ []) tiny ≡ done (file_contents tiny_fs tiny 1 (2 ∷ [])) tiny
cat-contents_example =
    cat-contents tiny-IsGeometry 1 (2 ∷ []) tiny-IsFile (b'/' ∷ []) (slash-LeadsTo tiny)
      (omega (arith, tiny-size))

perform_write-cat_example :
    (m' : Mem) × ((perform_write tiny_fs (b'/' ∷ []) 6 values >> cat tiny_fs (b'/' ∷ [])) tiny
      ≡ done (splice 6 values (file_contents tiny_fs tiny 1 (2 ∷ []))) m')
perform_write-cat_example =
    perform_write-cat tiny_fs tiny 1 (2 ∷ []) (b'/' ∷ []) 6 values tiny-IsPlaced tiny-IsFile
      tiny-flag (λ m' spares. slash-LeadsTo m') values-AllBytes (omega (arith, tiny-size))
      (omega (arith, tiny-size))

-- ===== src/Rfs/Commands/Cat.antt =====
-- hw1-fs/main.c: the rounds of the command `cat`, and what it prints.
use mipt_kis_linux.Prelude.{
  ℕ, zero, suc, ◌+◌, ◌-◌, ◌≤◌, ◌<◌, ◌≡◌, refl, false, true, List, [], arith, ◌==◌, length, take,
  drop, min, length-take, length-drop, drop-next, drop-past, ℕ_discrete,
}
use mipt_kis_linux.Rfs.Machine.{Mem, done, size_mod}
use mipt_kis_linux.Rfs.Layout.{FsDescriptors}
use mipt_kis_linux.Rfs.Files.Content.{
  IsGeometry, IsFile, file_size, file_contents, file_bytes, get_inode_lem,
}
use mipt_kis_linux.Rfs.Files.Read.{read_file-contents}
use mipt_kis_linux.Rfs.Directory.{get_file_size}
use mipt_kis_linux.Rfs.Paths.{FsPath, split_path, locate_path}
use mipt_kis_linux.Rfs.Commands.{buf_size, cat_loop, cat}

-- A path that leads to a block.
pub record LeadsTo (fs : FsDescriptors) (m : Mem) (s_path : List ℕ) (b : ℕ) : Type 0 where
  pub parts : FsPath
  pub split : split_path s_path m ≡ done parts m
  pub located : locate_path fs parts m ≡ done b m

module _ {fs : FsDescriptors} {m : Mem} (geo : IsGeometry fs m) (b : ℕ) (cs : List ℕ)
    (file : IsFile fs m b cs) where
  -- With a buffer of at least a byte, each round moves on, and the rest of the file is printed.
  cat_loop-contents :
      (n size total : ℕ)
      → 0 < size
      → file_size fs m b + size < size_mod
      → total ≤ file_size fs m b
      → file_size fs m b - total < n
      → cat_loop n size fs b total m ≡ done (drop total (file_contents fs m b cs)) m
  unfolding cat_loop
  cat_loop-contents zero size total positive no_wrap start fuel = absurd (omega arith)
  cat_loop-contents (suc n) size total positive no_wrap start fuel =
      let contents = file_contents fs m b cs in
      let part = take size (drop total contents) in
      let whole : length contents ≡ file_size fs m b =
        omega (arith, file.room, length-take (file_size fs m b) (file_bytes fs m b cs)) in
      let count : length part ≡ min size (file_size fs m b - total) =
        omega (arith, length-take size (drop total contents), length-drop total contents, whole) in
      rw (read_file-contents geo b total size cs file start (omega arith))
        (elim (ℕ_discrete (length part) 0) [
          | yes e ↦
              let ended : (length part == 0) ≡ true = ground arith in
              let nothing : drop total contents ≡ [] = drop-past total contents (omega arith) in
              rw (ended, nothing) refl
          | no ne ↦
              let more : (length part == 0) ≡ false = ground arith in
              let rest =
                cat_loop-contents n size (total + length part) positive no_wrap (omega arith)
                  (omega arith) in
              rw (more, rest, drop-next size total contents) refl
        ])

  -- For a path that leads to a file whose chain of blocks has room for its size, where the size
  -- and that of the buffer do not wrap together, `cat` ends, prints the contents of the file and
  -- stores nothing.
  pub cat-contents :
      (s_path : List ℕ)
      → LeadsTo fs m s_path b
      → file_size fs m b + buf_size < size_mod
      → cat fs s_path m ≡ done (file_contents fs m b cs) m
  unfolding cat get_file_size
  cat-contents s_path leads no_wrap =
      rw (leads.split, leads.located, get_inode_lem fs m b file.block)
        (cat_loop-contents (file_size fs m b + 1) buf_size 0 (omega arith) no_wrap (omega arith)
          (omega arith))

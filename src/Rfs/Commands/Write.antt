-- ===== src/Rfs/Commands/Write.antt =====
-- hw1-fs/main.c: the rounds of the command `write`, and what `cat` prints afterwards.
use mipt_kis_linux.Prelude.{
  ℕ, zero, suc, ◌+◌, ◌≤◌, ◌<◌, ◌≡◌, refl, ◌∙◌, ap, false, true, inl, inr, List, [], ◌∷◌, ◌++◌,
  arith, ◌==◌, ltb, length, take, drop, min, length-take, length-drop, take_all, take-append-drop,
  Bool-cases, bit_and, subst,
}
use mipt_kis_linux.Rfs.Machine.{Mem, ◌>>◌, done, load8, add_size, size_mod}
use mipt_kis_linux.Rfs.Machine.Bytes.{AllBytes}
use mipt_kis_linux.Rfs.Layout.{FsDescriptors}
use mipt_kis_linux.Rfs.Table.{block_size}
use mipt_kis_linux.Rfs.Blocks.{block_address, flg_file}
use mipt_kis_linux.Rfs.Files.{write_file}
use mipt_kis_linux.Rfs.Files.Content.{IsFile, file_size, file_contents, file_bytes}
use mipt_kis_linux.Rfs.Files.Disjoint.{file_cells_apart}
use mipt_kis_linux.Rfs.Files.Kept.{IsPlaced, kept_size}
use mipt_kis_linux.Rfs.Files.Splice.{splice, splice-splice}
use mipt_kis_linux.Rfs.Files.Update.{Spares, Spares-Keeps, Rewrites, write_file-Rewrites}
use mipt_kis_linux.Rfs.Commands.{zero_lines, buf_size, write_chunks, perform_write, cat}
use mipt_kis_linux.Rfs.Commands.Cat.{LeadsTo, cat-contents}

-- The flag of a file.
abbrev pub HasFlag : FsDescriptors → Mem → (b : ℕ) → Type 0
HasFlag fs m b = (bit_and (load8 m (block_address fs b m + fs.offset_flags)) flg_file == 0) ≡ false

AllBytes-take : (n : ℕ) (xs : List ℕ) → AllBytes xs → AllBytes (take n xs)
AllBytes-take zero xs small = tt
AllBytes-take (suc n) [] small = tt
AllBytes-take (suc n) (x ∷ xs) small = (small.0, AllBytes-take n xs small.1)

AllBytes-drop : (n : ℕ) (xs : List ℕ) → AllBytes xs → AllBytes (drop n xs)
AllBytes-drop zero xs small = small
AllBytes-drop (suc n) [] small = tt
AllBytes-drop (suc n) (x ∷ xs) small = AllBytes-drop n xs small.1

module _ {fs : FsDescriptors} {m : Mem} {b : ℕ} {cs : List ℕ} (placed : IsPlaced fs m b cs)
    (m' : Mem) (spared : Spares fs m b cs m') where
  spared_size : block_size fs m' ≡ block_size fs m
  spared_size = kept_size placed m' (Spares-Keeps m' placed spared)

  spared-HasFlag : HasFlag fs m b → HasFlag fs m' b
  spared-HasFlag flag =
      let links_count = placed.geo.layout.links_count in
      let last_inode = placed.geo.layout.last_inode in
      let inode_main = placed.geo.layout.inode_main in
      let same : m' (block_address fs b m + fs.offset_flags)
          ≡ m (block_address fs b m + fs.offset_flags) =
        spared _ (
          file_cells_apart fs (block_size fs m) b _ cs placed.apart (omega (arith, placed.geo.room))
            (omega arith) (omega arith)) in
      rw (spared_size, same) flag

  -- Writes of the same file follow one another.
  Rewrites-Rewrites :
      (offset : ℕ) (xs ys : List ℕ) (m'' : Mem)
      → offset + length xs + length ys ≤ length (file_contents fs m b cs)
      → Rewrites fs m b cs offset xs m'
      → Rewrites fs m' b cs (offset + length xs) ys m''
      → Rewrites fs m b cs offset (xs ++ ys) m''
  Rewrites-Rewrites offset xs ys m'' fits first second =
      let (size, contents, file, place, spares) = first in
      let (size', contents', file', place', spares') = second in
      (
        size' ∙ size,
        contents'
            ∙ ap (splice (offset + length xs) ys) contents
            ∙ splice-splice offset xs ys (file_contents fs m b cs) fits,
        file',
        place',
        λ x outside. spares' x (rw spared_size outside) ∙ spares x outside,
      )

-- One round.
module _ (fs : FsDescriptors) (b n size offset : ℕ) (input : List ℕ) (m m' : Mem)
    (wrote : write_file fs b offset (take size input) m ≡ done tt m') where
  last_round :
      ltb (length (take size input)) size ≡ true
      → write_chunks (suc n) size fs b offset input m
        ≡ done (zero_lines (length (take size input)) (take size input) ++ []) m'
  unfolding write_chunks
  last_round short = rw (wrote, short) refl

  next_round :
      {lines : List ℕ} {m'' : Mem}
      → ltb (length (take size input)) size ≡ false
      → offset + length (take size input) < size_mod
      → write_chunks n size fs b (offset + length (take size input)) (drop size input) m'
        ≡ done lines m''
      → write_chunks (suc n) size fs b offset input m
        ≡ done (zero_lines (length (take size input)) (take size input) ++ lines) m''
  unfolding write_chunks
  next_round full no_wrap later =
      let moved : add_size offset (length (take size input)) ≡ offset + length (take size input) =
        omega arith in
      rw (wrote, full, moved, later) refl

-- A write that ends, prints something, and has replaced the values of the input.
abbrev pub Wrote :
    FsDescriptors → Mem → (b : ℕ) → (cs : List ℕ) → (n size offset : ℕ) → List ℕ → Type 0
Wrote fs m b cs n size offset input =
    (lines : List ℕ) × (m' : Mem) × (write_chunks n size fs b offset input m ≡ done lines m')
    × Rewrites fs m b cs offset input m'

pub write_chunks-Rewrites :
    (fs : FsDescriptors) (b : ℕ) (cs : List ℕ) (size n : ℕ) (m : Mem) (offset : ℕ) (input : List ℕ)
    → IsPlaced fs m b cs
    → IsFile fs m b cs
    → HasFlag fs m b
    → AllBytes input
    → offset + length input ≤ file_size fs m b
    → offset + length input < size_mod
    → 0 < size
    → length input < n
    → Wrote fs m b cs n size offset input
write_chunks-Rewrites fs b cs size zero m offset input placed file flag small inside no_wrap
      positive rounds =
    absurd (omega arith)
write_chunks-Rewrites fs b cs size (suc n) m offset input placed file flag small inside no_wrap
      positive rounds =
    let buffer = take size input in
    let count : length buffer ≡ min size (length input) = omega (arith, length-take size input) in
    let (m', wrote, first) =
      write_file-Rewrites fs m b offset cs buffer placed file flag (AllBytes-take size input small)
        (omega arith) (omega arith) in
    elim (Bool-cases (ltb (length buffer) size)) [
      | inl short ↦
          let all : buffer ≡ input = take_all size input (ground arith) in
          let first' : Rewrites fs m b cs offset input m' =
            subst (λ xs. Rewrites fs m b cs offset xs m') all first in
          (
            zero_lines (length buffer) buffer ++ [],
            m',
            last_round fs b n size offset input m m' wrote short,
            first',
          )
      | inr full ↦
          let whole : length (file_contents fs m b cs) ≡ file_size fs m b =
            omega (arith, file.room, length-take (file_size fs m b) (file_bytes fs m b cs)) in
          let left = length-drop size input in
          let filled : length buffer ≡ size = ground arith in
          let (size', contents, file', placed', spares) = first in
          let (lines, m'', later, second) =
            write_chunks-Rewrites fs b cs size n m' (offset + length buffer) (drop size input)
              placed' file' (spared-HasFlag placed m' spares flag) (AllBytes-drop size input small)
              (omega (arith, size')) (omega arith) positive (omega arith) in
          let both =
            Rewrites-Rewrites placed m' spares offset buffer (drop size input) m'' (omega arith)
              first second in
          (
            zero_lines (length buffer) buffer ++ lines,
            m'',
            next_round fs b n size offset input m m' wrote full (omega arith) later,
            subst (λ xs. Rewrites fs m b cs offset xs m'') (take-append-drop size input) both,
          )
    ]

-- For a file whose blocks are different and have room for its size, in a container with the
-- superblock in its first block, and a path that leads to the file however the data of the file
-- change, `write` of an input that does not reach behind the end of the file ends, and `cat` of
-- the same path then prints the old contents with the input in place of the bytes at the offset,
-- where the size and that of a buffer do not wrap together.
pub perform_write-cat :
    (fs : FsDescriptors) (m : Mem) (b : ℕ) (cs : List ℕ) (s_path : List ℕ) (offset : ℕ)
    (input : List ℕ)
    → IsPlaced fs m b cs
    → IsFile fs m b cs
    → HasFlag fs m b
    → ((m' : Mem) → Spares fs m b cs m' → LeadsTo fs m' s_path b)
    → AllBytes input
    → offset + length input ≤ file_size fs m b
    → file_size fs m b + buf_size < size_mod
    → (m' : Mem) × ((perform_write fs s_path offset input >> cat fs s_path) m
        ≡ done (splice offset input (file_contents fs m b cs)) m')
unfolding perform_write
perform_write-cat fs m b cs s_path offset input placed file flag stays small inside no_wrap =
    let leads = stays m (λ x outside. refl) in
    let (lines, m', wrote, rewrites) =
      write_chunks-Rewrites fs b cs buf_size (length input + 1) m offset input placed file flag
        small inside (omega arith) (omega arith) (omega arith) in
    let (size, contents, file', placed', spares) = rewrites in
    let printed =
      cat-contents placed'.geo b cs file' s_path (stays m' spares) (omega (arith, size)) in
    (m', rw (leads.split, leads.located, wrote, printed) (ap (λ bytes. done bytes m') contents))

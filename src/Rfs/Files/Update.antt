-- ===== src/Rfs/Files/Update.antt =====
-- hw1-fs/manage.c: `write_file` replaces bytes of the file.
use mipt_kis_linux.Prelude.{
  ℕ, ◌+◌, ◌*◌, ◌%◌, ◌≤◌, ◌<◌, ◌≡◌, refl, ap, ◌∙◌, sym, subst, some, true, false, inl, inr, List, [],
  ◌∷◌, arith, length, take, drop, member, ◌==◌, length-drop, length-take, Bool-cases, ltb, ge→ltb,
  take-append-drop, bit_and,
}
use mipt_kis_linux.Rfs.Machine.{Mem, Outcome, and_then, ◌>>◌, done, load8, load_le, size_mod}
use mipt_kis_linux.Rfs.Machine.Bytes.{AllBytes, load_le-Agree}
use mipt_kis_linux.Rfs.Layout.{FsDescriptors}
use mipt_kis_linux.Rfs.Table.{block_size}
use mipt_kis_linux.Rfs.Blocks.{block_address, flg_file}
use mipt_kis_linux.Rfs.Files.{Cursor, seek, read_file, write_loop, write_file_unchecked, write_file}
use mipt_kis_linux.Rfs.Files.Content.{
  IsFile, file_size, file_bytes, file_contents, get_inode_lem, inode_fits,
}
use mipt_kis_linux.Rfs.Files.Cells.{
  load_cells, store_cells, store_cells_other, length-load_cells, file_cells,
}
use mipt_kis_linux.Rfs.Files.Place.{IsSuffix, whole, beyond, Places, places, seek-Places}
use mipt_kis_linux.Rfs.Files.Disjoint.{file_cells-Distinct, file_cells-Behind, file_cells_apart}
use mipt_kis_linux.Rfs.Files.Kept.{IsPlaced, Keeps, kept_size, kept-IsPlaced}
use mipt_kis_linux.Rfs.Files.Seek.{file_bytes-cells}
use mipt_kis_linux.Rfs.Files.Read.{read_file-contents}
use mipt_kis_linux.Rfs.Files.Splice.{
  splice, take-splice, take-drop-splice, load_cells-splice, member-append_right,
}
use mipt_kis_linux.Rfs.Files.Write.{store_cells-nil, write_loop-store_cells}

suffix-IsPlaced :
    (fs : FsDescriptors) (m : Mem) (b' : ℕ) (cs' : List ℕ) (b : ℕ) (cs : List ℕ)
    → IsPlaced fs m b cs
    → IsSuffix (b' ∷ cs') (b ∷ cs)
    → IsPlaced fs m b' cs'
suffix-IsPlaced fs m b' cs' b cs placed whole = placed
suffix-IsPlaced fs m b' cs' b [] placed (beyond _ end) = elim end [ ]
suffix-IsPlaced fs m b' cs' b (c ∷ cs) placed (beyond _ end) =
    suffix-IsPlaced fs m b' cs' c cs
      (record {
        geo = placed.geo;
        first = placed.first;
        block = placed.linked.1;
        linked = placed.linked.2;
        apart = placed.apart.1;
      })
      end

length-zero : (xs : List ℕ) → length xs ≡ 0 → xs ≡ []
length-zero [] h = refl
length-zero (x ∷ xs) h = absurd (omega arith)

write_out :
    (fs : FsDescriptors) (m : Mem) (b : ℕ) (cs cells values : List ℕ) {r : Outcome Cursor}
    → IsPlaced fs m b cs
    → length values ≤ length cells
    → Places fs m (b ∷ cs) cells r
    → and_then r (λ c. write_loop (length values + 2) fs c values)
      ≡ done tt (store_cells m cells values)
write_out fs m b cs cells values placed room (places b' o f cs' end link low fits e) = rw (← e) (
    write_loop-store_cells (length values + 2) fs m b' o f cs' values
      (suffix-IsPlaced fs m b' cs' b cs placed end) low fits (rw e room) (omega arith)
      (omega arith))

-- Every byte that is not one of the file's data stays.
abbrev pub Spares : FsDescriptors → Mem → (b : ℕ) → (cs : List ℕ) → Mem → Type 0
Spares fs m b cs m' = (x : ℕ) → member x (file_cells fs (block_size fs m) b cs) ≡ false → m' x ≡ m x

pub Spares-Keeps :
    {fs : FsDescriptors} {m : Mem} {b : ℕ} {cs : List ℕ} (m' : Mem)
    → IsPlaced fs m b cs
    → Spares fs m b cs m'
    → Keeps fs m (b ∷ cs) m'
Spares-Keeps {fs} {m} {b} {cs} m' placed spared x outside =
    spared x (elim (Bool-cases (member x (file_cells fs (block_size fs m) b cs))) [
      | inr e ↦ e
      | inl e ↦ absurd (
          outside (
            file_cells-Behind fs (block_size fs m) b x cs (omega (arith, inode_fits placed.geo)) e))
    ])

module _ {fs : FsDescriptors} {m : Mem} {b : ℕ} {cs : List ℕ} (placed : IsPlaced fs m b cs)
    (offset : ℕ) (values : List ℕ)
    (fits : offset + length values ≤ length (file_cells fs (block_size fs m) b cs)) where
  written : Mem
  written = store_cells m (drop offset (file_cells fs (block_size fs m) b cs)) values

  main_fits : fs.sizeof_inode_main ≤ block_size fs m
  main_fits = omega (arith, placed.geo.room)

  -- An address that is no cell of the file keeps its byte.
  written_other : Spares fs m b cs written
  unfolding written
  written_other x h =
      let all = file_cells fs (block_size fs m) b cs in
      let parts = take-append-drop offset all in
      store_cells_other m (drop offset all) values x
        (elim (Bool-cases (member x (drop offset all))) [
          | inr e ↦ e
          | inl e ↦
              let among : member x all ≡ true =
                subst (λ t. member x t ≡ true) parts
                  (member-append_right x (take offset all) (drop offset all) e) in
              cc
        ])

  written-Keeps : Keeps fs m (b ∷ cs) written
  written-Keeps = Spares-Keeps written placed written_other

  written_size : block_size fs written ≡ block_size fs m
  written_size = kept_size placed written written-Keeps

  written-file_size : file_size fs written b ≡ file_size fs m b
  written-file_size =
      let links_count = placed.geo.layout.links_count in
      let flags = placed.geo.layout.flags in
      let last_inode = placed.geo.layout.last_inode in
      let inode_main = placed.geo.layout.inode_main in
      ap (λ s. load_le 8 written (fs.container + b * s + fs.offset_size)) written_size
      ∙ load_le-Agree 8 written m (block_address fs b m + fs.offset_size) (λ x lo hi.
        written_other x (
          file_cells_apart fs (block_size fs m) b x cs placed.apart main_fits (omega arith)
            (omega arith)))

  written-file_bytes :
      AllBytes values → file_bytes fs written b cs ≡ splice offset values (file_bytes fs m b cs)
  unfolding written
  written-file_bytes small =
      file_bytes-cells fs written b cs
      ∙ ap (λ s. load_cells written (file_cells fs s b cs)) written_size
      ∙ load_cells-splice m offset (file_cells fs (block_size fs m) b cs) values
          (file_cells-Distinct fs (block_size fs m) b cs
            (omega (arith, inode_fits placed.geo, main_fits)) main_fits placed.apart)
          small fits
      ∙ ap (splice offset values) (sym (file_bytes-cells fs m b cs))

  -- The walk and the loop of the write.
  write_loop-written :
      and_then
        (seek fs b (some (block_address fs b m)) offset m)
        (λ c. write_loop (length values + 2) fs c values)
      ≡ done tt written
  unfolding written
  write_loop-written =
      let all = file_cells fs (block_size fs m) b cs in
      write_out fs m b cs (drop offset all) values placed (omega (arith, length-drop offset all))
        (seek-Places placed.geo b offset cs placed.linked (omega arith))

  written_nothing : values ≡ [] → written ≡ m
  unfolding written
  written_nothing none_left =
      let behind = drop offset (file_cells fs (block_size fs m) b cs) in
      ap (store_cells m behind) none_left ∙ store_cells-nil m behind

  write_file-written :
      (bit_and (load8 m (block_address fs b m + fs.offset_flags)) flg_file == 0) ≡ false
      → offset + length values ≤ file_size fs m b
      → offset + length values < size_mod
      → write_file fs b offset values m ≡ done tt written
  unfolding write_file write_file_unchecked
  write_file-written is_file inside no_wrap = elim (Bool-cases (length values == 0)) [
    | inl e ↦
        let none_left : values ≡ [] = length-zero values (ground (arith, e)) in
        rw (get_inode_lem fs m b placed.block, is_file, e)
          (ap (done tt) (sym (written_nothing none_left)))
    | inr e ↦
        let start : ltb (file_size fs m b) offset ≡ false = ge→ltb _ _ (omega arith) in
        let sum : (length values + offset) % size_mod ≡ length values + offset = omega arith in
        let stays : ltb (file_size fs m b) (length values + offset) ≡ false =
          ge→ltb _ _ (omega arith) in
        rw
          (
            get_inode_lem fs m b placed.block,
            is_file,
            e,
            get_inode_lem fs m b placed.block,
            start,
            sum,
            stays,
          )
          write_loop-written
  ]

-- What a write inside a file leaves of it.
abbrev pub Rewrites :
    FsDescriptors → Mem → (b : ℕ) → (cs : List ℕ) → (offset : ℕ) → List ℕ → Mem → Type 0
Rewrites fs m b cs offset values m' =
    (file_size fs m' b ≡ file_size fs m b)
    × (file_contents fs m' b cs ≡ splice offset values (file_contents fs m b cs))
    × IsFile fs m' b cs
    × IsPlaced fs m' b cs
    × Spares fs m b cs m'

-- For a file whose blocks are different and have room for its size, in a container with the
-- superblock in its first block, `write_file` of bytes that do not reach behind the end of the
-- file ends, and the contents of the file are then the old ones with the bytes in place of those
-- at the offset; the size, the chain and every byte outside the data parts of its blocks stay.
pub write_file-Rewrites :
    (fs : FsDescriptors) (m : Mem) (b offset : ℕ) (cs values : List ℕ)
    → IsPlaced fs m b cs
    → IsFile fs m b cs
    → (bit_and (load8 m (block_address fs b m + fs.offset_flags)) flg_file == 0) ≡ false
    → AllBytes values
    → offset + length values ≤ file_size fs m b
    → offset + length values < size_mod
    → (m' : Mem) × (write_file fs b offset values m ≡ done tt m')
      × Rewrites fs m b cs offset values m'
write_file-Rewrites fs m b offset cs values placed file is_file small inside no_wrap =
    let count =
      ap length (file_bytes-cells fs m b cs)
      ∙ length-load_cells m (file_cells fs (block_size fs m) b cs) in
    let room = file.room in
    let fits : offset + length values ≤ length (file_cells fs (block_size fs m) b cs) =
      omega arith in
    let m' = written placed offset values fits in
    let size = written-file_size placed offset values fits in
    let bytes = written-file_bytes placed offset values fits small in
    let placed' = kept-IsPlaced placed m' (written-Keeps placed offset values fits) in
    let total : length (file_bytes fs m' b cs) ≡ length (file_bytes fs m b cs) =
      ap length (file_bytes-cells fs m' b cs)
      ∙ length-load_cells m' (file_cells fs (block_size fs m') b cs)
      ∙ ap (λ s. length (file_cells fs s b cs)) (written_size placed offset values fits)
      ∙ sym count in
    (
      m',
      write_file-written placed offset values fits is_file inside no_wrap,
      (
        size,
        ap (λ n. take n (file_bytes fs m' b cs)) size
            ∙ ap (take (file_size fs m b)) bytes
            ∙ take-splice (file_size fs m b) offset values (file_bytes fs m b cs) inside file.room,
        record {
          block = placed'.block;
          linked = placed'.linked;
          room = rw (size, total) file.room;
        },
        placed',
        written_other placed offset values fits,
      ),
    )

-- For a file whose blocks are different and have room for its size, in a container with the
-- superblock in its first block, bytes that are written inside the file are what `read_file`
-- answers for the same offset and length.
pub read_file-write_file :
    (fs : FsDescriptors) (m : Mem) (b offset : ℕ) (cs values : List ℕ)
    → IsPlaced fs m b cs
    → IsFile fs m b cs
    → (bit_and (load8 m (block_address fs b m + fs.offset_flags)) flg_file == 0) ≡ false
    → AllBytes values
    → offset + length values ≤ file_size fs m b
    → offset + length values < size_mod
    → (m' : Mem) × ((write_file fs b offset values >> read_file fs b offset (length values)) m
        ≡ done (length values, values) m')
read_file-write_file fs m b offset cs values placed file is_file small inside no_wrap =
    let (m', wrote, rewrites) =
      write_file-Rewrites fs m b offset cs values placed file is_file small inside no_wrap in
    let (size, contents, file', placed', kept) = rewrites in
    let old = file_contents fs m b cs in
    let count : length old ≡ file_size fs m b =
      let room = file.room in
      omega (arith, length-take (file_size fs m b) (file_bytes fs m b cs)) in
    let back : take (length values) (drop offset (file_contents fs m' b cs)) ≡ values =
      ap (λ c. take (length values) (drop offset c)) contents
      ∙ take-drop-splice offset values old (omega arith) in
    let answer =
      read_file-contents placed'.geo b offset (length values) cs file' (omega arith) no_wrap in
    (m', rw wrote answer ∙ ap (λ part. done (length part, part) m') back)

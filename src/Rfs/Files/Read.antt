-- ===== src/Rfs/Files/Read.antt =====
-- hw1-fs/manage.c: `read_file` and the contents of the file.
use mipt_kis_linux.Prelude.{
  ℕ, zero, suc, ◌+◌, ◌-◌, ◌%◌, ◌≤◌, ◌<◌, ◌≡◌, refl, ◌∙◌, ap, some, List, [], ◌∷◌, arith, length,
  take, drop, min, length-append, take-append_le, take-append_ge, take-take, drop-take, length-take,
  length-drop, false, true, ge→ltb, dec_le, ℕ_discrete, ltb, ◌==◌, if◌then◌else◌,
}
use mipt_kis_linux.Rfs.Machine.{Mem, Outcome, and_then, ◌>>=◌, pure, done, load_bytes, size_mod}
use mipt_kis_linux.Rfs.Machine.Bytes.{length-load_bytes, take-load_bytes}
use mipt_kis_linux.Rfs.Layout.{FsDescriptors}
use mipt_kis_linux.Rfs.Table.{block_size}
use mipt_kis_linux.Rfs.Blocks.{block_address}
use mipt_kis_linux.Rfs.Files.{Cursor, read_loop, read_part, read_file}
use mipt_kis_linux.Rfs.Files.Content.{
  IsGeometry, Linked, IsFile, tail_bytes, file_bytes, file_size, file_contents, cursor_at,
  bytes_from, advance_lem, available_len_lem, common_pos, get_inode_lem,
}
use mipt_kis_linux.Rfs.Files.Seek.{Seeks, seeks, seek-Seeks}

module _ {fs : FsDescriptors} {m : Mem} (geo : IsGeometry fs m) where
  -- The last round: what is left to read lies in this block.
  read_loop_inside :
      (n b o f l : ℕ) (cs : List ℕ)
      → o + f ≤ block_size fs m
      → suc l ≤ block_size fs m - o - f
      → read_loop (suc n) fs (cursor_at fs m b o f) (suc l) m
        ≡ done (take (suc l) (bytes_from fs m b o f cs)) m
  unfolding read_loop
  read_loop_inside n b o f l cs fits inside =
      let here = block_address fs b m + f + o in
      let size = length-load_bytes (block_size fs m - o - f) m here in
      let all : min (block_size fs m - o - f) (suc l) ≡ suc l = omega arith in
      let more : (suc l == 0) ≡ false = ground arith in
      let last : (suc l - suc l == 0) ≡ true = ground arith in
      rw (
        available_len_lem geo (cursor_at fs m b o f) fits,
        all,
        more,
        last,
        take-append_le (suc l) (load_bytes (block_size fs m - o - f) m here) (tail_bytes fs m cs)
            (omega arith),
        take-load_bytes (suc l) (block_size fs m - o - f) m here inside,
      )

  -- From a cursor the loop copies what the rest of the chain holds.
  read_loop_lem :
      (n b o f len : ℕ) (cs : List ℕ)
      → Linked fs m b cs
      → o + f ≤ block_size fs m
      → len ≤ length (bytes_from fs m b o f cs)
      → 0 < n
      → len < n + (block_size fs m - o - f)
      → read_loop n fs (cursor_at fs m b o f) len m ≡ done (take len (bytes_from fs m b o f cs)) m
  unfolding read_loop tail_bytes
  read_loop_lem zero b o f len cs link fits room pos fuel = absurd (omega arith)
  read_loop_lem (suc n) b o f zero cs link fits room pos fuel = refl
  read_loop_lem (suc n) b o f (suc l) [] link fits room pos fuel =
      let here = block_address fs b m + f + o in
      let size = length-load_bytes (block_size fs m - o - f) m here in
      let parts = length-append (load_bytes (block_size fs m - o - f) m here) [] in
      read_loop_inside n b o f l [] fits (omega arith)
  read_loop_lem (suc n) b o f (suc l) (c ∷ cs) link fits room pos fuel =
      elim (dec_le (suc l) (block_size fs m - o - f)) [
        | yes inside ↦ read_loop_inside n b o f l (c ∷ cs) fits inside
        | no past ↦
            let v = block_size fs m - o - f in
            let positive = common_pos geo in
            let here = block_address fs b m + f + o in
            let size = length-load_bytes v m here in
            let parts = length-append (load_bytes v m here) (tail_bytes fs m (c ∷ cs)) in
            let part : min v (suc l) ≡ v = omega arith in
            let more : (suc l == 0) ≡ false = ground arith in
            let left : (suc l - v == 0) ≡ false = ground arith in
            let e : block_address fs c m + 0 + fs.sizeof_inode
                ≡ block_address fs c m + fs.sizeof_inode =
              omega arith in
            let e' : block_size fs m - fs.sizeof_inode - 0 ≡ block_size fs m - fs.sizeof_inode =
              omega arith in
            let same : bytes_from fs m c fs.sizeof_inode 0 cs ≡ tail_bytes fs m (c ∷ cs) =
              rw (e, e') in
            let rest =
              read_loop_lem n c fs.sizeof_inode 0 (suc l - v) cs link.2 (omega arith)
                (rw same (omega arith)) (omega arith) (omega arith) in
            rw (
              available_len_lem geo (cursor_at fs m b o f) fits,
              part,
              more,
              left,
              advance_lem fs m 0 b c o f cs link,
              rest,
              same,
              take-append_ge (suc l) (load_bytes v m here) (tail_bytes fs m (c ∷ cs)) (omega arith),
              size,
            )
      ]

  copy_out :
      (len : ℕ) (blocks bytes : List ℕ) {r : Outcome Cursor}
      → len ≤ length bytes
      → Seeks fs m blocks bytes r
      → and_then {B = ℕ × List ℕ} r
          (λ c. read_loop (len + 2) fs c len >>= λ buffer. pure (len, buffer))
        ≡ done (len, take len bytes) m
  copy_out len blocks bytes room (seeks b o f cs end link fits e) = rw (← e) (
      rw (read_loop_lem (len + 2) b o f len cs link fits (rw e room) (omega arith) (omega arith))
        refl)

  read_part_lem :
      (b offset len : ℕ) (cs : List ℕ)
      → Linked fs m b cs
      → offset + len ≤ length (file_bytes fs m b cs)
      → read_part fs b (some (block_address fs b m)) offset len m
        ≡ done (len, take len (drop offset (file_bytes fs m b cs))) m
  unfolding read_part
  read_part_lem b offset len cs link room =
      copy_out len (b ∷ cs) (drop offset (file_bytes fs m b cs))
        (omega (arith, length-drop offset (file_bytes fs m b cs)))
        (seek-Seeks geo b offset cs link (omega arith))

-- A read that a call asks for, cut to the contents of the file.
abbrev pub part_of : (offset len : ℕ) → List ℕ → ℕ × List ℕ
part_of offset len contents = let part = take len (drop offset contents) in (length part, part)

module _ {fs : FsDescriptors} {m : Mem} (geo : IsGeometry fs m) where
  part_of-file :
      (b offset len : ℕ) (cs : List ℕ)
      → IsFile fs m b cs
      → part_of offset len (file_contents fs m b cs) ≡ (
        min len (file_size fs m b - offset),
        take (min len (file_size fs m b - offset)) (drop offset (file_bytes fs m b cs)),
      )
  part_of-file b offset len cs file =
      let size = file_size fs m b in
      let bytes = file_bytes fs m b cs in
      let cut : take len (drop offset (take size bytes))
          ≡ take (min len (size - offset)) (drop offset bytes) =
        ap (take len) (drop-take offset size bytes)
        ∙ take-take len (size - offset) (drop offset bytes) in
      let room = file.room in
      let count : length (take (min len (size - offset)) (drop offset bytes))
          ≡ min len (size - offset) =
        omega (
          arith,
          length-take (min len (size - offset)) (drop offset bytes),
          length-drop offset bytes,
        ) in
      rw (cut, count)

  -- For a file whose chain of blocks has room for its size, an offset that is not behind its end,
  -- and an offset and length whose sum does not wrap, `read_file` ends and answers the part of the
  -- file's contents at the offset, cut to the length and to the end of the file, with the number
  -- of its bytes, and stores nothing.
  pub read_file-contents :
      (b offset len : ℕ) (cs : List ℕ)
      → IsFile fs m b cs
      → offset ≤ file_size fs m b
      → offset + len < size_mod
      → read_file fs b offset len m ≡ done (part_of offset len (file_contents fs m b cs)) m
  unfolding read_file
  read_file-contents b offset zero cs file start no_wrap = refl
  read_file-contents b offset (suc l) cs file start no_wrap =
      let size = file_size fs m b in
      let room = file.room in
      let more : (suc l == 0) ≡ false = ground arith in
      let no_wrap' : (offset + suc l) % size_mod ≡ offset + suc l = omega arith in
      let len' = if ltb size (offset + suc l) then size - offset else suc l in
      let cut : len' ≡ min (suc l) (size - offset) = ground arith in
      rw
        (
          more,
          get_inode_lem fs m b file.block,
          part_of-file b offset (suc l) cs file,
          no_wrap',
          cut,
        )
        (elim (ℕ_discrete offset size) [
          | yes e ↦
              let hit : (offset == size) ≡ true = ground arith in
              let nothing : min (suc l) (size - offset) ≡ 0 = omega arith in rw (hit, nothing) refl
          | no ne ↦
              let miss : (offset == size) ≡ false = ground arith in
              rw (
                miss,
                ge→ltb size offset start,
                read_part_lem geo b offset (min (suc l) (size - offset)) cs file.linked
                    (omega arith),
              )
        ])

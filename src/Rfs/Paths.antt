-- ===== src/Rfs/Paths.antt =====
-- hw1-fs/myutil.c: `split_path`, and the walk of a path through the directories.
pub mod Split
use mipt_kis_linux.Prelude.{
  ℕ, zero, suc, ◌+◌, ◌-◌, Bool, true, false, not, List, [], ◌∷◌, ◌++◌, Option, none, some, ◌==◌,
  if◌then◌else◌, length, drop, replicate, get_elem?, ◌&&◌,
}
use mipt_kis_linux.Rfs.Machine.{Cmd, done, fault, pure, ◌>>=◌, die_fatal, invalid_path}
use mipt_kis_linux.Rfs.Layout.{FsDescriptors}
use mipt_kis_linux.Rfs.Directory.{read_directory, find_directory_item, item_at}

-- A text is the list of its bytes, none of them zero.
abbrev pub slash : ℕ
slash = b'/'

-- `struct Path`. `parts` are offsets in `line`, where zeros end the names.
pub record FsPath : Type 0 where
  pub line : List ℕ
  pub parts : List ℕ
  pub count : ℕ

-- `*(p + 1)` at the last character is the zero that ends the text.
abbrev pub next_char : List ℕ → ℕ
next_char [] = 0
next_char (c ∷ cs) = c

-- The first loop: `k` and `len`, or `none` where two slashes meet.
unfoldable pub measure_path : (k len : ℕ) → List ℕ → Option (ℕ × ℕ)
measure_path k len [] = some (k, len)
measure_path k len (c ∷ cs) =
    let rest =
      measure_path (if (c == slash) && not (next_char cs == 0) then k + 1 else k)
        (if c == slash then len else len + 1) cs in
    if (c == slash) && (next_char cs == slash) then none else rest

-- The second loop: the bytes before `line_pointer`, and the offsets stored before `res_pointer`.
unfoldable pub fill_path : (first : Bool) → (line parts : List ℕ) → List ℕ → List ℕ × List ℕ
fill_path first line parts [] = (line, parts)
fill_path first line parts (c ∷ cs) =
    if not (c == slash)
    then fill_path false (line ++ c ∷ []) parts cs
    else if not first && not (next_char cs == 0)
    then fill_path false (line ++ 0 ∷ []) (parts ++ (length line + 1) ∷ []) cs
    else fill_path false line parts cs

-- `calloc` clears the line, so what the loop leaves is zero.
unfoldable pub split_path : List ℕ → Cmd FsPath
split_path path =
    if next_char path == slash
    then (elim (measure_path 0 0 path) [
      | none ↦ die_fatal invalid_path
      | some (k, len) ↦
          let (line, parts) = fill_path true [] (0 ∷ []) path in
          pure (record {
            line = line ++ replicate (len + k - length line) 0;
            parts = parts;
            count = k;
          })
    ])
    else die_fatal invalid_path

-- The text that begins at an offset of a line; `none` if no zero ends it.
unfoldable pub text_in : List ℕ → Option (List ℕ)
text_in [] = none
text_in (b ∷ bs) =
    if b == 0 then some [] else elim (text_in bs) [ none ↦ none | some t ↦ some (b ∷ t) ]

-- `path.parts[i]` as a text, a fault where the array or the line is left.
unfoldable pub part_at : FsPath → ℕ → Cmd (List ℕ)
part_at path i m = elim (get_elem? path.parts i) [
  | none ↦ fault m
  | some offset ↦ elim (text_in (drop offset path.line)) [ none ↦ fault m | some t ↦ done t m ]
]

-- The loop of `locate_path`, from part `i` on, with the rounds that are left.
unfoldable pub locate_from : (rounds i : ℕ) → FsDescriptors → FsPath → ℕ → Cmd ℕ
locate_from zero i fs path next_inode = pure next_inode
locate_from (suc n) i fs path next_inode = do
  root ← read_directory fs next_inode
  name ← part_at path i
  item_index ← find_directory_item root name
  item ← item_at root item_index
  locate_from n (i + 1) fs path item.inode

unfoldable pub locate_path : FsDescriptors → FsPath → Cmd ℕ
locate_path fs path = locate_from path.count 0 fs path fs.root_inode

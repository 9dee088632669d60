-- ===== src/Rfs/Paths/Split.antt =====
-- hw1-fs/myutil.c: `split_path` on the path of given names.
use mipt_kis_linux.Prelude.{
  ℕ, zero, suc, ◌+◌, ◌-◌, ◌≡◌, refl, ap, sym, ◌∙◌, true, false, List, [], ◌∷◌, ◌++◌, some, arith,
  length, drop, length-append, append-nil, append_assoc, get_elem?, drop-append, ◌==◌,
}
use mipt_kis_linux.Rfs.Machine.{Mem, done}
use mipt_kis_linux.Rfs.Paths.{FsPath, slash, measure_path, fill_path, split_path, text_in, part_at}

-- A byte that stands in names.
abbrev NameByte : ℕ → Type 0
NameByte c = ((c == slash) ≡ false) × ((c == 0) ≡ false)

abbrev NameBytes : List ℕ → Type 0
NameBytes [] = Unit
NameBytes (c ∷ cs) = NameByte c × NameBytes cs

-- A name that a part of a path can be: one byte at least, without slashes and zeros.
abbrev pub IsName : List ℕ → Type 0
IsName [] = ⊥
IsName (c ∷ cs) = NameByte c × NameBytes cs

abbrev pub AllNames : List (List ℕ) → Type 0
AllNames [] = Unit
AllNames (n ∷ ns) = IsName n × AllNames ns

-- The path of names from the root, and the space that they take.
abbrev pub path_of : List (List ℕ) → List ℕ
path_of [] = []
path_of (n ∷ ns) = slash ∷ (n ++ path_of ns)

abbrev pub count : List (List ℕ) → ℕ
count [] = 0
count (n ∷ ns) = suc (count ns)

abbrev total : List (List ℕ) → ℕ
total [] = 0
total (n ∷ ns) = length n + total ns

abbrev line_of : List (List ℕ) → List ℕ
line_of [] = []
line_of (n ∷ ns) = n ++ (0 ∷ line_of ns)

abbrev tail_line : List (List ℕ) → List ℕ
tail_line [] = []
tail_line (n ∷ ns) = 0 ∷ (n ++ tail_line ns)

abbrev offsets : ℕ → List (List ℕ) → List ℕ
offsets from [] = []
offsets from (n ∷ ns) = from ∷ offsets (from + length n + 1) ns

measure_name :
    (k len : ℕ) (name rest : List ℕ)
    → NameBytes name
    → measure_path k len (name ++ rest) ≡ measure_path k (len + length name) rest
unfolding measure_path
measure_name k len [] rest h = ap (λ n. measure_path k n rest) (omega arith)
measure_name k len (c ∷ cs) rest h =
    rw (h.0.0)
      (measure_name k (len + 1) cs rest h.1 ∙ ap (λ n. measure_path k n rest) (omega arith))

measure_path_of :
    (k len : ℕ) (names : List (List ℕ))
    → AllNames names
    → measure_path k len (path_of names) ≡ some (k + count names, len + total names)
unfolding measure_path
measure_path_of k len [] h =
    ap (λ p. some p)
      (let e : k + 0 ≡ k = omega arith in let e' : len + 0 ≡ len = omega arith in rw (e, e') refl)
measure_path_of k len ([] ∷ ns) h = absurd h.0
measure_path_of k len ((c ∷ cs) ∷ ns) h =
    let a : k + 1 + count ns ≡ k + suc (count ns) = omega arith in
    let b : len + length (c ∷ cs) + total ns ≡ len + (length (c ∷ cs) + total ns) = omega arith in
    rw (h.0.0.0, h.0.0.1)
      (measure_name (k + 1) (len + 1) cs (path_of ns) h.0.1
        ∙ measure_path_of (k + 1) (len + 1 + length cs) ns h.1
        ∙ ap (λ p. some p)
            (let b : len + 1 + length cs + total ns ≡ len + (length (c ∷ cs) + total ns) =
                omega arith in
              rw (a, b) refl))

fill_name :
    (line parts name rest : List ℕ)
    → NameBytes name
    → fill_path false line parts (name ++ rest) ≡ fill_path false (line ++ name) parts rest
unfolding fill_path
fill_name line parts [] rest h = rw (append-nil line) refl
fill_name line parts (c ∷ cs) rest h = rw (h.0.0) (
    fill_name (line ++ c ∷ []) parts cs rest h.1
    ∙ ap (λ l. fill_path false l parts rest) (append_assoc line (c ∷ []) cs))

fill_path_of :
    (line parts : List ℕ) (names : List (List ℕ))
    → AllNames names
    → fill_path false line parts (path_of names)
      ≡ (line ++ tail_line names, parts ++ offsets (length line + 1) names)
unfolding fill_path
fill_path_of line parts [] h = rw (append-nil line, append-nil parts) refl
fill_path_of line parts ([] ∷ ns) h = absurd h.0
fill_path_of line parts ((c ∷ cs) ∷ ns) h =
    let n = c ∷ cs in
    let line' = (line ++ 0 ∷ []) ++ n in
    let a : line' ++ tail_line ns ≡ line ++ 0 ∷ (n ++ tail_line ns) =
      append_assoc (line ++ 0 ∷ []) n (tail_line ns)
      ∙ append_assoc line (0 ∷ []) (n ++ tail_line ns) in
    let size : length line' + 1 ≡ length line + 1 + length n + 1 =
      omega (arith, length-append (line ++ 0 ∷ []) n, length-append line (0 ∷ [])) in
    let b : (parts ++ (length line + 1) ∷ []) ++ offsets (length line' + 1) ns
        ≡ parts ++ (length line + 1) ∷ offsets (length line + 1 + length n + 1) ns =
      append_assoc parts ((length line + 1) ∷ []) (offsets (length line' + 1) ns)
      ∙ ap (λ k. parts ++ (length line + 1) ∷ offsets k ns) size in
    rw (h.0.0.1) (
      fill_name (line ++ 0 ∷ []) (parts ++ (length line + 1) ∷ []) n (path_of ns) h.0
      ∙ fill_path_of line' (parts ++ (length line + 1) ∷ []) ns h.1
      ∙ ap (λ l. (l, (parts ++ (length line + 1) ∷ []) ++ offsets (length line' + 1) ns)) a
      ∙ ap (λ p. (line ++ 0 ∷ (n ++ tail_line ns), p)) b)

-- The line ends each name with a zero.
tail_line_lem : (names : List (List ℕ)) → tail_line names ++ 0 ∷ [] ≡ 0 ∷ line_of names
tail_line_lem [] = refl
tail_line_lem (n ∷ ns) =
    ap (λ l. 0 ∷ l) (append_assoc n (tail_line ns) (0 ∷ []) ∙ ap (λ l. n ++ l) (tail_line_lem ns))

length-tail_line : (names : List (List ℕ)) → length (tail_line names) ≡ count names + total names
length-tail_line [] = refl
length-tail_line (n ∷ ns) = omega (arith, length-append n (tail_line ns), length-tail_line ns)

text_in_name : (name rest : List ℕ) → NameBytes name → text_in (name ++ 0 ∷ rest) ≡ some name
unfolding text_in
text_in_name [] rest h = refl
text_in_name (c ∷ cs) rest h = rw (h.0.1, text_in_name cs rest h.1) refl

-- The path that `split_path` makes of some names.
abbrev pub split_of : List (List ℕ) → FsPath
split_of names = record { line = line_of names; parts = offsets 0 names; count = count names }

split_path_names :
    (n : List ℕ) (ns : List (List ℕ)) (m : Mem)
    → AllNames (n ∷ ns)
    → split_path (path_of (n ∷ ns)) m ≡ done (split_of (n ∷ ns)) m
unfolding split_path
split_path_names [] ns m h = absurd h.0
split_path_names (c ∷ cs) ns m h =
    let n = c ∷ cs in
    let measured = measure_path_of 0 0 (n ∷ ns) h in
    let filled : fill_path true [] (0 ∷ []) (path_of (n ∷ ns))
        ≡ (n ++ tail_line ns, 0 ∷ offsets (length n + 1) ns) =
      unfold fill_path in
      (fill_name [] (0 ∷ []) n (path_of ns) h.0 ∙ fill_path_of n (0 ∷ []) ns h.1) in
    let pad : 0 + total (n ∷ ns) + (0 + count (n ∷ ns)) - length (n ++ tail_line ns) ≡ 1 =
      omega (arith, length-append n (tail_line ns), length-tail_line ns) in
    let line : (n ++ tail_line ns) ++ 0 ∷ [] ≡ line_of (n ∷ ns) =
      append_assoc n (tail_line ns) (0 ∷ []) ∙ ap (λ l. n ++ l) (tail_line_lem ns) in
    let counted : 0 + count (n ∷ ns) ≡ count (n ∷ ns) = omega arith in
    let first : 0 + length n + 1 ≡ length n + 1 = omega arith in
    rw (measured, filled, pad) (rw (line, counted, first) refl)

text_of_part :
    (before : List ℕ) (names : List (List ℕ)) (i : ℕ) (name : List ℕ)
    → AllNames names
    → get_elem? names i ≡ some name
    → (offset : ℕ) × (get_elem? (offsets (length before) names) i ≡ some offset)
      × (text_in (drop offset (before ++ line_of names)) ≡ some name)
text_of_part before [] i name h e = cc
text_of_part before ([] ∷ ns) i name h e = absurd h.0
text_of_part before ((c ∷ cs) ∷ ns) zero name h e = (
  length before,
  refl,
  rw (drop-append before) (unfold text_in in text_in_name (c ∷ cs) (line_of ns) h.0 ∙ e),
)
text_of_part before ((c ∷ cs) ∷ ns) (suc i) name h e =
    let n = c ∷ cs in
    let before' = before ++ (n ++ 0 ∷ []) in
    let (offset, at, part) = text_of_part before' ns i name h.1 e in
    let size : length before' ≡ length before + length n + 1 =
      omega (arith, length-append before (n ++ 0 ∷ []), length-append n (0 ∷ [])) in
    let line : before' ++ line_of ns ≡ before ++ line_of (n ∷ ns) =
      append_assoc before (n ++ 0 ∷ []) (line_of ns)
      ∙ ap (λ l. before ++ l) (append_assoc n (0 ∷ []) (line_of ns)) in
    (offset, rw (sym size) at, rw (sym line) part)

-- For one name or more, each of one byte at least and without slashes and zeros, `split_path`
-- splits the path of the names into as many parts, part `i` reads as name `i`, and nothing is
-- stored.
pub split_path-path_of :
    (n : List ℕ) (ns : List (List ℕ)) (m : Mem)
    → AllNames (n ∷ ns)
    → (path : FsPath) × (split_path (path_of (n ∷ ns)) m ≡ done path m)
      × (path.count ≡ count (n ∷ ns))
      × ((i : ℕ) (name : List ℕ)
          → get_elem? (n ∷ ns) i ≡ some name
          → part_at path i m ≡ done name m)
unfolding part_at
split_path-path_of n ns m h = (
  split_of (n ∷ ns),
  split_path_names n ns m h,
  refl,
  λ i name e. let (offset, at, part) = text_of_part [] (n ∷ ns) i name h e in rw (at, part) refl,
)

-- ===== src/Netfs/Socket/Pieces.antt =====
-- hw2-netfs/src/serialization.c: `safe_read` on the pieces of a stream.
use mipt_kis_linux.Prelude.{
  ℕ, zero, suc, ◌-◌, ◌<◌, ◌≤◌, ◌≡◌, refl, true, false, List, [], ◌∷◌, ◌++◌, Option, some, arith,
  ◌==◌, leb, length, take, drop, length-append, length-take, dec_le, length-drop, append-nil,
  take-append_ge, take-append_le, drop-append_ge, drop-append_le,
}
use mipt_kis_linux.Netfs.Socket.{got, Socket, read_some, after_piece, read_rounds, safe_read}

-- The socket hands over these bytes first, in pieces of a byte at least.
pub data Delivers : List ℕ → Socket → Type 0 where
  end : (s : Socket) → Delivers [] s
  piece :
      (b : ℕ) (bs rest : List ℕ) (s : Socket)
      → Delivers rest s
      → Delivers (b ∷ (bs ++ rest)) (got (b ∷ bs) ∷ s)

Delivers-piece :
    (p rest : List ℕ) (s : Socket)
    → 0 < length p
    → Delivers rest s
    → Delivers (p ++ rest) (got p ∷ s)
Delivers-piece [] rest s h d = absurd (omega arith)
Delivers-piece (b ∷ bs) rest s h d = piece b bs rest s d

-- A number of bytes from the front of a stream.
abbrev pub Takes : (n : ℕ) (bytes : List ℕ) → Option (List ℕ) × Socket → Type 0
Takes n bytes r = (s : Socket) × (r ≡ (some (take n bytes), s)) × Delivers (drop n bytes) s

read_rounds-none : (n : ℕ) (s : Socket) → read_rounds n 0 s ≡ (some [], s)
unfolding read_rounds
read_rounds-none zero s = refl
read_rounds-none (suc n) s = refl

take-whole :
    (need : ℕ) (p rest : List ℕ) (r : Option (List ℕ) × Socket)
    → length p ≤ need
    → Takes (need - length p) rest r
    → Takes need (p ++ rest) (after_piece p r)
take-whole need p rest r h (s, e, d) =
    (s, rw (e, take-append_ge need p rest h) refl, rw (drop-append_ge need p rest h) d)

read_rounds-Takes :
    (fuel need : ℕ) (bytes : List ℕ) (s : Socket)
    → Delivers bytes s
    → need ≤ length bytes
    → need ≤ fuel
    → Takes need bytes (read_rounds fuel need s)
unfolding read_rounds read_some
read_rounds-Takes zero need bytes s d room enough =
    let e : need ≡ 0 = omega arith in rw e (s, refl, d)
read_rounds-Takes (suc n) need _ _ (end s) room enough =
    let e : need ≡ 0 = omega arith in rw e (s, refl, end s)
read_rounds-Takes (suc n) need _ _ (piece b bs rest s d) room enough = elim (dec_le need 0) [
  | yes none_left ↦ let e : need ≡ 0 = omega arith in rw e (_, refl, piece b bs rest s d)
  | no some_left ↦
      let more : (need == 0) ≡ false = ground arith in
      elim (dec_le (length (b ∷ bs)) need) [
        | yes whole ↦
            let fits : leb (length (b ∷ bs)) need ≡ true = ground arith in
            let some_read : (length (b ∷ bs) == 0) ≡ false = ground arith in
            rw (more, fits, some_read, fits)
              (take-whole need (b ∷ bs) rest (read_rounds n (need - length (b ∷ bs)) s) whole (
                read_rounds-Takes n (need - length (b ∷ bs)) rest s d
                  (omega (arith, length-append bs rest)) (omega arith)))
        | no part ↦
            let short : leb (length (b ∷ bs)) need ≡ false = ground arith in
            let count : length (take need (b ∷ bs)) ≡ need =
              omega (arith, length-take need (b ∷ bs)) in
            let done_now : need - need ≡ 0 = omega arith in
            rw (more, short, count, more, short, count, done_now)
              (cut-piece need b bs rest s n (omega arith) d)
      ]
]
  where
    cut-piece :
        (need b : ℕ) (bs rest : List ℕ) (s : Socket) (n : ℕ)
        → need < length (b ∷ bs)
        → Delivers rest s
        → Takes need
            (b ∷ (bs ++ rest))
            (after_piece (take need (b ∷ bs)) (read_rounds n 0 (got (drop need (b ∷ bs)) ∷ s)))
    cut-piece need b bs rest s n h d = (
      got (drop need (b ∷ bs)) ∷ s,
      rw
          (
            read_rounds-none n (got (drop need (b ∷ bs)) ∷ s),
            append-nil,
            take-append_le need (b ∷ bs) rest (omega arith),
          )
          refl,
      rw (drop-append_le need (b ∷ bs) rest (omega arith))
          (Delivers-piece (drop need (b ∷ bs)) rest s (omega (arith, length-drop need (b ∷ bs))) d),
    )

-- From a socket whose stream has enough bytes, `safe_read` ends and reads the front of the stream,
-- whatever the pieces are, and the rest is what comes next.
pub safe_read-Takes :
    (len : ℕ) (bytes : List ℕ) (s : Socket)
    → Delivers bytes s
    → len ≤ length bytes
    → Takes len bytes (safe_read len s)
unfolding safe_read
safe_read-Takes len bytes s d room = read_rounds-Takes len len bytes s d room (omega arith)

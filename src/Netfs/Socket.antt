-- ===== src/Netfs/Socket.antt =====
-- hw2-netfs/src/serialization.c: reading a number of bytes from a socket that hands them over in
-- pieces.
pub mod Pieces
use mipt_kis_linux.Prelude.{
  ℕ, zero, suc, ◌+◌, ◌-◌, List, [], ◌∷◌, ◌++◌, Option, none, some, ◌==◌, leb, true, false,
  if◌then◌else◌, length, take, drop,
}

-- What the next calls of `read` find: a piece of the stream, or an error. Behind them the stream ends.
pub data Delivery : Type 0 where
  got : List ℕ → Delivery
  failed : Delivery

abbrev pub Socket : Type 0
Socket = List Delivery

-- `read(fd, buf, n)`: the bytes, or `none` where `errno` is set.
unfoldable pub read_some : ℕ → Socket → Option (List ℕ) × Socket
read_some n [] = (some [], [])
read_some n (failed ∷ s) = (none, s)
read_some n (got piece ∷ s) =
    if leb (length piece) n then (some piece, s) else (some (take n piece), got (drop n piece) ∷ s)

-- `actually_got` bytes in front of what the later rounds read.
abbrev pub after_piece : List ℕ → Option (List ℕ) × Socket → Option (List ℕ) × Socket
after_piece piece (none, s) = (none, s)
after_piece piece (some rest, s) = (some (piece ++ rest), s)

-- `while (ready < len)`, with `need` for `len - ready`. Each round but the last reads a byte at
-- least, so `len` rounds are enough.
unfoldable pub read_rounds : (fuel need : ℕ) → Socket → Option (List ℕ) × Socket
read_rounds zero need s = (some [], s)
read_rounds (suc n) need s =
    let (actually_got, s') = read_some need s in
    if need == 0 then (some [], s) else elim actually_got [
      | none ↦ (none, s')
      | some piece ↦ elim (length piece == 0) [
        | true ↦ (none, s')
        | false ↦ after_piece piece (read_rounds n (need - length piece) s')
      ]
    ]

unfoldable pub safe_read : (len : ℕ) → Socket → Option (List ℕ) × Socket
safe_read len s = read_rounds len len s

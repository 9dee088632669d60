-- ===== src/Rfs/Table/Bits.antt =====
-- The bits of one byte of the lookup table of hw1-fs/manage.c.
use mipt_kis_linux.Prelude.{
  ℕ, zero, suc, ◌^◌, ◌<◌, ◌≡◌, refl, Bool, true, false, ◌&&◌, not, ◌==◌, ltb, if◌then◌else◌, arith,
  bit_and, ltb→lt, ℕ_discrete,
}
use mipt_kis_linux.Rfs.Table.{mark_bit}

-- A test of the numbers `0 .. n`, done by evaluation.
each : (ℕ → Bool) → ℕ → Bool
each test zero = true
each test (suc n) = each test n && test n

&&-both : (a b : Bool) → (a && b) ≡ true → (a ≡ true) × (b ≡ true)
&&-both true b both = (refl, both)
&&-both false b both = cc

each-member : (test : ℕ → Bool) (n x : ℕ) → x < n → each test n ≡ true → test x ≡ true
unfolding each
each-member test zero x small all = absurd (omega arith)
each-member test (suc n) x small all =
    let (earlier, last) = &&-both (each test n) (test n) all in
    elim (ℕ_discrete x n) [
      | yes e ↦ rw e last
      | no other ↦ each-member test n x (omega arith) earlier
    ]

abbrev pub bit_set : ℕ → ℕ → Bool
bit_set byte k = not (bit_and byte (2 ^ k) == 0)

abbrev same : Bool → Bool → Bool
same true b = b
same false b = not b

same_eq : (a b : Bool) → same a b ≡ true → a ≡ b
same_eq a b h = ground arith

-- Marking a bit sets or clears this bit, no other, and stays a byte.
abbrev marks : ℕ → ℕ → Bool → ℕ → Bool
marks byte k occupied j =
    same (bit_set (mark_bit occupied byte k) j) (if j == k then occupied else bit_set byte j)

abbrev stays : ℕ → ℕ → Bool → Bool
stays byte k occupied = ltb (mark_bit occupied byte k) 256

table_marks :
    each (λ b. each (λ k. each (λ j. marks b k true j && marks b k false j) 8) 8) 256 ≡ true
unfolding each mark_bit
table_marks = refl

table_stays : each (λ b. each (λ k. stays b k true && stays b k false) 8) 256 ≡ true
unfolding each mark_bit
table_stays = refl

pub mark_bit-bit_set :
    (byte k j : ℕ) (occupied : Bool)
    → byte < 256
    → k < 8
    → j < 8
    → bit_set (mark_bit occupied byte k) j ≡ (if j == k then occupied else bit_set byte j)
mark_bit-bit_set byte k j occupied hb hk hj = same_eq _ _ (
    choose occupied
      (each-member _ 8 j hj (each-member _ 8 k hk (each-member _ 256 byte hb table_marks))))
  where
    choose :
        (o : Bool) → (marks byte k true j && marks byte k false j) ≡ true → marks byte k o j ≡ true
    choose true h = ground arith
    choose false h = ground arith

pub mark_bit-lt :
    (byte k : ℕ) (occupied : Bool) → byte < 256 → k < 8 → mark_bit occupied byte k < 256
mark_bit-lt byte k occupied hb hk =
    ltb→lt _ _ (choose occupied (each-member _ 8 k hk (each-member _ 256 byte hb table_stays)))
  where
    choose : (o : Bool) → (stays byte k true && stays byte k false) ≡ true → stays byte k o ≡ true
    choose true h = ground arith
    choose false h = ground arith

-- ===== src/Phonedir/Record/Bytes.antt =====
-- hw3-kernel/kernel/phonedir.h: a record and its bytes.
use mipt_kis_linux.Prelude.{
  ℕ, ◌-◌, ◌^◌, ◌≤◌, ◌<◌, ◌≡◌, refl, ◌∙◌, ap, List, ◌++◌, arith, length, take, drop, take-append_le,
  take_all, drop-append_ge, length-append, le_bytes, le_value, length-le_bytes, le_value-le_bytes,
}
use mipt_kis_linux.Phonedir.Record.{PhonedirRecord, record_bytes, record_of}

-- The arrays of a record have the sizes of phonedir.h.
pub record IsRecord (r : PhonedirRecord) : Type 0 where
  pub surname : length r.surname ≡ 128
  pub name : length r.name ≡ 128
  pub email : length r.email ≡ 64
  pub phone : length r.phone ≡ 64

pub length-record_bytes : (r : PhonedirRecord) → IsRecord r → length (record_bytes r) ≡ 388
unfolding record_bytes
length-record_bytes r h =
    let tail = le_bytes 4 r.age in
    omega (
      arith,
      h.surname,
      h.name,
      h.email,
      h.phone,
      length-le_bytes 4 r.age,
      length-append r.phone tail,
      length-append r.email (r.phone ++ tail),
      length-append r.name (r.email ++ (r.phone ++ tail)),
      length-append r.surname (r.name ++ (r.email ++ (r.phone ++ tail))),
    )

-- The front of a list whose length is known, and what lies behind it.
pub take_front : (n : ℕ) (xs ys : List ℕ) → length xs ≡ n → take n (xs ++ ys) ≡ xs
take_front n xs ys e = take-append_le n xs ys (omega arith) ∙ take_all n xs (omega arith)

pub drop_front :
    (n k : ℕ) (xs ys : List ℕ) → length xs ≡ n → n ≤ k → drop k (xs ++ ys) ≡ drop (k - n) ys
drop_front n k xs ys e h = drop-append_ge k xs ys (omega arith) ∙ rw e refl

-- A record whose arrays have the sizes of phonedir.h and whose age is an unsigned 32-bit number
-- comes back from its bytes.
pub record_of-record_bytes :
    (r : PhonedirRecord) → IsRecord r → r.age < 2 ^ 32 → record_of (record_bytes r) ≡ r
unfolding record_of record_bytes
record_of-record_bytes r h small =
    let age = le_bytes 4 r.age in
    let phone = r.phone ++ age in
    let email = r.email ++ phone in
    let name = r.name ++ email in
    let whole = r.surname ++ name in
    let surname' : take 128 whole ≡ r.surname = take_front 128 r.surname name h.surname in
    let name' : take 128 (drop 128 whole) ≡ r.name =
      rw (drop_front 128 128 r.surname name h.surname (omega arith))
        (take_front 128 r.name email h.name) in
    let email' : take 64 (drop 256 whole) ≡ r.email =
      rw
        (
          drop_front 128 256 r.surname name h.surname (omega arith),
          drop_front 128 128 r.name email h.name (omega arith),
        )
        (take_front 64 r.email phone h.email) in
    let phone' : take 64 (drop 320 whole) ≡ r.phone =
      rw
        (
          drop_front 128 320 r.surname name h.surname (omega arith),
          drop_front 128 192 r.name email h.name (omega arith),
          drop_front 64 64 r.email phone h.email (omega arith),
        )
        (take_front 64 r.phone age h.phone) in
    let age' : take 4 (drop 384 whole) ≡ age =
      rw
        (
          drop_front 128 384 r.surname name h.surname (omega arith),
          drop_front 128 256 r.name email h.name (omega arith),
          drop_front 64 128 r.email phone h.email (omega arith),
          drop_front 64 64 r.phone age h.phone (omega arith),
        )
        (take_all 4 age (omega (arith, length-le_bytes 4 r.age))) in
    λ i. record {
      surname = surname' i;
      name = name' i;
      email = email' i;
      phone = phone' i;
      age = (ap le_value age' ∙ le_value-le_bytes 4 r.age small) i;
    }

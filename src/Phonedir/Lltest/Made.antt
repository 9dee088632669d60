-- ===== src/Phonedir/Lltest/Made.antt =====
-- hw3-kernel/client/lltest.cpp: the record that is made of the arguments is whole.
use mipt_kis_linux.Prelude.{
  ℕ, ◌+◌, ◌-◌, ◌<◌, ◌^◌, ◌≡◌, inl, inr, Bool-cases, List, arith, length, length-append,
  length-replicate, replicate, ltb, ltb→ge,
}
use mipt_kis_linux.Phonedir.Record.{PhonedirRecord}
use mipt_kis_linux.Phonedir.Record.Bytes.{IsRecord}
use mipt_kis_linux.Phonedir.Client.{Result, ok, err, ◌>>=◌, make_record, copy_normalized}

-- An array that is made has its size, and a record that is made is whole.
abbrev Sized : (maxlen : ℕ) → Result (List ℕ) → Type 0
Sized maxlen (ok array) = length array ≡ maxlen
Sized maxlen (err e) = Unit

copy_normalized-Sized :
    (source : List ℕ) (maxlen : ℕ) → Sized maxlen (copy_normalized source maxlen)
unfolding copy_normalized
copy_normalized-Sized source maxlen = elim (Bool-cases (ltb maxlen (length source + 1))) [
  | inl long ↦ rw long tt
  | inr short ↦ rw short (
      omega (
        arith,
        ltb→ge maxlen (length source + 1) short,
        length-append source (replicate (maxlen - length source) 0),
        length-replicate {A = ℕ} (maxlen - length source) 0,
      ))
]

abbrev pub IsMade : Result PhonedirRecord → Type 0
IsMade (ok r) = IsRecord r × (r.age < 2 ^ 32)
IsMade (err e) = Unit

pub make_record-IsMade :
    (surname name phone email : List ℕ) (age : ℕ)
    → age < 2 ^ 32
    → IsMade (make_record surname name phone email age)
unfolding make_record
make_record-IsMade surname name phone email age small =
    made (copy_normalized surname 128) (copy_normalized name 128) (copy_normalized email 64)
      (copy_normalized phone 64) (copy_normalized-Sized surname 128)
      (copy_normalized-Sized name 128) (copy_normalized-Sized email 64)
      (copy_normalized-Sized phone 64)
  where
    made :
        (s n m p : Result (List ℕ))
        → Sized 128 s
        → Sized 128 n
        → Sized 64 m
        → Sized 64 p
        → IsMade (do
          surname' ← s
          name' ← n
          email' ← m
          phone' ← p
          ok (record {
            surname = surname';
            name = name';
            email = email';
            phone = phone';
            age = age;
          }))
    made (err e) n m p hs hn hm hp = tt
    made (ok s) (err e) m p hs hn hm hp = tt
    made (ok s) (ok n) (err e) p hs hn hm hp = tt
    made (ok s) (ok n) (ok m) (err e) hs hn hm hp = tt
    made (ok s) (ok n) (ok m) (ok p) hs hn hm hp =
        (record { surname = hs; name = hn; email = hm; phone = hp }, small)

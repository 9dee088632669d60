-- ===== src/Phonedir/Client/Laws.antt =====
-- hw3-kernel/client: what is sent for the texts that are given.
use mipt_kis_linux.Prelude.{
  ℕ, suc, ◌+◌, ◌-◌, ◌<◌, ◌≤◌, ◌≡◌, refl, ap, ◌∙◌, true, false, List, ◌∷◌, ◌++◌, arith, length,
  replicate, length-append, length-replicate, ltb, IsText, text_of, text_of-text,
}
use mipt_kis_linux.Phonedir.Record.{PhonedirRecord, record_bytes}
use mipt_kis_linux.Phonedir.Record.Bytes.{IsRecord}
use mipt_kis_linux.Phonedir.Client.{
  ok, err, surname_too_long, surname_to_op_string, copy_normalized, make_record, add_payload,
  search_payload, delete_payload,
}
use mipt_kis_linux.Phonedir.Device.Names.{padded}

-- An array of `maxlen` bytes that holds a text and ends it.
pub record Holds (source : List ℕ) (maxlen : ℕ) (array : List ℕ) : Type 0 where
  pub size : length array ≡ maxlen
  pub text : text_of array ≡ source

-- A text that is shorter than its array is copied and ended.
copy_normalized-Holds :
    (source : List ℕ) (maxlen : ℕ)
    → IsText source
    → length source < maxlen
    → (array : List ℕ) × (copy_normalized source maxlen ≡ ok array) × Holds source maxlen array
unfolding copy_normalized
copy_normalized-Holds source maxlen text short =
    let fits : ltb maxlen (length source + 1) ≡ false = ground arith in
    let e : maxlen - length source ≡ suc (maxlen - length source - 1) = omega arith in
    (
      source ++ replicate (maxlen - length source) 0,
      rw fits refl,
      record {
        size = omega (
          arith,
          length-append source (replicate (maxlen - length source) 0),
          length-replicate {A = ℕ} (maxlen - length source) 0,
        );
        text =
            ap (λ n. text_of (source ++ replicate n 0)) e
            ∙ text_of-text source (replicate (maxlen - length source - 1) 0) text;
      },
    )

-- When the four texts are shorter than their arrays, what a client sends to add a record is the
-- operation and the bytes of a whole record that holds the four texts and the age.
pub add_payload-Holds :
    (surname name phone email : List ℕ) (age : ℕ)
    → IsText surname
    → IsText name
    → IsText phone
    → IsText email
    → length surname < 128
    → length name < 128
    → length phone < 64
    → length email < 64
    → (r : PhonedirRecord) × (add_payload surname name phone email age ≡ ok (1 ∷ record_bytes r))
      × IsRecord r
      × (text_of r.surname ≡ surname)
      × (text_of r.name ≡ name)
      × (text_of r.phone ≡ phone)
      × (text_of r.email ≡ email)
      × (r.age ≡ age)
unfolding add_payload make_record
add_payload-Holds surname name phone email age ts tn tp te ls ln lp le =
    let (s, es, hs) = copy_normalized-Holds surname 128 ts ls in
    let (n, en, hn) = copy_normalized-Holds name 128 tn ln in
    let (p, ep, hp) = copy_normalized-Holds phone 64 tp lp in
    let (e, ee, he) = copy_normalized-Holds email 64 te le in
    (
      record { surname = s; name = n; email = e; phone = p; age = age },
      rw (es, en, ee, ep) refl,
      record { surname = hs.size; name = hn.size; email = he.size; phone = hp.size },
      hs.text,
      hn.text,
      hp.text,
      he.text,
      refl,
    )

-- For a surname of less than 128 bytes a client sends the operation and the padded surname, to
-- search and to delete; it refuses a longer surname.
pub payload_lem :
    (s : List ℕ)
    → (length s < 128
        → (search_payload s ≡ ok (3 ∷ padded s)) × (delete_payload s ≡ ok (2 ∷ padded s)))
      × (128 ≤ length s
          → (search_payload s ≡ err surname_too_long) × (delete_payload s ≡ err surname_too_long))
unfolding search_payload delete_payload surname_to_op_string
payload_lem s = (
  λ h. let e : ltb 128 (length s + 1) ≡ false = ground arith in (rw e refl, rw e refl),
  λ h. let e : ltb 128 (length s + 1) ≡ true = ground arith in (rw e refl, rw e refl),
)

-- ===== src/Phonedir/Client.antt =====
-- hw3-kernel/client/lltest.cpp: what the client of the device sends. A `std::string` is
-- the list of its bytes; an exception is an error value.
pub mod Laws
use mipt_kis_linux.Prelude.{
  ℕ, zero, suc, ◌+◌, ◌-◌, ◌≡◌, Bool, true, false, List, [], ◌∷◌, ◌++◌, Option, none, some, ◌==◌,
  ltb, leb, if◌then◌else◌, length, replicate, set, take, drop,
}
use mipt_kis_linux.Phonedir.Record.{
  PhonedirRecord, record_bytes, phonedir_name_len, phonedir_email_len, phonedir_phone_len,
  phonedir_add_op, phonedir_delete_op, phonedir_find_op,
}

-- The texts of the exceptions.
pub data ClientError : Type 0 where
  surname_too_long parameter_too_long write_failed read_failed partial_quant open_failed :
      ClientError

pub data Result (A : Type 0) : Type 0 where
  ok : A → Result A
  err : ClientError → Result A

module _ {A B : Type 0} where
  infixl 5 ◌>>=◌
  abbrev pub ◌>>=◌ : Result A → (A → Result B) → Result B
  ok a >>= f = f a
  err e >>= f = err e

-- A string of `phonedir_name_len + 1` bytes with the surname behind its first.
unfoldable pub surname_to_op_string : List ℕ → Result (List ℕ)
surname_to_op_string surname =
    if ltb phonedir_name_len (length surname + 1)
    then err surname_too_long
    else ok (0 ∷ (surname ++ replicate (phonedir_name_len - length surname) 0))

-- The `maxlen` bytes that are written to `to`.
unfoldable pub copy_normalized : List ℕ → (maxlen : ℕ) → Result (List ℕ)
copy_normalized source maxlen =
    if ltb maxlen (length source + 1)
    then err parameter_too_long
    else ok (source ++ replicate (maxlen - length source) 0)

-- The record of `preform_add`.
unfoldable pub make_record : (surname name phone email : List ℕ) → (age : ℕ) → Result PhonedirRecord
make_record surname name phone email age = do
  surname' ← copy_normalized surname phonedir_name_len
  name' ← copy_normalized name phonedir_name_len
  email' ← copy_normalized email phonedir_email_len
  phone' ← copy_normalized phone phonedir_phone_len
  ok (record { surname = surname'; name = name'; email = email'; phone = phone'; age = age })

-- What `preform_add`, `preform_search` and `perform_delete` of lltest.cpp write to the device.
unfoldable pub add_payload : (surname name phone email : List ℕ) → (age : ℕ) → Result (List ℕ)
add_payload surname name phone email age = do
  r ← make_record surname name phone email age
  ok (phonedir_add_op ∷ record_bytes r)

unfoldable pub search_payload : List ℕ → Result (List ℕ)
search_payload surname = do
  payload ← surname_to_op_string surname
  ok (set payload 0 phonedir_find_op)

unfoldable pub delete_payload : List ℕ → Result (List ℕ)
delete_payload surname = do
  payload ← surname_to_op_string surname
  ok (set payload 0 phonedir_delete_op)

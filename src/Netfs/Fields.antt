-- ===== src/Netfs/Fields.antt =====
-- hw2-netfs/include/serialization.h: the parts of a structure that is read back.
use mipt_kis_linux.Prelude.{
  ℕ, ◌^◌, ◌<◌, ◌≡◌, refl, ap, subst, ◌∙◌, false, List, [], ◌∷◌, ◌++◌, append_assoc, some, arith,
  ◌==◌, if◌then◌else◌, length, take, length-append, take-append, drop-append, take-append_le,
  take_all, le_bytes, length-le_bytes, le_value-le_bytes,
}
use mipt_kis_linux.Netfs.Socket.{Socket, safe_read}
use mipt_kis_linux.Netfs.Socket.Pieces.{Delivers, safe_read-Takes}
use mipt_kis_linux.Netfs.Protocol.{
  Reader, ◌>>=◌, got_all, read_array, write_array, field_at, string_fields,
}

-- A reader that ends with a value where the rest of the stream is next.
abbrev pub Yields : {A : Type 0} → Reader A → A → List ℕ → Socket → Type 0
Yields c a rest s = (s' : Socket) × (c s ≡ (some a, s')) × Delivers rest s'

pub Yields-then :
    {A B : Type 0} (c : Reader A) (k : A → Reader B) (a : A) (b : B) (mid rest : List ℕ)
    (s : Socket)
    → Yields c a mid s
    → ((s' : Socket) → Delivers mid s' → Yields (k a) b rest s')
    → Yields (c >>= k) b rest s
Yields-then c k a b mid rest s (s1, e, d) more = let (s2, e', d') = more s1 d in (s2, rw e e', d')

pub safe_read-Yields :
    (n : ℕ) (xs rest : List ℕ) (s : Socket)
    → length xs ≡ n
    → Delivers (xs ++ rest) s
    → Yields (safe_read n) xs rest s
safe_read-Yields n xs rest s size d = subst (λ n. Yields (safe_read n) xs rest s) size front
  where
    front : Yields (safe_read (length xs)) xs rest s
    front =
        let (s', e, d') =
          safe_read-Takes (length xs) (xs ++ rest) s d (omega (arith, length-append xs rest)) in
        (s', e ∙ ap (λ t. (some t, s')) (take-append xs rest), rw (drop-append xs rest) at d')

-- A number that fits in its bytes.
abbrev pub IsWord : ℕ → Type 0
IsWord n = n < 2 ^ 64

pub read_array-Yields :
    (field rest : List ℕ) (s : Socket)
    → IsWord (length field)
    → Delivers (write_array field ++ rest) s
    → Yields read_array field rest s
unfolding read_array write_array
read_array-Yields field rest s small d =
    Yields-then (safe_read 8) _ (le_bytes 8 (length field)) field (field ++ rest) rest s
      (safe_read-Yields 8 (le_bytes 8 (length field)) (field ++ rest) s
        (length-le_bytes 8 (length field))
        (subst (λ bytes. Delivers bytes s) (append_assoc (le_bytes 8 (length field)) field rest) d))
      (λ s' d'. rw (le_value-le_bytes 8 (length field) small) (elements field s' d'))
  where
    elements :
        (field : List ℕ) (s' : Socket)
        → Delivers (field ++ rest) s'
        → Yields (if length field == 0 then got_all [] else safe_read (length field)) field rest s'
    elements [] s' d' = (s', refl, d')
    elements (b ∷ bs) s' d' =
        let some_left : (length (b ∷ bs) == 0) ≡ false = ground arith in
        rw some_left (safe_read-Yields (length (b ∷ bs)) (b ∷ bs) rest s' refl d')

pub field_at-number :
    (before : List ℕ) (size n : ℕ) (behind : List ℕ)
    → n < 256 ^ size
    → field_at (length before) size (before ++ (le_bytes size n ++ behind)) ≡ n
field_at-number before size n behind small =
    let part : take size (le_bytes size n ++ behind) ≡ le_bytes size n =
      take-append_le size (le_bytes size n) behind (omega (arith, length-le_bytes size n))
      ∙ take_all size (le_bytes size n) (omega (arith, length-le_bytes size n)) in
    rw (drop-append before (le_bytes size n ++ behind), part) (le_value-le_bytes size n small)

pub length-string_fields : (pointer : ℕ) (path : List ℕ) → length (string_fields pointer path) ≡ 16
length-string_fields pointer path = omega (
  arith,
  length-append (le_bytes 8 (length path)) (le_bytes 8 pointer),
  length-le_bytes 8 (length path),
  length-le_bytes 8 pointer,
)

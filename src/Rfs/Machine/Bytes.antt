-- ===== src/Rfs/Machine/Bytes.antt =====
-- Loads and stores of the mapped container of hw1-fs.
use native.Mathlib.Nat.{pow-suc}
use mipt_kis_linux.Prelude.{
  ℕ, zero, suc, ◌+◌, ◌*◌, ◌/◌, ◌%◌, ◌^◌, ◌≤◌, ◌<◌, ◌≡◌, refl, ◌⊎◌, List, [], ◌∷◌, arith, ◌∙◌, ◌-◌,
  take, drop, length, ap, dec_le,
}
use mipt_kis_linux.Rfs.Machine.{
  Mem, load8, store8, load_le, store_le, load_bytes, store_bytes, clear_bytes,
}

-- Every member is a byte.
abbrev pub AllBytes : List ℕ → Type 0
AllBytes [] = Unit
AllBytes (b ∷ bs) = (b < 256) × AllBytes bs

-- Two memories hold the same bytes in `n` cells from `a` on.
abbrev pub Agree : ℕ → ℕ → Mem → Mem → Type 0
Agree a n m m' = (x : ℕ) → a ≤ x → x < a + n → m x ≡ m' x

-- The cells `a .. a + n` and `b .. b + k` do not meet.
abbrev pub Apart : ℕ → ℕ → ℕ → ℕ → Type 0
Apart a n b k = (a + n ≤ b) ⊎ (b + k ≤ a)

pub load_le-Agree : (n : ℕ) (m m' : Mem) (a : ℕ) → Agree a n m m' → load_le n m a ≡ load_le n m' a
unfolding load_le
load_le-Agree zero m m' a h = refl
load_le-Agree (suc n) m m' a h =
    let here : m a ≡ m' a = h a (omega arith) (omega arith) in
    let rest = load_le-Agree n m m' (a + 1) (λ x p q. h x (omega arith) (omega arith)) in
    rw (here, rest)

pub load_bytes-Agree :
    (n : ℕ) (m m' : Mem) (a : ℕ) → Agree a n m m' → load_bytes n m a ≡ load_bytes n m' a
unfolding load_bytes
load_bytes-Agree zero m m' a h = refl
load_bytes-Agree (suc n) m m' a h =
    let here : m a ≡ m' a = h a (omega arith) (omega arith) in
    let rest = load_bytes-Agree n m m' (a + 1) (λ x p q. h x (omega arith) (omega arith)) in
    rw (here, rest)

pub store8_other : (m : Mem) (a v x : ℕ) → (x < a) ⊎ (a + 1 ≤ x) → store8 m a v x ≡ m x
unfolding store8
store8_other m a v x h = ground arith

pub store8_self : (m : Mem) (a v : ℕ) → store8 m a v a ≡ v
unfolding store8
store8_self m a v = ground arith

pub store_le_outside :
    (n : ℕ) (m : Mem) (a v x : ℕ) → (x < a) ⊎ (a + n ≤ x) → store_le n m a v x ≡ m x
unfolding store_le
store_le_outside zero m a v x h = refl
store_le_outside (suc n) m a v x h =
    store_le_outside n (store8 m a (v % 256)) (a + 1) (v / 256) x (omega arith)
    ∙ store8_other m a (v % 256) x (omega arith)

pub store_bytes_outside :
    (bs : List ℕ) (m : Mem) (a x : ℕ) → (x < a) ⊎ (a + length bs ≤ x) → store_bytes m a bs x ≡ m x
unfolding store_bytes
store_bytes_outside [] m a x h = refl
store_bytes_outside (b ∷ bs) m a x h =
    store_bytes_outside bs (store8 m a b) (a + 1) x (omega arith)
    ∙ store8_other m a b x (omega arith)

pub clear_bytes_outside :
    (n : ℕ) (m : Mem) (a x : ℕ) → (x < a) ⊎ (a + n ≤ x) → clear_bytes n m a x ≡ m x
unfolding clear_bytes
clear_bytes_outside zero m a x h = refl
clear_bytes_outside (suc n) m a x h =
    clear_bytes_outside n (store8 m a 0) (a + 1) x (omega arith)
    ∙ store8_other m a 0 x (omega arith)

pub clear_bytes_inside : (n : ℕ) (m : Mem) (a x : ℕ) → a ≤ x → x < a + n → clear_bytes n m a x ≡ 0
unfolding clear_bytes
clear_bytes_inside zero m a x p q = absurd (omega arith)
clear_bytes_inside (suc n) m a x p q = elim (dec_le x a) [
  | yes e ↦
      let same : x ≡ a = omega arith in
      clear_bytes_outside n (store8 m a 0) (a + 1) x (omega arith) ∙ rw same (store8_self m a 0)
  | no e ↦ clear_bytes_inside n (store8 m a 0) (a + 1) x (omega arith) (omega arith)
]

load8-store8 : (m : Mem) (a v : ℕ) → load8 (store8 m a v) a ≡ v % 256
load8-store8 m a v = ap (λ b. b % 256) (store8_self m a v)

-- What is stored is what is loaded, if it fits the width.
pub load_le-store_le :
    (n : ℕ) (m : Mem) (a v : ℕ) → v < 256 ^ n → load_le n (store_le n m a v) a ≡ v
unfolding load_le store_le
load_le-store_le zero m a v h = omega arith
load_le-store_le (suc n) m a v h =
    let low : store_le n (store8 m a (v % 256)) (a + 1) (v / 256) a ≡ v % 256 =
      store_le_outside n (store8 m a (v % 256)) (a + 1) (v / 256) a (omega arith)
      ∙ store8_self m a (v % 256) in
    let width : 256 ^ suc n ≡ 256 ^ n * 256 = pow-suc 256 n in
    let high = load_le-store_le n (store8 m a (v % 256)) (a + 1) (v / 256) (omega arith) in
    rw (low, high) (omega arith)

-- A load does not see a store elsewhere.
pub load_le-store_le-Apart :
    (n k : ℕ) (m : Mem) (a b v : ℕ) → Apart a n b k → load_le n (store_le k m b v) a ≡ load_le n m a
load_le-store_le-Apart n k m a b v h =
    load_le-Agree n _ m a (λ x p q. store_le_outside k m b v x (omega arith))

pub load_bytes-store_bytes :
    (bs : List ℕ) (m : Mem) (a : ℕ)
    → AllBytes bs
    → load_bytes (length bs) (store_bytes m a bs) a ≡ bs
unfolding load_bytes store_bytes
load_bytes-store_bytes [] m a h = refl
load_bytes-store_bytes (b ∷ bs) m a h =
    let here : store_bytes (store8 m a b) (a + 1) bs a ≡ b =
      store_bytes_outside bs (store8 m a b) (a + 1) a (omega arith) ∙ store8_self m a b in
    let byte : b % 256 ≡ b = omega arith in
    rw (here, byte, load_bytes-store_bytes bs (store8 m a b) (a + 1) h.1)

pub length-load_bytes : (n : ℕ) (m : Mem) (a : ℕ) → length (load_bytes n m a) ≡ n
unfolding load_bytes
length-load_bytes zero m a = refl
length-load_bytes (suc n) m a = ap suc (length-load_bytes n m (a + 1))

pub take-load_bytes :
    (n k : ℕ) (m : Mem) (a : ℕ) → n ≤ k → take n (load_bytes k m a) ≡ load_bytes n m a
unfolding load_bytes
take-load_bytes zero k m a h = refl
take-load_bytes (suc n) zero m a h = absurd (omega arith)
take-load_bytes (suc n) (suc k) m a h =
    ap (λ r. load8 m a ∷ r) (take-load_bytes n k m (a + 1) (omega arith))

pub drop-load_bytes :
    (n k : ℕ) (m : Mem) (a : ℕ) → n ≤ k → drop n (load_bytes k m a) ≡ load_bytes (k - n) m (a + n)
unfolding load_bytes
drop-load_bytes zero k m a h =
    let e : a + 0 ≡ a = omega arith in let e' : k - 0 ≡ k = omega arith in rw (e, e') refl
drop-load_bytes (suc n) zero m a h = absurd (omega arith)
drop-load_bytes (suc n) (suc k) m a h =
    let e : a + suc n ≡ a + 1 + n = omega arith in
    let e' : suc k - suc n ≡ k - n = omega arith in
    rw (e, e') (drop-load_bytes n k m (a + 1) (omega arith))

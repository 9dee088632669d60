-- ===== src/Rfs/Machine.antt =====
-- What the C code of hw1-fs runs on: the mapped container as bytes at addresses, `size_t`
-- arithmetic, and calls that end, stop the process with a message, or fault.
pub mod Bytes
use mipt_kis_linux.Prelude.{
  ℕ, zero, suc, ◌+◌, ◌-◌, ◌*◌, ◌/◌, ◌%◌, ◌^◌, Bool, true, false, List, [], ◌∷◌, ◌==◌, ltb, leb,
  ◌&&◌, if◌then◌else◌,
}

-- A cell stands for the byte that is its residue modulo 256.
abbrev pub Mem : Type 0
Mem = ℕ → ℕ

-- `size_t` is 64 bits wide.
abbrev pub size_mod : ℕ
size_mod = 2 ^ 64

abbrev pub add_size : ℕ → ℕ → ℕ
add_size a b = (a + b) % size_mod

abbrev pub sub_size : ℕ → ℕ → ℕ
sub_size a b = (a + size_mod - b) % size_mod

-- The texts with which `die_fatal` ends the process.
pub data Message : Type 0 where
  incompatible internal_error no_space invalid_position not_file not_directory : Message
  no_such_file invalid_path too_long_name invalid_argument : Message
  allocation_failed : Message

-- The mapping is shared, so what was stored before a failure stays in the file: every outcome
-- carries the memory.
pub data Outcome (A : Type 0) : Type 0 where
  done : A → Mem → Outcome A
  died : Message → Mem → Outcome A
  fault : Mem → Outcome A
  out_of_fuel : Outcome A

abbrev pub Cmd : Type 0 → Type 0
Cmd A = Mem → Outcome A

abbrev pub pure : {A : Type 0} → A → Cmd A
pure = done

abbrev pub die_fatal : {A : Type 0} → Message → Cmd A
die_fatal = died

module _ {A B : Type 0} where
  abbrev pub and_then : Outcome A → (A → Cmd B) → Outcome B
  and_then (done a m) k = k a m
  and_then (died e m) k = died e m
  and_then (fault m) k = fault m
  and_then out_of_fuel k = out_of_fuel

  infixl 5 ◌>>=◌ ◌>>◌
  abbrev pub ◌>>=◌ : Cmd A → (A → Cmd B) → Cmd B
  c >>= k = λ m. and_then (c m) k

  abbrev pub ◌>>◌ : Cmd A → Cmd B → Cmd B
  c >> d = c >>= λ _. d

abbrev pub load8 : Mem → ℕ → ℕ
load8 m a = m a % 256

unfoldable pub store8 : Mem → ℕ → ℕ → Mem
store8 m a v x = if x == a then v else m x

-- A little-endian number of `n` bytes.
unfoldable pub load_le : ℕ → Mem → ℕ → ℕ
load_le zero m a = 0
load_le (suc n) m a = load8 m a + 256 * load_le n m (a + 1)

unfoldable pub store_le : ℕ → Mem → ℕ → ℕ → Mem
store_le zero m a v = m
store_le (suc n) m a v = store_le n (store8 m a (v % 256)) (a + 1) (v / 256)

-- The bytes from an address on, and `memcpy` of given bytes to an address.
unfoldable pub load_bytes : ℕ → Mem → ℕ → List ℕ
load_bytes zero m a = []
load_bytes (suc n) m a = load8 m a ∷ load_bytes n m (a + 1)

unfoldable pub store_bytes : Mem → ℕ → List ℕ → Mem
store_bytes m a [] = m
store_bytes m a (b ∷ bs) = store_bytes (store8 m a b) (a + 1) bs

-- `memset(container + a, 0, n)`.
unfoldable pub clear_bytes : ℕ → Mem → ℕ → Mem
clear_bytes zero m a = m
clear_bytes (suc n) m a = clear_bytes n (store8 m a 0) (a + 1)

-- Reads of the mapping, which change nothing.
abbrev pub get_size : ℕ → Cmd ℕ
get_size a m = done (load_le 8 m a) m

abbrev pub put_size : ℕ → ℕ → Cmd (Unit {0})
put_size a v m = done tt (store_le 8 m a v)

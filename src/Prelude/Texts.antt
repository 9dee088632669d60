-- ===== src/Prelude/Texts.antt =====
-- Bytes in C: the text of a `char*`, `strcmp`, and little-endian numbers.
use Prim.Native.Nat.{ℕ, zero, suc, ◌+◌, ◌*◌, ◌/◌, ◌%◌, ◌^◌, ◌<◌}
use native.Mathlib.Nat.{pow-suc}
use mathlib.Core.Path.{◌≡◌, refl, ap}
use mathlib.Core.Logic.{◌↔◌}
use mathlib.Core.Bool.{Bool, true, false, ◌&&◌}
use mathlib.Core.List.{List, [], ◌∷◌, ◌++◌}
use native.Mathlib.Omega.{arith}
use mipt_kis_linux.Prelude.Tests.{◌==◌, if◌then◌else◌, ==_iff}
use mipt_kis_linux.Prelude.Lists.{length}

-- The number that bytes stand for, least significant first, and the bytes of a number.
unfoldable pub le_value : List ℕ → ℕ
le_value [] = 0
le_value (b ∷ bs) = b + 256 * le_value bs

unfoldable pub le_bytes : ℕ → ℕ → List ℕ
le_bytes zero v = []
le_bytes (suc n) v = v % 256 ∷ le_bytes n (v / 256)

-- The text of a `char*`: its bytes up to the first zero.
unfoldable pub text_of : List ℕ → List ℕ
text_of [] = []
text_of (b ∷ bs) = let rest = b ∷ text_of bs in if b == 0 then [] else rest

unfoldable pub text_eq : List ℕ → List ℕ → Bool
text_eq [] [] = true
text_eq [] (b ∷ bs) = false
text_eq (a ∷ as') [] = false
text_eq (a ∷ as') (b ∷ bs) = (a == b) && text_eq as' bs

pub length-le_bytes : (n v : ℕ) → length (le_bytes n v) ≡ n
unfolding le_bytes
length-le_bytes zero v = refl
length-le_bytes (suc n) v = ap suc (length-le_bytes n (v / 256))

-- A number comes back from its bytes, if it fits the width.
pub le_value-le_bytes : (n v : ℕ) → v < 256 ^ n → le_value (le_bytes n v) ≡ v
unfolding le_bytes le_value
le_value-le_bytes zero v h = omega arith
le_value-le_bytes (suc n) v h =
    let width = pow-suc 256 n in omega (arith, le_value-le_bytes n (v / 256) (omega arith))

pub text_eq_iff : (s t : List ℕ) → (text_eq s t ≡ true) ↔ (s ≡ t)
unfolding text_eq
text_eq_iff [] [] = (λ h. refl, λ h. refl)
text_eq_iff [] (b ∷ bs) = (λ h. cc, λ h. cc)
text_eq_iff (a ∷ as') [] = (λ h. cc, λ h. cc)
text_eq_iff (a ∷ as') (b ∷ bs) =
    let rest = text_eq_iff as' bs in
    let first = ==_iff a b in (λ h. ground (arith, rest), λ h. ground (arith, rest))

pub text_eq_refl : (s : List ℕ) → text_eq s s ≡ true
text_eq_refl s = (text_eq_iff s s).1 refl

-- A text has no zero in it, so it ends where the zero behind it stands.
abbrev pub IsText : List ℕ → Type 0
IsText [] = Unit
IsText (b ∷ bs) = ((b == 0) ≡ false) × IsText bs

pub text_of-text : (s rest : List ℕ) → IsText s → text_of (s ++ 0 ∷ rest) ≡ s
unfolding text_of
text_of-text [] rest h = refl
text_of-text (b ∷ bs) rest h = rw (h.0, text_of-text bs rest h.1)

pub text_of-IsText : (bytes : List ℕ) → IsText (text_of bytes)
unfolding text_of
text_of-IsText [] = tt
text_of-IsText (b ∷ bs) = ground (arith, text_of-IsText bs)

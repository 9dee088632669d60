-- ===== src/Prelude/Members.antt =====
-- Lists of different numbers: no more than the numbers below a bound.
use Prim.Native.Nat.{ℕ, zero, suc, ◌≤◌, ◌<◌}
use mathlib.Core.Path.{◌≡◌, refl}
use mathlib.Core.Logic.{inl, inr}
use mathlib.Core.Bool.{Bool, true, false, ◌||◌}
use mathlib.Core.List.{List, [], ◌∷◌}
use native.Mathlib.Omega.{arith}
use mipt_kis_linux.Prelude.Tests.{◌==◌, if◌then◌else◌, Bool-cases}
use mipt_kis_linux.Prelude.Lists.{length}

abbrev pub member : ℕ → List ℕ → Bool
member c [] = false
member c (b ∷ bs) = (c == b) || member c bs

abbrev pub Distinct : List ℕ → Type 0
Distinct [] = Unit
Distinct (x ∷ xs) = (member x xs ≡ false) × Distinct xs

-- Without the first `x`.
abbrev remove : ℕ → List ℕ → List ℕ
remove x [] = []
remove x (y ∷ ys) = if x == y then ys else y ∷ remove x ys

length-remove : (x : ℕ) (xs : List ℕ) → length xs ≤ suc (length (remove x xs))
length-remove x [] = omega arith
length-remove x (y ∷ ys) = ground (arith, length-remove x ys)

member-remove : (z x : ℕ) (xs : List ℕ) → member z (remove x xs) ≡ true → member z xs ≡ true
member-remove z x [] h = h
member-remove z x (y ∷ ys) h = ground (arith, member-remove z x ys)

remove_gone : (x : ℕ) (xs : List ℕ) → Distinct xs → member x (remove x xs) ≡ false
remove_gone x [] h = refl
remove_gone x (y ∷ ys) h = ground (arith, remove_gone x ys h.1, h.0)

remove-Distinct : (x : ℕ) (xs : List ℕ) → Distinct xs → Distinct (remove x xs)
remove-Distinct x [] h = tt
remove-Distinct x (y ∷ ys) h = elim (Bool-cases (x == y)) [
  | inl e ↦ rw e h.1
  | inr e ↦ rw e (ground (arith, member-remove y x ys, h.0), remove-Distinct x ys h.1)
]

-- Different numbers below `n` are `n` at most.
pub Distinct-le :
    (n : ℕ) (xs : List ℕ) → Distinct xs → ((x : ℕ) → member x xs ≡ true → x < n) → length xs ≤ n
Distinct-le n [] h below = omega arith
Distinct-le zero (x ∷ xs) h below =
    let none_below : x < 0 = below x (ground arith) in absurd (omega arith)
Distinct-le (suc n) (x ∷ xs) h below =
    let gone = remove_gone n (x ∷ xs) h in
    let rest =
      Distinct-le n (remove n (x ∷ xs)) (remove-Distinct n (x ∷ xs) h)
        (λ y k. ground (arith, below y (member-remove y n (x ∷ xs) k), gone)) in
    omega (arith, length-remove n (x ∷ xs))

-- ===== src/Common/Decimal.antt =====
-- Decimal numbers: what `show_nat` prints, `parse_uint` reads back.
use fleetsuite.Common.Tests.{ltb, ◌==◌, Bool-cases}
use fleetsuite.Common.Lists.{All}
use fleetsuite.Common.Text.{Text, read_digits, show_digits, show_nat, parse_uint}
use Prim.Native.Nat.{ℕ, zero, suc, ◌+◌, ◌/◌, ◌%◌, ◌≤◌, ◌<◌}
use mathlib.Core.Path.{◌≡◌, refl, ◌∙◌}
use mathlib.Core.Logic.{inl, inr}
use mathlib.Core.List.{[], ◌∷◌}
use mathlib.Core.Option.{some}
use native.Mathlib.Omega.{arith}

abbrev pub IsDigit : ℕ → Type 0
IsDigit c = (b'0' ≤ c) × (c ≤ b'9')

read_show_digits :
    (f n : ℕ) (out : Text) → n < f → read_digits 0 (show_digits f n out) ≡ read_digits n out
unfolding show_digits
read_show_digits zero n out h = absurd (omega arith)
read_show_digits (suc f) n out h = elim (Bool-cases (ltb n 10)) [
  | inl small ↦ rw small (unfold read_digits in ground arith)
  | inr large ↦ rw large (
      read_show_digits f (n / 10) ((b'0' + n % 10) ∷ out) (ground arith)
      ∙ (unfold read_digits in ground arith))
]

show_digits-IsDigit :
    (f n : ℕ) (out : Text) → n < f → All IsDigit out → All IsDigit (show_digits f n out)
unfolding show_digits
show_digits-IsDigit zero n out h a = absurd (omega arith)
show_digits-IsDigit (suc f) n out h a = elim (Bool-cases (ltb n 10)) [
  | inl small ↦ rw small ((omega arith, ground arith), a)
  | inr large ↦ rw large (
      show_digits-IsDigit f (n / 10) ((b'0' + n % 10) ∷ out) (ground arith)
        ((omega arith, omega arith), a))
]

show_digits-cons :
    (f n : ℕ) (c : ℕ) (out : Text) → (d : ℕ) × (s : Text) × (show_digits f n (c ∷ out) ≡ d ∷ s)
unfolding show_digits
show_digits-cons zero n c out = (c, out, refl)
show_digits-cons (suc f) n c out = elim (Bool-cases (ltb n 10)) [
  | inl small ↦ (b'0' + n, c ∷ out, rw small)
  | inr large ↦ rw large (show_digits-cons f (n / 10) (b'0' + n % 10) (c ∷ out))
]

pub show_nat-cons : (n : ℕ) → (d : ℕ) × (s : Text) × (show_nat n ≡ d ∷ s)
unfolding show_nat show_digits
show_nat-cons n = elim (Bool-cases (ltb n 10)) [
  | inl small ↦ (b'0' + n, [], rw small)
  | inr large ↦ rw large (show_digits-cons n (n / 10) (b'0' + n % 10) [])
]

pub show_nat-IsDigit : (n : ℕ) → All IsDigit (show_nat n)
unfolding show_nat
show_nat-IsDigit n = show_digits-IsDigit (suc n) n [] (omega arith) tt

read_digits-show_nat : (n : ℕ) → read_digits 0 (show_nat n) ≡ some n
unfolding show_nat
read_digits-show_nat n = read_show_digits (suc n) n [] (omega arith) ∙ (unfold read_digits in refl)

parse_uint_digits :
    (m n : ℕ) (s : Text)
    → All IsDigit s
    → ((d : ℕ) × (r : Text) × (s ≡ d ∷ r))
    → read_digits 0 s ≡ some n
    → n ≤ m
    → parse_uint m s ≡ some n
unfolding parse_uint
parse_uint_digits m n [] a h e le = ground arith
parse_uint_digits m n (c ∷ s) a h e le = elim (Bool-cases (c == b'+')) [
  | inl plus ↦ absurd (ground arith)
  | inr other ↦ rw other (rw e (ground arith))
]

pub parse_uint-show_nat : (m n : ℕ) → n ≤ m → parse_uint m (show_nat n) ≡ some n
parse_uint-show_nat m n h =
    parse_uint_digits m n (show_nat n) (show_nat-IsDigit n) (show_nat-cons n)
      (read_digits-show_nat n) h

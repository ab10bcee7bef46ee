-- ===== src/Common/Text.antt =====
-- Text as the list of its characters' code points, with the `str` methods that the program calls.
use Prim.Native.Char.{code}
use Prim.Native.String.{String}
use Prim.Native.Nat.{ℕ, zero, suc, ◌+◌, ◌-◌, ◌*◌, ◌/◌, ◌%◌}
use mathlib.Core.Path.{◌≡◌, refl, sym, ap, ap₂}
use mathlib.Core.Logic.{◌↔◌, inl, inr}
use mathlib.Core.Bool.{Bool, true, false, ◌&&◌, ◌||◌}
use mathlib.Core.List.{List, [], ◌∷◌, ◌++◌, map}
use mathlib.Core.Option.{Option, none, some}
use native.Mathlib.Omega.{arith}
use fleetsuite.Common.Tests.{ltb, leb, ◌==◌, if◌then◌else◌, ==_iff, Bool-cases, map_option}
use fleetsuite.Common.Lists.{filter, is_empty, length, length-append}

abbrev pub Text : Type 0
Text = List ℕ

abbrev pub codes : String → Text
codes String.[] = []
codes (String.◌∷◌ c s) = code c ∷ codes s

unfoldable pub text_eq : Text → Text → Bool
text_eq [] [] = true
text_eq [] (d ∷ t) = false
text_eq (c ∷ s) [] = false
text_eq (c ∷ s) (d ∷ t) = c == d && text_eq s t

pub text_eq_refl : (s : Text) → text_eq s s ≡ true
unfolding text_eq
text_eq_refl [] = refl
text_eq_refl (c ∷ s) = ground (arith, text_eq_refl s)

pub text_eq_sound : (s t : Text) → text_eq s t ≡ true → s ≡ t
unfolding text_eq
text_eq_sound [] [] h = refl
text_eq_sound [] (d ∷ t) h = cc
text_eq_sound (c ∷ s) [] h = cc
text_eq_sound (c ∷ s) (d ∷ t) h = ground (arith, text_eq_sound s t)

pub text_eq_iff : (s t : Text) → (text_eq s t ≡ true) ↔ (s ≡ t)
text_eq_iff s t = (text_eq_sound s t, λ e. rw e (text_eq_refl t))

unfoldable pub texts_eq : List Text → List Text → Bool
unfolding text_eq
texts_eq [] [] = true
texts_eq [] (d ∷ t) = false
texts_eq (c ∷ s) [] = false
texts_eq (c ∷ s) (d ∷ t) = text_eq c d && texts_eq s t

-- `strip_prefix`, `starts_with`, `ends_with` and `contains`, the pattern first.
unfoldable pub strip_prefix : Text → Text → Option Text
strip_prefix [] s = some s
strip_prefix (p ∷ ps) [] = none
strip_prefix (p ∷ ps) (c ∷ s) = if p == c then strip_prefix ps s else none

unfoldable pub starts_with : Text → Text → Bool
starts_with [] s = true
starts_with (p ∷ ps) [] = false
starts_with (p ∷ ps) (c ∷ s) = p == c && starts_with ps s

unfoldable pub ends_with : Text → Text → Bool
unfolding text_eq
ends_with p [] = is_empty p
ends_with p (c ∷ s) = text_eq p (c ∷ s) || ends_with p s

unfoldable pub contains : Text → Text → Bool
unfolding starts_with
contains p [] = is_empty p
contains p (c ∷ s) = starts_with p (c ∷ s) || contains p s

unfoldable pub to_lower : ℕ → ℕ
to_lower c = if leb b'A' c && leb c b'Z' then c + 32 else c

-- `to_ascii_lowercase`.
unfoldable pub to_ascii_lowercase : Text → Text
unfolding to_lower
to_ascii_lowercase = map to_lower

-- The characters with the property White_Space.
unfoldable pub is_whitespace : ℕ → Bool
is_whitespace c =
    (leb 9 c && leb c 13)
    || c == 0x20
    || c == 0x85
    || c == 0xa0
    || c == 0x1680
    || (leb 0x2000 c && leb c 0x200a)
    || c == 0x2028
    || c == 0x2029
    || c == 0x202f
    || c == 0x205f
    || c == 0x3000

-- `trim_start_matches` and `trim_end_matches` by a test on characters.
unfoldable pub trim_start_by : (ℕ → Bool) → Text → Text
trim_start_by p [] = []
trim_start_by p (c ∷ s) = let rest = trim_start_by p s in if p c then rest else c ∷ s

unfoldable pub trim_end_by : (ℕ → Bool) → Text → Text
trim_end_by p [] = []
trim_end_by p (c ∷ s) = let rest = trim_end_by p s in if is_empty rest && p c then [] else c ∷ rest

unfoldable pub trim : Text → Text
unfolding trim_start_by trim_end_by is_whitespace
trim s = trim_end_by is_whitespace (trim_start_by is_whitespace s)

abbrev pub cons_head : ℕ → List Text → List Text
cons_head c [] = (c ∷ []) ∷ []
cons_head c (w ∷ ws) = (c ∷ w) ∷ ws

-- `split` at the characters that pass a test: always at least one piece.
unfoldable pub split_by : (ℕ → Bool) → Text → List Text
split_by p [] = [] ∷ []
split_by p (c ∷ s) = let rest = split_by p s in if p c then [] ∷ rest else cons_head c rest

abbrev pub nonempty : Text → Bool
nonempty [] = false
nonempty (c ∷ s) = true

unfoldable pub split_whitespace : Text → List Text
unfolding split_by is_whitespace
split_whitespace s = filter nonempty (split_by is_whitespace s)

-- `split_once` at the first and `rsplit_once` at the last occurrence of a character.
unfoldable pub split_once : ℕ → Text → Option (Text × Text)
split_once d [] = none
split_once d (c ∷ s) =
    let rest = map_option {B = Text × Text} (λ r. (c ∷ r.0, r.1)) (split_once d s) in
    if c == d then some ([], s) else rest

abbrev pub or_here : ℕ → ℕ → Text → Option (Text × Text) → Option (Text × Text)
or_here d c s (some r) = some (c ∷ r.0, r.1)
or_here d c s none = if c == d then some ([], s) else none

unfoldable pub rsplit_once : ℕ → Text → Option (Text × Text)
rsplit_once d [] = none
rsplit_once d (c ∷ s) = or_here d c s (rsplit_once d s)

-- `split_once` at the first occurrence of a text.
abbrev pub or_later : ℕ → Option Text → Option (Text × Text) → Option (Text × Text)
or_later c (some r) later = some ([], r)
or_later c none later = map_option (λ p. (c ∷ p.0, p.1)) later

unfoldable pub split_once_at : Text → Text → Option (Text × Text)
unfolding strip_prefix
split_once_at p [] = map_option {B = Text × Text} (λ r. ([], r)) (strip_prefix p [])
split_once_at p (c ∷ s) = or_later c (strip_prefix p (c ∷ s)) (split_once_at p s)

-- The part of `rsplit_once` after the last occurrence of a text.
abbrev pub last_one : Option Text → Option Text → Option Text
last_one none here = here
last_one (some t) here = some t

unfoldable pub tail_after_last : Text → Text → Option Text
unfolding strip_prefix
tail_after_last p [] = strip_prefix p []
tail_after_last p (c ∷ s) = last_one (tail_after_last p s) (strip_prefix p (c ∷ s))

-- `join`.
unfoldable pub join : Text → List Text → Text
join sep [] = []
join sep (w ∷ []) = w
join sep (w ∷ v ∷ ws) = w ++ (sep ++ join sep (v ∷ ws))

abbrev pub is_digit : ℕ → Bool
is_digit c = leb b'0' c && leb c b'9'

-- The value of a text of decimal digits, on top of what was read before.
unfoldable pub read_digits : ℕ → Text → Option ℕ
read_digits acc [] = some acc
read_digits acc (c ∷ s) =
    let rest = read_digits (acc * 10 + (c - b'0')) s in if is_digit c then rest else none

abbrev pub check_max : ℕ → Option ℕ → Option ℕ
check_max m none = none
check_max m (some n) = if leb n m then some n else none

abbrev pub digits_max : ℕ → Text → Option ℕ
digits_max m [] = none
digits_max m (c ∷ s) = check_max m (read_digits 0 (c ∷ s))

-- `parse::<uN>()`: an optional plus sign and then digits, with a value up to the type's maximum.
unfoldable pub parse_uint : ℕ → Text → Option ℕ
unfolding read_digits
parse_uint m [] = none
parse_uint m (c ∷ s) = if c == b'+' then digits_max m s else digits_max m (c ∷ s)

-- `to_string` of a number; `suc n` rounds are more than the digits of `n`.
unfoldable pub show_digits : ℕ → ℕ → Text → Text
show_digits zero n out = out
show_digits (suc f) n out =
    let rest = show_digits f (n / 10) ((b'0' + n % 10) ∷ out) in
    if ltb n 10 then (b'0' + n) ∷ out else rest

unfoldable pub show_nat : ℕ → Text
unfolding show_digits
show_nat n = show_digits (suc n) n []

-- `{:08x}` of a number below 2 ^ 32.
abbrev hex_digit : ℕ → ℕ
hex_digit d = if ltb d 10 then b'0' + d else b'a' + d - 10

unfoldable pub hex_digits : ℕ → ℕ → Text → Text
hex_digits zero n out = out
hex_digits (suc k) n out = hex_digits k (n / 16) (hex_digit (n % 16) ∷ out)

unfoldable pub show_hex8 : ℕ → Text
unfolding hex_digits
show_hex8 n = hex_digits 8 n []

pub starts_with-append : (s t : Text) → starts_with s (s ++ t) ≡ true
unfolding starts_with
starts_with-append [] t = refl
starts_with-append (c ∷ s) t = ground (arith, starts_with-append s t)

pub ends_with_self : (t : Text) → ends_with t t ≡ true
unfolding ends_with
ends_with_self [] = refl
ends_with_self (c ∷ t) = ground (arith, text_eq_refl (c ∷ t))

pub ends_with-append : (s t : Text) → ends_with t (s ++ t) ≡ true
unfolding ends_with
ends_with-append [] t = ends_with_self t
ends_with-append (c ∷ s) t = ground (arith, ends_with-append s t)

-- A suffix is what is left after some prefix.
pub ends_with_sound : (t s : Text) → ends_with t s ≡ true → (p : Text) × (s ≡ p ++ t)
unfolding ends_with
ends_with_sound [] [] h = ([], refl)
ends_with_sound (d ∷ t) [] h = cc
ends_with_sound t (c ∷ s) h = elim (Bool-cases (text_eq t (c ∷ s))) [
  | inl e ↦ ([], sym (text_eq_sound t (c ∷ s) e))
  | inr n ↦ let (p, e) = ends_with_sound t s (ground arith) in (c ∷ p, ap (◌∷◌ c) e)
]

pub strip_prefix_sound : (p s r : Text) → strip_prefix p s ≡ some r → s ≡ p ++ r
unfolding strip_prefix
strip_prefix_sound [] s r e = ground arith
strip_prefix_sound (c ∷ p) [] r e = cc
strip_prefix_sound (c ∷ p) (d ∷ s) r e = elim (Bool-cases (c == d)) [
  | inl same ↦ ap₂ ◌∷◌ (sym ((==_iff c d).0 same)) (strip_prefix_sound p s r (ground arith))
  | inr other ↦ absurd (ground arith)
]

pub strip_prefix-append : (p r : Text) → strip_prefix p (p ++ r) ≡ some r
unfolding strip_prefix
strip_prefix-append [] r = refl
strip_prefix-append (c ∷ p) r = ground (arith, strip_prefix-append p r)

-- Two texts with equal ends of one length have the same end.
pub append_tail_inj : (p q s t : Text) → length s ≡ length t → p ++ s ≡ q ++ t → s ≡ t
append_tail_inj [] [] s t l e = e
append_tail_inj [] (d ∷ q) s t l e = absurd (omega (arith, ap length e, length-append q t))
append_tail_inj (c ∷ p) [] s t l e = absurd (omega (arith, ap length e, length-append p s))
append_tail_inj (c ∷ p) (d ∷ q) s t l e = append_tail_inj p q s t l (cc)

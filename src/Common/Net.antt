-- ===== src/Common/Net.antt =====
-- IPv4 addresses as numbers below 2 ^ 32, the first octet the most significant, as `u32::from` has
-- them.
use Prim.Native.Nat.{ℕ, ◌+◌, ◌*◌}
use mathlib.Core.Path.{◌≡◌, refl}
use mathlib.Core.List.{List, [], ◌∷◌}
use mathlib.Core.Option.{Option, none, some}
use fleetsuite.Common.Tests.{leb, ◌==◌, if◌then◌else◌, and_then}
use fleetsuite.Common.Text.{Text, codes, read_digits, split_by}

-- An octet is one to three digits without a leading zero, up to 255.
unfoldable pub parse_octet : Text → Option ℕ
unfolding read_digits
parse_octet [] = none
parse_octet (a ∷ []) = read_digits 0 (a ∷ [])
parse_octet (a ∷ b ∷ []) = if a == b'0' then none else read_digits 0 (a ∷ b ∷ [])
parse_octet (a ∷ b ∷ c ∷ []) =
    if a == b'0'
    then none
    else and_then (read_digits 0 (a ∷ b ∷ c ∷ [])) (λ n. if leb n 255 then some n else none)
parse_octet (a ∷ b ∷ c ∷ d ∷ s) = none

abbrev pub from_octets : ℕ → ℕ → ℕ → ℕ → ℕ
from_octets a b c d = ((a * 256 + b) * 256 + c) * 256 + d

unfoldable pub octets_of : List Text → Option ℕ
unfolding parse_octet
octets_of (a ∷ b ∷ c ∷ d ∷ []) = and_then (parse_octet a) λ w.
    and_then (parse_octet b)
      λ x. and_then (parse_octet c) λ y. and_then (parse_octet d) λ z. some (from_octets w x y z)
octets_of _ = none

-- `parse::<Ipv4Addr>()`, followed by `u32::from`.
unfoldable pub parse_ipv4 : Text → Option ℕ
unfolding octets_of split_by
parse_ipv4 s = octets_of (split_by (λ c. c == b'.') s)

parses_address : parse_ipv4 (codes "10.1.2.255") ≡ some 0x0a0102ff
unfolding parse_ipv4
parses_address = refl

refuses_leading_zero : parse_ipv4 (codes "10.1.02.255") ≡ none
unfolding parse_ipv4
refuses_leading_zero = refl

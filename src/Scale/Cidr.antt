-- ===== src/Scale/Cidr.antt =====
-- ipsecscale/src/main.rs: networks as a masked base and a mask.
pub mod Prefix
use fleetsuite.Common.{
  ℕ, zero, suc, ◌+◌, ◌-◌, ◌*◌, ◌/◌, ◌%◌, ◌^◌, Bool, Option, none, some, List, ltb, ◌==◌,
  if◌then◌else◌, and_then, any, is_empty, filter_map,
}
use fleetsuite.Common.Text.{Text, trim, split_once, split_by, parse_uint}
use fleetsuite.Common.Net.{parse_ipv4}

-- `&` on numbers of some bits.
unfoldable pub bit_and : ℕ → ℕ → ℕ → ℕ
bit_and zero a b = 0
bit_and (suc n) a b = bit_and n (a / 2) (b / 2) * 2 + a % 2 * (b % 2)

-- `u32::MAX << (32 - len)`, and zero for the length zero.
unfoldable pub mask_of : ℕ → ℕ
mask_of zero = 0
mask_of (suc n) = (2 ^ 32 - 1) * 2 ^ (32 - suc n) % 2 ^ 32

abbrev masked : Option ℕ → Option ℕ → Option (ℕ × ℕ)
masked none len = none
masked (some base) none = none
masked (some base) (some len) =
    if ltb 32 len then none else some (bit_and 32 base (mask_of len), mask_of len)

unfoldable pub parse_cidr : Text → Option (ℕ × ℕ)
parse_cidr cidr =
    and_then (split_once b'/' cidr)
      (λ p. masked (parse_ipv4 (trim p.0)) (parse_uint (2 ^ 32 - 1) (trim p.1)))

unfoldable pub cidr_contains : List (ℕ × ℕ) → ℕ → Bool
cidr_contains cidrs ip = any (λ c. bit_and 32 ip c.1 == c.0) cidrs

-- `--backend-cidrs`: the networks that parse; without one the watcher does not start.
unfoldable pub parse_cidrs : Text → Option (List (ℕ × ℕ))
parse_cidrs text =
    let cidrs = filter_map (λ c. parse_cidr (trim c)) (split_by (λ c. c == b',') text) in
    if is_empty cidrs then none else some cidrs

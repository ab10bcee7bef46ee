-- ===== src/Node/Vrf/TapAddrs.antt =====
-- ipsecnode/src/vpp.rs: the addresses of a site's tap.
use fleetsuite.Common.{
  ℕ, ◌+◌, ◌*◌, ◌/◌, ◌%◌, ◌≤◌, ◌<◌, ◌≡◌, refl, ap, ◌∙◌, Bool, true, false, Option, none, some, [],
  ◌∷◌, arith, ◌==◌, ==_iff, All-mono,
}
use fleetsuite.Common.Text.{codes, join, split_by, show_nat}
use fleetsuite.Common.Decimal.{IsDigit, show_nat-IsDigit}
use fleetsuite.Common.Split.{IsFree, split_by-join}
use fleetsuite.Common.Bounded.{holds_below, holds_below-at}
use fleetsuite.Common.Net.{parse_octet, octets_of, parse_ipv4, from_octets}
use fleetsuite.Node.Vrf.{tap_addr, tap_ips_from_idx}

abbrev reads_back : ℕ → Option ℕ → Bool
reads_back n none = false
reads_back n (some m) = m == n

reads_back_sound : (n : ℕ) (o : Option ℕ) → reads_back n o ≡ true → o ≡ some n
reads_back_sound n none e = absurd (ground arith)
reads_back_sound n (some m) e = ap some ((==_iff m n).0 e)

octets_read_back : holds_below 256 (λ n. reads_back n (parse_octet (show_nat n))) ≡ true
unfolding parse_octet show_nat
octets_read_back = refl

parse_octet-show_nat : (n : ℕ) → n < 256 → parse_octet (show_nat n) ≡ some n
parse_octet-show_nat n h =
    reads_back_sound n (parse_octet (show_nat n))
      (holds_below-at 256 (λ k. reads_back k (parse_octet (show_nat k))) octets_read_back n h)

abbrev is_dot : ℕ → Bool
is_dot c = c == b'.'

digits-IsFree : (n : ℕ) → IsFree is_dot (show_nat n)
digits-IsFree n =
    All-mono IsDigit (λ c. is_dot c ≡ false) (show_nat n) (λ c h. differ c h) (show_nat-IsDigit n)
  where
    differ : (c : ℕ) → IsDigit c → is_dot c ≡ false
    differ c h = ground arith

tap_addr-split :
    (n host : ℕ)
    → split_by is_dot (tap_addr n host)
      ≡ codes "10" ∷ codes "127" ∷ show_nat (n / 64) ∷ show_nat (n % 64 * 4 + host) ∷ []
unfolding join
tap_addr-split n host =
    split_by-join is_dot b'.' (codes "10")
      (codes "127" ∷ show_nat (n / 64) ∷ show_nat (n % 64 * 4 + host) ∷ []) refl
      (
        (refl, (refl, tt)),
        (
          (refl, (refl, (refl, tt))),
          (digits-IsFree (n / 64), (digits-IsFree (n % 64 * 4 + host), tt)),
        ),
      )

tap_addr-parses :
    (n host : ℕ)
    → n < 16384
    → host ≤ 3
    → parse_ipv4 (tap_addr n host) ≡ some (0x0a7f0000 + 4 * n + host)
unfolding parse_ipv4 octets_of
tap_addr-parses n host h l =
    ap octets_of (tap_addr-split n host)
    ∙ rw
        (
          parse_octet-show_nat (n / 64) (omega (arith, h)),
          parse_octet-show_nat (n % 64 * 4 + host) (omega (arith, l)),
        )
        (ap some same)
  where
    same : from_octets 10 127 (n / 64) (n % 64 * 4 + host) ≡ 0x0a7f0000 + 4 * n + host
    same = omega arith

-- The tap of index n below 16384 has the addresses 1 and 2 of the n-th network of four addresses in
-- 10.127.0.0/16, VPP's and the kernel's, as addresses that parse; so no two taps share one.
pub tap_ips_from_idx-parses :
    (n : ℕ)
    → n < 16384
    → (parse_ipv4 (tap_ips_from_idx n).vpp_ip ≡ some (0x0a7f0000 + 4 * n + 1))
      × (parse_ipv4 (tap_ips_from_idx n).kern_ip ≡ some (0x0a7f0000 + 4 * n + 2))
unfolding tap_ips_from_idx
tap_ips_from_idx-parses n h =
    (tap_addr-parses n 1 h (omega arith), tap_addr-parses n 2 h (omega arith))

-- ===== src/Node/Vrf.antt =====
-- ipsecnode/src/vpp.rs: what the daemon keeps of a site whose tunnel is up, the allocator of its
-- routing tables and taps, and the names of its interfaces.
pub mod Calls
pub mod Rules
pub mod Start
pub mod Bnat
pub mod Sites
pub mod Events
pub mod Conserved
pub mod TapAddrs
mod Tests
use fleetsuite.Common.{
  ℕ, zero, suc, ◌+◌, ◌-◌, ◌*◌, ◌/◌, ◌%◌, ◌^◌, ◌≤◌, ◌<◌, ◌≡◌, refl, sym, ap, ap₂, subst, ◌∙◌, ◌≢◌,
  ◌↔◌, ◌⊎◌, inl, inr, Bool, true, false, not, ◌&&◌, ◌||◌, Option, none, some, List, [], ◌∷◌, ◌++◌,
  map, arith, ltb, leb, ◌==◌, if◌then◌else◌, ==_iff, Bool-cases, Option-cases, is_some, unwrap_or,
  map_option, and_then, length, get_elem?, any, all, find, filter, is_empty, All, length-append,
  filter_map, cons_some, flat_map, All-append, All-intro, All-mono, All-filter_map, All-flat_map,
}
use fleetsuite.Common.Text.{Text, codes, show_nat, show_hex8}
use fleetsuite.Common.Net.{parse_ipv4}
use fleetsuite.Common.Assoc.{Assoc}

pub record DeviceVrfEntry : Type 0 where
  pub internal_ip : Text
  pub global_ip : Text

pub record SiteBnatState : Type 0 where
  pub map_name : Text
  pub rule_handle : Option ℕ
  pub snat_map_name : Text
  pub snat_handles : List ℕ
  pub split_chain : Option Text
  pub split_jump_handle : Option ℕ
  pub helper_handle : Option ℕ
  pub customer_view_ips : List Text

pub record SiteVrfState : Type 0 where
  pub if_id : ℕ
  pub fwd_table : ℕ
  pub ret_table : ℕ
  pub tap_idx : ℕ
  pub vpp_tap : Text
  pub inner_if : Text
  pub tap_vpp_ip : Text
  pub tap_kern_prefix : Text
  pub ifindex : ℕ
  pub devices : List DeviceVrfEntry
  pub bnat : SiteBnatState
  pub bypass : Bool
  pub child_sa_count : ℕ

abbrev pub VrfCache : Type 0
VrfCache = Assoc SiteVrfState

-- One of the allocator's three pairs of fields, such as `next_fwd` and `free_fwd`; the end of the
-- vector is the head of the list.
pub record Pool : Type 0 where
  pub next : ℕ
  pub free : List ℕ

pub record VrfAllocator : Type 0 where
  pub fwd : Pool
  pub ret : Pool
  pub tap : Pool

unfoldable pub new_allocator : VrfAllocator
new_allocator = record {
  fwd = record { next = 10000; free = [] };
  ret = record { next = 60000; free = [] };
  tap = record { next = 0; free = [] };
}

abbrev pub alloc_from : ℕ → List ℕ → ℕ × Pool
alloc_from next [] = (next, record { next = (next + 1) % 2 ^ 32; free = [] })
alloc_from next (t ∷ free) = (t, record { next = next; free = free })

-- `alloc_fwd`, `alloc_ret` and `alloc_tap`; `free_fwd`, `free_ret` and `free_tap`.
unfoldable pub alloc : Pool → ℕ × Pool
alloc p = alloc_from p.next p.free

unfoldable pub release : ℕ → Pool → Pool
release t p = record p { free = t ∷ p.free }

unfoldable pub if_id_from_peer : Text → Option ℕ
unfolding parse_ipv4
if_id_from_peer peer_ip = parse_ipv4 peer_ip

abbrev pub xfrm_if_name : ℕ → Text
xfrm_if_name if_id = codes "xfrm-" ++ show_hex8 if_id

abbrev pub inner_tap_name : ℕ → Text
inner_tap_name if_id = codes "vpp-" ++ show_hex8 if_id

pub record TapIps : Type 0 where
  pub vpp_ip : Text
  pub vpp_prefix : Text
  pub kern_ip : Text
  pub kern_prefix : Text

-- `n >> 6` and `(n & 63) * 4`.
abbrev tap_addr : ℕ → ℕ → Text
tap_addr n host =
    codes "10.127." ++ (show_nat (n / 64) ++ (codes "." ++ show_nat (n % 64 * 4 + host)))

unfoldable pub tap_ips_from_idx : ℕ → TapIps
unfolding show_nat
tap_ips_from_idx n = record {
  vpp_ip = tap_addr n 1;
  vpp_prefix = tap_addr n 1 ++ codes "/30";
  kern_ip = tap_addr n 2;
  kern_prefix = tap_addr n 2 ++ codes "/30";
}

-- ===== src/Proxy/Rule.antt =====
-- squid-infoproxy/src/matcher.rs: parsing an allow-list member, and whether it allows a request.
-- The parsers of addresses and networks and the containment test (`IpAddr` and the crate `ipnet`)
-- are the parameter `Nets`.
pub mod Host
pub mod Allows
use fleetsuite.Common.{
  ℕ, zero, suc, ◌+◌, ◌-◌, ◌*◌, ◌/◌, ◌%◌, ◌^◌, ◌≤◌, ◌<◌, ◌≡◌, refl, sym, ap, ap₂, subst, ◌∙◌, ◌≢◌,
  ◌↔◌, ◌⊎◌, inl, inr, Bool, true, false, not, ◌&&◌, ◌||◌, Option, none, some, List, [], ◌∷◌, ◌++◌,
  map, arith, ltb, leb, ◌==◌, if◌then◌else◌, ==_iff, Bool-cases, Option-cases, is_some, unwrap_or,
  map_option, and_then, length, get_elem?, any, all, find, filter, is_empty, All, length-append,
  filter_map, cons_some, flat_map, All-append, All-intro, All-mono, All-filter_map, All-flat_map,
}
use fleetsuite.Common.Text.{
  Text, codes, text_eq, ends_with, contains, trim, trim_start_by, trim_end_by, to_ascii_lowercase,
  strip_prefix, split_by, parse_uint,
}

pub record Nets : Type 1 where
  pub Addr : Type 0
  pub Net : Type 0
  pub parse_addr : Text → Option Addr
  pub parse_net : Text → Option Net
  pub net_contains : Net → Addr → Bool

pub record Rule : Type 0 where
  pub dns : Text
  pub cidr : Text
  pub port_from : Option ℕ
  pub port_to : Option ℕ
  pub protocol : Text

-- The next piece, or the empty text where there is none.
abbrev piece : List Text → ℕ → Text
piece [] i = []
piece (w ∷ ws) ℕ.zero = w
piece (w ∷ ws) (ℕ.suc i) = piece ws i

-- `parse::<u16>().ok()`.
abbrev pub parse_u16 : Text → Option ℕ
parse_u16 = parse_uint 65535

unfoldable pub parse : Text → Rule
unfolding split_by trim parse_uint
parse member =
    let it = split_by (λ c. c == 9) member in
    record {
      dns = piece it 0;
      cidr = piece it 1;
      port_from = parse_u16 (trim (piece it 2));
      port_to = parse_u16 (trim (piece it 3));
      protocol = piece it 4;
    }

abbrev pub is_dot : ℕ → Bool
is_dot c = c == b'.'

-- `h == base || h.ends_with(".{base}")`.
unfoldable pub in_domain : Text → Text → Bool
unfolding text_eq ends_with
in_domain base h = text_eq h base || ends_with (b'.' ∷ base) h

abbrev after_star_dot : Text → Text → Bool
after_star_dot h base = not (is_empty base) && in_domain base h

abbrev after_star : Text → Text → Bool
after_star h suffix = not (is_empty suffix) && ends_with suffix h

abbrev plain_domain : Text → Text → Bool
plain_domain h d = let base = trim_start_by is_dot d in not (is_empty base) && in_domain base h

-- The three notations, tried in the source's order.
abbrev by_star : Text → Text → Option Text → Bool
by_star h d (some suffix) = after_star h suffix
by_star h d none = plain_domain h d

abbrev by_notation : Text → Text → Option Text → Bool
by_notation h d (some base) = after_star_dot h base
by_notation h d none = by_star h d (strip_prefix (codes "*") d)

unfoldable pub normal_host : Text → Text
normal_host host = to_ascii_lowercase (trim_end_by is_dot (trim host))

unfoldable pub normal_pattern : Text → Text
normal_pattern rule_dns = to_ascii_lowercase (trim rule_dns)

unfoldable pub host_matches : Text → Text → Bool
unfolding normal_host normal_pattern
host_matches rule_dns host =
    let h = normal_host host in
    let d = normal_pattern rule_dns in
    not (is_empty h) && (not (is_empty d) && by_notation h d (strip_prefix (codes "*.") d))

module _ (nets : Nets) where
  open nets use {Addr, Net, parse_addr, parse_net, net_contains}

  pub record Request : Type 0 where
    pub dst_ip : Option Addr
    pub dst_host : Text
    pub port : Option ℕ
    pub method : Text

  -- The resolved address and the host, where it is an address itself.
  abbrev pub candidates : Request → List Addr
  candidates req = cons_some req.dst_ip (cons_some (parse_addr req.dst_host) [])

  abbrev in_net : Option Net → List Addr → Bool
  in_net none addrs = false
  in_net (some net) addrs = any (net_contains net) addrs

  unfoldable pub dest_by_cidr : Rule → Request → Bool
  dest_by_cidr rule req = not (is_empty rule.cidr) && in_net (parse_net rule.cidr) (candidates req)

  unfoldable pub dest_by_dns : Rule → Request → Bool
  dest_by_dns rule req = not (is_empty rule.dns) && host_matches rule.dns req.dst_host

  abbrev in_range : Option ℕ → Option ℕ → Option ℕ → Bool
  in_range none port_to port = true
  in_range (some lo) port_to none = false
  in_range (some lo) port_to (some p) = leb lo p && leb p (unwrap_or port_to lo)

  unfoldable pub port_ok : Rule → Request → Bool
  port_ok rule req = in_range rule.port_from rule.port_to req.port

  -- The label is advisory unless `strict_proto` is set.
  unfoldable pub proto_ok : Rule → Request → Bool → Bool
  proto_ok rule req strict_proto =
      if strict_proto && not (is_empty (trim rule.protocol))
      then (let proto = to_ascii_lowercase rule.protocol in
          not (
            not (contains (codes "any") proto)
            && (not (is_empty req.method) && not (contains (to_ascii_lowercase req.method) proto))))
      else true

  unfoldable pub rule_allows : Rule → Request → Bool → Bool
  rule_allows rule req strict_proto =
      if not (dest_by_cidr rule req || dest_by_dns rule req)
      then false
      else (if not (port_ok rule req) then false else proto_ok rule req strict_proto)

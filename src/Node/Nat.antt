-- ===== src/Node/Nat.antt =====
-- ipsecnode/src/nat.rs: the NAT records and the /32 routes of the peers whose tunnels are up, with
-- the set of active addresses of ipsecnode/src/ondemand.rs.
pub mod Refcount
pub mod Installed
pub mod Cached
pub mod Leak
pub mod Uncounted
mod Tests
use fleetsuite.Common.{
  ℕ, zero, suc, ◌+◌, ◌-◌, ◌*◌, ◌/◌, ◌%◌, ◌^◌, ◌≤◌, ◌<◌, ◌≡◌, refl, sym, ap, ap₂, subst, ◌∙◌, ◌≢◌,
  ◌↔◌, ◌⊎◌, inl, inr, Bool, true, false, not, ◌&&◌, ◌||◌, Option, none, some, List, [], ◌∷◌, ◌++◌,
  map, arith, ltb, leb, ◌==◌, if◌then◌else◌, ==_iff, Bool-cases, Option-cases, is_some, unwrap_or,
  map_option, and_then, length, get_elem?, any, all, find, filter, is_empty, All, length-append,
  filter_map, cons_some, flat_map, All-append, All-intro, All-mono, All-filter_map, All-flat_map,
}
use fleetsuite.Common.Text.{
  Text, codes, text_eq, contains, starts_with, split_whitespace, split_once, split_by, trim_end_by,
}
use fleetsuite.Common.Net.{parse_ipv4}
use fleetsuite.Common.Assoc.{Assoc, get, insert, remove}
use fleetsuite.Node.Host.{Command, Output, Log, Reply, Host, run_ok, host_prefix}

pub record DeviceNatEntry : Type 0 where
  pub internal_ip : Text
  pub global_ip : Text

pub record BackendNatRecord : Type 0 where
  pub access_server : Option Text
  pub sd_server : Option Text
  pub em_server : Option Text

abbrev role : Text → Option Text → List (Text × Text)
role name none = []
role name (some addr) = (name, addr) ∷ []

unfoldable pub present_roles : BackendNatRecord → List (Text × Text)
present_roles r =
    role (codes "access_server") r.access_server
    ++ (role (codes "sd_server") r.sd_server ++ role (codes "em_server") r.em_server)

pub record NatRecord : Type 0 where
  pub nat_mode : Option Text
  pub device_nat : List DeviceNatEntry
  pub backend_nat : Option BackendNatRecord

abbrev is_backend : Option Text → Bool
is_backend none = false
is_backend (some mode) = text_eq mode (codes "backend")

unfoldable pub is_customer_mode : NatRecord → Bool
is_customer_mode r = not (is_backend r.nat_mode)

pub record PeerRouteState : Type 0 where
  pub global_ips : List Text
  pub child_sa_count : ℕ

abbrev pub RouteCache : Type 0
RouteCache = Assoc PeerRouteState

abbrev pub cached_global_ips : RouteCache → List Text
cached_global_ips cache = flat_map (λ e. e.1.global_ips) cache

-- `conn.get` of the key, and `serde_json::from_str` on what it holds.
pub record Records : Type 0 where
  pub valkey_get : Text → Reply
  pub decode : Text → Option NatRecord

abbrev decoded : (Text → Option NatRecord) → Reply → Option NatRecord
decoded decode Reply.failed = none
decoded decode (Reply.reply none) = none
decoded decode (Reply.reply (some json)) = decode json

unfoldable pub get_nat_record : Records → Text → Option NatRecord
get_nat_record records peer_ip =
    decoded records.decode (records.valkey_get (codes "fleetipsec:nat:" ++ peer_ip))

abbrev pub replace_blackhole : Text → Command
replace_blackhole addr =
    Command.ip (codes "route" ∷ codes "replace" ∷ codes "blackhole" ∷ host_prefix addr ∷ [])

abbrev pub delete_route : Text → Command
delete_route addr = Command.ip (codes "route" ∷ codes "del" ∷ host_prefix addr ∷ [])

abbrev pub active_global : Text → Text → Command
active_global verb addr = Command.nft (
    verb
    ∷ codes "element"
    ∷ codes "ip"
    ∷ codes "ipsecnode_ondemand"
    ∷ codes "active_globals"
    ∷ (codes "{ " ++ (addr ++ codes " }"))
    ∷ [])

-- `u32` addition; subtraction saturates at 0, as on ℕ.
abbrev pub incr : ℕ → ℕ
incr n = (n + 1) % 2 ^ 32

-- The events of charon.
pub data Event : Type 0 where
  up : Records → Text → Event
  down : Text → Event

module _ (host : Host) (enabled : Bool) where
  unfoldable pub route_add : Text → Log → Bool × Log
  route_add addr log = run_ok host (replace_blackhole addr) log

  abbrev deleted : Option Output → Bool
  deleted none = false
  deleted (some out) =
      out.success
      || (contains (codes "No such process") out.stderr
          || contains (codes "RTNETLINK answers") out.stderr)

  unfoldable pub route_del : Text → Log → Bool × Log
  route_del addr log =
      (deleted (host log (delete_route addr)), (run_ok host (delete_route addr) log).1)

  -- No-ops when bringing tunnels up on demand is disabled.
  unfoldable pub add_active_global : Text → Log → Log
  add_active_global addr log =
      if enabled then (run_ok host (active_global (codes "add") addr) log).1 else log

  unfoldable pub remove_active_global : Text → Log → Log
  remove_active_global addr log =
      if enabled then (run_ok host (active_global (codes "delete") addr) log).1 else log

  -- The routes of a record's devices: which were installed.
  unfoldable pub install_routes : List DeviceNatEntry → Log → List Text × Log
  install_routes [] log = ([], log)
  install_routes (entry ∷ entries) log =
      let (added, log') = route_add entry.global_ip log in
      let (installed, after_active) =
        install_routes entries (add_active_global entry.global_ip log') in
      let skipped = install_routes entries log' in
      if added then (entry.global_ip ∷ installed, after_active) else skipped

  unfoldable pub remove_routes : List Text → Log → Log
  remove_routes [] log = log
  remove_routes (addr ∷ addrs) log =
      remove_routes addrs (route_del addr (remove_active_global addr log)).1

  -- `cache.insert` unless nothing was installed.
  abbrev pub remember : Text → RouteCache → List Text × Log → RouteCache × Log
  remember peer_ip cache ([], log) = (cache, log)
  remember peer_ip cache (addr ∷ addrs, log) =
      (insert peer_ip (record { global_ips = addr ∷ addrs; child_sa_count = 1 }) cache, log)

  abbrev pub first_up : Text → RouteCache → Option NatRecord → Log → RouteCache × Log
  first_up peer_ip cache none log = (cache, log)
  first_up peer_ip cache (some r) log = remember peer_ip cache (install_routes r.device_nat log)

  abbrev pub up_from : Records → Text → RouteCache → Option PeerRouteState → Log → RouteCache × Log
  up_from records peer_ip cache (some state) log =
      (insert peer_ip (record state { child_sa_count = incr state.child_sa_count }) cache, log)
  up_from records peer_ip cache none log =
      first_up peer_ip cache (get_nat_record records peer_ip) log

  unfoldable pub on_child_up : Records → Text → RouteCache → Log → RouteCache × Log
  on_child_up records peer_ip cache log = up_from records peer_ip cache (get peer_ip cache) log

  abbrev pub down_from : Text → RouteCache → Option PeerRouteState → Log → RouteCache × Log
  down_from peer_ip cache none log = (cache, log)
  down_from peer_ip cache (some state) log =
      let count = state.child_sa_count - 1 in
      if ltb 0 count
      then (insert peer_ip (record state { child_sa_count = count }) cache, log)
      else (remove peer_ip cache, remove_routes state.global_ips log)

  unfoldable pub on_child_down : Text → RouteCache → Log → RouteCache × Log
  on_child_down peer_ip cache log = down_from peer_ip cache (get peer_ip cache) log

  unfoldable pub handle : Event → RouteCache × Log → RouteCache × Log
  handle (up records peer_ip) (cache, log) = on_child_up records peer_ip cache log
  handle (down peer_ip) (cache, log) = on_child_down peer_ip cache log

  unfoldable pub handle_all : List Event → RouteCache × Log → RouteCache × Log
  handle_all [] s = s
  handle_all (e ∷ es) s = handle_all es (handle e s)

  -- The startup collection of stale routes, on the lines of `ip -o route show`.
  abbrev device_route : Text → Text → Option Text
  device_route first dev =
      if starts_with (codes "xfrm-") dev || text_eq dev (codes "vpp-outer")
      then some first
      else none

  unfoldable pub token_after_dev : List Text → Option Text
  token_after_dev [] = none
  token_after_dev (t ∷ ts) =
      let rest = token_after_dev ts in if text_eq t (codes "dev") then get_elem? ts 0 else rest

  unfoldable pub route_dest : List Text → Option Text
  route_dest [] = none
  route_dest (t ∷ ts) =
      if text_eq t (codes "blackhole")
      then get_elem? ts 0
      else and_then (token_after_dev (t ∷ ts)) (device_route t)

  abbrev bare : Text → Option (Text × Text) → Option Text
  bare dest none = some dest
  bare dest (some (addr, len)) = if text_eq len (codes "32") then some addr else none

  unfoldable pub stale_route : List Text → List Text → Option Text
  stale_route live toks = and_then (route_dest toks) (λ dest.
      and_then (bare dest (split_once b'/' dest)) (λ addr.
        if not (is_some (parse_ipv4 addr)) || any (text_eq addr) live then none else some addr))

  abbrev del_stale : Option Text → Log → Log
  del_stale none log = log
  del_stale (some addr) log = (route_del addr log).1

  unfoldable pub gc_lines : List Text → List Text → Log → Log
  gc_lines live [] log = log
  gc_lines live (line ∷ lines) log =
      gc_lines live lines (del_stale (stale_route live (split_whitespace line)) log)

  abbrev gc_output : List Text → Option Output → Log → Log
  gc_output live none log = log
  gc_output live (some out) log =
      if out.success then gc_lines live (split_by (λ c. c == 10) out.stdout) log else log

  unfoldable pub gc_stale_routes : List Text → Log → Log
  gc_stale_routes live log =
      let show = Command.ip (codes "-o" ∷ codes "route" ∷ codes "show" ∷ []) in
      gc_output live (host log show) (run_ok host show log).1

-- ===== src/Node/Daemon.antt =====
-- ipsecnode/src/vici.rs: the task that keeps routes and sites in step with charon's tunnels
-- (`event_listener_task`), and ipsecnode/src/ondemand.rs, `replace_active_globals`.
pub mod Counted
mod Tests
use fleetsuite.Common.{
  ℕ, zero, suc, ◌+◌, ◌-◌, ◌*◌, ◌/◌, ◌%◌, ◌^◌, ◌≤◌, ◌<◌, ◌≡◌, refl, sym, ap, ap₂, subst, ◌∙◌, ◌≢◌,
  ◌↔◌, ◌⊎◌, inl, inr, Bool, true, false, not, ◌&&◌, ◌||◌, Option, none, some, List, [], ◌∷◌, ◌++◌,
  map, arith, ltb, leb, ◌==◌, if◌then◌else◌, ==_iff, Bool-cases, Option-cases, is_some, unwrap_or,
  map_option, and_then, length, get_elem?, any, all, find, filter, is_empty, All, length-append,
  filter_map, cons_some, flat_map, All-append, All-intro, All-mono, All-filter_map, All-flat_map,
}
use fleetsuite.Common.Text.{Text, codes, text_eq, join}
use fleetsuite.Node.Host.{Host, Log}
use fleetsuite.Node.Nat.{
  Records, RouteCache, on_child_up, on_child_down, cached_global_ips, gc_stale_routes,
}
use fleetsuite.Node.Vrf.{VrfCache, VrfAllocator, new_allocator}
use fleetsuite.Node.Vrf.Calls.{nft_batch}
use fleetsuite.Node.Vrf.Sites.{Env}
use fleetsuite.Node.Vrf.Events.{VrfState, vrf_child_up, vrf_child_down}
use fleetsuite.Node.Vici.{ViciRawValue, text_at, find_ike_section, list_established_peers}

-- The routes' cache, and the sites with the commands that both have run.
pub record Daemon : Type 0 where
  pub routes : RouteCache
  pub sites : VrfState

abbrev pub says_yes : Option Text → Bool
says_yes none = false
says_yes (some t) = text_eq t (codes "yes")

unfoldable pub is_up : ViciRawValue → Bool
is_up raw = says_yes (text_at (codes "up") raw)

unfoldable pub peer_ip_of : ViciRawValue → Text
peer_ip_of raw =
    unwrap_or (and_then (find_ike_section raw) (text_at (codes "remote-host"))) (codes "unknown")

abbrev pub with_log : VrfState → Log → VrfState
with_log s log = record s { log = log }

-- `vpp` is whether VPP is in use, `enabled` whether tunnels are brought up on demand.
module _ (env : Env) (vpp enabled : Bool) where
  abbrev pub sites_up : Records → Text → VrfState → VrfState
  sites_up records peer s = if vpp then vrf_child_up env records peer s else s

  abbrev pub sites_down : Text → VrfState → VrfState
  sites_down peer s = if vpp then vrf_child_down env peer s else s

  -- One answer of Valkey serves the routes and the site, which ask for the record one after the other.
  unfoldable pub child_up : Records → Text → Daemon → Daemon
  child_up records peer d =
      let routed = on_child_up env.host enabled records peer d.routes d.sites.log in
      record { routes = routed.0; sites = sites_up records peer (with_log d.sites routed.1) }

  unfoldable pub child_down : Text → Daemon → Daemon
  child_down peer d =
      let sites = sites_down peer d.sites in
      let unrouted = on_child_down env.host enabled peer d.routes sites.log in
      record { routes = unrouted.0; sites = with_log sites unrouted.1 }

  abbrev pub by_direction : Records → Text → Bool → Daemon → Daemon
  by_direction records peer true d = child_up records peer d
  by_direction records peer false d = child_down peer d

  unfoldable pub handle_child_updown : Records → ViciRawValue → Daemon → Daemon
  handle_child_updown records raw d = by_direction records (peer_ip_of raw) (is_up raw) d

  -- Valkey answers as at one time for all the peers.
  unfoldable pub replay : Records → List Text → Daemon → Daemon
  replay records [] d = d
  replay records (peer ∷ peers) d = replay records peers (child_up records peer d)

  abbrev active_batch : List Text → Text
  active_batch [] = codes "flush set ip ipsecnode_ondemand active_globals\n"
  active_batch (a ∷ rest) =
      codes "flush set ip ipsecnode_ondemand active_globals\n"
      ++ (codes "add element ip ipsecnode_ondemand active_globals { "
          ++ (join (codes ", ") (a ∷ rest) ++ codes " }\n"))

  -- A set of addresses is a list of them here.
  unfoldable pub replace_active_globals : List Text → Log → Log
  replace_active_globals desired log =
      if enabled then (nft_batch env.host (active_batch desired) log).1 else log

  -- The reconciliation at the start, on the replies of `list-sas`.
  unfoldable pub reconcile_startup : Records → List ViciRawValue → Log → Daemon
  reconcile_startup records sas log =
      let rebuilt = replay records (list_established_peers sas) (record {
        routes = [];
        sites = record { cache = []; allocator = new_allocator; log = log };
      }) in
      let live = cached_global_ips rebuilt.routes in
      record {
        routes = rebuilt.routes;
        sites =
            with_log rebuilt.sites (
              replace_active_globals live
                (gc_stale_routes env.host enabled live rebuilt.sites.log));
      }

  -- Valkey is asked anew for each event.
  unfoldable pub handle_stream : List (Records × ViciRawValue) → Daemon → Daemon
  handle_stream [] d = d
  handle_stream ((records, raw) ∷ stream) d =
      handle_stream stream (handle_child_updown records raw d)

  unfoldable pub event_listener_task :
      Records → List ViciRawValue → List (Records × ViciRawValue) → Log → Daemon
  event_listener_task records sas stream log =
      handle_stream stream (reconcile_startup records sas log)

-- ===== src/Node/Vrf/Events.antt =====
-- ipsecnode/src/vpp.rs: what a tunnel's UP and DOWN do to the sites and the allocator.
use fleetsuite.Common.{
  ℕ, ◌-◌, Bool, true, false, Option, none, some, List, [], ◌∷◌, ltb, if◌then◌else◌,
}
use fleetsuite.Common.Text.{Text}
use fleetsuite.Common.Assoc.{get, insert, remove}
use fleetsuite.Node.Host.{Log}
use fleetsuite.Node.Nat.{
  NatRecord, Records, Event, up, down, get_nat_record, is_customer_mode, incr,
}
use fleetsuite.Node.Vrf.{
  SiteVrfState, VrfCache, VrfAllocator, alloc, release, if_id_from_peer, inner_tap_name,
  tap_ips_from_idx,
}
use fleetsuite.Node.Vrf.Sites.{
  Env, setup_site_vrf, teardown_site_vrf, teardown_partial, setup_site_bypass, teardown_site_bypass,
  teardown_site_bypass_routes,
}

pub record VrfState : Type 0 where
  pub cache : VrfCache
  pub allocator : VrfAllocator
  pub log : Log

module _ (env : Env) where
  abbrev pub finish_bypass : Text → VrfState → NatRecord → Option SiteVrfState × Log → VrfState
  finish_bypass peer_ip s r (some site, log) = record s {
    cache = insert peer_ip site s.cache;
    log = log;
  }
  finish_bypass peer_ip s r (none, log) = record s { log = teardown_site_bypass_routes env r log }

  -- The allocator after taking the three indexes, and after giving them back.
  abbrev pub taken : VrfAllocator → VrfAllocator
  taken a = record { fwd = (alloc a.fwd).1; ret = (alloc a.ret).1; tap = (alloc a.tap).1 }

  abbrev pub given_back : ℕ → ℕ → ℕ → VrfAllocator → VrfAllocator
  given_back fwd_table ret_table tap_idx a = record {
    fwd = release fwd_table a.fwd;
    ret = release ret_table a.ret;
    tap = release tap_idx a.tap;
  }

  abbrev pub finish_vrf : Text → ℕ → VrfState → Option SiteVrfState × Log → VrfState
  finish_vrf peer_ip if_id s (some site, log) = record {
    cache = insert peer_ip site s.cache;
    allocator = taken s.allocator;
    log = log;
  }
  finish_vrf peer_ip if_id s (none, log) =
      let a = s.allocator in
      record {
        cache = s.cache;
        allocator = given_back (alloc a.fwd).0 (alloc a.ret).0 (alloc a.tap).0 (taken a);
        log = teardown_partial env (inner_tap_name if_id) (alloc a.fwd).0 (alloc a.ret).0 if_id log;
      }

  abbrev pub start_site : Text → ℕ → VrfState → NatRecord → Bool → VrfState
  start_site peer_ip if_id s r true =
      finish_bypass peer_ip s r (setup_site_bypass env peer_ip if_id r s.log)
  start_site peer_ip if_id s r false =
      let a = s.allocator in
      finish_vrf peer_ip if_id s (
        setup_site_vrf env peer_ip if_id (inner_tap_name if_id) (alloc a.fwd).0 (alloc a.ret).0
          (alloc a.tap).0 (tap_ips_from_idx (alloc a.tap).0) r s.log)

  abbrev pub with_record : Text → ℕ → VrfState → Option NatRecord → VrfState
  with_record peer_ip if_id s none = s
  with_record peer_ip if_id s (some r) = start_site peer_ip if_id s r (is_customer_mode r)

  abbrev pub with_id : Records → Text → VrfState → Option ℕ → VrfState
  with_id records peer_ip s none = s
  with_id records peer_ip s (some if_id) =
      with_record peer_ip if_id s (get_nat_record records peer_ip)

  abbrev pub site_up : Records → Text → VrfState → Option SiteVrfState → VrfState
  site_up records peer_ip s (some site) = record s {
    cache = insert peer_ip (record site { child_sa_count = incr site.child_sa_count }) s.cache;
  }
  site_up records peer_ip s none = with_id records peer_ip s (if_id_from_peer peer_ip)

  unfoldable pub vrf_child_up : Records → Text → VrfState → VrfState
  vrf_child_up records peer_ip s = site_up records peer_ip s (get peer_ip s.cache)

  abbrev pub last_down : Text → VrfState → SiteVrfState → VrfState
  last_down peer_ip s site =
      if site.bypass
      then record s { cache = remove peer_ip s.cache; log = teardown_site_bypass env site s.log }
      else record {
        cache = remove peer_ip s.cache;
        allocator = given_back site.fwd_table site.ret_table site.tap_idx s.allocator;
        log = teardown_site_vrf env site s.log;
      }

  abbrev pub site_down : Text → VrfState → Option SiteVrfState → VrfState
  site_down peer_ip s none = s
  site_down peer_ip s (some site) =
      let count = site.child_sa_count - 1 in
      if ltb 0 count
      then record s { cache = insert peer_ip (record site { child_sa_count = count }) s.cache }
      else last_down peer_ip s site

  unfoldable pub vrf_child_down : Text → VrfState → VrfState
  vrf_child_down peer_ip s = site_down peer_ip s (get peer_ip s.cache)

  unfoldable pub vrf_handle : Event → VrfState → VrfState
  vrf_handle (up records k) s = vrf_child_up records k s
  vrf_handle (down k) s = vrf_child_down k s

  unfoldable pub vrf_handle_all : List Event → VrfState → VrfState
  vrf_handle_all [] s = s
  vrf_handle_all (e ∷ es) s = vrf_handle_all es (vrf_handle e s)
